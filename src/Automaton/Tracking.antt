-- ===== src/Automaton/Tracking.antt =====
-- `accept` of libs/solvers/satencoding/regular/nfa.cpp against the runs.
use woorpje.Common.{
  ℕ, ◌≡◌, ◌↔◌, inl, inr, refl, sym, ap, ◌∙◌, subst, Bool, true, Bool-cases, some, List, [], ◌∷◌,
  ◌++◌, arith, append_assoc, append-nil,
}
use woorpje.Members.{In, mem, mem_iff}
use mathlib.Core.List.{map}
use woorpje.Word.Defs.{Word, terminal, sequence, iterate}
use woorpje.Regex.Defs.{RegNode}
use woorpje.Regex.Lang.{Lang}
use woorpje.Automaton.Defs.{Nfa, Label, ◌>>=◌}
use woorpje.Automaton.Reach.{
  Takes, Reach, stay, by_letter, by_epsilon, Accepts, IsInRange, Reach-trans,
}
use woorpje.Automaton.Accept.{some_member, accept_loop, accept}
use woorpje.Automaton.Closure.{closure_of_lem}
use woorpje.Automaton.Build.{regex_to_nfa}
use woorpje.Automaton.Proper.{IsProper}
use woorpje.Automaton.Thompson.{regex_to_nfa-Builds}
use woorpje.Automaton.Onward.{Onward, FromSome, next_states_lem}

snoc_injective : (u v : List ℕ) (c d : ℕ) → u ++ c ∷ [] ≡ v ++ d ∷ [] → (u ≡ v) × (c ≡ d)
snoc_injective [] [] c d h = (refl, cc)
snoc_injective [] (y ∷ []) c d h = absurd cc
snoc_injective [] (y ∷ z ∷ v) c d h = absurd cc
snoc_injective (x ∷ []) [] c d h = absurd cc
snoc_injective (x ∷ z ∷ u) [] c d h = absurd cc
snoc_injective (x ∷ u) (y ∷ v) c d h = let (e, k) = snoc_injective u v c d (cc) in (cc, k)

-- A run on a word that ends with a letter: up to the letter, over it, and on the empty word.
last_letter :
    (m : Nfa) (p : ℕ) {w : List ℕ} {x : ℕ} (u : List ℕ) (c : ℕ)
    → Reach m p w x
    → w ≡ u ++ c ∷ []
    → (q : ℕ) × (a : Label) × (r : ℕ) × Reach m p u q × In (q, a, r) m.delta × Onward m c a r x
last_letter m p u c (stay e k) h = absurd (never u (sym e ∙ h))
  where
    never : (v : List ℕ) → [] ≡ v ++ c ∷ [] → ⊥
    never [] h = cc
    never (z ∷ v) h = cc
last_letter m p {w} {x} u c (by_letter v q d a h i t e) k =
    let (f, g) = snoc_injective v u d c (sym e ∙ k) in
    (q, a, x, subst (λ z. Reach m p z q) f h, i, (subst (Takes a) g t, stay refl refl))
last_letter m p u c (by_epsilon y h i) k =
    let (q, a, r, g, j, (t, o)) = last_letter m p u c h k in (q, a, r, g, j, (t, by_epsilon y o i))

some_member_iff : (qs s : List ℕ) → (some_member qs s ≡ true) ↔ ((q : ℕ) × In q qs × In q s)
unfolding some_member
some_member_iff [] s = (λ h. cc, λ (q, i, j). absurd i)
some_member_iff (q ∷ qs) s =
    let ih = some_member_iff qs s in
    (
      λ h. elim (Bool-cases (mem q s)) [
        | inl e ↦ (q, inl refl, (mem_iff q s).0 e)
        | inr e ↦ (let (p, i, j) = ih.0 (ground arith) in (p, inr i, j))
      ],
      λ (p, i, j). elim i [
        | inl e ↦ (let k = (mem_iff q s).1 (subst (λ z. In z s) e j) in ground arith)
        | inr k ↦ (let l = ih.1 (p, k, j) in ground arith)
      ],
    )

-- The states that the loop holds behind the word `u`.
abbrev Tracks : Nfa → List ℕ → List ℕ → Type 0
Tracks m u s = (x : ℕ) → In x s ↔ Reach m m.init_state u x

next-Tracks :
    (m : Nfa) (u : List ℕ) (c : ℕ) (s t : List ℕ)
    → Tracks m u s
    → ((x : ℕ) → In x t ↔ FromSome m c s x)
    → Tracks m (u ++ c ∷ []) t
next-Tracks m u c s t f g x = (
  λ h.
      (let (q, a, r, i, j, (k, o)) = (g x).0 h in
        Reach-trans (u ++ c ∷ []) [] _ (by_letter u q c a ((f q).0 i) j k refl) o
          (sym (append-nil (u ++ c ∷ [])))),
  λ h.
      (let (q, a, r, k, j, o) = last_letter m m.init_state u c h refl in
        (g x).1 (q, a, r, (f q).1 k, j, o)),
)

accept_loop_lem :
    (m : Nfa) (hm : IsInRange m) (v u s : List ℕ)
    → Tracks m u s
    → (b : Bool) × (accept_loop m (map terminal v) s ≡ some b) × ((b ≡ true) ↔ Accepts m (u ++ v))
unfolding accept_loop
accept_loop_lem m hm [] u s f =
    let i = some_member_iff m.final_states s in
    let same = append-nil u in
    (
      some_member m.final_states s,
      refl,
      (
        λ h.
            (let (q, j, k) = i.0 h in
              (q, j, subst (λ z. Reach m m.init_state z q) (sym same) ((f q).0 k))),
        λ (q, j, k). i.1 (q, j, (f q).1 (subst (λ z. Reach m m.init_state z q) same k)),
      ),
    )
accept_loop_lem m hm (c ∷ v) u s f =
    let (t, e, g) = next_states_lem m c hm s in
    let (b, d, k) = accept_loop_lem m hm v (u ++ c ∷ []) t (next-Tracks m u c s t f g) in
    let same = append_assoc u (c ∷ []) v in
    (
      b,
      ap (λ o. o >>= accept_loop m (map terminal v)) e ∙ d,
      (λ h. subst (Accepts m) same (k.0 h), λ h. k.1 (subst (Accepts m) (sym same) h)),
    )

-- The word of some terminals, as a sequence.
abbrev pub constant_word : List ℕ → Word
constant_word v = sequence v ∷ []

-- On an automaton whose transitions are between its states, accept returns on each word of terminals,
-- and it answers true exactly if a run on the word ends in a final state.
pub accept_lem :
    (m : Nfa) (v : List ℕ)
    → IsInRange m
    → (b : Bool) × (accept m (constant_word v) ≡ some b) × ((b ≡ true) ↔ Accepts m v)
unfolding accept iterate
accept_lem m v hm =
    let (r, e, f) = closure_of_lem m m.init_state hm in
    let (b, d, k) = accept_loop_lem m hm v [] (m.init_state ∷ r.0) f in
    (
      b,
      ap (λ o. o >>= λ f. accept_loop m (iterate (constant_word v)) (m.init_state ∷ f.0)) e
          ∙ ap (λ w. accept_loop m w (m.init_state ∷ r.0)) (append-nil (map terminal v))
          ∙ d,
      k,
    )

-- The automaton of an expression without RegEmpty, without a union of nothing and with a child for
-- each star answers true exactly on the words of the language, and both calls return.
pub accept-regex_to_nfa :
    (r : RegNode) (v : List ℕ)
    → IsProper r
    → (m : Nfa) × (regex_to_nfa r ≡ some m)
      × ((b : Bool) × (accept m (constant_word v) ≡ some b) × ((b ≡ true) ↔ Lang r v))
accept-regex_to_nfa r v h =
    let (m, e, hm, f) = regex_to_nfa-Builds r h in
    let (b, d, k) = accept_lem m v hm in
    (m, e, (b, d, (λ t. (f v).0 (k.0 t), λ l. k.1 ((f v).1 l))))
