-- ===== src/Automaton/Chain.antt =====
-- `regexToNfa` on a word: a chain of states.
use woorpje.Common.{
  ℕ, suc, ◌<◌, ◌≡◌, ◌↔◌, ◌⊎◌, inl, inr, refl, sym, ap, ◌∙◌, subst, some, List, [], ◌∷◌, ◌++◌,
  append_assoc, append-nil, arith,
}
use woorpje.Members.{In, In-append_inv, In-append_left, In-append_right}
use woorpje.Automaton.Defs.{Nfa, Label, letter, epsilon, ◌>>=◌, new_state}
use woorpje.Automaton.Reach.{
  Takes, Reach, stay, by_letter, by_epsilon, Leads, Accepts, IsInRange, Reach-mono,
}
use woorpje.Automaton.Build.{word_loop}
use woorpje.Automaton.Steps.{add_transition_lem, add_final_state_lem}
use woorpje.Automaton.Parts.{IsOpen}

-- One state more, behind `p`.
abbrev longer : Nfa → ℕ → ℕ → Nfa
longer m p c = record m {
  num_states = suc m.num_states;
  delta = m.delta ++ (p, letter c, m.num_states) ∷ [];
}

module _ (m : Nfa) (p c : ℕ) (hm : IsInRange m) (hp : p < m.num_states) where
  abbrev Steps : List ℕ → ℕ → Type 0
  Steps w q =
      ((q < m.num_states) × Reach m m.init_state w q)
      ⊎ ((q ≡ m.num_states) × ((u : List ℕ) × Reach m m.init_state u p × (w ≡ u ++ c ∷ [])))

  old_letter :
      (w u : List ℕ) (r q d : ℕ) (a : Label)
      → Steps u r
      → In (r, a, q) m.delta
      → Takes a d
      → w ≡ u ++ d ∷ []
      → Steps w q
  old_letter w u r q d a (inl (l, g)) j t e =
      inl ((hm.delta_lt r q a j).1, by_letter u r d a g j t e)
  old_letter w u r q d a (inr (f, g)) j t e =
      absurd (let b = (hm.delta_lt r q a j).0 in omega arith)

  new_letter :
      (w u : List ℕ) (r q d : ℕ)
      → Steps u r
      → r ≡ p
      → q ≡ m.num_states
      → d ≡ c
      → w ≡ u ++ d ∷ []
      → Steps w q
  new_letter w u r q d (inl (l, g)) e f k o =
      inr (f, (u, subst (Reach m m.init_state u) e g, o ∙ ap (λ z. u ++ z ∷ []) k))
  new_letter w u r q d (inr (e', g)) e f k o = absurd (omega arith)

  old_epsilon : (w : List ℕ) (r q : ℕ) → Steps w r → In (r, q) m.delta_epsilon → Steps w q
  old_epsilon w r q (inl (l, g)) j = inl ((hm.epsilon_lt r q j).1, by_epsilon r g j)
  old_epsilon w r q (inr (e, g)) j = absurd (let b = (hm.epsilon_lt r q j).0 in omega arith)

  longer-Steps : {w : List ℕ} {q : ℕ} → Reach (longer m p c) m.init_state w q → Steps w q
  longer-Steps {w} {q} (stay e k) = inl (rw k hm.some_state, stay e k)
  longer-Steps {w} {q} (by_letter u r d a h i t e) = elim (In-append_inv (r, a, q) m.delta _ i) [
    | inl j ↦ old_letter w u r q d a (longer-Steps h) j t e
    | inr (inl j) ↦
        new_letter w u r q d (longer-Steps h) (ap (λ z. z.0) j) (ap (λ z. z.2) j)
          (takes a (ap (λ z. z.1) j) t) e
    | inr (inr j) ↦ absurd j
  ]
    where
      takes : (b : Label) → b ≡ letter c → Takes b d → d ≡ c
      takes (letter x) j t = cc
      takes epsilon j t = cc
  longer-Steps {w} {q} (by_epsilon r h i) = old_epsilon w r q (longer-Steps h) i

  longer-Leads :
      (pre : List ℕ)
      → ((w : List ℕ) → Leads m (p ∷ []) w ↔ (w ≡ pre))
      → (w : List ℕ) → Leads (longer m p c) (m.num_states ∷ []) w ↔ (w ≡ pre ++ c ∷ [])
  longer-Leads pre f w = (
    λ (q, i, h). elim i [
      | inl e ↦ elim (longer-Steps h) [
        | inl (l, g) ↦ absurd (omega arith)
        | inr (d, (u, g, o)) ↦ o ∙ ap (λ z. z ++ c ∷ []) ((f u).0 (p, inl refl, g))
      ]
      | inr k ↦ absurd k
    ],
    λ e. (let (q, i, h) = (f pre).1 refl in (m.num_states, inl refl, last q i h e)),
  )
    where
      last :
          (q : ℕ)
          → In q (p ∷ [])
          → Reach m m.init_state pre q
          → w ≡ pre ++ c ∷ []
          → Reach (longer m p c) m.init_state w m.num_states
      last q (inl d) h e =
          by_letter pre p c (letter c)
            (Reach-mono (λ t i. In-append_left t _ _ i) (λ t i. i)
              (subst (Reach m m.init_state pre) d h))
            (In-append_right _ m.delta _ (inl refl)) refl e
      last q (inr d) h e = absurd d

  longer-IsInRange : IsInRange (longer m p c)
  longer-IsInRange = record {
    some_state = omega (arith, hm.some_state);
    finals_lt = λ q i. (let b = hm.finals_lt q i in omega arith);
    delta_lt = λ x y a i. elim (In-append_inv (x, a, y) m.delta _ i) [
      | inl j ↦ (let b = hm.delta_lt x y a j in omega arith)
      | inr (inl j) ↦ (let s = ap (λ z. z.0) j in let t = ap (λ z. z.2) j in omega arith)
      | inr (inr j) ↦ absurd j
    ];
    epsilon_lt = λ x y i. (let b = hm.epsilon_lt x y i in omega arith);
  }

-- The chain accepts the word behind the one that leads to its end.
pub word_loop_lem :
    (u : List ℕ) (p : ℕ) (m : Nfa) (pre : List ℕ)
    → IsOpen m
    → p < m.num_states
    → ((w : List ℕ) → Leads m (p ∷ []) w ↔ (w ≡ pre))
    → (n : Nfa) × (word_loop u p m ≡ some n)
      × IsInRange n
      × ((w : List ℕ) → Accepts n w ↔ (w ≡ pre ++ u))
unfolding word_loop
word_loop_lem [] p m pre ho hp f = (
  record m { final_states = m.final_states ++ p ∷ [] },
  add_final_state_lem m p hp,
  record {
    some_state = ho.in_range.some_state;
    finals_lt = λ q i. elim (In-append_inv q m.final_states (p ∷ []) i) [
      | inl j ↦ ho.in_range.finals_lt q j
      | inr (inl e) ↦ omega arith
      | inr (inr e) ↦ absurd e
    ];
    delta_lt = ho.in_range.delta_lt;
    epsilon_lt = ho.in_range.epsilon_lt;
  },
  λ w. (
    λ (q, i, h).
        (let j = subst (λ z. In q (z ++ p ∷ [])) ho.no_final i in
          (f w).0 (q, j, Reach-mono (λ t i. i) (λ t i. i) h) ∙ sym (append-nil pre)),
    λ e.
        (let (q, i, h) = (f w).1 (e ∙ append-nil pre) in
          (q, In-append_right q m.final_states _ i, Reach-mono (λ t i. i) (λ t i. i) h)),
  ),
)
word_loop_lem (c ∷ u) p m pre ho hp f =
    let step =
      add_transition_lem (new_state m) p (letter c) m.num_states (omega arith) (omega arith) in
    let open_next : IsOpen (longer m p c) = record {
      in_range = longer-IsInRange m p c ho.in_range hp;
      starts = ho.starts;
      no_final = ho.no_final;
    } in
    let (n, e, r, g) =
      word_loop_lem u m.num_states (longer m p c) (pre ++ c ∷ []) open_next (omega arith)
        (longer-Leads m p c ho.in_range hp pre f) in
    let assoc = append_assoc pre (c ∷ []) u in
    (
      n,
      ap (λ z. z >>= word_loop u m.num_states) step ∙ e,
      r,
      λ w. (λ h. (g w).0 h ∙ assoc, λ h. (g w).1 (h ∙ sym assoc)),
    )
