-- ===== src/Automaton/Epsilon.antt =====
-- `removeEpsilonTransitions` of libs/solvers/satencoding/regular/nfa.cpp against the runs.
use woorpje.Common.{
  ℕ, ◌<◌, ◌≡◌, ◌↔◌, ◌⊎◌, inl, inr, refl, sym, ap, ◌∙◌, subst, Bool, true, Bool-cases, Option, some,
  List, [], arith, append-nil,
}
use woorpje.Regex.Defs.{RegNode}
use woorpje.Regex.Lang.{Lang}
use woorpje.Automaton.Defs.{Nfa, ◌>>=◌, is_nil}
use woorpje.Automaton.Reach.{Reach, stay, by_letter, by_epsilon, Accepts, IsInRange, Reach-trans}
use woorpje.Automaton.Accept.{accept}
use woorpje.Automaton.Build.{regex_to_nfa}
use woorpje.Automaton.Proper.{IsProper}
use woorpje.Automaton.Thompson.{regex_to_nfa-Builds}
use woorpje.Automaton.Tracking.{constant_word, accept_lem}
use woorpje.Automaton.Remove.{remove_epsilon_transitions}
use woorpje.Automaton.Taken.{IsFrom}
use woorpje.Automaton.Skip.{IsSkipped, skip_epsilons_lem}

abbrev without_epsilons : Nfa → Nfa
without_epsilons n = record n { delta_epsilon = [] }

module _ (m : Nfa) (hm : IsInRange m) where
  self-IsFrom : IsFrom m m
  self-IsFrom = record {
    states = refl;
    starts = refl;
    epsilons = refl;
    in_range = hm;
    deltas = λ q r a i. (q, stay refl refl, i);
    finals = λ q i. (q, stay refl refl, i);
    grows = λ t i. i;
    keeps = λ q i. i;
  }

  without-IsInRange : (n : Nfa) → IsFrom m n → IsInRange (without_epsilons n)
  without-IsInRange n h = record {
    some_state = h.in_range.some_state;
    finals_lt = h.in_range.finals_lt;
    delta_lt = h.in_range.delta_lt;
    epsilon_lt = λ p q i. absurd i;
  }

  -- A run behind the change is one before it.
  run_before :
      (n : Nfa)
      → IsFrom m n
      → {p q : ℕ} {w : List ℕ} → Reach (without_epsilons n) p w q
      → Reach m p w q
  run_before n h (stay e k) = stay e k
  run_before n h {p} {q} {w} (by_letter u r c a x i t e) =
      let (s, k, j) = h.deltas r q a i in
      by_letter u s c a (Reach-trans u [] u (run_before n h x) k (sym (append-nil u))) j t e
  run_before n h (by_epsilon r x i) = absurd i

  -- A run before the change is one behind it, up to epsilon transitions at its end.
  run_behind :
      (n : Nfa)
      → IsFrom m n
      → ((p : ℕ) → p < m.num_states → IsSkipped m n p)
      → {p q : ℕ} {w : List ℕ} → p < m.num_states
      → Reach m p w q
      → (y : ℕ) × (y < m.num_states) × Reach (without_epsilons n) p w y × Reach m y [] q
  run_behind n h f {p} {q} l (stay e k) = (p, l, stay e refl, stay refl k)
  run_behind n h f {p} {q} l (by_letter u r c a x i t e) =
      let (y, b, k, s) = run_behind n h f l x in
      (q, (hm.delta_lt r q a i).1, by_letter u y c a k ((f y b r s).0 a q i) t e, stay refl refl)
  run_behind n h f {p} {q} l (by_epsilon r x i) =
      let (y, b, k, s) = run_behind n h f l x in (y, b, k, by_epsilon r s i)

  without-Accepts :
      (n : Nfa)
      → IsFrom m n
      → ((p : ℕ) → p < m.num_states → IsSkipped m n p)
      → (w : List ℕ) → Accepts (without_epsilons n) w ↔ Accepts m w
  without-Accepts n h f w = (
    λ (q, i, k).
        (let (e, s, j) = h.finals q i in
          (
            e,
            j,
            Reach-trans w [] w (subst (λ z. Reach m z w q) h.starts (run_before n h k)) s
                (sym (append-nil w)),
          )),
    λ (e, j, k).
        (let (y, b, s, t) = run_behind n h f hm.some_state k in
          (y, (f y b e t).1 j, subst (λ z. Reach (without_epsilons n) z w y) (sym h.starts) s)),
  )

-- Without epsilon transitions, or without any letter: what a call of removeEpsilonTransitions leaves.
abbrev pub IsReduced : Nfa → Type 0
IsReduced m = (m.delta_epsilon ≡ []) ⊎ (is_nil m.delta ≡ true)

-- On an automaton whose transitions are between its states, removeEpsilonTransitions returns one that
-- accepts the same words, whose transitions are between its states, and that has no epsilon
-- transition unless it has no transition with a letter.
pub remove_epsilon_transitions-Accepts :
    (m : Nfa)
    → IsInRange m
    → (n : Nfa) × (remove_epsilon_transitions m ≡ some n)
      × IsInRange n
      × IsReduced n
      × ((w : List ℕ) → Accepts n w ↔ Accepts m w)
unfolding remove_epsilon_transitions
remove_epsilon_transitions-Accepts m hm = elim (Bool-cases (is_nil m.delta)) [
  | inl z ↦ (m, rw z refl, hm, inr z, λ w. (λ h. h, λ h. h))
  | inr z ↦
      (let (n, d, h, f) =
          skip_epsilons_lem m m.num_states 0 m (self-IsFrom m hm) (omega arith)
            (λ p l. absurd (omega arith)) in
        (
          without_epsilons n,
          rw z (ap (λ (o : Option Nfa). o >>= λ m'. some (without_epsilons m')) d),
          without-IsInRange m hm n h,
          inl refl,
          without-Accepts m hm n h f,
        ))
]

-- The automaton of an expression without RegEmpty, without a union of nothing and with a child for
-- each star, with its epsilon transitions removed, answers true exactly on the words of the language,
-- and the three calls return.
pub accept-remove_epsilon_transitions :
    (r : RegNode) (v : List ℕ)
    → IsProper r
    → (n : Nfa) × ((regex_to_nfa r >>= remove_epsilon_transitions) ≡ some n)
      × IsReduced n
      × ((b : Bool) × (accept n (constant_word v) ≡ some b) × ((b ≡ true) ↔ Lang r v))
accept-remove_epsilon_transitions r v h =
    let (m, d, hm, f) = regex_to_nfa-Builds r h in
    let (n, d', hn, e, g) = remove_epsilon_transitions-Accepts m hm in
    let (b, k, i) = accept_lem n v hn in
    (
      n,
      ap (λ o. o >>= remove_epsilon_transitions) d ∙ d',
      e,
      (b, k, (λ t. (f v).0 ((g v).0 (i.0 t)), λ l. i.1 ((g v).1 ((f v).1 l)))),
    )
