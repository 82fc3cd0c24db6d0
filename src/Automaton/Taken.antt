-- ===== src/Automaton/Taken.antt =====
-- `removeEpsilonTransitions` of libs/solvers/satencoding/regular/nfa.cpp: automata on the way.
use woorpje.Common.{
  ℕ, ◌<◌, ◌≡◌, ◌⊎◌, inl, inr, refl, sym, ap, ◌∙◌, subst, List, [], ◌∷◌, ◌++◌, arith,
}
use woorpje.Members.{In, In-append_inv, In-append_left, In-map_inv}
use woorpje.Automaton.Defs.{Label, Transition, Nfa, transitions_of}
use woorpje.Automaton.Reach.{Reach, stay, by_letter, by_epsilon, IsInRange, Reach-trans}
use woorpje.Automaton.Onward.{transitions_of_iff}
use woorpje.Automaton.Remove.{skipping}

not_snoc : (v : List ℕ) (c : ℕ) → [] ≡ v ++ c ∷ [] → ⊥
not_snoc [] c h = cc
not_snoc (z ∷ v) c h = cc

-- Runs on the empty word take epsilon transitions alone.
pub silent-Reach :
    {m n : Nfa} {p q : ℕ} {w : List ℕ}
    → m.delta_epsilon ≡ n.delta_epsilon
    → w ≡ []
    → Reach m p w q
    → Reach n p w q
silent-Reach f g (stay e k) = stay e k
silent-Reach f g (by_letter u r c a h i t e) = absurd (not_snoc u c (sym g ∙ e))
silent-Reach {q = q} f g (by_epsilon r h i) =
    by_epsilon r (silent-Reach f g h) (subst (λ z. In (r, q) z) f i)

module _ (m : Nfa) where
  -- Epsilon transitions of `m` and then a transition or a final state of it.
  pub record IsFrom (n : Nfa) : Type 0 where
    pub states : n.num_states ≡ m.num_states
    pub starts : n.init_state ≡ m.init_state
    pub epsilons : n.delta_epsilon ≡ m.delta_epsilon
    pub in_range : IsInRange n
    pub deltas :
        (q r : ℕ) (a : Label)
        → In (q, a, r) n.delta
        → (e : ℕ) × Reach m q [] e × In (e, a, r) m.delta
    pub finals : (q : ℕ) → In q n.final_states → (e : ℕ) × Reach m q [] e × In e m.final_states
    pub grows : (t : Transition) → In t m.delta → In t n.delta
    pub keeps : (q : ℕ) → In q m.final_states → In q n.final_states

  -- The transitions of `e`, and whether it is final, are taken over by `q`.
  abbrev pub IsDone : Nfa → ℕ → ℕ → Type 0
  IsDone n q e =
      ((a : Label) (r : ℕ) → In (e, a, r) m.delta → In (q, a, r) n.delta)
      × (In e m.final_states → In q n.final_states)

  abbrev pub Grows : Nfa → Nfa → Type 0
  Grows n n' =
      ((t : Transition) → In t n.delta → In t n'.delta)
      × ((q : ℕ) → In q n.final_states → In q n'.final_states)

  pub IsDone-mono : (n n' : Nfa) (q e : ℕ) → Grows n n' → IsDone n q e → IsDone n' q e
  IsDone-mono n n' q e (f, g) (d, k) = (λ a r i. f (q, a, r) (d a r i), λ i. g q (k i))

  -- With the transitions of `e` at `q` too.
  abbrev pub extended : Nfa → List ℕ → ℕ → ℕ → Nfa
  extended n fs q e = record n {
    final_states = fs;
    delta = n.delta ++ skipping q (transitions_of e n.delta);
  }

  pub skipping_inv :
      (n : Nfa) (q e p r : ℕ) (a : Label)
      → In (p, a, r) (skipping q (transitions_of e n.delta))
      → (p ≡ q) × In (e, a, r) n.delta
  skipping_inv n q e p r a i =
      let ((a', r'), j, d) = In-map_inv (λ (b, s). (q, b, s)) _ (transitions_of e n.delta) i in
      (
        ap (λ z. z.0) d,
        subst (λ (z : Label × ℕ). In (e, z.0, z.1) n.delta) (ap (λ z. (z.1, z.2)) (sym d))
            ((transitions_of_iff e r' a' n.delta).0 j),
      )

  pub extended-IsFrom :
      (n : Nfa) (fs : List ℕ) (q e : ℕ)
      → IsFrom n
      → q < m.num_states
      → Reach m q [] e
      → ((x : ℕ) → In x fs → In x n.final_states ⊎ ((x ≡ q) × In e n.final_states))
      → ((x : ℕ) → In x n.final_states → In x fs)
      → IsFrom (extended n fs q e)
  extended-IsFrom n fs q e h b k f g = record {
    states = h.states;
    starts = h.starts;
    epsilons = h.epsilons;
    in_range = record {
      some_state = h.in_range.some_state;
      finals_lt = λ x i. elim (f x i) [
        | inl j ↦ h.in_range.finals_lt x j
        | inr (d, j) ↦ omega (arith, d, b, h.states)
      ];
      delta_lt = λ p r a i. elim (In-append_inv (p, a, r) n.delta _ i) [
        | inl j ↦ h.in_range.delta_lt p r a j
        | inr j ↦
            (let (d, l) = skipping_inv n q e p r a j in
              let t = h.in_range.delta_lt e r a l in (omega (arith, d, b, h.states), t.1))
      ];
      epsilon_lt = h.in_range.epsilon_lt;
    };
    deltas = λ p r a i. elim (In-append_inv (p, a, r) n.delta _ i) [
      | inl j ↦ h.deltas p r a j
      | inr j ↦
          (let (d, l) = skipping_inv n q e p r a j in
            let (e', x, t) = h.deltas e r a l in
            (e', subst (λ z. Reach m z [] e') (sym d) (Reach-trans [] [] [] k x refl), t))
    ];
    finals = λ x i. elim (f x i) [
      | inl j ↦ h.finals x j
      | inr (d, j) ↦
          (let (e', y, t) = h.finals e j in
            (e', subst (λ z. Reach m z [] e') (sym d) (Reach-trans [] [] [] k y refl), t))
    ];
    grows = λ t i. In-append_left t n.delta _ (h.grows t i);
    keeps = λ x i. g x (h.keeps x i);
  }
