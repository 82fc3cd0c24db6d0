-- ===== src/Automaton/Attach.antt =====
-- An automaton behind another one, as the loops of `regexToNfa` in
-- libs/solvers/satencoding/regular/nfa.cpp put it there: its states are moved behind the others, and
-- epsilon transitions lead from some states to its initial state.
use woorpje.Common.{
  ℕ, ◌+◌, ◌<◌, ◌≡◌, ◌⊎◌, inl, inr, refl, sym, ap, ◌∙◌, subst, List, [], ◌∷◌, ◌++◌, append_assoc,
  append-nil, arith,
}
use woorpje.Members.{In, In-append_inv, In-append_left, In-append_right, In-map, In-map_inv}
use mathlib.Core.List.{map}
use woorpje.Automaton.Defs.{Label, Nfa, shift, shift_pair}
use woorpje.Automaton.Reach.{
  Takes, Reach, stay, by_letter, by_epsilon, Reach-trans, Reach-mono, IsInRange,
}

abbrev pub attached : Nfa → Nfa → List ℕ → Nfa
attached m sub qs = record m {
  num_states = m.num_states + sub.num_states;
  delta = m.delta ++ map (shift m.num_states) sub.delta;
  delta_epsilon =
      (m.delta_epsilon ++ map (shift_pair m.num_states) sub.delta_epsilon)
      ++ map (λ q. (q, sub.init_state + m.num_states)) qs;
}

abbrev pub AllBelow : ℕ → List ℕ → Type 0
AllBelow n qs = (q : ℕ) → In q qs → q < n

-- A run goes through the second automaton behind a run of the first one.
abbrev pub Through : Nfa → Nfa → List ℕ → ℕ → List ℕ → ℕ → Type 0
Through m sub qs p w s =
    (u : List ℕ) × (v : List ℕ) × (f : ℕ) × In f qs
    × Reach m p u f
    × Reach sub sub.init_state v s
    × (w ≡ u ++ v)

module _ (m sub : Nfa) (qs : List ℕ) where
  pub attached_left : {p q : ℕ} {w : List ℕ} → Reach m p w q → Reach (attached m sub qs) p w q
  attached_left h =
      Reach-mono (λ t i. In-append_left t _ _ i)
        (λ t i. In-append_left t _ _ (In-append_left t _ _ i)) h

  pub attached_right :
      {p q : ℕ} {w : List ℕ}
      → Reach sub p w q
      → Reach (attached m sub qs) (p + m.num_states) w (q + m.num_states)
  attached_right (stay e k) = stay e (ap (λ z. z + m.num_states) k)
  attached_right (by_letter u r c a h i t e) =
      by_letter u (r + m.num_states) c a (attached_right h)
        (In-append_right _ m.delta _ (In-map (shift m.num_states) _ sub.delta i)) t e
  attached_right (by_epsilon r h i) = by_epsilon (r + m.num_states) (attached_right h) (
      In-append_left _ (m.delta_epsilon ++ map (shift_pair m.num_states) sub.delta_epsilon) _ (
        In-append_right _ m.delta_epsilon _
          (In-map (shift_pair m.num_states) _ sub.delta_epsilon i)))

  pub attached_through :
      {p s : ℕ} {w : List ℕ}
      → Through m sub qs p w s
      → Reach (attached m sub qs) p w (s + m.num_states)
  attached_through (u, v, f, i, h, k, e) =
      let bridge =
        In-append_right (f, sub.init_state + m.num_states)
          (m.delta_epsilon ++ map (shift_pair m.num_states) sub.delta_epsilon) _
          (In-map (λ q. (q, sub.init_state + m.num_states)) f qs i) in
      Reach-trans u v _ (by_epsilon f (attached_left h) bridge) (attached_right k) e

  abbrev pub Split : ℕ → List ℕ → ℕ → Type 0
  Split p w q =
      ((q < m.num_states) × Reach m p w q)
      ⊎ ((s : ℕ) × (q ≡ s + m.num_states) × Through m sub qs p w s)

  module _ (hm : IsInRange m) (hs : IsInRange sub) (hq : AllBelow m.num_states qs) where
    letter_old :
        (p q : ℕ) (w u : List ℕ) (r c : ℕ) (a : Label)
        → Split p u r
        → In (r, a, q) m.delta
        → Takes a c
        → w ≡ u ++ c ∷ []
        → Split p w q
    letter_old p q w u r c a (inl (l, g)) j t e =
        inl ((hm.delta_lt r q a j).1, by_letter u r c a g j t e)
    letter_old p q w u r c a (inr (s, k, g)) j t e =
        absurd (let b = (hm.delta_lt r q a j).0 in omega arith)

    letter_new :
        (p q : ℕ) (w u : List ℕ) (r c r' q' : ℕ) (a : Label)
        → Split p u r
        → In (r', a, q') sub.delta
        → r ≡ r' + m.num_states
        → q ≡ q' + m.num_states
        → Takes a c
        → w ≡ u ++ c ∷ []
        → Split p w q
    letter_new p q w u r c r' q' a (inl (l, g)) j d d' t e = absurd (omega arith)
    letter_new p q w u r c r' q' a (inr (s, k, (x, y, f, i, h, g, o))) j d d' t e =
        let same : s ≡ r' = omega arith in
        let g' = subst (Reach sub sub.init_state y) same g in
        let o' = e ∙ ap (λ z. z ++ c ∷ []) o ∙ append_assoc x y (c ∷ []) in
        inr (q', d', (x, y ++ c ∷ [], f, i, h, by_letter y r' c a g' j t refl, o'))

    epsilon_old :
        (p q : ℕ) (w : List ℕ) (r : ℕ) → Split p w r → In (r, q) m.delta_epsilon → Split p w q
    epsilon_old p q w r (inl (l, g)) j = inl ((hm.epsilon_lt r q j).1, by_epsilon r g j)
    epsilon_old p q w r (inr (s, k, g)) j = absurd (let b = (hm.epsilon_lt r q j).0 in omega arith)

    epsilon_new :
        (p q : ℕ) (w : List ℕ) (r r' q' : ℕ)
        → Split p w r
        → In (r', q') sub.delta_epsilon
        → r ≡ r' + m.num_states
        → q ≡ q' + m.num_states
        → Split p w q
    epsilon_new p q w r r' q' (inl (l, g)) j d d' = absurd (omega arith)
    epsilon_new p q w r r' q' (inr (s, k, (x, y, f, i, h, g, o))) j d d' =
        let same : s ≡ r' = omega arith in
        let g' = subst (Reach sub sub.init_state y) same g in
        inr (q', d', (x, y, f, i, h, by_epsilon r' g' j, o))

    epsilon_bridge :
        (p q : ℕ) (w : List ℕ) (r : ℕ)
        → Split p w r
        → In r qs
        → q ≡ sub.init_state + m.num_states
        → Split p w q
    epsilon_bridge p q w r (inl (l, g)) i d =
        inr (sub.init_state, d, (w, [], r, i, g, stay refl refl, sym (append-nil w)))
    epsilon_bridge p q w r (inr (s, k, g)) i d = absurd (let b = hq r i in omega arith)

    -- A run from the first automaton stays there or goes through the second one.
    pub attached_inv :
        {p q : ℕ} {w : List ℕ} → p < m.num_states → Reach (attached m sub qs) p w q → Split p w q
    attached_inv {p} {q} {w} l (stay e k) = inl (rw k l, stay e k)
    attached_inv {p} {q} {w} l (by_letter u r c a h i t e) =
        elim (In-append_inv (r, a, q) m.delta _ i) [
          | inl j ↦ letter_old p q w u r c a (attached_inv l h) j t e
          | inr j ↦
              (let ((r', a', q'), k, d) = In-map_inv (shift m.num_states) _ sub.delta j in
                let same : a' ≡ a = ap (λ z. z.1) (sym d) in
                letter_new p q w u r c r' q' a (attached_inv l h)
                  (subst (λ z. In (r', z, q') sub.delta) same k) (ap (λ z. z.0) d) (ap (λ z. z.2) d)
                  t e)
        ]
    attached_inv {p} {q} {w} l (by_epsilon r h i) =
        elim (In-append_inv (r, q)
          (m.delta_epsilon ++ map (shift_pair m.num_states) sub.delta_epsilon) _ i) [
            | inl j ↦ elim (In-append_inv (r, q) m.delta_epsilon _ j) [
              | inl k ↦ epsilon_old p q w r (attached_inv l h) k
              | inr k ↦
                  (let ((r', q'), n, d) =
                      In-map_inv (shift_pair m.num_states) _ sub.delta_epsilon k in
                    epsilon_new p q w r r' q' (attached_inv l h) n (ap (λ z. z.0) d)
                      (ap (λ z. z.1) d))
            ]
            | inr j ↦
                (let (f, n, d) = In-map_inv (λ z. (z, sub.init_state + m.num_states)) _ qs j in
                  epsilon_bridge p q w r (attached_inv l h)
                    (subst (λ z. In z qs) (sym (ap (λ z. z.0) d)) n) (ap (λ z. z.1) d))
          ]

    pub attached-IsInRange : IsInRange (attached m sub qs)
    attached-IsInRange = record {
      some_state = omega (arith, hm.some_state);
      finals_lt = λ q i. (let b = hm.finals_lt q i in omega arith);
      delta_lt = λ p q a i. elim (In-append_inv (p, a, q) m.delta _ i) [
        | inl j ↦ (let b = hm.delta_lt p q a j in omega arith)
        | inr j ↦
            (let ((r', a', q'), k, d) = In-map_inv (shift m.num_states) _ sub.delta j in
              let b = hs.delta_lt r' q' a' k in
              let x = ap (λ z. z.0) d in let y = ap (λ z. z.2) d in omega arith)
      ];
      epsilon_lt = λ p q i.
          elim (In-append_inv (p, q)
            (m.delta_epsilon ++ map (shift_pair m.num_states) sub.delta_epsilon) _ i) [
              | inl j ↦ elim (In-append_inv (p, q) m.delta_epsilon _ j) [
                | inl k ↦ (let b = hm.epsilon_lt p q k in omega arith)
                | inr k ↦
                    (let ((r', q'), n, d) =
                        In-map_inv (shift_pair m.num_states) _ sub.delta_epsilon k in
                      let b = hs.epsilon_lt r' q' n in
                      let x = ap (λ z. z.0) d in let y = ap (λ z. z.1) d in omega arith)
              ]
              | inr j ↦
                  (let (f, n, d) = In-map_inv (λ z. (z, sub.init_state + m.num_states)) _ qs j in
                    let b = hq f n in
                    let c = hs.some_state in
                    let x = ap (λ z. z.0) d in let y = ap (λ z. z.1) d in omega arith)
            ];
    }
