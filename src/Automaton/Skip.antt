-- ===== src/Automaton/Skip.antt =====
-- The loops of `removeEpsilonTransitions` of libs/solvers/satencoding/regular/nfa.cpp.
use woorpje.Common.{
  ℕ, zero, suc, ◌+◌, ◌<◌, ◌≡◌, ◌⊎◌, inl, inr, refl, sym, ap, ◌∙◌, subst, Bool-cases, Option, none,
  some, List, [], ◌∷◌, ◌++◌, arith,
}
use woorpje.Members.{In, In-append_inv, In-append_left, In-append_right, In-map, mem, mem_iff}
use woorpje.Automaton.Defs.{Label, Nfa, ◌>>=◌, transitions_of, add_transitions}
use woorpje.Automaton.Reach.{Reach}
use woorpje.Automaton.Steps.{TransitionsBelow, add_transitions_lem, add_final_state_lem}
use woorpje.Automaton.Closure.{closure_of_lem}
use woorpje.Automaton.Onward.{transitions_of_iff}
use woorpje.Automaton.Accept.{closure_of}
use woorpje.Automaton.Remove.{skipping, skip_one, skip_each, skip_epsilons}
use woorpje.Automaton.Taken.{
  IsFrom, IsDone, Grows, IsDone-mono, extended, skipping_inv, extended-IsFrom, silent-Reach,
}

module _ (m : Nfa) where
  skip_one_lem :
      (n : Nfa) (q e : ℕ)
      → IsFrom m n
      → q < m.num_states
      → Reach m q [] e
      → (n' : Nfa) × (skip_one q e n ≡ some n') × IsFrom m n' × Grows m n n' × IsDone m n' q e
  unfolding skip_one
  skip_one_lem n q e h b k = elim (Bool-cases (mem e n.final_states)) [
    | inl t ↦
        (let fs : List ℕ = n.final_states ++ q ∷ [] in
          (
            extended m n fs q e,
            rw t (
                ap (λ o. o >>= λ m'. add_transitions (skipping q (transitions_of e m'.delta)) m')
                  (add_final_state_lem n q (omega (arith, b, h.states)))
                ∙ add_transitions_lem (skipping q (transitions_of e n.delta))
                    (record n { final_states = fs }) below),
            extended-IsFrom m n fs q e h b k
                (λ x i. elim (In-append_inv x n.final_states _ i) [
                  | inl j ↦ inl j
                  | inr (inl d) ↦ inr (d, (mem_iff e n.final_states).0 t)
                  | inr (inr d) ↦ absurd d
                ])
                (λ x i. In-append_left x n.final_states _ i),
            (λ x i. In-append_left x n.delta _ i, λ x i. In-append_left x n.final_states _ i),
            (taken fs, λ i. In-append_right q n.final_states _ (inl refl)),
          ))
    | inr t ↦ (
      extended m n n.final_states q e,
      rw t (add_transitions_lem (skipping q (transitions_of e n.delta)) n below),
      extended-IsFrom m n n.final_states q e h b k (λ x i. inl i) (λ x i. i),
      (λ x i. In-append_left x n.delta _ i, λ x i. i),
      (
        taken n.final_states,
        λ i. absurd (let d = (mem_iff e n.final_states).1 (h.keeps e i) in cc),
      ),
    )
  ]
    where
      below : TransitionsBelow n.num_states (skipping q (transitions_of e n.delta))
      below p r a i =
          let (d, l) = skipping_inv m n q e p r a i in
          (omega (arith, d, b, h.states), (h.in_range.delta_lt e r a l).1)

      taken :
          (fs : List ℕ) (a : Label) (r : ℕ)
          → In (e, a, r) m.delta
          → In (q, a, r) (n.delta ++ skipping q (transitions_of e n.delta))
      taken fs a r i =
          In-append_right (q, a, r) n.delta _
            (In-map (λ (b, s). (q, b, s)) (a, r) (transitions_of e n.delta)
              ((transitions_of_iff e r a n.delta).1 (h.grows (e, a, r) i)))

  skip_each_lem :
      (es : List ℕ) (n : Nfa) (q : ℕ)
      → IsFrom m n
      → q < m.num_states
      → ((e : ℕ) → In e es → Reach m q [] e)
      → (n' : Nfa) × (skip_each q es n ≡ some n')
        × IsFrom m n'
        × Grows m n n'
        × ((e : ℕ) → In e es → IsDone m n' q e)
  unfolding skip_each
  skip_each_lem [] n q h b k = (n, refl, h, (λ t i. i, λ t i. i), λ e i. absurd i)
  skip_each_lem (e ∷ es) n q h b k =
      let (n1, d, h1, g1, done) = skip_one_lem n q e h b (k e (inl refl)) in
      let (n2, d', h2, g2, rest) = skip_each_lem es n1 q h1 b (λ x i. k x (inr i)) in
      (
        n2,
        ap (λ o. o >>= skip_each q es) d ∙ d',
        h2,
        (λ t i. g2.0 t (g1.0 t i), λ t i. g2.1 t (g1.1 t i)),
        λ x i. elim i [
          | inl z ↦ subst (IsDone m n2 q) (sym z) (IsDone-mono m n1 n2 q e g2 done)
          | inr j ↦ rest x j
        ],
      )

  -- All of its closure is taken over by `q`.
  abbrev pub IsSkipped : Nfa → ℕ → Type 0
  IsSkipped n q = (e : ℕ) → Reach m q [] e → IsDone m n q e

  skip_state :
      (n : Nfa) (q : ℕ)
      → IsFrom m n
      → q < m.num_states
      → (n' : Nfa) × ((closure_of n q >>= λ f. skip_each q f.0 n) ≡ some n')
        × IsFrom m n'
        × Grows m n n'
        × IsSkipped n' q
  skip_state n q h b =
      let (r, d, f) = closure_of_lem n q h.in_range in
      let (n', d', h', g, done) =
        skip_each_lem r.0 n q h b
          (λ e i. silent-Reach {m = n} {n = m} h.epsilons refl ((f e).0 (inr i))) in
      (
        n',
        ap (λ o. o >>= λ f. skip_each q f.0 n) d ∙ d',
        h',
        g,
        λ e k. elim ((f e).1 (silent-Reach {m = m} {n = n} (sym h.epsilons) refl k)) [
          | inl z ↦ (
            λ a x i. h'.grows (q, a, x) (subst (λ z. In (z, a, x) m.delta) z i),
            λ i. h'.keeps q (subst (λ z. In z m.final_states) z i),
          )
          | inr i ↦ done e i
        ],
      )

  pub skip_epsilons_lem :
      (count q : ℕ) (n : Nfa)
      → IsFrom m n
      → q + count ≡ m.num_states
      → ((p : ℕ) → p < q → IsSkipped n p)
      → (n' : Nfa) × (skip_epsilons count q n ≡ some n')
        × IsFrom m n'
        × ((p : ℕ) → p < m.num_states → IsSkipped n' p)
  unfolding skip_epsilons
  skip_epsilons_lem zero q n h b f = (n, refl, h, λ p l. f p (omega arith))
  skip_epsilons_lem (suc count) q n h b f =
      let (n1, d, h1, g, s) = skip_state n q h (omega arith) in
      let (n2, d', h2, r) = skip_epsilons_lem count (suc q) n1 h1 (omega arith) (λ p l.
        elim (below_suc p q l) [
          | inl k ↦ (λ e x. IsDone-mono m n n1 p e g (f p k e x))
          | inr k ↦ subst (IsSkipped n1) (sym k) s
        ]) in
      (n2, assoc (closure_of n q) ∙ ap (λ o. o >>= skip_epsilons count (suc q)) d ∙ d', h2, r)
    where
      below_suc : (p q : ℕ) → p < suc q → (p < q) ⊎ (p ≡ q)
      below_suc p q l = ground arith

      assoc :
          (o : Option (List ℕ × List ℕ))
          → (o >>= λ f. (skip_each q f.0 n >>= skip_epsilons count (suc q)))
            ≡ ((o >>= λ f. skip_each q f.0 n) >>= skip_epsilons count (suc q))
      assoc none = refl
      assoc (some f) = refl
