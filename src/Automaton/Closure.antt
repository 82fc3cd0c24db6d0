-- ===== src/Automaton/Closure.antt =====
-- `epsilonClosure` of libs/solvers/satencoding/regular/nfa.cpp against the runs on the empty word.
use woorpje.Common.{
  ℕ, zero, suc, ◌<◌, ◌≤◌, ◌≡◌, ◌↔◌, ◌⊎◌, inl, inr, refl, sym, ap, ◌∙◌, subst, Bool-cases, Option,
  some, List, [], ◌∷◌, ◌++◌, ◌&&◌, arith,
}
use woorpje.Members.{In, mem, mem_iff, unseen, unseen-bound, unseen-cons, unseen-fresh, unseen_mono}
use woorpje.Automaton.Defs.{Nfa, ◌>>=◌, transitions_of, epsilons_of, is_nil}
use woorpje.Automaton.Reach.{Reach, stay, by_letter, by_epsilon, IsInRange}
use woorpje.Automaton.Accept.{Found, visit_targets, epsilon_closure, closure_of}
use woorpje.Automaton.Unseen.{epsilons_of_iff}
use woorpje.Automaton.Cover.{
  IsDone, Closes, Covers, Covers-skip, Covers-visit, Closes-call, Closes-unknown,
}

module _ (m : Nfa) where
  abbrev IsRight : (ℕ → List ℕ → Option Found) → ℕ → Type 0
  IsRight rec fuel =
      (t : ℕ) (ignore : List ℕ)
      → unseen m.num_states ignore < fuel
      → (r : Found) × (rec t ignore ≡ some r) × Closes m t ignore r

  visit_targets-Covers :
      (rec : ℕ → List ℕ → Option Found) (fuel : ℕ)
      → IsRight rec fuel
      → (ts closure ignore : List ℕ) → ((t : ℕ) → In t ts → t < m.num_states)
      → unseen m.num_states ignore ≤ fuel
      → (r : Found) × (visit_targets rec ts closure ignore ≡ some r) × Covers m ts closure ignore r
  unfolding visit_targets
  visit_targets-Covers rec fuel f [] closure ignore b l = (
    (closure, ignore),
    refl,
    record {
      sound = λ x h. inl h;
      grows = λ x h. h;
      targets = λ x h. absurd h;
      keeps = λ x h. h;
      known = λ x h. inl h;
      kept = λ x h. inl h;
      closed = λ x h. inl h;
    },
  )
  visit_targets-Covers rec fuel f (t ∷ ts) closure ignore b l = elim (Bool-cases (mem t ignore)) [
    | inl h ↦
        (let (r, e, c) = visit_targets-Covers rec fuel f ts closure ignore (λ x i. b x (inr i)) l in
          (
            r,
            rw (h, visit_targets) e,
            Covers-skip m t ts closure ignore r ((mem_iff t ignore).0 h) c,
          ))
    | inr h ↦
        (let fresh = unseen-fresh m.num_states t ignore h (b t (inl refl)) in
          let (s, d, k) = f t (t ∷ ignore) (omega arith) in
          let less = unseen_mono m.num_states (t ∷ ignore) s.1 k.grows in
          let (r, e, c) =
            visit_targets-Covers rec fuel f ts (closure ++ t ∷ s.0) s.1 (λ x i. b x (inr i))
              (omega arith) in
          (
            r,
            rw (h, visit_targets)
                (ap (λ o. o >>= λ r. visit_targets rec ts (closure ++ t ∷ r.0) r.1) d ∙ e),
            Covers-visit m t ts closure ignore s r k c,
          ))
  ]

  epsilon_closure-IsRight : IsInRange m → (fuel : ℕ) → IsRight (epsilon_closure fuel m) fuel
  unfolding epsilon_closure
  epsilon_closure-IsRight hm zero q ignore l = absurd (omega arith)
  epsilon_closure-IsRight hm (suc fuel) q ignore l =
      let es = epsilons_of q m.delta_epsilon in
      elim (Bool-cases (is_nil (transitions_of q m.delta) && is_nil es)) [
        | inl h ↦ (([], ignore), rw h refl, Closes-unknown m q ignore (ground arith))
        | inr h ↦
            (let less = unseen-cons m.num_states q ignore in
              let (r, e, c) =
                visit_targets-Covers (epsilon_closure fuel m) fuel (epsilon_closure-IsRight hm fuel)
                  es [] (q ∷ ignore)
                  (λ t i. (hm.epsilon_lt q t ((epsilons_of_iff q t m.delta_epsilon).0 i)).1)
                  (omega arith) in
              (r, rw h e, Closes-call m q ignore r c))
      ]

  -- A list that the epsilon transitions do not leave holds all that runs on the empty word reach.
  stays_inside :
      {q x : ℕ} {w : List ℕ} (r : Found)
      → IsDone m q r.1
      → ((y : ℕ) → In y r.1 → IsDone m y r.1)
      → w ≡ []
      → Reach m q w x
      → (x ≡ q) ⊎ In x r.1
  stays_inside r d f e (stay k h) = inl h
  stays_inside r d f e (by_letter u y c a h i t k) = absurd (never u (sym e ∙ k))
    where
      never : (v : List ℕ) → [] ≡ v ++ c ∷ [] → ⊥
      never [] h = cc
      never (z ∷ v) h = cc
  stays_inside {q} {x} r d f e (by_epsilon y h i) = elim (stays_inside r d f e h) [
    | inl k ↦ inr (d x (subst (λ z. In (z, x) m.delta_epsilon) k i))
    | inr k ↦ inr (f y k x i)
  ]

-- With one unit of fuel more than there are states the closure returns, and together with its state
-- it holds exactly the states that runs on the empty word lead to.
pub closure_of_lem :
    (m : Nfa) (q : ℕ)
    → IsInRange m
    → (r : Found) × (closure_of m q ≡ some r) × ((x : ℕ) → In x (q ∷ r.0) ↔ Reach m q [] x)
unfolding closure_of
closure_of_lem m q hm =
    let (r, e, c) =
      epsilon_closure-IsRight m hm (suc m.num_states) q []
        (omega (arith, unseen-bound m.num_states)) in
    (
      r,
      e,
      λ x. (
        λ h. elim h [ inl k ↦ stay refl k | inr k ↦ c.sound x k ],
        λ h.
            elim (stays_inside m r c.done
              (λ y i. elim (c.closed y i) [ inl k ↦ absurd k | inr f ↦ f ]) refl h) [
                | inl k ↦ inl k
                | inr k ↦ elim (c.known x k) [
                  | inl j ↦ absurd j
                  | inr (inl j) ↦ inl j
                  | inr (inr j) ↦ inr j
                ]
              ],
      ),
    )
