-- ===== src/Automaton/Onward.antt =====
-- `accept` of libs/solvers/satencoding/regular/nfa.cpp: one letter.
use woorpje.Common.{
  ℕ, ◌≡◌, ◌↔◌, inl, inr, refl, sym, ap, ◌∙◌, subst, true, Bool-cases, some, List, [], ◌∷◌, ◌++◌,
  ◌==◌, arith, if◌then◌else◌,
}
use woorpje.Members.{In, In-append_inv, In-append_left, In-append_right}
use woorpje.Automaton.Defs.{Nfa, Label, letter, epsilon, Transition, ◌>>=◌, transitions_of}
use woorpje.Automaton.Reach.{Takes, Reach, IsInRange}
use woorpje.Automaton.Accept.{takes, closure_of, next_of, next_states}
use woorpje.Automaton.Closure.{closure_of_lem}

pub transitions_of_iff :
    (q r : ℕ) (a : Label) (ts : List Transition) → In (a, r) (transitions_of q ts) ↔ In (q, a, r) ts
unfolding transitions_of
transitions_of_iff q r a [] = (λ h. h, λ h. h)
transitions_of_iff q r a ((p, b, s) ∷ ts) =
    let ih = transitions_of_iff q r a ts in
    elim (Bool-cases (p == q)) [
      | inl e ↦
          (let same : p ≡ q = ground arith in
            rw e (
              λ h. elim h [
                | inl k ↦ inl (λ i. (sym same i, (k i).0, (k i).1))
                | inr k ↦ inr (ih.0 k)
              ],
              λ h. elim h [ inl k ↦ inl (ap (λ z. (z.1, z.2)) k) | inr k ↦ inr (ih.1 k) ],
            ))
      | inr e ↦ rw e (
        λ h. inr (ih.0 h),
        λ h. elim h [
          | inl k ↦ absurd (let same = ap (λ z. z.0) k in ground arith)
          | inr k ↦ ih.1 k
        ],
      )
    ]

takes_iff : (a : Label) (c : ℕ) → (takes a c ≡ true) ↔ Takes a c
takes_iff (letter x) c = (λ h. ground arith, λ h. ground arith)
takes_iff epsilon c = (λ h. tt, λ h. refl)

-- Over a transition with the letter, and then by epsilon transitions.
abbrev pub Onward : Nfa → ℕ → Label → ℕ → ℕ → Type 0
Onward m c a r x = Takes a c × Reach m r [] x

-- From one of the states.
abbrev pub FromSome : Nfa → ℕ → List ℕ → ℕ → Type 0
FromSome m c s x =
    (q : ℕ) × (a : Label) × (r : ℕ) × In q s × In (q, a, r) m.delta × Onward m c a r x

module _ (m : Nfa) (c : ℕ) (hm : IsInRange m) where
  next_of_lem :
      (ts : List (Label × ℕ))
      → (s : List ℕ) × (next_of m c ts ≡ some s)
        × ((x : ℕ) → In x s ↔ ((a : Label) × (r : ℕ) × In (a, r) ts × Onward m c a r x))
  unfolding next_of
  next_of_lem [] = ([], refl, λ x. (λ h. absurd h, λ (a, r, i, k). i))
  next_of_lem ((a, r) ∷ ts) =
      let (s, e, f) = next_of_lem ts in
      let (y, d, g) = closure_of_lem m r hm in
      elim (Bool-cases (takes a c)) [
        | inl t ↦ (
          r ∷ y.0 ++ s,
          ap
                (λ o. o >>= λ rest.
                  if takes a c then (closure_of m r >>= λ f. some (r ∷ f.0 ++ rest)) else some rest)
                e
              ∙ rw t (ap (λ o. o >>= λ f. some (r ∷ f.0 ++ s)) d),
          λ x. (
            λ h. elim (In-append_inv x (r ∷ y.0) s h) [
              | inl k ↦ (a, r, inl refl, ((takes_iff a c).0 t, (g x).0 k))
              | inr k ↦ (let (b, q, i, o) = (f x).0 k in (b, q, inr i, o))
            ],
            λ (b, q, i, (o, k)). elim i [
              | inl e' ↦
                  In-append_left x (r ∷ y.0) s
                    ((g x).1 (subst (λ z. Reach m z [] x) (ap (λ z. z.1) e') k))
              | inr j ↦ In-append_right x (r ∷ y.0) s ((f x).1 (b, q, j, (o, k)))
            ],
          ),
        )
        | inr t ↦ (
          s,
          ap
                (λ o. o >>= λ rest.
                  if takes a c then (closure_of m r >>= λ f. some (r ∷ f.0 ++ rest)) else some rest)
                e
              ∙ rw t refl,
          λ x. (
            λ h. (let (b, q, i, o) = (f x).0 h in (b, q, inr i, o)),
            λ (b, q, i, (o, k)). elim i [
              | inl e' ↦
                  absurd
                    (let u = (takes_iff a c).1 (subst (λ z. Takes z c) (ap (λ z. z.0) e') o) in cc)
              | inr j ↦ (f x).1 (b, q, j, (o, k))
            ],
          ),
        )
      ]

  pub next_states_lem :
      (s : List ℕ)
      → (t : List ℕ) × (next_states m c s ≡ some t) × ((x : ℕ) → In x t ↔ FromSome m c s x)
  unfolding next_states
  next_states_lem [] = ([], refl, λ x. (λ h. absurd h, λ (q, a, r, i, j, o). i))
  next_states_lem (q ∷ s) =
      let (u, e, f) = next_of_lem (transitions_of q m.delta) in
      let (t, d, g) = next_states_lem s in
      (
        u ++ t,
        ap (λ o. o >>= λ here. (next_states m c s >>= λ rest. some (here ++ rest))) e
            ∙ ap (λ o. o >>= λ rest. some (u ++ rest)) d,
        λ x. (
          λ h. elim (In-append_inv x u t h) [
            | inl k ↦
                (let (a, r, i, o) = (f x).0 k in
                  (q, a, r, inl refl, (transitions_of_iff q r a m.delta).0 i, o))
            | inr k ↦ (let (p, a, r, i, j, o) = (g x).0 k in (p, a, r, inr i, j, o))
          ],
          λ (p, a, r, i, j, o). elim i [
            | inl e' ↦ In-append_left x u t (
                (f x).1 (
                  a,
                  r,
                  (transitions_of_iff q r a m.delta).1 (subst (λ z. In (z, a, r) m.delta) e' j),
                  o,
                ))
            | inr k ↦ In-append_right x u t ((g x).1 (p, a, r, k, j, o))
          ],
        ),
      )
