-- ===== src/Automaton/Unseen.antt =====
-- `epsilonClosure` of libs/solvers/satencoding/regular/nfa.cpp: the states that it has not ignored.
use woorpje.Common.{ℕ, ◌≡◌, ◌↔◌, inl, inr, sym, ap, Bool-cases, List, [], ◌∷◌, ◌==◌, arith}
use woorpje.Members.{In}
use woorpje.Automaton.Defs.{epsilons_of}

pub epsilons_of_iff : (q r : ℕ) (ts : List (ℕ × ℕ)) → In r (epsilons_of q ts) ↔ In (q, r) ts
unfolding epsilons_of
epsilons_of_iff q r [] = (λ h. h, λ h. h)
epsilons_of_iff q r ((p, s) ∷ ts) =
    let ih = epsilons_of_iff q r ts in
    elim (Bool-cases (p == q)) [
      | inl e ↦
          (let same : p ≡ q = ground arith in
            rw e (
              λ h. elim h [ inl k ↦ inl (λ i. (sym same i, k i)) | inr k ↦ inr (ih.0 k) ],
              λ h. elim h [ inl k ↦ inl (ap (λ z. z.1) k) | inr k ↦ inr (ih.1 k) ],
            ))
      | inr e ↦ rw e (
        λ h. inr (ih.0 h),
        λ h. elim h [
          | inl k ↦ absurd (let same = ap (λ z. z.0) k in ground arith)
          | inr k ↦ ih.1 k
        ],
      )
    ]
