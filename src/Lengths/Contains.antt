-- ===== src/Lengths/Contains.antt =====
-- `contains` of libs/solvers/satencoding/regular/regencoding.h, and what `add` and `mergeOther` do to it.
use Prim.Native.Nat.{◌/◌, ◌-◌, ◌*◌}
use native.Mathlib.Nat.{mul-div_cancel}
use woorpje.Common.{
  ℕ, zero, suc, ◌+◌, ◌≡◌, ◌⊎◌, ◌↔◌, inl, inr, sym, ap, ◌∙◌, subst, true, Bool-cases, ◌||◌, [], ◌∷◌,
  arith,
}
use woorpje.Lengths.Defs.{
  Progressions, before_pair, same_pair, add_pair, merge_other, on_progression, contains_length,
}

-- The length `a + n b` for some `n`.
abbrev pub IsOn : ℕ → ℕ × ℕ → Type 0
IsOn k p = (n : ℕ) × (k ≡ p.0 + n * p.1)

on_progression_iff : (k : ℕ) (p : ℕ × ℕ) → (on_progression k p ≡ true) ↔ IsOn k p
on_progression_iff k (a, zero) = (λ h. (0, ground arith), λ (n, e). ground arith)
on_progression_iff k (a, suc b) = (
  λ h. ((k - a) / suc b, ground arith),
  λ (n, e).
      (let l : k - a ≡ n * suc b = omega arith in
        let d : (k - a) / suc b ≡ n = ap (λ z. z / suc b) l ∙ mul-div_cancel n (omega arith) in
        rw (d, e) (ground arith)),
)

same_pair_lem : (p q : ℕ × ℕ) → same_pair p q ≡ true → p ≡ q
same_pair_lem (a, b) (c, d) h = let e : a ≡ c = ground arith in let f : b ≡ d = ground arith in cc

abbrev pub SomeOn : ℕ → Progressions → Type 0
SomeOn k [] = ⊥
SomeOn k (p ∷ ps) = IsOn k p ⊎ SomeOn k ps

-- contains answers true exactly for the lengths that lie on one of the progressions.
pub contains_length_iff : (ps : Progressions) (k : ℕ) → (contains_length ps k ≡ true) ↔ SomeOn k ps
unfolding contains_length
contains_length_iff [] k = (λ h. absurd cc, λ h. absurd h)
contains_length_iff (p ∷ ps) k =
    let i = contains_length_iff ps k in
    let j = on_progression_iff k p in
    (
      λ h. elim (Bool-cases (on_progression k p)) [
        | inl e ↦ inl (j.0 e)
        | inr e ↦ inr (i.0 (sym (ap (λ z. z || contains_length ps k) e) ∙ h))
      ],
      λ h. elim h [
        | inl x ↦ ap (λ z. z || contains_length ps k) (j.1 x)
        | inr x ↦ (let y = i.1 x in ground arith)
      ],
    )

SomeOn-add_pair :
    (k : ℕ) (p : ℕ × ℕ) (ps : Progressions) → SomeOn k (add_pair p ps) ↔ (IsOn k p ⊎ SomeOn k ps)
unfolding add_pair
SomeOn-add_pair k p [] = (λ h. h, λ h. h)
SomeOn-add_pair k p (q ∷ ps) = elim (Bool-cases (before_pair p q)) [
  | inl e ↦ rw e (λ h. h, λ h. h)
  | inr e ↦ elim (Bool-cases (same_pair p q)) [
    | inl f ↦
        rw (e, f)
          (
            λ h. inr h,
            λ h. elim h [ inl x ↦ inl (subst (IsOn k) (same_pair_lem p q f) x) | inr x ↦ x ],
          )
    | inr f ↦
        (let i = SomeOn-add_pair k p ps in
          rw (e, f)
            (
              λ h. elim h [
                | inl x ↦ inr (inl x)
                | inr x ↦ elim (i.0 x) [ inl y ↦ inl y | inr y ↦ inr (inr y) ]
              ],
              λ h. elim h [
                | inl x ↦ inr (i.1 (inl x))
                | inr x ↦ elim x [ inl y ↦ inl y | inr y ↦ inr (i.1 (inr y)) ]
              ],
            ))
  ]
]

-- The lengths of a merge are those of both sets.
pub SomeOn-merge_other :
    (k : ℕ) (qs ps : Progressions) → SomeOn k (merge_other qs ps) ↔ (SomeOn k qs ⊎ SomeOn k ps)
unfolding merge_other
SomeOn-merge_other k [] ps = (λ h. inr h, λ h. elim h [ inl x ↦ absurd x | inr x ↦ x ])
SomeOn-merge_other k (q ∷ qs) ps =
    let i = SomeOn-merge_other k qs (add_pair q ps) in
    let j = SomeOn-add_pair k q ps in
    (
      λ h. elim (i.0 h) [
        | inl x ↦ inl (inr x)
        | inr x ↦ elim (j.0 x) [ inl y ↦ inl (inl y) | inr y ↦ inr y ]
      ],
      λ h. elim h [
        | inl x ↦ elim x [ inl y ↦ i.1 (inr (j.1 (inl y))) | inr y ↦ i.1 (inl y) ]
        | inr x ↦ i.1 (inr (j.1 (inr x)))
      ],
    )

-- A merge contains a length exactly if one of the sets does.
pub contains_length-merge_other :
    (qs ps : Progressions) (k : ℕ)
    → (contains_length (merge_other qs ps) k ≡ true)
      ↔ ((contains_length qs k ≡ true) ⊎ (contains_length ps k ≡ true))
contains_length-merge_other qs ps k =
    let m = contains_length_iff (merge_other qs ps) k in
    let i = contains_length_iff qs k in
    let j = contains_length_iff ps k in
    let l = SomeOn-merge_other k qs ps in
    (
      λ h. elim (l.0 (m.0 h)) [ inl x ↦ inl (i.1 x) | inr x ↦ inr (j.1 x) ],
      λ h. m.1 (l.1 (elim h [ inl x ↦ inl (i.0 x) | inr x ↦ inr (j.0 x) ])),
    )
