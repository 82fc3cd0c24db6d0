-- ===== src/Members.antt =====
-- Membership in a list, as a test and as a type, and how many numbers below a bound are missing.
use woorpje.Common.{
  ℕ, zero, suc, ◌+◌, ◌<◌, ◌≤◌, ◌≡◌, ◌↔◌, ◌⊎◌, inl, inr, refl, ap, ◌∙◌, Bool, true, false,
  Bool-cases, List, [], ◌∷◌, ◌++◌, ◌==◌, ◌||◌, arith, if◌then◌else◌,
}
use mathlib.Core.List.{map}

unfoldable pub mem : ℕ → List ℕ → Bool
mem x [] = false
mem x (y ∷ ys) = x == y || mem x ys

abbrev pub In : {A : Type 0} → A → List A → Type 0
In x [] = ⊥
In x (y ∷ ys) = (x ≡ y) ⊎ In x ys

pub In-append_left : {A : Type 0} (x : A) (xs ys : List A) → In x xs → In x (xs ++ ys)
In-append_left x [] ys h = absurd h
In-append_left x (y ∷ xs) ys (inl e) = inl e
In-append_left x (y ∷ xs) ys (inr h) = inr (In-append_left x xs ys h)

pub In-append_right : {A : Type 0} (x : A) (xs ys : List A) → In x ys → In x (xs ++ ys)
In-append_right x [] ys h = h
In-append_right x (y ∷ xs) ys h = inr (In-append_right x xs ys h)

pub In-append_inv : {A : Type 0} (x : A) (xs ys : List A) → In x (xs ++ ys) → In x xs ⊎ In x ys
In-append_inv x [] ys h = inr h
In-append_inv x (y ∷ xs) ys (inl e) = inl (inl e)
In-append_inv x (y ∷ xs) ys (inr h) = elim (In-append_inv x xs ys h) [
  | inl k ↦ inl (inr k)
  | inr k ↦ inr k
]

pub In-map : {A B : Type 0} (f : A → B) (x : A) (xs : List A) → In x xs → In (f x) (map f xs)
In-map f x [] h = absurd h
In-map f x (y ∷ xs) (inl e) = inl (ap f e)
In-map f x (y ∷ xs) (inr h) = inr (In-map f x xs h)

pub In-map_inv :
    {A B : Type 0} (f : A → B) (y : B) (xs : List A)
    → In y (map f xs)
    → (x : A) × In x xs × (y ≡ f x)
In-map_inv f y [] h = absurd h
In-map_inv f y (x ∷ xs) (inl e) = (x, inl refl, e)
In-map_inv f y (x ∷ xs) (inr h) = let (z, k, e) = In-map_inv f y xs h in (z, inr k, e)

pub mem_iff : (x : ℕ) (ys : List ℕ) → (mem x ys ≡ true) ↔ In x ys
unfolding mem
mem_iff x [] = (λ h. cc, λ h. absurd h)
mem_iff x (y ∷ ys) =
    let ih = mem_iff x ys in
    (
      λ h. elim (Bool-cases (x == y)) [
        | inl e ↦ inl (ground arith)
        | inr e ↦ inr (ih.0 (ground arith))
      ],
      λ h. elim h [ inl e ↦ ground arith | inr k ↦ (let m = ih.1 k in ground arith) ],
    )

-- The numbers below `n` that are not in the list.
pub unseen : ℕ → List ℕ → ℕ
unseen zero ignore = 0
unseen (suc n) ignore = (if mem n ignore then 0 else 1) + unseen n ignore

mem-cons : (x t : ℕ) (ys : List ℕ) → mem x ys ≡ true → mem x (t ∷ ys) ≡ true
unfolding mem
mem-cons x t ys h = ground arith

pub unseen-cons : (n t : ℕ) (ys : List ℕ) → unseen n (t ∷ ys) ≤ unseen n ys
unfolding unseen
unseen-cons zero t ys = omega arith
unseen-cons (suc n) t ys =
    let ih = unseen-cons n t ys in
    let k = mem-cons n t ys in
    elim (Bool-cases (mem n ys)) [ inl h ↦ (let j = k h in ground arith) | inr h ↦ ground arith ]

pub unseen-fresh :
    (n t : ℕ) (ys : List ℕ) → mem t ys ≡ false → t < n → suc (unseen n (t ∷ ys)) ≤ unseen n ys
unfolding unseen mem
unseen-fresh zero t ys h l = absurd (omega arith)
unseen-fresh (suc n) t ys h l = elim (Bool-cases (n == t)) [
  | inl e ↦
      (let same : n ≡ t = ground arith in
        let k = unseen-cons n t ys in
        let j : mem n ys ≡ false = ap (λ z. mem z ys) same ∙ h in ground arith)
  | inr e ↦
      (let ih = unseen-fresh n t ys h (ground arith) in
        elim (Bool-cases (mem n ys)) [ inl j ↦ ground arith | inr j ↦ ground arith ])
]

pub unseen_mono :
    (n : ℕ) (xs ys : List ℕ) → ((x : ℕ) → In x xs → In x ys) → unseen n ys ≤ unseen n xs
unfolding unseen
unseen_mono zero xs ys f = omega arith
unseen_mono (suc n) xs ys f =
    let ih = unseen_mono n xs ys f in
    elim (Bool-cases (mem n xs)) [
      | inl h ↦ (let k = (mem_iff n ys).1 (f n ((mem_iff n xs).0 h)) in ground arith)
      | inr h ↦ ground arith
    ]

pub unseen-bound : (n : ℕ) → unseen n [] ≤ n
unfolding unseen mem
unseen-bound zero = omega arith
unseen-bound (suc n) = let ih = unseen-bound n in omega arith
