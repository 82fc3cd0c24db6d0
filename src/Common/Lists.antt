-- ===== src/Common/Lists.antt =====
-- Lists over the native numbers, and how an append splits.
use Prim.Native.Nat.{ℕ, suc, ◌+◌}
use mathlib.Core.Path.{◌≡◌, refl, sym, ap}
use mathlib.Core.Logic.{◌⊎◌, inl, inr}
use mathlib.Core.List.{List, [], ◌∷◌, ◌++◌}
use native.Mathlib.Omega.{arith}

abbrev pub length {ℓ} : {A : Type ℓ} → List A → ℕ
length [] = 0
length (x ∷ xs) = suc (length xs)

pub length-append {ℓ} : {A : Type ℓ} (xs ys : List A) → length (xs ++ ys) ≡ length xs + length ys
length-append [] ys = omega arith
length-append (x ∷ xs) ys = omega (arith, length-append xs ys)

abbrev tail_of {ℓ} : {A : Type ℓ} → List A → List A
tail_of [] = []
tail_of (x ∷ xs) = xs

pub cons_injective {ℓ} : {A : Type ℓ} {x y : A} {xs ys : List A} → x ∷ xs ≡ y ∷ ys → xs ≡ ys
cons_injective h = ap tail_of h

-- A nonempty list that is an append: its head is the head of the first part, or of the second.
pub cons-eq-append {ℓ} :
    {A : Type ℓ} (c : A) (w u v : List A)
    → c ∷ w ≡ u ++ v
    → ((u ≡ []) × (v ≡ c ∷ w)) ⊎ ((u' : List A) × (u ≡ c ∷ u') × (w ≡ u' ++ v))
cons-eq-append c w [] v h = inl (refl, sym h)
cons-eq-append c w (x ∷ u) v h = inr (u, cc, cons_injective h)
