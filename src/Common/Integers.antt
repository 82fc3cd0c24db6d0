-- ===== src/Common/Integers.antt =====
-- Integers over the native numbers.
use Prim.Native.Nat.{ℕ, zero, suc, ◌+◌, ◌-◌, ◌≤◌}
use mathlib.Core.Path.{◌≡◌, refl, sym, ap, ◌∙◌}
use native.Mathlib.Omega.{arith}
use woorpje.Common.Tests.{ltb, if◌then◌else◌}

-- `negsuc n` is -(n + 1).
pub data ℤ : Type 0 where
  pos : ℕ → ℤ
  negsuc : ℕ → ℤ

abbrev pub neg : ℤ → ℤ
neg (pos zero) = pos zero
neg (pos (suc n)) = negsuc n
neg (negsuc n) = pos (suc n)

abbrev pub pos_part : ℤ → ℕ
pos_part (pos n) = n
pos_part (negsuc n) = 0

abbrev pub neg_part : ℤ → ℕ
neg_part (pos n) = 0
neg_part (negsuc n) = suc n

-- The difference of two numbers.
abbrev pub sub_ℕ : ℕ → ℕ → ℤ
sub_ℕ a b = if ltb a b then negsuc (b - a - 1) else pos (a - b)

infixl 65 ◌+ℤ◌
infix 50 ◌≤ℤ◌ ◌<ℤ◌
unfoldable pub ◌+ℤ◌ : ℤ → ℤ → ℤ
a +ℤ b = sub_ℕ (pos_part a + pos_part b) (neg_part a + neg_part b)

abbrev pub ◌≤ℤ◌ : ℤ → ℤ → Type 0
a ≤ℤ b = pos_part a + neg_part b ≤ pos_part b + neg_part a

abbrev pub ◌<ℤ◌ : ℤ → ℤ → Type 0
a <ℤ b = suc (pos_part a + neg_part b) ≤ pos_part b + neg_part a

-- One equation for each operation, to compute with the parts.
pub +ℤ_parts :
    (a b : ℤ)
    → pos_part (a +ℤ b) + neg_part a + neg_part b ≡ neg_part (a +ℤ b) + pos_part a + pos_part b
unfolding ◌+ℤ◌
+ℤ_parts a b = ground arith

pub neg_parts : (a : ℤ) → pos_part (neg a) + pos_part a ≡ neg_part (neg a) + neg_part a
neg_parts (pos zero) = refl
neg_parts (pos (suc n)) = omega arith
neg_parts (negsuc n) = omega arith

-- So many times an integer.
unfoldable pub times : ℤ → ℕ → ℤ
times a zero = pos 0
times a (suc x) = a +ℤ times a x

-- Two integers of the same value, by their parts.
infix 50 ◌=ℤ◌
abbrev pub ◌=ℤ◌ : ℤ → ℤ → Type 0
a =ℤ b = pos_part a + neg_part b ≡ pos_part b + neg_part a

pub eq_of_parts : (a b : ℤ) → a =ℤ b → a ≡ b
eq_of_parts a b h = ground arith

pub to_parts : (a b : ℤ) → a ≡ b → a =ℤ b
to_parts a b h = ground arith

pub ruleset int_laws = (arith, +ℤ_parts, neg_parts, eq_of_parts)

pub swap_middle : (a b c d : ℤ) → (a +ℤ b) +ℤ (c +ℤ d) ≡ (a +ℤ c) +ℤ (b +ℤ d)
swap_middle a b c d = omega int_laws

pub neg-+ℤ : (a b : ℤ) → neg a +ℤ neg b ≡ neg (a +ℤ b)
neg-+ℤ a b = omega int_laws

pub zero_left : (a : ℤ) → a ≡ pos 0 +ℤ a
zero_left a = omega int_laws

pub reassociate : (a b c : ℤ) → a +ℤ (b +ℤ c) ≡ a +ℤ b +ℤ c
reassociate a b c = omega int_laws

le-sum : (n : ℕ) (b : ℤ) → pos 0 ≤ℤ b → pos 0 ≤ℤ pos n +ℤ b
le-sum n b h = omega int_laws

pub times-+ℤ : (a b : ℤ) (x : ℕ) → times (a +ℤ b) x ≡ times a x +ℤ times b x
unfolding times
times-+ℤ a b zero = zero_left (pos 0)
times-+ℤ a b (suc x) = ap (λ z. a +ℤ b +ℤ z) (times-+ℤ a b x) ∙ swap_middle a b _ _

pub times-neg : (a : ℤ) (x : ℕ) → times (neg a) x ≡ neg (times a x)
unfolding times
times-neg a zero = refl
times-neg a (suc x) = ap (λ z. neg a +ℤ z) (times-neg a x) ∙ neg-+ℤ a _

the_same : (y : ℕ) → 0 + y ≡ y
the_same y = omega arith

one_more : (x y : ℕ) → suc x + y ≡ suc (x + y)
one_more x y = omega arith

pub times-add : (a : ℤ) (x y : ℕ) → times a (x + y) ≡ times a x +ℤ times a y
unfolding times
times-add a zero y = ap (times a) (the_same y) ∙ zero_left (times a y)
times-add a (suc x) y =
    ap (times a) (one_more x y) ∙ ap (λ z. a +ℤ z) (times-add a x y) ∙ reassociate a _ _

pub times-zero : (x : ℕ) → times (pos 0) x ≡ pos 0
unfolding times
times-zero zero = refl
times-zero (suc x) = ap (λ z. pos 0 +ℤ z) (times-zero x) ∙ sym (zero_left (pos 0))

-- A multiple of what is not negative is not negative.
pub times-nonnegative : (n x : ℕ) → pos 0 ≤ℤ times (pos n) x
unfolding times
times-nonnegative n zero = omega arith
times-nonnegative n (suc x) = le-sum n (times (pos n) x) (times-nonnegative n x)

pub times-none : (n : ℤ) → times n 0 =ℤ pos 0
unfolding times
times-none n = omega arith

pub times-one : (n : ℤ) → times n 1 =ℤ n
unfolding times
times-one n = omega int_laws
