-- ===== src/Propositional/Literal.antt =====
-- Literals as the source's `int`: a variable's number, or its negative. The number 0 is its own
-- negative; the solver's interface reads it as the positive literal of variable 0.
use woorpje.Common.{ℕ, zero, suc, ◌<◌, ◌≡◌, refl, sym, Bool, true, false, not, arith}
pub use woorpje.Common.{ℤ, pos, negsuc, neg}

abbrev pub abs : ℤ → ℕ
abs (pos n) = n
abs (negsuc n) = suc n

abbrev pub Valuation : Type 0
Valuation = ℕ → Bool

abbrev pub holds : Valuation → ℤ → Bool
holds A (pos n) = A n
holds A (negsuc n) = not (A (suc n))

abbrev pub IsNonzero : ℤ → Type 0
IsNonzero l = 0 < abs l

not-not : (b : Bool) → not (not b) ≡ b
not-not true = refl
not-not false = refl

pub holds-neg : (A : Valuation) (l : ℤ) → IsNonzero l → holds A (neg l) ≡ not (holds A l)
holds-neg A (pos zero) h = absurd (omega arith)
holds-neg A (pos (suc n)) h = refl
holds-neg A (negsuc n) h = sym (not-not (A (suc n)))

pub abs-neg : (l : ℤ) → abs (neg l) ≡ abs l
abs-neg (pos zero) = refl
abs-neg (pos (suc n)) = refl
abs-neg (negsuc n) = refl
