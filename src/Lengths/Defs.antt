-- ===== src/Lengths/Defs.antt =====
-- `ArithmeticProgressions` of libs/solvers/satencoding/regular/regencoding.h. A set of pairs is the
-- list of them in its order, without repetitions; a pair `(a, b)` stands for `a`, `a + b`, `a + 2 b`
-- and so on. The numbers are not negative, and without bound.
use Prim.Native.Nat.{◌/◌, ◌-◌, ◌*◌}
use woorpje.Common.{ℕ, ◌+◌, Bool, false, ◌&&◌, ◌||◌, List, [], ◌∷◌, ◌==◌, ltb, if◌then◌else◌}

abbrev pub Progressions : Type 0
Progressions = List (ℕ × ℕ)

-- The order of pairs.
abbrev pub before_pair : ℕ × ℕ → ℕ × ℕ → Bool
before_pair (a, b) (c, d) = ltb a c || (a == c && ltb b d)

abbrev pub same_pair : ℕ × ℕ → ℕ × ℕ → Bool
same_pair (a, b) (c, d) = a == c && b == d

unfoldable pub add_pair : ℕ × ℕ → Progressions → Progressions
add_pair p [] = p ∷ []
add_pair p (q ∷ ps) =
    let rest = add_pair p ps in
    if before_pair p q then p ∷ q ∷ ps else if same_pair p q then q ∷ ps else q ∷ rest

unfoldable pub merge_other : Progressions → Progressions → Progressions
unfolding add_pair
merge_other [] ps = ps
merge_other (q ∷ qs) ps = merge_other qs (add_pair q ps)

-- The test of one pair. Where `k` is less than `a`, the quotient is not positive, and `k` is not on the
-- progression.
abbrev pub on_progression : ℕ → ℕ × ℕ → Bool
on_progression k (a, b) = if b == 0 then k == a else k == a + (k - a) / b * b

unfoldable pub contains_length : Progressions → ℕ → Bool
contains_length [] k = false
contains_length (p ∷ ps) k = on_progression k p || contains_length ps k
