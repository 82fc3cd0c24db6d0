-- ===== src/Tests/Lengths.antt =====
-- Lengths of words: tests and instances.
use Prim.Native.Nat.{◌/◌, ◌%◌, ◌*◌}
use woorpje.Common.{
  arith, length, ◌++◌, ℕ, zero, suc, ◌≡◌, ◌↔◌, refl, true, false, some, List, [], ◌∷◌, ◌==◌,
  if◌then◌else◌,
}
use woorpje.Regex.Defs.{RegNode, reg_word, operation, union, concat, star, none_left, child}
use woorpje.Automaton.Defs.{◌>>=◌}
use woorpje.Automaton.Proper.{IsProper}
use woorpje.Regex.Lang.{Lang, IsWellFormed}
use woorpje.Lengths.Defs.{Progressions, contains_length}
use woorpje.Lengths.From.{Divisors, from_expression}
use woorpje.Lengths.Contains.{SomeOn, contains_length_iff}
use woorpje.Lengths.Total.{from_expression-Returns}
use woorpje.Lengths.Stops.{then_one_of, from_expression_misses}

-- Euclid's rule, as many rounds as the second number and one more.
abbrev gcd_on : ℕ → ℕ → ℕ → ℕ
gcd_on zero a b = a
gcd_on (suc fuel) a b = if b == 0 then a else gcd_on fuel b (a % b)

abbrev gcd_of : ℕ → ℕ → ℕ
gcd_of a b = gcd_on (suc b) a b

abbrev lcm_of : ℕ → ℕ → ℕ
lcm_of a b = if b == 0 then 0 else a * b / gcd_of a b

abbrev gcd_all : List ℕ → ℕ
gcd_all [] = 0
gcd_all (a ∷ rest) = gcd_of a (gcd_all rest)

abbrev lcm_all : List ℕ → ℕ
lcm_all [] = 1
lcm_all (a ∷ rest) = lcm_of a (lcm_all rest)

abbrev pub euclid : Divisors
euclid = record { gcd = gcd_of; gcd_range = gcd_all; lcm_range = lcm_all }

abbrev letters : ℕ → List ℕ
letters zero = []
letters (suc n) = 97 ∷ letters n

-- So many letters, and then any number of them again.
abbrev rounds : ℕ → RegNode
rounds n = operation concat (
    child (reg_word (letters n))
      (child (operation star (child (reg_word (letters n)) none_left)) none_left))

-- (aaa(aaa)*|aaaa(aaaa)*)*
abbrev threes_or_fours : RegNode
threes_or_fours =
    operation star
      (child (operation union (child (rounds 3) (child (rounds 4) none_left))) none_left)

rounds_three : from_expression euclid (rounds 3) ≡ some ((3, 3) ∷ [])
unfolding from_expression
rounds_three = refl

-- The word of three and four letters is in the language, but its length is not in the result.
threes_or_fours_misses :
    (from_expression euclid threes_or_fours >>= λ ps. some (contains_length ps 7)) ≡ some false
unfolding from_expression contains_length
threes_or_fours_misses = refl

rounds-IsProper : (n : ℕ) → IsProper (rounds n)
rounds-IsProper n = (tt, ((tt, (tt, tt)), tt))

rounds-IsWellFormed : (n : ℕ) → IsWellFormed (rounds n)
rounds-IsWellFormed n = (tt, (tt, ((tt, (tt, tt)), tt)))

from_expression-Returns_example :
    (ps : Progressions) × (from_expression euclid threes_or_fours ≡ some ps)
from_expression-Returns_example =
    from_expression-Returns euclid threes_or_fours
      (tt, ((tt, (rounds-IsProper 3, (rounds-IsProper 4, tt))), tt))
      (tt, ((rounds-IsWellFormed 3, (rounds-IsWellFormed 4, tt)), tt))

contains_length_iff_example :
    (contains_length ((2, 0) ∷ (3, 4) ∷ []) 11 ≡ true) ↔ SomeOn 11 ((2, 0) ∷ (3, 4) ∷ [])
contains_length_iff_example = contains_length_iff ((2, 0) ∷ (3, 4) ∷ []) 11

-- Of a and then a or aa, the length 3 is missing.
from_expression_misses_example :
    Lang (then_one_of (letters 1) (letters 1) (letters 2)) (letters 1 ++ letters 2)
    × ((ps : Progressions) × (from_expression euclid
            (then_one_of (letters 1) (letters 1) (letters 2))
          ≡ some ps)
        × (contains_length ps (length (letters 1 ++ letters 2)) ≡ false))
from_expression_misses_example =
    from_expression_misses euclid (letters 1) (letters 1) (letters 2) (omega arith)
