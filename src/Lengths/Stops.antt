-- ===== src/Lengths/Stops.antt =====
-- The `break` in `concat` of libs/solvers/satencoding/regular/rAbs.cpp.
use woorpje.Common.{
  ℕ, ◌+◌, ◌<◌, ◌≡◌, inl, inr, refl, sym, append-nil, false, some, List, [], ◌∷◌, ◌++◌, length,
  length-append, arith,
}
use woorpje.Regex.Defs.{RegNode, reg_word, operation, union, concat, none_left, child}
use woorpje.Regex.Lang.{Lang}
use woorpje.Lengths.Defs.{Progressions, before_pair, same_pair, contains_length}
use woorpje.Lengths.From.{Divisors, from_expression}

-- A word and then one of two words.
abbrev pub then_one_of : List ℕ → List ℕ → List ℕ → RegNode
then_one_of u v w = operation concat (
    child (reg_word u)
      (child (operation union (child (reg_word v) (child (reg_word w) none_left))) none_left))

-- Of a word and then one of two words, the first the shorter one, the language has the longer row,
-- but fromExpression returns progressions without its length.
pub from_expression_misses :
    (ds : Divisors) (u v w : List ℕ)
    → length v < length w
    → Lang (then_one_of u v w) (u ++ w)
      × ((ps : Progressions) × (from_expression ds (then_one_of u v w) ≡ some ps)
          × (contains_length ps (length (u ++ w)) ≡ false))
unfolding from_expression contains_length
from_expression_misses ds u v w h =
    let e : before_pair (length w, 0) (length v, 0) ≡ false = ground arith in
    let f : same_pair (length w, 0) (length v, 0) ≡ false = ground arith in
    (
      (u, w, refl, (w, [], inr (inl refl), refl, sym (append-nil w)), refl),
      ((length u + length v, 0) ∷ [], rw (e, f) refl, (let k = length-append u w in ground arith)),
    )
