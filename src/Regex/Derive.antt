-- ===== src/Regex/Derive.antt =====
-- `derivative` of libs/words/pubinclude/words/regconstraints.hpp, by a text `d`. A row of one child is
-- what is left of a longer one, and its derivative that of the child, since the source takes the last
-- child itself as the right operand. Of a concatenation that has fewer than two children from the start
-- the source indexes past the end: `IsWellFormed` excludes it, and the clauses have a value there that
-- the source does not return.
use woorpje.Common.{ℕ, Bool, true, false, List, [], ◌∷◌, length, ◌==◌, ltb, if◌then◌else◌}
use woorpje.Regex.Defs.{
  RegNode, Children, reg_empty, reg_word, operation, union, concat, star, none_left, child,
  accepts_epsilon,
}

-- The loop of `RegWord::derivative`: characters are dropped while `d` lasts.
unfoldable pub word_derivative : List ℕ → List ℕ → RegNode
word_derivative [] u = reg_word u
word_derivative (c ∷ d) [] = reg_word []
word_derivative (c ∷ d) (x ∷ u) = if x == c then word_derivative d u else reg_empty

-- `chdDerivs`: a derivative that is a `RegEmpty` is left out.
abbrev pub keep : RegNode → Children → Children
keep reg_empty cs = cs
keep r cs = child r cs

abbrev pub union_of : Children → RegNode
union_of none_left = reg_empty
union_of (child r none_left) = r
union_of cs = operation union cs

abbrev pub is_reg_empty : RegNode → Bool
is_reg_empty reg_empty = true
is_reg_empty _ = false

-- The cast to `RegWord`, and its length 0.
abbrev pub is_empty_word : RegNode → Bool
is_empty_word (reg_word u) = length u == 0
is_empty_word _ = false

abbrev pub pair : RegNode → RegNode → RegNode
pair l r = operation concat (child l (child r none_left))

-- The binary case: `l'` and `r'` are the derivatives of `l` and `r`.
unfoldable pub concat_step : RegNode → RegNode → RegNode → RegNode → RegNode
concat_step l l' r r' =
    if is_empty_word l'
    then r
    else if accepts_epsilon l
    then if is_reg_empty l'
      then r'
      else if is_reg_empty r'
      then pair l' r
      else operation union (child (pair l' r) (child r' none_left))
    else if is_reg_empty l'
    then l'
    else pair l' r

-- The children from some index on, as the right operand: one child itself, or a concatenation.
abbrev pub node_of : Children → RegNode
node_of (child r none_left) = r
node_of cs = operation concat cs

unfoldable pub row_step : RegNode → RegNode → Children → RegNode → RegNode
unfolding concat_step
row_step l l' none_left r' = l'
row_step l l' rest r' = concat_step l l' (node_of rest) r'

unfoldable pub star_step : RegNode → Children → RegNode
star_step l' cs = if is_reg_empty l' then reg_empty else pair l' (operation star cs)

unfoldable mutual
  unfolding word_derivative concat_step row_step star_step

  pub derivative : List ℕ → RegNode → RegNode
  derivative d reg_empty = reg_empty
  derivative d (reg_word u) = if ltb (length u) (length d) then reg_empty else word_derivative d u
  derivative [] (operation o cs) = operation o cs
  derivative (c ∷ d) (operation union cs) = union_of (derivatives (c ∷ d) cs)
  derivative (c ∷ d) (operation concat cs) = row_derivative (c ∷ d) cs
  derivative (c ∷ d) (operation star cs) = star_step (first_derivative (c ∷ d) cs) cs

  pub derivatives : List ℕ → Children → Children
  derivatives d none_left = none_left
  derivatives d (child r cs) = keep (derivative d r) (derivatives d cs)

  pub row_derivative : List ℕ → Children → RegNode
  row_derivative d none_left = reg_empty
  row_derivative d (child r cs) = row_step r (derivative d r) cs (row_derivative d cs)

  pub first_derivative : List ℕ → Children → RegNode
  first_derivative d none_left = reg_empty
  first_derivative d (child r cs) = derivative d r
