-- ===== src/Regex/Flatten.antt =====
-- `RegOperation::flatten` of libs/words/pubinclude/words/regconstraints.hpp.
use woorpje.Common.{ℕ, zero, suc, Bool, true, false, List, [], ◌∷◌, ◌++◌, if◌then◌else◌}
use woorpje.Regex.Defs.{
  RegularOperator, RegNode, Children, reg_empty, reg_word, operation, union, concat, star,
  none_left, child, append_children,
}
pub mod Keeps
pub mod Language

abbrev pub same_operator : RegularOperator → RegularOperator → Bool
same_operator union union = true
same_operator concat concat = true
same_operator star star = true
same_operator _ _ = false

-- The children of a child with the same operator move up.
unfoldable pub merge : RegularOperator → Children → Children
unfolding append_children
merge o none_left = none_left
merge o (child (operation p ds) cs) =
    let rest = merge o cs in
    if same_operator o p then append_children ds rest else child (operation p ds) rest
merge o (child r cs) = child r (merge o cs)

abbrev pub flush : List ℕ → Children → Children
flush [] cs = cs
flush (x ∷ u) cs = child (reg_word (x ∷ u)) cs

-- Words beside one another become one; `concatted` holds their characters.
unfoldable pub join_words : List ℕ → Children → Children
join_words concatted none_left = flush concatted none_left
join_words concatted (child (reg_word u) cs) = join_words (concatted ++ u) cs
join_words concatted (child r cs) = flush concatted (child r (join_words [] cs))

-- A single child gets the empty word beside it.
abbrev pub pad : Children → Children
pad (child r none_left) = child r (child (reg_word []) none_left)
pad cs = cs

abbrev pub rebuild : RegularOperator → Children → RegNode
rebuild concat cs = operation concat (pad (join_words [] (merge concat cs)))
rebuild o cs = operation o (merge o cs)

unfoldable mutual
  unfolding merge join_words

  pub flatten : RegNode → RegNode
  flatten reg_empty = reg_empty
  flatten (reg_word u) = reg_word u
  flatten (operation o cs) = rebuild o (flatten_each cs)

  pub flatten_each : Children → Children
  flatten_each none_left = none_left
  flatten_each (child r cs) = child (flatten r) (flatten_each cs)
