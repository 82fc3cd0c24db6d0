-- ===== src/Regex/Defs.antt =====
-- The node classes `RegEmpty`, `RegWord` and `RegOperation` as one data type, with their virtual
-- functions by clauses. A star reads the child at index 0 only; where the source would index past
-- the end of the children (a star of none, a concatenation of fewer than two) the clauses have a value
-- that the source does not return; `IsWellFormed` says that an expression has no such place.
use woorpje.Common.{
  ℕ, Bool, true, false, ◌&&◌, ◌||◌, Option, none, some, List, [], ◌++◌, reverse, length, ◌==◌,
}

pub data RegularOperator : Type 0 where
  union concat star : RegularOperator

mutual
  pub data RegNode : Type 0 where
    reg_empty : RegNode
    reg_word : List ℕ → RegNode
    operation : RegularOperator → Children → RegNode

  pub data Children : Type 0 where
    none_left : Children
    child : RegNode → Children → Children

-- `isEmpty`
unfoldable mutual
  pub is_empty : RegNode → Bool
  is_empty reg_empty = true
  is_empty (reg_word u) = false
  is_empty (operation union cs) = all_empty cs
  is_empty (operation concat cs) = some_empty cs
  is_empty (operation star cs) = first_empty cs

  pub all_empty : Children → Bool
  all_empty none_left = true
  all_empty (child r cs) = is_empty r && all_empty cs

  pub some_empty : Children → Bool
  some_empty none_left = false
  some_empty (child r cs) = is_empty r || some_empty cs

  pub first_empty : Children → Bool
  first_empty none_left = false
  first_empty (child r cs) = is_empty r

-- `acceptsEpsilon`
unfoldable mutual
  pub accepts_epsilon : RegNode → Bool
  accepts_epsilon reg_empty = false
  accepts_epsilon (reg_word u) = length u == 0
  accepts_epsilon (operation union cs) = some_accepts cs
  accepts_epsilon (operation concat cs) = all_accept cs
  accepts_epsilon (operation star cs) = true

  pub some_accepts : Children → Bool
  some_accepts none_left = false
  some_accepts (child r cs) = accepts_epsilon r || some_accepts cs

  pub all_accept : Children → Bool
  all_accept none_left = true
  all_accept (child r cs) = accepts_epsilon r && all_accept cs

-- `any`: the first child that has a word, or the words of all children in a row.
unfoldable pub or_else : Option (List ℕ) → Option (List ℕ) → Option (List ℕ)
or_else (some u) o = some u
or_else none o = o

unfoldable pub append_words : Option (List ℕ) → Option (List ℕ) → Option (List ℕ)
append_words none o = none
append_words (some u) none = none
append_words (some u) (some v) = some (u ++ v)

unfoldable mutual
  unfolding or_else append_words

  pub any : RegNode → Option (List ℕ)
  any reg_empty = none
  any (reg_word u) = some u
  any (operation union cs) = any_child cs
  any (operation concat cs) = any_in_row cs
  any (operation star cs) = some []

  pub any_child : Children → Option (List ℕ)
  any_child none_left = none
  any_child (child r cs) = or_else (any r) (any_child cs)

  pub any_in_row : Children → Option (List ℕ)
  any_in_row none_left = some []
  any_in_row (child r cs) = append_words (any r) (any_in_row cs)

-- `std::reverse` on the vector of children.
unfoldable pub append_children : Children → Children → Children
append_children none_left ds = ds
append_children (child r cs) ds = child r (append_children cs ds)

unfoldable pub reverse_children : Children → Children
unfolding append_children
reverse_children none_left = none_left
reverse_children (child r cs) = append_children (reverse_children cs) (child r none_left)

-- `reverse`, under another name than that of lists
unfoldable mutual
  unfolding reverse_children

  pub reverse_node : RegNode → RegNode
  reverse_node reg_empty = reg_empty
  reverse_node (reg_word u) = reg_word (reverse u)
  reverse_node (operation union cs) = operation union (reverse_each cs)
  reverse_node (operation concat cs) = operation concat (reverse_children (reverse_each cs))
  reverse_node (operation star cs) = operation star (reverse_first cs)

  pub reverse_each : Children → Children
  reverse_each none_left = none_left
  reverse_each (child r cs) = child (reverse_node r) (reverse_each cs)

  pub reverse_first : Children → Children
  reverse_first none_left = none_left
  reverse_first (child r cs) = child (reverse_node r) none_left
