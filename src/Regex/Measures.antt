-- ===== src/Regex/Measures.antt =====
-- The numbers that the heuristics read off an expression: `shortestLiteral`, `longestLiteral`,
-- `numStars`, `starHeight`, `characters`, `complexity` and `depth` of
-- libs/words/pubinclude/words/regconstraints.hpp. The source counts in `int`; here nothing wraps.
use woorpje.Common.{
  ℕ, ◌+◌, ◌≤◌, ◌≡◌, inl, inr, Bool, List, [], ◌++◌, refl, length, length-append, ltb, if◌then◌else◌,
  arith, subst, ap, ◌∙◌, sym,
}
use woorpje.Regex.Defs.{
  RegNode, Children, reg_empty, reg_word, operation, union, concat, star, none_left, child,
}
use woorpje.Regex.Lang.{Star, stop, more, Lang, LangSome, LangRow, LangFirst}
pub mod Bounds

-- The loops' `if (chl < shortest)` and `if (chl > longest)`.
abbrev pub smaller : ℕ → ℕ → ℕ
smaller shortest chl = if ltb chl shortest then chl else shortest

abbrev pub larger : ℕ → ℕ → ℕ
larger longest chl = if ltb longest chl then chl else longest

unfoldable mutual
  pub shortest_literal : RegNode → ℕ
  shortest_literal reg_empty = 0
  shortest_literal (reg_word u) = length u
  shortest_literal (operation union cs) = shortest_of 0 cs
  shortest_literal (operation concat cs) = sum_shortest cs
  shortest_literal (operation star cs) = 0

  -- The loop, from the value of `shortest` so far.
  pub shortest_of : ℕ → Children → ℕ
  shortest_of shortest none_left = shortest
  shortest_of shortest (child r cs) = shortest_of (smaller shortest (shortest_literal r)) cs

  pub sum_shortest : Children → ℕ
  sum_shortest none_left = 0
  sum_shortest (child r cs) = shortest_literal r + sum_shortest cs

unfoldable mutual
  pub longest_literal : RegNode → ℕ
  longest_literal reg_empty = 0
  longest_literal (reg_word u) = length u
  longest_literal (operation concat cs) = sum_longest cs
  longest_literal (operation union cs) = longest_of 0 cs
  longest_literal (operation star cs) = longest_of 0 cs

  pub longest_of : ℕ → Children → ℕ
  longest_of longest none_left = longest
  longest_of longest (child r cs) = longest_of (larger longest (longest_literal r)) cs

  pub sum_longest : Children → ℕ
  sum_longest none_left = 0
  sum_longest (child r cs) = longest_literal r + sum_longest cs

unfoldable mutual
  pub num_stars : RegNode → ℕ
  num_stars reg_empty = 0
  num_stars (reg_word u) = 0
  num_stars (operation star cs) = 1 + sum_stars cs
  num_stars (operation o cs) = sum_stars cs

  pub sum_stars : Children → ℕ
  sum_stars none_left = 0
  sum_stars (child r cs) = num_stars r + sum_stars cs

unfoldable mutual
  pub star_height : RegNode → ℕ
  star_height reg_empty = 0
  star_height (reg_word u) = 0
  star_height (operation star cs) = heights 0 cs + 1
  star_height (operation o cs) = heights 0 cs

  pub heights : ℕ → Children → ℕ
  heights c none_left = c
  heights c (child r cs) = heights (larger c (star_height r)) cs

unfoldable mutual
  pub node_characters : RegNode → ℕ
  node_characters reg_empty = 0
  node_characters (reg_word u) = length u
  node_characters (operation o cs) = sum_characters cs

  pub sum_characters : Children → ℕ
  sum_characters none_left = 0
  sum_characters (child r cs) = node_characters r + sum_characters cs

unfoldable mutual
  unfolding node_characters

  pub complexity : RegNode → ℕ
  complexity reg_empty = 1
  complexity (reg_word u) = node_characters (reg_word u)
  complexity (operation o cs) = sum_complexity cs + 1

  pub sum_complexity : Children → ℕ
  sum_complexity none_left = 0
  sum_complexity (child r cs) = complexity r + sum_complexity cs

unfoldable mutual
  pub node_depth : RegNode → ℕ
  node_depth reg_empty = 0
  node_depth (reg_word u) = 0
  node_depth (operation o cs) = depths 0 cs + 1

  pub depths : ℕ → Children → ℕ
  depths d none_left = d
  depths d (child r cs) = depths (larger d (node_depth r)) cs
