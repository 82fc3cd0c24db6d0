-- ===== src/Regex/Strip.antt =====
-- `RegConstraint` with `stripPrefix` and `stripSuffix`, of libs/words/regconstraint.cpp.
use woorpje.Common.{ℕ, Bool, true, false, List, [], ◌∷◌, ◌++◌, reverse, if◌then◌else◌}
use woorpje.Word.Defs.{Entry, Word, variable, terminal, sequence, iterate}
use woorpje.Regex.Defs.{RegNode, reverse_node}
use woorpje.Regex.Derive.{derivative}
pub mod Sound

pub record RegConstraint : Type 0 where
  pub pattern : Word
  pub expr : RegNode
  pub trivially_sat : Bool

abbrev pub constraint : Word → RegNode → RegConstraint
constraint w r = record { pattern = w; expr = r; trivially_sat = false }

-- The loop over the pattern's entries, by the flag `inPrefix`: the characters in front, and all from
-- the first variable on.
unfoldable pub split_prefix : Bool → List Entry → List ℕ × List Entry
split_prefix in_prefix [] = ([], [])
split_prefix true (terminal a ∷ w) = let rest = split_prefix true w in (a ∷ rest.0, rest.1)
split_prefix in_prefix (e ∷ w) = let rest = split_prefix false w in (rest.0, e ∷ rest.1)

-- `stripped`: the derivatives by one character after another.
unfoldable pub derive_each : List ℕ → RegNode → RegNode
derive_each [] r = r
derive_each (c ∷ d) r = derive_each d (derivative (c ∷ []) r)

unfoldable pub strip_prefix : RegConstraint → RegConstraint
unfolding split_prefix derive_each iterate
strip_prefix original =
    let parts = split_prefix true (iterate original.pattern) in
    constraint parts.1 (derive_each parts.0 original.expr)

-- The constraint read backwards.
abbrev pub reversed : RegConstraint → RegConstraint
reversed original = constraint (reverse (iterate original.pattern)) (reverse_node original.expr)

unfoldable pub strip_suffix : RegConstraint → RegConstraint
unfolding strip_prefix
strip_suffix original = reversed (strip_prefix (reversed original))
