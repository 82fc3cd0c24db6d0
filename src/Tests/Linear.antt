-- ===== src/Tests/Linear.antt =====
-- Linear constraints: tests and instances.
use woorpje.Common.{◌≡◌, ◌↔◌, refl, some, List, [], ◌∷◌, pos, negsuc, ◌+ℤ◌}
use woorpje.Word.Defs.{variable, terminal, same}
use woorpje.Simplify.Defs.{Substitution}
use woorpje.Linear.Defs.{
  LinearConstraint, gt, make_constraint, new_helper, Addition, lhs_entry, rhs_entry, rhs_number,
  add_all, Constraint, linear, modify_linear_constraints,
}
use woorpje.Linear.Builder.{
  Lengths, Satisfies, Compares, left_side, right_side, make_constraint-add_all_iff,
}
use woorpje.Linear.Modify.{before, IsKept, modify_linear_constraints-IsKept}

-- 2 |X| > |Y| + 3
abbrev calls : List Addition
calls = lhs_entry (variable 0) (pos 2) ∷ rhs_entry (variable 1) (pos 1) ∷ rhs_number (pos 3) ∷ []

abbrev all_two : Lengths
all_two e = 2

make_constraint-add_all_iff_example :
    Satisfies all_two (make_constraint gt (add_all calls new_helper))
    ↔ Compares gt (left_side all_two calls) (right_side all_two calls)
make_constraint-add_all_iff_example = make_constraint-add_all_iff all_two gt calls

-- |X| <= 4, where aX stands for X.
abbrev short : List Constraint
short = linear (record { variables = (variable 0, pos 1) ∷ []; rhs = pos 4 }) ∷ []

abbrev letter_first : Substitution
letter_first = (variable 0, terminal 97 ∷ variable 0 ∷ []) ∷ []

modify_short :
    modify_linear_constraints letter_first short
    ≡ some (linear (record { variables = (variable 0, pos 1) ∷ []; rhs = pos 3 }) ∷ [])
unfolding modify_linear_constraints same ◌+ℤ◌
modify_short = refl

modify_linear_constraints-IsKept_example :
    IsKept all_two
      (before letter_first all_two)
      short
      (modify_linear_constraints letter_first short)
modify_linear_constraints-IsKept_example =
    modify_linear_constraints-IsKept all_two letter_first short

abbrev below_zero : LinearConstraint
below_zero = record { variables = (variable 0, pos 1) ∷ []; rhs = negsuc 0 }
