-- ===== src/Linear/Defs.antt =====
-- `LinearConstraint`, `Helper` and `LinConsBuilder` of libs/words/linconstraint.cpp and
-- libs/words/pubinclude/words/linconstraint.hpp, and `modifyLinearConstraints` of
-- libs/solvers/levis/solver.cpp. The source counts in `int64_t`; here nothing wraps. The map from
-- entries is a list of pairs in the order of insertion.
use woorpje.Common.{
  zero, Bool, true, false, ◌&&◌, ◌||◌, Option, none, some, List, [], ◌∷◌, if◌then◌else◌, length,
  ◌==◌, ℤ, pos, negsuc, neg, ◌+ℤ◌,
}
use mathlib.Core.Option
use woorpje.Word.Defs.{Entry, Word, same, is_variable, iterate}
use woorpje.Simplify.Defs.{Substitution}

-- `VarMultiplicity`
abbrev pub VarMultiplicity : Type 0
VarMultiplicity = Entry × ℤ

pub record LinearConstraint : Type 0 where
  pub variables : List VarMultiplicity
  pub rhs : ℤ

pub data Cmp : Type 0 where
  lt leq geq gt : Cmp

abbrev pub is_negative : ℤ → Bool
is_negative (pos n) = false
is_negative (negsuc n) = true

abbrev pub is_zero : ℤ → Bool
is_zero (pos zero) = true
is_zero _ = false

-- `unsatisfiable`, with `lhsEmpty`
abbrev pub lhs_empty : LinearConstraint → Bool
lhs_empty c = length c.variables == 0

abbrev one_not_negative : List VarMultiplicity → Bool
one_not_negative ((e, n) ∷ []) = if is_negative n then false else true
one_not_negative _ = false

unfoldable pub unsatisfiable : LinearConstraint → Bool
unsatisfiable c =
    is_negative c.rhs && lhs_empty c || is_negative c.rhs && one_not_negative c.variables

-- `Helper`
pub record Helper : Type 0 where
  pub multiplicities : List VarMultiplicity
  pub total : ℤ

-- `multiplicities[e] += i`
unfoldable pub add_to : Entry → ℤ → List VarMultiplicity → List VarMultiplicity
add_to e i [] = (e, i) ∷ []
add_to e i ((f, n) ∷ ms) = if same f e then (f, n +ℤ i) ∷ ms else (f, n) ∷ add_to e i ms

unfoldable pub make_multi_vector : List VarMultiplicity → List VarMultiplicity
make_multi_vector [] = []
make_multi_vector ((e, n) ∷ ms) =
    let rest = make_multi_vector ms in if is_zero n then rest else (e, n) ∷ rest

unfoldable pub make_neg_multi_vector : List VarMultiplicity → List VarMultiplicity
make_neg_multi_vector [] = []
make_neg_multi_vector ((e, n) ∷ ms) =
    let rest = make_neg_multi_vector ms in if is_zero n then rest else (e, neg n) ∷ rest

unfoldable pub make_constraint : Cmp → Helper → LinearConstraint
unfolding make_multi_vector make_neg_multi_vector
make_constraint leq h = record { variables = make_multi_vector h.multiplicities; rhs = h.total }
make_constraint lt h = record {
  variables = make_multi_vector h.multiplicities;
  rhs = h.total +ℤ negsuc 0;
}
make_constraint geq h = record {
  variables = make_neg_multi_vector h.multiplicities;
  rhs = neg h.total;
}
make_constraint gt h = record {
  variables = make_neg_multi_vector h.multiplicities;
  rhs = neg h.total +ℤ negsuc 0;
}

abbrev pub new_helper : Helper
new_helper = record { multiplicities = []; total = pos 0 }

-- The four methods of the builder.
pub data Addition : Type 0 where
  lhs_entry rhs_entry : Entry → ℤ → Addition
  lhs_number rhs_number : ℤ → Addition

unfoldable pub add : Addition → Helper → Helper
unfolding add_to
add (lhs_entry e v) h = record h { multiplicities = add_to e v h.multiplicities }
add (rhs_entry e v) h = record h { multiplicities = add_to e (neg v) h.multiplicities }
add (lhs_number v) h = record h { total = h.total +ℤ neg v }
add (rhs_number v) h = record h { total = h.total +ℤ v }

unfoldable pub add_all : List Addition → Helper → Helper
unfolding add
add_all [] h = h
add_all (a ∷ more) h = add_all more (add a h)

-- `sub.count` and `sub.at`
unfoldable pub look_up : Entry → Substitution → Option Word
look_up e [] = none
look_up e ((v, w) ∷ subs) = if same v e then some w else look_up e subs

-- One variable of a constraint under the substitution: the calls of the builder.
unfoldable pub spread : ℤ → List Entry → Helper → Helper
unfolding add
spread n [] h = h
spread n (e ∷ w) h =
    spread n w (if is_variable e then add (lhs_entry e n) h else add (rhs_number (neg n)) h)

abbrev pub replace_one : Entry → ℤ → Option Word → Helper → Helper
replace_one e n none h = add (lhs_entry e n) h
replace_one e n (some w) h = spread n (iterate w) h

unfoldable pub replace_variables : Substitution → List VarMultiplicity → Helper → Helper
unfolding add spread look_up iterate
replace_variables subs [] h = h
replace_variables subs ((e, n) ∷ ms) h =
    replace_variables subs ms (replace_one e n (look_up e subs) h)

unfoldable pub modify_one : Substitution → LinearConstraint → LinearConstraint
unfolding replace_variables make_constraint
modify_one subs c =
    make_constraint leq (replace_variables subs c.variables (add (rhs_number c.rhs) new_helper))

-- `none` is the early `return false`. Of the constraints that are not linear, `other` keeps the entry.
pub data Constraint : Type 0 where
  linear : LinearConstraint → Constraint
  other : Entry → Constraint

abbrev pub put : LinearConstraint → Option (List Constraint) → Option (List Constraint)
put c rest =
    if lhs_empty c
    then if is_negative c.rhs then none else rest
    else Option.map (λ cs. linear c ∷ cs) rest

unfoldable pub modify_each : Substitution → List Constraint → Option (List Constraint)
unfolding modify_one
modify_each subs [] = some []
modify_each subs (linear c ∷ cs) = put (modify_one subs c) (modify_each subs cs)
modify_each subs (other e ∷ cs) = Option.map (λ ds. other e ∷ ds) (modify_each subs cs)

unfoldable pub modify_linear_constraints : Substitution → List Constraint → Option (List Constraint)
unfolding modify_each
modify_linear_constraints [] cs = some cs
modify_linear_constraints (x ∷ subs) cs = modify_each (x ∷ subs) cs
