-- ===== src/Simplify/Reasoning.antt =====
-- `SubstitutionReasoningNew` of libs/solvers/pubinclude/solvers/simplifiers.hpp, over the simplifier
-- that it is given for single equations. A word of one variable is a variable's index; `none` is out
-- of fuel, of which the loop has one unit for each equation, since it starts again with fewer.
-- The substitution, in the source a map in the order of pointers, stands in the order of insertion.
use woorpje.Common.{
  ℕ, zero, suc, Option, none, some, List, [], ◌∷◌, ◌++◌, ◌==◌, length, if◌then◌else◌,
}
use woorpje.Word.Defs.{Word, Equation, variable, contains_variable, characters, same}
use woorpje.Word.Substitute.{substitude_variable}
use woorpje.Simplify.Defs.{reduced_satis, just_reduced, reduced_nsatis, Substitution, Reduction}
use woorpje.Simplify.Constants.{fold_word}

-- A side that is one variable, which does not occur on the other side.
unfoldable pub candidate : Word → Word → Option (ℕ × Word)
unfolding contains_variable
candidate (variable x ∷ []) other =
    if contains_variable (variable x) other then none else some (x, other)
candidate _ other = none

-- The variable and its word; the right-hand side is looked at last, and decides.
unfoldable pub select_variable : Equation → Option (ℕ × Word)
unfolding candidate
select_variable e = elim (candidate e.rhs e.lhs) [ some p ↦ some p | none ↦ candidate e.lhs e.rhs ]

-- The loop over the other equations: `ReducedNsatis` at once, or `eqs`.
pub data Replaced : Type 0 where
  conflict : Replaced
  replaced : List Equation → Replaced

abbrev pub keep_equation : Reduction → Replaced → Replaced
keep_equation y conflict = conflict
keep_equation y (replaced eqs) = replaced (record { lhs = y.lhs; rhs = y.rhs } ∷ eqs)

abbrev pub by_reduction : Reduction → Replaced → Replaced
by_reduction y rest = elim y.outcome [
  | reduced_nsatis ↦ conflict
  | just_reduced ↦ keep_equation y rest
  | reduced_satis ↦ rest
]

abbrev pub both_some : Option Reduction → Option Replaced → Option Replaced
both_some none rest = none
both_some (some y) none = none
both_some (some y) (some p) = some (by_reduction y p)

-- `substitution.insert`, which keeps the word that a variable has.
unfoldable pub insert_word : ℕ → Word → Substitution → Substitution
unfolding same
insert_word x w [] = (variable x, w) ∷ []
insert_word x w ((v, u) ∷ s) =
    let rest = insert_word x w s in if same v (variable x) then (v, u) ∷ s else (v, u) ∷ rest

unfoldable pub substitute_words : ℕ → Word → Substitution → Substitution
unfolding substitude_variable
substitute_words x w [] = []
substitute_words x w ((v, u) ∷ s) =
    (v, (substitude_variable (variable x) w u).0) ∷ substitute_words x w s

-- The last loop, which makes equations of the substitution.
unfoldable pub push_back : Substitution → List Equation
unfolding characters fold_word
push_back [] = []
push_back ((v, u) ∷ s) =
    let rest = push_back s in
    if characters u == 0
    then rest
    else record { lhs = fold_word (v ∷ []); rhs = fold_word u } ∷ rest

-- `ReducedNsatis`, or the equations, `ReducedSatis` where there is none, and the substitution.
pub data Reasoned : Type 0 where
  unsatisfied : Reasoned
  reasoned : List Equation → Substitution → Reasoned

module _ (inner : Word → Word → Option Reduction) where
  abbrev pub replace_var_in_equation : ℕ → Word → Equation → Option Reduction
  replace_var_in_equation x w e =
      inner (substitude_variable (variable x) w e.lhs).0
        (substitude_variable (variable x) w e.rhs).0

  unfoldable pub replace_each : ℕ → Word → List Equation → Option Replaced
  unfolding substitude_variable
  replace_each x w [] = some (replaced [])
  replace_each x w (e ∷ es) = both_some (replace_var_in_equation x w e) (replace_each x w es)

  -- The loop, with the equations before `it`.
  unfoldable pub reason_loop : ℕ → List Equation → List Equation → Substitution → Option Reasoned
  unfolding replace_each select_variable insert_word substitute_words push_back
  reason_loop fuel before [] s = some (reasoned (before ++ push_back s) s)
  reason_loop zero before (e ∷ es) s = none
  reason_loop (suc fuel) before (e ∷ es) s = elim (select_variable e) [
    | none ↦ reason_loop (suc fuel) (before ++ e ∷ []) es s
    | some p ↦ elim (replace_each p.0 p.1 (before ++ es)) [
      | none ↦ none
      | some r ↦ elim r [
        | conflict ↦ some unsatisfied
        | replaced eqs ↦ reason_loop fuel [] eqs (insert_word p.0 p.1 (substitute_words p.0 p.1 s))
      ]
    ]
  ]

  unfoldable pub substitution_reasoning : List Equation → Substitution → Option Reasoned
  unfolding reason_loop
  substitution_reasoning es s = reason_loop (length es) [] es s
