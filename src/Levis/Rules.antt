-- ===== src/Levis/Rules.antt =====
-- The rules of libs/solvers/levis/rules.hpp. A rule gives a `Substitution`: no entry where the rule
-- does not apply, and one entry where it does. `GuessConstIsOneVariable`, which the solver does not
-- run, reads two pointers that it may leave unset, and is left out.
use woorpje.Common.{
  Bool, ◌&&◌, ◌||◌, Option, none, some, List, [], ◌∷◌, reverse, ltb, if◌then◌else◌,
}
use woorpje.Word.Defs.{Entry, Word, is_variable, is_terminal, iterate, characters}
use woorpje.Simplify.Defs.{Substitution}
pub use woorpje.Word.Defs.{Equation}

abbrev pub first : List Entry → Option Entry
first [] = none
first (e ∷ w) = some e

abbrev pub both : Option Entry → Option Entry → Option (Entry × Entry)
both (some l) (some r) = some (l, r)
both _ _ = none

-- The guard on `characters`, with `*begin()` or `*rbegin()` of both sides.
unfoldable pub at_front : Equation → Option (Entry × Entry)
unfolding characters iterate
at_front e =
    if ltb (characters e.lhs) 1 || ltb (characters e.rhs) 1
    then none
    else both (first (iterate e.lhs)) (first (iterate e.rhs))

unfoldable pub at_back : Equation → Option (Entry × Entry)
unfolding characters iterate
at_back e =
    if ltb (characters e.lhs) 1 || ltb (characters e.rhs) 1
    then none
    else both (first (reverse (iterate e.lhs))) (first (reverse (iterate e.rhs)))

abbrev pub two_variables : Entry → Entry → Bool
two_variables l r = is_variable l && is_variable r

abbrev pub variable_left : Entry → Entry → Bool
variable_left l r = is_variable l && is_terminal r

abbrev pub variable_right : Entry → Entry → Bool
variable_right l r = is_variable r && is_terminal l

-- The return on a failed guard, and `sub.insert`.
unfoldable pub propose :
    (Entry → Entry → Bool) → (Entry → Entry → Entry × Word) → Option (Entry × Entry) → Substitution
propose test make none = []
propose test make (some (l, r)) = if test l r then make l r ∷ [] else []

abbrev pub Rule : Type 0
Rule = Equation → Substitution

abbrev pub prefix_reasoning_left_hand_side : Rule
prefix_reasoning_left_hand_side e = propose two_variables (λ l r. (l, r ∷ l ∷ [])) (at_front e)

abbrev pub prefix_reasoning_right_hand_side : Rule
prefix_reasoning_right_hand_side e = propose two_variables (λ l r. (r, l ∷ r ∷ [])) (at_front e)

abbrev pub prefix_reasoning_equal : Rule
prefix_reasoning_equal e = propose two_variables (λ l r. (r, l ∷ [])) (at_front e)

abbrev pub suffix_reasoning_left_hand_side : Rule
suffix_reasoning_left_hand_side e = propose two_variables (λ l r. (l, l ∷ r ∷ [])) (at_back e)

abbrev pub suffix_reasoning_right_hand_side : Rule
suffix_reasoning_right_hand_side e = propose two_variables (λ l r. (r, r ∷ l ∷ [])) (at_back e)

abbrev pub suffix_reasoning_equal : Rule
suffix_reasoning_equal e = propose two_variables (λ l r. (r, l ∷ [])) (at_back e)

abbrev pub prefix_empty_word_left_hand_side : Rule
prefix_empty_word_left_hand_side e = propose variable_left (λ l r. (l, [])) (at_front e)

abbrev pub prefix_empty_word_right_hand_side : Rule
prefix_empty_word_right_hand_side e = propose variable_right (λ l r. (r, [])) (at_front e)

abbrev pub prefix_letter_left_hand_side : Rule
prefix_letter_left_hand_side e = propose variable_left (λ l r. (l, r ∷ l ∷ [])) (at_front e)

abbrev pub prefix_letter_right_hand_side : Rule
prefix_letter_right_hand_side e = propose variable_right (λ l r. (r, l ∷ r ∷ [])) (at_front e)

abbrev pub suffix_empty_word_left_hand_side : Rule
suffix_empty_word_left_hand_side e = propose variable_left (λ l r. (l, [])) (at_back e)

abbrev pub suffix_empty_word_right_hand_side : Rule
suffix_empty_word_right_hand_side e = propose variable_right (λ l r. (r, [])) (at_back e)

abbrev pub suffix_letter_left_hand_side : Rule
suffix_letter_left_hand_side e = propose variable_left (λ l r. (l, l ∷ r ∷ [])) (at_back e)

abbrev pub suffix_letter_right_hand_side : Rule
suffix_letter_right_hand_side e = propose variable_right (λ l r. (r, r ∷ l ∷ [])) (at_back e)

-- The rules in the order in which solver.cpp passes them to the sequencer: those at the front, and
-- those at the back.
abbrev pub front_rules : List Rule
front_rules =
    prefix_reasoning_left_hand_side ∷ prefix_reasoning_right_hand_side ∷ prefix_reasoning_equal
    ∷ prefix_empty_word_left_hand_side ∷ prefix_empty_word_right_hand_side
    ∷ prefix_letter_left_hand_side ∷ prefix_letter_right_hand_side ∷ []

abbrev pub back_rules : List Rule
back_rules =
    suffix_reasoning_left_hand_side ∷ suffix_reasoning_right_hand_side ∷ suffix_reasoning_equal
    ∷ suffix_empty_word_left_hand_side ∷ suffix_empty_word_right_hand_side
    ∷ suffix_letter_left_hand_side ∷ suffix_letter_right_hand_side ∷ []
