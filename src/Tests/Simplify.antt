-- ===== src/Tests/Simplify.antt =====
-- Simplifiers: tests and instances.
use woorpje.Common.{◌≡◌, refl, some, List, [], ◌∷◌}
use woorpje.Word.Defs.{Word, Equation, variable, terminal, sequence}
use woorpje.Word.Sequence.{is_prefix, minus_prefix}
use woorpje.Word.Defs.{same}
use woorpje.Word.Value.{Assignment, value}
use woorpje.Word.Factor.{is_factor_of}
use woorpje.Word.Defs.{no_variable_word, get_sequences, contains_variable}
use woorpje.Simplify.Defs.{just_reduced, Reduction, prefix_reduce, suffix_reduce}
use woorpje.Simplify.Ends.{Solves, IsRight, prefix_reduce-IsRight, suffix_reduce-IsRight}
use woorpje.Simplify.Constants.{
  fold_word, IsFolded, fold_word-IsFolded, const_sequence_mismatch, const_sequence_mismatch_sound,
}
use woorpje.Simplify.Reasoning.{Reasoned, reasoned, substitution_reasoning}
use woorpje.Simplify.Eliminate.{IsReasoned, substitution_reasoning-IsReasoned}
use woorpje.Simplify.System.{
  pre_suffix_reduce, pre_suffix_reduce-IsRight, Pass, PassIsRight, run_all_eq, run_all_eq-IsRight,
  passed,
}

-- X "ab" Y = X "abc" Z
abbrev left_side : Word
left_side = variable 0 ∷ sequence (97 ∷ 98 ∷ []) ∷ variable 1 ∷ []

abbrev right_side : Word
right_side = variable 0 ∷ sequence (97 ∷ 98 ∷ 99 ∷ []) ∷ variable 2 ∷ []

prefix_sample :
    prefix_reduce left_side right_side [] []
    ≡ some (record {
      outcome = just_reduced;
      lhs = variable 1 ∷ [];
      rhs = sequence (99 ∷ []) ∷ variable 2 ∷ [];
      subs = [];
      cstr = variable 0 ∷ [];
    })
unfolding prefix_reduce same is_prefix minus_prefix
prefix_sample = refl

prefix_reduce-IsRight_example :
    (x : Reduction) × (prefix_reduce left_side right_side [] [] ≡ some x)
    × IsRight left_side right_side x
prefix_reduce-IsRight_example = prefix_reduce-IsRight left_side right_side [] []

suffix_reduce-IsRight_example :
    (x : Reduction) × (suffix_reduce left_side right_side [] [] ≡ some x)
    × IsRight left_side right_side x
suffix_reduce-IsRight_example = suffix_reduce-IsRight left_side right_side [] []

-- The equation above, and X = X.
abbrev system : List Equation
system =
    record { lhs = left_side; rhs = right_side }
    ∷ record { lhs = variable 1 ∷ []; rhs = variable 1 ∷ [] }
    ∷ []

-- The variable 1 is still in an equation, so that it is not handed on.
run_sample :
    run_all_eq system
    ≡ some (
        passed
          (record { lhs = variable 1 ∷ []; rhs = sequence (99 ∷ []) ∷ variable 2 ∷ [] } ∷ [])
          (variable 0 ∷ []))
unfolding run_all_eq same is_prefix minus_prefix contains_variable
run_sample = refl

run_all_eq-IsRight_example : (p : Pass) × (run_all_eq system ≡ some p) × PassIsRight system p
run_all_eq-IsRight_example = run_all_eq-IsRight system

abbrev loose : Word
loose = terminal 97 ∷ sequence (98 ∷ []) ∷ variable 0 ∷ terminal 97 ∷ []

fold_word-IsFolded_example :
    IsFolded (fold_word loose) × ((σ : Assignment) → value σ (fold_word loose) ≡ value σ loose)
fold_word-IsFolded_example = fold_word-IsFolded loose

-- "ab" = X "c"
const_sequence_mismatch_sound_example :
    ¬ Solves (λ x. []) (sequence (97 ∷ 98 ∷ []) ∷ []) (variable 0 ∷ sequence (99 ∷ []) ∷ [])
unfolding const_sequence_mismatch is_factor_of no_variable_word get_sequences
const_sequence_mismatch_sound_example =
    const_sequence_mismatch_sound (sequence (97 ∷ 98 ∷ []) ∷ [])
      (variable 0 ∷ sequence (99 ∷ []) ∷ []) (λ x. []) refl

-- X = aY and XZ = aYb
abbrev chained : List Equation
chained =
    record { lhs = variable 0 ∷ []; rhs = terminal 97 ∷ variable 1 ∷ [] }
    ∷ record {
      lhs = variable 0 ∷ variable 2 ∷ [];
      rhs = terminal 97 ∷ variable 1 ∷ terminal 98 ∷ [];
    }
    ∷ []

chained_reasoned :
    substitution_reasoning (λ l r. pre_suffix_reduce l r [] []) chained []
    ≡ some (
        reasoned
          (record { lhs = variable 0 ∷ []; rhs = sequence (97 ∷ []) ∷ variable 1 ∷ [] }
            ∷ record { lhs = variable 2 ∷ []; rhs = sequence (98 ∷ []) ∷ [] }
            ∷ [])
          ((variable 0, terminal 97 ∷ variable 1 ∷ []) ∷ (variable 2, terminal 98 ∷ []) ∷ []))
unfolding substitution_reasoning pre_suffix_reduce same is_prefix minus_prefix fold_word
chained_reasoned = refl

substitution_reasoning-IsReasoned_example :
    (q : Reasoned) × (substitution_reasoning (λ l r. pre_suffix_reduce l r [] []) chained []
      ≡ some q)
    × IsReasoned chained [] q
substitution_reasoning-IsReasoned_example =
    substitution_reasoning-IsReasoned (λ l r. pre_suffix_reduce l r [] [])
      (λ l r. pre_suffix_reduce-IsRight l r [] []) chained []
