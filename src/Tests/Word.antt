-- ===== src/Tests/Word.antt =====
-- Words and sequences: tests and instances.
use woorpje.Common.{◌≡◌, refl, ◌↔◌, true, [], ◌∷◌, ◌++◌}
use woorpje.Word.Defs.{Word, variable, terminal, sequence, same, concat, get_const_sequences}
use woorpje.Word.Value.{Assignment, value, value-concat}
use woorpje.Word.Substitute.{substitude_variable, update, value-substitude_variable}
use woorpje.Word.Sequence.{is_prefix, minus_prefix, is_prefix-minus_prefix}
use woorpje.Word.Factor.{is_factor_of, IsFactor, is_factor_of-Answers}

-- X "ab" Y X
abbrev sample : Word
sample = variable 0 ∷ sequence (97 ∷ 98 ∷ []) ∷ variable 1 ∷ variable 0 ∷ []

abbrev sigma : Assignment
sigma x = 99 ∷ x ∷ []

substitude_sample : substitude_variable (variable 0) (terminal 97 ∷ variable 2 ∷ []) sample ≡ (
  terminal 97 ∷ variable 2 ∷ sequence (97 ∷ 98 ∷ []) ∷ variable 1 ∷ terminal 97 ∷ variable 2 ∷ [],
  true,
)
unfolding substitude_variable same
substitude_sample = refl

const_sequences_sample : get_const_sequences sample ≡ (sequence (97 ∷ 98 ∷ []) ∷ []) ∷ []
unfolding get_const_sequences
const_sequences_sample = refl

value-concat_example : value sigma (concat sample sample) ≡ value sigma sample ++ value sigma sample
value-concat_example = value-concat sigma sample sample

value-substitude_variable_example :
    value sigma (substitude_variable (variable 0) (terminal 97 ∷ []) sample).0
    ≡ value (update sigma 0 (value sigma (terminal 97 ∷ []))) sample
value-substitude_variable_example = value-substitude_variable sigma 0 (terminal 97 ∷ []) sample

is_prefix-minus_prefix_example : 97 ∷ 98 ∷ [] ≡ 97 ∷ [] ++ minus_prefix (97 ∷ 98 ∷ []) (97 ∷ [])
unfolding is_prefix
is_prefix-minus_prefix_example = is_prefix-minus_prefix (97 ∷ []) (97 ∷ 98 ∷ []) refl

is_factor_of-Answers_example : (true ≡ true) ↔ IsFactor (98 ∷ []) (97 ∷ 98 ∷ 99 ∷ [])
unfolding is_factor_of
is_factor_of-Answers_example = is_factor_of-Answers (98 ∷ []) (97 ∷ 98 ∷ 99 ∷ []) refl
