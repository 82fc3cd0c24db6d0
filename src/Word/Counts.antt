-- ===== src/Word/Counts.antt =====
-- Counting and splitting loops of `Word`.
use woorpje.Common.{ℕ, ◌+◌, ◌≡◌, refl, List, [], ◌∷◌, ◌++◌, arith, false}
use woorpje.Word.Defs.{
  Word, variable, terminal, sequence, is_variable, entry_length, characters,
  separate_character_count, const_sequences, get_const_sequences, next_current, next_words,
}

-- The two counters grow by the number of characters together.
pub separate_character_count_sum :
    (w : Word) (t v : ℕ)
    → (separate_character_count w t v).0 + (separate_character_count w t v).1 ≡ t + v + characters w
unfolding separate_character_count characters
separate_character_count_sum [] t v = omega arith
separate_character_count_sum (variable x ∷ w) t v =
    omega (arith, separate_character_count_sum w t (v + 1))
separate_character_count_sum (terminal a ∷ w) t v =
    omega (arith, separate_character_count_sum w (t + 1) v)
separate_character_count_sum (sequence s ∷ w) t v =
    omega (arith, separate_character_count_sum w (t + entry_length (sequence s)) v)

-- No entry is a variable.
abbrev pub IsConstant : Word → Type 0
IsConstant [] = Unit
IsConstant (e ∷ w) = (is_variable e ≡ false) × IsConstant w

const_sequences-constant :
    (k current : Word) (words : List Word) → IsConstant k → const_sequences k current words ≡ words
unfolding const_sequences
const_sequences-constant [] current words h = refl
const_sequences-constant (e ∷ k) current words h =
    rw h.0 (const_sequences-constant k (current ++ e ∷ []) words h.1)

const_sequences-append_constant :
    (w k current : Word) (words : List Word)
    → IsConstant k
    → const_sequences (w ++ k) current words ≡ const_sequences w current words
unfolding const_sequences
const_sequences-append_constant [] k current words h = const_sequences-constant k current words h
const_sequences-append_constant (e ∷ w) k current words h =
    const_sequences-append_constant w k (next_current e current) (next_words e current words) h

-- Constants behind the last variable do not show in the result of `getConstSequences`.
pub get_const_sequences_drops_tail :
    (w k : Word) → IsConstant k → get_const_sequences (w ++ k) ≡ get_const_sequences w
unfolding get_const_sequences
get_const_sequences_drops_tail w k h = const_sequences-append_constant w k [] [] h
