-- ===== src/Simplify/Constants.antt =====
-- `ConstSequenceFolding` and `ConstSequenceMismatch` of
-- libs/solvers/pubinclude/solvers/simplifiers.hpp.
use woorpje.Common.{
  ℕ, ◌≡◌, refl, sym, ap, ◌∙◌, Bool, true, false, not, ◌&&◌, Option, none, some, List, [], ◌∷◌, ◌++◌,
  append_assoc, append-nil, if◌then◌else◌,
}
use woorpje.Word.Defs.{Word, variable, terminal, sequence, no_variable_word, get_sequences}
use woorpje.Word.Value.{Assignment, value}
use woorpje.Word.Factor.{is_factor_of, IsFactor, is_factor_of-Answers}
use woorpje.Simplify.Defs.{Simplified, just_reduced, reduced_nsatis}
use woorpje.Simplify.Ends.{Solves}

-- The pushes of `nseq`, where it holds anything.
abbrev pub close : List ℕ → Word → Word
close [] w = w
close (a ∷ s) w = sequence (a ∷ s) ∷ w

-- The loop of `foldWord`, from the terminals in `nseq`.
unfoldable pub fold_from : List ℕ → Word → Word
fold_from nseq [] = close nseq []
fold_from nseq (variable x ∷ w) = close nseq (variable x ∷ fold_from [] w)
fold_from nseq (terminal a ∷ w) = fold_from (nseq ++ a ∷ []) w
fold_from nseq (sequence s ∷ w) = fold_from (nseq ++ s) w

unfoldable pub fold_word : Word → Word
unfolding fold_from
fold_word w = fold_from [] w

-- The loop over `consts`; `none` is a fault of `isFactorOf`.
abbrev pub checked : Option Bool → Option Simplified → Option Simplified
checked none rest = none
checked (some true) rest = rest
checked (some false) rest = some reduced_nsatis

unfoldable pub check_sequences : List ℕ → List (List ℕ) → Option Simplified
unfolding is_factor_of
check_sequences const_seq [] = some just_reduced
check_sequences const_seq (s ∷ consts) =
    checked (is_factor_of s const_seq) (check_sequences const_seq consts)

-- The first entry of `constSide`, which the source asserts to be a sequence.
abbrev pub against : Word → Word → Option Simplified
against (sequence s ∷ w) variable_side = check_sequences s (get_sequences variable_side [])
against _ variable_side = none

unfoldable pub const_sequence_mismatch : Word → Word → Option Simplified
unfolding check_sequences no_variable_word get_sequences
const_sequence_mismatch lhs rhs =
    if no_variable_word lhs && not (no_variable_word rhs)
    then against lhs rhs
    else if no_variable_word rhs && not (no_variable_word lhs)
    then against rhs lhs
    else some just_reduced

value-close : (σ : Assignment) (s : List ℕ) (w : Word) → value σ (close s w) ≡ s ++ value σ w
unfolding value
value-close σ [] w = refl
value-close σ (a ∷ s) w = refl

value-fold_from :
    (σ : Assignment) (s : List ℕ) (w : Word) → value σ (fold_from s w) ≡ s ++ value σ w
unfolding value fold_from
value-fold_from σ s [] = value-close σ s []
value-fold_from σ s (variable x ∷ w) =
    value-close σ s (variable x ∷ fold_from [] w)
    ∙ ap (λ z. s ++ (σ x ++ z)) (value-fold_from σ [] w)
value-fold_from σ s (terminal a ∷ w) =
    value-fold_from σ (s ++ a ∷ []) w ∙ append_assoc s (a ∷ []) (value σ w)
value-fold_from σ s (sequence t ∷ w) = value-fold_from σ (s ++ t) w ∙ append_assoc s t (value σ w)

-- No terminal, no empty sequence, and no two sequences beside one another.
abbrev pub NoSequenceFirst : Word → Type 0
NoSequenceFirst (sequence s ∷ w) = ⊥
NoSequenceFirst _ = Unit

abbrev pub IsFolded : Word → Type 0
IsFolded [] = Unit
IsFolded (variable x ∷ w) = IsFolded w
IsFolded (terminal a ∷ w) = ⊥
IsFolded (sequence [] ∷ w) = ⊥
IsFolded (sequence (a ∷ s) ∷ w) = NoSequenceFirst w × IsFolded w

close-IsFolded : (s : List ℕ) (w : Word) → NoSequenceFirst w → IsFolded w → IsFolded (close s w)
close-IsFolded [] w n h = h
close-IsFolded (a ∷ s) w n h = (n, h)

fold_from-IsFolded : (s : List ℕ) (w : Word) → IsFolded (fold_from s w)
unfolding fold_from
fold_from-IsFolded s [] = close-IsFolded s [] tt tt
fold_from-IsFolded s (variable x ∷ w) =
    close-IsFolded s (variable x ∷ fold_from [] w) tt (fold_from-IsFolded [] w)
fold_from-IsFolded s (terminal a ∷ w) = fold_from-IsFolded (s ++ a ∷ []) w
fold_from-IsFolded s (sequence t ∷ w) = fold_from-IsFolded (s ++ t) w

-- A folded word has the value of the word under each assignment, and it has no terminal, no empty
-- sequence and no two sequences beside one another.
pub fold_word-IsFolded :
    (w : Word) → IsFolded (fold_word w) × ((σ : Assignment) → value σ (fold_word w) ≡ value σ w)
unfolding fold_word
fold_word-IsFolded w = (fold_from-IsFolded [] w, λ σ. value-fold_from σ [] w)

-- Each of the sequences is a factor.
abbrev AllFactors : List (List ℕ) → List ℕ → Type 0
AllFactors [] ys = Unit
AllFactors (s ∷ consts) ys = IsFactor s ys × AllFactors consts ys

AllFactors-append :
    (ss ts : List (List ℕ)) (ys : List ℕ)
    → AllFactors ss ys
    → AllFactors ts ys
    → AllFactors (ss ++ ts) ys
AllFactors-append [] ts ys h k = k
AllFactors-append (s ∷ ss) ts ys h k = (h.0, AllFactors-append ss ts ys h.1 k)

-- The sequences of a word are factors of its value, and of what has its value at its end.
get_sequences-AllFactors :
    (σ : Assignment) (w : Word) (out : List (List ℕ)) (pre ys : List ℕ)
    → ys ≡ pre ++ value σ w
    → AllFactors out ys
    → AllFactors (get_sequences w out) ys
unfolding get_sequences value
get_sequences-AllFactors σ [] out pre ys e h = h
get_sequences-AllFactors σ (variable x ∷ w) out pre ys e h =
    get_sequences-AllFactors σ w out (pre ++ σ x) ys (e ∙ sym (append_assoc pre (σ x) (value σ w)))
      h
get_sequences-AllFactors σ (terminal a ∷ w) out pre ys e h =
    get_sequences-AllFactors σ w out (pre ++ a ∷ []) ys
      (e ∙ sym (append_assoc pre (a ∷ []) (value σ w))) h
get_sequences-AllFactors σ (sequence s ∷ w) out pre ys e h =
    get_sequences-AllFactors σ w (out ++ s ∷ []) (pre ++ s) ys
      (e ∙ sym (append_assoc pre s (value σ w)))
      (AllFactors-append out (s ∷ []) ys h ((pre, value σ w, e), tt))

check_sequences_sound :
    (ys : List ℕ) (consts : List (List ℕ))
    → check_sequences ys consts ≡ some reduced_nsatis
    → ¬ AllFactors consts ys
unfolding check_sequences
check_sequences_sound ys [] h k = cc
check_sequences_sound ys (s ∷ consts) h (f, k) =
    by_answer (is_factor_of s ys) refl (λ r. check_sequences_sound ys consts r k) h
  where
    by_answer :
        (o : Option Bool)
        → is_factor_of s ys ≡ o
        → (check_sequences ys consts ≡ some reduced_nsatis → ⊥)
        → checked o (check_sequences ys consts) ≡ some reduced_nsatis
        → ⊥
    by_answer none e further h = cc
    by_answer (some true) e further h = further h
    by_answer (some false) e further h = let t = (is_factor_of-Answers s ys e).1 f in cc

against_sound :
    (σ : Assignment) (c v : Word)
    → no_variable_word c ≡ true
    → against c v ≡ some reduced_nsatis
    → ¬ Solves σ c v
unfolding no_variable_word value
against_sound σ (sequence s ∷ []) v n h k =
    check_sequences_sound s (get_sequences v []) h
      (get_sequences-AllFactors σ v [] [] s (sym (append-nil s) ∙ k) tt)
against_sound σ (sequence s ∷ e ∷ w) v n h k = cc
against_sound σ (variable x ∷ w) v n h k = cc
against_sound σ (terminal a ∷ w) v n h k = cc
against_sound σ [] v n h k = cc

-- Where ConstSequenceMismatch answers that an equation is unsatisfiable, no assignment solves it.
pub const_sequence_mismatch_sound :
    (lhs rhs : Word) (σ : Assignment)
    → const_sequence_mismatch lhs rhs ≡ some reduced_nsatis
    → ¬ Solves σ lhs rhs
unfolding const_sequence_mismatch
const_sequence_mismatch_sound lhs rhs σ h k =
    by_sides (no_variable_word lhs) (no_variable_word rhs) refl refl h
  where
    by_sides :
        (a b : Bool)
        → no_variable_word lhs ≡ a
        → no_variable_word rhs ≡ b
        → (if a && not b
            then against lhs rhs
            else if b && not a
            then against rhs lhs
            else some just_reduced)
          ≡ some reduced_nsatis
        → ⊥
    by_sides true false p q h = against_sound σ lhs rhs p h k
    by_sides false true p q h = against_sound σ rhs lhs q h (sym k)
    by_sides true true p q h = cc
    by_sides false false p q h = cc
