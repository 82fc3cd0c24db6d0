-- ===== src/Word/Value.antt =====
-- What a word stands for under an assignment of words to the variables.
use woorpje.Common.{ℕ, ◌≡◌, refl, ap, ◌∙◌, List, [], ◌∷◌, ◌++◌, append_assoc}
use mathlib.Core.List.{map}
use woorpje.Word.Defs.{Entry, Word, variable, terminal, sequence, iterate, concat}

abbrev pub Assignment : Type 0
Assignment = ℕ → List ℕ

abbrev pub entry_value : Assignment → Entry → List ℕ
entry_value σ (variable x) = σ x
entry_value σ (terminal a) = a ∷ []
entry_value σ (sequence s) = s

unfoldable pub value : Assignment → Word → List ℕ
value σ [] = []
value σ (e ∷ w) = entry_value σ e ++ value σ w

pub value-append : (σ : Assignment) (v w : Word) → value σ (v ++ w) ≡ value σ v ++ value σ w
unfolding value
value-append σ [] w = refl
value-append σ (e ∷ v) w = simp (value-append σ v w, append_assoc)

pub value-terminals : (σ : Assignment) (s : List ℕ) → value σ (map terminal s) ≡ s
unfolding value
value-terminals σ [] = refl
value-terminals σ (a ∷ s) = ap (λ x. a ∷ x) (value-terminals σ s)

-- The iterator's entries stand for the same as the word.
pub value-iterate : (σ : Assignment) (w : Word) → value σ (iterate w) ≡ value σ w
unfolding value iterate
value-iterate σ [] = refl
value-iterate σ (variable x ∷ w) = ap (λ z. σ x ++ z) (value-iterate σ w)
value-iterate σ (terminal a ∷ w) = ap (λ z. a ∷ z) (value-iterate σ w)
value-iterate σ (sequence s ∷ w) =
    value-append σ (map terminal s) (iterate w)
    ∙ ap (λ z. z ++ value σ (iterate w)) (value-terminals σ s)
    ∙ ap (λ z. s ++ z) (value-iterate σ w)

-- A concatenation stands for the words of both in a row.
pub value-concat : (σ : Assignment) (v w : Word) → value σ (concat v w) ≡ value σ v ++ value σ w
unfolding concat
value-concat σ v w = value-append σ (iterate v) (iterate w) ∙ simp (value-iterate)
