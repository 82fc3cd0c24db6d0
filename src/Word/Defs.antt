-- ===== src/Word/Defs.antt =====
-- The classes `IEntry`, `Sequence` and `Word` of libs/words/pubinclude/words/words.hpp.
-- A context owns each variable, terminal and sequence once, so that two pointers are equal exactly
-- if the index, the character or the characters are: a variable is its index, a terminal its
-- character, and a sequence (built by `WordBuilder` and by the simplifiers from terminals alone) the
-- list of its characters.
use woorpje.Common.{
  ℕ, ◌+◌, Bool, true, false, ◌&&◌, ◌||◌, List, [], ◌∷◌, ◌++◌, length, ◌==◌, if◌then◌else◌, ◌≡◌, ◌↔◌,
  arith, refl, ap,
}
use mathlib.Core.List.{map}

pub data Entry : Type 0 where
  variable terminal : ℕ → Entry
  sequence : List ℕ → Entry

abbrev pub Word : Type 0
Word = List Entry

-- `Equation` of words.hpp, of type `Eq`.
pub record Equation : Type 0 where
  pub lhs : Word
  pub rhs : Word

-- `isVariable`, `isTerminal`, `isSequence`
abbrev pub is_variable : Entry → Bool
is_variable (variable x) = true
is_variable _ = false

abbrev pub is_terminal : Entry → Bool
is_terminal (terminal a) = true
is_terminal _ = false

abbrev pub is_sequence : Entry → Bool
is_sequence (sequence s) = true
is_sequence _ = false

-- `IEntry::length` and its override.
abbrev pub entry_length : Entry → ℕ
entry_length (variable x) = 1
entry_length (terminal a) = 1
entry_length (sequence s) = length s

-- Equality of vectors of terminals, as of `entries == s.entries`.
unfoldable pub same_list : List ℕ → List ℕ → Bool
same_list [] [] = true
same_list (x ∷ xs) (y ∷ ys) = x == y && same_list xs ys
same_list _ _ = false

-- Equality of two `IEntry *`.
unfoldable pub same : Entry → Entry → Bool
unfolding same_list
same (variable x) (variable y) = x == y
same (terminal a) (terminal b) = a == b
same (sequence s) (sequence t) = same_list s t
same _ _ = false

pub same_list_iff : (xs ys : List ℕ) → (same_list xs ys ≡ true) ↔ (xs ≡ ys)
unfolding same_list
same_list_iff [] [] = (λ h. refl, λ h. refl)
same_list_iff [] (y ∷ ys) = (λ h. cc, λ h. cc)
same_list_iff (x ∷ xs) [] = (λ h. cc, λ h. cc)
same_list_iff (x ∷ xs) (y ∷ ys) =
    let ih = same_list_iff xs ys in
    (
      λ h. (let e = ih.0 (ground arith) in ground arith),
      λ h. (let e = ih.1 (ground arith) in ground arith),
    )

pub same_iff : (a b : Entry) → (same a b ≡ true) ↔ (a ≡ b)
unfolding same
same_iff (variable x) (variable y) = (λ h. ground arith, λ h. ground arith)
same_iff (terminal x) (terminal y) = (λ h. ground arith, λ h. ground arith)
same_iff (sequence s) (sequence t) =
    (λ h. ap sequence ((same_list_iff s t).0 h), λ h. (same_list_iff s t).1 (ground arith))
same_iff (variable x) (terminal b) = (λ h. cc, λ h. cc)
same_iff (variable x) (sequence b) = (λ h. cc, λ h. cc)
same_iff (terminal x) (variable b) = (λ h. cc, λ h. cc)
same_iff (terminal x) (sequence b) = (λ h. cc, λ h. cc)
same_iff (sequence x) (variable b) = (λ h. cc, λ h. cc)
same_iff (sequence x) (terminal b) = (λ h. cc, λ h. cc)

-- `Word::Iterator`: each entry, but a sequence gives its terminals one by one.
unfoldable pub iterate : Word → List Entry
iterate [] = []
iterate (sequence s ∷ w) = map terminal s ++ iterate w
iterate (e ∷ w) = e ∷ iterate w

-- `characters`
unfoldable pub characters : Word → ℕ
characters [] = 0
characters (e ∷ w) = entry_length e + characters w

-- `sepearteCharacterCount`, on the two counters that the caller passes.
unfoldable pub separate_character_count : Word → ℕ → ℕ → ℕ × ℕ
separate_character_count [] terminals variables = (terminals, variables)
separate_character_count (e ∷ w) terminals variables =
    separate_character_count w (if is_variable e then terminals else terminals + entry_length e)
      (if is_variable e then variables + 1 else variables)

-- `getSequences` and `getVariables`, behind what the vector holds already.
unfoldable pub get_sequences : Word → List (List ℕ) → List (List ℕ)
get_sequences [] out = out
get_sequences (sequence s ∷ w) out = get_sequences w (out ++ s ∷ [])
get_sequences (e ∷ w) out = get_sequences w out

unfoldable pub get_variables : Word → List Entry → List Entry
get_variables [] out = out
get_variables (e ∷ w) out = get_variables w (if is_variable e then out ++ e ∷ [] else out)

-- `containsVariable`
unfoldable pub contains_variable : Entry → Word → Bool
contains_variable v [] = false
contains_variable v (e ∷ w) = is_variable e && same e v || contains_variable v w

-- `noVariableWord`
unfoldable pub no_variable_word : Word → Bool
no_variable_word [] = true
no_variable_word (e ∷ []) = is_sequence e
no_variable_word (e ∷ f ∷ w) = false

-- `noTerminalWord`
unfoldable pub no_terminal_word : Word → Bool
unfolding get_sequences
no_terminal_word w = length (get_sequences w []) == 0

-- `concat`: both words through their iterators.
unfoldable pub concat : Word → Word → Word
unfolding iterate
concat w other = iterate w ++ iterate other

-- `getConstSequences`: the loop's updates of `currentWord` and `words`, and the loop.
abbrev pub next_current : Entry → Word → Word
next_current e current =
    if is_variable e then if characters current == 0 then current else [] else current ++ e ∷ []

abbrev pub next_words : Entry → Word → List Word → List Word
next_words e current words =
    if is_variable e
    then if characters current == 0 then words else words ++ current ∷ []
    else words

unfoldable pub const_sequences : Word → Word → List Word → List Word
unfolding characters
const_sequences [] current words = words
const_sequences (e ∷ w) current words =
    const_sequences w (next_current e current) (next_words e current words)

unfoldable pub get_const_sequences : Word → List Word
unfolding const_sequences
get_const_sequences w = const_sequences w [] []
