-- ===== src/Tests/Encoding.antt =====
-- The encoder of regular constraints: tests and instances.
use woorpje.Common.{
  suc, ltb, inr, Bool-cases, ◌≤◌, ◌∙◌, sym, subst, ◌-◌, ℕ, ◌<◌, ◌≡◌, ◌↔◌, inl, refl, Bool, true,
  false, ◌||◌, Option, some, List, [], ◌∷◌, ◌++◌, ◌==◌, if◌then◌else◌, arith,
}
use mathlib.Core.List.{map}
use woorpje.Word.Defs.{Word, variable, terminal, iterate}
use woorpje.Word.Value.{Assignment, value}
use woorpje.Propositional.Literal.{Valuation}
use woorpje.Propositional.Formula.{PlFormula, eval}
use woorpje.Propositional.Plural.{IsEncodable}
use woorpje.Propositional.Tseytin.Defs.{Clause, cnf_holds}
use woorpje.Propositional.Tseytin.Definitions.{Agree}
use woorpje.Automaton.Defs.{◌>>=◌}
use woorpje.Automaton.Proper.{IsProper}
use woorpje.Regex.Defs.{RegNode, reg_word, operation, union, star, none_left, child}
use woorpje.Regex.Lang.{Lang, IsWellFormed, more, stop}
use woorpje.Lengths.From.{from_expression}
use woorpje.Tests.Lengths.{euclid}
use woorpje.Encoding.Defs.{
  filled_pattern, constant, slot, Pattern, Encoder, fill, slots, encode_word,
}
use woorpje.Encoding.Encode.{do_encode, encode}
use woorpje.Encoding.Meaning.{InRange, IsFaithful, Fills, no_more, holding, padding, Spells}
use woorpje.Encoding.Clauses.{encode_word_iff}
use woorpje.Encoding.Whole.{do_encode_complete}
use woorpje.Encoding.Correct.{KnowsLengths}
use woorpje.Encoding.Plain.{HandlesZero, IsPlain, IsPlain-KnowsLengths}
use woorpje.Encoding.Substitutions.{encode_substitution, encode_word-twin}
use woorpje.Encoding.Represent.{filled_pattern-Spells}
use woorpje.Encoding.Decode.{IsExact, decoded, solution, encode-solution}
use woorpje.Tests.Propositional.{counter}

-- Two positions for each variable, of which the first is to be the letter 97 and the second empty; 200
-- stands for no character.
abbrev sample_encoder : Encoder
sample_encoder = record {
  v_indices = λ x. x;
  t_indices = λ c. if ltb c 200 then c else suc c;
  max_padding = λ x. 2;
  variable_vars =
      λ x j k. if j == 0 then (if k == 97 then 1 else 2) else (if k == 200 then 3 else 4);
  constants_vars = λ c k. if c == k then 5 else 6;
  sigma_size = 200;
  index2t = λ i. if ltb i 200 then i else i - 1;
  false_var = 7;
  true_var = 8;
}

abbrev sample_valuation : Valuation
sample_valuation n = n == 1 || (n == 3 || n == 5)

one_of :
    (c : Bool) (m n : ℕ)
    → 0 < m
    → m < 9
    → 0 < n
    → n < 9
    → (0 < (if c then m else n)) × ((if c then m else n) < 9)
one_of true m n a b d e = (a, b)
one_of false m n a b d e = (d, e)

sample-InRange : InRange 9 sample_encoder
sample-InRange = record {
  variable_pos = λ x j k. (sample_var j k).0;
  variable_lt = λ x j k. (sample_var j k).1;
  constants_pos =
      λ c k. (one_of (c == k) 5 6 (omega arith) (omega arith) (omega arith) (omega arith)).0;
  constants_lt =
      λ c k. (one_of (c == k) 5 6 (omega arith) (omega arith) (omega arith) (omega arith)).1;
  false_pos = omega arith;
  false_lt = omega arith;
  true_pos = omega arith;
  true_lt = omega arith;
}
  where
    sample_var :
        (j k : ℕ)
        → (0 < sample_encoder.variable_vars 0 j k) × (sample_encoder.variable_vars 0 j k < 9)
    sample_var j k =
        let l = one_of (k == 97) 1 2 (omega arith) (omega arith) (omega arith) (omega arith) in
        let m = one_of (k == 200) 3 4 (omega arith) (omega arith) (omega arith) (omega arith) in
        one_of (j == 0) _ _ l.0 l.1 m.0 m.1

sample_back : (c : ℕ) → sample_encoder.index2t (sample_encoder.t_indices c) ≡ c
sample_back c = ground arith

no_blank : (c : ℕ) → ¬ (sample_encoder.t_indices c ≡ 200)
no_blank c h = ground arith

-- The only index that a slot holds.
sample_slot :
    (j k : ℕ)
    → sample_valuation (sample_encoder.variable_vars 0 j k) ≡ true
    → k ≡ (if j == 0 then 97 else 200)
sample_slot j k d = elim (Bool-cases (j == 0)) [
  | inl e ↦ elim (Bool-cases (k == 97)) [
    | inl f ↦ rw e (ground arith)
    | inr f ↦ absurd (let z = rw (e, f) at d in cc)
  ]
  | inr e ↦ elim (Bool-cases (k == 200)) [
    | inl f ↦ rw e (ground arith)
    | inr f ↦ absurd (let z = rw (e, f) at d in cc)
  ]
]

sample_index : (c : Bool) → (if c then 97 else 200) ≤ 200
sample_index true = omega arith
sample_index false = omega arith

sample-IsExact : IsExact sample_encoder sample_valuation
sample-IsExact = record {
  only_one = λ x j k l d e. sample_slot j k d ∙ sym (sample_slot j l e);
  in_alphabet = λ x j k d. subst (λ z. z ≤ 200) (sym (sample_slot j k d)) (sample_index (j == 0));
}

sample-IsFaithful : IsFaithful sample_encoder sample_valuation
sample-IsFaithful c = let e : (c == c) ≡ true = ground arith in rw e refl

-- a*|ba
abbrev some_letters : RegNode
some_letters = operation union (
    child (operation star (child (reg_word (97 ∷ [])) none_left))
      (child (reg_word (98 ∷ 97 ∷ [])) none_left))

some_letters-IsProper : IsProper some_letters
some_letters-IsProper = (tt, ((tt, (tt, tt)), (tt, tt)))

some_letters-IsWellFormed : IsWellFormed some_letters
some_letters-IsWellFormed = ((tt, (tt, tt)), (tt, tt))

euclid-HandlesZero : HandlesZero euclid
euclid-HandlesZero = record { gcd_zero = λ l. refl; lcm_zero = λ l. refl }

some_letters-IsPlain : IsPlain some_letters
some_letters-IsPlain = ((1, refl), (tt, tt))

IsPlain-KnowsLengths_example : KnowsLengths (from_expression euclid) some_letters
IsPlain-KnowsLengths_example =
    IsPlain-KnowsLengths euclid euclid-HandlesZero some_letters some_letters-IsPlain
      some_letters-IsProper some_letters-IsWellFormed

some_letters-KnowsLengths : KnowsLengths (from_expression euclid) some_letters
some_letters-KnowsLengths =
    IsPlain-KnowsLengths euclid euclid-HandlesZero some_letters some_letters-IsPlain
      some_letters-IsProper some_letters-IsWellFormed

abbrev letter_x : Word
letter_x = terminal 97 ∷ variable 1 ∷ []

abbrev each_letter : Assignment
each_letter x = 97 ∷ []

two_letters-Lang : Lang some_letters (97 ∷ 97 ∷ [])
two_letters-Lang =
    inl (more (97 ∷ []) (97 ∷ []) refl (more (97 ∷ []) [] refl (stop refl) refl) refl)

encode-solution_example :
    (cnf : List Clause) × (s' : ℕ) × (encode sample_encoder
        (from_expression euclid)
        counter
        9
        letter_x
        some_letters
      ≡ some (cnf, s'))
    × (cnf_holds sample_valuation cnf ≡ true
        → Lang some_letters (value (solution sample_encoder sample_valuation) letter_x))
encode-solution_example =
    encode-solution counter 9 sample_encoder euclid some_letters letter_x sample_valuation
      (omega arith) sample-InRange sample_back no_blank some_letters-IsProper
      some_letters-IsWellFormed sample-IsFaithful sample-IsExact

filled_pattern-Spells_example :
    Spells sample_encoder sample_valuation
      (filled_pattern sample_encoder letter_x)
      (map sample_encoder.t_indices (97 ∷ 97 ∷ []))
    ↔ (value each_letter letter_x ≡ 97 ∷ 97 ∷ [])
filled_pattern-Spells_example =
    filled_pattern-Spells sample_encoder sample_valuation each_letter letter_x (97 ∷ 97 ∷ [])
      sample-IsExact no_blank sample_back (λ x. (refl, (refl, tt)))

-- What the sample stands for.
solution_sample : value (solution sample_encoder sample_valuation) letter_x ≡ 97 ∷ 97 ∷ []
unfolding value decoded
solution_sample = refl

encode_substitution_example :
    (cnf : List Clause) × (s' : ℕ) × (encode sample_encoder
        (from_expression euclid)
        counter
        9
        letter_x
        some_letters
      ≡ some (cnf, s'))
    × ((B : Valuation) × Agree 9 sample_valuation B × (cnf_holds B cnf ≡ true))
unfolding value iterate fill
encode_substitution_example =
    encode_substitution counter 9 sample_encoder euclid some_letters letter_x sample_valuation
      each_letter (omega arith) sample-InRange sample_back some_letters-IsProper
      some_letters-IsWellFormed sample-IsFaithful some_letters-KnowsLengths
      (λ x. (refl, (refl, tt))) (tt, tt) two_letters-Lang

abbrev one_slot : Pattern
one_slot = constant 97 ∷ slot 1 0 ∷ slot 1 1 ∷ []

one_slot-Fills : Fills sample_encoder sample_valuation one_slot (97 ∷ 97 ∷ [])
one_slot-Fills =
    holding (constant 97) _ 97 _ refl
      (holding (slot 1 0) _ 97 _ refl (padding 1 1 [] [] refl tt tt (no_more refl refl) refl) refl
        refl)
      refl refl

do_encode_complete_example :
    (f : PlFormula) × (do_encode sample_encoder (from_expression euclid) some_letters one_slot
      ≡ some f)
    × (eval sample_valuation f ≡ true)
do_encode_complete_example =
    do_encode_complete 9 sample_encoder euclid some_letters one_slot sample_valuation sample-InRange
      sample_back some_letters-IsProper some_letters-IsWellFormed sample-IsFaithful (refl, tt)
      some_letters-KnowsLengths (97 ∷ 97 ∷ [], one_slot-Fills, two_letters-Lang)

encode_word_iff_example :
    (f : PlFormula) × (encode_word sample_encoder 4 one_slot (97 ∷ 97 ∷ []) ≡ some f)
    × IsEncodable 9 f
    × ((eval sample_valuation f ≡ true)
        ↔ Fills sample_encoder sample_valuation one_slot (97 ∷ 97 ∷ []))
encode_word_iff_example =
    encode_word_iff 9 sample_encoder one_slot (97 ∷ 97 ∷ []) sample_valuation sample-InRange
      sample-IsFaithful

encode_word-twin_example :
    Spells sample_encoder sample_valuation
      (slots sample_encoder 1 0 2 ++ slots sample_encoder 1 0 2)
      (97 ∷ 97 ∷ [])
    × ((f : PlFormula) × (encode_word sample_encoder 5
            (slots sample_encoder 1 0 2 ++ slots sample_encoder 1 0 2)
            (97 ∷ 97 ∷ [])
          ≡ some f)
        × (eval sample_valuation f ≡ false))
encode_word-twin_example =
    encode_word-twin 9 sample_encoder 1 97 sample_valuation sample-InRange sample-IsFaithful refl
      refl refl refl

-- The formula of the word is true under the sample, and the one of a longer word is not.
abbrev word_value : List ℕ → Option Bool
unfolding encode_word eval
word_value e = encode_word sample_encoder 4 one_slot e >>= λ f. some (eval sample_valuation f)

word_value_two : word_value (97 ∷ 97 ∷ []) ≡ some true
unfolding encode_word eval
word_value_two = refl

word_value_three : word_value (97 ∷ 97 ∷ 97 ∷ []) ≡ some false
unfolding encode_word eval
word_value_three = refl
