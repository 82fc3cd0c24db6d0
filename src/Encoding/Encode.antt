-- ===== src/Encoding/Encode.antt =====
-- `doEncode` of libs/solvers/satencoding/regular/wordencoder.cpp, with `encodeUnion`, `encodeConcat`,
-- `encodeStar` and `makeNodeBinary`. `lengths` stands for `LengthAbstraction::fromExpression`. `none` is
-- a fault of the source: a child that is not there, or what the calls of other files leave so. The
-- counter of what was skipped is left out.
use woorpje.Common.{
  ℕ, zero, suc, ◌-◌, Bool, true, false, ◌&&◌, ◌||◌, Option, none, some, List, [], ◌∷◌, length,
  if◌then◌else◌,
}
use mathlib.Core.List.{map}
use woorpje.Word.Defs.{Word, sequence}
use woorpje.Propositional.Formula.{disj, PlFormula, nil, cons, land}
use woorpje.Propositional.Tseytin.Defs.{VarSource, Clause, tseytin_cnf}
use woorpje.Regex.Defs.{
  RegNode, Children, reg_empty, reg_word, operation, union, concat, star, none_left, child,
}
use woorpje.Regex.Derive.{is_reg_empty, is_empty_word}
use woorpje.Automaton.Defs.{◌>>=◌}
use woorpje.Automaton.Build.{regex_to_nfa}
use woorpje.Automaton.Accept.{accept}
use woorpje.Lengths.Defs.{Progressions, contains_length}
use woorpje.Encoding.Defs.{
  constant, slot, Pattern, Encoder, ffalse, ftrue, num_terminals, join, filled_pattern, encode_word,
}

unfoldable pub is_const : Pattern → Bool
is_const [] = true
is_const (constant c ∷ ps) = is_const ps
is_const (slot x j ∷ ps) = false

unfoldable pub terminal_indices : Pattern → List ℕ
terminal_indices [] = []
terminal_indices (constant c ∷ ps) = c ∷ terminal_indices ps
terminal_indices (slot x j ∷ ps) = terminal_indices ps

-- What the word builder leaves.
abbrev pub built_word : List ℕ → Word
built_word [] = []
built_word (c ∷ cs) = sequence (c ∷ cs) ∷ []

-- The loop over lengths, from `k` on.
unfoldable pub some_length : Progressions → ℕ → ℕ → Bool
unfolding contains_length
some_length la zero k = false
some_length la (suc count) k = contains_length la k || some_length la count (suc k)

unfoldable pub length_ok : Progressions → Pattern → Bool
unfolding some_length num_terminals
length_ok la pat = some_length la (suc (length pat) - num_terminals pat) (num_terminals pat)

-- Each prefix with its suffix, the shortest first.
unfoldable pub splits : Pattern → List (Pattern × Pattern)
splits [] = ([], []) ∷ []
splits (p ∷ ps) = ([], p ∷ ps) ∷ map (λ s. (p ∷ s.0, s.1)) (splits ps)

-- So many copies of the child of a star.
unfoldable pub copies : ℕ → RegNode → Children
copies zero r = none_left
copies (suc b) r = child r (copies b r)

-- The node of so many copies: a single one is itself.
abbrev pub copies_node : ℕ → RegNode → RegNode
copies_node zero r = operation concat none_left
copies_node (suc zero) r = r
copies_node (suc (suc b)) r = operation concat (copies (suc (suc b)) r)

abbrev pub conj_two : PlFormula → PlFormula → PlFormula
conj_two f g = land (cons f (cons g nil))

-- What encodes the words of a node.
abbrev pub Encoding : Type 0
Encoding = Pattern → Option PlFormula

module _ (en : Encoder) (lengths : RegNode → Option Progressions) where
  -- A pattern without variables is given to the automaton.
  unfoldable pub by_nfa : RegNode → Encoding
  unfolding regex_to_nfa accept terminal_indices
  by_nfa r pat = regex_to_nfa r >>= λ m.
      accept m (built_word (map en.index2t (terminal_indices pat))) >>= λ b.
      some (if b then ftrue en else ffalse en)

  unfoldable pub unless_const : RegNode → Encoding → Encoding
  unfolding by_nfa is_const
  unless_const r enc pat = elim (is_const pat) [ true ↦ by_nfa r pat | false ↦ enc pat ]

  -- The loop of `encodeConcat` over the splits.
  unfoldable pub concat_rounds :
      Encoding
      → Encoding
      → Progressions
      → Progressions
      → List (Pattern × Pattern)
      → Option (List PlFormula)
  unfolding length_ok
  concat_rounds enc_l enc_r la_l la_r [] = some []
  concat_rounds enc_l enc_r la_l la_r ((prefix, suffix) ∷ rest) =
      let more = concat_rounds enc_l enc_r la_l la_r rest in
      if length_ok la_l prefix && length_ok la_r suffix
      then (enc_l prefix >>= λ fl.
          (enc_r suffix >>= λ fr. (more >>= λ fs. some (conj_two fl fr ∷ fs))))
      else more

  -- `encodeConcat` of two nodes with what encodes them.
  unfoldable pub concat_two : RegNode → Encoding → RegNode → Encoding → Encoding
  unfolding concat_rounds splits
  concat_two l enc_l r enc_r pat =
      if is_reg_empty r || is_reg_empty l
      then some (ffalse en)
      else if is_empty_word r
      then enc_l pat
      else if is_empty_word l
      then enc_r pat
      else (lengths l >>= λ la_l.
          (lengths r >>= λ la_r.
          (concat_rounds enc_l enc_r la_l la_r (splits pat) >>= λ fs.
          some (join disj (ffalse en) fs))))

  unfoldable pub encode_copies : ℕ → RegNode → Encoding → Encoding
  unfolding concat_two unless_const copies
  encode_copies zero r enc pat = encode_word en (suc (length pat)) pat []
  encode_copies (suc zero) r enc pat = enc pat
  encode_copies (suc (suc b)) r enc pat =
      unless_const (copies_node (suc (suc b)) r)
        (concat_two r enc (copies_node (suc b) r) (λ p. encode_copies (suc b) r enc p)) pat

  -- The loop of `encodeStar`.
  unfoldable pub star_rounds : ℕ → ℕ → RegNode → Encoding → Pattern → Option (List PlFormula)
  unfolding encode_copies
  star_rounds zero b r enc pat = some []
  star_rounds (suc count) b r enc pat = encode_copies b r enc pat >>= λ f.
      (star_rounds count (suc b) r enc pat >>= λ fs. some (f ∷ fs))

  unfoldable pub encode_star : RegNode → Children → Encoding → Encoding
  unfolding star_rounds length_ok
  encode_star r cs enc pat = lengths (operation star (child r cs)) >>= λ la.
      if length_ok la pat
      then (star_rounds (suc (length pat)) 0 r enc pat >>= λ fs. some (join disj (ffalse en) fs))
      else some (ffalse en)

  unfoldable mutual
    unfolding unless_const concat_two encode_star length_ok

    pub do_encode : RegNode → Encoding
    do_encode reg_empty pat = unless_const reg_empty (λ p. some (ffalse en)) pat
    do_encode (reg_word u) pat =
        unless_const (reg_word u) (λ p. encode_word en (suc (length p)) p (map en.t_indices u)) pat
    do_encode (operation union cs) pat =
        unless_const (operation union cs)
          (λ p. lengths (operation union cs) >>= λ la.
            encode_each la cs p >>= λ fs. some (join disj (ffalse en) fs))
          pat
    do_encode (operation concat cs) pat =
        unless_const (operation concat cs) (λ p. encode_row cs p) pat
    do_encode (operation star none_left) pat =
        unless_const (operation star none_left) (λ p. none) pat
    do_encode (operation star (child r cs)) pat =
        unless_const (operation star (child r cs)) (encode_star r cs (λ p. do_encode r p)) pat

    -- The loop of `encodeUnion`.
    pub encode_each : Progressions → Children → Pattern → Option (List PlFormula)
    encode_each la none_left pat = some []
    encode_each la (child r cs) pat =
        if length_ok la pat
        then (do_encode r pat >>= λ f. (encode_each la cs pat >>= λ fs. some (f ∷ fs)))
        else encode_each la cs pat

    -- `encodeConcat` behind `makeNodeBinary`: the first child, and a node of the others.
    pub encode_row : Children → Encoding
    encode_row none_left pat = none
    encode_row (child r none_left) pat = none
    encode_row (child r (child s none_left)) pat =
        concat_two r (λ p. do_encode r p) s (λ p. do_encode s p) pat
    encode_row (child r (child s (child t cs))) pat =
        concat_two r (λ p. do_encode r p) (operation concat (child s (child t cs)))
          (unless_const (operation concat (child s (child t cs)))
            (λ p. encode_row (child s (child t cs)) p))
          pat

  -- `encode`: the clauses, with the solver that they leave.
  unfoldable pub encode :
      (v : VarSource) → v.State → Word → RegNode → Option (List Clause × v.State)
  unfolding do_encode filled_pattern
  encode v s pattern r = do_encode r (filled_pattern en pattern) >>= λ f. tseytin_cnf v f s
