-- ===== src/Simplify/Defs.antt =====
-- `Simplified`, and the loops of `PrefixReducer` and `SuffixReducer`. The two loops differ in the end
-- that they work at: `fits` and `diff` are `operator<` and `operator-` for the one and `isSuffixOf` and
-- `chopTail` for the other, which reads both words from behind. A round of the loop is `round`.
use woorpje.Common.{
  ℕ, zero, suc, ◌+◌, Bool, true, false, Option, none, some, List, [], ◌∷◌, ◌++◌, length, reverse,
  if◌then◌else◌,
}
use mathlib.Core.Option
use woorpje.Word.Defs.{Entry, Word, sequence, same, is_variable}
use woorpje.Word.Sequence.{is_prefix, is_suffix, minus_prefix, chop_tail}

pub data Simplified : Type 0 where
  reduced_satis just_reduced reduced_nsatis : Simplified

-- A `std::map` from variables to words, and `s[v] = w`.
abbrev pub Substitution : Type 0
Substitution = List (Entry × Word)

unfoldable pub assign : Entry → Word → Substitution → Substitution
assign v w [] = (v, w) ∷ []
assign v w ((u, x) ∷ s) = if same u v then (v, w) ∷ s else (u, x) ∷ assign v w s

-- What a call leaves: its result, both sides, the substitution and the variables of the `Unrestricted`
-- constraints.
pub record Reduction : Type 0 where
  pub outcome : Simplified
  pub lhs : Word
  pub rhs : Word
  pub subs : Substitution
  pub cstr : List Entry

pub data Round : Type 0 where
  again : Word → Word → Substitution → List Entry → Round
  done : Reduction → Round

-- Behind the loop.
unfoldable pub finish : Word → Word → Substitution → List Entry → Reduction
finish [] [] s c = record { outcome = reduced_satis; lhs = []; rhs = []; subs = s; cstr = c }
finish l r s c = record { outcome = just_reduced; lhs = l; rhs = r; subs = []; cstr = c }

module _ (fits : List ℕ → List ℕ → Bool) (diff : List ℕ → List ℕ → List ℕ) (records : Bool) where
  -- Two unequal first entries.
  unfoldable pub unequal : Entry → Word → Entry → Word → Substitution → List Entry → Round
  unfolding finish
  unequal (sequence a) ls (sequence b) rs s c =
      if fits a b
      then again ls (sequence (diff b a) ∷ rs) s c
      else if fits b a
      then again (sequence (diff a b) ∷ ls) rs s c
      else done (record {
        outcome = reduced_nsatis;
        lhs = sequence a ∷ ls;
        rhs = sequence b ∷ rs;
        subs = [];
        cstr = [];
      })
  unequal l ls r rs s c = done (finish (l ∷ ls) (r ∷ rs) s c)

  unfoldable pub round : Word → Word → Substitution → List Entry → Round
  unfolding unequal finish assign
  round (l ∷ ls) (r ∷ rs) s c =
      if same l r
      then again ls rs (if is_variable l then if records then assign l [] s else s else s)
          (if is_variable l then c ++ l ∷ [] else c)
      else unequal l ls r rs s c
  round l r s c = done (finish l r s c)

  -- The `while` loop, with fuel; `none` is out of fuel.
  unfoldable pub reduce_loop : ℕ → Word → Word → Substitution → List Entry → Option Reduction
  unfolding round
  reduce_loop zero l r s c = none
  reduce_loop (suc f) l r s c = elim (round l r s c) [
    | again l' r' s' c' ↦ reduce_loop f l' r' s' c'
    | done x ↦ some x
  ]

-- `PrefixReducer::solverReduce`
unfoldable pub prefix_reduce : Word → Word → Substitution → List Entry → Option Reduction
unfolding reduce_loop
prefix_reduce l r s c = reduce_loop is_prefix minus_prefix true (suc (length l + length r)) l r s c

-- Both sides turned around.
abbrev pub turn : Reduction → Reduction
turn x = record x { lhs = reverse x.lhs; rhs = reverse x.rhs }

-- `SuffixReducer::solverReduce`
unfoldable pub suffix_reduce : Word → Word → Substitution → List Entry → Option Reduction
unfolding reduce_loop
suffix_reduce l r s c =
    Option.map turn (
      reduce_loop is_suffix chop_tail false (suc (length l + length r)) (reverse l) (reverse r) s c)
