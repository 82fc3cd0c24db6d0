-- ===== src/Encoding/Defs.antt =====
-- `FilledPos`, `numTerminals` and `Encoder` of libs/solvers/satencoding/regular/encoding.h and util.cpp,
-- and `encodeWord` of wordencoder.cpp. The maps that an encoder is given are functions, since the
-- caller fills them for each position and each character. `none` is out of fuel; the calls of
-- `encodeWord` take one unit for each position and one more.
use woorpje.Common.{
  ℕ, zero, suc, ◌||◌, Option, none, some, List, [], ◌∷◌, ◌++◌, ◌==◌, ltb, length, if◌then◌else◌,
}
use woorpje.Propositional.Literal.{pos, neg}
use woorpje.Propositional.Formula.{
  Junctor, conj, disj, PlFormula, Subformulae, lit, junct, nil, cons, land, lor,
}
use woorpje.Automaton.Defs.{◌>>=◌}
use woorpje.Word.Sequence.{drop}
use woorpje.Word.Defs.{Word, variable, terminal, iterate}

-- A constant by its index, or position `j` of a variable by its index.
pub data FilledPos : Type 0 where
  constant : ℕ → FilledPos
  slot : ℕ → ℕ → FilledPos

abbrev pub Pattern : Type 0
Pattern = List FilledPos

pub record Encoder : Type 0 where
  pub v_indices : ℕ → ℕ
  pub t_indices : ℕ → ℕ
  pub max_padding : ℕ → ℕ
  pub variable_vars : ℕ → ℕ → ℕ → ℕ
  pub constants_vars : ℕ → ℕ → ℕ
  pub sigma_size : ℕ
  pub index2t : ℕ → ℕ
  pub false_var : ℕ
  pub true_var : ℕ

unfoldable pub num_terminals : Pattern → ℕ
num_terminals [] = 0
num_terminals (constant c ∷ ps) = suc (num_terminals ps)
num_terminals (slot x j ∷ ps) = num_terminals ps

-- The operands of a junctor.
abbrev pub subformulae : List PlFormula → Subformulae
subformulae [] = nil
subformulae (f ∷ fs) = cons f (subformulae fs)

-- The `otherwise` where there is none, the only one, or the junctor over all.
abbrev pub join : Junctor → PlFormula → List PlFormula → PlFormula
join j otherwise [] = otherwise
join j otherwise (f ∷ []) = f
join j otherwise (f ∷ g ∷ fs) = junct j (subformulae (f ∷ g ∷ fs))

-- `conj` as a disjunct.
abbrev pub push_conj : List PlFormula → List PlFormula → List PlFormula
push_conj [] fs = fs
push_conj (f ∷ []) fs = f ∷ fs
push_conj (f ∷ g ∷ gs) fs = land (subformulae (f ∷ g ∷ gs)) ∷ fs

module _ (en : Encoder) where
  abbrev pub ffalse : PlFormula
  ffalse = land (cons (lit (pos en.false_var)) (cons (lit (neg (pos en.false_var))) nil))

  abbrev pub ftrue : PlFormula
  ftrue = lor (cons (lit (pos en.true_var)) (cons (lit (neg (pos en.true_var))) nil))

  -- The positions of one variable.
  unfoldable pub slots : ℕ → ℕ → ℕ → Pattern
  slots x j zero = []
  slots x j (suc count) = slot x j ∷ slots x (suc j) count

  unfoldable pub fill : Word → Pattern
  unfolding slots
  fill [] = []
  fill (terminal a ∷ w) = constant (en.t_indices a) ∷ fill w
  fill (variable x ∷ w) = slots (en.v_indices x) 0 (en.max_padding (en.v_indices x)) ++ fill w
  fill (_ ∷ w) = fill w

  unfoldable pub filled_pattern : Word → Pattern
  unfolding fill iterate
  filled_pattern w = fill (iterate w)

  -- The literal that a slot is empty.
  abbrev pub lambda : ℕ → ℕ → PlFormula
  lambda x j = lit (pos (en.variable_vars x j en.sigma_size))

  -- All to lambda; `none` is a constant.
  unfoldable pub all_lambda : Pattern → Option (List PlFormula)
  all_lambda [] = some []
  all_lambda (constant c ∷ ps) = none
  all_lambda (slot x j ∷ ps) = all_lambda ps >>= λ fs. some (lambda x j ∷ fs)

  -- The loop over a prefix; `none` is a constant that does not match. The tests before it keep it
  -- from the end of the pattern.
  unfoldable pub match_prefix : ℕ → Pattern → List ℕ → Option (List PlFormula)
  match_prefix zero ps ks = some []
  match_prefix (suc n) (constant c ∷ ps) (k ∷ ks) =
      let rest = match_prefix n ps ks in
      if c == k then (rest >>= λ fs. some (lit (pos (en.constants_vars c k)) ∷ fs)) else none
  match_prefix (suc n) (slot x j ∷ ps) (k ∷ ks) =
      match_prefix n ps ks >>= λ fs. some (lit (pos (en.variable_vars x j k)) ∷ fs)
  match_prefix (suc n) _ _ = none

  -- The remaining positions of the variable, and what is behind them.
  unfoldable pub lambda_run : ℕ → Pattern → List PlFormula × Pattern
  lambda_run x [] = ([], [])
  lambda_run x (constant c ∷ ps) = ([], constant c ∷ ps)
  lambda_run x (slot y j ∷ ps) =
      let rest = lambda_run x ps in
      if y == x then (lambda y j ∷ rest.0, rest.1) else ([], slot y j ∷ ps)

  -- One round of the loop over `j`, with `n` for `j + 1`; `rest` is what the further rounds give, and
  -- `again` the recursive call.
  unfoldable pub word_round :
      (Pattern → List ℕ → Option PlFormula)
      → Pattern
      → List ℕ
      → ℕ
      → Pattern
      → Option (List PlFormula)
      → Option (List PlFormula)
  unfolding match_prefix lambda_run
  word_round again pat e n (constant c ∷ ps) rest = rest
  word_round again pat e n [] rest = elim (match_prefix n pat e) [
    | none ↦ some []
    | some fs ↦ rest >>= λ gs. some (push_conj fs gs)
  ]
  word_round again pat e n (slot x j ∷ ps) rest = elim (match_prefix n pat e) [
    | none ↦ some []
    | some fs ↦ again (lambda_run x ps).1 (drop n e) >>= λ f.
        (rest >>= λ gs. some (push_conj (fs ++ lambda x j ∷ ((lambda_run x ps).0 ++ f ∷ [])) gs))
  ]

  unfoldable pub word_rounds :
      (Pattern → List ℕ → Option PlFormula) → Pattern → List ℕ → ℕ → ℕ → Option (List PlFormula)
  unfolding word_round
  word_rounds again pat e zero n = some []
  word_rounds again pat e (suc count) n =
      word_round again pat e n (drop n pat) (word_rounds again pat e count (suc n))

  -- The rest of `encodeWord` behind the test of the lengths.
  unfoldable pub word_body :
      (Pattern → List ℕ → Option PlFormula) → Pattern → List ℕ → Option PlFormula
  unfolding word_rounds all_lambda
  word_body again [] [] = some ftrue
  word_body again (p ∷ ps) [] = elim (all_lambda (p ∷ ps)) [
    | none ↦ some ffalse
    | some fs ↦ some (join conj ffalse fs)
  ]
  word_body again pat (k ∷ ks) =
      word_rounds again pat (k ∷ ks) (suc (length (k ∷ ks))) 0 >>= λ fs. some (join disj ffalse fs)

  unfoldable pub encode_word : ℕ → Pattern → List ℕ → Option PlFormula
  unfolding word_body num_terminals
  encode_word zero pat e = none
  encode_word (suc fuel) pat e =
      if ltb (length pat) (length e) || ltb (length e) (num_terminals pat)
      then some ffalse
      else word_body (encode_word fuel) pat e
