-- ===== src/Propositional/Formula.antt =====
-- `PLFormula` of libs/solvers/satencoding/regular/regencoding.h and proplog.cpp, its value, and
-- `makeBinary`. `lit`, `land`, `lor` and `lnot` are the only ways to build a formula; a formula's
-- `literal` is 0 unless it is a `lit`. Where the source exits the process the result is `none`.
use woorpje.Common.{Bool, true, false, ◌&&◌, ◌||◌, not, Option, none, some}
use mathlib.Core.Option
use woorpje.Propositional.Literal.{ℤ, pos, Valuation, holds}

pub data Junctor : Type 0 where
  conj disj : Junctor

-- `AND` and `OR` are `junct conj` and `junct disj`; `NOT` has one operand by construction.
mutual
  pub data PlFormula : Type 0 where
    lit : ℤ → PlFormula
    junct : Junctor → Subformulae → PlFormula
    lnot : PlFormula → PlFormula

  pub data Subformulae : Type 0 where
    nil : Subformulae
    cons : PlFormula → Subformulae → Subformulae

abbrev pub land : Subformulae → PlFormula
land fs = junct conj fs

abbrev pub lor : Subformulae → PlFormula
lor fs = junct disj fs

-- `getLiteral`
abbrev pub get_literal : PlFormula → ℤ
get_literal (lit l) = l
get_literal _ = pos 0

abbrev pub combine : Junctor → Bool → Bool → Bool
combine conj a b = a && b
combine disj a b = a || b

abbrev pub unit_of : Junctor → Bool
unit_of conj = true
unit_of disj = false

-- The truth value that the solvers mean.
unfoldable mutual
  pub eval : Valuation → PlFormula → Bool
  eval A (lit l) = holds A l
  eval A (junct j fs) = eval_row A j fs
  eval A (lnot f) = not (eval A f)

  pub eval_row : Valuation → Junctor → Subformulae → Bool
  eval_row A j nil = unit_of j
  eval_row A j (cons f fs) = combine j (eval A f) (eval_row A j fs)

abbrev pub two : Junctor → Option PlFormula → Option PlFormula → Option PlFormula
two j (some f) (some g) = some (junct j (cons f (cons g nil)))
two j _ _ = none

abbrev pub prepend : Option PlFormula → Option Subformulae → Option Subformulae
prepend (some f) (some fs) = some (cons f fs)
prepend _ _ = none

-- The operands of a junctor behind the first: the result for one, two and more operands in all.
-- `whole` and `lifted` are the first operand made binary and its operands made binary, `only` is the
-- second one made binary, and `right` the junctor over all operands but the first made binary.
abbrev pub by_arity :
    Junctor
    → Option PlFormula
    → Option PlFormula
    → Subformulae
    → Option PlFormula
    → Option PlFormula
    → Option PlFormula
by_arity j whole lifted nil only right = lifted
by_arity j whole lifted (cons g nil) only right = two j whole only
by_arity j whole lifted (cons g (cons h fs)) only right = two j whole right

unfoldable mutual
  -- `makeBinary`
  pub make_binary : PlFormula → Option PlFormula
  make_binary (lit l) = some (lit l)
  make_binary (junct j fs) = make_row j fs
  make_binary (lnot f) = Option.map lnot (make_binary f)

  -- The loop at its end, for a formula that has taken the place of its parent.
  pub make_operands : PlFormula → Option PlFormula
  make_operands (lit l) = some (lit l)
  make_operands (junct j fs) = Option.map (junct j) (make_each fs)
  make_operands (lnot f) = Option.map lnot (make_binary f)

  pub make_each : Subformulae → Option Subformulae
  make_each nil = some nil
  make_each (cons f fs) = prepend (make_binary f) (make_each fs)

  pub make_row : Junctor → Subformulae → Option PlFormula
  make_row j nil = none
  make_row j (cons f fs) =
      by_arity j (make_binary f) (make_operands f) fs (make_first fs) (make_row j fs)

  pub make_first : Subformulae → Option PlFormula
  make_first nil = none
  make_first (cons f fs) = make_binary f
