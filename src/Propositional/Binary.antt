-- ===== src/Propositional/Binary.antt =====
-- `makeBinary` of libs/solvers/satencoding/regular/proplog.cpp against a formula's value and shape.
use woorpje.Common.{◌≡◌, refl, ap, ap₂, ◌∙◌, Bool, true, false, not, Option, none, some}
use mathlib.Core.Option
use woorpje.Propositional.Literal.{Valuation}
use woorpje.Propositional.Formula.{
  Junctor, conj, disj, PlFormula, Subformulae, lit, junct, lnot, nil, cons, combine, unit_of, eval,
  eval_row, two, prepend, by_arity, make_binary, make_operands, make_each, make_row, make_first,
}

-- What is so of a result, if there is one.
abbrev pub IfSome {ℓ} : {X : Type ℓ} → (X → Type 0) → Option X → Type 0
IfSome P none = Unit
IfSome P (some x) = P x

-- There is a result, and it is so.
abbrev pub Yields {ℓ} : {X : Type ℓ} → (X → Type 0) → Option X → Type 0
Yields P none = ⊥
Yields P (some x) = P x

pub combine_unit : (j : Junctor) (b : Bool) → combine j b (unit_of j) ≡ b
combine_unit conj true = refl
combine_unit conj false = refl
combine_unit disj true = refl
combine_unit disj false = refl

module _ (A : Valuation) where
  -- A result has the value `b`.
  abbrev Means : Bool → Option PlFormula → Type 0
  Means b o = IfSome (λ g. eval A g ≡ b) o

  abbrev FirstMeans : Subformulae → Option PlFormula → Type 0
  FirstMeans nil o = Unit
  FirstMeans (cons f fs) o = Means (eval A f) o

  abbrev RowMeans : Subformulae → (Junctor → Option PlFormula) → Type 0
  RowMeans fs o = (j : Junctor) → Means (eval_row A j fs) (o j)

  lnot-Means :
      (f : PlFormula) (o : Option PlFormula)
      → Means (eval A f) o
      → Means (not (eval A f)) (Option.map lnot o)
  unfolding eval
  lnot-Means f none h = tt
  lnot-Means f (some g) h = ap not h

  prepend-Means :
      (j : Junctor) (f : PlFormula) (fs : Subformulae) (o : Option PlFormula)
      (os : Option Subformulae)
      → Means (eval A f) o
      → IfSome (λ gs. (k : Junctor) → eval_row A k gs ≡ eval_row A k fs) os
      → IfSome (λ gs. (k : Junctor) → eval_row A k gs ≡ eval_row A k (cons f fs)) (prepend o os)
  unfolding eval
  prepend-Means j f fs none os h k = tt
  prepend-Means j f fs (some g) none h k = tt
  prepend-Means j f fs (some g) (some gs) h k = λ i. ap₂ (combine i) h (k i)

  two-Means :
      (j : Junctor) (a b : Bool) (o p : Option PlFormula)
      → Means a o
      → Means b p
      → Means (combine j a b) (two j o p)
  unfolding eval
  two-Means j a b none p h k = tt
  two-Means j a b (some f) none h k = tt
  two-Means j a b (some f) (some g) h k = ap₂ (combine j) h (combine_unit j (eval A g) ∙ k)

  arity-Means :
      (j : Junctor) (f : PlFormula) (fs : Subformulae) (whole lifted only right : Option PlFormula)
      → Means (eval A f) whole
      → Means (eval A f) lifted
      → FirstMeans fs only
      → Means (eval_row A j fs) right
      → Means (eval_row A j (cons f fs)) (by_arity j whole lifted fs only right)
  unfolding eval
  arity-Means j f nil whole lifted only right w l o r = rw (combine_unit j (eval A f)) l
  arity-Means j f (cons g nil) whole lifted only right w l o r =
      rw (combine_unit j (eval A g)) (two-Means j (eval A f) (eval A g) whole only w o)
  arity-Means j f (cons g (cons h fs)) whole lifted only right w l o r =
      two-Means j (eval A f) (eval_row A j (cons g (cons h fs))) whole right w r

  junct-Means :
      (j : Junctor) (fs : Subformulae) (os : Option Subformulae)
      → IfSome (λ gs. (k : Junctor) → eval_row A k gs ≡ eval_row A k fs) os
      → Means (eval_row A j fs) (Option.map (junct j) os)
  unfolding eval
  junct-Means j fs none h = tt
  junct-Means j fs (some gs) h = h j

  mutual
    unfolding make_binary eval

    make_binary-Means : (f : PlFormula) → Means (eval A f) (make_binary f)
    make_binary-Means (lit l) = refl
    make_binary-Means (junct j fs) = make_row-Means fs j
    make_binary-Means (lnot f) = lnot-Means f (make_binary f) (make_binary-Means f)

    make_operands-Means : (f : PlFormula) → Means (eval A f) (make_operands f)
    make_operands-Means (lit l) = refl
    make_operands-Means (junct j fs) = junct-Means j fs (make_each fs) (make_each-Means fs)
    make_operands-Means (lnot f) = lnot-Means f (make_binary f) (make_binary-Means f)

    make_each-Means :
        (fs : Subformulae)
        → IfSome (λ gs. (k : Junctor) → eval_row A k gs ≡ eval_row A k fs) (make_each fs)
    make_each-Means nil = λ k. refl
    make_each-Means (cons f fs) =
        prepend-Means conj f fs (make_binary f) (make_each fs) (make_binary-Means f)
          (make_each-Means fs)

    make_row-Means : (fs : Subformulae) (j : Junctor) → Means (eval_row A j fs) (make_row j fs)
    make_row-Means nil j = tt
    make_row-Means (cons f fs) j =
        arity-Means j f fs (make_binary f) (make_operands f) (make_first fs) (make_row j fs)
          (make_binary-Means f) (make_operands-Means f) (make_first-Means fs) (make_row-Means fs j)

    make_first-Means : (fs : Subformulae) → FirstMeans fs (make_first fs)
    make_first-Means nil = tt
    make_first-Means (cons f fs) = make_binary-Means f

-- Where `makeBinary` does not exit, the formula that it makes has the value of the formula before.
pub eval-make_binary :
    (A : Valuation) (f : PlFormula) {g : PlFormula} → make_binary f ≡ some g → eval A g ≡ eval A f
eval-make_binary A f h = rw h at (make_binary-Means A f)
