-- ===== src/Propositional/Plural.antt =====
-- The formulae that `maincnf` is made for, as `makeBinary` leaves them.
use woorpje.Common.{ℕ, ◌<◌, ◌≡◌, refl, Option, none, some}
use mathlib.Core.Option
use woorpje.Propositional.Literal.{ℤ, abs, IsNonzero, Valuation}
use woorpje.Propositional.Formula.{
  Junctor, PlFormula, Subformulae, lit, junct, lnot, nil, cons, two, by_arity, make_binary,
  make_operands, make_row, make_first, eval,
}
use woorpje.Propositional.Binary.{Yields, eval-make_binary}

-- A literal over a variable that is positive and below `b`.
abbrev pub IsLiteral : ℕ → ℤ → Type 0
IsLiteral b l = IsNonzero l × (abs l < b)

abbrev pub IsLit : ℕ → PlFormula → Type 0
IsLit b (lit l) = IsLiteral b l
IsLit b _ = ⊥

abbrev pub HasTwo : Subformulae → Type 0
HasTwo nil = ⊥
HasTwo (cons f nil) = ⊥
HasTwo (cons f (cons g fs)) = Unit

-- Junctors have two operands or more, negations stand over literals, and literals are in range.
abbrev mutual
  pub IsEncodable : ℕ → PlFormula → Type 0
  IsEncodable b (lit l) = IsLiteral b l
  IsEncodable b (junct j fs) = HasTwo fs × AllEncodable b fs
  IsEncodable b (lnot f) = IsLit b f

  pub AllEncodable : ℕ → Subformulae → Type 0
  AllEncodable b nil = Unit
  AllEncodable b (cons f fs) = IsEncodable b f × AllEncodable b fs

-- The same, and junctors have two operands exactly.
abbrev pub IsReady : ℕ → PlFormula → Type 0
IsReady b (lit l) = IsLiteral b l
IsReady b (junct j (cons f (cons g nil))) = IsReady b f × IsReady b g
IsReady b (junct j _) = ⊥
IsReady b (lnot f) = IsLit b f

module _ (b : ℕ) where
  abbrev Ready : Option PlFormula → Type 0
  Ready o = Yields (IsReady b) o

  two-Ready : (j : Junctor) (o p : Option PlFormula) → Ready o → Ready p → Ready (two j o p)
  two-Ready j none p h k = absurd h
  two-Ready j (some f) none h k = absurd k
  two-Ready j (some f) (some g) h k = (h, k)

  lnot-Ready : (f : PlFormula) → IsLit b f → Ready (Option.map lnot (make_binary f))
  unfolding make_binary
  lnot-Ready (lit l) h = h
  lnot-Ready (junct j fs) h = absurd h
  lnot-Ready (lnot f) h = absurd h

  abbrev FirstReady : Subformulae → Option PlFormula → Type 0
  FirstReady nil o = Unit
  FirstReady (cons f fs) o = Ready o

  -- A row of one operand is left to its parent.
  abbrev RowReady : Subformulae → Option PlFormula → Type 0
  RowReady nil o = Unit
  RowReady (cons f nil) o = Unit
  RowReady (cons f (cons g fs)) o = Ready o

  pick : (fs : Subformulae) (o : Option PlFormula) → HasTwo fs → RowReady fs o → Ready o
  pick nil o t r = absurd t
  pick (cons f nil) o t r = absurd t
  pick (cons f (cons g fs)) o t r = r

  arity-Ready :
      (j : Junctor) (f : PlFormula) (fs : Subformulae) (whole lifted only right : Option PlFormula)
      → Ready whole
      → FirstReady fs only
      → RowReady fs right
      → RowReady (cons f fs) (by_arity j whole lifted fs only right)
  arity-Ready j f nil whole lifted only right w o r = tt
  arity-Ready j f (cons g nil) whole lifted only right w o r = two-Ready j whole only w o
  arity-Ready j f (cons g (cons h fs)) whole lifted only right w o r = two-Ready j whole right w r

  mutual
    unfolding make_binary

    binary-Ready : (f : PlFormula) → IsEncodable b f → Ready (make_binary f)
    binary-Ready (lit l) h = h
    binary-Ready (junct j fs) h = pick fs _ h.0 (row-Ready fs j h.1)
    binary-Ready (lnot f) h = lnot-Ready f h

    row-Ready : (fs : Subformulae) (j : Junctor) → AllEncodable b fs → RowReady fs (make_row j fs)
    row-Ready nil j h = tt
    row-Ready (cons f fs) j h =
        arity-Ready j f fs (make_binary f) (make_operands f) (make_first fs) (make_row j fs)
          (binary-Ready f h.0) (first-Ready fs h.1) (row-Ready fs j h.1)

    first-Ready : (fs : Subformulae) → AllEncodable b fs → FirstReady fs (make_first fs)
    first-Ready nil h = tt
    first-Ready (cons f fs) h = binary-Ready f h.0

Yields-some :
    {X : Type 0} (P : X → Type 0) (o : Option X) → Yields P o → (x : X) × (o ≡ some x) × P x
Yields-some P none h = absurd h
Yields-some P (some x) h = (x, refl, h)

-- `makeBinary` makes an encodable formula ready, with the value that it has under each valuation.
pub make_binary-IsReady :
    (b : ℕ) (f : PlFormula)
    → IsEncodable b f
    → (g : PlFormula) × (make_binary f ≡ some g)
      × IsReady b g
      × ((A : Valuation) → eval A g ≡ eval A f)
make_binary-IsReady b f h =
    let (g, e, r) = Yields-some (IsReady b) (make_binary f) (binary-Ready b f h) in
    (g, e, r, λ A. eval-make_binary A f e)

-- A junctor over a single junctor of three literals is replaced by it, and that one keeps its three
-- operands.
pub make_binary_unary :
    (j k : Junctor) (x y z : ℤ)
    → make_binary (junct j (cons (junct k (cons (lit x) (cons (lit y) (cons (lit z) nil)))) nil))
      ≡ some (junct k (cons (lit x) (cons (lit y) (cons (lit z) nil))))
unfolding make_binary
make_binary_unary j k x y z = refl
