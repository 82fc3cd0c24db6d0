-- ===== src/Propositional/Measures.antt =====
-- The questions that `PLFormula` answers: `valid`, `is_nenf`, `depth`, `isFalse` and `size`.
use woorpje.Common.{ℕ, ◌+◌, ◌≤◌, ◌<◌, ◌≡◌, refl, Bool, true, false, ◌&&◌, arith, max, ◌==◌}
use woorpje.Propositional.Literal.{ℤ, pos, negsuc, neg}
use woorpje.Propositional.Formula.{
  Junctor, conj, PlFormula, Subformulae, lit, junct, lnot, nil, cons, get_literal,
}

-- `is_nenf`: a negation stands over a literal only.
abbrev pub is_lit : PlFormula → Bool
is_lit (lit l) = true
is_lit _ = false

unfoldable mutual
  pub is_nenf : PlFormula → Bool
  is_nenf (lit l) = true
  is_nenf (junct j fs) = all_nenf fs
  is_nenf (lnot f) = is_lit f

  pub all_nenf : Subformulae → Bool
  all_nenf nil = true
  all_nenf (cons f fs) = is_nenf f && all_nenf fs

-- `valid`: the loop over the operands returns in its first round.
abbrev pub has_two : Subformulae → Bool
has_two nil = false
has_two (cons f nil) = false
has_two (cons f (cons g fs)) = true

unfoldable mutual
  pub valid : PlFormula → Bool
  valid (lit l) = true
  valid (junct j fs) = has_two fs && first_valid fs
  valid (lnot f) = valid f

  pub first_valid : Subformulae → Bool
  first_valid nil = true
  first_valid (cons f fs) = valid f

-- `size`
unfoldable mutual
  pub size : PlFormula → ℕ
  size (lit l) = 1
  size (junct j fs) = 1 + size_row fs
  size (lnot f) = 1 + size f

  pub size_row : Subformulae → ℕ
  size_row nil = 0
  size_row (cons f fs) = size f + size_row fs

-- `depth`: the largest of the operands' and -1, and one more.
unfoldable mutual
  pub depth : PlFormula → ℕ
  depth (lit l) = 1
  depth (junct j fs) = depth_row fs
  depth (lnot f) = depth f + 1

  pub depth_row : Subformulae → ℕ
  depth_row nil = 0
  depth_row (cons f fs) = max (depth f + 1) (depth_row fs)

-- Equality of two `int`.
abbrev pub same_int : ℤ → ℤ → Bool
same_int (pos a) (pos b) = a == b
same_int (negsuc a) (negsuc b) = a == b
same_int _ _ = false

-- `isFalse`
unfoldable pub is_false : PlFormula → Bool
is_false (junct conj (cons f (cons g nil))) = same_int (get_literal f) (neg (get_literal g))
is_false _ = false

mutual
  unfolding size depth

  depth-le : (f : PlFormula) → depth f ≤ size f
  depth-le (lit l) = omega arith
  depth-le (junct j fs) = omega (arith, depth_row-le fs)
  depth-le (lnot f) = omega (arith, depth-le f)

  depth_row-le : (fs : Subformulae) → depth_row fs ≤ 1 + size_row fs
  depth_row-le nil = omega arith
  depth_row-le (cons f fs) = omega (arith, depth-le f, depth_row-le fs, size_pos f)

  size_pos : (f : PlFormula) → 0 < size f
  size_pos (lit l) = omega arith
  size_pos (junct j fs) = omega arith
  size_pos (lnot f) = omega arith

-- A formula is no deeper than it is large.
pub depth-le-size : (f : PlFormula) → depth f ≤ size f
depth-le-size f = depth-le f

-- What stands behind the first operand does not change the answer of `valid`.
pub valid_ignores :
    (j : Junctor) (f g h : PlFormula) (fs : Subformulae)
    → valid (junct j (cons f (cons g fs))) ≡ valid (junct j (cons f (cons h nil)))
unfolding valid
valid_ignores j f g h fs = refl
