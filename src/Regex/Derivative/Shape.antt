-- ===== src/Regex/Derivative/Shape.antt =====
-- `derivative` of libs/words/pubinclude/words/regconstraints.hpp: the shape that the source's indexing
-- into the children relies on.
use woorpje.Common.{
  ℕ, Bool, true, false, inl, inr, List, [], ◌∷◌, Bool-cases, sym, subst, ◌==◌, if◌then◌else◌, ltb,
  length,
}
use woorpje.Regex.Defs.{
  RegNode, Children, reg_empty, reg_word, operation, union, concat, star, none_left, child,
}
use woorpje.Regex.Lang.{IsWellFormed, AllWellFormed}
use woorpje.Regex.Derivative.Parts.{
  StepView, absorbed, right_only, left_kept, both, dead, left_only, concat_step_view,
}
use woorpje.Regex.Derive.{
  word_derivative, keep, union_of, is_reg_empty, pair, concat_step, node_of, row_step, star_step,
  derivative, derivatives, row_derivative, first_derivative,
}

-- A test between two well-formed nodes.
if_IsWellFormed :
    (b : Bool) (x y : RegNode) → IsWellFormed x → IsWellFormed y → IsWellFormed (if b then x else y)
if_IsWellFormed true x y p q = p
if_IsWellFormed false x y p q = q

word-IsWellFormed : (d u : List ℕ) → IsWellFormed (word_derivative d u)
unfolding word_derivative
word-IsWellFormed [] u = tt
word-IsWellFormed (c ∷ d) [] = tt
word-IsWellFormed (c ∷ d) (x ∷ u) =
    if_IsWellFormed (x == c) (word_derivative d u) reg_empty (word-IsWellFormed d u) tt

keep-AllWellFormed :
    (r : RegNode) (cs : Children) → IsWellFormed r → AllWellFormed cs → AllWellFormed (keep r cs)
keep-AllWellFormed reg_empty cs p q = q
keep-AllWellFormed _ cs p q = (p, q)

union_of-IsWellFormed : (cs : Children) → AllWellFormed cs → IsWellFormed (union_of cs)
union_of-IsWellFormed none_left h = tt
union_of-IsWellFormed (child r none_left) h = h.0
union_of-IsWellFormed (child r (child s cs)) h = h

node_of-IsWellFormed :
    (r : RegNode) (cs : Children) → AllWellFormed (child r cs) → IsWellFormed (node_of (child r cs))
node_of-IsWellFormed r none_left h = h.0
node_of-IsWellFormed r (child s cs) h = (tt, h)

view-IsWellFormed :
    (l l' r r' x : RegNode)
    → StepView l l' r r' x
    → IsWellFormed l'
    → IsWellFormed r
    → IsWellFormed r'
    → IsWellFormed x
view-IsWellFormed l l' r r' x (absorbed a e) pl pr pr' = subst IsWellFormed (sym e) pr
view-IsWellFormed l l' r r' x (right_only b d e) pl pr pr' = subst IsWellFormed (sym e) pr'
view-IsWellFormed l l' r r' x (left_kept d e) pl pr pr' =
    subst IsWellFormed (sym e) (tt, (pl, (pr, tt)))
view-IsWellFormed l l' r r' x (both b e) pl pr pr' =
    subst IsWellFormed (sym e) ((tt, (pl, (pr, tt))), (pr', tt))
view-IsWellFormed l l' r r' x (dead b d e) pl pr pr' = subst IsWellFormed (sym e) pl
view-IsWellFormed l l' r r' x (left_only b e) pl pr pr' =
    subst IsWellFormed (sym e) (tt, (pl, (pr, tt)))

concat_step-IsWellFormed :
    (l l' r r' : RegNode)
    → IsWellFormed l'
    → IsWellFormed r
    → IsWellFormed r'
    → IsWellFormed (concat_step l l' r r')
concat_step-IsWellFormed l l' r r' pl pr pr' =
    view-IsWellFormed l l' r r' _ (concat_step_view l l' r r') pl pr pr'

row_step-IsWellFormed :
    (l l' : RegNode) (cs : Children) (n : RegNode)
    → IsWellFormed l'
    → AllWellFormed cs
    → IsWellFormed n
    → IsWellFormed (row_step l l' cs n)
unfolding row_step
row_step-IsWellFormed l l' none_left n pl pc pn = pl
row_step-IsWellFormed l l' (child s cs) n pl pc pn =
    concat_step-IsWellFormed l l' _ n pl (node_of-IsWellFormed s cs pc) pn

star_step-IsWellFormed :
    (l' : RegNode) (cs : Children)
    → IsWellFormed l'
    → IsWellFormed (operation star cs)
    → IsWellFormed (star_step l' cs)
unfolding star_step
star_step-IsWellFormed l' cs p h =
    let q : IsWellFormed (pair l' (operation star cs)) = (tt, (p, (h, tt))) in
    elim (Bool-cases (is_reg_empty l')) [ inl e ↦ rw e tt | inr e ↦ rw e q ]

mutual
  unfolding derivative

  shape : (d : List ℕ) (r : RegNode) → IsWellFormed r → IsWellFormed (derivative d r)
  shape d reg_empty h = tt
  shape d (reg_word u) h =
      if_IsWellFormed (ltb (length u) (length d)) reg_empty (word_derivative d u) tt
        (word-IsWellFormed d u)
  shape [] (operation o cs) h = h
  shape (c ∷ d) (operation union cs) h = union_of-IsWellFormed _ (shape_each (c ∷ d) cs h)
  shape (c ∷ d) (operation concat cs) h = shape_row (c ∷ d) cs h.1
  shape (c ∷ d) (operation star cs) h = star_step-IsWellFormed _ cs (shape_first (c ∷ d) cs h.1) h

  shape_each : (d : List ℕ) (cs : Children) → AllWellFormed cs → AllWellFormed (derivatives d cs)
  shape_each d none_left h = tt
  shape_each d (child r cs) h = keep-AllWellFormed _ _ (shape d r h.0) (shape_each d cs h.1)

  shape_row : (d : List ℕ) (cs : Children) → AllWellFormed cs → IsWellFormed (row_derivative d cs)
  shape_row d none_left h = tt
  shape_row d (child r cs) h =
      row_step-IsWellFormed r _ cs _ (shape d r h.0) h.1 (shape_row d cs h.1)

  shape_first :
      (d : List ℕ) (cs : Children) → AllWellFormed cs → IsWellFormed (first_derivative d cs)
  shape_first d none_left h = tt
  shape_first d (child r cs) h = shape d r h.0

-- The derivative of a well-formed expression by any text is well formed.
pub derivative-IsWellFormed :
    (d : List ℕ) (r : RegNode) → IsWellFormed r → IsWellFormed (derivative d r)
derivative-IsWellFormed d r h = shape d r h
