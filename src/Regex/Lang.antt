-- ===== src/Regex/Lang.antt =====
-- The language of a regular expression, and the shape that the source's indexing relies on.
use woorpje.Common.{ℕ, ◌≡◌, ◌⊎◌, List, [], ◌++◌, append_assoc, sym, ◌∙◌, ap, subst}
use woorpje.Regex.Defs.{
  RegNode, Children, reg_empty, reg_word, operation, union, concat, star, none_left, child,
}

-- Words in a row, each from `P`.
pub data Star (P : List ℕ → Type 0) : List ℕ → Type 0 where
  stop : {w : List ℕ} → w ≡ [] → Star P w
  more : {w : List ℕ} (u v : List ℕ) → P u → Star P v → w ≡ u ++ v → Star P w

abbrev mutual
  pub Lang : RegNode → List ℕ → Type 0
  Lang reg_empty w = ⊥
  Lang (reg_word u) w = w ≡ u
  Lang (operation union cs) w = LangSome cs w
  Lang (operation concat cs) w = LangRow cs w
  Lang (operation star cs) w = Star (LangFirst cs) w

  pub LangSome : Children → List ℕ → Type 0
  LangSome none_left w = ⊥
  LangSome (child r cs) w = Lang r w ⊎ LangSome cs w

  pub LangRow : Children → List ℕ → Type 0
  LangRow none_left w = w ≡ []
  LangRow (child r cs) w = (u : List ℕ) × (v : List ℕ) × Lang r u × LangRow cs v × (w ≡ u ++ v)

  pub LangFirst : Children → List ℕ → Type 0
  LangFirst none_left w = ⊥
  LangFirst (child r cs) w = Lang r w

-- At least two children, and at least one.
abbrev pub HasTwo : Children → Type 0
HasTwo none_left = ⊥
HasTwo (child r none_left) = ⊥
HasTwo (child r (child s cs)) = Unit

abbrev pub HasOne : Children → Type 0
HasOne none_left = ⊥
HasOne (child r cs) = Unit

-- A concatenation has two children or more, and a star has one, all the way down.
abbrev mutual
  pub IsWellFormed : RegNode → Type 0
  IsWellFormed reg_empty = Unit
  IsWellFormed (reg_word u) = Unit
  IsWellFormed (operation union cs) = AllWellFormed cs
  IsWellFormed (operation concat cs) = HasTwo cs × AllWellFormed cs
  IsWellFormed (operation star cs) = HasOne cs × AllWellFormed cs

  pub AllWellFormed : Children → Type 0
  AllWellFormed none_left = Unit
  AllWellFormed (child r cs) = IsWellFormed r × AllWellFormed cs

pub Star-map :
    {P Q : List ℕ → Type 0} {w : List ℕ} → ((u : List ℕ) → P u → Q u) → Star P w → Star Q w
Star-map f (stop e) = stop e
Star-map f (more u v h hs e) = more u v (f u h) (Star-map f hs) e

pub Star-append : {P : List ℕ → Type 0} {u v : List ℕ} → Star P u → Star P v → Star P (u ++ v)
Star-append {P} {v} (stop e) h = subst (λ x. Star P (x ++ v)) (sym e) h
Star-append {v} (more a b p s e) h =
    more a (b ++ v) p (Star-append s h) (ap (λ x. x ++ v) e ∙ append_assoc a b v)
