-- ===== src/Regex/Derivative/Parts.antt =====
-- The parts of a derivative: how `keep`, `union_of` and `node_of` act on languages, and the branches of
-- a concatenation's derivative.
use woorpje.Common.{
  ℕ, ◌≡◌, refl, ◌↔◌, ◌⊎◌, inl, inr, true, false, List, [], ◌∷◌, ◌++◌, arith, Bool-cases, sym, ap,
  ◌∙◌, subst, append-nil, ◌==◌, if◌then◌else◌,
}
use woorpje.Regex.Defs.{
  RegNode, Children, reg_empty, reg_word, operation, union, none_left, child, accepts_epsilon,
}
use woorpje.Regex.Lang.{Lang, LangSome, LangRow}
use woorpje.Regex.Derive.{
  keep, union_of, is_reg_empty, is_empty_word, pair, concat_step, node_of, derivative,
}

-- A word in two parts.
abbrev pub Split : (List ℕ → Type 0) → (List ℕ → Type 0) → List ℕ → Type 0
Split P Q w = (u : List ℕ) × (v : List ℕ) × P u × Q v × (w ≡ u ++ v)

pub LangSome-keep :
    (r : RegNode) (cs : Children) (w : List ℕ) → LangSome (keep r cs) w ↔ (Lang r w ⊎ LangSome cs w)
LangSome-keep reg_empty cs w = (inr, λ h. elim h [ inl x ↦ absurd x | inr y ↦ y ])
LangSome-keep _ cs w = (λ h. h, λ h. h)

pub Lang-union_of : (cs : Children) (w : List ℕ) → Lang (union_of cs) w ↔ LangSome cs w
Lang-union_of none_left w = (λ h. h, λ h. h)
Lang-union_of (child r none_left) w = (inl, λ h. elim h [ inl x ↦ x | inr y ↦ absurd y ])
Lang-union_of (child r (child s cs)) w = (λ h. h, λ h. h)

pub Lang-node_of :
    (r : RegNode) (cs : Children) (w : List ℕ)
    → Lang (node_of (child r cs)) w ↔ LangRow (child r cs) w
Lang-node_of r none_left w = (
  λ h. (w, [], h, refl, sym (append-nil w)),
  λ (u, v, p, e, f). subst (Lang r) (sym (f ∙ ap (λ x. u ++ x) e ∙ append-nil u)) p,
)
Lang-node_of r (child s cs) w = (λ h. h, λ h. h)

pub Lang-pair : (l r : RegNode) (w : List ℕ) → Lang (pair l r) w ↔ Split (Lang l) (Lang r) w
Lang-pair l r w = (
  λ (u, v, p, q, e). (u, v, p, (Lang-node_of r none_left v).1 q, e),
  λ (u, v, p, q, e). (u, v, p, (Lang-node_of r none_left v).0 q, e),
)

pub is_empty_word_lem : (r : RegNode) → is_empty_word r ≡ true → r ≡ reg_word []
is_empty_word_lem (reg_word []) h = refl
is_empty_word_lem (reg_word (x ∷ u)) h = ground arith
is_empty_word_lem reg_empty h = cc
is_empty_word_lem (operation o cs) h = cc

pub is_reg_empty_lem : (r : RegNode) → is_reg_empty r ≡ true → r ≡ reg_empty
is_reg_empty_lem reg_empty h = refl
is_reg_empty_lem (reg_word u) h = cc
is_reg_empty_lem (operation o cs) h = cc

-- What a concatenation's derivative is, branch by branch.
pub data StepView (l l' r r' x : RegNode) : Type 0 where
  absorbed : is_empty_word l' ≡ true → x ≡ r → StepView l l' r r' x
  right_only : accepts_epsilon l ≡ true → is_reg_empty l' ≡ true → x ≡ r' → StepView l l' r r' x
  left_kept : is_reg_empty r' ≡ true → x ≡ pair l' r → StepView l l' r r' x
  both :
      accepts_epsilon l ≡ true
      → x ≡ operation union (child (pair l' r) (child r' none_left))
      → StepView l l' r r' x
  dead : accepts_epsilon l ≡ false → is_reg_empty l' ≡ true → x ≡ l' → StepView l l' r r' x
  left_only : accepts_epsilon l ≡ false → x ≡ pair l' r → StepView l l' r r' x

pub concat_step_view : (l l' r r' : RegNode) → StepView l l' r r' (concat_step l l' r r')
unfolding concat_step
concat_step_view l l' r r' = elim (Bool-cases (is_empty_word l')) [
  | inl a ↦ absorbed a (rw a)
  | inr a ↦ elim (Bool-cases (accepts_epsilon l)) [
    | inl b ↦ elim (Bool-cases (is_reg_empty l')) [
      | inl d ↦ right_only b d (rw (a, b, d))
      | inr d ↦ elim (Bool-cases (is_reg_empty r')) [
        | inl e ↦ left_kept e (rw (a, b, d, e))
        | inr e ↦ both b (rw (a, b, d, e))
      ]
    ]
    | inr b ↦ elim (Bool-cases (is_reg_empty l')) [
      | inl d ↦ dead b d (rw (a, b, d))
      | inr d ↦ left_only b (rw (a, b, d))
    ]
  ]
]

-- What a derivative by `c` has to give: no word too many, and no word too few.
abbrev pub Sound : ℕ → RegNode → RegNode → Type 0
Sound c r r' = (w : List ℕ) → Lang r' w → Lang r (c ∷ w)

abbrev pub Complete : ℕ → RegNode → RegNode → Type 0
Complete c r r' = (w : List ℕ) → Lang r (c ∷ w) → Lang r' w

pub word_eq :
    (c x : ℕ) (u : List ℕ)
    → derivative (c ∷ []) (reg_word (x ∷ u)) ≡ (if x == c then reg_word u else reg_empty)
unfolding derivative
word_eq c x u = ground arith
