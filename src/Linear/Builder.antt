-- ===== src/Linear/Builder.antt =====
-- The builder of libs/words/linconstraint.cpp against the integers, for each comparison.
use woorpje.Common.{
  ℕ, zero, suc, ◌≡◌, ◌↔◌, refl, sym, ap, ap₂, ◌∙◌, true, false, inl, inr, List, [], ◌∷◌, Bool-cases,
  length, ◌==◌, ℤ, pos, negsuc, neg, ◌+ℤ◌, ◌≤ℤ◌, ◌<ℤ◌, int_laws, times, times-+ℤ, times-neg,
  times-zero, ◌=ℤ◌, to_parts, neg-+ℤ, zero_left, arith,
}
use woorpje.Word.Defs.{Entry, same, same_iff}
use woorpje.Linear.Defs.{
  VarMultiplicity, LinearConstraint, Cmp, lt, leq, geq, gt, is_negative, is_zero, lhs_empty, Helper,
  add_to, make_multi_vector, make_neg_multi_vector, make_constraint, new_helper, Addition,
  lhs_entry, rhs_entry, lhs_number, rhs_number, add, add_all,
}

-- A length for each entry.
abbrev pub Lengths : Type 0
Lengths = Entry → ℕ

unfoldable pub weight : Lengths → List VarMultiplicity → ℤ
weight L [] = pos 0
weight L ((e, n) ∷ ms) = times n (L e) +ℤ weight L ms

abbrev pub Satisfies : Lengths → LinearConstraint → Type 0
Satisfies L c = weight L c.variables ≤ℤ c.rhs

abbrev pub Compares : Cmp → ℤ → ℤ → Type 0
Compares lt a b = a <ℤ b
Compares leq a b = a ≤ℤ b
Compares geq a b = b ≤ℤ a
Compares gt a b = b <ℤ a

add_in_front : (n i s w : ℤ) → s ≡ n +ℤ i → s +ℤ w ≡ i +ℤ (n +ℤ w)
add_in_front n i s w h = let k = to_parts _ _ h in omega int_laws

add_behind : (n i w v : ℤ) → v ≡ i +ℤ w → n +ℤ v ≡ i +ℤ (n +ℤ w)
add_behind n i w v h = let k = to_parts _ _ h in omega int_laws

pub weight-add_to :
    (L : Lengths) (e : Entry) (i : ℤ) (ms : List VarMultiplicity)
    → weight L (add_to e i ms) ≡ times i (L e) +ℤ weight L ms
unfolding weight add_to
weight-add_to L e i [] = refl
weight-add_to L e i ((f, n) ∷ ms) = elim (Bool-cases (same f e)) [
  | inl h ↦ rw h (
      let k = (same_iff f e).0 h in
      add_in_front (times n (L f)) (times i (L e)) (times (n +ℤ i) (L f)) (weight L ms)
        (times-+ℤ n i (L f) ∙ ap (λ z. times n (L f) +ℤ times i (L z)) k))
  | inr h ↦
      rw h (add_behind (times n (L f)) (times i (L e)) (weight L ms) _ (weight-add_to L e i ms))
]

is_zero_lem : (n : ℤ) → is_zero n ≡ true → n ≡ pos 0
is_zero_lem (pos zero) h = refl
is_zero_lem (pos (suc n)) h = cc
is_zero_lem (negsuc n) h = cc

-- An entry that is left out weighs nothing.
zero-weight : (L : Lengths) (e : Entry) (n : ℤ) (w : ℤ) → is_zero n ≡ true → times n (L e) +ℤ w ≡ w
zero-weight L e n w h =
    ap (λ z. times z (L e) +ℤ w) (is_zero_lem n h)
    ∙ ap (λ z. z +ℤ w) (times-zero (L e))
    ∙ sym (zero_left w)

pub weight-make_multi_vector :
    (L : Lengths) (ms : List VarMultiplicity) → weight L (make_multi_vector ms) ≡ weight L ms
unfolding weight make_multi_vector
weight-make_multi_vector L [] = refl
weight-make_multi_vector L ((e, n) ∷ ms) = elim (Bool-cases (is_zero n)) [
  | inl h ↦ rw h (weight-make_multi_vector L ms ∙ sym (zero-weight L e n (weight L ms) h))
  | inr h ↦ rw h (ap (λ z. times n (L e) +ℤ z) (weight-make_multi_vector L ms))
]

pub weight-make_neg_multi_vector :
    (L : Lengths) (ms : List VarMultiplicity)
    → weight L (make_neg_multi_vector ms) ≡ neg (weight L ms)
unfolding weight make_neg_multi_vector
weight-make_neg_multi_vector L [] = refl
weight-make_neg_multi_vector L ((e, n) ∷ ms) = elim (Bool-cases (is_zero n)) [
  | inl h ↦
      rw h (weight-make_neg_multi_vector L ms ∙ ap neg (sym (zero-weight L e n (weight L ms) h)))
  | inr h ↦ rw h (
      ap₂ (λ y z. y +ℤ z) (times-neg n (L e)) (weight-make_neg_multi_vector L ms)
      ∙ neg-+ℤ (times n (L e)) (weight L ms))
]

pub make_constraint_iff :
    (L : Lengths) (cmp : Cmp) (h : Helper)
    → Satisfies L (make_constraint cmp h) ↔ Compares cmp (weight L h.multiplicities) h.total
unfolding make_constraint
make_constraint_iff L leq h =
    let k = weight-make_multi_vector L h.multiplicities in rw k (λ z. z, λ z. z)
make_constraint_iff L lt h =
    let k = weight-make_multi_vector L h.multiplicities in
    rw k (λ z. omega int_laws, λ z. omega int_laws)
make_constraint_iff L geq h =
    let k = weight-make_neg_multi_vector L h.multiplicities in
    rw k (λ z. omega int_laws, λ z. omega int_laws)
make_constraint_iff L gt h =
    let k = weight-make_neg_multi_vector L h.multiplicities in
    rw k (λ z. omega int_laws, λ z. omega int_laws)

-- What the additions say of each side.
abbrev pub on_left : Lengths → Addition → ℤ
on_left L (lhs_entry e v) = times v (L e)
on_left L (lhs_number v) = v
on_left L _ = pos 0

abbrev pub on_right : Lengths → Addition → ℤ
on_right L (rhs_entry e v) = times v (L e)
on_right L (rhs_number v) = v
on_right L _ = pos 0

unfoldable pub left_side : Lengths → List Addition → ℤ
left_side L [] = pos 0
left_side L (a ∷ more) = on_left L a +ℤ left_side L more

unfoldable pub right_side : Lengths → List Addition → ℤ
right_side L [] = pos 0
right_side L (a ∷ more) = on_right L a +ℤ right_side L more

-- What moved from one side to the other keeps the balance.
abbrev pub Balance : Lengths → Helper → Helper → ℤ → ℤ → Type 0
Balance L h h' left right =
    weight L h'.multiplicities +ℤ right +ℤ h.total =ℤ weight L h.multiplicities +ℤ left +ℤ h'.total

pub add-Balance :
    (L : Lengths) (a : Addition) (h : Helper) → Balance L h (add a h) (on_left L a) (on_right L a)
unfolding add
add-Balance L (lhs_entry e v) h =
    let k = to_parts _ _ (weight-add_to L e v h.multiplicities) in omega int_laws
add-Balance L (rhs_entry e v) h =
    let k = to_parts _ _ (weight-add_to L e (neg v) h.multiplicities) in
    let n = to_parts _ _ (times-neg v (L e)) in omega int_laws
add-Balance L (lhs_number v) h = omega int_laws
add-Balance L (rhs_number v) h = omega int_laws

pub Balance-trans :
    (L : Lengths) (h i j : Helper) (l r m s : ℤ)
    → Balance L h i l r
    → Balance L i j m s
    → Balance L h j (l +ℤ m) (r +ℤ s)
Balance-trans L h i j l r m s p q = omega int_laws

add_all-Balance :
    (L : Lengths) (adds : List Addition) (h : Helper)
    → Balance L h (add_all adds h) (left_side L adds) (right_side L adds)
unfolding add_all left_side right_side
add_all-Balance L [] h = omega int_laws
add_all-Balance L (a ∷ more) h =
    Balance-trans L h (add a h) (add_all more (add a h)) _ _ _ _ (add-Balance L a h)
      (add_all-Balance L more (add a h))

pub balanced_iff :
    (cmp : Cmp) (w t l r : ℤ) → w +ℤ r =ℤ l +ℤ t → Compares cmp w t ↔ Compares cmp l r
balanced_iff lt w t l r h = (λ z. omega int_laws, λ z. omega int_laws)
balanced_iff leq w t l r h = (λ z. omega int_laws, λ z. omega int_laws)
balanced_iff geq w t l r h = (λ z. omega int_laws, λ z. omega int_laws)
balanced_iff gt w t l r h = (λ z. omega int_laws, λ z. omega int_laws)

pub start-Balance :
    (L : Lengths) (h : Helper) (l r : ℤ)
    → Balance L new_helper h l r
    → weight L h.multiplicities +ℤ r =ℤ l +ℤ h.total
unfolding weight
start-Balance L h l r b = omega int_laws

-- For each comparison, the constraint that a builder makes after some calls holds of the same lengths
-- as the comparison of what the calls added to the left with what they added to the right.
pub make_constraint-add_all_iff :
    (L : Lengths) (cmp : Cmp) (adds : List Addition)
    → Satisfies L (make_constraint cmp (add_all adds new_helper))
      ↔ Compares cmp (left_side L adds) (right_side L adds)
make_constraint-add_all_iff L cmp adds =
    let h = add_all adds new_helper in
    let m = make_constraint_iff L cmp h in
    let b = balanced_iff cmp _ _ _ _ (start-Balance L h _ _ (add_all-Balance L adds new_helper)) in
    (λ z. b.0 (m.0 z), λ z. m.1 (b.1 z))

empty-weight :
    (L : Lengths) (ms : List VarMultiplicity) → length ms == 0 ≡ true → weight L ms ≡ pos 0
unfolding weight
empty-weight L [] h = refl
empty-weight L (m ∷ ms) h = absurd (ground arith)

-- A constraint without variables holds exactly if its right side is not negative.
pub lhs_empty_iff :
    (L : Lengths) (c : LinearConstraint)
    → lhs_empty c ≡ true
    → Satisfies L c ↔ (is_negative c.rhs ≡ false)
lhs_empty_iff L c h = rw (empty-weight L c.variables h) (compare_zero c.rhs)
  where
    compare_zero : (r : ℤ) → (pos 0 ≤ℤ r) ↔ (is_negative r ≡ false)
    compare_zero (pos n) = (λ z. refl, λ z. omega arith)
    compare_zero (negsuc n) = (λ z. absurd (omega arith), λ z. cc)
