-- ===== src/Levis/Front.antt =====
-- The solutions of an equation against the rules of libs/solvers/levis/rules.hpp at its front.
use woorpje.Common.{
  ℕ, ◌≡◌, ◌≢◌, ◌⊎◌, refl, sym, ap, ◌∙◌, true, false, inl, inr, Option, none, some, List, [], ◌∷◌,
  ◌++◌, append-nil, ◌==◌, Bool-cases, arith, ltb, ◌||◌,
}
use mathlib.Core.Path.{fun_ext}
use woorpje.Word.Defs.{Entry, Word, variable, terminal, sequence, iterate, characters}
use woorpje.Word.Value.{Assignment, entry_value, value, value-iterate}
use woorpje.Word.Substitute.{update}
use woorpje.Levis.Rules.{
  Equation, propose, at_front, front_rules, first, both, two_variables, variable_left,
  variable_right,
}
use woorpje.Levis.Satisfiable.{Holds, Any, before, Explains}

-- An assignment is explained by what is left of one variable's word.
pub before-update :
    (σ : Assignment) (x : ℕ) (z : List ℕ) (to : Word)
    → value (update σ x z) to ≡ σ x
    → before (update σ x z) x to ≡ σ
before-update σ x z to h = fun_ext (λ y. elim (Bool-cases (y == x)) [
  | inl e ↦ (let k : y ≡ x = ground arith in rw e (h ∙ ap σ (sym k)))
  | inr e ↦ rw e refl
])

-- Two appends that are equal: one first part begins with the other.
pub append-split :
    (u s v t : List ℕ)
    → u ++ s ≡ v ++ t
    → ((z : List ℕ) × (u ≡ v ++ z)) ⊎ ((z : List ℕ) × (v ≡ u ++ z))
append-split u s [] t h = inl (u, refl)
append-split [] s (b ∷ v) t h = inr (b ∷ v, refl)
append-split (a ∷ u) s (b ∷ v) t h = elim (append-split u s v t cc) [
  | inl (z, e) ↦ inl (z, cc)
  | inr (z, e) ↦ inr (z, cc)
]

value-pair :
    (σ : Assignment) (x y : ℕ) (z : List ℕ)
    → y ≢ x
    → value (update σ x z) (variable y ∷ variable x ∷ []) ≡ σ y ++ z
unfolding value
value-pair σ x y z h =
    let a : y == x ≡ false = ground arith in
    let b : x == x ≡ true = ground arith in rw (a, b) (ap (λ w. σ y ++ w) (append-nil z))

pub value-nil : (σ : Assignment) → value σ [] ≡ []
unfolding value
value-nil σ = refl

value-letter :
    (σ : Assignment) (x a : ℕ) (z : List ℕ)
    → value (update σ x z) (terminal a ∷ variable x ∷ []) ≡ a ∷ z
unfolding value
value-letter σ x a z = let b : x == x ≡ true = ground arith in rw b (ap (λ w. a ∷ w) (append-nil z))

-- What the rules at the front propose for these first entries.
abbrev ExplainedAtFront : Assignment → Equation → Type 0
ExplainedAtFront σ e = Any (λ rule. Explains σ (rule e)) front_rules

module _ (σ : Assignment) (e : Equation) where
  variables_explained :
      (x y : ℕ) (s t : List ℕ)
      → at_front e ≡ some (variable x, variable y)
      → x ≢ y
      → σ x ++ s ≡ σ y ++ t
      → ExplainedAtFront σ e
  unfolding propose
  variables_explained x y s t h d k = elim (append-split (σ x) s (σ y) t k) [
    | inl (z, c) ↦ inl (
      x,
      variable y ∷ variable x ∷ [],
      update σ x z,
      ap (propose two_variables _) h,
      before-update σ x z _ (value-pair σ x y z (λ q. d (sym q)) ∙ sym c),
    )
    | inr (z, c) ↦ inr (
        inl (
          y,
          variable x ∷ variable y ∷ [],
          update σ y z,
          ap (propose two_variables _) h,
          before-update σ y z _ (value-pair σ y x z d ∙ sym c),
        ))
  ]

  left_explained :
      (x a : ℕ) (u s t : List ℕ)
      → at_front e ≡ some (variable x, terminal a)
      → σ x ≡ u
      → u ++ s ≡ a ∷ t
      → ExplainedAtFront σ e
  unfolding propose
  left_explained x a [] s t h g k = inr (
      inr (
        inr (
          inl (
            x,
            [],
            update σ x [],
            ap (propose variable_left _) h,
            before-update σ x [] [] (value-nil _ ∙ sym g),
          ))))
  left_explained x a (c ∷ z) s t h g k = inr (
      inr (
        inr (
          inr (
            inr (
              inl (
                x,
                terminal a ∷ variable x ∷ [],
                update σ x z,
                ap (propose variable_left _) h,
                before-update σ x z _ (value-letter σ x a z ∙ cc),
              ))))))

  right_explained :
      (x a : ℕ) (u s t : List ℕ)
      → at_front e ≡ some (terminal a, variable x)
      → σ x ≡ u
      → a ∷ s ≡ u ++ t
      → ExplainedAtFront σ e
  unfolding propose
  right_explained x a [] s t h g k = inr (
      inr (
        inr (
          inr (
            inl (
              x,
              [],
              update σ x [],
              ap (propose variable_right _) h,
              before-update σ x [] [] (value-nil _ ∙ sym g),
            )))))
  right_explained x a (c ∷ z) s t h g k = inr (
      inr (
        inr (
          inr (
            inr (
              inr (
                inl (
                  x,
                  terminal a ∷ variable x ∷ [],
                  update σ x z,
                  ap (propose variable_right _) h,
                  before-update σ x z _ (value-letter σ x a z ∙ cc),
                )))))))

-- The first entry of a word's iterator, which is never a sequence, begins the word's value.
first-value :
    (σ : Assignment) (l : Entry) (es : List Entry)
    → first es ≡ some l
    → (s : List ℕ) × (value σ es ≡ entry_value σ l ++ s)
unfolding value
first-value σ l [] h = absurd cc
first-value σ l (e ∷ es) h =
    let k : e ≡ l = cc in (value σ es, ap (λ z. entry_value σ z ++ value σ es) k)

abbrev pub IsPlain : Entry → Type 0
IsPlain (variable x) = Unit
IsPlain (terminal a) = Unit
IsPlain (sequence s) = ⊥

first-IsPlain : (w : Word) (l : Entry) → first (iterate w) ≡ some l → IsPlain l
unfolding iterate
first-IsPlain [] l h = absurd cc
first-IsPlain (variable x ∷ w) (variable y) h = tt
first-IsPlain (variable x ∷ w) (terminal y) h = tt
first-IsPlain (variable x ∷ w) (sequence y) h = absurd cc
first-IsPlain (terminal x ∷ w) (variable y) h = tt
first-IsPlain (terminal x ∷ w) (terminal y) h = tt
first-IsPlain (terminal x ∷ w) (sequence y) h = absurd cc
first-IsPlain (sequence [] ∷ w) l h = first-IsPlain w l h
first-IsPlain (sequence (a ∷ s) ∷ w) (variable y) h = tt
first-IsPlain (sequence (a ∷ s) ∷ w) (terminal y) h = tt
first-IsPlain (sequence (a ∷ s) ∷ w) (sequence y) h = absurd cc

pub both-some :
    {l r : Entry} (a b : Option Entry) → both a b ≡ some (l, r) → (a ≡ some l) × (b ≡ some r)
both-some none b h = absurd cc
both-some (some x) none h = absurd cc
both-some (some x) (some y) h = (cc, cc)

at_front-first :
    (e : Equation) (l r : Entry)
    → at_front e ≡ some (l, r)
    → (first (iterate e.lhs) ≡ some l) × (first (iterate e.rhs) ≡ some r)
unfolding at_front
at_front-first e l r h = elim (Bool-cases (ltb (characters e.lhs) 1 || ltb (characters e.rhs) 1)) [
  | inl g ↦ absurd (let k : none ≡ some (l, r) = sym (rw g refl) ∙ h in cc)
  | inr g ↦ both-some _ _ (sym (rw g refl) ∙ h)
]

by_entries :
    (σ : Assignment) (e : Equation) (l r : Entry) (s t : List ℕ)
    → at_front e ≡ some (l, r)
    → IsPlain l
    → IsPlain r
    → l ≢ r
    → entry_value σ l ++ s ≡ entry_value σ r ++ t
    → ExplainedAtFront σ e
by_entries σ e (variable x) (variable y) s t h p q d k =
    variables_explained σ e x y s t h (λ c. d (ap variable c)) k
by_entries σ e (variable x) (terminal a) s t h p q d k = left_explained σ e x a (σ x) s t h refl k
by_entries σ e (terminal a) (variable x) s t h p q d k = right_explained σ e x a (σ x) s t h refl k
by_entries σ e (terminal a) (terminal b) s t h p q d k = absurd (d cc)
by_entries σ e (sequence u) r s t h p q d k = absurd p
by_entries σ e l (sequence u) s t h p q d k = absurd q

-- Where the sides begin with different entries, each solution is explained by a rule at the front.
pub front_explains :
    (σ : Assignment) (e : Equation) (l r : Entry)
    → at_front e ≡ some (l, r)
    → l ≢ r
    → Holds σ e
    → ExplainedAtFront σ e
front_explains σ e l r h d k =
    let (fl, fr) = at_front-first e l r h in
    let (s, a) = first-value σ l (iterate e.lhs) fl in
    let (t, b) = first-value σ r (iterate e.rhs) fr in
    by_entries σ e l r s t h (first-IsPlain e.lhs l fl) (first-IsPlain e.rhs r fr) d
      (sym a ∙ value-iterate σ e.lhs ∙ k ∙ sym (value-iterate σ e.rhs) ∙ b)
