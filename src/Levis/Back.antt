-- ===== src/Levis/Back.antt =====
-- The solutions of an equation against the rules of libs/solvers/levis/rules.hpp at its back.
use woorpje.Common.{
  ℕ, ◌≡◌, ◌≢◌, refl, sym, ap, ◌∙◌, true, false, inl, inr, none, some, List, [], ◌∷◌, ◌++◌,
  append-nil, reverse, reverse-append, reverse-reverse, ◌==◌, Bool-cases, arith, subst, ltb, ◌||◌,
}
use mathlib.Core.List.{map}
use woorpje.Word.Defs.{Entry, Word, variable, terminal, sequence, iterate, characters}
use woorpje.Word.Value.{Assignment, entry_value, value, value-append, value-iterate}
use woorpje.Word.Substitute.{update}
use woorpje.Levis.Rules.{
  Equation, propose, at_back, back_rules, first, two_variables, variable_left, variable_right,
}
use woorpje.Levis.Satisfiable.{Holds, Any, Explains}
use woorpje.Levis.Endings.{append-split_end, letter_end, same_letter}
use woorpje.Levis.Front.{before-update, value-nil, IsPlain, both-some}

value-pair_end :
    (σ : Assignment) (x y : ℕ) (z : List ℕ)
    → y ≢ x
    → value (update σ x z) (variable x ∷ variable y ∷ []) ≡ z ++ σ y
unfolding value
value-pair_end σ x y z h =
    let a : y == x ≡ false = ground arith in
    let b : x == x ≡ true = ground arith in rw (a, b) (ap (λ w. z ++ w) (append-nil (σ y)))

value-letter_end :
    (σ : Assignment) (x a : ℕ) (z : List ℕ)
    → value (update σ x z) (variable x ∷ terminal a ∷ []) ≡ z ++ a ∷ []
unfolding value
value-letter_end σ x a z = let b : x == x ≡ true = ground arith in rw b refl

abbrev ExplainedAtBack : Assignment → Equation → Type 0
ExplainedAtBack σ e = Any (λ rule. Explains σ (rule e)) back_rules

module _ (σ : Assignment) (e : Equation) where
  two_variables_explained :
      (x y : ℕ) (s t : List ℕ)
      → at_back e ≡ some (variable x, variable y)
      → x ≢ y
      → s ++ σ x ≡ t ++ σ y
      → ExplainedAtBack σ e
  unfolding propose
  two_variables_explained x y s t h d k = elim (append-split_end s (σ x) t (σ y) k) [
    | inl (z, c) ↦
        let v = value-pair_end σ x y z (λ q. d (sym q)) ∙ sym c in
        inl (x, _, update σ x z, ap (propose two_variables _) h, before-update σ x z _ v)
    | inr (z, c) ↦
        let v = value-pair_end σ y x z d ∙ sym c in
        inr (inl (y, _, update σ y z, ap (propose two_variables _) h, before-update σ y z _ v))
  ]

  variable_left_explained :
      (x a : ℕ) (s t : List ℕ)
      → at_back e ≡ some (variable x, terminal a)
      → s ++ σ x ≡ t ++ a ∷ []
      → ExplainedAtBack σ e
  unfolding propose
  variable_left_explained x a s t h k = elim (letter_end s (σ x) t a k) [
    | inl c ↦
        let b = before-update σ x [] [] (value-nil _ ∙ sym c) in
        inr (inr (inr (inl (x, [], update σ x [], ap (propose variable_left _) h, b))))
    | inr (z, c) ↦
        let b = before-update σ x z _ (value-letter_end σ x a z ∙ sym c) in
        inr (inr (inr (inr (inr (inl (x, _, update σ x z, ap (propose variable_left _) h, b))))))
  ]

  variable_right_explained :
      (x a : ℕ) (s t : List ℕ)
      → at_back e ≡ some (terminal a, variable x)
      → t ++ σ x ≡ s ++ a ∷ []
      → ExplainedAtBack σ e
  unfolding propose
  variable_right_explained x a s t h k = elim (letter_end t (σ x) s a k) [
    | inl c ↦
        let b = before-update σ x [] [] (value-nil _ ∙ sym c) in
        inr (inr (inr (inr (inl (x, [], update σ x [], ap (propose variable_right _) h, b)))))
    | inr (z, c) ↦
        let b = before-update σ x z _ (value-letter_end σ x a z ∙ sym c) in
        inr (
          inr
            (inr (inr (inr (inr (inl (x, _, update σ x z, ap (propose variable_right _) h, b)))))))
  ]

-- The iterator gives no sequence.
abbrev AllPlain : List Entry → Type 0
AllPlain [] = Unit
AllPlain (e ∷ es) = IsPlain e × AllPlain es

AllPlain-append : (es fs : List Entry) → AllPlain es → AllPlain fs → AllPlain (es ++ fs)
AllPlain-append [] fs h k = k
AllPlain-append (e ∷ es) fs h k = (h.0, AllPlain-append es fs h.1 k)

AllPlain-terminals : (s : List ℕ) → AllPlain (map terminal s)
AllPlain-terminals [] = tt
AllPlain-terminals (a ∷ s) = (tt, AllPlain-terminals s)

iterate-AllPlain : (w : Word) → AllPlain (iterate w)
unfolding iterate
iterate-AllPlain [] = tt
iterate-AllPlain (variable x ∷ w) = (tt, iterate-AllPlain w)
iterate-AllPlain (terminal a ∷ w) = (tt, iterate-AllPlain w)
iterate-AllPlain (sequence s ∷ w) =
    AllPlain-append (map terminal s) (iterate w) (AllPlain-terminals s) (iterate-AllPlain w)

-- A list of which the reverse begins with an entry ends with it.
last_lem :
    (es : List Entry) (l : Entry)
    → first (reverse es) ≡ some l
    → (fs : List Entry) × (es ≡ fs ++ l ∷ [])
last_lem es l h = by_reverse (reverse es) refl h
  where
    by_reverse :
        (rs : List Entry)
        → reverse es ≡ rs
        → first rs ≡ some l
        → (fs : List Entry) × (es ≡ fs ++ l ∷ [])
    by_reverse [] e k = absurd cc
    by_reverse (x ∷ rs) e k =
        let f : x ≡ l = cc in
        (
          reverse rs,
          sym (reverse-reverse es)
              ∙ ap reverse e
              ∙ reverse-append (x ∷ []) rs
              ∙ ap (λ y. reverse rs ++ y ∷ []) f,
        )

-- The last entry of a word's iterator ends the word's value.
last-value :
    (σ : Assignment) (w : Word) (l : Entry)
    → first (reverse (iterate w)) ≡ some l
    → (s : List ℕ) × IsPlain l × (value σ w ≡ s ++ entry_value σ l)
unfolding value
last-value σ w l h =
    let (fs, e) = last_lem (iterate w) l h in
    (
      value σ fs,
      last_plain fs (subst AllPlain e (iterate-AllPlain w)),
      sym (value-iterate σ w)
          ∙ ap (value σ) e
          ∙ value-append σ fs (l ∷ [])
          ∙ ap (λ z. value σ fs ++ z) (append-nil (entry_value σ l)),
    )
  where
    last_plain : (fs : List Entry) → AllPlain (fs ++ l ∷ []) → IsPlain l
    last_plain [] h = h.0
    last_plain (f ∷ fs) h = last_plain fs h.1

at_back-first :
    (e : Equation) (l r : Entry)
    → at_back e ≡ some (l, r)
    → (first (reverse (iterate e.lhs)) ≡ some l) × (first (reverse (iterate e.rhs)) ≡ some r)
unfolding at_back
at_back-first e l r h = elim (Bool-cases (ltb (characters e.lhs) 1 || ltb (characters e.rhs) 1)) [
  | inl g ↦ absurd (let k : none ≡ some (l, r) = sym (rw g refl) ∙ h in cc)
  | inr g ↦ both-some _ _ (sym (rw g refl) ∙ h)
]

by_last :
    (σ : Assignment) (e : Equation) (l r : Entry) (s t : List ℕ)
    → at_back e ≡ some (l, r)
    → IsPlain l
    → IsPlain r
    → l ≢ r
    → s ++ entry_value σ l ≡ t ++ entry_value σ r
    → ExplainedAtBack σ e
by_last σ e (variable x) (variable y) s t h p q d k =
    two_variables_explained σ e x y s t h (λ c. d (ap variable c)) k
by_last σ e (variable x) (terminal a) s t h p q d k = variable_left_explained σ e x a s t h k
by_last σ e (terminal a) (variable x) s t h p q d k = variable_right_explained σ e x a s t h (sym k)
by_last σ e (terminal a) (terminal b) s t h p q d k =
    absurd (d (ap terminal (same_letter s t a b k)))
by_last σ e (sequence u) r s t h p q d k = absurd p
by_last σ e l (sequence u) s t h p q d k = absurd q

-- Where the sides end with different entries, each solution is explained by a rule at the back.
pub back_explains :
    (σ : Assignment) (e : Equation) (l r : Entry)
    → at_back e ≡ some (l, r)
    → l ≢ r
    → Holds σ e
    → ExplainedAtBack σ e
back_explains σ e l r h d k =
    let (fl, fr) = at_back-first e l r h in
    let (s, p, a) = last-value σ e.lhs l fl in
    let (t, q, b) = last-value σ e.rhs r fr in by_last σ e l r s t h p q d (sym a ∙ k ∙ b)
