-- ===== src/Simplify/Selected.antt =====
-- `SubstitutionReasoningNew` of libs/solvers/pubinclude/solvers/simplifiers.hpp: the selected variable,
-- its word and the substitution.
use woorpje.Common.{
  ℕ, ◌≡◌, ◌↔◌, ◌⊎◌, inl, inr, refl, sym, ap, ◌∙◌, subst, Bool-cases, Option, none, some, List, [],
  ◌∷◌, ◌++◌, ◌==◌, append-nil, arith,
}
use mathlib.Core.Path.{fun_ext}
use woorpje.Word.Defs.{Word, Equation, variable, contains_variable, characters, same}
use woorpje.Word.Value.{Assignment, entry_value, value}
use woorpje.Word.Substitute.{substitude_variable, update, value-substitude_variable}
use woorpje.Simplify.Defs.{Substitution}
use woorpje.Simplify.Ends.{Solves}
use woorpje.Simplify.System.{SolvesAll}
use woorpje.Simplify.Constants.{fold_word-IsFolded}
use woorpje.Simplify.Reasoning.{
  candidate, select_variable, insert_word, substitute_words, push_back,
}

-- The words of a substitution are what the assignment gives the variables.
abbrev pub Meets : Assignment → Substitution → Type 0
Meets σ [] = Unit
Meets σ ((v, u) ∷ s) = (entry_value σ v ≡ value σ u) × Meets σ s

-- Where the variable has the value of the word, a substitution changes no value.
pub same_value :
    (σ : Assignment) (x : ℕ) (w u : Word)
    → σ x ≡ value σ w
    → value σ (substitude_variable (variable x) w u).0 ≡ value σ u
same_value σ x w u h = value-substitude_variable σ x w u ∙ ap (λ τ. value τ u) (fun_ext same_here)
  where
    same_here : (y : ℕ) → update σ x (value σ w) y ≡ σ y
    same_here y = elim (Bool-cases (y == x)) [
      | inl e ↦ (let d : y ≡ x = ground arith in rw e (sym h ∙ ap σ (sym d)))
      | inr e ↦ rw e refl
    ]

pub option_cases : {A : Type 0} (o : Option A) → (o ≡ none) ⊎ ((a : A) × (o ≡ some a))
option_cases none = inl refl
option_cases (some a) = inr (a, refl)

some_injective : {A : Type 0} {a b : A} → some a ≡ some b → a ≡ b
some_injective {A} {a} {b} h = ap (λ o. elim o [ none ↦ a | some c ↦ c ]) h

candidate_sound :
    (σ : Assignment) (l r : Word) (p : ℕ × Word)
    → candidate l r ≡ some p
    → Solves σ l r
    → σ p.0 ≡ value σ p.1
unfolding candidate value
candidate_sound σ [] r p h s = cc
candidate_sound σ (variable x ∷ []) r p h s = elim (Bool-cases (contains_variable (variable x) r)) [
  | inl e ↦ absurd (let k = rw e at h in cc)
  | inr e ↦
      (let k : some (x, r) ≡ some p = rw e at h in
        subst (λ q. σ q.0 ≡ value σ q.1) (some_injective k) (sym (append-nil (σ x)) ∙ s))
]
candidate_sound σ (variable x ∷ f ∷ l) r p h s = cc
candidate_sound σ (e ∷ l) r p h s = cc

pub select_variable_sound :
    (σ : Assignment) (e : Equation) (p : ℕ × Word)
    → select_variable e ≡ some p
    → Solves σ e.lhs e.rhs
    → σ p.0 ≡ value σ p.1
unfolding select_variable
select_variable_sound σ e p h s = elim (option_cases (candidate e.rhs e.lhs)) [
  | inl d ↦ candidate_sound σ e.lhs e.rhs p (rw (select_variable, d) at h) s
  | inr (q, d) ↦
      (let k : some q ≡ some p = rw (select_variable, d) at h in
        subst (λ q. σ q.0 ≡ value σ q.1) (some_injective k)
          (candidate_sound σ e.rhs e.lhs q d (sym s)))
]

pub SolvesAll-append :
    (σ : Assignment) (es fs : List Equation)
    → SolvesAll σ (es ++ fs) ↔ (SolvesAll σ es × SolvesAll σ fs)
SolvesAll-append σ [] fs = (λ h. (tt, h), λ h. h.1)
SolvesAll-append σ (e ∷ es) fs =
    let f = SolvesAll-append σ es fs in
    (λ h. ((h.0, (f.0 h.1).0), (f.0 h.1).1), λ (h, k). (h.0, f.1 (h.1, k)))

pub Meets-substitute_words :
    (σ : Assignment) (x : ℕ) (w : Word) (s : Substitution)
    → σ x ≡ value σ w
    → Meets σ s
    → Meets σ (substitute_words x w s)
unfolding substitute_words
Meets-substitute_words σ x w [] h m = tt
Meets-substitute_words σ x w ((v, u) ∷ s) h m =
    (m.0 ∙ sym (same_value σ x w u h), Meets-substitute_words σ x w s h m.1)

pub Meets-insert_word :
    (σ : Assignment) (x : ℕ) (w : Word) (s : Substitution)
    → σ x ≡ value σ w
    → Meets σ s
    → Meets σ (insert_word x w s)
unfolding insert_word
Meets-insert_word σ x w [] h m = (h, tt)
Meets-insert_word σ x w ((v, u) ∷ s) h m = elim (Bool-cases (same v (variable x))) [
  | inl e ↦ rw e m
  | inr e ↦ rw e (m.0, Meets-insert_word σ x w s h m.1)
]

pub SolvesAll-push_back :
    (σ : Assignment) (s : Substitution) → Meets σ s → SolvesAll σ (push_back s)
unfolding push_back value
SolvesAll-push_back σ [] m = tt
SolvesAll-push_back σ ((v, u) ∷ s) m = elim (Bool-cases (characters u == 0)) [
  | inl e ↦ rw e (SolvesAll-push_back σ s m.1)
  | inr e ↦ rw e (
    (fold_word-IsFolded (v ∷ [])).1 σ ∙ one_entry ∙ m.0 ∙ sym ((fold_word-IsFolded u).1 σ),
    SolvesAll-push_back σ s m.1,
  )
]
  where
    one_entry : value σ (v ∷ []) ≡ entry_value σ v
    one_entry = append-nil (entry_value σ v)
