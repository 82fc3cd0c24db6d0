-- ===== src/Levis/Satisfiable.antt =====
-- Solutions of a system of equations, and what a rule of libs/solvers/levis/rules.hpp is to say of one.
use woorpje.Common.{ℕ, ◌≡◌, ◌↔◌, ◌⊎◌, sym, ◌∙◌, inl, inr, List, [], ◌∷◌, subst}
use woorpje.Word.Defs.{Word, variable}
use woorpje.Word.Value.{Assignment, value}
use woorpje.Word.Substitute.{update, value-substitude_variable}
use woorpje.Simplify.Defs.{Substitution}
use woorpje.Levis.Rules.{Equation, Rule}
use woorpje.Levis.Sequencer.{substitute_equation, new_equations, successors, with_successor}

abbrev pub Holds : Assignment → Equation → Type 0
Holds σ e = value σ e.lhs ≡ value σ e.rhs

abbrev pub HoldsAll : Assignment → List Equation → Type 0
HoldsAll σ [] = Unit
HoldsAll σ (e ∷ es) = Holds σ e × HoldsAll σ es

abbrev pub Satisfiable : List Equation → Type 0
Satisfiable s = (σ : Assignment) × HoldsAll σ s

abbrev pub Any {ℓ} : {A : Type ℓ} → (A → Type 0) → List A → Type 0
Any P [] = ⊥
Any P (x ∷ xs) = P x ⊎ Any P xs

-- The assignment before the substitution of `to` for `x`.
abbrev pub before : Assignment → ℕ → Word → Assignment
before σ x to = update σ x (value σ to)

Holds-substitute :
    (σ : Assignment) (x : ℕ) (to : Word) (e : Equation)
    → Holds σ (substitute_equation (variable x) to e) ↔ Holds (before σ x to) e
Holds-substitute σ x to e =
    let l = value-substitude_variable σ x to e.lhs in
    let r = value-substitude_variable σ x to e.rhs in (λ h. sym l ∙ h ∙ r, λ h. l ∙ h ∙ sym r)

HoldsAll-new_equations :
    (σ : Assignment) (x : ℕ) (to : Word) (es : List Equation)
    → HoldsAll σ (new_equations ((variable x, to) ∷ []) es) ↔ HoldsAll (before σ x to) es
unfolding new_equations
HoldsAll-new_equations σ x to [] = (λ h. h, λ h. h)
HoldsAll-new_equations σ x to (e ∷ es) =
    let f = Holds-substitute σ x to e in
    let g = HoldsAll-new_equations σ x to es in (λ h. (f.0 h.0, g.0 h.1), λ h. (f.1 h.0, g.1 h.1))

-- A rule's result is empty, or one word for one variable.
abbrev pub IsSingle : Substitution → Type 0
IsSingle subs = (subs ≡ []) ⊎ ((x : ℕ) × (to : Word) × (subs ≡ (variable x, to) ∷ []))

abbrev pub AllSingle : List Rule → Equation → Type 0
AllSingle [] e = Unit
AllSingle (rule ∷ rules) e = IsSingle (rule e) × AllSingle rules e

with_successor_sound :
    (subs : Substitution) (e : Equation) (es : List Equation) (rest : List (List Equation))
    → IsSingle subs
    → (Any Satisfiable rest → Satisfiable (e ∷ es))
    → Any Satisfiable (with_successor subs e es rest)
    → Satisfiable (e ∷ es)
unfolding with_successor
with_successor_sound subs e es rest (inl none_given) k h =
    k (subst (λ z. Any Satisfiable (with_successor z e es rest)) none_given h)
with_successor_sound subs e es rest (inr (x, to, given)) k h =
    elim (subst (λ z. Any Satisfiable (with_successor z e es rest)) given h) [
      | inl (σ, a) ↦ (before σ x to, (HoldsAll-new_equations σ x to (e ∷ es)).0 a)
      | inr a ↦ k a
    ]

-- Where each rule gives one word for one variable at most, a solution of a successor gives one of the
-- system.
pub successors_sound :
    (rules : List Rule) (e : Equation) (es : List Equation)
    → AllSingle rules e
    → Any Satisfiable (successors rules e es)
    → Satisfiable (e ∷ es)
unfolding successors
successors_sound [] e es s h = absurd h
successors_sound (rule ∷ rules) e es (single, s) h =
    with_successor_sound (rule e) e es (successors rules e es) single
      (successors_sound rules e es s) h

-- The rule's result explains the assignment by another one.
abbrev pub Explains : Assignment → Substitution → Type 0
Explains σ subs =
    (x : ℕ) × (to : Word) × (τ : Assignment) × (subs ≡ (variable x, to) ∷ []) × (before τ x to ≡ σ)

with_successor_rest :
    (subs : Substitution) (e : Equation) (es : List Equation) (rest : List (List Equation))
    → Any Satisfiable rest
    → Any Satisfiable (with_successor subs e es rest)
unfolding with_successor
with_successor_rest [] e es rest h = h
with_successor_rest (x ∷ subs) e es rest h = inr h

-- A rule that explains a solution gives a successor that has a solution.
pub successors_complete :
    (rules : List Rule) (e : Equation) (es : List Equation) (σ : Assignment)
    → HoldsAll σ (e ∷ es)
    → Any (λ rule. Explains σ (rule e)) rules
    → Any Satisfiable (successors rules e es)
unfolding successors with_successor
successors_complete [] e es σ h a = absurd a
successors_complete (rule ∷ rules) e es σ h (inl (x, to, τ, given, back)) =
    subst (λ z. Any Satisfiable (with_successor z e es (successors rules e es))) (sym given)
      (inl (
        τ,
        (HoldsAll-new_equations τ x to (e ∷ es)).1 (subst (λ ρ. HoldsAll ρ (e ∷ es)) (sym back) h),
      ))
successors_complete (rule ∷ rules) e es σ h (inr a) =
    with_successor_rest (rule e) e es (successors rules e es) (successors_complete rules e es σ h a)
