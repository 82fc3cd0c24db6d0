-- ===== src/Simplify/Eliminate.antt =====
-- `SubstitutionReasoningNew` of libs/solvers/pubinclude/solvers/simplifiers.hpp against the solutions.
use woorpje.Common.{
  ℕ, zero, suc, ◌+◌, ◌≤◌, ◌≡◌, inl, inr, refl, sym, ap, ◌∙◌, subst, Option, none, some, List, [],
  ◌∷◌, ◌++◌, length, length-append, append_assoc, arith,
}
use woorpje.Word.Defs.{Word, Equation, variable}
use woorpje.Word.Value.{Assignment, value}
use woorpje.Word.Substitute.{substitude_variable}
use woorpje.Simplify.Defs.{
  Simplified, reduced_satis, just_reduced, reduced_nsatis, Substitution, Reduction,
}
use woorpje.Simplify.Ends.{Solves, IsRight}
use woorpje.Simplify.System.{SolvesAll}
use woorpje.Simplify.Reasoning.{
  select_variable, Replaced, conflict, replaced, by_reduction, both_some, insert_word,
  substitute_words, push_back, Reasoned, unsatisfied, reasoned, replace_each, reason_loop,
  substitution_reasoning,
}
use woorpje.Simplify.Selected.{
  Meets, same_value, option_cases, select_variable_sound, SolvesAll-append, Meets-substitute_words,
  Meets-insert_word, SolvesAll-push_back,
}

-- What the loop over the other equations leaves, where the variable has the value of the word.
abbrev IsReplaced : ℕ → Word → List Equation → Replaced → Type 0
IsReplaced x w es conflict = (σ : Assignment) → σ x ≡ value σ w → ¬ SolvesAll σ es
IsReplaced x w es (replaced eqs) =
    (length eqs ≤ length es)
    × ((σ : Assignment) → σ x ≡ value σ w → SolvesAll σ es → SolvesAll σ eqs)

-- What the loop and the last one leave: a system without a solution, or what follows from the old one.
abbrev pub IsReasoned : List Equation → Substitution → Reasoned → Type 0
IsReasoned es s unsatisfied = (σ : Assignment) → Meets σ s → ¬ SolvesAll σ es
IsReasoned es s (reasoned eqs s') =
    (σ : Assignment) → Meets σ s → SolvesAll σ es → SolvesAll σ eqs × Meets σ s'

by_reduction-IsReplaced :
    (x : ℕ) (w : Word) (e : Equation) (es : List Equation) (y : Reduction) (r : Replaced)
    → IsRight
        (substitude_variable (variable x) w e.lhs).0
        (substitude_variable (variable x) w e.rhs).0
        y
    → IsReplaced x w es r
    → IsReplaced x w (e ∷ es) (by_reduction y r)
by_reduction-IsReplaced x w e es y r h k = along y.outcome r h k
  where
    moved :
        (σ : Assignment)
        → σ x ≡ value σ w
        → Solves σ e.lhs e.rhs
        → Solves σ
            (substitude_variable (variable x) w e.lhs).0
            (substitude_variable (variable x) w e.rhs).0
    moved σ d s = same_value σ x w e.lhs d ∙ s ∙ sym (same_value σ x w e.rhs d)

    along :
        (o : Simplified) (r : Replaced)
        → IsRight
            (substitude_variable (variable x) w e.lhs).0
            (substitude_variable (variable x) w e.rhs).0
            (record y { outcome = o })
        → IsReplaced x w es r
        → IsReplaced x w (e ∷ es) (by_reduction (record y { outcome = o }) r)
    along reduced_nsatis r h k = λ σ d s. h σ (moved σ d s.0)
    along just_reduced conflict h k = λ σ d s. k σ d s.1
    along just_reduced (replaced eqs) h (l, k) =
        (omega arith, λ σ d s. ((h σ).0 (moved σ d s.0), k σ d s.1))
    along reduced_satis conflict h k = λ σ d s. k σ d s.1
    along reduced_satis (replaced eqs) h (l, k) = (omega arith, λ σ d s. k σ d s.1)

-- Under a selected variable the old system has the solutions of the replaced one.
reasoned_before :
    (before es : List Equation) (e : Equation) (s : Substitution) (p : ℕ × Word)
    (eqs : List Equation) (q : Reasoned)
    → select_variable e ≡ some p
    → ((σ : Assignment) → σ p.0 ≡ value σ p.1 → SolvesAll σ (before ++ es) → SolvesAll σ eqs)
    → IsReasoned eqs (insert_word p.0 p.1 (substitute_words p.0 p.1 s)) q
    → IsReasoned (before ++ e ∷ es) s q
reasoned_before before es e s p eqs q h k m = along q m
  where
    selected : (σ : Assignment) → SolvesAll σ (before ++ e ∷ es) → σ p.0 ≡ value σ p.1
    selected σ a = select_variable_sound σ e p h ((SolvesAll-append σ before (e ∷ es)).0 a).1.0

    others : (σ : Assignment) → SolvesAll σ (before ++ e ∷ es) → SolvesAll σ (before ++ es)
    others σ a =
        let b = (SolvesAll-append σ before (e ∷ es)).0 a in
        (SolvesAll-append σ before es).1 (b.0, b.1.1)

    met :
        (σ : Assignment)
        → σ p.0 ≡ value σ p.1
        → Meets σ s
        → Meets σ (insert_word p.0 p.1 (substitute_words p.0 p.1 s))
    met σ d m =
        Meets-insert_word σ p.0 p.1 (substitute_words p.0 p.1 s) d
          (Meets-substitute_words σ p.0 p.1 s d m)

    along :
        (q : Reasoned)
        → IsReasoned eqs (insert_word p.0 p.1 (substitute_words p.0 p.1 s)) q
        → IsReasoned (before ++ e ∷ es) s q
    along unsatisfied m = λ σ t a. m σ (met σ (selected σ a) t) (k σ (selected σ a) (others σ a))
    along (reasoned fs s') m =
        λ σ t a. m σ (met σ (selected σ a) t) (k σ (selected σ a) (others σ a))

conflict_before :
    (before es : List Equation) (e : Equation) (s : Substitution) (p : ℕ × Word)
    → select_variable e ≡ some p
    → ((σ : Assignment) → σ p.0 ≡ value σ p.1 → ¬ SolvesAll σ (before ++ es))
    → IsReasoned (before ++ e ∷ es) s unsatisfied
conflict_before before es e s p h k σ t a =
    let b = (SolvesAll-append σ before (e ∷ es)).0 a in
    k σ (select_variable_sound σ e p h b.1.0) ((SolvesAll-append σ before es).1 (b.0, b.1.1))

module _ (inner : Word → Word → Option Reduction)
    (right : (l r : Word) → (y : Reduction) × (inner l r ≡ some y) × IsRight l r y) where
  replace_each-IsReplaced :
      (x : ℕ) (w : Word) (es : List Equation)
      → (r : Replaced) × (replace_each inner x w es ≡ some r) × IsReplaced x w es r
  unfolding replace_each
  replace_each-IsReplaced x w [] = (replaced [], refl, (omega arith, λ σ d s. s))
  replace_each-IsReplaced x w (e ∷ es) =
      let (y, d, h) =
        right (substitude_variable (variable x) w e.lhs).0
          (substitude_variable (variable x) w e.rhs).0 in
      let (r, c, k) = replace_each-IsReplaced x w es in
      (
        by_reduction y r,
        ap (λ z. both_some z (replace_each inner x w es)) d ∙ ap (both_some (some y)) c,
        by_reduction-IsReplaced x w e es y r h k,
      )

  -- The rest of the loop behind the other equations.
  abbrev behind_replace : ℕ → ℕ × Word → Substitution → Option Replaced → Option Reasoned
  behind_replace fuel p s none = none
  behind_replace fuel p s (some conflict) = some unsatisfied
  behind_replace fuel p s (some (replaced eqs)) =
      reason_loop inner fuel [] eqs (insert_word p.0 p.1 (substitute_words p.0 p.1 s))

  -- The rest of the loop behind the search for a variable.
  abbrev behind_select :
      ℕ
      → List Equation
      → Equation
      → List Equation
      → Substitution
      → Option (ℕ × Word)
      → Option Reasoned
  behind_select fuel before e es s o = elim o [
    | none ↦ reason_loop inner (suc fuel) (before ++ e ∷ []) es s
    | some p ↦ behind_replace fuel p s (replace_each inner p.0 p.1 (before ++ es))
  ]

  reason_loop-IsReasoned :
      (fuel : ℕ) (before es : List Equation) (s : Substitution)
      → length before + length es ≤ fuel
      → (q : Reasoned) × (reason_loop inner fuel before es s ≡ some q)
        × IsReasoned (before ++ es) s q
  unfolding reason_loop
  reason_loop-IsReasoned fuel before [] s b = (
    reasoned (before ++ push_back s) s,
    refl,
    λ σ m h. (
      (SolvesAll-append σ before (push_back s)).1
          (((SolvesAll-append σ before []).0 h).0, SolvesAll-push_back σ s m),
      m,
    ),
  )
  reason_loop-IsReasoned zero before (e ∷ es) s b = absurd (omega arith)
  reason_loop-IsReasoned (suc fuel) before (e ∷ es) s b = elim (option_cases (select_variable e)) [
    | inl h ↦
        (let (q, d, k) =
            reason_loop-IsReasoned (suc fuel) (before ++ e ∷ []) es s
              (omega (arith, b, length-append before (e ∷ []))) in
          (
            q,
            ap (behind_select fuel before e es s) h ∙ d,
            subst (λ z. IsReasoned z s q) (append_assoc before (e ∷ []) es) k,
          ))
    | inr (p, h) ↦
        (let (r, d, k) = replace_each-IsReplaced p.0 p.1 (before ++ es) in
          let (q, c, m) =
            from_replaced p h (λ eqs t c. reason_loop-IsReasoned fuel [] eqs t c) r k in
          (q, ap (behind_select fuel before e es s) h ∙ ap (behind_replace fuel p s) d ∙ c, m))
  ]
    where
      from_replaced :
          (p : ℕ × Word)
          → select_variable e ≡ some p
          → ((eqs : List Equation) (t : Substitution)
              → 0 + length eqs ≤ fuel
              → (q : Reasoned) × (reason_loop inner fuel [] eqs t ≡ some q) × IsReasoned eqs t q)
          → (r : Replaced) → IsReplaced p.0 p.1 (before ++ es) r
          → (q : Reasoned) × (behind_replace fuel p s (some r) ≡ some q)
            × IsReasoned (before ++ e ∷ es) s q
      from_replaced p h again conflict k = (unsatisfied, refl, conflict_before before es e s p h k)
      from_replaced p h again (replaced eqs) (l, k) =
          let (q, d, m) =
            again eqs (insert_word p.0 p.1 (substitute_words p.0 p.1 s))
              (omega (arith, b, l, length-append before es)) in
          (q, d, reasoned_before before es e s p eqs q h k m)

-- Over a simplifier of equations that is right, SubstitutionReasoningNew ends on each system; where it
-- says that the system is unsatisfiable, no assignment that meets the given substitution solves the
-- system, and otherwise each one that does solves the new equations and meets the new substitution.
pub substitution_reasoning-IsReasoned :
    (inner : Word → Word → Option Reduction)
    → ((l r : Word) → (y : Reduction) × (inner l r ≡ some y) × IsRight l r y)
    → (es : List Equation) (s : Substitution)
    → (q : Reasoned) × (substitution_reasoning inner es s ≡ some q) × IsReasoned es s q
unfolding substitution_reasoning
substitution_reasoning-IsReasoned inner right es s =
    reason_loop-IsReasoned inner right (length es) [] es s (omega arith)
