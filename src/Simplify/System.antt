-- ===== src/Simplify/System.antt =====
-- `SequenceSimplifier2` on the two reducers, as `PreSuffixReducer`, and `RunAllEq` on it, of
-- libs/solvers/pubinclude/solvers/simplifiers.hpp. `none` is out of fuel, as
-- in `Simplify.Defs`. The substitution that a call of `RunAllEq` leaves, that of the last equation, is
-- left out.
use woorpje.Common.{
  ◌≡◌, ◌↔◌, refl, ap, ◌∙◌, Bool, true, not, ◌&&◌, ◌||◌, Option, none, some, List, [], ◌∷◌, ◌++◌,
  if◌then◌else◌,
}
use mathlib.Core.Option
use woorpje.Word.Defs.{Entry, Word, Equation, contains_variable}
use woorpje.Word.Value.{Assignment}
use woorpje.Simplify.Defs.{
  Simplified, reduced_satis, just_reduced, reduced_nsatis, Substitution, Reduction, prefix_reduce,
  suffix_reduce,
}
use woorpje.Simplify.Ends.{Solves, IsRight, prefix_reduce-IsRight, suffix_reduce-IsRight}

-- The second simplifier runs where the first one has not decided, on a cleared substitution.
unfoldable pub then_suffix : Reduction → Option Reduction
unfolding suffix_reduce
then_suffix x = elim x.outcome [
  | just_reduced ↦ suffix_reduce x.lhs x.rhs [] x.cstr
  | reduced_satis ↦ some x
  | reduced_nsatis ↦ some x
]

abbrev pub and_then : Option Reduction → (Reduction → Option Reduction) → Option Reduction
and_then none f = none
and_then (some x) f = f x

unfoldable pub pre_suffix_reduce : Word → Word → Substitution → List Entry → Option Reduction
unfolding then_suffix prefix_reduce
pre_suffix_reduce l r s c = and_then (prefix_reduce l r s c) then_suffix

-- The loop over the equations: `ReducedNsatis` at once, or `eqs` and the constraints in `tmp`.
pub data Pass : Type 0 where
  rejected : Pass
  passed : List Equation → List Entry → Pass

abbrev pub put_equation : Reduction → Pass → Pass
put_equation x rejected = rejected
put_equation x (passed eqs tmp) = passed (record { lhs = x.lhs; rhs = x.rhs } ∷ eqs) (x.cstr ++ tmp)

abbrev pub put_constraints : Reduction → Pass → Pass
put_constraints x rejected = rejected
put_constraints x (passed eqs tmp) = passed eqs (x.cstr ++ tmp)

unfoldable pub by_result : Reduction → Option Pass → Option Pass
by_result x rest = elim x.outcome [
  | just_reduced ↦ Option.map (put_equation x) rest
  | reduced_nsatis ↦ some rejected
  | reduced_satis ↦ Option.map (put_constraints x) rest
]

abbrev pub after_equation : Option Reduction → Option Pass → Option Pass
after_equation none rest = none
after_equation (some x) rest = by_result x rest

unfoldable pub run_each : List Equation → Option Pass
unfolding pre_suffix_reduce by_result
run_each [] = some (passed [] [])
run_each (e ∷ es) = after_equation (pre_suffix_reduce e.lhs e.rhs [] []) (run_each es)

-- The loop over `tmp`: a variable that occurs in an equation is not unrestricted.
unfoldable pub is_free : Entry → List Equation → Bool
is_free v [] = true
is_free v (e ∷ eqs) = not (contains_variable v e.lhs || contains_variable v e.rhs) && is_free v eqs

unfoldable pub free_entries : List Equation → List Entry → List Entry
unfolding is_free
free_entries eqs [] = []
free_entries eqs (v ∷ tmp) =
    let rest = free_entries eqs tmp in if is_free v eqs then v ∷ rest else rest

-- `rejected`, or the new equations, `ReducedSatis` where there is none, and the constraints.
abbrev pub finish_pass : Pass → Pass
finish_pass rejected = rejected
finish_pass (passed eqs tmp) = passed eqs (free_entries eqs tmp)

unfoldable pub run_all_eq : List Equation → Option Pass
unfolding run_each free_entries
run_all_eq es = Option.map finish_pass (run_each es)

-- The reducers after one another.
then_suffix-IsRight :
    (l r : Word) (x : Reduction)
    → IsRight l r x
    → (y : Reduction) × (then_suffix x ≡ some y) × IsRight l r y
unfolding then_suffix
then_suffix-IsRight l r x h = by_outcome x.outcome h
  where
    through :
        (y : Reduction)
        → ((σ : Assignment) → Solves σ l r ↔ Solves σ x.lhs x.rhs)
        → IsRight x.lhs x.rhs y
        → IsRight l r y
    through y f k = along y.outcome k
      where
        along :
            (o : Simplified)
            → IsRight x.lhs x.rhs (record y { outcome = o })
            → IsRight l r (record y { outcome = o })
        along reduced_nsatis k = λ σ s. k σ ((f σ).0 s)
        along just_reduced k = λ σ. (λ s. (k σ).0 ((f σ).0 s), λ s. (f σ).1 ((k σ).1 s))
        along reduced_satis k = λ σ. (f σ).1 (k σ)

    by_outcome :
        (o : Simplified)
        → IsRight l r (record x { outcome = o })
        → (y : Reduction) × (then_suffix (record x { outcome = o }) ≡ some y) × IsRight l r y
    by_outcome reduced_nsatis k = (record x { outcome = reduced_nsatis }, refl, k)
    by_outcome reduced_satis k = (record x { outcome = reduced_satis }, refl, k)
    by_outcome just_reduced k =
        let (y, e, m) = suffix_reduce-IsRight x.lhs x.rhs [] x.cstr in (y, e, through y k m)

pub pre_suffix_reduce-IsRight :
    (l r : Word) (s : Substitution) (c : List Entry)
    → (x : Reduction) × (pre_suffix_reduce l r s c ≡ some x) × IsRight l r x
unfolding pre_suffix_reduce
pre_suffix_reduce-IsRight l r s c =
    let (x, e, h) = prefix_reduce-IsRight l r s c in
    let (y, d, k) = then_suffix-IsRight l r x h in (y, ap (λ z. and_then z then_suffix) e ∙ d, k)

abbrev pub SolvesAll : Assignment → List Equation → Type 0
SolvesAll σ [] = Unit
SolvesAll σ (e ∷ es) = Solves σ e.lhs e.rhs × SolvesAll σ es

abbrev pub PassIsRight : List Equation → Pass → Type 0
PassIsRight es rejected = (σ : Assignment) → ¬ SolvesAll σ es
PassIsRight es (passed eqs tmp) = (σ : Assignment) → SolvesAll σ es ↔ SolvesAll σ eqs

by_result-IsRight :
    (e : Equation) (es : List Equation) (x : Reduction) (p : Pass)
    → IsRight e.lhs e.rhs x
    → PassIsRight es p
    → (q : Pass) × (by_result x (some p) ≡ some q) × PassIsRight (e ∷ es) q
unfolding by_result
by_result-IsRight e es x p h k = by_outcome x.outcome p h k
  where
    by_outcome :
        (o : Simplified) (p : Pass)
        → IsRight e.lhs e.rhs (record x { outcome = o })
        → PassIsRight es p
        → (q : Pass) × (by_result (record x { outcome = o }) (some p) ≡ some q)
          × PassIsRight (e ∷ es) q
    by_outcome reduced_nsatis p h k = (rejected, refl, λ σ s. h σ s.0)
    by_outcome just_reduced rejected h k = (rejected, refl, λ σ s. k σ s.1)
    by_outcome just_reduced (passed eqs tmp) h k =
        (_, refl, λ σ. (λ s. ((h σ).0 s.0, (k σ).0 s.1), λ s. ((h σ).1 s.0, (k σ).1 s.1)))
    by_outcome reduced_satis rejected h k = (rejected, refl, λ σ s. k σ s.1)
    by_outcome reduced_satis (passed eqs tmp) h k =
        (_, refl, λ σ. (λ s. (k σ).0 s.1, λ s. (h σ, (k σ).1 s)))

run_each-IsRight : (es : List Equation) → (p : Pass) × (run_each es ≡ some p) × PassIsRight es p
unfolding run_each
run_each-IsRight [] = (passed [] [], refl, λ σ. (λ s. s, λ s. s))
run_each-IsRight (e ∷ es) =
    let (x, d, h) = pre_suffix_reduce-IsRight e.lhs e.rhs [] [] in
    let (p, f, k) = run_each-IsRight es in
    let (q, g, m) = by_result-IsRight e es x p h k in
    (q, ap (λ z. after_equation z (run_each es)) d ∙ ap (by_result x) f ∙ g, m)

-- `RunAllEq` on `PreSuffixReducer` ends on each system: where it rejects, no assignment solves the
-- system, and otherwise the new equations have the same solutions.
pub run_all_eq-IsRight :
    (es : List Equation) → (p : Pass) × (run_all_eq es ≡ some p) × PassIsRight es p
unfolding run_all_eq
run_all_eq-IsRight es =
    let (p, e, h) = run_each-IsRight es in
    (finish_pass p, ap (Option.map finish_pass) e, finished p h)
  where
    finished : (p : Pass) → PassIsRight es p → PassIsRight es (finish_pass p)
    finished rejected h = h
    finished (passed eqs tmp) h = h
