-- ===== src/Levis/Sequencer.antt =====
-- `RuleSequencer` of libs/solvers/levis/rules.hpp: each rule is tried on the first equation, and the
-- handler gets the system under the rule's substitution until it answers true.
use woorpje.Common.{◌≡◌, sym, ◌∙◌, append-nil, append_assoc, Bool, true, false, List, [], ◌∷◌, ◌++◌}
use woorpje.Word.Defs.{Entry, Word}
use woorpje.Word.Substitute.{substitude_variable}
use woorpje.Simplify.Defs.{Substitution}
use woorpje.Levis.Rules.{Equation, Rule}

abbrev pub substitute_equation : Entry → Word → Equation → Equation
substitute_equation v w e = record {
  lhs = (substitude_variable v w e.lhs).0;
  rhs = (substitude_variable v w e.rhs).0;
}

-- The inner loop over `subs`, which changes `ee` on the way.
unfoldable pub substitute_each : Substitution → Equation → List Equation
substitute_each [] e = []
substitute_each ((v, w) ∷ subs) e =
    let e' = substitute_equation v w e in e' ∷ substitute_each subs e'

-- `newEquations`
unfoldable pub new_equations : Substitution → List Equation → List Equation
unfolding substitute_each
new_equations subs [] = []
new_equations subs (e ∷ es) = substitute_each subs e ++ new_equations subs es

-- `St` is what the handler changes, and `handle` its answer; the equations of `s`, of which the first
-- is `e`, are all that the sequencer reads of an `Options`.
module _ {St : Type 0}
    (handle : St → List Equation → List Equation → Substitution → St × Bool) where
  -- The call of the handler, and the further rules where it answers false.
  abbrev pub unless_handled : St × Bool → (St → St) → St
  unless_handled (st, true) further = st
  unless_handled (st, false) further = further st

  -- A rule's result: nothing, or a call of the handler.
  unfoldable pub after_rule : Substitution → Equation → List Equation → (St → St) → St → St
  unfolding new_equations
  after_rule [] e es further st = further st
  after_rule (x ∷ subs) e es further st =
      unless_handled (handle st (e ∷ es) (new_equations (x ∷ subs) (e ∷ es)) (x ∷ subs)) further

  unfoldable pub run_rules : List Rule → Equation → List Equation → St → St
  unfolding after_rule
  run_rules [] e es st = st
  run_rules (first ∷ rules) e es st = after_rule (first e) e es (run_rules rules e es) st

-- The systems that the rules make, in their order.
unfoldable pub with_successor :
    Substitution → Equation → List Equation → List (List Equation) → List (List Equation)
unfolding new_equations
with_successor [] e es rest = rest
with_successor (x ∷ subs) e es rest = new_equations (x ∷ subs) (e ∷ es) ∷ rest

unfoldable pub successors : List Rule → Equation → List Equation → List (List Equation)
unfolding with_successor
successors [] e es = []
successors (first ∷ rules) e es = with_successor (first e) e es (successors rules e es)

-- A handler that keeps each system and never answers true.
abbrev pub collect :
    List (List Equation)
    → List Equation
    → List Equation
    → Substitution
    → List (List Equation) × Bool
collect seen from to subs = (seen ++ to ∷ [], false)

after_rule-collect :
    (subs : Substitution) (e : Equation) (es : List Equation) (seen rest : List (List Equation))
    (further : List (List Equation) → List (List Equation))
    → ((st : List (List Equation)) → further st ≡ st ++ rest)
    → after_rule collect subs e es further seen ≡ seen ++ with_successor subs e es rest
unfolding after_rule with_successor
after_rule-collect [] e es seen rest further h = h seen
after_rule-collect (x ∷ subs) e es seen rest further h =
    let new = new_equations (x ∷ subs) (e ∷ es) in
    h (seen ++ new ∷ []) ∙ append_assoc seen (new ∷ []) rest

-- With a handler that never answers true the sequencer makes each successor, in the order of the
-- rules.
pub run_rules-collect :
    (rules : List Rule) (e : Equation) (es : List Equation) (seen : List (List Equation))
    → run_rules collect rules e es seen ≡ seen ++ successors rules e es
unfolding run_rules successors
run_rules-collect [] e es seen = sym (append-nil seen)
run_rules-collect (rule ∷ rules) e es seen =
    after_rule-collect (rule e) e es seen (successors rules e es) (run_rules collect rules e es)
      (run_rules-collect rules e es)
