-- ===== src/Automaton/Remove.antt =====
-- `removeEpsilonTransitions` of libs/solvers/satencoding/regular/nfa.cpp.
use woorpje.Common.{ℕ, zero, suc, Option, some, List, [], ◌∷◌, if◌then◌else◌}
use woorpje.Members.{mem}
use mathlib.Core.List.{map}
use woorpje.Automaton.Defs.{
  Nfa, Label, Transition, ◌>>=◌, add_final_state, add_transitions, transitions_of, is_nil,
}
use woorpje.Automaton.Accept.{closure_of}

-- `q-a->q'` where `qe-a->q'`.
abbrev pub skipping : ℕ → List (Label × ℕ) → List Transition
skipping q = map (λ (a, r). (q, a, r))

-- One state of the closure of `q`.
unfoldable pub skip_one : ℕ → ℕ → Nfa → Option Nfa
unfolding mem add_final_state add_transitions transitions_of
skip_one q e m = (if mem e m.final_states then add_final_state q m else some m) >>= λ m'.
    add_transitions (skipping q (transitions_of e m'.delta)) m'

-- The loop over the closure of `q`.
unfoldable pub skip_each : ℕ → List ℕ → Nfa → Option Nfa
unfolding skip_one
skip_each q [] m = some m
skip_each q (e ∷ es) m = skip_one q e m >>= skip_each q es

-- The loop over the states `q`, `q + 1`, and so many more.
unfoldable pub skip_epsilons : ℕ → ℕ → Nfa → Option Nfa
unfolding skip_each closure_of
skip_epsilons zero q m = some m
skip_epsilons (suc count) q m =
    closure_of m q >>= λ f. (skip_each q f.0 m >>= skip_epsilons count (suc q))

unfoldable pub remove_epsilon_transitions : Nfa → Option Nfa
unfolding skip_epsilons
remove_epsilon_transitions m =
    if is_nil m.delta
    then some m
    else skip_epsilons m.num_states 0 m >>= λ m'. some (record m' { delta_epsilon = [] })
