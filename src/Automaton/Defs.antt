-- ===== src/Automaton/Defs.antt =====
-- The class `NFA` of libs/solvers/satencoding/regular/nfa.h and nfa.cpp. A `std::set` is a list of
-- which only the membership is read, and the map `delta`, of which each entry is a nonempty set, is
-- the list of its triples. `none` is the `runtime_error` of an unknown state. The tables
-- `minReachable`, `maxReachable`, `minrAbs` and `maxrAbs`, which no function here reads, are left out.
use woorpje.Common.{
  ℕ, zero, suc, ◌+◌, Bool, true, false, ◌&&◌, Option, none, some, List, [], ◌∷◌, ◌++◌, ◌==◌, ltb,
  if◌then◌else◌,
}
use mathlib.Core.List.{map}

-- The label of a transition: a terminal by its character, or the context's epsilon.
pub data Label : Type 0 where
  letter : ℕ → Label
  epsilon : Label

abbrev pub Transition : Type 0
Transition = ℕ × Label × ℕ

pub record Nfa : Type 0 where
  pub num_states : ℕ
  pub delta : List Transition
  pub delta_epsilon : List (ℕ × ℕ)
  pub init_state : ℕ
  pub final_states : List ℕ

infixl 5 ◌>>=◌
abbrev pub ◌>>=◌ {ℓ κ} : {A : Type ℓ} {B : Type κ} → Option A → (A → Option B) → Option B
none >>= f = none
some a >>= f = f a

-- `new_state` and `set_initial_state` on a new automaton.
abbrev pub started : Nfa
started = record {
  num_states = 1;
  delta = [];
  delta_epsilon = [];
  init_state = 0;
  final_states = [];
}

abbrev pub new_state : Nfa → Nfa
new_state m = record m { num_states = suc m.num_states }

unfoldable pub new_states : ℕ → Nfa → Nfa
new_states zero m = m
new_states (suc n) m = new_states n (new_state m)

unfoldable pub add_final_state : ℕ → Nfa → Option Nfa
add_final_state q m =
    if ltb q m.num_states then some (record m { final_states = m.final_states ++ q ∷ [] }) else none

unfoldable pub add_transition : Transition → Nfa → Option Nfa
add_transition (p, a, q) m =
    if ltb p m.num_states && ltb q m.num_states
    then some (record m { delta = m.delta ++ (p, a, q) ∷ [] })
    else none

unfoldable pub add_eps_transition : ℕ × ℕ → Nfa → Option Nfa
add_eps_transition (p, q) m =
    if ltb p m.num_states && ltb q m.num_states
    then some (record m { delta_epsilon = m.delta_epsilon ++ (p, q) ∷ [] })
    else none

-- The loops over transitions.
unfoldable pub add_transitions : List Transition → Nfa → Option Nfa
unfolding add_transition
add_transitions [] m = some m
add_transitions (t ∷ ts) m = add_transition t m >>= add_transitions ts

unfoldable pub add_eps_transitions : List (ℕ × ℕ) → Nfa → Option Nfa
unfolding add_eps_transition
add_eps_transitions [] m = some m
add_eps_transitions (t ∷ ts) m = add_eps_transition t m >>= add_eps_transitions ts

abbrev pub shift : ℕ → Transition → Transition
shift by (p, a, q) = (p + by, a, q + by)

abbrev pub shift_pair : ℕ → ℕ × ℕ → ℕ × ℕ
shift_pair by (p, q) = (p + by, q + by)

unfoldable pub offset_delta : ℕ → Nfa → List Transition
offset_delta by m = map (shift by) m.delta

unfoldable pub offset_delta_epsilon : ℕ → Nfa → List (ℕ × ℕ)
offset_delta_epsilon by m = map (shift_pair by) m.delta_epsilon

-- `delta.count(q)` and `deltaEpsilon.count(q)`, and the targets that the maps hold for `q`.
unfoldable pub transitions_of : ℕ → List Transition → List (Label × ℕ)
transitions_of q [] = []
transitions_of q ((p, a, r) ∷ ts) =
    let rest = transitions_of q ts in if p == q then (a, r) ∷ rest else rest

unfoldable pub epsilons_of : ℕ → List (ℕ × ℕ) → List ℕ
epsilons_of q [] = []
epsilons_of q ((p, r) ∷ ts) = let rest = epsilons_of q ts in if p == q then r ∷ rest else rest

abbrev pub is_nil {ℓ} : {A : Type ℓ} → List A → Bool
is_nil [] = true
is_nil _ = false
