-- ===== src/Automaton/Accept.antt =====
-- `epsilonClosure` and `accept` of libs/solvers/satencoding/regular/nfa.cpp. The closure is given fuel,
-- one more than there are states; `none` is out of fuel.
use woorpje.Common.{
  ℕ, zero, suc, Bool, true, false, ◌&&◌, ◌||◌, Option, none, some, List, [], ◌∷◌, ◌++◌, ◌==◌,
  if◌then◌else◌,
}
use woorpje.Members.{mem}
use woorpje.Word.Defs.{Entry, Word, terminal, iterate}
use woorpje.Automaton.Defs.{Label, letter, epsilon, Nfa, ◌>>=◌, transitions_of, epsilons_of, is_nil}

-- The closure, and what `ignoreStates` holds then.
abbrev pub Found : Type 0
Found = List ℕ × List ℕ

-- The loop over the targets, with the recursive call.
unfoldable pub visit_targets : (ℕ → List ℕ → Option Found) → List ℕ → List ℕ → List ℕ → Option Found
unfolding mem
visit_targets rec [] closure ignore = some (closure, ignore)
visit_targets rec (t ∷ ts) closure ignore = elim (mem t ignore) [
  | true ↦ visit_targets rec ts closure ignore
  | false ↦ rec t (t ∷ ignore) >>= λ r. visit_targets rec ts (closure ++ t ∷ r.0) r.1
]

unfoldable pub epsilon_closure : ℕ → Nfa → ℕ → List ℕ → Option Found
unfolding visit_targets transitions_of epsilons_of
epsilon_closure zero m q ignore = none
epsilon_closure (suc fuel) m q ignore =
    if is_nil (transitions_of q m.delta) && is_nil (epsilons_of q m.delta_epsilon)
    then some ([], ignore)
    else visit_targets (epsilon_closure fuel m) (epsilons_of q m.delta_epsilon) [] (q ∷ ignore)

unfoldable pub closure_of : Nfa → ℕ → Option Found
unfolding epsilon_closure
closure_of m q = epsilon_closure (suc m.num_states) m q []

-- The test on a label: its character, or the epsilon.
abbrev pub takes : Label → ℕ → Bool
takes (letter a) c = a == c
takes epsilon c = true

-- The transitions of one state.
unfoldable pub next_of : Nfa → ℕ → List (Label × ℕ) → Option (List ℕ)
unfolding closure_of
next_of m c [] = some []
next_of m c ((a, r) ∷ ts) = next_of m c ts >>= λ rest.
    if takes a c then (closure_of m r >>= λ f. some (r ∷ f.0 ++ rest)) else some rest

-- `succs`
unfoldable pub next_states : Nfa → ℕ → List ℕ → Option (List ℕ)
unfolding next_of
next_states m c [] = some []
next_states m c (q ∷ s) = next_of m c (transitions_of q m.delta) >>= λ here.
    (next_states m c s >>= λ rest. some (here ++ rest))

-- The last loop.
unfoldable pub some_member : List ℕ → List ℕ → Bool
unfolding mem
some_member [] s = false
some_member (q ∷ qs) s = mem q s || some_member qs s

unfoldable pub accept_loop : Nfa → List Entry → List ℕ → Option Bool
unfolding next_states some_member
accept_loop m [] s = some (some_member m.final_states s)
accept_loop m (terminal c ∷ w) s = next_states m c s >>= accept_loop m w
accept_loop m (_ ∷ w) s = some false

unfoldable pub accept : Nfa → Word → Option Bool
unfolding accept_loop closure_of iterate
accept m w = closure_of m m.init_state >>= λ f. accept_loop m (iterate w) (m.init_state ∷ f.0)
