-- ===== src/Automaton/Build.antt =====
-- `regexToNfa` of libs/solvers/satencoding/regular/nfa.cpp. Where the source reads child 0 of a star
-- without children, the result is `none`. The assertions on the tables of reachability and lengths are
-- left out with the tables.
use woorpje.Common.{ℕ, zero, suc, ◌+◌, Option, none, some, List, [], ◌∷◌, ◌++◌, ◌==◌, if◌then◌else◌}
use woorpje.Members.{mem}
use mathlib.Core.List.{map}
use woorpje.Regex.Defs.{
  RegNode, Children, reg_empty, reg_word, operation, union, concat, star, none_left, child,
}
use woorpje.Automaton.Defs.{
  letter, Nfa, ◌>>=◌, started, new_state, new_states, add_final_state, add_transition,
  add_eps_transition, add_transitions, add_eps_transitions, offset_delta, offset_delta_epsilon,
  is_nil,
}

-- A word: one state more for each character.
unfoldable pub word_loop : List ℕ → ℕ → Nfa → Option Nfa
unfolding add_final_state add_transition
word_loop [] q_src m = add_final_state q_src m
word_loop (c ∷ u) q_src m =
    add_transition (q_src, letter c, m.num_states) (new_state m) >>= word_loop u m.num_states

-- The new states of a part, with its transitions.
unfoldable pub put_behind : Nfa → Nfa → Option Nfa
unfolding new_states add_transitions add_eps_transitions offset_delta offset_delta_epsilon
put_behind sub m =
    add_transitions (offset_delta m.num_states sub) (new_states sub.num_states m)
    >>= add_eps_transitions (offset_delta_epsilon m.num_states sub)

-- The loop over the part's states `i`, `i + 1`, and so many more: `enter` at the initial one, and the
-- final ones behind `fs`.
unfoldable pub visit_states :
    (ℕ → Nfa → Option Nfa) → Nfa → ℕ → ℕ → ℕ → Nfa → List ℕ → Option (Nfa × List ℕ)
unfolding mem
visit_states enter sub off zero i m fs = some (m, fs)
visit_states enter sub off (suc count) i m fs =
    (if sub.init_state == i then enter (i + off) m else some m) >>= λ m'.
    visit_states enter sub off count (suc i) m'
      (if mem i sub.final_states then fs ++ (i + off) ∷ [] else fs)

-- One part of a concatenation, from the final states `qfs` of the parts before it.
unfoldable pub concat_part : Nfa → Nfa × List ℕ → Option (Nfa × List ℕ)
unfolding put_behind visit_states
concat_part sub (m, qfs) =
    if is_nil sub.delta
    then some (m, qfs)
    else put_behind sub m >>= λ m'.
        visit_states (λ q. add_eps_transitions (map (λ f. (f, q)) qfs)) sub m.num_states
          sub.num_states 0 m' []

-- One part of a union, behind the final states so far.
unfoldable pub union_part : Nfa → Nfa × List ℕ → Option (Nfa × List ℕ)
unfolding put_behind visit_states
union_part sub (m, old_qfs) = put_behind sub m >>= λ m'.
    visit_states (λ q. add_eps_transition (0, q)) sub m.num_states sub.num_states 0 m' old_qfs

-- The new final state.
unfoldable pub finish_nfa : Nfa × List ℕ → Option Nfa
unfolding add_final_state add_eps_transitions
finish_nfa (m, fs) =
    add_final_state m.num_states (new_state m)
    >>= add_eps_transitions (map (λ q. (q, m.num_states)) fs)

-- The loop of a star over the part's states, which sets `oldQ0` and `oldFs`.
unfoldable pub star_scan : Nfa → ℕ → ℕ → ℕ → ℕ → List ℕ → ℕ × List ℕ
unfolding mem
star_scan sub off zero i old_q0 old_fs = (old_q0, old_fs)
star_scan sub off (suc count) i old_q0 old_fs =
    star_scan sub off count (suc i) (if sub.init_state == i then i + off else old_q0)
      (if mem i sub.final_states then old_fs ++ (i + off) ∷ [] else old_fs)

unfoldable pub close_star : ℕ × List ℕ → Nfa → Option Nfa
unfolding add_final_state add_eps_transition add_eps_transitions
close_star (old_q0, old_fs) m = add_eps_transition (0, old_q0) m >>= λ m'.
    add_final_state m'.num_states (new_state m')
    >>= add_eps_transitions (map (λ q. (q, 0)) old_fs)
    >>= add_eps_transition (0, m'.num_states)

unfoldable pub star_nfa : Nfa → Option Nfa
unfolding new_states add_transitions add_eps_transitions offset_delta offset_delta_epsilon star_scan
    close_star
star_nfa sub =
    if is_nil sub.delta
    then some sub
    else add_eps_transitions (offset_delta_epsilon 1 sub) (new_states sub.num_states started)
      >>= add_transitions (offset_delta 1 sub)
      >>= close_star (star_scan sub 1 sub.num_states 0 0 [])

unfoldable mutual
  unfolding word_loop concat_part union_part finish_nfa star_nfa

  pub regex_to_nfa : RegNode → Option Nfa
  regex_to_nfa reg_empty = some started
  regex_to_nfa (reg_word u) = word_loop u 0 started
  regex_to_nfa (operation concat cs) = concat_parts cs (started, 0 ∷ []) >>= finish_nfa
  regex_to_nfa (operation star cs) = first_nfa cs >>= star_nfa
  regex_to_nfa (operation union cs) = union_parts cs (started, []) >>= finish_nfa

  pub concat_parts : Children → Nfa × List ℕ → Option (Nfa × List ℕ)
  concat_parts none_left s = some s
  concat_parts (child r cs) s = regex_to_nfa r >>= λ sub. (concat_part sub s >>= concat_parts cs)

  pub union_parts : Children → Nfa × List ℕ → Option (Nfa × List ℕ)
  union_parts none_left s = some s
  union_parts (child r cs) s = regex_to_nfa r >>= λ sub. (union_part sub s >>= union_parts cs)

  pub first_nfa : Children → Option Nfa
  first_nfa none_left = none
  first_nfa (child r cs) = regex_to_nfa r
