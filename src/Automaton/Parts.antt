-- ===== src/Automaton/Parts.antt =====
-- The parts of `regexToNfa`, as automata that are put behind one another, and the words that lead
-- through them.
use woorpje.Common.{
  ℕ, suc, ◌+◌, ◌<◌, ◌≡◌, sym, ap, ◌∙◌, false, some, List, [], ◌∷◌, ◌++◌, append-nil, arith,
}
use woorpje.Members.{In-map_inv}
use mathlib.Core.List.{map}
use woorpje.Automaton.Defs.{
  Nfa, ◌>>=◌, started, new_state, add_eps_transition, add_eps_transitions, is_nil,
}
use woorpje.Automaton.Reach.{IsInRange}
use woorpje.Automaton.Attach.{attached, AllBelow}
use woorpje.Automaton.Build.{visit_states, concat_part, union_part, finish_nfa}
use woorpje.Automaton.Steps.{
  PairsBelow, add_eps_transition_lem, add_eps_transitions_lem, add_final_state_lem, behind,
  put_behind_lem,
}
use woorpje.Automaton.Visit.{finals_from, visit_before}

-- The loops' automaton: in range, without final states, and its initial state is 0.
pub record IsOpen (m : Nfa) : Type 0 where
  pub in_range : IsInRange m
  pub starts : m.init_state ≡ 0
  pub no_final : m.final_states ≡ []

abbrev pub moved_finals : Nfa → Nfa → List ℕ
moved_finals m sub = finals_from sub m.num_states sub.num_states 0 []

bridge-PairsBelow :
    (m sub : Nfa) (qs : List ℕ)
    → IsInRange sub
    → AllBelow m.num_states qs
    → PairsBelow (m.num_states + sub.num_states) (map (λ q. (q, sub.init_state + m.num_states)) qs)
bridge-PairsBelow m sub qs hs hq p q i =
    let (f, k, d) = In-map_inv (λ z. (z, sub.init_state + m.num_states)) _ qs i in
    let b = hq f k in
    let c = hs.some_state in let x = ap (λ z. z.0) d in let y = ap (λ z. z.1) d in omega arith

pub concat_part_lem :
    (m sub : Nfa) (qs : List ℕ)
    → IsInRange sub
    → AllBelow m.num_states qs
    → is_nil sub.delta ≡ false
    → concat_part sub (m, qs) ≡ some (attached m sub qs, moved_finals m sub)
unfolding concat_part
concat_part_lem m sub qs hs hq h =
    let enter = λ (q : ℕ). add_eps_transitions (map (λ f. (f, q)) qs) in
    rw h (
      ap (λ z. z >>= λ m'. visit_states enter sub m.num_states sub.num_states 0 m' [])
        (put_behind_lem sub m hs)
      ∙ visit_before enter sub m.num_states sub.num_states 0 (behind m sub) (attached m sub qs) []
          (omega arith) (omega (arith, hs.some_state))
          (add_eps_transitions_lem (map (λ f. (f, sub.init_state + m.num_states)) qs) (behind m sub)
            (bridge-PairsBelow m sub qs hs hq)))

pub union_part_lem :
    (m sub : Nfa) (fs : List ℕ)
    → IsInRange sub
    → 0 < m.num_states
    → union_part sub (m, fs)
      ≡ some (attached m sub (0 ∷ []), finals_from sub m.num_states sub.num_states 0 fs)
unfolding union_part
union_part_lem m sub fs hs hq =
    let enter = λ (q : ℕ). add_eps_transition (0, q) in
    ap (λ z. z >>= λ m'. visit_states enter sub m.num_states sub.num_states 0 m' fs)
      (put_behind_lem sub m hs)
    ∙ visit_before enter sub m.num_states sub.num_states 0 (behind m sub) (attached m sub (0 ∷ []))
        fs (omega arith) (omega (arith, hs.some_state))
        (add_eps_transition_lem (behind m sub) 0 (sub.init_state + m.num_states) (omega arith)
          (omega (arith, hs.some_state)))

-- The last state is an automaton of its own.
abbrev pub finished : Nfa → List ℕ → Nfa
finished m fs = record (attached m started fs) { final_states = m.num_states ∷ [] }

pub same_nfa :
    (m : Nfa) (fs : List ℕ)
    → m.final_states ≡ []
    → record m {
      num_states = suc m.num_states;
      delta_epsilon = m.delta_epsilon ++ map (λ q. (q, m.num_states)) fs;
      final_states = m.final_states ++ m.num_states ∷ [];
    }
      ≡ finished m fs
same_nfa m fs h = λ i. record {
  num_states = one_more m.num_states i;
  delta = sym (append-nil m.delta) i;
  delta_epsilon = sym (append-nil m.delta_epsilon) i ++ map (λ q. (q, none_more m.num_states i)) fs;
  init_state = m.init_state;
  final_states = h i ++ m.num_states ∷ [];
}
  where
    one_more : (x : ℕ) → suc x ≡ x + 1
    one_more x = omega arith

    none_more : (x : ℕ) → x ≡ 0 + x
    none_more x = omega arith

pub finish_nfa_lem :
    (m : Nfa) (fs : List ℕ)
    → IsOpen m
    → AllBelow m.num_states fs
    → finish_nfa (m, fs) ≡ some (finished m fs)
unfolding finish_nfa
finish_nfa_lem m fs ho hq =
    let n = m.num_states in
    ap (λ z. z >>= add_eps_transitions (map (λ q. (q, n)) fs))
      (add_final_state_lem (new_state m) n (omega arith))
    ∙ add_eps_transitions_lem (map (λ q. (q, n)) fs) _ below
    ∙ ap some (same_nfa m fs ho.no_final)
  where
    below : PairsBelow (suc m.num_states) (map (λ q. (q, m.num_states)) fs)
    below p q i =
        let (f, k, d) = In-map_inv (λ z. (z, m.num_states)) _ fs i in
        let b = hq f k in let x = ap (λ z. z.0) d in let y = ap (λ z. z.1) d in omega arith
