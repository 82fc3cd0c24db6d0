-- ===== src/Automaton/Steps.antt =====
-- The loops of `regexToNfa` over transitions, and the automaton that they leave behind another one.
use woorpje.Common.{
  ℕ, zero, suc, ◌+◌, ◌<◌, ◌≡◌, inl, inr, refl, sym, ap, ◌∙◌, true, some, List, [], ◌∷◌, ◌++◌,
  append_assoc, append-nil, ltb, arith,
}
use woorpje.Members.{In, In-map_inv}
use mathlib.Core.List.{map}
use woorpje.Automaton.Defs.{
  Label, Transition, Nfa, ◌>>=◌, new_state, new_states, add_final_state, add_transition,
  add_eps_transition, add_transitions, add_eps_transitions, offset_delta, offset_delta_epsilon,
  shift, shift_pair,
}
use woorpje.Automaton.Reach.{IsInRange}
use woorpje.Automaton.Build.{put_behind}

abbrev pub TransitionsBelow : ℕ → List Transition → Type 0
TransitionsBelow n ts = (p q : ℕ) (a : Label) → In (p, a, q) ts → (p < n) × (q < n)

abbrev pub PairsBelow : ℕ → List (ℕ × ℕ) → Type 0
PairsBelow n ts = (p q : ℕ) → In (p, q) ts → (p < n) × (q < n)

pub add_transition_lem :
    (m : Nfa) (p : ℕ) (a : Label) (q : ℕ)
    → p < m.num_states
    → q < m.num_states
    → add_transition (p, a, q) m ≡ some (record m { delta = m.delta ++ (p, a, q) ∷ [] })
unfolding add_transition
add_transition_lem m p a q h k =
    let x : ltb p m.num_states ≡ true = ground arith in
    let y : ltb q m.num_states ≡ true = ground arith in rw (x, y) refl

pub add_eps_transition_lem :
    (m : Nfa) (p q : ℕ)
    → p < m.num_states
    → q < m.num_states
    → add_eps_transition (p, q) m
      ≡ some (record m { delta_epsilon = m.delta_epsilon ++ (p, q) ∷ [] })
unfolding add_eps_transition
add_eps_transition_lem m p q h k =
    let x : ltb p m.num_states ≡ true = ground arith in
    let y : ltb q m.num_states ≡ true = ground arith in rw (x, y) refl

pub add_final_state_lem :
    (m : Nfa) (q : ℕ)
    → q < m.num_states
    → add_final_state q m ≡ some (record m { final_states = m.final_states ++ q ∷ [] })
unfolding add_final_state
add_final_state_lem m q h = let x : ltb q m.num_states ≡ true = ground arith in rw x refl

pub add_transitions_lem :
    (ts : List Transition) (m : Nfa)
    → TransitionsBelow m.num_states ts
    → add_transitions ts m ≡ some (record m { delta = m.delta ++ ts })
unfolding add_transitions
add_transitions_lem [] m h = ap (λ z. some (record m { delta = z })) (sym (append-nil m.delta))
add_transitions_lem ((p, a, q) ∷ ts) m h =
    let (l, r) = h p q a (inl refl) in
    ap (λ z. z >>= add_transitions ts) (add_transition_lem m p a q l r)
    ∙ add_transitions_lem ts _ (λ p' q' a' i. h p' q' a' (inr i))
    ∙ ap (λ z. some (record m { delta = z })) (append_assoc m.delta ((p, a, q) ∷ []) ts)

pub add_eps_transitions_lem :
    (ts : List (ℕ × ℕ)) (m : Nfa)
    → PairsBelow m.num_states ts
    → add_eps_transitions ts m ≡ some (record m { delta_epsilon = m.delta_epsilon ++ ts })
unfolding add_eps_transitions
add_eps_transitions_lem [] m h =
    ap (λ z. some (record m { delta_epsilon = z })) (sym (append-nil m.delta_epsilon))
add_eps_transitions_lem ((p, q) ∷ ts) m h =
    let (l, r) = h p q (inl refl) in
    ap (λ z. z >>= add_eps_transitions ts) (add_eps_transition_lem m p q l r)
    ∙ add_eps_transitions_lem ts _ (λ p' q' i. h p' q' (inr i))
    ∙ ap (λ z. some (record m { delta_epsilon = z }))
        (append_assoc m.delta_epsilon ((p, q) ∷ []) ts)

pub new_states_lem : (n : ℕ) (m : Nfa) → new_states n m ≡ record m { num_states = m.num_states + n }
unfolding new_states
new_states_lem zero m = ap (λ z. record m { num_states = z }) (the_same m.num_states)
  where
    the_same : (x : ℕ) → x ≡ x + 0
    the_same x = omega arith
new_states_lem (suc n) m =
    new_states_lem n (new_state m) ∙ ap (λ z. record m { num_states = z }) (one_more m.num_states n)
  where
    one_more : (x y : ℕ) → suc x + y ≡ x + suc y
    one_more x y = omega arith

-- The transitions of a part, moved, name the new states.
pub shift-TransitionsBelow :
    (sub : Nfa) (off : ℕ)
    → IsInRange sub
    → TransitionsBelow (off + sub.num_states) (map (shift off) sub.delta)
shift-TransitionsBelow sub off h p q a i =
    let ((r', a', q'), k, d) = In-map_inv (shift off) _ sub.delta i in
    let b = h.delta_lt r' q' a' k in
    let x = ap (λ z. z.0) d in let y = ap (λ z. z.2) d in omega arith

pub shift_pair-PairsBelow :
    (sub : Nfa) (off : ℕ)
    → IsInRange sub
    → PairsBelow (off + sub.num_states) (map (shift_pair off) sub.delta_epsilon)
shift_pair-PairsBelow sub off h p q i =
    let ((r', q'), k, d) = In-map_inv (shift_pair off) _ sub.delta_epsilon i in
    let b = h.epsilon_lt r' q' k in
    let x = ap (λ z. z.0) d in let y = ap (λ z. z.1) d in omega arith

-- The first automaton with the second one behind it, before they are joined.
abbrev pub behind : Nfa → Nfa → Nfa
behind m sub = record m {
  num_states = m.num_states + sub.num_states;
  delta = m.delta ++ map (shift m.num_states) sub.delta;
  delta_epsilon = m.delta_epsilon ++ map (shift_pair m.num_states) sub.delta_epsilon;
}

pub put_behind_lem : (sub m : Nfa) → IsInRange sub → put_behind sub m ≡ some (behind m sub)
unfolding put_behind offset_delta offset_delta_epsilon
put_behind_lem sub m h =
    let off = m.num_states in
    ap
      (λ z.
        add_transitions (map (shift off) sub.delta) z
        >>= add_eps_transitions (map (shift_pair off) sub.delta_epsilon))
      (new_states_lem sub.num_states m)
    ∙ ap (λ z. z >>= add_eps_transitions (map (shift_pair off) sub.delta_epsilon))
        (add_transitions_lem (map (shift off) sub.delta) _ (shift-TransitionsBelow sub off h))
    ∙ add_eps_transitions_lem (map (shift_pair off) sub.delta_epsilon) _
        (shift_pair-PairsBelow sub off h)
