-- ===== src/Tests/Automaton.antt =====
-- Automata: tests and instances.
use woorpje.Common.{ℕ, ◌≡◌, ◌↔◌, inl, inr, refl, ap, Bool, true, false, some, List, [], ◌∷◌, arith}
use woorpje.Members.{In}
use woorpje.Regex.Defs.{
  RegNode, reg_empty, reg_word, operation, union, concat, star, none_left, child,
}
use woorpje.Regex.Lang.{Lang}
use woorpje.Automaton.Defs.{Nfa, letter, ◌>>=◌}
use woorpje.Automaton.Reach.{Reach, Accepts, IsInRange}
use woorpje.Automaton.Build.{regex_to_nfa}
use woorpje.Automaton.Accept.{Found, closure_of, accept}
use woorpje.Automaton.Remove.{remove_epsilon_transitions}
use woorpje.Automaton.Proper.{Builds}
use woorpje.Automaton.Thompson.{regex_to_nfa-Builds}
use woorpje.Automaton.Closure.{closure_of_lem}
use woorpje.Automaton.Tracking.{constant_word, accept_lem}
use woorpje.Automaton.Epsilon.{
  IsReduced, remove_epsilon_transitions-Accepts, accept-remove_epsilon_transitions,
}
use woorpje.Automaton.Empty.{regex_to_nfa-empty_part}

abbrev letters_ab : RegNode
letters_ab = reg_word (97 ∷ 98 ∷ [])

-- (ab)*
abbrev rounds_ab : RegNode
rounds_ab = operation star (child letters_ab none_left)

-- (ab)*|b
abbrev rounds_or_b : RegNode
rounds_or_b = operation union (child rounds_ab (child (reg_word (98 ∷ [])) none_left))

abbrev text_abab : List ℕ
text_abab = 97 ∷ 98 ∷ 97 ∷ 98 ∷ []

-- A letter from 0 to 1, and back to 0 and on to 2 without one.
abbrev back_and_on : Nfa
back_and_on = record {
  num_states = 3;
  delta = (0, letter 97, 1) ∷ [];
  delta_epsilon = (1, 0) ∷ (1, 2) ∷ [];
  init_state = 0;
  final_states = 2 ∷ [];
}

back_and_on-IsInRange : IsInRange back_and_on
back_and_on-IsInRange = record {
  some_state = omega arith;
  finals_lt = λ q i. elim i [ inl e ↦ omega arith | inr e ↦ absurd e ];
  delta_lt = λ p q a i. elim i [
    | inl e ↦ (let x = ap (λ z. z.0) e in let y = ap (λ z. z.2) e in omega arith)
    | inr e ↦ absurd e
  ];
  epsilon_lt = λ p q i. elim i [
    | inl e ↦ (let x = ap (λ z. z.0) e in let y = ap (λ z. z.1) e in omega arith)
    | inr (inl e) ↦ (let x = ap (λ z. z.0) e in let y = ap (λ z. z.1) e in omega arith)
    | inr (inr e) ↦ absurd e
  ];
}

closure_of_one : closure_of back_and_on 1 ≡ some (0 ∷ 2 ∷ [], 2 ∷ 0 ∷ 0 ∷ 1 ∷ [])
unfolding closure_of
closure_of_one = refl

accepts_aa : accept back_and_on (constant_word (97 ∷ 97 ∷ [])) ≡ some true
unfolding accept
accepts_aa = refl

accepts_abab :
    (regex_to_nfa rounds_or_b >>= remove_epsilon_transitions >>= λ m.
    accept m (constant_word text_abab))
    ≡ some true
unfolding regex_to_nfa remove_epsilon_transitions accept
accepts_abab = refl

rejects_aba :
    (regex_to_nfa rounds_or_b >>= λ m. accept m (constant_word (97 ∷ 98 ∷ 97 ∷ []))) ≡ some false
unfolding regex_to_nfa accept
rejects_aba = refl

accept-remove_epsilon_transitions_example :
    (n : Nfa) × ((regex_to_nfa rounds_or_b >>= remove_epsilon_transitions) ≡ some n)
    × IsReduced n
    × ((b : Bool) × (accept n (constant_word text_abab) ≡ some b)
        × ((b ≡ true) ↔ Lang rounds_or_b text_abab))
accept-remove_epsilon_transitions_example =
    accept-remove_epsilon_transitions rounds_or_b text_abab (tt, ((tt, (tt, tt)), (tt, tt)))

regex_to_nfa-Builds_example : Builds (Lang rounds_or_b) (regex_to_nfa rounds_or_b)
regex_to_nfa-Builds_example = regex_to_nfa-Builds rounds_or_b (tt, ((tt, (tt, tt)), (tt, tt)))

remove_epsilon_transitions-Accepts_example :
    (n : Nfa) × (remove_epsilon_transitions back_and_on ≡ some n)
    × IsInRange n
    × IsReduced n
    × ((w : List ℕ) → Accepts n w ↔ Accepts back_and_on w)
remove_epsilon_transitions-Accepts_example =
    remove_epsilon_transitions-Accepts back_and_on back_and_on-IsInRange

accept_lem_example :
    (b : Bool) × (accept back_and_on (constant_word (97 ∷ 97 ∷ [])) ≡ some b)
    × ((b ≡ true) ↔ Accepts back_and_on (97 ∷ 97 ∷ []))
accept_lem_example = accept_lem back_and_on (97 ∷ 97 ∷ []) back_and_on-IsInRange

closure_of_lem_example :
    (r : Found) × (closure_of back_and_on 1 ≡ some r)
    × ((x : ℕ) → In x (1 ∷ r.0) ↔ Reach back_and_on 1 [] x)
closure_of_lem_example = closure_of_lem back_and_on 1 back_and_on-IsInRange

regex_to_nfa-empty_part_example :
    ¬ Lang (operation concat (child reg_empty (child letters_ab none_left))) (97 ∷ 98 ∷ [])
    × ((m : Nfa) × (regex_to_nfa (operation concat (child reg_empty (child letters_ab none_left)))
          ≡ some m)
        × (accept m (constant_word (97 ∷ 98 ∷ [])) ≡ some true))
regex_to_nfa-empty_part_example =
    regex_to_nfa-empty_part (child letters_ab none_left) (97 ∷ 98 ∷ []) (tt, tt)
      (97 ∷ 98 ∷ [], [], refl, refl, refl)
