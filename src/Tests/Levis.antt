-- ===== src/Tests/Levis.antt =====
-- Levi's rules: tests and instances.
use Prim.Native.Nat.{◌%◌}
use woorpje.Common.{
  ℕ, ◌⊎◌, ◌≤◌, length, ◌+◌, ◌<◌, ◌≡◌, ◌↔◌, refl, inl, true, List, [], ◌∷◌, ◌++◌, arith,
}
use mathlib.Core.List.{map}
use woorpje.Members.{In}
use woorpje.Word.Defs.{variable, terminal}
use woorpje.Levis.Rules.{
  Equation, at_front, front_rules, back_rules, prefix_letter_left_hand_side, propose,
}
use woorpje.Levis.Sequencer.{successors}
use woorpje.Levis.Satisfiable.{Satisfiable, Any}
use woorpje.Levis.Waiting.{
  SearchOrder, PassedWaiting, depth_first, breadth_first, new_waiting, insert, waiting_size,
  contains,
}
use woorpje.Levis.Insert.{IsDistinct}
use woorpje.Levis.Runs.{Run, constructed, inserted, pulled, Run_lem}
use woorpje.Levis.Single.{levis_iff}

-- Xb = ab
abbrev x_b : Equation
x_b = record { lhs = variable 0 ∷ terminal 98 ∷ []; rhs = terminal 97 ∷ terminal 98 ∷ [] }

letter_rule : prefix_letter_left_hand_side x_b ≡ (variable 0, terminal 97 ∷ variable 0 ∷ []) ∷ []
unfolding at_front propose
letter_rule = refl

levis_iff_example :
    Satisfiable (x_b ∷ []) ↔ Any Satisfiable (successors (front_rules ++ back_rules) x_b [])
unfolding at_front
levis_iff_example = levis_iff x_b [] (inl (variable 0, terminal 97, refl, λ h. cc))

-- Four hashes.
abbrev low_bits : ℕ → ℕ
low_bits x = x % 4

low_bits_small : (x : ℕ) → low_bits x < 4
low_bits_small x = omega arith

-- 5 and 9 have the same hash.
abbrev waiting_three : SearchOrder → PassedWaiting ℕ
waiting_three o = insert low_bits o 6 (insert low_bits o 9 (insert low_bits o 5 new_waiting))

by_depth : (waiting_three depth_first).queue ≡ 6 ∷ 5 ∷ []
unfolding insert
by_depth = refl

by_breadth : (waiting_three breadth_first).queue ≡ 5 ∷ 6 ∷ []
unfolding insert
by_breadth = refl

abbrev one_pulled : PassedWaiting ℕ
one_pulled = record { passed = 2 ∷ 1 ∷ []; queue = 6 ∷ [] }

abbrev one_result : List ℕ
one_result = 5 ∷ []

one_pulled-Run : Run low_bits breadth_first one_pulled one_result
unfolding insert
one_pulled-Run =
    pulled 5 (inserted 6 (inserted 9 (inserted 5 (constructed refl refl) refl) refl) refl) refl refl

Run_lem_example :
    IsDistinct (map low_bits one_result)
    × (length one_result + waiting_size one_pulled ≤ 4)
    × ((x : ℕ) → In x one_result ⊎ In x (6 ∷ []) → contains low_bits x one_pulled ≡ true)
Run_lem_example =
    Run_lem low_bits breadth_first 4 one_pulled one_result low_bits_small one_pulled-Run
