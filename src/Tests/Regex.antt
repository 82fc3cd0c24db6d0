-- ===== src/Tests/Regex.antt =====
-- Regular expressions: tests and instances.
use woorpje.Common.{ℕ, ◌≤◌, ◌≡◌, refl, ◌↔◌, true, some, List, [], ◌∷◌, reverse}
use woorpje.Regex.Defs.{
  RegNode, reg_empty, reg_word, operation, union, concat, star, none_left, child, accepts_epsilon,
  any, is_empty, reverse_node,
}
use woorpje.Regex.Lang.{stop, more, Lang, IsWellFormed}
use woorpje.Regex.Derive.{pair, derivative}
use woorpje.Regex.Words.{accepts_epsilon_iff, Picks, any-Picks, is_empty_iff}
use woorpje.Regex.Reverse.{reverse_node_iff}
use woorpje.Regex.Derivative.Sound.{derivative_sound}
use woorpje.Regex.Flatten.{flatten}
use woorpje.Regex.Flatten.Language.{flatten_iff}
use woorpje.Regex.Measures.{shortest_literal}
use woorpje.Regex.Measures.Bounds.{shortest_literal_bound}
use woorpje.Regex.Strip.{RegConstraint, constraint, strip_prefix}
use woorpje.Regex.Strip.Sound.{Solves, strip_prefix_sound}
use woorpje.Word.Defs.{variable, terminal}
use woorpje.Word.Value.{value}
use woorpje.Regex.Derivative.Complete.{derivative_complete, derivative_loses, optional_then}
use woorpje.Regex.Derivative.Shape.{derivative-IsWellFormed}

abbrev word_ab : RegNode
word_ab = reg_word (97 ∷ 98 ∷ [])

-- (ab)*
abbrev ab_star : RegNode
ab_star = operation star (child word_ab none_left)

-- (a|eps), the union of a word and the empty word
abbrev optional_a : RegNode
optional_a = operation union (child (reg_word (97 ∷ [])) (child (reg_word []) none_left))

abbrev a_or_empty : RegNode
a_or_empty = operation union (child (reg_word (97 ∷ [])) (child reg_empty none_left))

derivative_star : derivative (97 ∷ []) ab_star ≡ pair (reg_word (98 ∷ [])) ab_star
unfolding derivative
derivative_star = refl

derivative_optional : derivative (97 ∷ []) (pair optional_a word_ab) ≡ word_ab
unfolding derivative accepts_epsilon
derivative_optional = refl

any_union : any a_or_empty ≡ some (97 ∷ [])
unfolding any
any_union = refl

accepts_epsilon_iff_example : (accepts_epsilon optional_a ≡ true) ↔ Lang optional_a []
accepts_epsilon_iff_example = accepts_epsilon_iff optional_a

any-Picks_example : Picks (Lang a_or_empty) (any a_or_empty)
any-Picks_example = any-Picks a_or_empty

is_empty_iff_example : (is_empty a_or_empty ≡ true) ↔ ((w : List ℕ) → ¬ Lang a_or_empty w)
is_empty_iff_example = is_empty_iff a_or_empty (tt, (tt, tt))

reverse_node_iff_example :
    Lang (reverse_node word_ab) (98 ∷ 97 ∷ []) ↔ Lang word_ab (reverse (98 ∷ 97 ∷ []))
reverse_node_iff_example = reverse_node_iff word_ab (98 ∷ 97 ∷ [])

derivative_sound_example : Lang ab_star (97 ∷ 98 ∷ [])
unfolding derivative
derivative_sound_example =
    derivative_sound 97 ab_star (98 ∷ []) (98 ∷ [], [], refl, ([], [], stop refl, refl, refl), refl)

derivative_complete_example : Lang (derivative (97 ∷ []) ab_star) (98 ∷ [])
derivative_complete_example =
    derivative_complete 97 ab_star (98 ∷ []) (tt, (tt, tt)) tt
      (more (97 ∷ 98 ∷ []) [] refl (stop refl) refl)

-- (a|eps)ab holds "ab", and its derivative by a lacks "b".
derivative_loses_example :
    Lang (optional_then 97 (98 ∷ [])) (97 ∷ 98 ∷ [])
    × (¬ Lang (derivative (97 ∷ []) (optional_then 97 (98 ∷ []))) (98 ∷ []))
derivative_loses_example = derivative_loses 97 (98 ∷ [])

derivative-IsWellFormed_example : IsWellFormed (derivative (97 ∷ []) (pair optional_a word_ab))
derivative-IsWellFormed_example =
    derivative-IsWellFormed (97 ∷ []) (pair optional_a word_ab) (tt, ((tt, (tt, tt)), (tt, tt)))

-- The concatenation of "a", the concatenation of "b" and "a", and a star of a star.
abbrev nested : RegNode
nested = operation concat (
    child (reg_word (97 ∷ [])) (
      child (pair (reg_word (98 ∷ [])) (reg_word (97 ∷ [])))
        (child (operation star (child ab_star none_left)) none_left)))

nested_flat : flatten nested ≡ pair (reg_word (97 ∷ 98 ∷ 97 ∷ [])) ab_star
unfolding flatten
nested_flat = refl

flatten_iff_example : Lang (flatten nested) (97 ∷ 98 ∷ 97 ∷ []) ↔ Lang nested (97 ∷ 98 ∷ 97 ∷ [])
flatten_iff_example =
    flatten_iff nested (tt, (tt, ((tt, (tt, (tt, tt))), ((tt, ((tt, (tt, tt)), tt)), tt))))
      (97 ∷ 98 ∷ 97 ∷ [])

shortest_literal_bound_example : shortest_literal word_ab ≤ 2
shortest_literal_bound_example = shortest_literal_bound word_ab (97 ∷ 98 ∷ []) refl

-- "aX" and "Xb" in (ab)*.
abbrev a_then_x : RegConstraint
a_then_x = constraint (terminal 97 ∷ variable 0 ∷ []) ab_star

abbrev x_then_b : RegConstraint
x_then_b = constraint (variable 0 ∷ terminal 98 ∷ []) ab_star

strip_prefix_sound_example : Solves (λ x. 98 ∷ []) a_then_x
unfolding strip_prefix value derivative
strip_prefix_sound_example =
    strip_prefix_sound (λ x. 98 ∷ []) a_then_x
      (98 ∷ [], [], refl, ([], [], stop refl, refl, refl), refl)
