-- ===== src/Regex/Measures/Bounds.antt =====
-- What the numbers say of the words of the language.
use woorpje.Common.{ℕ, ◌≤◌, ◌≡◌, inl, inr, List, length, length-append, arith}
use woorpje.Regex.Defs.{
  RegNode, Children, reg_empty, reg_word, operation, union, concat, star, none_left, child,
}
use woorpje.Regex.Lang.{Lang, LangSome, LangRow}
use woorpje.Regex.Measures.{
  smaller, larger, shortest_literal, shortest_of, sum_shortest, longest_literal, longest_of,
  sum_longest, num_stars, sum_stars,
}

shortest_of-le : (s : ℕ) (cs : Children) → shortest_of s cs ≤ s
unfolding shortest_literal
shortest_of-le s none_left = omega arith
shortest_of-le s (child r cs) =
    let h = shortest_of-le (smaller s (shortest_literal r)) cs in ground arith

mutual
  unfolding shortest_literal

  shortest_bound : (r : RegNode) (w : List ℕ) → Lang r w → shortest_literal r ≤ length w
  shortest_bound reg_empty w h = omega arith
  shortest_bound (reg_word u) w h = rw h (omega arith)
  shortest_bound (operation union cs) w h = omega (arith, shortest_of-le 0 cs)
  shortest_bound (operation concat cs) w h = shortest_row cs w h
  shortest_bound (operation star cs) w h = omega arith

  shortest_row : (cs : Children) (w : List ℕ) → LangRow cs w → sum_shortest cs ≤ length w
  shortest_row none_left w h = omega arith
  shortest_row (child r cs) w (u, v, p, q, e) =
      rw e (omega (arith, shortest_bound r u p, shortest_row cs v q, length-append u v))

-- No word of the language is shorter than shortestLiteral says.
pub shortest_literal_bound : (r : RegNode) (w : List ℕ) → Lang r w → shortest_literal r ≤ length w
shortest_literal_bound r w h = shortest_bound r w h

le-longest_of : (l : ℕ) (cs : Children) → l ≤ longest_of l cs
unfolding longest_literal
le-longest_of l none_left = omega arith
le-longest_of l (child r cs) =
    let h = le-longest_of (larger l (longest_literal r)) cs in ground arith

mutual
  unfolding longest_literal num_stars

  longest_bound :
      (r : RegNode) (w : List ℕ) → num_stars r ≡ 0 → Lang r w → length w ≤ longest_literal r
  longest_bound reg_empty w z h = absurd h
  longest_bound (reg_word u) w z h = rw h (omega arith)
  longest_bound (operation union cs) w z h = longest_some 0 cs w z h
  longest_bound (operation concat cs) w z h = longest_row cs w z h
  longest_bound (operation star cs) w z h = absurd (omega (arith, z))

  longest_some :
      (l : ℕ) (cs : Children) (w : List ℕ)
      → sum_stars cs ≡ 0
      → LangSome cs w
      → length w ≤ longest_of l cs
  longest_some l none_left w z h = absurd h
  longest_some l (child r cs) w z (inl h) =
      let a = longest_bound r w (omega (arith, z)) h in
      let b = le-longest_of (larger l (longest_literal r)) cs in ground arith
  longest_some l (child r cs) w z (inr h) =
      longest_some (larger l (longest_literal r)) cs w (omega (arith, z)) h

  longest_row :
      (cs : Children) (w : List ℕ) → sum_stars cs ≡ 0 → LangRow cs w → length w ≤ sum_longest cs
  longest_row none_left w z h = rw h (omega arith)
  longest_row (child r cs) w z (u, v, p, q, e) =
      let a = longest_bound r u (omega (arith, z)) p in
      let b = longest_row cs v (omega (arith, z)) q in rw e (omega (arith, a, b, length-append u v))

-- Without a star, no word of the language is longer than longestLiteral says.
pub longest_literal_bound :
    (r : RegNode) (w : List ℕ) → num_stars r ≡ 0 → Lang r w → length w ≤ longest_literal r
longest_literal_bound r w z h = longest_bound r w z h
