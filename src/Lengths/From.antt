-- ===== src/Lengths/From.antt =====
-- `concat` and `fromExpression` of libs/solvers/satencoding/regular/rAbs.cpp. The libraries' gcd and lcm
-- are parameters. The cache of what an expression gave is left out. The numbers are not negative: the
-- one difference that the source lets go below 0, of a step that is 0 and the gcd, is a factor beside 0
-- there. A loop runs on fuel, a round for each number up to its limit and two more; `none` is out of fuel
-- or a child that is not there.
use Prim.Native.Nat.{◌/◌, ◌-◌, ◌*◌}
use woorpje.Common.{
  ℕ, zero, suc, ◌+◌, ◌&&◌, Option, none, some, List, [], ◌∷◌, ◌==◌, ltb, not, length, if◌then◌else◌,
}
use woorpje.Automaton.Defs.{◌>>=◌}
use woorpje.Regex.Defs.{
  RegNode, Children, reg_empty, reg_word, operation, union, concat, star, none_left, child,
}
use woorpje.Lengths.Defs.{Progressions, add_pair, merge_other}

-- `__gcd`, and boost's `gcd_range` and `lcm_range`.
pub record Divisors : Type 0 where
  pub gcd : ℕ → ℕ → ℕ
  pub gcd_range : List ℕ → ℕ
  pub lcm_range : List ℕ → ℕ

-- The inner loop: what is added for one `k1`, from `k2` on; `base` is the part of `k1`.
unfoldable pub add_row : ℕ → ℕ → ℕ → ℕ → ℕ → ℕ → Progressions → Option Progressions
add_row zero offset base step limit k ps = none
add_row (suc fuel) offset base step limit k ps =
    let added = add_pair (offset + base + step * k, 0) ps in
    let again = add_row fuel offset base step limit (suc k) added in
    if not (ltb limit (base + step * k))
    then if step * suc k == 0 then some added else again
    else some ps

-- The outer loop, from `k1` on.
unfoldable pub add_rows : ℕ → ℕ → ℕ → ℕ → ℕ → ℕ → Progressions → Option Progressions
unfolding add_row
add_rows zero offset step1 step2 limit k ps = none
add_rows (suc fuel) offset step1 step2 limit k ps =
    if ltb (step1 * k) limit
    then (add_row (suc (suc limit)) offset (step1 * k) step2 limit 0 ps >>= λ qs.
        if step1 * suc k == 0 then some qs else add_rows fuel offset step1 step2 limit (suc k) qs)
    else some ps

abbrev pub all_rows : ℕ → ℕ → ℕ → ℕ → Progressions → Option Progressions
all_rows offset step1 step2 limit ps = add_rows (suc (suc limit)) offset step1 step2 limit 0 ps

unfoldable pub all_consts : Progressions → List ℕ
all_consts [] = []
all_consts ((a, b) ∷ ps) = a ∷ b ∷ all_consts ps

module _ (ds : Divisors) where
  -- A pair of the left side and one of the right, not both of step 0.
  unfoldable pub concat_pair : ℕ × ℕ → ℕ × ℕ → Progressions → Option Progressions
  unfolding add_rows merge_other
  concat_pair (a1, b1) (a2, b2) result =
      let d = ds.gcd b1 b2 in
      let nu = (b1 - d) * (b2 - d) / d + a1 + a2 in
      all_rows (a1 + a2) b1 b2 (nu - 2 * d) [] >>= λ qs.
      some (merge_other (merge_other ((nu, d) ∷ []) qs) result)

  -- The loop over the right side, which stops where both steps are 0.
  unfoldable pub concat_each : ℕ × ℕ → Progressions → Progressions → Option Progressions
  unfolding concat_pair add_pair
  concat_each p [] result = some result
  concat_each p (q ∷ qs) result =
      if p.1 == 0 && q.1 == 0
      then some (add_pair (p.0 + q.0, 0) result)
      else (concat_pair p q result >>= λ r. concat_each p qs r)

  unfoldable pub concat_lengths : Progressions → Progressions → Progressions → Option Progressions
  unfolding concat_each
  concat_lengths [] rhs result = some result
  concat_lengths (p ∷ ps) rhs result = concat_each p rhs result >>= λ r. concat_lengths ps rhs r

  -- The loop of a star.
  unfoldable pub star_each : ℕ → Progressions → Progressions → Option Progressions
  unfolding add_rows
  star_each c [] aps = some aps
  star_each c ((a, b) ∷ ps) aps = all_rows 0 a b c aps >>= λ r. star_each c ps r

  unfoldable pub star_lengths : Progressions → Option Progressions
  unfolding star_each all_consts
  star_lengths sub =
      let c = ds.lcm_range (all_consts sub) in
      star_each c sub ((c, ds.gcd_range (all_consts sub)) ∷ [])

  unfoldable mutual
    unfolding concat_lengths star_lengths merge_other

    pub from_expression : RegNode → Option Progressions
    from_expression reg_empty = some []
    from_expression (reg_word u) = some ((length u, 0) ∷ [])
    from_expression (operation union cs) = from_union cs
    from_expression (operation concat cs) = from_concat cs
    from_expression (operation star none_left) = none
    from_expression (operation star (child r cs)) = from_expression r >>= λ sub. star_lengths sub

    pub from_union : Children → Option Progressions
    from_union none_left = none
    from_union (child r cs) = from_expression r >>= λ first. merge_rest cs first

    pub merge_rest : Children → Progressions → Option Progressions
    merge_rest none_left first = some first
    merge_rest (child r cs) first =
        from_expression r >>= λ next. merge_rest cs (merge_other next first)

    pub from_concat : Children → Option Progressions
    from_concat none_left = none
    from_concat (child l none_left) = none
    from_concat (child l (child r cs)) = from_expression l >>= λ left. concat_rest (child r cs) left

    pub concat_rest : Children → Progressions → Option Progressions
    concat_rest none_left left = some left
    concat_rest (child r cs) left = from_expression r >>= λ right.
        (concat_lengths left right [] >>= λ next. concat_rest cs next)
