-- ===== src/Lengths/Total.antt =====
-- `fromExpression` of libs/solvers/satencoding/regular/rAbs.cpp ends, and faults on no expression that is
-- well formed.
use Prim.Native.Nat.{◌*◌}
use native.Mathlib.Omega.{arith}
use woorpje.Common.{
  ℕ, zero, suc, ◌+◌, ◌<◌, ◌≤◌, ◌≡◌, inl, inr, refl, ap, ◌∙◌, false, Bool-cases, ◌&&◌, Option, some,
  [], ◌∷◌, ◌==◌, ltb,
}
use woorpje.Automaton.Defs.{◌>>=◌}
use woorpje.Automaton.Proper.{IsProper, AllProper}
use woorpje.Regex.Defs.{
  RegNode, Children, reg_empty, reg_word, operation, union, concat, star, none_left, child,
}
use woorpje.Regex.Lang.{IsWellFormed, AllWellFormed}
use woorpje.Lengths.Defs.{Progressions, merge_other}
use woorpje.Lengths.From.{
  Divisors, add_row, add_rows, all_rows, concat_pair, concat_each, concat_lengths, star_each,
  star_lengths, all_consts, from_expression, merge_rest, concat_rest,
}

abbrev Returns : Option Progressions → Type 0
Returns o = (ps : Progressions) × (o ≡ some ps)

bound-Returns :
    (o : Option Progressions) (f : Progressions → Option Progressions)
    → Returns o
    → ((ps : Progressions) → Returns (f ps))
    → Returns (o >>= f)
bound-Returns o f (ps, e) h = let (qs, d) = h ps in (qs, ap (λ z. z >>= f) e ∙ d)

-- A step that is not 0 takes the loop forward.
goes_forward : (step k : ℕ) → (step * suc k == 0) ≡ false → k ≤ step * k
goes_forward zero k h = absurd (ground arith)
goes_forward (suc step) k h = omega arith

add_row-Returns :
    (fuel offset base step limit k : ℕ) (ps : Progressions)
    → suc limit < fuel + k
    → 0 < fuel
    → Returns (add_row fuel offset base step limit k ps)
unfolding add_row
add_row-Returns zero offset base step limit k ps h z = absurd (omega arith)
add_row-Returns (suc fuel) offset base step limit k ps h z =
    elim (Bool-cases (ltb limit (base + step * k))) [
      | inl e ↦ rw e (ps, refl)
      | inr e ↦ elim (Bool-cases (step * suc k == 0)) [
        | inl f ↦ rw (e, f) (_, refl)
        | inr f ↦
            (let l = goes_forward step k f in
              rw (e, f)
                (add_row-Returns fuel offset base step limit (suc k) _ (omega arith)
                  (ground arith)))
      ]
    ]

add_rows-Returns :
    (fuel offset step1 step2 limit k : ℕ) (ps : Progressions)
    → suc limit < fuel + k
    → 0 < fuel
    → Returns (add_rows fuel offset step1 step2 limit k ps)
unfolding add_rows
add_rows-Returns zero offset step1 step2 limit k ps h z = absurd (omega arith)
add_rows-Returns (suc fuel) offset step1 step2 limit k ps h z =
    elim (Bool-cases (ltb (step1 * k) limit)) [
      | inr e ↦ rw e (ps, refl)
      | inl e ↦ rw e (
          bound-Returns _ _
            (add_row-Returns (suc (suc limit)) offset (step1 * k) step2 limit 0 ps (omega arith)
              (omega arith))
            (λ qs. elim (Bool-cases (step1 * suc k == 0)) [
              | inl f ↦ rw f (qs, refl)
              | inr f ↦
                  (let l = goes_forward step1 k f in
                    rw f (
                      add_rows-Returns fuel offset step1 step2 limit (suc k) qs (omega arith)
                        (ground arith)))
            ]))
    ]

all_rows-Returns :
    (offset step1 step2 limit : ℕ) (ps : Progressions)
    → Returns (all_rows offset step1 step2 limit ps)
all_rows-Returns offset step1 step2 limit ps =
    add_rows-Returns (suc (suc limit)) offset step1 step2 limit 0 ps (omega arith) (omega arith)

module _ (ds : Divisors) where
  concat_each-Returns :
      (p : ℕ × ℕ) (qs result : Progressions) → Returns (concat_each ds p qs result)
  unfolding concat_each
  concat_each-Returns p [] result = (result, refl)
  concat_each-Returns p (q ∷ qs) result = elim (Bool-cases (p.1 == 0 && q.1 == 0)) [
    | inl e ↦ rw e (_, refl)
    | inr e ↦ rw e (
        bound-Returns (concat_pair ds p q result) _ (concat_pair-Returns p q)
          (λ r. concat_each-Returns p qs r))
  ]
    where
      concat_pair-Returns : (p q : ℕ × ℕ) → Returns (concat_pair ds p q result)
      concat_pair-Returns (a1, b1) (a2, b2) =
          bound-Returns _ _ (all_rows-Returns (a1 + a2) b1 b2 _ []) (λ qs. (_, refl))

  concat_lengths-Returns :
      (ps rhs result : Progressions) → Returns (concat_lengths ds ps rhs result)
  unfolding concat_lengths
  concat_lengths-Returns [] rhs result = (result, refl)
  concat_lengths-Returns (p ∷ ps) rhs result =
      bound-Returns (concat_each ds p rhs result) _ (concat_each-Returns p rhs result)
        (λ r. concat_lengths-Returns ps rhs r)

  star_each-Returns : (c : ℕ) (ps aps : Progressions) → Returns (star_each ds c ps aps)
  unfolding star_each
  star_each-Returns c [] aps = (aps, refl)
  star_each-Returns c ((a, b) ∷ ps) aps =
      bound-Returns (all_rows 0 a b c aps) _ (all_rows-Returns 0 a b c aps)
        (λ r. star_each-Returns c ps r)

  mutual
    unfolding from_expression star_lengths

    node-Returns :
        (r : RegNode)
        → IsProper r
        → IsWellFormed r
        → (ps : Progressions) × (from_expression ds r ≡ some ps)
    node-Returns reg_empty p w = absurd p
    node-Returns (reg_word u) p w = (_, refl)
    node-Returns (operation union none_left) p w = absurd p.0
    node-Returns (operation union (child r cs)) p w =
        bound-Returns (from_expression ds r) _ (node-Returns r p.1.0 w.0)
          (λ first. merge_rest-Returns cs first p.1.1 w.1)
    node-Returns (operation concat none_left) p w = absurd w.0
    node-Returns (operation concat (child l none_left)) p w = absurd w.0
    node-Returns (operation concat (child l (child r cs))) p w =
        bound-Returns (from_expression ds l) _ (node-Returns l p.0 w.1.0)
          (λ left. concat_rest-Returns (child r cs) left p.1 w.1.1)
    node-Returns (operation star none_left) p w = absurd p.0
    node-Returns (operation star (child r cs)) p w =
        bound-Returns (from_expression ds r) _ (node-Returns r p.1.0 w.1.0)
          (λ sub. star_each-Returns (ds.lcm_range (all_consts sub)) sub _)

    merge_rest-Returns :
        (cs : Children) (first : Progressions)
        → AllProper cs
        → AllWellFormed cs
        → Returns (merge_rest ds cs first)
    merge_rest-Returns none_left first p w = (first, refl)
    merge_rest-Returns (child r cs) first p w =
        bound-Returns (from_expression ds r) _ (node-Returns r p.0 w.0)
          (λ next. merge_rest-Returns cs (merge_other next first) p.1 w.1)

    concat_rest-Returns :
        (cs : Children) (left : Progressions)
        → AllProper cs
        → AllWellFormed cs
        → Returns (concat_rest ds cs left)
    concat_rest-Returns none_left left p w = (left, refl)
    concat_rest-Returns (child r cs) left p w =
        bound-Returns (from_expression ds r) _ (node-Returns r p.0 w.0) (λ right.
          bound-Returns (concat_lengths ds left right []) _ (concat_lengths-Returns left right [])
            (λ next. concat_rest-Returns cs next p.1 w.1))

  -- fromExpression returns progressions for each expression whose concatenations have two children or
  -- more, whose stars and unions have one, and that has no empty set in it.
  pub from_expression-Returns :
      (r : RegNode)
      → IsProper r
      → IsWellFormed r
      → (ps : Progressions) × (from_expression ds r ≡ some ps)
  from_expression-Returns = node-Returns
