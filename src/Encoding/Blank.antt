-- ===== src/Encoding/Blank.antt =====
-- Patterns that hold nothing, and how much a pattern holds, for `encodeWord` of
-- libs/solvers/satencoding/regular/wordencoder.cpp.
use woorpje.Common.{
  ℕ, zero, suc, ◌+◌, ◌≤◌, ◌≡◌, ◌↔◌, ◌⊎◌, inl, inr, refl, sym, ap, subst, Bool-cases, none, some,
  List, [], ◌∷◌, ◌++◌, ◌==◌, length, length-append, arith,
}
use woorpje.Propositional.Literal.{Valuation}
use woorpje.Propositional.Formula.{PlFormula, eval}
use woorpje.Encoding.Defs.{
  constant, slot, Pattern, Encoder, lambda, lambda_run, all_lambda, num_terminals,
}
use woorpje.Encoding.Meaning.{
  IsEmpty, IsRun, Fills, no_more, holding, padding, InRange, AllTrue, AllGood,
}
use woorpje.Encoding.Rounds.{Fills-sound, run-length}

abbrev pub IsBlank : Encoder → Valuation → Pattern → Type 0
IsBlank en A [] = Unit
IsBlank en A (constant c ∷ ps) = ⊥
IsBlank en A (slot x j ∷ ps) = IsEmpty en A x j × IsBlank en A ps

num_terminals-append :
    (ps qs : Pattern) → num_terminals (ps ++ qs) ≡ num_terminals ps + num_terminals qs
unfolding num_terminals
num_terminals-append [] qs = omega arith
num_terminals-append (constant c ∷ ps) qs = omega (arith, num_terminals-append ps qs)
num_terminals-append (slot x j ∷ ps) qs = num_terminals-append ps qs

module _ (en : Encoder) (A : Valuation) where
  run-IsBlank :
      (x : ℕ) (ps : Pattern)
      → IsBlank en A ps
      → AllTrue A (lambda_run en x ps).0 × IsBlank en A (lambda_run en x ps).1
  unfolding lambda_run eval
  run-IsBlank x [] h = (tt, tt)
  run-IsBlank x (constant c ∷ ps) h = absurd h
  run-IsBlank x (slot y j ∷ ps) h = elim (Bool-cases (y == x)) [
    | inl e ↦ (let (a, k) = run-IsBlank x ps h.1 in rw e ((h.0, a), k))
    | inr e ↦ rw e (tt, h)
  ]

  blank-Fills : (fuel : ℕ) (ps : Pattern) → length ps ≤ fuel → IsBlank en A ps → Fills en A ps []
  blank-Fills fuel [] l h = no_more refl refl
  blank-Fills fuel (constant c ∷ ps) l h = absurd h
  blank-Fills zero (slot x j ∷ ps) l h = absurd (omega arith)
  blank-Fills (suc fuel) (slot x j ∷ ps) l h =
      let (a, k) = run-IsBlank x ps h.1 in
      Fills-sound en A 0 (slot x j ∷ ps) [] tt
        (h.0, a, blank-Fills fuel (lambda_run en x ps).1 (omega (arith, l, run-length en x ps)) k)

  IsBlank-append :
      (x : ℕ) (run ps : Pattern) → IsRun en A x run → IsBlank en A ps → IsBlank en A (run ++ ps)
  IsBlank-append x [] ps t h = h
  IsBlank-append x (constant c ∷ run) ps t h = absurd t
  IsBlank-append x (slot y j ∷ run) ps (d, e, t) h = (e, IsBlank-append x run ps t h)

  Fills-IsBlank : {ps : Pattern} {ks : List ℕ} → ks ≡ [] → Fills en A ps ks → IsBlank en A ps
  Fills-IsBlank d (no_more e f) = subst (IsBlank en A) (sym e) tt
  Fills-IsBlank d (holding p ps k ks r f e g) = absurd cc
  Fills-IsBlank d (padding x j run ps e r s f g) =
      subst (IsBlank en A) (sym g) (e, IsBlank-append x run ps r (Fills-IsBlank d f))

  pub IsBlank-Fills : (ps : Pattern) → IsBlank en A ps ↔ Fills en A ps []
  IsBlank-Fills ps = (blank-Fills (length ps) ps (omega arith), Fills-IsBlank refl)

  run-num_terminals : (x : ℕ) (run : Pattern) → IsRun en A x run → num_terminals run ≡ 0
  unfolding num_terminals
  run-num_terminals x [] t = refl
  run-num_terminals x (constant c ∷ run) t = absurd t
  run-num_terminals x (slot y j ∷ run) (d, e, t) = run-num_terminals x run t

  -- A pattern holds no less than its constants and no more than its positions.
  pub Fills-length :
      {ps : Pattern} {ks : List ℕ}
      → Fills en A ps ks
      → (num_terminals ps ≤ length ks) × (length ks ≤ length ps)
  unfolding num_terminals
  Fills-length (no_more e f) = rw (e, f) (omega arith, omega arith)
  Fills-length (holding (constant c) ps k ks r f e g) =
      let (l, u) = Fills-length f in rw (e, g) (omega arith, omega arith)
  Fills-length (holding (slot x j) ps k ks r f e g) =
      let (l, u) = Fills-length f in rw (e, g) (omega arith, omega arith)
  Fills-length (padding x j run ps e r s f g) =
      let (l, u) = Fills-length f in
      let n = run-num_terminals x run r in
      let a = num_terminals-append run ps in
      let b = length-append run ps in rw g (omega arith, omega arith)

module _ (b : ℕ) (en : Encoder) (r : InRange b en) where
  -- A constant, or literals that say that the pattern is blank.
  abbrev pub Blanked : Pattern → Type 0
  Blanked ps =
      ((all_lambda en ps ≡ none) × ((A : Valuation) → ¬ IsBlank en A ps))
      ⊎ ((fs : List PlFormula) × (all_lambda en ps ≡ some fs)
          × AllGood b fs
          × (length fs ≡ length ps)
          × ((A : Valuation) → AllTrue A fs ↔ IsBlank en A ps))

  pub all_lambda-Blanked : (ps : Pattern) → Blanked ps
  unfolding all_lambda eval
  all_lambda-Blanked [] = inr ([], refl, tt, refl, λ A. (λ h. tt, λ h. tt))
  all_lambda-Blanked (constant c ∷ ps) = inl (refl, λ A h. h)
  all_lambda-Blanked (slot x j ∷ ps) = elim (all_lambda-Blanked ps) [
    | inl (e, f) ↦ inl (rw e refl, λ A h. f A h.1)
    | inr (fs, e, g, d, f) ↦ inr (
      lambda en x j ∷ fs,
      rw e refl,
      ((r.variable_pos x j en.sigma_size, r.variable_lt x j en.sigma_size), g),
      ap (λ z. suc z) d,
      λ A. (λ h. (h.0, (f A).0 h.1), λ h. (h.0, (f A).1 h.1)),
    )
  ]
