-- ===== src/Encoding/Rounds.antt =====
-- The rounds of `encodeWord` of libs/solvers/satencoding/regular/wordencoder.cpp: a prefix that holds
-- characters, and then empty positions.
use woorpje.Common.{
  ℕ, zero, suc, ◌≤◌, ◌≡◌, ◌↔◌, ◌⊎◌, inl, inr, refl, sym, ap, subst, true, Bool-cases, none, some,
  List, [], ◌∷◌, ◌++◌, ◌==◌, length, arith,
}
use woorpje.Word.Sequence.{drop}
use woorpje.Propositional.Literal.{Valuation, pos}
use woorpje.Propositional.Formula.{PlFormula, lit, eval}
use woorpje.Encoding.Defs.{constant, slot, Pattern, Encoder, match_prefix, lambda_run}
use woorpje.Encoding.Meaning.{
  Reads, IsEmpty, IsRun, Stops, Fills, no_more, holding, padding, IsFaithful, InRange, AllTrue,
  AllGood,
}

-- The first positions hold the first characters.
abbrev pub Begins : Encoder → Valuation → ℕ → Pattern → List ℕ → Type 0
Begins en A zero ps ks = Unit
Begins en A (suc n) (p ∷ ps) (k ∷ ks) = Reads en A p k × Begins en A n ps ks
Begins en A (suc n) _ _ = ⊥

-- The pattern is empty, or begins with empty positions of a variable.
abbrev pub Ends : Encoder → Valuation → Pattern → List ℕ → Type 0
Ends en A [] ks = ks ≡ []
Ends en A (constant c ∷ ps) ks = ⊥
Ends en A (slot x j ∷ ps) ks =
    IsEmpty en A x j × AllTrue A (lambda_run en x ps).0 × Fills en A (lambda_run en x ps).1 ks

module _ (en : Encoder) (A : Valuation) where
  lambda_run_sound :
      (x : ℕ) (ps : Pattern)
      → AllTrue A (lambda_run en x ps).0
      → (run : Pattern) × IsRun en A x run
        × Stops x (lambda_run en x ps).1
        × (ps ≡ run ++ (lambda_run en x ps).1)
  unfolding lambda_run eval
  lambda_run_sound x [] h = ([], tt, tt, refl)
  lambda_run_sound x (constant c ∷ ps) h = ([], tt, tt, refl)
  lambda_run_sound x (slot y j ∷ ps) h = elim (Bool-cases (y == x)) [
    | inl e ↦
        (let (run, t, s, d) = lambda_run_sound x ps (let k = rw e at h in k.1) in
          rw e (
            slot y j ∷ run,
            (ground arith, (let k = rw e at h in k.0), t),
            s,
            ap (λ z. slot y j ∷ z) d,
          ))
    | inr e ↦ rw e ([], tt, (λ d. ground arith), refl)
  ]

  lambda_run_complete :
      (x : ℕ) (run ps : Pattern)
      → IsRun en A x run
      → Stops x ps
      → AllTrue A (lambda_run en x (run ++ ps)).0 × ((lambda_run en x (run ++ ps)).1 ≡ ps)
  unfolding lambda_run eval
  lambda_run_complete x [] [] t s = (tt, refl)
  lambda_run_complete x [] (constant c ∷ ps) t s = (tt, refl)
  lambda_run_complete x [] (slot y j ∷ ps) t s = elim (Bool-cases (y == x)) [
    | inl e ↦ absurd (s (ground arith))
    | inr e ↦ rw e (tt, refl)
  ]
  lambda_run_complete x (constant c ∷ run) ps t s = absurd t
  lambda_run_complete x (slot y j ∷ run) ps (d, h, t) s =
      let e : (y == x) ≡ true = ground arith in
      let (k, l) = lambda_run_complete x run ps t s in rw e ((h, k), l)

  pub Fills-sound :
      (m : ℕ) (ps : Pattern) (ks : List ℕ)
      → Begins en A m ps ks
      → Ends en A (drop m ps) (drop m ks)
      → Fills en A ps ks
  Fills-sound zero [] ks b e = no_more refl e
  Fills-sound zero (constant c ∷ ps) ks b e = absurd e
  Fills-sound zero (slot x j ∷ ps) ks b (e, t, f) =
      let (run, r, s, d) = lambda_run_sound x ps t in
      padding x j run (lambda_run en x ps).1 e r s f (ap (λ z. slot x j ∷ z) d)
  Fills-sound (suc m) (p ∷ ps) (k ∷ ks) (r, b) e =
      holding p ps k ks r (Fills-sound m ps ks b e) refl refl
  Fills-sound (suc m) [] ks b e = absurd b
  Fills-sound (suc m) (p ∷ ps) [] b e = absurd b

  -- A prefix that holds characters, and the rest.
  abbrev pub Parted : Pattern → List ℕ → Type 0
  Parted ps ks = (m : ℕ) × (m ≤ length ks) × Begins en A m ps ks × Ends en A (drop m ps) (drop m ks)

  pub Fills-Parted : {ps : Pattern} {ks : List ℕ} → Fills en A ps ks → Parted ps ks
  Fills-Parted {ps} {ks} (no_more d e) = subst (λ z. Parted z ks) (sym d) (0, omega arith, tt, e)
  Fills-Parted {ps} {ks} (holding q qs k ls r f d e) =
      let (m, l, b, t) = Fills-Parted f in
      subst (λ z. Parted z ks) (sym d)
        (subst (λ z. Parted (q ∷ qs) z) (sym e) (suc m, omega arith, (r, b), t))
  Fills-Parted {ps} {ks} (padding x j run qs e r s f d) =
      let (t, l) = lambda_run_complete x run qs r s in
      subst (λ z. Parted z ks) (sym d)
        (0, omega arith, tt, (e, t, subst (λ z. Fills en A z ks) (sym l) f))

  Begins-prefix :
      (n m : ℕ) (ps : Pattern) (ks : List ℕ) → n ≤ m → Begins en A m ps ks → Begins en A n ps ks
  Begins-prefix zero m ps ks l b = tt
  Begins-prefix (suc n) zero ps ks l b = absurd (omega arith)
  Begins-prefix (suc n) (suc m) (p ∷ ps) (k ∷ ks) l (r, b) =
      (r, Begins-prefix n m ps ks (omega arith) b)
  Begins-prefix (suc n) (suc m) [] ks l b = b
  Begins-prefix (suc n) (suc m) (p ∷ ps) [] l b = b

pub run-length : (en : Encoder) (x : ℕ) (ps : Pattern) → length (lambda_run en x ps).1 ≤ length ps
unfolding lambda_run
run-length en x [] = omega arith
run-length en x (constant c ∷ ps) = omega arith
run-length en x (slot y j ∷ ps) = elim (Bool-cases (y == x)) [
  | inl e ↦ rw e (omega (arith, run-length en x ps))
  | inr e ↦ rw e (omega arith)
]

module _ (b : ℕ) (en : Encoder) (r : InRange b en) where
  pub run-AllGood : (x : ℕ) (ps : Pattern) → AllGood b (lambda_run en x ps).0
  unfolding lambda_run
  run-AllGood x [] = tt
  run-AllGood x (constant c ∷ ps) = tt
  run-AllGood x (slot y j ∷ ps) = elim (Bool-cases (y == x)) [
    | inl e ↦
        rw e ((r.variable_pos y j en.sigma_size, r.variable_lt y j en.sigma_size), run-AllGood x ps)
    | inr e ↦ rw e tt
  ]

  -- A prefix that does not match, or what its literals say.
  abbrev pub Matched : ℕ → Pattern → List ℕ → Type 0
  Matched n ps ks =
      ((match_prefix en n ps ks ≡ none) × ((A : Valuation) (m : ℕ) → n ≤ m → ¬ Begins en A m ps ks))
      ⊎ ((fs : List PlFormula) × (match_prefix en n ps ks ≡ some fs)
          × AllGood b fs
          × (length fs ≡ n)
          × ((A : Valuation) → IsFaithful en A → AllTrue A fs ↔ Begins en A n ps ks))

  pub match_prefix-Matched :
      (n : ℕ) (ps : Pattern) (ks : List ℕ) → n ≤ length ps → n ≤ length ks → Matched n ps ks
  unfolding match_prefix eval
  match_prefix-Matched zero ps ks l k = inr ([], refl, tt, refl, λ A t. (λ h. tt, λ h. tt))
  match_prefix-Matched (suc n) [] ks l k = absurd (omega arith)
  match_prefix-Matched (suc n) (p ∷ ps) [] l k = absurd (omega arith)
  match_prefix-Matched (suc n) (slot x j ∷ ps) (k ∷ ks) l i =
      elim (match_prefix-Matched n ps ks (omega arith) (omega arith)) [
        | inl (e, f) ↦ inl (
          rw e refl,
          λ A m h t.
              f A n (omega arith) (Begins-prefix en A (suc n) m (slot x j ∷ ps) (k ∷ ks) h t).1,
        )
        | inr (fs, e, g, d, f) ↦ inr (
          lit (pos (en.variable_vars x j k)) ∷ fs,
          rw e refl,
          ((r.variable_pos x j k, r.variable_lt x j k), g),
          ap (λ z. suc z) d,
          λ A t. (λ h. (h.0, (f A t).0 h.1), λ h. (h.0, (f A t).1 h.1)),
        )
      ]
  match_prefix-Matched (suc n) (constant c ∷ ps) (k ∷ ks) l i = elim (Bool-cases (c == k)) [
    | inr u ↦ inl (
      rw u refl,
      λ A m h t.
          (let d = (Begins-prefix en A (suc n) m (constant c ∷ ps) (k ∷ ks) h t).0 in ground arith),
    )
    | inl u ↦
        (let same : c ≡ k = ground arith in
          elim (match_prefix-Matched n ps ks (omega arith) (omega arith)) [
            | inl (e, f) ↦ inl (
              rw (u, e) refl,
              λ A m h t.
                  f A n (omega arith)
                    (Begins-prefix en A (suc n) m (constant c ∷ ps) (k ∷ ks) h t).1,
            )
            | inr (fs, e, g, d, f) ↦ inr (
              lit (pos (en.constants_vars c k)) ∷ fs,
              rw (u, e) refl,
              ((r.constants_pos c k, r.constants_lt c k), g),
              ap (λ z. suc z) d,
              λ A t. (
                λ h. (same, (f A t).0 h.1),
                λ h. (subst (λ z. A (en.constants_vars c z) ≡ true) same (t c), (f A t).1 h.1),
              ),
            )
          ])
  ]
