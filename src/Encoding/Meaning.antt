-- ===== src/Encoding/Meaning.antt =====
-- What a formula of the encoders says of a filled pattern, under a valuation of the variables.
use woorpje.Common.{
  ℕ, ◌<◌, ◌≡◌, ◌↔◌, ◌⊎◌, inl, inr, refl, true, false, Bool-cases, Option, some, List, [], ◌∷◌, ◌++◌,
  arith,
}
use woorpje.Propositional.Literal.{pos, neg, Valuation, holds-neg, abs-neg}
use woorpje.Propositional.Formula.{Junctor, conj, disj, PlFormula, lit, junct, land, lor, eval}
use woorpje.Propositional.Plural.{IsEncodable, AllEncodable}
use woorpje.Encoding.Defs.{
  FilledPos, constant, slot, Pattern, Encoder, ffalse, ftrue, subformulae, join, push_conj,
}

-- The position holds the character.
abbrev pub Reads : Encoder → Valuation → FilledPos → ℕ → Type 0
Reads en A (constant c) k = c ≡ k
Reads en A (slot x j) k = A (en.variable_vars x j k) ≡ true

-- The slot holds nothing.
abbrev pub IsEmpty : Encoder → Valuation → ℕ → ℕ → Type 0
IsEmpty en A x j = A (en.variable_vars x j en.sigma_size) ≡ true

-- Positions of one variable that hold nothing.
abbrev pub IsRun : Encoder → Valuation → ℕ → Pattern → Type 0
IsRun en A x [] = Unit
IsRun en A x (constant c ∷ ps) = ⊥
IsRun en A x (slot y j ∷ ps) = (y ≡ x) × IsEmpty en A y j × IsRun en A x ps

abbrev pub Stops : ℕ → Pattern → Type 0
Stops x (slot y j ∷ ps) = ¬ (y ≡ x)
Stops x _ = Unit

-- The pattern holds the word, and in each variable's run of positions the empty ones stand last.
pub data Fills (en : Encoder) (A : Valuation) : Pattern → List ℕ → Type 0 where
  no_more : {ps : Pattern} {ks : List ℕ} → ps ≡ [] → ks ≡ [] → Fills en A ps ks
  holding :
      {qs : Pattern} {ls : List ℕ} (p : FilledPos) (ps : Pattern) (k : ℕ) (ks : List ℕ)
      → Reads en A p k
      → Fills en A ps ks
      → qs ≡ p ∷ ps
      → ls ≡ k ∷ ks
      → Fills en A qs ls
  padding :
      {qs : Pattern} {ks : List ℕ} (x j : ℕ) (run ps : Pattern)
      → IsEmpty en A x j
      → IsRun en A x run
      → Stops x ps
      → Fills en A ps ks
      → qs ≡ slot x j ∷ run ++ ps
      → Fills en A qs ks

-- The pattern holds the word, wherever the empty positions stand.
abbrev pub Spells : Encoder → Valuation → Pattern → List ℕ → Type 0
Spells en A [] ks = ks ≡ []
Spells en A (constant c ∷ ps) ks = (ls : List ℕ) × (ks ≡ c ∷ ls) × Spells en A ps ls
Spells en A (slot x j ∷ ps) ks =
    ((k : ℕ) × (ls : List ℕ) × (A (en.variable_vars x j k) ≡ true)
      × (ks ≡ k ∷ ls)
      × Spells en A ps ls)
    ⊎ (IsEmpty en A x j × Spells en A ps ks)

-- The caller's clauses make the variable true that says of a constant that it is itself.
abbrev pub IsFaithful : Encoder → Valuation → Type 0
IsFaithful en A = (c : ℕ) → A (en.constants_vars c c) ≡ true

-- The variables are the solver's, and not 0.
pub record InRange (b : ℕ) (en : Encoder) : Type 0 where
  pub variable_pos : (x j k : ℕ) → 0 < en.variable_vars x j k
  pub variable_lt : (x j k : ℕ) → en.variable_vars x j k < b
  pub constants_pos : (c k : ℕ) → 0 < en.constants_vars c k
  pub constants_lt : (c k : ℕ) → en.constants_vars c k < b
  pub false_pos : 0 < en.false_var
  pub false_lt : en.false_var < b
  pub true_pos : 0 < en.true_var
  pub true_lt : en.true_var < b

abbrev pub AllTrue : Valuation → List PlFormula → Type 0
AllTrue A [] = Unit
AllTrue A (f ∷ fs) = (eval A f ≡ true) × AllTrue A fs

abbrev pub SomeTrue : Valuation → List PlFormula → Type 0
SomeTrue A [] = ⊥
SomeTrue A (f ∷ fs) = (eval A f ≡ true) ⊎ SomeTrue A fs

pub AllTrue-append :
    (A : Valuation) (fs gs : List PlFormula) → AllTrue A (fs ++ gs) ↔ (AllTrue A fs × AllTrue A gs)
AllTrue-append A [] gs = (λ h. (tt, h), λ h. h.1)
AllTrue-append A (f ∷ fs) gs =
    let i = AllTrue-append A fs gs in
    (λ h. ((h.0, (i.0 h.1).0), (i.0 h.1).1), λ (h, k). (h.0, i.1 (h.1, k)))

pub eval-conj :
    (A : Valuation) (fs : List PlFormula) → (eval A (land (subformulae fs)) ≡ true) ↔ AllTrue A fs
unfolding eval
eval-conj A [] = (λ h. tt, λ h. refl)
eval-conj A (f ∷ fs) =
    let i = eval-conj A fs in
    (λ h. (ground arith, i.0 (ground arith)), λ h. (let k = i.1 h.1 in let l = h.0 in ground arith))

pub eval-disj :
    (A : Valuation) (fs : List PlFormula) → (eval A (lor (subformulae fs)) ≡ true) ↔ SomeTrue A fs
unfolding eval
eval-disj A [] = (λ h. cc, λ h. absurd h)
eval-disj A (f ∷ fs) =
    let i = eval-disj A fs in
    (
      λ h. elim (Bool-cases (eval A f)) [ inl e ↦ inl e | inr e ↦ inr (i.0 (ground arith)) ],
      λ h. elim h [ inl e ↦ ground arith | inr k ↦ (let l = i.1 k in ground arith) ],
    )

-- The formulae meet the conditions of `tseytin_cnf`.
abbrev pub AllGood : ℕ → List PlFormula → Type 0
AllGood b [] = Unit
AllGood b (f ∷ fs) = IsEncodable b f × AllGood b fs

pub AllGood-append :
    (b : ℕ) (fs gs : List PlFormula) → AllGood b fs → AllGood b gs → AllGood b (fs ++ gs)
AllGood-append b [] gs h k = k
AllGood-append b (f ∷ fs) gs h k = (h.0, AllGood-append b fs gs h.1 k)

AllGood-AllEncodable :
    (b : ℕ) (fs : List PlFormula) → AllGood b fs → AllEncodable b (subformulae fs)
AllGood-AllEncodable b [] h = tt
AllGood-AllEncodable b (f ∷ fs) h = (h.0, AllGood-AllEncodable b fs h.1)

-- A junctor over two formulae or more.
pub junct-IsEncodable :
    (b : ℕ) (j : Junctor) (f g : PlFormula) (fs : List PlFormula)
    → AllGood b (f ∷ g ∷ fs)
    → IsEncodable b (junct j (subformulae (f ∷ g ∷ fs)))
junct-IsEncodable b j f g fs h = (tt, AllGood-AllEncodable b (f ∷ g ∷ fs) h)

pub join-IsEncodable :
    (b : ℕ) (j : Junctor) (o : PlFormula) (fs : List PlFormula)
    → IsEncodable b o
    → AllGood b fs
    → IsEncodable b (join j o fs)
join-IsEncodable b j o [] h k = h
join-IsEncodable b j o (f ∷ []) h k = k.0
join-IsEncodable b j o (f ∷ g ∷ fs) h k = junct-IsEncodable b j f g fs k

pub join-conj :
    (A : Valuation) (o f : PlFormula) (fs : List PlFormula)
    → (eval A (join conj o (f ∷ fs)) ≡ true) ↔ AllTrue A (f ∷ fs)
join-conj A o f [] = (λ h. (h, tt), λ h. h.0)
join-conj A o f (g ∷ fs) = eval-conj A (f ∷ g ∷ fs)

pub join-disj :
    (A : Valuation) (o : PlFormula) (fs : List PlFormula)
    → eval A o ≡ false
    → (eval A (join disj o fs) ≡ true) ↔ SomeTrue A fs
join-disj A o [] h = (λ k. absurd cc, λ k. absurd k)
join-disj A o (f ∷ []) h = (λ k. inl k, λ k. elim k [ inl e ↦ e | inr n ↦ absurd n ])
join-disj A o (f ∷ g ∷ fs) h = eval-disj A (f ∷ g ∷ fs)

pub SomeTrue-push_conj :
    (A : Valuation) (f : PlFormula) (fs gs : List PlFormula)
    → SomeTrue A (push_conj (f ∷ fs) gs) ↔ (AllTrue A (f ∷ fs) ⊎ SomeTrue A gs)
SomeTrue-push_conj A f [] gs = (
  λ h. elim h [ inl e ↦ inl (e, tt) | inr k ↦ inr k ],
  λ h. elim h [ inl e ↦ inl e.0 | inr k ↦ inr k ],
)
SomeTrue-push_conj A f (g ∷ fs) gs =
    let i = eval-conj A (f ∷ g ∷ fs) in
    (
      λ h. elim h [ inl e ↦ inl (i.0 e) | inr k ↦ inr k ],
      λ h. elim h [ inl e ↦ inl (i.1 e) | inr k ↦ inr k ],
    )

pub AllGood-push_conj :
    (b : ℕ) (f : PlFormula) (fs gs : List PlFormula)
    → AllGood b (f ∷ fs)
    → AllGood b gs
    → AllGood b (push_conj (f ∷ fs) gs)
AllGood-push_conj b f [] gs h k = (h.0, k)
AllGood-push_conj b f (g ∷ fs) gs h k = (junct-IsEncodable b conj f g fs h, k)

module _ (b : ℕ) (en : Encoder) (r : InRange b en) where
  pub eval-ffalse : (A : Valuation) → eval A (ffalse en) ≡ false
  unfolding eval
  eval-ffalse A = elim (Bool-cases (A en.false_var)) [
    | inl e ↦ rw (holds-neg A (pos en.false_var) r.false_pos, e) refl
    | inr e ↦ rw e refl
  ]

  pub eval-ftrue : (A : Valuation) → eval A (ftrue en) ≡ true
  unfolding eval
  eval-ftrue A = elim (Bool-cases (A en.true_var)) [
    | inl e ↦ rw e refl
    | inr e ↦ rw (holds-neg A (pos en.true_var) r.true_pos, e) refl
  ]

  neg-IsLiteral : (v : ℕ) → 0 < v → v < b → IsEncodable b (lit (neg (pos v)))
  neg-IsLiteral v h k = let e = abs-neg (pos v) in (omega (arith, e, h), omega (arith, e, k))

  pub ffalse-IsEncodable : IsEncodable b (ffalse en)
  ffalse-IsEncodable =
      (tt, ((r.false_pos, r.false_lt), (neg-IsLiteral en.false_var r.false_pos r.false_lt, tt)))

  pub ftrue-IsEncodable : IsEncodable b (ftrue en)
  ftrue-IsEncodable =
      (tt, ((r.true_pos, r.true_lt), (neg-IsLiteral en.true_var r.true_pos r.true_lt, tt)))

-- The result of a call: a formula that `tseytin_cnf` takes, which says no more than `Q` of a valuation
-- and no less than `P`.
abbrev pub Means :
    ℕ → Encoder → (Valuation → Type 0) → (Valuation → Type 0) → Option PlFormula → Type 0
Means b en P Q o =
    (f : PlFormula) × (o ≡ some f)
    × IsEncodable b f
    × ((A : Valuation) → IsFaithful en A → (eval A f ≡ true → Q A) × (P A → eval A f ≡ true))

-- The same of disjuncts.
abbrev pub MeansSome :
    ℕ → Encoder → (Valuation → Type 0) → (Valuation → Type 0) → Option (List PlFormula) → Type 0
MeansSome b en P Q o =
    (fs : List PlFormula) × (o ≡ some fs)
    × AllGood b fs
    × ((A : Valuation) → IsFaithful en A → (SomeTrue A fs → Q A) × (P A → SomeTrue A fs))
