-- ===== src/Word/Factor.antt =====
-- `Sequence::isFactorOf`. The inner loop tests only its own iterator against its end: `none` stands for
-- a read through `seq.end()` or through `end()` of an empty sequence.
use woorpje.Common.{
  ℕ, ◌<◌, ◌≤◌, ◌≡◌, refl, ap, ap₂, append-nil, ◌∙◌, sym, subst, List, [], ◌∷◌, ◌++◌, arith, true,
  false, Bool, if◌then◌else◌, ◌==◌, ltb, Bool-cases, inl, inr, ◌⊎◌, Option, none, some, length,
  length-append, ◌↔◌, cons_injective,
}
use woorpje.Word.Defs.{same_list, same_list_iff}

-- From `currentOit` on: whether `it` reaches `mend`.
pub factor_here : List ℕ → List ℕ → Option Bool
factor_here [] ys = some true
factor_here (x ∷ xs) [] = none
factor_here (x ∷ xs) (y ∷ ys) = if x == y then factor_here xs ys else some false

-- What the round for one `oit` makes of the inner loop and of the later rounds.
abbrev pub next_round : Option Bool → Option Bool → Option Bool
next_round none rest = none
next_round (some true) rest = some true
next_round (some false) rest = rest

pub factor_loop : List ℕ → List ℕ → Option Bool
factor_loop xs [] = some false
factor_loop [] (y ∷ ys) = none
factor_loop (x ∷ xs) (y ∷ ys) =
    let rest = factor_loop (x ∷ xs) ys in
    if x == y then next_round (factor_here (x ∷ xs) (y ∷ ys)) rest else rest

unfoldable pub is_factor_of : List ℕ → List ℕ → Option Bool
unfolding factor_loop factor_here
is_factor_of xs ys =
    if ltb (length ys) (length xs)
    then some false
    else if length xs == length ys
    then some (same_list xs ys)
    else factor_loop xs ys

abbrev pub IsFactor : List ℕ → List ℕ → Type 0
IsFactor xs ys = (pre : List ℕ) × (post : List ℕ) × (ys ≡ pre ++ (xs ++ post))

-- What an answer says; a faulting run says nothing.
abbrev Answers : Type 0 → Option Bool → Type 0
Answers P (some true) = P
Answers P (some false) = ¬ P
Answers P none = Unit

abbrev Begins : List ℕ → List ℕ → Type 0
Begins xs ys = (post : List ℕ) × (ys ≡ xs ++ post)

factor_here-Answers : (xs ys : List ℕ) → Answers (Begins xs ys) (factor_here xs ys)
unfolding factor_here
factor_here-Answers [] ys = (ys, refl)
factor_here-Answers (x ∷ xs) [] = tt
factor_here-Answers (x ∷ xs) (y ∷ ys) = elim (Bool-cases (x == y)) [
  | inl h ↦ rw h (onward (factor_here xs ys) (ground arith) (factor_here-Answers xs ys))
  | inr h ↦ rw h (λ (post, e). (let k : y ≡ x = cc in ground arith))
]
  where
    onward :
        (o : Option Bool) → x ≡ y → Answers (Begins xs ys) o → Answers (Begins (x ∷ xs) (y ∷ ys)) o
    onward none e h = tt
    onward (some true) e h = (h.0, (let k = h.1 in cc))
    onward (some false) e h = λ (post, k). h (post, cons_injective k)

-- A factor begins at the first entry or lies in the rest.
IsFactor-cons :
    (xs : List ℕ) (y : ℕ) (ys : List ℕ) → IsFactor xs (y ∷ ys) → Begins xs (y ∷ ys) ⊎ IsFactor xs ys
IsFactor-cons xs y ys ([], post, e) = inl (post, e)
IsFactor-cons xs y ys (p ∷ pre, post, e) = inr (pre, post, cons_injective e)

IsFactor-later : (xs : List ℕ) (y : ℕ) (ys : List ℕ) → IsFactor xs ys → IsFactor xs (y ∷ ys)
IsFactor-later xs y ys (pre, post, e) = (y ∷ pre, post, ap (λ z. y ∷ z) e)

next_round-Answers :
    (xs : List ℕ) (y : ℕ) (ys : List ℕ) (o rest : Option Bool)
    → Answers (Begins xs (y ∷ ys)) o
    → Answers (IsFactor xs ys) rest
    → Answers (IsFactor xs (y ∷ ys)) (next_round o rest)
next_round-Answers xs y ys none rest h k = tt
next_round-Answers xs y ys (some true) rest h k = ([], h.0, h.1)
next_round-Answers xs y ys (some false) none h k = tt
next_round-Answers xs y ys (some false) (some true) h k = IsFactor-later xs y ys k
next_round-Answers xs y ys (some false) (some false) h k =
    λ f. elim (IsFactor-cons xs y ys f) [ inl b ↦ h b | inr g ↦ k g ]

skip_round-Answers :
    (x : ℕ) (xs : List ℕ) (y : ℕ) (ys : List ℕ) (rest : Option Bool)
    → (x == y) ≡ false
    → Answers (IsFactor (x ∷ xs) ys) rest
    → Answers (IsFactor (x ∷ xs) (y ∷ ys)) rest
skip_round-Answers x xs y ys none n k = tt
skip_round-Answers x xs y ys (some true) n k = IsFactor-later (x ∷ xs) y ys k
skip_round-Answers x xs y ys (some false) n k = λ f. elim (IsFactor-cons (x ∷ xs) y ys f) [
  | inl (post, e) ↦ (let m : y ≡ x = cc in ground arith)
  | inr g ↦ k g
]

not-IsFactor-nil : (x : ℕ) (xs : List ℕ) → ¬ IsFactor (x ∷ xs) []
not-IsFactor-nil x xs ([], post, e) = cc
not-IsFactor-nil x xs (p ∷ pre, post, e) = cc

factor_loop-Answers :
    (x : ℕ) (xs ys : List ℕ) → Answers (IsFactor (x ∷ xs) ys) (factor_loop (x ∷ xs) ys)
unfolding factor_loop
factor_loop-Answers x xs [] = not-IsFactor-nil x xs
factor_loop-Answers x xs (y ∷ ys) = elim (Bool-cases (x == y)) [
  | inl h ↦ rw h (
      next_round-Answers (x ∷ xs) y ys _ _ (factor_here-Answers (x ∷ xs) (y ∷ ys))
        (factor_loop-Answers x xs ys))
  | inr h ↦ rw h (skip_round-Answers x xs y ys _ h (factor_loop-Answers x xs ys))
]

length-zero : (xs : List ℕ) → length xs ≡ 0 → xs ≡ []
length-zero [] h = refl
length-zero (x ∷ xs) h = absurd (omega arith)

IsFactor-length : (xs ys : List ℕ) → IsFactor xs ys → length xs ≤ length ys
IsFactor-length xs ys (pre, post, e) =
    omega (arith, ap length e, length-append pre (xs ++ post), length-append xs post)

-- Of two sequences of one length, one is a factor of the other only if they are the same.
IsFactor-same : (xs ys : List ℕ) → length xs ≡ length ys → IsFactor xs ys → xs ≡ ys
IsFactor-same xs ys l (pre, post, e) =
    let n = ap length e in
    let a : length pre ≡ 0 = omega (arith, length-append pre (xs ++ post), length-append xs post) in
    let b : length post ≡ 0 =
      omega (arith, length-append pre (xs ++ post), length-append xs post) in
    sym (e ∙ ap₂ (λ p q. p ++ (xs ++ q)) (length-zero pre a) (length-zero post b) ∙ append-nil xs)

same_list-Answers :
    (xs ys : List ℕ) → length xs ≡ length ys → Answers (IsFactor xs ys) (some (same_list xs ys))
same_list-Answers xs ys l = elim (Bool-cases (same_list xs ys)) [
  | inl h ↦ rw h ([], [], sym ((same_list_iff xs ys).0 h) ∙ sym (append-nil xs))
  | inr h ↦ rw h (λ f. (let k = (same_list_iff xs ys).1 (IsFactor-same xs ys l f) in ground arith))
]

is_factor_of-Answers_all : (xs ys : List ℕ) → Answers (IsFactor xs ys) (is_factor_of xs ys)
unfolding is_factor_of
is_factor_of-Answers_all xs ys = elim (Bool-cases (ltb (length ys) (length xs))) [
  | inl h ↦ rw h (λ f. (let l = IsFactor-length xs ys f in ground arith))
  | inr h ↦ elim (Bool-cases (length xs == length ys)) [
    | inl k ↦ rw (h, k) (same_list-Answers xs ys (ground arith))
    | inr k ↦ rw (h, k) (loop xs ys k)
  ]
]
  where
    loop :
        (us vs : List ℕ)
        → (length us == length vs) ≡ false
        → Answers (IsFactor us vs) (factor_loop us vs)
    loop [] [] k = cc
    loop [] (v ∷ vs) k = tt
    loop (u ∷ us) vs k = factor_loop-Answers u us vs

-- Where `isFactorOf` reads nothing past an end, it answers true exactly for a factor.
pub is_factor_of-Answers :
    (xs ys : List ℕ) {b : Bool} → is_factor_of xs ys ≡ some b → (b ≡ true) ↔ IsFactor xs ys
is_factor_of-Answers xs ys {b} h =
    to_iff b (subst (Answers (IsFactor xs ys)) h (is_factor_of-Answers_all xs ys))
  where
    to_iff : (c : Bool) → Answers (IsFactor xs ys) (some c) → (c ≡ true) ↔ IsFactor xs ys
    to_iff true f = (λ _. f, λ _. refl)
    to_iff false f = (λ e. cc, λ g. absurd (f g))

-- The first character does not stand in a sequence.
abbrev pub Absent : ℕ → List ℕ → Type 0
Absent a [] = Unit
Absent a (y ∷ ys) = ((a == y) ≡ false) × Absent a ys

factor_loop_faults :
    (a b : ℕ) (pre : List ℕ) → Absent a pre → factor_loop (a ∷ b ∷ []) (pre ++ a ∷ []) ≡ none
unfolding factor_loop factor_here
factor_loop_faults a b [] h = ground arith
factor_loop_faults a b (y ∷ pre) h = rw h.0 (factor_loop_faults a b pre h.1)

-- A sequence of two characters is searched past the end of a longer one whose first occurrence of the
-- first character is its last entry.
pub is_factor_of_faults :
    (a b : ℕ) (pre : List ℕ)
    → 1 < length pre
    → Absent a pre
    → is_factor_of (a ∷ b ∷ []) (pre ++ a ∷ []) ≡ none
unfolding is_factor_of
is_factor_of_faults a b pre n h =
    ground (arith, length-append pre (a ∷ []), factor_loop_faults a b pre h)
