-- ===== src/Word/Sequence.antt =====
-- The methods of `Sequence`: proper prefix (`operator<`), difference, proper suffix and factor.
use woorpje.Common.{
  ℕ, zero, suc, ◌-◌, ◌≡◌, refl, ap, ◌∙◌, sym, List, [], ◌∷◌, ◌++◌, arith, true, false, Bool, ◌&&◌,
  if◌then◌else◌, ◌==◌, ltb, length, length-append, reverse, ap₂, cons_injective, reverse-append,
  reverse-reverse,
}

-- The loop over `this`, with the other iterator beside it; the lengths keep it inside.
unfoldable pub agrees : List ℕ → List ℕ → Bool
agrees [] ys = true
agrees (x ∷ xs) [] = false
agrees (x ∷ xs) (y ∷ ys) = x == y && agrees xs ys

-- `operator<`: this is a proper prefix of the other.
unfoldable pub is_prefix : List ℕ → List ℕ → Bool
unfolding agrees
is_prefix xs ys = if ltb (length xs) (length ys) then agrees xs ys else false

-- `isSuffixOf`, from the ends.
unfoldable pub is_suffix : List ℕ → List ℕ → Bool
unfolding agrees
is_suffix xs ys = if ltb (length xs) (length ys) then agrees (reverse xs) (reverse ys) else false

abbrev pub drop {ℓ} : {A : Type ℓ} → ℕ → List A → List A
drop zero xs = xs
drop (suc n) [] = []
drop (suc n) (x ∷ xs) = drop n xs

abbrev pub take {ℓ} : {A : Type ℓ} → ℕ → List A → List A
take zero xs = []
take (suc n) [] = []
take (suc n) (x ∷ xs) = x ∷ take n xs

-- `operator-`: this without the prefix, by its length.
unfoldable pub minus_prefix : List ℕ → List ℕ → List ℕ
minus_prefix xs ys = drop (length ys) xs

-- `chopTail`: this without the suffix, by its length.
unfoldable pub chop_tail : List ℕ → List ℕ → List ℕ
chop_tail xs ys = take (length xs - length ys) xs

agrees_sound : (xs ys : List ℕ) → agrees xs ys ≡ true → xs ++ drop (length xs) ys ≡ ys
unfolding agrees
agrees_sound [] ys h = refl
agrees_sound (x ∷ xs) [] h = cc
agrees_sound (x ∷ xs) (y ∷ ys) h =
    let ih = agrees_sound xs ys (ground arith) in
    let e : x ≡ y = ground arith in ap (λ z. z ∷ (xs ++ drop (length xs) ys)) e ∙ ap (λ z. y ∷ z) ih

-- Where `<` holds, the difference put behind the prefix gives the longer sequence back.
pub is_prefix-minus_prefix :
    (xs ys : List ℕ) → is_prefix xs ys ≡ true → ys ≡ xs ++ minus_prefix ys xs
unfolding is_prefix minus_prefix
is_prefix-minus_prefix xs ys h = sym (agrees_sound xs ys (ground arith))

pub append_cancel : (u v w : List ℕ) → (u ++ v ≡ u ++ w) → v ≡ w
append_cancel [] v w h = h
append_cancel (x ∷ u) v w h = append_cancel u v w (cons_injective h)

take-append : (xs ys : List ℕ) → take (length xs) (xs ++ ys) ≡ xs
take-append [] ys = refl
take-append (x ∷ xs) ys = ap (λ z. x ∷ z) (take-append xs ys)

-- Where `isSuffixOf` holds, the longer sequence is its chopped tail with the suffix behind it.
pub is_suffix-chop_tail : (xs ys : List ℕ) → is_suffix xs ys ≡ true → ys ≡ chop_tail ys xs ++ xs
unfolding is_suffix chop_tail
is_suffix-chop_tail xs ys h =
    let a : agrees (reverse xs) (reverse ys) ≡ true = ground arith in
    let d : List ℕ = reverse (drop (length (reverse xs)) (reverse ys)) in
    let e : ys ≡ d ++ xs =
      sym (reverse-reverse ys)
      ∙ ap reverse (sym (agrees_sound (reverse xs) (reverse ys) a))
      ∙ reverse-append (reverse xs) (drop (length (reverse xs)) (reverse ys))
      ∙ ap (λ z. d ++ z) (reverse-reverse xs) in
    let n : length ys - length xs ≡ length d = omega (arith, ap length e, length-append d xs) in
    e ∙ ap (λ z. z ++ xs) (sym (ap₂ take n e ∙ take-append d xs))
