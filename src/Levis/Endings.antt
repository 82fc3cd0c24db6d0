-- ===== src/Levis/Endings.antt =====
-- Appends that are equal, split at their ends, for the rules of libs/solvers/levis/rules.hpp that read
-- the last entries.
use woorpje.Common.{
  ℕ, ◌≡◌, ◌⊎◌, sym, ap, ◌∙◌, inl, inr, List, [], ◌∷◌, ◌++◌, reverse, reverse-append,
  reverse-reverse,
}
use woorpje.Levis.Front.{append-split}

-- Two appends that are equal: one second part ends with the other.
pub append-split_end :
    (s u t v : List ℕ)
    → s ++ u ≡ t ++ v
    → ((z : List ℕ) × (u ≡ z ++ v)) ⊎ ((z : List ℕ) × (v ≡ z ++ u))
append-split_end s u t v h =
    let k = sym (reverse-append s u) ∙ ap reverse h ∙ reverse-append t v in
    elim (append-split (reverse u) (reverse s) (reverse v) (reverse t) k) [
      | inl (z, e) ↦ inl (reverse z, back u v z e)
      | inr (z, e) ↦ inr (reverse z, back v u z e)
    ]
  where
    back : (a b z : List ℕ) → reverse a ≡ reverse b ++ z → a ≡ reverse z ++ b
    back a b z e =
        sym (reverse-reverse a)
        ∙ ap reverse e
        ∙ reverse-append (reverse b) z
        ∙ ap (λ w. reverse z ++ w) (reverse-reverse b)

-- A word that ends with a letter, or is empty, from an equation at the end.
pub letter_end :
    (s u t : List ℕ) (a : ℕ) → s ++ u ≡ t ++ a ∷ [] → (u ≡ []) ⊎ ((z : List ℕ) × (u ≡ z ++ a ∷ []))
letter_end s u t a h = elim (append-split_end s u t (a ∷ []) h) [
  | inl x ↦ inr x
  | inr (z, e) ↦ short z u e
]
  where
    no_rest : (z v : List ℕ) → [] ≡ z ++ v → v ≡ []
    no_rest [] v e = sym e
    no_rest (b ∷ z) v e = absurd cc

    short : (z v : List ℕ) → a ∷ [] ≡ z ++ v → (v ≡ []) ⊎ ((y : List ℕ) × (v ≡ y ++ a ∷ []))
    short [] v e = inr ([], sym e)
    short (b ∷ z) v e = inl (no_rest z v cc)

pub same_letter : (s t : List ℕ) (a b : ℕ) → s ++ a ∷ [] ≡ t ++ b ∷ [] → a ≡ b
same_letter s t a b h = elim (letter_end s (a ∷ []) t b h) [ inl c ↦ cc | inr (z, c) ↦ alone z c ]
  where
    alone : (z : List ℕ) → a ∷ [] ≡ z ++ b ∷ [] → a ≡ b
    alone [] c = cc
    alone (x ∷ []) c = absurd cc
    alone (x ∷ y ∷ z) c = absurd cc
