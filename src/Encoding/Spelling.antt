-- ===== src/Encoding/Spelling.antt =====
-- The words of a filled pattern, taken apart and put behind one another.
use woorpje.Common.{
  ℕ, zero, suc, ◌+◌, ◌≤◌, ◌≡◌, inl, inr, refl, sym, ap, ◌∙◌, subst, true, false, List, [], ◌∷◌,
  ◌++◌, append_assoc, length, ltb, ◌-◌, arith, Bool-cases,
}
use woorpje.Members.{In, In-map, In-map_inv}
use woorpje.Propositional.Literal.{Valuation}
use woorpje.Encoding.Defs.{constant, slot, Pattern, Encoder, num_terminals}
use woorpje.Encoding.Encode.{is_const, terminal_indices, some_length, length_ok, splits}
use woorpje.Encoding.Meaning.{IsRun, Stops, Fills, no_more, holding, padding, Spells}
use woorpje.Encoding.Blank.{Fills-length}
use woorpje.Lengths.Defs.{Progressions, contains_length}

module _ (en : Encoder) (A : Valuation) where
  run-Spells :
      (x : ℕ) (run ps : Pattern) (ks : List ℕ)
      → IsRun en A x run
      → Spells en A ps ks
      → Spells en A (run ++ ps) ks
  run-Spells x [] ps ks t h = h
  run-Spells x (constant c ∷ run) ps ks t h = absurd t
  run-Spells x (slot y j ∷ run) ps ks (d, e, t) h = inr (e, run-Spells x run ps ks t h)

  pub Fills-Spells : {ps : Pattern} {ks : List ℕ} → Fills en A ps ks → Spells en A ps ks
  Fills-Spells (no_more e f) = rw (e, f) refl
  Fills-Spells (holding (constant c) ps k ks r f e g) = rw (e, g, r) (ks, refl, Fills-Spells f)
  Fills-Spells (holding (slot x j) ps k ks r f e g) =
      rw (e, g) (inl (k, ks, r, refl, Fills-Spells f))
  Fills-Spells {ks} (padding x j run ps i t s f e) =
      rw e (inr (i, run-Spells x run ps ks t (Fills-Spells f)))

  pub Spells-append :
      (ps qs : Pattern) (u v : List ℕ)
      → Spells en A ps u
      → Spells en A qs v
      → Spells en A (ps ++ qs) (u ++ v)
  Spells-append [] qs u v h k = rw h k
  Spells-append (constant c ∷ ps) qs u v (ls, e, h) k =
      rw e (ls ++ v, refl, Spells-append ps qs ls v h k)
  Spells-append (slot x j ∷ ps) qs u v (inl (c, ls, r, e, h)) k =
      rw e (inl (c, ls ++ v, r, refl, Spells-append ps qs ls v h k))
  Spells-append (slot x j ∷ ps) qs u v (inr (i, h)) k = inr (i, Spells-append ps qs u v h k)

  Stops-left : (x : ℕ) (ps qs : Pattern) → Stops x (ps ++ qs) → Stops x ps
  Stops-left x [] qs h = tt
  Stops-left x (constant c ∷ ps) qs h = tt
  Stops-left x (slot y j ∷ ps) qs h = h

  -- A pattern and the two parts that hold two words.
  abbrev pub Splits : Pattern → List ℕ → List ℕ → Type 0
  Splits pat u v =
      (ps : Pattern) × (qs : Pattern) × (pat ≡ ps ++ qs) × Fills en A ps u × Fills en A qs v

  pub Fills-Splits :
      {pat : Pattern} {w : List ℕ} (u v : List ℕ) → w ≡ u ++ v → Fills en A pat w → Splits pat u v
  Fills-Splits {pat} [] v d f = ([], pat, refl, no_more refl refl, rw (sym d) f)
  Fills-Splits (k ∷ u) v d (no_more e f) = absurd cc
  Fills-Splits (k ∷ u) v d (holding p ps l ks r f e g) =
      let same : l ∷ ks ≡ k ∷ (u ++ v) = sym g ∙ d in
      let (xs, ys, s, a, b) = Fills-Splits u v (cc) f in
      (p ∷ xs, ys, e ∙ ap (λ z. p ∷ z) s, holding p xs l u r a refl cc, b)
  Fills-Splits (k ∷ u) v d (padding x j run ps i t s f e) =
      let (xs, ys, z, a, b) = Fills-Splits (k ∷ u) v d f in
      (
        slot x j ∷ (run ++ xs),
        ys,
        e
            ∙ ap (λ a. slot x j ∷ (run ++ a)) z
            ∙ ap (λ a. slot x j ∷ a) (sym (append_assoc run xs ys)),
        padding x j run xs i t (Stops-left x xs ys (subst (Stops x) z s)) a refl,
        b,
      )

pub splits-inv : (pat : Pattern) (s : Pattern × Pattern) → In s (splits pat) → pat ≡ s.0 ++ s.1
unfolding splits
splits-inv [] s (inl e) = rw e refl
splits-inv [] s (inr h) = absurd h
splits-inv (p ∷ ps) s (inl e) = rw e refl
splits-inv (p ∷ ps) s (inr h) =
    let (t, i, e) = In-map_inv (λ s. (p ∷ s.0, s.1)) s (splits ps) h in
    rw e (ap (λ z. p ∷ z) (splits-inv ps t i))

pub splits-append : (ps qs : Pattern) → In (ps, qs) (splits (ps ++ qs))
unfolding splits
splits-append [] [] = inl refl
splits-append [] (q ∷ qs) = inl refl
splits-append (p ∷ ps) qs =
    inr (In-map (λ s. (p ∷ s.0, s.1)) (ps, qs) (splits (ps ++ qs)) (splits-append ps qs))

up_to : (k n : ℕ) → (k ≡ n → false ≡ true) → k ≤ n → suc k ≤ n
up_to k n f h = elim (Bool-cases (ltb k n)) [
  | inl e ↦ ground arith
  | inr e ↦ absurd (let l : k ≡ n = ground arith in let z = f l in cc)
]

some_length_complete :
    (la : Progressions) (count k n : ℕ)
    → k ≤ n
    → suc n ≤ k + count
    → contains_length la n ≡ true
    → some_length la count k ≡ true
unfolding some_length
some_length_complete la zero k n h l e = absurd (omega arith)
some_length_complete la (suc count) k n h l e = elim (Bool-cases (contains_length la k)) [
  | inl f ↦ rw f refl
  | inr f ↦ rw f (
      some_length_complete la count (suc k) n
        (up_to k n (λ m. sym f ∙ ap (contains_length la) m ∙ e) h) (omega arith) e)
]

-- Where a word fits and its length is known, the test passes.
pub length_ok_complete :
    (en : Encoder) (A : Valuation) (la : Progressions) {pat : Pattern} {w : List ℕ}
    → Fills en A pat w
    → contains_length la (length w) ≡ true
    → length_ok la pat ≡ true
unfolding length_ok
length_ok_complete en A la {pat} {w} f e =
    let (l, u) = Fills-length en A f in
    some_length_complete la (suc (length pat) - num_terminals pat) (num_terminals pat) (length w) l
      (omega arith) e

pub const-Fills :
    (en : Encoder) (A : Valuation) {pat : Pattern} {w : List ℕ}
    → is_const pat ≡ true
    → Fills en A pat w
    → w ≡ terminal_indices pat
unfolding is_const terminal_indices
const-Fills en A d (no_more e f) = rw (e, f) refl
const-Fills en A d (holding (constant c) ps k ks r f e g) =
    rw (e, g, sym r) (ap (λ z. c ∷ z) (const-Fills en A (sym (ap is_const e) ∙ d) f))
const-Fills en A d (holding (slot x j) ps k ks r f e g) =
    absurd (let z = sym (ap is_const e) ∙ d in cc)
const-Fills en A d (padding x j run ps i t s f e) = absurd (let z = sym (ap is_const e) ∙ d in cc)

pub const-Spells :
    (en : Encoder) (A : Valuation) (pat : Pattern)
    → is_const pat ≡ true
    → Spells en A pat (terminal_indices pat)
unfolding is_const terminal_indices
const-Spells en A [] d = refl
const-Spells en A (constant c ∷ ps) d = (terminal_indices ps, refl, const-Spells en A ps d)
const-Spells en A (slot x j ∷ ps) d = absurd cc
