-- ===== src/Encoding/Rows.antt =====
-- The loop of `encodeConcat` of libs/solvers/satencoding/regular/wordencoder.cpp, over the splits of
-- the pattern.
use woorpje.Common.{
  ℕ, suc, ◌≡◌, ◌⊎◌, refl, sym, ap, ◌∙◌, subst, arith, true, Bool-cases, Option, some, List, [], ◌∷◌,
  ◌++◌, ◌&&◌, length, inl, inr,
}
use mathlib.Core.List.{map}
use woorpje.Members.{In}
use woorpje.Propositional.Literal.{Valuation}
use woorpje.Propositional.Formula.{PlFormula, conj, disj, eval}
use woorpje.Automaton.Defs.{◌>>=◌}
use woorpje.Automaton.Words.{Then}
use woorpje.Regex.Defs.{RegNode}
use woorpje.Regex.Lang.{Lang}
use woorpje.Lengths.Defs.{Progressions, contains_length}
use woorpje.Encoding.Defs.{constant, slot, Pattern, Encoder, ffalse, join}
use woorpje.Encoding.Encode.{Encoding, length_ok, splits, conj_two, concat_rounds}
use woorpje.Encoding.Meaning.{
  Spells, InRange, MeansSome, eval-conj, eval-ffalse, ffalse-IsEncodable, join-disj,
  join-IsEncodable, junct-IsEncodable,
}
use woorpje.Encoding.Spelling.{
  Fills-Splits, Spells-append, splits-inv, splits-append, length_ok_complete,
}
use woorpje.Encoding.Promise.{IsKnown, IsCovered, Holds, HasWord, Tells, Encodes}

pub IsKnown-left : (en : Encoder) (ps qs : Pattern) → IsKnown en (ps ++ qs) → IsKnown en ps
IsKnown-left en [] qs h = tt
IsKnown-left en (constant c ∷ ps) qs (e, h) = (e, IsKnown-left en ps qs h)
IsKnown-left en (slot x j ∷ ps) qs h = IsKnown-left en ps qs h

pub IsKnown-right : (en : Encoder) (ps qs : Pattern) → IsKnown en (ps ++ qs) → IsKnown en qs
IsKnown-right en [] qs h = h
IsKnown-right en (constant c ∷ ps) qs (e, h) = IsKnown-right en ps qs h
IsKnown-right en (slot x j ∷ ps) qs h = IsKnown-right en ps qs h

pub map-append : (f : ℕ → ℕ) (u v : List ℕ) → map f (u ++ v) ≡ map f u ++ map f v
map-append f [] v = refl
map-append f (c ∷ u) v = ap (λ z. f c ∷ z) (map-append f u v)

pub length-map : (f : ℕ → ℕ) (w : List ℕ) → length (map f w) ≡ length w
length-map f [] = refl
length-map f (c ∷ w) = ap suc (length-map f w)

-- Of one of the splits, the parts have a word of each language.
abbrev pub SomeSplit :
    ((List ℕ → Type 0) → Pattern → Valuation → Type 0)
    → (List ℕ → Type 0)
    → (List ℕ → Type 0)
    → List (Pattern × Pattern)
    → Valuation
    → Type 0
SomeSplit P L M [] A = ⊥
SomeSplit P L M ((ps, qs) ∷ ss) A = (P L ps A × P M qs A) ⊎ SomeSplit P L M ss A

SomeSplit-In :
    (P : (List ℕ → Type 0) → Pattern → Valuation → Type 0) (L M : List ℕ → Type 0) (ps qs : Pattern)
    (ss : List (Pattern × Pattern)) (A : Valuation)
    → In (ps, qs) ss
    → P L ps A
    → P M qs A
    → SomeSplit P L M ss A
SomeSplit-In P L M ps qs [] A i h k = absurd i
SomeSplit-In P L M ps qs (s ∷ ss) A (inl e) h k =
    inl (subst (λ z. P L z A) (ap (λ z. z.0) e) h, subst (λ z. P M z A) (ap (λ z. z.1) e) k)
SomeSplit-In P L M ps qs (s ∷ ss) A (inr i) h k = inr (SomeSplit-In P L M ps qs ss A i h k)

SomeSplit-inv :
    (P : (List ℕ → Type 0) → Pattern → Valuation → Type 0) (L M : List ℕ → Type 0)
    (ss : List (Pattern × Pattern)) (A : Valuation)
    → SomeSplit P L M ss A
    → (ps : Pattern) × (qs : Pattern) × In (ps, qs) ss × P L ps A × P M qs A
SomeSplit-inv P L M [] A h = absurd h
SomeSplit-inv P L M ((ps, qs) ∷ ss) A (inl (h, k)) = (ps, qs, inl refl, h, k)
SomeSplit-inv P L M ((ps, qs) ∷ ss) A (inr h) =
    let (xs, ys, i, p, q) = SomeSplit-inv P L M ss A h in (xs, ys, inr i, p, q)

module _ (b : ℕ) (en : Encoder) (C : Type 0) (lengths : RegNode → Option Progressions)
    (r : InRange b en) where
  -- The disjunction over the disjuncts.
  pub joined-Tells :
      (L : List ℕ → Type 0) (pat : Pattern) (o : Option (List PlFormula))
      → MeansSome b en (λ A. C × Holds en L pat A) (HasWord en L pat) o
      → Tells b en C lengths L pat (o >>= λ fs. some (join disj (ffalse en) fs))
  joined-Tells L pat o (fs, e, g, f) = (
    join disj (ffalse en) fs,
    rw e refl,
    join-IsEncodable b disj (ffalse en) fs (ffalse-IsEncodable b en r) g,
    λ A t.
        (let i = join-disj A (ffalse en) fs (eval-ffalse b en r A) in
          (λ h. (f A t).0 (i.0 h), λ h. i.1 ((f A t).1 h))),
  )

  abbrev AllKnown : List (Pattern × Pattern) → Type 0
  AllKnown ss = (ps qs : Pattern) → In (ps, qs) ss → IsKnown en ps × IsKnown en qs

  -- A word of the node that the pattern holds passes the test of lengths.
  pub fits :
      (n : RegNode) (la : Progressions) {pat : Pattern} {A : Valuation}
      → lengths n ≡ some la
      → (C → IsCovered lengths n)
      → C
      → Holds en (Lang n) pat A
      → length_ok la pat ≡ true
  fits n la {A} e v c (w, s, l) =
      length_ok_complete en A la s
        (ap (contains_length la) (length-map en.t_indices w) ∙ v c la w e l)

  module _ (m n : RegNode) (la_m la_n : Progressions) (em : lengths m ≡ some la_m)
      (en' : lengths n ≡ some la_n) (enc_m enc_n : Encoding) (vm : C → IsCovered lengths m)
      (vn : C → IsCovered lengths n) (hm : Encodes b en C lengths (Lang m) enc_m)
      (hn : Encodes b en C lengths (Lang n) enc_n) where
    abbrev Rounds : List (Pattern × Pattern) → Option (List PlFormula) → Type 0
    Rounds ss o =
        MeansSome b en (λ A. C × SomeSplit (Holds en) (Lang m) (Lang n) ss A)
          (SomeSplit (HasWord en) (Lang m) (Lang n) ss) o

    concat_rounds-Rounds :
        (ss : List (Pattern × Pattern))
        → AllKnown ss
        → Rounds ss (concat_rounds en lengths enc_m enc_n la_m la_n ss)
    unfolding concat_rounds eval
    concat_rounds-Rounds [] k = ([], refl, tt, λ A t. (λ h. absurd h, λ h. absurd h.1))
    concat_rounds-Rounds ((ps, qs) ∷ ss) k =
        let (fs, e, g, f) = concat_rounds-Rounds ss (λ x y i. k x y (inr i)) in
        elim (Bool-cases (length_ok la_m ps && length_ok la_n qs)) [
          | inl d ↦
              (let (fm, em, gm, tm) = hm ps (k ps qs (inl refl)).0 in
                let (fn, en', gn, tn) = hn qs (k ps qs (inl refl)).1 in
                (
                  conj_two fm fn ∷ fs,
                  rw (d, em, en', e) refl,
                  (junct-IsEncodable b conj fm fn [] (gm, (gn, tt)), g),
                  λ A t.
                      (let i = eval-conj A (fm ∷ fn ∷ []) in
                        (
                          λ h. elim h [
                            | inl q ↦ (let (x, y) = i.0 q in inl ((tm A t).0 x, (tn A t).0 y.0))
                            | inr q ↦ inr ((f A t).0 q)
                          ],
                          λ (c, h). elim h [
                            | inl (x, y) ↦ inl (i.1 ((tm A t).1 (c, x), ((tn A t).1 (c, y), tt)))
                            | inr q ↦ inr ((f A t).1 (c, q))
                          ],
                        )),
                ))
          | inr d ↦ (
            fs,
            rw (d, e) refl,
            g,
            λ A t. (
              λ h. inr ((f A t).0 h),
              λ (c, h). elim h [
                | inl (x, y) ↦ absurd (
                    let p = fits m la_m em vm c x in let q = fits n la_n en' vn c y in ground arith)
                | inr h ↦ (f A t).1 (c, h)
              ],
            ),
          )
        ]

    pub splits-Tells :
        (pat : Pattern)
        → IsKnown en pat
        → Tells b en C lengths (Then (Lang m) (Lang n)) pat (
            concat_rounds en lengths enc_m enc_n la_m la_n (splits pat) >>= λ fs.
            some (join disj (ffalse en) fs))
    splits-Tells pat k =
        let (fs, e, g, f) = concat_rounds-Rounds (splits pat) (λ ps qs i.
          (let d = subst (IsKnown en) (splits-inv pat (ps, qs) i) k in
            (IsKnown-left en ps qs d, IsKnown-right en ps qs d))) in
        joined-Tells (Then (Lang m) (Lang n)) pat _ (
          fs,
          e,
          g,
          λ A t. (
            λ h.
                (let (ps, qs, i, (u, s, l), (v, s', l')) =
                    SomeSplit-inv (HasWord en) (Lang m) (Lang n) (splits pat) A ((f A t).0 h) in
                  (
                    u ++ v,
                    subst (Spells en A pat) (sym (map-append en.t_indices u v)) (
                        subst (λ z. Spells en A z (map en.t_indices u ++ map en.t_indices v))
                          (sym (splits-inv pat (ps, qs) i)) (Spells-append en A ps qs _ _ s s')),
                    (u, v, l, l', refl),
                  )),
            λ (c, (w, s, (u, v, l, l', d))).
                (let (ps, qs, z, x, y) =
                    Fills-Splits en A (map en.t_indices u) (map en.t_indices v)
                      (ap (map en.t_indices) d ∙ map-append en.t_indices u v) s in
                  (f A t).1 (
                    c,
                    SomeSplit-In (Holds en) (Lang m) (Lang n) ps qs (splits pat) A
                        (subst (λ a. In (ps, qs) (splits a)) (sym z) (splits-append ps qs))
                        (u, x, l) (v, y, l'),
                  )),
          ),
        )
