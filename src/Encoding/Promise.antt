-- ===== src/Encoding/Promise.antt =====
-- What `doEncode` of libs/solvers/satencoding/regular/wordencoder.cpp promises of a node, and the two
-- calls that do not recur: the automaton for a pattern of constants, and a single word.
use woorpje.Common.{
  ℕ, suc, ◌≡◌, ◌↔◌, refl, sym, ap, ◌∙◌, true, Bool-cases, Option, some, subst, List, [], ◌∷◌,
  length, inl, inr, if◌then◌else◌,
}
use mathlib.Core.List.{map}
use woorpje.Word.Defs.{iterate}
use woorpje.Propositional.Literal.{Valuation}
use woorpje.Propositional.Formula.{PlFormula}
use woorpje.Automaton.Defs.{Nfa, ◌>>=◌}
use woorpje.Automaton.Accept.{accept}
use woorpje.Automaton.Proper.{IsProper}
use woorpje.Automaton.Tracking.{constant_word, accept-regex_to_nfa}
use woorpje.Regex.Defs.{RegNode}
use woorpje.Regex.Lang.{Lang}
use woorpje.Lengths.Defs.{Progressions, contains_length}
use woorpje.Encoding.Defs.{constant, slot, Pattern, Encoder, ffalse, ftrue, encode_word}
use woorpje.Encoding.Encode.{Encoding, is_const, terminal_indices, built_word, by_nfa, unless_const}
use woorpje.Encoding.Meaning.{
  Fills, Spells, InRange, eval-ffalse, eval-ftrue, ffalse-IsEncodable, ftrue-IsEncodable, Means,
}
use woorpje.Encoding.Words.{encode_word_lem}
use woorpje.Encoding.Spelling.{Fills-Spells, const-Fills, const-Spells}

-- Each constant of the pattern is the index of a character.
abbrev pub IsKnown : Encoder → Pattern → Type 0
IsKnown en [] = Unit
IsKnown en (constant c ∷ ps) = (en.t_indices (en.index2t c) ≡ c) × IsKnown en ps
IsKnown en (slot x j ∷ ps) = IsKnown en ps

-- The lengths of a node have the length of each of its words.
abbrev pub IsCovered : (RegNode → Option Progressions) → RegNode → Type 0
IsCovered lengths r =
    (la : Progressions) (w : List ℕ)
    → lengths r ≡ some la
    → Lang r w
    → contains_length la (length w) ≡ true

-- The pattern holds a word of the language, with the empty positions last.
abbrev pub Holds : Encoder → (List ℕ → Type 0) → Pattern → Valuation → Type 0
Holds en L pat A = (w : List ℕ) × Fills en A pat (map en.t_indices w) × L w

-- The pattern spells a word of the language.
abbrev pub HasWord : Encoder → (List ℕ → Type 0) → Pattern → Valuation → Type 0
HasWord en L pat A = (w : List ℕ) × Spells en A pat (map en.t_indices w) × L w

pub HasWord-cong :
    (en : Encoder) {L M : List ℕ → Type 0} (pat : Pattern) (A : Valuation)
    → ((w : List ℕ) → L w → M w)
    → HasWord en L pat A
    → HasWord en M pat A
HasWord-cong en pat A f (w, s, l) = (w, s, f w l)

terminal_indices-IsKnown :
    (en : Encoder) (pat : Pattern)
    → is_const pat ≡ true
    → IsKnown en pat
    → map en.t_indices (map en.index2t (terminal_indices pat)) ≡ terminal_indices pat
unfolding terminal_indices is_const
terminal_indices-IsKnown en [] d k = refl
terminal_indices-IsKnown en (constant c ∷ ps) d (e, k) =
    rw (e, terminal_indices-IsKnown en ps d k) refl
terminal_indices-IsKnown en (slot x j ∷ ps) d k = absurd cc

pub map-back :
    (en : Encoder)
    → ((c : ℕ) → en.index2t (en.t_indices c) ≡ c)
    → (w : List ℕ) → map en.index2t (map en.t_indices w) ≡ w
map-back en back [] = refl
map-back en back (c ∷ w) = rw (back c, map-back en back w) refl

accept-built_word : (m : Nfa) (v : List ℕ) → accept m (built_word v) ≡ accept m (constant_word v)
unfolding accept iterate
accept-built_word m [] = refl
accept-built_word m (c ∷ v) = refl

-- `C` is what the lengths are to be where a word is not to be lost.
module _ (b : ℕ) (en : Encoder) (C : Type 0) (lengths : RegNode → Option Progressions) where
  abbrev pub Tells : (List ℕ → Type 0) → Pattern → Option PlFormula → Type 0
  Tells L pat o = Means b en (λ A. C × Holds en L pat A) (HasWord en L pat) o

  abbrev pub Encodes : (List ℕ → Type 0) → Encoding → Type 0
  Encodes L enc = (pat : Pattern) → IsKnown en pat → Tells L pat (enc pat)

  pub Tells-cong :
      {L M : List ℕ → Type 0} (pat : Pattern) (o : Option PlFormula)
      → ((w : List ℕ) → L w ↔ M w)
      → Tells L pat o
      → Tells M pat o
  Tells-cong pat o f (g, e, i, t) = (
    g,
    e,
    i,
    λ A h. (
      λ k. (let (w, s, l) = (t A h).0 k in (w, s, (f w).0 l)),
      λ (c, (w, s, l)). (t A h).1 (c, (w, s, (f w).1 l)),
    ),
  )

  module _ (r : InRange b en) where
    -- No word.
    pub Tells-ffalse :
        (L : List ℕ → Type 0) (pat : Pattern)
        → ((A : Valuation) → C → ¬ Holds en L pat A)
        → Tells L pat (some (ffalse en))
    Tells-ffalse L pat n = (
      ffalse en,
      refl,
      ffalse-IsEncodable b en r,
      λ A h. (λ k. absurd (let d = eval-ffalse b en r A in cc), λ (c, k). absurd (n A c k)),
    )

    pub word-Encodes :
        (u : List ℕ)
        → Encodes (λ w. w ≡ u) (λ p. encode_word en (suc (length p)) p (map en.t_indices u))
    word-Encodes u pat k =
        let (f, e, i, t) = encode_word_lem b en pat (map en.t_indices u) r in
        (
          f,
          e,
          i,
          λ A h. (
            λ l. (u, Fills-Spells en A ((t A h).0 l), refl),
            λ (c, (w, s, d)). (t A h).1 (subst (λ z. Fills en A pat (map en.t_indices z)) d s),
          ),
        )

    module _ (back : (c : ℕ) → en.index2t (en.t_indices c) ≡ c) where
      by_nfa-Tells :
          (n : RegNode) (pat : Pattern)
          → IsProper n
          → is_const pat ≡ true
          → IsKnown en pat
          → Tells (Lang n) pat (by_nfa en lengths n pat)
      unfolding by_nfa
      by_nfa-Tells n pat p d k =
          let v = map en.index2t (terminal_indices pat) in
          let (m, e, (z, f, g)) = accept-regex_to_nfa n v p in
          let same : by_nfa en lengths n pat ≡ some (if z then ftrue en else ffalse en) =
            rw (by_nfa, e)
              (ap (λ o. o >>= λ b. some (if b then ftrue en else ffalse en))
                (accept-built_word m v ∙ f)) in
          rw same (elim (Bool-cases z) [
            | inl h ↦ rw h (
              ftrue en,
              refl,
              ftrue-IsEncodable b en r,
              λ A t. (
                λ l. (
                  v,
                  subst (Spells en A pat) (sym (terminal_indices-IsKnown en pat d k))
                      (const-Spells en A pat d),
                  g.0 h,
                ),
                λ l. eval-ftrue b en r A,
              ),
            )
            | inr h ↦ rw h (
                Tells-ffalse (Lang n) pat (λ A c (w, s, l).
                  let q = const-Fills en A d s in
                  let q' : w ≡ v = sym (map-back en back w) ∙ ap (map en.index2t) q in
                  let y = g.1 (subst (Lang n) q' l) in cc))
          ])

      pub unless_const-Encodes :
          (n : RegNode) (enc : Encoding)
          → IsProper n
          → Encodes (Lang n) enc
          → Encodes (Lang n) (unless_const en lengths n enc)
      unfolding unless_const
      unless_const-Encodes n enc p h pat k = elim (Bool-cases (is_const pat)) [
        | inl d ↦ rw (unless_const, d) (by_nfa-Tells n pat p d k)
        | inr d ↦ rw (unless_const, d) (h pat k)
      ]
