-- ===== src/Encoding/Pair.antt =====
-- `encodeConcat` of two nodes of libs/solvers/satencoding/regular/wordencoder.cpp, with its early
-- returns for the empty set and the empty word.
use woorpje.Common.{
  ℕ, ◌≡◌, ◌↔◌, refl, sym, ap, ◌∙◌, subst, arith, ◌||◌, append-nil, true, Bool-cases, Option, some,
  List, [], ◌++◌, inl, inr,
}
use woorpje.Automaton.Words.{Then}
use woorpje.Regex.Defs.{RegNode, reg_word}
use woorpje.Regex.Derive.{is_reg_empty, is_empty_word}
use woorpje.Regex.Derivative.Parts.{is_empty_word_lem, is_reg_empty_lem}
use woorpje.Regex.Lang.{Lang}
use woorpje.Lengths.Defs.{Progressions}
use woorpje.Encoding.Defs.{Encoder}
use woorpje.Encoding.Encode.{Encoding, concat_two}
use woorpje.Encoding.Meaning.{InRange}
use woorpje.Encoding.Promise.{IsCovered, Encodes, Tells-cong, Tells-ffalse}
use woorpje.Encoding.Rows.{splits-Tells}

module _ (b : ℕ) (en : Encoder) (C : Type 0) (lengths : RegNode → Option Progressions)
    (r : InRange b en) where
  module _ (m n : RegNode) (la_m la_n : Progressions) (em : lengths m ≡ some la_m)
      (en' : lengths n ≡ some la_n) (enc_m enc_n : Encoding) (vm : C → IsCovered lengths m)
      (vn : C → IsCovered lengths n) (hm : Encodes b en C lengths (Lang m) enc_m)
      (hn : Encodes b en C lengths (Lang n) enc_n) where
    pub concat_two-Encodes :
        Encodes b en C lengths (Then (Lang m) (Lang n)) (concat_two en lengths m enc_m n enc_n)
    unfolding concat_two
    concat_two-Encodes pat k = elim (Bool-cases (is_reg_empty n || is_reg_empty m)) [
      | inl d ↦
          rw (concat_two, d)
            (Tells-ffalse b en C lengths r (Then (Lang m) (Lang n)) pat
              (λ A c (w, s, (u, v, l, l', e)). no_word u v d l l'))
      | inr d ↦ elim (Bool-cases (is_empty_word n)) [
        | inl e ↦
            rw (concat_two, d, e)
              (Tells-cong b en C lengths pat (enc_m pat) (then_empty (is_empty_word_lem n e))
                (hm pat k))
        | inr e ↦ elim (Bool-cases (is_empty_word m)) [
          | inl f ↦
              rw (concat_two, d, e, f)
                (Tells-cong b en C lengths pat (enc_n pat) (empty_then (is_empty_word_lem m f))
                  (hn pat k))
          | inr f ↦
              rw (concat_two, d, e, f, em, en')
                (splits-Tells b en C lengths r m n la_m la_n em en' enc_m enc_n vm vn hm hn pat k)
        ]
      ]
    ]
      where
        no_word : (u v : List ℕ) → is_reg_empty n || is_reg_empty m ≡ true → Lang m u → ¬ Lang n v
        no_word u v d l l' = elim (Bool-cases (is_reg_empty n)) [
          | inl e ↦ subst (λ x. Lang x v) (is_reg_empty_lem n e) l'
          | inr e ↦ subst (λ x. Lang x u) (is_reg_empty_lem m (ground arith)) l
        ]

        then_empty : n ≡ reg_word [] → (w : List ℕ) → Lang m w ↔ Then (Lang m) (Lang n) w
        then_empty e w = (
          λ l. (w, [], l, subst (λ x. Lang x []) (sym e) refl, sym (append-nil w)),
          λ (u, v, l, l', d).
              (let z = subst (λ x. Lang x v) e l' in
                subst (Lang m) (sym (d ∙ ap (λ y. u ++ y) z ∙ append-nil u)) l),
        )

        empty_then : m ≡ reg_word [] → (w : List ℕ) → Lang n w ↔ Then (Lang m) (Lang n) w
        empty_then e w = (
          λ l. ([], w, subst (λ x. Lang x []) (sym e) refl, l, refl),
          λ (u, v, l, l', d).
              (let z = subst (λ x. Lang x u) e l in
                subst (Lang n) (sym (d ∙ ap (λ y. y ++ v) z)) l'),
        )
