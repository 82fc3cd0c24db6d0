-- ===== src/Encoding/Words.antt =====
-- `encodeWord` of libs/solvers/satencoding/regular/wordencoder.cpp against the words of a pattern.
use woorpje.Common.{
  ℕ, zero, suc, ◌+◌, ◌≤◌, ◌≡◌, ◌↔◌, inl, inr, refl, Bool-cases, ◌||◌, Option, some, List, [], ◌∷◌,
  length, ltb, arith,
}
use woorpje.Word.Sequence.{drop}
use woorpje.Propositional.Literal.{Valuation}
use woorpje.Propositional.Formula.{PlFormula, conj, disj}
use woorpje.Encoding.Defs.{
  Pattern, Encoder, all_lambda, num_terminals, join, ffalse, ftrue, word_rounds, word_body,
  encode_word,
}
use woorpje.Encoding.Meaning.{
  Fills, no_more, InRange, AllTrue, AllGood, join-conj, join-disj, join-IsEncodable, eval-ffalse,
  eval-ftrue, ffalse-IsEncodable, ftrue-IsEncodable, Means,
}
use woorpje.Encoding.Blank.{IsBlank, IsBlank-Fills, Fills-length, all_lambda-Blanked}
use woorpje.Encoding.Rounds.{Fills-sound, Fills-Parted}
use woorpje.Encoding.Round.{Rounds, IsRight, round-Rounds}

module _ (b : ℕ) (en : Encoder) (r : InRange b en) where
  module _ (again : Pattern → List ℕ → Option PlFormula) (pat : Pattern) (k : ℕ) (ks : List ℕ) where
    abbrev e : List ℕ
    e = k ∷ ks

    word_rounds-Rounds :
        (count n : ℕ)
        → IsRight b en r again (length pat)
        → length e ≤ length pat
        → n + count ≡ suc (length e)
        → Rounds b en r pat e n (word_rounds en again pat e count n)
    unfolding word_rounds
    word_rounds-Rounds zero n w l i =
        ([], refl, tt, λ A t. ((λ h. absurd h), λ (m, y, z, s, u). omega (arith, i, y, z)))
    word_rounds-Rounds (suc count) n w l i =
        round-Rounds b en r again pat k ks n (drop n pat) (word_rounds en again pat e count (suc n))
          w l (omega arith) refl (word_rounds-Rounds count (suc n) w l (omega arith))

    by_rounds :
        IsRight b en r again (length pat)
        → length e ≤ length pat
        → Means b en (λ A. Fills en A pat e) (λ A. Fills en A pat e) (word_body en again pat e)
    unfolding word_body
    by_rounds w l =
        let (fs, g, good, f) = word_rounds-Rounds (suc (length e)) 0 w l (omega arith) in
        (
          join disj (ffalse en) fs,
          rw g refl,
          join-IsEncodable b disj (ffalse en) fs (ffalse-IsEncodable b en r) good,
          λ A t.
              (let p = join-disj A (ffalse en) fs (eval-ffalse b en r A) in
                (
                  λ h. (let (m, y, z, s, u) = (f A t).0 (p.0 h) in Fills-sound en A m pat e s u),
                  λ h.
                      (let (m, z, s, u) = Fills-Parted en A h in
                        p.1 ((f A t).1 (m, omega arith, z, s, u))),
                )),
        )

  body-Means :
      (again : Pattern → List ℕ → Option PlFormula) (pat : Pattern) (e : List ℕ)
      → IsRight b en r again (length pat)
      → length e ≤ length pat
      → Means b en (λ A. Fills en A pat e) (λ A. Fills en A pat e) (word_body en again pat e)
  unfolding word_body
  body-Means again pat (k ∷ ks) w l = by_rounds again pat k ks w l
  body-Means again [] [] w l = (
    ftrue en,
    refl,
    ftrue-IsEncodable b en r,
    λ A t. (λ h. no_more refl refl, λ h. eval-ftrue b en r A),
  )
  body-Means again (p ∷ ps) [] w l = elim (all_lambda-Blanked b en r (p ∷ ps)) [
    | inl (e, f) ↦ (
      ffalse en,
      rw (word_body, e) refl,
      ffalse-IsEncodable b en r,
      λ A t. (
        λ h. absurd (let k = eval-ffalse b en r A in cc),
        λ h. absurd (f A ((IsBlank-Fills en A (p ∷ ps)).1 h)),
      ),
    )
    | inr (fs, e, g, d, f) ↦ all_blank fs d g f e
  ]
    where
      all_blank :
          (fs : List PlFormula)
          → length fs ≡ suc (length ps)
          → AllGood b fs
          → ((A : Valuation) → AllTrue A fs ↔ IsBlank en A (p ∷ ps))
          → all_lambda en (p ∷ ps) ≡ some fs
          → Means b en
              (λ A. Fills en A (p ∷ ps) [])
              (λ A. Fills en A (p ∷ ps) [])
              (word_body en again (p ∷ ps) [])
      all_blank [] d g f e = absurd (omega (arith, d))
      all_blank (f' ∷ fs) d g f e = (
        join conj (ffalse en) (f' ∷ fs),
        rw (word_body, e) refl,
        join-IsEncodable b conj (ffalse en) (f' ∷ fs) (ffalse-IsEncodable b en r) g,
        λ A t.
            (let i = join-conj A (ffalse en) f' fs in
              let k = IsBlank-Fills en A (p ∷ ps) in
              (λ h. k.0 ((f A).0 (i.0 h)), λ h. i.1 ((f A).1 (k.1 h)))),
      )

  encode_word-IsRight : (fuel : ℕ) → IsRight b en r (encode_word en fuel) fuel
  unfolding encode_word
  encode_word-IsRight zero ps ks l = absurd (omega arith)
  encode_word-IsRight (suc fuel) ps ks l =
      elim (Bool-cases (ltb (length ps) (length ks) || ltb (length ks) (num_terminals ps))) [
        | inl h ↦ rw h (
          ffalse en,
          refl,
          ffalse-IsEncodable b en r,
          λ A t. (
            λ k. absurd (let d = eval-ffalse b en r A in cc),
            λ k. absurd (let (m, n) = Fills-length en A k in ground arith),
          ),
        )
        | inr h ↦ rw h (
            body-Means (encode_word en fuel) ps ks
              (λ qs ls k. encode_word-IsRight fuel qs ls (omega arith)) (ground arith))
      ]

-- With one unit of fuel more than there are positions, encodeWord returns a formula that tseytin_cnf
-- takes and that is true exactly where the pattern holds the word, the empty positions of each run of
-- one variable's positions last.
pub encode_word_lem :
    (b : ℕ) (en : Encoder) (pat : Pattern) (e : List ℕ)
    → InRange b en
    → Means b en
        (λ A. Fills en A pat e)
        (λ A. Fills en A pat e)
        (encode_word en (suc (length pat)) pat e)
encode_word_lem b en pat e r = encode_word-IsRight b en r (suc (length pat)) pat e (omega arith)
