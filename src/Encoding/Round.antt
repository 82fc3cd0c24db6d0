-- ===== src/Encoding/Round.antt =====
-- One round of the loop of `encodeWord` of libs/solvers/satencoding/regular/wordencoder.cpp, with those
-- behind it.
use woorpje.Common.{
  ℕ, zero, suc, ◌<◌, ◌≤◌, ◌≡◌, ◌↔◌, ◌⊎◌, inl, inr, refl, sym, subst, Bool-cases, Option, some, List,
  [], ◌∷◌, ◌++◌, ◌==◌, length, length-append, arith,
}
use woorpje.Word.Sequence.{drop}
use woorpje.Propositional.Literal.{Valuation}
use woorpje.Propositional.Formula.{PlFormula, eval}
use woorpje.Encoding.Defs.{
  constant, slot, Pattern, Encoder, lambda, lambda_run, push_conj, word_round,
}
use woorpje.Encoding.Meaning.{
  Fills, InRange, AllTrue, SomeTrue, AllGood, AllGood-append, AllTrue-append, SomeTrue-push_conj,
  AllGood-push_conj, Means, MeansSome,
}
use woorpje.Encoding.Rounds.{Begins, Ends, run-AllGood, run-length, match_prefix-Matched}

drop_all : {A : Type 0} (n : ℕ) (xs : List A) → length xs ≤ n → drop n xs ≡ []
drop_all zero [] h = refl
drop_all zero (x ∷ xs) h = absurd (omega arith)
drop_all (suc n) [] h = refl
drop_all (suc n) (x ∷ xs) h = drop_all n xs (omega arith)

drop_none : {A : Type 0} (n : ℕ) (xs : List A) → drop n xs ≡ [] → length xs ≤ n
drop_none zero [] h = omega arith
drop_none zero (x ∷ xs) h = absurd cc
drop_none (suc n) [] h = omega arith
drop_none (suc n) (x ∷ xs) h = let k = drop_none n xs h in omega arith

length-drop : {A : Type 0} (n : ℕ) (xs : List A) → length (drop n xs) ≤ length xs
length-drop zero xs = omega arith
length-drop (suc n) [] = omega arith
length-drop (suc n) (x ∷ xs) = let k = length-drop n xs in omega arith

pushed :
    (A : Valuation) (fs gs : List PlFormula)
    → 0 < length fs
    → SomeTrue A (push_conj fs gs) ↔ (AllTrue A fs ⊎ SomeTrue A gs)
pushed A [] gs h = absurd (omega arith)
pushed A (f ∷ fs) gs h = SomeTrue-push_conj A f fs gs

pushed-AllGood :
    (b : ℕ) (fs gs : List PlFormula)
    → 0 < length fs
    → AllGood b fs
    → AllGood b gs
    → AllGood b (push_conj fs gs)
pushed-AllGood b [] gs l h k = absurd (omega arith)
pushed-AllGood b (f ∷ fs) gs l h k = AllGood-push_conj b f fs gs h k

module _ (b : ℕ) (en : Encoder) (r : InRange b en) where
  -- From round `n` on.
  abbrev pub Later : Pattern → List ℕ → ℕ → Valuation → Type 0
  Later pat e n A =
      (m : ℕ) × (n ≤ m) × (m ≤ length e) × Begins en A m pat e × Ends en A (drop m pat) (drop m e)

  abbrev pub Rounds : Pattern → List ℕ → ℕ → Option (List PlFormula) → Type 0
  Rounds pat e n o = MeansSome b en (Later pat e n) (Later pat e n) o

  abbrev pub IsRight : (Pattern → List ℕ → Option PlFormula) → ℕ → Type 0
  IsRight again n =
      (ps : Pattern) (ks : List ℕ)
      → length ps < n
      → Means b en (λ A. Fills en A ps ks) (λ A. Fills en A ps ks) (again ps ks)

  Later-suc :
      (pat : Pattern) (e : List ℕ) (n : ℕ) (A : Valuation) → Later pat e (suc n) A → Later pat e n A
  Later-suc pat e n A (m, l, k, s, t) = (m, omega arith, k, s, t)

  Later-split :
      (pat : Pattern) (e : List ℕ) (n : ℕ) (A : Valuation)
      → Later pat e n A
      → (Begins en A n pat e × Ends en A (drop n pat) (drop n e)) ⊎ Later pat e (suc n) A
  Later-split pat e n A (m, l, k, s, t) = elim (Bool-cases (n == m)) [
    | inl d ↦
        (let same : m ≡ n = ground arith in
          inl (
            subst (λ z. Begins en A z pat e) same s,
            subst (λ z. Ends en A (drop z pat) (drop z e)) same t,
          ))
    | inr d ↦ inr (m, ground arith, k, s, t)
  ]

  nothing_Later :
      (pat : Pattern) (e : List ℕ) (n : ℕ)
      → ((A : Valuation) (m : ℕ) → n ≤ m → ¬ Begins en A m pat e)
      → Rounds pat e n (some [])
  nothing_Later pat e n f = ([], refl, tt, λ A t. ((λ h. absurd h), λ (m, l, k, s, t). f A m l s))

  module _ (again : Pattern → List ℕ → Option PlFormula) (pat : Pattern) (k : ℕ) (ks : List ℕ) where
    abbrev pub e : List ℕ
    e = k ∷ ks

    pub round-Rounds :
        (n : ℕ) (q : Pattern) (rest : Option (List PlFormula))
        → IsRight again (length pat)
        → length e ≤ length pat
        → n ≤ length e
        → drop n pat ≡ q
        → Rounds pat e (suc n) rest
        → Rounds pat e n (word_round en again pat e n q rest)
    unfolding word_round eval
    round-Rounds n (constant c ∷ ps) rest w l i d (gs, g, good, f) = (
      gs,
      g,
      good,
      λ A t. (
        λ h. Later-suc pat e n A ((f A t).0 h),
        λ h. elim (Later-split pat e n A h) [
          | inl (s, u) ↦ absurd (subst (λ z. Ends en A z (drop n e)) d u)
          | inr s ↦ (f A t).1 s
        ],
      ),
    )
    round-Rounds n [] rest w l i d (gs, g, good, f) =
        elim (match_prefix-Matched b en r n pat e (omega arith) i) [
          | inl (m, never) ↦ rw (word_round, m) (nothing_Later pat e n never)
          | inr (fs, m, fine, size, means) ↦
              (let short = drop_none n pat d in
                let some_fs : 0 < length fs = omega (arith, size, short, l) in
                (
                  push_conj fs gs,
                  rw (word_round, m, g) refl,
                  pushed-AllGood b fs gs some_fs fine good,
                  λ A t.
                      (let p = pushed A fs gs some_fs in
                        (
                          λ h. elim (p.0 h) [
                            | inl a ↦ (
                              n,
                              omega arith,
                              i,
                              (means A t).0 a,
                              subst (λ z. Ends en A z (drop n e)) (sym d)
                                  (drop_all n e (omega (arith, short, l))),
                            )
                            | inr a ↦ Later-suc pat e n A ((f A t).0 a)
                          ],
                          λ h. p.1 (elim (Later-split pat e n A h) [
                            | inl (s, u) ↦ inl ((means A t).1 s)
                            | inr s ↦ inr ((f A t).1 s)
                          ]),
                        )),
                ))
        ]
    round-Rounds n (slot x j ∷ ps) rest w l i d (gs, g, good, f) =
        elim (match_prefix-Matched b en r n pat e (omega arith) i) [
          | inl (m, never) ↦ rw (word_round, m) (nothing_Later pat e n never)
          | inr (fs, m, fine, size, means) ↦
              (let shorter : suc (length ps) ≤ length pat =
                  subst (λ z. length z ≤ length pat) d (length-drop n pat) in
                let (c, a, ready, says) =
                  w (lambda_run en x ps).1 (drop n e)
                    (omega (arith, shorter, run-length en x ps)) in
                let behind : List PlFormula = lambda en x j ∷ ((lambda_run en x ps).0 ++ c ∷ []) in
                let all = fs ++ behind in
                let some_fs : 0 < length all = omega (arith, length-append fs behind) in
                let filled =
                  AllGood-append b (lambda_run en x ps).0 (c ∷ []) (run-AllGood b en r x ps)
                    (ready, tt) in
                (
                  push_conj all gs,
                  rw (word_round, m, a, g) refl,
                  pushed-AllGood b all gs some_fs
                      (AllGood-append b fs behind fine (
                        (r.variable_pos x j en.sigma_size, r.variable_lt x j en.sigma_size),
                        filled,
                      ))
                      good,
                  λ A t.
                      (let p = pushed A all gs some_fs in
                        let o = AllTrue-append A fs behind in
                        let u = AllTrue-append A (lambda_run en x ps).0 (c ∷ []) in
                        (
                          λ h. elim (p.0 h) [
                            | inl a ↦
                                (let (v, (y, z)) = o.0 a in
                                  let (run, last) = u.0 z in
                                  (
                                    n,
                                    omega arith,
                                    i,
                                    (means A t).0 v,
                                    subst (λ z. Ends en A z (drop n e)) (sym d)
                                        (y, run, (says A t).0 last.0),
                                  ))
                            | inr a ↦ Later-suc pat e n A ((f A t).0 a)
                          ],
                          λ h. p.1 (elim (Later-split pat e n A h) [
                            | inl (s, v) ↦
                                (let (y, run, z) = subst (λ z. Ends en A z (drop n e)) d v in
                                  inl (o.1 ((means A t).1 s, (y, u.1 (run, ((says A t).1 z, tt))))))
                            | inr s ↦ inr ((f A t).1 s)
                          ]),
                        )),
                ))
        ]
