-- ===== src/Encoding/Correct.antt =====
-- `doEncode` of libs/solvers/satencoding/regular/wordencoder.cpp, over the whole expression.
use woorpje.Common.{
  ℕ, suc, ◌≡◌, ◌↔◌, refl, sym, ap, ◌∙◌, subst, append-nil, true, Bool-cases, Option, some, List, [],
  ◌∷◌, ◌++◌, inl, inr,
}
use woorpje.Propositional.Formula.{disj}
use woorpje.Automaton.Proper.{IsProper, AllProper}
use woorpje.Automaton.Words.{Then}
use woorpje.Regex.Defs.{
  RegNode, Children, reg_empty, reg_word, operation, union, concat, star, none_left, child,
}
use woorpje.Regex.Lang.{Lang, LangRow, LangSome, IsWellFormed, AllWellFormed, HasTwo}
use woorpje.Lengths.Defs.{Progressions}
use woorpje.Automaton.Defs.{◌>>=◌}
use woorpje.Encoding.Defs.{Pattern, Encoder, ffalse, join}
use woorpje.Encoding.Encode.{
  copies_node, Encoding, length_ok, concat_two, do_encode, encode_each, encode_row,
}
use woorpje.Encoding.Meaning.{InRange, MeansSome}
use woorpje.Encoding.Promise.{
  IsCovered, Holds, HasWord, IsKnown, Encodes, Tells-cong, word-Encodes, unless_const-Encodes,
}
use woorpje.Encoding.Pair.{concat_two-Encodes}
use woorpje.Encoding.Rows.{fits, joined-Tells}
use woorpje.Encoding.Stars.{encode_star-Tells}

single-Then :
    (l m : RegNode) (w : List ℕ)
    → Then (Lang l) (Lang m) w ↔ LangRow (child l (child m none_left)) w
single-Then l m w = (
  λ (u, v, x, y, e). (u, v, x, (v, [], y, refl, sym (append-nil v)), e),
  λ (u, v, x, (v', z, y, d, f), e).
      (u, v, x, subst (Lang m) (sym (f ∙ ap (λ a. v' ++ a) d ∙ append-nil v')) y, e),
)

-- The lengths of each node that `doEncode` asks about, in an expression and in what it makes of it, have
-- the length of each word of the node.
abbrev mutual
  pub KnowsLengths : (RegNode → Option Progressions) → RegNode → Type 0
  KnowsLengths lengths reg_empty = Unit
  KnowsLengths lengths (reg_word u) = Unit
  KnowsLengths lengths (operation union cs) =
      IsCovered lengths (operation union cs) × KnowsEach lengths cs
  KnowsLengths lengths (operation concat cs) = KnowsRow lengths cs
  KnowsLengths lengths (operation star none_left) = Unit
  KnowsLengths lengths (operation star (child n cs)) =
      ((k : ℕ) → IsCovered lengths (copies_node (suc k) n))
      × IsCovered lengths (operation star (child n cs))
      × KnowsLengths lengths n

  pub KnowsEach : (RegNode → Option Progressions) → Children → Type 0
  KnowsEach lengths none_left = Unit
  KnowsEach lengths (child n cs) = KnowsLengths lengths n × KnowsEach lengths cs

  pub KnowsRow : (RegNode → Option Progressions) → Children → Type 0
  KnowsRow lengths none_left = Unit
  KnowsRow lengths (child l none_left) = Unit
  KnowsRow lengths (child l (child m none_left)) =
      IsCovered lengths l × IsCovered lengths m × KnowsLengths lengths l × KnowsLengths lengths m
  KnowsRow lengths (child l (child m (child n cs))) =
      IsCovered lengths l
      × IsCovered lengths (operation concat (child m (child n cs)))
      × KnowsLengths lengths l
      × KnowsRow lengths (child m (child n cs))

module _ (b : ℕ) (en : Encoder) (C : Type 0) (lengths : RegNode → Option Progressions)
    (r : InRange b en) (back : (c : ℕ) → en.index2t (en.t_indices c) ≡ c)
    (total : (n : RegNode)
      → IsProper n
      → IsWellFormed n
      → (la : Progressions) × (lengths n ≡ some la)) where
  concat_two-Right :
      (l m : RegNode) (enc_l enc_m : Encoding)
      → IsProper l
      → IsWellFormed l
      → IsProper m
      → IsWellFormed m
      → (C → IsCovered lengths l)
      → (C → IsCovered lengths m)
      → Encodes b en C lengths (Lang l) enc_l
      → Encodes b en C lengths (Lang m) enc_m
      → Encodes b en C lengths (Then (Lang l) (Lang m)) (concat_two en lengths l enc_l m enc_m)
  concat_two-Right l m enc_l enc_m pl wl pm wm vl vm h k =
      let (la, e) = total l pl wl in
      let (la', e') = total m pm wm in
      concat_two-Encodes b en C lengths r l m la la' e e' enc_l enc_m vl vm h k

  mutual
    unfolding do_encode

    pub do_encode-Encodes :
        (n : RegNode)
        → IsProper n
        → IsWellFormed n
        → (C → KnowsLengths lengths n)
        → Encodes b en C lengths (Lang n) (do_encode en lengths n)
    do_encode-Encodes reg_empty p wf a pat k = absurd p
    do_encode-Encodes (reg_word u) p wf a pat k =
        unless_const-Encodes b en C lengths r back (reg_word u) _ p
          (word-Encodes b en C lengths r u) pat k
    do_encode-Encodes (operation union cs) p wf a pat k =
        unless_const-Encodes b en C lengths r back (operation union cs)
          (λ q. lengths (operation union cs) >>= λ la.
            (encode_each en lengths la cs q >>= λ fs. some (join disj (ffalse en) fs)))
          p
          (λ q j.
            (let (la, e) = total (operation union cs) p wf in
              rw e (
                joined-Tells b en C lengths r (LangSome cs) q _ (
                  let (fs, d, g, t) = each-MeansSome la cs p.1 wf (λ c. (a c).1) q j in
                  (
                    fs,
                    d,
                    g,
                    λ A z. (
                      (t A z).0,
                      λ (c, h). (t A z).1 (
                        (c, fits b en C lengths r (operation union cs) la e (λ c. (a c).0) c h),
                        h,
                      ),
                    ),
                  )))))
          pat k
    do_encode-Encodes (operation concat cs) p wf a pat k =
        unless_const-Encodes b en C lengths r back (operation concat cs) _ p
          (λ q j. row-Encodes cs p wf.1 wf.0 a q j) pat k
    do_encode-Encodes (operation star none_left) p wf a pat k = absurd p.0
    do_encode-Encodes (operation star (child n cs)) p wf a pat k =
        unless_const-Encodes b en C lengths r back (operation star (child n cs)) _ p
          (λ q j.
            (let (la, e) = total (operation star (child n cs)) p wf in
              encode_star-Tells b en C lengths r back total n p.1.0 wf.1.0
                (λ x. do_encode en lengths n x) (λ c. (a c).0 0) (λ i c. (a c).0 i)
                (λ x i. do_encode-Encodes n p.1.0 wf.1.0 (λ c. (a c).2) x i) cs q j la e
                (λ c. (a c).1)))
          pat k

    -- The disjuncts of a union whose test of lengths passes where a word of it fits.
    each-MeansSome :
        (la : Progressions) (cs : Children)
        → AllProper cs
        → AllWellFormed cs
        → (C → KnowsEach lengths cs)
        → (pat : Pattern) → IsKnown en pat
        → MeansSome b en
            (λ A. (C × (length_ok la pat ≡ true)) × Holds en (LangSome cs) pat A)
            (HasWord en (LangSome cs) pat)
            (encode_each en lengths la cs pat)
    each-MeansSome la none_left p wf a pat k =
        ([], refl, tt, λ A t. (λ q. absurd q, λ (c, (w, f, l)). absurd l))
    each-MeansSome la (child n cs) p wf a pat k =
        let (fs, e, g, t) = each-MeansSome la cs p.1 wf.1 (λ c. (a c).1) pat k in
        let (f, d, i, m) = do_encode-Encodes n p.0 wf.0 (λ c. (a c).0) pat k in
        elim (Bool-cases (length_ok la pat)) [
          | inl y ↦ (
            f ∷ fs,
            rw (y, d, e) refl,
            (i, g),
            λ A z. (
              λ q. elim q [
                | inl x ↦ (let (w, s, l) = (m A z).0 x in (w, s, inl l))
                | inr x ↦ (let (w, s, l) = (t A z).0 x in (w, s, inr l))
              ],
              λ (c, (w, s, l)). elim l [
                | inl x ↦ inl ((m A z).1 (c.0, (w, s, x)))
                | inr x ↦ inr ((t A z).1 (c, (w, s, x)))
              ],
            ),
          )
          | inr y ↦ (
            fs,
            rw (y, e) refl,
            g,
            λ A z. (
              λ q. (let (w, s, l) = (t A z).0 q in (w, s, inr l)),
              λ (c, h). absurd (let u = c.1 in cc),
            ),
          )
        ]

    row-Encodes :
        (cs : Children)
        → AllProper cs
        → AllWellFormed cs
        → HasTwo cs
        → (C → KnowsRow lengths cs)
        → Encodes b en C lengths (LangRow cs) (encode_row en lengths cs)
    row-Encodes none_left p wf h a pat k = absurd h
    row-Encodes (child l none_left) p wf h a pat k = absurd h
    row-Encodes (child l (child m none_left)) p wf h a pat k =
        Tells-cong b en C lengths pat _ (single-Then l m) (
          concat_two-Right l m _ _ p.0 wf.0 p.1.0 wf.1.0 (λ c. (a c).0) (λ c. (a c).1)
            (λ x i. do_encode-Encodes l p.0 wf.0 (λ c. (a c).2) x i)
            (λ x i. do_encode-Encodes m p.1.0 wf.1.0 (λ c. (a c).3) x i) pat k)
    row-Encodes (child l (child m (child n cs))) p wf h a pat k =
        concat_two-Right l (operation concat (child m (child n cs))) _ _ p.0 wf.0 p.1 (tt, wf.1)
          (λ c. (a c).0) (λ c. (a c).1) (λ x i. do_encode-Encodes l p.0 wf.0 (λ c. (a c).2) x i)
          (λ z i.
            unless_const-Encodes b en C lengths r back (operation concat (child m (child n cs))) _
              p.1 (λ x y. row-Encodes (child m (child n cs)) p.1 wf.1 tt (λ c. (a c).3) x y) z i)
          pat k
