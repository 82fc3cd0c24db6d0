-- ===== src/Encoding/Stars.antt =====
-- `encodeStar` of libs/solvers/satencoding/regular/wordencoder.cpp: as many copies of the child as
-- the pattern has positions are enough.
use woorpje.Common.{
  ℕ, zero, suc, ◌+◌, ◌<◌, ◌≤◌, ◌≡◌, ◌↔◌, refl, sym, ap, ◌∙◌, subst, arith, append-nil, Bool-cases,
  Option, some, List, [], ◌∷◌, ◌++◌, length, length-append, ◌==◌, inl, inr,
}
use woorpje.Propositional.Literal.{Valuation}
use woorpje.Automaton.Proper.{IsProper, AllProper}
use woorpje.Automaton.Words.{Then}
use woorpje.Regex.Defs.{RegNode, Children, operation, star, child}
use woorpje.Regex.Lang.{Lang, LangRow, LangFirst, Star, stop, more, IsWellFormed, AllWellFormed}
use woorpje.Lengths.Defs.{Progressions}
use woorpje.Encoding.Defs.{Pattern, Encoder}
use woorpje.Encoding.Encode.{
  Encoding, length_ok, copies, copies_node, encode_copies, star_rounds, encode_star,
}
use woorpje.Encoding.Meaning.{InRange, MeansSome}
use woorpje.Encoding.Blank.{Fills-length}
use woorpje.Encoding.Promise.{
  IsCovered, Holds, HasWord, HasWord-cong, IsKnown, Tells, Encodes, Tells-cong, Tells-ffalse,
  word-Encodes, unless_const-Encodes,
}
use woorpje.Encoding.Pair.{concat_two-Encodes}
use woorpje.Encoding.Rows.{fits, joined-Tells, length-map}

row-Star :
    (n : RegNode) (cs : Children) (k : ℕ) (w : List ℕ)
    → LangRow (copies k n) w
    → Star (LangFirst (child n cs)) w
unfolding copies
row-Star n cs zero w e = stop e
row-Star n cs (suc k) w (u, v, l, h, e) = more u v l (row-Star n cs k v h) e

-- Without the empty pieces there are no more than there are characters.
Star-row :
    (n : RegNode) (cs : Children) {w : List ℕ}
    → Star (LangFirst (child n cs)) w
    → (k : ℕ) × (k ≤ length w) × LangRow (copies k n) w
unfolding copies
Star-row n cs (stop e) = (zero, omega arith, e)
Star-row n cs (more [] v l h e) = let (k, i, t) = Star-row n cs h in rw e (k, i, t)
Star-row n cs (more (c ∷ u) v l h e) =
    let (k, i, t) = Star-row n cs h in
    let d = length-append u v in rw e (suc k, omega arith, (c ∷ u, v, l, t, refl))

copies-AllProper : (n : RegNode) → IsProper n → (k : ℕ) → AllProper (copies k n)
unfolding copies
copies-AllProper n p zero = tt
copies-AllProper n p (suc k) = (p, copies-AllProper n p k)

copies-AllWellFormed : (n : RegNode) → IsWellFormed n → (k : ℕ) → AllWellFormed (copies k n)
unfolding copies
copies-AllWellFormed n p zero = tt
copies-AllWellFormed n p (suc k) = (p, copies-AllWellFormed n p k)

module _ (n : RegNode) (p : IsProper n) (wf : IsWellFormed n) where
  pub copies_node-IsProper : (k : ℕ) → IsProper (copies_node (suc k) n)
  copies_node-IsProper zero = p
  copies_node-IsProper (suc k) = copies-AllProper n p (suc (suc k))

  pub copies_node-IsWellFormed : (k : ℕ) → IsWellFormed (copies_node (suc k) n)
  unfolding copies
  copies_node-IsWellFormed zero = wf
  copies_node-IsWellFormed (suc k) = (tt, copies-AllWellFormed n wf (suc (suc k)))

  Lang-copies_node :
      (k : ℕ) (w : List ℕ) → Lang (copies_node (suc k) n) w ↔ LangRow (copies (suc k) n) w
  unfolding copies
  Lang-copies_node zero w = (
    λ l. (w, [], l, refl, sym (append-nil w)),
    λ (u, v, l, e, d). subst (Lang n) (sym (d ∙ ap (λ y. u ++ y) e ∙ append-nil u)) l,
  )
  Lang-copies_node (suc k) w = (λ l. l, λ l. l)

module _ (b : ℕ) (en : Encoder) (C : Type 0) (lengths : RegNode → Option Progressions)
    (r : InRange b en) (back : (c : ℕ) → en.index2t (en.t_indices c) ≡ c)
    (total : (n : RegNode)
      → IsProper n
      → IsWellFormed n
      → (la : Progressions) × (lengths n ≡ some la))
    (n : RegNode) (p : IsProper n) (wf : IsWellFormed n) (enc : Encoding)
    (cov : C → IsCovered lengths n) (each : (k : ℕ) → C → IsCovered lengths (copies_node (suc k) n))
    (h : Encodes b en C lengths (Lang n) enc) where
  encode_copies-Encodes :
      (k : ℕ) → Encodes b en C lengths (LangRow (copies k n)) (encode_copies en lengths k n enc)
  unfolding encode_copies copies
  encode_copies-Encodes zero pat k = word-Encodes b en C lengths r [] pat k
  encode_copies-Encodes (suc zero) pat k =
      Tells-cong b en C lengths pat (enc pat) (Lang-copies_node n p wf 0) (h pat k)
  encode_copies-Encodes (suc (suc i)) pat k =
      let node = copies_node (suc i) n in
      let (la, e) = total n p wf in
      let (la', e') =
        total node (copies_node-IsProper n p wf i) (copies_node-IsWellFormed n p wf i) in
      let below : Encodes b en C lengths (Lang node)
          (λ q. encode_copies en lengths (suc i) n enc q) =
        (λ q j.
          Tells-cong b en C lengths q _
            (λ w. ((Lang-copies_node n p wf i w).1, (Lang-copies_node n p wf i w).0))
            (encode_copies-Encodes (suc i) q j)) in
      unless_const-Encodes b en C lengths r back (copies_node (suc (suc i)) n) _
        (copies_node-IsProper n p wf (suc i))
        (λ q j.
          Tells-cong b en C lengths q _ (next i)
            (concat_two-Encodes b en C lengths r n node la la' e e' enc _ cov (each i) h below q j))
        pat k
    where
      next :
          (i : ℕ) (w : List ℕ)
          → Then (Lang n) (Lang (copies_node (suc i) n)) w ↔ LangRow (copies (suc (suc i)) n) w
      next i w = (
        λ (u, v, l, l', e). (u, v, l, (Lang-copies_node n p wf i v).0 l', e),
        λ (u, v, l, l', e). (u, v, l, (Lang-copies_node n p wf i v).1 l', e),
      )

  module _ (cs : Children) (pat : Pattern) (known : IsKnown en pat) where
    -- So many copies, from `k` on.
    abbrev HoldsCopies : ℕ → ℕ → Valuation → Type 0
    HoldsCopies count k A =
        (i : ℕ) × (k ≤ i) × (i < k + count) × Holds en (LangRow (copies i n)) pat A

    star_rounds-MeansSome :
        (count k : ℕ)
        → MeansSome b en
            (λ A. C × HoldsCopies count k A)
            (HasWord en (Star (LangFirst (child n cs))) pat)
            (star_rounds en lengths count k n enc pat)
    unfolding star_rounds
    star_rounds-MeansSome zero k =
        ([], refl, tt, λ A t. (λ q. absurd q, λ (c, (i, l, u, q)). absurd (omega arith)))
    star_rounds-MeansSome (suc count) k =
        let (fs, e, g, t) = star_rounds-MeansSome count (suc k) in
        let (f, d, i, m) = encode_copies-Encodes k pat known in
        (
          f ∷ fs,
          rw (d, e) refl,
          (i, g),
          λ A z. (
            λ q. elim q [
              | inl x ↦ HasWord-cong en pat A (λ w l. row-Star n cs k w l) ((m A z).0 x)
              | inr x ↦ (t A z).0 x
            ],
            λ (c, (j, l, u, q)). elim (Bool-cases (j == k)) [
              | inl s ↦ inl (
                  (m A z).1
                    (c, subst (λ y. Holds en (LangRow (copies y n)) pat A) (ground arith) q))
              | inr s ↦ inr ((t A z).1 (c, (j, ground arith, omega arith, q)))
            ],
          ),
        )

    pub encode_star-Tells :
        (la : Progressions)
        → lengths (operation star (child n cs)) ≡ some la
        → (C → IsCovered lengths (operation star (child n cs)))
        → Tells b en C lengths
            (Star (LangFirst (child n cs)))
            pat
            (encode_star en lengths n cs enc pat)
    unfolding encode_star
    encode_star-Tells la e all = elim (Bool-cases (length_ok la pat)) [
      | inl d ↦
          rw (encode_star, e, d)
            (joined-Tells b en C lengths r (Star (LangFirst (child n cs))) pat _ all_rounds)
      | inr d ↦
          rw (encode_star, e, d)
            (Tells-ffalse b en C lengths r (Star (LangFirst (child n cs))) pat (λ A c q.
              (let k = fits b en C lengths r (operation star (child n cs)) la e all c q in cc)))
    ]
      where
        all_rounds :
            MeansSome b en
              (λ A. C × Holds en (Star (LangFirst (child n cs))) pat A)
              (HasWord en (Star (LangFirst (child n cs))) pat)
              (star_rounds en lengths (suc (length pat)) 0 n enc pat)
        all_rounds =
            let (fs, e, g, t) = star_rounds-MeansSome (suc (length pat)) 0 in
            (
              fs,
              e,
              g,
              λ A z. (
                (t A z).0,
                λ (c, (w, f, s)).
                    (let (i, l, m) = Star-row n cs s in
                      let (x, y) = Fills-length en A f in
                      let q = length-map en.t_indices w in
                      (t A z).1 (c, (i, omega arith, omega arith, (w, f, m)))),
              ),
            )
