-- ===== src/Encoding/Plain.antt =====
-- Expressions of which `doEncode` of libs/solvers/satencoding/regular/wordencoder.cpp is told each length:
-- unions of stars and rows whose parts have words of one length each.
use woorpje.Common.{
  ℕ, suc, ◌≡◌, inl, inr, refl, sym, ap, ap₂, ◌∙◌, subst, false, some, List, [], ◌∷◌, length,
  length-append, ltb, arith,
}
use Prim.Native.Nat.{◌*◌}
use woorpje.Automaton.Defs.{◌>>=◌}
use woorpje.Automaton.Proper.{IsProper, AllProper}
use woorpje.Regex.Defs.{
  RegNode, Children, reg_empty, reg_word, operation, union, concat, star, none_left, child,
}
use woorpje.Regex.Lang.{LangSome, LangFirst, Star, stop, more, IsWellFormed, AllWellFormed}
use woorpje.Lengths.Defs.{Progressions, merge_other}
use woorpje.Lengths.From.{Divisors, star_each, star_lengths, from_expression, merge_rest}
use woorpje.Lengths.Contains.{SomeOn, SomeOn-merge_other, contains_length_iff}
use woorpje.Lengths.Total.{from_expression-Returns}
use woorpje.Lengths.Plain.{
  HasLength, RowLength, HasLength-IsCovered, HasLength-Lang, HasLength-from,
}
use woorpje.Encoding.Encode.{copies_node}
use woorpje.Encoding.Promise.{IsCovered}
use woorpje.Encoding.Stars.{copies_node-IsProper, copies_node-IsWellFormed}
use woorpje.Encoding.Correct.{KnowsLengths, KnowsEach}
use woorpje.Encoding.Fixed.{copies_node-HasLength, HasLength-KnowsLengths, RowLength-KnowsRow}

abbrev mutual
  pub IsPlain : RegNode → Type 0
  IsPlain reg_empty = Unit
  IsPlain (reg_word u) = Unit
  IsPlain (operation union cs) = EachPlain cs
  IsPlain (operation concat cs) = (l : ℕ) × RowLength l cs
  IsPlain (operation star none_left) = Unit
  IsPlain (operation star (child n cs)) = (l : ℕ) × HasLength l n

  pub EachPlain : Children → Type 0
  EachPlain none_left = Unit
  EachPlain (child r cs) = IsPlain r × EachPlain cs

-- What the libraries' documentation says of a number and 0.
pub record HandlesZero (ds : Divisors) : Type 0 where
  pub gcd_zero : (l : ℕ) → ds.gcd_range (l ∷ 0 ∷ []) ≡ l
  pub lcm_zero : (l : ℕ) → ds.lcm_range (l ∷ 0 ∷ []) ≡ 0

module _ (ds : Divisors) where
  module _ (z : HandlesZero ds) where
    no_rows : (l : ℕ) → star_each ds 0 ((l, 0) ∷ []) ((0, l) ∷ []) ≡ some ((0, l) ∷ [])
    unfolding star_each
    no_rows l = let e : ltb (l * 0) 0 ≡ false = ground arith in rw e refl

    star_lengths-single : (l : ℕ) → star_lengths ds ((l, 0) ∷ []) ≡ some ((0, l) ∷ [])
    unfolding star_lengths
    star_lengths-single l =
        ap₂ (λ c d. star_each ds c ((l, 0) ∷ []) ((c, d) ∷ [])) (z.lcm_zero l) (z.gcd_zero l)
        ∙ no_rows l

    Star-length :
        (l : ℕ) (n : RegNode) (cs : Children) (w : List ℕ)
        → HasLength l n
        → Star (LangFirst (child n cs)) w
        → (i : ℕ) × (length w ≡ i * l)
    Star-length l n cs w h (stop e) = (0, ap length e ∙ omega arith)
    Star-length l n cs w h (more u v a s e) =
        let (i, d) = Star-length l n cs v h s in
        let x = HasLength-Lang l n u h a in
        let y = length-append u v in (suc i, ap length e ∙ omega (arith, x, y, d))

    star-IsCovered :
        (l : ℕ) (n : RegNode) (cs : Children)
        → HasLength l n
        → IsProper n
        → IsWellFormed n
        → IsCovered (from_expression ds) (operation star (child n cs))
    unfolding from_expression
    star-IsCovered l n cs h p w la x e k =
        let f : from_expression ds (operation star (child n cs)) ≡ some ((0, l) ∷ []) =
          rw (HasLength-from ds l n h p w) (star_lengths-single l) in
        let d : la ≡ (0, l) ∷ [] = cc in
        let (i, q) = Star-length l n cs x h k in
        rw d ((contains_length_iff ((0, l) ∷ []) (length x)).1 (inl (i, q ∙ omega arith)))

    mutual
      unfolding from_expression

      IsPlain-IsCovered :
          (r : RegNode) → IsPlain r → IsProper r → IsWellFormed r → IsCovered (from_expression ds) r
      IsPlain-IsCovered reg_empty h p w = absurd p
      IsPlain-IsCovered (reg_word u) h p w = HasLength-IsCovered ds (length u) (reg_word u) refl p w
      IsPlain-IsCovered (operation concat cs) (l, h) p w =
          HasLength-IsCovered ds l (operation concat cs) h p w
      IsPlain-IsCovered (operation star none_left) h p w = absurd p.0
      IsPlain-IsCovered (operation star (child n cs)) (l, h) p w =
          star-IsCovered l n cs h p.1.0 w.1.0
      IsPlain-IsCovered (operation union none_left) h p w = absurd p.0
      IsPlain-IsCovered (operation union (child r cs)) h p w = λ la x e k.
          (let (first, d) = from_expression-Returns ds r p.1.0 w.0 in
            let rest =
              merge_rest-SomeOn cs first la h.1 p.1.1 w.1
                (sym (ap (λ o. o >>= λ f. merge_rest ds cs f) d) ∙ e) (length x) in
            (contains_length_iff la (length x)).1 (elim k [
              | inl a ↦ rest.0 (
                  (contains_length_iff first (length x)).0
                    (IsPlain-IsCovered r h.0 p.1.0 w.0 first x d a))
              | inr a ↦ rest.1 x a refl
            ]))

      merge_rest-SomeOn :
          (cs : Children) (first la : Progressions)
          → EachPlain cs
          → AllProper cs
          → AllWellFormed cs
          → merge_rest ds cs first ≡ some la
          → (k : ℕ)
          → (SomeOn k first → SomeOn k la)
            × ((x : List ℕ) → LangSome cs x → length x ≡ k → SomeOn k la)
      merge_rest-SomeOn none_left first la h p w e k =
          let d : first ≡ la = cc in (λ s. subst (SomeOn k) d s, λ x a q. absurd a)
      merge_rest-SomeOn (child r cs) first la h p w e k =
          let (next, d) = from_expression-Returns ds r p.0 w.0 in
          let rest =
            merge_rest-SomeOn cs (merge_other next first) la h.1 p.1 w.1
              (sym (ap (λ o. o >>= λ f. merge_rest ds cs (merge_other f first)) d) ∙ e) k in
          let m = SomeOn-merge_other k next first in
          (
            λ s. rest.0 (m.1 (inr s)),
            λ x a q. elim a [
              | inl b ↦ rest.0 (
                  m.1 (
                    inl (
                      subst (λ z. SomeOn z next) q
                        ((contains_length_iff next (length x)).0
                          (IsPlain-IsCovered r h.0 p.0 w.0 next x d b)))))
              | inr b ↦ rest.1 x b q
            ],
          )

    mutual
      IsPlain-Knows :
          (r : RegNode)
          → IsPlain r
          → IsProper r
          → IsWellFormed r
          → KnowsLengths (from_expression ds) r
      IsPlain-Knows reg_empty h p w = tt
      IsPlain-Knows (reg_word u) h p w = tt
      IsPlain-Knows (operation union cs) h p w =
          (IsPlain-IsCovered (operation union cs) h p w, EachPlain-Knows cs h p.1 w)
      IsPlain-Knows (operation concat cs) (l, h) p w = RowLength-KnowsRow ds l cs h p w.1
      IsPlain-Knows (operation star none_left) h p w = tt
      IsPlain-Knows (operation star (child n cs)) (l, h) p w = (
        λ k.
            (let (m, t) = copies_node-HasLength l n h k in
              HasLength-IsCovered ds m (copies_node (suc k) n) t
                (copies_node-IsProper n p.1.0 w.1.0 k) (copies_node-IsWellFormed n p.1.0 w.1.0 k)),
        star-IsCovered l n cs h p.1.0 w.1.0,
        HasLength-KnowsLengths ds l n h p.1.0 w.1.0,
      )

      EachPlain-Knows :
          (cs : Children)
          → EachPlain cs
          → AllProper cs
          → AllWellFormed cs
          → KnowsEach (from_expression ds) cs
      EachPlain-Knows none_left h p w = tt
      EachPlain-Knows (child r cs) h p w =
          (IsPlain-Knows r h.0 p.0 w.0, EachPlain-Knows cs h.1 p.1 w.1)

    -- Where an expression is a word, a row or a star whose parts have words of one length each, or
    -- a union of such, nested unions included, fromExpression has the length of each word of each
    -- node that doEncode asks about. The gcd of a number and 0 is the number, their least common
    -- multiple is 0, and the expression has no RegEmpty, no union of nothing, a child for each star
    -- and two for each concatenation.
    pub IsPlain-KnowsLengths :
        (r : RegNode)
        → IsPlain r
        → IsProper r
        → IsWellFormed r
        → KnowsLengths (from_expression ds) r
    IsPlain-KnowsLengths = IsPlain-Knows
