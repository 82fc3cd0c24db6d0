-- ===== src/Lengths/Plain.antt =====
-- Expressions of which `fromExpression` of libs/solvers/satencoding/regular/rAbs.cpp loses no length.
use woorpje.Common.{
  ℕ, ◌+◌, ◌≡◌, inl, inr, refl, sym, ap, ◌∙◌, true, false, some, List, [], ◌∷◌, length,
  length-append, arith,
}
use woorpje.Automaton.Proper.{IsProper, AllProper}
use woorpje.Regex.Defs.{
  RegNode, Children, reg_empty, reg_word, operation, union, concat, star, none_left, child,
}
use woorpje.Regex.Lang.{Lang, LangSome, LangRow, IsWellFormed, AllWellFormed}
use woorpje.Lengths.Defs.{before_pair, same_pair, merge_other}
use woorpje.Lengths.From.{Divisors, concat_lengths, from_expression, merge_rest, concat_rest}
use woorpje.Lengths.Contains.{contains_length_iff}
use woorpje.Encoding.Promise.{IsCovered}

-- Each word of the expression has this length.
abbrev mutual
  pub HasLength : ℕ → RegNode → Type 0
  HasLength l reg_empty = ⊥
  HasLength l (reg_word u) = length u ≡ l
  HasLength l (operation union cs) = EachLength l cs
  HasLength l (operation concat cs) = RowLength l cs
  HasLength l (operation star cs) = ⊥

  pub EachLength : ℕ → Children → Type 0
  EachLength l none_left = Unit
  EachLength l (child r cs) = HasLength l r × EachLength l cs

  pub RowLength : ℕ → Children → Type 0
  RowLength l none_left = l ≡ 0
  RowLength l (child r cs) = (m : ℕ) × (n : ℕ) × (l ≡ m + n) × HasLength m r × RowLength n cs

mutual
  pub HasLength-Lang : (l : ℕ) (r : RegNode) (w : List ℕ) → HasLength l r → Lang r w → length w ≡ l
  HasLength-Lang l reg_empty w h k = absurd h
  HasLength-Lang l (reg_word u) w h k = ap length k ∙ h
  HasLength-Lang l (operation union cs) w h k = EachLength-Lang l cs w h k
  HasLength-Lang l (operation concat cs) w h k = RowLength-Lang l cs w h k
  HasLength-Lang l (operation star cs) w h k = absurd h

  EachLength-Lang :
      (l : ℕ) (cs : Children) (w : List ℕ) → EachLength l cs → LangSome cs w → length w ≡ l
  EachLength-Lang l none_left w h k = absurd k
  EachLength-Lang l (child r cs) w h (inl k) = HasLength-Lang l r w h.0 k
  EachLength-Lang l (child r cs) w h (inr k) = EachLength-Lang l cs w h.1 k

  RowLength-Lang :
      (l : ℕ) (cs : Children) (w : List ℕ) → RowLength l cs → LangRow cs w → length w ≡ l
  RowLength-Lang l none_left w h k = ap length k ∙ sym h
  RowLength-Lang l (child r cs) w (m, n, e, h, t) (u, v, a, b, d) =
      let x = HasLength-Lang m r u h a in
      let y = RowLength-Lang n cs v t b in
      let z = length-append u v in ap length d ∙ omega (arith, e, x, y, z)

module _ (ds : Divisors) where
  merge_same : (l : ℕ) → merge_other ((l, 0) ∷ []) ((l, 0) ∷ []) ≡ (l, 0) ∷ []
  unfolding merge_other
  merge_same l =
      let e : before_pair (l, 0) (l, 0) ≡ false = ground arith in
      let f : same_pair (l, 0) (l, 0) ≡ true = ground arith in rw (e, f) refl

  mutual
    unfolding from_expression concat_lengths

    pub HasLength-from :
        (l : ℕ) (r : RegNode)
        → HasLength l r
        → IsProper r
        → IsWellFormed r
        → from_expression ds r ≡ some ((l, 0) ∷ [])
    HasLength-from l reg_empty h p w = absurd h
    HasLength-from l (reg_word u) h p w = rw h refl
    HasLength-from l (operation union none_left) h p w = absurd p.0
    HasLength-from l (operation union (child r cs)) h p w =
        rw (HasLength-from l r h.0 p.1.0 w.0) (merge_rest-single l cs h.1 p.1.1 w.1)
    HasLength-from l (operation concat none_left) h p w = absurd w.0
    HasLength-from l (operation concat (child r none_left)) h p w = absurd w.0
    HasLength-from l (operation concat (child r (child s cs))) (m, n, e, h, t) p w =
        rw (HasLength-from m r h p.0 w.1.0)
          (concat_rest-single m n (child s cs) t p.1 w.1.1 ∙ ap (λ z. some ((z, 0) ∷ [])) (sym e))
    HasLength-from l (operation star cs) h p w = absurd h

    merge_rest-single :
        (l : ℕ) (cs : Children)
        → EachLength l cs
        → AllProper cs
        → AllWellFormed cs
        → merge_rest ds cs ((l, 0) ∷ []) ≡ some ((l, 0) ∷ [])
    merge_rest-single l none_left h p w = refl
    merge_rest-single l (child r cs) h p w =
        rw (HasLength-from l r h.0 p.0 w.0)
          (ap (λ z. merge_rest ds cs z) (merge_same l) ∙ merge_rest-single l cs h.1 p.1 w.1)

    concat_rest-single :
        (m n : ℕ) (cs : Children)
        → RowLength n cs
        → AllProper cs
        → AllWellFormed cs
        → concat_rest ds cs ((m, 0) ∷ []) ≡ some ((m + n, 0) ∷ [])
    concat_rest-single m n none_left h p w = ap (λ z. some ((z, 0) ∷ [])) (omega (arith, h))
    concat_rest-single m n (child r cs) (i, j, e, h, t) p w = rw (HasLength-from i r h p.0 w.0) (
        concat_rest-single (m + i) j cs t p.1 w.1 ∙ ap (λ z. some ((z, 0) ∷ [])) (omega (arith, e)))

  pub HasLength-IsCovered :
      (l : ℕ) (r : RegNode)
      → HasLength l r
      → IsProper r
      → IsWellFormed r
      → IsCovered (from_expression ds) r
  HasLength-IsCovered l r h p w la x e k =
      let d : la ≡ (l, 0) ∷ [] = (let f = HasLength-from l r h p w in cc) in
      let s = HasLength-Lang l r x h k in
      rw d ((contains_length_iff ((l, 0) ∷ []) (length x)).1 (inl (0, s ∙ omega arith)))
