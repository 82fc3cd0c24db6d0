-- ===== src/Regex/Derivative/Complete.antt =====
-- `derivative` of libs/words/pubinclude/words/regconstraints.hpp: the words that it is to keep.
use woorpje.Common.{
  ℕ, append-nil, length, ◌≡◌, refl, inl, inr, true, false, ◌&&◌, List, [], ◌∷◌, ◌++◌, arith,
  Bool-cases, sym, ap, ◌∙◌, subst, cons_injective, cons-eq-append, ◌==◌,
}
use woorpje.Regex.Defs.{
  RegNode, Children, reg_empty, reg_word, operation, union, concat, star, none_left, child,
  accepts_epsilon,
}
use woorpje.Regex.Lang.{IsWellFormed, Star, stop, more, Lang, LangSome, LangRow, LangFirst}
use woorpje.Regex.Words.{accepts_epsilon_iff}
use woorpje.Regex.Derive.{
  is_reg_empty, is_empty_word, pair, node_of, row_step, star_step, derivative, derivatives,
  row_derivative, first_derivative,
}
use woorpje.Regex.Derivative.Parts.{
  Split, LangSome-keep, Lang-union_of, Lang-node_of, Lang-pair, is_empty_word_lem, is_reg_empty_lem,
  StepView, absorbed, right_only, left_kept, both, dead, left_only, concat_step_view, Complete,
  word_eq,
}

-- Nowhere in a row of a concatenation does a child accept the empty word while its derivative by `c`
-- is the empty word.
abbrev mutual
  pub IsExact : ℕ → RegNode → Type 0
  IsExact c reg_empty = Unit
  IsExact c (reg_word u) = Unit
  IsExact c (operation union cs) = EachExact c cs
  IsExact c (operation concat cs) = RowExact c cs
  IsExact c (operation star cs) = FirstExact c cs

  pub EachExact : ℕ → Children → Type 0
  EachExact c none_left = Unit
  EachExact c (child r cs) = IsExact c r × EachExact c cs

  pub RowExact : ℕ → Children → Type 0
  RowExact c none_left = Unit
  RowExact c (child r cs) =
      IsExact c r
      × (is_empty_word (derivative (c ∷ []) r) && accepts_epsilon r ≡ false)
      × RowExact c cs

  pub FirstExact : ℕ → Children → Type 0
  FirstExact c none_left = Unit
  FirstExact c (child r cs) = IsExact c r

-- The first part of a star's word that is not empty.
Star-cons :
    {P : List ℕ → Type 0} {x : List ℕ} (c : ℕ) (w : List ℕ)
    → Star P x
    → x ≡ c ∷ w
    → Split (λ u. P (c ∷ u)) (Star P) w
Star-cons c w (stop e) h = cc
Star-cons {P} c w (more u v p s e) h = elim (cons-eq-append c w u v (sym h ∙ e)) [
  | inl k ↦ Star-cons c w s k.1
  | inr k ↦ (k.0, v, subst P k.1 p, s, k.2)
]

module _ (c : ℕ) where
  word-Complete : (u : List ℕ) → Complete c (reg_word u) (derivative (c ∷ []) (reg_word u))
  word-Complete [] w h = cc
  word-Complete (x ∷ u) w h =
      let e : (x == c) ≡ true = ground arith in rw (word_eq c x u, e) (cons_injective h)

  pair_intro :
      (l' r : RegNode) (w u v : List ℕ) → Lang l' u → Lang r v → w ≡ u ++ v → Lang (pair l' r) w
  pair_intro l' r w u v p q e = (Lang-pair l' r w).1 (u, v, p, q, e)

  -- The left operand takes the character.
  step_left :
      (l l' r r' x : RegNode)
      → StepView l l' r r' x
      → (w u v : List ℕ) → Lang l' u
      → Lang r v
      → w ≡ u ++ v
      → Lang x w
  step_left l l' r r' x (absorbed a e) w u v p q k =
      let eu : u ≡ [] = subst (λ y. Lang y u) (is_empty_word_lem l' a) p in
      subst (λ y. Lang y w) (sym e) (subst (Lang r) (sym (k ∙ ap (λ z. z ++ v) eu)) q)
  step_left l l' r r' x (right_only b d e) w u v p q k =
      absurd (subst (λ y. Lang y u) (is_reg_empty_lem l' d) p)
  step_left l l' r r' x (left_kept d e) w u v p q k =
      subst (λ y. Lang y w) (sym e) (pair_intro l' r w u v p q k)
  step_left l l' r r' x (both b e) w u v p q k =
      subst (λ y. Lang y w) (sym e) (inl (pair_intro l' r w u v p q k))
  step_left l l' r r' x (dead b d e) w u v p q k =
      absurd (subst (λ y. Lang y u) (is_reg_empty_lem l' d) p)
  step_left l l' r r' x (left_only b e) w u v p q k =
      subst (λ y. Lang y w) (sym e) (pair_intro l' r w u v p q k)

  -- The left operand is the empty word, and the right one takes the character.
  step_right :
      (l l' r r' x : RegNode)
      → StepView l l' r r' x
      → is_empty_word l' && accepts_epsilon l ≡ false
      → accepts_epsilon l ≡ true
      → (w : List ℕ) → Lang r' w
      → Lang x w
  step_right l l' r r' x (absorbed a e) n t w q = absurd (ground arith)
  step_right l l' r r' x (right_only b d e) n t w q = subst (λ y. Lang y w) (sym e) q
  step_right l l' r r' x (left_kept d e) n t w q =
      absurd (subst (λ y. Lang y w) (is_reg_empty_lem r' d) q)
  step_right l l' r r' x (both b e) n t w q = subst (λ y. Lang y w) (sym e) (inr (inl q))
  step_right l l' r r' x (dead b d e) n t w q = absurd (ground arith)
  step_right l l' r r' x (left_only b e) n t w q = absurd (ground arith)

  concat_step-Complete :
      (l l' r r' x : RegNode)
      → Complete c l l'
      → Complete c r r'
      → is_empty_word l' && accepts_epsilon l ≡ false
      → StepView l l' r r' x
      → (w : List ℕ) → Split (Lang l) (Lang r) (c ∷ w)
      → Lang x w
  concat_step-Complete l l' r r' x hl hr n view w (u, v, p, q, e) =
      elim (cons-eq-append c w u v e) [
        | inl k ↦
            step_right l l' r r' x view n ((accepts_epsilon_iff l).1 (subst (Lang l) k.0 p)) w
              (hr w (subst (Lang r) k.1 q))
        | inr k ↦ step_left l l' r r' x view w k.0 v (hl k.0 (subst (Lang l) k.1 p)) q k.2
      ]

  row_step-Complete :
      (r r' : RegNode) (cs : Children) (n : RegNode)
      → Complete c r r'
      → ((w : List ℕ) → LangRow cs (c ∷ w) → Lang n w)
      → is_empty_word r' && accepts_epsilon r ≡ false
      → (w : List ℕ) → LangRow (child r cs) (c ∷ w)
      → Lang (row_step r r' cs n) w
  unfolding row_step
  row_step-Complete r r' none_left n hr hn x w h = hr w ((Lang-node_of r none_left (c ∷ w)).1 h)
  row_step-Complete r r' (child s cs) n hr hn x w (u, v, p, q, e) =
      concat_step-Complete r r' (node_of (child s cs)) n _ hr
        (λ y m. hn y ((Lang-node_of s cs (c ∷ y)).0 m)) x (concat_step_view r r' _ n) w
        (u, v, p, (Lang-node_of s cs v).1 q, e)

  star_step-Complete :
      (l' : RegNode) (cs : Children)
      → ((w : List ℕ) → LangFirst cs (c ∷ w) → Lang l' w)
      → Complete c (operation star cs) (star_step l' cs)
  unfolding star_step
  star_step-Complete l' cs hl w h =
      let (u, v, p, q, f) = Star-cons c w h refl in
      elim (Bool-cases (is_reg_empty l')) [
        | inl e ↦ absurd (subst (λ y. Lang y u) (is_reg_empty_lem l' e) (hl u p))
        | inr e ↦ rw e (pair_intro l' (operation star cs) w u v (hl u p) q f)
      ]

  mutual
    unfolding derivative

    complete : (r : RegNode) → IsExact c r → Complete c r (derivative (c ∷ []) r)
    complete reg_empty n w h = h
    complete (reg_word u) n w h = word-Complete u w h
    complete (operation union cs) n w h = (Lang-union_of _ w).1 (some_complete cs n w h)
    complete (operation concat cs) n w h = row_complete cs n w h
    complete (operation star cs) n w h = star_step-Complete _ cs (first_complete cs n) w h

    some_complete :
        (cs : Children)
        → EachExact c cs
        → (w : List ℕ) → LangSome cs (c ∷ w)
        → LangSome (derivatives (c ∷ []) cs) w
    some_complete none_left n w h = h
    some_complete (child r cs) n w (inl h) = (LangSome-keep _ _ w).1 (inl (complete r n.0 w h))
    some_complete (child r cs) n w (inr h) =
        (LangSome-keep _ _ w).1 (inr (some_complete cs n.1 w h))

    row_complete :
        (cs : Children)
        → RowExact c cs
        → (w : List ℕ) → LangRow cs (c ∷ w)
        → Lang (row_derivative (c ∷ []) cs) w
    row_complete none_left n w h = cc
    row_complete (child r cs) n w h =
        row_step-Complete r _ cs _ (complete r n.0) (row_complete cs n.2) n.1 w h

    first_complete :
        (cs : Children)
        → FirstExact c cs
        → (w : List ℕ) → LangFirst cs (c ∷ w)
        → Lang (first_derivative (c ∷ []) cs) w
    first_complete none_left n w h = h
    first_complete (child r cs) n w h = complete r n w h

-- Where no child of a concatenation accepts the empty word while its derivative by the character is
-- the empty word, the rest of each word of the language that begins with the character is in the
-- derivative. Each concatenation has two children or more, and each star one.
pub derivative_complete :
    (c : ℕ) (r : RegNode) (w : List ℕ)
    → IsWellFormed r
    → IsExact c r
    → Lang r (c ∷ w)
    → Lang (derivative (c ∷ []) r) w
derivative_complete c r w wf n h = complete c r n w h

-- An optional character before a word that begins with the same character.
abbrev pub optional_then : ℕ → List ℕ → RegNode
optional_then c u =
    pair (operation union (child (reg_word (c ∷ [])) (child (reg_word []) none_left)))
      (reg_word (c ∷ u))

-- Of an optional character and then a word that begins with it, the language has the word alone,
-- but the derivative by the character does not have the word's rest.
pub derivative_loses :
    (c : ℕ) (u : List ℕ)
    → Lang (optional_then c u) (c ∷ u) × (¬ Lang (derivative (c ∷ []) (optional_then c u)) u)
unfolding derivative
derivative_loses c u =
    let e : (c == c) ≡ true = ground arith in
    let d : derivative (c ∷ []) (optional_then c u) ≡ reg_word (c ∷ u) = rw e refl in
    (
      ([], c ∷ u, inr (inl refl), (c ∷ u, [], refl, refl, sym (append-nil (c ∷ u))), refl),
      λ k.
          (let same : u ≡ c ∷ u = subst (λ x. Lang x u) d k in
            let size = ap length same in omega (arith, size)),
    )
