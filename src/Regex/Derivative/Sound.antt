-- ===== src/Regex/Derivative/Sound.antt =====
-- `derivative` of libs/words/pubinclude/words/regconstraints.hpp: the words that it accepts.
use woorpje.Common.{
  ℕ, ◌≡◌, refl, inl, inr, List, [], ◌∷◌, arith, Bool-cases, ap, ◌∙◌, subst, ◌==◌, if◌then◌else◌,
}
use woorpje.Regex.Defs.{
  RegNode, Children, reg_empty, reg_word, operation, union, concat, star, none_left, child,
}
use woorpje.Regex.Lang.{more, Lang, LangSome, LangRow, LangFirst}
use woorpje.Regex.Words.{accepts_epsilon_iff}
use woorpje.Regex.Derive.{
  is_reg_empty, pair, node_of, row_step, star_step, derivative, derivatives, row_derivative,
  first_derivative,
}
use woorpje.Regex.Derivative.Parts.{
  Split, LangSome-keep, Lang-union_of, Lang-node_of, Lang-pair, is_empty_word_lem, is_reg_empty_lem,
  StepView, absorbed, right_only, left_kept, both, dead, left_only, concat_step_view, Sound,
  word_eq,
}

module _ (c : ℕ) where
  word-Sound : (u : List ℕ) → Sound c (reg_word u) (derivative (c ∷ []) (reg_word u))
  word-Sound [] w h = absurd (unfold derivative in h)
  word-Sound (x ∷ u) w h = elim (Bool-cases (x == c)) [
    | inl e ↦ (let k : w ≡ u = rw (word_eq c x u, e) at h in ground arith)
    | inr e ↦ absurd (rw (word_eq c x u, e) at h)
  ]

  pair-Sound :
      (l l' r : RegNode)
      → Sound c l l'
      → (w : List ℕ) → Lang (pair l' r) w
      → Split (Lang l) (Lang r) (c ∷ w)
  pair-Sound l l' r hl w h =
      let (u, v, p, q, e) = (Lang-pair l' r w).0 h in (c ∷ u, v, hl u p, q, ap (λ x. c ∷ x) e)

  concat_step-Sound :
      (l l' r r' x : RegNode)
      → Sound c l l'
      → Sound c r r'
      → StepView l l' r r' x
      → (w : List ℕ) → Lang x w
      → Split (Lang l) (Lang r) (c ∷ w)
  concat_step-Sound l l' r r' x hl hr (absorbed a e) w h =
      (c ∷ [], w, hl [] (rw (is_empty_word_lem l' a) refl), subst (λ y. Lang y w) e h, refl)
  concat_step-Sound l l' r r' x hl hr (right_only b d e) w h =
      ([], c ∷ w, (accepts_epsilon_iff l).0 b, hr w (subst (λ y. Lang y w) e h), refl)
  concat_step-Sound l l' r r' x hl hr (left_kept d e) w h =
      pair-Sound l l' r hl w (subst (λ y. Lang y w) e h)
  concat_step-Sound l l' r r' x hl hr (both b e) w h = elim (subst (λ y. Lang y w) e h) [
    | inl k ↦ pair-Sound l l' r hl w k
    | inr k ↦ elim k [
      | inl m ↦ ([], c ∷ w, (accepts_epsilon_iff l).0 b, hr w m, refl)
      | inr m ↦ absurd m
    ]
  ]
  concat_step-Sound l l' r r' x hl hr (dead b d e) w h =
      absurd (subst (λ y. Lang y w) (e ∙ is_reg_empty_lem l' d) h)
  concat_step-Sound l l' r r' x hl hr (left_only b e) w h =
      pair-Sound l l' r hl w (subst (λ y. Lang y w) e h)

  row_step-Sound :
      (r r' : RegNode) (cs : Children) (n : RegNode)
      → Sound c r r'
      → ((w : List ℕ) → Lang n w → LangRow cs (c ∷ w))
      → (w : List ℕ) → Lang (row_step r r' cs n) w
      → LangRow (child r cs) (c ∷ w)
  unfolding row_step
  row_step-Sound r r' none_left n hr hn w h = (Lang-node_of r none_left (c ∷ w)).0 (hr w h)
  row_step-Sound r r' (child s cs) n hr hn w h =
      let k =
        concat_step-Sound r r' (node_of (child s cs)) n _ hr
          (λ v m. (Lang-node_of s cs (c ∷ v)).1 (hn v m)) (concat_step_view r r' _ n) w h in
      (k.0, k.1, k.2, (Lang-node_of s cs k.1).0 k.3, k.4)

  star_step-Sound :
      (l' : RegNode) (cs : Children)
      → ((w : List ℕ) → Lang l' w → LangFirst cs (c ∷ w))
      → Sound c (operation star cs) (star_step l' cs)
  unfolding star_step
  star_step-Sound l' cs hl w h = elim (Bool-cases (is_reg_empty l')) [
    | inl e ↦
        absurd (subst (λ b. Lang (if b then reg_empty else pair l' (operation star cs)) w) e h)
    | inr e ↦
        (let (u, v, p, q, f) =
            (Lang-pair l' (operation star cs) w).0
              (subst (λ b. Lang (if b then reg_empty else pair l' (operation star cs)) w) e h) in
          more (c ∷ u) v (hl u p) q (ap (λ x. c ∷ x) f))
  ]

  mutual
    unfolding derivative

    sound : (r : RegNode) → Sound c r (derivative (c ∷ []) r)
    sound reg_empty w h = h
    sound (reg_word u) w h = word-Sound u w h
    sound (operation union cs) w h = some_sound cs w ((Lang-union_of _ w).0 h)
    sound (operation concat cs) w h = row_sound cs w h
    sound (operation star cs) w h = star_step-Sound _ cs (first_sound cs) w h

    some_sound :
        (cs : Children) (w : List ℕ) → LangSome (derivatives (c ∷ []) cs) w → LangSome cs (c ∷ w)
    some_sound none_left w h = h
    some_sound (child r cs) w h = elim ((LangSome-keep _ _ w).0 h) [
      | inl k ↦ inl (sound r w k)
      | inr k ↦ inr (some_sound cs w k)
    ]

    row_sound :
        (cs : Children) (w : List ℕ) → Lang (row_derivative (c ∷ []) cs) w → LangRow cs (c ∷ w)
    row_sound none_left w h = absurd h
    row_sound (child r cs) w h = row_step-Sound r _ cs _ (sound r) (row_sound cs) w h

    first_sound :
        (cs : Children) (w : List ℕ) → Lang (first_derivative (c ∷ []) cs) w → LangFirst cs (c ∷ w)
    first_sound none_left w h = h
    first_sound (child r cs) w h = sound r w h

-- A word in the derivative by one character, with that character in front of it, is in the
-- language of the expression.
pub derivative_sound :
    (c : ℕ) (r : RegNode) (w : List ℕ) → Lang (derivative (c ∷ []) r) w → Lang r (c ∷ w)
derivative_sound c r w h = sound c r w h
