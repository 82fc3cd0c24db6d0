-- ===== src/Regex/Flatten/Keeps.antt =====
-- The loops of `RegOperation::flatten` against the language, one by one.
use woorpje.Common.{
  ℕ, ◌≡◌, refl, ◌↔◌, ◌⊎◌, inl, inr, List, [], ◌∷◌, ◌++◌, sym, ap, ◌∙◌, subst, append_assoc,
}
use woorpje.Regex.Defs.{
  Children, reg_empty, reg_word, operation, union, concat, star, none_left, child, append_children,
}
use woorpje.Regex.Lang.{Lang, LangSome, LangRow}
use woorpje.Regex.Reverse.{LangRow-append_children, LangRow-append_children_inv}
use woorpje.Regex.Flatten.{merge, flush, join_words, pad}

-- Two languages with the same words.
abbrev pub Same : (List ℕ → Type 0) → (List ℕ → Type 0) → Type 0
Same P Q = (w : List ℕ) → P w ↔ Q w

LangSome-append_children :
    (cs ds : Children) (w : List ℕ)
    → LangSome (append_children cs ds) w ↔ (LangSome cs w ⊎ LangSome ds w)
unfolding append_children
LangSome-append_children none_left ds w = (inr, λ h. elim h [ inl x ↦ absurd x | inr y ↦ y ])
LangSome-append_children (child r cs) ds w =
    let ih = LangSome-append_children cs ds w in
    (
      λ h. elim h [
        | inl x ↦ inl (inl x)
        | inr y ↦ elim (ih.0 y) [ inl a ↦ inl (inr a) | inr b ↦ inr b ]
      ],
      λ h. elim h [
        | inl x ↦ elim x [ inl a ↦ inl a | inr b ↦ inr (ih.1 (inl b)) ]
        | inr y ↦ inr (ih.1 (inr y))
      ],
    )

Sum-cong : {A B C : Type 0} → B ↔ C → (A ⊎ B) ↔ (A ⊎ C)
Sum-cong f = (
  λ h. elim h [ inl a ↦ inl a | inr b ↦ inr (f.0 b) ],
  λ h. elim h [ inl a ↦ inl a | inr c ↦ inr (f.1 c) ],
)

pub LangSome-merge : (cs : Children) → Same (LangSome (merge union cs)) (LangSome cs)
unfolding merge
LangSome-merge none_left w = (λ h. h, λ h. h)
LangSome-merge (child reg_empty cs) w = Sum-cong (LangSome-merge cs w)
LangSome-merge (child (reg_word u) cs) w = Sum-cong (LangSome-merge cs w)
LangSome-merge (child (operation union ds) cs) w =
    let a = LangSome-append_children ds (merge union cs) w in
    let b = Sum-cong {A = LangSome ds w} (LangSome-merge cs w) in
    (λ h. b.0 (a.0 h), λ h. a.1 (b.1 h))
LangSome-merge (child (operation concat ds) cs) w = Sum-cong (LangSome-merge cs w)
LangSome-merge (child (operation star ds) cs) w = Sum-cong (LangSome-merge cs w)

-- One more child in front of two rows with the same words.
pub Row-cong :
    (P : List ℕ → Type 0) (cs ds : Children)
    → Same (LangRow cs) (LangRow ds)
    → Same
        (λ w. (u : List ℕ) × (v : List ℕ) × P u × LangRow cs v × (w ≡ u ++ v))
        (λ w. (u : List ℕ) × (v : List ℕ) × P u × LangRow ds v × (w ≡ u ++ v))
Row-cong P cs ds f w =
    (λ (u, v, p, q, e). (u, v, p, (f v).0 q, e), λ (u, v, p, q, e). (u, v, p, (f v).1 q, e))

pub LangRow-merge : (cs : Children) → Same (LangRow (merge concat cs)) (LangRow cs)
unfolding merge
LangRow-merge none_left w = (λ h. h, λ h. h)
LangRow-merge (child reg_empty cs) w = Row-cong (Lang reg_empty) _ cs (LangRow-merge cs) w
LangRow-merge (child (reg_word u) cs) w = Row-cong (Lang (reg_word u)) _ cs (LangRow-merge cs) w
LangRow-merge (child (operation union ds) cs) w =
    Row-cong (Lang (operation union ds)) _ cs (LangRow-merge cs) w
LangRow-merge (child (operation star ds) cs) w =
    Row-cong (Lang (operation star ds)) _ cs (LangRow-merge cs) w
LangRow-merge (child (operation concat ds) cs) w =
    let b = Row-cong (LangRow ds) _ cs (LangRow-merge cs) w in
    (
      λ h. b.0 (LangRow-append_children_inv ds (merge concat cs) w h),
      λ h.
          (let (u, v, p, q, e) = b.1 h in
            subst (LangRow _) (sym e) (LangRow-append_children ds (merge concat cs) u v p q)),
    )

-- A row behind some characters.
abbrev Behind : List ℕ → Children → List ℕ → Type 0
Behind a cs w = (v : List ℕ) × LangRow cs v × (w ≡ a ++ v)

LangRow-flush : (a : List ℕ) (cs : Children) → Same (LangRow (flush a cs)) (Behind a cs)
LangRow-flush [] cs w = (λ h. (w, h, refl), λ (v, p, e). subst (LangRow cs) (sym e) p)
LangRow-flush (x ∷ a) cs w =
    (λ (u, v, p, q, e). (v, q, e ∙ ap (λ z. z ++ v) p), λ (v, q, e). (x ∷ a, v, refl, q, e))

Behind-cong :
    (a : List ℕ) (cs ds : Children)
    → Same (LangRow cs) (LangRow ds)
    → Same (Behind a cs) (Behind a ds)
Behind-cong a cs ds f w = (λ (v, p, e). (v, (f v).0 p, e), λ (v, p, e). (v, (f v).1 p, e))

pub Same-trans : {P Q R : List ℕ → Type 0} → Same P Q → Same Q R → Same P R
Same-trans f g w = (λ h. (g w).0 ((f w).0 h), λ h. (f w).1 ((g w).1 h))

Behind-word :
    (a u : List ℕ) (cs : Children) → Same (Behind (a ++ u) cs) (Behind a (child (reg_word u) cs))
Behind-word a u cs w = (
  λ (v, p, e). (u ++ v, (u, v, refl, p, refl), e ∙ append_assoc a u v),
  λ (v, (x, y, p, q, f), e).
      (y, q, e ∙ ap (λ z. a ++ z) (f ∙ ap (λ z. z ++ y) p) ∙ sym (append_assoc a u y)),
)

pub Behind-nil : (cs : Children) → Same (Behind [] cs) (LangRow cs)
Behind-nil cs w = (λ (v, p, e). subst (LangRow cs) (sym e) p, λ h. (w, h, refl))

pub LangRow-join_words :
    (cs : Children) (a : List ℕ) → Same (LangRow (join_words a cs)) (Behind a cs)
unfolding join_words
LangRow-join_words none_left a = LangRow-flush a none_left
LangRow-join_words (child (reg_word u) cs) a =
    Same-trans (LangRow-join_words cs (a ++ u)) (Behind-word a u cs)
LangRow-join_words (child reg_empty cs) a = Same-trans (LangRow-flush a _) (
    Behind-cong a (child reg_empty (join_words [] cs)) (child reg_empty cs)
      (Row-cong (Lang reg_empty) _ cs (Same-trans (LangRow-join_words cs []) (Behind-nil cs))))
LangRow-join_words (child (operation o ds) cs) a = Same-trans (LangRow-flush a _) (
    Behind-cong a (child (operation o ds) (join_words [] cs)) (child (operation o ds) cs) (
      Row-cong (Lang (operation o ds)) _ cs
        (Same-trans (LangRow-join_words cs []) (Behind-nil cs))))

pub LangRow-pad : (cs : Children) → Same (LangRow (pad cs)) (LangRow cs)
LangRow-pad none_left w = (λ h. h, λ h. h)
LangRow-pad (child r (child s cs)) w = (λ h. h, λ h. h)
LangRow-pad (child r none_left) w = (
  λ (u, v, p, (x, y, q, n, f), e). (u, v, p, f ∙ ap (λ z. z ++ y) q ∙ n, e),
  λ (u, v, p, n, e). (u, v, p, ([], [], refl, refl, n), e),
)
