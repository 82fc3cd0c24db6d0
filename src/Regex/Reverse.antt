-- ===== src/Regex/Reverse.antt =====
-- `reverse` of the node classes of libs/words/pubinclude/words/regconstraints.hpp against the language.
use woorpje.Common.{
  ℕ, ◌≡◌, refl, ◌↔◌, inl, inr, List, [], ◌++◌, sym, ap, ◌∙◌, subst, reverse, reverse-append,
  reverse-reverse, append-nil, append_assoc,
}
use woorpje.Regex.Defs.{
  RegNode, Children, reg_empty, reg_word, operation, union, concat, star, none_left, child,
  append_children, reverse_children, reverse_node, reverse_each, reverse_first,
}
use woorpje.Regex.Lang.{Star, stop, more, Lang, LangSome, LangRow, LangFirst, Star-append}

pub LangRow-append_children :
    (cs ds : Children) (u v : List ℕ)
    → LangRow cs u
    → LangRow ds v
    → LangRow (append_children cs ds) (u ++ v)
unfolding append_children
LangRow-append_children none_left ds u v h k = subst (λ x. LangRow ds (x ++ v)) (sym h) k
LangRow-append_children (child r cs) ds u v (a, b, p, q, e) k =
    (a, b ++ v, p, LangRow-append_children cs ds b v q k, ap (λ x. x ++ v) e ∙ append_assoc a b v)

pub LangRow-append_children_inv :
    (cs ds : Children) (w : List ℕ)
    → LangRow (append_children cs ds) w
    → (u : List ℕ) × (v : List ℕ) × LangRow cs u × LangRow ds v × (w ≡ u ++ v)
unfolding append_children
LangRow-append_children_inv none_left ds w h = ([], w, refl, h, refl)
LangRow-append_children_inv (child r cs) ds w (a, b, p, q, e) =
    let (u, v, x, y, f) = LangRow-append_children_inv cs ds b q in
    (a ++ u, v, (a, u, p, x, refl), y, e ∙ ap (λ z. a ++ z) f ∙ sym (append_assoc a u v))

Star-one : {P : List ℕ → Type 0} {u : List ℕ} → P u → Star P u
Star-one {u} h = more u [] h (stop refl) (sym (append-nil u))

-- A star turned around, where its language is.
Star-reverse :
    {P Q : List ℕ → Type 0} {w : List ℕ}
    → ((u : List ℕ) → P u → Q (reverse u))
    → Star P w
    → Star Q (reverse w)
Star-reverse f (stop e) = stop (ap reverse e)
Star-reverse f (more u v h s e) =
    subst (Star _) (sym (ap reverse e ∙ reverse-append u v))
      (Star-append (Star-reverse f s) (Star-one (f u h)))

LangRow-one : (r : RegNode) (u : List ℕ) → Lang r u → LangRow (child r none_left) u
LangRow-one r u h = (u, [], h, refl, sym (append-nil u))

mutual
  unfolding reverse_node

  to_reverse : (r : RegNode) (w : List ℕ) → Lang r w → Lang (reverse_node r) (reverse w)
  to_reverse reg_empty w h = h
  to_reverse (reg_word u) w h = ap reverse h
  to_reverse (operation union cs) w h = to_reverse_some cs w h
  to_reverse (operation concat cs) w h = to_reverse_row cs w h
  to_reverse (operation star cs) w h = Star-reverse (to_reverse_first cs) h

  to_reverse_some :
      (cs : Children) (w : List ℕ) → LangSome cs w → LangSome (reverse_each cs) (reverse w)
  to_reverse_some none_left w h = h
  to_reverse_some (child r cs) w (inl h) = inl (to_reverse r w h)
  to_reverse_some (child r cs) w (inr h) = inr (to_reverse_some cs w h)

  to_reverse_row :
      (cs : Children) (w : List ℕ)
      → LangRow cs w
      → LangRow (reverse_children (reverse_each cs)) (reverse w)
  to_reverse_row none_left w h = ap reverse h
  to_reverse_row (child r cs) w (u, v, p, q, e) =
      subst (LangRow _) (sym (ap reverse e ∙ reverse-append u v)) (
        LangRow-append_children _ _ _ _ (to_reverse_row cs v q)
          (LangRow-one _ _ (to_reverse r u p)))

  to_reverse_first :
      (cs : Children) (w : List ℕ) → LangFirst cs w → LangFirst (reverse_first cs) (reverse w)
  to_reverse_first none_left w h = h
  to_reverse_first (child r cs) w h = to_reverse r w h

mutual
  unfolding reverse_node

  from_reverse : (r : RegNode) (w : List ℕ) → Lang (reverse_node r) w → Lang r (reverse w)
  from_reverse reg_empty w h = h
  from_reverse (reg_word u) w h = ap reverse h ∙ reverse-reverse u
  from_reverse (operation union cs) w h = from_reverse_some cs w h
  from_reverse (operation concat cs) w h = from_reverse_row cs w h
  from_reverse (operation star cs) w h = Star-reverse (from_reverse_first cs) h

  from_reverse_some :
      (cs : Children) (w : List ℕ) → LangSome (reverse_each cs) w → LangSome cs (reverse w)
  from_reverse_some none_left w h = h
  from_reverse_some (child r cs) w (inl h) = inl (from_reverse r w h)
  from_reverse_some (child r cs) w (inr h) = inr (from_reverse_some cs w h)

  from_reverse_row :
      (cs : Children) (w : List ℕ)
      → LangRow (reverse_children (reverse_each cs)) w
      → LangRow cs (reverse w)
  from_reverse_row none_left w h = ap reverse h
  from_reverse_row (child r cs) w h =
      let (u, v, p, (a, b, q, e, f), g) =
        LangRow-append_children_inv (reverse_children (reverse_each cs))
          (child (reverse_node r) none_left) w h in
      (
        reverse v,
        reverse u,
        subst (λ x. Lang r (reverse x)) (sym (f ∙ ap (λ x. a ++ x) e ∙ append-nil a))
            (from_reverse r a q),
        from_reverse_row cs u p,
        ap reverse g ∙ reverse-append u v,
      )

  from_reverse_first :
      (cs : Children) (w : List ℕ) → LangFirst (reverse_first cs) w → LangFirst cs (reverse w)
  from_reverse_first none_left w h = h
  from_reverse_first (child r cs) w h = from_reverse r w h

-- A word is in the language of the reversed expression exactly if its reverse is in the language
-- of the expression.
pub reverse_node_iff : (r : RegNode) (w : List ℕ) → Lang (reverse_node r) w ↔ Lang r (reverse w)
reverse_node_iff r w = (
  from_reverse r w,
  λ h. subst (Lang (reverse_node r)) (reverse-reverse w) (to_reverse r (reverse w) h),
)
