-- ===== src/Regex/Flatten/Language.antt =====
-- `RegOperation::flatten` against the language, on the tree as a whole.
use woorpje.Common.{ℕ, refl, ◌↔◌, inl, inr, List, [], sym, subst, append-nil}
use woorpje.Regex.Defs.{
  RegNode, Children, reg_empty, reg_word, operation, union, concat, star, none_left, child,
  append_children,
}
use woorpje.Regex.Lang.{
  Star, stop, more, Lang, LangSome, LangRow, LangFirst, HasOne, IsWellFormed, AllWellFormed,
  Star-map, Star-append,
}
use woorpje.Regex.Flatten.{merge, join_words, pad, flatten, flatten_each}
use woorpje.Regex.Flatten.Keeps.{
  Same, Same-trans, Behind-nil, LangSome-merge, LangRow-merge, LangRow-join_words, LangRow-pad,
}

-- A star at the root has a child.
abbrev StarHasOne : RegNode → Type 0
StarHasOne (operation star cs) = HasOne cs
StarHasOne _ = Unit

-- A star of a star takes the words of the inner one.
Star-join : {P : List ℕ → Type 0} → Same (Star (Star P)) (Star P)
Star-join {P} w = (λ h. inner w h, λ h. more w [] h (stop refl) (sym (append-nil w)))
  where
    inner : (u : List ℕ) → Star (Star P) u → Star P u
    inner u (stop e) = stop e
    inner u (more a b p s e) = subst (Star P) (sym e) (Star-append p (inner b s))

first-merge :
    (r : RegNode) (cs : Children)
    → StarHasOne r
    → Same (Star (LangFirst (merge star (child r cs)))) (Star (Lang r))
unfolding merge append_children
first-merge reg_empty cs h w = (λ x. x, λ x. x)
first-merge (reg_word u) cs h w = (λ x. x, λ x. x)
first-merge (operation union ds) cs h w = (λ x. x, λ x. x)
first-merge (operation concat ds) cs h w = (λ x. x, λ x. x)
first-merge (operation star none_left) cs h w = absurd h
first-merge (operation star (child s ds)) cs h w = ((Star-join w).1, (Star-join w).0)

HasOne-merge : (r : RegNode) (cs : Children) → StarHasOne r → HasOne (merge star (child r cs))
unfolding merge append_children
HasOne-merge reg_empty cs h = tt
HasOne-merge (reg_word u) cs h = tt
HasOne-merge (operation union ds) cs h = tt
HasOne-merge (operation concat ds) cs h = tt
HasOne-merge (operation star none_left) cs h = absurd h
HasOne-merge (operation star (child s ds)) cs h = tt

flatten-StarHasOne : (r : RegNode) → IsWellFormed r → StarHasOne (flatten r)
unfolding flatten
flatten-StarHasOne reg_empty h = tt
flatten-StarHasOne (reg_word u) h = tt
flatten-StarHasOne (operation union cs) h = tt
flatten-StarHasOne (operation concat cs) h = tt
flatten-StarHasOne (operation star none_left) h = absurd h.0
flatten-StarHasOne (operation star (child r cs)) h =
    HasOne-merge (flatten r) (flatten_each cs) (flatten-StarHasOne r h.1.0)

row-flatten : (cs : Children) → Same (LangRow (pad (join_words [] (merge concat cs)))) (LangRow cs)
row-flatten cs =
    let j = Same-trans (LangRow-join_words (merge concat cs) []) (Behind-nil (merge concat cs)) in
    Same-trans (LangRow-pad (join_words [] (merge concat cs))) (Same-trans j (LangRow-merge cs))

mutual
  unfolding flatten

  flatten_node : (r : RegNode) → IsWellFormed r → Same (Lang (flatten r)) (Lang r)
  flatten_node reg_empty h w = (λ x. x, λ x. x)
  flatten_node (reg_word u) h w = (λ x. x, λ x. x)
  flatten_node (operation union cs) h w =
      Same-trans (LangSome-merge (flatten_each cs)) (flatten_some cs h) w
  flatten_node (operation concat cs) h w =
      Same-trans (row-flatten (flatten_each cs)) (flatten_row cs h.1) w
  flatten_node (operation star none_left) h w = absurd h.0
  flatten_node (operation star (child r cs)) h w =
      let f = flatten_node r h.1.0 in
      let m = first-merge (flatten r) (flatten_each cs) (flatten-StarHasOne r h.1.0) w in
      (λ x. Star-map (λ u. (f u).0) (m.0 x), λ x. m.1 (Star-map (λ u. (f u).1) x))

  flatten_some :
      (cs : Children) → AllWellFormed cs → Same (LangSome (flatten_each cs)) (LangSome cs)
  flatten_some none_left h w = (λ x. x, λ x. x)
  flatten_some (child r cs) h w =
      let f = flatten_node r h.0 w in
      let g = flatten_some cs h.1 w in
      (
        λ x. elim x [ inl a ↦ inl (f.0 a) | inr b ↦ inr (g.0 b) ],
        λ x. elim x [ inl a ↦ inl (f.1 a) | inr b ↦ inr (g.1 b) ],
      )

  flatten_row : (cs : Children) → AllWellFormed cs → Same (LangRow (flatten_each cs)) (LangRow cs)
  flatten_row none_left h w = (λ x. x, λ x. x)
  flatten_row (child r cs) h w =
      let f = flatten_node r h.0 in
      let g = flatten_row cs h.1 in
      (
        λ (u, v, p, q, e). (u, v, (f u).0 p, (g v).0 q, e),
        λ (u, v, p, q, e). (u, v, (f u).1 p, (g v).1 q, e),
      )

-- Flattening a well-formed expression keeps the words of its language.
pub flatten_iff : (r : RegNode) → IsWellFormed r → (w : List ℕ) → Lang (flatten r) w ↔ Lang r w
flatten_iff r h = flatten_node r h
