-- ===== src/Regex/Words.antt =====
-- `acceptsEpsilon`, `any` and `isEmpty` against the language.
use woorpje.Common.{
  ℕ, ◌≡◌, refl, ◌↔◌, ◌⊎◌, inl, inr, true, false, Option, none, some, List, [], ◌∷◌, ◌++◌, arith,
  Bool-cases, sym, subst,
}
use woorpje.Regex.Defs.{
  RegNode, Children, reg_empty, reg_word, operation, union, concat, star, none_left, child,
  accepts_epsilon, some_accepts, all_accept, any, any_child, any_in_row, is_empty, all_empty,
  some_empty, first_empty, or_else, append_words,
}
use woorpje.Regex.Lang.{stop, Lang, LangSome, LangRow}

append-nil_inv : (u v : List ℕ) → [] ≡ u ++ v → (u ≡ []) × (v ≡ [])
append-nil_inv [] v e = (refl, sym e)
append-nil_inv (x ∷ u) v e = cc

mutual
  unfolding accepts_epsilon

  epsilon_sound : (r : RegNode) → accepts_epsilon r ≡ true → Lang r []
  epsilon_sound reg_empty h = cc
  epsilon_sound (reg_word []) h = refl
  epsilon_sound (reg_word (x ∷ u)) h = ground arith
  epsilon_sound (operation union cs) h = some_sound cs h
  epsilon_sound (operation concat cs) h = row_sound cs h
  epsilon_sound (operation star cs) h = stop refl

  some_sound : (cs : Children) → some_accepts cs ≡ true → LangSome cs []
  some_sound none_left h = cc
  some_sound (child r cs) h = elim (Bool-cases (accepts_epsilon r)) [
    | inl e ↦ inl (epsilon_sound r e)
    | inr e ↦ inr (some_sound cs (ground arith))
  ]

  row_sound : (cs : Children) → all_accept cs ≡ true → LangRow cs []
  row_sound none_left h = refl
  row_sound (child r cs) h =
      ([], [], epsilon_sound r (ground arith), row_sound cs (ground arith), refl)

mutual
  unfolding accepts_epsilon

  epsilon_complete : (r : RegNode) → Lang r [] → accepts_epsilon r ≡ true
  epsilon_complete reg_empty h = absurd h
  epsilon_complete (reg_word []) h = refl
  epsilon_complete (reg_word (x ∷ u)) h = cc
  epsilon_complete (operation union cs) h = some_complete cs h
  epsilon_complete (operation concat cs) h = row_complete cs h
  epsilon_complete (operation star cs) h = refl

  some_complete : (cs : Children) → LangSome cs [] → some_accepts cs ≡ true
  some_complete none_left h = absurd h
  some_complete (child r cs) (inl h) = let e = epsilon_complete r h in ground arith
  some_complete (child r cs) (inr h) = let e = some_complete cs h in ground arith

  row_complete : (cs : Children) → LangRow cs [] → all_accept cs ≡ true
  row_complete none_left h = refl
  row_complete (child r cs) (u, v, p, q, e) =
      let (eu, ev) = append-nil_inv u v e in
      let a = epsilon_complete r (subst (Lang r) eu p) in
      let b = row_complete cs (subst (LangRow cs) ev q) in ground arith

-- `acceptsEpsilon` answers true exactly if the empty word is in the language.
pub accepts_epsilon_iff : (r : RegNode) → (accepts_epsilon r ≡ true) ↔ Lang r []
accepts_epsilon_iff r = (epsilon_sound r, epsilon_complete r)

-- What an answer of `any` says of a language.
abbrev pub Picks : (List ℕ → Type 0) → Option (List ℕ) → Type 0
Picks L (some w) = L w
Picks L none = (w : List ℕ) → ¬ L w

or_else-Picks :
    (P Q : List ℕ → Type 0) (a b : Option (List ℕ))
    → Picks P a
    → Picks Q b
    → Picks (λ w. P w ⊎ Q w) (or_else a b)
unfolding or_else
or_else-Picks P Q (some u) b p q = inl p
or_else-Picks P Q none (some v) p q = inr q
or_else-Picks P Q none none p q = λ w h. elim h [ inl x ↦ p w x | inr y ↦ q w y ]

append_words-Picks :
    (r : RegNode) (cs : Children) (a b : Option (List ℕ))
    → Picks (Lang r) a
    → Picks (LangRow cs) b
    → Picks (LangRow (child r cs)) (append_words a b)
unfolding append_words
append_words-Picks r cs none b p q = λ w h. p h.0 h.2
append_words-Picks r cs (some u) none p q = λ w h. q h.1 h.3
append_words-Picks r cs (some u) (some v) p q = (u, v, p, q, refl)

mutual
  unfolding any

  any-Picks_node : (r : RegNode) → Picks (Lang r) (any r)
  any-Picks_node reg_empty = λ w h. h
  any-Picks_node (reg_word u) = refl
  any-Picks_node (operation union cs) = any_child-Picks cs
  any-Picks_node (operation concat cs) = any_in_row-Picks cs
  any-Picks_node (operation star cs) = stop refl

  any_child-Picks : (cs : Children) → Picks (LangSome cs) (any_child cs)
  any_child-Picks none_left = λ w h. h
  any_child-Picks (child r cs) =
      or_else-Picks (Lang r) (LangSome cs) (any r) (any_child cs) (any-Picks_node r)
        (any_child-Picks cs)

  any_in_row-Picks : (cs : Children) → Picks (LangRow cs) (any_in_row cs)
  any_in_row-Picks none_left = refl
  any_in_row-Picks (child r cs) =
      append_words-Picks r cs (any r) (any_in_row cs) (any-Picks_node r) (any_in_row-Picks cs)

-- A word that `any` returns is in the language, and `any` throws only if the language is empty.
pub any-Picks : (r : RegNode) → Picks (Lang r) (any r)
any-Picks r = any-Picks_node r

-- No star stands over a child that `isEmpty` calls empty.
abbrev mutual
  pub NoEmptyStar : RegNode → Type 0
  NoEmptyStar reg_empty = Unit
  NoEmptyStar (reg_word u) = Unit
  NoEmptyStar (operation union cs) = AllNoEmptyStar cs
  NoEmptyStar (operation concat cs) = AllNoEmptyStar cs
  NoEmptyStar (operation star cs) = first_empty cs ≡ false

  pub AllNoEmptyStar : Children → Type 0
  AllNoEmptyStar none_left = Unit
  AllNoEmptyStar (child r cs) = NoEmptyStar r × AllNoEmptyStar cs

mutual
  unfolding is_empty

  empty_sound : (r : RegNode) → NoEmptyStar r → is_empty r ≡ true → (w : List ℕ) → ¬ Lang r w
  empty_sound reg_empty n h = λ w x. x
  empty_sound (reg_word u) n h = cc
  empty_sound (operation union cs) n h = all_empty_sound cs n h
  empty_sound (operation concat cs) n h = some_empty_sound cs n h
  empty_sound (operation star cs) n h = cc

  all_empty_sound :
      (cs : Children) → AllNoEmptyStar cs → all_empty cs ≡ true → (w : List ℕ) → ¬ LangSome cs w
  all_empty_sound none_left n h = λ w x. x
  all_empty_sound (child r cs) n h =
      let p = empty_sound r n.0 (ground arith) in
      let q = all_empty_sound cs n.1 (ground arith) in
      λ w x. elim x [ inl y ↦ p w y | inr z ↦ q w z ]

  some_empty_sound :
      (cs : Children) → AllNoEmptyStar cs → some_empty cs ≡ true → (w : List ℕ) → ¬ LangRow cs w
  some_empty_sound none_left n h = cc
  some_empty_sound (child r cs) n h = elim (Bool-cases (is_empty r)) [
    | inl e ↦ (let p = empty_sound r n.0 e in λ w x. p x.0 x.2)
    | inr e ↦ (let p = some_empty_sound cs n.1 (ground arith) in λ w x. p x.1 x.3)
  ]

abbrev pub Nonempty : (List ℕ → Type 0) → Type 0
Nonempty L = (w : List ℕ) × L w

mutual
  unfolding is_empty

  nonempty_sound : (r : RegNode) → is_empty r ≡ false → Nonempty (Lang r)
  nonempty_sound reg_empty h = cc
  nonempty_sound (reg_word u) h = (u, refl)
  nonempty_sound (operation union cs) h = some_nonempty cs h
  nonempty_sound (operation concat cs) h = row_nonempty cs h
  nonempty_sound (operation star cs) h = ([], stop refl)

  some_nonempty : (cs : Children) → all_empty cs ≡ false → Nonempty (LangSome cs)
  some_nonempty none_left h = cc
  some_nonempty (child r cs) h = elim (Bool-cases (is_empty r)) [
    | inl e ↦ (let p = some_nonempty cs (ground arith) in (p.0, inr p.1))
    | inr e ↦ (let p = nonempty_sound r e in (p.0, inl p.1))
  ]

  row_nonempty : (cs : Children) → some_empty cs ≡ false → Nonempty (LangRow cs)
  row_nonempty none_left h = ([], refl)
  row_nonempty (child r cs) h =
      let p = nonempty_sound r (ground arith) in
      let q = row_nonempty cs (ground arith) in (p.0 ++ q.0, (p.0, q.0, p.1, q.1, refl))

-- Where no star stands over an empty child, `isEmpty` answers true exactly if no word is in the
-- language.
pub is_empty_iff : (r : RegNode) → NoEmptyStar r → (is_empty r ≡ true) ↔ ((w : List ℕ) → ¬ Lang r w)
is_empty_iff r n = (
  empty_sound r n,
  λ h. elim (Bool-cases (is_empty r)) [
    | inl e ↦ e
    | inr e ↦ (let p = nonempty_sound r e in absurd (h p.0 p.1))
  ],
)
