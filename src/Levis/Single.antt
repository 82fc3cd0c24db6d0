-- ===== src/Levis/Single.antt =====
-- The rules of libs/solvers/levis/rules.hpp all together, as solver.cpp runs them.
use woorpje.Common.{◌≡◌, ◌≢◌, ◌↔◌, ◌⊎◌, refl, inl, inr, Option, none, some, List, [], ◌∷◌, ◌++◌}
use woorpje.Word.Defs.{Entry, Word, variable, terminal, sequence}
use woorpje.Levis.Rules.{
  Equation, Rule, propose, at_front, at_back, front_rules, back_rules, two_variables, variable_left,
  variable_right,
}
use woorpje.Levis.Sequencer.{successors}
use woorpje.Levis.Satisfiable.{
  Satisfiable, Holds, Any, Explains, IsSingle, AllSingle, successors_sound, successors_complete,
}
use woorpje.Word.Value.{Assignment}
use woorpje.Levis.Front.{front_explains}
use woorpje.Levis.Back.{back_explains}

module _ (word : Entry → Entry → Word) where
  two_left-IsSingle :
      (o : Option (Entry × Entry)) → IsSingle (propose two_variables (λ l r. (l, word l r)) o)
  unfolding propose
  two_left-IsSingle none = inl refl
  two_left-IsSingle (some (variable x, variable y)) = inr (x, _, refl)
  two_left-IsSingle (some (variable x, terminal y)) = inl refl
  two_left-IsSingle (some (variable x, sequence y)) = inl refl
  two_left-IsSingle (some (terminal x, r)) = inl refl
  two_left-IsSingle (some (sequence x, r)) = inl refl

  two_right-IsSingle :
      (o : Option (Entry × Entry)) → IsSingle (propose two_variables (λ l r. (r, word l r)) o)
  unfolding propose
  two_right-IsSingle none = inl refl
  two_right-IsSingle (some (variable x, variable y)) = inr (y, _, refl)
  two_right-IsSingle (some (variable x, terminal y)) = inl refl
  two_right-IsSingle (some (variable x, sequence y)) = inl refl
  two_right-IsSingle (some (terminal x, r)) = inl refl
  two_right-IsSingle (some (sequence x, r)) = inl refl

  left-IsSingle :
      (o : Option (Entry × Entry)) → IsSingle (propose variable_left (λ l r. (l, word l r)) o)
  unfolding propose
  left-IsSingle none = inl refl
  left-IsSingle (some (variable x, variable y)) = inl refl
  left-IsSingle (some (variable x, terminal y)) = inr (x, _, refl)
  left-IsSingle (some (variable x, sequence y)) = inl refl
  left-IsSingle (some (terminal x, r)) = inl refl
  left-IsSingle (some (sequence x, r)) = inl refl

  right-IsSingle :
      (o : Option (Entry × Entry)) → IsSingle (propose variable_right (λ l r. (r, word l r)) o)
  unfolding propose
  right-IsSingle none = inl refl
  right-IsSingle (some (variable x, variable y)) = inl refl
  right-IsSingle (some (terminal x, variable y)) = inr (y, _, refl)
  right-IsSingle (some (sequence x, variable y)) = inl refl
  right-IsSingle (some (x, terminal y)) = inl refl
  right-IsSingle (some (x, sequence y)) = inl refl

AllSingle-append :
    (rules more : List Rule) (e : Equation)
    → AllSingle rules e
    → AllSingle more e
    → AllSingle (rules ++ more) e
AllSingle-append [] more e h k = k
AllSingle-append (rule ∷ rules) more e h k = (h.0, AllSingle-append rules more e h.1 k)

front-AllSingle : (e : Equation) → AllSingle front_rules e
front-AllSingle e = (
  two_left-IsSingle _ (at_front e),
  (
    two_right-IsSingle _ (at_front e),
    (
      two_right-IsSingle _ (at_front e),
      (
        left-IsSingle _ (at_front e),
        (
          right-IsSingle _ (at_front e),
          (left-IsSingle _ (at_front e), (right-IsSingle _ (at_front e), tt)),
        ),
      ),
    ),
  ),
)

back-AllSingle : (e : Equation) → AllSingle back_rules e
back-AllSingle e = (
  two_left-IsSingle _ (at_back e),
  (
    two_right-IsSingle _ (at_back e),
    (
      two_right-IsSingle _ (at_back e),
      (
        left-IsSingle _ (at_back e),
        (
          right-IsSingle _ (at_back e),
          (left-IsSingle _ (at_back e), (right-IsSingle _ (at_back e), tt)),
        ),
      ),
    ),
  ),
)

Any-append : {A : Type 0} (P : A → Type 0) (xs ys : List A) → Any P xs → Any P (xs ++ ys)
Any-append P [] ys h = absurd h
Any-append P (x ∷ xs) ys (inl h) = inl h
Any-append P (x ∷ xs) ys (inr h) = inr (Any-append P xs ys h)

Any-behind : {A : Type 0} (P : A → Type 0) (xs ys : List A) → Any P ys → Any P (xs ++ ys)
Any-behind P [] ys h = h
Any-behind P (x ∷ xs) ys h = inr (Any-behind P xs ys h)

-- The sides begin with different entries, or end with different ones.
abbrev pub Diverges : Equation → Type 0
Diverges e =
    ((l : Entry) × (r : Entry) × (at_front e ≡ some (l, r)) × (l ≢ r))
    ⊎ ((l : Entry) × (r : Entry) × (at_back e ≡ some (l, r)) × (l ≢ r))

explained :
    (σ : Assignment) (e : Equation)
    → Diverges e
    → Holds σ e
    → Any (λ rule. Explains σ (rule e)) (front_rules ++ back_rules)
explained σ e (inl (l, r, h, d)) k =
    Any-append (λ rule. Explains σ (rule e)) front_rules back_rules (front_explains σ e l r h d k)
explained σ e (inr (l, r, h, d)) k =
    Any-behind (λ rule. Explains σ (rule e)) front_rules back_rules (back_explains σ e l r h d k)

-- Where the sides of the first equation begin or end with different entries, a system has a solution
-- exactly if one of the systems that the rules make of it has one.
pub levis_iff :
    (e : Equation) (es : List Equation)
    → Diverges e
    → Satisfiable (e ∷ es) ↔ Any Satisfiable (successors (front_rules ++ back_rules) e es)
levis_iff e es d = (
  λ (σ, k). successors_complete (front_rules ++ back_rules) e es σ k (explained σ e d k.0),
  successors_sound (front_rules ++ back_rules) e es
      (AllSingle-append front_rules back_rules e (front-AllSingle e) (back-AllSingle e)),
)
