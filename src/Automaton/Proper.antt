-- ===== src/Automaton/Proper.antt =====
-- Expressions of libs/regex and what an automaton that `regexToNfa` builds for one has to satisfy.
use woorpje.Common.{
  ℕ, ◌≡◌, ◌↔◌, inl, refl, sym, ap, ◌∙◌, subst, true, Option, some, List, [], ◌∷◌, ◌++◌,
  append_assoc, append-nil,
}
use woorpje.Members.{In}
use woorpje.Regex.Defs.{
  RegNode, Children, reg_empty, reg_word, operation, union, concat, star, none_left, child,
}
use woorpje.Regex.Lang.{stop, Lang, LangRow, HasOne}
use woorpje.Automaton.Defs.{Nfa, Transition, is_nil}
use woorpje.Automaton.Reach.{Reach, stay, by_letter, by_epsilon, Leads, Accepts, IsInRange}
use woorpje.Automaton.Attach.{AllBelow}
use woorpje.Automaton.Parts.{IsOpen}
use woorpje.Automaton.Words.{Then}

-- No `RegEmpty`, no union of nothing, and a child for each star.
abbrev mutual
  pub IsProper : RegNode → Type 0
  IsProper reg_empty = ⊥
  IsProper (reg_word u) = Unit
  IsProper (operation union cs) = HasOne cs × AllProper cs
  IsProper (operation concat cs) = AllProper cs
  IsProper (operation star cs) = HasOne cs × AllProper cs

  pub AllProper : Children → Type 0
  AllProper none_left = Unit
  AllProper (child r cs) = IsProper r × AllProper cs

-- A proper expression has a word.
mutual
  some_word : (r : RegNode) → IsProper r → (w : List ℕ) × Lang r w
  some_word reg_empty h = absurd h
  some_word (reg_word u) h = (u, refl)
  some_word (operation union none_left) h = absurd h.0
  some_word (operation union (child r cs)) h = let (w, k) = some_word r h.1.0 in (w, inl k)
  some_word (operation concat cs) h = some_row cs h
  some_word (operation star cs) h = ([], stop refl)

  some_row : (cs : Children) → AllProper cs → (w : List ℕ) × LangRow cs w
  some_row none_left h = ([], refl)
  some_row (child r cs) h =
      let (u, k) = some_word r h.0 in let (v, g) = some_row cs h.1 in (u ++ v, (u, v, k, g, refl))

no_letters : {m : Nfa} {p q : ℕ} {w : List ℕ} → is_nil m.delta ≡ true → Reach m p w q → w ≡ []
no_letters {m} h (stay e k) = e
no_letters {m} h (by_letter {w} {q} u r c a g i t e) = absurd (empty m.delta h i)
  where
    empty : (ts : List Transition) → is_nil ts ≡ true → In (r, a, q) ts → ⊥
    empty [] h i = i
    empty (t ∷ ts) h i = cc
no_letters {m} h (by_epsilon r g i) = no_letters h g

-- An automaton without letters that accepts a word accepts the empty word alone.
pub only_empty :
    (m : Nfa) (r : RegNode)
    → is_nil m.delta ≡ true
    → IsProper r
    → ((w : List ℕ) → Accepts m w ↔ Lang r w)
    → (w : List ℕ) → Lang r w ↔ (w ≡ [])
only_empty m r z h f w =
    let silent = λ (v : List ℕ) (k : Lang r v). (let (q, i, x) = (f v).1 k in no_letters z x) in
    let (v, k) = some_word r h in (silent w, λ e. subst (Lang r) (silent v k ∙ sym e) k)

pub Then-empty :
    {P Q : List ℕ → Type 0} → ((w : List ℕ) → Q w ↔ (w ≡ [])) → (w : List ℕ) → Then P Q w ↔ P w
Then-empty {P} f w = (
  λ (u, v, p, q, e). subst P (sym (e ∙ ap (λ z. u ++ z) ((f v).0 q) ∙ append-nil u)) p,
  λ p. (w, [], p, (f []).1 refl, sym (append-nil w)),
)

pub Then-assoc : {P Q R : List ℕ → Type 0} (w : List ℕ) → Then (Then P Q) R w ↔ Then P (Then Q R) w
Then-assoc w = (
  λ (u, v, (x, y, p, q, e), r, f).
      (x, y ++ v, p, (y, v, q, r, refl), f ∙ ap (λ z. z ++ v) e ∙ append_assoc x y v),
  λ (u, v, p, (x, y, q, r, e), f).
      (u ++ x, y, (u, x, p, q, refl), r, f ∙ ap (λ z. u ++ z) e ∙ sym (append_assoc u x y)),
)

pub Then-cong :
    {P P' Q Q' : List ℕ → Type 0}
    → ((w : List ℕ) → P w ↔ P' w)
    → ((w : List ℕ) → Q w ↔ Q' w)
    → (w : List ℕ) → Then P Q w ↔ Then P' Q' w
Then-cong f g w = (
  λ (u, v, p, q, e). (u, v, (f u).0 p, (g v).0 q, e),
  λ (u, v, p, q, e). (u, v, (f u).1 p, (g v).1 q, e),
)

pub iff_trans : {A B C : Type 0} → A ↔ B → B ↔ C → A ↔ C
iff_trans f g = (λ a. g.0 (f.0 a), λ c. f.1 (g.1 c))

-- The result of a call, with what it accepts.
abbrev pub Builds : (List ℕ → Type 0) → Option Nfa → Type 0
Builds P o = (m : Nfa) × (o ≡ some m) × IsInRange m × ((w : List ℕ) → Accepts m w ↔ P w)

-- What the loops over the parts keep: the states that words of `P` lead to.
abbrev pub Holds : (List ℕ → Type 0) → Nfa × List ℕ → Type 0
Holds P (m, qs) = IsOpen m × AllBelow m.num_states qs × ((w : List ℕ) → Leads m qs w ↔ P w)
