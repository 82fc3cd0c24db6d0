-- ===== src/Automaton/Reach.antt =====
-- The runs of an automaton, and what it accepts.
use woorpje.Common.{
  ℕ, ◌<◌, ◌≡◌, refl, sym, ap, ◌∙◌, subst, List, [], ◌∷◌, ◌++◌, append_assoc, append-nil,
}
use woorpje.Members.{In}
use woorpje.Automaton.Defs.{Label, letter, epsilon, Transition, Nfa}

-- The letters that a label takes: the context's epsilon takes each, as `accept` reads it.
abbrev pub Takes : Label → ℕ → Type 0
Takes (letter a) c = a ≡ c
Takes epsilon c = Unit

-- From `p` the word `w` leads to `q`; the last step stands last.
pub data Reach (m : Nfa) (p : ℕ) : List ℕ → ℕ → Type 0 where
  stay : {w : List ℕ} {q : ℕ} → w ≡ [] → q ≡ p → Reach m p w q
  by_letter :
      {w : List ℕ} {q : ℕ} (u : List ℕ) (r c : ℕ) (a : Label)
      → Reach m p u r
      → In (r, a, q) m.delta
      → Takes a c
      → w ≡ u ++ c ∷ []
      → Reach m p w q
  by_epsilon :
      {w : List ℕ} {q : ℕ} (r : ℕ) → Reach m p w r → In (r, q) m.delta_epsilon → Reach m p w q

-- Some word of `P` leads from the initial state to one of the states.
abbrev pub Leads : Nfa → List ℕ → List ℕ → Type 0
Leads m qs w = (q : ℕ) × In q qs × Reach m m.init_state w q

abbrev pub Accepts : Nfa → List ℕ → Type 0
Accepts m w = Leads m m.final_states w

pub Reach-trans :
    {m : Nfa} {p r q : ℕ} (u v w : List ℕ)
    → Reach m p u r
    → Reach m r v q
    → w ≡ u ++ v
    → Reach m p w q
Reach-trans {m} {p} {r} {q} u v w h (stay e f) k =
    subst (λ z. Reach m p w z) (sym f)
      (subst (λ z. Reach m p z r) (sym (k ∙ ap (λ z. u ++ z) e ∙ append-nil u)) h)
Reach-trans u v w h (by_letter x r c a g i t e) k =
    by_letter (u ++ x) r c a (Reach-trans u x (u ++ x) h g refl) i t
      (k ∙ ap (λ z. u ++ z) e ∙ sym (append_assoc u x (c ∷ [])))
Reach-trans u v w h (by_epsilon r g i) k = by_epsilon r (Reach-trans u v w h g k) i

-- More transitions allow more runs.
pub Reach-mono :
    {m n : Nfa} {p q : ℕ} {w : List ℕ}
    → ((t : Transition) → In t m.delta → In t n.delta)
    → ((t : ℕ × ℕ) → In t m.delta_epsilon → In t n.delta_epsilon)
    → Reach m p w q
    → Reach n p w q
Reach-mono f g (stay e k) = stay e k
Reach-mono f g (by_letter u r c a h i t e) = by_letter u r c a (Reach-mono f g h) (f _ i) t e
Reach-mono f g (by_epsilon r h i) = by_epsilon r (Reach-mono f g h) (g _ i)

-- The states of an automaton: what its transitions and lists name.
pub record IsInRange (m : Nfa) : Type 0 where
  pub some_state : m.init_state < m.num_states
  pub finals_lt : (q : ℕ) → In q m.final_states → q < m.num_states
  pub delta_lt :
      (p q : ℕ) (a : Label) → In (p, a, q) m.delta → (p < m.num_states) × (q < m.num_states)
  pub epsilon_lt : (p q : ℕ) → In (p, q) m.delta_epsilon → (p < m.num_states) × (q < m.num_states)
