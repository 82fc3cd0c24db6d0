-- ===== src/Encoding/Substitutions.antt =====
-- Substitutions for the variables of a pattern, as valuations of the encoders of
-- libs/solvers/satencoding/regular: each position of a variable holds its character, and those behind
-- the last character are empty.
use woorpje.Common.{
  ℕ, zero, suc, ◌<◌, ◌≡◌, refl, sym, subst, true, false, Bool-cases, some, List, [], ◌∷◌, ◌++◌, inl,
  inr,
}
use mathlib.Core.List.{map}
use woorpje.Word.Defs.{Word, terminal, variable, sequence, iterate}
use woorpje.Word.Value.{Assignment, value, value-iterate}
use woorpje.Propositional.Literal.{Valuation}
use woorpje.Propositional.Formula.{PlFormula, eval}
use woorpje.Propositional.Tseytin.Defs.{VarSource, Clause, cnf_holds}
use woorpje.Propositional.Tseytin.Definitions.{Agree}
use woorpje.Automaton.Proper.{IsProper}
use woorpje.Regex.Defs.{RegNode}
use woorpje.Regex.Lang.{Lang, IsWellFormed}
use woorpje.Encoding.Defs.{
  constant, slot, Pattern, Encoder, slots, fill, filled_pattern, encode_word,
}
use woorpje.Encoding.Meaning.{
  Reads, IsEmpty, IsRun, Stops, Fills, no_more, holding, padding, Spells, InRange, IsFaithful,
}
use woorpje.Encoding.Encode.{encode}
use woorpje.Lengths.From.{Divisors, from_expression}
use woorpje.Encoding.Correct.{KnowsLengths}
use woorpje.Encoding.Whole.{ready}
use woorpje.Encoding.Rows.{map-append}
use woorpje.Encoding.Clauses.{encode_word_iff, encode_complete}

-- From slot `j` on, so many slots hold the word, and then nothing; the word has room.
abbrev pub Carries : Encoder → Valuation → ℕ → ℕ → ℕ → List ℕ → Type 0
Carries en A x j zero [] = Unit
Carries en A x j zero (c ∷ u) = ⊥
Carries en A x j (suc n) [] = IsEmpty en A x j × Carries en A x (suc j) n []
Carries en A x j (suc n) (c ∷ u) =
    (A (en.variable_vars x j (en.t_indices c)) ≡ true) × Carries en A x (suc j) n u

-- The valuation stands for the substitution.
abbrev pub Represents : Encoder → Valuation → Assignment → Type 0
Represents en A σ =
    (x : ℕ) → Carries en A (en.v_indices x) 0 (en.max_padding (en.v_indices x)) (σ x)

-- As the iterator gives it.
abbrev pub NoSequence : Word → Type 0
NoSequence [] = Unit
NoSequence (sequence s ∷ w) = ⊥
NoSequence (e ∷ w) = NoSequence w

-- What follows a variable's slots does not begin with slots of the same index.
abbrev pub HasNoTwins : Encoder → Word → Type 0
HasNoTwins en [] = Unit
HasNoTwins en (variable x ∷ w) = Stops (en.v_indices x) (fill en w) × HasNoTwins en w
HasNoTwins en (e ∷ w) = HasNoTwins en w

module _ (en : Encoder) (A : Valuation) where
  slots-IsRun : (x j n : ℕ) → Carries en A x j n [] → IsRun en A x (slots en x j n)
  unfolding slots
  slots-IsRun x j zero h = tt
  slots-IsRun x j (suc n) (h, k) = (refl, h, slots-IsRun x (suc j) n k)

  slots-Fills :
      (x j n : ℕ) (u : List ℕ) (ps : Pattern) (ks : List ℕ)
      → Carries en A x j n u
      → Stops x ps
      → Fills en A ps ks
      → Fills en A (slots en x j n ++ ps) (map en.t_indices u ++ ks)
  unfolding slots
  slots-Fills x j zero [] ps ks h s f = f
  slots-Fills x j zero (c ∷ u) ps ks h s f = absurd h
  slots-Fills x j (suc n) [] ps ks (h, k) s f =
      padding x j (slots en x (suc j) n) ps h (slots-IsRun x (suc j) n k) s f refl
  slots-Fills x j (suc n) (c ∷ u) ps ks (h, k) s f =
      holding (slot x j) _ (en.t_indices c) _ h (slots-Fills x (suc j) n u ps ks k s f) refl refl

  -- The pattern without sequences holds what it stands for.
  fill-Fills :
      (σ : Assignment) (w : Word)
      → Represents en A σ
      → HasNoTwins en w
      → NoSequence w
      → Fills en A (fill en w) (map en.t_indices (value σ w))
  unfolding fill value
  fill-Fills σ [] h n q = no_more refl refl
  fill-Fills σ (terminal a ∷ w) h n q =
      holding (constant (en.t_indices a)) _ (en.t_indices a) _ refl (fill-Fills σ w h n q) refl refl
  fill-Fills σ (variable x ∷ w) h (m, n) q =
      subst (Fills en A (fill en (variable x ∷ w)))
        (sym (map-append en.t_indices (σ x) (value σ w)))
        (slots-Fills (en.v_indices x) 0 (en.max_padding (en.v_indices x)) (σ x) (fill en w) _ (h x)
          m (fill-Fills σ w h n q))
  fill-Fills σ (sequence s ∷ w) h n q = absurd q

pub iterate-NoSequence : (w : Word) → NoSequence (iterate w)
unfolding iterate
iterate-NoSequence [] = tt
iterate-NoSequence (variable x ∷ w) = iterate-NoSequence w
iterate-NoSequence (terminal a ∷ w) = iterate-NoSequence w
iterate-NoSequence (sequence s ∷ w) = terminals-NoSequence s (iterate-NoSequence w)
  where
    terminals-NoSequence :
        (s : List ℕ) → NoSequence (iterate w) → NoSequence (map terminal s ++ iterate w)
    terminals-NoSequence [] h = h
    terminals-NoSequence (c ∷ s) h = terminals-NoSequence s h

filled_pattern-Fills :
    (en : Encoder) (A : Valuation) (σ : Assignment) (w : Word)
    → Represents en A σ
    → HasNoTwins en (iterate w)
    → Fills en A (filled_pattern en w) (map en.t_indices (value σ w))
unfolding filled_pattern
filled_pattern-Fills en A σ w h n =
    subst (λ z. Fills en A (filled_pattern en w) (map en.t_indices z)) (value-iterate σ w)
      (fill-Fills en A σ (iterate w) h n (iterate-NoSequence w))

-- Where fromExpression has the length of each word of each node that doEncode asks about, and no
-- variable's slots are followed by slots of the same index, a substitution that takes the pattern
-- into the expression, and that the valuation represents, satisfies the clauses that encode makes
-- with these lengths, after a change of new variables. The indices of characters can be read back,
-- the variables are the solver's, the valuation makes each constant equal to itself, and the
-- expression has no RegEmpty, no union of nothing, a child for each star and two for each
-- concatenation.
pub encode_substitution :
    (v : VarSource) (s : v.State) (en : Encoder) (ds : Divisors) (r : RegNode) (pattern : Word)
    (A : Valuation) (σ : Assignment)
    → 0 < v.bound s
    → InRange (v.bound s) en
    → ((c : ℕ) → en.index2t (en.t_indices c) ≡ c)
    → IsProper r
    → IsWellFormed r
    → IsFaithful en A
    → KnowsLengths (from_expression ds) r
    → Represents en A σ
    → HasNoTwins en (iterate pattern)
    → Lang r (value σ pattern)
    → (cnf : List Clause) × (s' : v.State) × (encode en (from_expression ds) v s pattern r
        ≡ some (cnf, s'))
      × ((B : Valuation) × Agree (v.bound s) A B × (cnf_holds B cnf ≡ true))
encode_substitution v s en ds r pattern A σ z i back p wf t c rep n l =
    encode_complete v s z en (from_expression ds) (ready (v.bound s) en ds i back) r p wf pattern A
      t c (value σ pattern, filled_pattern-Fills en A σ pattern rep n, l)

-- No way to hold two characters in the slots below.
module _ (en : Encoder) (x k : ℕ) (A : Valuation)
    (e0 : A (en.variable_vars x 0 en.sigma_size) ≡ false)
    (h1 : A (en.variable_vars x 1 k) ≡ false) where
  never : {y j : ℕ} → y ≡ x → j ≡ 0 → ¬ IsEmpty en A y j
  never d e i = let z = rw (d, e) at i in cc

  second-Fills :
      {ps : Pattern} {ks : List ℕ}
      → Fills en A ps ks
      → ps ≡ slot x 1 ∷ slot x 0 ∷ slot x 1 ∷ []
      → ks ≡ k ∷ []
      → ⊥
  second-Fills (no_more e f) d g = cc
  second-Fills (holding p ps l ks r f e g) d q =
      let same : p ≡ slot x 1 = cc in
      let char : l ≡ k = cc in
      let z : A (en.variable_vars x 1 k) ≡ true =
        subst (λ a. Reads en A (slot x 1) a) char (subst (λ a. Reads en A a l) same r) in
      cc
  second-Fills (padding y j [] ps i t s f e) d q =
      let w : x ≡ y = cc in let m : ps ≡ slot x 0 ∷ slot x 1 ∷ [] = cc in subst (Stops y) m s w
  second-Fills (padding y j (constant c ∷ run) ps i t s f e) d q = absurd t
  second-Fills (padding y j (slot z l ∷ run) ps i t s f e) d q =
      let w : z ≡ x = cc in let m : l ≡ 0 = cc in never w m t.1

  first-Fills :
      {ps : Pattern} {ks : List ℕ}
      → Fills en A ps ks
      → ps ≡ slot x 0 ∷ slot x 1 ∷ slot x 0 ∷ slot x 1 ∷ []
      → ks ≡ k ∷ k ∷ []
      → ⊥
  first-Fills (no_more e f) d g = cc
  first-Fills (holding p ps l ks r f e g) d q =
      (let d' : ps ≡ slot x 1 ∷ slot x 0 ∷ slot x 1 ∷ [] = cc in
        let q' : ks ≡ k ∷ [] = cc in second-Fills f d' q')
  first-Fills (padding y j run ps i t s f e) d q =
      let w : y ≡ x = cc in let m : j ≡ 0 = cc in never w m i

-- A variable with two positions that stands twice in a row, and is one character: the pattern
-- spells the character twice, and the formula that encodeWord returns is false. The variables are
-- the solver's, and the valuation makes each constant equal to itself.
pub encode_word-twin :
    (b : ℕ) (en : Encoder) (x k : ℕ) (A : Valuation)
    → InRange b en
    → IsFaithful en A
    → A (en.variable_vars x 0 k) ≡ true
    → A (en.variable_vars x 0 en.sigma_size) ≡ false
    → A (en.variable_vars x 1 k) ≡ false
    → A (en.variable_vars x 1 en.sigma_size) ≡ true
    → Spells en A (slots en x 0 2 ++ slots en x 0 2) (k ∷ k ∷ [])
      × ((f : PlFormula) × (encode_word en 5 (slots en x 0 2 ++ slots en x 0 2) (k ∷ k ∷ [])
            ≡ some f)
          × (eval A f ≡ false))
unfolding slots
encode_word-twin b en x k A r t h0 e0 h1 e1 =
    let (f, d, g, m) = encode_word_iff b en (slots en x 0 2 ++ slots en x 0 2) (k ∷ k ∷ []) A r t in
    (
      inl (k, k ∷ [], h0, refl, inr (e1, inl (k, [], h0, refl, inr (e1, refl)))),
      (
        f,
        d,
        elim (Bool-cases (eval A f)) [
          | inl e ↦ absurd (first-Fills en x k A e0 h1 (m.0 e) refl refl)
          | inr e ↦ e
        ],
      ),
    )
