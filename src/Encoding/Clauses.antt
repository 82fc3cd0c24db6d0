-- ===== src/Encoding/Clauses.antt =====
-- `encode` of libs/solvers/satencoding/regular/wordencoder.cpp: `doEncode` on the filled pattern, and
-- the clauses of `tseytin_cnf`.
use woorpje.Common.{
  ℕ, zero, suc, ◌<◌, ◌≡◌, ◌↔◌, sym, ap, ◌∙◌, true, Option, some, List, [], ◌∷◌, ◌++◌, length,
}
use woorpje.Word.Defs.{Word, terminal, variable, sequence, iterate}
use woorpje.Propositional.Literal.{Valuation}
use woorpje.Propositional.Formula.{PlFormula, eval}
use woorpje.Propositional.Plural.{IsEncodable}
use woorpje.Propositional.Tseytin.Defs.{VarSource, Clause, cnf_holds}
use woorpje.Propositional.Tseytin.Correct.{IsEquisatisfiable, tseytin_cnf-IsEquisatisfiable}
use woorpje.Propositional.Tseytin.Definitions.{Agree}
use woorpje.Automaton.Proper.{IsProper}
use woorpje.Regex.Defs.{RegNode}
use woorpje.Regex.Lang.{Lang, IsWellFormed}
use woorpje.Lengths.Defs.{Progressions}
use woorpje.Encoding.Defs.{Pattern, Encoder, slots, fill, filled_pattern, encode_word}
use woorpje.Encoding.Encode.{do_encode, encode}
use woorpje.Encoding.Meaning.{InRange, IsFaithful, Fills}
use woorpje.Encoding.Words.{encode_word_lem}
use woorpje.Encoding.Promise.{IsKnown, Holds, HasWord}
use woorpje.Encoding.Correct.{KnowsLengths, do_encode-Encodes}

-- With one unit of fuel more than there are positions, encodeWord returns a formula that
-- tseytin_cnf takes; it is true exactly where the pattern holds the word and, in each run of one
-- variable's positions, the empty ones stand last. The variables are the solver's, and the
-- valuation makes each constant equal to itself.
pub encode_word_iff :
    (b : ℕ) (en : Encoder) (pat : Pattern) (e : List ℕ) (A : Valuation)
    → InRange b en
    → IsFaithful en A
    → (f : PlFormula) × (encode_word en (suc (length pat)) pat e ≡ some f)
      × IsEncodable b f
      × ((eval A f ≡ true) ↔ Fills en A pat e)
encode_word_iff b en pat e A r t =
    let (f, d, g, h) = encode_word_lem b en pat e r in (f, d, g, h A t)

-- What the indices, the variables and the lengths have to be.
pub record IsReadyFor (b : ℕ) (en : Encoder) (lengths : RegNode → Option Progressions)
    : Type 0 where
  pub in_range : InRange b en
  pub back : (c : ℕ) → en.index2t (en.t_indices c) ≡ c
  pub total :
      (n : RegNode) → IsProper n → IsWellFormed n → (la : Progressions) × (lengths n ≡ some la)

module _ (b : ℕ) (en : Encoder) (lengths : RegNode → Option Progressions)
    (h : IsReadyFor b en lengths) (r : RegNode) (p : IsProper r) (wf : IsWellFormed r)
    (A : Valuation) (t : IsFaithful en A) where
  module _ (pat : Pattern) (k : IsKnown en pat) where
    -- doEncode returns a formula that tseytin_cnf takes, and where it is true the pattern spells a word of
    -- the expression, whatever the length abstraction returns.
    pub do_encode_sound :
        (f : PlFormula) × (do_encode en lengths r pat ≡ some f)
        × IsEncodable b f
        × (eval A f ≡ true → HasWord en (Lang r) pat A)
    do_encode_sound =
        let (f, d, g, m) =
          do_encode-Encodes b en ⊥ lengths h.in_range h.back h.total r p wf (λ c. absurd c) pat k in
        (f, d, g, (m A t).0)

    -- Where the lengths have the length of each word that they are asked about, and the pattern holds a word
    -- of the expression with the empty positions last, the formula that doEncode returns is true.
    pub do_encode-Holds :
        KnowsLengths lengths r
        → Holds en (Lang r) pat A
        → (f : PlFormula) × (do_encode en lengths r pat ≡ some f) × (eval A f ≡ true)
    do_encode-Holds c w =
        let (f, d, g, m) =
          do_encode-Encodes b en (KnowsLengths lengths r) lengths h.in_range h.back h.total r p wf
            (λ x. x) pat k in
        (f, d, (m A t).1 (c, w))

slots-IsKnown :
    (en : Encoder) (x j n : ℕ) (ps : Pattern) → IsKnown en ps → IsKnown en (slots en x j n ++ ps)
unfolding slots
slots-IsKnown en x j zero ps k = k
slots-IsKnown en x j (suc n) ps k = slots-IsKnown en x (suc j) n ps k

pub fill-IsKnown :
    (en : Encoder)
    → ((c : ℕ) → en.index2t (en.t_indices c) ≡ c)
    → (w : Word) → IsKnown en (fill en w)
unfolding fill
fill-IsKnown en back [] = tt
fill-IsKnown en back (terminal a ∷ w) = (ap en.t_indices (back a), fill-IsKnown en back w)
fill-IsKnown en back (variable x ∷ w) =
    slots-IsKnown en (en.v_indices x) 0 (en.max_padding (en.v_indices x)) (fill en w)
      (fill-IsKnown en back w)
fill-IsKnown en back (sequence s ∷ w) = fill-IsKnown en back w

filled_pattern-IsKnown :
    (en : Encoder)
    → ((c : ℕ) → en.index2t (en.t_indices c) ≡ c)
    → (w : Word) → IsKnown en (filled_pattern en w)
unfolding filled_pattern
filled_pattern-IsKnown en back w = fill-IsKnown en back (iterate w)

-- What the formula's clauses say, in a solver that has the formula's variables.
module _ (v : VarSource) (s : v.State) (z : 0 < v.bound s) (en : Encoder)
    (lengths : RegNode → Option Progressions) (h : IsReadyFor (v.bound s) en lengths) (r : RegNode)
    (p : IsProper r) (wf : IsWellFormed r) (pattern : Word) (A : Valuation)
    (t : IsFaithful en A) where
  encode_run :
      (cnf : List Clause) × (s' : v.State) × (encode en lengths v s pattern r ≡ some (cnf, s'))
      × ((f : PlFormula) × (do_encode en lengths r (filled_pattern en pattern) ≡ some f)
          × IsEquisatisfiable (v.bound s) f cnf)
  unfolding encode
  encode_run =
      let (f, e, g, d) =
        do_encode_sound (v.bound s) en lengths h r p wf A t (filled_pattern en pattern)
          (filled_pattern-IsKnown en h.back pattern) in
      let (cnf, s', m, i) = tseytin_cnf-IsEquisatisfiable v s f z g in (cnf, s', rw e m, (f, e, i))

  -- encode returns clauses, and under each valuation that satisfies them the filled pattern spells a word
  -- of the expression, whatever the length abstraction returns.
  pub encode_sound :
      (cnf : List Clause) × (s' : v.State) × (encode en lengths v s pattern r ≡ some (cnf, s'))
      × (cnf_holds A cnf ≡ true → HasWord en (Lang r) (filled_pattern en pattern) A)
  encode_sound =
      let (cnf, s', m, (f, e, i)) = encode_run in
      let (g, d, j, k) =
        do_encode_sound (v.bound s) en lengths h r p wf A t (filled_pattern en pattern)
          (filled_pattern-IsKnown en h.back pattern) in
      let same : some f ≡ some g = sym e ∙ d in (cnf, s', m, λ q. k (let u = i.0 A q in cc))

  -- Where the lengths have the length of each word that they are asked about, and the filled pattern holds a word of the
  -- expression with the empty positions last, the clauses are satisfied after a change of new variables.
  pub encode_complete :
      KnowsLengths lengths r
      → Holds en (Lang r) (filled_pattern en pattern) A
      → (cnf : List Clause) × (s' : v.State) × (encode en lengths v s pattern r ≡ some (cnf, s'))
        × ((B : Valuation) × Agree (v.bound s) A B × (cnf_holds B cnf ≡ true))
  encode_complete c w =
      let (cnf, s', m, (f, e, i)) = encode_run in
      let (g, d, k) =
        do_encode-Holds (v.bound s) en lengths h r p wf A t (filled_pattern en pattern)
          (filled_pattern-IsKnown en h.back pattern) c w in
      let same : some f ≡ some g = sym e ∙ d in (cnf, s', m, i.1 A (cc))
