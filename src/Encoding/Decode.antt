-- ===== src/Encoding/Decode.antt =====
-- The substitution that a valuation of the variables of libs/solvers/satencoding/regular stands for,
-- where each slot holds one character or none.
use woorpje.Common.{
  ℕ, zero, suc, ◌<◌, ◌≤◌, ◌≡◌, inl, inr, refl, sym, ap, ◌∙◌, subst, arith, Bool, true, Bool-cases,
  ltb, Option, some, none, List, [], ◌∷◌, ◌++◌, if◌then◌else◌,
}
use mathlib.Core.List.{map}
use woorpje.Word.Defs.{Word, terminal, variable, sequence, iterate}
use woorpje.Word.Value.{Assignment, value, value-iterate}
use woorpje.Propositional.Literal.{Valuation}
use woorpje.Propositional.Tseytin.Defs.{VarSource, Clause, cnf_holds}
use woorpje.Automaton.Proper.{IsProper}
use woorpje.Regex.Defs.{RegNode}
use woorpje.Regex.Lang.{Lang, IsWellFormed}
use woorpje.Lengths.From.{Divisors, from_expression}
use woorpje.Encoding.Defs.{Pattern, Encoder, slots, fill, filled_pattern}
use woorpje.Encoding.Encode.{encode}
use woorpje.Encoding.Meaning.{Spells, InRange, IsFaithful}
use woorpje.Encoding.Promise.{HasWord, map-back}
use woorpje.Encoding.Rows.{map-append}
use woorpje.Encoding.Substitutions.{NoSequence, iterate-NoSequence}
use woorpje.Encoding.Whole.{encode-from_expression}

-- The last number below a bound for which the test answers true.
unfoldable pub found : ℕ → (ℕ → Bool) → Option ℕ
found zero f = none
found (suc n) f = if f n then some n else found n f

pub other : (k n : ℕ) → ¬ (k ≡ n) → k ≤ n → k < n
other k n h l = elim (Bool-cases (ltb k n)) [
  | inl e ↦ ground arith
  | inr e ↦ absurd (h (ground arith))
]

pub found_only :
    (n : ℕ) (f : ℕ → Bool) (k : ℕ)
    → f k ≡ true
    → k < n
    → ((l : ℕ) → f l ≡ true → l ≡ k)
    → found n f ≡ some k
unfolding found
found_only zero f k h l only = absurd (omega arith)
found_only (suc n) f k h l only = elim (Bool-cases (f n)) [
  | inl e ↦ rw e (ap some (only n e))
  | inr e ↦ rw e (
      found_only n f k h
        (other k n (λ d. (let z = subst (λ y. f y ≡ true) d h in cc)) (omega arith)) only)
]

pub found_nothing : (n : ℕ) (f : ℕ → Bool) → ((l : ℕ) → f l ≡ true → n ≤ l) → found n f ≡ none
unfolding found
found_nothing zero f h = refl
found_nothing (suc n) f h = elim (Bool-cases (f n)) [
  | inl e ↦ absurd (let l = h n e in omega arith)
  | inr e ↦ rw e (found_nothing n f (λ l k. (let m = h l k in omega arith)))
]

-- Each slot holds one character of the alphabet, or nothing.
pub record IsExact (en : Encoder) (A : Valuation) : Type 0 where
  pub only_one :
      (x j k l : ℕ) → A (en.variable_vars x j k) ≡ true → A (en.variable_vars x j l) ≡ true → k ≡ l
  pub in_alphabet : (x j k : ℕ) → A (en.variable_vars x j k) ≡ true → k ≤ en.sigma_size

module _ (en : Encoder) (A : Valuation) where
  unfoldable pub held : ℕ → ℕ → Option ℕ
  unfolding found
  held x j = found en.sigma_size (λ k. A (en.variable_vars x j k))

  abbrev pub put_held : Option ℕ → List ℕ → List ℕ
  put_held none ks = ks
  put_held (some k) ks = k ∷ ks

  unfoldable pub decoded : ℕ → ℕ → ℕ → List ℕ
  unfolding held
  decoded x j zero = []
  decoded x j (suc n) = put_held (held x j) (decoded x (suc j) n)

  -- The substitution that the valuation stands for.
  abbrev pub solution : Assignment
  solution x = map en.index2t (decoded (en.v_indices x) 0 (en.max_padding (en.v_indices x)))

  -- Not the index of the empty slot.
  abbrev NoBlank : List ℕ → Type 0
  NoBlank [] = Unit
  NoBlank (k ∷ ks) = (¬ (k ≡ en.sigma_size)) × NoBlank ks

  module _ (exact : IsExact en A) where
    slots-decoded :
        (x j n : ℕ) (ps : Pattern) (ks : List ℕ)
        → NoBlank ks
        → Spells en A (slots en x j n ++ ps) ks
        → (ls : List ℕ) × (ks ≡ decoded x j n ++ ls) × NoBlank ls × Spells en A ps ls
    unfolding slots decoded held
    slots-decoded x j zero ps ks b h = (ks, refl, b, h)
    slots-decoded x j (suc n) ps ks b (inl (k, ls, t, e, h)) =
        let c : NoBlank (k ∷ ls) = subst NoBlank e b in
        let m = exact.in_alphabet x j k t in
        let d : found en.sigma_size (λ l. A (en.variable_vars x j l)) ≡ some k =
          found_only en.sigma_size _ k t (other k en.sigma_size c.0 m)
            (λ l u. exact.only_one x j l k u t) in
        let (ms, f, g, i) = slots-decoded x (suc j) n ps ls c.1 h in
        (ms, rw d (e ∙ ap (λ z. k ∷ z) f), g, i)
    slots-decoded x j (suc n) ps ks b (inr (i, h)) =
        let d : found en.sigma_size (λ l. A (en.variable_vars x j l)) ≡ none =
          found_nothing en.sigma_size _
            (λ l u. (let m = exact.only_one x j l en.sigma_size u i in omega arith)) in
        let (ms, f, g, t) = slots-decoded x (suc j) n ps ks b h in (ms, rw d f, g, t)

    fill-solution :
        ((c : ℕ) → en.index2t (en.t_indices c) ≡ c)
        → (w : Word) (ks : List ℕ) → NoSequence w
        → NoBlank ks
        → Spells en A (fill en w) ks
        → map en.index2t ks ≡ value solution w
    unfolding fill value
    fill-solution back [] ks q b h = ap (map en.index2t) h
    fill-solution back (terminal a ∷ w) ks q b (ls, e, h) =
        let c : NoBlank (en.t_indices a ∷ ls) = subst NoBlank e b in
        rw (e, back a, fill-solution back w ls q c.1 h) refl
    fill-solution back (variable x ∷ w) ks q b h =
        let (ls, e, c, t) =
          slots-decoded (en.v_indices x) 0 (en.max_padding (en.v_indices x)) (fill en w) ks b h in
        ap (map en.index2t) e
        ∙ map-append en.index2t _ ls
        ∙ ap (λ z. solution x ++ z) (fill-solution back w ls q c t)
    fill-solution back (sequence s ∷ w) ks q b h = absurd q

    map-NoBlank :
        ((c : ℕ) → ¬ (en.t_indices c ≡ en.sigma_size)) → (w : List ℕ) → NoBlank (map en.t_indices w)
    map-NoBlank h [] = tt
    map-NoBlank h (c ∷ w) = (h c, map-NoBlank h w)

    pub HasWord-solution :
        (P : List ℕ → Type 0) (w : Word)
        → ((c : ℕ) → en.index2t (en.t_indices c) ≡ c)
        → ((c : ℕ) → ¬ (en.t_indices c ≡ en.sigma_size))
        → HasWord en P (filled_pattern en w) A
        → P (value solution w)
    unfolding filled_pattern
    HasWord-solution P w back blank (u, s, p) =
        subst P
          (sym (map-back en back u)
            ∙ fill-solution back (iterate w) _ (iterate-NoSequence w) (map-NoBlank blank u) s
            ∙ value-iterate solution w)
          p

-- With the lengths of fromExpression, encode returns clauses, and a valuation that satisfies them, and in
-- which each slot holds one character of the alphabet or none, stands for a substitution that takes the
-- pattern into the expression. The indices of characters can be read back and none is that of the empty
-- slot, the variables are the solver's, the valuation makes each constant equal to itself, and the
-- expression has no RegEmpty, no union of nothing, a child for each star and two for each
-- concatenation.
pub encode-solution :
    (v : VarSource) (s : v.State) (en : Encoder) (ds : Divisors) (r : RegNode) (pattern : Word)
    (A : Valuation)
    → 0 < v.bound s
    → InRange (v.bound s) en
    → ((c : ℕ) → en.index2t (en.t_indices c) ≡ c)
    → ((c : ℕ) → ¬ (en.t_indices c ≡ en.sigma_size))
    → IsProper r
    → IsWellFormed r
    → IsFaithful en A
    → IsExact en A
    → (cnf : List Clause) × (s' : v.State) × (encode en (from_expression ds) v s pattern r
        ≡ some (cnf, s'))
      × (cnf_holds A cnf ≡ true → Lang r (value (solution en A) pattern))
encode-solution v s en ds r pattern A z i back blank p wf t exact =
    let (cnf, s', e, f) = encode-from_expression v s en ds r pattern A z i back p wf t in
    (cnf, s', e, λ h. HasWord-solution en A exact (Lang r) pattern back blank (f h))
