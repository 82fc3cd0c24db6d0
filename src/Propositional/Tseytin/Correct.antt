-- ===== src/Propositional/Tseytin/Correct.antt =====
-- `tseytin_cnf` against the formula's value.
use woorpje.Common.{
  ℕ, ◌<◌, ◌≡◌, ◌↔◌, refl, ap, ap₂, sym, ◌∙◌, subst, true, not, List, [], ◌∷◌, arith, some,
}
use woorpje.Propositional.Literal.{ℤ, Valuation, holds}
use woorpje.Propositional.Formula.{
  Junctor, PlFormula, Subformulae, lit, junct, lnot, nil, cons, combine, unit_of, eval,
}
use woorpje.Propositional.Plural.{IsEncodable, IsReady, make_binary-IsReady, make_binary_unary}
use woorpje.Propositional.Tseytin.Defs.{
  VarSource, Clause, CnfState, from_plf, from_each, all_clauses, cnf_holds, tseytin_cnf,
}
use woorpje.Propositional.Tseytin.Definitions.{
  AllMet, AllBelow, all_clauses_iff, Agree, holds-Agree,
}
use woorpje.Propositional.Tseytin.Run.{Gives, main_cnf-Runs}

mutual
  unfolding from_plf

  from_plf_id : (f : PlFormula) → from_plf f ≡ f
  from_plf_id (lit l) = refl
  from_plf_id (junct j fs) = ap (junct j) (from_each_id fs)
  from_plf_id (lnot f) = ap lnot (from_plf_id f)

  from_each_id : (fs : Subformulae) → from_each fs ≡ fs
  from_each_id nil = refl
  from_each_id (cons f fs) = ap₂ cons (from_plf_id f) (from_each_id fs)

-- The value of a ready formula rests on the variables in range.
eval-Agree :
    (b : ℕ) (A B : Valuation) (f : PlFormula) → IsReady b f → Agree b A B → eval A f ≡ eval B f
unfolding eval
eval-Agree b A B (lit l) h g = holds-Agree b A B l g h.1
eval-Agree b A B (lnot (lit l)) h g = ap not (holds-Agree b A B l g h.1)
eval-Agree b A B (lnot (junct j fs)) h g = absurd h
eval-Agree b A B (lnot (lnot f)) h g = absurd h
eval-Agree b A B (junct j nil) h g = absurd h
eval-Agree b A B (junct j (cons f nil)) h g = absurd h
eval-Agree b A B (junct j (cons f (cons k (cons m fs)))) h g = absurd h
eval-Agree b A B (junct j (cons f (cons k nil))) h g =
    ap₂ (combine j) (eval-Agree b A B f h.0 g)
      (ap (λ x. combine j x (unit_of j)) (eval-Agree b A B k h.1 g))

-- The clauses say no more and no less than the formula: each valuation that satisfies them satisfies
-- the formula, and each that satisfies the formula satisfies them after a change of new variables.
abbrev pub IsEquisatisfiable : ℕ → PlFormula → List Clause → Type 0
IsEquisatisfiable b f cnf =
    ((A : Valuation) → cnf_holds A cnf ≡ true → eval A f ≡ true)
    × ((A : Valuation) → eval A f ≡ true → (B : Valuation) × Agree b A B × (cnf_holds B cnf ≡ true))

unit_clause :
    (A : Valuation) (l : ℤ) (cs : List Clause)
    → (cnf_holds A ((l ∷ []) ∷ cs) ≡ true) ↔ ((holds A l ≡ true) × (cnf_holds A cs ≡ true))
unfolding cnf_holds
unit_clause A l cs = (λ h. ground arith, λ h. ground arith)

module _ (v : VarSource) where
  open v use {State, bound}

  run_correct :
      (s : State) (g : PlFormula) (l : ℤ) (st : CnfState v)
      → IsReady (bound s) g
      → Gives v g ([], s) l st
      → IsEquisatisfiable (bound s) g ((l ∷ []) ∷ all_clauses st.0)
  run_correct s g l st ready p =
      let ds : AllBelow (bound st.1) st.0 = subst (AllBelow (bound st.1)) (sym p.behind) p.below in
      (
        λ A h.
            (let (hl, hc) = (unit_clause A l _).0 h in
              let m = subst (AllMet A) p.behind ((all_clauses_iff A (bound st.1) st.0 ds).0 hc) in
              sym (p.means A m) ∙ hl),
        λ A h.
            (let (B, ab, m) = p.extends A in
              let c =
                (all_clauses_iff B (bound st.1) st.0 ds).1 (subst (AllMet B) (sym p.behind) m) in
              let e = p.means B m ∙ sym (eval-Agree (bound s) A B g ready ab) ∙ h in
              (B, ab, (unit_clause B l _).1 (e, c))),
      )

  -- From a solver that has a formula's variables and at least one, on a formula whose junctors have two
  -- operands or more and whose negations stand over literals, `tseytin_cnf` returns clauses that are
  -- equisatisfiable with the formula.
  pub tseytin_cnf-IsEquisatisfiable :
      (s : State) (f : PlFormula)
      → 0 < bound s
      → IsEncodable (bound s) f
      → (cnf : List Clause) × (s' : State) × (tseytin_cnf v f s ≡ some (cnf, s'))
        × IsEquisatisfiable (bound s) f cnf
  unfolding tseytin_cnf
  tseytin_cnf-IsEquisatisfiable s f z h =
      let (g, e, ready, same) = make_binary-IsReady (bound s) f h in
      let (l, st, run, p) = main_cnf-Runs v g (bound s) ([], s) ready (omega arith) z in
      let (sound, complete) = run_correct s g l st ready p in
      (
        (l ∷ []) ∷ all_clauses st.0,
        st.1,
        rw (e, from_plf_id g, run),
        (λ A k. sym (same A) ∙ sound A k, λ A k. complete A (same A ∙ k)),
      )

  -- In a junctor over a single junctor of three literals the third literal does not reach the clauses.
  pub tseytin_cnf_unary :
      (j k : Junctor) (x y z z' : ℤ) (s : State)
      → tseytin_cnf v
          (junct j (cons (junct k (cons (lit x) (cons (lit y) (cons (lit z) nil)))) nil))
          s
        ≡ tseytin_cnf v
            (junct j (cons (junct k (cons (lit x) (cons (lit y) (cons (lit z') nil)))) nil))
            s
  unfolding tseytin_cnf
  tseytin_cnf_unary j k x y z z' s =
      rw (make_binary_unary j k x y z, make_binary_unary j k x y z') refl
