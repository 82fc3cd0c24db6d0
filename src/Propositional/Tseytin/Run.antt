-- ===== src/Propositional/Tseytin/Run.antt =====
-- `maincnf` and `defstep` of libs/solvers/satencoding/regular/proplog.cpp on a ready formula.
use woorpje.Common.{
  ℕ, ◌≤◌, ◌<◌, ◌≡◌, refl, ap, ap₂, sym, ◌∙◌, Bool, List, [], ◌∷◌, ◌++◌, arith, some, append_assoc,
  append-nil, ◌==◌, if◌then◌else◌,
}
use woorpje.Propositional.Literal.{ℤ, pos, neg, abs, abs-neg, Valuation, holds, holds-neg}
use woorpje.Propositional.Formula.{Junctor, PlFormula, lit, junct, lnot, nil, cons, combine, eval}
use woorpje.Propositional.Binary.{combine_unit}
use woorpje.Propositional.Plural.{IsLiteral, IsReady}
use woorpje.Propositional.Tseytin.Defs.{VarSource, Definition, CnfState, main_cnf}
use woorpje.Propositional.Tseytin.Definitions.{
  Agree, AllMet-Agree, holds-Agree, IsMet, AllMet, IsBelow, AllBelow, AllMet-append,
  AllBelow-append, AllBelow-mono,
}

-- A valuation with one variable set.
set_var : Valuation → ℕ → Bool → Valuation
set_var A n b m = if m == n then b else A m

set_var_self : (A : Valuation) (n : ℕ) (b : Bool) → set_var A n b n ≡ b
unfolding set_var
set_var_self A n b = ground arith

set_var_below : (A : Valuation) (n : ℕ) (b : Bool) (k : ℕ) → k ≤ n → Agree k A (set_var A n b)
unfolding set_var
set_var_below A n b k h m l = ground arith

module _ (v : VarSource) where
  open v use {State, new_var, bound, new_var_above, new_var_below}

  -- What a call leaves: more definitions behind the old ones, a literal in range, and the value.
  pub record Gives (f : PlFormula) (st : CnfState v) (l : ℤ) (st' : CnfState v) : Type 0 where
    pub added : List Definition
    pub behind : st'.0 ≡ st.0 ++ added
    pub grows : bound st.1 ≤ bound st'.1
    pub in_range : IsLiteral (bound st'.1) l
    pub below : AllBelow (bound st'.1) added
    pub means : (A : Valuation) → AllMet A added → holds A l ≡ eval A f
    pub extends : (A : Valuation) → (B : Valuation) × Agree (bound st.1) A B × AllMet B added

  -- A run that ends with such a state.
  abbrev pub Runs : PlFormula → CnfState v → Type 0
  Runs f st = (l : ℤ) × (st' : CnfState v) × (main_cnf v f st ≡ some (l, st')) × Gives f st l st'

  -- A call that defines nothing.
  defines_nothing :
      (f : PlFormula) (st : CnfState v) (l : ℤ)
      → IsLiteral (bound st.1) l
      → ((A : Valuation) → holds A l ≡ eval A f)
      → Gives f st l st
  defines_nothing f st l r m = record {
    added = [];
    behind = sym (append-nil st.0);
    grows = omega arith;
    in_range = r;
    below = tt;
    means = λ A _. m A;
    extends = λ A. (A, λ n _. refl, tt);
  }

  abbrev new_definition : Junctor → ℤ → ℤ → CnfState v → Definition
  new_definition j l r st = record { name = (new_var st.1).0; junctor = j; left = l; right = r }

  module _ (j : Junctor) (f g : PlFormula) (st st1 st2 : CnfState v) (l r : ℤ)
      (p : Gives f st l st1) (q : Gives g st1 r st2) (positive : 0 < bound st.1) where
    abbrev d : Definition
    d = new_definition j l r st2

    abbrev s3 : State
    s3 = (new_var st2.1).1

    abbrev added : List Definition
    added = p.added ++ (q.added ++ d ∷ [])

    d-IsBelow : IsBelow (bound s3) d
    d-IsBelow =
        let a = new_var_above st2.1 in
        let b = new_var_below st2.1 in
        let x = p.in_range in
        let y = q.in_range in
        let m = p.grows in
        let n = q.grows in ((omega arith, omega arith), (x.0, omega arith), (y.0, omega arith))

    added-AllBelow : AllBelow (bound s3) added
    added-AllBelow =
        let a = new_var_above st2.1 in
        let b = new_var_below st2.1 in
        let n = q.grows in
        AllBelow-append _ p.added _ (AllBelow-mono (bound st1.1) _ p.added (omega arith) p.below) (
          AllBelow-append _ q.added _ (AllBelow-mono (bound st2.1) _ q.added (omega arith) q.below)
            (d-IsBelow, tt))

    added-means :
        (A : Valuation) → AllMet A added → A d.name ≡ eval A (junct j (cons f (cons g nil)))
    unfolding eval
    added-means A m =
        let (mp, mr) = (AllMet-append A p.added _).0 m in
        let (mq, md) = (AllMet-append A q.added _).0 mr in
        md.0 ∙ ap₂ (combine j) (p.means A mp) (q.means A mq ∙ sym (combine_unit j (eval A g)))

    left_below : abs l < bound st2.1
    left_below = let x = p.in_range in let n = q.grows in omega arith

    lower : (n : ℕ) → n < bound st.1 → n < bound st1.1
    lower n h = let m = p.grows in omega arith

    lowest : (n : ℕ) → n < bound st.1 → n < bound st2.1
    lowest n h = let m = p.grows in let k = q.grows in omega arith

    added-extends : (A : Valuation) → (B : Valuation) × Agree (bound st.1) A B × AllMet B added
    added-extends A =
        let (B, ab, mp) = p.extends A in
        let (C, bc, mq) = q.extends B in
        let D : Valuation = set_var C d.name (combine j (holds C l) (holds C r)) in
        let cd : Agree (bound st2.1) C D =
          set_var_below C d.name _ (bound st2.1) (new_var_above st2.1) in
        let mp' =
          AllMet-Agree (bound st2.1) C D p.added cd
            (AllBelow-mono (bound st1.1) _ p.added q.grows p.below)
            (AllMet-Agree (bound st1.1) B C p.added bc p.below mp) in
        let mq' = AllMet-Agree (bound st2.1) C D q.added cd q.below mq in
        let md : IsMet D d =
          set_var_self C d.name _
          ∙ ap₂ (combine j) (holds-Agree (bound st2.1) C D l cd left_below)
              (holds-Agree (bound st2.1) C D r cd q.in_range.1) in
        (
          D,
          λ n h. ab n h ∙ bc n (lower n h) ∙ cd n (lowest n h),
          (AllMet-append D p.added _).1 (mp', (AllMet-append D q.added _).1 (mq', (md, tt))),
        )

    defines : Gives (junct j (cons f (cons g nil))) st (pos d.name) (st2.0 ++ d ∷ [], s3)
    defines = record {
      added = added;
      behind =
          ap (λ z. z ++ d ∷ []) (q.behind ∙ ap (λ z. z ++ q.added) p.behind)
          ∙ append_assoc (st.0 ++ p.added) q.added (d ∷ [])
          ∙ append_assoc st.0 p.added (q.added ++ d ∷ []);
      grows =
          (let a = new_var_above st2.1 in
            let b = new_var_below st2.1 in let m = p.grows in let n = q.grows in omega arith);
      in_range = d-IsBelow.0;
      below = added-AllBelow;
      means = added-means;
      extends = added-extends;
    }

  -- On a ready formula, from a solver that has the formula's variables, `maincnf` runs to its end.
  pub main_cnf-Runs :
      (f : PlFormula) (b : ℕ) (st : CnfState v)
      → IsReady b f
      → b ≤ bound st.1
      → 0 < bound st.1
      → Runs f st
  unfolding main_cnf
  main_cnf-Runs (lit l) b st h m z =
      (l, st, refl, defines_nothing (lit l) st l (h.0, omega arith) (λ A. unfold eval in refl))
  main_cnf-Runs (lnot (lit l)) b st h m z = (
    neg l,
    st,
    refl,
    defines_nothing (lnot (lit l)) st (neg l) (omega (arith, abs-neg l), omega (arith, abs-neg l))
        (λ A. unfold eval in holds-neg A l h.0),
  )
  main_cnf-Runs (lnot (junct j fs)) b st h m z = absurd h
  main_cnf-Runs (lnot (lnot f)) b st h m z = absurd h
  main_cnf-Runs (junct j nil) b st h m z = absurd h
  main_cnf-Runs (junct j (cons f nil)) b st h m z = absurd h
  main_cnf-Runs (junct j (cons f (cons g (cons k fs)))) b st h m z = absurd h
  main_cnf-Runs (junct j (cons f (cons g nil))) b st h m z =
      let (l, st1, e1, p) = main_cnf-Runs f b st h.0 m z in
      let mp = p.grows in
      let (r, st2, e2, q) = main_cnf-Runs g b st1 h.1 (omega arith) (omega arith) in
      (_, _, rw (e1, e2), defines j f g st st1 st2 l r p q z)
