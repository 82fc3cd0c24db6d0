-- ===== src/Propositional/Tseytin/Defs.antt =====
-- `fromPLF`, `maincnf`, `defstep` and `tseytin_cnf`. Variables come from the SAT solver's `newVar`,
-- which is not this program's code: it is the record `VarSource`. A `std::set` of clauses or of literals
-- is a list: what is asked of it is whether a valuation satisfies it. `none` stands for an index past
-- the end of the operands, and for the exit in `makeBinary`.
use woorpje.Common.{
  ℕ, ◌≤◌, ◌<◌, Bool, true, false, ◌&&◌, ◌||◌, Option, none, some, List, [], ◌∷◌, ◌++◌,
}
use woorpje.Propositional.Literal.{ℤ, pos, neg, Valuation, holds}
use woorpje.Propositional.Formula.{
  Junctor, conj, disj, PlFormula, Subformulae, lit, junct, lnot, nil, cons, get_literal,
  make_binary,
}

-- Each new variable lies above those that the solver has, and belongs to it from then on.
pub record VarSource : Type 1 where
  pub State : Type 0
  pub new_var : State → ℕ × State
  pub bound : State → ℕ
  pub new_var_above : (s : State) → bound s ≤ (new_var s).0
  pub new_var_below : (s : State) → (new_var s).0 < bound (new_var s).1

-- An entry of `defs`: the variable and the binary formula over literals that it names.
pub record Definition : Type 0 where
  pub name : ℕ
  pub junctor : Junctor
  pub left : ℤ
  pub right : ℤ

-- `fromPLF`
unfoldable mutual
  pub from_plf : PlFormula → PlFormula
  from_plf (lit l) = lit l
  from_plf (junct j fs) = junct j (from_each fs)
  from_plf (lnot f) = lnot (from_plf f)

  pub from_each : Subformulae → Subformulae
  from_each nil = nil
  from_each (cons f fs) = cons (from_plf f) (from_each fs)

abbrev pub Clause : Type 0
Clause = List ℤ

-- The clauses of one definition: of `l <-> f1 /\ f2` or of `l <-> f1 \/ f2`.
unfoldable pub clauses_of : Junctor → ℤ → ℤ → ℤ → List Clause
clauses_of conj l f1 f2 = (neg l ∷ f1 ∷ []) ∷ (neg l ∷ f2 ∷ []) ∷ (l ∷ neg f1 ∷ neg f2 ∷ []) ∷ []
clauses_of disj l f1 f2 = (l ∷ neg f1 ∷ []) ∷ (l ∷ neg f2 ∷ []) ∷ (neg l ∷ f1 ∷ f2 ∷ []) ∷ []

unfoldable pub def_clauses : Definition → List Clause
unfolding clauses_of
def_clauses d = clauses_of d.junctor (pos d.name) d.left d.right

unfoldable pub all_clauses : List Definition → List Clause
all_clauses [] = []
all_clauses (d ∷ ds) = def_clauses d ++ all_clauses ds

infixl 5 ◌>>=◌
abbrev pub ◌>>=◌ {ℓ κ} : {A : Type ℓ} {B : Type κ} → Option A → (A → Option B) → Option B
none >>= f = none
some a >>= f = f a

module _ (v : VarSource) where
  open v use {State, new_var}

  -- The list of definitions and the solver.
  abbrev pub CnfState : Type 0
  CnfState = List Definition × State

  -- The end of `defstep`, for the literals of both operands.
  unfoldable pub define : Junctor → ℤ → ℤ → CnfState → ℤ × CnfState
  define j l r st =
      let n = new_var st.1 in
      (pos n.0, (st.0 ++ record { name = n.0; junctor = j; left = l; right = r } ∷ [], n.1))

  unfoldable mutual
    unfolding define

    -- `maincnf`
    pub main_cnf : PlFormula → CnfState → Option (ℤ × CnfState)
    main_cnf (lit l) st = some (l, st)
    main_cnf (junct j fs) st = def_step j fs st
    main_cnf (lnot f) st = some (neg (get_literal f), st)

    -- `defstep`, on the operands at 0 and 1.
    pub def_step : Junctor → Subformulae → CnfState → Option (ℤ × CnfState)
    def_step j nil st = none
    def_step j (cons f nil) st = none
    def_step j (cons f (cons g fs)) st = do
      (l, st') ← main_cnf f st
      (r, st'') ← main_cnf g st'
      some (define j l r st'')

  -- `tseytin_cnf`, with the solver that it leaves.
  unfoldable pub tseytin_cnf : PlFormula → State → Option (List Clause × State)
  unfolding main_cnf from_plf all_clauses def_clauses
  tseytin_cnf f s = do
    g ← make_binary f
    (l, (ds, s')) ← main_cnf (from_plf g) ([], s)
    some ((l ∷ []) ∷ all_clauses ds, s')

-- Whether a valuation satisfies a clause, and all clauses.
unfoldable pub clause_holds : Valuation → Clause → Bool
clause_holds A [] = false
clause_holds A (l ∷ c) = holds A l || clause_holds A c

unfoldable pub cnf_holds : Valuation → List Clause → Bool
unfolding clause_holds
cnf_holds A [] = true
cnf_holds A (c ∷ cs) = clause_holds A c && cnf_holds A cs
