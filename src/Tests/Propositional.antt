-- ===== src/Tests/Propositional.antt =====
-- Propositional formulae: tests and instances.
use woorpje.Common.{ℕ, suc, ◌≡◌, refl, some, List, [], ◌∷◌, arith}
use woorpje.Propositional.Literal.{pos, negsuc}
use woorpje.Propositional.Formula.{PlFormula, lit, lnot, nil, cons, land, lor, make_binary}
use woorpje.Propositional.Tseytin.Defs.{VarSource, Clause, tseytin_cnf}
use woorpje.Propositional.Tseytin.Correct.{IsEquisatisfiable, tseytin_cnf-IsEquisatisfiable}

-- A solver that numbers its variables from 0 on, as the library does.
abbrev pub counter : VarSource
counter = record {
  State = ℕ;
  new_var = λ n. (n, suc n);
  bound = λ n. n;
  new_var_above = λ n. omega arith;
  new_var_below = λ n. omega arith;
}

-- 1 and (2 or -1 or 3)
abbrev sample : PlFormula
sample = land (
    cons (lit (pos 1))
      (cons (lor (cons (lit (pos 2)) (cons (lnot (lit (pos 1))) (cons (lit (pos 3)) nil)))) nil))

binary_sample :
    make_binary sample
    ≡ some (
        land (
          cons (lit (pos 1)) (
            cons
              (lor (
                cons
                  (lit (pos 2))
                  (cons (lor (cons (lnot (lit (pos 1))) (cons (lit (pos 3)) nil))) nil)))
              nil)))
unfolding make_binary
binary_sample = refl

tseytin_small :
    tseytin_cnf counter (land (cons (lit (pos 1)) (cons (lit (pos 2)) nil))) 5
    ≡ some (
      (pos 5 ∷ [])
          ∷ (negsuc 4 ∷ pos 1 ∷ [])
          ∷ (negsuc 4 ∷ pos 2 ∷ [])
          ∷ (pos 5 ∷ negsuc 0 ∷ negsuc 1 ∷ [])
          ∷ [],
      6,
    )
unfolding tseytin_cnf make_binary
tseytin_small = refl

tseytin_cnf-IsEquisatisfiable_example :
    (cnf : List Clause) × (s' : ℕ) × (tseytin_cnf counter sample 5 ≡ some (cnf, s'))
    × IsEquisatisfiable 5 sample cnf
tseytin_cnf-IsEquisatisfiable_example =
    tseytin_cnf-IsEquisatisfiable counter 5 sample (omega arith) (omega arith)
