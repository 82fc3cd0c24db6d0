-- ===== src/Encoding/Whole.antt =====
-- `encode` of libs/solvers/satencoding/regular/wordencoder.cpp with the lengths of `fromExpression`.
use woorpje.Common.{ℕ, ◌<◌, ◌≡◌, true, some, List}
use woorpje.Word.Defs.{Word}
use woorpje.Propositional.Literal.{Valuation}
use woorpje.Propositional.Formula.{PlFormula, eval}
use woorpje.Propositional.Tseytin.Defs.{VarSource, Clause, cnf_holds}
use woorpje.Automaton.Proper.{IsProper}
use woorpje.Regex.Defs.{RegNode}
use woorpje.Regex.Lang.{Lang, IsWellFormed}
use woorpje.Lengths.From.{Divisors, from_expression}
use woorpje.Lengths.Total.{from_expression-Returns}
use woorpje.Encoding.Defs.{Pattern, Encoder, filled_pattern}
use woorpje.Encoding.Encode.{encode, do_encode}
use woorpje.Encoding.Meaning.{InRange, IsFaithful}
use woorpje.Encoding.Promise.{HasWord, Holds, IsKnown}
use woorpje.Encoding.Correct.{KnowsLengths}
use woorpje.Encoding.Clauses.{IsReadyFor, encode_sound, do_encode-Holds}

-- `fromExpression` as the lengths.
pub ready :
    (b : ℕ) (en : Encoder) (ds : Divisors)
    → InRange b en
    → ((c : ℕ) → en.index2t (en.t_indices c) ≡ c)
    → IsReadyFor b en (from_expression ds)
ready b en ds i back = record { in_range = i; back = back; total = from_expression-Returns ds }

-- With the lengths of fromExpression, encode returns clauses, and under each valuation that satisfies
-- them the filled pattern spells a word of the expression. The indices of characters can be read back,
-- the variables are the solver's, the valuation makes each constant equal to itself, and the expression
-- has no RegEmpty, no union of nothing, a child for each star and two for each concatenation.
pub encode-from_expression :
    (v : VarSource) (s : v.State) (en : Encoder) (ds : Divisors) (r : RegNode) (pattern : Word)
    (A : Valuation)
    → 0 < v.bound s
    → InRange (v.bound s) en
    → ((c : ℕ) → en.index2t (en.t_indices c) ≡ c)
    → IsProper r
    → IsWellFormed r
    → IsFaithful en A
    → (cnf : List Clause) × (s' : v.State) × (encode en (from_expression ds) v s pattern r
        ≡ some (cnf, s'))
      × (cnf_holds A cnf ≡ true → HasWord en (Lang r) (filled_pattern en pattern) A)
encode-from_expression v s en ds r pattern A z i back p wf t =
    encode_sound v s z en (from_expression ds) (ready (v.bound s) en ds i back) r p wf pattern A t

-- Where fromExpression has the length of each word of each node that doEncode asks about, and the
-- pattern holds a word of the expression with the empty positions last, the formula that doEncode
-- returns with these lengths is true. The indices of characters can be read back, also those of the
-- pattern's constants, the variables are the solver's, the valuation makes each constant equal to
-- itself, and the expression has no RegEmpty, no union of nothing, a child for each star and two
-- for each concatenation.
pub do_encode_complete :
    (b : ℕ) (en : Encoder) (ds : Divisors) (r : RegNode) (pat : Pattern) (A : Valuation)
    → InRange b en
    → ((c : ℕ) → en.index2t (en.t_indices c) ≡ c)
    → IsProper r
    → IsWellFormed r
    → IsFaithful en A
    → IsKnown en pat
    → KnowsLengths (from_expression ds) r
    → Holds en (Lang r) pat A
    → (f : PlFormula) × (do_encode en (from_expression ds) r pat ≡ some f) × (eval A f ≡ true)
do_encode_complete b en ds r pat A i back p wf t k c h =
    do_encode-Holds b en (from_expression ds) (ready b en ds i back) r p wf A t pat k c h
