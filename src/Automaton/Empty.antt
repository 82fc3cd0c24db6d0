-- ===== src/Automaton/Empty.antt =====
-- `regexToNfa` of libs/solvers/satencoding/regular/nfa.cpp on expressions with RegEmpty.
use woorpje.Common.{ℕ, ◌≡◌, refl, ap, ◌∙◌, true, some, List}
use woorpje.Regex.Defs.{Children, reg_empty, operation, concat, child}
use woorpje.Regex.Lang.{Lang}
use woorpje.Automaton.Defs.{Nfa}
use woorpje.Automaton.Proper.{AllProper}
use woorpje.Automaton.Build.{concat_part, regex_to_nfa}
use woorpje.Automaton.Accept.{accept}
use woorpje.Automaton.Tracking.{constant_word, accept-regex_to_nfa}

empty_part :
    (cs : Children)
    → regex_to_nfa (operation concat (child reg_empty cs)) ≡ regex_to_nfa (operation concat cs)
unfolding regex_to_nfa concat_part
empty_part cs = refl

-- A concatenation whose first part is RegEmpty and whose others are without RegEmpty, without a union
-- of nothing and with a child for each star holds no word, but its automaton answers true on each
-- word of the concatenation of the others.
pub regex_to_nfa-empty_part :
    (cs : Children) (v : List ℕ)
    → AllProper cs
    → Lang (operation concat cs) v
    → ¬ Lang (operation concat (child reg_empty cs)) v
      × ((m : Nfa) × (regex_to_nfa (operation concat (child reg_empty cs)) ≡ some m)
          × (accept m (constant_word v) ≡ some true))
regex_to_nfa-empty_part cs v h l =
    let (m, e, (b, d, k)) = accept-regex_to_nfa (operation concat cs) v h in
    (λ (u, w, i, j, d). i, (m, empty_part cs ∙ e, d ∙ ap some (k.1 l)))
