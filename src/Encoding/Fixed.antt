-- ===== src/Encoding/Fixed.antt =====
-- Expressions whose words have one length, and what `doEncode` of
-- libs/solvers/satencoding/regular/wordencoder.cpp asks the lengths of them about.
use woorpje.Common.{ℕ, zero, suc, ◌+◌, refl}
use woorpje.Automaton.Proper.{IsProper, AllProper}
use woorpje.Regex.Defs.{
  RegNode, Children, reg_empty, reg_word, operation, union, concat, star, none_left, child,
}
use woorpje.Regex.Lang.{IsWellFormed, AllWellFormed}
use woorpje.Lengths.From.{Divisors, from_expression}
use woorpje.Lengths.Plain.{HasLength, EachLength, RowLength, HasLength-IsCovered}
use woorpje.Encoding.Encode.{copies, copies_node}
use woorpje.Encoding.Correct.{KnowsLengths, KnowsEach, KnowsRow}

copies-RowLength :
    (l : ℕ) (n : RegNode) → HasLength l n → (k : ℕ) → (m : ℕ) × RowLength m (copies k n)
unfolding copies
copies-RowLength l n h zero = (0, refl)
copies-RowLength l n h (suc k) =
    let (m, t) = copies-RowLength l n h k in (l + m, (l, m, refl, h, t))

pub copies_node-HasLength :
    (l : ℕ) (n : RegNode) → HasLength l n → (k : ℕ) → (m : ℕ) × HasLength m (copies_node (suc k) n)
copies_node-HasLength l n h zero = (l, h)
copies_node-HasLength l n h (suc k) = copies-RowLength l n h (suc (suc k))

module _ (ds : Divisors) where
  mutual
    pub HasLength-KnowsLengths :
        (l : ℕ) (r : RegNode)
        → HasLength l r
        → IsProper r
        → IsWellFormed r
        → KnowsLengths (from_expression ds) r
    HasLength-KnowsLengths l reg_empty h p w = tt
    HasLength-KnowsLengths l (reg_word u) h p w = tt
    HasLength-KnowsLengths l (operation union cs) h p w =
        (HasLength-IsCovered ds l (operation union cs) h p w, EachLength-KnowsEach l cs h p.1 w)
    HasLength-KnowsLengths l (operation concat cs) h p w = RowLength-KnowsRow l cs h p w.1
    HasLength-KnowsLengths l (operation star cs) h p w = absurd h

    EachLength-KnowsEach :
        (l : ℕ) (cs : Children)
        → EachLength l cs
        → AllProper cs
        → AllWellFormed cs
        → KnowsEach (from_expression ds) cs
    EachLength-KnowsEach l none_left h p w = tt
    EachLength-KnowsEach l (child r cs) h p w =
        (HasLength-KnowsLengths l r h.0 p.0 w.0, EachLength-KnowsEach l cs h.1 p.1 w.1)

    pub RowLength-KnowsRow :
        (l : ℕ) (cs : Children)
        → RowLength l cs
        → AllProper cs
        → AllWellFormed cs
        → KnowsRow (from_expression ds) cs
    RowLength-KnowsRow l none_left h p w = tt
    RowLength-KnowsRow l (child r none_left) h p w = tt
    RowLength-KnowsRow l (child r (child s none_left)) (m, n, e, h, (i, j, f, k, t)) p w = (
      HasLength-IsCovered ds m r h p.0 w.0,
      HasLength-IsCovered ds i s k p.1.0 w.1.0,
      HasLength-KnowsLengths m r h p.0 w.0,
      HasLength-KnowsLengths i s k p.1.0 w.1.0,
    )
    RowLength-KnowsRow l (child r (child s (child q cs))) (m, n, e, h, t) p w = (
      HasLength-IsCovered ds m r h p.0 w.0,
      HasLength-IsCovered ds n (operation concat (child s (child q cs))) t p.1 (tt, w.1),
      HasLength-KnowsLengths m r h p.0 w.0,
      RowLength-KnowsRow n (child s (child q cs)) t p.1 w.1,
    )
