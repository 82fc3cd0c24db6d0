-- ===== src/Automaton/Thompson.antt =====
-- `regexToNfa` of libs/solvers/satencoding/regular/nfa.cpp against the language of the expression.
use woorpje.Common.{ℕ, ◌≡◌, ◌⊎◌, inl, inr, refl, sym, ap, ◌∙◌, subst, some, List, [], ◌∷◌, ◌++◌}
use woorpje.Regex.Defs.{
  RegNode, Children, reg_empty, reg_word, operation, union, concat, star, none_left, child,
}
use woorpje.Regex.Lang.{Lang, LangSome, LangRow}
use woorpje.Automaton.Defs.{Nfa, ◌>>=◌, started}
use woorpje.Automaton.Build.{
  concat_part, union_part, finish_nfa, regex_to_nfa, concat_parts, union_parts,
}
use woorpje.Automaton.Words.{Then, started-IsOpen}
use woorpje.Automaton.Proper.{IsProper, AllProper, Builds, Holds, Then-empty, Then-assoc, iff_trans}
use woorpje.Automaton.Pieces.{
  concat_part-Holds, IsAlone, union_part-Holds, finish-Builds, started-Leads, started-below,
  word-Builds, star_nfa-Builds,
}

-- The automata of the children.
abbrev AllBuild : Children → Type 0
AllBuild none_left = Unit
AllBuild (child r cs) = Builds (Lang r) (regex_to_nfa r) × AllBuild cs

concat_parts_hold :
    (cs : Children) (P : List ℕ → Type 0) (m : Nfa) (qs : List ℕ)
    → AllProper cs
    → AllBuild cs
    → Holds P (m, qs)
    → (s : Nfa × List ℕ) × (concat_parts cs (m, qs) ≡ some s) × Holds (Then P (LangRow cs)) s
unfolding concat_parts
concat_parts_hold none_left P m qs h b k = (
  (m, qs),
  refl,
  (
    k.0,
    k.1,
    λ w.
        (let t = Then-empty {P = P} (λ v. (λ e. e, λ e. e)) w in
          (λ x. t.1 ((k.2 w).0 x), λ x. (k.2 w).1 (t.0 x))),
  ),
)
concat_parts_hold (child r cs) P m qs h l k =
    let (sub, e, hs, f) = l.0 in
    let (s, d, j) = concat_part-Holds r sub P m qs h.0 hs f k in
    let (t, c, (ho, hb, g)) = concat_parts_hold cs (Then P (Lang r)) s.0 s.1 h.1 l.1 j in
    (
      t,
      ap (λ o. o >>= λ sub. (concat_part sub (m, qs) >>= concat_parts cs)) e
          ∙ ap (λ o. o >>= concat_parts cs) d
          ∙ c,
      (ho, hb, λ w. iff_trans (g w) (Then-assoc w)),
    )

union_parts_hold :
    (cs : Children) (P : List ℕ → Type 0) (m : Nfa) (fs : List ℕ)
    → AllProper cs
    → AllBuild cs
    → Holds P (m, fs)
    → IsAlone m
    → (s : Nfa × List ℕ) × (union_parts cs (m, fs) ≡ some s)
      × Holds (λ w. P w ⊎ LangSome cs w) s
      × IsAlone s.0
unfolding union_parts
union_parts_hold none_left P m fs h b k a = (
  (m, fs),
  refl,
  (k.0, k.1, λ w. iff_trans (k.2 w) (inl, λ x. elim x [ inl y ↦ y | inr y ↦ absurd y ])),
  a,
)
union_parts_hold (child r cs) P m fs h l k a =
    let (sub, e, hs, f) = l.0 in
    let (s, d, j, b) = union_part-Holds r sub P m fs hs f k a in
    let (t, c, (ho, hb, g), y) = union_parts_hold cs (λ w. P w ⊎ Lang r w) s.0 s.1 h.1 l.1 j b in
    (
      t,
      ap (λ o. o >>= λ sub. (union_part sub (m, fs) >>= union_parts cs)) e
          ∙ ap (λ o. o >>= union_parts cs) d
          ∙ c,
      (
        ho,
        hb,
        λ w. iff_trans (g w) (
          λ x. elim x [
            | inl y ↦ elim y [ inl p ↦ inl p | inr q ↦ inr (inl q) ]
            | inr y ↦ inr (inr y)
          ],
          λ x. elim x [
            | inl p ↦ inl (inl p)
            | inr y ↦ elim y [ inl q ↦ inl (inr q) | inr z ↦ inr z ]
          ],
        ),
      ),
      y,
    )

mutual
  unfolding regex_to_nfa

  builds : (r : RegNode) → IsProper r → Builds (Lang r) (regex_to_nfa r)
  builds reg_empty h = absurd h
  builds (reg_word u) h = word-Builds u
  builds (operation union cs) h =
      let (s, e, k, a) =
        union_parts_hold cs (λ w. ⊥) started [] h.1 (all_build cs h.1)
          (started-IsOpen, λ q i. absurd i, λ w. (λ (q, i, x). i, λ x. absurd x)) started-Leads in
      let (m, d, r, f) = finish-Builds s k in
      (
        m,
        ap (λ o. o >>= finish_nfa) e ∙ d,
        r,
        λ w. iff_trans (f w) (λ x. elim x [ inl y ↦ absurd y | inr y ↦ y ], inr),
      )
  builds (operation concat cs) h =
      let (s, e, k) =
        concat_parts_hold cs (λ w. w ≡ []) started (0 ∷ []) h (all_build cs h)
          (started-IsOpen, started-below, started-Leads) in
      let (m, d, r, f) = finish-Builds s k in
      (
        m,
        ap (λ o. o >>= finish_nfa) e ∙ d,
        r,
        λ w. iff_trans (f w) (
          λ (u, v, p, q, x). subst (LangRow cs) (sym (x ∙ ap (λ z. z ++ v) p)) q,
          λ q. ([], w, refl, q, refl),
        ),
      )
  builds (operation star none_left) h = absurd h.0
  builds (operation star (child r cs)) h = star_nfa-Builds r h.1.0 (builds r h.1.0)

  all_build : (cs : Children) → AllProper cs → AllBuild cs
  all_build none_left h = tt
  all_build (child r cs) h = (builds r h.0, all_build cs h.1)

-- On an expression without RegEmpty, without a union of nothing and with a child for each star,
-- regexToNfa returns an automaton that accepts exactly the words of the language, and of which each
-- transition is between its states.
pub regex_to_nfa-Builds : (r : RegNode) → IsProper r → Builds (Lang r) (regex_to_nfa r)
regex_to_nfa-Builds r h = builds r h
