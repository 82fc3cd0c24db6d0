-- ===== src/Automaton/Pieces.antt =====
-- `regexToNfa` of libs/solvers/satencoding/regular/nfa.cpp: what one part adds to the words.
use woorpje.Common.{
  ℕ, ◌<◌, ◌≡◌, ◌↔◌, ◌⊎◌, inl, inr, refl, sym, ap, ◌∙◌, subst, true, Bool-cases, some, List, [], ◌∷◌,
  ◌++◌, append-nil, arith,
}
use woorpje.Members.{In}
use woorpje.Regex.Defs.{RegNode, reg_word}
use woorpje.Regex.Lang.{Star, stop, more, Star-map, Lang}
use woorpje.Automaton.Defs.{Nfa, ◌>>=◌, started, is_nil}
use woorpje.Automaton.Reach.{stay, Leads, Accepts, IsInRange}
use woorpje.Automaton.Attach.{attached, AllBelow, attached_inv}
use woorpje.Automaton.Build.{concat_part, union_part, finish_nfa, star_nfa, regex_to_nfa}
use woorpje.Automaton.Visit.{finals_from}
use woorpje.Automaton.Parts.{
  IsOpen, moved_finals, finished, concat_part_lem, union_part_lem, finish_nfa_lem,
}
use woorpje.Automaton.Words.{
  Then, new-Leads, moved_finals-AllBelow, both-Leads, both-AllBelow, attached-IsOpen,
  started-IsOpen, started-Reach, finished-IsInRange, finished-Accepts,
}
use woorpje.Automaton.Chain.{word_loop_lem}
use woorpje.Automaton.Loop.{starred, starred-IsInRange, starred-Accepts, star_nfa_lem}
use woorpje.Automaton.Proper.{IsProper, Builds, Holds, only_empty, Then-empty, Then-cong, iff_trans}

pub concat_part-Holds :
    (r : RegNode) (sub : Nfa) (P : List ℕ → Type 0) (m : Nfa) (qs : List ℕ)
    → IsProper r
    → IsInRange sub
    → ((w : List ℕ) → Accepts sub w ↔ Lang r w)
    → Holds P (m, qs)
    → (s : Nfa × List ℕ) × (concat_part sub (m, qs) ≡ some s) × Holds (Then P (Lang r)) s
unfolding concat_part
concat_part-Holds r sub P m qs hr hs f (ho, hq, g) = elim (Bool-cases (is_nil sub.delta)) [
  | inl z ↦ (
    (m, qs),
    rw z refl,
    (
      ho,
      hq,
      λ w.
          (let t = Then-empty {P = P} (only_empty sub r z hr f) w in
            (λ h. t.1 ((g w).0 h), λ h. (g w).1 (t.0 h))),
    ),
  )
  | inr z ↦ (
    (attached m sub qs, moved_finals m sub),
    concat_part_lem m sub qs hs hq z,
    (
      attached-IsOpen m sub qs ho hs hq,
      moved_finals-AllBelow m sub qs ho.in_range hs hq,
      λ w. iff_trans (new-Leads m sub qs ho.in_range hs hq w) (Then-cong g f w),
    ),
  )
]

-- In a union nothing but the empty word leads to the start.
abbrev pub IsAlone : Nfa → Type 0
IsAlone m = (w : List ℕ) → Leads m (0 ∷ []) w ↔ (w ≡ [])

start-Leads : (m : Nfa) → m.init_state ≡ 0 → Leads m (0 ∷ []) []
start-Leads m e = (0, inl refl, stay refl (sym e))

attached-IsAlone :
    (m sub : Nfa) → IsOpen m → IsInRange sub → IsAlone m → IsAlone (attached m sub (0 ∷ []))
attached-IsAlone m sub ho hs f w = (
  λ (q, i, h). elim (attached_inv m sub (0 ∷ []) ho.in_range hs zero ho.in_range.some_state h) [
    | inl (l, k) ↦ (f w).0 (q, i, k)
    | inr (s, e, t) ↦ absurd (let b = below q i in omega arith)
  ],
  λ e.
      subst (Leads (attached m sub (0 ∷ [])) (0 ∷ [])) (sym e)
        (start-Leads (attached m sub (0 ∷ [])) ho.starts),
)
  where
    below : (q : ℕ) → In q (0 ∷ []) → q < m.num_states
    below q (inl e) = let b = ho.in_range.some_state in omega (arith, ho.starts)
    below q (inr e) = absurd e

    zero : AllBelow m.num_states (0 ∷ [])
    zero = below

pub union_part-Holds :
    (r : RegNode) (sub : Nfa) (P : List ℕ → Type 0) (m : Nfa) (fs : List ℕ)
    → IsInRange sub
    → ((w : List ℕ) → Accepts sub w ↔ Lang r w)
    → Holds P (m, fs)
    → IsAlone m
    → (s : Nfa × List ℕ) × (union_part sub (m, fs) ≡ some s)
      × Holds (λ w. P w ⊎ Lang r w) s
      × IsAlone s.0
union_part-Holds r sub P m fs hs f (ho, hf, g) ha = (
  (attached m sub (0 ∷ []), finals_from sub m.num_states sub.num_states 0 fs),
  union_part_lem m sub fs hs (omega (arith, ho.in_range.some_state)),
  (
    attached-IsOpen m sub (0 ∷ []) ho hs zero,
    both-AllBelow m sub (0 ∷ []) ho.in_range hs zero fs hf,
    λ w. words w,
  ),
  attached-IsAlone m sub ho hs ha,
)
  where
    zero : AllBelow m.num_states (0 ∷ [])
    zero q (inl e) = let b = ho.in_range.some_state in omega arith
    zero q (inr e) = absurd e

    words :
        (w : List ℕ)
        → Leads (attached m sub (0 ∷ [])) (finals_from sub m.num_states sub.num_states 0 fs) w
          ↔ (P w ⊎ Lang r w)
    words w =
        let b = both-Leads m sub (0 ∷ []) ho.in_range hs zero fs w hf in
        (
          λ h. elim (b.0 h) [
            | inl k ↦ inl ((g w).0 k)
            | inr (u, v, p, q, e) ↦
                inr (subst (Lang r) (sym (e ∙ ap (λ z. z ++ v) ((ha u).0 p))) ((f v).0 q))
          ],
          λ h. b.1 (elim h [
            | inl p ↦ inl ((g w).1 p)
            | inr q ↦ inr ([], w, (ha []).1 refl, (f w).1 q, refl)
          ]),
        )

pub finish-Builds : {P : List ℕ → Type 0} (s : Nfa × List ℕ) → Holds P s → Builds P (finish_nfa s)
finish-Builds (m, fs) (ho, hf, g) = (
  finished m fs,
  finish_nfa_lem m fs ho hf,
  finished-IsInRange m fs ho hf,
  λ w. iff_trans (finished-Accepts m fs ho hf w) (g w),
)

pub started-Leads : (w : List ℕ) → Leads started (0 ∷ []) w ↔ (w ≡ [])
started-Leads w = (λ (q, i, h). (started-Reach h).0, λ e. (0, inl refl, stay e refl))

pub started-below : AllBelow 1 (0 ∷ [])
started-below q (inl e) = omega arith
started-below q (inr e) = absurd e

pub word-Builds : (u : List ℕ) → Builds (λ w. w ≡ u) (regex_to_nfa (reg_word u))
unfolding regex_to_nfa
word-Builds u = word_loop_lem u 0 started [] started-IsOpen (omega arith) started-Leads

star_nfa_nil : (sub : Nfa) → is_nil sub.delta ≡ true → star_nfa sub ≡ some sub
unfolding star_nfa
star_nfa_nil sub z = rw z refl

pub star_nfa-Builds :
    (r : RegNode)
    → IsProper r
    → Builds (Lang r) (regex_to_nfa r)
    → Builds (Star (Lang r)) (regex_to_nfa r >>= star_nfa)
star_nfa-Builds r hr (sub, e, hs, f) = elim (Bool-cases (is_nil sub.delta)) [
  | inl z ↦ (
    sub,
    ap (λ o. o >>= star_nfa) e ∙ star_nfa_nil sub z,
    hs,
    λ w. (λ h. Star-one ((f w).0 h), λ h. (f w).1 ((only_empty sub r z hr f w).1 (all_empty z h))),
  )
  | inr z ↦ (
    starred sub hs,
    ap (λ o. o >>= star_nfa) e ∙ star_nfa_lem sub hs z,
    starred-IsInRange sub hs,
    λ w. (
      λ h. Star-map (λ u. (f u).0) ((starred-Accepts sub hs w).0 h),
      λ h. (starred-Accepts sub hs w).1 (Star-map (λ u. (f u).1) h),
    ),
  )
]
  where
    Star-one : {P : List ℕ → Type 0} {w : List ℕ} → P w → Star P w
    Star-one {P} {w} p = more w [] p (stop refl) (sym (append-nil w))

    all_empty : {w : List ℕ} → is_nil sub.delta ≡ true → Star (Lang r) w → w ≡ []
    all_empty z (stop e) = e
    all_empty z (more u v h s e) =
        e ∙ ap (λ x. x ++ v) ((only_empty sub r z hr f u).0 h) ∙ all_empty z s
