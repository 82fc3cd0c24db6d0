-- ===== src/Automaton/Words.antt =====
-- The words that lead to the final states of the parts that `regexToNfa` puts behind one another.
use woorpje.Common.{
  ℕ, ◌+◌, ◌≡◌, ◌↔◌, ◌⊎◌, inl, inr, refl, sym, ap, ◌∙◌, subst, List, [], ◌++◌, append-nil, arith,
}
use woorpje.Members.{In, In-append_inv, In-append_left, In-append_right}
use woorpje.Automaton.Defs.{Nfa, started}
use woorpje.Automaton.Reach.{
  Reach, stay, by_letter, by_epsilon, Leads, Accepts, IsInRange, Reach-mono,
}
use woorpje.Automaton.Attach.{
  attached, AllBelow, attached_left, attached_through, attached_inv, attached-IsInRange,
}
use woorpje.Automaton.Visit.{
  finals_from, finals_from-append, finals_from_sound, finals_from_complete,
}
use woorpje.Automaton.Parts.{IsOpen, moved_finals, finished}

-- A word of `P` and then one of `Q`.
abbrev pub Then : (List ℕ → Type 0) → (List ℕ → Type 0) → List ℕ → Type 0
Then P Q w = (u : List ℕ) × (v : List ℕ) × P u × Q v × (w ≡ u ++ v)

module _ (m sub : Nfa) (qs : List ℕ) where
  module _ (hm : IsInRange m) (hs : IsInRange sub) (hq : AllBelow m.num_states qs) where
    pub old-Leads :
        (fs : List ℕ) (w : List ℕ)
        → AllBelow m.num_states fs
        → Leads (attached m sub qs) fs w ↔ Leads m fs w
    old-Leads fs w hf = (
      λ (q, i, h). elim (attached_inv m sub qs hm hs hq hm.some_state h) [
        | inl (l, k) ↦ (q, i, k)
        | inr (s, e, t) ↦ absurd (let b = hf q i in omega arith)
      ],
      λ (q, i, h). (q, i, attached_left m sub qs h),
    )

    pub new-Leads :
        (w : List ℕ)
        → Leads (attached m sub qs) (moved_finals m sub) w ↔ Then (Leads m qs) (Accepts sub) w
    new-Leads w = (
      λ (q, i, h).
          (let (f, j, l, e) = finals_from_sound sub m.num_states sub.num_states 0 q i in
            elim (attached_inv m sub qs hm hs hq hm.some_state h) [
              | inl (b, k) ↦ absurd (omega arith)
              | inr (s, d, (u, v, g, n, k, x, o)) ↦
                  (let same : s ≡ f = omega arith in
                    (u, v, (g, n, k), (f, j, subst (Reach sub sub.init_state v) same x), o))
            ]),
      λ (u, v, (g, n, k), (f, j, x), o). (
        f + m.num_states,
        finals_from_complete sub m.num_states sub.num_states 0 f j (omega arith)
            (omega (arith, hs.finals_lt f j)),
        attached_through m sub qs (u, v, g, n, k, x, o),
      ),
    )

    pub moved_finals-AllBelow : AllBelow (attached m sub qs).num_states (moved_finals m sub)
    moved_finals-AllBelow q i =
        let (f, j, l, e) = finals_from_sound sub m.num_states sub.num_states 0 q i in
        let b = hs.finals_lt f j in omega arith

    -- Behind the final states so far.
    pub both-Leads :
        (fs : List ℕ) (w : List ℕ)
        → AllBelow m.num_states fs
        → Leads (attached m sub qs) (finals_from sub m.num_states sub.num_states 0 fs) w
          ↔ (Leads m fs w ⊎ Then (Leads m qs) (Accepts sub) w)
    both-Leads fs w hf =
        let e = finals_from-append sub m.num_states sub.num_states 0 fs in
        (
          λ h.
              (let (q, i, k) = subst (λ z. Leads (attached m sub qs) z w) e h in
                elim (In-append_inv q fs (moved_finals m sub) i) [
                  | inl j ↦ inl ((old-Leads fs w hf).0 (q, j, k))
                  | inr j ↦ inr ((new-Leads w).0 (q, j, k))
                ]),
          λ h.
              subst (λ z. Leads (attached m sub qs) z w) (sym e)
                (elim h [
                  | inl k ↦
                      (let (q, i, x) = (old-Leads fs w hf).1 k in (q, In-append_left q _ _ i, x))
                  | inr k ↦ (let (q, i, x) = (new-Leads w).1 k in (q, In-append_right q fs _ i, x))
                ]),
        )

    pub both-AllBelow :
        (fs : List ℕ)
        → AllBelow m.num_states fs
        → AllBelow (attached m sub qs).num_states (finals_from sub m.num_states sub.num_states 0 fs)
    both-AllBelow fs hf q i =
        elim (In-append_inv q fs (moved_finals m sub)
          (subst (In q) (finals_from-append sub m.num_states sub.num_states 0 fs) i)) [
            | inl j ↦ (let b = hf q j in omega arith)
            | inr j ↦ moved_finals-AllBelow q j
          ]

pub attached-IsOpen :
    (m sub : Nfa) (qs : List ℕ)
    → IsOpen m
    → IsInRange sub
    → AllBelow m.num_states qs
    → IsOpen (attached m sub qs)
attached-IsOpen m sub qs ho hs hq = record {
  in_range = attached-IsInRange m sub qs ho.in_range hs hq;
  starts = ho.starts;
  no_final = ho.no_final;
}

pub started-IsInRange : IsInRange started
started-IsInRange = record {
  some_state = omega arith;
  finals_lt = λ q i. absurd i;
  delta_lt = λ p q a i. absurd i;
  epsilon_lt = λ p q i. absurd i;
}

pub started-IsOpen : IsOpen started
started-IsOpen = record { in_range = started-IsInRange; starts = refl; no_final = refl }

-- From the one state of `started` only the empty word leads.
pub started-Reach : {p q : ℕ} {w : List ℕ} → Reach started p w q → (w ≡ []) × (q ≡ p)
started-Reach (stay e k) = (e, k)
started-Reach (by_letter u r c a h i t e) = absurd i
started-Reach (by_epsilon r h i) = absurd i

pub finished-IsInRange :
    (m : Nfa) (fs : List ℕ) → IsOpen m → AllBelow m.num_states fs → IsInRange (finished m fs)
finished-IsInRange m fs ho hf =
    let h = attached-IsInRange m started fs ho.in_range started-IsInRange hf in
    record {
      some_state = h.some_state;
      finals_lt = λ q i. elim i [ inl e ↦ omega arith | inr k ↦ absurd k ];
      delta_lt = h.delta_lt;
      epsilon_lt = h.epsilon_lt;
    }

-- The new final state is reached where one of the old ones is.
pub finished-Accepts :
    (m : Nfa) (fs : List ℕ)
    → IsOpen m
    → AllBelow m.num_states fs
    → (w : List ℕ) → Accepts (finished m fs) w ↔ Leads m fs w
finished-Accepts m fs ho hf w = (
  λ (q, i, h). elim i [ inl e ↦ from_last q e (same_runs q h) | inr k ↦ absurd k ],
  λ (f, n, k). (
    m.num_states,
    inl refl,
    same_runs_inv m.num_states (
        subst (λ z. Reach (attached m started fs) m.init_state w z) (zero_plus m.num_states)
          (attached_through m started fs (w, [], f, n, k, stay refl refl, sym (append-nil w)))),
  ),
)
  where
    zero_plus : (x : ℕ) → 0 + x ≡ x
    zero_plus x = omega arith

    same_runs :
        (q : ℕ)
        → Reach (finished m fs) m.init_state w q
        → Reach (attached m started fs) m.init_state w q
    same_runs q h = Reach-mono (λ t i. i) (λ t i. i) h

    same_runs_inv :
        (q : ℕ)
        → Reach (attached m started fs) m.init_state w q
        → Reach (finished m fs) m.init_state w q
    same_runs_inv q h = Reach-mono (λ t i. i) (λ t i. i) h

    from_last :
        (q : ℕ) → q ≡ m.num_states → Reach (attached m started fs) m.init_state w q → Leads m fs w
    from_last q e h =
        elim (attached_inv m started fs ho.in_range started-IsInRange hf ho.in_range.some_state h) [
          | inl (l, k) ↦ absurd (omega arith)
          | inr (s, d, (u, v, g, n, k, x, o)) ↦ (
            g,
            n,
            subst (λ z. Reach m m.init_state z g)
                (sym (o ∙ ap (λ z. u ++ z) (started-Reach x).0 ∙ append-nil u)) k,
          )
        ]
