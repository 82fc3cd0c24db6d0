-- ===== src/Automaton/Visit.antt =====
-- The loops of `regexToNfa` of libs/solvers/satencoding/regular/nfa.cpp over the states of a part.
use woorpje.Common.{
  ℕ, zero, suc, ◌+◌, ◌<◌, ◌≤◌, ◌≡◌, ◌⊎◌, inl, inr, refl, sym, ap, ◌∙◌, subst, true, false,
  Bool-cases, Option, some, List, [], ◌∷◌, ◌++◌, append_assoc, append-nil, ◌==◌, if◌then◌else◌,
  arith,
}
use woorpje.Members.{In, In-append_right, mem, mem_iff}
use woorpje.Automaton.Defs.{Nfa, ◌>>=◌}
use woorpje.Automaton.Build.{visit_states, star_scan}

-- The final states that the loop collects.
unfoldable pub finals_from : Nfa → ℕ → ℕ → ℕ → List ℕ → List ℕ
unfolding mem
finals_from sub off zero i fs = fs
finals_from sub off (suc count) i fs =
    finals_from sub off count (suc i) (if mem i sub.final_states then fs ++ (i + off) ∷ [] else fs)

pub finals_from-append :
    (sub : Nfa) (off count i : ℕ) (fs : List ℕ)
    → finals_from sub off count i fs ≡ fs ++ finals_from sub off count i []
unfolding finals_from
finals_from-append sub off zero i fs = sym (append-nil fs)
finals_from-append sub off (suc count) i fs = elim (Bool-cases (mem i sub.final_states)) [
  | inl h ↦ rw h (
      finals_from-append sub off count (suc i) (fs ++ (i + off) ∷ [])
      ∙ append_assoc fs ((i + off) ∷ []) (finals_from sub off count (suc i) [])
      ∙ ap (λ z. fs ++ z) (sym (finals_from-append sub off count (suc i) ((i + off) ∷ []))))
  | inr h ↦ rw h (finals_from-append sub off count (suc i) fs)
]

-- The moved final states of the part.
abbrev pub MovedFinal : Nfa → ℕ → ℕ → ℕ → Type 0
MovedFinal sub off i q = (f : ℕ) × In f sub.final_states × (i ≤ f) × (q ≡ f + off)

pub finals_from_sound :
    (sub : Nfa) (off count i q : ℕ) → In q (finals_from sub off count i []) → MovedFinal sub off i q
unfolding finals_from
finals_from_sound sub off zero i q h = absurd h
finals_from_sound sub off (suc count) i q h = elim (Bool-cases (mem i sub.final_states)) [
  | inl t ↦
      (let k =
          subst (In q) (rw t refl ∙ finals_from-append sub off count (suc i) ((i + off) ∷ [])) h in
        here_or_later t k (λ j. finals_from_sound sub off count (suc i) q j))
  | inr t ↦
      (let k = subst (In q) (rw t refl) h in later (finals_from_sound sub off count (suc i) q k))
]
  where
    later : MovedFinal sub off (suc i) q → MovedFinal sub off i q
    later (f, j, l, e) = (f, j, omega arith, e)

    here_or_later :
        mem i sub.final_states ≡ true
        → (q ≡ i + off) ⊎ In q (finals_from sub off count (suc i) [])
        → (In q (finals_from sub off count (suc i) []) → MovedFinal sub off (suc i) q)
        → MovedFinal sub off i q
    here_or_later t (inl e) further = (i, (mem_iff i sub.final_states).0 t, omega arith, e)
    here_or_later t (inr k) further = later (further k)

pub finals_from_complete :
    (sub : Nfa) (off count i f : ℕ)
    → In f sub.final_states
    → i ≤ f
    → f < i + count
    → In (f + off) (finals_from sub off count i [])
unfolding finals_from
finals_from_complete sub off zero i f h l r = absurd (omega arith)
finals_from_complete sub off (suc count) i f h l r = elim (Bool-cases (i == f)) [
  | inl e ↦
      (let same : i ≡ f = ground arith in
        let t = (mem_iff i sub.final_states).1 (subst (λ z. In z sub.final_states) (sym same) h) in
        rw t (
          subst (In (f + off)) (sym (finals_from-append sub off count (suc i) ((i + off) ∷ [])))
            (inl (ap (λ z. z + off) (sym same)))))
  | inr e ↦
      (let k = finals_from_complete sub off count (suc i) f h (ground arith) (omega arith) in
        subst (In (f + off)) (sym (finals_from-append sub off count (suc i) _))
          (In-append_right (f + off) _ _ k))
]

-- Behind the initial state.
pub visit_after :
    (enter : ℕ → Nfa → Option Nfa) (sub : Nfa) (off count i : ℕ) (m : Nfa) (fs : List ℕ)
    → sub.init_state < i
    → visit_states enter sub off count i m fs ≡ some (m, finals_from sub off count i fs)
unfolding visit_states finals_from
visit_after enter sub off zero i m fs h = refl
visit_after enter sub off (suc count) i m fs h =
    let t : sub.init_state == i ≡ false = ground arith in
    rw t (visit_after enter sub off count (suc i) m _ (omega arith))

-- Up to the initial state, at which `enter` gives the automaton `n`.
pub visit_before :
    (enter : ℕ → Nfa → Option Nfa) (sub : Nfa) (off count i : ℕ) (m n : Nfa) (fs : List ℕ)
    → i ≤ sub.init_state
    → sub.init_state < i + count
    → enter (sub.init_state + off) m ≡ some n
    → visit_states enter sub off count i m fs ≡ some (n, finals_from sub off count i fs)
unfolding visit_states finals_from
visit_before enter sub off zero i m n fs l r h = absurd (omega arith)
visit_before enter sub off (suc count) i m n fs l r h = elim (Bool-cases (sub.init_state == i)) [
  | inl t ↦
      (let same : sub.init_state ≡ i = ground arith in
        rw t (
          ap
            (λ z. z >>= λ m'.
              visit_states enter sub off count (suc i) m'
                (if mem i sub.final_states then fs ++ (i + off) ∷ [] else fs))
            (subst (λ z. enter (z + off) m ≡ some n) same h)
          ∙ visit_after enter sub off count (suc i) n _ (omega arith)))
  | inr t ↦ rw t (visit_before enter sub off count (suc i) m n _ (ground arith) (omega arith) h)
]

-- The star's loop: `oldQ0` is the moved initial state, once it has been met.
pub star_scan_after :
    (sub : Nfa) (off count i old_q0 : ℕ) (fs : List ℕ)
    → sub.init_state < i
    → star_scan sub off count i old_q0 fs ≡ (old_q0, finals_from sub off count i fs)
unfolding star_scan finals_from
star_scan_after sub off zero i old_q0 fs h = refl
star_scan_after sub off (suc count) i old_q0 fs h =
    let t : sub.init_state == i ≡ false = ground arith in
    rw t (star_scan_after sub off count (suc i) old_q0 _ (omega arith))

pub star_scan_lem :
    (sub : Nfa) (off count i old_q0 : ℕ) (fs : List ℕ)
    → i ≤ sub.init_state
    → sub.init_state < i + count
    → star_scan sub off count i old_q0 fs ≡ (sub.init_state + off, finals_from sub off count i fs)
unfolding star_scan finals_from
star_scan_lem sub off zero i old_q0 fs l r = absurd (omega arith)
star_scan_lem sub off (suc count) i old_q0 fs l r = elim (Bool-cases (sub.init_state == i)) [
  | inl t ↦
      (let same : sub.init_state ≡ i = ground arith in
        rw t (
          star_scan_after sub off count (suc i) (i + off) _ (omega arith)
          ∙ ap
              (λ z. (
                z + off,
                finals_from sub off count (suc i)
                    (if mem i sub.final_states then fs ++ (i + off) ∷ [] else fs),
              ))
              (sym same)))
  | inr t ↦ rw t (star_scan_lem sub off count (suc i) old_q0 _ (ground arith) (omega arith))
]
