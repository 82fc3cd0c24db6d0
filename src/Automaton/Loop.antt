-- ===== src/Automaton/Loop.antt =====
-- `regexToNfa` on a star: epsilon transitions lead from the final states of the part back to the start.
use woorpje.Common.{
  ℕ, suc, ◌+◌, ◌≡◌, ◌↔◌, ◌⊎◌, inl, inr, refl, sym, ap, ◌∙◌, subst, false, some, List, [], ◌∷◌, ◌++◌,
  append_assoc, append-nil, arith,
}
use woorpje.Members.{In, In-append_inv, In-append_left, In-append_right, In-map, In-map_inv}
use mathlib.Core.List.{map}
use woorpje.Regex.Lang.{Star, stop, more, Star-append}
use woorpje.Automaton.Defs.{
  Nfa, Label, Transition, ◌>>=◌, started, new_state, add_transitions, add_eps_transition,
  add_eps_transitions, add_final_state, shift, shift_pair, offset_delta, offset_delta_epsilon,
  is_nil,
}
use woorpje.Automaton.Reach.{
  Takes, Reach, stay, by_letter, by_epsilon, Accepts, IsInRange, Reach-mono, Reach-trans,
}
use woorpje.Automaton.Attach.{attached, AllBelow, attached_through}
use woorpje.Automaton.Build.{star_nfa, star_scan, close_star}
use woorpje.Automaton.Steps.{
  behind, add_transitions_lem, add_eps_transition_lem, add_eps_transitions_lem, add_final_state_lem,
  new_states_lem, PairsBelow, shift-TransitionsBelow, shift_pair-PairsBelow,
}
use woorpje.Automaton.Visit.{finals_from_sound, finals_from_complete, star_scan_lem}
use woorpje.Automaton.Parts.{same_nfa, IsOpen, moved_finals, finished}
use woorpje.Automaton.Words.{
  Then, started-IsInRange, started-IsOpen, attached-IsOpen, moved_finals-AllBelow, finished-Accepts,
  finished-IsInRange,
}

module _ (sub : Nfa) where
  abbrev base : Nfa
  base = attached started sub (0 ∷ [])

  abbrev finals : List ℕ
  finals = moved_finals started sub

  -- With the way back.
  abbrev looped : Nfa
  looped = record base { delta_epsilon = base.delta_epsilon ++ map (λ q. (q, 0)) finals }

  -- From the start: rounds, and then a part of one.
  abbrev Rounds : List ℕ → ℕ → Type 0
  Rounds w q =
      ((q ≡ 0) × Star (Accepts sub) w)
      ⊎ ((s : ℕ) × (q ≡ s + 1) × Then (Star (Accepts sub)) (λ v. Reach sub sub.init_state v s) w)

  module _ (hs : IsInRange sub) where
    start-AllBelow : AllBelow 1 (0 ∷ [])
    start-AllBelow q (inl e) = omega arith
    start-AllBelow q (inr e) = absurd e

    letter_round :
        (w u : List ℕ) (r q c r' q' : ℕ) (a : Label)
        → Rounds u r
        → In (r', a, q') sub.delta
        → r ≡ r' + 1
        → q ≡ q' + 1
        → Takes a c
        → w ≡ u ++ c ∷ []
        → Rounds w q
    letter_round w u r q c r' q' a (inl (z, g)) j d d' t e = absurd (omega arith)
    letter_round w u r q c r' q' a (inr (s, k, (x, y, h, g, o))) j d d' t e =
        let same : s ≡ r' = omega arith in
        let g' = subst (Reach sub sub.init_state y) same g in
        let o' = e ∙ ap (λ z. z ++ c ∷ []) o ∙ append_assoc x y (c ∷ []) in
        inr (q', d', (x, y ++ c ∷ [], h, by_letter y r' c a g' j t refl, o'))

    epsilon_round :
        (w : List ℕ) (r q r' q' : ℕ)
        → Rounds w r
        → In (r', q') sub.delta_epsilon
        → r ≡ r' + 1
        → q ≡ q' + 1
        → Rounds w q
    epsilon_round w r q r' q' (inl (z, g)) j d d' = absurd (omega arith)
    epsilon_round w r q r' q' (inr (s, k, (x, y, h, g, o))) j d d' =
        let same : s ≡ r' = omega arith in
        let g' = subst (Reach sub sub.init_state y) same g in
        inr (q', d', (x, y, h, by_epsilon r' g' j, o))

    enter_round : (w : List ℕ) (r q : ℕ) → Rounds w r → r ≡ 0 → q ≡ sub.init_state + 1 → Rounds w q
    enter_round w r q (inl (z, g)) d e =
        inr (sub.init_state, e, (w, [], g, stay refl refl, sym (append-nil w)))
    enter_round w r q (inr (s, k, g)) d e = absurd (omega arith)

    leave_round : (w : List ℕ) (r q : ℕ) → Rounds w r → In r finals → q ≡ 0 → Rounds w q
    leave_round w r q (inl (z, g)) i d = inl (d, g)
    leave_round w r q (inr (s, k, (x, y, h, g, o))) i d =
        let (f, j, l, e) = finals_from_sound sub 1 sub.num_states 0 r i in
        let same : s ≡ f = omega arith in
        let last =
          more y [] (f, j, subst (Reach sub sub.init_state y) same g) (stop refl)
            (sym (append-nil y)) in
        inl (d, subst (Star (Accepts sub)) (sym o) (Star-append h last))

    looped-Rounds : {w : List ℕ} {q : ℕ} → Reach looped 0 w q → Rounds w q
    looped-Rounds {w} {q} (stay e k) = inl (k, stop e)
    looped-Rounds {w} {q} (by_letter u r c a h i t e) =
        let ((r', a', q'), k, d) = In-map_inv (shift 1) _ sub.delta i in
        let same : a' ≡ a = ap (λ z. z.1) (sym d) in
        letter_round w u r q c r' q' a (looped-Rounds h)
          (subst (λ z. In (r', z, q') sub.delta) same k) (ap (λ z. z.0) d) (ap (λ z. z.2) d) t e
    looped-Rounds {w} {q} (by_epsilon r h i) = elim (In-append_inv (r, q) base.delta_epsilon _ i) [
      | inl j ↦ elim (In-append_inv (r, q) (map (shift_pair 1) sub.delta_epsilon) _ j) [
        | inl k ↦
            (let ((r', q'), n, d) = In-map_inv (shift_pair 1) _ sub.delta_epsilon k in
              epsilon_round w r q r' q' (looped-Rounds h) n (ap (λ z. z.0) d) (ap (λ z. z.1) d))
        | inr (inl d) ↦ enter_round w r q (looped-Rounds h) (ap (λ z. z.0) d) (ap (λ z. z.1) d)
        | inr (inr d) ↦ absurd d
      ]
      | inr j ↦
          (let (f, n, d) = In-map_inv (λ z. (z, 0)) _ finals j in
            leave_round w r q (looped-Rounds h) (subst (λ z. In z finals) (sym (ap (λ z. z.0) d)) n)
              (ap (λ z. z.1) d))
    ]

    one_round : (w : List ℕ) → Accepts sub w → Reach looped 0 w 0
    one_round w (f, i, h) =
        let through =
          attached_through started sub (0 ∷ []) ([], w, 0, inl refl, stay refl refl, h, refl) in
        by_epsilon (f + 1) (Reach-mono (λ t j. j) (λ t j. In-append_left t _ _ j) through) (
          In-append_right (f + 1, 0) base.delta_epsilon _
            (In-map (λ q. (q, 0)) (f + 1) finals
              (finals_from_complete sub 1 sub.num_states 0 f i (omega arith)
                (omega (arith, hs.finals_lt f i)))))

    rounds : (w : List ℕ) → Star (Accepts sub) w → Reach looped 0 w 0
    rounds w (stop e) = stay e refl
    rounds w (more u v a s e) = Reach-trans u v w (one_round u a) (rounds v s) e

    looped-IsOpen : IsOpen looped
    looped-IsOpen =
        let ho = attached-IsOpen started sub (0 ∷ []) started-IsOpen hs start-AllBelow in
        record {
          in_range = record {
            some_state = ho.in_range.some_state;
            finals_lt = ho.in_range.finals_lt;
            delta_lt = ho.in_range.delta_lt;
            epsilon_lt = λ p q i. elim (In-append_inv (p, q) base.delta_epsilon _ i) [
              | inl j ↦ ho.in_range.epsilon_lt p q j
              | inr j ↦
                  (let (f, n, d) = In-map_inv (λ z. (z, 0)) _ finals j in
                    let b =
                      moved_finals-AllBelow started sub (0 ∷ []) started-IsInRange hs start-AllBelow
                        f n in
                    let x = ap (λ z. z.0) d in let y = ap (λ z. z.1) d in omega arith)
            ];
          };
          starts = refl;
          no_final = refl;
        }

    abbrev pub starred : Nfa
    starred = finished looped (0 ∷ [])

    zero-AllBelow : AllBelow looped.num_states (0 ∷ [])
    zero-AllBelow q (inl e) = omega arith
    zero-AllBelow q (inr e) = absurd e

    pub starred-IsInRange : IsInRange starred
    starred-IsInRange = finished-IsInRange looped (0 ∷ []) looped-IsOpen zero-AllBelow

    pub starred-Accepts : (w : List ℕ) → Accepts starred w ↔ Star (Accepts sub) w
    starred-Accepts w =
        let f = finished-Accepts looped (0 ∷ []) looped-IsOpen zero-AllBelow w in
        (
          λ h. (let (q, i, k) = f.0 h in at_start q i (looped-Rounds k)),
          λ s. f.1 (0, inl refl, rounds w s),
        )
      where
        at_start : (q : ℕ) → In q (0 ∷ []) → Rounds w q → Star (Accepts sub) w
        at_start q (inl e) (inl (z, s)) = s
        at_start q (inl e) (inr (s, d, g)) = absurd (omega arith)
        at_start q (inr e) r = absurd e

    back-PairsBelow : PairsBelow (suc (1 + sub.num_states)) (map (λ q. (q, 0)) finals)
    back-PairsBelow p q i =
        let (f, n, d) = In-map_inv (λ z. (z, 0)) _ finals i in
        let b =
          moved_finals-AllBelow started sub (0 ∷ []) started-IsInRange hs start-AllBelow f n in
        let x = ap (λ z. z.0) d in let y = ap (λ z. z.1) d in omega arith

    close_star_lem : close_star (sub.init_state + 1, finals) (behind started sub) ≡ some starred
    unfolding close_star
    close_star_lem =
        let n = 1 + sub.num_states in
        let back : List (ℕ × ℕ) = map (λ q. (q, 0)) finals in
        let last = record looped { num_states = suc n; final_states = n ∷ [] } in
        ap
          (λ z. z >>= λ m'.
            add_final_state m'.num_states (new_state m')
            >>= add_eps_transitions back
            >>= add_eps_transition (0, m'.num_states))
          (add_eps_transition_lem (behind started sub) 0 (sub.init_state + 1) (omega arith)
            (omega (arith, hs.some_state)))
        ∙ ap (λ z. z >>= add_eps_transitions back >>= add_eps_transition (0, n))
            (add_final_state_lem (new_state base) n (omega arith))
        ∙ ap (λ z. z >>= add_eps_transition (0, n))
            (add_eps_transitions_lem back
              (record base { num_states = suc n; final_states = n ∷ [] }) back-PairsBelow)
        ∙ add_eps_transition_lem last 0 n (omega arith) (omega arith)
        ∙ ap some (same_nfa looped (0 ∷ []) refl)

    pub star_nfa_lem : is_nil sub.delta ≡ false → star_nfa sub ≡ some starred
    unfolding star_nfa offset_delta offset_delta_epsilon
    star_nfa_lem h =
        let n = sub.num_states in
        let eps : List (ℕ × ℕ) = map (shift_pair 1) sub.delta_epsilon in
        let ts : List Transition = map (shift 1) sub.delta in
        let scan = star_scan sub 1 n 0 0 [] in
        rw h (
          ap (λ z. add_eps_transitions eps z >>= add_transitions ts >>= close_star scan)
            (new_states_lem n started)
          ∙ ap (λ z. z >>= add_transitions ts >>= close_star scan)
              (add_eps_transitions_lem eps (record started { num_states = 1 + n })
                (shift_pair-PairsBelow sub 1 hs))
          ∙ ap (λ z. z >>= close_star scan)
              (add_transitions_lem ts (record started { num_states = 1 + n; delta_epsilon = eps })
                (shift-TransitionsBelow sub 1 hs))
          ∙ ap (λ z. close_star z (behind started sub))
              (star_scan_lem sub 1 n 0 0 [] (omega arith) (omega (arith, hs.some_state)))
          ∙ close_star_lem)
