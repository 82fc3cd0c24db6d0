-- ===== src/Automaton/Cover.antt =====
-- `epsilonClosure` of libs/solvers/satencoding/regular/nfa.cpp: what a call and its loop leave in the
-- closure and in the ignored states.
use woorpje.Common.{ℕ, ◌≡◌, ◌⊎◌, inl, inr, refl, sym, subst, true, List, [], ◌∷◌, ◌++◌}
use woorpje.Members.{In, In-append_inv, In-append_left, In-append_right}
use woorpje.Automaton.Defs.{Nfa, epsilons_of, is_nil}
use woorpje.Automaton.Reach.{Reach, stay, by_epsilon, Reach-trans}
use woorpje.Automaton.Accept.{Found}
use woorpje.Automaton.Unseen.{epsilons_of_iff}

module _ (m : Nfa) where
  -- The epsilon transitions of `x` lead into the list.
  abbrev pub IsDone : ℕ → List ℕ → Type 0
  IsDone x ign = (y : ℕ) → In (x, y) m.delta_epsilon → In y ign

  -- A call at `q` with `ignore`.
  pub record Closes (q : ℕ) (ignore : List ℕ) (r : Found) : Type 0 where
    pub sound : (x : ℕ) → In x r.0 → Reach m q [] x
    pub grows : (x : ℕ) → In x ignore → In x r.1
    pub known : (x : ℕ) → In x r.1 → In x ignore ⊎ ((x ≡ q) ⊎ In x r.0)
    pub kept : (x : ℕ) → In x r.0 → In x r.1
    pub closed : (x : ℕ) → In x r.1 → In x ignore ⊎ IsDone x r.1
    pub done : IsDone q r.1

  -- The loop over the targets.
  pub record Covers (ts closure ignore : List ℕ) (r : Found) : Type 0 where
    pub sound : (x : ℕ) → In x r.0 → In x closure ⊎ ((t : ℕ) × In t ts × Reach m t [] x)
    pub grows : (x : ℕ) → In x ignore → In x r.1
    pub targets : (x : ℕ) → In x ts → In x r.1
    pub keeps : (x : ℕ) → In x closure → In x r.0
    pub known : (x : ℕ) → In x r.1 → In x ignore ⊎ In x r.0
    pub kept : (x : ℕ) → In x r.0 → In x closure ⊎ In x r.1
    pub closed : (x : ℕ) → In x r.1 → In x ignore ⊎ IsDone x r.1

  pub Covers-skip :
      (t : ℕ) (ts closure ignore : List ℕ) (r : Found)
      → In t ignore
      → Covers ts closure ignore r
      → Covers (t ∷ ts) closure ignore r
  Covers-skip t ts closure ignore r i c = record {
    sound = λ x h. elim (c.sound x h) [ inl k ↦ inl k | inr (s, j, k) ↦ inr (s, inr j, k) ];
    grows = c.grows;
    targets = λ x h. elim h [
      | inl e ↦ c.grows x (subst (λ z. In z ignore) (sym e) i)
      | inr k ↦ c.targets x k
    ];
    keeps = c.keeps;
    known = c.known;
    kept = c.kept;
    closed = c.closed;
  }

  pub Covers-visit :
      (t : ℕ) (ts closure ignore : List ℕ) (s r : Found)
      → Closes t (t ∷ ignore) s
      → Covers ts (closure ++ t ∷ s.0) s.1 r
      → Covers (t ∷ ts) closure ignore r
  Covers-visit t ts closure ignore s r d c = record {
    sound = λ x h. elim (c.sound x h) [
      | inl k ↦ elim (In-append_inv x closure _ k) [
        | inl j ↦ inl j
        | inr (inl e) ↦ inr (t, inl refl, stay refl e)
        | inr (inr j) ↦ inr (t, inl refl, d.sound x j)
      ]
      | inr (u, j, k) ↦ inr (u, inr j, k)
    ];
    grows = λ x h. c.grows x (d.grows x (inr h));
    targets = λ x h. elim h [ inl e ↦ c.grows x (d.grows x (inl e)) | inr k ↦ c.targets x k ];
    keeps = λ x h. c.keeps x (In-append_left x closure _ h);
    known = λ x h. elim (c.known x h) [
      | inl k ↦ elim (d.known x k) [
        | inl j ↦ elim j [
          | inl e ↦ inr (c.keeps x (In-append_right x closure _ (inl e)))
          | inr i ↦ inl i
        ]
        | inr j ↦ elim j [
          | inl e ↦ inr (c.keeps x (In-append_right x closure _ (inl e)))
          | inr i ↦ inr (c.keeps x (In-append_right x closure _ (inr i)))
        ]
      ]
      | inr k ↦ inr k
    ];
    kept = λ x h. elim (c.kept x h) [
      | inl k ↦ elim (In-append_inv x closure _ k) [
        | inl j ↦ inl j
        | inr (inl e) ↦ inr (c.grows x (d.grows x (inl e)))
        | inr (inr j) ↦ inr (c.grows x (d.kept x j))
      ]
      | inr k ↦ inr k
    ];
    closed = λ x h. elim (c.closed x h) [
      | inl k ↦ elim (d.closed x k) [
        | inl (inl e) ↦
            inr (λ y i. c.grows y (d.done y (subst (λ z. In (z, y) m.delta_epsilon) e i)))
        | inl (inr i) ↦ inl i
        | inr f ↦ inr (λ y i. c.grows y (f y i))
      ]
      | inr f ↦ inr f
    ];
  }

  -- A call without transitions ends at once, and another one visits its targets.
  pub Closes-call :
      (q : ℕ) (ignore : List ℕ) (r : Found)
      → Covers (epsilons_of q m.delta_epsilon) [] (q ∷ ignore) r
      → Closes q ignore r
  Closes-call q ignore r c = record {
    sound = λ x h. elim (c.sound x h) [
      | inl k ↦ absurd k
      | inr (t, i, k) ↦
          Reach-trans [] [] []
            (by_epsilon q (stay refl refl) ((epsilons_of_iff q t m.delta_epsilon).0 i)) k refl
    ];
    grows = λ x h. c.grows x (inr h);
    known = λ x h. elim (c.known x h) [
      | inl (inl e) ↦ inr (inl e)
      | inl (inr i) ↦ inl i
      | inr k ↦ inr (inr k)
    ];
    kept = λ x h. elim (c.kept x h) [ inl k ↦ absurd k | inr k ↦ k ];
    closed = λ x h. elim (c.closed x h) [
      | inl (inl e) ↦ inr (λ y i.
          c.targets y
            ((epsilons_of_iff q y m.delta_epsilon).1 (subst (λ z. In (z, y) m.delta_epsilon) e i)))
      | inl (inr i) ↦ inl i
      | inr f ↦ inr f
    ];
    done = λ y i. c.targets y ((epsilons_of_iff q y m.delta_epsilon).1 i);
  }

  pub Closes-unknown :
      (q : ℕ) (ignore : List ℕ)
      → is_nil (epsilons_of q m.delta_epsilon) ≡ true
      → Closes q ignore ([], ignore)
  Closes-unknown q ignore h = record {
    sound = λ x k. absurd k;
    grows = λ x k. k;
    known = λ x k. inl k;
    kept = λ x k. absurd k;
    closed = λ x k. inl k;
    done = λ y i. absurd (none_there y _ h ((epsilons_of_iff q y m.delta_epsilon).1 i));
  }
    where
      none_there : (y : ℕ) (ts : List ℕ) → is_nil ts ≡ true → In y ts → ⊥
      none_there y [] h i = i
      none_there y (t ∷ ts) h i = cc
