-- ===== src/Simplify/Reduce.antt =====
-- The loop of `PrefixReducer` and of `SuffixReducer`, over the laws of an end.
use woorpje.Common.{
  ℕ, zero, suc, ◌+◌, ◌<◌, ◌≡◌, ◌↔◌, refl, sym, ap, ◌∙◌, Bool, true, false, some, List, [], ◌∷◌,
  length, arith, Bool-cases, inl, inr,
}
use woorpje.Word.Defs.{Entry, Word, variable, terminal, sequence, same, same_iff}
use woorpje.Word.Value.{Assignment, entry_value}
use woorpje.Simplify.Side.{Side}
use woorpje.Simplify.Defs.{
  Simplified, reduced_satis, just_reduced, reduced_nsatis, Substitution, Reduction, Round, again,
  done, finish, unequal, round, reduce_loop,
}

module _ (side : Side) (records : Bool) where
  open side use {fits, diff, join, join_assoc, join_cancel, fits_diff, mismatch}

  -- A word's value, joined at the reducer's end.
  abbrev pub joined : Assignment → Word → List ℕ
  joined σ [] = []
  joined σ (e ∷ w) = join (entry_value σ e) (joined σ w)

  -- The equation holds under an assignment.
  abbrev pub Solves : Assignment → Word → Word → Type 0
  Solves σ l r = joined σ l ≡ joined σ r

  abbrev pub Keeps : Word → Word → Reduction → Type 0
  Keeps l r x = elim x.outcome [
    | reduced_nsatis ↦ (σ : Assignment) → ¬ Solves σ l r
    | just_reduced ↦ (σ : Assignment) → Solves σ l r ↔ Solves σ x.lhs x.rhs
    | reduced_satis ↦ (σ : Assignment) → Solves σ l r
  ]

  -- One round keeps the solutions and makes the words shorter by an entry at least.
  abbrev RoundKeeps : Word → Word → Round → Type 0
  RoundKeeps l r (again l' r' s c) =
      ((σ : Assignment) → Solves σ l r ↔ Solves σ l' r')
      × (length l' + length r' < length l + length r)
  RoundKeeps l r (done x) = Keeps l r x

  finish-Keeps : (l r : Word) (s : Substitution) (c : List Entry) → Keeps l r (finish l r s c)
  unfolding finish
  finish-Keeps [] [] s c = λ σ. refl
  finish-Keeps [] (e ∷ r) s c = λ σ. (λ h. h, λ h. h)
  finish-Keeps (e ∷ l) r s c = λ σ. (λ h. h, λ h. h)

  -- The longer sequence gives way to its difference.
  split_off :
      (a b : List ℕ) (v w : List ℕ)
      → fits a b ≡ true
      → (join a v ≡ join b w) ↔ (v ≡ join (diff b a) w)
  split_off a b v w h =
      let e : join b w ≡ join a (join (diff b a) w) =
        ap (λ z. join z w) (fits_diff a b h) ∙ join_assoc a (diff b a) w in
      (λ k. join_cancel a v _ (k ∙ e), λ k. ap (join a) k ∙ sym e)

  unequal-RoundKeeps :
      (l : Entry) (ls : Word) (r : Entry) (rs : Word) (s : Substitution) (c : List Entry)
      → same l r ≡ false
      → RoundKeeps (l ∷ ls) (r ∷ rs) (unequal fits diff records l ls r rs s c)
  unfolding unequal
  unequal-RoundKeeps (sequence a) ls (sequence b) rs s c n = elim (Bool-cases (fits a b)) [
    | inl h ↦ rw h (λ σ. split_off a b (joined σ ls) (joined σ rs) h, omega arith)
    | inr h ↦ elim (Bool-cases (fits b a)) [
      | inl k ↦
          rw (h, k)
            (
              λ σ.
                  (let f = split_off b a (joined σ rs) (joined σ ls) k in
                    (λ e. sym (f.0 (sym e)), λ e. sym (f.1 (sym e)))),
              omega arith,
            )
      | inr k ↦
          rw (h, k)
            (λ σ e.
              (let m = mismatch a b (joined σ ls) (joined σ rs) h k e in
                let t = (same_iff (sequence a) (sequence b)).1 (ap sequence m) in ground arith))
    ]
  ]
  unequal-RoundKeeps (variable x) ls r rs s c n = finish-Keeps (variable x ∷ ls) (r ∷ rs) s c
  unequal-RoundKeeps (terminal x) ls r rs s c n = finish-Keeps (terminal x ∷ ls) (r ∷ rs) s c
  unequal-RoundKeeps (sequence x) ls (variable y) rs s c n =
      finish-Keeps (sequence x ∷ ls) (variable y ∷ rs) s c
  unequal-RoundKeeps (sequence x) ls (terminal y) rs s c n =
      finish-Keeps (sequence x ∷ ls) (terminal y ∷ rs) s c

  round-RoundKeeps :
      (l r : Word) (s : Substitution) (c : List Entry)
      → RoundKeeps l r (round fits diff records l r s c)
  unfolding round
  round-RoundKeeps [] r s c = finish-Keeps [] r s c
  round-RoundKeeps (l ∷ ls) [] s c = finish-Keeps (l ∷ ls) [] s c
  round-RoundKeeps (l ∷ ls) (r ∷ rs) s c = elim (Bool-cases (same l r)) [
    | inl h ↦ rw h (
      λ σ.
          (let e : entry_value σ l ≡ entry_value σ r = ap (entry_value σ) ((same_iff l r).0 h) in
            (
              λ k. join_cancel (entry_value σ r) _ _ (ap (λ z. join z (joined σ ls)) (sym e) ∙ k),
              λ k. ap (λ z. join z (joined σ ls)) e ∙ ap (join (entry_value σ r)) k,
            )),
      omega arith,
    )
    | inr h ↦ rw h (unequal-RoundKeeps l ls r rs s c h)
  ]

  Keeps-trans :
      (l r l' r' : Word) (x : Reduction)
      → ((σ : Assignment) → Solves σ l r ↔ Solves σ l' r')
      → Keeps l' r' x
      → Keeps l r x
  Keeps-trans l r l' r' x f k = by_outcome x.outcome k
    where
      by_outcome :
          (o : Simplified)
          → Keeps l' r' (record x { outcome = o })
          → Keeps l r (record x { outcome = o })
      by_outcome reduced_nsatis k = λ σ h. k σ ((f σ).0 h)
      by_outcome just_reduced k = λ σ. (λ h. (k σ).0 ((f σ).0 h), λ h. (f σ).1 ((k σ).1 h))
      by_outcome reduced_satis k = λ σ. (f σ).1 (k σ)

  -- With more fuel than entries the loop ends, and it keeps the solutions.
  pub reduce_loop-Keeps :
      (f : ℕ) (l r : Word) (s : Substitution) (c : List Entry)
      → length l + length r < f
      → (x : Reduction) × (reduce_loop fits diff records f l r s c ≡ some x) × Keeps l r x
  unfolding reduce_loop
  reduce_loop-Keeps zero l r s c h = absurd (omega arith)
  reduce_loop-Keeps (suc f) l r s c h =
      onward (round fits diff records l r s c) (round-RoundKeeps l r s c) (reduce_loop-Keeps f)
    where
      onward :
          (o : Round)
          → RoundKeeps l r o
          → ((l' r' : Word) (s' : Substitution) (c' : List Entry)
              → length l' + length r' < f
              → (x : Reduction) × (reduce_loop fits diff records f l' r' s' c' ≡ some x)
                × Keeps l' r' x)
          → (x : Reduction) × ((elim o [
            | again l' r' s' c' ↦ reduce_loop fits diff records f l' r' s' c'
            | done x ↦ some x
          ])
              ≡ some x)
            × Keeps l r x
      onward (done x) k ih = (x, refl, k)
      onward (again l' r' s' c') (k, m) ih =
          let (x, e, j) = ih l' r' s' c' (omega arith) in (x, e, Keeps-trans l r l' r' x k j)
