-- ===== src/Levis/Insert.antt =====
-- `insert` of `PassedWaiting` in libs/solvers/levis/passed.hpp: what the list holds behind it.
use woorpje.Common.{
  ℕ, suc, ◌+◌, ◌<◌, ◌≤◌, ◌≡◌, ◌⊎◌, inl, inr, refl, sym, ap, ◌∙◌, subst, true, false, Bool-cases,
  List, [], ◌∷◌, ◌++◌, length, length-append, arith,
}
use mathlib.Core.List.{map}
use woorpje.Members.{
  mem, mem_iff, In, In-append_left, In-append_right, In-append_inv, In-map, In-map_inv, unseen,
  unseen-fresh,
}
use woorpje.Levis.Waiting.{SearchOrder, depth_first, breadth_first, push, PassedWaiting, insert}

abbrev pub IsDistinct : List ℕ → Type 0
IsDistinct [] = Unit
IsDistinct (x ∷ xs) = ¬ In x xs × IsDistinct xs

push_inv :
    {A : Type 0} (o : SearchOrder) (x y : A) (q : List A) → In y (push o x q) → (y ≡ x) ⊎ In y q
unfolding push
push_inv depth_first x y q h = h
push_inv breadth_first x y q h = elim (In-append_inv y q (x ∷ []) h) [
  | inl k ↦ inr k
  | inr k ↦ elim k [ inl e ↦ inl e | inr n ↦ absurd n ]
]

push_new : {A : Type 0} (o : SearchOrder) (x : A) (q : List A) → In x (push o x q)
unfolding push
push_new depth_first x q = inl refl
push_new breadth_first x q = In-append_right x q (x ∷ []) (inl refl)

push_old : {A : Type 0} (o : SearchOrder) (x y : A) (q : List A) → In y q → In y (push o x q)
unfolding push
push_old depth_first x y q h = inr h
push_old breadth_first x y q h = In-append_left y q (x ∷ []) h

length-push :
    {A : Type 0} (o : SearchOrder) (x : A) (q : List A) → length (push o x q) ≡ suc (length q)
unfolding push
length-push depth_first x q = refl
length-push breadth_first x q = omega (arith, length-append q (x ∷ []))

push-IsDistinct :
    {A : Type 0} (hash : A → ℕ) (o : SearchOrder) (x : A) (q : List A)
    → ¬ In (hash x) (map hash q)
    → IsDistinct (map hash q)
    → IsDistinct (map hash (push o x q))
unfolding push
push-IsDistinct hash depth_first x q n d = (n, d)
push-IsDistinct hash breadth_first x [] n d = ((λ h. h), tt)
push-IsDistinct {A} hash breadth_first x (y ∷ q) n (m, d) = (
  λ h.
      (let (z, i, e) = In-map_inv hash (hash y) (q ++ x ∷ []) h in
        elim (In-append_inv z q (x ∷ []) i) [
          | inl k ↦ m (subst (λ w. In w (map hash q)) (sym e) (In-map hash z q k))
          | inr (inl k) ↦ n (inl (sym (e ∙ ap hash k)))
          | inr (inr k) ↦ k
        ]),
  push-IsDistinct hash breadth_first x q (λ h. n (inr h)) d,
)

module _ {A : Type 0} (hash : A → ℕ) where
  -- What waits has been passed, and no two systems that wait have the same hash.
  pub record IsSound (s : PassedWaiting A) : Type 0 where
    pub known : (h : ℕ) → In h (map hash s.queue) → In h s.passed
    pub distinct : IsDistinct (map hash s.queue)

  abbrev pub room : ℕ → PassedWaiting A → ℕ
  room n s = unseen n s.passed + length s.queue

  -- From `s` to `s'` by inserting a system.
  pub record Inserts (s s' : PassedWaiting A) : Type 0 where
    pub sound : IsSound s'
    pub keeps : (h : ℕ) → In h s.passed → In h s'.passed
    pub news : (h : ℕ) → In h (map hash s'.queue) → In h (map hash s.queue) ⊎ (¬ In h s.passed)
    pub bound : (n : ℕ) → ((x : A) → hash x < n) → room n s' ≤ room n s

  queued_inv :
      (o : SearchOrder) (x : A) (q : List A) (h : ℕ)
      → In h (map hash (push o x q))
      → (h ≡ hash x) ⊎ In h (map hash q)
  queued_inv o x q h i =
      let (z, j, e) = In-map_inv hash h (push o x q) i in
      elim (push_inv o x z q j) [
        | inl d ↦ inl (e ∙ ap hash d)
        | inr k ↦ inr (subst (λ w. In w (map hash q)) (sym e) (In-map hash z q k))
      ]

  Inserts-new :
      (o : SearchOrder) (x : A) (s : PassedWaiting A)
      → IsSound s
      → mem (hash x) s.passed ≡ false
      → Inserts s (record { passed = hash x ∷ s.passed; queue = push o x s.queue })
  Inserts-new o x s w m = record {
    sound = record {
      known =
          λ h i. elim (queued_inv o x s.queue h i) [ inl e ↦ inl e | inr k ↦ inr (w.known h k) ];
      distinct = push-IsDistinct hash o x s.queue (λ i. absent (w.known (hash x) i)) w.distinct;
    };
    keeps = λ h i. inr i;
    news = λ h i. elim (queued_inv o x s.queue h i) [
      | inl e ↦ inr (λ k. absent (subst (λ z. In z s.passed) e k))
      | inr k ↦ inl k
    ];
    bound = λ n b.
        (let l = unseen-fresh n (hash x) s.passed m (b x) in
          let k = length-push o x s.queue in omega arith);
  }
    where
      absent : In (hash x) s.passed → ⊥
      absent i = let k = (mem_iff (hash x) s.passed).1 i in cc

  Inserts-old :
      (x : A) (s : PassedWaiting A) → IsSound s → mem (hash x) s.passed ≡ true → Inserts s s
  Inserts-old x s w m = record {
    sound = w;
    keeps = λ h i. i;
    news = λ h i. inl i;
    bound = λ n b. omega arith;
  }

  pub insert-Inserts :
      (o : SearchOrder) (x : A) (s : PassedWaiting A) → IsSound s → Inserts s (insert hash o x s)
  unfolding insert
  insert-Inserts o x s w = elim (Bool-cases (mem (hash x) s.passed)) [
    | inl e ↦ rw e (Inserts-old x s w e)
    | inr e ↦ rw e (Inserts-new o x s w e)
  ]
