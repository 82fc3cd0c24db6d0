-- ===== src/Levis/Runs.antt =====
-- The states of a `PassedWaiting` of libs/solvers/levis/passed.hpp, whatever calls its operations.
use woorpje.Common.{
  ℕ, ◌+◌, ◌<◌, ◌≤◌, ◌≡◌, ◌⊎◌, inl, inr, refl, subst, true, some, List, [], ◌∷◌, length, arith,
}
use mathlib.Core.List.{map}
use woorpje.Members.{In, In-map, mem_iff, unseen, unseen-bound}
use woorpje.Levis.Waiting.{
  SearchOrder, PassedWaiting, new_waiting, insert, pull_element, contains, clear, waiting_size,
}
use woorpje.Levis.Insert.{IsDistinct, IsSound, insert-Inserts}

-- A state behind calls on a new list, and the systems pulled so far, the last one first.
pub data Run {A : Type 0} (hash : A → ℕ) (o : SearchOrder) : PassedWaiting A → List A → Type 0 where
  constructed : {s : PassedWaiting A} {r : List A} → s ≡ new_waiting → r ≡ [] → Run hash o s r
  inserted :
      {s t : PassedWaiting A} {r : List A} (x : A)
      → Run hash o s r
      → t ≡ insert hash o x s
      → Run hash o t r
  pulled :
      {s t : PassedWaiting A} {r q : List A} (x : A)
      → Run hash o s r
      → pull_element s ≡ some (x, t)
      → q ≡ x ∷ r
      → Run hash o t q
  cleared : {s t : PassedWaiting A} {r : List A} → Run hash o s r → t ≡ clear s → Run hash o t r

module _ {A : Type 0} (hash : A → ℕ) (o : SearchOrder) (n : ℕ) (small : (x : A) → hash x < n) where
  record Invariant (s : PassedWaiting A) (r : List A) : Type 0 where
    sound : IsSound hash s
    once : IsDistinct (map hash r)
    passed_on : (h : ℕ) → In h (map hash r) → In h s.passed
    apart : (h : ℕ) → In h (map hash r) → ¬ In h (map hash s.queue)
    room_left : length r + (unseen n s.passed + length s.queue) ≤ n

  insert-Invariant :
      (x : A) (s : PassedWaiting A) (r : List A) → Invariant s r → Invariant (insert hash o x s) r
  insert-Invariant x s r i =
      let f = insert-Inserts hash o x s i.sound in
      record {
        sound = f.sound;
        once = i.once;
        passed_on = λ h k. f.keeps h (i.passed_on h k);
        apart = λ h k l. elim (f.news h l) [ inl j ↦ i.apart h k j | inr j ↦ j (i.passed_on h k) ];
        room_left = (let b = f.bound n small in let c = i.room_left in omega arith);
      }

  pull-Invariant :
      (ps : List ℕ) (x : A) (q r : List A)
      → Invariant (record { passed = ps; queue = x ∷ q }) r
      → Invariant (record { passed = ps; queue = q }) (x ∷ r)
  pull-Invariant ps x q r i = record {
    sound = record { known = λ h k. i.sound.known h (inr k); distinct = i.sound.distinct.1 };
    once = ((λ k. i.apart (hash x) k (inl refl)), i.once);
    passed_on = λ h k. elim k [ inl e ↦ i.sound.known h (inl e) | inr j ↦ i.passed_on h j ];
    apart = λ h k l. elim k [
      | inl e ↦ i.sound.distinct.0 (subst (λ z. In z (map hash q)) e l)
      | inr j ↦ i.apart h j (inr l)
    ];
    room_left = (let c = i.room_left in omega arith);
  }

  pulled-Invariant :
      (ps : List ℕ) (q r : List A) (x : A) (t : PassedWaiting A)
      → pull_element (record { passed = ps; queue = q }) ≡ some (x, t)
      → Invariant (record { passed = ps; queue = q }) r
      → Invariant t (x ∷ r)
  pulled-Invariant ps [] r x t e i = absurd cc
  pulled-Invariant ps (y ∷ q) r x t e i =
      let d : y ≡ x = cc in
      let f : record { passed = ps; queue = q } ≡ t = cc in
      subst (λ z. Invariant z (x ∷ r)) f
        (subst (λ z. Invariant (record { passed = ps; queue = q }) (z ∷ r)) d
          (pull-Invariant ps y q r i))

  Run-Invariant : {s : PassedWaiting A} {r : List A} → Run hash o s r → Invariant s r
  Run-Invariant (constructed e d) =
      rw (e, d)
        (record {
          sound = record { known = λ h k. absurd k; distinct = tt };
          once = tt;
          passed_on = λ h k. absurd k;
          apart = λ h k l. l;
          room_left = (let b = unseen-bound n in omega arith);
        })
  Run-Invariant {r} (inserted {s} x w e) = rw e (insert-Invariant x s r (Run-Invariant w))
  Run-Invariant (pulled {s} {t} {r} x w e d) =
      rw d (pulled-Invariant s.passed s.queue r x t e (Run-Invariant w))
  Run-Invariant {r} (cleared {s} w e) =
      let i = Run-Invariant w in
      rw e (record {
        sound = record { known = λ h k. absurd k; distinct = tt };
        once = i.once;
        passed_on = i.passed_on;
        apart = λ h k l. l;
        room_left = (let c = i.room_left in omega arith);
      })

-- Where there are no more than n hashes, and whatever is inserted, pulled and cleared, in either
-- order: no two systems that were pulled have the same hash, no more than n systems were pulled or
-- wait, and the list contains each of them.
pub Run_lem :
    {A : Type 0} (hash : A → ℕ) (o : SearchOrder) (n : ℕ) (s : PassedWaiting A) (r : List A)
    → ((x : A) → hash x < n)
    → Run hash o s r
    → IsDistinct (map hash r)
      × (length r + waiting_size s ≤ n)
      × ((x : A) → In x r ⊎ In x s.queue → contains hash x s ≡ true)
unfolding contains
Run_lem hash o n s r small w =
    let i = Run-Invariant hash o n small w in
    (
      i.once,
      (let c = i.room_left in omega arith),
      λ x k. (mem_iff (hash x) s.passed).1 (elim k [
        | inl j ↦ i.passed_on (hash x) (In-map hash x r j)
        | inr j ↦ i.sound.known (hash x) (In-map hash x s.queue j)
      ]),
    )
