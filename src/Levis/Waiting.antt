-- ===== src/Levis/Waiting.antt =====
-- `PassedWaiting` of libs/solvers/levis/passed.hpp over the two queues of passed.cpp. The hash is a
-- parameter, since nothing here depends on which one it is. `none` is the front of an empty queue.
use woorpje.Common.{ℕ, Bool, Option, none, some, List, [], ◌∷◌, ◌++◌, length, if◌then◌else◌}
use woorpje.Members.{mem}

pub data SearchOrder : Type 0 where
  depth_first : SearchOrder
  breadth_first : SearchOrder

-- `push` of the class `Stack` and of the class `Queue`; the front is the head.
unfoldable pub push {ℓ} : {A : Type ℓ} → SearchOrder → A → List A → List A
push depth_first x q = x ∷ q
push breadth_first x q = q ++ x ∷ []

pub record PassedWaiting (A : Type 0) : Type 0 where
  pub passed : List ℕ
  pub queue : List A

module _ {A : Type 0} where
  -- The constructor, on a new queue.
  abbrev pub new_waiting : PassedWaiting A
  new_waiting = record { passed = []; queue = [] }

  abbrev pub pull_element : PassedWaiting A → Option (A × PassedWaiting A)
  pull_element s = elim s.queue [ [] ↦ none | x ∷ q ↦ some (x, record s { queue = q }) ]

  abbrev pub waiting_size : PassedWaiting A → ℕ
  waiting_size s = length s.queue

  abbrev pub passedsize : PassedWaiting A → ℕ
  passedsize s = length s.passed

  abbrev pub clear : PassedWaiting A → PassedWaiting A
  clear s = record s { queue = [] }

  module _ (hash : A → ℕ) where
    unfoldable pub contains : A → PassedWaiting A → Bool
    unfolding mem
    contains x s = mem (hash x) s.passed

    unfoldable pub insert : SearchOrder → A → PassedWaiting A → PassedWaiting A
    unfolding mem push
    insert o x s =
        if mem (hash x) s.passed
        then s
        else record { passed = hash x ∷ s.passed; queue = push o x s.queue }
