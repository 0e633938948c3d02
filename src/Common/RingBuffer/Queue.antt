-- ===== src/Common/RingBuffer/Queue.antt =====
-- What include/spead2/common_ringbuffer.h promises of its calls, one at a time: a bounded FIFO that
-- can be stopped. Nothing of the slots, positions and semaphores is left.
use spead.Prelude.{
  ℕ, Bool, true, false, List, [], ◌∷◌, ◌++◌, Option, some, ◌==◌, if◌then◌else◌, length, ◌||◌,
}
use spead.Common.RingBuffer.{
  Result, ok, throws, ringbuffer_full, ringbuffer_empty, ringbuffer_stopped,
}

pub record Queue {ℓ} (A : Type ℓ) : Type ℓ where
  pub items : List A
  pub is_stopped : Bool
  pub limit : ℕ

module _ {ℓ} {A : Type ℓ} where
  unfoldable pub fresh : ℕ → Queue A
  fresh limit = record { items = []; is_stopped = false; limit = limit }

  -- After stop nothing more goes in. An interrupted call finds the queue full.
  unfoldable pub try_push : Bool → Queue A → A → Result (Unit {0}) × Queue A
  try_push interrupted q x =
      if q.is_stopped
      then (throws ringbuffer_stopped, q)
      else if interrupted || length q.items == q.limit
      then (throws ringbuffer_full, q)
      else (ok tt, record q { items = q.items ++ x ∷ [] })

  -- After stop the rest still comes out, and only then the error. An interrupted call finds no item.
  unfoldable pub try_pop : Bool → Queue A → Result (Option A) × Queue A
  try_pop interrupted q = elim q.items [
    | [] ↦ (throws (if q.is_stopped then ringbuffer_stopped else ringbuffer_empty), q)
    | x ∷ rest ↦
        if interrupted
        then (throws ringbuffer_empty, q)
        else (ok (some x), record q { items = rest })
  ]

  unfoldable pub stop : Queue A → Queue A
  stop q = record q { is_stopped = true }

-- A client's calls, each with whether a signal interrupts it, and what it sees of them.
pub data Call {ℓ} (A : Type ℓ) : Type ℓ where
  pushes : Bool → A → Call A
  pops : Bool → Call A
  stops : Call A

pub data Reply {ℓ} (A : Type ℓ) : Type ℓ where
  pushed : Result (Unit {0}) → Reply A
  popped : Result (Option A) → Reply A
  done : Reply A

module _ {ℓ} {A : Type ℓ} where
  unfoldable pub run : Queue A → List (Call A) → List (Reply A)
  unfolding try_push try_pop stop
  run q [] = []
  run q (pushes interrupted x ∷ calls) =
      let (r, q') = try_push interrupted q x in pushed r ∷ run q' calls
  run q (pops interrupted ∷ calls) = let (r, q') = try_pop interrupted q in popped r ∷ run q' calls
  run q (stops ∷ calls) = done ∷ run (stop q) calls
