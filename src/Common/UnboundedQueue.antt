-- ===== src/Common/UnboundedQueue.antt =====
-- The queue of the in-process transport: include/spead2/common_unbounded_queue.h. Every method holds
-- the mutex from its first look at the queue on.
use spead.Prelude.{
  ℕ, ◌+◌, ◌-◌, Bool, true, false, List, [], ◌∷◌, ◌++◌, Option, none, some, ◌==◌, if◌then◌else◌,
}
use spead.Common.RingBuffer.{Result, ok, throws, ringbuffer_empty, ringbuffer_stopped}
pub mod Refine
mod Runs

-- unbounded_queue: data_sem is the semaphore's count.
pub record UnboundedQueue {ℓ} (A : Type ℓ) : Type ℓ where
  pub data_sem : ℕ
  pub stopped : Bool
  pub items : List A

module _ {ℓ} {A : Type ℓ} where
  pub new_queue : UnboundedQueue A
  new_queue = record { data_sem = 0; stopped = false; items = [] }

  -- push, and emplace with the constructed value
  pub push : UnboundedQueue A → A → Result (Unit {0}) × UnboundedQueue A
  push q value =
      if q.stopped
      then (throws ringbuffer_stopped, q)
      else (ok tt, record q { items = q.items ++ value ∷ []; data_sem = q.data_sem + 1 })

  -- pop_internal, with the semaphore taken; without data the semaphore is put back. The assert that
  -- the queue is then stopped is no part of the result: it holds where the semaphore counts the data
  -- and, after it, a call of stop.
  pub take_item : UnboundedQueue A → Result A × UnboundedQueue A
  take_item q = elim q.items [
    | [] ↦ (throws ringbuffer_stopped, q)
    | x ∷ rest ↦ (ok x, record q { items = rest; data_sem = q.data_sem - 1 })
  ]

  -- What try_pop throws where it has not got the semaphore and there is no data.
  pub throw_empty : UnboundedQueue A → Result A
  throw_empty q = throws (if q.stopped then ringbuffer_stopped else ringbuffer_empty)

  -- try_pop. The list says of each call of try_get in turn whether a signal interrupts it; past its
  -- end none is interrupted, and `none` is a loop that would not end.
  pub try_pop : List Bool → UnboundedQueue A → Option (Result A × UnboundedQueue A)
  unfolding take_item throw_empty
  try_pop [] q =
      if q.data_sem == 0
      then elim q.items [ [] ↦ some (throw_empty q, q) | x ∷ rest ↦ none ]
      else some (take_item q)
  try_pop (false ∷ later) q =
      let rest = try_pop later q in
      if q.data_sem == 0
      then elim q.items [ [] ↦ some (throw_empty q, q) | x ∷ _ ↦ rest ]
      else some (take_item q)
  try_pop (true ∷ later) q =
      let rest = try_pop later q in elim q.items [ [] ↦ some (throw_empty q, q) | x ∷ _ ↦ rest ]

  -- pop; `none` is a wait on the semaphore.
  pub pop : UnboundedQueue A → Option (Result A × UnboundedQueue A)
  unfolding take_item
  pop q = if q.data_sem == 0 then none else some (take_item q)

  pub stop : UnboundedQueue A → UnboundedQueue A
  stop q = if q.stopped then q else record q { stopped = true; data_sem = q.data_sem + 1 }
