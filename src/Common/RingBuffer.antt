-- ===== src/Common/RingBuffer.antt =====
-- The ring buffer with blocking and non-blocking calls: include/spead2/common_ringbuffer.h. The
-- semaphores are counters; a call that would block is `none`.
use spead.Prelude.{
  ℕ, ◌+◌, ◌-◌, Bool, true, false, List, Option, none, some, leb, ◌==◌, if◌then◌else◌, get_elem?,
  set, replicate, ◌||◌,
}
pub mod Slots
pub mod Queue
pub mod Refine
pub mod Threads
mod Runs

-- The three exceptions.
pub data Error : Type 0 where
  ringbuffer_full ringbuffer_empty ringbuffer_stopped : Error

-- ringbuffer_base<T>. A slot of `storage` is `none` while no object is constructed in it.
pub record Base {ℓ} (A : Type ℓ) : Type ℓ where
  pub storage : List (Option A)
  pub cap : ℕ
  pub head : ℕ
  pub stopped : Bool
  pub tail : ℕ
  pub stop_position : ℕ

-- What a call that may throw leaves behind.
pub data Result {ℓ} (A : Type ℓ) : Type ℓ where
  ok : A → Result A
  throws : Error → Result A

unfoldable pub next : ℕ → ℕ → ℕ
next cap idx = if idx + 1 == cap then 0 else idx + 1

module _ {ℓ} {A : Type ℓ} where
  -- *get(idx)
  abbrev pub slot_at : List (Option A) → ℕ → Option A
  slot_at storage idx = elim (get_elem? storage idx) [ none ↦ none | some slot ↦ slot ]

  -- The constructor, with its argument `cap`. Its assert that this is not zero is left out, so that
  -- what is said of every buffer includes one of capacity zero.
  unfoldable pub make_base : ℕ → Base A
  make_base cap = record {
    storage = replicate (cap + 1) none;
    cap = cap + 1;
    head = 0;
    stopped = false;
    tail = 0;
    stop_position = cap + 1;
  }

  pub throw_empty_or_stopped : Base A → Error
  throw_empty_or_stopped r =
      if r.head == r.stop_position then ringbuffer_stopped else ringbuffer_empty

  pub throw_full_or_stopped : Base A → Error
  throw_full_or_stopped r = if r.stopped then ringbuffer_stopped else ringbuffer_full

  pub capacity : Base A → ℕ
  capacity r = r.cap - 1

  pub size : Base A → ℕ
  size r = if leb r.head r.tail then r.tail - r.head else r.tail + r.cap - r.head

  pub emplace_internal : Base A → A → Result (Base A)
  unfolding next
  emplace_internal r value =
      if r.stopped
      then throws ringbuffer_stopped
      else ok (record r { storage = set r.storage r.tail (some value); tail = next r.cap r.tail })

  -- The value is `none` if the slot at `head` holds no object, which the source does not check.
  pub pop_internal : Base A → Result (Option A × Base A)
  unfolding next
  pop_internal r =
      if r.stop_position == r.head
      then throws ringbuffer_stopped
      else ok (
        slot_at r.storage r.head,
        record r { storage = set r.storage r.head none; head = next r.cap r.head },
      )

  -- The block of stop_internal under tail_mutex; `none` is its early return, otherwise saved_tail.
  pub stop_tail : Base A → Option ℕ × Base A
  stop_tail r = if r.stopped then (none, r) else (some r.tail, record r { stopped = true })

  -- The block under head_mutex.
  pub stop_head : Base A → ℕ → Base A
  stop_head r saved_tail = record r { stop_position = saved_tail }

  pub stop_internal : Base A → Base A
  unfolding stop_tail stop_head
  stop_internal r =
      let (saved_tail, r') = stop_tail r in elim saved_tail [ none ↦ r' | some t ↦ stop_head r' t ]

-- ringbuffer<T, DataSemaphore, SpaceSemaphore>: data_sem and space_sem are the counts.
pub record Ringbuffer {ℓ} (A : Type ℓ) : Type ℓ where
  pub base : Base A
  pub data_sem : ℕ
  pub space_sem : ℕ

module _ {ℓ} {A : Type ℓ} where
  pub make : ℕ → Ringbuffer A
  unfolding make_base
  make cap = record { base = make_base cap; data_sem = 0; space_sem = cap }

  -- The end of push, emplace, try_push and try_emplace, once space_sem has been taken.
  pub finish_push : Ringbuffer A → A → Result (Unit {0}) × Ringbuffer A
  unfolding emplace_internal
  finish_push r value = elim (emplace_internal r.base value) [
    | ok base ↦ (ok tt, record r { base = base; data_sem = r.data_sem + 1 })
    | throws e ↦ (throws e, record r { space_sem = r.space_sem + 1 })
  ]

  -- The end of pop and try_pop, once data_sem has been taken.
  pub finish_pop : Ringbuffer A → Result (Option A) × Ringbuffer A
  unfolding pop_internal
  finish_pop r = elim (pop_internal r.base) [
    | ok (value, base) ↦ (ok value, record r { base = base; space_sem = r.space_sem + 1 })
    | throws e ↦ (throws e, record r { data_sem = r.data_sem + 1 })
  ]

  abbrev take_space : Ringbuffer A → Ringbuffer A
  take_space r = record r { space_sem = r.space_sem - 1 }

  abbrev take_data : Ringbuffer A → Ringbuffer A
  take_data r = record r { data_sem = r.data_sem - 1 }

  -- try_push, and try_emplace with the constructed value. `interrupted` says that a signal
  -- interrupts try_get, which then returns -1 and takes nothing.
  pub try_push : Bool → Ringbuffer A → A → Result (Unit {0}) × Ringbuffer A
  unfolding finish_push throw_full_or_stopped
  try_push interrupted r value =
      if interrupted || r.space_sem == 0
      then (throws (throw_full_or_stopped r.base), r)
      else finish_push (take_space r) value

  pub try_pop : Bool → Ringbuffer A → Result (Option A) × Ringbuffer A
  unfolding finish_pop throw_empty_or_stopped
  try_pop interrupted r =
      if interrupted || r.data_sem == 0
      then (throws (throw_empty_or_stopped r.base), r)
      else finish_pop (take_data r)

  -- push, and emplace with the constructed value; `none` is a wait on space_sem.
  pub push : Ringbuffer A → A → Option (Result (Unit {0}) × Ringbuffer A)
  unfolding finish_push
  push r value = if r.space_sem == 0 then none else some (finish_push (take_space r) value)

  pub pop : Ringbuffer A → Option (Result (Option A) × Ringbuffer A)
  unfolding finish_pop
  pop r = if r.data_sem == 0 then none else some (finish_pop (take_data r))

  pub stop : Ringbuffer A → Ringbuffer A
  unfolding stop_internal
  stop r = record {
    base = stop_internal r.base;
    space_sem = r.space_sem + 1;
    data_sem = r.data_sem + 1;
  }
