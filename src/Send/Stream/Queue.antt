-- ===== src/Send/Stream/Queue.antt =====
-- The circular queue of heaps of stream_impl_base, seen as the sequence of its items.
use spead.Prelude.{
  ℕ, zero, suc, ◌+◌, ◌<◌, ◌≡◌, ◌≢◌, refl, ap, ◌∙◌, true, false, List, ◌∷◌, none, some, ◌==◌, length,
  get_elem?, set, length-set, eq→==, ne→==, arith,
}
use spead.Common.RingBuffer.{Base, next, slot_at}
use spead.Common.RingBuffer.Slots.{
  Represents, place, place_injective, popped-Represents, head-value, slot_at-set_self,
  slot_at-set_ne, place-zero, next-lt,
}
use spead.Send.Stream.{
  Code, QueueItem, Completion, StreamImpl, next_queue_slot, next_active, post_handler, note_sent,
  is_error,
}

-- The part of the state that is the queue.
abbrev pub ring : StreamImpl → Base QueueItem
ring s = record {
  storage = s.queue;
  cap = s.config.max_heaps + 1;
  head = s.queue_head;
  stopped = false;
  tail = s.queue_tail;
  stop_position = 0;
}

abbrev pub completion_of : QueueItem → Code → Completion
completion_of it result = record {
  handler = it.handler;
  result = result;
  bytes_transferred = it.bytes_sent;
}

-- After the first item is gone.
abbrev pub without_head : StreamImpl → StreamImpl
without_head s = record s {
  queue = set s.queue s.queue_head none;
  queue_head = next_queue_slot s s.queue_head;
}

module _ (s : StreamImpl) (front : QueueItem) (items : List QueueItem)
    (v : Represents (ring s) (front ∷ items)) where
  head_item : slot_at s.queue s.queue_head ≡ some front
  head_item = head-value (ring s) front items v

  pub post_handler-active :
      (result : Code)
      → s.active ≡ s.queue_head
      → is_error result ≡ true
      → post_handler result s ≡ some (completion_of front result, without_head (next_active s))
  unfolding post_handler
  post_handler-active result here error =
      let test : (s.active == s.queue_head) ≡ true = eq→== s.active s.queue_head here in
      rw (head_item, post_handler) (rw (test, error) refl)

  pub post_handler-other :
      (result : Code)
      → s.active ≢ s.queue_head
      → post_handler result s ≡ some (completion_of front result, without_head s)
  unfolding post_handler
  post_handler-other result elsewhere =
      let test : (s.active == s.queue_head) ≡ false = ne→== s.active s.queue_head elsewhere in
      rw (head_item, post_handler) (rw test refl)

  pub without_head-Represents : Represents (ring (without_head s)) items
  unfolding next
  without_head-Represents = popped-Represents (ring s) front items v

  pub next_head-lt : next (s.config.max_heaps + 1) s.queue_head < s.config.max_heaps + 1
  next_head-lt = next-lt (ring s) front items v

  -- With `size` bytes more to the account of the first item.
  abbrev pub counted : ℕ → QueueItem
  counted size = record front { bytes_sent = front.bytes_sent + size }

  abbrev pub with_sent : ℕ → StreamImpl
  with_sent size = record s { queue = set s.queue s.queue_head (some (counted size)) }

  pub note_sent-head : (size : ℕ) → note_sent s.queue_head size s ≡ some (with_sent size)
  unfolding note_sent
  note_sent-head size = rw (head_item, note_sent) refl

  pub with_sent-Represents : (size : ℕ) → Represents (ring (with_sent size)) (counted size ∷ items)
  with_sent-Represents size =
      let cap = s.config.max_heaps + 1 in
      let first = place-zero (ring s) front items v in
      record {
        slots = length-set s.queue s.queue_head (some (counted size)) ∙ v.slots;
        head_in = v.head_in;
        room = v.room;
        tail_at = v.tail_at;
        filled = λ k h. filled_at k h;
        vacant = λ k h l.
            slot_at-set_ne s.queue s.queue_head (place cap s.queue_head k) (some (counted size))
              (λ e.
                place_injective cap s.queue_head 0 k v.head_in (omega (arith, v.room)) l
                  (omega arith) (first ∙ e))
            ∙ v.vacant k h l;
      }
    where
      filled_at :
          (k : ℕ)
          → k < length (counted size ∷ items)
          → slot_at (with_sent size).queue (place (s.config.max_heaps + 1) s.queue_head k)
            ≡ get_elem? (counted size ∷ items) k
      filled_at zero h =
          ap (slot_at (with_sent size).queue) (place-zero (ring s) front items v)
          ∙ slot_at-set_self s.queue s.queue_head (some (counted size))
              (omega (arith, v.slots, v.head_in))
      filled_at (suc k) h =
          slot_at-set_ne s.queue s.queue_head (place (s.config.max_heaps + 1) s.queue_head (suc k))
            (some (counted size))
            (λ e.
              place_injective (s.config.max_heaps + 1) s.queue_head 0 (suc k) v.head_in
                (omega (arith, v.room)) (omega (arith, v.room)) (omega arith)
                (place-zero (ring s) front items v ∙ e))
          ∙ v.filled (suc k) h
