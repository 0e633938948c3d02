-- ===== src/Send/Stream/Machine.antt =====
-- The state machine of class stream_impl (include/spead2/send_stream.h) and the calls of its users.
use spead.Prelude.{
  ℕ, ◌+◌, ◌-◌, ◌%◌, ◌^◌, Bool, true, false, List, [], ◌∷◌, Option, none, some, ltb, ◌==◌,
  if◌then◌else◌, set, bit_and,
}
use spead.Send.Heap.{Heap}
use spead.Send.Stream.{
  Code, would_block, invalid_argument, QueueItem, TransmitPacket, State, queued, sending, sleeping,
  empty, Completion, StreamImpl, next_queue_slot, must_sleep, process_results, update_send_times,
  update_send_time_empty,
}

-- How do_next goes on when it has released the lock: it waits for the timer, it is done, or it loads
-- packets up to that copy of queue_tail.
pub data Next : Type 0 where
  wait_until : ℕ → Next
  idle : Next
  load : ℕ → Next

-- The rest under the lock, once there is no need to sleep.
unfoldable pub choose : StreamImpl → Next × StreamImpl
choose s =
    if s.queue_head == s.queue_tail
    then (idle, record s { state = empty })
    else (load s.queue_tail, record s { state = sending })

unfoldable pub schedule : ℕ → StreamImpl → Next × StreamImpl
unfolding choose update_send_times must_sleep
schedule now s =
    let (target_time, s') = update_send_times now s in
    if must_sleep s
    then (if ltb now target_time
        then (wait_until target_time, record s' { state = sleeping })
        else choose s')
    else choose s

unfoldable pub settle : ℕ → StreamImpl → Option (List Completion × StreamImpl)
unfolding process_results update_send_time_empty
settle now s = elim s.state [
  | sending ↦ process_results s
  | queued ↦ some ([], update_send_time_empty now s)
  | sleeping ↦ some ([], s)
  | empty ↦ some ([], s)
]

-- do_next under the lock. The clock shows `empty_now` in update_send_time_empty, and `now` after it.
unfoldable pub do_next : ℕ → ℕ → StreamImpl → Option (List Completion × Next × StreamImpl)
unfolding settle schedule
do_next empty_now now s = elim (settle empty_now s) [
  | none ↦ none
  | some (posted, s') ↦
      if s'.active == s'.queue_head
      then (let (next, s'') = schedule now s' in some (posted, next, s''))
      else none
]

-- The packets with the result codes that the transport gives them.
unfoldable pub set_results : List Code → List TransmitPacket → List TransmitPacket
set_results [] packets = packets
set_results (r ∷ results) [] = []
set_results (r ∷ results) (p ∷ packets) = record p { result = r } ∷ set_results results packets

-- What async_send_heap answers: whether the heap is queued, what it posts, and whether it dispatches
-- do_next.
pub record Sent : Type 0 where
  pub accepted : Bool
  pub posted : List Completion
  pub dispatched : Bool

abbrev pub refuse : ℕ → Code → Sent
refuse handler code = record {
  accepted = false;
  posted = record { handler = handler; result = code; bytes_transferred = 0 } ∷ [];
  dispatched = false;
}

abbrev pub is_empty : State → Bool
is_empty empty = true
is_empty queued = false
is_empty sending = false
is_empty sleeping = false

unfoldable pub enqueue : Heap → ℕ → ℕ → StreamImpl → Sent × StreamImpl
enqueue h cnt handler s =
    let item : QueueItem = record { heap = h; cnt = cnt; handler = handler; bytes_sent = 0 } in
    (
      record { accepted = true; posted = []; dispatched = is_empty s.state },
      record s {
        queue = set s.queue s.queue_tail (some item);
        queue_tail = next_queue_slot s s.queue_tail;
        state = if is_empty s.state then queued else s.state;
      },
    )

-- `cnt` is `none` for a negative one.
unfoldable pub async_send_heap : Heap → ℕ → Option ℕ → StreamImpl → Sent × StreamImpl
unfolding enqueue
async_send_heap h handler cnt s =
    let cnt_mask = 2 ^ h.heap_address_bits - 1 in
    if next_queue_slot s s.queue_tail == s.queue_head
    then (refuse handler would_block, s)
    else elim cnt [
      | none ↦
          enqueue h (bit_and s.next_cnt cnt_mask) handler
            (record s { next_cnt = (s.next_cnt + s.step_cnt) % 2 ^ 64 })
      | some cnt ↦
          if ltb cnt_mask cnt then (refuse handler invalid_argument, s) else enqueue h cnt handler s
    ]

-- `none` is std::invalid_argument.
unfoldable pub set_cnt_sequence : ℕ → ℕ → StreamImpl → Option StreamImpl
set_cnt_sequence next step s =
    if step == 0 then none else some (record s { next_cnt = next; step_cnt = step })

-- Whether flush returns now; it waits otherwise.
abbrev pub flush_returns : StreamImpl → Bool
flush_returns s = is_empty s.state
