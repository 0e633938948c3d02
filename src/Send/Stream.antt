-- ===== src/Send/Stream.antt =====
-- The stream that sends heaps one after the other: stream_impl_base and stream_impl of
-- src/send_stream.cpp and include/spead2/send_stream.h.
use spead.Prelude.{
  ℕ, zero, suc, ◌+◌, ◌-◌, ◌*◌, ◌%◌, ◌^◌, Bool, true, false, ◌&&◌, ◌||◌, not, List, [], ◌∷◌, ◌++◌,
  Option, none, some, ltb, leb, ◌==◌, if◌then◌else◌, length, get_elem?, set, replicate, max,
  bit_and,
}
use spead.Common.RingBuffer.{slot_at}
use spead.Send.Heap.{Heap}
use spead.Send.Generator.{Generator}
mod Queue
pub mod Steps
pub mod Invariant
pub mod Preserved
pub mod Submitted
pub mod Safety
mod Runs
pub mod Loaded
pub mod Packet
pub mod Begun
mod Batch
pub mod Rounds
pub mod Settle
pub mod Load
pub mod Machine

-- The error codes that a handler is given; `failed` has those of the transport.
pub data Code : Type 0 where
  success would_block invalid_argument : Code
  failed : ℕ → Code

abbrev pub is_error : Code → Bool
is_error success = false
is_error would_block = true
is_error invalid_argument = true
is_error (failed n) = true

-- stream_config. The rates are floating-point numbers: the times that so many bytes take at the burst
-- rate and at the average rate, rounded to ticks of the clock, are functions.
pub record Config : Type 0 where
  pub max_packet_size : ℕ
  pub burst_size : ℕ
  pub max_heaps : ℕ
  pub wait_burst : ℕ → ℕ
  pub wait : ℕ → ℕ

-- `none` is std::invalid_argument.
pub set_max_heaps : Config → ℕ → Option Config
set_max_heaps c max_heaps =
    if max_heaps == 0 then none else some (record c { max_heaps = max_heaps })

-- The heap is referenced and not changed while it is queued; a handler is known by a number.
pub record QueueItem : Type 0 where
  pub heap : Heap
  pub cnt : ℕ
  pub handler : ℕ
  pub bytes_sent : ℕ

-- `item` is the slot that the pointer points to.
pub record TransmitPacket : Type 0 where
  pub buffers : List (List ℕ)
  pub size : ℕ
  pub last : Bool
  pub item : ℕ
  pub result : Code

pub data State : Type 0 where
  queued sending sleeping empty : State

-- A call of a handler that is posted to the I/O service.
pub record Completion : Type 0 where
  pub handler : ℕ
  pub result : Code
  pub bytes_transferred : ℕ

-- current_packets holds the first n_current_packets; a slot of `queue` is `none` while no item is
-- constructed in it; points in time are numbers of ticks.
pub record StreamImpl : Type 0 where
  pub current_packets : List TransmitPacket
  pub max_current_packets : ℕ
  pub config : Config
  pub queue : List (Option QueueItem)
  pub queue_head : ℕ
  pub queue_tail : ℕ
  pub active : ℕ
  pub state : State
  pub send_time_burst : ℕ
  pub send_time : ℕ
  pub rate_bytes : ℕ
  pub next_cnt : ℕ
  pub step_cnt : ℕ
  pub gen : Option Generator

unfoldable pub stream_impl_base : Config → ℕ → StreamImpl
stream_impl_base config max_current_packets = record {
  current_packets = [];
  max_current_packets = max_current_packets;
  config = config;
  queue = replicate (config.max_heaps + 1) none;
  queue_head = 0;
  queue_tail = 0;
  active = 0;
  state = empty;
  send_time_burst = 0;
  send_time = 0;
  rate_bytes = 0;
  next_cnt = 1;
  step_cnt = 1;
  gen = none;
}

abbrev pub next_queue_slot : StreamImpl → ℕ → ℕ
next_queue_slot s cur = if cur + 1 == s.config.max_heaps + 1 then 0 else cur + 1

abbrev pub next_active : StreamImpl → StreamImpl
next_active s = record s { active = next_queue_slot s s.active; gen = none }

-- `none` in what follows: an assert fails, or an object is used that was not constructed.
unfoldable pub post_handler : Code → StreamImpl → Option (Completion × StreamImpl)
post_handler result s = elim (slot_at s.queue s.queue_head) [
  | none ↦ none
  | some front ↦
      let s' = if s.active == s.queue_head then next_active s else s in
      if s.active == s.queue_head && not (is_error result)
      then none
      else some (
        record { handler = front.handler; result = result; bytes_transferred = front.bytes_sent },
        record s' {
          queue = set s'.queue s'.queue_head none;
          queue_head = next_queue_slot s' s'.queue_head;
        },
      )
]

unfoldable pub must_sleep : StreamImpl → Bool
must_sleep s = leb s.config.burst_size s.rate_bytes

-- `item.item->bytes_sent += item.size`. bytes_sent has 64 bits.
unfoldable pub note_sent : ℕ → ℕ → StreamImpl → Option StreamImpl
note_sent idx size s = elim (slot_at s.queue idx) [
  | none ↦ none
  | some it ↦ some (record s {
    queue = set s.queue idx (some (record it { bytes_sent = it.bytes_sent + size }));
  })
]

abbrev pub one_completion : Option (Completion × StreamImpl) → Option (List Completion × StreamImpl)
one_completion none = none
one_completion (some (c, s)) = some (c ∷ [], s)

-- The body of the loop of process_results.
unfoldable pub process_packet : TransmitPacket → StreamImpl → Option (List Completion × StreamImpl)
unfolding post_handler note_sent
process_packet p s =
    if not (p.item == s.queue_head)
    then some ([], s)
    else if is_error p.result
    then one_completion (post_handler p.result s)
    else elim (note_sent p.item p.size s) [
      | none ↦ none
      | some s' ↦ if p.last then one_completion (post_handler p.result s') else some ([], s')
    ]

-- The loop.
unfoldable pub process_packets :
    List TransmitPacket → StreamImpl → Option (List Completion × StreamImpl)
unfolding process_packet
process_packets [] s = some ([], s)
process_packets (p ∷ packets) s = elim (process_packet p s) [
  | none ↦ none
  | some (posted, s') ↦ elim (process_packets packets s') [
    | none ↦ none
    | some (later, s'') ↦ some (posted ++ later, s'')
  ]
]

unfoldable pub process_results : StreamImpl → Option (List Completion × StreamImpl)
unfolding process_packets
process_results s = elim (process_packets s.current_packets s) [
  | none ↦ none
  | some (posted, s') ↦ some (posted, record s' { current_packets = [] })
]

-- target_time, and the stream after it.
unfoldable pub update_send_times : ℕ → StreamImpl → ℕ × StreamImpl
update_send_times now s =
    let send_time_burst = s.send_time_burst + s.config.wait_burst s.rate_bytes in
    let send_time = s.send_time + s.config.wait s.rate_bytes in
    let target_time = max send_time_burst send_time in
    (
      target_time,
      record s { send_time_burst = max now target_time; send_time = send_time; rate_bytes = 0 },
    )

-- A time before the clock's epoch, which `-` makes 0, is not the greater one either.
unfoldable pub update_send_time_empty : ℕ → StreamImpl → StreamImpl
update_send_time_empty now s = record s {
  send_time = max s.send_time (now - s.config.wait s.rate_bytes);
}
