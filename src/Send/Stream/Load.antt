-- ===== src/Send/Stream/Load.antt =====
-- How stream_impl_base::load_packets of src/send_stream.cpp makes packets of the queued heaps.
use spead.Prelude.{
  ℕ, zero, suc, ◌+◌, true, false, ◌||◌, not, List, [], ◌∷◌, ◌++◌, Option, none, some, ◌==◌,
  if◌then◌else◌, length,
}
use spead.Common.RingBuffer.{slot_at}
use spead.Send.Generator.{Generator, ok, throws, packet_generator, next_packet, has_next_packet}
use spead.Send.Stream.{success, QueueItem, TransmitPacket, StreamImpl, next_active, must_sleep}

-- The packet generator for the active heap: the one at hand, or a new one. `none` is an exception of
-- its constructor.
unfoldable pub generator_for : StreamImpl → QueueItem → Option Generator
generator_for s cur = elim s.gen [
  | some g ↦ some g
  | none ↦ elim (packet_generator cur.heap cur.cnt s.config.max_packet_size) [
    | throws e ↦ none
    | ok g ↦ some g
  ]
]

abbrev pub sum_sizes : List (List ℕ) → ℕ
sum_sizes [] = 0
sum_sizes (b ∷ buffers) = length b + sum_sizes buffers

-- The body of the loop of load_packets after the generator is there, with the packet that it made and
-- the generator after it.
unfoldable pub put_packet : List (List ℕ) → Generator → StreamImpl → StreamImpl
put_packet buffers g s =
    let size = sum_sizes buffers in
    let last = not (has_next_packet g) in
    let packet : TransmitPacket = record {
      buffers = buffers;
      size = size;
      last = last;
      item = s.active;
      result = success;
    } in
    let s' = record s {
      current_packets = s.current_packets ++ packet ∷ [];
      rate_bytes = s.rate_bytes + size;
      gen = some g;
    } in
    if last then next_active s' else s'

unfoldable pub load_packet : StreamImpl → Option StreamImpl
unfolding generator_for put_packet
load_packet s = elim (slot_at s.queue s.active) [
  | none ↦ none
  | some cur ↦ elim (generator_for s cur) [
    | none ↦ none
    | some g ↦
        if has_next_packet g
        then elim (next_packet g) [
          | none ↦ none
          | some (buffers, g') ↦ some (put_packet buffers g' s)
        ]
        else none
  ]
]

-- The loop of load_packets, with `n` packets of current_packets still free.
unfoldable pub load_more : ℕ → ℕ → StreamImpl → Option StreamImpl
unfolding load_packet must_sleep
load_more tail zero s = some s
load_more tail (suc n) s = elim (must_sleep s || s.active == tail) [
  | true ↦ some s
  | false ↦ elim (load_packet s) [ none ↦ none | some s' ↦ load_more tail n s' ]
]

unfoldable pub load_packets : ℕ → StreamImpl → Option StreamImpl
unfolding load_more
load_packets tail s = load_more tail s.max_current_packets (record s { current_packets = [] })

-- What do_next does without the lock, up to the call of async_send_packets: `assert(n_current_packets
-- > 0)` included.
unfoldable pub start_sending : ℕ → StreamImpl → Option StreamImpl
unfolding load_packets
start_sending tail s = elim (load_packets tail s) [
  | none ↦ none
  | some s' ↦ elim s'.current_packets [ [] ↦ none | p ∷ packets ↦ some s' ]
]
