-- ===== src/Send/Stream/Runs.antt =====
-- A stream that sends a concrete heap.
use spead.Prelude.{
  ℕ, ◌≡◌, ◌≢◌, ◌&&◌, refl, true, false, List, [], ◌∷◌, ◌++◌, Option, none, some, ltb, if◌then◌else◌,
  arith,
}
use spead.Common.RingBuffer.Slots.{Represents, make_base-Represents, Represents-marks}
use spead.Common.RingBuffer.{make_base}
use spead.Send.Heap.{Heap, inline_item, buffer_item, use_immediate}
use spead.Send.Generator.{
  sum_payload, make_packet, restart_pointers, emit_payload, emit_pointers, pointer_bytes,
  prefix_bytes, concat, packet_generator, has_next_packet, next_packet,
}
use spead.Send.Stream.{
  Config, Code, success, failed, would_block, invalid_argument, QueueItem, Completion, StreamImpl,
  stream_impl_base, post_handler, must_sleep, note_sent, process_packet, process_packets,
  process_results, update_send_times, update_send_time_empty,
}
use spead.Send.Stream.Load.{
  generator_for, put_packet, load_packet, load_more, load_packets, start_sending,
}
use spead.Send.Stream.Machine.{
  Next, do_next, settle, choose, schedule, is_empty, flush_returns, Sent, async_send_heap, enqueue,
  set_results, load,
}
use spead.Send.Stream.Queue.{ring}
use spead.Send.Stream.Batch.{handlers, called}
use spead.Send.Stream.Loaded.{Sendable}
use spead.Send.Stream.Steps.{
  at_rest, due, loading, System, fresh_system, submitted, submit, Reach, here, after,
}
use spead.Send.Stream.Safety.{
  in_order, never_stuck, flush_lem, no_burst, in_range, async_send_heap_lem,
}

abbrev config : Config
config = record {
  max_packet_size = 64;
  burst_size = 1000;
  max_heaps = 2;
  wait_burst = λ n. n;
  wait = λ n. n;
}

abbrev a_heap : Heap
a_heap = record {
  heap_address_bits = 40;
  repeat_pointers = false;
  items = inline_item 0x1000 7 ∷ buffer_item 0x1001 (1 ∷ 2 ∷ 3 ∷ []) false ∷ [];
}

Sendable-a_heap : Sendable 64 a_heap
Sendable-a_heap = record {
  flavour = record { positive = omega arith; below = omega arith; whole = refl };
  fit = record { large = omega arith; whole = refl; room = λ again. absurd cc };
}

abbrev start : System
start = fresh_system config 3

abbrev one_heap : System
one_heap = submitted start 7 (async_send_heap a_heap 7 none start.stream)

Reach-one_heap : Reach start one_heap
unfolding stream_impl_base
Reach-one_heap = after here (submit start a_heap 7 none Sendable-a_heap)

in_order_example :
    (items : List QueueItem) × Represents (ring one_heap.stream) items
    × (one_heap.accepted ≡ called one_heap.completed ++ handlers items)
in_order_example = in_order config 3 (omega arith) (omega arith) one_heap Reach-one_heap

never_stuck_example :
    (one_heap.phase ≡ due
      → (empty_now now : ℕ)
      → (result : List Completion × Next × StreamImpl) × (do_next empty_now now one_heap.stream
          ≡ some result))
    × ((tail : ℕ)
        → one_heap.phase ≡ loading tail
        → (s : StreamImpl) × (start_sending tail one_heap.stream ≡ some s))
never_stuck_example = never_stuck config 3 (omega arith) (omega arith) one_heap Reach-one_heap

flush_lem_example :
    (flush_returns one_heap.stream ≡ true
      → (one_heap.phase ≡ at_rest) × (one_heap.accepted ≡ called one_heap.completed))
    × (flush_returns one_heap.stream ≡ false → one_heap.phase ≢ at_rest)
flush_lem_example = flush_lem config 3 (omega arith) (omega arith) one_heap Reach-one_heap

no_burst_example : start_sending 1 (stream_impl_base (record config { burst_size = 0 }) 3) ≡ none
unfolding stream_impl_base
no_burst_example = no_burst 1 (stream_impl_base (record config { burst_size = 0 }) 3) refl

-- What is posted by a run of do_next, the loading, a transmission with these results, and do_next
-- again; and whether the stream is empty then.
abbrev second : List Code → Option StreamImpl → Option (List Completion × Next × StreamImpl)
second results none = none
second results (some s) =
    do_next 0 0 (record s { current_packets = set_results results s.current_packets })

abbrev first :
    List Code
    → Option (List Completion × Next × StreamImpl)
    → Option (List Completion × Next × StreamImpl)
first results none = none
first results (some (posted, load tail, s)) = second results (start_sending tail s)
first results (some (posted, other, s)) = none

abbrev posted_of : Option (List Completion × Next × StreamImpl) → List Completion
posted_of none = []
posted_of (some (posted, next, s)) = posted

abbrev sent_with : List Code → List Completion
sent_with results = posted_of (first results (do_next 0 0 one_heap.stream))

-- Its two packets, of 113 bytes, reach the transport, and the handler is told so.
sent_well :
    sent_with (success ∷ success ∷ [])
    ≡ record { handler = 7; result = success; bytes_transferred = 113 } ∷ []
unfolding do_next settle choose schedule update_send_times update_send_time_empty must_sleep
    process_results process_packets process_packet post_handler note_sent load_packets load_more
    load_packet generator_for put_packet start_sending set_results async_send_heap enqueue
    stream_impl_base packet_generator has_next_packet next_packet make_packet restart_pointers
    emit_payload emit_pointers pointer_bytes prefix_bytes concat sum_payload use_immediate
sent_well = refl

-- The first fails, and the second is passed over.
sent_badly :
    sent_with (failed 3 ∷ success ∷ [])
    ≡ record { handler = 7; result = failed 3; bytes_transferred = 0 } ∷ []
unfolding do_next settle choose schedule update_send_times update_send_time_empty must_sleep
    process_results process_packets process_packet post_handler note_sent load_packets load_more
    load_packet generator_for put_packet start_sending set_results async_send_heap enqueue
    stream_impl_base packet_generator has_next_packet next_packet make_packet restart_pointers
    emit_payload emit_pointers pointer_bytes prefix_bytes concat sum_payload use_immediate
sent_badly = refl

Represents-start : Represents (ring start.stream) []
unfolding stream_impl_base make_base
Represents-start = Represents-marks (make_base 2) [] false 0 (make_base-Represents 2)

abbrev answer : Sent × StreamImpl
answer = async_send_heap a_heap 7 (some 5) start.stream

async_send_heap_lem_example :
    (answer.0.accepted ≡ (ltb 0 2 && in_range a_heap (some 5)))
    × (answer.0.accepted ≡ false
        → (answer.1 ≡ start.stream)
          × (answer.0.dispatched ≡ false)
          × (answer.0.posted
              ≡ record {
                handler = 7;
                result = if ltb 0 2 then invalid_argument else would_block;
                bytes_transferred = 0;
              }
                ∷ []))
    × (answer.0.accepted ≡ true
        → (answer.0.posted ≡ [])
          × (answer.0.dispatched ≡ is_empty start.stream.state)
          × (is_empty answer.1.state ≡ false))
unfolding stream_impl_base
async_send_heap_lem_example = async_send_heap_lem a_heap 7 (some 5) start.stream [] Represents-start
