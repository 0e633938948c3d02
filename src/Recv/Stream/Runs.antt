-- ===== src/Recv/Stream/Runs.antt =====
-- A stream with room for two heaps, fed with the packets of three.
use spead.Prelude.{
  ℕ, ◌*◌, ◌^◌, ◌≤◌, ◌<◌, ◌≡◌, refl, true, List, [], ◌∷◌, Option, none, some, map, arith,
}
use spead.Bytes.{load_bytes, load_be}
use spead.Pointer.{get_id, get_address, get_immediate, is_immediate}
use spead.Recv.Packet.{PacketHeader}
use spead.Recv.Ranges.{
  join_next, overlaps_next, insert_first, insert_after, add_after, add_payload_range,
}
use spead.Recv.LiveHeap
use spead.Recv.LiveHeap.{
  LiveHeap, live_heap, adapt_memcpy, is_inconsistent, accept, note_length, payload_reserve,
  add_pointers, copy_payload, is_complete,
}
use spead.Recv.Stream.{
  StreamBase, double_until, compute_bucket_count, halve_until, compute_bucket_shift, get_bucket,
  stream_base,
}
use spead.Recv.Stream.Buckets.{bucket_in_range}
use spead.Recv.Stream.Packets.{
  AddPacketState, add_packet_state, unlink_from, unlink_entry, find_heap, next_head, eject,
  new_heap, find_or_new, add_to_heap, add_packet, end_batch, flush_slot, flush_rounds,
  flush_unlocked, stop_received, stop,
}

bucket_in_range_example :
    (bucket_count : ℕ) × (compute_bucket_count 4 ≡ some bucket_count)
    × (4 * 4 ≤ bucket_count)
    × (bucket_count < 2 ^ 64)
    × ((heap_cnt : ℕ) → get_bucket (compute_bucket_shift bucket_count) heap_cnt < bucket_count)
bucket_in_range_example = bucket_in_range 4 (omega arith)

-- Two bytes of a heap of four, from the given place on.
abbrev half : ℕ → ℕ → PacketHeader
half cnt offset = record {
  heap_address_bits = 40;
  n_items = 0;
  heap_cnt = cnt;
  heap_length = some 4;
  payload_offset = offset;
  payload_length = 2;
  pointers = 65 ∷ 66 ∷ [];
  payload = 65 ∷ 66 ∷ [];
}

abbrev add_all : StreamBase → AddPacketState → List PacketHeader → Option StreamBase
add_all s state [] = stop (end_batch state s)
add_all s state (packet ∷ packets) = elim (add_packet s state packet) [
  | none ↦ none
  | some (_, s', state') ↦ add_all s' state' packets
]

abbrev outcome : Option StreamBase → Option (List (ℕ × ℕ) × (ℕ × (ℕ × ℕ)))
outcome none = none
outcome (some s) = some (
  map (λ (h : LiveHeap). (h.cnt, h.received_length)) s.ready,
  (s.stats.heaps, (s.stats.incomplete_heaps_evicted, s.stats.incomplete_heaps_flushed)),
)

-- Heap 1 is complete; heap 2 is evicted by heap 4; heaps 3 and 4 are flushed.
abbrev arrivals : List PacketHeader
arrivals = half 1 0 ∷ half 2 0 ∷ half 1 2 ∷ half 3 0 ∷ half 4 2 ∷ []

received :
    elim (stream_base 0 2) as (λ x. Option (List (ℕ × ℕ) × (ℕ × (ℕ × ℕ)))) [
      | none ↦ none
      | some s ↦ outcome (add_all s (add_packet_state adapt_memcpy true true) arrivals)
    ]
    ≡ some ((1, 4) ∷ (2, 2) ∷ (3, 2) ∷ (4, 2) ∷ [], (4, (1, 2)))
unfolding load_bytes load_be get_id get_address get_immediate is_immediate join_next overlaps_next
    insert_first insert_after add_after add_payload_range live_heap is_inconsistent accept
    note_length payload_reserve add_pointers copy_payload is_complete LiveHeap.add_packet
    double_until compute_bucket_count halve_until compute_bucket_shift get_bucket stream_base
    add_packet_state unlink_from unlink_entry find_heap next_head eject new_heap find_or_new
    add_to_heap add_packet end_batch flush_slot flush_rounds flush_unlocked stop_received stop
received = refl
