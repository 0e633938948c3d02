-- ===== src/Recv/LiveHeap/Runs.antt =====
-- A heap of five bytes that comes in two packets, with the first of them once more.
use spead.Prelude.{ℕ, ◌≡◌, refl, true, List, [], ◌∷◌, none, some, arith, All}
use spead.Recv.Packet.{PacketHeader}
use spead.Recv.LiveHeap.{
  LiveHeap, live_heap, adapt_memcpy, is_inconsistent, accept, note_length, payload_reserve,
  add_pointers, add_pointer, copy_payload, add_packet, is_complete,
}
use spead.Bytes.{load_bytes, load_be}
use spead.Pointer.{get_id, get_address, get_immediate, is_immediate}
use spead.Recv.Ranges.{
  join_next, overlaps_next, insert_first, insert_after, add_after, add_payload_range,
}
use spead.Recv.PointerStore.{contains, was_seen, spill, append, store}
use spead.Recv.LiveHeap.Effects.{IsSound}
use spead.Recv.LiveHeap.Invariant.{IsValid, live_heap-IsValid, add_packet-IsValid}
use spead.Recv.LiveHeap.History.{offer, offer_all, start, sent_byte, complete-payload}

abbrev first_packet : PacketHeader
first_packet = record {
  heap_address_bits = 40;
  n_items = 1;
  heap_cnt = 7;
  heap_length = some 5;
  payload_offset = 0;
  payload_length = 3;
  pointers = 0x90 ∷ 0 ∷ 0 ∷ 0 ∷ 0 ∷ 0 ∷ 0 ∷ 9 ∷ 65 ∷ 66 ∷ 67 ∷ [];
  payload = 65 ∷ 66 ∷ 67 ∷ [];
}

abbrev second_packet : PacketHeader
second_packet = record {
  heap_address_bits = 40;
  n_items = 0;
  heap_cnt = 7;
  heap_length = none;
  payload_offset = 3;
  payload_length = 2;
  pointers = 68 ∷ 69 ∷ [];
  payload = 68 ∷ 69 ∷ [];
}

first_packet-IsSound : IsSound first_packet
first_packet-IsSound = record { in_heap = omega arith; readable = omega arith }

second_packet-IsSound : IsSound second_packet
second_packet-IsSound = record { in_heap = tt; readable = omega arith }

abbrev arrivals : List PacketHeader
arrivals = second_packet ∷ first_packet ∷ second_packet ∷ []

arrivals-IsSound : All IsSound arrivals
arrivals-IsSound = (second_packet-IsSound, (first_packet-IsSound, (second_packet-IsSound, tt)))

abbrev final : LiveHeap
final = (offer_all (start first_packet 0) arrivals).heap

final-is_complete : is_complete final ≡ true
unfolding offer offer_all start live_heap add_packet is_inconsistent accept note_length
    payload_reserve add_pointers add_pointer copy_payload is_complete add_payload_range insert_first
    add_after insert_after join_next overlaps_next was_seen spill append store contains load_bytes
    load_be get_id get_address get_immediate is_immediate
final-is_complete = refl

final-heap_length : final.heap_length ≡ some 5
unfolding offer offer_all start live_heap add_packet is_inconsistent accept note_length
    payload_reserve add_pointers add_pointer copy_payload is_complete add_payload_range insert_first
    add_after insert_after join_next overlaps_next was_seen spill append store contains load_bytes
    load_be get_id get_address get_immediate is_immediate
final-heap_length = refl

complete-payload_example :
    (b : ℕ) × (final.payload 4 ≡ some b)
    × (sent_byte (offer_all (start first_packet 0) arrivals).taken 4 ≡ some b)
complete-payload_example =
    complete-payload first_packet 0 arrivals 5 arrivals-IsSound final-is_complete final-heap_length
      4 (omega arith)

add_packet-IsValid_example :
    IsValid (add_packet (live_heap first_packet 0) first_packet adapt_memcpy).1
add_packet-IsValid_example =
    add_packet-IsValid (live_heap first_packet 0) first_packet adapt_memcpy
      (live_heap-IsValid first_packet 0) first_packet-IsSound
