-- ===== src/Send/Generator/Runs.antt =====
-- The packets of a concrete heap: two inline items, and one of three bytes between them.
use spead.Prelude.{
  ℕ, ◌+◌, ◌≤◌, ◌≡◌, refl, true, false, List, [], ◌∷◌, none, some, length, map, All, arith,
}
use spead.Pointer.{IsFlavour}
use spead.Send.Heap.{Heap, inline_item, buffer_item, use_immediate}
use spead.Send.Generator.{
  Generator, ok, concat, sum_payload, packet_generator, has_next_packet, pointer_bytes,
  emit_pointers, emit_payload, prefix_bytes, restart_pointers, make_packet, next_packet, packets,
}
use spead.Send.Generator.Progress.{sent_payload, sent_pointers}
use spead.Send.Generator.Start.{new_generator}
use spead.Send.Generator.Delivery.{every_pointer}
use spead.Send.Generator.Complete.{IsSize, padded_payload, payload_sent, pointers_sent}

abbrev small_heap : Heap
small_heap = record {
  heap_address_bits = 40;
  repeat_pointers = false;
  items =
      inline_item 0x1000 7 ∷ buffer_item 0x1001 (1 ∷ 2 ∷ 3 ∷ []) false ∷ inline_item 0x1002 9 ∷ [];
}

IsFlavour-small : IsFlavour 40
IsFlavour-small = record { positive = omega arith; below = omega arith; whole = refl }

IsSize-64 : IsSize small_heap 64
IsSize-64 = record { large = omega arith; whole = refl; room = λ again. absurd cc }

payload_sent_example :
    (made : Generator) × (sent : List (List (List ℕ))) × (packet_generator small_heap 5 64
      ≡ ok made)
    × (packets (made.payload_size + 1) made ≡ some sent)
    × All (λ buffers. length (concat buffers) ≤ 64) sent
    × (concat (map sent_payload sent) ≡ padded_payload made)
payload_sent_example = payload_sent small_heap 5 64 IsFlavour-small IsSize-64

pointers_sent_example :
    (made : Generator) × (sent : List (List (List ℕ))) × (packet_generator small_heap 5 64
      ≡ ok made)
    × (packets (made.payload_size + 1) made ≡ some sent)
    × (small_heap.repeat_pointers ≡ false → concat (map sent_pointers sent) ≡ every_pointer made)
    × (small_heap.repeat_pointers ≡ true
        → All (λ buffers. sent_pointers buffers ≡ every_pointer made) sent)
pointers_sent_example = pointers_sent small_heap 5 64 IsFlavour-small IsSize-64

-- With a size that is no multiple of eight, the padding does not fit into its eight bytes, and the
-- assert fails.
odd_size : packets 10 (new_generator small_heap 5 63) ≡ none
unfolding packets has_next_packet next_packet restart_pointers make_packet emit_payload
    emit_pointers pointer_bytes prefix_bytes concat sum_payload use_immediate
odd_size = refl
