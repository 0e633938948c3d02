-- ===== src/Recv/Descriptor.antt =====
-- Descriptors in a received heap: heap::to_descriptor and heap::get_descriptors of
-- src/recv_heap.cpp. `none` is a failed assert or a read of a byte that was never written.
use spead.Prelude.{
  ℕ, zero, suc, ◌+◌, ◌-◌, ◌/◌, Bool, true, false, not, List, [], ◌∷◌, ◌++◌, Option, none, some, ltb,
  ◌==◌, if◌then◌else◌, take, drop, length,
}
use spead.Bytes.{load_bytes}
use spead.Descriptor.{
  Field, Descriptor, empty_descriptor, has_bits, field_size, shape_size, variable_tag,
  descriptor_id, descriptor_name_id, descriptor_description_id, descriptor_shape_id,
  descriptor_format_id, descriptor_id_id, descriptor_dtype_id,
}
use spead.Common.Flavour.{Flavour}
use spead.Recv.LiveHeap.{LiveHeap, Memory, adapt_memcpy, is_contiguous}
use spead.Recv.Heap.{Item, HeapBase, read, load_bytes_be, heap}
use spead.Recv.Stream.{StreamBase, stream_base}
use spead.Recv.Stream.Packets.{
  AddPacketState, add_packet_state, mem_to_stream, flush_unlocked, stop,
}
mod Runs

-- The loops over the fields and over the dimensions: `n` of them are whole in the bytes.
unfoldable pub parse_format : ℕ → ℕ → List ℕ → List Field
parse_format size zero bytes = []
parse_format size (suc n) [] = []
parse_format size (suc n) (type ∷ bytes) =
    record { type = type; bits = load_bytes (size - 1) 0 bytes }
    ∷ parse_format size n (drop (size - 1) bytes)

unfoldable pub parse_shape : ℕ → ℕ → ℕ → List ℕ → List (Option ℕ)
unfolding has_bits
parse_shape mask size zero bytes = []
parse_shape mask size (suc n) [] = []
parse_shape mask size (suc n) (tag ∷ bytes) =
    (if has_bits mask tag then none else some (load_bytes (size - 1) 0 bytes))
    ∷ parse_shape mask size n (drop (size - 1) bytes)

-- The change that the bytes of an item make to the descriptor.
abbrev pub with_bytes : Item → (List ℕ → Descriptor) → Option Descriptor
with_bytes it change = elim (read it.ptr it.length) [
  | none ↦ none
  | some bytes ↦ some (change bytes)
]

-- The switch over the ID of an item.
unfoldable pub note_item : Flavour → Descriptor → Item → Option Descriptor
unfolding load_bytes_be
note_item f out it =
    if it.id == descriptor_id_id
    then (if it.is_immediate
        then elim (load_bytes_be it.ptr it.length) [
          | none ↦ none
          | some id ↦ some (record out { id = id })
        ]
        else some out)
    else if it.id == descriptor_name_id
    then with_bytes it (λ bytes. record out { name = bytes })
    else if it.id == descriptor_description_id
    then with_bytes it (λ bytes. record out { description = bytes })
    else if it.id == descriptor_format_id
    then with_bytes it (λ bytes. record out {
      format = out.format ++ parse_format (field_size f) (it.length / field_size f) bytes;
    })
    else if it.id == descriptor_shape_id
    then with_bytes it (λ bytes. record out {
      shape =
          out.shape ++ parse_shape (variable_tag f) (shape_size f) (it.length / shape_size f) bytes;
    })
    else if it.id == descriptor_dtype_id
    then with_bytes it (λ bytes. record out { numpy_header = bytes })
    else some out

unfoldable pub note_items : Flavour → Descriptor → List Item → Option Descriptor
note_items f out [] = some out
note_items f out (it ∷ items) = elim (note_item f out it) [
  | none ↦ none
  | some out' ↦ note_items f out' items
]

-- "DTYPE overrides format and type".
unfoldable pub override_format : Descriptor → Descriptor
override_format d = if length d.numpy_header == 0 then d else record d { shape = []; format = [] }

unfoldable pub to_descriptor : HeapBase → Option Descriptor
to_descriptor h = elim (note_items h.flavour empty_descriptor h.items) [
  | none ↦ none
  | some out ↦ some (override_format out)
]

-- heap_ready of descriptor_stream: what it adds to `descriptors`.
unfoldable pub heap_ready : LiveHeap → Option (List Descriptor)
heap_ready h =
    if is_contiguous h
    then elim (heap h) [
      | none ↦ none
      | some (frozen, left) ↦ elim (to_descriptor frozen) [
        | none ↦ none
        | some d ↦ some (if d.id == 0 then [] else d ∷ [])
      ]
    ]
    else some []

-- The calls of heap_ready, in their order.
unfoldable pub all_ready : List LiveHeap → Option (List Descriptor)
all_ready [] = some []
all_ready (h ∷ hs) = elim (heap_ready h) [
  | none ↦ none
  | some first ↦ elim (all_ready hs) [ none ↦ none | some rest ↦ some (first ++ rest) ]
]

-- The loop of get_descriptors. Each call of mem_to_stream makes an add_packet_state, with the
-- defaults of a stream's configuration.
unfoldable pub stream_items : StreamBase → List Item → Option StreamBase
stream_items s [] = some s
stream_items s (it ∷ items) =
    if it.id == descriptor_id
    then elim (read it.ptr it.length) [
      | none ↦ none
      | some bytes ↦ elim (mem_to_stream s (add_packet_state adapt_memcpy true true) bytes) [
        | none ↦ none
        | some s1 ↦ elim (flush_unlocked s1) [ none ↦ none | some s2 ↦ stream_items s2 items ]
      ]
    ]
    else stream_items s items

unfoldable pub get_descriptors : HeapBase → Option (List Descriptor)
get_descriptors h = elim (stream_base h.flavour.bug_compat 1) [
  | none ↦ none
  | some s ↦ elim (stream_items s h.items) [
    | none ↦ none
    | some s1 ↦ elim (stop s1) [ none ↦ none | some s2 ↦ all_ready s2.ready ]
  ]
]
