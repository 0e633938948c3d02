-- ===== src/Recv/Heap/Runs.antt =====
-- A heap of two packets, frozen whole and incomplete, and heaps with stream control items.
use spead.Prelude.{
  ℕ, ◌≡◌, refl, true, false, ◌⊎◌, inr, List, [], ◌∷◌, some, none, All, arith, length, get_elem?,
}
use spead.Bytes.{load_bytes, load_be}
use spead.Pointer.{IsFlavour, get_id, get_address, get_immediate, is_immediate, stream_ctrl_id}
use spead.Recv.Packet.{PacketHeader}
use spead.Recv.PointerStore.{contains, was_seen, spill, append, store}
use spead.Recv.Ranges.{
  join_next, overlaps_next, insert_first, insert_after, add_after, add_payload_range,
}
use spead.Recv.LiveHeap.{
  live_heap, is_inconsistent, accept, note_length, payload_reserve, add_pointers, add_pointer,
  copy_payload, add_packet, is_contiguous, reset,
}
use spead.Recv.LiveHeap.Effects.{IsSound}
use spead.Recv.LiveHeap.Addresses.{IsSmall}
use spead.Recv.LiveHeap.History.{offer, offer_all, start}
use spead.Recv.Heap.{
  Item, HeapBase, IncompleteHeap, read, load_bytes_be, heap, incomplete_heap, is_ctrl_item,
}
use spead.Recv.Heap.Written.{received, IsReadable, IsImmediate, heap_lem, incomplete_heap_lem}
use spead.Recv.Heap.Control.{HasControl, IsLoadable, Some, is_ctrl_item_lem, is_ctrl_item-oversized}

-- Three bytes and an item with ID 9 that is in the payload, then the other two bytes.
abbrev first_packet : PacketHeader
first_packet = record {
  heap_address_bits = 40;
  n_items = 1;
  heap_cnt = 7;
  heap_length = some 5;
  payload_offset = 0;
  payload_length = 3;
  pointers = 0 ∷ 0 ∷ 9 ∷ 0 ∷ 0 ∷ 0 ∷ 0 ∷ 1 ∷ 65 ∷ 66 ∷ 67 ∷ [];
  payload = 65 ∷ 66 ∷ 67 ∷ [];
}

abbrev second_packet : PacketHeader
second_packet = record {
  heap_address_bits = 40;
  n_items = 0;
  heap_cnt = 7;
  heap_length = none;
  payload_offset = 3;
  payload_length = 2;
  pointers = 68 ∷ 69 ∷ [];
  payload = 68 ∷ 69 ∷ [];
}

abbrev both : List PacketHeader
both = second_packet ∷ first_packet ∷ []

flavour_40-IsFlavour : IsFlavour 40
flavour_40-IsFlavour = record { positive = omega arith; below = omega arith; whole = omega arith }

both-IsSound : All IsSound both
both-IsSound = (
  record { in_heap = tt; readable = omega arith },
  (record { in_heap = omega arith; readable = omega arith }, tt),
)

both-IsSmall : All (IsSmall 40) both
both-IsSmall = (
  record { length_small = tt; last_small = omega arith },
  (record { length_small = omega arith; last_small = omega arith }, tt),
)

both-contiguous : is_contiguous (received first_packet 0 both) ≡ true
unfolding is_contiguous offer_all offer start add_packet is_inconsistent accept note_length
    payload_reserve add_pointers add_pointer copy_payload live_heap add_payload_range insert_first
    insert_after add_after join_next overlaps_next get_id get_address get_immediate is_immediate
    load_be load_bytes store was_seen contains spill append
both-contiguous = refl

heap_lem_example :
    let h = received first_packet 0 both in
    (frozen : HeapBase) × (heap h ≡ some (frozen, reset h))
    × (frozen.cnt ≡ h.cnt)
    × (frozen.payload ≡ some h.payload)
    × All (IsReadable h) frozen.items
heap_lem_example =
    heap_lem first_packet 0 both flavour_40-IsFlavour both-IsSound both-IsSmall both-contiguous

-- Only the first packet has come.
incomplete_heap_lem_example :
    let h = received first_packet 0 (first_packet ∷ []) in
    (out : IncompleteHeap) × (incomplete_heap h true false ≡ some (out, reset h))
    × All IsImmediate out.base.items
    × (out.heap_length ≡ h.heap_length)
    × (out.received_length ≡ h.received_length)
    × (out.base.payload ≡ some h.payload)
    × (out.payload_ranges ≡ [])
incomplete_heap_lem_example =
    incomplete_heap_lem first_packet 0 (first_packet ∷ []) true false flavour_40-IsFlavour
      both-IsSmall.1

-- A frozen heap with one item with that ID and those bytes.
abbrev one_item : ℕ → List ℕ → Item
one_item id bytes = record {
  id = id;
  ptr = get_elem? bytes;
  length = length bytes;
  immediate_value = none;
  is_immediate = false;
}

abbrev with_item : Item → HeapBase
with_item it = record {
  cnt = 1;
  flavour = record { heap_address_bits = 40; bug_compat = 0 };
  items = it ∷ [];
  payload = none;
}

abbrev stop_item : Item
stop_item = one_item stream_ctrl_id (0 ∷ 0 ∷ 0 ∷ 0 ∷ 2 ∷ [])

stop_item-IsLoadable : All IsLoadable (stop_item ∷ [])
unfolding load_bytes_be read load_bytes
stop_item-IsLoadable = (inr (2, refl), tt)

is_ctrl_item_lem_example :
    ((is_ctrl_item (with_item stop_item) 2 ≡ some true) × Some (HasControl 2) (stop_item ∷ []))
    ⊎ ((is_ctrl_item (with_item stop_item) 2 ≡ some false)
        × All (λ it. ¬ HasControl 2 it) (stop_item ∷ []))
is_ctrl_item_lem_example = is_ctrl_item_lem (with_item stop_item) 2 stop_item-IsLoadable

abbrev long_item : Item
long_item = one_item stream_ctrl_id (0 ∷ 0 ∷ 0 ∷ 0 ∷ 0 ∷ 0 ∷ 0 ∷ 0 ∷ 2 ∷ [])

is_ctrl_item-oversized_example : is_ctrl_item (with_item long_item) 2 ≡ none
is_ctrl_item-oversized_example =
    is_ctrl_item-oversized (with_item long_item) 2 [] [] long_item refl tt refl (omega arith)
