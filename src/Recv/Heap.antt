-- ===== src/Recv/Heap.antt =====
-- A heap that has been received and frozen: src/recv_heap.cpp and include/spead2/recv_heap.h.
-- `none` is a failed assert, or a read of a byte that was never written. The storage of the
-- immediates (inline or allocated) is not told apart, and so moving a heap leaves it as it is.
use spead.Prelude.{
  ℕ, zero, suc, ◌+◌, ◌-◌, ◌*◌, ◌/◌, ◌%◌, ◌^◌, Bool, true, false, ◌&&◌, not, List, [], ◌∷◌, ◌++◌,
  Option, none, some, ltb, leb, ◌==◌, if◌then◌else◌, drop, get_elem?, bit_and, bit_or, pos,
}
use spead.Bytes.{load_bytes, store_be}
use spead.Pointer.{
  PointerDecoder, get_id, get_address, get_immediate, is_immediate, item_pointer_size,
  immediate_mask, null_id, stream_ctrl_id, ctrl_stream_stop,
}
use spead.Common.Flavour.{Flavour, Made, made, refused, flavour}
use spead.Recv.Ranges.{Ranges}
use spead.Recv.PointerStore.{stored}
use spead.Recv.LiveHeap.{LiveHeap, Memory, is_contiguous, reset}
pub mod Order
pub mod Bounds
pub mod Written
pub mod Control
mod Runs

-- `ptr` is the memory from that place on. immediate_value is `none` where it is undefined.
pub record Item : Type 0 where
  pub id : ℕ
  pub ptr : Memory
  pub length : ℕ
  pub immediate_value : Option ℕ
  pub is_immediate : Bool

-- The payload is `none` for a null pointer.
pub record HeapBase : Type 0 where
  pub cnt : ℕ
  pub flavour : Flavour
  pub items : List Item
  pub payload : Option Memory

-- `n` bytes of memory.
unfoldable pub read : Memory → ℕ → Option (List ℕ)
read ptr zero = some []
read ptr (suc n) = elim (ptr 0) [
  | none ↦ none
  | some b ↦ elim (read (λ i. ptr (suc i)) n) [ none ↦ none | some bytes ↦ some (b ∷ bytes) ]
]

-- Its `len` is an int, to which the size of an item is narrowed: `n` holds the 32 bits, and an `n` of
-- 2 ^ 31 and more is a negative int, which fails the assert too.
unfoldable pub load_bytes_be : Memory → ℕ → Option ℕ
unfolding read
load_bytes_be ptr len =
    let n = len % 2 ^ 32 in
    if leb n item_pointer_size
    then elim (read ptr n) [ none ↦ none | some bytes ↦ some (load_bytes n 0 bytes) ]
    else none

-- sort_mask, and what compare looks at.
unfoldable pub sort_key : PointerDecoder → ℕ → ℕ
sort_key d pointer = bit_and pointer (bit_or immediate_mask (2 ^ d.heap_address_bits - 1))

-- std::stable_sort: a pointer goes in front of those with the same key that come after it.
unfoldable pub insert_pointer : PointerDecoder → ℕ → List ℕ → List ℕ
unfolding sort_key
insert_pointer d p [] = p ∷ []
insert_pointer d p (q ∷ qs) =
    let later = insert_pointer d p qs in
    if ltb (sort_key d q) (sort_key d p) then q ∷ later else p ∷ q ∷ qs

unfoldable pub stable_sort : PointerDecoder → List ℕ → List ℕ
unfolding insert_pointer
stable_sort d [] = []
stable_sort d (p ∷ ps) = insert_pointer d p (stable_sort d ps)

abbrev pub immediate_item : PointerDecoder → ℕ → Item
immediate_item d pointer =
    let immediate_size = d.heap_address_bits / 8 in
    record {
      id = get_id d pointer;
      ptr = get_elem? (drop (item_pointer_size - immediate_size) (store_be pointer));
      length = immediate_size;
      immediate_value = some (get_immediate d pointer);
      is_immediate = true;
    }

-- `end`, where `rest` are the pointers that follow.
unfoldable pub end_of : LiveHeap → List ℕ → ℕ
end_of h [] = h.min_length
end_of h (next_pointer ∷ rest) =
    if is_immediate next_pointer then h.min_length else get_address h.decoder next_pointer

abbrev pub addressed_item : LiveHeap → ℕ → List ℕ → Item
addressed_item h pointer rest =
    let start = get_address h.decoder pointer in
    record {
      id = get_id h.decoder pointer;
      ptr = λ i. h.payload (start + i);
      length = (end_of h rest + 2 ^ 64 - start) % 2 ^ 64;
      immediate_value = none;
      is_immediate = false;
    }

-- The body of the second loop of load: the items that it adds, at most one.
unfoldable pub load_item : LiveHeap → Bool → ℕ → List ℕ → Option (List Item)
load_item h keep_addressed pointer rest =
    let start = get_address h.decoder pointer in
    if get_id h.decoder pointer == null_id
    then some []
    else if is_immediate pointer
    then some (immediate_item h.decoder pointer ∷ [])
    else if not keep_addressed
    then some []
    else if ltb h.min_length start
    then none
    else if start == end_of h rest
    then some []
    else some (addressed_item h pointer rest ∷ [])

unfoldable pub load_items : LiveHeap → Bool → List ℕ → Option (List Item)
load_items h keep_addressed [] = some []
load_items h keep_addressed (pointer ∷ rest) = elim (load_item h keep_addressed pointer rest) [
  | none ↦ none
  | some added ↦ elim (load_items h keep_addressed rest) [
    | none ↦ none
    | some items ↦ some (added ++ items)
  ]
]

unfoldable pub load : LiveHeap → Bool → Bool → Option HeapBase
unfolding load_items stable_sort stored flavour is_contiguous
load h keep_addressed keep_payload =
    if keep_addressed && not (is_contiguous h)
    then none
    else elim (load_items h keep_addressed (stable_sort h.decoder (stored h.pointers))) [
      | none ↦ none
      | some items ↦
          elim (flavour (pos 4) (pos (8 * item_pointer_size)) (pos h.decoder.heap_address_bits)
            h.bug_compat) [
              | refused why ↦ none
              | made f ↦ some (record {
                cnt = h.cnt;
                flavour = f;
                items = items;
                payload = if keep_payload then some h.payload else none;
              })
            ]
    ]

-- The constructor of heap: the frozen heap, and the live heap as it is left.
unfoldable pub heap : LiveHeap → Option (HeapBase × LiveHeap)
heap h =
    if is_contiguous h
    then elim (load h true true) [ none ↦ none | some frozen ↦ some (frozen, reset h) ]
    else none

pub record IncompleteHeap : Type 0 where
  pub base : HeapBase
  pub heap_length : Option ℕ
  pub received_length : ℕ
  pub payload_ranges : Ranges

-- The constructor of incomplete_heap, and get_payload_ranges, which copies them.
unfoldable pub incomplete_heap : LiveHeap → Bool → Bool → Option (IncompleteHeap × LiveHeap)
incomplete_heap h keep_payload keep_payload_ranges = elim (load h false keep_payload) [
  | none ↦ none
  | some frozen ↦ some (
    record {
      base = frozen;
      heap_length = h.heap_length;
      received_length = h.received_length;
      payload_ranges = if keep_payload_ranges then h.payload_ranges else [];
    },
    reset h,
  )
]

-- The loop of is_ctrl_item.
unfoldable pub ctrl_among : ℕ → List Item → Option Bool
ctrl_among value [] = some false
ctrl_among value (it ∷ items) =
    let later = ctrl_among value items in
    if it.id == stream_ctrl_id
    then elim (load_bytes_be it.ptr it.length) [
      | none ↦ none
      | some item_value ↦ if item_value == value then some true else later
    ]
    else later

unfoldable pub is_ctrl_item : HeapBase → ℕ → Option Bool
is_ctrl_item h value = ctrl_among value h.items

-- CTRL_STREAM_START
abbrev pub ctrl_stream_start : ℕ
ctrl_stream_start = 0

unfoldable pub is_start_of_stream : HeapBase → Option Bool
is_start_of_stream h = is_ctrl_item h ctrl_stream_start

unfoldable pub is_end_of_stream : HeapBase → Option Bool
is_end_of_stream h = is_ctrl_item h ctrl_stream_stop
