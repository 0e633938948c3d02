-- ===== src/Recv/Heap/Written.antt =====
-- Freezing what has been received: the constructors of heap and incomplete_heap in
-- src/recv_heap.cpp.
use spead.Prelude.{
  ℕ, zero, suc, ◌+◌, ◌-◌, ◌/◌, ◌<◌, ◌≡◌, refl, sym, ap, subst, ◌∙◌, Bool, true, false, inl, inr,
  if◌then◌else◌, List, [], ◌∷◌, some, none, All, length, drop, arith, get_elem?_of_lt, length-drop,
}
use spead.Bytes.{store_be}
use spead.Pointer.{IsFlavour, PointerDecoder, item_pointer_size}
use spead.Recv.Packet.{PacketHeader}
use spead.Recv.LiveHeap.{LiveHeap, Memory, adapt_memcpy, is_contiguous, reset}
use spead.Recv.LiveHeap.Effects.{IsSound}
use spead.Recv.LiveHeap.Addresses.{IsSmall, Placed, add_packet-Placed, live_heap-Placed}
use spead.Recv.LiveHeap.History.{
  Session, Holds, offer, offer_all, start, start-Holds, offer_all-Holds, Holds-contiguous,
}
use spead.Recv.Heap.{
  Item, HeapBase, IncompleteHeap, read, heap, incomplete_heap, load, immediate_item,
}
use spead.Recv.Heap.Bounds.{IsWithin, frozen, load_lem}

-- Memory that has been written gives its bytes.
read-IsSome :
    (ptr : Memory) (n : ℕ)
    → ((i : ℕ) → i < n → (b : ℕ) × (ptr i ≡ some b))
    → (bytes : List ℕ) × (read ptr n ≡ some bytes) × (length bytes ≡ n)
unfolding read
read-IsSome ptr zero written = ([], refl, refl)
read-IsSome ptr (suc n) written =
    let (b, e) = written 0 (omega arith) in
    let (bytes, e', size) =
      read-IsSome (λ i. ptr (suc i)) n (λ i less. written (suc i) (omega arith)) in
    (b ∷ bytes, ground (arith, e, e'), ap suc size)

-- The item is where it should be, and its bytes can be read.
abbrev pub IsReadable : LiveHeap → Item → Type 0
IsReadable h it =
    IsWithin true h it
    × ((bytes : List ℕ) × (read it.ptr it.length ≡ some bytes) × (length bytes ≡ it.length))

module _ (bits : ℕ) (fl : IsFlavour bits) where
  immediate-bytes :
      (d : PointerDecoder) (p : ℕ)
      → d.heap_address_bits ≡ bits
      → let it = immediate_item d p in (i : ℕ) → i < it.length → (b : ℕ) × (it.ptr i ≡ some b)
  immediate-bytes d p e i less =
      let bytes = drop (item_pointer_size - d.heap_address_bits / 8) (store_be p) in
      let small = fl.below in
      get_elem?_of_lt bytes i
        (omega (arith, length-drop (item_pointer_size - d.heap_address_bits / 8) (store_be p)))

  offer_all-Placed :
      (s : Session) (packets : List PacketHeader)
      → All (IsSmall bits) packets
      → Placed bits s.heap
      → Placed bits (offer_all s packets).heap
  unfolding offer_all offer
  offer_all-Placed s [] small v = v
  offer_all-Placed s (packet ∷ packets) small v =
      offer_all-Placed (offer s packet) packets small.1
        (add_packet-Placed bits fl s.heap packet adapt_memcpy small.0 v)

  immediate-IsReadable :
      (h : LiveHeap) (p : ℕ)
      → h.decoder.heap_address_bits ≡ bits
      → IsReadable h (immediate_item h.decoder p)
  immediate-IsReadable h p same = (
    inl (p, refl),
    read-IsSome (immediate_item h.decoder p).ptr (immediate_item h.decoder p).length
        (immediate-bytes h.decoder p same),
  )

  within-IsReadable :
      (s : Session) (it : Item)
      → Holds s
      → Placed bits s.heap
      → is_contiguous s.heap ≡ true
      → IsWithin true s.heap it
      → IsReadable s.heap it
  within-IsReadable s it v placed full (inl (p, e)) =
      subst (IsReadable s.heap) (sym e)
        (immediate-IsReadable s.heap p (ap (λ d. d.heap_address_bits) placed.same_decoder))
  within-IsReadable s it v placed full (inr (first, kept, e, more, end)) =
      let written : (i : ℕ) → i < it.length → (b : ℕ) × (it.ptr i ≡ some b) = λ i less.
        let (b, q, _) = Holds-contiguous s v full (first + i) (omega arith) in
        (b, ap (λ m. m i) e ∙ q) in
      (inr (first, kept, e, more, end), read-IsSome it.ptr it.length written)

  all-IsReadable :
      (s : Session) (items : List Item)
      → Holds s
      → Placed bits s.heap
      → is_contiguous s.heap ≡ true
      → All (IsWithin true s.heap) items
      → All (IsReadable s.heap) items
  all-IsReadable s [] v placed full within = tt
  all-IsReadable s (it ∷ items) v placed full within =
      (within-IsReadable s it v placed full within.0, all-IsReadable s items v placed full within.1)

pub heap_of_load :
    (h : LiveHeap) (f : HeapBase)
    → is_contiguous h ≡ true
    → load h true true ≡ some f
    → heap h ≡ some (f, reset h)
unfolding heap
heap_of_load h f full e = rw (full, e) refl

-- The live heap after any packets have been offered to it, the first of them `initial` or not.
abbrev pub received : PacketHeader → ℕ → List PacketHeader → LiveHeap
received initial bug_compat packets = (offer_all (start initial bug_compat) packets).heap

received-Placed :
    (initial : PacketHeader) (bug_compat : ℕ) (packets : List PacketHeader)
    → IsFlavour initial.heap_address_bits
    → All (IsSmall initial.heap_address_bits) packets
    → Placed initial.heap_address_bits (received initial bug_compat packets)
unfolding start
received-Placed initial bug_compat packets fl small =
    offer_all-Placed initial.heap_address_bits fl (start initial bug_compat) packets small
      (live_heap-Placed initial.heap_address_bits initial bug_compat refl)

-- Offer any packets, in any order, to a new heap of a flavour; their heap lengths and the ends of
-- their payloads are below 2^63. If the live heap is then contiguous, the constructor of heap fails
-- no assert and throws nothing, and leaves the live heap reset. Each item that it makes is an
-- immediate of the width of an address, or at least one byte of the payload, within min_length; and
-- all its bytes have been written.
pub heap_lem :
    (initial : PacketHeader) (bug_compat : ℕ) (packets : List PacketHeader)
    → IsFlavour initial.heap_address_bits
    → All IsSound packets
    → All (IsSmall initial.heap_address_bits) packets
    → is_contiguous (received initial bug_compat packets) ≡ true
    → let h = received initial bug_compat packets in
      (frozen : HeapBase) × (heap h ≡ some (frozen, reset h))
      × (frozen.cnt ≡ h.cnt)
      × (frozen.payload ≡ some h.payload)
      × All (IsReadable h) frozen.items
heap_lem initial bug_compat packets fl sound small full =
    let bits = initial.heap_address_bits in
    let s = offer_all (start initial bug_compat) packets in
    let placed = received-Placed initial bug_compat packets fl small in
    let holds =
      offer_all-Holds (start initial bug_compat) packets (start-Holds initial bug_compat) sound in
    let (items, e, within) = load_lem bits fl s.heap placed true true (ground (arith, full)) in
    (
      frozen bits fl s.heap placed true items,
      heap_of_load s.heap _ full e,
      refl,
      refl,
      all-IsReadable bits fl s items holds placed full within,
    )

-- What incomplete_heap keeps is immediates.
abbrev pub IsImmediate : Item → Type 0
IsImmediate it = it.is_immediate ≡ true

all-IsImmediate :
    (h : LiveHeap) (items : List Item) → All (IsWithin false h) items → All IsImmediate items
all-IsImmediate h [] within = tt
all-IsImmediate h (it ∷ items) (inl (p, e), within) =
    (ap (λ i. i.is_immediate) e, all-IsImmediate h items within)
all-IsImmediate h (it ∷ items) (inr (first, kept, e, more, end), within) = absurd (cc)

abbrev incomplete : LiveHeap → HeapBase → Bool → IncompleteHeap
incomplete h base keep_payload_ranges = record {
  base = base;
  heap_length = h.heap_length;
  received_length = h.received_length;
  payload_ranges = if keep_payload_ranges then h.payload_ranges else [];
}

incomplete_heap_of_load :
    (h : LiveHeap) (f : HeapBase) (keep_payload keep_payload_ranges : Bool)
    → load h false keep_payload ≡ some f
    → incomplete_heap h keep_payload keep_payload_ranges
      ≡ some (incomplete h f keep_payload_ranges, reset h)
unfolding incomplete_heap
incomplete_heap_of_load h f keep_payload keep_payload_ranges e = rw (e, incomplete_heap) refl

-- Offer any such packets to a new heap, which need not be contiguous: the constructor of
-- incomplete_heap fails no assert and throws nothing, and leaves the live heap reset. All items that
-- it makes are immediates. It has the lengths of the live heap, and its payload and its ranges just
-- where it is asked to keep them.
pub incomplete_heap_lem :
    (initial : PacketHeader) (bug_compat : ℕ) (packets : List PacketHeader)
    (keep_payload keep_payload_ranges : Bool)
    → IsFlavour initial.heap_address_bits
    → All (IsSmall initial.heap_address_bits) packets
    → let h = received initial bug_compat packets in
      (out : IncompleteHeap) × (incomplete_heap h keep_payload keep_payload_ranges
        ≡ some (out, reset h))
      × All IsImmediate out.base.items
      × (out.heap_length ≡ h.heap_length)
      × (out.received_length ≡ h.received_length)
      × (out.base.payload ≡ (if keep_payload then some h.payload else none))
      × (out.payload_ranges ≡ (if keep_payload_ranges then h.payload_ranges else []))
incomplete_heap_lem initial bug_compat packets keep_payload keep_payload_ranges fl small =
    let bits = initial.heap_address_bits in
    let h = received initial bug_compat packets in
    let placed = received-Placed initial bug_compat packets fl small in
    let (items, e, within) = load_lem bits fl h placed false keep_payload refl in
    (
      incomplete h (frozen bits fl h placed keep_payload items) keep_payload_ranges,
      incomplete_heap_of_load h _ keep_payload keep_payload_ranges e,
      all-IsImmediate h items within,
      refl,
      refl,
      refl,
      refl,
    )
