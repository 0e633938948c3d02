-- ===== src/Recv/LiveHeap.antt =====
-- A heap in the process of being received: src/recv_live_heap.cpp and
-- include/spead2/recv_live_heap.h. The map of ranges is in Recv.Ranges, the pointers in
-- Recv.PointerStore.
use spead.Prelude.{
  ℕ, zero, suc, ◌+◌, ◌-◌, ◌*◌, ◌<◌, ◌≡◌, Bool, true, false, ◌&&◌, ◌||◌, not, List, [], Option, none,
  some, ltb, leb, ◌==◌, if◌then◌else◌, max, drop, get_elem?,
}
use spead.Bytes.{load_be}
use spead.Pointer.{
  PointerDecoder, pointer_decoder, get_id, get_address, get_immediate, is_immediate,
  item_pointer_size, payload_length_id, stream_ctrl_id, ctrl_stream_stop,
}
use spead.Recv.Packet.{PacketHeader}
use spead.Recv.Ranges.{Ranges, add_payload_range}
use spead.Recv.PointerStore.{PointerStore, empty_store, store}
pub mod Effects
pub mod Invariant
pub mod Contents
pub mod History
pub mod Addresses
mod Runs

-- Memory from a memory_allocator: `none` is a byte that was never written.
abbrev pub Memory : Type 0
Memory = ℕ → Option ℕ

abbrev pub fresh_memory : Memory
fresh_memory x = none

-- packet_memcpy_function: the allocation and the packet give the new contents.
abbrev pub PacketMemcpy : Type 0
PacketMemcpy = Memory → PacketHeader → Memory

-- SPEAD2_ADAPT_MEMCPY(std::memcpy) of src/recv_stream.cpp.
unfoldable pub adapt_memcpy : PacketMemcpy
adapt_memcpy allocation packet x =
    if leb packet.payload_offset x && ltb x (packet.payload_offset + packet.payload_length)
    then get_elem? packet.payload (x - packet.payload_offset)
    else allocation x

-- heap_length is `none` for -1; the other lengths are never negative. A null `payload` is memory
-- with payload_reserved 0.
pub record LiveHeap : Type 0 where
  pub cnt : ℕ
  pub heap_length : Option ℕ
  pub received_length : ℕ
  pub min_length : ℕ
  pub decoder : PointerDecoder
  pub bug_compat : ℕ
  pub end_of_stream : Bool
  pub pointers : PointerStore
  pub payload : Memory
  pub payload_reserved : ℕ
  pub payload_ranges : Ranges

-- The constructor.
unfoldable pub live_heap : PacketHeader → ℕ → LiveHeap
live_heap initial_packet bug_compat = record {
  cnt = initial_packet.heap_cnt;
  heap_length = none;
  received_length = 0;
  min_length = 0;
  decoder = pointer_decoder initial_packet.heap_address_bits;
  bug_compat = bug_compat;
  end_of_stream = false;
  pointers = empty_store;
  payload = fresh_memory;
  payload_reserved = 0;
  payload_ranges = [];
}

-- memcpy of the first payload_reserved bytes into a fresh allocation. (A failing allocator throws,
-- which is not modelled.)
abbrev pub copy_prefix : ℕ → Memory → Memory
copy_prefix n from x = if ltb x n then from x else none

unfoldable pub payload_reserve : LiveHeap → ℕ → Bool → LiveHeap
payload_reserve h size exact =
    if ltb h.payload_reserved size
    then record h {
      payload = copy_prefix h.payload_reserved h.payload;
      payload_reserved =
          if not exact && ltb size (h.payload_reserved * 2) then h.payload_reserved * 2 else size;
    }
    else h

-- Whether an ID is stored: neither of the four that packet_header has, nor of the null items'.
abbrev pub is_kept : ℕ → Bool
is_kept item_id = item_id == 0 || ltb payload_length_id item_id

-- The body of the loop of add_pointers.
unfoldable pub add_pointer : LiveHeap → ℕ → LiveHeap
add_pointer h pointer =
    let min_length =
      if not (is_immediate pointer)
      then max h.min_length (get_address h.decoder pointer)
      else h.min_length in
    let item_id = get_id h.decoder pointer in
    let (added, pointers) =
      if is_kept item_id then store h.pointers pointer else (false, h.pointers) in
    let stops =
      item_id == stream_ctrl_id
      && is_immediate pointer
      && get_immediate h.decoder pointer == ctrl_stream_stop in
    record h {
      min_length = min_length;
      pointers = pointers;
      end_of_stream = h.end_of_stream || (added && stops);
    }

-- `n` pointers, big endian, from the address `pointers` on.
unfoldable pub add_pointers : LiveHeap → ℕ → List ℕ → LiveHeap
add_pointers h zero pointers = h
add_pointers h (suc n) pointers =
    add_pointers (add_pointer h (load_be pointers)) n (drop item_pointer_size pointers)

-- The three checks before the ranges are looked at.
unfoldable pub is_inconsistent : LiveHeap → PacketHeader → Bool
is_inconsistent h packet = elim packet.heap_length [
  | none ↦ false
  | some length ↦ elim h.heap_length [
    | none ↦ ltb length h.min_length
    | some known ↦ not (length == known) || ltb length h.min_length
  ]
]

-- The lengths after a packet is accepted, with the memory that they ask for.
unfoldable pub note_length : LiveHeap → PacketHeader → LiveHeap
unfolding payload_reserve
note_length h packet = elim packet.heap_length [
  | some length ↦ elim h.heap_length [
    | some known ↦ h
    | none ↦
        payload_reserve
          (record h { heap_length = some length; min_length = max h.min_length length })
          (max h.min_length length) true
  ]
  | none ↦
      let min_length = max h.min_length (packet.payload_offset + packet.payload_length) in
      payload_reserve (record h { min_length = min_length }) min_length false
]

-- The end of add_packet: the payload is copied into place.
unfoldable pub copy_payload : LiveHeap → PacketHeader → PacketMemcpy → LiveHeap
copy_payload h packet packet_memcpy =
    if ltb 0 packet.payload_length
    then record h {
      payload = packet_memcpy h.payload packet;
      received_length = h.received_length + packet.payload_length;
    }
    else h

-- "Packet is now accepted, and we modify state".
unfoldable pub accept : LiveHeap → PacketHeader → PacketMemcpy → LiveHeap
unfolding note_length add_pointers copy_payload
accept h packet packet_memcpy =
    copy_payload (add_pointers (note_length h packet) packet.n_items packet.pointers) packet
      packet_memcpy

-- The assert that the packet has the ID of the heap is the caller's part: it looks the heap up by the
-- ID of the packet. Here a packet with any ID is taken.
unfoldable pub add_packet : LiveHeap → PacketHeader → PacketMemcpy → Bool × LiveHeap
unfolding is_inconsistent accept
add_packet h packet packet_memcpy =
    if is_inconsistent h packet
    then (false, h)
    else if not (packet.heap_address_bits == h.decoder.heap_address_bits)
    then (false, h)
    else let (new_packet, ranges) =
        add_payload_range packet.payload_offset (packet.payload_offset + packet.payload_length)
          h.payload_ranges in
      let h' = record h { payload_ranges = ranges } in
      if not new_packet then (false, h') else (true, accept h' packet packet_memcpy)

unfoldable pub is_complete : LiveHeap → Bool
is_complete h = elim h.heap_length [
  | none ↦ false
  | some length ↦ h.received_length == length && h.received_length == h.min_length
]

unfoldable pub is_contiguous : LiveHeap → Bool
is_contiguous h = h.received_length == h.min_length

-- The object is left as if newly made, for the same heap ID, flavour and protocol bugs.
unfoldable pub reset : LiveHeap → LiveHeap
reset h = record h {
  heap_length = none;
  received_length = 0;
  min_length = 0;
  end_of_stream = false;
  payload = fresh_memory;
  payload_reserved = 0;
  pointers = record (h.pointers) {
    n_inline_pointers = some 0;
    external_pointers = [];
    seen_pointers = [];
  };
  payload_ranges = [];
}
