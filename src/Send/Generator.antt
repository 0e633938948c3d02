-- ===== src/Send/Generator.antt =====
-- The packets of a heap: packet_generator of src/send_packet.cpp and include/spead2/send_packet.h.
use spead.Prelude.{
  ℕ, zero, suc, ◌+◌, ◌-◌, ◌*◌, ◌/◌, ◌^◌, Bool, true, false, ◌&&◌, List, [], ◌∷◌, ◌++◌, Option, none,
  some, ltb, leb, ◌==◌, if◌then◌else◌, length, get_elem?, take, drop, replicate, min, bit_or,
}
use spead.Bytes.{store_be}
use spead.Pointer.{
  encode_immediate, encode_address, item_pointer_size, null_id, heap_cnt_id, heap_length_id,
  payload_offset_id, payload_length_id,
}
use spead.Send.Heap.{Item, Heap, use_immediate}
pub mod Counts
pub mod Payload
pub mod Progress
pub mod Start
pub mod Delivery
pub mod Complete
pub mod Pointers
mod Runs

-- 8 + 4 * sizeof(item_pointer_t)
abbrev pub prefix_size : ℕ
prefix_size = 40

-- The two std::invalid_argument of the constructor.
pub data Error : Type 0 where
  packet_too_small cannot_repeat : Error

pub data Result {ℓ} (A : Type ℓ) : Type ℓ where
  ok : A → Result A
  throws : Error → Result A

pub record Generator : Type 0 where
  pub heap : Heap
  pub cnt : ℕ
  pub max_packet_size : ℕ
  pub max_item_pointers_per_packet : ℕ
  pub next_item_pointer : ℕ
  pub next_item : ℕ
  pub next_item_offset : ℕ
  pub next_address : ℕ
  pub payload_offset : ℕ
  pub payload_size : ℕ
  pub need_null_item : Bool

abbrev pub max_immediate_of : Heap → ℕ
max_immediate_of h = h.heap_address_bits / 8

-- The loop over the items in the constructor.
unfoldable pub sum_payload : ℕ → List Item → ℕ
sum_payload max_immediate_size [] = 0
sum_payload max_immediate_size (it ∷ items) =
    (if use_immediate max_immediate_size it then 0 else length it.buffer)
    + sum_payload max_immediate_size items

abbrev pub min_payload_size : ℕ → ℕ
min_payload_size item_packets = (item_packets - 1) * item_pointer_size + 1

-- `max_packet_size &= ~7` rounds the constructor's argument, which hides the member of that name: the
-- member keeps the value that it was initialised with.
unfoldable pub packet_generator : Heap → ℕ → ℕ → Result Generator
unfolding sum_payload
packet_generator h cnt max_packet_size =
    let rounded = max_packet_size / 8 * 8 in
    let max_pointers = (rounded - (prefix_size + item_pointer_size)) / item_pointer_size in
    let item_packets = length h.items / max_pointers + 1 in
    let payload_size = sum_payload (max_immediate_of h) h.items in
    let need_null_item = ltb payload_size (min_payload_size item_packets) in
    if ltb rounded (prefix_size + 2 * item_pointer_size)
    then throws packet_too_small
    else if h.repeat_pointers && ltb 1 item_packets
    then throws cannot_repeat
    else ok (record {
      heap = h;
      cnt = cnt;
      max_packet_size = max_packet_size;
      max_item_pointers_per_packet = max_pointers;
      next_item_pointer = 0;
      next_item = 0;
      next_item_offset = 0;
      next_address = 0;
      payload_offset = 0;
      payload_size = if need_null_item then min_payload_size item_packets else payload_size;
      need_null_item = need_null_item;
    })

unfoldable pub has_next_packet : Generator → Bool
has_next_packet g = ltb g.payload_offset g.payload_size

-- One round of the loop over the item pointers: the eight bytes in memory and the new next_address.
-- Past the last item stands the null item.
unfoldable pub pointer_bytes : ℕ → Option Item → ℕ → List ℕ × ℕ
pointer_bytes bits none next_address =
    (store_be (encode_address bits null_id next_address), next_address)
pointer_bytes bits (some it) next_address =
    if it.is_inline
    then (store_be (encode_immediate bits it.id it.immediate), next_address)
    else if it.allow_immediate && leb (length it.buffer) (bits / 8)
    then (
      take (item_pointer_size - length it.buffer) (store_be (encode_immediate bits it.id 0))
          ++ it.buffer,
      next_address,
    )
    else (store_be (encode_address bits it.id next_address), next_address + length it.buffer)

-- `n` rounds from next_item_pointer `i` on: the pointers, and the last next_address.
unfoldable pub emit_pointers : ℕ → List Item → ℕ → ℕ → ℕ → List (List ℕ) × ℕ
unfolding pointer_bytes
emit_pointers bits items i zero next_address = ([], next_address)
emit_pointers bits items i (suc n) next_address =
    let (bytes, address) = pointer_bytes bits (get_elem? items i) next_address in
    let (rest, last) = emit_pointers bits items (i + 1) n address in (bytes ∷ rest, last)

-- Where the payload loop stands: the buffers so far, next_item and next_item_offset.
pub record Cursor : Type 0 where
  pub buffers : List (List ℕ)
  pub next_item : ℕ
  pub next_item_offset : ℕ

abbrev pub push_buffer : List ℕ → Cursor → Cursor
push_buffer b c = record c { buffers = b ∷ c.buffers }

-- The payload loop, over the items from next_item on, with `len` bytes of the packet to fill. `none`
-- is a failed assert: padding is at most the eight bytes that were allocated for it, and only where
-- need_null_item is set. When an item is not used up, the packet is full.
unfoldable pub emit_payload : ℕ → Bool → List Item → ℕ → ℕ → ℕ → Option Cursor
emit_payload max_imm need_null items next_item offset zero =
    some (record { buffers = []; next_item = next_item; next_item_offset = offset })
emit_payload max_imm need_null [] next_item offset (suc l) =
    if need_null && leb (suc l) 8
    then some (record {
      buffers = replicate (suc l) 0 ∷ [];
      next_item = next_item;
      next_item_offset = offset;
    })
    else none
emit_payload max_imm need_null (it ∷ items) next_item offset (suc l) =
    let send_bytes = min (length it.buffer - offset) (suc l) in
    let b = take send_bytes (drop offset it.buffer) in
    let skipped = emit_payload max_imm need_null items (next_item + 1) 0 (suc l) in
    let further = emit_payload max_imm need_null items (next_item + 1) 0 (suc l - send_bytes) in
    if use_immediate max_imm it
    then skipped
    else if offset + send_bytes == length it.buffer
    then elim further [ none ↦ none | some c ↦ some (push_buffer b c) ]
    else some
        (record { buffers = b ∷ []; next_item = next_item; next_item_offset = offset + send_bytes })

-- The first word of a packet: magic and version, the flavour, and the number of items.
unfoldable pub header_word : ℕ → ℕ → ℕ
header_word max_immediate_size n_item_pointers =
    bit_or
      (bit_or (bit_or (0x5304 * 2 ^ 48) ((8 - max_immediate_size) * 2 ^ 40))
        (max_immediate_size * 2 ^ 32))
      (n_item_pointers + 4)

-- The header and the four items that every packet has.
unfoldable pub prefix_bytes : Generator → ℕ → ℕ → List ℕ
unfolding header_word
prefix_bytes g n_item_pointers packet_payload_length =
    let bits = g.heap.heap_address_bits in
    store_be (header_word (max_immediate_of g.heap) n_item_pointers)
    ++ (store_be (encode_immediate bits heap_cnt_id g.cnt)
        ++ (store_be (encode_immediate bits heap_length_id g.payload_size)
            ++ (store_be (encode_immediate bits payload_offset_id g.payload_offset)
                ++ store_be (encode_immediate bits payload_length_id packet_payload_length))))

abbrev pub one_if : Bool → ℕ
one_if true = 1
one_if false = 0

-- repeat_pointers starts every packet from the first item pointer.
unfoldable pub restart_pointers : Generator → Generator
restart_pointers g =
    if g.heap.repeat_pointers then record g { next_item_pointer = 0; next_address = 0 } else g

abbrev pub n_item_pointers : Generator → ℕ
n_item_pointers g =
    min g.max_item_pointers_per_packet
      (length g.heap.items + one_if g.need_null_item - g.next_item_pointer)

abbrev pub packet_payload_length : Generator → ℕ
packet_payload_length g =
    min (g.payload_size - g.payload_offset)
      (g.max_packet_size - n_item_pointers g * item_pointer_size - prefix_size)

unfoldable pub concat : List (List ℕ) → List ℕ
concat [] = []
concat (b ∷ bs) = b ++ concat bs

-- One packet while there is payload to send: its buffers, and the generator after it. The asserts of
-- pointer_encoder are no part of the result: where an ID or a value does not fit its bits, the pointer
-- here is the one of a build without asserts.
unfoldable pub make_packet : Generator → Option (List (List ℕ) × Generator)
unfolding prefix_bytes emit_pointers emit_payload concat
make_packet g =
    let n = n_item_pointers g in
    let len = packet_payload_length g in
    let (pointers, address) =
      emit_pointers g.heap.heap_address_bits g.heap.items g.next_item_pointer n g.next_address in
    elim (emit_payload (max_immediate_of g.heap) g.need_null_item (drop g.next_item g.heap.items)
      g.next_item g.next_item_offset len) [
        | none ↦ none
        | some c ↦ some (
          (prefix_bytes g n len ++ concat pointers) ∷ c.buffers,
          record g {
            next_item_pointer = g.next_item_pointer + n;
            next_address = address;
            payload_offset = g.payload_offset + len;
            next_item = c.next_item;
            next_item_offset = c.next_item_offset;
          },
        )
      ]

-- next_packet: no buffers at the end of the heap.
unfoldable pub next_packet : Generator → Option (List (List ℕ) × Generator)
unfolding restart_pointers make_packet
next_packet g =
    let g' = restart_pointers g in
    if ltb g.payload_offset g.payload_size then make_packet g' else some ([], g')

-- The packets of a heap, as send::stream takes them: next_packet while has_next_packet. `none` is a
-- failed assert or the end of the fuel.
pub packets : ℕ → Generator → Option (List (List (List ℕ)))
unfolding next_packet has_next_packet
packets zero g = none
packets (suc fuel) g = elim (has_next_packet g) [
  | false ↦ some []
  | true ↦ elim (next_packet g) [
    | none ↦ none
    | some (buffers, g') ↦ elim (packets fuel g') [
      | none ↦ none
      | some rest ↦ some (buffers ∷ rest)
    ]
  ]
]
