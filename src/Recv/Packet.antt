-- ===== src/Recv/Packet.antt =====
-- Decoding of a packet's header and items: src/recv_packet.cpp and include/spead2/recv_packet.h.
use spead.Prelude.{
  ℕ, zero, suc, ◌+◌, ◌-◌, ◌*◌, ◌/◌, ◌%◌, ◌^◌, ◌==◌, Bool, true, false, ◌&&◌, ◌||◌, not, List,
  Option, none, some, ltb, if◌then◌else◌, drop, min, bit_and, is_some, ℤ, pos, negsuc,
}
use spead.Bytes.{load_be}
use spead.Pointer.{
  PointerDecoder, pointer_decoder, get_id, get_immediate, is_immediate, item_pointer_size,
  magic_version, heap_cnt_id, heap_length_id, payload_offset_id, payload_length_id,
}
pub mod Header
pub mod Bounds
pub mod Items
pub mod Accept
mod Runs

-- What decode_packet leaves in `out` when it succeeds. heap_length is `none` where the source has
-- -1; the other three fields cannot be -1 then. `pointers` and `payload` are the bytes from those
-- addresses on.
pub record PacketHeader : Type 0 where
  pub heap_address_bits : ℕ
  pub n_items : ℕ
  pub heap_cnt : ℕ
  pub heap_length : Option ℕ
  pub payload_offset : ℕ
  pub payload_length : ℕ
  pub pointers : List ℕ
  pub payload : List ℕ

unfoldable pub extract_bits : ℕ → ℕ → ℕ → ℕ
extract_bits value first cnt = bit_and (value / 2 ^ first) (2 ^ cnt - 1)

-- `none` is the result false; otherwise heap_address_bits and n_items.
unfoldable pub decode_header : List ℕ → Option (ℕ × ℕ)
unfolding extract_bits
decode_header bytes =
    let header = load_be bytes in
    let item_id_bits = extract_bits header 40 8 * 8 in
    let heap_address_bits = extract_bits header 32 8 * 8 in
    if not (extract_bits header 48 16 == magic_version)
    then none
    else if item_id_bits == 0 || heap_address_bits == 0
    then none
    else if not (item_id_bits + heap_address_bits == 8 * item_pointer_size)
    then none
    else some (heap_address_bits, extract_bits header 0 16)

-- Item pointer `i` of the packet at `bytes`.
abbrev pub pointer_at : List ℕ → ℕ → ℕ
pointer_at bytes i = load_be (drop (8 + i * item_pointer_size) bytes)

-- The loop of get_packet_size over `n` items from item `i` on, up to its `break`.
pub find_payload_length : PointerDecoder → List ℕ → ℕ → ℕ → Option ℕ
find_payload_length decoder bytes i zero = none
find_payload_length decoder bytes i (suc n) =
    let pointer = pointer_at bytes i in
    let rest = find_payload_length decoder bytes (i + 1) n in
    if is_immediate pointer && get_id decoder pointer == payload_length_id
    then some (get_immediate decoder pointer)
    else rest

abbrev pub size_or_error : Option ℕ → ℕ → ℤ
size_or_error none n_items = negsuc 0
size_or_error (some payload_length) n_items =
    pos ((payload_length + n_items * item_pointer_size + 8) % 2 ^ 64)

abbrev size_of_items : List ℕ → ℕ → Option (ℕ × ℕ) → ℤ
size_of_items bytes length none = negsuc 0
size_of_items bytes length (some (heap_address_bits, n_items)) =
    if ltb length (n_items * item_pointer_size + 8)
    then pos 0
    else size_or_error (find_payload_length (pointer_decoder heap_address_bits) bytes 0 n_items)
        n_items

pub get_packet_size : List ℕ → ℕ → ℤ
get_packet_size bytes length =
    if ltb length 8 then pos 0 else size_of_items bytes length (decode_header bytes)

-- The variables of the loop of decode_packet; `none` is -1, "not found".
pub record Specials : Type 0 where
  pub heap_cnt : Option ℕ
  pub heap_length : Option ℕ
  pub payload_offset : Option ℕ
  pub payload_length : Option ℕ
  pub first_regular : ℕ

-- The `switch` on the ID of an immediate item; the flag is `special`.
unfoldable pub note_immediate : ℕ → ℕ → Specials → Bool × Specials
note_immediate id value s =
    if id == heap_cnt_id
    then (true, record s { heap_cnt = some value })
    else if id == heap_length_id
    then (true, record s { heap_length = some value })
    else if id == payload_offset_id
    then (true, record s { payload_offset = some value })
    else if id == payload_length_id
    then (true, record s { payload_length = some value })
    else (false, s)

-- The body of the loop, for item `i`.
unfoldable pub scan_item : PointerDecoder → ℕ → ℕ → Specials → Specials
unfolding note_immediate
scan_item decoder i pointer s =
    let (special, s') =
      if is_immediate pointer
      then note_immediate (get_id decoder pointer) (get_immediate decoder pointer) s
      else (false, s) in
    if special then s' else record s' { first_regular = min s'.first_regular i }

-- `n` items from item `i` on.
unfoldable pub scan : PointerDecoder → List ℕ → ℕ → ℕ → Specials → Specials
scan decoder bytes i zero s = s
scan decoder bytes i (suc n) s =
    scan decoder bytes (i + 1) n (scan_item decoder i (pointer_at bytes i) s)

abbrev pub not_found : ℕ → Specials
not_found n_items = record {
  heap_cnt = none;
  heap_length = none;
  payload_offset = none;
  payload_length = none;
  first_regular = n_items;
}

-- Whether the payload would overflow the heap length, if that is given.
abbrev pub overflows_heap : Option ℕ → ℕ → Bool
overflows_heap none last = false
overflows_heap (some heap_length) last = ltb heap_length last

-- The checks after the loop, once the required items are there. `size` is a std::size_t.
unfoldable pub finish_with :
    List ℕ → ℕ → ℕ → ℕ → ℕ → ℕ → Option ℕ → ℕ → ℕ → Option (ℕ × PacketHeader)
finish_with bytes max_size bits n first cnt heap_length offset length =
    let size = (length + n * item_pointer_size + 8) % 2 ^ 64 in
    if ltb max_size size
    then none
    else if overflows_heap heap_length (offset + length)
    then none
    else some (
      size,
      record {
        heap_address_bits = bits;
        n_items = n - first;
        heap_cnt = cnt;
        heap_length = heap_length;
        payload_offset = offset;
        payload_length = length;
        pointers = drop (8 + first * item_pointer_size) bytes;
        payload = drop (8 + first * item_pointer_size + (n - first) * item_pointer_size) bytes;
      },
    )

-- What follows the loop: heap_cnt, payload_offset and payload_length are required.
unfoldable pub finish : List ℕ → ℕ → ℕ → ℕ → Specials → Option (ℕ × PacketHeader)
unfolding finish_with
finish bytes max_size bits n s = elim s.heap_cnt [
  | none ↦ none
  | some cnt ↦ elim s.payload_offset [
    | none ↦ none
    | some offset ↦ elim s.payload_length [
      | none ↦ none
      | some length ↦
          finish_with bytes max_size bits n s.first_regular cnt s.heap_length offset length
    ]
  ]
]

abbrev decode_items : List ℕ → ℕ → Option (ℕ × ℕ) → Option (ℕ × PacketHeader)
decode_items bytes max_size none = none
decode_items bytes max_size (some (bits, n)) =
    if ltb max_size (n * item_pointer_size + 8)
    then none
    else finish bytes max_size bits n (scan (pointer_decoder bits) bytes 0 n (not_found n))

-- `none` is the result 0, on which the callers do not look at `out`; otherwise the size and `out`.
unfoldable pub decode_packet : List ℕ → ℕ → Option (ℕ × PacketHeader)
decode_packet bytes max_size =
    if ltb max_size 8 then none else decode_items bytes max_size (decode_header bytes)
