-- ===== src/Recv/Packet/Bounds.antt =====
-- What decode_packet guarantees of the header that it fills in.
use spead.Prelude.{
  ℕ, zero, suc, ◌+◌, ◌-◌, ◌*◌, ◌%◌, ◌^◌, ◌≤◌, ◌<◌, ◌≡◌, List, Option, none, some, arith, length,
  Option-cases, inl, inr, false, length-drop,
}
use native.Mathlib.Nat.{pow-le-pow_right}
use spead.Pointer.{pointer_decoder, IsFlavour, item_pointer_size}
use spead.Pointer.RoundTrip.{get_immediate-lt}
use spead.Recv.Packet.{
  PacketHeader, Specials, pointer_at, scan_item, scan, not_found, finish, finish_with,
  decode_header, decode_packet, decode_items, overflows_heap,
}
use spead.Recv.Packet.Header.{decode_header-IsFlavour}

-- A value that may be missing, and is below `b` otherwise.
abbrev pub Below : ℕ → Option ℕ → Type 0
Below b none = Unit {0}
Below b (some v) = v < b

abbrev pub AtMost : ℕ → Option ℕ → Type 0
AtMost b none = Unit {0}
AtMost b (some v) = b ≤ v

pub record IsBounded (bound items : ℕ) (s : Specials) : Type 0 where
  pub cnt_lt : Below bound s.heap_cnt
  pub heap_length_lt : Below bound s.heap_length
  pub offset_lt : Below bound s.payload_offset
  pub length_lt : Below bound s.payload_length
  pub first_le : s.first_regular ≤ items

module _ (bits items : ℕ) (flavour : IsFlavour bits) where
  scan_item-IsBounded :
      (i pointer : ℕ) (s : Specials)
      → IsBounded (2 ^ bits) items s
      → IsBounded (2 ^ bits) items (scan_item (pointer_decoder bits) i pointer s)
  unfolding scan_item
  scan_item-IsBounded i pointer s v = ground (arith, get_immediate-lt bits flavour pointer)

  scan-IsBounded :
      (bytes : List ℕ) (i n : ℕ) (s : Specials)
      → IsBounded (2 ^ bits) items s
      → IsBounded (2 ^ bits) items (scan (pointer_decoder bits) bytes i n s)
  unfolding scan
  scan-IsBounded bytes i zero s v = v
  scan-IsBounded bytes i (suc n) s v =
      scan-IsBounded bytes (i + 1) n _ (scan_item-IsBounded i (pointer_at bytes i) s v)

AtMost-of_test : (o : Option ℕ) (x : ℕ) → overflows_heap o x ≡ false → AtMost x o
AtMost-of_test none x h = tt
AtMost-of_test (some v) x h = ground arith

finish_inversion :
    (bytes : List ℕ) (max_size bits n : ℕ) (s : Specials) (r : ℕ × PacketHeader)
    → finish bytes max_size bits n s ≡ some r
    → (cnt offset len : ℕ) × (s.heap_cnt ≡ some cnt)
      × (s.payload_offset ≡ some offset)
      × (s.payload_length ≡ some len)
      × (finish_with bytes max_size bits n s.first_regular cnt s.heap_length offset len ≡ some r)
unfolding finish
finish_inversion bytes max_size bits n s r h = ground arith

-- The promises on a decoded packet of `size` bytes at `bytes`.
pub record IsDecoded (bytes : List ℕ) (max_size size : ℕ) (out : PacketHeader) : Type 0 where
  pub flavour : IsFlavour out.heap_address_bits
  pub size_le : size ≤ max_size
  pub cnt_lt : out.heap_cnt < 2 ^ out.heap_address_bits
  pub heap_length_lt : Below (2 ^ out.heap_address_bits) out.heap_length
  pub offset_lt : out.payload_offset < 2 ^ out.heap_address_bits
  pub length_lt : out.payload_length < 2 ^ out.heap_address_bits
  pub in_heap : AtMost (out.payload_offset + out.payload_length) out.heap_length
  pub pointers_readable : out.n_items * item_pointer_size ≤ length out.pointers
  pub payload_readable : out.payload_length ≤ length out.payload
  pub payload_last : length out.payload + size ≡ length bytes + out.payload_length

module _ (bytes : List ℕ) (max_size bits n : ℕ) (f : IsFlavour bits) (few : n < 2 ^ 16)
    (inside : max_size ≤ length bytes) (fits : n * item_pointer_size + 8 ≤ max_size) where
  range-le : 2 ^ bits ≤ 2 ^ 63
  range-le = pow-le-pow_right (omega arith) {i = bits} {j = 63} (omega arith)

  no_wrap :
      (len : ℕ)
      → len < 2 ^ bits
      → (len + n * item_pointer_size + 8) % 2 ^ 64 ≡ len + n * item_pointer_size + 8
  no_wrap len h = omega (arith, range-le)

  finish_with-IsDecoded :
      (first cnt : ℕ) (heap_length : Option ℕ) (offset len size : ℕ) (out : PacketHeader)
      → first ≤ n
      → cnt < 2 ^ bits
      → Below (2 ^ bits) heap_length
      → offset < 2 ^ bits
      → len < 2 ^ bits
      → finish_with bytes max_size bits n first cnt heap_length offset len ≡ some (size, out)
      → IsDecoded bytes max_size size out
  unfolding finish_with
  finish_with-IsDecoded first cnt heap_length offset len size out fl c k o l h =
      let e = no_wrap len l in
      let p = length-drop (8 + first * item_pointer_size) bytes in
      let q = length-drop (8 + first * item_pointer_size + (n - first) * item_pointer_size) bytes in
      let t = AtMost-of_test heap_length (offset + len) in
      record {
        flavour = ground (arith, f);
        size_le = ground arith;
        cnt_lt = ground arith;
        heap_length_lt = ground (arith, k);
        offset_lt = ground arith;
        length_lt = ground arith;
        in_heap = ground (arith, t);
        pointers_readable = ground arith;
        payload_readable = ground arith;
        payload_last = ground arith;
      }

  finish-IsDecoded :
      (s : Specials) (size : ℕ) (out : PacketHeader)
      → IsBounded (2 ^ bits) n s
      → finish bytes max_size bits n s ≡ some (size, out)
      → IsDecoded bytes max_size size out
  finish-IsDecoded s size out v h =
      let (cnt, offset, len, ec, eo, el, e) =
        finish_inversion bytes max_size bits n s (size, out) h in
      finish_with-IsDecoded s.first_regular cnt s.heap_length offset len size out v.first_le
        (ground (arith, v.cnt_lt)) v.heap_length_lt (ground (arith, v.offset_lt))
        (ground (arith, v.length_lt)) e

decode_items-IsDecoded :
    (bytes : List ℕ) (max_size bits n size : ℕ) (out : PacketHeader)
    → IsFlavour bits
    → n < 2 ^ 16
    → max_size ≤ length bytes
    → decode_items bytes max_size (some (bits, n)) ≡ some (size, out)
    → IsDecoded bytes max_size size out
decode_items-IsDecoded bytes max_size bits n size out f few inside h =
    finish-IsDecoded bytes max_size bits n f few inside (ground arith)
      (scan (pointer_decoder bits) bytes 0 n (not_found n)) size out
      (scan-IsBounded bits n f bytes 0 n (not_found n) (omega arith)) (ground arith)

-- A packet that decode_packet accepts: its flavour is a SPEAD-64 one, its size is within the data,
-- its heap_cnt, heap_length (if given), payload_offset and payload_length fit the address bits, its
-- payload lies within a given heap length, and the item pointers and
-- the payload that the header points to can be read within the data.
pub decode_packet-IsDecoded :
    (bytes : List ℕ) (max_size size : ℕ) (out : PacketHeader)
    → max_size ≤ length bytes
    → decode_packet bytes max_size ≡ some (size, out)
    → IsDecoded bytes max_size size out
unfolding decode_packet
decode_packet-IsDecoded bytes max_size size out inside h =
    elim (Option-cases (decode_header bytes)) [
      | inl e ↦ absurd (ground arith)
      | inr (found, e) ↦
          let (f, few) = decode_header-IsFlavour bytes found.0 found.1 e in
          decode_items-IsDecoded bytes max_size found.0 found.1 size out f few inside (ground arith)
    ]
