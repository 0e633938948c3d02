-- ===== src/Recv/Packet/Accept.antt =====
-- Packets that decode_packet accepts, and what it reads from them.
use spead.Prelude.{
  ℕ, suc, ◌+◌, ◌-◌, ◌*◌, ◌%◌, ◌^◌, ◌≤◌, ◌<◌, ◌≡◌, refl, sym, ap, ◌∙◌, false, List, ◌++◌, some, All,
  length, drop, ltb, arith, length-append, drop-append, drop_all, drop-drop,
}
use spead.Bytes.{load_be, store_be, load_be-store_be}
use spead.Pointer.{
  pointer_decoder, encode_immediate, IsFlavour, item_pointer_size, heap_cnt_id, heap_length_id,
  payload_offset_id, payload_length_id,
}
use spead.Pointer.RoundTrip.{encode_immediate-lt}
use spead.Recv.Packet.{
  PacketHeader, Specials, pointer_at, note_immediate, scan_item, scan, not_found, finish,
  decode_header, decode_packet,
}
use spead.Recv.Packet.Header.{header_word, decode_header_of_word}
use spead.Recv.Packet.Items.{
  IsRegular, join, scan_item-special, scan-rest, join-length, two_pow_bits, special-Fits,
  finish_with-passes,
}

-- The parts of a packet after its header word.
module _ (bits cnt heap_length offset : ℕ) (pointers : List (List ℕ)) (payload : List ℕ) where
  abbrev pub special : ℕ → ℕ → List ℕ
  special id value = store_be (encode_immediate bits id value)

  abbrev pub items : List ℕ
  items = join pointers ++ payload

  -- The packet, as its parts follow each other.
  abbrev pub packet : List ℕ
  packet =
      store_be (header_word bits (length pointers + 4))
      ++ (special heap_cnt_id cnt
          ++ (special heap_length_id heap_length
              ++ (special payload_offset_id offset
                  ++ (special payload_length_id (length payload) ++ items))))

  abbrev pub header : PacketHeader
  header = record {
    heap_address_bits = bits;
    n_items = length pointers;
    heap_cnt = cnt;
    heap_length = some heap_length;
    payload_offset = offset;
    payload_length = length payload;
    pointers = items;
    payload = payload;
  }

  abbrev found : Specials
  found = record {
    heap_cnt = some cnt;
    heap_length = some heap_length;
    payload_offset = some offset;
    payload_length = some (length payload);
    first_regular = 4;
  }

  module _ (flavour : IsFlavour bits) (few : length pointers + 4 < 2 ^ 16)
      (all : All (IsRegular bits) pointers) (cnt_fits : cnt < 2 ^ bits)
      (length_fits : heap_length < 2 ^ bits) (inside : offset + length payload ≤ heap_length) where
    packet-length : length packet ≡ (length pointers + 4) * 8 + 8 + length payload
    packet-length =
        omega (arith, length-append (join pointers) payload, join-length bits pointers all)

    packet-header : decode_header packet ≡ some (bits, length pointers + 4)
    packet-header = decode_header_of_word bits (length pointers + 4) _ flavour few

    -- One of the four items at the front.
    special-item :
        (i id value : ℕ) (rest : List ℕ) (s : Specials)
        → drop (8 + i * 8) packet ≡ special id value ++ rest
        → 1 ≤ id
        → id ≤ 4
        → value < 2 ^ bits
        → scan_item (pointer_decoder bits) i (pointer_at packet i) s ≡ (note_immediate id value s).1
    special-item i id value rest s here low high fits =
        let f = special-Fits bits id value flavour high fits in
        let w = encode_immediate bits id value in
        ap (λ t. scan_item (pointer_decoder bits) i (load_be t) s) here
        ∙ ap (λ p. scan_item (pointer_decoder bits) i p s)
            (load_be-store_be w rest (encode_immediate-lt bits flavour id value f))
        ∙ scan_item-special bits flavour i id value s f low high

    packet-scan :
        scan (pointer_decoder bits) packet 0 (length pointers + 4) (not_found (length pointers + 4))
        ≡ found
    unfolding scan note_immediate
    packet-scan =
        let n = length pointers in
        let four_more : n + 4 ≡ suc (suc (suc (suc n))) = omega arith in
        let d = pointer_decoder bits in
        let s0 = not_found (n + 4) in
        let s1 = record s0 { heap_cnt = some cnt } in
        let s2 = record s1 { heap_length = some heap_length } in
        let s3 = record s2 { payload_offset = some offset } in
        let s4 = record s3 { payload_length = some (length payload) } in
        let offset_fits : offset < 2 ^ bits = omega arith in
        let payload_fits : length payload < 2 ^ bits = omega arith in
        ap (λ k. scan d packet 0 k s0) four_more
        ∙ ap (λ s. scan d packet 1 (suc (suc (suc n))) s)
            (special-item 0 heap_cnt_id cnt _ s0 refl (omega arith) (omega arith) cnt_fits)
        ∙ ap (λ s. scan d packet 2 (suc (suc n)) s)
            (special-item 1 heap_length_id heap_length _ s1 refl (omega arith) (omega arith)
              length_fits)
        ∙ ap (λ s. scan d packet 3 (suc n) s)
            (special-item 2 payload_offset_id offset _ s2 refl (omega arith) (omega arith)
              offset_fits)
        ∙ ap (λ s. scan d packet 4 n s)
            (special-item 3 payload_length_id (length payload) _ s3 refl (omega arith) (omega arith)
              payload_fits)
        ∙ scan-rest bits flavour pointers payload packet s4 all refl refl

    packet-payload : drop (8 + 4 * 8 + length pointers * 8) packet ≡ payload
    packet-payload =
        let size = join-length bits pointers all in
        let whole : length (join pointers) ≤ length pointers * 8 = omega arith in
        let no_more : length pointers * 8 - length (join pointers) ≡ 0 = omega arith in
        sym (drop-drop (length pointers * 8) 40 packet)
        ∙ drop-append (length pointers * 8) (join pointers) payload
        ∙ rw (no_more, drop_all (length pointers * 8) (join pointers) whole) refl

    packet-size :
        (length payload + (length pointers + 4) * item_pointer_size + 8) % 2 ^ 64 ≡ length packet
    packet-size =
        let room = (two_pow_bits bits flavour).0 in let size = packet-length in omega arith

    packet-finish :
        finish packet (length packet) bits (length pointers + 4) found
        ≡ some (length packet, header)
    unfolding finish
    packet-finish =
        let less : length pointers + 4 - 4 ≡ length pointers = omega arith in
        finish_with-passes packet (length packet) bits (length pointers + 4) 4 cnt heap_length
          offset (length payload) packet-size inside
        ∙ ap
            (λ n. some (
              length packet,
              record header { n_items = n; payload = drop (8 + 4 * 8 + n * 8) packet },
            ))
            less
        ∙ ap (λ p. some (length packet, record header { payload = p })) packet-payload

    -- Let a packet consist of the header word of a flavour with its number of items, less than
    -- 2^16, the immediate items heap_cnt, heap_length, payload_offset and payload_length, any
    -- further item pointers of eight bytes whose ID or mode is not one of these four, and the
    -- payload. If heap_cnt and heap_length fit an address and the payload lies within the heap,
    -- decode_packet accepts it, returns its length, and reads these four values, the number of
    -- further item pointers, these pointers and the payload.
    pub decode_packet-header : decode_packet packet (length packet) ≡ some (length packet, header)
    unfolding decode_packet
    decode_packet-header =
        let size = packet-length in
        let start : ltb (length packet) 8 ≡ false = ground arith in
        let long : ltb (length packet) ((length pointers + 4) * item_pointer_size + 8) ≡ false =
          ground arith in
        rw (start, packet-header, long, packet-scan) packet-finish
