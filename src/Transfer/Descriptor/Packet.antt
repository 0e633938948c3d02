-- ===== src/Transfer/Descriptor/Packet.antt =====
-- The packet of a descriptor: encode_descriptor of src/send_heap.cpp, decode_packet of
-- src/recv_packet.cpp.
use native.Mathlib.Nat.{pow-le-pow_right}
use spead.Prelude.{
  ℕ, suc, ◌+◌, ◌^◌, ◌≤◌, ◌<◌, ◌≡◌, refl, sym, ap, ap₂, ◌∙◌, List, [], ◌∷◌, ◌++◌, some, All, map,
  length, arith, length-append,
}
use spead.Bytes.{store_be}
use spead.Pointer.{
  PointerDecoder, pointer_decoder, get_id, encode_address, encode_immediate, IsFlavour, Fits,
  heap_cnt_id, heap_length_id, payload_offset_id, payload_length_id,
}
use spead.Pointer.RoundTrip.{
  decode-encode_address, decode-encode_immediate, encode_address-lt, encode_immediate-lt,
}
use spead.Recv.Packet.{PacketHeader, decode_packet}
use spead.Recv.Packet.Header.{header_word}
use spead.Send.Generator as Generator
use spead.Recv.Packet.Items.{IsRegular, join, two_pow_bits}
use spead.Recv.Packet.Accept as Accept
use spead.Recv.Packet.Accept.{decode_packet-header}
use spead.Send.Descriptor.{words, descriptor_header}
use spead.Transfer.Words.{header_word_same, immediate-regular, address-regular, stored-IsRegular}
use spead.Transfer.Descriptor.Segments.{Segment, addresses, contents, AllFit}
use spead.Transfer.Descriptor.Stored.{Admitted}
use spead.Transfer.Descriptor.Taken.{whole_packet}

join-words : (ws : List ℕ) → join (map store_be ws) ≡ words ws
join-words [] = refl
join-words (w ∷ ws) = ap (λ l. store_be w ++ l) (join-words ws)

length-map : (ws : List ℕ) → length (map store_be ws) ≡ length ws
length-map [] = refl
length-map (w ∷ ws) = ap suc (length-map ws)

one_fits : (bits : ℕ) → IsFlavour bits → 1 < 2 ^ bits
one_fits bits fl =
    let low : 2 ^ 1 ≤ 2 ^ bits =
      pow-le-pow_right {n = 2} (omega arith) {i = 1} {j = bits} fl.positive in
    omega arith

module _ (bits : ℕ) (fl : IsFlavour bits) where
  abbrev d : PointerDecoder
  d = pointer_decoder bits

  addresses-Admitted :
      (o n : ℕ) (segments : List Segment)
      → AllFit bits o segments
      → o + length (contents segments) ≤ n
      → All (Admitted d n) (addresses bits o segments)
  addresses-Admitted o n [] fits le = tt
  addresses-Admitted o n (s ∷ segments) fits le =
      let (_, id, address) = decode-encode_address bits fl s.id o fits.0 in
      let low = encode_address-lt bits fl s.id o fits.0 in
      let own = fits.1 in
      let sum = length-append s.bytes (contents segments) in
      (
        record {
          word = omega arith;
          own = omega (arith, id, own);
          placed = λ e. omega (arith, address);
        },
        addresses-Admitted (o + length s.bytes) n segments fits.2 (omega arith),
      )

  addresses-IsRegular :
      (o : ℕ) (segments : List Segment)
      → AllFit bits o segments
      → All (IsRegular bits) (map store_be (addresses bits o segments))
  addresses-IsRegular o [] fits = tt
  addresses-IsRegular o (s ∷ segments) fits =
      let w = encode_address bits s.id o in
      let low = encode_address-lt bits fl s.id o fits.0 in
      (
        stored-IsRegular bits fl w (omega arith) (address-regular bits fl s.id o fits.0),
        addresses-IsRegular (o + length s.bytes) segments fits.2,
      )

  addresses-ids :
      (o : ℕ) (segments : List Segment)
      → AllFit bits o segments
      → map (get_id d) (addresses bits o segments) ≡ map (λ s. s.id) segments
  addresses-ids o [] fits = refl
  addresses-ids o (s ∷ segments) fits =
      let (_, id, _) = decode-encode_address bits fl s.id o fits.0 in
      ap₂ ◌∷◌ id (addresses-ids (o + length s.bytes) segments fits.2)

  module _ (id value : ℕ) (fits : Fits bits id value) (own : 6 < id) (segments : List Segment)
      (all : AllFit bits 0 segments) where
    abbrev ws : List ℕ
    ws = encode_immediate bits id value ∷ addresses bits 0 segments

    abbrev payload : List ℕ
    payload = contents segments

    pub all-Admitted : All (Admitted d (length payload)) ws
    all-Admitted =
        let (flag, same_id, _) = decode-encode_immediate bits fl id value fits in
        let low = encode_immediate-lt bits fl id value fits in
        (
          record {
            word = low;
            own = omega (arith, same_id, own);
            placed = λ e. absurd (ground (arith, flag));
          },
          addresses-Admitted 0 (length payload) segments all (omega arith),
        )

    pub ids : map (get_id d) ws ≡ id ∷ map (λ s. s.id) segments
    ids =
        let (_, same_id, _) = decode-encode_immediate bits fl id value fits in
        ap₂ ◌∷◌ same_id (addresses-ids 0 segments all)

    all-IsRegular : All (IsRegular bits) (map store_be ws)
    all-IsRegular = (
      stored-IsRegular bits fl (encode_immediate bits id value)
          (encode_immediate-lt bits fl id value fits)
          (immediate-regular bits fl id value fits (omega arith)),
      addresses-IsRegular 0 segments all,
    )

    -- The bytes that encode_descriptor makes.
    abbrev pub blob : List ℕ
    blob =
        store_be (descriptor_header bits (length ws + 4))
        ++ (words (
              encode_immediate bits heap_cnt_id 1
              ∷ encode_immediate bits heap_length_id (length payload)
              ∷ encode_immediate bits payload_offset_id 0
              ∷ encode_immediate bits payload_length_id (length payload)
              ∷ ws)
            ++ payload)

    abbrev accepted : List ℕ
    accepted = Accept.packet bits 1 (length payload) 0 (map store_be ws) payload

    header_same :
        length ws + 4 < 2 ^ 16
        → descriptor_header bits (length ws + 4) ≡ header_word bits (length (map store_be ws) + 4)
    unfolding descriptor_header Generator.header_word
    header_same few =
        header_word_same bits (length ws) fl few
        ∙ ap (λ n. header_word bits (n + 4)) (sym (length-map ws))

    blob_same : length ws + 4 < 2 ^ 16 → blob ≡ accepted
    blob_same few =
        let special = Accept.special bits 1 (length payload) 0 (map store_be ws) payload in
        ap₂
          (λ (w : ℕ) (l : List ℕ).
            store_be w
            ++ (special heap_cnt_id 1
                ++ (special heap_length_id (length payload)
                    ++ (special payload_offset_id 0
                        ++ (special payload_length_id (length payload) ++ (l ++ payload))))))
          (header_same few) (sym (join-words ws))

    pub decode_packet-blob :
        (bug_compat : ℕ)
        → length ws + 4 < 2 ^ 16
        → length payload < 2 ^ bits
        → decode_packet blob (length blob)
          ≡ some (length blob, whole_packet bits 1 bug_compat ws payload)
    decode_packet-blob bug_compat few small =
        let pointers = map store_be ws in
        let n = length-map ws in
        let room = (two_pow_bits bits fl).0 in
        let header_here : Accept.header bits 1 (length payload) 0 pointers payload
            ≡ whole_packet bits 1 bug_compat ws payload =
          ap₂
            (λ (k : ℕ) (l : List ℕ). record (whole_packet bits 1 bug_compat ws payload) {
              n_items = k;
              pointers = l ++ payload;
            })
            n (join-words ws) in
        ap (λ b. decode_packet b (length b)) (blob_same few)
        ∙ decode_packet-header bits 1 (length payload) 0 pointers payload fl (omega arith)
            all-IsRegular (one_fits bits fl) small (omega arith)
        ∙ ap₂ (λ (b : List ℕ) (p : PacketHeader). some (length b, p)) (sym (blob_same few))
            header_here
