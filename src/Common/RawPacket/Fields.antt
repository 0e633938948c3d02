-- ===== src/Common/RawPacket/Fields.antt =====
-- What udp_from_ethernet of src/common_raw_packet.cpp asks of a frame, in the fields that it reads.
use spead.Prelude.{
  ℕ, zero, suc, ◌+◌, ◌-◌, ◌≤◌, ◌≡◌, refl, sym, ap, ◌∙◌, false, List, [], ◌∷◌, length, take, drop,
  arith, drop-drop, take_all, length-drop, length-take,
}
use spead.Bytes.{load_bytes}
use spead.Common.RawPacket.{
  payload, get_be, get_byte, udp_payload, header_length, version, is_fragment, payload_udp,
  udp_from_ethernet,
}

-- The fields as the code reads them.
pub record Reads (frame : List ℕ) : Type 0 where
  pub ethertype : get_be frame 12 ≡ 0x0800
  pub ipv4 : version (drop 14 frame) ≡ 4
  pub whole : is_fragment (drop 14 frame) ≡ false
  pub udp : get_byte (drop 14 frame) 9 ≡ 0x11
  pub header : 20 ≤ header_length (drop 14 frame)
  pub total : 14 + get_be (drop 14 frame) 2 ≤ length frame
  pub inside :
      header_length (drop 14 frame) + get_be (drop (14 + header_length (drop 14 frame)) frame) 4
      ≤ get_be (drop 14 frame) 2
  pub udp_header : 8 ≤ get_be (drop (14 + header_length (drop 14 frame)) frame) 4

-- What follows the three headers, as long as the UDP packet says.
abbrev pub read_payload : List ℕ → List ℕ
read_payload frame =
    let h = header_length (drop 14 frame) in
    take (get_be (drop (14 + h) frame) 4 - 8) (drop (14 + h + 8) frame)

take-take : (m n : ℕ) (xs : List ℕ) → m ≤ n → take m (take n xs) ≡ take m xs
take-take zero n xs h = refl
take-take (suc m) zero xs h = absurd (omega arith)
take-take (suc m) (suc n) [] h = refl
take-take (suc m) (suc n) (x ∷ xs) h = ap (◌∷◌ x) (take-take m n xs (omega arith))

drop-take : (m n : ℕ) (xs : List ℕ) → drop m (take n xs) ≡ take (n - m) (drop m xs)
drop-take zero n xs = let same : n - 0 ≡ n = omega arith in rw same refl
drop-take (suc m) zero xs = let nil : 0 - suc m ≡ 0 = omega arith in rw nil refl
drop-take (suc m) (suc n) [] = sym (take_all (suc n - suc m) [] (omega arith))
drop-take (suc m) (suc n) (x ∷ xs) =
    let less : suc n - suc m ≡ n - m = omega arith in rw less (drop-take m n xs)

two_of_take : (n : ℕ) (xs : List ℕ) → 2 ≤ n → load_bytes 2 0 (take n xs) ≡ load_bytes 2 0 xs
unfolding load_bytes
two_of_take zero xs h = absurd (omega arith)
two_of_take (suc zero) xs h = absurd (omega arith)
two_of_take (suc (suc n)) [] h = refl
two_of_take (suc (suc n)) (x ∷ []) h = refl
two_of_take (suc (suc n)) (x ∷ y ∷ xs) h = refl

get_be-take : (n : ℕ) (bytes : List ℕ) → 8 ≤ n → get_be (take n bytes) 4 ≡ get_be bytes 4
unfolding get_be
get_be-take n bytes h =
    ap (load_bytes 2 0) (drop-take 4 n bytes) ∙ two_of_take (n - 4) (drop 4 bytes) (omega arith)

udp_payload-taken :
    (bytes p : List ℕ)
    → udp_payload bytes ≡ payload p
    → (8 ≤ get_be bytes 4)
      × (get_be bytes 4 ≤ length bytes)
      × (p ≡ take (get_be bytes 4 - 8) (drop 8 bytes))
unfolding udp_payload
udp_payload-taken bytes p e = (ground arith, ground arith, ground arith)

udp_payload-takes :
    (bytes : List ℕ)
    → 8 ≤ get_be bytes 4
    → get_be bytes 4 ≤ length bytes
    → udp_payload bytes ≡ payload (take (get_be bytes 4 - 8) (drop 8 bytes))
unfolding udp_payload
udp_payload-takes bytes h h' = ground arith

payload_udp-taken :
    (bytes p : List ℕ)
    → payload_udp bytes ≡ payload p
    → (20 ≤ header_length bytes)
      × (get_be bytes 2 ≤ length bytes)
      × (header_length bytes ≤ get_be bytes 2)
      × (udp_payload
            (take (get_be bytes 2 - header_length bytes) (drop (header_length bytes) bytes))
          ≡ payload p)
unfolding payload_udp
payload_udp-taken bytes p e = (ground arith, ground arith, ground arith, ground arith)

payload_udp-takes :
    (bytes : List ℕ)
    → 20 ≤ header_length bytes
    → get_be bytes 2 ≤ length bytes
    → header_length bytes ≤ get_be bytes 2
    → payload_udp bytes
      ≡ udp_payload (take (get_be bytes 2 - header_length bytes) (drop (header_length bytes) bytes))
unfolding payload_udp
payload_udp-takes bytes a b c = ground arith

udp_from_ethernet-taken :
    (frame p : List ℕ)
    → udp_from_ethernet frame ≡ payload p
    → (14 ≤ length frame)
      × (get_be frame 12 ≡ 0x0800)
      × (version (drop 14 frame) ≡ 4)
      × (is_fragment (drop 14 frame) ≡ false)
      × (get_byte (drop 14 frame) 9 ≡ 0x11)
      × (payload_udp (drop 14 frame) ≡ payload p)
unfolding udp_from_ethernet
udp_from_ethernet-taken frame p e =
    (ground arith, ground arith, ground arith, ground arith, ground arith, ground arith)

udp_from_ethernet-takes :
    (frame : List ℕ)
    → 14 ≤ length frame
    → get_be frame 12 ≡ 0x0800
    → version (drop 14 frame) ≡ 4
    → is_fragment (drop 14 frame) ≡ false
    → get_byte (drop 14 frame) 9 ≡ 0x11
    → 20 ≤ length (drop 14 frame)
    → udp_from_ethernet frame ≡ payload_udp (drop 14 frame)
unfolding udp_from_ethernet
udp_from_ethernet-takes frame a b c d e f = ground arith

-- The UDP packet as the IPv4 packet delimits it.
module _ (frame : List ℕ) where
  abbrev inner : List ℕ
  inner = drop 14 frame

  abbrev h : ℕ
  h = header_length inner

  abbrev total : ℕ
  total = get_be inner 2

  abbrev udp_bytes : List ℕ
  udp_bytes = take (total - h) (drop h inner)

  inner-drop : (n : ℕ) → drop n inner ≡ drop (14 + n) frame
  inner-drop n = drop-drop n 14 frame

  udp_length : 8 ≤ total - h → get_be udp_bytes 4 ≡ get_be (drop (14 + h) frame) 4
  udp_length room =
      get_be-take (total - h) (drop h inner) room ∙ ap (λ l. get_be l 4) (inner-drop h)

  udp_bytes-length : 14 + total ≤ length frame → length udp_bytes ≡ total - h
  udp_bytes-length fits =
      omega
        (arith, length-take (total - h) (drop h inner), length-drop h inner, length-drop 14 frame)

  same_payload :
      (len : ℕ)
      → len ≤ total - h
      → take (len - 8) (drop 8 udp_bytes) ≡ take (len - 8) (drop (14 + h + 8) frame)
  same_payload len fits =
      ap (take (len - 8)) (drop-take 8 (total - h) (drop h inner))
      ∙ take-take (len - 8) (total - h - 8) (drop 8 (drop h inner)) (omega arith)
      ∙ ap (λ l. take (len - 8) (drop 8 l)) (inner-drop h)
      ∙ ap (take (len - 8)) (drop-drop 8 (14 + h) frame)

  pub taken-Reads :
      (p : List ℕ) → udp_from_ethernet frame ≡ payload p → Reads frame × (p ≡ read_payload frame)
  taken-Reads p e =
      let (long, type, four, whole, udp, rest) = udp_from_ethernet-taken frame p e in
      let (header, fits, order, rest') = payload_udp-taken inner p rest in
      let (low, high, same) = udp_payload-taken udp_bytes p rest' in
      let room = length-drop 14 frame in
      let end : 14 + total ≤ length frame = omega arith in
      let size = udp_bytes-length end in
      let len = udp_length (omega arith) in
      (
        record {
          ethertype = type;
          ipv4 = four;
          whole = whole;
          udp = udp;
          header = header;
          total = end;
          inside = omega arith;
          udp_header = omega arith;
        },
        same
            ∙ same_payload (get_be udp_bytes 4) (omega arith)
            ∙ ap (λ n. take (n - 8) (drop (14 + h + 8) frame)) len,
      )

  pub Reads-taken : Reads frame → udp_from_ethernet frame ≡ payload (read_payload frame)
  Reads-taken d =
      let room = length-drop 14 frame in
      let header = d.header in
      let inside = d.inside in
      let total_fits = d.total in
      let low = d.udp_header in
      let size = udp_bytes-length total_fits in
      let len = udp_length (omega arith) in
      udp_from_ethernet-takes frame (omega arith) d.ethertype d.ipv4 d.whole d.udp (omega arith)
      ∙ payload_udp-takes inner header (omega arith) (omega arith)
      ∙ udp_payload-takes udp_bytes (omega arith) (omega arith)
      ∙ ap payload (
          same_payload (get_be udp_bytes 4) (omega arith)
          ∙ ap (λ n. take (n - 8) (drop (14 + h + 8) frame)) len)
