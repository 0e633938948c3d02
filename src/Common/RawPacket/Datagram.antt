-- ===== src/Common/RawPacket/Datagram.antt =====
-- Which frames udp_from_ethernet of src/common_raw_packet.cpp takes, and what it gives.
use spead.Prelude.{
  ℕ, ◌+◌, ◌-◌, ◌/◌, ◌%◌, ◌^◌, ◌≤◌, ◌<◌, ◌≡◌, ◌↔◌, sym, ap, ap₂, ◌∙◌, List, length, take, drop,
  arith,
}
use spead.Common.RawPacket.{payload, get_be, header_length, version, udp_from_ethernet}
use spead.Common.RawPacket.Words.{
  byte_at, word_at, header_size, get_byte-drop, get_be-word_at, get_be-drop,
  header_length-header_size, is_fragment-low, low-is_fragment,
}
use spead.Common.RawPacket.Fields.{Reads, read_payload, taken-Reads, Reads-taken}

-- The length of the IPv4 header, and of the UDP packet behind it.
abbrev pub ip_header : List ℕ → ℕ
ip_header frame = header_size (byte_at 14 frame)

abbrev pub udp_size : List ℕ → ℕ
udp_size frame = word_at (14 + ip_header frame + 4) frame

-- A frame of the type of IPv4, with a header of version 4 that says neither that more fragments
-- follow nor an offset, and with a UDP packet within the total length, which is within the frame.
pub record IsDatagram (frame : List ℕ) : Type 0 where
  pub ethertype : word_at 12 frame ≡ 0x0800
  pub ipv4 : byte_at 14 frame / 16 ≡ 4
  pub no_more : word_at 20 frame / 2 ^ 13 % 2 ≡ 0
  pub no_offset : word_at 20 frame % 2 ^ 13 ≡ 0
  pub udp : byte_at 23 frame ≡ 0x11
  pub header : 20 ≤ ip_header frame
  pub total : 14 + word_at 16 frame ≤ length frame
  pub inside : ip_header frame + udp_size frame ≤ word_at 16 frame
  pub udp_header : 8 ≤ udp_size frame

-- Its payload: what follows the three headers, as long as the UDP packet says.
abbrev pub datagram : List ℕ → List ℕ
datagram frame = take (udp_size frame - 8) (drop (14 + ip_header frame + 8) frame)

module _ (frame : List ℕ) where
  same_header : header_length (drop 14 frame) ≡ ip_header frame
  same_header =
      header_length-header_size (drop 14 frame) ∙ ap header_size (get_byte-drop 14 0 frame)

  same_version : version (drop 14 frame) ≡ byte_at 14 frame / 16
  unfolding version
  same_version = ap (λ b. b / 16) (get_byte-drop 14 0 frame)

  -- The length of the UDP packet, where it is within the frame.
  same_size :
      14 + ip_header frame + 5 < length frame
      → get_be (drop (14 + header_length (drop 14 frame)) frame) 4 ≡ udp_size frame
  same_size room =
      ap (λ h. get_be (drop (14 + h) frame) 4) same_header
      ∙ get_be-drop (14 + ip_header frame) 4 frame (omega arith)

  same_payload : 14 + ip_header frame + 5 < length frame → read_payload frame ≡ datagram frame
  same_payload room =
      ap₂ (λ n h. take (n - 8) (drop (14 + h + 8) frame)) (same_size room) same_header

  Reads-room : Reads frame → 14 + ip_header frame + 8 ≤ length frame
  Reads-room r = omega (arith, r.total, r.inside, r.udp_header, same_header)

  Reads-IsDatagram : Reads frame → IsDatagram frame
  Reads-IsDatagram r =
      let room = Reads-room r in
      let same = same_header in
      let header = r.header in
      let size = same_size (omega arith) in
      let word = get_be-drop 14 6 frame (omega arith) in
      let low = is_fragment-low (drop 14 frame) r.whole in
      let total_word = get_be-drop 14 2 frame (omega arith) in
      record {
        ethertype = sym (get_be-word_at 12 frame (omega arith)) ∙ r.ethertype;
        ipv4 = sym same_version ∙ r.ipv4;
        no_more = omega arith;
        no_offset = omega arith;
        udp = sym (get_byte-drop 14 9 frame) ∙ r.udp;
        header = omega arith;
        total = omega (arith, r.total);
        inside = omega (arith, r.inside);
        udp_header = omega (arith, r.udp_header);
      }

  IsDatagram-Reads : IsDatagram frame → Reads frame
  IsDatagram-Reads d =
      let room : 14 + ip_header frame + 8 ≤ length frame =
        omega (arith, d.total, d.inside, d.udp_header) in
      let same = same_header in
      let header = d.header in
      let size = same_size (omega arith) in
      let word = get_be-drop 14 6 frame (omega arith) in
      let total_word = get_be-drop 14 2 frame (omega arith) in
      record {
        ethertype = get_be-word_at 12 frame (omega arith) ∙ d.ethertype;
        ipv4 = same_version ∙ d.ipv4;
        whole = low-is_fragment (drop 14 frame) (omega (arith, d.no_more, d.no_offset));
        udp = get_byte-drop 14 9 frame ∙ d.udp;
        header = omega arith;
        total = omega (arith, d.total);
        inside = omega (arith, d.inside);
        udp_header = omega (arith, d.udp_header);
      }

-- udp_from_ethernet returns a payload just for the frames of an IPv4 header of at least 20 bytes,
-- of version 4 and of no fragment, with a UDP packet of at least 8 bytes within the total length,
-- which is within the frame; and the payload is then what follows the three headers in the frame, as
-- long as the length of the UDP packet says. For all other frames it throws.
pub udp_from_ethernet_lem :
    (frame p : List ℕ)
    → (udp_from_ethernet frame ≡ payload p) ↔ (IsDatagram frame × (p ≡ datagram frame))
udp_from_ethernet_lem frame p = (
  λ e.
      let (r, same) = taken-Reads frame p e in
      let room = Reads-room frame r in
      (Reads-IsDatagram frame r, same ∙ same_payload frame (omega arith)),
  λ d.
      let r = IsDatagram-Reads frame d.0 in
      let room = Reads-room frame r in
      Reads-taken frame r ∙ ap payload (same_payload frame (omega arith) ∙ sym d.1),
)
