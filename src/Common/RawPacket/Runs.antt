-- ===== src/Common/RawPacket/Runs.antt =====
-- A frame with a datagram of two bytes.
use spead.Prelude.{ℕ, ◌<◌, ◌⊎◌, ◌≤◌, ◌≡◌, ◌↔◌, refl, List, [], ◌∷◌, ◌++◌, length, replicate, arith}
use spead.Bytes.{load_bytes}
use spead.Common.RawPacket.{
  payload, thrown, get_byte, get_be, header_length, version, is_fragment, udp_payload, payload_udp,
  udp_from_ethernet, update_checksum, too_small_ethernet, bad_udp_length,
}
use spead.Common.RawPacket.Words.{byte_at}
use spead.Common.RawPacket.Datagram.{IsDatagram, datagram, udp_from_ethernet_lem}
use spead.Common.RawPacket.Checksum.{IsAccepted, update_checksum_lem}

-- An IPv4 header without its checksum, and a UDP packet with the length `n` in its header.
abbrev ipv4_header : List ℕ
ipv4_header =
    0x45 ∷ 0 ∷ 0 ∷ 30 ∷ 0 ∷ 0 ∷ 0x40 ∷ 0 ∷ 1 ∷ 0x11 ∷ 0 ∷ 0 ∷ 10 ∷ 0 ∷ 0 ∷ 1 ∷ 10 ∷ 0 ∷ 0 ∷ 2 ∷ []

abbrev udp_packet : ℕ → List ℕ
udp_packet n = 0 ∷ 80 ∷ 0 ∷ 81 ∷ 0 ∷ n ∷ 0 ∷ 0 ∷ 65 ∷ 66 ∷ []

abbrev frame : ℕ → List ℕ
frame n = replicate 12 0 ++ 8 ∷ 0 ∷ (ipv4_header ++ udp_packet n)

two_bytes : udp_from_ethernet (frame 10) ≡ payload (65 ∷ 66 ∷ [])
unfolding udp_from_ethernet payload_udp udp_payload header_length version is_fragment get_byte
    get_be load_bytes
two_bytes = refl

length_too_large : udp_from_ethernet (frame 11) ≡ thrown bad_udp_length
unfolding udp_from_ethernet payload_udp udp_payload header_length version is_fragment get_byte
    get_be load_bytes
length_too_large = refl

no_frame : udp_from_ethernet (1 ∷ 2 ∷ []) ≡ thrown too_small_ethernet
unfolding udp_from_ethernet
no_frame = refl

udp_from_ethernet_lem_example :
    (udp_from_ethernet (frame 10) ≡ payload (65 ∷ 66 ∷ []))
    ↔ (IsDatagram (frame 10) × ((65 ∷ 66 ∷ []) ≡ datagram (frame 10)))
udp_from_ethernet_lem_example = udp_from_ethernet_lem (frame 10) (65 ∷ 66 ∷ [])

twenty : 12 ≤ header_length ipv4_header
unfolding header_length get_byte load_bytes
twenty = omega arith

update_checksum_lem_example :
    (header_length (update_checksum ipv4_header) ≡ header_length ipv4_header)
    × (length (update_checksum ipv4_header) ≡ 20)
    × ((i : ℕ) → i < 10 ⊎ 12 ≤ i → byte_at i (update_checksum ipv4_header) ≡ byte_at i ipv4_header)
    × IsAccepted (header_length ipv4_header) (update_checksum ipv4_header)
update_checksum_lem_example = update_checksum_lem ipv4_header twenty (omega arith)
