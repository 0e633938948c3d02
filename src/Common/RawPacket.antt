-- ===== src/Common/RawPacket.antt =====
-- Raw Ethernet frames: src/common_raw_packet.cpp and include/spead2/common_raw_packet.h. A
-- packet_buffer is the list of its bytes.
use spead.Prelude.{
  ℕ, zero, suc, ◌+◌, ◌-◌, ◌*◌, ◌/◌, ◌%◌, ◌^◌, Bool, true, false, ◌||◌, not, List, [], ◌∷◌, ltb,
  ◌==◌, if◌then◌else◌, length, take, drop, set, bit_and, bit_or,
}
use spead.Bytes.{load_bytes}
pub mod Words
pub mod Fields
pub mod Datagram
pub mod Checksum
mod Runs

-- The fields of one byte and of two.
unfoldable pub get_byte : List ℕ → ℕ → ℕ
get_byte bytes offset = load_bytes 1 0 (drop offset bytes)

unfoldable pub get_be : List ℕ → ℕ → ℕ
get_be bytes offset = load_bytes 2 0 (drop offset bytes)

unfoldable pub set_be : List ℕ → ℕ → ℕ → List ℕ
set_be bytes offset value =
    set (set bytes offset (value / 2 ^ 8 % 2 ^ 8)) (offset + 1) (value % 2 ^ 8)

-- What can be thrown: std::length_error, for each of its messages, and packet_type_error.
pub data RawError : Type 0 where
  too_small_udp too_small_ipv4 too_small_ethernet bad_udp_length bad_ihl bad_length : RawError
  bad_ethertype not_ipv4 fragmented not_udp : RawError

pub data Outcome : Type 0 where
  payload : List ℕ → Outcome
  thrown : RawError → Outcome

-- The constructor of udp_packet, and udp_packet::payload.
unfoldable pub udp_payload : List ℕ → Outcome
udp_payload bytes =
    let len = get_be bytes 4 in
    if ltb (length bytes) 8
    then thrown too_small_udp
    else if ltb (length bytes) len || ltb len 8
    then thrown bad_udp_length
    else payload (take (len - 8) (drop 8 bytes))

unfoldable pub header_length : List ℕ → ℕ
header_length bytes = 4 * bit_and (get_byte bytes 0) 0xf

unfoldable pub version : List ℕ → ℕ
version bytes = get_byte bytes 0 / 2 ^ 4

-- With flag_more_fragments.
unfoldable pub is_fragment : List ℕ → Bool
is_fragment bytes = not (bit_and (get_be bytes 6) (bit_or 0x2000 0x1fff) == 0)

-- ipv4_packet::payload_udp, and the payload of its result.
unfoldable pub payload_udp : List ℕ → Outcome
payload_udp bytes =
    let h = header_length bytes in
    let len = get_be bytes 2 in
    if ltb (length bytes) h || ltb h 20
    then thrown bad_ihl
    else if ltb (length bytes) len || ltb len h
    then thrown bad_length
    else udp_payload (take (len - h) (drop h bytes))

-- udp_from_ethernet, with the constructors of ethernet_frame and of ipv4_packet.
unfoldable pub udp_from_ethernet : List ℕ → Outcome
udp_from_ethernet frame =
    let ipv4 = drop 14 frame in
    if ltb (length frame) 14
    then thrown too_small_ethernet
    else if not (get_be frame 12 == 0x0800)
    then thrown bad_ethertype
    else if ltb (length ipv4) 20
    then thrown too_small_ipv4
    else if not (version ipv4 == 4)
    then thrown not_ipv4
    else if is_fragment ipv4
    then thrown fragmented
    else if not (get_byte ipv4 9 == 0x11)
    then thrown not_udp
    else payload_udp ipv4

-- The loops of update_checksum: the sum of the words of the header, and its carries, for which as
-- many rounds as the sum are enough.
unfoldable pub sum_words : ℕ → List ℕ → ℕ
sum_words zero bytes = 0
sum_words (suc n) bytes = get_be bytes 0 + sum_words n (drop 2 bytes)

unfoldable pub add_carries : ℕ → ℕ → ℕ
add_carries zero sum = sum
add_carries (suc fuel) sum =
    let rest = add_carries fuel (sum % 2 ^ 16 + sum / 2 ^ 16) in
    if ltb 0xffff sum then rest else sum

unfoldable pub update_checksum : List ℕ → List ℕ
update_checksum bytes =
    let cleared = set_be bytes 10 0 in
    let sum = sum_words (header_length bytes / 2) cleared in
    set_be cleared 10 (0xffff - add_carries sum sum)

-- multicast_mac, from the four bytes of an address.
pub multicast_mac : ℕ → ℕ → ℕ → ℕ → List ℕ
multicast_mac a b c d = 0x01 ∷ 0x00 ∷ 0x5e ∷ bit_and b 0x7f ∷ c ∷ d ∷ []
