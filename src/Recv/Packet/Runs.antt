-- ===== src/Recv/Packet/Runs.antt =====
-- Packets of concrete bytes.
use spead.Prelude.{ℕ, ◌≡◌, refl, List, [], ◌∷◌, ◌++◌, none, some, length, arith}
use spead.Bytes.{store_be, load_bytes, load_be}
use spead.Pointer.{IsFlavour, get_id, get_address, get_immediate, is_immediate}
use spead.Recv.Packet.{
  PacketHeader, extract_bits, decode_header, find_payload_length, note_immediate, scan_item, scan,
  finish_with, finish, decode_packet,
}
use spead.Recv.Packet.Header.{header_word, decode_header_of_word}
use spead.Recv.Packet.Bounds.{IsDecoded, decode_packet-IsDecoded}
use spead.Recv.Packet.Items.{IsRegular}
use spead.Recv.Packet.Accept.{packet, decode_packet-header}
use spead.Recv.Packet.Accept

-- Flavour SPEAD-64-40 with heap 7 of 3 bytes, all in this packet, and one immediate item 0x1000.
abbrev packet_bytes : List ℕ
packet_bytes =
    0x53 ∷ 4 ∷ 3 ∷ 5 ∷ 0 ∷ 0 ∷ 0 ∷ 5 ∷ 0x80 ∷ 0 ∷ 1 ∷ 0 ∷ 0 ∷ 0 ∷ 0 ∷ 7 ∷ 0x80 ∷ 0 ∷ 2 ∷ 0 ∷ 0 ∷ 0
    ∷ 0 ∷ 3 ∷ 0x80 ∷ 0 ∷ 3 ∷ 0 ∷ 0 ∷ 0 ∷ 0 ∷ 0 ∷ 0x80 ∷ 0 ∷ 4 ∷ 0 ∷ 0 ∷ 0 ∷ 0 ∷ 3 ∷ 0x90 ∷ 0 ∷ 0 ∷ 0
    ∷ 0 ∷ 0 ∷ 0 ∷ 9 ∷ 65 ∷ 66 ∷ 67 ∷ []

abbrev packet_header : PacketHeader
packet_header = record {
  heap_address_bits = 40;
  n_items = 1;
  heap_cnt = 7;
  heap_length = some 3;
  payload_offset = 0;
  payload_length = 3;
  pointers = 0x90 ∷ 0 ∷ 0 ∷ 0 ∷ 0 ∷ 0 ∷ 0 ∷ 9 ∷ 65 ∷ 66 ∷ 67 ∷ [];
  payload = 65 ∷ 66 ∷ 67 ∷ [];
}

decoded : decode_packet packet_bytes 51 ≡ some (51, packet_header)
unfolding load_bytes load_be extract_bits decode_header find_payload_length note_immediate scan_item
    scan finish_with finish decode_packet get_id get_address get_immediate is_immediate
decoded = refl

truncated : decode_packet packet_bytes 50 ≡ none
unfolding load_bytes load_be extract_bits decode_header find_payload_length note_immediate scan_item
    scan finish_with finish decode_packet get_id get_address get_immediate is_immediate
truncated = refl

header : decode_header packet_bytes ≡ some (40, 5)
unfolding load_bytes load_be extract_bits decode_header
header = refl

IsFlavour-48 : IsFlavour 48
IsFlavour-48 = record { positive = omega arith; below = omega arith; whole = refl }

decode_header_of_word_example : decode_header (store_be (header_word 48 5) ++ 1 ∷ []) ≡ some (48, 5)
decode_header_of_word_example = decode_header_of_word 48 5 (1 ∷ []) IsFlavour-48 (omega arith)

decode_packet-IsDecoded_example : IsDecoded packet_bytes 51 51 packet_header
decode_packet-IsDecoded_example =
    decode_packet-IsDecoded packet_bytes 51 51 packet_header (omega arith) decoded

-- An item at address 2 of the heap.
abbrev an_item : List ℕ
an_item = 0x10 ∷ 0 ∷ 0 ∷ 0 ∷ 0 ∷ 0 ∷ 0 ∷ 2 ∷ []

IsFlavour-40 : IsFlavour 40
IsFlavour-40 = record { positive = omega arith; below = omega arith; whole = refl }

IsRegular-an_item : IsRegular 40 an_item
unfolding load_bytes load_be get_id is_immediate
IsRegular-an_item = record { size = refl; regular = λ rest. refl }

abbrev small_packet : List ℕ
small_packet = packet 40 7 10 3 (an_item ∷ []) (65 ∷ 66 ∷ [])

decode_packet-header_example :
    decode_packet small_packet (length small_packet)
    ≡ some (length small_packet, Accept.header 40 7 10 3 (an_item ∷ []) (65 ∷ 66 ∷ []))
decode_packet-header_example =
    decode_packet-header 40 7 10 3 (an_item ∷ []) (65 ∷ 66 ∷ []) IsFlavour-40 (omega arith)
      (IsRegular-an_item, tt) (omega arith) (omega arith) (omega arith)
