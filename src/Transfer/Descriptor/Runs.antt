-- ===== src/Transfer/Descriptor/Runs.antt =====
-- A descriptor that is sent and received, and one whose ID is too large.
use spead.Prelude.{ℕ, ◌↔◌, ◌⊎◌, ◌≤◌, ◌^◌, refl, ◌≡◌, List, [], ◌∷◌, some, none, arith, true, length}
use spead.Pointer.{IsFlavour}
use spead.Common.Flavour.{Flavour}
use spead.Descriptor.{Descriptor, has_bits, field_size, shape_size}
use spead.Recv.Packet.{PacketHeader, decode_packet}
use spead.Recv.LiveHeap.{LiveHeap, live_heap, adapt_memcpy, add_packet, reset}
use spead.Recv.Heap.{HeapBase, heap}
use spead.Recv.Descriptor.{override_format, to_descriptor}
use spead.Send.Descriptor.{
  encoded, failed, out_of_range, encode_descriptor, can_encode_all, encoder_calls,
  description_offset, format_offset, shape_offset, dtype_offset, descriptor_payload_size,
}
use spead.Transfer.Descriptor.Encode.{IsEncodable}
use spead.Transfer.Descriptor.Exact.{encode_descriptor_lem}
use spead.Transfer.Descriptor.Complete.{descriptor_received}

abbrev flavour_40 : Flavour
flavour_40 = record { heap_address_bits = 40; bug_compat = 0 }

abbrev flavour_8 : Flavour
flavour_8 = record { heap_address_bits = 8; bug_compat = 0 }

-- A column of numbers of eight bits, in three rows.
abbrev column : Descriptor
column = record {
  id = 0x1234;
  name = 65 ∷ 66 ∷ [];
  description = [];
  format = record { type = 117; bits = 8 } ∷ [];
  shape = none ∷ some 3 ∷ [];
  numpy_header = [];
}

flavour_40-IsFlavour : IsFlavour 40
flavour_40-IsFlavour = record { positive = omega arith; below = omega arith; whole = omega arith }

column-IsEncodable : IsEncodable flavour_40 column
unfolding field_size shape_size has_bits descriptor_payload_size
column-IsEncodable = record {
  positive = omega arith;
  id_fits = omega arith;
  id_small = omega arith;
  widths = (omega arith, tt);
  dims = (tt, (omega arith, tt));
  size = omega arith;
}

descriptor_received_example :
    (bytes : List ℕ) × (packet : PacketHeader) × (h : LiveHeap) × (frozen : HeapBase)
    × (encode_descriptor column flavour_40 ≡ encoded bytes)
    × (decode_packet bytes (length bytes) ≡ some (length bytes, packet))
    × (add_packet (live_heap packet 0) packet adapt_memcpy ≡ (true, h))
    × (heap h ≡ some (frozen, reset h))
    × (to_descriptor frozen ≡ some (override_format column))
descriptor_received_example =
    descriptor_received flavour_40 column flavour_40-IsFlavour column-IsEncodable

-- An item ID of the flavour that fits no address.
oversized : encode_descriptor column flavour_8 ≡ failed
unfolding encode_descriptor can_encode_all encoder_calls descriptor_payload_size field_size
    shape_size has_bits description_offset format_offset shape_offset dtype_offset
oversized = refl

encode_descriptor_lem_example :
    ((encode_descriptor column flavour_40 ≡ out_of_range)
      ↔ ((column.id ≡ 0) ⊎ (2 ^ 23 ≤ column.id)))
    × (((bytes : List ℕ) × (encode_descriptor column flavour_40 ≡ encoded bytes))
        ↔ IsEncodable flavour_40 column)
encode_descriptor_lem_example = encode_descriptor_lem flavour_40 column flavour_40-IsFlavour
