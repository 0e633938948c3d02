-- ===== src/Send/Descriptor.antt =====
-- Encoding a descriptor: encode_descriptor and heap::add_descriptor of src/send_heap.cpp.
use spead.Prelude.{
  ℕ, ◌+◌, ◌-◌, ◌*◌, ◌/◌, ◌^◌, Bool, true, false, ◌&&◌, ◌||◌, not, List, [], ◌∷◌, ◌++◌, Option, none,
  some, ltb, leb, ◌==◌, if◌then◌else◌, drop, length, bit_or,
}
use spead.Bytes.{store_be}
use spead.Pointer.{
  encode_immediate, encode_address, item_pointer_size, heap_cnt_id, heap_length_id,
  payload_offset_id, payload_length_id,
}
use spead.Common.Flavour.{Flavour}
use spead.Descriptor.{
  Field, Descriptor, field_size, shape_size, variable_tag, descriptor_id, descriptor_name_id,
  descriptor_description_id, descriptor_shape_id, descriptor_format_id, descriptor_id_id,
  descriptor_dtype_id,
}
use spead.Send.Heap
use spead.Send.Heap.{buffer_item, add_item}

-- `none` is a failed assert.
unfoldable pub store_bytes_be : ℕ → ℕ → Option (List ℕ)
store_bytes_be len value =
    if leb len item_pointer_size && (len == item_pointer_size || ltb value (2 ^ (8 * len)))
    then some (drop (item_pointer_size - len) (store_be value))
    else none

-- A first byte and a number, together in `size` bytes, in front of the rest.
unfoldable pub store_entry : ℕ → ℕ → ℕ → Option (List ℕ) → Option (List ℕ)
store_entry size tag value rest = elim (store_bytes_be (size - 1) value) [
  | none ↦ none
  | some bytes ↦ elim rest [ none ↦ none | some more ↦ some (tag ∷ (bytes ++ more)) ]
]

-- The loops over the fields of the format and over the dimensions.
unfoldable pub store_format : ℕ → List Field → Option (List ℕ)
store_format size [] = some []
store_format size (f ∷ format) = store_entry size f.type f.bits (store_format size format)

unfoldable pub store_shape : ℕ → ℕ → List (Option ℕ) → Option (List ℕ)
store_shape tag size [] = some []
store_shape tag size (none ∷ shape) = store_entry size tag 0 (store_shape tag size shape)
store_shape tag size (some dim ∷ shape) = store_entry size 0 dim (store_shape tag size shape)

-- The std::invalid_argument, a failed assert, or the packet.
pub data Encoded : Type 0 where
  out_of_range failed : Encoded
  encoded : List ℕ → Encoded

unfoldable pub descriptor_payload_size : Descriptor → Flavour → ℕ
descriptor_payload_size d f =
    length d.name
    + length d.description
    + length d.format * field_size f
    + length d.shape * shape_size f
    + length d.numpy_header

abbrev pub have_numpy : Descriptor → Bool
have_numpy d = not (length d.numpy_header == 0)

-- The header word, without the number of items.
unfoldable pub descriptor_header : ℕ → ℕ → ℕ
descriptor_header bits n_items =
    bit_or (bit_or (bit_or (0x5304 * 2 ^ 48) ((8 - bits / 8) * 2 ^ 40)) (bits / 8 * 2 ^ 32)) n_items

-- The offset of the payload of each item, in the order of their pointers; the last is the end.
unfoldable pub description_offset : Descriptor → ℕ
description_offset d = length d.name

unfoldable pub format_offset : Descriptor → ℕ
format_offset d = length d.name + length d.description

unfoldable pub shape_offset : Descriptor → Flavour → ℕ
shape_offset d f = length d.name + length d.description + length d.format * field_size f

unfoldable pub dtype_offset : Descriptor → Flavour → ℕ
dtype_offset d f =
    length d.name
    + length d.description
    + length d.format * field_size f
    + length d.shape * shape_size f

-- The item pointers after the four of every packet.
unfoldable pub descriptor_pointers : Descriptor → Flavour → List ℕ
descriptor_pointers d f =
    let bits = f.heap_address_bits in
    encode_immediate bits descriptor_id_id d.id
    ∷ encode_address bits descriptor_name_id 0
    ∷ encode_address bits descriptor_description_id (description_offset d)
    ∷ encode_address bits descriptor_format_id (format_offset d)
    ∷ encode_address bits descriptor_shape_id (shape_offset d f)
    ∷ (if have_numpy d then encode_address bits descriptor_dtype_id (dtype_offset d f) ∷ [] else [])

unfoldable pub descriptor_payload : Descriptor → Flavour → Option (List ℕ)
descriptor_payload d f = elim (store_format (field_size f) d.format) [
  | none ↦ none
  | some format ↦ elim (store_shape (variable_tag f) (shape_size f) d.shape) [
    | none ↦ none
    | some shape ↦ some (d.name ++ (d.description ++ (format ++ (shape ++ d.numpy_header))))
  ]
]

abbrev pub words : List ℕ → List ℕ
words [] = []
words (w ∷ ws) = store_be w ++ words ws

-- The asserts of encode_immediate and of encode_address on an ID and a value or an address.
unfoldable pub can_encode : ℕ → ℕ × ℕ → Bool
can_encode bits (id, value) =
    ltb id (2 ^ (8 * item_pointer_size - 1 - bits)) && ltb value (2 ^ bits)

unfoldable pub can_encode_all : ℕ → List (ℕ × ℕ) → Bool
unfolding can_encode
can_encode_all bits [] = true
can_encode_all bits (call ∷ calls) = can_encode bits call && can_encode_all bits calls

-- The arguments of the calls of the encoder, in order.
unfoldable pub encoder_calls : Descriptor → Flavour → List (ℕ × ℕ)
encoder_calls d f =
    (heap_cnt_id, 1)
    ∷ (heap_length_id, descriptor_payload_size d f)
    ∷ (payload_offset_id, 0)
    ∷ (payload_length_id, descriptor_payload_size d f)
    ∷ (descriptor_id_id, d.id)
    ∷ (descriptor_name_id, 0)
    ∷ (descriptor_description_id, description_offset d)
    ∷ (descriptor_format_id, format_offset d)
    ∷ (descriptor_shape_id, shape_offset d f)
    ∷ (if have_numpy d then (descriptor_dtype_id, dtype_offset d f) ∷ [] else [])

unfoldable pub encode_descriptor : Descriptor → Flavour → Encoded
encode_descriptor d f =
    let bits = f.heap_address_bits in
    let n_items = 9 + (if have_numpy d then 1 else 0) in
    let size = descriptor_payload_size d f in
    if d.id == 0 || leb (2 ^ (8 * item_pointer_size - 1 - bits)) d.id
    then out_of_range
    else if not (can_encode_all bits (encoder_calls d f))
    then failed
    else elim (descriptor_payload d f) [
      | none ↦ failed
      | some payload ↦
          if length payload == size
          then encoded (
              store_be (descriptor_header bits n_items)
              ++ (words (
                    encode_immediate bits heap_cnt_id 1
                    ∷ encode_immediate bits heap_length_id size
                    ∷ encode_immediate bits payload_offset_id 0
                    ∷ encode_immediate bits payload_length_id size
                    ∷ descriptor_pointers d f)
                  ++ payload))
          else failed
    ]

-- add_descriptor, which throws what encode_descriptor throws.
unfoldable pub add_descriptor : Heap.Heap → Descriptor → Flavour → Option Heap.Heap
add_descriptor h d f = elim (encode_descriptor d f) [
  | out_of_range ↦ none
  | failed ↦ none
  | encoded blob ↦ some (add_item h (buffer_item descriptor_id blob false)).1
]
