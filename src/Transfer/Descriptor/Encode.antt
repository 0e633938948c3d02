-- ===== src/Transfer/Descriptor/Encode.antt =====
-- The bytes of a descriptor: encode_descriptor of src/send_heap.cpp.
use spead.Prelude.{
  ℕ, ◌+◌, ◌-◌, ◌*◌, ◌/◌, ◌^◌, ◌≤◌, ◌<◌, ◌≡◌, refl, sym, ap, ap₂, ◌∙◌, true, false, ◌||◌, inl, inr,
  List, [], ◌∷◌, ◌++◌, some, All, length, leb, ◌==◌, if◌then◌else◌, arith, Bool-cases, append-nil,
  length-append, div_unique, two_pow_pos,
}
use spead.Bytes.{store_be}
use spead.Pointer.{
  encode_immediate, IsFlavour, heap_cnt_id, heap_length_id, payload_offset_id, payload_length_id,
}
use spead.Common.Flavour.{Flavour}
use spead.Descriptor.{Descriptor, has_bits, field_size, shape_size, variable_tag}
use spead.Recv.Descriptor.{parse_format, parse_shape}
use spead.Recv.Packet.Items.{two_pow_bits}
use spead.Send.Descriptor.{
  encoded, encode_descriptor, descriptor_payload, descriptor_payload_size, store_format,
  store_shape, descriptor_pointers, have_numpy, descriptor_header, words, can_encode,
  can_encode_all, encoder_calls, description_offset, format_offset, shape_offset, dtype_offset,
}
use spead.Transfer.Descriptor.Fields.{DimFits, parse_format-store_format, parse_shape-store_shape}
use spead.Transfer.Descriptor.Segments.{Segment, contents}
use spead.Transfer.Descriptor.Parts.{segments_of, contents_of}

-- The ID, as the ID of an item and as a value, the bit widths and the dimensions fit their bytes, and
-- the size an address.
pub record IsEncodable (f : Flavour) (d : Descriptor) : Type 0 where
  pub positive : 0 < d.id
  pub id_fits : d.id < 2 ^ (63 - f.heap_address_bits)
  pub id_small : d.id < 2 ^ f.heap_address_bits
  pub widths : All (λ x. x.bits < 2 ^ (8 * (field_size f - 1))) d.format
  pub dims : All (DimFits (shape_size f)) d.shape
  pub size : descriptor_payload_size d f < 2 ^ f.heap_address_bits

module _ (f : Flavour) (fl : IsFlavour f.heap_address_bits) where
  field_sizes : (1 ≤ field_size f) × (field_size f ≤ 9)
  unfolding field_size
  field_sizes =
      let below = fl.below in
      elim (Bool-cases (has_bits 1 f.bug_compat)) [
        | inl e ↦ rw e (omega arith, omega arith)
        | inr e ↦ rw e (omega arith, omega arith)
      ]

  shape_sizes : (1 ≤ shape_size f) × (shape_size f ≤ 9)
  unfolding shape_size
  shape_sizes =
      let below = fl.below in
      elim (Bool-cases (has_bits 1 f.bug_compat)) [
        | inl e ↦ rw e (omega arith, omega arith)
        | inr e ↦ rw e (omega arith, omega arith)
      ]

  tells :
      (has_bits (variable_tag f) (variable_tag f) ≡ true) × (has_bits (variable_tag f) 0 ≡ false)
  unfolding variable_tag has_bits
  tells = elim (Bool-cases (has_bits 2 f.bug_compat)) [
    | inl e ↦ rw e (refl, refl)
    | inr e ↦ rw e (refl, refl)
  ]

  whole_fields : (n size : ℕ) → 1 ≤ size → n * size / size ≡ n
  whole_fields n size positive = div_unique (n * size) size n 0 (omega arith) (omega arith)

  module _ (d : Descriptor) (e : IsEncodable f d) where
    -- The bytes of the format and of the shape, which are read back.
    pub stored_format :
        (bytes : List ℕ) × (store_format (field_size f) d.format ≡ some bytes)
        × (length bytes ≡ length d.format * field_size f)
        × (parse_format (field_size f) (length bytes / field_size f) bytes ≡ d.format)
    stored_format =
        let (positive, narrow) = field_sizes in
        let (bytes, stored, long, back) =
          parse_format-store_format (field_size f) positive narrow d.format e.widths in
        let count : length bytes / field_size f ≡ length d.format =
          ap (λ n. n / field_size f) long
          ∙ whole_fields (length d.format) (field_size f) positive in
        (
          bytes,
          stored,
          long,
          ap₂ (parse_format (field_size f)) count (sym (append-nil bytes)) ∙ back [],
        )

    pub stored_shape :
        (bytes : List ℕ) × (store_shape (variable_tag f) (shape_size f) d.shape ≡ some bytes)
        × (length bytes ≡ length d.shape * shape_size f)
        × (parse_shape (variable_tag f) (shape_size f) (length bytes / shape_size f) bytes
            ≡ d.shape)
    stored_shape =
        let (positive, narrow) = shape_sizes in
        let (bytes, stored, long, back) =
          parse_shape-store_shape (shape_size f) positive narrow (variable_tag f) tells d.shape
            e.dims in
        let count : length bytes / shape_size f ≡ length d.shape =
          ap (λ n. n / shape_size f) long ∙ whole_fields (length d.shape) (shape_size f) positive in
        (
          bytes,
          stored,
          long,
          ap₂ (parse_shape (variable_tag f) (shape_size f)) count (sym (append-nil bytes))
              ∙ back [],
        )

    abbrev bits : ℕ
    bits = f.heap_address_bits

    abbrev pub segments : List Segment
    segments = segments_of d stored_format.0 stored_shape.0

    payload_of :
        (format shape : List ℕ)
        → store_format (field_size f) d.format ≡ some format
        → store_shape (variable_tag f) (shape_size f) d.shape ≡ some shape
        → descriptor_payload d f
          ≡ some (d.name ++ (d.description ++ (format ++ (shape ++ d.numpy_header))))
    unfolding descriptor_payload
    payload_of format shape e e' = ground (arith, e, e')

    pub payload_here :
        (descriptor_payload d f ≡ some (contents segments))
        × (length (contents segments) ≡ descriptor_payload_size d f)
    unfolding descriptor_payload_size
    payload_here =
        let (format, stored, long, _) = stored_format in
        let (shape, stored', long', _) = stored_shape in
        let whole = contents_of d format shape in
        (
          payload_of format shape stored stored' ∙ ap some (sym whole),
          ap length whole
              ∙ omega (
                arith,
                long,
                long',
                length-append d.name (d.description ++ (format ++ (shape ++ d.numpy_header))),
                length-append d.description (format ++ (shape ++ d.numpy_header)),
                length-append format (shape ++ d.numpy_header),
                length-append shape d.numpy_header,
              ),
        )

    abbrev pub blob_of : ℕ → ℕ → List ℕ → List ℕ → List ℕ
    blob_of n_items size pointers payload =
        store_be (descriptor_header bits n_items)
        ++ (words (
              encode_immediate bits heap_cnt_id 1
              ∷ encode_immediate bits heap_length_id size
              ∷ encode_immediate bits payload_offset_id 0
              ∷ encode_immediate bits payload_length_id size
              ∷ pointers)
            ++ payload)

    abbrev pub CallsFit : Type 0
    CallsFit = can_encode_all bits (encoder_calls d f) ≡ true

    -- No assert of the encoder fails.
    encoder_calls-fit : CallsFit
    unfolding can_encode_all can_encode encoder_calls descriptor_payload_size description_offset
        format_offset shape_offset dtype_offset
    encoder_calls-fit =
        let room = (two_pow_bits bits fl).1 in
        let id_fits = e.id_fits in
        let id_small = e.id_small in
        let size = e.size in let some_bit = two_pow_pos bits in ground arith

    pub encode_blob :
        (payload : List ℕ)
        → descriptor_payload d f ≡ some payload
        → length payload ≡ descriptor_payload_size d f
        → encode_descriptor d f
          ≡ encoded (
              blob_of
                (9 + (if have_numpy d then 1 else 0))
                (descriptor_payload_size d f)
                (descriptor_pointers d f)
                payload)
    unfolding encode_descriptor
    encode_blob payload same size =
        let p = e.positive in
        let q = e.id_fits in
        let in_range : (d.id == 0 || leb (2 ^ (64 - 1 - bits)) d.id) ≡ false =
          ground (arith, p, q) in
        let equal : (length payload == descriptor_payload_size d f) ≡ true = ground arith in
        rw (in_range, encoder_calls-fit, same, equal) refl
