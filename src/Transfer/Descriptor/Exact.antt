-- ===== src/Transfer/Descriptor/Exact.antt =====
-- Which descriptors encode_descriptor of src/send_heap.cpp encodes, for which it throws, and for
-- which an assert fails.
use spead.Prelude.{
  ℕ, ◌⊎◌, ◌↔◌, ◌-◌, ◌*◌, ◌^◌, ◌≤◌, ◌<◌, ◌≡◌, refl, true, inl, inr, List, [], ◌∷◌, Option, none,
  some, All, arith, Bool-cases, Option-cases,
}
use spead.Pointer.{IsFlavour}
use spead.Common.Flavour.{Flavour}
use spead.Descriptor.{Field, Descriptor, has_bits, field_size, shape_size, variable_tag}
use spead.Send.Descriptor.{
  encoded, out_of_range, encode_descriptor, descriptor_payload, descriptor_payload_size,
  store_bytes_be, store_entry, store_format, store_shape, can_encode, can_encode_all, encoder_calls,
}
use spead.Transfer.Descriptor.Fields.{DimFits}
use spead.Transfer.Descriptor.Encode.{IsEncodable, encode_blob, payload_here}

-- An entry is stored only if its number fits the bytes.
module _ (size : ℕ) (narrow : size ≤ 8) where
  store_entry-fits :
      (tag value : ℕ) (rest : Option (List ℕ)) (bytes : List ℕ)
      → store_entry size tag value rest ≡ some bytes
      → (value < 2 ^ (8 * (size - 1))) × (more : List ℕ) × (rest ≡ some more)
  unfolding store_entry store_bytes_be
  store_entry-fits tag value none bytes e = absurd (ground arith)
  store_entry-fits tag value (some more) bytes e = (ground arith, more, refl)

  store_format-fits :
      (format : List Field) (bytes : List ℕ)
      → store_format size format ≡ some bytes
      → All (λ x. x.bits < 2 ^ (8 * (size - 1))) format
  unfolding store_format
  store_format-fits [] bytes e = tt
  store_format-fits (x ∷ format) bytes e =
      let (fits, more, rest) = store_entry-fits x.type x.bits (store_format size format) bytes e in
      (fits, store_format-fits format more rest)

  store_shape-fits :
      (tag : ℕ) (shape : List (Option ℕ)) (bytes : List ℕ)
      → store_shape tag size shape ≡ some bytes
      → All (DimFits size) shape
  unfolding store_shape
  store_shape-fits tag [] bytes e = tt
  store_shape-fits tag (none ∷ shape) bytes e =
      let (_, more, rest) = store_entry-fits tag 0 (store_shape tag size shape) bytes e in
      (tt, store_shape-fits tag shape more rest)
  store_shape-fits tag (some dim ∷ shape) bytes e =
      let (fits, more, rest) = store_entry-fits 0 dim (store_shape tag size shape) bytes e in
      (fits, store_shape-fits tag shape more rest)

module _ (f : Flavour) (d : Descriptor) where
  -- What is encoded went through every test.
  encode_descriptor-passed :
      (bytes : List ℕ)
      → encode_descriptor d f ≡ encoded bytes
      → (0 < d.id)
        × (d.id < 2 ^ (63 - f.heap_address_bits))
        × (can_encode_all f.heap_address_bits (encoder_calls d f) ≡ true)
        × (payload : List ℕ) × (descriptor_payload d f ≡ some payload)
  unfolding encode_descriptor
  encode_descriptor-passed bytes e = elim (Option-cases (descriptor_payload d f)) [
    | inl none_left ↦ absurd (ground (arith, none_left))
    | inr (payload, same) ↦ (ground arith, ground arith, ground arith, payload, same)
  ]

  calls-small :
      can_encode_all f.heap_address_bits (encoder_calls d f) ≡ true
      → (d.id < 2 ^ f.heap_address_bits) × (descriptor_payload_size d f < 2 ^ f.heap_address_bits)
  unfolding can_encode_all can_encode encoder_calls
  calls-small e = (ground arith, ground arith)

  payload-parts :
      (payload : List ℕ)
      → descriptor_payload d f ≡ some payload
      → ((bytes : List ℕ) × (store_format (field_size f) d.format ≡ some bytes))
        × ((bytes : List ℕ) × (store_shape (variable_tag f) (shape_size f) d.shape ≡ some bytes))
  unfolding descriptor_payload
  payload-parts payload e = elim (Option-cases (store_format (field_size f) d.format)) [
    | inl nothing ↦ absurd (ground (arith, nothing))
    | inr (format, same) ↦
        elim (Option-cases (store_shape (variable_tag f) (shape_size f) d.shape)) [
          | inl nothing ↦ absurd (ground (arith, nothing, same))
          | inr (shape, same') ↦ ((format, same), (shape, same'))
        ]
  ]

  encode_descriptor-throws :
      (encode_descriptor d f ≡ out_of_range)
      ↔ ((d.id ≡ 0) ⊎ (2 ^ (63 - f.heap_address_bits) ≤ d.id))
  unfolding encode_descriptor
  encode_descriptor-throws = (λ e. ground arith, λ c. ground (arith, c))

  module _ (fl : IsFlavour f.heap_address_bits) where
    sizes : (field_size f ≤ 8) × (shape_size f ≤ 8)
    unfolding field_size shape_size
    sizes =
        let below = fl.below in
        let positive = fl.positive in
        let whole = fl.whole in
        elim (Bool-cases (has_bits 1 f.bug_compat)) [
          | inl e ↦ rw e (omega arith, omega arith)
          | inr e ↦ rw e (omega arith, omega arith)
        ]

    encoded-IsEncodable : (bytes : List ℕ) → encode_descriptor d f ≡ encoded bytes → IsEncodable f d
    encoded-IsEncodable bytes e =
        let (positive, id_fits, calls, payload, same) = encode_descriptor-passed bytes e in
        let (id_small, size) = calls-small calls in
        let ((format, stored), (shape, stored')) = payload-parts payload same in
        let (narrow, narrow') = sizes in
        record {
          positive = positive;
          id_fits = id_fits;
          id_small = id_small;
          widths = store_format-fits (field_size f) narrow d.format format stored;
          dims = store_shape-fits (shape_size f) narrow' (variable_tag f) d.shape shape stored';
          size = size;
        }

    -- In any flavour SPEAD-64, encode_descriptor throws just for the ID 0 and the IDs that are no item
    -- IDs of the flavour, and encodes a descriptor just if the ID is none of these and also fits an
    -- address, the bit widths and the dimensions fit their bytes, and the size fits an address. What
    -- remains fails an assert.
    pub encode_descriptor_lem :
        ((encode_descriptor d f ≡ out_of_range)
          ↔ ((d.id ≡ 0) ⊎ (2 ^ (63 - f.heap_address_bits) ≤ d.id)))
        × (((bytes : List ℕ) × (encode_descriptor d f ≡ encoded bytes)) ↔ IsEncodable f d)
    encode_descriptor_lem = (
      encode_descriptor-throws,
      (
        λ x. encoded-IsEncodable x.0 x.1,
        λ e. let (same, size) = payload_here f fl d e in (_, encode_blob f fl d e _ same size),
      ),
    )
