-- ===== src/Transfer/Descriptor/Parts.antt =====
-- The segments of a descriptor, and the descriptor that is made of them: encode_descriptor of
-- src/send_heap.cpp, heap::to_descriptor of src/recv_heap.cpp.
use spead.Prelude.{
  ℕ, ◌+◌, ◌*◌, ◌^◌, ◌<◌, ◌≡◌, refl, ap, not, List, [], ◌∷◌, ◌++◌, length, ◌==◌, if◌then◌else◌,
  arith, append-nil,
}
use spead.Pointer.{encode_address, encode_immediate, IsFlavour, Fits}
use spead.Recv.Packet.Items.{two_pow_bits}
use spead.Common.Flavour.{Flavour}
use spead.Descriptor.{
  Descriptor, field_size, shape_size, descriptor_name_id, descriptor_description_id,
  descriptor_shape_id, descriptor_format_id, descriptor_id_id, descriptor_dtype_id,
}
use spead.Send.Descriptor.{
  descriptor_pointers, description_offset, format_offset, shape_offset, dtype_offset,
  descriptor_payload_size,
}
use spead.Transfer.Descriptor.Segments.{Segment, addresses, contents, AllFit}

abbrev pub segment : ℕ → List ℕ → Segment
segment id bytes = record { id = id; bytes = bytes }

abbrev pub dtype_segments : List ℕ → List Segment
dtype_segments [] = []
dtype_segments (b ∷ bytes) = segment descriptor_dtype_id (b ∷ bytes) ∷ []

abbrev pub segments_of : Descriptor → List ℕ → List ℕ → List Segment
segments_of d format shape =
    segment descriptor_name_id d.name
    ∷ segment descriptor_description_id d.description
    ∷ segment descriptor_format_id format
    ∷ segment descriptor_shape_id shape
    ∷ dtype_segments d.numpy_header

dtype_contents : (bytes : List ℕ) → contents (dtype_segments bytes) ≡ bytes
dtype_contents [] = refl
dtype_contents (b ∷ bytes) = append-nil (b ∷ bytes)

pub contents_of :
    (d : Descriptor) (format shape : List ℕ)
    → contents (segments_of d format shape)
      ≡ d.name ++ (d.description ++ (format ++ (shape ++ d.numpy_header)))
contents_of d format shape =
    ap (λ l. d.name ++ (d.description ++ (format ++ (shape ++ l)))) (dtype_contents d.numpy_header)

dtype_addresses :
    (bits o : ℕ) (bytes : List ℕ)
    → (if not (length bytes == 0) then encode_address bits descriptor_dtype_id o ∷ [] else [])
      ≡ addresses bits o (dtype_segments bytes)
dtype_addresses bits o [] = refl
dtype_addresses bits o (b ∷ bytes) = ground arith

module _ (f : Flavour) (d : Descriptor) (format shape : List ℕ)
    (format_length : length format ≡ length d.format * field_size f)
    (shape_length : length shape ≡ length d.shape * shape_size f) where
  abbrev bits : ℕ
  bits = f.heap_address_bits

  -- The pointers that encode_descriptor makes are those of the segments.
  pub pointers_of_segments :
      descriptor_pointers d f
      ≡ encode_immediate bits descriptor_id_id d.id ∷ addresses bits 0 (segments_of d format shape)
  unfolding descriptor_pointers description_offset format_offset shape_offset dtype_offset
  pointers_of_segments =
      let a = length d.name in
      let b = length d.description in
      let first : 0 + a ≡ a = omega arith in
      rw (first, format_length, shape_length)
        (ap
          (λ l.
            encode_immediate bits descriptor_id_id d.id
            ∷ encode_address bits descriptor_name_id 0
            ∷ encode_address bits descriptor_description_id a
            ∷ encode_address bits descriptor_format_id (a + b)
            ∷ encode_address bits descriptor_shape_id (a + b + length d.format * field_size f)
            ∷ l)
          (dtype_addresses bits
            (a + b + length d.format * field_size f + length d.shape * shape_size f)
            d.numpy_header))

  module _ (fl : IsFlavour bits) (small : descriptor_payload_size d f < 2 ^ bits) where
    fit : (id o : ℕ) → id < 2 ^ 7 → o < 2 ^ bits → Fits bits id o
    fit id o low fits =
        let room = (two_pow_bits bits fl).1 in record { id_fits = omega arith; value_fits = fits }

    dtype_fits :
        (o : ℕ) (bytes : List ℕ)
        → o + length bytes < 2 ^ bits
        → AllFit bits o (dtype_segments bytes)
    dtype_fits o [] h = omega arith
    dtype_fits o (b ∷ bytes) h =
        (fit descriptor_dtype_id o (omega arith) (omega arith), omega arith, h)

    pub segments_fit : AllFit bits 0 (segments_of d format shape)
    unfolding descriptor_payload_size
    segments_fit =
        let n = small in
        let p = format_length in
        let q = shape_length in
        (
          fit descriptor_name_id 0 (omega arith) (omega arith),
          omega arith,
          (
            fit descriptor_description_id _ (omega arith) (omega arith),
            omega arith,
            (
              fit descriptor_format_id _ (omega arith) (omega arith),
              omega arith,
              (
                fit descriptor_shape_id _ (omega arith) (omega arith),
                omega arith,
                dtype_fits _ d.numpy_header (omega arith),
              ),
            ),
          ),
        )
