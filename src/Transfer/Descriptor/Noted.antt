-- ===== src/Transfer/Descriptor/Noted.antt =====
-- What heap::to_descriptor of src/recv_heap.cpp makes of the segments of a descriptor.
use spead.Prelude.{
  ℕ, zero, suc, ◌/◌, ◌≡◌, refl, sym, ap, ◌∙◌, false, List, [], ◌∷◌, ◌++◌, Option, length, ◌==◌,
  if◌then◌else◌, arith,
}
use spead.Common.Flavour.{Flavour}
use spead.Descriptor.{
  Field, Descriptor, empty_descriptor, field_size, shape_size, variable_tag, descriptor_name_id,
  descriptor_description_id, descriptor_shape_id, descriptor_format_id,
}
use spead.Recv.Descriptor.{parse_format, parse_shape}
use spead.Transfer.Descriptor.Segments.{Segment}
use spead.Transfer.Descriptor.Read.{note_bytes, note_segments}
use spead.Transfer.Descriptor.Parts.{segment, segments_of, dtype_segments}

parse_format-nil : (size n : ℕ) → parse_format size n [] ≡ []
unfolding parse_format
parse_format-nil size zero = refl
parse_format-nil size (suc n) = refl

parse_shape-nil : (mask size n : ℕ) → parse_shape mask size n [] ≡ []
unfolding parse_shape
parse_shape-nil mask size zero = refl
parse_shape-nil mask size (suc n) = refl

not_empty : (bytes : List ℕ) → (suc (length bytes) == 0) ≡ false
not_empty bytes = ground arith

module _ (f : Flavour) where
  -- One segment, which load leaves out if it is empty.
  abbrev noted : Descriptor → Segment → Descriptor
  noted out s = if length s.bytes == 0 then out else note_bytes f out s

  noted-name :
      (out : Descriptor) (bytes : List ℕ)
      → out.name ≡ []
      → noted out (segment descriptor_name_id bytes) ≡ record out { name = bytes }
  noted-name out [] e = ap (λ l. record out { name = l }) e
  noted-name out (b ∷ bytes) e = rw (not_empty bytes) refl

  noted-description :
      (out : Descriptor) (bytes : List ℕ)
      → out.description ≡ []
      → noted out (segment descriptor_description_id bytes) ≡ record out { description = bytes }
  noted-description out [] e = ap (λ l. record out { description = l }) e
  noted-description out (b ∷ bytes) e = rw (not_empty bytes) refl

  noted-dtype :
      (out : Descriptor) (bytes : List ℕ)
      → out.numpy_header ≡ []
      → note_segments f out (dtype_segments bytes) ≡ record out { numpy_header = bytes }
  noted-dtype out [] e = ap (λ l. record out { numpy_header = l }) e
  noted-dtype out (b ∷ bytes) e = rw (not_empty bytes) refl

  noted-format :
      (out : Descriptor) (bytes : List ℕ) (format : List Field)
      → out.format ≡ []
      → parse_format (field_size f) (length bytes / field_size f) bytes ≡ format
      → noted out (segment descriptor_format_id bytes) ≡ record out { format = format }
  noted-format out [] format e p =
      ap (λ l. record out { format = l })
        (e ∙ sym (parse_format-nil (field_size f) (0 / field_size f)) ∙ p)
  noted-format out (b ∷ bytes) format e p =
      let parsed = parse_format (field_size f) (length (b ∷ bytes) / field_size f) (b ∷ bytes) in
      rw (not_empty bytes) (ap (λ l. record out { format = l }) (ap (λ l. l ++ parsed) e ∙ p))

  noted-shape :
      (out : Descriptor) (bytes : List ℕ) (shape : List (Option ℕ))
      → out.shape ≡ []
      → parse_shape (variable_tag f) (shape_size f) (length bytes / shape_size f) bytes ≡ shape
      → noted out (segment descriptor_shape_id bytes) ≡ record out { shape = shape }
  noted-shape out [] shape e p =
      ap (λ l. record out { shape = l })
        (e ∙ sym (parse_shape-nil (variable_tag f) (shape_size f) (0 / shape_size f)) ∙ p)
  noted-shape out (b ∷ bytes) shape e p =
      let parsed =
        parse_shape (variable_tag f) (shape_size f) (length (b ∷ bytes) / shape_size f)
          (b ∷ bytes) in
      rw (not_empty bytes) (ap (λ l. record out { shape = l }) (ap (λ l. l ++ parsed) e ∙ p))

  pub note_segments_of :
      (d : Descriptor) (format shape : List ℕ)
      → parse_format (field_size f) (length format / field_size f) format ≡ d.format
      → parse_shape (variable_tag f) (shape_size f) (length shape / shape_size f) shape ≡ d.shape
      → note_segments f empty_descriptor (segments_of d format shape) ≡ record d { id = 0 }
  note_segments_of d format shape p q =
      let last = dtype_segments d.numpy_header in
      let s1 = record empty_descriptor { name = d.name } in
      let s2 = record s1 { description = d.description } in
      let s3 = record s2 { format = d.format } in
      let s4 = record s3 { shape = d.shape } in
      let fourth = segment descriptor_shape_id shape in
      let third = segment descriptor_format_id format in
      let second = segment descriptor_description_id d.description in
      ap (λ o. note_segments f o (second ∷ third ∷ fourth ∷ last))
        (noted-name empty_descriptor d.name refl)
      ∙ ap (λ o. note_segments f o (third ∷ fourth ∷ last))
          (noted-description s1 d.description refl)
      ∙ ap (λ o. note_segments f o (fourth ∷ last)) (noted-format s2 format d.format refl p)
      ∙ ap (λ o. note_segments f o last) (noted-shape s3 shape d.shape refl q)
      ∙ noted-dtype s4 d.numpy_header refl
