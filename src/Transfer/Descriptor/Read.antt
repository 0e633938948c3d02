-- ===== src/Transfer/Descriptor/Read.antt =====
-- Reading the segments of a descriptor's heap: heap_base::load and heap::to_descriptor of
-- src/recv_heap.cpp.
use spead.Prelude.{
  ℕ, zero, suc, ◌+◌, ◌-◌, ◌/◌, ◌%◌, ◌^◌, ◌≤◌, ◌<◌, ◌≡◌, refl, sym, ap, subst, ◌∙◌, true, false, inl,
  inr, List, [], ◌∷◌, ◌++◌, none, some, length, ltb, ◌==◌, if◌then◌else◌, arith, Bool-cases,
  length-append, get_elem?,
}
use spead.Pointer.{
  pointer_decoder, get_id, get_address, encode_address, is_immediate, IsFlavour, Fits, null_id,
}
use spead.Pointer.RoundTrip.{decode-encode_address}
use spead.Recv.Packet.Items.{two_pow_bits}
use spead.Recv.LiveHeap.{LiveHeap, Memory}
use spead.Recv.Heap.{Item, read, end_of, load_item, load_items}
use spead.Common.Flavour.{Flavour}
use spead.Descriptor.{
  Descriptor, field_size, shape_size, variable_tag, descriptor_name_id, descriptor_description_id,
  descriptor_shape_id, descriptor_format_id, descriptor_id_id, descriptor_dtype_id,
}
use spead.Recv.Descriptor.{note_item, note_items, parse_format, parse_shape}
use spead.Transfer.Descriptor.Segments.{Segment, addresses, contents, AllFit}

pub read-get_elem? :
    (ptr : Memory) (bytes : List ℕ)
    → ((i : ℕ) → i < length bytes → ptr i ≡ get_elem? bytes i)
    → read ptr (length bytes) ≡ some bytes
unfolding read
read-get_elem? ptr [] same = refl
read-get_elem? ptr (b ∷ bytes) same =
    let first : ptr 0 ≡ some b = same 0 (omega arith) in
    let rest = read-get_elem? (λ i. ptr (suc i)) bytes (λ i less. same (suc i) (omega arith)) in
    ground (arith, first, rest)

-- The memory from `o` on is that of the segments.
abbrev pub Lies : Memory → ℕ → List Segment → Type 0
Lies m o [] = Unit
Lies m o (s ∷ segments) =
    ((i : ℕ) → i < length s.bytes → m (o + i) ≡ get_elem? s.bytes i)
    × Lies m (o + length s.bytes) segments

get_elem?-left : (xs ys : List ℕ) (i : ℕ) → i < length xs → get_elem? (xs ++ ys) i ≡ get_elem? xs i
get_elem?-left [] ys i h = absurd (omega arith)
get_elem?-left (x ∷ xs) ys zero h = refl
get_elem?-left (x ∷ xs) ys (suc i) h = get_elem?-left xs ys i (omega arith)

get_elem?-right : (xs ys : List ℕ) (i : ℕ) → get_elem? (xs ++ ys) (length xs + i) ≡ get_elem? ys i
get_elem?-right [] ys i = let same : 0 + i ≡ i = omega arith in rw same refl
get_elem?-right (x ∷ xs) ys i =
    let one : suc (length xs) + i ≡ suc (length xs + i) = omega arith in
    rw one (get_elem?-right xs ys i)

pub contents-Lies :
    (m : Memory) (o : ℕ) (segments : List Segment)
    → ((i : ℕ) → i < length (contents segments) → m (o + i) ≡ get_elem? (contents segments) i)
    → Lies m o segments
contents-Lies m o [] same = tt
contents-Lies m o (s ∷ segments) same =
    let total = length-append s.bytes (contents segments) in
    (
      λ i less. same i (omega arith) ∙ get_elem?-left s.bytes (contents segments) i less,
      contents-Lies m (o + length s.bytes) segments (λ i less.
          let place : o + length s.bytes + i ≡ o + (length s.bytes + i) = omega arith in
          ap m place
          ∙ same (length s.bytes + i) (omega arith)
          ∙ get_elem?-right s.bytes (contents segments) i),
    )

-- The items that are made of segments: those that have a byte at least.
abbrev pub segment_item : Memory → ℕ → Segment → Item
segment_item m o s = record {
  id = s.id;
  ptr = λ i. m (o + i);
  length = length s.bytes;
  immediate_value = none;
  is_immediate = false;
}

abbrev pub segment_items : Memory → ℕ → List Segment → List Item
segment_items m o [] = []
segment_items m o (s ∷ segments) =
    let rest = segment_items m (o + length s.bytes) segments in
    if length s.bytes == 0 then rest else segment_item m o s ∷ rest

pub load_items-cons :
    (h : LiveHeap) (p : ℕ) (rest : List ℕ) (added items : List Item)
    → load_item h true p rest ≡ some added
    → load_items h true rest ≡ some items
    → load_items h true (p ∷ rest) ≡ some (added ++ items)
unfolding load_items
load_items-cons h p rest added items e e' = ground (arith, e, e')

module _ (bits : ℕ) (fl : IsFlavour bits) (h : LiveHeap)
    (same : h.decoder ≡ pointer_decoder bits) where
  address_of :
      (id o : ℕ)
      → Fits bits id o
      → (is_immediate (encode_address bits id o) ≡ false)
        × (get_id h.decoder (encode_address bits id o) ≡ id)
        × (get_address h.decoder (encode_address bits id o) ≡ o)
  address_of id o fits =
      subst
        (λ d.
          (is_immediate (encode_address bits id o) ≡ false)
          × (get_id d (encode_address bits id o) ≡ id)
          × (get_address d (encode_address bits id o) ≡ o))
        (sym same) (decode-encode_address bits fl id o fits)

  AllFit-small : (o : ℕ) (segments : List Segment) → AllFit bits o segments → o < 2 ^ bits
  AllFit-small o [] fits = fits
  AllFit-small o (s ∷ segments) fits = fits.0.value_fits

  module _ (last : ℕ) (immediate : is_immediate last ≡ true) where
    end_of-segments :
        (o : ℕ) (segments : List Segment)
        → AllFit bits o segments
        → o + length (contents segments) ≡ h.min_length
        → end_of h (addresses bits o segments ++ last ∷ []) ≡ o
    unfolding end_of
    end_of-segments o [] fits total = rw immediate (omega arith)
    end_of-segments o (s ∷ segments) fits total =
        let (flag, _, address) = address_of s.id o fits.0 in rw (flag, address) refl

    load_item-segment :
        (o : ℕ) (s : Segment) (rest : List ℕ)
        → Fits bits s.id o
        → 6 < s.id
        → end_of h rest ≡ o + length s.bytes
        → o + length s.bytes ≤ h.min_length
        → o + length s.bytes < 2 ^ bits
        → load_item h true (encode_address bits s.id o) rest
          ≡ some (if length s.bytes == 0 then [] else segment_item h.payload o s ∷ [])
    unfolding load_item
    load_item-segment o s rest fits own end within small =
        let (flag, id, address) = address_of s.id o fits in
        let named : (s.id == null_id) ≡ false = ground arith in
        let passes : ltb h.min_length o ≡ false = ground arith in
        let room = (two_pow_bits bits fl).0 in
        let n = length s.bytes in
        let size : (o + n + 2 ^ 64 - o) % 2 ^ 64 ≡ n = omega arith in
        elim (Bool-cases (n == 0)) [
          | inl empty ↦
              let at_end : (o == o + n) ≡ true = ground arith in
              rw (flag, id, named, address, passes, end, at_end, empty) refl
          | inr more ↦
              let before : (o == o + n) ≡ false = ground arith in
              rw (flag, id, named, address, passes, end, before, size, more) refl
        ]

    pub load_items-segments :
        (o : ℕ) (segments : List Segment) (item : Item)
        → AllFit bits o segments
        → o + length (contents segments) ≡ h.min_length
        → load_items h true (last ∷ []) ≡ some (item ∷ [])
        → load_items h true (addresses bits o segments ++ last ∷ [])
          ≡ some (segment_items h.payload o segments ++ item ∷ [])
    load_items-segments o [] item fits total e = e
    load_items-segments o (s ∷ segments) item fits total e =
        let o' = o + length s.bytes in
        let rest = addresses bits o' segments ++ last ∷ [] in
        let sum = length-append s.bytes (contents segments) in
        let further : o' + length (contents segments) ≡ h.min_length = omega arith in
        let first =
          load_item-segment o s rest fits.0 fits.1 (end_of-segments o' segments fits.2 further)
            (omega arith) (AllFit-small o' segments fits.2) in
        let others = load_items-segments o' segments item fits.2 further e in
        load_items-cons h (encode_address bits s.id o) rest _ _ first others
        ∙ elim (Bool-cases (length s.bytes == 0)) [
          | inl empty ↦ rw empty refl
          | inr more ↦ rw more refl
        ]

-- What the bytes of an addressed item make of the descriptor.
abbrev pub note_bytes : Flavour → Descriptor → Segment → Descriptor
note_bytes f out s =
    if s.id == descriptor_id_id
    then out
    else if s.id == descriptor_name_id
    then record out { name = s.bytes }
    else if s.id == descriptor_description_id
    then record out { description = s.bytes }
    else if s.id == descriptor_format_id
    then record out {
      format = out.format ++ parse_format (field_size f) (length s.bytes / field_size f) s.bytes;
    }
    else if s.id == descriptor_shape_id
    then record out {
      shape =
          out.shape
          ++ parse_shape (variable_tag f) (shape_size f) (length s.bytes / shape_size f) s.bytes;
    }
    else if s.id == descriptor_dtype_id
    then record out { numpy_header = s.bytes }
    else out

abbrev pub note_segments : Flavour → Descriptor → List Segment → Descriptor
note_segments f out [] = out
note_segments f out (s ∷ segments) =
    note_segments f (if length s.bytes == 0 then out else note_bytes f out s) segments

note_item-segment :
    (f : Flavour) (out : Descriptor) (m : Memory) (o : ℕ) (s : Segment)
    → read (λ i. m (o + i)) (length s.bytes) ≡ some s.bytes
    → note_item f out (segment_item m o s) ≡ some (note_bytes f out s)
unfolding note_item
note_item-segment f out m o s e = ground (arith, e)

pub note_items-cons :
    (f : Flavour) (out out' : Descriptor) (it : Item) (items : List Item)
    → note_item f out it ≡ some out'
    → note_items f out (it ∷ items) ≡ note_items f out' items
unfolding note_items
note_items-cons f out out' it items e = ground (arith, e)

pub note_items-segments :
    (f : Flavour) (out : Descriptor) (m : Memory) (o : ℕ) (segments : List Segment)
    (rest : List Item)
    → Lies m o segments
    → note_items f out (segment_items m o segments ++ rest)
      ≡ note_items f (note_segments f out segments) rest
note_items-segments f out m o [] rest lies = refl
note_items-segments f out m o (s ∷ segments) rest lies =
    let o' = o + length s.bytes in
    let e = note_item-segment f out m o s (read-get_elem? (λ i. m (o + i)) s.bytes lies.0) in
    elim (Bool-cases (length s.bytes == 0)) [
      | inl empty ↦ rw empty (note_items-segments f out m o' segments rest lies.1)
      | inr more ↦ rw more (
          note_items-cons f out (note_bytes f out s) (segment_item m o s)
            (segment_items m o' segments ++ rest) e
          ∙ note_items-segments f (note_bytes f out s) m o' segments rest lies.1)
    ]
