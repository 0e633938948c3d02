-- ===== src/Transfer/Descriptor/Complete.antt =====
-- A descriptor from encode_descriptor of src/send_heap.cpp to heap::to_descriptor of
-- src/recv_heap.cpp.
use spead.Prelude.{
  ℕ, suc, ◌+◌, ◌^◌, ◌<◌, ◌≡◌, refl, sym, ap, ap₂, ◌∙◌, true, List, [], ◌∷◌, some, length, not, ◌==◌,
  if◌then◌else◌, arith, map,
}
use spead.Pointer.{encode_immediate, IsFlavour, Fits}
use spead.Common.Flavour.{Flavour}
use spead.Descriptor.{Descriptor, descriptor_id_id}
use spead.Recv.Packet.{PacketHeader, decode_packet}
use spead.Recv.Packet.Items.{two_pow_bits}
use spead.Recv.LiveHeap.{LiveHeap, live_heap, adapt_memcpy, add_packet, reset}
use spead.Recv.Heap.{HeapBase, heap}
use spead.Recv.Descriptor.{override_format, to_descriptor}
use spead.Send.Descriptor.{encoded, encode_descriptor, descriptor_pointers, have_numpy}
use spead.Transfer.Descriptor.Segments.{Segment, addresses, contents, AllFit}
use spead.Recv.PointerStore.{contains}
use spead.Transfer.Descriptor.Stored.{distinct}
use spead.Transfer.Descriptor.Taken.{whole_packet, Taken, taken, add_packet-taken, taken-Taken}
use spead.Transfer.Descriptor.Frozen.{base, heap_segments, to_descriptor-segments}
use spead.Transfer.Descriptor.Packet.{all-Admitted, ids, blob, decode_packet-blob}
use spead.Transfer.Descriptor.Parts.{dtype_segments, pointers_of_segments, segments_fit}
use spead.Transfer.Descriptor.Noted.{note_segments_of}
use spead.Transfer.Descriptor.Encode.{
  IsEncodable, stored_format, stored_shape, segments, payload_here, blob_of, encode_blob,
}

-- The item pointers after the first, and their number.
dtype_count :
    (bits o : ℕ) (bytes : List ℕ)
    → 9 + (if not (length bytes == 0) then 1 else 0)
      ≡ suc (suc (suc (suc (suc (length (addresses bits o (dtype_segments bytes))))))) + 4
dtype_count bits o [] = refl
dtype_count bits o (b ∷ bytes) = ground arith

dtype_few :
    (bits o : ℕ) (bytes : List ℕ)
    → suc (suc (suc (suc (suc (length (addresses bits o (dtype_segments bytes))))))) + 4 < 2 ^ 16
dtype_few bits o [] = omega arith
dtype_few bits o (b ∷ bytes) = omega arith

dtype_distinct :
    (bytes : List ℕ)
    → distinct [] (0x14 ∷ 0x10 ∷ 0x11 ∷ 0x13 ∷ 0x12 ∷ map (λ s. s.id) (dtype_segments bytes)) ≡ true
unfolding contains
dtype_distinct [] = refl
dtype_distinct (b ∷ bytes) = refl

module _ (f : Flavour) (fl : IsFlavour f.heap_address_bits) (d : Descriptor)
    (e : IsEncodable f d) where
  abbrev bits : ℕ
  bits = f.heap_address_bits

  abbrev segs : List Segment
  segs = segments f fl d e

  abbrev payload : List ℕ
  payload = contents segs

  abbrev pointers : List ℕ
  pointers = encode_immediate bits descriptor_id_id d.id ∷ addresses bits 0 segs

  id-Fits : Fits bits descriptor_id_id d.id
  id-Fits =
      let room = (two_pow_bits bits fl).1 in
      record { id_fits = omega arith; value_fits = e.id_small }

  all_fit : AllFit bits 0 segs
  all_fit =
      let (format, _, long, _) = stored_format f fl d e in
      let (shape, _, long', _) = stored_shape f fl d e in
      segments_fit f d format shape long long' fl e.size

  same_pointers : descriptor_pointers d f ≡ pointers
  same_pointers =
      let (format, _, long, _) = stored_format f fl d e in
      let (shape, _, long', _) = stored_shape f fl d e in
      pointers_of_segments f d format shape long long'

  abbrev bytes : List ℕ
  bytes = blob bits fl descriptor_id_id d.id id-Fits (omega arith) segs all_fit

  encoded_bytes : encode_descriptor d f ≡ encoded bytes
  encoded_bytes =
      let (same, size) = payload_here f fl d e in
      let n_items = 9 + (if have_numpy d then 1 else 0) in
      let count : n_items ≡ length pointers + 4 = dtype_count bits _ d.numpy_header in
      encode_blob f fl d e payload same size
      ∙ ap (λ n. encoded (blob_of f fl d e n_items n (descriptor_pointers d f) payload)) (sym size)
      ∙ ap₂ (λ (n : ℕ) (p : List ℕ). encoded (blob_of f fl d e n (length payload) p payload)) count
          same_pointers

  abbrev packet : PacketHeader
  packet = whole_packet bits 1 f.bug_compat pointers payload

  decoded : decode_packet bytes (length bytes) ≡ some (length bytes, packet)
  decoded =
      let (_, size) = payload_here f fl d e in
      let small = e.size in
      decode_packet-blob bits fl descriptor_id_id d.id id-Fits (omega arith) segs all_fit
        f.bug_compat (dtype_few bits _ d.numpy_header) (omega arith)

  abbrev live : LiveHeap
  live = taken bits 1 f.bug_compat pointers payload

  live-Taken : Taken bits 1 f.bug_compat pointers payload live
  live-Taken =
      taken-Taken bits 1 f.bug_compat pointers payload
        (all-Admitted bits fl descriptor_id_id d.id id-Fits (omega arith) segs all_fit)
        (ap (distinct []) (ids bits fl descriptor_id_id d.id id-Fits (omega arith) segs all_fit)
          ∙ dtype_distinct d.numpy_header)

  abbrev frozen : HeapBase
  frozen = base bits fl 1 f.bug_compat d.id segs id-Fits all_fit live live-Taken

  read_back : to_descriptor frozen ≡ some (override_format d)
  read_back =
      let (format, _, _, parsed) = stored_format f fl d e in
      let (shape, _, _, parsed') = stored_shape f fl d e in
      to_descriptor-segments bits fl 1 f.bug_compat d.id segs id-Fits all_fit live live-Taken
      ∙ ap (λ o. some (override_format (record o { id = d.id })))
          (note_segments_of f d format shape parsed parsed')

-- Let the ID of a descriptor be positive and fit both an item ID and an address of a flavour
-- SPEAD-64, its bit widths and dimensions the bytes that the protocol bugs leave for them, and the
-- size of all fields together an address. Then encode_descriptor throws nothing and fails no assert;
-- decode_packet accepts all its bytes as one packet; a new live heap takes the packet; the
-- constructor of heap freezes it; and to_descriptor gives the descriptor back, except that the
-- format and the shape are empty if there is a numpy header.
pub descriptor_received :
    (f : Flavour) (d : Descriptor)
    → IsFlavour f.heap_address_bits
    → IsEncodable f d
    → (bytes : List ℕ) × (packet : PacketHeader) × (h : LiveHeap) × (frozen : HeapBase)
      × (encode_descriptor d f ≡ encoded bytes)
      × (decode_packet bytes (length bytes) ≡ some (length bytes, packet))
      × (add_packet (live_heap packet f.bug_compat) packet adapt_memcpy ≡ (true, h))
      × (heap h ≡ some (frozen, reset h))
      × (to_descriptor frozen ≡ some (override_format d))
descriptor_received f d fl e = (
  bytes f fl d e,
  packet f fl d e,
  live f fl d e,
  frozen f fl d e,
  encoded_bytes f fl d e,
  decoded f fl d e,
  add_packet-taken f.heap_address_bits 1 f.bug_compat (pointers f fl d e) (payload f fl d e),
  heap_segments f.heap_address_bits fl 1 f.bug_compat d.id (segs f fl d e) (id-Fits f fl d e)
      (all_fit f fl d e) (live f fl d e) (live-Taken f fl d e),
  read_back f fl d e,
)
