-- ===== src/Transfer/Descriptor/Frozen.antt =====
-- Freezing a heap of segments, and the descriptor in it: src/recv_heap.cpp.
use spead.Prelude.{ℕ, ◌+◌, ◌≡◌, refl, ap, ap₂, ◌∙◌, true, List, [], ◌∷◌, ◌++◌, some, length, arith}
use spead.Pointer.{encode_immediate, IsFlavour, Fits}
use spead.Pointer.RoundTrip.{decode-encode_immediate}
use spead.Common.Flavour.{Flavour, IsFlavour-made}
use spead.Descriptor.{Descriptor, empty_descriptor, descriptor_id_id}
use spead.Recv.PointerStore.{stored}
use spead.Recv.LiveHeap.{LiveHeap, reset}
use spead.Recv.Heap.{HeapBase, stable_sort, load, heap}
use spead.Recv.Heap.Written.{heap_of_load}
use spead.Recv.Descriptor.{note_items, override_format, to_descriptor}
use spead.Transfer.Descriptor.Segments.{Segment, addresses, contents, AllFit, stable_sort-segments}
use spead.Transfer.Descriptor.Read.{
  segment_items, contents-Lies, load_items-segments, note_segments, note_items-segments,
}
use spead.Transfer.Descriptor.Immediate.{loaded_immediate, load_immediate, note_immediate}
use spead.Transfer.Descriptor.Taken.{Taken}

to_descriptor_of :
    (h : HeapBase) (out : Descriptor)
    → note_items h.flavour empty_descriptor h.items ≡ some out
    → to_descriptor h ≡ some (override_format out)
unfolding to_descriptor
to_descriptor_of h out e = rw (e, to_descriptor) refl

module _ (bits : ℕ) (fl : IsFlavour bits) (cnt bug_compat value : ℕ) (segments : List Segment)
    (fits : Fits bits descriptor_id_id value) (all : AllFit bits 0 segments) where
  abbrev immediate : ℕ
  immediate = encode_immediate bits descriptor_id_id value

  abbrev pub pointers_of : List ℕ
  pointers_of = immediate ∷ addresses bits 0 segments

  abbrev pub flavour_here : Flavour
  flavour_here = record { heap_address_bits = bits; bug_compat = bug_compat }

  module _ (h : LiveHeap) (t : Taken bits cnt bug_compat pointers_of (contents segments) h) where
    abbrev pub base : HeapBase
    base = record {
      cnt = h.cnt;
      flavour = record { heap_address_bits = bits; bug_compat = h.bug_compat };
      items =
          segment_items h.payload 0 segments
          ++ loaded_immediate bits fl descriptor_id_id value fits ∷ [];
      payload = some h.payload;
    }

    load_segments : load h true true ≡ some base
    unfolding load
    load_segments =
        let (flag, _, _) = decode-encode_immediate bits fl descriptor_id_id value fits in
        let sorted : stable_sort h.decoder (stored h.pointers)
            ≡ addresses bits 0 segments ++ immediate ∷ [] =
          ap₂ stable_sort t.decoder t.pointers
          ∙ stable_sort-segments bits fl segments descriptor_id_id value all fits in
        let total : 0 + length (contents segments) ≡ h.min_length = omega (arith, t.min_length) in
        let items =
          load_items-segments bits fl h t.decoder immediate flag 0 segments
            (loaded_immediate bits fl descriptor_id_id value fits) all total
            (load_immediate bits fl descriptor_id_id value fits h t.decoder (omega arith)) in
        let width = ap (λ d. d.heap_address_bits) t.decoder in
        rw (t.contiguous, sorted, items, width, IsFlavour-made bits h.bug_compat fl) refl

    pub heap_segments : heap h ≡ some (base, reset h)
    heap_segments = heap_of_load h base t.contiguous load_segments

    abbrev pub noted : Descriptor
    noted = note_segments flavour_here empty_descriptor segments

    note_base :
        note_items base.flavour empty_descriptor base.items ≡ some (record noted { id = value })
    note_base =
        let m = h.payload in
        let item = loaded_immediate bits fl descriptor_id_id value fits in
        let compat : base.flavour ≡ flavour_here =
          ap (λ b. record { heap_address_bits = bits; bug_compat = b }) t.same_bug_compat in
        let lies =
          contents-Lies m 0 segments
            (λ i less. let place : 0 + i ≡ i = omega arith in ap m place ∙ t.bytes i less) in
        ap (λ f. note_items f empty_descriptor base.items) compat
        ∙ note_items-segments flavour_here empty_descriptor m 0 segments (item ∷ []) lies
        ∙ note_immediate bits fl descriptor_id_id value fits flavour_here noted refl

    pub to_descriptor-segments :
        to_descriptor base ≡ some (override_format (record noted { id = value }))
    to_descriptor-segments = to_descriptor_of base (record noted { id = value }) note_base
