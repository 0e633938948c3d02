-- ===== src/Transfer/Descriptor/Immediate.antt =====
-- The immediate ID of a descriptor: encode_descriptor of src/send_heap.cpp, heap_base::load and
-- heap::to_descriptor of src/recv_heap.cpp.
use spead.Prelude.{
  ℕ, if◌then◌else◌, List, none, ◌*◌, ◌/◌, ◌%◌, ◌^◌, ◌≤◌, ◌<◌, ◌≡◌, refl, sym, ap, subst, ◌∙◌, true,
  false, [], ◌∷◌, some, length, ◌==◌, leb, arith, get_elem?, append-nil,
}
use spead.Bytes.{load_bytes}
use spead.Pointer.{
  pointer_decoder, get_id, get_immediate, encode_immediate, IsFlavour, Fits, null_id,
}
use spead.Pointer.RoundTrip.{decode-encode_immediate, get_address_mod}
use spead.Common.Flavour.{Flavour}
use spead.Descriptor.{Descriptor, descriptor_id_id}
use spead.Recv.LiveHeap.{Memory, LiveHeap}
use spead.Recv.Heap.{Item, read, load_bytes_be, load_item, load_items, immediate_item}
use spead.Recv.Descriptor.{note_item, note_items}
use spead.Transfer.Descriptor.Fields.{low_bytes, low_bytes-length, load_bytes-low_bytes_mod}
use spead.Transfer.Descriptor.Read.{read-get_elem?, load_items-cons, note_items-cons}

load_bytes_be-read :
    (ptr : Memory) (n : ℕ) (bytes : List ℕ)
    → n ≤ 8
    → read ptr n ≡ some bytes
    → load_bytes_be ptr n ≡ some (load_bytes n 0 bytes)
unfolding load_bytes_be
load_bytes_be-read ptr n bytes short e =
    let low : n % 2 ^ 32 ≡ n = omega arith in
    let small : leb n 8 ≡ true = ground arith in
    ap
      (λ m.
        if leb m 8
        then elim (read ptr m) [ none ↦ none | some bytes ↦ some (load_bytes m 0 bytes) ]
        else none)
      low
    ∙ rw (small, e) refl

module _ (bits : ℕ) (fl : IsFlavour bits) (id value : ℕ) (fits : Fits bits id value) where
  abbrev pub pointer : ℕ
  pointer = encode_immediate bits id value

  abbrev pub loaded_immediate : Item
  loaded_immediate = immediate_item (pointer_decoder bits) pointer

  -- Its ID, and its bytes as a number.
  immediate_item_lem :
      (loaded_immediate.id ≡ id)
      × (load_bytes_be loaded_immediate.ptr loaded_immediate.length ≡ some value)
  unfolding get_immediate
  immediate_item_lem =
      let (_, same_id, same_value) = decode-encode_immediate bits fl id value fits in
      let n = bits / 8 in
      let short : n ≤ 8 = omega (arith, fl.below) in
      let bytes = low_bytes n pointer in
      let size : length bytes ≡ n = low_bytes-length n pointer short in
      let bytes_read : read (get_elem? bytes) n ≡ some bytes =
        subst (λ k. read (get_elem? bytes) k ≡ some bytes) size
          (read-get_elem? (get_elem? bytes) bytes (λ i less. refl)) in
      let whole : 8 * n ≡ bits = omega (arith, fl.whole) in
      let number : load_bytes n 0 bytes ≡ value =
        ap (load_bytes n 0) (sym (append-nil bytes))
        ∙ load_bytes-low_bytes_mod n pointer [] short
        ∙ ap (λ k. pointer % 2 ^ k) whole
        ∙ sym (get_address_mod bits fl pointer)
        ∙ same_value in
      (same_id, load_bytes_be-read loaded_immediate.ptr n bytes short bytes_read ∙ ap some number)

  load_item-immediate :
      (h : LiveHeap)
      → h.decoder ≡ pointer_decoder bits
      → 0 < id
      → load_item h true pointer [] ≡ some (immediate_item h.decoder pointer ∷ [])
  unfolding load_item
  load_item-immediate h same positive =
      let (flag, same_id, _) = decode-encode_immediate bits fl id value fits in
      let id_here : get_id h.decoder pointer ≡ id =
        subst (λ d. get_id d pointer ≡ id) (sym same) same_id in
      let named : (get_id h.decoder pointer == null_id) ≡ false = ground arith in
      rw (named, flag) refl

  nothing_left : (h : LiveHeap) → load_items h true [] ≡ some []
  unfolding load_items
  nothing_left h = refl

  pub load_immediate :
      (h : LiveHeap)
      → h.decoder ≡ pointer_decoder bits
      → 0 < id
      → load_items h true (pointer ∷ []) ≡ some (loaded_immediate ∷ [])
  load_immediate h same positive =
      load_items-cons h pointer [] (immediate_item h.decoder pointer ∷ []) []
        (load_item-immediate h same positive) (nothing_left h)
      ∙ ap (λ d. some (immediate_item d pointer ∷ [])) same

  pub note_immediate :
      (f : Flavour) (out : Descriptor)
      → id ≡ descriptor_id_id
      → note_items f out (loaded_immediate ∷ []) ≡ some (record out { id = value })
  unfolding note_items note_item
  note_immediate f out e =
      let (same_id, number) = immediate_item_lem in
      let control : (loaded_immediate.id == descriptor_id_id) ≡ true = ground arith in
      note_items-cons f out (record out { id = value }) loaded_immediate []
        (ground (arith, control, number))
