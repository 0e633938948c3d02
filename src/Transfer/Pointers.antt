-- ===== src/Transfer/Pointers.antt =====
-- The item pointers of a packet of src/send_packet.cpp: src/recv_packet.cpp takes them for regular.
use spead.Prelude.{
  ℕ, zero, suc, ◌+◌, ◌/◌, ◌^◌, ◌<◌, ◌≡◌, refl, ap, ◌∙◌, ◌⊎◌, inl, inr, List, [], ◌∷◌, none, some,
  All, length, drop, get_elem?, arith, length-append,
}
use spead.Pointer.{IsFlavour}
use spead.Send.Heap.{Item, heap_payload, payload_of}
use spead.Send.Generator.{pointer_bytes, emit_pointers}
use spead.Send.Generator.Pointers.{pointer_bytes-address}
use spead.Recv.Packet.Items.{IsRegular}
use spead.Transfer.Words.{IsPlain, pointer_bytes-IsRegular, null-IsRegular}

-- What stands at place `i`, with a property of all.
elem_cases :
    {P : Item → Type 0} (items : List Item) (i : ℕ)
    → All P items
    → ((get_elem? items i ≡ none) × (drop i items ≡ []) × (drop (i + 1) items ≡ []))
      ⊎ ((it : Item) × (get_elem? items i ≡ some it)
          × P it
          × (drop i items ≡ it ∷ drop (i + 1) items))
elem_cases [] zero all = inl (refl, refl, refl)
elem_cases [] (suc i) all =
    let next : suc i + 1 ≡ suc (i + 1) = omega arith in rw next (inl (refl, refl, refl))
elem_cases (it ∷ items) zero all = inr (it, refl, all.0, refl)
elem_cases (it ∷ items) (suc i) all =
    let next : suc i + 1 ≡ suc (i + 1) = omega arith in rw next (elem_cases items i all.1)

module _ (bits : ℕ) (flavour : IsFlavour bits) (items : List Item)
    (plain : All (IsPlain bits) items) where
  -- The addresses that the items from place `i` on are given, from `next_address`, fit.
  abbrev pub InRange : ℕ → ℕ → Type 0
  InRange i next_address = next_address + length (heap_payload (bits / 8) (drop i items)) < 2 ^ bits

  -- One item pointer.
  emit_one :
      (i next_address : ℕ)
      → InRange i next_address
      → IsRegular bits (pointer_bytes bits (get_elem? items i) next_address).0
        × InRange (i + 1) (pointer_bytes bits (get_elem? items i) next_address).1
  unfolding pointer_bytes heap_payload
  emit_one i next_address fits = elim (elem_cases {P = IsPlain bits} items i plain) [
    | inl (past, here, next) ↦
        rw (past, next)
          (
            null-IsRegular bits flavour next_address (omega arith),
            omega (arith, ap (λ l. length (heap_payload (bits / 8) l)) here),
          )
    | inr (it, found, own, here) ↦
        let bytes = payload_of (bits / 8) it in
        let rest = heap_payload (bits / 8) (drop (i + 1) items) in
        let size = ap (λ l. length (heap_payload (bits / 8) l)) here ∙ length-append bytes rest in
        rw found (
          pointer_bytes-IsRegular bits flavour it next_address own (omega (arith, fits)),
          omega (arith, size, fits, pointer_bytes-address bits it next_address),
        )
  ]

  pub emit_pointers-IsRegular :
      (i n next_address : ℕ)
      → InRange i next_address
      → All (IsRegular bits) (emit_pointers bits items i n next_address).0
        × InRange (i + n) (emit_pointers bits items i n next_address).1
  unfolding emit_pointers
  emit_pointers-IsRegular i zero next_address fits =
      let same : i + 0 ≡ i = omega arith in rw same (tt, fits)
  emit_pointers-IsRegular i (suc n) next_address fits =
      let (first, fits') = emit_one i next_address fits in
      let address = (pointer_bytes bits (get_elem? items i) next_address).1 in
      let (rest, last) = emit_pointers-IsRegular (i + 1) n address fits' in
      let further : i + suc n ≡ i + 1 + n = omega arith in rw further ((first, rest), last)

  pub emit_pointers-count :
      (i n next_address : ℕ) → length (emit_pointers bits items i n next_address).0 ≡ n
  unfolding emit_pointers
  emit_pointers-count i zero next_address = refl
  emit_pointers-count i (suc n) next_address =
      ap suc (emit_pointers-count (i + 1) n (pointer_bytes bits (get_elem? items i) next_address).1)
