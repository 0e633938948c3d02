-- ===== src/Recv/Heap/Order.antt =====
-- The order of the item pointers in heap_base::load of src/recv_heap.cpp.
use spead.Prelude.{
  ℕ, ◌-◌, ◌^◌, ◌≤◌, ◌≡◌, ap, ◌∙◌, false, List, [], ◌∷◌, All, ltb, arith, bit_and, bit_or-disjoint,
  bit_and-low, Bool-cases, inl, inr,
}
use spead.Pointer.{PointerDecoder, pointer_decoder, get_address, is_immediate, IsFlavour}
use spead.Recv.Packet.Items.{two_pow_bits}
use spead.Recv.Heap.{sort_key, insert_pointer, stable_sort}

abbrev pub IsSorted : PointerDecoder → List ℕ → Type 0
IsSorted d [] = Unit
IsSorted d (p ∷ []) = Unit
IsSorted d (p ∷ q ∷ rest) = (sort_key d p ≤ sort_key d q) × IsSorted d (q ∷ rest)

module _ (d : PointerDecoder) where
  insert_after-IsSorted :
      (q p : ℕ) (qs : List ℕ)
      → sort_key d q ≤ sort_key d p
      → IsSorted d (q ∷ qs)
      → IsSorted d (q ∷ insert_pointer d p qs)
  unfolding insert_pointer
  insert_after-IsSorted q p [] h s = (h, tt)
  insert_after-IsSorted q p (q' ∷ qs) h s = elim (Bool-cases (ltb (sort_key d q') (sort_key d p))) [
    | inl e ↦ rw e (s.0, insert_after-IsSorted q' p qs (ground arith) s.1)
    | inr e ↦ rw e (h, (ground arith, s.1))
  ]

  insert_pointer-IsSorted :
      (p : ℕ) (qs : List ℕ) → IsSorted d qs → IsSorted d (insert_pointer d p qs)
  unfolding insert_pointer
  insert_pointer-IsSorted p [] s = tt
  insert_pointer-IsSorted p (q ∷ qs) s = elim (Bool-cases (ltb (sort_key d q) (sort_key d p))) [
    | inl e ↦ rw e (insert_after-IsSorted q p qs (ground arith) s)
    | inr e ↦ rw e (ground arith, s)
  ]

  pub stable_sort-IsSorted : (ps : List ℕ) → IsSorted d (stable_sort d ps)
  unfolding stable_sort
  stable_sort-IsSorted [] = tt
  stable_sort-IsSorted (p ∷ ps) =
      insert_pointer-IsSorted p (stable_sort d ps) (stable_sort-IsSorted ps)

  insert_pointer-All {κ} :
      (P : ℕ → Type κ) (p : ℕ) (qs : List ℕ) → P p → All P qs → All P (insert_pointer d p qs)
  unfolding insert_pointer
  insert_pointer-All P p [] h hs = (h, tt)
  insert_pointer-All P p (q ∷ qs) h hs = elim (Bool-cases (ltb (sort_key d q) (sort_key d p))) [
    | inl e ↦ rw e (hs.0, insert_pointer-All P p qs h hs.1)
    | inr e ↦ rw e (h, hs)
  ]

  pub stable_sort-All {κ} : (P : ℕ → Type κ) (ps : List ℕ) → All P ps → All P (stable_sort d ps)
  unfolding stable_sort
  stable_sort-All P [] h = tt
  stable_sort-All P (p ∷ ps) h =
      insert_pointer-All P p (stable_sort d ps) h.0 (stable_sort-All P ps h.1)

-- Addressed items are in the order of their addresses.
pub sort_key-addressed :
    (bits p : ℕ)
    → IsFlavour bits
    → is_immediate p ≡ false
    → sort_key (pointer_decoder bits) p ≡ get_address (pointer_decoder bits) p
unfolding sort_key is_immediate get_address
sort_key-addressed bits p fl e =
    ap (bit_and p) (bit_or-disjoint 63 1 (2 ^ bits - 1) (omega (arith, (two_pow_bits bits fl).0)))
    ∙ bit_and-low 63 p 1 (2 ^ bits - 1) (ground arith)
