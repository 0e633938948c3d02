-- ===== src/Recv/LiveHeap/Addresses.antt =====
-- Where the item pointers of a live heap point to: live_heap::add_packet of
-- src/recv_live_heap.cpp.
use spead.Prelude.{
  ℕ, zero, suc, ◌^◌, ◌≤◌, ◌<◌, ◌≡◌, refl, sym, ap, subst, ◌∙◌, true, ◌⊎◌, inl, inr, List, [], ◌∷◌,
  some, none, Option, All, All-append, arith, drop, Bool-cases,
}
use spead.Bytes.{load_be}
use spead.Pointer.{pointer_decoder, get_address, is_immediate, IsFlavour, item_pointer_size}
use spead.Pointer.RoundTrip.{get_address-lt}
use spead.Recv.Packet.Items.{two_pow_bits}
use spead.Recv.Packet.{PacketHeader}
use spead.Recv.PointerStore.{stored, contains, store}
use spead.Recv.PointerStore.Order
use spead.Recv.PointerStore.Order.{store_lem, empty_store-IsValid}
use spead.Recv.LiveHeap.{
  LiveHeap, PacketMemcpy, live_heap, payload_reserve, add_pointer, add_pointers, note_length,
  copy_payload, accept, add_packet,
}
use spead.Recv.LiveHeap.Effects.{last_of}
use spead.Recv.LiveHeap.Invariant.{range_of, add_packet_cases}

module _ (bits : ℕ) where
  -- An item pointer to a place up to `n`, or an immediate.
  abbrev pub IsPlaced : ℕ → ℕ → Type 0
  IsPlaced n p = (is_immediate p ≡ true) ⊎ (get_address (pointer_decoder bits) p ≤ n)

  -- Where heap_length and the place of the payload fit their 64 bits.
  abbrev pub Small : Option ℕ → Type 0
  Small none = Unit
  Small (some n) = n < 2 ^ 63

  pub record IsSmall (packet : PacketHeader) : Type 0 where
    pub length_small : Small packet.heap_length
    pub last_small : last_of packet < 2 ^ 63

  pub record Placed (h : LiveHeap) : Type 0 where
    pub same_decoder : h.decoder ≡ pointer_decoder bits
    pub small : h.min_length < 2 ^ 63
    pub valid : Order.IsValid h.pointers
    pub placed : All (IsPlaced h.min_length) (stored h.pointers)

  IsPlaced-le : (m n p : ℕ) → m ≤ n → IsPlaced m p → IsPlaced n p
  IsPlaced-le m n p le (inl e) = inl e
  IsPlaced-le m n p le (inr h) = inr (omega arith)

  All-IsPlaced-le : (m n : ℕ) (ps : List ℕ) → m ≤ n → All (IsPlaced m) ps → All (IsPlaced n) ps
  All-IsPlaced-le m n [] le all = tt
  All-IsPlaced-le m n (p ∷ ps) le all =
      (IsPlaced-le m n p le all.0, All-IsPlaced-le m n ps le all.1)

  store-IsPlaced :
      (h : LiveHeap) (n p : ℕ)
      → Placed h
      → h.min_length ≤ n
      → IsPlaced n p
      → All (IsPlaced n) (stored (store h.pointers p).1)
  store-IsPlaced h n p v le here =
      let old = All-IsPlaced-le h.min_length n (stored h.pointers) le v.placed in
      let (_, _, e) = store_lem h.pointers v.valid p in
      subst (All (IsPlaced n)) (sym e) (elim (Bool-cases (contains p (stored h.pointers))) [
        | inl seen ↦ rw seen old
        | inr new ↦ rw new (All-append (IsPlaced n) (stored h.pointers) (p ∷ []) old (here, tt))
      ])

  -- min_length after a pointer.
  abbrev reach : LiveHeap → ℕ → ℕ
  reach h p = (add_pointer h p).min_length

  reach_lem :
      (fl : IsFlavour bits) (h : LiveHeap) (p : ℕ)
      → Placed h
      → (h.min_length ≤ reach h p) × (reach h p < 2 ^ 63) × IsPlaced (reach h p) p
  unfolding add_pointer
  reach_lem fl h p v =
      let below = get_address-lt bits fl p in
      let room = (two_pow_bits bits fl).0 in
      let small = v.small in
      elim (Bool-cases (is_immediate p)) [
        | inl e ↦ rw e (omega arith, omega arith, inl refl)
        | inr e ↦ rw (e, v.same_decoder) (omega arith, omega arith, inr (omega arith))
      ]

  add_pointer_cases :
      (h : LiveHeap) (p : ℕ)
      → ((add_pointer h p).pointers ≡ h.pointers)
        ⊎ ((add_pointer h p).pointers ≡ (store h.pointers p).1)
  unfolding add_pointer
  add_pointer_cases h p = ground arith

  add_pointer-decoder : (h : LiveHeap) (p : ℕ) → (add_pointer h p).decoder ≡ h.decoder
  unfolding add_pointer
  add_pointer-decoder h p = refl

  module _ (fl : IsFlavour bits) where
    add_pointer-Placed : (h : LiveHeap) (p : ℕ) → Placed h → Placed (add_pointer h p)
    add_pointer-Placed h p v =
        let (le, small, here) = reach_lem fl h p v in
        elim (add_pointer_cases h p) [
          | inl same ↦ record {
            same_decoder = add_pointer-decoder h p ∙ v.same_decoder;
            small = small;
            valid = subst Order.IsValid (sym same) v.valid;
            placed =
                subst (λ s. All (IsPlaced (reach h p)) (stored s)) (sym same)
                  (All-IsPlaced-le h.min_length (reach h p) (stored h.pointers) le v.placed);
          }
          | inr added ↦ record {
            same_decoder = add_pointer-decoder h p ∙ v.same_decoder;
            small = small;
            valid = subst Order.IsValid (sym added) (store_lem h.pointers v.valid p).0;
            placed =
                subst (λ s. All (IsPlaced (reach h p)) (stored s)) (sym added)
                  (store-IsPlaced h (reach h p) p v le here);
          }
        ]

    add_pointers-Placed :
        (h : LiveHeap) (n : ℕ) (pointers : List ℕ) → Placed h → Placed (add_pointers h n pointers)
    unfolding add_pointers
    add_pointers-Placed h zero pointers v = v
    add_pointers-Placed h (suc n) pointers v =
        add_pointers-Placed (add_pointer h (load_be pointers)) n (drop item_pointer_size pointers)
          (add_pointer-Placed h (load_be pointers) v)

    -- A change of the lengths and of the memory.
    longer-Placed :
        (h h' : LiveHeap)
        → Placed h
        → h'.decoder ≡ h.decoder
        → h'.pointers ≡ h.pointers
        → h.min_length ≤ h'.min_length
        → h'.min_length < 2 ^ 63
        → Placed h'
    longer-Placed h h' v d p le small = record {
      same_decoder = d ∙ v.same_decoder;
      small = small;
      valid = subst Order.IsValid (sym p) v.valid;
      placed =
          subst (λ s. All (IsPlaced h'.min_length) (stored s)) (sym p)
            (All-IsPlaced-le h.min_length h'.min_length (stored h.pointers) le v.placed);
    }

    accept-Placed :
        (h : LiveHeap) (packet : PacketHeader) (m : PacketMemcpy)
        → IsSmall packet
        → Placed h
        → Placed (accept h packet m)
    unfolding accept note_length payload_reserve copy_payload
    accept-Placed h packet m s v =
        let noted : Placed (note_length h packet) =
          longer-Placed h (note_length h packet) v (ground arith) (ground arith)
            (ground (arith, v.small, s.length_small, s.last_small))
            (ground (arith, v.small, s.length_small, s.last_small)) in
        let g = add_pointers (note_length h packet) packet.n_items packet.pointers in
        let pointed : Placed g =
          add_pointers-Placed (note_length h packet) packet.n_items packet.pointers noted in
        longer-Placed g (copy_payload g packet m) pointed (ground arith) (ground arith)
          (ground arith) (ground (arith, pointed.small))

    pub add_packet-Placed :
        (h : LiveHeap) (packet : PacketHeader) (m : PacketMemcpy)
        → IsSmall packet
        → Placed h
        → Placed (add_packet h packet m).1
    add_packet-Placed h packet m s v = elim (add_packet_cases h packet m) [
      | inl (_, e) ↦ subst Placed (sym e) v
      | inr (_, _, e) ↦
          let g = record h { payload_ranges = (range_of h packet).1 } in
          subst Placed (sym (ap (λ r. r.1) e))
            (accept-Placed g packet m s (longer-Placed h g v refl refl (omega arith) v.small))
    ]

  pub live_heap-Placed :
      (packet : PacketHeader) (bug_compat : ℕ)
      → packet.heap_address_bits ≡ bits
      → Placed (live_heap packet bug_compat)
  unfolding live_heap stored
  live_heap-Placed packet bug_compat e = record {
    same_decoder = ap pointer_decoder e;
    small = omega arith;
    valid = empty_store-IsValid;
    placed = tt;
  }
