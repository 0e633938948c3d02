-- ===== src/Recv/Heap/Bounds.antt =====
-- Where the items of a frozen heap lie: heap_base::load of src/recv_heap.cpp.
use spead.Prelude.{
  ℕ, ◌+◌, ◌≤◌, ◌<◌, ◌≡◌, ◌≢◌, refl, sym, ap, subst, ◌&&◌, Bool, true, false, not, ◌⊎◌, inl, inr,
  List, [], ◌∷◌, ◌++◌, Option, none, some, ltb, ◌==◌, if◌then◌else◌, All, All-append, arith,
  Bool-cases,
}
use spead.Pointer.{get_id, get_address, is_immediate, IsFlavour, null_id}
use spead.Common.Flavour.{IsFlavour-made}
use spead.Recv.PointerStore.{stored}
use spead.Recv.LiveHeap.{LiveHeap, is_contiguous}
use spead.Recv.LiveHeap.Addresses.{IsPlaced, Placed}
use spead.Recv.Heap.{
  Item, HeapBase, sort_key, stable_sort, end_of, load_item, load_items, load, addressed_item,
  immediate_item,
}
use spead.Recv.Heap.Order.{IsSorted, stable_sort-IsSorted, stable_sort-All, sort_key-addressed}

-- The item is an immediate of the heap's width, or, where addressed items are
-- kept, some bytes of the payload within min_length.
abbrev pub IsWithin : Bool → LiveHeap → Item → Type 0
IsWithin keep_addressed h it =
    ((p : ℕ) × (it ≡ immediate_item h.decoder p))
    ⊎ ((start : ℕ) × (keep_addressed ≡ true)
        × (it.ptr ≡ (λ i. h.payload (start + i)))
        × (0 < it.length)
        × (start + it.length ≤ h.min_length))

-- load adds items to the list, all of them so.
abbrev Loads : Bool → LiveHeap → Option (List Item) → Type 0
Loads keep_addressed h none = ⊥
Loads keep_addressed h (some items) = All (IsWithin keep_addressed h) items

module _ (bits : ℕ) (fl : IsFlavour bits) (h : LiveHeap) (v : Placed bits h) where
  address-le :
      (p : ℕ)
      → IsPlaced bits h.min_length p
      → is_immediate p ≡ false
      → get_address h.decoder p ≤ h.min_length
  address-le p (inl i) e = absurd (ground arith)
  address-le p (inr a) e = subst (λ d. get_address d p ≤ h.min_length) (sym v.same_decoder) a

  key-address : (p : ℕ) → is_immediate p ≡ false → sort_key h.decoder p ≡ get_address h.decoder p
  key-address p e =
      subst (λ d. sort_key d p ≡ get_address d p) (sym v.same_decoder)
        (sort_key-addressed bits p fl e)

  end_of-le : (rest : List ℕ) → All (IsPlaced bits h.min_length) rest → end_of h rest ≤ h.min_length
  unfolding end_of
  end_of-le [] all = omega arith
  end_of-le (q ∷ rest) (here, all) = elim (Bool-cases (is_immediate q)) [
    | inl e ↦ ground arith
    | inr e ↦ ground (arith, address-le q here e)
  ]

  start-le :
      (p : ℕ) (rest : List ℕ)
      → IsPlaced bits h.min_length p
      → is_immediate p ≡ false
      → IsSorted h.decoder (p ∷ rest)
      → get_address h.decoder p ≤ end_of h rest
  unfolding end_of
  start-le p [] here e s = address-le p here e
  start-le p (q ∷ rest) here e s = elim (Bool-cases (is_immediate q)) [
    | inl i ↦ rw i (address-le p here e)
    | inr n ↦ rw n (omega (arith, s.0, key-address p e, key-address q n))
  ]

  addressed-IsWithin :
      (p : ℕ) (rest : List ℕ)
      → get_address h.decoder p ≤ end_of h rest
      → end_of h rest ≤ h.min_length
      → get_address h.decoder p ≢ end_of h rest
      → IsWithin true h (addressed_item h p rest)
  addressed-IsWithin p rest start end some_bytes =
      let a = get_address h.decoder p in
      let e = end_of h rest in let small = v.small in inr (a, refl, refl, omega arith, omega arith)

  load_item-Loads :
      (keep_addressed : Bool) (p : ℕ) (rest : List ℕ)
      → All (IsPlaced bits h.min_length) (p ∷ rest)
      → IsSorted h.decoder (p ∷ rest)
      → Loads keep_addressed h (load_item h keep_addressed p rest)
  unfolding load_item
  load_item-Loads keep_addressed p rest all s = elim (Bool-cases (get_id h.decoder p == null_id)) [
    | inl e ↦ rw e tt
    | inr named ↦ elim (Bool-cases (is_immediate p)) [
      | inl i ↦ rw (named, i) (inl (p, refl), tt)
      | inr n ↦ elim (Bool-cases keep_addressed) [
        | inr without ↦ rw (named, n, without) tt
        | inl with_them ↦
            let le = address-le p all.0 n in
            let start = start-le p rest all.0 n s in
            let end = end_of-le rest all.1 in
            let passes : ltb h.min_length (get_address h.decoder p) ≡ false = ground arith in
            elim (Bool-cases (get_address h.decoder p == end_of h rest)) [
              | inl empty ↦ rw (named, n, with_them, passes, empty) tt
              | inr more ↦
                  rw (named, n, with_them, passes, more)
                    (addressed-IsWithin p rest start end (ground arith), tt)
            ]
      ]
    ]
  ]

  IsSorted-tail : (p : ℕ) (rest : List ℕ) → IsSorted h.decoder (p ∷ rest) → IsSorted h.decoder rest
  IsSorted-tail p [] s = tt
  IsSorted-tail p (q ∷ rest) s = s.1

  both :
      (keep_addressed : Bool) (added items : Option (List Item))
      → Loads keep_addressed h added
      → Loads keep_addressed h items
      → Loads keep_addressed h (elim added [
        | none ↦ none
        | some a ↦ elim items [ none ↦ none | some i ↦ some (a ++ i) ]
      ])
  both keep_addressed none items a i = a
  both keep_addressed (some added) none a i = i
  both keep_addressed (some added) (some items) a i =
      All-append (IsWithin keep_addressed h) added items a i

  load_items-Loads :
      (keep_addressed : Bool) (ps : List ℕ)
      → All (IsPlaced bits h.min_length) ps
      → IsSorted h.decoder ps
      → Loads keep_addressed h (load_items h keep_addressed ps)
  unfolding load_items
  load_items-Loads keep_addressed [] all s = tt
  load_items-Loads keep_addressed (p ∷ ps) all s =
      both keep_addressed (load_item h keep_addressed p ps) (load_items h keep_addressed ps)
        (load_item-Loads keep_addressed p ps all s)
        (load_items-Loads keep_addressed ps all.1 (IsSorted-tail p ps s))

  -- What load makes of the heap, with the items in it.
  abbrev pub frozen : Bool → List Item → HeapBase
  frozen keep_payload items = record {
    cnt = h.cnt;
    flavour = record { heap_address_bits = bits; bug_compat = h.bug_compat };
    items = items;
    payload = if keep_payload then some h.payload else none;
  }

  Loads-cases :
      (keep_addressed : Bool) (loaded : Option (List Item))
      → Loads keep_addressed h loaded
      → (items : List Item) × (loaded ≡ some items) × All (IsWithin keep_addressed h) items
  Loads-cases keep_addressed none l = absurd l
  Loads-cases keep_addressed (some items) l = (items, refl, l)

  -- Where the assert of load on is_contiguous holds, load fails no assert.
  pub load_lem :
      (keep_addressed keep_payload : Bool)
      → (keep_addressed && not (is_contiguous h)) ≡ false
      → (items : List Item) × (load h keep_addressed keep_payload
          ≡ some (frozen keep_payload items))
        × All (IsWithin keep_addressed h) items
  unfolding load
  load_lem keep_addressed keep_payload ok =
      let sorted = stable_sort h.decoder (stored h.pointers) in
      let (items, e, within) = Loads-cases keep_addressed (load_items h keep_addressed sorted) (
        load_items-Loads keep_addressed sorted
          (stable_sort-All h.decoder (IsPlaced bits h.min_length) (stored h.pointers) v.placed)
          (stable_sort-IsSorted h.decoder (stored h.pointers))) in
      let width = ap (λ d. d.heap_address_bits) v.same_decoder in
      (items, rw (ok, e, width, IsFlavour-made bits h.bug_compat fl) refl, within)
