-- ===== src/Send/Generator/Pointers.antt =====
-- What the item pointer loop of packet_generator::next_packet puts into a packet.
use spead.Prelude.{
  ℕ, zero, suc, ◌+◌, ◌-◌, ◌*◌, ◌/◌, ◌≡◌, refl, sym, ap, ◌∙◌, Bool, true, false, inl, inr, List, [],
  ◌∷◌, ◌++◌, Option, none, some, length, take, get_elem?, if◌then◌else◌, arith, Bool-cases, leb,
  length-append, length-take, append-nil, ◌&&◌, not, ap₂,
}
use spead.Bytes.{store_be}
use spead.Pointer.{IsFlavour, encode_immediate, encode_address, null_id}
use spead.Send.Heap.{Item, use_immediate, payload_of, heap_payload}
use spead.Send.Generator.{pointer_bytes, emit_pointers, concat, one_if}

module _ (bits : ℕ) (flavour : IsFlavour bits) where
  pointer_bytes-length :
      (o : Option Item) (next_address : ℕ) → length (pointer_bytes bits o next_address).0 ≡ 8
  unfolding pointer_bytes
  pointer_bytes-length none next_address = refl
  pointer_bytes-length (some it) next_address = elim (Bool-cases it.is_inline) [
    | inl stored ↦ rw stored refl
    | inr referenced ↦ elim (Bool-cases (it.allow_immediate && leb (length it.buffer) (bits / 8))) [
      | inl small ↦
          rw (referenced, small)
            (length-append (take (8 - length it.buffer) (store_be (encode_immediate bits it.id 0)))
                it.buffer
              ∙ ap (λ n. n + length it.buffer)
                  (length-take (8 - length it.buffer) (store_be (encode_immediate bits it.id 0)))
              ∙ ground (arith, flavour.below))
      | inr big ↦ rw (referenced, big) refl
    ]
  ]

  -- Every item pointer takes eight bytes.
  pub emit_pointers-length :
      (items : List Item) (i n next_address : ℕ)
      → length (concat (emit_pointers bits items i n next_address).0) ≡ n * 8
  unfolding emit_pointers concat
  emit_pointers-length items i zero next_address = refl
  emit_pointers-length items i (suc n) next_address =
      let o = get_elem? items i in
      let (bytes, address) = pointer_bytes bits o next_address in
      length-append bytes (concat (emit_pointers bits items (i + 1) n address).0)
      ∙ omega
          (arith, pointer_bytes-length o next_address, emit_pointers-length items (i + 1) n address)

module _ (bits : ℕ) (items : List Item) where
  -- Two runs of the loop, the second from where the first stopped, are one.
  pub emit_pointers-split :
      (n m i next_address : ℕ)
      → let first = emit_pointers bits items i n next_address in
        let second = emit_pointers bits items (i + n) m first.1 in
        emit_pointers bits items i (n + m) next_address ≡ (first.0 ++ second.0, second.1)
  unfolding emit_pointers
  emit_pointers-split zero m i next_address =
      let none_yet : 0 + m ≡ m = omega arith in
      let same : i + 0 ≡ i = omega arith in rw (none_yet, same) refl
  emit_pointers-split (suc n) m i next_address =
      let (bytes, address) = pointer_bytes bits (get_elem? items i) next_address in
      let grown : suc n + m ≡ suc (n + m) = omega arith in
      let further : i + suc n ≡ i + 1 + n = omega arith in
      rw (grown, further)
        (ap {B = List (List ℕ) × ℕ} (λ (r : List (List ℕ) × ℕ). (bytes ∷ r.0, r.1))
          (emit_pointers-split n m (i + 1) address))

-- What the item pointer of an item has to be: the place of its payload, if it adds to the payload,
-- and otherwise its value, or its bytes at the end of an immediate of value 0.
unfoldable pub item_pointer : ℕ → Item → ℕ → List ℕ
item_pointer bits it place =
    if not (use_immediate (bits / 8) it)
    then store_be (encode_address bits it.id place)
    else if it.is_inline
    then store_be (encode_immediate bits it.id it.immediate)
    else take (8 - length it.buffer) (store_be (encode_immediate bits it.id 0)) ++ it.buffer

pointer_bytes-item_pointer :
    (bits : ℕ) (it : Item) (place : ℕ)
    → (pointer_bytes bits (some it) place).0 ≡ item_pointer bits it place
unfolding pointer_bytes item_pointer use_immediate
pointer_bytes-item_pointer bits it place = ground arith

-- The item pointers of a heap: each item that is not sent as an immediate has the place of its
-- payload as its address, which starts at `next_address`.
unfoldable pub item_pointers : ℕ → List Item → ℕ → List (List ℕ)
item_pointers bits [] next_address = []
item_pointers bits (it ∷ items) next_address =
    item_pointer bits it next_address
    ∷ item_pointers bits items (next_address + length (payload_of (bits / 8) it))

pub pointer_bytes-address :
    (bits : ℕ) (it : Item) (next_address : ℕ)
    → (pointer_bytes bits (some it) next_address).1
      ≡ next_address + length (payload_of (bits / 8) it)
unfolding pointer_bytes payload_of use_immediate
pointer_bytes-address bits it next_address = ground arith

emit_pointers-shift :
    (bits : ℕ) (it : Item) (items : List Item) (n i next_address : ℕ)
    → emit_pointers bits (it ∷ items) (suc i) n next_address
      ≡ emit_pointers bits items i n next_address
unfolding emit_pointers
emit_pointers-shift bits it items zero i next_address = refl
emit_pointers-shift bits it items (suc n) i next_address =
    let (bytes, address) = pointer_bytes bits (get_elem? items i) next_address in
    let from : suc i + 1 ≡ suc (i + 1) = omega arith in
    rw from (
      ap {B = List (List ℕ) × ℕ} (λ (r : List (List ℕ) × ℕ). (bytes ∷ r.0, r.1))
        (emit_pointers-shift bits it items n (i + 1) address))

-- The loop over all items gives the item pointers, and ends at the size of the payload.
emit_pointers-items :
    (bits : ℕ) (items : List Item) (next_address : ℕ)
    → emit_pointers bits items 0 (length items) next_address ≡ (
      item_pointers bits items next_address,
      next_address + length (heap_payload (bits / 8) items),
    )
unfolding emit_pointers item_pointers heap_payload
emit_pointers-items bits [] next_address =
    let stay : next_address + 0 ≡ next_address = omega arith in rw stay refl
emit_pointers-items bits (it ∷ items) next_address =
    let first = payload_of (bits / 8) it in
    let rest = heap_payload (bits / 8) items in
    let (bytes, address) = pointer_bytes bits (some it) next_address in
    let place = next_address + length first in
    let tail : emit_pointers bits (it ∷ items) 1 (length items) address
        ≡ (item_pointers bits items place, place + length rest) =
      emit_pointers-shift bits it items (length items) 0 address
      ∙ ap (emit_pointers bits items 0 (length items)) (pointer_bytes-address bits it next_address)
      ∙ emit_pointers-items bits items place in
    let sum : place + length rest ≡ next_address + length (first ++ rest) =
      omega (arith, length-append first rest) in
    ap {B = List (List ℕ) × ℕ} (λ (r : List (List ℕ) × ℕ). (bytes ∷ r.0, r.1)) tail
    ∙ ap₂ {C = List (List ℕ) × ℕ} (λ b n. (b ∷ item_pointers bits items place, n))
        (pointer_bytes-item_pointer bits it next_address) sum

-- With the null item at the end, if one is due.
unfoldable pub all_pointers : ℕ → Bool → List Item → List (List ℕ)
unfolding item_pointers
all_pointers bits need_null items =
    item_pointers bits items 0
    ++ (if need_null
        then store_be (encode_address bits null_id (length (heap_payload (bits / 8) items))) ∷ []
        else [])

get_elem?_past : (items : List Item) → get_elem? items (length items) ≡ none
get_elem?_past [] = refl
get_elem?_past (it ∷ items) = get_elem?_past items

pub emit_pointers-all :
    (bits : ℕ) (need_null : Bool) (items : List Item)
    → (emit_pointers bits items 0 (length items + one_if need_null) 0).0
      ≡ all_pointers bits need_null items
unfolding all_pointers emit_pointers pointer_bytes
emit_pointers-all bits false items =
    let no_more : length items + 0 ≡ length items = omega arith in
    rw no_more (
      ap {B = List (List ℕ)} (λ (r : List (List ℕ) × ℕ). r.0) (emit_pointers-items bits items 0)
      ∙ sym (append-nil (item_pointers bits items 0)))
emit_pointers-all bits true items =
    let start : 0 + length items ≡ length items = omega arith in
    let size : 0 + length (heap_payload (bits / 8) items) ≡ length (heap_payload (bits / 8) items) =
      omega arith in
    let first = emit_pointers bits items 0 (length items) 0 in
    let whole = emit_pointers-items bits items 0 in
    ap {B = List (List ℕ)} (λ (r : List (List ℕ) × ℕ). r.0)
      (emit_pointers-split bits items (length items) 1 0 0)
    ∙ ap {B = List (List ℕ)}
        (λ (r : List (List ℕ) × ℕ). r.0 ++ (emit_pointers bits items (0 + length items) 1 r.1).0)
        whole
    ∙ rw (start, size, get_elem?_past items) refl
