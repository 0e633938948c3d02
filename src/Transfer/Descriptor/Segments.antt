-- ===== src/Transfer/Descriptor/Segments.antt =====
-- The payload of a descriptor as segments, one after the other, each with its item pointer:
-- encode_descriptor of src/send_heap.cpp, and the sort of heap_base::load in src/recv_heap.cpp.
use spead.Prelude.{
  ℕ, ◌+◌, ◌-◌, ◌*◌, ◌^◌, ◌≤◌, ◌<◌, ◌≡◌, refl, sym, ap, ◌∙◌, true, false, List, [], ◌∷◌, ◌++◌, All,
  length, ltb, arith, bit_or, bit_or-disjoint, bit_and-top, pow-add,
}
use spead.Pointer.{
  PointerDecoder, pointer_decoder, encode_address, encode_immediate, immediate_mask, IsFlavour,
  Fits,
}
use spead.Pointer.RoundTrip.{decode-encode_address, encode_immediate_sum, encode_immediate-lt}
use spead.Recv.Packet.Items.{two_pow_bits}
use spead.Recv.Heap.{sort_key, insert_pointer, stable_sort}
use spead.Recv.Heap.Order.{IsSorted, sort_key-addressed}

pub record Segment : Type 0 where
  pub id : ℕ
  pub bytes : List ℕ

-- The item pointers of segments from offset `o` on, and the payload.
abbrev pub addresses : ℕ → ℕ → List Segment → List ℕ
addresses bits o [] = []
addresses bits o (s ∷ segments) =
    encode_address bits s.id o ∷ addresses bits (o + length s.bytes) segments

abbrev pub contents : List Segment → List ℕ
contents [] = []
contents (s ∷ segments) = s.bytes ++ contents segments

-- The IDs fit and are above those that decoding a packet looks at, and the payload fits.
abbrev pub AllFit : ℕ → ℕ → List Segment → Type 0
AllFit bits o [] = o < 2 ^ bits
AllFit bits o (s ∷ segments) =
    Fits bits s.id o × (6 < s.id) × AllFit bits (o + length s.bytes) segments

module _ (d : PointerDecoder) where
  sorted_already : (ps : List ℕ) → IsSorted d ps → stable_sort d ps ≡ ps
  unfolding stable_sort insert_pointer
  sorted_already [] s = refl
  sorted_already (p ∷ []) s = refl
  sorted_already (p ∷ q ∷ ps) s =
      let first : ltb (sort_key d q) (sort_key d p) ≡ false = ground (arith, s.0) in
      ap (insert_pointer d p) (sorted_already (q ∷ ps) s.1) ∙ rw first refl

  goes_last :
      (p : ℕ) (qs : List ℕ)
      → All (λ q. sort_key d q < sort_key d p) qs
      → insert_pointer d p qs ≡ qs ++ p ∷ []
  unfolding insert_pointer
  goes_last p [] less = refl
  goes_last p (q ∷ qs) less =
      let after : ltb (sort_key d q) (sort_key d p) ≡ true = ground (arith, less.0) in
      rw after (ap (◌∷◌ q) (goes_last p qs less.1))

module _ (bits : ℕ) (fl : IsFlavour bits) where
  abbrev d : PointerDecoder
  d = pointer_decoder bits

  address_key : (id o : ℕ) → Fits bits id o → sort_key d (encode_address bits id o) ≡ o
  address_key id o fits =
      let (flag, _, same) = decode-encode_address bits fl id o fits in
      sort_key-addressed bits (encode_address bits id o) fl flag ∙ same

  addresses-IsSorted :
      (o : ℕ) (segments : List Segment)
      → AllFit bits o segments
      → IsSorted d (addresses bits o segments)
  addresses-IsSorted o [] fits = tt
  addresses-IsSorted o (s ∷ []) fits = tt
  addresses-IsSorted o (s ∷ t ∷ segments) (f, _, rest) =
      let next_key = address_key t.id (o + length s.bytes) rest.0 in
      (
        omega (arith, address_key s.id o f, next_key),
        addresses-IsSorted (o + length s.bytes) (t ∷ segments) rest,
      )

  immediate_key :
      (id value : ℕ) → Fits bits id value → 2 ^ 63 ≤ sort_key d (encode_immediate bits id value)
  unfolding sort_key
  immediate_key id value fits =
      let x = id * 2 ^ bits + value in
      let m = 2 ^ bits - 1 in
      let small = fl.below in
      let width : 63 - bits + bits ≡ 63 = omega arith in
      let split : 2 ^ (63 - bits) * 2 ^ bits ≡ 2 ^ 63 =
        sym (pow-add (63 - bits) bits) ∙ ap (λ n. 2 ^ n) width in
      let sum = encode_immediate_sum bits fl id value fits in
      let low = encode_immediate-lt bits fl id value fits in
      let p : encode_immediate bits id value ≡ 2 ^ 63 + x = omega (arith, sum, split) in
      let room = (two_pow_bits bits fl).0 in
      let mask : bit_or immediate_mask m ≡ 2 ^ 63 + m =
        bit_or-disjoint 63 1 m (omega arith) ∙ omega arith in
      let top = bit_and-top 63 x m (omega arith) (omega arith) in rw (p, mask, top) (omega arith)

  below_immediate :
      (o : ℕ) (segments : List Segment) (id value : ℕ)
      → AllFit bits o segments
      → Fits bits id value
      → All
          (λ q. sort_key d q < sort_key d (encode_immediate bits id value))
          (addresses bits o segments)
  below_immediate o [] id value fits f = tt
  below_immediate o (s ∷ segments) id value fits f =
      let key = address_key s.id o fits.0 in
      let high = immediate_key id value f in
      let room = (two_pow_bits bits fl).0 in
      let small = fits.0.value_fits in
      (omega arith, below_immediate (o + length s.bytes) segments id value fits.2 f)

  -- The sort brings the immediate to the end.
  pub stable_sort-segments :
      (segments : List Segment) (id value : ℕ)
      → AllFit bits 0 segments
      → Fits bits id value
      → stable_sort d (encode_immediate bits id value ∷ addresses bits 0 segments)
        ≡ addresses bits 0 segments ++ encode_immediate bits id value ∷ []
  unfolding stable_sort
  stable_sort-segments segments id value fits f =
      let p = encode_immediate bits id value in
      let ps = addresses bits 0 segments in
      ap (insert_pointer d p) (sorted_already d ps (addresses-IsSorted 0 segments fits))
      ∙ goes_last d p ps (below_immediate 0 segments id value fits f)
