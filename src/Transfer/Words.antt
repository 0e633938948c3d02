-- ===== src/Transfer/Words.antt =====
-- The words of a packet of src/send_packet.cpp, as decode_packet of src/recv_packet.cpp reads them.
use native.Mathlib.Nat.{pow-le-pow_right}
use spead.Prelude.{
  ℕ, ◌+◌, ◌-◌, ◌*◌, ◌/◌, ◌^◌, ◌≤◌, ◌<◌, ◌≡◌, refl, ap, ◌∙◌, true, ◌&&◌, inl, inr, List, [], ◌∷◌,
  ◌++◌, none, some, All, length, take, leb, arith, Bool-cases, append_assoc, pow-add,
  bit_or-disjoint, bit_or, two_pow_pos, length-append, length-take,
}
use spead.Bytes.{load_bytes, load_be, store_be, load_be-store_be}
use spead.Pointer.{IsFlavour, Fits, encode_immediate, encode_address}
use spead.Pointer.RoundTrip.{
  decode-encode_immediate, decode-encode_address, encode_immediate_sum, encode_immediate-lt,
  encode_address-lt,
}
use spead.Send.Heap.{Item}
use spead.Send.Generator.{pointer_bytes, emit_pointers}
use spead.Send.Generator as Generator
use spead.Recv.Packet.Header as Header
use spead.Recv.Packet.Items.{IsRegular, is_regular}

-- Both ends mean the same header word.
pub header_word_same :
    (bits n : ℕ)
    → IsFlavour bits
    → n + 4 < 2 ^ 16
    → Generator.header_word (bits / 8) n ≡ Header.header_word bits (n + 4)
unfolding Generator.header_word
header_word_same bits n f few =
    let k = bits / 8 in
    let low : k ≤ 7 = omega (arith, f.below, f.whole) in
    let first : bit_or (0x5304 * 2 ^ 48) ((8 - k) * 2 ^ 40) ≡ (0x5304 * 2 ^ 8 + (8 - k)) * 2 ^ 40 =
      bit_or-disjoint 48 0x5304 ((8 - k) * 2 ^ 40) (omega arith) ∙ omega arith in
    let second : bit_or ((0x5304 * 2 ^ 8 + (8 - k)) * 2 ^ 40) (k * 2 ^ 32)
        ≡ ((0x5304 * 2 ^ 8 + (8 - k)) * 2 ^ 8 + k) * 2 ^ 32 =
      bit_or-disjoint 40 (0x5304 * 2 ^ 8 + (8 - k)) (k * 2 ^ 32) (omega arith) ∙ omega arith in
    rw (first, second)
      (bit_or-disjoint 32 ((0x5304 * 2 ^ 8 + (8 - k)) * 2 ^ 8 + k) (n + 4) (omega arith)
        ∙ omega arith)

-- Bytes in place of the last ones of a word, which are zero.
low_bytes :
    (bytes rest : List ℕ) (w m : ℕ)
    → All (λ b. b < 256) bytes
    → length bytes ≤ 7
    → w ≡ m * 2 ^ (8 * length bytes)
    → w < 2 ^ 64
    → (v : ℕ) × (load_be (take (8 - length bytes) (store_be w) ++ (bytes ++ rest)) ≡ w + v)
      × (v < 2 ^ (8 * length bytes))
unfolding load_be load_bytes
low_bytes [] rest w m all short e h = (0, omega arith, omega arith)
low_bytes (a ∷ []) rest w m (ha, _) short e h = (a, omega arith, omega arith)
low_bytes (a ∷ b ∷ []) rest w m (ha, (hb, _)) short e h = (a * 256 + b, omega arith, omega arith)
low_bytes (a ∷ b ∷ c ∷ []) rest w m (ha, (hb, (hc, _))) short e h =
    ((a * 256 + b) * 256 + c, omega arith, omega arith)
low_bytes (a ∷ b ∷ c ∷ d ∷ []) rest w m (ha, (hb, (hc, (hd, _)))) short e h =
    (((a * 256 + b) * 256 + c) * 256 + d, omega arith, omega arith)
low_bytes (a ∷ b ∷ c ∷ d ∷ x ∷ []) rest w m (ha, (hb, (hc, (hd, (hx, _))))) short e h =
    ((((a * 256 + b) * 256 + c) * 256 + d) * 256 + x, omega arith, omega arith)
low_bytes (a ∷ b ∷ c ∷ d ∷ x ∷ y ∷ []) rest w m (ha, (hb, (hc, (hd, (hx, (hy, _)))))) short e h =
    (((((a * 256 + b) * 256 + c) * 256 + d) * 256 + x) * 256 + y, omega arith, omega arith)
low_bytes (a ∷ b ∷ c ∷ d ∷ x ∷ y ∷ z ∷ []) rest w m (ha, (hb, (hc, (hd, (hx, (hy, (hz, _)))))))
      short e h =
    (
      (((((a * 256 + b) * 256 + c) * 256 + d) * 256 + x) * 256 + y) * 256 + z,
      omega arith,
      omega arith,
    )
low_bytes (a ∷ b ∷ c ∷ d ∷ x ∷ y ∷ z ∷ t ∷ bytes) rest w m all short e h = absurd (omega arith)

-- An item that the encoders' asserts admit, with an ID of its own and bytes in its buffer.
pub record IsPlain (bits : ℕ) (it : Item) : Type 0 where
  pub own_id : 4 < it.id
  pub id_fits : it.id < 2 ^ (63 - bits)
  pub value_fits : it.is_inline ≡ true → it.immediate < 2 ^ bits
  pub bytes : All (λ b. b < 256) it.buffer

module _ (bits : ℕ) (flavour : IsFlavour bits) where
  pub immediate-regular :
      (id value : ℕ)
      → Fits bits id value
      → 4 < id
      → is_regular bits (encode_immediate bits id value) ≡ true
  immediate-regular id value f own =
      let (flag, same, _) = decode-encode_immediate bits flavour id value f in
      rw (flag, same) (ground arith)

  pub address-regular :
      (id value : ℕ) → Fits bits id value → is_regular bits (encode_address bits id value) ≡ true
  address-regular id value f =
      let (flag, same, _) = decode-encode_address bits flavour id value f in rw flag refl

  pub stored-IsRegular :
      (w : ℕ) → w < 2 ^ 64 → is_regular bits w ≡ true → IsRegular bits (store_be w)
  stored-IsRegular w h regular = record {
    size = refl;
    regular = λ rest. ap (is_regular bits) (load_be-store_be w rest h) ∙ regular;
  }

  small-length : (n : ℕ) → n ≤ bits / 8 → n ≤ 7
  small-length n h = omega (arith, flavour.below, flavour.whole)

  -- The zero immediate is a multiple of the space for `n` bytes.
  zero_immediate :
      (id n : ℕ)
      → Fits bits id 0
      → n ≤ bits / 8
      → encode_immediate bits id 0 ≡ (2 ^ (63 - bits) + id) * 2 ^ (bits - 8 * n) * 2 ^ (8 * n)
  zero_immediate id n f h =
      let split : bits ≡ bits - 8 * n + 8 * n = omega (arith, flavour.whole) in
      let k = 2 ^ (63 - bits) + id in
      let power : 2 ^ bits ≡ 2 ^ (bits - 8 * n) * 2 ^ (8 * n) =
        ap (λ t. 2 ^ t) split ∙ pow-add (bits - 8 * n) (8 * n) in
      omega (arith, encode_immediate_sum bits flavour id 0 f, ap (λ t. k * t) power)

  pow_small : (n : ℕ) → n ≤ bits / 8 → 2 ^ (8 * n) ≤ 2 ^ bits
  pow_small n h = pow-le-pow_right {n = 2} (omega arith) {i = 8 * n} {j = bits} (omega arith)

  buffer-IsRegular :
      (it : Item)
      → IsPlain bits it
      → length it.buffer ≤ bits / 8
      → IsRegular bits
          (take (8 - length it.buffer) (store_be (encode_immediate bits it.id 0)) ++ it.buffer)
  buffer-IsRegular it plain small =
      let n = length it.buffer in
      let short = small-length n small in
      let w = encode_immediate bits it.id 0 in
      let none_yet : Fits bits it.id 0 = record {
        id_fits = plain.id_fits;
        value_fits = two_pow_pos bits;
      } in
      record {
        size =
            length-append (take (8 - n) (store_be w)) it.buffer
            ∙ ap (λ m. m + n) (length-take (8 - n) (store_be w))
            ∙ omega arith;
        regular = λ rest.
            let (v, read, low) =
              low_bytes it.buffer rest w ((2 ^ (63 - bits) + it.id) * 2 ^ (bits - 8 * n))
                plain.bytes short (zero_immediate it.id n none_yet small)
                (encode_immediate-lt bits flavour it.id 0 none_yet) in
            let room = pow_small n small in
            let f : Fits bits it.id v = record {
              id_fits = plain.id_fits;
              value_fits = omega arith;
            } in
            let same : w + v ≡ encode_immediate bits it.id v = omega (
              arith,
              encode_immediate_sum bits flavour it.id 0 none_yet,
              encode_immediate_sum bits flavour it.id v f,
            ) in
            ap (λ t. is_regular bits (load_be t))
              (append_assoc (take (8 - n) (store_be w)) it.buffer rest)
            ∙ ap (is_regular bits) (read ∙ same)
            ∙ immediate-regular it.id v f plain.own_id;
      }

  immediate-IsRegular :
      (id value : ℕ)
      → Fits bits id value
      → 4 < id
      → IsRegular bits (store_be (encode_immediate bits id value))
  immediate-IsRegular id value f own =
      stored-IsRegular (encode_immediate bits id value)
        (encode_immediate-lt bits flavour id value f) (immediate-regular id value f own)

  address-IsRegular :
      (id value : ℕ) → Fits bits id value → IsRegular bits (store_be (encode_address bits id value))
  address-IsRegular id value f =
      let less = encode_address-lt bits flavour id value f in
      stored-IsRegular (encode_address bits id value) (omega arith) (address-regular id value f)

  -- Each item pointer that is written, with an address that fits.
  pub pointer_bytes-IsRegular :
      (it : Item) (next_address : ℕ)
      → IsPlain bits it
      → next_address < 2 ^ bits
      → IsRegular bits (pointer_bytes bits (some it) next_address).0
  unfolding pointer_bytes
  pointer_bytes-IsRegular it next_address plain fits = elim (Bool-cases it.is_inline) [
    | inl stored ↦ rw stored (
        immediate-IsRegular it.id it.immediate
          (record { id_fits = plain.id_fits; value_fits = plain.value_fits stored }) plain.own_id)
    | inr referenced ↦ elim (Bool-cases (it.allow_immediate && leb (length it.buffer) (bits / 8))) [
      | inl small ↦
          let short : length it.buffer ≤ bits / 8 = ground arith in
          rw (referenced, small) (buffer-IsRegular it plain short)
      | inr big ↦
          rw (referenced, big)
            (address-IsRegular it.id next_address
              (record { id_fits = plain.id_fits; value_fits = fits }))
    ]
  ]

  pub null-IsRegular :
      (next_address : ℕ)
      → next_address < 2 ^ bits
      → IsRegular bits (pointer_bytes bits none next_address).0
  unfolding pointer_bytes
  null-IsRegular next_address fits =
      address-IsRegular 0 next_address
        (record { id_fits = two_pow_pos (63 - bits); value_fits = fits })
