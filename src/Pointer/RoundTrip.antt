-- ===== src/Pointer/RoundTrip.antt =====
-- What pointer_encoder writes, pointer_decoder reads.
use native.Mathlib.Nat.{mod-lt}
use spead.Prelude.{
  ℕ, ◌+◌, ◌-◌, ◌*◌, ◌/◌, ◌%◌, ◌^◌, ◌<◌, ◌≡◌, ap, sym, ◌∙◌, true, false, arith, bit_or,
  bit_or-disjoint, bit_and_mask, pow-add, mod_unique, div_unique, two_pow_pos, pair-lt,
}
use spead.Pointer.{
  pointer_decoder, get_id, get_address, get_immediate, is_immediate, IsFlavour, encode_immediate,
  encode_address, immediate_mask, Fits,
}

module _ (bits : ℕ) (flavour : IsFlavour bits) where
  pow_split : 2 ^ (63 - bits) * 2 ^ bits ≡ 2 ^ 63
  pow_split =
      let whole : 63 - bits + bits ≡ 63 = omega arith in
      sym (pow-add (63 - bits) bits) ∙ ap (λ t. 2 ^ t) whole

  pub get_address_mod : (p : ℕ) → get_address (pointer_decoder bits) p ≡ p % 2 ^ bits
  unfolding get_address
  get_address_mod p = bit_and_mask bits p

  pub get_id_mod : (p : ℕ) → get_id (pointer_decoder bits) p ≡ p / 2 ^ bits % 2 ^ (63 - bits)
  unfolding get_id
  get_id_mod p = bit_and_mask (63 - bits) (p / 2 ^ bits)

  pub get_address-lt : (p : ℕ) → get_address (pointer_decoder bits) p < 2 ^ bits
  get_address-lt p = rw (get_address_mod p) (mod-lt p (two_pow_pos bits))

  pub get_immediate-lt : (p : ℕ) → get_immediate (pointer_decoder bits) p < 2 ^ bits
  unfolding get_immediate
  get_immediate-lt p = get_address-lt p

  module _ (id value : ℕ) (fits : Fits bits id value) where
    fields-lt : id * 2 ^ bits + value < 2 ^ 63
    fields-lt =
        rw (← pow_split)
          (pair-lt id value (2 ^ bits) (2 ^ (63 - bits)) fits.id_fits fits.value_fits)

    shifted : id * 2 ^ bits % 2 ^ 64 ≡ id * 2 ^ bits
    shifted = omega (arith, fields-lt)

    pub encode_address_sum : encode_address bits id value ≡ id * 2 ^ bits + value
    unfolding encode_address
    encode_address_sum = rw shifted (bit_or-disjoint bits id value fits.value_fits)

    flagged : bit_or immediate_mask (id * 2 ^ bits) ≡ (2 ^ (63 - bits) + id) * 2 ^ bits
    flagged = ground (arith, bit_or-disjoint 63 1 (id * 2 ^ bits), fields-lt, pow_split)

    pub encode_immediate_sum :
        encode_immediate bits id value ≡ (2 ^ (63 - bits) + id) * 2 ^ bits + value
    unfolding encode_immediate
    encode_immediate_sum =
        rw (shifted, flagged) (bit_or-disjoint bits (2 ^ (63 - bits) + id) value fits.value_fits)

    pub encode_immediate-lt : encode_immediate bits id value < 2 ^ 64
    encode_immediate-lt = omega (arith, encode_immediate_sum, fields-lt, pow_split)

    pub encode_address-lt : encode_address bits id value < 2 ^ 63
    encode_address-lt = omega (arith, encode_address_sum, fields-lt)

    -- An immediate pointer, decoded: the flag, the ID and the value are those that went in.
    pub decode-encode_immediate :
        (is_immediate (encode_immediate bits id value) ≡ true)
        × (get_id (pointer_decoder bits) (encode_immediate bits id value) ≡ id)
        × (get_immediate (pointer_decoder bits) (encode_immediate bits id value) ≡ value)
    unfolding is_immediate get_immediate
    decode-encode_immediate =
        let p = encode_immediate bits id value in
        let sum = encode_immediate_sum in
        let top : p / 2 ^ 63 ≡ 1 = omega (arith, sum, fields-lt, pow_split) in
        let field = div_unique p (2 ^ bits) (2 ^ (63 - bits) + id) value fits.value_fits sum in
        let id_field =
          mod_unique (2 ^ (63 - bits) + id) (2 ^ (63 - bits)) 1 id fits.id_fits (omega arith) in
        let value_field =
          mod_unique p (2 ^ bits) (2 ^ (63 - bits) + id) value fits.value_fits sum in
        (
          ground (arith, top),
          ground (arith, get_id_mod p, field, id_field),
          ground (arith, get_address_mod p, value_field),
        )

    -- An addressed pointer, decoded: no flag, the ID and the address.
    pub decode-encode_address :
        (is_immediate (encode_address bits id value) ≡ false)
        × (get_id (pointer_decoder bits) (encode_address bits id value) ≡ id)
        × (get_address (pointer_decoder bits) (encode_address bits id value) ≡ value)
    unfolding is_immediate
    decode-encode_address =
        let p = encode_address bits id value in
        let sum = encode_address_sum in
        let top : p / 2 ^ 63 ≡ 0 = omega (arith, sum, fields-lt) in
        let field = div_unique p (2 ^ bits) id value fits.value_fits sum in
        let id_field = mod_unique id (2 ^ (63 - bits)) 0 id fits.id_fits (omega arith) in
        let value_field = mod_unique p (2 ^ bits) id value fits.value_fits sum in
        (
          ground (arith, top),
          ground (arith, get_id_mod p, field, id_field),
          ground (arith, get_address_mod p, value_field),
        )
