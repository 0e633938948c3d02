-- ===== src/Recv/Packet/Items.antt =====
-- The loop of decode_packet over the four special items and over regular ones, and what follows it.
use native.Mathlib.Nat.{pow-le-pow_right}
use spead.Prelude.{
  ℕ, ◌+◌, ◌-◌, ◌*◌, ◌%◌, ◌^◌, ◌≤◌, ◌<◌, ◌≡◌, refl, sym, ap, ◌∙◌, Bool, true, false, ◌&&◌, ◌||◌, not,
  List, [], ◌∷◌, ◌++◌, some, All, length, drop, min, ltb, leb, arith, length-append, drop-append,
  drop_all, drop-drop, append_assoc,
}
use spead.Bytes.{load_be}
use spead.Pointer.{
  pointer_decoder, get_id, is_immediate, encode_immediate, IsFlavour, Fits, item_pointer_size,
}
use spead.Pointer.RoundTrip.{decode-encode_immediate}
use spead.Recv.Packet.{Specials, pointer_at, note_immediate, scan_item, scan, finish_with}

-- An item pointer that is not one of the four of every packet.
abbrev pub is_regular : ℕ → ℕ → Bool
is_regular bits pointer =
    not (is_immediate pointer)
    || not (
        leb 1 (get_id (pointer_decoder bits) pointer)
        && leb (get_id (pointer_decoder bits) pointer) 4)

-- Eight bytes of memory that are such an item pointer.
pub record IsRegular (bits : ℕ) (bytes : List ℕ) : Type 0 where
  pub size : length bytes ≡ 8
  pub regular : (rest : List ℕ) → is_regular bits (load_be (bytes ++ rest)) ≡ true

abbrev pub join : List (List ℕ) → List ℕ
join [] = []
join (b ∷ bs) = b ++ join bs

module _ (bits : ℕ) (flavour : IsFlavour bits) where
  scan_item-regular :
      (i pointer : ℕ) (s : Specials)
      → is_regular bits pointer ≡ true
      → scan_item (pointer_decoder bits) i pointer s
        ≡ record s { first_regular = min s.first_regular i }
  unfolding scan_item note_immediate
  scan_item-regular i pointer s h = ground arith

  -- Eight bytes further on.
  next_pointer :
      (p rest bytes : List ℕ) (i : ℕ)
      → length p ≡ 8
      → drop (8 + i * 8) bytes ≡ p ++ rest
      → drop (8 + (i + 1) * 8) bytes ≡ rest
  next_pointer p rest bytes i size here =
      let further : 8 + (i + 1) * 8 ≡ 8 + i * 8 + 8 = omega arith in
      let no_more : 8 - length p ≡ 0 = omega arith in
      let whole : length p ≤ 8 = omega arith in
      rw further (
        sym (drop-drop 8 (8 + i * 8) bytes)
        ∙ ap (drop 8) here
        ∙ drop-append 8 p rest
        ∙ rw (no_more, drop_all 8 p whole) refl)

  scan-regular :
      (pointers : List (List ℕ)) (payload bytes : List ℕ) (i : ℕ) (s : Specials)
      → All (IsRegular bits) pointers
      → drop (8 + i * 8) bytes ≡ join pointers ++ payload
      → s.first_regular ≤ i
      → scan (pointer_decoder bits) bytes i (length pointers) s ≡ s
  unfolding scan
  scan-regular [] payload bytes i s all here first = refl
  scan-regular (p ∷ pointers) payload bytes i s all here first =
      let rest = join pointers ++ payload in
      let here' : drop (8 + i * 8) bytes ≡ p ++ rest =
        here ∙ append_assoc p (join pointers) payload in
      let regular : is_regular bits (pointer_at bytes i) ≡ true =
        ap (λ t. is_regular bits (load_be t)) here' ∙ all.0.regular rest in
      let same : min s.first_regular i ≡ s.first_regular = omega arith in
      let item : scan_item (pointer_decoder bits) i (pointer_at bytes i) s ≡ s =
        scan_item-regular i (pointer_at bytes i) s regular
        ∙ ap (λ f. record s { first_regular = f }) same in
      ap (scan (pointer_decoder bits) bytes (i + 1) (length pointers)) item
      ∙ scan-regular pointers payload bytes (i + 1) s all.1
          (next_pointer p rest bytes i all.0.size here') (omega arith)

  pub scan_item-special :
      (i id value : ℕ) (s : Specials)
      → Fits bits id value
      → 1 ≤ id
      → id ≤ 4
      → scan_item (pointer_decoder bits) i (encode_immediate bits id value) s
        ≡ (note_immediate id value s).1
  unfolding scan_item note_immediate
  scan_item-special i id value s f low high =
      let (flag, same_id, same_value) = decode-encode_immediate bits flavour id value f in
      rw (flag, same_id, same_value) (ground arith)

  -- The item pointers from the fifth on, whether there are any or not.
  pub scan-rest :
      (pointers : List (List ℕ)) (payload bytes : List ℕ) (s : Specials)
      → All (IsRegular bits) pointers
      → drop (8 + 4 * 8) bytes ≡ join pointers ++ payload
      → s.first_regular ≡ length pointers + 4
      → scan (pointer_decoder bits) bytes 4 (length pointers) s ≡ record s { first_regular = 4 }
  unfolding scan
  scan-rest [] payload bytes s all here first = ap (λ f. record s { first_regular = f }) first
  scan-rest (p ∷ pointers) payload bytes s all here first =
      let rest = join pointers ++ payload in
      let here' : drop (8 + 4 * 8) bytes ≡ p ++ rest =
        here ∙ append_assoc p (join pointers) payload in
      let regular : is_regular bits (pointer_at bytes 4) ≡ true =
        ap (λ t. is_regular bits (load_be t)) here' ∙ all.0.regular rest in
      let four : min s.first_regular 4 ≡ 4 = omega arith in
      let item : scan_item (pointer_decoder bits) 4 (pointer_at bytes 4) s
          ≡ record s { first_regular = 4 } =
        scan_item-regular 4 (pointer_at bytes 4) s regular
        ∙ ap (λ f. record s { first_regular = f }) four in
      ap (scan (pointer_decoder bits) bytes 5 (length pointers)) item
      ∙ scan-regular pointers payload bytes 5 (record s { first_regular = 4 }) all.1
          (next_pointer p rest bytes 4 all.0.size here') (omega arith)

pub join-length :
    (bits : ℕ) (pointers : List (List ℕ))
    → All (IsRegular bits) pointers
    → length (join pointers) ≡ length pointers * 8
join-length bits [] all = refl
join-length bits (p ∷ pointers) all =
    length-append p (join pointers) ∙ omega (arith, all.0.size, join-length bits pointers all.1)

-- An address of a flavour has at most seven bytes, and so the IDs of the special items fit.
pub two_pow_bits : (bits : ℕ) → IsFlavour bits → (2 ^ bits ≤ 2 ^ 56) × (2 ^ 7 ≤ 2 ^ (63 - bits))
two_pow_bits bits flavour =
    let most : bits ≤ 56 = omega (arith, flavour.below, flavour.whole) in
    (
      pow-le-pow_right {n = 2} (omega arith) {i = bits} {j = 56} most,
      pow-le-pow_right {n = 2} (omega arith) {i = 7} {j = 63 - bits} (omega arith),
    )

pub special-Fits :
    (bits id value : ℕ) → IsFlavour bits → id ≤ 4 → value < 2 ^ bits → Fits bits id value
special-Fits bits id value flavour low fits =
    let room = (two_pow_bits bits flavour).1 in record { id_fits = omega arith; value_fits = fits }

-- The checks after the loop, for a packet of `size` bytes and a payload within the heap.
pub finish_with-passes :
    (bytes : List ℕ) (size bits n first cnt heap_length offset len : ℕ)
    → (len + n * item_pointer_size + 8) % 2 ^ 64 ≡ size
    → offset + len ≤ heap_length
    → finish_with bytes size bits n first cnt (some heap_length) offset len
      ≡ some (
        size,
        record {
          heap_address_bits = bits;
          n_items = n - first;
          heap_cnt = cnt;
          heap_length = some heap_length;
          payload_offset = offset;
          payload_length = len;
          pointers = drop (8 + first * item_pointer_size) bytes;
          payload = drop (8 + first * item_pointer_size + (n - first) * item_pointer_size) bytes;
        },
      )
unfolding finish_with
finish_with-passes bytes size bits n first cnt heap_length offset len whole inside =
    let long : ltb size size ≡ false = ground arith in
    let within : ltb heap_length (offset + len) ≡ false = ground arith in
    rw (whole, long, within) refl
