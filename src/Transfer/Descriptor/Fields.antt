-- ===== src/Transfer/Descriptor/Fields.antt =====
-- The format and the shape of a descriptor: what encode_descriptor of src/send_heap.cpp writes,
-- heap::to_descriptor of src/recv_heap.cpp reads.
use spead.Prelude.{
  ℕ, zero, suc, ◌-◌, ◌*◌, ◌%◌, ◌^◌, ◌≤◌, ◌<◌, ◌≡◌, refl, ◌∙◌, true, false, List, [], ◌∷◌, ◌++◌,
  Option, none, some, All, length, drop, arith, append_assoc, length-append, length-drop,
  drop-append, drop_all, two_pow_pos, mod_unique,
}
use spead.Bytes.{load_bytes, store_be}
use spead.Pointer.{item_pointer_size}
use spead.Descriptor.{Field, has_bits}
use spead.Send.Descriptor.{store_bytes_be, store_entry, store_format, store_shape}
use spead.Recv.Descriptor.{parse_format, parse_shape}

-- The last bytes of a word.
abbrev pub low_bytes : ℕ → ℕ → List ℕ
low_bytes len value = drop (item_pointer_size - len) (store_be value)

-- They are the number up to the bits that do not fit.
pub load_bytes-low_bytes_mod :
    (len value : ℕ) (rest : List ℕ)
    → len ≤ 8
    → load_bytes len 0 (low_bytes len value ++ rest) ≡ value % 2 ^ (8 * len)
unfolding load_bytes
load_bytes-low_bytes_mod zero v rest le = omega arith
load_bytes-low_bytes_mod (suc zero) v rest le = omega arith
load_bytes-low_bytes_mod (suc (suc zero)) v rest le = omega arith
load_bytes-low_bytes_mod (suc (suc (suc zero))) v rest le = omega arith
load_bytes-low_bytes_mod (suc (suc (suc (suc zero)))) v rest le = omega arith
load_bytes-low_bytes_mod (suc (suc (suc (suc (suc zero))))) v rest le = omega arith
load_bytes-low_bytes_mod (suc (suc (suc (suc (suc (suc zero)))))) v rest le = omega arith
load_bytes-low_bytes_mod (suc (suc (suc (suc (suc (suc (suc zero))))))) v rest le = omega arith
load_bytes-low_bytes_mod (suc (suc (suc (suc (suc (suc (suc (suc n)))))))) v rest le =
    let last : n ≡ 0 = omega arith in rw last (omega arith)

load_bytes-low_bytes :
    (len value : ℕ) (rest : List ℕ)
    → len ≤ 8
    → value < 2 ^ (8 * len)
    → load_bytes len 0 (low_bytes len value ++ rest) ≡ value
load_bytes-low_bytes len v rest le h =
    load_bytes-low_bytes_mod len v rest le ∙ mod_unique v (2 ^ (8 * len)) 0 v h (omega arith)

pub low_bytes-length : (len value : ℕ) → len ≤ 8 → length (low_bytes len value) ≡ len
low_bytes-length len value le =
    omega (arith, length-drop (item_pointer_size - len) (store_be value))

store_bytes_be-low_bytes :
    (len value : ℕ)
    → len ≤ 8
    → value < 2 ^ (8 * len)
    → store_bytes_be len value ≡ some (low_bytes len value)
unfolding store_bytes_be
store_bytes_be-low_bytes len value le h = ground arith

-- A dimension of at most `size` bytes, with the byte in front.
abbrev pub DimFits : ℕ → Option ℕ → Type 0
DimFits size none = Unit
DimFits size (some dim) = dim < 2 ^ (8 * (size - 1))

module _ (size : ℕ) (positive : 1 ≤ size) (narrow : size ≤ 9) where
  -- One entry of `size` bytes, and the bytes after it.
  drop_entry :
      (value : ℕ) (more : List ℕ) → drop (size - 1) (low_bytes (size - 1) value ++ more) ≡ more
  drop_entry value more =
      let whole = low_bytes-length (size - 1) value (omega arith) in
      let no_more : size - 1 - length (low_bytes (size - 1) value) ≡ 0 = omega arith in
      drop-append (size - 1) (low_bytes (size - 1) value) more
      ∙ rw (no_more, drop_all (size - 1) (low_bytes (size - 1) value) (omega arith)) refl

  store_entry-some :
      (tag value : ℕ) (more : List ℕ) (rest : Option (List ℕ))
      → value < 2 ^ (8 * (size - 1))
      → rest ≡ some more
      → store_entry size tag value rest ≡ some (tag ∷ (low_bytes (size - 1) value ++ more))
  unfolding store_entry
  store_entry-some tag value more rest fits e =
      let stored = store_bytes_be-low_bytes (size - 1) value (omega arith) fits in
      rw e (rw (stored, store_entry) refl)

  entry-length :
      (value : ℕ) (more : List ℕ) (n : ℕ)
      → length more ≡ n * size
      → suc (length (low_bytes (size - 1) value ++ more)) ≡ suc n * size
  entry-length value more n e =
      let whole = low_bytes-length (size - 1) value (omega arith) in
      ground (arith, length-append (low_bytes (size - 1) value) more)

  -- The number of an entry, as it is read back, and what comes after it.
  entry-back :
      (value : ℕ) (bytes rest : List ℕ)
      → value < 2 ^ (8 * (size - 1))
      → (load_bytes (size - 1) 0 ((low_bytes (size - 1) value ++ bytes) ++ rest) ≡ value)
        × (drop (size - 1) ((low_bytes (size - 1) value ++ bytes) ++ rest) ≡ bytes ++ rest)
  entry-back value bytes rest fits = rw (append_assoc (low_bytes (size - 1) value) bytes rest) (
    load_bytes-low_bytes (size - 1) value (bytes ++ rest) (omega arith) fits,
    drop_entry value (bytes ++ rest),
  )

  -- The fields fit, so that they are stored, and are read back.
  pub parse_format-store_format :
      (format : List Field)
      → All (λ f. f.bits < 2 ^ (8 * (size - 1))) format
      → (bytes : List ℕ) × (store_format size format ≡ some bytes)
        × (length bytes ≡ length format * size)
        × ((rest : List ℕ) → parse_format size (length format) (bytes ++ rest) ≡ format)
  unfolding store_format parse_format
  parse_format-store_format [] fits = ([], refl, omega arith, λ rest. refl)
  parse_format-store_format (f ∷ format) fits =
      let (bytes, e, long, back) = parse_format-store_format format fits.1 in
      (
        f.type ∷ (low_bytes (size - 1) f.bits ++ bytes),
        store_entry-some f.type f.bits bytes (store_format size format) fits.0 e,
        entry-length f.bits bytes (length format) long,
        λ rest.
            let (value, after) = entry-back f.bits bytes rest fits.0 in
            rw (value, after, back rest) refl,
      )

  -- So are the dimensions.
  module _ (tag : ℕ) (tells : (has_bits tag tag ≡ true) × (has_bits tag 0 ≡ false)) where
    pub parse_shape-store_shape :
        (shape : List (Option ℕ))
        → All (DimFits size) shape
        → (bytes : List ℕ) × (store_shape tag size shape ≡ some bytes)
          × (length bytes ≡ length shape * size)
          × ((rest : List ℕ) → parse_shape tag size (length shape) (bytes ++ rest) ≡ shape)
    unfolding store_shape parse_shape
    parse_shape-store_shape [] fits = ([], refl, omega arith, λ rest. refl)
    parse_shape-store_shape (none ∷ shape) fits =
        let (bytes, e, long, back) = parse_shape-store_shape shape fits.1 in
        let zero_fits : 0 < 2 ^ (8 * (size - 1)) = two_pow_pos (8 * (size - 1)) in
        (
          tag ∷ (low_bytes (size - 1) 0 ++ bytes),
          store_entry-some tag 0 bytes (store_shape tag size shape) zero_fits e,
          entry-length 0 bytes (length shape) long,
          λ rest.
              let (value, after) = entry-back 0 bytes rest zero_fits in
              rw (tells.0, after, back rest) refl,
        )
    parse_shape-store_shape (some dim ∷ shape) fits =
        let (bytes, e, long, back) = parse_shape-store_shape shape fits.1 in
        (
          0 ∷ (low_bytes (size - 1) dim ++ bytes),
          store_entry-some 0 dim bytes (store_shape tag size shape) fits.0 e,
          entry-length dim bytes (length shape) long,
          λ rest.
              let (value, after) = entry-back dim bytes rest fits.0 in
              rw (tells.1, value, after, back rest) refl,
        )
