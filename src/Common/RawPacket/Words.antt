-- ===== src/Common/RawPacket/Words.antt =====
-- The bytes and words of a frame by position, against get_byte and get_be of
-- src/common_raw_packet.cpp, and the fields of an IPv4 header in arithmetic.
use spead.Prelude.{
  ℕ, zero, suc, ◌+◌, ◌*◌, ◌%◌, ◌^◌, ◌<◌, ◌≡◌, refl, ap, ◌∙◌, false, List, [], ◌∷◌, length, drop,
  not, ◌==◌, arith, drop-drop, bit_and_mask,
}
use spead.Bytes.{load_bytes}
use spead.Common.RawPacket.{get_byte, get_be, header_length, is_fragment}

abbrev pub byte_at : ℕ → List ℕ → ℕ
byte_at n [] = 0
byte_at zero (b ∷ bytes) = b
byte_at (suc n) (b ∷ bytes) = byte_at n bytes

-- Two bytes, the high one first.
abbrev pub word_at : ℕ → List ℕ → ℕ
word_at n bytes = byte_at n bytes * 256 + byte_at (suc n) bytes

pub get_byte-byte_at : (n : ℕ) (bytes : List ℕ) → get_byte bytes n ≡ byte_at n bytes
unfolding get_byte load_bytes
get_byte-byte_at zero [] = refl
get_byte-byte_at (suc n) [] = refl
get_byte-byte_at zero (b ∷ bytes) = omega arith
get_byte-byte_at (suc n) (b ∷ bytes) = get_byte-byte_at n bytes

pub get_be-word_at :
    (n : ℕ) (bytes : List ℕ) → suc n < length bytes → get_be bytes n ≡ word_at n bytes
unfolding get_be load_bytes
get_be-word_at n [] h = absurd (omega arith)
get_be-word_at n (a ∷ []) h = absurd (omega arith)
get_be-word_at zero (a ∷ b ∷ bytes) h = omega arith
get_be-word_at (suc n) (a ∷ b ∷ bytes) h = get_be-word_at n (b ∷ bytes) (omega arith)

-- A field of what follows the first `m` bytes.
pub get_byte-drop : (m n : ℕ) (bytes : List ℕ) → get_byte (drop m bytes) n ≡ byte_at (m + n) bytes
unfolding get_byte
get_byte-drop m n bytes = ap (load_bytes 1 0) (drop-drop n m bytes) ∙ get_byte-byte_at (m + n) bytes

pub get_be-drop :
    (m n : ℕ) (bytes : List ℕ)
    → suc (m + n) < length bytes
    → get_be (drop m bytes) n ≡ word_at (m + n) bytes
unfolding get_be
get_be-drop m n bytes h = ap (load_bytes 2 0) (drop-drop n m bytes) ∙ get_be-word_at (m + n) bytes h

-- The length that the low half of the first byte of an IPv4 header says.
abbrev pub header_size : ℕ → ℕ
header_size first_byte = 4 * (first_byte % 16)

pub header_length-header_size :
    (bytes : List ℕ) → header_length bytes ≡ header_size (get_byte bytes 0)
unfolding header_length
header_length-header_size bytes = ap (λ n. 4 * n) (bit_and_mask 4 (get_byte bytes 0))

-- The word of the flags and of the offset, without its two high bits.
is_fragment-masked : (bytes : List ℕ) → is_fragment bytes ≡ not (get_be bytes 6 % 2 ^ 14 == 0)
unfolding is_fragment
is_fragment-masked bytes = ap (λ n. not (n == 0)) (bit_and_mask 14 (get_be bytes 6))

pub is_fragment-low : (bytes : List ℕ) → is_fragment bytes ≡ false → get_be bytes 6 % 2 ^ 14 ≡ 0
is_fragment-low bytes h = ground (arith, is_fragment-masked bytes)

pub low-is_fragment : (bytes : List ℕ) → get_be bytes 6 % 2 ^ 14 ≡ 0 → is_fragment bytes ≡ false
low-is_fragment bytes h = ground (arith, is_fragment-masked bytes)
