-- ===== src/Common/RawPacket/Checksum.antt =====
-- The checksum of an IPv4 header: ipv4_packet::update_checksum of src/common_raw_packet.cpp.
use spead.Prelude.{
  ℕ, zero, suc, ◌+◌, ◌-◌, ◌*◌, ◌/◌, ◌%◌, ◌^◌, ◌≤◌, ◌<◌, ◌≡◌, refl, ap, sym, ◌∙◌, ◌≢◌, ◌⊎◌, take,
  take_all, inl, inr, List, [], ◌∷◌, ltb, length, set, bit_and, arith, Bool-cases, length-set,
}
use spead.Bytes.{load_bytes}
use spead.Common.RawPacket.Words.{byte_at}
use spead.Common.RawPacket.{
  get_byte, get_be, set_be, header_length, sum_words, add_carries, update_checksum,
}

-- A word of the header with another value: the sum changes by the difference.
sum_words-set_be :
    (k n v : ℕ) (bytes : List ℕ)
    → k < n
    → 2 * k + 1 < length bytes
    → v < 2 ^ 16
    → sum_words n (set_be bytes (2 * k) v) + get_be bytes (2 * k) ≡ sum_words n bytes + v
unfolding sum_words set_be get_be load_bytes
sum_words-set_be k n v [] less room small = absurd (omega arith)
sum_words-set_be k n v (a ∷ []) less room small = absurd (omega arith)
sum_words-set_be k zero v (a ∷ b ∷ bytes) less room small = absurd (omega arith)
sum_words-set_be zero (suc n) v (a ∷ b ∷ bytes) less room small = omega arith
sum_words-set_be (suc k) (suc n) v (a ∷ b ∷ bytes) less room small =
    let further : 2 * suc k ≡ suc (suc (2 * k)) = omega arith in
    let rest = sum_words-set_be k n v bytes (omega arith) (omega arith) small in
    let second : suc (suc (2 * k)) + 1 ≡ suc (suc (2 * k + 1)) = omega arith in
    rw (further, second) (omega (arith, rest))

get_be-set_be :
    (k v : ℕ) (bytes : List ℕ)
    → 2 * k + 1 < length bytes
    → v < 2 ^ 16
    → get_be (set_be bytes (2 * k) v) (2 * k) ≡ v
unfolding set_be get_be load_bytes
get_be-set_be k v [] room small = absurd (omega arith)
get_be-set_be k v (a ∷ []) room small = absurd (omega arith)
get_be-set_be zero v (a ∷ b ∷ bytes) room small = omega arith
get_be-set_be (suc k) v (a ∷ b ∷ bytes) room small =
    let further : 2 * suc k ≡ suc (suc (2 * k)) = omega arith in
    let second : suc (suc (2 * k)) + 1 ≡ suc (suc (2 * k + 1)) = omega arith in
    rw (further, second) (get_be-set_be k v bytes (omega arith) small)

-- The sum with its carries has 16 bits, is the sum modulo 2^16 - 1, and zero only for zero.
add_carries_lem :
    (fuel sum : ℕ)
    → sum ≤ fuel
    → (add_carries fuel sum ≤ 0xffff)
      × ((q : ℕ) × (sum ≡ q * 0xffff + add_carries fuel sum))
      × (0 < sum → 0 < add_carries fuel sum)
unfolding add_carries
add_carries_lem zero sum h = (omega arith, (0, omega arith), λ p. p)
add_carries_lem (suc fuel) sum h = elim (Bool-cases (ltb 0xffff sum)) [
  | inr small ↦ rw small (ground arith, (0, omega arith), λ p. p)
  | inl large ↦
      let above : 0xffff < sum = ground arith in
      let (low, (q, e), positive) =
        add_carries_lem fuel (sum % 2 ^ 16 + sum / 2 ^ 16) (omega arith) in
      rw large (low, (q + sum / 2 ^ 16, omega (arith, e)), λ p. positive (omega arith))
]

first_byte : (bytes : List ℕ) (v : ℕ) → get_byte (set_be bytes 10 v) 0 ≡ get_byte bytes 0
unfolding get_byte set_be load_bytes
first_byte [] v = refl
first_byte (a ∷ bytes) v = refl

header_length-set_be :
    (bytes : List ℕ) (v : ℕ) → header_length (set_be bytes 10 v) ≡ header_length bytes
unfolding header_length
header_length-set_be bytes v = ap (λ b. 4 * bit_and b 0xf) (first_byte bytes v)

set_be-length : (bytes : List ℕ) (v : ℕ) → length (set_be bytes 10 v) ≡ length bytes
unfolding set_be
set_be-length bytes v =
    length-set (set bytes 10 (v / 2 ^ 8 % 2 ^ 8)) 11 (v % 2 ^ 8)
    ∙ length-set bytes 10 (v / 2 ^ 8 % 2 ^ 8)

header_length-even : (bytes : List ℕ) → 2 * (header_length bytes / 2) ≡ header_length bytes
unfolding header_length
header_length-even bytes = omega arith

byte_at-set : (i k v : ℕ) (bytes : List ℕ) → i ≢ k → byte_at i (set bytes k v) ≡ byte_at i bytes
byte_at-set i k v [] differ = refl
byte_at-set zero zero v (b ∷ bytes) differ = absurd (differ refl)
byte_at-set (suc i) zero v (b ∷ bytes) differ = refl
byte_at-set zero (suc k) v (b ∷ bytes) differ = refl
byte_at-set (suc i) (suc k) v (b ∷ bytes) differ = byte_at-set i k v bytes (λ e. differ (ap suc e))

byte_at-set_be :
    (i v : ℕ) (bytes : List ℕ) → i < 10 ⊎ 12 ≤ i → byte_at i (set_be bytes 10 v) ≡ byte_at i bytes
unfolding set_be
byte_at-set_be i v bytes other =
    byte_at-set i 11 (v % 2 ^ 8) (set bytes 10 (v / 2 ^ 8 % 2 ^ 8)) (λ e. ground (arith, other))
    ∙ byte_at-set i 10 (v / 2 ^ 8 % 2 ^ 8) bytes (λ e. ground (arith, other))

-- The sum of big-endian words, a last single byte taken as it is.
abbrev pub word_sum : List ℕ → ℕ
word_sum [] = 0
word_sum (a ∷ []) = a
word_sum (a ∷ b ∷ bytes) = a * 256 + b + word_sum bytes

sum_words-none : (n : ℕ) → sum_words n [] ≡ 0
unfolding sum_words get_be load_bytes
sum_words-none zero = refl
sum_words-none (suc n) = omega (arith, sum_words-none n)

sum_words-word_sum : (n : ℕ) (bytes : List ℕ) → sum_words n bytes ≡ word_sum (take (2 * n) bytes)
unfolding sum_words get_be load_bytes
sum_words-word_sum zero bytes = refl
sum_words-word_sum (suc n) [] =
    sum_words-none (suc n) ∙ sym (ap word_sum (take_all (2 * suc n) [] (omega arith)))
sum_words-word_sum (suc n) (a ∷ []) =
    let further : 2 * suc n ≡ suc (suc (2 * n)) = omega arith in
    let nothing = ap word_sum (take_all (2 * n) [] (omega arith)) in
    rw further (omega (arith, sum_words-none n, nothing))
sum_words-word_sum (suc n) (a ∷ b ∷ bytes) =
    let further : 2 * suc n ≡ suc (suc (2 * n)) = omega arith in
    rw further (omega (arith, sum_words-word_sum n bytes))

-- The words of a header of `n` bytes sum to zero in ones' complement arithmetic of 16 bits, and are
-- not all zero: RFC 1071's test of a receiver.
abbrev pub IsAccepted : ℕ → List ℕ → Type 0
IsAccepted n bytes = (q : ℕ) × (word_sum (take n bytes) ≡ (q + 1) * 0xffff)

-- For a header of at least 12 bytes in a packet of at least 12 bytes, update_checksum keeps the
-- length of the header and of the packet, and changes no byte but the two of the checksum; and then
-- the words of the header, the checksum included, sum to a positive multiple of 2^16 - 1, so that a
-- receiver accepts it.
pub update_checksum_lem :
    (bytes : List ℕ)
    → 12 ≤ header_length bytes
    → 12 ≤ length bytes
    → (header_length (update_checksum bytes) ≡ header_length bytes)
      × (length (update_checksum bytes) ≡ length bytes)
      × ((i : ℕ) → i < 10 ⊎ 12 ≤ i → byte_at i (update_checksum bytes) ≡ byte_at i bytes)
      × IsAccepted (header_length bytes) (update_checksum bytes)
unfolding update_checksum
update_checksum_lem bytes long room =
    let cleared = set_be bytes 10 0 in
    let n = header_length bytes / 2 in
    let s = sum_words n cleared in
    let (low, (q, e), positive) = add_carries_lem s s (omega arith) in
    let c = 0xffff - add_carries s s in
    let cleared_length = set_be-length bytes 0 in
    let zero_there = get_be-set_be 5 0 bytes (omega arith) (omega arith) in
    let changed = sum_words-set_be 5 n c cleared (omega arith) (omega arith) (omega arith) in
    let header = header_length-set_be cleared c ∙ header_length-set_be bytes 0 in
    let s' = sum_words n (set_be cleared 10 c) in
    let sum : s' ≡ s + c = omega arith in
    let same_sum = sum_words-word_sum n (set_be cleared 10 c) in
    let even : 2 * n ≡ header_length bytes = header_length-even bytes in
    (
      header,
      set_be-length cleared c ∙ cleared_length,
      λ i other. byte_at-set_be i c cleared other ∙ byte_at-set_be i 0 bytes other,
      (
        q,
        ap (λ m. word_sum (take m (set_be cleared 10 c))) (sym even)
            ∙ sym same_sum
            ∙ sum
            ∙ omega (arith, e, low),
      ),
    )
