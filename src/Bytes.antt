-- ===== src/Bytes.antt =====
-- Big-endian words in byte strings: load_be and htobe of include/spead2/common_endian.h. A byte
-- pointer is the list of the bytes from it on.
use spead.Prelude.{ℕ, zero, suc, ◌+◌, ◌*◌, ◌/◌, ◌%◌, ◌^◌, ◌<◌, ◌≡◌, List, [], ◌∷◌, ◌++◌, arith}

-- `n` bytes from the pointer, most significant first. The length checks of the callers keep reads
-- inside the data; past its end the model reads nothing.
unfoldable pub load_bytes : ℕ → ℕ → List ℕ → ℕ
load_bytes zero acc bytes = acc
load_bytes (suc n) acc [] = acc
load_bytes (suc n) acc (b ∷ bytes) = load_bytes n (acc * 256 + b) bytes

-- load_be<std::uint64_t>
unfoldable pub load_be : List ℕ → ℕ
unfolding load_bytes
load_be bytes = load_bytes 8 0 bytes

-- The bytes in memory of htobe<std::uint64_t>(w).
abbrev pub store_be : ℕ → List ℕ
store_be w =
    (w / 2 ^ 56 % 256)
    ∷ (w / 2 ^ 48 % 256)
    ∷ (w / 2 ^ 40 % 256)
    ∷ (w / 2 ^ 32 % 256)
    ∷ (w / 2 ^ 24 % 256)
    ∷ (w / 2 ^ 16 % 256)
    ∷ (w / 2 ^ 8 % 256)
    ∷ (w % 256)
    ∷ []

pub load_be-store_be : (w : ℕ) (rest : List ℕ) → w < 2 ^ 64 → load_be (store_be w ++ rest) ≡ w
unfolding load_be
load_be-store_be w rest h = omega arith
