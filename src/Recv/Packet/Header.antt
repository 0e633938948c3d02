-- ===== src/Recv/Packet/Header.antt =====
-- What decode_header accepts: the flavours SPEAD-64-* with at most 65535 items.
use spead.Prelude.{ℕ, ◌+◌, ◌-◌, ◌*◌, ◌/◌, ◌%◌, ◌^◌, ◌<◌, ◌≡◌, List, ◌++◌, some, arith, bit_and_mask}
use spead.Bytes.{load_be, store_be, load_be-store_be}
use spead.Pointer.{IsFlavour}
use spead.Recv.Packet.{extract_bits, decode_header}

extract_bits_mod :
    (value first cnt : ℕ) → extract_bits value first cnt ≡ value / 2 ^ first % 2 ^ cnt
unfolding extract_bits
extract_bits_mod value first cnt = bit_and_mask cnt (value / 2 ^ first)

-- An accepted header has a flavour in which both the address and the ID have whole bytes.
pub decode_header-IsFlavour :
    (bytes : List ℕ) (bits n : ℕ)
    → decode_header bytes ≡ some (bits, n)
    → IsFlavour bits × (n < 2 ^ 16)
unfolding decode_header
decode_header-IsFlavour bytes bits n h =
    let header = load_be bytes in
    (
      record {
        positive =
            ground (arith, bit_and_mask 8 (header / 2 ^ 32), bit_and_mask 8 (header / 2 ^ 40));
        below = ground (arith, bit_and_mask 8 (header / 2 ^ 32), bit_and_mask 8 (header / 2 ^ 40));
        whole = ground (arith, bit_and_mask 8 (header / 2 ^ 32), bit_and_mask 8 (header / 2 ^ 40));
      },
      ground (arith, bit_and_mask 16 (header / 2 ^ 0)),
    )

-- The header word of a flavour and a number of items.
abbrev pub header_word : ℕ → ℕ → ℕ
header_word bits n = 0x5304 * 2 ^ 48 + (8 - bits / 8) * 2 ^ 40 + bits / 8 * 2 ^ 32 + n

-- Conversely, the header word of any such flavour and of any item count in 16 bits is accepted, and
-- read back, whatever follows it.
pub decode_header_of_word :
    (bits n : ℕ) (rest : List ℕ)
    → IsFlavour bits
    → n < 2 ^ 16
    → decode_header (store_be (header_word bits n) ++ rest) ≡ some (bits, n)
unfolding decode_header
decode_header_of_word bits n rest f h =
    let w = header_word bits n in
    ground (
      arith,
      load_be-store_be w rest (omega arith),
      bit_and_mask 16 (w / 2 ^ 48),
      bit_and_mask 8 (w / 2 ^ 40),
      bit_and_mask 8 (w / 2 ^ 32),
      bit_and_mask 16 (w / 2 ^ 0),
    )
