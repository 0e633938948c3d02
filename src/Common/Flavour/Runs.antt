-- ===== src/Common/Flavour/Runs.antt =====
-- Concrete flavours.
use spead.Prelude.{ℕ, ◌≡◌, refl, List, [], ◌∷◌, some, pos}
use spead.Bytes.{load_bytes, load_be}
use spead.Pointer.{IsFlavour}
use spead.Recv.Packet.{extract_bits, decode_header}
use spead.Common.Flavour.{
  Flavour, made, check_bits, flavour, flavour-IsFlavour, flavour-decode_header,
}

abbrev flavour_48 : Flavour
flavour_48 = record { heap_address_bits = 48; bug_compat = 1 }

flavour_48_lem : flavour (pos 4) (pos 64) (pos 48) 1 ≡ made flavour_48
unfolding flavour check_bits
flavour_48_lem = refl

flavour-IsFlavour_example : (pos 4 ≡ pos 4) × (pos 64 ≡ pos 64) × (pos 48 ≡ pos 48) × IsFlavour 48
flavour-IsFlavour_example = flavour-IsFlavour (pos 4) (pos 64) (pos 48) 1 flavour_48 flavour_48_lem

abbrev header_bytes : List ℕ
header_bytes = 0x53 ∷ 4 ∷ 2 ∷ 6 ∷ 0 ∷ 0 ∷ 0 ∷ 5 ∷ []

decoded : decode_header header_bytes ≡ some (48, 5)
unfolding load_bytes load_be extract_bits decode_header
decoded = refl

flavour-decode_header_example :
    flavour (pos 4) (pos 64) (pos 48) 0 ≡ made (record { heap_address_bits = 48; bug_compat = 0 })
flavour-decode_header_example = flavour-decode_header header_bytes 48 5 0 decoded
