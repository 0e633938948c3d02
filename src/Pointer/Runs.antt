-- ===== src/Pointer/Runs.antt =====
-- Item pointers of flavour SPEAD-64-40.
use spead.Prelude.{◌≡◌, refl, true, false, arith}
use spead.Pointer.{
  IsFlavour, Fits, pointer_decoder, get_id, get_address, get_immediate, is_immediate,
  encode_immediate, encode_address,
}
use spead.Pointer.RoundTrip.{decode-encode_immediate, decode-encode_address}

IsFlavour-40 : IsFlavour 40
IsFlavour-40 = record { positive = omega arith; below = omega arith; whole = refl }

fits : Fits 40 0x1234 500
fits = record { id_fits = omega arith; value_fits = omega arith }

decode-encode_immediate_example :
    (is_immediate (encode_immediate 40 0x1234 500) ≡ true)
    × (get_id (pointer_decoder 40) (encode_immediate 40 0x1234 500) ≡ 0x1234)
    × (get_immediate (pointer_decoder 40) (encode_immediate 40 0x1234 500) ≡ 500)
decode-encode_immediate_example = decode-encode_immediate 40 IsFlavour-40 0x1234 500 fits

decode-encode_address_example :
    (is_immediate (encode_address 40 0x1234 500) ≡ false)
    × (get_id (pointer_decoder 40) (encode_address 40 0x1234 500) ≡ 0x1234)
    × (get_address (pointer_decoder 40) (encode_address 40 0x1234 500) ≡ 500)
decode-encode_address_example = decode-encode_address 40 IsFlavour-40 0x1234 500 fits
