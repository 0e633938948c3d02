-- ===== src/Pointer.antt =====
-- Item pointers: include/spead2/common_defines.h, pointer_decoder of include/spead2/recv_utils.h
-- and pointer_encoder of include/spead2/send_utils.h. An item_pointer_t is a number below 2 ^ 64.
use spead.Prelude.{ℕ, ◌-◌, ◌*◌, ◌/◌, ◌%◌, ◌^◌, ◌<◌, ◌≡◌, ◌==◌, Bool, not, bit_and, bit_or}
pub mod RoundTrip
mod Runs

-- sizeof(item_pointer_t)
abbrev pub item_pointer_size : ℕ
item_pointer_size = 8

abbrev pub immediate_mask : ℕ
immediate_mask = 2 ^ 63

abbrev pub magic_version : ℕ
magic_version = 0x5304

-- enum item_id
abbrev pub null_id : ℕ
null_id = 0

abbrev pub heap_cnt_id : ℕ
heap_cnt_id = 1

abbrev pub heap_length_id : ℕ
heap_length_id = 2

abbrev pub payload_offset_id : ℕ
payload_offset_id = 3

abbrev pub payload_length_id : ℕ
payload_length_id = 4

abbrev pub stream_ctrl_id : ℕ
stream_ctrl_id = 6

-- CTRL_STREAM_STOP of enum ctrl_mode
abbrev pub ctrl_stream_stop : ℕ
ctrl_stream_stop = 2

-- The flavours SPEAD-64-*: whole bytes of address, and of item ID.
pub record IsFlavour (bits : ℕ) : Type 0 where
  pub positive : 0 < bits
  pub below : bits < 64
  pub whole : bits % 8 ≡ 0

pub record PointerDecoder : Type 0 where
  pub heap_address_bits : ℕ
  pub address_mask : ℕ
  pub id_mask : ℕ

abbrev pub pointer_decoder : ℕ → PointerDecoder
pointer_decoder bits = record {
  heap_address_bits = bits;
  address_mask = 2 ^ bits - 1;
  id_mask = 2 ^ (8 * item_pointer_size - 1 - bits) - 1;
}

unfoldable pub get_id : PointerDecoder → ℕ → ℕ
get_id d pointer = bit_and (pointer / 2 ^ d.heap_address_bits) d.id_mask

unfoldable pub get_address : PointerDecoder → ℕ → ℕ
get_address d pointer = bit_and pointer d.address_mask

unfoldable pub get_immediate : PointerDecoder → ℕ → ℕ
unfolding get_address
get_immediate d pointer = get_address d pointer

-- `pointer >> 63`, as a truth value.
unfoldable pub is_immediate : ℕ → Bool
is_immediate pointer = not (pointer / 2 ^ (8 * item_pointer_size - 1) == 0)

-- `immediate_mask | (id << heap_address_bits) | value` in 64 bits. The asserts on the two arguments
-- are hypotheses of the theorems.
unfoldable pub encode_immediate : ℕ → ℕ → ℕ → ℕ
encode_immediate bits id value = bit_or (bit_or immediate_mask (id * 2 ^ bits % 2 ^ 64)) value

unfoldable pub encode_address : ℕ → ℕ → ℕ → ℕ
encode_address bits id address = bit_or (id * 2 ^ bits % 2 ^ 64) address

-- What the asserts of pointer_encoder ask of an ID and of a value.
pub record Fits (bits id value : ℕ) : Type 0 where
  pub id_fits : id < 2 ^ (8 * item_pointer_size - 1 - bits)
  pub value_fits : value < 2 ^ bits
