-- ===== src/Descriptor.antt =====
-- Descriptors of items: struct descriptor of include/spead2/common_defines.h; their encoding in
-- src/send_heap.cpp is in Send.Descriptor, and their decoding in src/recv_heap.cpp in
-- Recv.Descriptor.
use spead.Prelude.{ℕ, ◌+◌, ◌-◌, ◌/◌, Bool, not, List, [], Option, ◌==◌, if◌then◌else◌, bit_and}
use spead.Common.Flavour.{Flavour}
use spead.Pointer.{item_pointer_size}

-- BUG_COMPAT_DESCRIPTOR_WIDTHS and BUG_COMPAT_SHAPE_BIT_1
abbrev pub descriptor_widths : ℕ
descriptor_widths = 1

abbrev pub shape_bit_1 : ℕ
shape_bit_1 = 2

-- enum item_id, as far as descriptors use it.
abbrev pub descriptor_id : ℕ
descriptor_id = 5

abbrev pub descriptor_name_id : ℕ
descriptor_name_id = 0x10

abbrev pub descriptor_description_id : ℕ
descriptor_description_id = 0x11

abbrev pub descriptor_shape_id : ℕ
descriptor_shape_id = 0x12

abbrev pub descriptor_format_id : ℕ
descriptor_format_id = 0x13

abbrev pub descriptor_id_id : ℕ
descriptor_id_id = 0x14

abbrev pub descriptor_dtype_id : ℕ
descriptor_dtype_id = 0x15

-- A field of the legacy format: a specifier character and a bit width.
pub record Field : Type 0 where
  pub type : ℕ
  pub bits : ℕ

-- `id` and the bit widths are 64-bit words; a dimension is `none` for -1 (any negative number).
-- Strings are their bytes.
pub record Descriptor : Type 0 where
  pub id : ℕ
  pub name : List ℕ
  pub description : List ℕ
  pub format : List Field
  pub shape : List (Option ℕ)
  pub numpy_header : List ℕ

abbrev pub empty_descriptor : Descriptor
empty_descriptor = record {
  id = 0;
  name = [];
  description = [];
  format = [];
  shape = [];
  numpy_header = [];
}

-- `bug_compat & mask`, as a truth value.
unfoldable pub has_bits : ℕ → ℕ → Bool
has_bits mask value = not (bit_and value mask == 0)

-- The sizes of a field of the format and of a dimension, which both sides compute.
unfoldable pub field_size : Flavour → ℕ
unfolding has_bits
field_size f =
    if has_bits descriptor_widths f.bug_compat
    then 4
    else 1 + (item_pointer_size - f.heap_address_bits / 8)

unfoldable pub shape_size : Flavour → ℕ
unfolding has_bits
shape_size f = if has_bits descriptor_widths f.bug_compat then 8 else 1 + f.heap_address_bits / 8

-- What marks a dimension as variable.
unfoldable pub variable_tag : Flavour → ℕ
unfolding has_bits
variable_tag f = if has_bits shape_bit_1 f.bug_compat then 2 else 1
