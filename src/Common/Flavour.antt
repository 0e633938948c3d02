-- ===== src/Common/Flavour.antt =====
-- The variants of the protocol: src/common_flavour.cpp and include/spead2/common_flavour.h.
use spead.Prelude.{
  ℕ, ◌<◌, ◌%◌, ◌≡◌, refl, ap, Bool, true, false, ◌&&◌, ◌||◌, not, List, [], ◌∷◌, some, leb, ltb,
  ◌==◌, if◌then◌else◌, arith, ℤ, pos, negsuc,
}
use spead.Pointer.{IsFlavour}
use spead.Recv.Packet.{decode_header}
use spead.Recv.Packet.Header.{decode_header-IsFlavour}
mod Runs

pub record Flavour : Type 0 where
  pub heap_address_bits : ℕ
  pub bug_compat : ℕ

-- The default constructor.
abbrev pub default_flavour : Flavour
default_flavour = record { heap_address_bits = 40; bug_compat = 0 }

-- The four std::invalid_argument.
pub data Refusal : Type 0 where
  bad_version bad_item_pointer_bits bits_out_of_range bits_not_bytes : Refusal

pub data Made : Type 0 where
  made : Flavour → Made
  refused : Refusal → Made

-- The checks of a heap_address_bits that is not negative.
unfoldable pub check_bits : ℕ → ℕ → Made
check_bits heap_address_bits bug_compat =
    if heap_address_bits == 0 || leb 64 heap_address_bits
    then refused bits_out_of_range
    else if not (heap_address_bits % 8 == 0)
    then refused bits_not_bytes
    else made (record { heap_address_bits = heap_address_bits; bug_compat = bug_compat })

-- flavour::flavour, whose arguments are signed.
unfoldable pub flavour : ℤ → ℤ → ℤ → ℕ → Made
unfolding check_bits
flavour (negsuc v) item_pointer_bits heap_address_bits bug_compat = refused bad_version
flavour (pos v) (negsuc b) heap_address_bits bug_compat =
    if v == 4 then refused bad_item_pointer_bits else refused bad_version
flavour (pos v) (pos b) (negsuc h) bug_compat =
    if v == 4
    then (if b == 64 then refused bits_out_of_range else refused bad_item_pointer_bits)
    else refused bad_version
flavour (pos v) (pos b) (pos h) bug_compat =
    if v == 4
    then (if b == 64 then check_bits h bug_compat else refused bad_item_pointer_bits)
    else refused bad_version

-- operator== and operator!=
pub same_flavour : Flavour → Flavour → Bool
same_flavour f g = f.heap_address_bits == g.heap_address_bits && f.bug_compat == g.bug_compat

pub other_flavour : Flavour → Flavour → Bool
unfolding same_flavour
other_flavour f g = not (same_flavour f g)

-- The constructor makes a flavour only of version 4 with item pointers of 64 bits and with addresses
-- of whole bytes, of which the item pointer has at least one besides and one at most seven.
pub flavour-IsFlavour :
    (v b h : ℤ) (bug_compat : ℕ) (f : Flavour)
    → flavour v b h bug_compat ≡ made f
    → (v ≡ pos 4) × (b ≡ pos 64) × (h ≡ pos f.heap_address_bits) × IsFlavour f.heap_address_bits
unfolding flavour check_bits
flavour-IsFlavour (negsuc v) b h bug_compat f e = absurd (ground arith)
flavour-IsFlavour (pos v) (negsuc b) h bug_compat f e = absurd (ground arith)
flavour-IsFlavour (pos v) (pos b) (negsuc h) bug_compat f e = absurd (ground arith)
flavour-IsFlavour (pos v) (pos b) (pos h) bug_compat f e =
    let version : v ≡ 4 = ground arith in
    let width : b ≡ 64 = ground arith in
    let bits : h ≡ f.heap_address_bits = ground arith in
    (
      ap pos version,
      ap pos width,
      ap pos bits,
      record { positive = ground arith; below = ground arith; whole = ground arith },
    )

pub IsFlavour-made :
    (bits bug_compat : ℕ)
    → IsFlavour bits
    → flavour (pos 4) (pos 64) (pos bits) bug_compat
      ≡ made (record { heap_address_bits = bits; bug_compat = bug_compat })
unfolding flavour check_bits
IsFlavour-made bits bug_compat fl = ground (arith, fl.positive, fl.below, fl.whole)

-- The flavour of a header that decode_header accepts is one that the constructor makes, so that
-- freezing a received heap, which makes it, throws nothing.
pub flavour-decode_header :
    (bytes : List ℕ) (bits n bug_compat : ℕ)
    → decode_header bytes ≡ some (bits, n)
    → flavour (pos 4) (pos 64) (pos bits) bug_compat
      ≡ made (record { heap_address_bits = bits; bug_compat = bug_compat })
flavour-decode_header bytes bits n bug_compat e =
    IsFlavour-made bits bug_compat (decode_header-IsFlavour bytes bits n e).0
