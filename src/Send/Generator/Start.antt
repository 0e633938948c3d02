-- ===== src/Send/Generator/Start.antt =====
-- The constructor of packet_generator: what it accepts, and the generator that it makes.
use native.Mathlib.Nat.{suc-mul, div-add-mod', mod-lt}
use spead.Prelude.{
  ℕ, suc, ◌+◌, ◌-◌, ◌*◌, ◌/◌, ◌%◌, ◌≤◌, ◌<◌, ◌≡◌, refl, sym, true≢false, ◌⊎◌, ap, ◌∙◌, Bool, true,
  false, ◌&&◌, List, [], ◌∷◌, length, if◌then◌else◌, arith, inl, inr, Bool-cases, ltb,
  length-append, div_unique,
}
use spead.Pointer.{IsFlavour, item_pointer_size}
use spead.Send.Heap.{Item, Heap, heap_payload, payload_of}
use spead.Send.Generator.{
  Generator, ok, packet_generator, sum_payload, min_payload_size, max_immediate_of, one_if,
  prefix_size,
}
use spead.Send.Generator.Counts.{Counts}
use spead.Send.Generator.Payload.{remaining-start, Inside-start}
use spead.Send.Generator.Progress.{Inv, to_send, left}

pub sum_payload_lem :
    (max_imm : ℕ) (items : List Item)
    → sum_payload max_imm items ≡ length (heap_payload max_imm items)
unfolding sum_payload heap_payload payload_of
sum_payload_lem max_imm [] = refl
sum_payload_lem max_imm (it ∷ items) = sym (
    length-append (payload_of max_imm it) (heap_payload max_imm items)
    ∙ ground (arith, sum_payload_lem max_imm items))

-- The numbers that the constructor works out.
abbrev pub max_pointers : ℕ → ℕ
max_pointers size = (size / 8 * 8 - (prefix_size + item_pointer_size)) / item_pointer_size

abbrev pub item_packets : Heap → ℕ → ℕ
item_packets h size = length h.items / max_pointers size + 1

abbrev pub needs_null : Heap → ℕ → Bool
needs_null h size =
    ltb (sum_payload (max_immediate_of h) h.items) (min_payload_size (item_packets h size))

abbrev pub new_generator : Heap → ℕ → ℕ → Generator
new_generator h cnt size = record {
  heap = h;
  cnt = cnt;
  max_packet_size = size;
  max_item_pointers_per_packet = max_pointers size;
  next_item_pointer = 0;
  next_item = 0;
  next_item_offset = 0;
  next_address = 0;
  payload_offset = 0;
  payload_size =
      if needs_null h size
      then min_payload_size (item_packets h size)
      else sum_payload (max_immediate_of h) h.items;
  need_null_item = needs_null h size;
}

one_packet : (a b : ℕ) → a < b → a / b ≡ 0
one_packet a b h = div_unique a b 0 a h (omega arith)

fits_repeated :
    (h : Heap) (size : ℕ)
    → 56 ≤ size
    → (h.repeat_pointers ≡ true → length h.items < max_pointers size)
    → h.repeat_pointers && ltb 1 (item_packets h size) ≡ false
fits_repeated h size large room = elim (Bool-cases h.repeat_pointers) [
  | inl again ↦
      let one = one_packet (length h.items) (max_pointers size) (room again) in rw (again, one) refl
  | inr once ↦ rw once refl
]

-- The constructor throws nothing for a size of 56 bytes or more, unless it is to repeat more item
-- pointers than a packet takes.
pub packet_generator_ok :
    (h : Heap) (cnt size : ℕ)
    → 56 ≤ size
    → (h.repeat_pointers ≡ true → length h.items < max_pointers size)
    → packet_generator h cnt size ≡ ok (new_generator h cnt size)
unfolding packet_generator
packet_generator_ok h cnt size large room =
    let small : ltb (size / 8 * 8) 56 ≡ false = ground arith in
    rw (small, fits_repeated h size large room) refl

pub one_if-le : (b : Bool) → one_if b ≤ 1
one_if-le true = omega arith
one_if-le false = omega arith

module _ (h : Heap) (cnt size : ℕ) (flavour : IsFlavour h.heap_address_bits) (large : 56 ≤ size)
    (whole : size % 8 ≡ 0)
    (room : h.repeat_pointers ≡ true → length h.items < max_pointers size) where
  abbrev most : ℕ
  most = max_pointers size

  aligned : size ≡ 8 * most + 48
  aligned = omega arith

  some_most : 0 < most
  some_most = omega arith

  abbrev q : ℕ
  q = length h.items / most

  abbrev data_size : ℕ
  data_size = sum_payload (max_immediate_of h) h.items

  divided : q * most + length h.items % most ≡ length h.items
  divided = div-add-mod' (length h.items) most

  rest : length h.items % most < most
  rest = mod-lt (length h.items) some_most

  start-Counts :
      (need : Bool) (pointers payload : ℕ)
      → pointers ≡ length h.items + one_if need
      → q * 8 + 1 ≤ payload
      → (need ≡ true → payload ≡ q * 8 + 1)
      → Counts need most pointers payload
  start-Counts need pointers payload e enough exact = record {
    full = suc q;
    enough = omega (arith, suc-mul q most, divided, rest, one_if-le need);
    room = omega arith;
    padding = λ due unsent.
        let short = exact due in
        let null : one_if need ≡ 1 = rw due refl in
        (omega arith, omega (arith, suc-mul q most, divided));
  }

  -- The payload is padded, or it is what it is.
  payload_size_cases :
      ((needs_null h size ≡ true)
        × ((new_generator h cnt size).payload_size ≡ q * 8 + 1)
        × (data_size < q * 8 + 1))
      ⊎ ((needs_null h size ≡ false)
          × ((new_generator h cnt size).payload_size ≡ data_size)
          × (q * 8 + 1 ≤ data_size))
  payload_size_cases =
      let same : (q + 1 - 1) * 8 + 1 ≡ q * 8 + 1 = omega arith in
      elim (Bool-cases (needs_null h size)) [
        | inl padded ↦ inl (padded, rw padded same, ground (arith, padded))
        | inr enough ↦ inr (enough, rw enough refl, ground (arith, enough))
      ]

  pub new_generator-Inv : Inv (new_generator h cnt size)
  new_generator-Inv =
      let start = remaining-start (max_immediate_of h) h.items in
      let sum = sum_payload_lem (max_immediate_of h) h.items in
      let all : length (left (new_generator h cnt size)) ≡ data_size = ap length start ∙ sym sum in
      let first : length h.items + one_if (needs_null h size) - 0
          ≡ length h.items + one_if (needs_null h size) =
        omega arith in
      let generator = new_generator h cnt size in
      let least : q * 8 + 1 ≤ to_send generator = elim payload_size_cases [
        | inl (due, s, short) ↦ omega (arith, s)
        | inr (free, s, enough) ↦ omega (arith, s)
      ] in
      let exact : needs_null h size ≡ true → to_send generator ≡ q * 8 + 1 = λ need.
        elim payload_size_cases [
          | inl (due, s, short) ↦ omega (arith, s)
          | inr (free, s, enough) ↦ absurd (true≢false (sym need ∙ free))
        ] in
      record {
        flavour = flavour;
        aligned = aligned;
        some_pointers = some_most;
        counts = start-Counts (needs_null h size) _ _ first least exact;
        fits = elim payload_size_cases [
          | inl (due, s, short) ↦ omega (arith, s, all)
          | inr (free, s, enough) ↦ omega (arith, s, all)
        ];
        unpadded = λ need. elim payload_size_cases [
          | inl (due, s, short) ↦ absurd (true≢false (sym due ∙ need))
          | inr (free, s, enough) ↦ omega (arith, s, all)
        ];
        inside = Inside-start h.items;
        repeats = λ again.
            let fits = room again in
            (
              omega (arith, one_if-le (needs_null h size)),
              λ need.
                  let none_more = one_packet (length h.items) most fits in
                  omega (arith, exact need),
            );
      }

  -- There is always payload to send.
  pub new_generator-pos : 0 < to_send (new_generator h cnt size)
  new_generator-pos = elim payload_size_cases [
    | inl (due, s, short) ↦ omega (arith, s)
    | inr (free, s, enough) ↦ omega (arith, s)
  ]
