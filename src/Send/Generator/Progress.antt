-- ===== src/Send/Generator/Progress.antt =====
-- One packet of packet_generator: it can be made, it has its size, and what is left fits again.
use spead.Prelude.{
  ℕ, ◌+◌, ◌-◌, ◌*◌, ◌≤◌, ◌<◌, ◌≡◌, refl, sym, subst, ap, ◌∙◌, Bool, true, false, List, [], ◌∷◌,
  ◌++◌, none, some, length, take, drop, replicate, arith, inl, inr, Option-cases, ◌≢◌, true≢false,
  is_some, length-append, length-take, length-drop, length-replicate, drop-append, drop-replicate,
  drop-drop, take-append, take-replicate, append_assoc,
}
use spead.Pointer.{IsFlavour}
use spead.Send.Generator.{
  Generator, Cursor, concat, emit_pointers, emit_payload, prefix_bytes, make_packet,
  max_immediate_of, n_item_pointers, packet_payload_length, one_if, prefix_size,
}
use spead.Send.Generator.Counts.{
  Counts, takes_payload, takes_payload-pos, takes_payload-padding, takes-Counts,
}
use spead.Send.Generator.Payload.{
  remaining, Inside, Emits, Emitted, padded, slack, emit_payload-Emitted, emit_payload-is_some,
}
use spead.Send.Generator.Pointers.{emit_pointers-length, emit_pointers-split}

abbrev pub to_send : Generator → ℕ
to_send g = g.payload_size - g.payload_offset

abbrev pub to_point : Generator → ℕ
to_point g = length g.heap.items + one_if g.need_null_item - g.next_item_pointer

-- The payload that is left, without and with its padding.
abbrev pub left : Generator → List ℕ
left g = remaining (max_immediate_of g.heap) (drop g.next_item g.heap.items) g.next_item_offset

abbrev pub source : Generator → List ℕ
source g = left g ++ replicate (to_send g - length (left g)) 0

-- The item pointers that are left.
abbrev pub pointer_source : Generator → List ℕ
pointer_source g =
    concat
      (emit_pointers g.heap.heap_address_bits g.heap.items g.next_item_pointer (to_point g)
        g.next_address).0

-- Between two packets.
pub record Inv (g : Generator) : Type 0 where
  pub flavour : IsFlavour g.heap.heap_address_bits
  pub aligned : g.max_packet_size ≡ 8 * g.max_item_pointers_per_packet + 48
  pub some_pointers : 0 < g.max_item_pointers_per_packet
  pub counts : Counts g.need_null_item g.max_item_pointers_per_packet (to_point g) (to_send g)
  pub fits : length (left g) ≤ to_send g
  pub unpadded : g.need_null_item ≡ false → to_send g ≤ length (left g)
  pub inside : Inside (drop g.next_item g.heap.items) g.next_item_offset
  pub repeats :
      g.heap.repeat_pointers ≡ true
      → (length g.heap.items + one_if g.need_null_item ≤ g.max_item_pointers_per_packet)
        × (g.need_null_item ≡ true → to_send g ≤ 1)

-- The parts of a packet that are item pointers of the heap, and payload.
abbrev pub sent_pointers : List (List ℕ) → List ℕ
sent_pointers [] = []
sent_pointers (b ∷ buffers) = drop prefix_size b

unfoldable pub sent_payload : List (List ℕ) → List ℕ
unfolding concat
sent_payload [] = []
sent_payload (b ∷ buffers) = concat buffers

-- From `g` a packet is sent, and `g'` follows.
pub record Sends (g : Generator) (buffers : List (List ℕ)) (g' : Generator) : Type 0 where
  pub valid : Inv g'
  pub same_heap : g'.heap ≡ g.heap
  pub same_null : g'.need_null_item ≡ g.need_null_item
  pub same_size : g'.max_packet_size ≡ g.max_packet_size
  pub bounded : length (concat buffers) ≤ g.max_packet_size
  pub forward : to_send g' < to_send g
  pub payload : sent_payload buffers ≡ take (to_send g - to_send g') (source g)
  pub later : source g' ≡ drop (to_send g - to_send g') (source g)
  pub pointed : to_point g' ≡ to_point g - n_item_pointers g
  pub pointers : sent_pointers buffers ++ pointer_source g' ≡ pointer_source g

concat-append : (xs ys : List (List ℕ)) → concat (xs ++ ys) ≡ concat xs ++ concat ys
unfolding concat
concat-append [] ys = refl
concat-append (x ∷ xs) ys =
    ap (λ t. x ++ t) (concat-append xs ys) ∙ sym (append_assoc x (concat xs) (concat ys))

prefix_bytes-length : (g : Generator) (n len : ℕ) → length (prefix_bytes g n len) ≡ 40
unfolding prefix_bytes
prefix_bytes-length g n len = refl

pub drop-prefix_bytes :
    (g : Generator) (n len : ℕ) (rest : List ℕ)
    → drop prefix_size (prefix_bytes g n len ++ rest) ≡ rest
unfolding prefix_bytes
drop-prefix_bytes g n len rest = refl

padded-source :
    (len more : ℕ) (bytes : List ℕ)
    → length bytes ≤ more
    → len ≤ more
    → padded len bytes ≡ take len (bytes ++ replicate (more - length bytes) 0)
padded-source len more bytes h k = sym (
    take-append len bytes (replicate (more - length bytes) 0)
    ∙ ap (λ t. take len bytes ++ t)
        (take-replicate (len - length bytes) (more - length bytes) 0 (omega arith)))

module _ (g : Generator) (v : Inv g) (unsent : 0 < to_send g) where
  abbrev n : ℕ
  n = n_item_pointers g

  abbrev len : ℕ
  len = packet_payload_length g

  len-takes : len ≡ takes_payload g.max_item_pointers_per_packet (to_point g) (to_send g)
  len-takes = rw v.aligned refl

  len-pos : 0 < len
  len-pos =
      subst (λ l. 0 < l) (sym len-takes)
        (takes_payload-pos g.need_null_item g.max_item_pointers_per_packet (to_point g) (to_send g)
          v.counts v.some_pointers unsent)

  len-slack : g.need_null_item ≡ true → len ≤ 8
  len-slack need =
      subst (λ l. l ≤ 8) (sym len-takes)
        (takes_payload-padding g.need_null_item g.max_item_pointers_per_packet (to_point g)
          (to_send g) v.counts v.some_pointers unsent need)

  after-Counts :
      Counts g.need_null_item g.max_item_pointers_per_packet (to_point g - n) (to_send g - len)
  after-Counts =
      subst
        (λ l.
          Counts g.need_null_item g.max_item_pointers_per_packet (to_point g - n) (to_send g - l))
        (sym len-takes)
        (takes-Counts g.need_null_item g.max_item_pointers_per_packet (to_point g) (to_send g)
          v.counts v.some_pointers unsent)

  abbrev pub packet : Cursor → List (List ℕ)
  packet c =
      (prefix_bytes g n len
        ++ concat
            (emit_pointers g.heap.heap_address_bits g.heap.items g.next_item_pointer n
              g.next_address).0)
      ∷ c.buffers

  abbrev pub after : Cursor → Generator
  after c = record g {
    next_item_pointer = g.next_item_pointer + n;
    next_address =
        (emit_pointers g.heap.heap_address_bits g.heap.items g.next_item_pointer n
          g.next_address).1;
    payload_offset = g.payload_offset + len;
    next_item = c.next_item;
    next_item_offset = c.next_item_offset;
  }

  within_slack : (need : Bool) → g.need_null_item ≡ need → len ≤ length (left g) + slack need
  within_slack false e = let all = v.unpadded e in omega arith
  within_slack true e = let few = len-slack e in omega arith

  never :
      emit_payload
        (max_immediate_of g.heap)
        g.need_null_item
        (drop g.next_item g.heap.items)
        g.next_item
        g.next_item_offset
        len
      ≢ none
  never failed =
      let made =
        emit_payload-is_some (max_immediate_of g.heap) g.need_null_item
          (drop g.next_item g.heap.items) g.next_item g.next_item_offset len v.inside
          (within_slack g.need_null_item refl) in
      true≢false (sym made ∙ ap is_some failed)

  pub emitted :
      (c : Cursor) × (emit_payload
          (max_immediate_of g.heap)
          g.need_null_item
          (drop g.next_item g.heap.items)
          g.next_item
          g.next_item_offset
          len
        ≡ some c)
  emitted =
      elim (Option-cases (
        emit_payload (max_immediate_of g.heap) g.need_null_item (drop g.next_item g.heap.items)
          g.next_item g.next_item_offset len)) [
            | inl failed ↦ absurd (never failed)
            | inr made ↦ made
          ]

  pub make_packet-is :
      (c : Cursor)
      → emit_payload
          (max_immediate_of g.heap)
          g.need_null_item
          (drop g.next_item g.heap.items)
          g.next_item
          g.next_item_offset
          len
        ≡ some c
      → make_packet g ≡ some (packet c, after c)
  unfolding make_packet
  make_packet-is c e = rw (e, make_packet) refl

  module _ (c : Cursor)
      (w : Emits
        (max_immediate_of g.heap)
        (drop g.next_item g.heap.items)
        g.next_item
        g.next_item_offset
        len
        c) where
    items-after :
        drop (c.next_item - g.next_item) (drop g.next_item g.heap.items)
        ≡ drop c.next_item g.heap.items
    items-after =
        let there : g.next_item + (c.next_item - g.next_item) ≡ c.next_item =
          omega (arith, w.forward) in
        drop-drop (c.next_item - g.next_item) g.next_item g.heap.items
        ∙ ap (λ k. drop k g.heap.items) there

    left-after : left (after c) ≡ drop len (left g)
    left-after =
        sym (ap (λ its. remaining (max_immediate_of g.heap) its c.next_item_offset) items-after)
        ∙ w.later

    left-after-length : length (left (after c)) ≡ length (left g) - len
    left-after-length = ap length left-after ∙ length-drop len (left g)

    source-after : source (after c) ≡ drop len (source g)
    source-after =
        let zeros = to_send g - length (left g) in
        let zeros_left : to_send (after c) - length (left (after c))
            ≡ zeros - (len - length (left g)) =
          omega (arith, left-after-length, v.fits) in
        rw (zeros_left, left-after)
          (ap (λ t. drop len (left g) ++ t) (sym (drop-replicate (len - length (left g)) zeros 0))
            ∙ sym (drop-append len (left g) (replicate zeros 0)))

    pub payload-length : length (concat c.buffers) ≡ len
    payload-length =
        ap length w.sent
        ∙ length-append (take len (left g)) (replicate (len - length (left g)) 0)
        ∙ omega
            (arith, length-take len (left g), length-replicate {A = ℕ} (len - length (left g)) 0)

    pub packet-length : length (concat (packet c)) ≡ 40 + n * 8 + len
    unfolding concat
    packet-length =
        let pointers =
          (emit_pointers g.heap.heap_address_bits g.heap.items g.next_item_pointer n
            g.next_address).0 in
        length-append (prefix_bytes g n len ++ concat pointers) (concat c.buffers)
        ∙ omega (
          arith,
          length-append (prefix_bytes g n len) (concat pointers),
          prefix_bytes-length g n len,
          emit_pointers-length g.heap.heap_address_bits v.flavour g.heap.items g.next_item_pointer n
              g.next_address,
          payload-length,
        )

    after-Inv : Inv (after c)
    after-Inv =
        let fewer : to_point (after c) ≡ to_point g - n = omega arith in
        let less : to_send (after c) ≡ to_send g - len = omega arith in
        record {
          flavour = v.flavour;
          aligned = v.aligned;
          some_pointers = v.some_pointers;
          counts = rw (fewer, less) after-Counts;
          fits = omega (arith, left-after-length, v.fits);
          unpadded = λ e. omega (arith, left-after-length, v.unpadded e);
          inside = subst (λ its. Inside its c.next_item_offset) items-after w.inside;
          repeats = λ again.
              let (room, short) = v.repeats again in
              (room, λ need. let one = short need in omega arith);
        }

    after-pointers : sent_pointers (packet c) ++ pointer_source (after c) ≡ pointer_source g
    after-pointers =
        let bits = g.heap.heap_address_bits in
        let items = g.heap.items in
        let first = (emit_pointers bits items g.next_item_pointer n g.next_address).0 in
        let skip : drop 40 (prefix_bytes g n len ++ concat first) ≡ concat first =
          drop-prefix_bytes g n len (concat first) in
        let fewer : to_point (after c) ≡ to_point g - n = omega arith in
        let all : n + (to_point g - n) ≡ to_point g = omega arith in
        ap (λ t. t ++ pointer_source (after c)) skip
        ∙ rw fewer (
            sym (concat-append first _)
            ∙ ap (λ (r : List (List ℕ) × ℕ). concat r.0)
                (sym (
                  emit_pointers-split bits items n (to_point g - n) g.next_item_pointer
                    g.next_address))
            ∙ ap (λ k. concat (emit_pointers bits items g.next_item_pointer k g.next_address).0)
                all)

    pub packet-Sends : Sends g (packet c) (after c)
    unfolding sent_payload
    packet-Sends =
        let used : to_send g - to_send (after c) ≡ len = omega arith in
        record {
          valid = after-Inv;
          same_heap = refl;
          same_null = refl;
          same_size = refl;
          bounded = omega (arith, packet-length, v.aligned);
          forward = omega (arith, len-pos);
          payload = rw used (w.sent ∙ padded-source len (to_send g) (left g) v.fits (omega arith));
          later = rw used source-after;
          pointed = omega arith;
          pointers = after-pointers;
        }

-- While there is payload to send, a packet can be made, and all goes on as before.
pub make_packet-Sends :
    (g : Generator)
    → Inv g
    → 0 < to_send g
    → (buffers : List (List ℕ)) × (g' : Generator) × (make_packet g ≡ some (buffers, g'))
      × Sends g buffers g'
make_packet-Sends g v unsent =
    let (c, e) = emitted g v unsent in
    let all =
      emit_payload-Emitted (max_immediate_of g.heap) g.need_null_item
        (drop g.next_item g.heap.items) g.next_item g.next_item_offset (len g v unsent) v.inside in
    let w =
      subst
        (Emitted (max_immediate_of g.heap) (drop g.next_item g.heap.items) g.next_item
          g.next_item_offset (len g v unsent))
        e all in
    (
      packet g v unsent c,
      after g v unsent c,
      make_packet-is g v unsent c e,
      packet-Sends g v unsent c w,
    )
