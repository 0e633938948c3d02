-- ===== src/Send/Generator/Delivery.antt =====
-- All packets of a heap, one after the other.
use spead.Prelude.{
  ℕ, zero, suc, ◌+◌, ◌-◌, ◌*◌, ◌≤◌, ◌<◌, ◌≡◌, refl, sym, subst, ap, ap₂, true≢false, append-nil,
  ◌∙◌, true, false, List, [], ◌∷◌, ◌++◌, some, length, take, drop, replicate, map, All,
  if◌then◌else◌, arith, inl, inr, Bool-cases, ltb, length-append, length-replicate,
  take-append-drop, drop_all, lt→ltb,
}
use spead.Send.Heap.{Heap}
use spead.Send.Generator.{
  Generator, concat, has_next_packet, next_packet, restart_pointers, packets, one_if, make_packet,
  emit_pointers,
}
use spead.Send.Generator.Pointers.{all_pointers, emit_pointers-all}
use spead.Send.Generator.Progress.{
  Inv, Sends, to_send, to_point, left, source, sent_payload, sent_pointers, pointer_source,
  make_packet-Sends,
}

-- All the item pointers of the heap.
abbrev pub every_pointer : Generator → List ℕ
every_pointer g = concat (all_pointers g.heap.heap_address_bits g.need_null_item g.heap.items)

same_pointers :
    (g g' : Generator)
    → g'.heap ≡ g.heap
    → g'.need_null_item ≡ g.need_null_item
    → every_pointer g' ≡ every_pointer g
same_pointers g g' heap null =
    ap₂ (λ (h : Heap) b. concat (all_pointers h.heap_address_bits b h.items)) heap null

-- The generator that starts its item pointers anew.
abbrev pub restarted : Generator → Generator
restarted g = record g { next_item_pointer = 0; next_address = 0 }

pub restarted-Inv :
    (g : Generator) → Inv g → g.heap.repeat_pointers ≡ true → 0 < to_send g → Inv (restarted g)
restarted-Inv g v again unsent =
    let (room, short) = v.repeats again in
    record {
      flavour = v.flavour;
      aligned = v.aligned;
      some_pointers = v.some_pointers;
      counts = record {
        full = 1;
        enough = omega arith;
        room = omega arith;
        padding = λ need unsent.
            let one = short need in
            let null : one_if g.need_null_item ≡ 1 = rw need refl in (omega arith, omega arith);
      };
      fits = v.fits;
      unpadded = v.unpadded;
      inside = v.inside;
      repeats = v.repeats;
    }

pub next_packet-make_packet :
    (g : Generator) → 0 < to_send g → next_packet g ≡ make_packet (restart_pointers g)
unfolding next_packet make_packet
next_packet-make_packet g unsent =
    let more : ltb g.payload_offset g.payload_size ≡ true =
      lt→ltb g.payload_offset g.payload_size (omega arith) in
    rw more refl

pub restart_pointers_again :
    (g : Generator) → g.heap.repeat_pointers ≡ true → restart_pointers g ≡ restarted g
unfolding restart_pointers
restart_pointers_again g again = ap (λ b. if b then restarted g else g) again

pub restart_pointers_once :
    (g : Generator) → g.heap.repeat_pointers ≡ false → restart_pointers g ≡ g
unfolding restart_pointers
restart_pointers_once g once = ap (λ b. if b then restarted g else g) once

-- From `g` next_packet has made a packet, and `g'` follows.
pub record Sent (g : Generator) (buffers : List (List ℕ)) (g' : Generator) : Type 0 where
  pub valid : Inv g'
  pub same_heap : g'.heap ≡ g.heap
  pub same_null : g'.need_null_item ≡ g.need_null_item
  pub same_size : g'.max_packet_size ≡ g.max_packet_size
  pub bounded : length (concat buffers) ≤ g.max_packet_size
  pub forward : to_send g' < to_send g
  pub payload : sent_payload buffers ≡ take (to_send g - to_send g') (source g)
  pub later : source g' ≡ drop (to_send g - to_send g') (source g)
  pub pointers_once :
      g.heap.repeat_pointers ≡ false → sent_pointers buffers ++ pointer_source g' ≡ pointer_source g
  pub pointers_again : g.heap.repeat_pointers ≡ true → sent_pointers buffers ≡ every_pointer g

pointer_source_done : (g : Generator) → to_point g ≡ 0 → pointer_source g ≡ []
unfolding emit_pointers concat
pointer_source_done g done = rw done refl

-- With room for all item pointers, a restarted generator sends them all.
restarted-pointers :
    (g : Generator) (buffers : List (List ℕ)) (g' : Generator)
    → length g.heap.items + one_if g.need_null_item ≤ g.max_item_pointers_per_packet
    → Sends (restarted g) buffers g'
    → sent_pointers buffers ≡ every_pointer g
restarted-pointers g buffers g' room s =
    let items = g.heap.items in
    let null = one_if g.need_null_item in
    let all : length items + null - 0 ≡ length items + null = omega arith in
    let none_left : to_point g' ≡ 0 = omega (arith, s.pointed) in
    sym (append-nil (sent_pointers buffers))
    ∙ ap (λ t. sent_pointers buffers ++ t) (sym (pointer_source_done g' none_left))
    ∙ s.pointers
    ∙ ap (λ k. concat (emit_pointers g.heap.heap_address_bits items 0 k 0).0) all
    ∙ ap concat (emit_pointers-all g.heap.heap_address_bits g.need_null_item items)

-- While there is payload to send, next_packet makes a packet, whether the item pointers are repeated
-- or not.
pub next_packet-Sent :
    (g : Generator)
    → Inv g
    → 0 < to_send g
    → (buffers : List (List ℕ)) × (g' : Generator) × (next_packet g ≡ some (buffers, g'))
      × Sent g buffers g'
next_packet-Sent g v unsent = elim (Bool-cases g.heap.repeat_pointers) [
  | inl again ↦
      let (buffers, g', e, s) =
        make_packet-Sends (restarted g) (restarted-Inv g v again unsent) unsent in
      (
        buffers,
        g',
        next_packet-make_packet g unsent ∙ ap make_packet (restart_pointers_again g again) ∙ e,
        record {
          valid = s.valid;
          same_heap = s.same_heap;
          same_null = s.same_null;
          same_size = s.same_size;
          bounded = s.bounded;
          forward = s.forward;
          payload = s.payload;
          later = s.later;
          pointers_once = λ once. absurd (true≢false (sym again ∙ once));
          pointers_again = λ _. restarted-pointers g buffers g' (v.repeats again).0 s;
        },
      )
  | inr once ↦
      let (buffers, g', e, s) = make_packet-Sends g v unsent in
      (
        buffers,
        g',
        next_packet-make_packet g unsent ∙ ap make_packet (restart_pointers_once g once) ∙ e,
        record {
          valid = s.valid;
          same_heap = s.same_heap;
          same_null = s.same_null;
          same_size = s.same_size;
          bounded = s.bounded;
          forward = s.forward;
          payload = s.payload;
          later = s.later;
          pointers_once = λ _. s.pointers;
          pointers_again = λ again. absurd (true≢false (sym again ∙ once));
        },
      )
]

-- The packets that packet_generator gives from `g` on.
pub record Delivers (g : Generator) (sent : List (List (List ℕ))) : Type 0 where
  pub sizes : All (λ buffers. length (concat buffers) ≤ g.max_packet_size) sent
  pub payloads : concat (map sent_payload sent) ≡ source g
  pub pointers_once :
      g.heap.repeat_pointers ≡ false → concat (map sent_pointers sent) ≡ pointer_source g
  pub pointers_again :
      g.heap.repeat_pointers ≡ true → All (λ buffers. sent_pointers buffers ≡ every_pointer g) sent

source-length : (g : Generator) → Inv g → length (source g) ≡ to_send g
source-length g v =
    length-append (left g) (replicate (to_send g - length (left g)) 0)
    ∙ omega (arith, length-replicate {A = ℕ} (to_send g - length (left g)) 0, v.fits)

-- No item pointer is left when the payload is used up.
none_to_point : (g : Generator) → Inv g → to_send g ≡ 0 → to_point g ≡ 0
none_to_point g v done =
    let none_full : v.counts.full ≡ 0 = omega (arith, v.counts.room) in
    let few : to_point g ≤ 0 * g.max_item_pointers_per_packet =
      subst (λ f. to_point g ≤ f * g.max_item_pointers_per_packet) none_full v.counts.enough in
    omega arith

pub packets_more :
    (fuel : ℕ) (g g' : Generator) (buffers : List (List ℕ)) (sent : List (List (List ℕ)))
    → has_next_packet g ≡ true
    → next_packet g ≡ some (buffers, g')
    → packets fuel g' ≡ some sent
    → packets (suc fuel) g ≡ some (buffers ∷ sent)
unfolding packets
packets_more fuel g g' buffers sent more e e' = rw (more, e, e', packets) refl

pub packets_done :
    (fuel : ℕ) (g : Generator) → has_next_packet g ≡ false → packets (suc fuel) g ≡ some []
unfolding packets
packets_done fuel g done = rw (done, packets) refl

pub has_next_packet_lem : (g : Generator) → has_next_packet g ≡ ltb g.payload_offset g.payload_size
unfolding has_next_packet
has_next_packet_lem g = refl

pub packets-Delivers :
    (fuel : ℕ) (g : Generator)
    → Inv g
    → to_send g < fuel
    → (sent : List (List (List ℕ))) × (packets fuel g ≡ some sent) × Delivers g sent
unfolding concat
packets-Delivers zero g v h = absurd (omega arith)
packets-Delivers (suc fuel) g v h = elim (Bool-cases (ltb g.payload_offset g.payload_size)) [
  | inl more ↦
      let unsent : 0 < to_send g = ground (arith, more) in
      let (buffers, g', e, s) = next_packet-Sent g v unsent in
      let (sent, e', d) = packets-Delivers fuel g' s.valid (omega (arith, s.forward)) in
      let used = to_send g - to_send g' in
      (
        buffers ∷ sent,
        packets_more fuel g g' buffers sent (has_next_packet_lem g ∙ more) e e',
        record {
          sizes =
              (s.bounded, subst (λ n. All (λ b. length (concat b) ≤ n) sent) s.same_size d.sizes);
          payloads =
              ap (λ t. sent_payload buffers ++ t) (d.payloads ∙ s.later)
              ∙ ap (λ t. t ++ drop used (source g)) s.payload
              ∙ take-append-drop used (source g);
          pointers_once = λ once.
              ap (λ t. sent_pointers buffers ++ t)
                (d.pointers_once (ap (λ (h : Heap). h.repeat_pointers) s.same_heap ∙ once))
              ∙ s.pointers_once once;
          pointers_again = λ again. (
            s.pointers_again again,
            subst (λ t. All (λ b. sent_pointers b ≡ t) sent)
                (same_pointers g g' s.same_heap s.same_null)
                (d.pointers_again (ap (λ (h : Heap). h.repeat_pointers) s.same_heap ∙ again)),
          );
        },
      )
  | inr done ↦
      let none_left : length (source g) ≤ 0 = ground (arith, done, source-length g v) in
      (
        [],
        packets_done fuel g (has_next_packet_lem g ∙ done),
        record {
          sizes = tt;
          payloads = sym (drop_all 0 (source g) none_left);
          pointers_once =
              λ _. sym (pointer_source_done g (none_to_point g v (ground (arith, done))));
          pointers_again = λ _. tt;
        },
      )
]
