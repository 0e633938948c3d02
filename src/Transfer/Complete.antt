-- ===== src/Transfer/Complete.antt =====
-- All packets of a heap: what packet_generator of src/send_packet.cpp makes, decode_packet of
-- src/recv_packet.cpp reads.
use spead.Prelude.{
  ℕ, zero, suc, ◌+◌, ◌/◌, ◌^◌, ◌≤◌, ◌<◌, ◌≡◌, ap, ◌∙◌, inl, inr, List, [], ◌∷◌, some, All, length,
  ltb, arith, Bool-cases,
}
use spead.Pointer.{IsFlavour}
use spead.Send.Heap.{Heap, heap_payload}
use spead.Send.Generator.{
  Generator, ok, packet_generator, packets, next_packet, make_packet, max_immediate_of,
}
use spead.Send.Generator.Progress.{Inv, to_send, sent_payload}
use spead.Send.Generator.Start.{
  new_generator, max_pointers, packet_generator_ok, new_generator-Inv, sum_payload_lem,
}
use spead.Send.Generator.Delivery.{
  packets_more, packets_done, has_next_packet_lem, restarted, restarted-Inv,
  next_packet-make_packet, restart_pointers_again, restart_pointers_once,
}
use spead.Send.Generator.Complete.{IsSize}
use spead.Transfer.Words.{IsPlain}
use spead.Transfer.Decode.{IsReceived, Fitting, Addressed, Next, packet-IsReceived}

-- Each packet is received, at the place where the one before it ended, up to the end of the heap.
abbrev pub AllReceived : (bits cnt size offset : ℕ) → List (List (List ℕ)) → Type 0
AllReceived bits cnt size offset [] = offset ≡ size
AllReceived bits cnt size offset (buffers ∷ sent) =
    IsReceived bits cnt size offset buffers
    × AllReceived bits cnt size (offset + length (sent_payload buffers)) sent

-- All that the packets from `g` on need.
record Ready (g : Generator) : Type 0 where
  valid : Inv g
  fitting : Fitting g
  addressed : Addressed g
  payload_fits :
      length (heap_payload (g.heap.heap_address_bits / 8) g.heap.items)
      < 2 ^ g.heap.heap_address_bits
  inside : g.payload_offset ≤ g.payload_size

Next-Ready :
    (g g' : Generator) (buffers : List (List ℕ)) → Ready g → Inv g' → Next g buffers g' → Ready g'
Next-Ready g g' buffers r v n = record {
  valid = v;
  fitting = n.fitting;
  addressed = n.addressed;
  payload_fits = rw (n.same_payload, n.same_bits) r.payload_fits;
  inside = n.inside;
}

-- What is received from `g'` on, in terms of `g`.
carry :
    (g g' : Generator) (buffers : List (List ℕ)) (sent : List (List (List ℕ)))
    → Next g buffers g'
    → AllReceived g'.heap.heap_address_bits g'.cnt g'.payload_size g'.payload_offset sent
    → AllReceived g.heap.heap_address_bits g.cnt g.payload_size
        (g.payload_offset + length (sent_payload buffers))
        sent
carry g g' buffers sent n all = rw (← n.same_bits, ← n.same_cnt, ← n.same_total, ← n.offset) all

next_packet-IsReceived :
    (g : Generator)
    → Ready g
    → 0 < to_send g
    → (buffers : List (List ℕ)) × (g' : Generator) × (next_packet g ≡ some (buffers, g'))
      × IsReceived g.heap.heap_address_bits g.cnt g.payload_size g.payload_offset buffers
      × Ready g'
      × (to_send g' < to_send g)
      × Next g buffers g'
next_packet-IsReceived g r unsent = elim (Bool-cases g.heap.repeat_pointers) [
  | inl again ↦
      let (buffers, g', e, s, received, n) =
        packet-IsReceived (restarted g) (restarted-Inv g r.valid again unsent)
          (record {
            few = r.fitting.few;
            plain = r.fitting.plain;
            cnt_fits = r.fitting.cnt_fits;
            size_fits = r.fitting.size_fits;
          })
          (omega (arith, r.payload_fits)) unsent in
      let n' : Next g buffers g' = record {
        fitting = n.fitting;
        addressed = n.addressed;
        same_bits = n.same_bits;
        same_payload = n.same_payload;
        same_cnt = n.same_cnt;
        same_total = n.same_total;
        offset = n.offset;
        inside = n.inside;
      } in
      (
        buffers,
        g',
        next_packet-make_packet g unsent ∙ ap make_packet (restart_pointers_again g again) ∙ e,
        received,
        Next-Ready g g' buffers r s.valid n',
        s.forward,
        n',
      )
  | inr once ↦
      let (buffers, g', e, s, received, n) =
        packet-IsReceived g r.valid r.fitting r.addressed unsent in
      (
        buffers,
        g',
        next_packet-make_packet g unsent ∙ ap make_packet (restart_pointers_once g once) ∙ e,
        received,
        Next-Ready g g' buffers r s.valid n,
        s.forward,
        n,
      )
]

received_from :
    (fuel : ℕ) (g : Generator)
    → Ready g
    → to_send g < fuel
    → (sent : List (List (List ℕ))) × (packets fuel g ≡ some sent)
      × AllReceived g.heap.heap_address_bits g.cnt g.payload_size g.payload_offset sent
received_from zero g r h = absurd (omega arith)
received_from (suc fuel) g r h = elim (Bool-cases (ltb g.payload_offset g.payload_size)) [
  | inl more ↦
      let unsent : 0 < to_send g = ground (arith, more) in
      let (buffers, g', e, received, r', less, n) = next_packet-IsReceived g r unsent in
      let (sent, e', rest) = received_from fuel g' r' (omega arith) in
      (
        buffers ∷ sent,
        packets_more fuel g g' buffers sent (has_next_packet_lem g ∙ more) e e',
        (received, carry g g' buffers sent n rest),
      )
  | inr done ↦
      ([], packets_done fuel g (has_next_packet_lem g ∙ done), ground (arith, done, r.inside))
]

module _ (h : Heap) (cnt size : ℕ) (flavour : IsFlavour h.heap_address_bits) (fit : IsSize h size)
    (few : max_pointers size + 4 < 2 ^ 16) (plain : All (IsPlain h.heap_address_bits) h.items)
    (cnt_fits : cnt < 2 ^ h.heap_address_bits)
    (size_fits : (new_generator h cnt size).payload_size < 2 ^ h.heap_address_bits) where
  abbrev g : Generator
  g = new_generator h cnt size

  payload_fits : length (heap_payload (max_immediate_of h) h.items) < 2 ^ h.heap_address_bits
  payload_fits = ground (arith, size_fits, sum_payload_lem (max_immediate_of h) h.items)

  ready : Ready g
  ready = record {
    valid = new_generator-Inv h cnt size flavour fit.large fit.whole fit.room;
    fitting = record { few = few; plain = plain; cnt_fits = cnt_fits; size_fits = size_fits };
    addressed = omega (arith, payload_fits);
    payload_fits = payload_fits;
    inside = omega arith;
  }

  -- Let the packet size be of whole words, with room for an item pointer and a word of payload (for
  -- all pointers, where they are repeated) but for less than 2^16 items; let the heap's flavour be one
  -- of SPEAD-64, its items have IDs above 4 that fit, inline values that fit, and buffers of bytes;
  -- and let heap_cnt and the size of the payload fit an address. Then the constructor throws nothing,
  -- the packets come to an end, and decode_packet accepts each of them. It reads from each the
  -- heap's flavour, its heap_cnt, the size of its payload as heap_length, the payload of the packet
  -- and its length, the item pointers from the fifth on, and as payload_offset the end of the payload
  -- of the packet before: 0 for the first, and the last ends at heap_length.
  pub heap_received :
      (made : Generator) × (sent : List (List (List ℕ))) × (packet_generator h cnt size ≡ ok made)
      × (packets (made.payload_size + 1) made ≡ some sent)
      × AllReceived h.heap_address_bits cnt made.payload_size 0 sent
  heap_received =
      let (sent, e, all) = received_from (g.payload_size + 1) g ready (omega arith) in
      (g, sent, packet_generator_ok h cnt size fit.large fit.room, e, all)
