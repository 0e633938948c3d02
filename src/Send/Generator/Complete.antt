-- ===== src/Send/Generator/Complete.antt =====
-- What packet_generator promises of a heap as a whole.
use spead.Prelude.{
  ℕ, ◌+◌, ◌-◌, ◌%◌, ◌≤◌, ◌<◌, ◌≡◌, ap, ◌∙◌, true, false, List, ◌++◌, some, length, replicate, map,
  All, arith,
}
use spead.Pointer.{IsFlavour}
use spead.Send.Heap.{Heap, heap_payload}
use spead.Send.Generator.{
  Generator, ok, concat, emit_pointers, packet_generator, packets, max_immediate_of, one_if,
}
use spead.Send.Generator.Payload.{remaining-start}
use spead.Send.Generator.Pointers.{emit_pointers-all}
use spead.Send.Generator.Progress.{sent_payload, sent_pointers}
use spead.Send.Generator.Start.{new_generator, max_pointers, packet_generator_ok, new_generator-Inv}
use spead.Send.Generator.Delivery.{Delivers, packets-Delivers, every_pointer}

-- The packet sizes for which the heap's packets are all that they should be: whole words, with room
-- for a pointer and a word of payload, and for all item pointers where they are repeated.
pub record IsSize (h : Heap) (size : ℕ) : Type 0 where
  pub large : 56 ≤ size
  pub whole : size % 8 ≡ 0
  pub room : h.repeat_pointers ≡ true → length h.items < max_pointers size

-- The heap's payload with zeros up to payload_size.
abbrev pub padded_payload : Generator → List ℕ
padded_payload g =
    let payload = heap_payload (max_immediate_of g.heap) g.heap.items in
    payload ++ replicate (g.payload_size - length payload) 0

module _ (h : Heap) (cnt size : ℕ) (flavour : IsFlavour h.heap_address_bits)
    (fit : IsSize h size) where
  abbrev g : Generator
  g = new_generator h cnt size

  deliver :
      (sent : List (List (List ℕ))) × (packets (g.payload_size + 1) g ≡ some sent) × Delivers g sent
  deliver =
      packets-Delivers (g.payload_size + 1) g
        (new_generator-Inv h cnt size flavour fit.large fit.whole fit.room) (omega arith)

  -- For a packet size of whole words with room for an item pointer and a word of payload (for all of
  -- them, where they are repeated): the constructor throws nothing, no assert of next_packet itself
  -- fails, the packets come to an end after at most payload_size of them, each is within the size, and their payloads, one
  -- after the other, are that of the heap, followed by the zeros of the padding.
  pub payload_sent :
      (made : Generator) × (sent : List (List (List ℕ))) × (packet_generator h cnt size ≡ ok made)
      × (packets (made.payload_size + 1) made ≡ some sent)
      × All (λ buffers. length (concat buffers) ≤ size) sent
      × (concat (map sent_payload sent) ≡ padded_payload made)
  payload_sent =
      let (sent, e, d) = deliver in
      let start = remaining-start (max_immediate_of h) h.items in
      let payload = heap_payload (max_immediate_of h) h.items in
      let whole_size : g.payload_size - 0 ≡ g.payload_size = omega arith in
      (
        g,
        sent,
        packet_generator_ok h cnt size fit.large fit.room,
        e,
        d.sizes,
        d.payloads
            ∙ ap (λ t. t ++ replicate (g.payload_size - 0 - length t) 0) start
            ∙ ap (λ n. payload ++ replicate (n - length payload) 0) whole_size,
      )

  -- Under the same conditions: the item pointers of all packets, one after the other, are those of
  -- the heap's items in order, each with its value or with the place of its payload as its address,
  -- and the null item's last if there is padding; where they are repeated, each packet has them all.
  pub pointers_sent :
      (made : Generator) × (sent : List (List (List ℕ))) × (packet_generator h cnt size ≡ ok made)
      × (packets (made.payload_size + 1) made ≡ some sent)
      × (h.repeat_pointers ≡ false → concat (map sent_pointers sent) ≡ every_pointer made)
      × (h.repeat_pointers ≡ true
          → All (λ buffers. sent_pointers buffers ≡ every_pointer made) sent)
  pointers_sent =
      let (sent, e, d) = deliver in
      let all : length h.items + one_if g.need_null_item - 0
          ≡ length h.items + one_if g.need_null_item =
        omega arith in
      (
        g,
        sent,
        packet_generator_ok h cnt size fit.large fit.room,
        e,
        λ once.
            d.pointers_once once
            ∙ ap (λ k. concat (emit_pointers h.heap_address_bits h.items 0 k 0).0) all
            ∙ ap concat (emit_pointers-all h.heap_address_bits g.need_null_item h.items),
        d.pointers_again,
      )
