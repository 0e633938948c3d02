-- ===== src/Transfer/Decode.antt =====
-- One packet: packet_generator::next_packet of src/send_packet.cpp makes it, and decode_packet of
-- src/recv_packet.cpp reads it.
use spead.Prelude.{
  ℕ, ◌+◌, ◌/◌, ◌^◌, ◌<◌, ◌≤◌, ◌≡◌, refl, sym, ap, ◌∙◌, List, [], ◌∷◌, ◌++◌, some, All, length, drop,
  arith, subst,
}
use spead.Pointer.{IsFlavour}
use spead.Send.Heap.{heap_payload}
use spead.Send.Generator.{
  Generator, concat, emit_pointers, make_packet, n_item_pointers, packet_payload_length,
  max_immediate_of, prefix_bytes,
}
use spead.Send.Generator.Payload.{Emitted, emit_payload-Emitted}
use spead.Send.Generator.Progress.{
  Inv, Sends, to_send, sent_payload, sent_pointers, packet, after, emitted, make_packet-is,
  payload-length, drop-prefix_bytes, packet-Sends,
}
use spead.Recv.Packet.{PacketHeader, decode_packet}
use spead.Recv.Packet.Items.{join}
use spead.Recv.Packet.Accept.{decode_packet-header}
use spead.Recv.Packet.Accept as Accept
use spead.Transfer.Words.{IsPlain, header_word_same}
use spead.Transfer.Pointers.{emit_pointers-IsRegular, emit_pointers-count}

-- decode_packet accepts the packet, with so many item pointers beyond the first four, and reads the
-- heap, the place of the payload in it, the item pointers and the payload.
abbrev pub IsReceived : (bits cnt size offset : ℕ) → List (List ℕ) → Type 0
IsReceived bits cnt size offset buffers =
    (n : ℕ) × (decode_packet (concat buffers) (length (concat buffers))
      ≡ some (
        length (concat buffers),
        record {
          heap_address_bits = bits;
          n_items = n;
          heap_cnt = cnt;
          heap_length = some size;
          payload_offset = offset;
          payload_length = length (sent_payload buffers);
          pointers = sent_pointers buffers ++ sent_payload buffers;
          payload = sent_payload buffers;
        },
      ))

join-concat : (bs : List (List ℕ)) → join bs ≡ concat bs
unfolding concat
join-concat [] = refl
join-concat (b ∷ bs) = ap (λ t. b ++ t) (join-concat bs)

-- The bytes of a packet, in the order of the receiver's description.
packet-bytes :
    (g : Generator) (pointers : List (List ℕ)) (payload : List ℕ)
    → IsFlavour g.heap.heap_address_bits
    → n_item_pointers g + 4 < 2 ^ 16
    → length pointers ≡ n_item_pointers g
    → length payload ≡ packet_payload_length g
    → (prefix_bytes g (n_item_pointers g) (packet_payload_length g) ++ concat pointers) ++ payload
      ≡ Accept.packet g.heap.heap_address_bits g.cnt g.payload_size g.payload_offset pointers
          payload
unfolding prefix_bytes
packet-bytes g pointers payload flavour few count size =
    let word = header_word_same g.heap.heap_address_bits (n_item_pointers g) flavour few in
    rw (count, size, join-concat pointers, word) refl

-- What the heap asks of the numbers in its packets.
pub record Fitting (g : Generator) : Type 0 where
  pub few : g.max_item_pointers_per_packet + 4 < 2 ^ 16
  pub plain : All (IsPlain g.heap.heap_address_bits) g.heap.items
  pub cnt_fits : g.cnt < 2 ^ g.heap.heap_address_bits
  pub size_fits : g.payload_size < 2 ^ g.heap.heap_address_bits

-- The addresses that are still to be given out fit.
abbrev pub Addressed : Generator → Type 0
Addressed g =
    g.next_address
      + length (heap_payload (g.heap.heap_address_bits / 8) (drop g.next_item_pointer g.heap.items))
    < 2 ^ g.heap.heap_address_bits

-- What `g` and the generator after the packet have in common.
pub record Next (g : Generator) (buffers : List (List ℕ)) (g' : Generator) : Type 0 where
  pub fitting : Fitting g'
  pub addressed : Addressed g'
  pub same_bits : g'.heap.heap_address_bits ≡ g.heap.heap_address_bits
  pub same_payload :
      length (heap_payload (g'.heap.heap_address_bits / 8) g'.heap.items)
      ≡ length (heap_payload (g.heap.heap_address_bits / 8) g.heap.items)
  pub same_cnt : g'.cnt ≡ g.cnt
  pub same_total : g'.payload_size ≡ g.payload_size
  pub offset : g'.payload_offset ≡ g.payload_offset + length (sent_payload buffers)
  pub inside : g'.payload_offset ≤ g'.payload_size

module _ (g : Generator) (v : Inv g) (fit : Fitting g) (addressed : Addressed g)
    (unsent : 0 < to_send g) where
  abbrev bits : ℕ
  bits = g.heap.heap_address_bits

  abbrev pointers : List (List ℕ)
  pointers =
      (emit_pointers bits g.heap.items g.next_item_pointer (n_item_pointers g) g.next_address).0

  count : length pointers ≡ n_item_pointers g
  count =
      emit_pointers-count bits v.flavour g.heap.items fit.plain g.next_item_pointer
        (n_item_pointers g) g.next_address

  abbrev read_as : ℕ → ℕ → List ℕ → List ℕ → PacketHeader
  read_as n len places payload = record {
    heap_address_bits = bits;
    n_items = n;
    heap_cnt = g.cnt;
    heap_length = some g.payload_size;
    payload_offset = g.payload_offset;
    payload_length = len;
    pointers = places ++ payload;
    payload = payload;
  }

  packet-decoded :
      (payload : List ℕ)
      → length payload ≡ packet_payload_length g
      → let bytes =
          (prefix_bytes g (n_item_pointers g) (packet_payload_length g) ++ concat pointers)
          ++ payload in
        decode_packet bytes (length bytes)
        ≡ some (
          length bytes,
          read_as (n_item_pointers g) (packet_payload_length g) (concat pointers) payload,
        )
  packet-decoded payload size =
      let (regular, _) =
        emit_pointers-IsRegular bits v.flavour g.heap.items fit.plain g.next_item_pointer
          (n_item_pointers g) g.next_address addressed in
      let few : n_item_pointers g + 4 < 2 ^ 16 = omega (arith, fit.few) in
      let few' : length pointers + 4 < 2 ^ 16 = omega (arith, count) in
      let bytes =
        (prefix_bytes g (n_item_pointers g) (packet_payload_length g) ++ concat pointers)
        ++ payload in
      let same = packet-bytes g pointers payload v.flavour few count size in
      ap (λ b. decode_packet b (length b)) same
      ∙ decode_packet-header bits g.cnt g.payload_size g.payload_offset pointers payload v.flavour
          few' regular fit.cnt_fits fit.size_fits (omega (arith, size))
      ∙ ap
          (λ b. some (length b, read_as (length pointers) (length payload) (join pointers) payload))
          (sym same)
      ∙ ap (λ n. some (length bytes, read_as n (length payload) (join pointers) payload)) count
      ∙ ap (λ l. some (length bytes, read_as (n_item_pointers g) l (join pointers) payload)) size
      ∙ ap
          (λ ps.
            some (length bytes, read_as (n_item_pointers g) (packet_payload_length g) ps payload))
          (join-concat pointers)

  -- A packet can be made, and decode_packet reads from it what went into it.
  pub packet-IsReceived :
      (buffers : List (List ℕ)) × (g' : Generator) × (make_packet g ≡ some (buffers, g'))
      × Sends g buffers g'
      × IsReceived bits g.cnt g.payload_size g.payload_offset buffers
      × Next g buffers g'
  unfolding concat sent_payload
  packet-IsReceived =
      let (c, e) = emitted g v unsent in
      let len = packet_payload_length g in
      let all =
        emit_payload-Emitted (max_immediate_of g.heap) g.need_null_item
          (drop g.next_item g.heap.items) g.next_item g.next_item_offset len v.inside in
      let w =
        subst
          (Emitted (max_immediate_of g.heap) (drop g.next_item g.heap.items) g.next_item
            g.next_item_offset len)
          e all in
      let (_, addressed') =
        emit_pointers-IsRegular bits v.flavour g.heap.items fit.plain g.next_item_pointer
          (n_item_pointers g) g.next_address addressed in
      let size = payload-length g v unsent c w in
      let places : concat pointers ≡ sent_pointers (packet g v unsent c) =
        sym (drop-prefix_bytes g (n_item_pointers g) len (concat pointers)) in
      (
        packet g v unsent c,
        after g v unsent c,
        make_packet-is g v unsent c e,
        packet-Sends g v unsent c w,
        (
          n_item_pointers g,
          packet-decoded (concat c.buffers) size
              ∙ ap
                  (λ t. some (
                    length (concat (packet g v unsent c)),
                    read_as (n_item_pointers g) len t (concat c.buffers),
                  ))
                  places
              ∙ ap
                  (λ l. some (
                    length (concat (packet g v unsent c)),
                    read_as (n_item_pointers g) l (sent_pointers (packet g v unsent c))
                        (concat c.buffers),
                  ))
                  (sym size),
        ),
        record {
          fitting = record {
            few = fit.few;
            plain = fit.plain;
            cnt_fits = fit.cnt_fits;
            size_fits = fit.size_fits;
          };
          addressed = addressed';
          same_bits = refl;
          same_payload = refl;
          same_cnt = refl;
          same_total = refl;
          offset = ap (λ l. g.payload_offset + l) (sym size);
          inside = omega arith;
        },
      )
