-- ===== src/Send/Stream/Packet.antt =====
-- One packet of load_packets (src/send_stream.cpp).
use spead.Prelude.{
  ℕ, ◌+◌, ◌≤◌, ◌<◌, ◌≡◌, inl, inr, refl, ap, ◌∙◌, true, false, List, [], ◌∷◌, ◌++◌, some, length,
  arith, Bool-cases, All-get_elem?, get_elem?_of_lt, get_elem?, length-append, subst,
}
use spead.Common.RingBuffer.{next, slot_at}
use spead.Common.RingBuffer.Slots.{next-place}
use spead.Send.Generator.{Generator, has_next_packet}
use spead.Send.Generator.Progress.{Inv}
use spead.Send.Generator.Delivery.{next_packet-Sent}
use spead.Send.Stream.{success, QueueItem, TransmitPacket, StreamImpl}
use spead.Send.Stream.Load.{sum_sizes, put_packet, load_packet}
use spead.Send.Stream.Batch.{Follow, cap_of, heaps}
use spead.Send.Stream.Loaded.{
  get_elem?-heaps, Sendable, HasNext, Loading, SameQueue, Follow-append, some-injective,
  generator_for-HasNext, load_packet-made, has_next-pos, pos-has_next,
}

module _ (s : StreamImpl) (items : List QueueItem) (m : ℕ) (v : Loading s items m)
    (more : m < length items) where
  some_item : (it : QueueItem) × (get_elem? items m ≡ some it)
  some_item = get_elem?_of_lt items m more

  item_there : (it : QueueItem) → get_elem? items m ≡ some it → slot_at s.queue s.active ≡ some it
  item_there it e = ap (slot_at s.queue) v.active_at ∙ v.holds.filled m more ∙ e

  put-longer :
      (buffers : List (List ℕ)) (g' : Generator)
      → length s.current_packets < length (put_packet buffers g' s).current_packets
  unfolding put_packet
  put-longer buffers g' = elim (Bool-cases (has_next_packet g')) [
    | inl again ↦ rw again (omega (arith, length-append s.current_packets))
    | inr done ↦ rw done (omega (arith, length-append s.current_packets))
  ]

  -- The state with the new packet, where it is the last of its heap and where it is not.
  module _ (buffers : List (List ℕ)) (g' : Generator) (valid : Inv g') where
    put-last :
        has_next_packet g' ≡ false
        → Loading (put_packet buffers g' s) items (m + 1) × SameQueue s (put_packet buffers g' s)
    unfolding put_packet next
    put-last done =
        let room = v.holds.room in
        let grown = length-append s.current_packets (
          record {
            buffers = buffers;
            size = sum_sizes buffers;
            last = true;
            item = s.active;
            result = success;
          }
          ∷ []) in
        rw done (
          record {
            holds = v.holds;
            within = omega arith;
            active_at =
                ap (next (cap_of s)) v.active_at
                ∙ next-place (cap_of s) s.queue_head m v.holds.head_in (omega arith);
            partial = λ e. absurd (cc);
            gen_next = λ g e. absurd (cc);
            sendable = v.sendable;
            follow =
                Follow-append (cap_of s) s.queue_head (length items) m s.current_packets _
                  v.holds.head_in v.holds.room more v.active_at v.follow;
          },
          record {
            config = refl;
            most = refl;
            head = refl;
            tail = refl;
            state = refl;
            more = omega (arith, grown);
          },
        )

    put-more :
        has_next_packet g' ≡ true
        → Loading (put_packet buffers g' s) items m × SameQueue s (put_packet buffers g' s)
    unfolding put_packet next
    put-more again =
        let same : m + 0 ≡ m = omega arith in
        let packet : TransmitPacket = record {
          buffers = buffers;
          size = sum_sizes buffers;
          last = false;
          item = s.active;
          result = success;
        } in
        let grown = length-append s.current_packets (packet ∷ []) in
        rw again (
          record {
            holds = v.holds;
            within = v.within;
            active_at = v.active_at;
            partial = λ e. more;
            gen_next = λ g e. subst HasNext (some-injective g' g e) (valid, pos-has_next g' again);
            sendable = v.sendable;
            follow =
                subst
                  (λ k.
                    Follow (cap_of s) s.queue_head (length items) k
                      (s.current_packets ++ packet ∷ []))
                  same
                  (Follow-append (cap_of s) s.queue_head (length items) m s.current_packets packet
                    v.holds.head_in v.holds.room more v.active_at v.follow);
          },
          record {
            config = refl;
            most = refl;
            head = refl;
            tail = refl;
            state = refl;
            more = omega (arith, grown);
          },
        )

  pub load_packet-Loading :
      (s' : StreamImpl) × (m' : ℕ) × (load_packet s ≡ some s')
      × Loading s' items m'
      × SameQueue s s'
      × (length s.current_packets < length s'.current_packets)
      × (m' ≤ m + 1)
  load_packet-Loading =
      let (it, e) = some_item in
      let can =
        All-get_elem? (Sendable s.config.max_packet_size) (heaps items) m it.heap v.sendable
          (get_elem?-heaps items m it e) in
      let (g, e', (valid, unsent)) = generator_for-HasNext s it can v.gen_next in
      let (buffers, g', e'', sent) = next_packet-Sent g valid unsent in
      let made =
        load_packet-made s it g g' buffers (item_there it e) e' (has_next-pos g unsent) e'' in
      elim (Bool-cases (has_next_packet g')) [
        | inl again ↦
            let (v', same) = put-more buffers g' sent.valid again in
            (put_packet buffers g' s, m, made, v', same, put-longer buffers g', omega arith)
        | inr done ↦
            let (v', same) = put-last buffers g' sent.valid done in
            (put_packet buffers g' s, m + 1, made, v', same, put-longer buffers g', omega arith)
      ]

pub SameQueue-refl : (s : StreamImpl) → SameQueue s s
SameQueue-refl s = record {
  config = refl;
  most = refl;
  head = refl;
  tail = refl;
  state = refl;
  more = omega arith;
}

pub SameQueue-trans : (s t u : StreamImpl) → SameQueue s t → SameQueue t u → SameQueue s u
SameQueue-trans s t u k l = record {
  config = l.config ∙ k.config;
  most = l.most ∙ k.most;
  head = l.head ∙ k.head;
  tail = l.tail ∙ k.tail;
  state = l.state ∙ k.state;
  more = omega (arith, k.more, l.more);
}
