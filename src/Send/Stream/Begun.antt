-- ===== src/Send/Stream/Begun.antt =====
-- The loop of load_packets (src/send_stream.cpp), which ends with packets to send.
use spead.Prelude.{
  ℕ, zero, suc, ◌-◌, ◌≤◌, ◌<◌, ◌≡◌, ◌≢◌, inl, inr, refl, sym, ap, ◌∙◌, true, false, List, [], some,
  ◌==◌, ◌||◌, length, eq→==, ne→==, arith, Bool-cases, List-cases, ℕ_discrete,
}
use spead.Common.RingBuffer.Slots.{place, place_injective}
use spead.Send.Stream.{QueueItem, StreamImpl, must_sleep}
use spead.Send.Stream.Load.{load_packet, load_more, load_packets, start_sending}
use spead.Send.Stream.Batch.{cap_of}
use spead.Send.Stream.Loaded.{Loading, SameQueue}
use spead.Send.Stream.Packet.{load_packet-Loading, SameQueue-refl, SameQueue-trans}

load_more-stop :
    (tail n : ℕ) (s : StreamImpl)
    → (must_sleep s || s.active == tail) ≡ true
    → load_more tail (suc n) s ≡ some s
unfolding load_more
load_more-stop tail n s stop = rw (stop, load_more) refl

load_more-go :
    (tail n : ℕ) (s s' : StreamImpl)
    → (must_sleep s || s.active == tail) ≡ false
    → load_packet s ≡ some s'
    → load_more tail (suc n) s ≡ load_more tail n s'
unfolding load_more
load_more-go tail n s s' go e = rw (go, load_more) (rw e refl)

module _ (s : StreamImpl) (items : List QueueItem) (m t : ℕ) (v : Loading s items m) (tail : ℕ)
    (at_tail : tail ≡ place (cap_of s) s.queue_head t) (inside : t ≤ length items) where
  -- The test of the loop tells whether `m` items of `t` are loaded.
  before-tail : m ≤ t → (must_sleep s || s.active == tail) ≡ false → m < t
  before-tail le go = elim (ℕ_discrete m t) [
    | yes e ↦
        let there : s.active ≡ tail =
          v.active_at ∙ ap (place (cap_of s) s.queue_head) e ∙ sym at_tail in
        absurd (ground (arith, go, eq→== s.active tail there))
    | no e ↦ omega arith
  ]

  active-ne-tail : m < t → s.active ≢ tail
  active-ne-tail less e =
      place_injective (cap_of s) s.queue_head m t v.holds.head_in (omega (arith, v.holds.room))
        (omega (arith, v.holds.room)) (omega arith) (sym v.active_at ∙ e ∙ at_tail)

same_place :
    (s s' : StreamImpl) (tail t : ℕ)
    → SameQueue s s'
    → tail ≡ place (cap_of s) s.queue_head t
    → tail ≡ place (cap_of s') s'.queue_head t
same_place s s' tail t same e = rw (same.config, same.head) e

-- The loop stops at `tail`, the place after `t` items.
load_more-Loading :
    (tail n : ℕ) (s : StreamImpl) (items : List QueueItem) (m t : ℕ)
    → Loading s items m
    → tail ≡ place (cap_of s) s.queue_head t
    → t ≤ length items
    → m ≤ t
    → (s' : StreamImpl) × (m' : ℕ) × (load_more tail n s ≡ some s')
      × Loading s' items m'
      × SameQueue s s'
unfolding load_more
load_more-Loading tail zero s items m t v at_tail inside before = (s, m, refl, v, SameQueue-refl s)
load_more-Loading tail (suc n) s items m t v at_tail inside before =
    elim (Bool-cases (must_sleep s || s.active == tail)) [
      | inl stop ↦ (s, m, load_more-stop tail n s stop, v, SameQueue-refl s)
      | inr go ↦
          let less = before-tail s items m t v tail at_tail inside before go in
          let (s', m', e, v', same, longer, step) = load_packet-Loading s items m v (omega arith) in
          let (s'', m'', e', v'', same') =
            load_more-Loading tail n s' items m' t v' (same_place s s' tail t same at_tail) inside
              (omega arith) in
          (s'', m'', load_more-go tail n s s' go e ∙ e', v'', SameQueue-trans s s' s'' same same')
    ]

some_packets :
    (tail : ℕ) (s s' : StreamImpl)
    → load_packets tail s ≡ some s'
    → 0 < length s'.current_packets
    → start_sending tail s ≡ some s'
unfolding start_sending
some_packets tail s s' e more = elim (List-cases s'.current_packets) [
  | inl nil ↦ absurd (omega (arith, ap length nil))
  | inr (p, packets, e') ↦ ground (arith, e, e')
]

-- do_next finds something to send, and then the asserts and the constructor of packet_generator hold.
pub start_sending-Loading :
    (tail : ℕ) (s : StreamImpl) (items : List QueueItem) (t : ℕ)
    → Loading (record s { current_packets = [] }) items 0
    → tail ≡ place (cap_of s) s.queue_head t
    → t ≤ length items
    → 0 < t
    → 0 < s.max_current_packets
    → must_sleep s ≡ false
    → (s' : StreamImpl) × (m : ℕ) × (start_sending tail s ≡ some s')
      × Loading s' items m
      × SameQueue (record s { current_packets = [] }) s'
unfolding load_packets must_sleep
start_sending-Loading tail s items t v at_tail inside some_left most awake =
    let start = record s { current_packets = [] } in
    let n = s.max_current_packets - 1 in
    let whole : s.max_current_packets ≡ suc n = omega arith in
    let here =
      ne→== s.active tail (active-ne-tail start items 0 t v tail at_tail inside some_left) in
    let go : (must_sleep start || start.active == tail) ≡ false = rw (awake, here) refl in
    let (s', m, e, v', same, longer, step) = load_packet-Loading start items 0 v (omega arith) in
    let (s'', m', e', v'', same') =
      load_more-Loading tail n s' items m t v' (same_place start s' tail t same at_tail) inside
        (omega arith) in
    let made : load_packets tail s ≡ some s'' =
      ap (λ k. load_more tail k start) whole ∙ load_more-go tail n start s' go e ∙ e' in
    (
      s'',
      m',
      some_packets tail s s'' made (omega (arith, same'.more)),
      v'',
      SameQueue-trans start s' s'' same same',
    )
