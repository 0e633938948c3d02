-- ===== src/Send/Stream/Safety.antt =====
-- What a sending stream promises its users.
use spead.Prelude.{
  ℕ, zero, suc, ◌-◌, ◌^◌, ◌<◌, ◌≡◌, ◌≢◌, inl, inr, refl, sym, ap, subst, ◌∙◌, Bool, true, false,
  ◌&&◌, not, List, [], ◌∷◌, ◌++◌, Option, none, some, ◌==◌, ltb, leb, if◌then◌else◌, length, arith,
  Bool-cases, append-nil, true≢false,
}
use spead.Common.RingBuffer.{make_base}
use spead.Common.RingBuffer.Slots.{Represents, make_base-Represents, Represents-marks}
use spead.Send.Heap.{Heap}
use spead.Send.Stream.{
  State, queued, sending, sleeping, empty, Config, QueueItem, Completion, StreamImpl,
  stream_impl_base, must_sleep, next_queue_slot, would_block, invalid_argument,
}
use spead.Send.Stream.Load.{load_more, load_packets, start_sending}
use spead.Send.Stream.Machine.{Next, do_next, is_empty, flush_returns, async_send_heap, enqueue}
use spead.Send.Stream.Queue.{ring}
use spead.Send.Stream.Batch.{handlers, called}
use spead.Send.Stream.Steps.{
  Phase, at_rest, due, in_flight, loading, System, fresh_system, Reach, here, after,
}
use spead.Send.Stream.Invariant.{Stage, Inv}
use spead.Send.Stream.Preserved.{Woken, do_next-Woken, Begun, start_sending-Begun}
use spead.Send.Stream.Submitted.{Step-Inv}

fresh-Inv :
    (config : Config) (most : ℕ) → 0 < config.burst_size → 0 < most → Inv (fresh_system config most)
unfolding stream_impl_base make_base
fresh-Inv config most burst packets = record {
  items = [];
  m = 0;
  core = record {
    holds =
        Represents-marks (make_base config.max_heaps) [] false 0
          (make_base-Represents config.max_heaps);
    within = omega arith;
    active_at = ground arith;
    partial = λ e. absurd (cc);
    gen_next = λ g e. absurd (cc);
    sendable = tt;
    some_burst = burst;
    some_packets = packets;
  };
  stage = (refl, refl, refl);
  order = refl;
}

Reach-Inv : {x y : System} → Inv x → Reach x y → Inv y
Reach-Inv v here = v
Reach-Inv v (after r s) = Step-Inv s (Reach-Inv v r)

module _ (config : Config) (most : ℕ) (burst : 0 < config.burst_size) (packets : 0 < most)
    (y : System) (r : Reach (fresh_system config most) y) where
  valid : Inv y
  valid = Reach-Inv (fresh-Inv config most burst packets) r

  -- For a positive burst size and at least one packet at a time, and after any steps from a new
  -- stream, with only heaps submitted whose packets packet_generator makes without fail: the
  -- handlers of the heaps that async_send_heap took have been posted in the order of the heaps,
  -- each of them once, except those of the heaps in the circular queue, which are the latest and
  -- stand in it in their order.
  pub in_order :
      (items : List QueueItem) × Represents (ring y.stream) items
      × (y.accepted ≡ called y.completed ++ handlers items)
  in_order = (valid.items, valid.core.holds, valid.order)

  -- Under the same conditions: where a call of do_next is due, it fails no assert, uses no queue
  -- slot without an item and throws nothing, whatever the clock shows; and neither does the
  -- loading of packets that follows it, which finds a packet to send.
  pub never_stuck :
      (y.phase ≡ due
        → (empty_now now : ℕ)
        → (result : List Completion × Next × StreamImpl) × (do_next empty_now now y.stream
            ≡ some result))
      × ((tail : ℕ)
          → y.phase ≡ loading tail
          → (s : StreamImpl) × (start_sending tail y.stream ≡ some s))
  never_stuck = (
    λ waiting empty_now now.
        some_woken (do_next empty_now now y.stream) refl
          (do_next-Woken y empty_now now valid waiting),
    λ tail waiting.
        some_begun (start_sending tail y.stream) refl (start_sending-Begun y tail valid waiting),
  )
    where
      some_woken :
          (o : Option (List Completion × Next × StreamImpl))
          → {x : Option (List Completion × Next × StreamImpl)} → x ≡ o
          → Woken y o
          → (result : List Completion × Next × StreamImpl) × (x ≡ some result)
      some_woken none e w = absurd w
      some_woken (some result) e w = (result, e)

      some_begun :
          (o : Option StreamImpl)
          → {x : Option StreamImpl} → x ≡ o
          → Begun y o
          → (s : StreamImpl) × (x ≡ some s)
      some_begun none e w = absurd w
      some_begun (some s) e w = (s, e)

  Stage-cases :
      (ph : Phase) (s : StreamImpl) (items : List QueueItem) (m : ℕ)
      → Stage ph s items m
      → is_empty s.state ≡ true
      → (ph ≡ at_rest) × (items ≡ [])
  Stage-cases at_rest s items m (e, nil, z) quiet = (refl, nil)
  Stage-cases due s items m (busy, f, z) quiet = absurd (true≢false (sym quiet ∙ busy))
  Stage-cases in_flight s items m (on, f) quiet = absurd (true≢false (sym quiet ∙ ap is_empty on))
  Stage-cases (loading tail) s items m (on, f, a, t) quiet =
      absurd (true≢false (sym quiet ∙ ap is_empty on))

  -- Under the same conditions: flush returns only when nothing is pending and the handler of every
  -- heap that async_send_heap took has been posted; and while it waits, a call of do_next, the
  -- loading of packets or a transmission is pending.
  pub flush_lem :
      (flush_returns y.stream ≡ true → (y.phase ≡ at_rest) × (y.accepted ≡ called y.completed))
      × (flush_returns y.stream ≡ false → y.phase ≢ at_rest)
  flush_lem = (
    λ quiet.
        let (rest, nil) = Stage-cases y.phase y.stream valid.items valid.m valid.stage quiet in
        (
          rest,
          valid.order
              ∙ ap (λ its. called y.completed ++ handlers its) nil
              ∙ append-nil (called y.completed),
        ),
    λ busy rest.
        let (e, _, _) = subst (λ ph. Stage ph y.stream valid.items valid.m) rest valid.stage in
        true≢false (sym (ap is_empty e) ∙ busy),
  )

tired : (s : StreamImpl) → s.config.burst_size ≡ 0 → must_sleep s ≡ true
unfolding must_sleep
tired s zero_burst = ground arith

nothing_loaded : (tail n : ℕ) (s : StreamImpl) → must_sleep s ≡ true → load_more tail n s ≡ some s
unfolding load_more
nothing_loaded tail zero s sleepy = refl
nothing_loaded tail (suc n) s sleepy = ground (arith, sleepy)

nothing_sent :
    (tail : ℕ) (s s' : StreamImpl)
    → load_packets tail s ≡ some s'
    → s'.current_packets ≡ []
    → start_sending tail s ≡ none
unfolding start_sending
nothing_sent tail s s' e nil = ground (arith, e, nil)

-- With a burst size of 0, which set_burst_size takes, loading packets leaves none to send for any
-- stream and any tail: the assert on n_current_packets fails.
pub no_burst : (tail : ℕ) (s : StreamImpl) → s.config.burst_size ≡ 0 → start_sending tail s ≡ none
unfolding load_packets
no_burst tail s zero_burst =
    let s' = record s { current_packets = [] } in
    nothing_sent tail s s' (nothing_loaded tail s.max_current_packets s' (tired s' zero_burst)) refl

-- Whether a heap cnt that is given fits.
abbrev pub in_range : Heap → Option ℕ → Bool
in_range h none = true
in_range h (some cnt) = leb cnt (2 ^ h.heap_address_bits - 1)

not_empty : (st : State) → is_empty (if is_empty st then queued else st) ≡ false
not_empty queued = refl
not_empty sending = refl
not_empty sleeping = refl
not_empty empty = refl

full_test :
    (s : StreamImpl) (items : List QueueItem)
    → Represents (ring s) items
    → (next_queue_slot s s.queue_tail == s.queue_head) ≡ not (ltb (length items) s.config.max_heaps)
full_test s items v = ground (arith, v.tail_at, v.room, v.head_in)

-- Where the circular queue holds some items: async_send_heap takes a heap just when these are less
-- than max_heaps and the heap cnt, if one is given, fits the address bits. If it refuses the heap,
-- the stream stays as it is, nothing is dispatched, and only the handler is posted, with
-- no bytes and would_block if there is no room, and invalid_argument if there is. If it takes the heap,
-- nothing is posted, do_next is dispatched just when the stream was empty, and the stream is not
-- empty then.
pub async_send_heap_lem :
    (h : Heap) (handler : ℕ) (cnt : Option ℕ) (s : StreamImpl) (items : List QueueItem)
    → Represents (ring s) items
    → let r = async_send_heap h handler cnt s in
      (r.0.accepted ≡ (ltb (length items) s.config.max_heaps && in_range h cnt))
      × (r.0.accepted ≡ false
          → (r.1 ≡ s)
            × (r.0.dispatched ≡ false)
            × (r.0.posted
                ≡ record {
                  handler = handler;
                  result =
                      if ltb (length items) s.config.max_heaps
                      then invalid_argument
                      else would_block;
                  bytes_transferred = 0;
                }
                  ∷ []))
      × (r.0.accepted ≡ true
          → (r.0.posted ≡ []) × (r.0.dispatched ≡ is_empty s.state) × (is_empty r.1.state ≡ false))
unfolding async_send_heap enqueue
async_send_heap_lem h handler none s items v =
    let full = full_test s items v in
    elim (Bool-cases (ltb (length items) s.config.max_heaps)) [
      | inl room ↦
          rw (full, room) (refl, λ e. absurd (true≢false e), λ _. (refl, refl, not_empty s.state))
      | inr none_left ↦
          rw (full, none_left) (refl, λ _. (refl, refl, refl), λ e. absurd (true≢false (sym e)))
    ]
async_send_heap_lem h handler (some cnt) s items v =
    let full = full_test s items v in
    elim (Bool-cases (ltb (length items) s.config.max_heaps)) [
      | inl room ↦ elim (Bool-cases (leb cnt (2 ^ h.heap_address_bits - 1))) [
        | inl fits ↦
            let small : ltb (2 ^ h.heap_address_bits - 1) cnt ≡ false = ground arith in
            rw (full, room, fits, small)
              (refl, λ e. absurd (true≢false e), λ _. (refl, refl, not_empty s.state))
        | inr large ↦
            let large' : ltb (2 ^ h.heap_address_bits - 1) cnt ≡ true = ground arith in
            rw (full, room, large, large')
              (refl, λ _. (refl, refl, refl), λ e. absurd (true≢false (sym e)))
      ]
      | inr none_left ↦
          rw (full, none_left) (refl, λ _. (refl, refl, refl), λ e. absurd (true≢false (sym e)))
    ]
