-- ===== src/Send/Stream/Submitted.antt =====
-- What async_send_heap (include/spead2/send_stream.h) keeps, and every step.
use spead.Prelude.{
  ℕ, ◌+◌, ◌-◌, ◌<◌, ◌≡◌, inl, inr, refl, sym, ap, subst, ◌∙◌, false, List, [], ◌∷◌, ◌++◌, Option,
  none, some, ◌==◌, ltb, if◌then◌else◌, length, true≢false, set, bit_and, ◌^◌, ◌%◌, arith,
  Bool-cases, append_assoc, All-append, length-append,
}
use spead.Common.RingBuffer.{next}
use spead.Common.RingBuffer.Slots.{Represents, emplaced-Represents}
use spead.Send.Heap.{Heap}
use spead.Send.Generator.{one_if}
use spead.Send.Generator.Start.{one_if-le}
use spead.Send.Stream.{
  Code, would_block, invalid_argument, QueueItem, TransmitPacket, queued, StreamImpl, must_sleep,
  next_queue_slot,
}
use spead.Send.Stream.Machine.{is_empty, enqueue, Sent, refuse, async_send_heap, set_cnt_sequence}
use spead.Send.Stream.Queue.{ring}
use spead.Send.Stream.Batch.{Follow, cap_of, heaps, handlers, called}
use spead.Send.Stream.Loaded.{Sendable}
use spead.Send.Stream.Steps.{
  Phase, at_rest, due, in_flight, loading, System, submitted, Step, submit, renumber, wake, begin,
  transmit,
}
use spead.Send.Stream.Invariant.{CoreOf, Stage, Inv}
use spead.Send.Stream.Preserved.{Woken, do_next-Woken, Begun, start_sending-Begun, transmit-Inv}

-- More items behind these.
Follow-longer :
    (cap slot n m : ℕ) (packets : List TransmitPacket)
    → Follow cap slot n m packets
    → Follow cap slot (n + 1) m packets
Follow-longer cap slot n m [] f = f
Follow-longer cap slot n m (p ∷ packets) (own, some_left, last, rest) =
    let more : n - one_if p.last + 1 ≡ n + 1 - one_if p.last = omega (arith, one_if-le p.last) in
    (
      own,
      omega arith,
      last,
      subst (λ k. Follow cap (if p.last then next cap slot else slot) k (m - one_if p.last) packets)
          more
          (Follow-longer cap (if p.last then next cap slot else slot) (n - one_if p.last)
            (m - one_if p.last) packets rest),
    )

-- The queue with one item more, as async_send_heap leaves it.
abbrev enqueued : StreamImpl → QueueItem → StreamImpl
enqueued s it = record s {
  queue = set s.queue s.queue_tail (some it);
  queue_tail = next_queue_slot s s.queue_tail;
  state = if is_empty s.state then queued else s.state;
}

module _ (s : StreamImpl) (items : List QueueItem) (m : ℕ) (it : QueueItem) where
  grown : length (items ++ it ∷ []) ≡ length items + 1
  grown = length-append items (it ∷ [])

  still_busy : is_empty s.state ≡ false → (if is_empty s.state then queued else s.state) ≡ s.state
  still_busy e = rw e refl

  enqueued-Stage :
      (ph : Phase)
      → Stage ph s items m
      → Stage (if is_empty s.state then due else ph) (enqueued s it) (items ++ it ∷ []) m
  unfolding must_sleep
  enqueued-Stage at_rest (resting, nil, first) = elim (Bool-cases (is_empty s.state)) [
    | inl e ↦ rw e (refl, λ idle. absurd (cc), λ _. first)
    | inr e ↦ absurd (true≢false (sym (ap is_empty resting) ∙ e))
  ]
  enqueued-Stage due (busy, follow, first) =
      rw (busy, grown)
        (
          busy,
          λ on.
              Follow-longer (cap_of s) s.queue_head (length items) m s.current_packets (follow on),
          first,
        )
  enqueued-Stage in_flight (on, follow) =
      let busy : is_empty s.state ≡ false = rw on refl in
      rw (busy, grown)
        (on, Follow-longer (cap_of s) s.queue_head (length items) m s.current_packets follow)
  enqueued-Stage (loading tail) (on, first, awake, (t, at_tail, some_left, inside)) =
      let busy : is_empty s.state ≡ false = rw on refl in
      rw (busy, grown) (on, first, awake, (t, at_tail, some_left, omega arith))

  not_full :
      Represents (ring s) items
      → (next_queue_slot s s.queue_tail == s.queue_head) ≡ false
      → length items + 1 < cap_of s
  not_full v free = ground (arith, free, v.tail_at, v.room, v.head_in)

  heaps-append : (xs : List QueueItem) → heaps (xs ++ it ∷ []) ≡ heaps xs ++ it.heap ∷ []
  heaps-append [] = refl
  heaps-append (x ∷ xs) = ap (λ t. x.heap ∷ t) (heaps-append xs)

  handlers-append :
      (xs : List QueueItem) → handlers (xs ++ it ∷ []) ≡ handlers xs ++ it.handler ∷ []
  handlers-append [] = refl
  handlers-append (x ∷ xs) = ap (λ t. x.handler ∷ t) (handlers-append xs)

  enqueued-Core :
      CoreOf s items m
      → Sendable s.config.max_packet_size it.heap
      → (next_queue_slot s s.queue_tail == s.queue_head) ≡ false
      → CoreOf (enqueued s it) (items ++ it ∷ []) m
  unfolding next
  enqueued-Core v can free = record {
    holds = emplaced-Represents (ring s) items v.holds it (not_full v.holds free);
    within = omega (arith, grown, v.within);
    active_at = v.active_at;
    partial = λ g. omega (arith, grown, v.partial g);
    gen_next = v.gen_next;
    sendable = rw (heaps-append items) (
        All-append (Sendable s.config.max_packet_size) (heaps items) (it.heap ∷ []) v.sendable
          (can, tt));
    some_burst = v.some_burst;
    some_packets = v.some_packets;
  }

renumbered-Stage :
    (ph : Phase) (s : StreamImpl) (items : List QueueItem) (m a b : ℕ)
    → Stage ph s items m
    → Stage ph (record s { next_cnt = a; step_cnt = b }) items m
unfolding must_sleep
renumbered-Stage at_rest s items m a b g = g
renumbered-Stage due s items m a b g = g
renumbered-Stage in_flight s items m a b g = g
renumbered-Stage (loading tail) s items m a b g = g

abbrev renumbered : System → ℕ → ℕ → System
renumbered y a b = record y { stream = record y.stream { next_cnt = a; step_cnt = b } }

renumbered-Inv : (y : System) (a b : ℕ) → Inv y → Inv (renumbered y a b)
renumbered-Inv y a b v = record {
  items = v.items;
  m = v.m;
  core = v.core;
  stage = renumbered-Stage y.phase y.stream v.items v.m a b v.stage;
  order = v.order;
}

-- A heap that is queued.
enqueue-Inv :
    (y : System) (h : Heap) (cnt handler : ℕ)
    → Inv y
    → Sendable y.stream.config.max_packet_size h
    → (next_queue_slot y.stream y.stream.queue_tail == y.stream.queue_head) ≡ false
    → Inv (submitted y handler (enqueue h cnt handler y.stream))
unfolding enqueue
enqueue-Inv y h cnt handler v can free =
    let it : QueueItem = record { heap = h; cnt = cnt; handler = handler; bytes_sent = 0 } in
    record {
      items = v.items ++ it ∷ [];
      m = v.m;
      core = enqueued-Core y.stream v.items v.m it v.core can free;
      stage = enqueued-Stage y.stream v.items v.m it y.phase v.stage;
      order =
          ap (λ t. t ++ handler ∷ []) v.order
          ∙ append_assoc (called y.completed) (handlers v.items) (handler ∷ [])
          ∙ ap (λ t. called y.completed ++ t)
              (sym (handlers-append y.stream v.items v.m it v.items));
    }

-- The three ends of async_send_heap.
async_send_heap_cases :
    (P : Sent × StreamImpl → Type 0) (h : Heap) (handler : ℕ) (cnt : Option ℕ) (s : StreamImpl)
    → ((code : Code) → P (refuse handler code, s))
    → ((next_queue_slot s s.queue_tail == s.queue_head) ≡ false
        → (number next_cnt : ℕ)
        → P (enqueue h number handler (record s { next_cnt = next_cnt; step_cnt = s.step_cnt })))
    → P (async_send_heap h handler cnt s)
unfolding async_send_heap
async_send_heap_cases P h handler none s bad good =
    elim (Bool-cases (next_queue_slot s s.queue_tail == s.queue_head)) [
      | inl full ↦ rw full (bad would_block)
      | inr free ↦ rw free (
          good free (bit_and s.next_cnt (2 ^ h.heap_address_bits - 1))
            ((s.next_cnt + s.step_cnt) % 2 ^ 64))
    ]
async_send_heap_cases P h handler (some cnt) s bad good =
    elim (Bool-cases (next_queue_slot s s.queue_tail == s.queue_head)) [
      | inl full ↦ rw full (bad would_block)
      | inr free ↦ elim (Bool-cases (ltb (2 ^ h.heap_address_bits - 1) cnt)) [
        | inl large ↦ rw (free, large) (bad invalid_argument)
        | inr small ↦ rw (free, small) (good free cnt s.next_cnt)
      ]
    ]

submit-Inv :
    (y : System) (h : Heap) (handler : ℕ) (cnt : Option ℕ)
    → Inv y
    → Sendable y.stream.config.max_packet_size h
    → Inv (submitted y handler (async_send_heap h handler cnt y.stream))
submit-Inv y h handler cnt v can =
    async_send_heap_cases (λ r. Inv (submitted y handler r)) h handler cnt y.stream
      (λ code. record { items = v.items; m = v.m; core = v.core; stage = v.stage; order = v.order })
      (λ free number next_cnt.
        enqueue-Inv (renumbered y next_cnt y.stream.step_cnt) h number handler
          (renumbered-Inv y next_cnt y.stream.step_cnt v) can free)

set_cnt_sequence_made :
    (next step : ℕ) (s s' : StreamImpl)
    → set_cnt_sequence next step s ≡ some s'
    → s' ≡ record s { next_cnt = next; step_cnt = step }
unfolding set_cnt_sequence
set_cnt_sequence_made next step s s' e = elim (Bool-cases (step == 0)) [
  | inl zero_step ↦ absurd (ground (arith, e, zero_step))
  | inr good ↦ ground (arith, e, good)
]

pub Step-Inv : {y z : System} → Step y z → Inv y → Inv z
Step-Inv (submit y h handler cnt can) v = submit-Inv y h handler cnt v can
Step-Inv (renumber y next step s' e) v =
    subst (λ t. Inv (record y { stream = t })) (sym (set_cnt_sequence_made next step y.stream s' e))
      (renumbered-Inv y next step v)
Step-Inv (wake y empty_now now posted next s' waiting e) v =
    subst (Woken y) e (do_next-Woken y empty_now now v waiting)
Step-Inv (begin y tail s' waiting e) v = subst (Begun y) e (start_sending-Begun y tail v waiting)
Step-Inv (transmit y results waiting) v = transmit-Inv y results v waiting
