-- ===== src/Send/Stream/Invariant.antt =====
-- The invariant of a sending stream between the steps.
use spead.Prelude.{
  ℕ, zero, suc, ◌≤◌, ◌<◌, ◌≡◌, ◌≢◌, ◌⊎◌, inl, inr, refl, sym, subst, ◌∙◌, Bool, true, false, List,
  [], ◌∷◌, ◌++◌, Option, some, ◌==◌, ltb, length, drop, eq→==, ne→==, arith, is_some, Bool-cases,
  All,
}
use spead.Common.RingBuffer.{Base, next}
use spead.Common.RingBuffer.Slots.{Represents, place}
use spead.Send.Generator.{Generator}
use spead.Send.Stream.{
  Config, QueueItem, State, queued, sending, sleeping, empty, Completion, StreamImpl, must_sleep,
  process_packets, process_results, update_send_times, update_send_time_empty,
}
use spead.Send.Stream.Machine.{Next, wait_until, idle, load, settle, choose, schedule, is_empty}
use spead.Send.Stream.Queue.{ring}
use spead.Send.Stream.Batch.{Follow, cap_of, heaps, handlers, called}
use spead.Send.Stream.Settle.{process_packets-Settled}
use spead.Send.Stream.Loaded.{Sendable, HasNext}
use spead.Send.Stream.Steps.{Phase, at_rest, due, in_flight, loading, System, phase_after}

-- The queue holds `items`, of which the first `m` are loaded.
pub record Core (r : Base QueueItem) (active : ℕ) (gen : Option Generator) (config : Config)
    (most : ℕ) (items : List QueueItem) (m : ℕ) : Type 0 where
  pub holds : Represents r items
  pub within : m ≤ length items
  pub active_at : active ≡ place r.cap r.head m
  pub partial : is_some gen ≡ true → m < length items
  pub gen_next : (g : Generator) → gen ≡ some g → HasNext g
  pub sendable : All (Sendable config.max_packet_size) (heaps items)
  pub some_burst : 0 < config.burst_size
  pub some_packets : 0 < most

abbrev pub CoreOf : StreamImpl → List QueueItem → ℕ → Type 0
CoreOf s items m = Core (ring s) s.active s.gen s.config s.max_current_packets items m

abbrev pub is_sending : State → Bool
is_sending sending = true
is_sending queued = false
is_sending sleeping = false
is_sending empty = false

-- What each phase adds.
abbrev pub Stage : Phase → StreamImpl → List QueueItem → ℕ → Type 0
Stage at_rest s items m = (s.state ≡ empty) × (items ≡ []) × (m ≡ 0)
Stage due s items m =
    (is_empty s.state ≡ false)
    × (is_sending s.state ≡ true
        → Follow (cap_of s) s.queue_head (length items) m s.current_packets)
    × (is_sending s.state ≡ false → m ≡ 0)
Stage in_flight s items m =
    (s.state ≡ sending) × Follow (cap_of s) s.queue_head (length items) m s.current_packets
Stage (loading tail) s items m =
    (s.state ≡ sending)
    × (m ≡ 0)
    × (must_sleep s ≡ false)
    × ((t : ℕ) × (tail ≡ place (cap_of s) s.queue_head t) × (0 < t) × (t ≤ length items))

pub record Inv (y : System) : Type 0 where
  pub items : List QueueItem
  pub m : ℕ
  pub core : CoreOf y.stream items m
  pub stage : Stage y.phase y.stream items m
  pub order : y.accepted ≡ called y.completed ++ handlers items

All-drop {ℓ κ} : {A : Type ℓ} (P : A → Type κ) (n : ℕ) (xs : List A) → All P xs → All P (drop n xs)
All-drop P zero xs all = all
All-drop P (suc n) [] all = all
All-drop P (suc n) (x ∷ xs) all = All-drop P n xs all.1

place-ne-head : (cap head k : ℕ) → head < cap → 0 < k → k < cap → head ≢ place cap head k
place-ne-head cap head k h p l = ground arith

place-zero-head : (cap head : ℕ) → head < cap → place cap head 0 ≡ head
place-zero-head cap head h = ground arith

-- Once the results are applied: no packets are pending, and `active` is the first item.
pub record Calm (s s' : StreamImpl) (items left : List QueueItem) (posted : List Completion)
    : Type 0 where
  pub core : CoreOf s' left 0
  pub order : called posted ++ handlers left ≡ handlers items

settle_sending :
    (now : ℕ) (s s' : StreamImpl) (posted : List Completion)
    → s.state ≡ sending
    → process_packets s.current_packets s ≡ some (posted, s')
    → settle now s ≡ some (posted, record s' { current_packets = [] })
unfolding settle process_results
settle_sending now s s' posted e e' = rw (e, settle) (rw (e', process_results) refl)

module _ (s : StreamImpl) (items : List QueueItem) (m : ℕ) (v : CoreOf s items m) where
  settle-sending :
      (now : ℕ)
      → s.state ≡ sending
      → Follow (cap_of s) s.queue_head (length items) m s.current_packets
      → (posted : List Completion) × (s' : StreamImpl) × (left : List QueueItem) × (settle now s
          ≡ some (posted, s'))
        × Calm s s' items left posted
  settle-sending now e follow =
      let r = process_packets-Settled s items m v.holds v.within v.active_at v.partial follow in
      let s' = r.after in
      (
        r.posted,
        record s' { current_packets = [] },
        r.left,
        settle_sending now s s' r.posted e r.made,
        record {
          core = record {
            holds = r.holds;
            within = omega arith;
            active_at = r.first ∙ sym (place-zero-head (cap_of s') s'.queue_head r.holds.head_in);
            partial = r.partial;
            gen_next = λ g here. elim r.kept.gen [
              | inl same ↦ v.gen_next g (sym same ∙ here)
              | inr gone ↦ absurd (cc)
            ];
            sendable =
                rw (r.kept.config, r.same_heaps)
                  (All-drop (Sendable s.config.max_packet_size) (length r.posted) (heaps items)
                    v.sendable);
            some_burst = rw r.kept.config v.some_burst;
            some_packets = rw r.kept.most v.some_packets;
          };
          order = r.order;
        },
      )

State-cases :
    (st : State)
    → (is_sending st ≡ true) ⊎ ((st ≡ queued) ⊎ (is_sending st ≡ false) × (st ≢ queued))
State-cases queued = inr (inl refl)
State-cases sending = inl refl
State-cases sleeping = inr (inr (refl, λ e. absurd (cc)))
State-cases empty = inr (inr (refl, λ e. absurd (cc)))

pub sending-eq : (st : State) → is_sending st ≡ true → st ≡ sending
sending-eq sending e = refl
sending-eq queued e = absurd (cc)
sending-eq sleeping e = absurd (cc)
sending-eq empty e = absurd (cc)

settle_queued :
    (now : ℕ) (s : StreamImpl)
    → s.state ≡ queued
    → settle now s ≡ some ([], update_send_time_empty now s)
unfolding settle
settle_queued now s e = ground (arith, e)

settle_still :
    (now : ℕ) (s : StreamImpl) (st : State)
    → s.state ≡ st
    → is_sending st ≡ false
    → st ≢ queued
    → settle now s ≡ some ([], s)
unfolding settle
settle_still now s queued e a b = absurd (b refl)
settle_still now s sending e a b = absurd (cc)
settle_still now s sleeping e a b = ground (arith, e)
settle_still now s empty e a b = ground (arith, e)

module _ (s : StreamImpl) (items : List QueueItem) (m : ℕ) (v : CoreOf s items m)
    (follow : is_sending s.state ≡ true
      → Follow (cap_of s) s.queue_head (length items) m s.current_packets)
    (none_loaded : is_sending s.state ≡ false → m ≡ 0) where
  pub settled :
      (now : ℕ)
      → (posted : List Completion) × (s' : StreamImpl) × (left : List QueueItem) × (settle now s
          ≡ some (posted, s'))
        × Calm s s' items left posted
  unfolding update_send_time_empty
  settled now = elim (State-cases s.state) [
    | inl busy ↦ settle-sending s items m v now (sending-eq s.state busy) (follow busy)
    | inr (inl new) ↦
        let quiet : is_sending s.state ≡ false = rw new refl in
        (
          [],
          update_send_time_empty now s,
          items,
          settle_queued now s new,
          record { core = at_first (none_loaded quiet); order = refl },
        )
    | inr (inr (quiet, other)) ↦ (
      [],
      s,
      items,
      settle_still now s s.state refl quiet other,
      record { core = at_first (none_loaded quiet); order = refl },
    )
  ]
    where
      at_first : m ≡ 0 → CoreOf s items 0
      at_first e = subst (λ k. CoreOf s items k) e v

-- What follows is as the phase after it says.
pub record Chosen (s s' : StreamImpl) (next : Next) (items : List QueueItem) : Type 0 where
  pub core : CoreOf s' items 0
  pub stage : Stage (phase_after next) s' items 0

choose-idle :
    (s : StreamImpl)
    → (s.queue_head == s.queue_tail) ≡ true
    → choose s ≡ (idle, record s { state = empty })
unfolding choose
choose-idle s e = rw e refl

choose-load :
    (s : StreamImpl)
    → (s.queue_head == s.queue_tail) ≡ false
    → choose s ≡ (load s.queue_tail, record s { state = sending })
unfolding choose
choose-load s e = rw e refl

chosen :
    (s : StreamImpl) (items : List QueueItem)
    → CoreOf s items 0
    → must_sleep s ≡ false
    → (next : Next) × (s' : StreamImpl) × (choose s ≡ (next, s')) × Chosen s s' next items
unfolding must_sleep
chosen s [] v awake =
    let here : (s.queue_head == s.queue_tail) ≡ true =
      eq→== s.queue_head s.queue_tail
        (sym (v.holds.tail_at ∙ place-zero-head (cap_of s) s.queue_head v.holds.head_in)) in
    (
      idle,
      record s { state = empty },
      choose-idle s here,
      record { core = v; stage = (refl, refl, refl) },
    )
chosen s (it ∷ items) v awake =
    let more : (s.queue_head == s.queue_tail) ≡ false = ne→== s.queue_head s.queue_tail (λ e.
      place-ne-head (cap_of s) s.queue_head (suc (length items)) v.holds.head_in (omega arith)
        v.holds.room (e ∙ v.holds.tail_at)) in
    (
      load s.queue_tail,
      record s { state = sending },
      choose-load s more,
      record {
        core = v;
        stage =
            (refl, refl, awake, (suc (length items), v.holds.tail_at, omega arith, omega arith));
      },
    )

schedule-awake : (now : ℕ) (s : StreamImpl) → must_sleep s ≡ false → schedule now s ≡ choose s
unfolding schedule
schedule-awake now s awake = rw awake refl

schedule-sleep :
    (now : ℕ) (s : StreamImpl)
    → must_sleep s ≡ true
    → ltb now (update_send_times now s).0 ≡ true
    → schedule now s ≡ (
      wait_until (update_send_times now s).0,
      record (update_send_times now s).1 { state = sleeping },
    )
unfolding schedule
schedule-sleep now s tired early = rw (tired, early) refl

schedule-late :
    (now : ℕ) (s : StreamImpl)
    → must_sleep s ≡ true
    → ltb now (update_send_times now s).0 ≡ false
    → schedule now s ≡ choose (update_send_times now s).1
unfolding schedule
schedule-late now s tired late = rw (tired, late) refl

rested :
    (now : ℕ) (s : StreamImpl)
    → 0 < s.config.burst_size
    → must_sleep (update_send_times now s).1 ≡ false
unfolding must_sleep update_send_times
rested now s burst = ground arith

pub scheduled :
    (now : ℕ) (s : StreamImpl) (items : List QueueItem)
    → CoreOf s items 0
    → (next : Next) × (s' : StreamImpl) × (schedule now s ≡ (next, s')) × Chosen s s' next items
unfolding update_send_times
scheduled now s items v = elim (Bool-cases (must_sleep s)) [
  | inr awake ↦
      let (next, s', e, c) = chosen s items v awake in
      (next, s', schedule-awake now s awake ∙ e, record { core = c.core; stage = c.stage })
  | inl tired ↦ elim (Bool-cases (ltb now (update_send_times now s).0)) [
    | inl early ↦ (
      wait_until (update_send_times now s).0,
      record (update_send_times now s).1 { state = sleeping },
      schedule-sleep now s tired early,
      record { core = v; stage = (refl, λ e. absurd (cc), λ _. refl) },
    )
    | inr late ↦
        let s1 = (update_send_times now s).1 in
        let (next, s', e, c) = chosen s1 items v (rested now s v.some_burst) in
        (next, s', schedule-late now s tired late ∙ e, record { core = c.core; stage = c.stage })
  ]
]
