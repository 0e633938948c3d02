-- ===== src/Common/RingBuffer/Refine.antt =====
-- The ring buffer, called by one thread at a time, behaves as its queue.
use spead.Prelude.{
  ℕ, ◌+◌, ◌-◌, ◌<◌, ◌≡◌, refl, ap, subst, sym, ap₂, ◌≢◌, Bool, true, false, List, [], ◌∷◌, ◌++◌,
  some, if◌then◌else◌, arith, length, Bool-cases, inl, inr, length-append, ℕ_discrete, List-cases,
}
use spead.Common.RingBuffer.{
  Ringbuffer, ok, throws, make, try_push, try_pop, stop, ringbuffer_stopped, ringbuffer_full,
  ringbuffer_empty, stop_internal,
}
use spead.Common.RingBuffer.Slots.{
  Represents, make_base-Represents, emplaced, popped, emplaced-Represents, popped-Represents,
  head-value, Represents-marks,
}
use spead.Common.RingBuffer.Queue.{Queue, Call, pushes, pops, stops, Reply, pushed, done}
use spead.Common.RingBuffer.Queue

-- `extra` counts the calls of stop, each of which has raised both semaphores.
pub record Implements (A : Type 0) (r : Ringbuffer A) (q : Queue A) (extra : ℕ) : Type 0 where
  pub holds : Represents r.base q.items
  pub same_stopped : r.base.stopped ≡ q.is_stopped
  pub same_limit : r.base.cap ≡ q.limit + 1
  pub data_count : r.data_sem ≡ length q.items + extra
  pub space_count : r.space_sem + length q.items ≡ q.limit + extra
  pub running : q.is_stopped ≡ false → (extra ≡ 0) × (r.base.stop_position ≡ r.base.cap)
  pub stopping : q.is_stopped ≡ true → (0 < extra) × (r.base.stop_position ≡ r.base.tail)

module _ {A : Type 0} where
  pub make-Implements : (limit : ℕ) → Implements A (make limit) (Queue.fresh limit) 0
  unfolding make Queue.fresh
  make-Implements limit = record {
    holds = make_base-Represents limit;
    same_stopped = refl;
    same_limit = refl;
    data_count = refl;
    space_count = omega arith;
    running = λ _. (refl, refl);
    stopping = λ e. absurd (cc);
  }

module _ {A : Type 0} (r : Ringbuffer A) (q : Queue A) (extra : ℕ)
    (v : Implements A r q extra) where
  -- The two sides of one call: the same answer, and states that belong together again.
  abbrev Matches : {B : Type 0} → B × Ringbuffer A → B × Queue A → Type 0
  Matches x y = (x.0 ≡ y.0) × Implements A x.1 y.1 extra

  Implements-space : (n : ℕ) → n ≡ r.space_sem → Implements A (record r { space_sem = n }) q extra
  Implements-space n e = record {
    holds = v.holds;
    same_stopped = v.same_stopped;
    same_limit = v.same_limit;
    data_count = v.data_count;
    space_count = omega (arith, v.space_count);
    running = v.running;
    stopping = v.stopping;
  }

  Implements-data : (n : ℕ) → n ≡ r.data_sem → Implements A (record r { data_sem = n }) q extra
  Implements-data n e = record {
    holds = v.holds;
    same_stopped = v.same_stopped;
    same_limit = v.same_limit;
    data_count = omega (arith, v.data_count);
    space_count = v.space_count;
    running = v.running;
    stopping = v.stopping;
  }

  push_room : A → Ringbuffer A
  push_room x = record {
    base = emplaced r.base x;
    data_sem = r.data_sem + 1;
    space_sem = r.space_sem - 1;
  }

  push_room-Implements :
      (x : A)
      → q.is_stopped ≡ false
      → length q.items ≢ q.limit
      → Implements A (push_room x) (record q { items = q.items ++ x ∷ [] }) extra
  unfolding push_room
  push_room-Implements x run room =
      let none_extra = v.running run in
      let grown = length-append q.items (x ∷ []) in
      let small : length q.items < q.limit = omega (arith, v.space_count) in
      record {
        holds = emplaced-Represents r.base q.items v.holds x (omega (arith, v.same_limit));
        same_stopped = v.same_stopped;
        same_limit = v.same_limit;
        data_count = omega (arith, v.data_count, grown);
        space_count = omega (arith, v.space_count, grown);
        running = λ _. none_extra;
        stopping = λ e. absurd (cc);
      }

  by_steps :
      {B : Type 0} {x : B × Ringbuffer A} {y : B × Queue A} (b : B) (r' : Ringbuffer A)
      (q' : Queue A)
      → x ≡ (b, r')
      → y ≡ (b, q')
      → Implements A r' q' extra
      → Matches x y
  by_steps b r' q' e f i = rw (e, f) (refl, i)

  -- try_push answers as the queue does, and leaves the ring holding the queue's items.
  pub try_push-Matches :
      (interrupted : Bool) (x : A)
      → Matches (try_push interrupted r x) (Queue.try_push interrupted q x)
  unfolding try_push Queue.try_push push_room
  try_push-Matches true x = elim (Bool-cases q.is_stopped) [
    | inl stopped ↦
        by_steps (throws ringbuffer_stopped) r q (ground (arith, v.same_stopped)) (ground arith) v
    | inr run ↦
        by_steps (throws ringbuffer_full) r q (ground (arith, v.same_stopped)) (ground arith) v
  ]
  try_push-Matches false x = elim (Bool-cases q.is_stopped) [
    | inl stopped ↦
        let facts = v.stopping stopped in
        let token : 0 < r.space_sem = omega (arith, v.space_count, v.holds.room, v.same_limit) in
        by_steps (throws ringbuffer_stopped) (record r { space_sem = r.space_sem - 1 + 1 }) q
          (ground (arith, v.same_stopped)) (ground arith)
          (Implements-space (r.space_sem - 1 + 1) (omega arith))
    | inr run ↦ elim (ℕ_discrete (length q.items) q.limit) [
      | yes full ↦
          let facts = v.running run in
          by_steps (throws ringbuffer_full) r q (ground (arith, v.same_stopped, v.space_count))
            (ground arith) v
      | no room ↦
          by_steps (ok tt) (push_room x) (record q { items = q.items ++ x ∷ [] })
            (ground (arith, v.same_stopped, v.space_count, v.running run)) (ground arith)
            (push_room-Implements x run room)
    ]
  ]

  pop_rest : Ringbuffer A
  pop_rest = record { base = popped r.base; data_sem = r.data_sem - 1; space_sem = r.space_sem + 1 }

  pop_rest-Implements :
      (x : A) (rest : List A)
      → q.items ≡ x ∷ rest
      → Implements A pop_rest (record q { items = rest }) extra
  unfolding pop_rest
  pop_rest-Implements x rest e =
      let counted = ap length e in
      record {
        holds = popped-Represents r.base x rest (subst (Represents r.base) e v.holds);
        same_stopped = v.same_stopped;
        same_limit = v.same_limit;
        data_count = omega (arith, v.data_count, counted);
        space_count = omega (arith, v.space_count, counted);
        running = v.running;
        stopping = v.stopping;
      }

  -- A ring that holds something is not at its stop position.
  head_ne_stop : (x : A) (rest : List A) → q.items ≡ x ∷ rest → r.base.stop_position ≢ r.base.head
  head_ne_stop x rest e h = elim (Bool-cases q.is_stopped) [
    | inl stopped ↦
        ground
          (arith, ap length e, v.stopping stopped, v.holds.tail_at, v.holds.room, v.holds.head_in)
    | inr run ↦ omega (arith, v.running run, v.holds.head_in)
  ]

  -- Empty, its head is its tail.
  head-eq-tail : q.items ≡ [] → r.base.head ≡ r.base.tail
  head-eq-tail e = ground (arith, ap length e, v.holds.tail_at, v.holds.head_in)

  -- try_pop answers as the queue does: the oldest item, or the error that fits.
  pub try_pop-Matches :
      (interrupted : Bool) → Matches (try_pop interrupted r) (Queue.try_pop interrupted q)
  unfolding try_pop Queue.try_pop pop_rest
  try_pop-Matches true = elim (List-cases q.items) [
    | inl empty ↦ elim (Bool-cases q.is_stopped) [
      | inl stopped ↦
          by_steps (throws ringbuffer_stopped) r q
            (ground (arith, head-eq-tail empty, v.stopping stopped)) (ground arith) v
      | inr run ↦
          by_steps (throws ringbuffer_empty) r q (ground (arith, v.running run, v.holds.head_in))
            (ground arith) v
    ]
    | inr (x, rest, e) ↦
        by_steps (throws ringbuffer_empty) r q (ground (arith, head_ne_stop x rest e))
          (ground arith) v
  ]
  try_pop-Matches false = elim (List-cases q.items) [
    | inl empty ↦ elim (Bool-cases q.is_stopped) [
      | inl stopped ↦
          let facts = v.stopping stopped in
          by_steps (throws ringbuffer_stopped) (record r { data_sem = r.data_sem - 1 + 1 }) q
            (ground (arith, head-eq-tail empty, v.data_count, ap length empty)) (ground arith)
            (Implements-data (r.data_sem - 1 + 1) (omega (arith, v.data_count)))
      | inr run ↦
          by_steps (throws ringbuffer_empty) r q
            (ground (arith, v.running run, v.data_count, ap length empty, v.holds.head_in))
            (ground arith) v
    ]
    | inr (x, rest, e) ↦
        by_steps (ok (some x)) pop_rest (record q { items = rest })
          (ground (
            arith,
            head_ne_stop x rest e,
            v.data_count,
            ap length e,
            head-value r.base x rest (subst (Represents r.base) e v.holds),
          ))
          (ground arith) (pop_rest-Implements x rest e)
  ]

  -- stop marks the queue stopped, and leaves what it holds.
  pub stop-Implements : Implements A (stop r) (Queue.stop q) (extra + 1)
  unfolding stop Queue.stop
  stop-Implements = record {
    holds = stopped_holds;
    same_stopped = ground (arith, v.same_stopped);
    same_limit = ground (arith, v.same_limit);
    data_count = omega (arith, v.data_count);
    space_count = omega (arith, v.space_count);
    running = λ e. absurd (cc);
    stopping =
        λ _. (omega arith, ground (arith, Bool-cases q.is_stopped, v.stopping, v.same_stopped));
  }
    where
      marks : stop_internal r.base ≡ record (r.base) {
        stopped = true;
        stop_position = if r.base.stopped then r.base.stop_position else r.base.tail;
      }
      marks = ground arith

      stopped_holds : Represents (stop_internal r.base) q.items
      stopped_holds =
          subst (λ b. Represents b q.items) (sym marks)
            (Represents-marks r.base q.items _ _ v.holds)

-- The calls of one thread, on the ring buffer.
pub run : {A : Type 0} → Ringbuffer A → List (Call A) → List (Reply A)
run r [] = []
run r (pushes interrupted x ∷ calls) =
    let (b, r') = try_push interrupted r x in Reply.pushed b ∷ run r' calls
run r (pops interrupted ∷ calls) =
    let (b, r') = try_pop interrupted r in Reply.popped b ∷ run r' calls
run r (stops ∷ calls) = done ∷ run (stop r) calls

run-Matches :
    {A : Type 0} (r : Ringbuffer A) (q : Queue A) (extra : ℕ)
    → Implements A r q extra
    → (calls : List (Call A)) → run r calls ≡ Queue.run q calls
unfolding run Queue.run
run-Matches r q extra v [] = refl
run-Matches r q extra v (pushes i x ∷ calls) =
    let (same, w) = try_push-Matches r q extra v i x in
    ap₂ (λ b l. Reply.pushed b ∷ l) same
      (run-Matches (try_push i r x).1 (Queue.try_push i q x).1 extra w calls)
run-Matches r q extra v (pops i ∷ calls) =
    let (same, w) = try_pop-Matches r q extra v i in
    ap₂ (λ b l. Reply.popped b ∷ l) same
      (run-Matches (try_pop i r).1 (Queue.try_pop i q).1 extra w calls)
run-Matches r q extra v (stops ∷ calls) =
    ap (λ l. done ∷ l)
      (run-Matches (stop r) (Queue.stop q) (extra + 1) (stop-Implements r q extra v) calls)

-- Any calls of try_push, try_pop and stop, one at a time, on a new ring buffer of any capacity, any
-- of them interrupted by a signal, are answered as by the bounded queue: the same items in the same
-- order, and the same errors. An interrupted call changes nothing, and is answered as by a full
-- queue, or as by an empty one that is stopped only if it holds nothing.
pub run-make :
    {A : Type 0} (limit : ℕ) (calls : List (Call A))
    → run (make limit) calls ≡ Queue.run (Queue.fresh limit) calls
run-make limit calls = run-Matches (make limit) (Queue.fresh limit) 0 (make-Implements limit) calls
