-- ===== src/Common/RingBuffer/Threads/Safety.antt =====
-- What the threads can rely on, and the race of two overlapping calls of stop.
use spead.Prelude.{
  ℕ, ◌+◌, ◌-◌, ◌≤◌, ◌<◌, ◌≡◌, refl, true, false, List, [], ◌∷◌, ◌++◌, none, some, arith, length,
  map, set, replicate,
}
use spead.Common.RingBuffer.{Base, make_base, next, slot_at, size, ok, pop_internal, stop_tail}
use spead.Common.RingBuffer.Slots.{size-length, slot_at-replicate}
use spead.Common.RingBuffer.Threads.{
  System, initial, take_data, pop, stop_first, stop_again, stop_put_space, stop_put_data, OneStop,
  AnyStop, Reach, start, later,
}
use spead.Common.RingBuffer.Threads.Invariant.{phase_stopped, Reach-Inv}

module _ {A : Type 0} (limit : ℕ) (s : System A) (r : Reach limit OneStop s) where
  -- In any interleaving of pushes and pops, with calls of stop that do not overlap each other: what
  -- came out is what went in, in order, less the items that are still there, of which there are as
  -- many as size says and at most the capacity. Nothing is lost, doubled or made up.
  pub first_in_first_out :
      (items : List A) × (map some s.sent ≡ s.received ++ map some items)
      × (size s.base ≡ length items)
      × (length items ≤ limit)
  first_in_first_out =
      let (items, v) = Reach-Inv limit s r in
      (items, v.flow, (size-length s.base items v.holds).0, omega (arith, v.holds.room, v.sized))

  -- In any interleaving in which no two calls of stop overlap, while the buffer is not stopped: a
  -- thread that has taken space_sem writes to a slot with no object in it.
  pub emplace-vacant :
      0 < s.pushing → s.base.stopped ≡ false → slot_at s.base.storage s.base.tail ≡ none
  emplace-vacant h run =
      let (items, v) = Reach-Inv limit s r in
      let open_phase = v.phase in
      rw v.holds.tail_at (v.holds.vacant (length items) (omega arith) v.holds.room)

  -- In any interleaving in which no two calls of stop overlap: once stop has run through and no thread
  -- is inside a call, both semaphores are up, so that no thread that comes to wait stays asleep.
  pub stopped_awake :
      s.base.stopped ≡ true
      → s.saved_tail ≡ none
      → s.stop_space + s.stop_data ≡ 0
      → s.pushing + s.pushed + s.push_failed + s.popping + s.popped + s.pop_failed ≡ 0
      → (0 < s.space_sem) × (0 < s.data_sem)
  stopped_awake stopped quiet none_raised idle =
      let (items, v) = Reach-Inv limit s r in
      let p = phase_stopped s stopped quiet v.phase in
      (omega (arith, p.2, v.space_tokens, v.holds.room, v.sized), omega (arith, p.2, v.data_tokens))

-- The base after the pop of the race below.
abbrev emptied : ℕ → Base ℕ
emptied limit = record (make_base limit) {
  storage = set (replicate (limit + 1) none) 0 none;
  head = next (limit + 1) 0;
  stopped = true;
}

-- Two calls of stop on an empty buffer may overlap: the second returns early from stop_internal and
-- raises data_sem before the first has set stop_position. Then a thread pops a slot in which no
-- object was ever constructed, whatever the capacity.
pub overlapping_stops :
    (limit : ℕ) → (s : System ℕ) × Reach limit AnyStop s × (s.sent ≡ []) × (s.received ≡ none ∷ [])
unfolding initial make_base stop_tail pop_internal
overlapping_stops limit =
    let s0 : System ℕ = initial limit in
    let marked : Base ℕ = record (make_base limit) { stopped = true } in
    let s1 : System ℕ = record s0 { base = marked; saved_tail = some 0 } in
    let s2 : System ℕ = record s1 { base = marked; stop_space = 0 + 1 } in
    let s3 : System ℕ = record s2 {
      stop_space = s2.stop_space - 1;
      stop_data = s2.stop_data + 1;
      space_sem = s2.space_sem + 1;
      space_extra = s2.space_extra + 1;
    } in
    let s4 : System ℕ = record s3 {
      stop_data = s3.stop_data - 1;
      data_sem = s3.data_sem + 1;
      data_extra = s3.data_extra + 1;
    } in
    let s5 : System ℕ = record s4 { data_sem = s4.data_sem - 1; popping = s4.popping + 1 } in
    let s6 : System ℕ = record s5 {
      base = emptied limit;
      popping = s5.popping - 1;
      popped = s5.popped + 1;
      received = s5.received ++ none ∷ [];
    } in
    let reads : pop_internal s5.base ≡ ok (none, emptied limit) =
      ground (arith, slot_at-replicate {A = ℕ} (limit + 1) 0) in
    let r1 : Reach limit AnyStop s1 = later start (stop_first s0 0 marked refl) tt in
    let r2 : Reach limit AnyStop s2 = later r1 (stop_again s1 marked refl) tt in
    let r3 : Reach limit AnyStop s3 = later r2 (stop_put_space s2 (omega arith)) tt in
    let r4 : Reach limit AnyStop s4 = later r3 (stop_put_data s3 (omega arith)) tt in
    let r5 : Reach limit AnyStop s5 = later r4 (take_data s4 (omega arith)) tt in
    let r6 : Reach limit AnyStop s6 =
      later r5 (pop s5 none (emptied limit) (omega arith) reads) tt in
    (s6, r6, refl, refl)
