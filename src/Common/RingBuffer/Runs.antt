-- ===== src/Common/RingBuffer/Runs.antt =====
-- Calls of concrete ring buffers.
use spead.Prelude.{
  ℕ, ◌+◌, ◌-◌, ◌≤◌, ◌<◌, ◌≡◌, refl, true, false, List, [], ◌∷◌, ◌++◌, none, some, map, length,
  arith,
}
use spead.Common.RingBuffer.{
  Base, ok, next, make_base, size, slot_at, make, emplace_internal, stop_tail, stop_head,
}
use spead.Common.RingBuffer.Queue.{Call, pushes, pops, stops}
use spead.Common.RingBuffer.Queue
use spead.Common.RingBuffer.Refine.{run, run-make}
use spead.Common.RingBuffer.Threads.{
  System, initial, take_space, emplace, stop_first, stop_second, stop_put_space, stop_put_data,
  OneStop, AnyStop, Reach, start, later,
}
use spead.Common.RingBuffer.Threads.Safety.{
  first_in_first_out, emplace-vacant, stopped_awake, overlapping_stops,
}

abbrev calls : List (Call ℕ)
calls =
    pops false
    ∷ pushes true 1
    ∷ pushes false 1
    ∷ pushes false 2
    ∷ pushes false 3
    ∷ pops true
    ∷ pops false
    ∷ pushes false 4
    ∷ stops
    ∷ pushes false 5
    ∷ pops true
    ∷ pops false
    ∷ pops false
    ∷ pops false
    ∷ []

run-make_example : run (make 2) calls ≡ Queue.run (Queue.fresh 2) calls
run-make_example = run-make 2 calls

overlapping_stops_example :
    (s : System ℕ) × Reach 2 AnyStop s × (s.sent ≡ []) × (s.received ≡ none ∷ [])
overlapping_stops_example = overlapping_stops 2

-- A push that has come as far as space_sem, and then as far as the slot.
abbrev pushing_state : System ℕ
pushing_state = record (initial 2) { space_sem = 2 - 1; pushing = 0 + 1 }

pushing_state-Reach : Reach 2 OneStop pushing_state
unfolding initial
pushing_state-Reach = later start (take_space (initial 2) (omega arith)) tt

abbrev filled : Base ℕ
filled = record (make_base 2) { storage = some 7 ∷ none ∷ none ∷ []; tail = 1 }

abbrev pushed_state : System ℕ
pushed_state = record pushing_state {
  base = filled;
  pushing = 1 - 1;
  pushed = 0 + 1;
  sent = 7 ∷ [];
}

fills : emplace_internal pushing_state.base 7 ≡ ok filled
unfolding initial make_base emplace_internal next
fills = refl

pushed_state-Reach : Reach 2 OneStop pushed_state
unfolding initial make_base
pushed_state-Reach =
    later pushing_state-Reach (emplace pushing_state 7 filled (omega arith) fills) tt

first_in_first_out_example :
    (items : List ℕ) × (map some pushed_state.sent ≡ pushed_state.received ++ map some items)
    × (size pushed_state.base ≡ length items)
    × (length items ≤ 2)
first_in_first_out_example = first_in_first_out 2 pushed_state pushed_state-Reach

emplace-vacant_example : slot_at pushing_state.base.storage pushing_state.base.tail ≡ none
unfolding initial make_base
emplace-vacant_example = emplace-vacant 2 pushing_state pushing_state-Reach (omega arith) refl

-- A call of stop, from its first block to its last.
abbrev stopping_state : System ℕ
stopping_state = record (initial 2) {
  base = record (make_base 2) { stopped = true };
  saved_tail = some 0;
}

abbrev marked_state : System ℕ
marked_state = record stopping_state {
  base = stop_head stopping_state.base 0;
  saved_tail = none;
  stop_space = 0 + 1;
}

abbrev raised_space : System ℕ
raised_space = record marked_state {
  stop_space = 1 - 1;
  stop_data = 0 + 1;
  space_sem = 2 + 1;
  space_extra = 0 + 1;
}

abbrev stopped_state : System ℕ
stopped_state = record raised_space { stop_data = 1 - 1; data_sem = 0 + 1; data_extra = 0 + 1 }

stopped_state-Reach : Reach 2 OneStop stopped_state
unfolding initial make_base stop_tail stop_head
stopped_state-Reach =
    let r1 : Reach 2 OneStop stopping_state =
      later start (stop_first (initial 2) 0 (record (make_base 2) { stopped = true }) refl) tt in
    let r2 : Reach 2 OneStop marked_state = later r1 (stop_second stopping_state 0 refl) tt in
    let r3 : Reach 2 OneStop raised_space =
      later r2 (stop_put_space marked_state (omega arith)) tt in
    later r3 (stop_put_data raised_space (omega arith)) tt

stopped_awake_example : (0 < stopped_state.space_sem) × (0 < stopped_state.data_sem)
unfolding initial make_base stop_tail stop_head
stopped_awake_example = stopped_awake 2 stopped_state stopped_state-Reach refl refl refl refl
