-- ===== src/Common/UnboundedQueue/Refine.antt =====
-- The unbounded queue is a list: what each method answers, and that try_pop comes to an end.
use spead.Prelude.{
  ℕ, ◌+◌, ◌-◌, ◌<◌, ◌≡◌, refl, ◌∙◌, Bool, true, false, List, [], ◌∷◌, ◌++◌, Option, none, some,
  ◌==◌, if◌then◌else◌, length, arith, length-append,
}
use spead.Common.RingBuffer.{Result, ok, throws, ringbuffer_empty, ringbuffer_stopped}
use spead.Common.UnboundedQueue.{
  UnboundedQueue, new_queue, push, take_item, throw_empty, try_pop, pop, stop,
}

abbrev pub raised : Bool → ℕ
raised stopped = if stopped then 1 else 0

-- The semaphore counts the data, and one more for a call of stop.
abbrev pub IsValid : (A : Type 0) → UnboundedQueue A → Type 0
IsValid A q = q.data_sem ≡ length q.items + raised q.stopped

-- A client's calls; the list of a try_pop says which of its calls of try_get are interrupted.
pub data Call (A : Type 0) : Type 0 where
  pushes : A → Call A
  tries : List Bool → Call A
  stops : Call A

pub data Reply (A : Type 0) : Type 0 where
  pushed : Result (Unit {0}) → Reply A
  popped : Result A → Reply A
  done : Reply A

module _ {A : Type 0} where
  -- The replies of the queue; `none` is a call that does not return.
  unfoldable pub run : UnboundedQueue A → List (Call A) → Option (List (Reply A))
  unfolding push stop try_pop
  run q [] = some []
  run q (pushes x ∷ calls) =
      let (r, q') = push q x in
      elim (run q' calls) [ none ↦ none | some replies ↦ some (pushed r ∷ replies) ]
  run q (stops ∷ calls) = elim (run (stop q) calls) [
    | none ↦ none
    | some replies ↦ some (done ∷ replies)
  ]
  run q (tries interrupts ∷ calls) = elim (try_pop interrupts q) [
    | none ↦ none
    | some (r, q') ↦ elim (run q' calls) [ none ↦ none | some replies ↦ some (popped r ∷ replies) ]
  ]

  -- What they should be, of the items and whether stop has been called.
  unfoldable pub expected : List A → Bool → List (Call A) → List (Reply A)
  expected items stopped [] = []
  expected items true (pushes x ∷ calls) =
      pushed (throws ringbuffer_stopped) ∷ expected items true calls
  expected items false (pushes x ∷ calls) = pushed (ok tt) ∷ expected (items ++ x ∷ []) false calls
  expected items stopped (stops ∷ calls) = done ∷ expected items true calls
  expected (x ∷ items) stopped (tries _ ∷ calls) = popped (ok x) ∷ expected items stopped calls
  expected [] true (tries _ ∷ calls) = popped (throws ringbuffer_stopped) ∷ expected [] true calls
  expected [] false (tries _ ∷ calls) = popped (throws ringbuffer_empty) ∷ expected [] false calls

  abbrev made : ℕ → Bool → List A → UnboundedQueue A
  made n stopped items = record { data_sem = n; stopped = stopped; items = items }

  try_pop-item :
      (interrupts : List Bool) (n : ℕ) (stopped : Bool) (x : A) (items : List A)
      → 0 < n
      → try_pop interrupts (made n stopped (x ∷ items)) ≡ some (ok x, made (n - 1) stopped items)
  unfolding try_pop take_item
  try_pop-item [] n stopped x items h = ground arith
  try_pop-item (false ∷ later) n stopped x items h = ground arith
  try_pop-item (true ∷ later) n stopped x items h = try_pop-item later n stopped x items h

  try_pop-empty :
      (interrupts : List Bool) (stopped : Bool)
      → try_pop interrupts (made (raised stopped) stopped [])
        ≡ some (
          throws (if stopped then ringbuffer_stopped else ringbuffer_empty),
          made (raised stopped) stopped [],
        )
  unfolding try_pop take_item throw_empty
  try_pop-empty [] true = refl
  try_pop-empty [] false = refl
  try_pop-empty (false ∷ later) true = refl
  try_pop-empty (false ∷ later) false = refl
  try_pop-empty (true ∷ later) true = refl
  try_pop-empty (true ∷ later) false = refl

  run-tries :
      (q q' : UnboundedQueue A) (interrupts : List Bool) (r : Result A) (calls : List (Call A))
      (replies : List (Reply A))
      → try_pop interrupts q ≡ some (r, q')
      → run q' calls ≡ some replies
      → run q (tries interrupts ∷ calls) ≡ some (popped r ∷ replies)
  unfolding run
  run-tries q q' interrupts r calls replies e e' = rw (e, e', run) refl

  run-expected :
      (n : ℕ) (stopped : Bool) (items : List A) (calls : List (Call A))
      → n ≡ length items + raised stopped
      → run (made n stopped items) calls ≡ some (expected items stopped calls)
  unfolding run expected push stop
  run-expected n stopped items [] h = refl
  run-expected n true items (pushes x ∷ calls) h = rw (run-expected n true items calls h) refl
  run-expected n false items (pushes x ∷ calls) h =
      let counted : n + 1 ≡ length (items ++ x ∷ []) + raised false =
        omega (arith, length-append items (x ∷ [])) in
      rw (run-expected (n + 1) false (items ++ x ∷ []) calls counted) refl
  run-expected n true items (stops ∷ calls) h = rw (run-expected n true items calls h) refl
  run-expected n false items (stops ∷ calls) h =
      let counted : n + 1 ≡ length items + raised true = omega arith in
      rw (run-expected (n + 1) true items calls counted) refl
  run-expected n stopped (x ∷ items) (tries interrupts ∷ calls) h =
      let counted : n - 1 ≡ length items + raised stopped = omega arith in
      run-tries _ _ interrupts (ok x) calls _
        (try_pop-item interrupts n stopped x items (omega arith))
        (run-expected (n - 1) stopped items calls counted)
  run-expected n true [] (tries interrupts ∷ calls) h =
      let one : n ≡ 1 = omega arith in
      rw one (
        run-tries _ _ interrupts _ calls _ (try_pop-empty interrupts true)
          (run-expected 1 true [] calls refl))
  run-expected n false [] (tries interrupts ∷ calls) h =
      let zero : n ≡ 0 = omega arith in
      rw zero (
        run-tries _ _ interrupts _ calls _ (try_pop-empty interrupts false)
          (run-expected 0 false [] calls refl))

  -- Any calls on a new queue, with whatever interruptions: each one returns, and they are answered in
  -- the order of the items; nothing goes in after stop, and only then an empty queue is stopped.
  pub run-new_queue : (calls : List (Call A)) → run new_queue calls ≡ some (expected [] false calls)
  unfolding new_queue
  run-new_queue calls = run-expected 0 false [] calls refl

  -- The oldest item, the end of a stopped queue, or a wait.
  abbrev pub oldest : UnboundedQueue A → Option (Result A × UnboundedQueue A)
  oldest q = elim q.items [
    | x ∷ rest ↦ some (ok x, record q { items = rest; data_sem = q.data_sem - 1 })
    | [] ↦ if q.stopped then some (throws ringbuffer_stopped, q) else none
  ]

  -- At once: an error in place of the wait.
  abbrev pub at_once :
      Option (Result A × UnboundedQueue A) → UnboundedQueue A → Option (Result A × UnboundedQueue A)
  at_once none q = some (throws ringbuffer_empty, q)
  at_once (some r) q = some r

  pop_cases :
      (n : ℕ) (stopped : Bool) (items : List A) (interrupts : List Bool)
      → n ≡ length items + raised stopped
      → let q = made n stopped items in
        (pop q ≡ oldest q) × (try_pop interrupts q ≡ at_once (pop q) q)
  unfolding pop take_item
  pop_cases n stopped (x ∷ items) interrupts h =
      let got : (n == 0) ≡ false = ground arith in
      (rw got refl, try_pop-item interrupts n stopped x items (omega arith) ∙ rw got refl)
  pop_cases n true [] interrupts h =
      let one : n ≡ 1 = omega arith in (rw one refl, rw one (try_pop-empty interrupts true))
  pop_cases n false [] interrupts h =
      let zero : n ≡ 0 = omega arith in (rw zero refl, rw zero (try_pop-empty interrupts false))

  -- On a queue whose semaphore counts its data and a call of stop, pop gives the oldest item, throws
  -- if the queue is empty and stopped, and waits just where it is empty and not stopped; try_pop
  -- answers the same, whatever interrupts it, with an error in place of the wait.
  pub pop_lem :
      (q : UnboundedQueue A) (interrupts : List Bool)
      → IsValid A q
      → (pop q ≡ oldest q) × (try_pop interrupts q ≡ at_once (pop q) q)
  pop_lem q interrupts v = pop_cases q.data_sem q.stopped q.items interrupts v
