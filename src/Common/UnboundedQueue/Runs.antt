-- ===== src/Common/UnboundedQueue/Runs.antt =====
-- Calls of a concrete queue, one of them interrupted.
use spead.Prelude.{ℕ, ◌≡◌, refl, true, false, List, [], ◌∷◌, some}
use spead.Common.UnboundedQueue.{UnboundedQueue, new_queue, try_pop, pop}
use spead.Common.UnboundedQueue.Refine.{
  Call, pushes, tries, stops, run, expected, oldest, at_once, run-new_queue, pop_lem,
}

abbrev calls : List (Call ℕ)
calls =
    tries []
    ∷ pushes 1
    ∷ pushes 2
    ∷ tries (true ∷ true ∷ [])
    ∷ stops
    ∷ pushes 3
    ∷ tries []
    ∷ tries []
    ∷ []

run-new_queue_example : run new_queue calls ≡ some (expected [] false calls)
run-new_queue_example = run-new_queue calls

abbrev stopped_queue : UnboundedQueue ℕ
stopped_queue = record { data_sem = 2; stopped = true; items = 5 ∷ [] }

pop_lem_example :
    (pop stopped_queue ≡ oldest stopped_queue)
    × (try_pop (true ∷ []) stopped_queue ≡ at_once (pop stopped_queue) stopped_queue)
pop_lem_example = pop_lem stopped_queue (true ∷ []) refl
