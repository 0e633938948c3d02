-- ===== src/Recv/Ranges.antt =====
-- live_heap::add_payload_range of src/recv_live_heap.cpp, and the map payload_ranges of
-- include/spead2/recv_live_heap.h.
pub mod Coverage
pub mod Shape
pub mod Rejection
pub mod Complete
mod Runs
use spead.Prelude.{ℕ, Bool, true, false, List, [], ◌∷◌, ltb, leb, ◌==◌, if◌then◌else◌}

-- The map `payload_ranges`, in the order of its keys: a range is its start and its end.
abbrev pub Ranges : Type 0
Ranges = List (ℕ × ℕ)

-- The tail of add_payload_range: `ptr` is the range (first, last), `next` heads the rest of the map.
unfoldable pub join_next : ℕ → ℕ → Ranges → Ranges
join_next first last [] = (first, last) ∷ []
join_next first last ((a, b) ∷ rest) =
    if a == last then (first, b) ∷ rest else (first, last) ∷ (a, b) ∷ rest

-- Whether `next`, the first range that starts after `first`, starts before `last`.
unfoldable pub overlaps_next : ℕ → Ranges → Bool
overlaps_next last [] = false
overlaps_next last ((a, b) ∷ rest) = ltb a last

-- The decision, once `next` is found. `prev` is the range before it, of which the map keeps the
-- start; `none` of the source's iterator is the absence of `prev`.
unfoldable pub insert_first : ℕ → ℕ → Ranges → Bool × Ranges
unfolding overlaps_next join_next
insert_first first last next =
    if overlaps_next last next then (false, next) else (true, join_next first last next)

unfoldable pub insert_after : ℕ → ℕ → ℕ → ℕ → Ranges → Bool × Ranges
unfolding overlaps_next join_next
insert_after first last pa pb next =
    if overlaps_next last next
    then (false, (pa, pb) ∷ next)
    else if ltb pb first
    then (true, (pa, pb) ∷ join_next first last next)
    else if pb == first
    then (true, join_next pa last next)
    else (false, (pa, pb) ∷ next)

-- The walk to `next`, with `prev` the range last passed.
unfoldable pub add_after : ℕ → ℕ → ℕ → ℕ → Ranges → Bool × Ranges
unfolding insert_after
add_after first last pa pb [] = insert_after first last pa pb []
add_after first last pa pb ((a, b) ∷ rest) =
    let (accepted, rest') = add_after first last a b rest in
    if leb a first
    then (accepted, (pa, pb) ∷ rest')
    else insert_after first last pa pb ((a, b) ∷ rest)

unfoldable pub add_payload_range : ℕ → ℕ → Ranges → Bool × Ranges
unfolding insert_first add_after
add_payload_range first last [] = insert_first first last []
add_payload_range first last ((a, b) ∷ rest) =
    if leb a first then add_after first last a b rest else insert_first first last ((a, b) ∷ rest)
