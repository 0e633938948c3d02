-- ===== src/Recv/Ranges/Runs.antt =====
-- Maps of concrete ranges.
use spead.Prelude.{◌≡◌, refl, true, false, ◌↔◌, [], ◌∷◌, arith}
use spead.Recv.Ranges.{Ranges, add_payload_range}
use spead.Recv.Ranges.Coverage.{IsSeparated, Adds, add_payload_range-Adds}
use spead.Recv.Ranges.Shape.{add_payload_range-IsSeparated}
use spead.Recv.Ranges.Rejection.{Clash, rejection-Overlap}

abbrev two_ranges : Ranges
two_ranges = (0, 10) ∷ (20, 30) ∷ []

two_ranges-IsSeparated : IsSeparated two_ranges
two_ranges-IsSeparated = (omega arith, (omega arith, omega arith, tt))

-- The gap is filled, and the neighbours are joined.
joined : add_payload_range 10 20 two_ranges ≡ (true, (0, 30) ∷ [])
unfolding add_payload_range
joined = refl

refused : add_payload_range 5 12 two_ranges ≡ (false, two_ranges)
unfolding add_payload_range
refused = refl

add_payload_range-Adds_example : Adds 10 20 two_ranges (add_payload_range 10 20 two_ranges)
add_payload_range-Adds_example =
    add_payload_range-Adds 10 20 (omega arith) two_ranges two_ranges-IsSeparated

add_payload_range-IsSeparated_example : IsSeparated (add_payload_range 10 20 two_ranges).1
add_payload_range-IsSeparated_example =
    add_payload_range-IsSeparated 10 20 (omega arith) two_ranges two_ranges-IsSeparated

-- An empty packet has been received at 5, and then one of the bytes around it is refused.
empty_in_the_way : add_payload_range 0 10 (add_payload_range 5 5 []).1 ≡ (false, (5, 5) ∷ [])
unfolding add_payload_range
empty_in_the_way = refl

rejection-Overlap_example :
    (((add_payload_range 5 12 two_ranges).0 ≡ false) ↔ Clash 5 12 two_ranges)
    × ((add_payload_range 5 12 two_ranges).0 ≡ false
        → (add_payload_range 5 12 two_ranges).1 ≡ two_ranges)
rejection-Overlap_example = rejection-Overlap 5 12 (omega arith) two_ranges two_ranges-IsSeparated
