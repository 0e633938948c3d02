-- ===== src/Recv/PointerStore/Runs.antt =====
-- Item pointers that arrive twice.
use spead.Prelude.{ℕ, ◌≡◌, List, [], ◌∷◌}
use spead.Recv.PointerStore.{empty_store, stored}
use spead.Recv.PointerStore.Order.{
  IsValid, empty_store-IsValid, store_all, append_new, store_all_lem,
}

-- More than the eight that are held inline.
abbrev ten_pointers : List ℕ
ten_pointers = 1 ∷ 2 ∷ 3 ∷ 2 ∷ 4 ∷ 5 ∷ 6 ∷ 7 ∷ 8 ∷ 9 ∷ 1 ∷ 10 ∷ []

store_all_lem_example :
    IsValid (store_all empty_store ten_pointers)
    × (stored (store_all empty_store ten_pointers) ≡ append_new (stored empty_store) ten_pointers)
store_all_lem_example = store_all_lem empty_store ten_pointers empty_store-IsValid
