-- ===== src/Recv/PointerStore.antt =====
-- The two storages of item pointers in live_heap (include/spead2/recv_live_heap.h), and how
-- live_heap::add_pointers of src/recv_live_heap.cpp looks up and stores one pointer.
use spead.Prelude.{
  ℕ, ◌+◌, Bool, true, false, ◌||◌, List, [], ◌∷◌, ◌++◌, Option, none, some, ◌==◌, if◌then◌else◌,
  take, set, replicate,
}
pub mod Order
mod Runs

abbrev pub max_inline_pointers : ℕ
max_inline_pointers = 8

-- n_inline_pointers is `none` for -1, that is once the pointers are out of line. seen_pointers is a
-- std::set, of which only membership is used: it is a list, and the order says nothing.
pub record PointerStore : Type 0 where
  pub n_inline_pointers : Option ℕ
  pub inline_pointers : List ℕ
  pub external_pointers : List ℕ
  pub seen_pointers : List ℕ

-- The array is uninitialised in the source; no slot is read before it is written.
abbrev pub empty_store : PointerStore
empty_store = record {
  n_inline_pointers = some 0;
  inline_pointers = replicate max_inline_pointers 0;
  external_pointers = [];
  seen_pointers = [];
}

-- std::count of the inline array, and std::set::count, as truth values.
unfoldable pub contains : ℕ → List ℕ → Bool
contains p [] = false
contains p (x ∷ xs) = x == p || contains p xs

unfoldable pub was_seen : PointerStore → ℕ → Bool
was_seen s p = elim s.n_inline_pointers [
  | none ↦ contains p s.seen_pointers
  | some n ↦ contains p (take n s.inline_pointers)
]

-- The switch to out-of-line storage, when the inline array is full. (`reserve` has no effect here.)
unfoldable pub spill : PointerStore → PointerStore
spill s = elim s.n_inline_pointers [
  | none ↦ s
  | some n ↦
      if n == max_inline_pointers
      then record s {
        external_pointers = s.external_pointers ++ take n s.inline_pointers;
        seen_pointers = take n s.inline_pointers ++ s.seen_pointers;
        n_inline_pointers = none;
      }
      else s
]

unfoldable pub append : PointerStore → ℕ → PointerStore
append s p = elim s.n_inline_pointers [
  | none ↦ record s {
    external_pointers = s.external_pointers ++ p ∷ [];
    seen_pointers = p ∷ s.seen_pointers;
  }
  | some n ↦ record s {
    inline_pointers = set s.inline_pointers n p;
    n_inline_pointers = some (n + 1);
  }
]

-- The flag is `!seen`.
unfoldable pub store : PointerStore → ℕ → Bool × PointerStore
unfolding was_seen spill append
store s p = if was_seen s p then (false, s) else (true, append (spill s) p)

-- What pointers_begin and pointers_end delimit.
unfoldable pub stored : PointerStore → List ℕ
stored s = elim s.n_inline_pointers [
  | none ↦ s.external_pointers
  | some n ↦ take n s.inline_pointers
]
