-- ===== src/Recv/PointerStore/Order.antt =====
-- The store is a duplicate-free list in order of arrival, whichever storage is in use.
use native.Mathlib.Numerals.{add-one}
use spead.Prelude.{
  ℕ, zero, suc, ◌+◌, ◌≤◌, ◌<◌, ◌≡◌, refl, ap, ◌∙◌, ◌||◌, List, [], ◌∷◌, ◌++◌, none, some,
  if◌then◌else◌, take, set, length, arith, Bool-cases, not, ◌⊎◌, Option-cases, ◌≢◌, inl, inr,
  length-set, append-nil,
}
use spead.Recv.PointerStore.{
  PointerStore, max_inline_pointers, empty_store, contains, was_seen, spill, append, store, stored,
}

contains-append :
    (p : ℕ) (xs ys : List ℕ) → contains p (xs ++ ys) ≡ (contains p xs || contains p ys)
unfolding contains
contains-append p [] ys = refl
contains-append p (x ∷ xs) ys = ground (arith, contains-append p xs ys)

take-set : (n v : ℕ) (xs : List ℕ) → n < length xs → take (suc n) (set xs n v) ≡ take n xs ++ v ∷ []
take-set n v [] h = absurd (omega arith)
take-set zero v (x ∷ xs) h = refl
take-set (suc n) v (x ∷ xs) h = ap (◌∷◌ x) (take-set n v xs (omega arith))

-- Inline, the store is within its array and nothing is out of line; out of line, the set has the
-- vector's members.
pub record IsValid (s : PointerStore) : Type 0 where
  pub slots : length s.inline_pointers ≡ max_inline_pointers
  pub inline :
      (n : ℕ)
      → s.n_inline_pointers ≡ some n
      → (n ≤ max_inline_pointers) × (s.external_pointers ≡ [])
  pub external :
      s.n_inline_pointers ≡ none
      → (p : ℕ) → contains p s.seen_pointers ≡ contains p s.external_pointers
  pub unused : (n : ℕ) → s.n_inline_pointers ≡ some n → s.seen_pointers ≡ []

pub empty_store-IsValid : IsValid empty_store
empty_store-IsValid = record {
  slots = refl;
  inline = λ n e. ground arith;
  external = λ e p. cc;
  unused = λ n e. refl;
}

was_seen-contains : (s : PointerStore) (p : ℕ) → IsValid s → was_seen s p ≡ contains p (stored s)
unfolding was_seen stored
was_seen-contains s p v = elim (Option-cases s.n_inline_pointers) [
  | inl e ↦ ground (arith, v.external e p)
  | inr (n, e) ↦ ground arith
]

module _ (s : PointerStore) (v : IsValid s) (p : ℕ) where
  abbrev Appended : PointerStore → Type 0
  Appended t = IsValid t × (stored t ≡ stored s ++ p ∷ [])

  out_of_line : PointerStore
  out_of_line = record s {
    external_pointers = s.external_pointers ++ p ∷ [];
    seen_pointers = p ∷ s.seen_pointers;
  }

  spilled : ℕ → PointerStore
  spilled n = record s {
    n_inline_pointers = none;
    external_pointers = (s.external_pointers ++ take n s.inline_pointers) ++ p ∷ [];
    seen_pointers = p ∷ (take n s.inline_pointers ++ s.seen_pointers);
  }

  inline_appended : ℕ → PointerStore
  inline_appended n = record s {
    n_inline_pointers = some (n + 1);
    inline_pointers = set s.inline_pointers n p;
  }

  append_cases :
      ((s.n_inline_pointers ≡ none) × (append (spill s) p ≡ out_of_line))
      ⊎ ((n : ℕ) × (s.n_inline_pointers ≡ some n)
          × (((n ≡ max_inline_pointers) × (append (spill s) p ≡ spilled n))
              ⊎ ((n ≢ max_inline_pointers) × (append (spill s) p ≡ inline_appended n))))
  unfolding append spill out_of_line spilled inline_appended
  append_cases = ground arith

  out_of_line-Appended : s.n_inline_pointers ≡ none → Appended out_of_line
  unfolding out_of_line stored contains
  out_of_line-Appended e = (
    record {
      slots = v.slots;
      inline = λ n e'. absurd (ground arith);
      external =
          λ _ q. ground (arith, v.external e q, contains-append q s.external_pointers (p ∷ []));
      unused = λ n e'. absurd (ground arith);
    },
    ground arith,
  )

  spilled-Appended : (n : ℕ) → s.n_inline_pointers ≡ some n → Appended (spilled n)
  unfolding spilled stored contains
  spilled-Appended n e = (
    record {
      slots = v.slots;
      inline = λ n e'. absurd (cc);
      external = λ _ q. ground (
        arith,
        v.inline n e,
        v.unused n e,
        contains-append q (take n s.inline_pointers) (p ∷ []),
        append-nil (take n s.inline_pointers),
      );
      unused = λ n e'. absurd (cc);
    },
    ground (arith, v.inline n e),
  )

  inline_appended-Appended :
      (n : ℕ)
      → n ≢ max_inline_pointers
      → s.n_inline_pointers ≡ some n
      → Appended (inline_appended n)
  unfolding inline_appended stored
  inline_appended-Appended n room e = (
    record {
      slots = ground (arith, v.slots, length-set s.inline_pointers n p);
      inline = λ n' e'. ground (arith, v.inline n e);
      external = λ e'. absurd (cc);
      unused = λ n' e'. v.unused n e;
    },
    ground (arith, v.inline n e, take-set n p s.inline_pointers, v.slots, add-one n),
  )

  append-Appended : Appended (append (spill s) p)
  append-Appended = elim append_cases [
    | inl (e, q) ↦ rw q (out_of_line-Appended e)
    | inr (n, e, inl (full, q)) ↦ rw q (spilled-Appended n e)
    | inr (n, e, inr (room, q)) ↦ rw q (inline_appended-Appended n room e)
  ]

  -- One pointer: it is taken exactly if it is not there yet, at the end.
  pub store_lem :
      IsValid (store s p).1
      × ((store s p).0 ≡ not (contains p (stored s)))
      × (stored (store s p).1 ≡ (if contains p (stored s) then stored s else stored s ++ p ∷ []))
  unfolding store
  store_lem = elim (Bool-cases (was_seen s p)) [
    | inl e ↦
        rw e (v, ground (arith, was_seen-contains s p v), ground (arith, was_seen-contains s p v))
    | inr e ↦ rw e (
      append-Appended.0,
      ground (arith, was_seen-contains s p v),
      ground (arith, was_seen-contains s p v, append-Appended),
    )
  ]

-- Storing pointers one after another keeps the first arrival of each.
unfoldable pub store_all : PointerStore → List ℕ → PointerStore
store_all s [] = s
store_all s (p ∷ ps) = store_all (store s p).1 ps

unfoldable pub append_new : List ℕ → List ℕ → List ℕ
append_new seen [] = seen
append_new seen (p ∷ ps) = append_new (if contains p seen then seen else seen ++ p ∷ []) ps

-- Any pointers, given to a valid store one by one: it then holds what it held, followed by the new
-- ones in the order of their first arrival, each once, whether it has moved out of line or not.
pub store_all_lem :
    (s : PointerStore) (ps : List ℕ)
    → IsValid s
    → IsValid (store_all s ps) × (stored (store_all s ps) ≡ append_new (stored s) ps)
unfolding store_all append_new
store_all_lem s [] v = (v, refl)
store_all_lem s (p ∷ ps) v =
    let (v', flag, step) = store_lem s v p in
    let (w, e) = store_all_lem (store s p).1 ps v' in (w, e ∙ ap (λ l. append_new l ps) step)
