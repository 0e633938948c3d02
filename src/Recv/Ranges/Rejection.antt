-- ===== src/Recv/Ranges/Rejection.antt =====
-- When add_payload_range answers false: nothing changes, and there is an overlap.
use spead.Prelude.{
  ℕ, ◌≤◌, ◌<◌, ◌≡◌, true, false, [], ◌∷◌, ltb, leb, arith, ◌⊎◌, ◌↔◌, sym, ◌∙◌, true≢false,
  Bool-cases, inl, inr, leb→le, leb→lt,
}
use spead.Recv.Ranges.{
  Ranges, overlaps_next, insert_first, insert_after, add_after, add_payload_range,
}
use spead.Recv.Ranges.Coverage.{Apart, IsSeparated, covers, within, add_payload_range-Adds}

-- Some range is empty, and lies strictly inside [first, last).
abbrev pub HasEmpty : ℕ → ℕ → Ranges → Type 0
HasEmpty first last [] = ⊥
HasEmpty first last ((a, b) ∷ rest) =
    ((a ≡ b) × (first < a) × (a < last)) ⊎ HasEmpty first last rest

module _ (first last : ℕ) where
  add_after_unchanged :
      (pa pb : ℕ) (m : Ranges)
      → (add_after first last pa pb m).0 ≡ false
      → (add_after first last pa pb m).1 ≡ (pa, pb) ∷ m
  unfolding add_after insert_after
  add_after_unchanged pa pb [] h = ground arith
  add_after_unchanged pa pb ((a, b) ∷ rest) h = ground (arith, add_after_unchanged a b rest)

  pub add_payload_range_unchanged :
      (m : Ranges)
      → (add_payload_range first last m).0 ≡ false
      → (add_payload_range first last m).1 ≡ m
  unfolding add_payload_range insert_first
  add_payload_range_unchanged [] h = ground arith
  add_payload_range_unchanged ((a, b) ∷ rest) h = ground (arith, add_after_unchanged a b rest)

-- A byte of [first, last) that is covered already.
abbrev pub Overlap : ℕ → ℕ → Ranges → Type 0
Overlap first last m = (x : ℕ) × (within first last x ≡ true) × (covers x m ≡ true)

-- Why a range is refused.
abbrev pub Clash : ℕ → ℕ → Ranges → Type 0
Clash first last m = Overlap first last m ⊎ HasEmpty first last m

module _ (first last : ℕ) (full : first < last) where
  Clash-cons : (pa pb : ℕ) (m : Ranges) → Clash first last m → Clash first last ((pa, pb) ∷ m)
  Clash-cons pa pb m (inl (x, w, c)) = inl (x, w, ground arith)
  Clash-cons pa pb m (inr e) = inr (inr e)

  overlaps_next-Clash :
      (next : Ranges) → Apart first next → overlaps_next last next ≡ true → Clash first last next
  unfolding overlaps_next
  overlaps_next-Clash [] p h = cc
  overlaps_next-Clash ((a, b) ∷ rest) p h = elim (Bool-cases (ltb a b)) [
    | inl some_byte ↦ inl (a, ground arith, ground arith)
    | inr empty ↦ inr (inl (ground arith, p.0, ground arith))
  ]

  insert_after-Clash :
      (pa pb : ℕ) (next : Ranges)
      → pa ≤ first
      → Apart first next
      → (insert_after first last pa pb next).0 ≡ false
      → Clash first last ((pa, pb) ∷ next)
  unfolding insert_after
  insert_after-Clash pa pb next h p e = elim (Bool-cases (overlaps_next last next)) [
    | inl o ↦ Clash-cons pa pb next (overlaps_next-Clash next p o)
    | inr o ↦ inl (first, ground arith, ground arith)
  ]

  add_after-Clash :
      (pa pb : ℕ) (m : Ranges)
      → pa ≤ first
      → Apart pb m
      → (add_after first last pa pb m).0 ≡ false
      → Clash first last ((pa, pb) ∷ m)
  unfolding add_after
  add_after-Clash pa pb [] h p e = insert_after-Clash pa pb [] h tt e
  add_after-Clash pa pb ((a, b) ∷ rest) h p e = elim (Bool-cases (leb a first)) [
    | inl q ↦
        Clash-cons pa pb ((a, b) ∷ rest)
          (add_after-Clash a b rest (leb→le a first q) p.2 (ground arith))
    | inr q ↦ insert_after-Clash pa pb ((a, b) ∷ rest) h (leb→lt a first q, p.1, p.2) (ground arith)
  ]

  reason :
      (m : Ranges) → IsSeparated m → (add_payload_range first last m).0 ≡ false → Clash first last m
  unfolding add_payload_range insert_first
  reason [] s e = absurd (ground arith)
  reason ((a, b) ∷ rest) s e = elim (Bool-cases (leb a first)) [
    | inl q ↦ add_after-Clash a b rest (leb→le a first q) s.1 (ground arith)
    | inr q ↦ overlaps_next-Clash ((a, b) ∷ rest) (leb→lt a first q, s.0, s.1) (ground arith)
  ]

  -- An empty range inside lies behind where the ranges begin.
  HasEmpty-behind : (lo : ℕ) (m : Ranges) → Apart lo m → HasEmpty first last m → lo < last
  HasEmpty-behind lo [] p h = absurd h
  HasEmpty-behind lo ((a, b) ∷ rest) p (inl (same, low, high)) = omega (arith, p.0)
  HasEmpty-behind lo ((a, b) ∷ rest) p (inr later) =
      omega (arith, p.0, p.1, HasEmpty-behind b rest p.2 later)

  HasEmpty-overlaps_next :
      (lo : ℕ) (next : Ranges)
      → Apart lo next
      → HasEmpty first last next
      → overlaps_next last next ≡ true
  unfolding overlaps_next
  HasEmpty-overlaps_next lo [] p h = absurd h
  HasEmpty-overlaps_next lo ((a, b) ∷ rest) p (inl (same, low, high)) = ground arith
  HasEmpty-overlaps_next lo ((a, b) ∷ rest) p (inr later) =
      ground (arith, p.1, HasEmpty-behind b rest p.2 later)

  insert_after-refuses :
      (pa pb lo : ℕ) (next : Ranges)
      → Apart lo next
      → HasEmpty first last next
      → (insert_after first last pa pb next).0 ≡ false
  unfolding insert_after
  insert_after-refuses pa pb lo next p h = ground (arith, HasEmpty-overlaps_next lo next p h)

  add_after-refuses :
      (pa pb : ℕ) (m : Ranges)
      → Apart pb m
      → HasEmpty first last m
      → (add_after first last pa pb m).0 ≡ false
  unfolding add_after
  add_after-refuses pa pb [] p h = absurd h
  add_after-refuses pa pb ((a, b) ∷ rest) p h = elim (Bool-cases (leb a first)) [
    | inr q ↦ rw q (insert_after-refuses pa pb pb ((a, b) ∷ rest) p h)
    | inl q ↦ elim h [
      | inl (same, low, high) ↦ absurd (ground arith)
      | inr later ↦ rw q (add_after-refuses a b rest p.2 later)
    ]
  ]

  HasEmpty-refuses :
      (m : Ranges)
      → IsSeparated m
      → HasEmpty first last m
      → (add_payload_range first last m).0 ≡ false
  unfolding add_payload_range insert_first
  HasEmpty-refuses [] s h = absurd h
  HasEmpty-refuses ((a, b) ∷ rest) s (inr later) = elim (Bool-cases (leb a first)) [
    | inl q ↦ rw q (add_after-refuses a b rest s.1 later)
    | inr q ↦ ground (arith, HasEmpty-behind b rest s.1 later, s.0)
  ]
  HasEmpty-refuses ((a, b) ∷ rest) s (inl (same, low, high)) = ground arith

  Overlap-refuses :
      (m : Ranges)
      → IsSeparated m
      → Overlap first last m
      → (add_payload_range first last m).0 ≡ false
  Overlap-refuses m s (x, inside, covered) = elim (Bool-cases (add_payload_range first last m).0) [
    | inr e ↦ e
    | inl e ↦ absurd (
        true≢false
          (sym covered ∙ (add_payload_range-Adds first last (omega arith) m s).disjoint e x inside))
  ]

  -- To separated ranges, a packet that carries payload is refused just where one of its bytes has
  -- been received, or an empty range is recorded strictly inside its own; and the map then stays as
  -- it was.
  pub rejection-Overlap :
      (m : Ranges)
      → IsSeparated m
      → (((add_payload_range first last m).0 ≡ false) ↔ Clash first last m)
        × ((add_payload_range first last m).0 ≡ false → (add_payload_range first last m).1 ≡ m)
  rejection-Overlap m s = (
    (reason m s, λ c. elim c [ inl o ↦ Overlap-refuses m s o | inr e ↦ HasEmpty-refuses m s e ]),
    add_payload_range_unchanged first last m,
  )
