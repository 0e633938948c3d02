-- ===== src/Recv/Ranges/Coverage.antt =====
-- What add_payload_range does to the bytes that the ranges cover.
use spead.Prelude.{
  ℕ, ◌+◌, ◌-◌, ◌≤◌, ◌<◌, ◌≡◌, refl, Bool, true, false, ◌&&◌, ◌||◌, [], ◌∷◌, ltb, leb, arith,
  if◌then◌else◌, Bool-cases, inl, inr, leb→le, leb→lt,
}
use spead.Recv.Ranges.{
  Ranges, join_next, overlaps_next, insert_first, insert_after, add_after, add_payload_range,
}

-- Byte x lies in [first, last).
abbrev pub within : ℕ → ℕ → ℕ → Bool
within first last x = leb first x && ltb x last

abbrev pub covers : ℕ → Ranges → Bool
covers x [] = false
covers x ((a, b) ∷ rest) = within a b x || covers x rest

abbrev pub total : Ranges → ℕ
total [] = 0
total ((a, b) ∷ rest) = (b - a) + total rest

-- Every range lies after `lo`, leaves a gap before it, and does not end before it starts.
abbrev pub Apart : ℕ → Ranges → Type 0
Apart lo [] = Unit {0}
Apart lo ((a, b) ∷ rest) = (lo < a) × (a ≤ b) × Apart b rest

abbrev pub IsSeparated : Ranges → Type 0
IsSeparated [] = Unit {0}
IsSeparated ((a, b) ∷ rest) = (a ≤ b) × Apart b rest

module _ (first last : ℕ) (ordered : first ≤ last) where
  covers-join_next :
      (x : ℕ) (next : Ranges)
      → Apart first next
      → overlaps_next last next ≡ false
      → covers x (join_next first last next) ≡ (covers x next || within first last x)
  unfolding join_next overlaps_next
  covers-join_next x [] p q = ground arith
  covers-join_next x ((a, b) ∷ rest) p q = ground arith

  total-join_next :
      (next : Ranges)
      → Apart first next
      → overlaps_next last next ≡ false
      → total (join_next first last next) ≡ total next + (last - first)
  unfolding join_next overlaps_next
  total-join_next [] p q = ground arith
  total-join_next ((a, b) ∷ rest) p q = ground arith

-- Nothing up to `lo` is covered by ranges that lie after it.
pub covers-before : (lo x : ℕ) (m : Ranges) → Apart lo m → x ≤ lo → covers x m ≡ false
covers-before lo x [] p h = refl
covers-before lo x ((a, b) ∷ rest) p h = ground (arith, covers-before b x rest p.2)

pub Apart-le : (lo lo' : ℕ) (m : Ranges) → lo ≤ lo' → Apart lo' m → Apart lo m
Apart-le lo lo' [] h p = tt
Apart-le lo lo' ((a, b) ∷ rest) h p = (omega arith, p.1, p.2)

-- What one call promises: `r` is its answer and the new map.
pub record Adds (first last : ℕ) (m : Ranges) (r : Bool × Ranges) : Type 0 where
  pub covered : (x : ℕ) → covers x r.1 ≡ (covers x m || (r.0 && within first last x))
  pub counted : total r.1 ≡ total m + (if r.0 then last - first else 0)
  pub disjoint : r.0 ≡ true → (x : ℕ) → within first last x ≡ true → covers x m ≡ false

module _ (first last : ℕ) (ordered : first ≤ last) where
  next-disjoint :
      (x : ℕ) (next : Ranges)
      → Apart first next
      → overlaps_next last next ≡ false
      → within first last x ≡ true
      → covers x next ≡ false
  unfolding overlaps_next
  next-disjoint x [] p q h = refl
  next-disjoint x ((a, b) ∷ rest) p q h = ground (arith, covers-before b x rest p.2)

  insert_first-Adds :
      (next : Ranges) → Apart first next → Adds first last next (insert_first first last next)
  unfolding insert_first
  insert_first-Adds next p = record {
    covered = λ x. ground (arith, covers-join_next first last ordered x next);
    counted = ground (arith, total-join_next first last ordered next);
    disjoint = λ e x h. ground (arith, next-disjoint x next);
  }

  insert_after-Adds :
      (pa pb : ℕ) (next : Ranges)
      → pa ≤ first
      → pa ≤ pb
      → Apart pb next
      → Apart first next
      → Adds first last ((pa, pb) ∷ next) (insert_after first last pa pb next)
  unfolding insert_after
  insert_after-Adds pa pb next h le p q = record {
    covered = λ x. ground (
      arith,
      covers-join_next first last ordered x next q,
      covers-join_next pa last (omega arith) x next,
      Apart-le pa first next h q,
    );
    counted = ground (
      arith,
      total-join_next first last ordered next q,
      total-join_next pa last (omega arith) next,
      Apart-le pa first next h q,
    );
    disjoint = λ e x w. ground (arith, next-disjoint x next q);
  }

  -- The range that `prev` stands for is passed over: what holds of the rest holds of the whole.
  Adds-cons :
      (pa pb : ℕ) (m : Ranges) (r : Bool × Ranges)
      → pb < first
      → Adds first last m r
      → Adds first last ((pa, pb) ∷ m) (r.0, (pa, pb) ∷ r.1)
  Adds-cons pa pb m r h v = record {
    covered = λ x. ground (arith, v.covered x);
    counted = ground (arith, v.counted);
    disjoint = λ e x w. ground (arith, v.disjoint e x w);
  }

  add_after-Adds :
      (pa pb : ℕ) (m : Ranges)
      → pa ≤ first
      → pa ≤ pb
      → Apart pb m
      → Adds first last ((pa, pb) ∷ m) (add_after first last pa pb m)
  unfolding add_after
  add_after-Adds pa pb [] h le p = insert_after-Adds pa pb [] h le tt tt
  add_after-Adds pa pb ((a, b) ∷ rest) h le p = elim (Bool-cases (leb a first)) [
    | inl e ↦ rw e (
        Adds-cons pa pb ((a, b) ∷ rest) (add_after first last a b rest) (ground arith)
          (add_after-Adds a b rest (leb→le a first e) p.1 p.2))
    | inr e ↦ rw e (insert_after-Adds pa pb ((a, b) ∷ rest) h le p (leb→lt a first e, p.1, p.2))
  ]

  -- To separated ranges, [first, last) with first at most last is added or not. If it is, exactly its
  -- bytes are covered besides, and the total grows by its length; the payload is then new, so that
  -- no byte counts twice.
  pub add_payload_range-Adds :
      (m : Ranges) → IsSeparated m → Adds first last m (add_payload_range first last m)
  unfolding add_payload_range
  add_payload_range-Adds [] s = insert_first-Adds [] tt
  add_payload_range-Adds ((a, b) ∷ rest) s = elim (Bool-cases (leb a first)) [
    | inl e ↦ rw e (add_after-Adds a b rest (leb→le a first e) s.0 s.1)
    | inr e ↦ rw e (insert_first-Adds ((a, b) ∷ rest) (leb→lt a first e, s.0, s.1))
  ]
