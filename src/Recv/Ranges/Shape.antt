-- ===== src/Recv/Ranges/Shape.antt =====
-- add_payload_range keeps the map sorted, its ranges apart, and within a bound.
use spead.Prelude.{
  ℕ, ◌≤◌, ◌<◌, ◌≡◌, false, [], ◌∷◌, leb, arith, Bool-cases, inl, inr, leb→le, leb→lt,
}
use spead.Recv.Ranges.{
  Ranges, join_next, overlaps_next, insert_first, insert_after, add_after, add_payload_range,
}
use spead.Recv.Ranges.Coverage.{Apart, Apart-le, IsSeparated}

-- No range ends after `n`.
abbrev pub EndsBy : ℕ → Ranges → Type 0
EndsBy n [] = Unit {0}
EndsBy n ((a, b) ∷ rest) = (b ≤ n) × EndsBy n rest

pub EndsBy-le : (n k : ℕ) (m : Ranges) → n ≤ k → EndsBy n m → EndsBy k m
EndsBy-le n k [] h e = tt
EndsBy-le n k ((a, b) ∷ rest) h e = (omega arith, EndsBy-le n k rest h e.1)

module _ (first last : ℕ) (ordered : first ≤ last) where
  join_next-Apart :
      (lo : ℕ) (next : Ranges)
      → lo < first
      → Apart first next
      → overlaps_next last next ≡ false
      → Apart lo (join_next first last next)
  unfolding join_next overlaps_next
  join_next-Apart lo [] l p q = ground arith
  join_next-Apart lo ((a, b) ∷ rest) l p q = ground arith

  join_next-IsSeparated :
      (next : Ranges)
      → Apart first next
      → overlaps_next last next ≡ false
      → IsSeparated (join_next first last next)
  unfolding join_next overlaps_next
  join_next-IsSeparated [] p q = ground arith
  join_next-IsSeparated ((a, b) ∷ rest) p q = ground arith

  join_next-EndsBy :
      (n : ℕ) (next : Ranges) → last ≤ n → EndsBy n next → EndsBy n (join_next first last next)
  unfolding join_next
  join_next-EndsBy n [] l p = ground arith
  join_next-EndsBy n ((a, b) ∷ rest) l p = ground arith

module _ (first last : ℕ) (ordered : first ≤ last) where
  insert_after-Apart :
      (lo pa pb : ℕ) (next : Ranges)
      → lo < pa
      → pa ≤ first
      → pa ≤ pb
      → Apart pb next
      → Apart first next
      → Apart lo (insert_after first last pa pb next).1
  unfolding insert_after
  insert_after-Apart lo pa pb next l h le p q = ground (
    arith,
    join_next-Apart first last ordered pb next,
    join_next-Apart pa last (omega arith) lo next l (Apart-le pa first next h q),
  )

  insert_after-IsSeparated :
      (pa pb : ℕ) (next : Ranges)
      → pa ≤ first
      → pa ≤ pb
      → Apart pb next
      → Apart first next
      → IsSeparated (insert_after first last pa pb next).1
  unfolding insert_after
  insert_after-IsSeparated pa pb next h le p q = ground (
    arith,
    join_next-Apart first last ordered pb next,
    join_next-IsSeparated pa last (omega arith) next (Apart-le pa first next h q),
  )

  insert_after-EndsBy :
      (n pa pb : ℕ) (next : Ranges)
      → last ≤ n
      → pb ≤ n
      → pa ≤ first
      → EndsBy n next
      → EndsBy n (insert_after first last pa pb next).1
  unfolding insert_after
  insert_after-EndsBy n pa pb next l b h p = ground (
    arith,
    join_next-EndsBy first last ordered n next l p,
    join_next-EndsBy pa last (omega arith) n next l p,
  )

  add_after-Apart :
      (lo pa pb : ℕ) (m : Ranges)
      → lo < pa
      → pa ≤ first
      → pa ≤ pb
      → Apart pb m
      → Apart lo (add_after first last pa pb m).1
  unfolding add_after
  add_after-Apart lo pa pb [] l h le p = insert_after-Apart lo pa pb [] l h le tt tt
  add_after-Apart lo pa pb ((a, b) ∷ rest) l h le p = elim (Bool-cases (leb a first)) [
    | inl e ↦ rw e (l, le, add_after-Apart pb a b rest p.0 (leb→le a first e) p.1 p.2)
    | inr e ↦
        rw e (insert_after-Apart lo pa pb ((a, b) ∷ rest) l h le p (leb→lt a first e, p.1, p.2))
  ]

  add_after-EndsBy :
      (n pa pb : ℕ) (m : Ranges)
      → last ≤ n
      → pb ≤ n
      → pa ≤ first
      → EndsBy n m
      → EndsBy n (add_after first last pa pb m).1
  unfolding add_after
  add_after-EndsBy n pa pb [] l b h p = insert_after-EndsBy n pa pb [] l b h tt
  add_after-EndsBy n pa pb ((a, b') ∷ rest) l b h p = elim (Bool-cases (leb a first)) [
    | inl e ↦ rw e (b, add_after-EndsBy n a b' rest l p.0 (leb→le a first e) p.1)
    | inr e ↦ rw e (insert_after-EndsBy n pa pb ((a, b') ∷ rest) l b h p)
  ]

  add_after-IsSeparated :
      (pa pb : ℕ) (m : Ranges)
      → pa ≤ first
      → pa ≤ pb
      → Apart pb m
      → IsSeparated (add_after first last pa pb m).1
  unfolding add_after
  add_after-IsSeparated pa pb [] h le p = insert_after-IsSeparated pa pb [] h le tt tt
  add_after-IsSeparated pa pb ((a, b) ∷ rest) h le p = elim (Bool-cases (leb a first)) [
    | inl e ↦ rw e (le, add_after-Apart pb a b rest p.0 (leb→le a first e) p.1 p.2)
    | inr e ↦
        rw e (insert_after-IsSeparated pa pb ((a, b) ∷ rest) h le p (leb→lt a first e, p.1, p.2))
  ]

  -- Ranges that are in order with gaps in between stay so: neighbours that meet are joined.
  pub add_payload_range-IsSeparated :
      (m : Ranges) → IsSeparated m → IsSeparated (add_payload_range first last m).1
  unfolding add_payload_range insert_first
  add_payload_range-IsSeparated [] s =
      ground (arith, join_next-IsSeparated first last ordered [] tt)
  add_payload_range-IsSeparated ((a, b) ∷ rest) s = elim (Bool-cases (leb a first)) [
    | inl e ↦ rw e (add_after-IsSeparated a b rest (leb→le a first e) s.0 s.1)
    | inr e ↦ rw e (
        ground (
          arith,
          join_next-IsSeparated first last ordered ((a, b) ∷ rest) (leb→lt a first e, s.0, s.1),
        ))
  ]

  pub add_payload_range-EndsBy :
      (n : ℕ) (m : Ranges) → last ≤ n → EndsBy n m → EndsBy n (add_payload_range first last m).1
  unfolding add_payload_range insert_first
  add_payload_range-EndsBy n [] l p = ground (arith, join_next-EndsBy first last ordered n [] l tt)
  add_payload_range-EndsBy n ((a, b) ∷ rest) l p = elim (Bool-cases (leb a first)) [
    | inl e ↦ rw e (add_after-EndsBy n a b rest l p.0 (leb→le a first e) p.1)
    | inr e ↦ rw e (ground (arith, join_next-EndsBy first last ordered n ((a, b) ∷ rest) l p))
  ]
