-- ===== src/Common/MemoryPool/Refill.antt =====
-- The loop of refill ends, with the pool at its initial size again.
use spead.Prelude.{
  ℕ, zero, suc, ◌+◌, ◌-◌, ◌≤◌, ◌<◌, ◌≡◌, refl, true, false, length, arith, Bool-cases, inl, inr,
  some,
}
use spead.Common.MemoryPool.{MemoryPool, refill_round, refill}

-- A round that is not the last adds a buffer; the last one leaves enough.
refill_round_grows :
    (p : MemoryPool)
    → p.initial ≤ p.max_free
    → (refill_round p).0 ≡ false
    → (length (refill_round p).1.pool ≡ length p.pool + 1)
      × (length p.pool + 1 < p.initial)
      × ((refill_round p).1.initial ≡ p.initial)
      × ((refill_round p).1.max_free ≡ p.max_free)
unfolding refill_round
refill_round_grows p h e = (ground arith, ground arith, ground arith, ground arith)

refill_round_last :
    (p : MemoryPool)
    → (refill_round p).0 ≡ true
    → (p.initial ≤ length (refill_round p).1.pool) × ((refill_round p).1.refilling ≡ false)
unfolding refill_round
refill_round_last p e = (ground arith, ground arith)

-- Where no other call comes between the rounds of refill and the pool stays alive, and its initial
-- size is at most max_free: with a round for each missing buffer, and one more, the loop ends; then
-- the pool has its initial size at least, and may be refilled anew.
pub refill_ends :
    (fuel : ℕ) (p : MemoryPool)
    → p.initial ≤ p.max_free
    → p.initial - length p.pool < fuel
    → (p' : MemoryPool) × (refill fuel p ≡ some p')
      × (p.initial ≤ length p'.pool)
      × (p'.refilling ≡ false)
unfolding refill
refill_ends zero p h enough = elim enough [ ]
refill_ends (suc fuel) p h enough = elim (Bool-cases (refill_round p).0) [
  | inl last ↦
      let (size, free) = refill_round_last p last in
      ((refill_round p).1, rw (last, refill) refl, size, free)
  | inr more ↦
      let (grown, missing, same_initial, same_max) = refill_round_grows p h more in
      let (p', done, size, free) =
        refill_ends fuel (refill_round p).1 (omega arith) (omega arith) in
      (p', rw (more, refill) done, omega arith, free)
]
