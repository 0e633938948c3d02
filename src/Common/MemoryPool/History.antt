-- ===== src/Common/MemoryPool/History.antt =====
-- A memory pool through any history of calls.
use spead.Prelude.{
  ℕ, zero, suc, ◌+◌, ◌≤◌, ◌≡◌, refl, subst, true, List, [], ◌∷◌, ◌++◌, All, length, arith, leb,
  ◌&&◌, Bool-cases, List-cases, inl, inr, if◌then◌else◌,
}
use spead.Common.MemoryPool.{
  MemoryPool, Buffer, owned_by_pool, base_allocate, fill, memory_pool, free, allocate, refill_round,
  convert,
}
use spead.Common.MemoryPool.Invariant.{
  Inv, new_pooled-Inv, allocate-Inv, free-Inv, refill_round-Inv, count_at, IsPooled,
}

fill-Inv : (n : ℕ) (p : MemoryPool) → length p.pool + n ≤ p.max_free → Inv p [] → Inv (fill n p) []
unfolding fill base_allocate
fill-Inv zero p h v = v
fill-Inv (suc n) p h v = fill-Inv n _ (omega arith) (new_pooled-Inv p [] v (omega arith))

memory_pool-Inv :
    (lower upper max_free initial low_water next_address : ℕ)
    → initial ≤ max_free
    → Inv (memory_pool lower upper max_free initial low_water next_address) []
unfolding memory_pool
memory_pool-Inv lower upper max_free initial low_water next_address h =
    fill-Inv initial _ (omega arith) (record {
      bounded = omega arith;
      ordered = h;
      pooled = tt;
      in_use = tt;
      pool_old = tt;
      used_old = tt;
      exclusive = λ a. omega arith;
      one_task = refl;
    })

allocate_fits :
    (p : MemoryPool) (used : List Buffer) (size : ℕ) → Inv p used → size ≤ (allocate p size).0.bytes
unfolding allocate base_allocate convert
allocate_fits p used size v = elim (Bool-cases (leb p.lower size && leb size p.upper)) [
  | inl inside ↦ elim (List-cases p.pool) [
    | inl empty ↦ rw (inside, empty, allocate) (ground arith)
    | inr (b, rest, e) ↦
        let pooled = subst (All (IsPooled p.upper)) e v.pooled in
        rw (inside, e, allocate) (ground (arith, pooled.0.0))
  ]
  | inr outside ↦ rw outside (omega arith)
]

-- A call, with the buffers that the clients hold before and after it. A round of refill runs only
-- while a task is posted.
pub data Step : MemoryPool → List Buffer → MemoryPool → List Buffer → Type 0 where
  allocates :
      (p : MemoryPool) (used : List Buffer) (size : ℕ)
      → Step p used (allocate p size).1 ((allocate p size).0 ∷ used)
  frees :
      (p : MemoryPool) (xs ys : List Buffer) (b : Buffer)
      → b.owner ≡ owned_by_pool
      → Step p (xs ++ b ∷ ys) (free p b).1 (xs ++ ys)
  refills :
      (p : MemoryPool) (used : List Buffer)
      → p.refilling ≡ true
      → Step p used (refill_round p).1 used

pub data Reach (start : MemoryPool) : MemoryPool → List Buffer → Type 0 where
  fresh : Reach start start []
  later :
      {p q : MemoryPool} {used used' : List Buffer}
      → Reach start p used
      → Step p used q used'
      → Reach start q used'

Step-Inv :
    {p q : MemoryPool} {used used' : List Buffer} → Step p used q used' → Inv p used → Inv q used'
Step-Inv (allocates p used size) v = allocate-Inv p used size v
Step-Inv (frees p xs ys b mine) v = free-Inv p xs ys b mine v
Step-Inv (refills p used running) v = refill_round-Inv p used running v

Reach-Inv :
    {start p : MemoryPool} {used : List Buffer} → Inv start [] → Reach start p used → Inv p used
Reach-Inv h fresh = h
Reach-Inv h (later r st) = Step-Inv st (Reach-Inv h r)

-- After any history of a pool made with initial at most max_free: the stack is within max_free, no
-- buffer is both on the stack and in use or in use twice, and at most one refill is posted, exactly
-- while `refilling` is set.
pub pool_safe :
    (lower upper max_free initial low_water next_address : ℕ) (p : MemoryPool) (used : List Buffer)
    → initial ≤ max_free
    → Reach (memory_pool lower upper max_free initial low_water next_address) p used
    → (length p.pool ≤ p.max_free)
      × ((a : ℕ) → count_at a p.pool + count_at a used ≤ 1)
      × (p.tasks ≡ (if p.refilling then 1 else 0))
pool_safe lower upper max_free initial low_water next_address p used h r =
    let v = Reach-Inv (memory_pool-Inv lower upper max_free initial low_water next_address h) r in
    (v.bounded, v.exclusive, v.one_task)

-- After any history of a pool made with initial at most max_free, a request of any size gets a
-- buffer that is large enough, at an address that neither the stack nor any client has.
pub allocate_serves :
    (lower upper max_free initial low_water next_address size : ℕ) (p : MemoryPool)
    (used : List Buffer)
    → initial ≤ max_free
    → Reach (memory_pool lower upper max_free initial low_water next_address) p used
    → (size ≤ (allocate p size).0.bytes)
      × (count_at (allocate p size).0.address (allocate p size).1.pool ≡ 0)
      × (count_at (allocate p size).0.address used ≡ 0)
allocate_serves lower upper max_free initial low_water next_address size p used h r =
    let v = Reach-Inv (memory_pool-Inv lower upper max_free initial low_water next_address h) r in
    let w = allocate-Inv p used size v in
    let alone = w.exclusive (allocate p size).0.address in
    (allocate_fits p used size v, ground (arith, alone), ground (arith, alone))
