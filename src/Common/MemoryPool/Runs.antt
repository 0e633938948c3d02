-- ===== src/Common/MemoryPool/Runs.antt =====
-- A pool of buffers of 100 bytes, of which two are there from the start.
use spead.Prelude.{ℕ, ◌+◌, ◌≤◌, ◌≡◌, true, false, List, [], ◌∷◌, some, length, if◌then◌else◌, arith}
use spead.Common.MemoryPool.{MemoryPool, Buffer, memory_pool, allocate, refill}
use spead.Common.MemoryPool.Invariant.{count_at}
use spead.Common.MemoryPool.Refill.{refill_ends}
use spead.Common.MemoryPool.History.{allocates, Reach, fresh, later, pool_safe, allocate_serves}

abbrev new_pool : MemoryPool
new_pool = memory_pool 10 100 4 2 1 0

abbrev taken_pool : MemoryPool
taken_pool = (allocate new_pool 50).1

abbrev taken_buffers : List Buffer
taken_buffers = (allocate new_pool 50).0 ∷ []

taken-Reach : Reach new_pool taken_pool taken_buffers
taken-Reach = later fresh (allocates new_pool [] 50)

pool_safe_example :
    (length taken_pool.pool ≤ taken_pool.max_free)
    × ((a : ℕ) → count_at a taken_pool.pool + count_at a taken_buffers ≤ 1)
    × (taken_pool.tasks ≡ (if taken_pool.refilling then 1 else 0))
pool_safe_example = pool_safe 10 100 4 2 1 0 taken_pool taken_buffers (omega arith) taken-Reach

allocate_serves_example :
    (60 ≤ (allocate taken_pool 60).0.bytes)
    × (count_at (allocate taken_pool 60).0.address (allocate taken_pool 60).1.pool ≡ 0)
    × (count_at (allocate taken_pool 60).0.address taken_buffers ≡ 0)
allocate_serves_example =
    allocate_serves 10 100 4 2 1 0 60 taken_pool taken_buffers (omega arith) taken-Reach

abbrev low_pool : MemoryPool
low_pool = record {
  lower = 10;
  upper = 100;
  max_free = 4;
  initial = 2;
  low_water = 1;
  pool = [];
  refilling = true;
  warn_on_empty = true;
  next_address = 2;
  tasks = 1;
}

refill_ends_example :
    (p' : MemoryPool) × (refill 3 low_pool ≡ some p')
    × (low_pool.initial ≤ length p'.pool)
    × (p'.refilling ≡ false)
refill_ends_example = refill_ends 3 low_pool (omega arith) (omega arith)
