-- ===== src/Common/MemoryPool.antt =====
-- The memory pool: src/common_memory_pool.cpp and include/spead2/common_memory_pool.h. The base
-- allocator stands for any memory_allocator: each of its calls gives a buffer at a new address.
use spead.Prelude.{
  ℕ, zero, suc, ◌+◌, ◌-◌, ◌≤◌, Bool, true, false, ◌&&◌, not, List, [], ◌∷◌, Option, none, some, ltb,
  leb, ◌==◌, if◌then◌else◌, length, replicate,
}
pub mod Invariant
pub mod Refill
pub mod History
mod Runs

-- Whose deleter a buffer has: to be given back to the pool, or to the base allocator.
pub data Owner : Type 0 where
  owned_by_pool owned_by_base : Owner

-- memory_allocator::pointer, with the bytes that were allocated for it.
pub record Buffer : Type 0 where
  pub address : ℕ
  pub bytes : ℕ
  pub owner : Owner

-- A memory_pool and what it shares with others: `next_address` is the base allocator's state, and
-- `tasks` counts the refills posted to the io_service that have not ended. `pool` is the stack, its
-- top first.
pub record MemoryPool : Type 0 where
  pub lower : ℕ
  pub upper : ℕ
  pub max_free : ℕ
  pub initial : ℕ
  pub low_water : ℕ
  pub pool : List Buffer
  pub refilling : Bool
  pub warn_on_empty : Bool
  pub next_address : ℕ
  pub tasks : ℕ

-- base_allocator->allocate(size, nullptr)
pub base_allocate : MemoryPool → ℕ → Buffer × MemoryPool
base_allocate p size = (
  record { address = p.next_address; bytes = size; owner = owned_by_base },
  record p { next_address = p.next_address + 1 },
)

-- The loop of the constructor: `n` more buffers.
pub fill : ℕ → MemoryPool → MemoryPool
unfolding base_allocate
fill zero p = p
fill (suc n) p = let (b, p') = base_allocate p p.upper in fill n (record p' { pool = b ∷ p'.pool })

-- The constructor; its asserts are a hypothesis of the theorems.
pub memory_pool : ℕ → ℕ → ℕ → ℕ → ℕ → ℕ → MemoryPool
unfolding fill
memory_pool lower upper max_free initial low_water next_address = fill initial (record {
  lower = lower;
  upper = upper;
  max_free = max_free;
  initial = initial;
  low_water = low_water;
  pool = [];
  refilling = false;
  warn_on_empty = true;
  next_address = next_address;
  tasks = 0;
})

-- free, which the deleter of a converted buffer calls: the buffer goes to the pool, as the base
-- allocator's, unless the pool is full; then the flag says that the base allocator frees it.
pub free : MemoryPool → Buffer → Bool × MemoryPool
free p b =
    if ltb (length p.pool) p.max_free
    then (false, record p { pool = record b { owner = owned_by_base } ∷ p.pool })
    else (true, p)

pub convert : Buffer → Buffer
convert b = record b { owner = owned_by_pool }

-- The test after a buffer is taken: a refill is posted at the low water mark.
pub post_refill : MemoryPool → MemoryPool
post_refill p =
    if ltb (length p.pool) p.low_water && not p.refilling
    then record p { refilling = true; tasks = p.tasks + 1 }
    else p

pub allocate : MemoryPool → ℕ → Buffer × MemoryPool
unfolding base_allocate convert post_refill
allocate p size =
    if leb p.lower size && leb size p.upper
    then elim p.pool [
      | b ∷ rest ↦ (convert b, post_refill (record p { pool = rest }))
      | [] ↦ let (b, p') = base_allocate p p.upper in (convert b, p')
    ]
    else base_allocate p size

-- One round of the loop of refill, with the pool alive; the flag is the `break` of the last one.
-- Each round takes the lock anew, so that other calls may come between two rounds.
pub refill_round : MemoryPool → Bool × MemoryPool
unfolding base_allocate
refill_round p =
    let (b, p1) = base_allocate p p.upper in
    let p2 = if ltb (length p1.pool) p1.max_free then record p1 { pool = b ∷ p1.pool } else p1 in
    if leb p2.initial (length p2.pool)
    then (true, record p2 { refilling = false; tasks = p2.tasks - 1 })
    else (false, p2)

-- The whole loop where no other call gets the lock between two rounds; `none` is out of fuel. With
-- other calls in between there is no bound on the rounds: History has each round as a step.
pub refill : ℕ → MemoryPool → Option MemoryPool
unfolding refill_round
refill zero p = none
refill (suc fuel) p =
    let (ended, p') = refill_round p in elim ended [ true ↦ some p' | false ↦ refill fuel p' ]
