-- ===== src/Common/MemoryPool/Invariant.antt =====
-- What the pool guarantees over any sequence of allocations, frees and refill rounds.
use spead.Prelude.{
  ℕ, ◌+◌, ◌-◌, ◌≤◌, ◌<◌, ◌≡◌, refl, ap, sym, ◌∙◌, subst, ◌&&◌, ◌||◌, not, true, false, List, [],
  ◌∷◌, ◌++◌, ltb→lt, All, length, arith, Bool-cases, inl, inr, ltb, leb, ◌==◌, if◌then◌else◌,
  List-cases,
}
use spead.Common.MemoryPool.{
  MemoryPool, Buffer, Owner, owned_by_pool, owned_by_base, base_allocate, free, convert,
  post_refill, allocate, refill_round,
}

-- How many buffers of a list stand at an address.
abbrev pub count_at : ℕ → List Buffer → ℕ
count_at a [] = 0
count_at a (b ∷ bs) = (if b.address == a then 1 else 0) + count_at a bs

abbrev pub IsPooled : ℕ → Buffer → Type 0
IsPooled upper b = (b.bytes ≡ upper) × (b.owner ≡ owned_by_base)

-- A buffer in use: one of the pool's size if it goes back to the pool.
abbrev pub InUse : ℕ → Buffer → Type 0
InUse upper b = b.owner ≡ owned_by_pool → b.bytes ≡ upper

abbrev pub Before : ℕ → Buffer → Type 0
Before next b = b.address < next

-- `used` are the buffers that clients hold.
pub record Inv (p : MemoryPool) (used : List Buffer) : Type 0 where
  pub bounded : length p.pool ≤ p.max_free
  pub ordered : p.initial ≤ p.max_free
  pub pooled : All (IsPooled p.upper) p.pool
  pub in_use : All (InUse p.upper) used
  pub pool_old : All (Before p.next_address) p.pool
  pub used_old : All (Before p.next_address) used
  pub exclusive : (a : ℕ) → count_at a p.pool + count_at a used ≤ 1
  pub one_task : p.tasks ≡ (if p.refilling then 1 else 0)

Before-mono : (n k : ℕ) (bs : List Buffer) → n ≤ k → All (Before n) bs → All (Before k) bs
Before-mono n k [] h a = tt
Before-mono n k (b ∷ bs) h a = (omega (arith, a.0), Before-mono n k bs h a.1)

count_at-new : (n a : ℕ) (bs : List Buffer) → All (Before n) bs → n ≤ a → count_at a bs ≡ 0
count_at-new n a [] h e = refl
count_at-new n a (b ∷ bs) h e = ground (arith, h.0, count_at-new n a bs h.1 e)

post_refill_marks :
    (p : MemoryPool)
    → post_refill p ≡ record p {
      refilling = p.refilling || ltb (length p.pool) p.low_water;
      tasks = p.tasks + (if ltb (length p.pool) p.low_water && not p.refilling then 1 else 0);
    }
unfolding post_refill
post_refill_marks p = ground arith

module _ (p : MemoryPool) (used : List Buffer) (v : Inv p used) where
  -- The buffer on top goes to a client.
  top-Inv :
      (b : Buffer) (rest : List Buffer)
      → p.pool ≡ b ∷ rest
      → Inv (record p { pool = rest }) (convert b ∷ used)
  unfolding convert
  top-Inv b rest e =
      let pooled = subst (All (IsPooled p.upper)) e v.pooled in
      let old = subst (All (Before p.next_address)) e v.pool_old in
      record {
        bounded = omega (arith, v.bounded, ap length e);
        ordered = v.ordered;
        pooled = pooled.1;
        in_use = (λ _. pooled.0.0, v.in_use);
        pool_old = old.1;
        used_old = (old.0, v.used_old);
        exclusive = λ a. omega (arith, v.exclusive a, ap (count_at a) e);
        one_task = v.one_task;
      }

  post_refill-Inv : Inv (post_refill p) used
  post_refill-Inv =
      subst (λ q. Inv q used) (sym (post_refill_marks p))
        (record {
          bounded = v.bounded;
          ordered = v.ordered;
          pooled = v.pooled;
          in_use = v.in_use;
          pool_old = v.pool_old;
          used_old = v.used_old;
          exclusive = v.exclusive;
          one_task = ground (arith, v.one_task);
        })

  -- A new buffer of the base allocator, in a client's hands.
  new_used-Inv :
      (size : ℕ) (owner : Owner)
      → (owner ≡ owned_by_pool → size ≡ p.upper)
      → Inv
          (record p { next_address = p.next_address + 1 })
          (record { address = p.next_address; bytes = size; owner = owner } ∷ used)
  new_used-Inv size owner fits = record {
    bounded = v.bounded;
    ordered = v.ordered;
    pooled = v.pooled;
    in_use = (fits, v.in_use);
    pool_old = Before-mono p.next_address (p.next_address + 1) p.pool (omega arith) v.pool_old;
    used_old = (
      omega arith,
      Before-mono p.next_address (p.next_address + 1) used (omega arith) v.used_old,
    );
    exclusive = λ a. ground (
      arith,
      v.exclusive a,
      count_at-new p.next_address a p.pool v.pool_old,
      count_at-new p.next_address a used v.used_old,
    );
    one_task = v.one_task;
  }

  -- A new buffer of the base allocator, put on the stack.
  pub new_pooled-Inv :
      length p.pool < p.max_free
      → Inv
          (record p {
            next_address = p.next_address + 1;
            pool =
                record { address = p.next_address; bytes = p.upper; owner = owned_by_base }
                ∷ p.pool;
          })
          used
  new_pooled-Inv room = record {
    bounded = room;
    ordered = v.ordered;
    pooled = ((refl, refl), v.pooled);
    in_use = v.in_use;
    pool_old = (
      omega arith,
      Before-mono p.next_address (p.next_address + 1) p.pool (omega arith) v.pool_old,
    );
    used_old = Before-mono p.next_address (p.next_address + 1) used (omega arith) v.used_old;
    exclusive = λ a. ground (
      arith,
      v.exclusive a,
      count_at-new p.next_address a p.pool v.pool_old,
      count_at-new p.next_address a used v.used_old,
    );
    one_task = v.one_task;
  }

-- allocate keeps the invariant, with the new buffer among those in use.
pub allocate-Inv :
    (p : MemoryPool) (used : List Buffer) (size : ℕ)
    → Inv p used
    → Inv (allocate p size).1 ((allocate p size).0 ∷ used)
unfolding allocate convert
allocate-Inv p used size v = elim (Bool-cases (leb p.lower size && leb size p.upper)) [
  | inl inside ↦ elim (List-cases p.pool) [
    | inl empty ↦
        rw (inside, empty, allocate) (new_used-Inv p used v p.upper owned_by_pool (λ _. refl))
    | inr (b, rest, e) ↦
        rw (inside, e, allocate)
          (post_refill-Inv (record p { pool = rest }) (convert b ∷ used)
            (top-Inv p used v b rest e))
  ]
  | inr outside ↦ rw outside (new_used-Inv p used v size owned_by_base (λ e. absurd (cc)))
]

count_at-append :
    (a : ℕ) (xs ys : List Buffer) → count_at a (xs ++ ys) ≡ count_at a xs + count_at a ys
count_at-append a [] ys = omega arith
count_at-append a (x ∷ xs) ys = omega (arith, count_at-append a xs ys)

All-without :
    (P : Buffer → Type 0) (xs ys : List Buffer) (b : Buffer)
    → All P (xs ++ b ∷ ys)
    → P b × All P (xs ++ ys)
All-without P [] ys b h = h
All-without P (x ∷ xs) ys b h = let (hb, rest) = All-without P xs ys b h.1 in (hb, (h.0, rest))

-- A client gives back one of the pool's buffers that it holds: the pool keeps it, or it is freed.
pub free-Inv :
    (p : MemoryPool) (xs ys : List Buffer) (b : Buffer)
    → b.owner ≡ owned_by_pool
    → Inv p (xs ++ b ∷ ys)
    → Inv (free p b).1 (xs ++ ys)
unfolding free
free-Inv p xs ys b mine v =
    let (fits, in_use) = All-without (InUse p.upper) xs ys b v.in_use in
    let (old, used_old) = All-without (Before p.next_address) xs ys b v.used_old in
    let count = λ (a : ℕ). count_at-append a xs (b ∷ ys) in
    let count' = λ (a : ℕ). count_at-append a xs ys in
    elim (Bool-cases (ltb (length p.pool) p.max_free)) [
      | inl room ↦ rw room (record {
        bounded = ltb→lt (length p.pool) p.max_free room;
        ordered = v.ordered;
        pooled = ((fits mine, refl), v.pooled);
        in_use = in_use;
        pool_old = (old, v.pool_old);
        used_old = used_old;
        exclusive = λ a. omega (arith, v.exclusive a, count a, count' a);
        one_task = v.one_task;
      })
      | inr full ↦ rw full (record {
        bounded = v.bounded;
        ordered = v.ordered;
        pooled = v.pooled;
        in_use = in_use;
        pool_old = v.pool_old;
        used_old = used_old;
        exclusive = λ a. ground (arith, v.exclusive a, count a, count' a);
        one_task = v.one_task;
      })
    ]

module _ (p : MemoryPool) (used : List Buffer) (v : Inv p used) where
  -- The first half of a round: the new buffer is pushed if there is room.
  abbrev background : MemoryPool
  background =
      let q = record p { next_address = p.next_address + 1 } in
      let b : Buffer = record {
        address = p.next_address;
        bytes = p.upper;
        owner = owned_by_base;
      } in
      if ltb (length p.pool) p.max_free then record q { pool = b ∷ p.pool } else q

  background-Inv : Inv background used
  background-Inv = elim (Bool-cases (ltb (length p.pool) p.max_free)) [
    | inl room ↦ rw room (new_pooled-Inv p used v (ltb→lt (length p.pool) p.max_free room))
    | inr full ↦ rw full (record {
      bounded = v.bounded;
      ordered = v.ordered;
      pooled = v.pooled;
      in_use = v.in_use;
      pool_old = Before-mono p.next_address (p.next_address + 1) p.pool (omega arith) v.pool_old;
      used_old = Before-mono p.next_address (p.next_address + 1) used (omega arith) v.used_old;
      exclusive = v.exclusive;
      one_task = v.one_task;
    })
  ]

  ended-Inv : p.refilling ≡ true → Inv (record p { refilling = false; tasks = p.tasks - 1 }) used
  ended-Inv running = record {
    bounded = v.bounded;
    ordered = v.ordered;
    pooled = v.pooled;
    in_use = v.in_use;
    pool_old = v.pool_old;
    used_old = v.used_old;
    exclusive = v.exclusive;
    one_task = ground (arith, v.one_task);
  }

  background-refilling : background.refilling ≡ p.refilling
  background-refilling = ground arith

-- A round of a refill keeps the invariant, and the last round ends the task.
pub refill_round-Inv :
    (p : MemoryPool) (used : List Buffer)
    → p.refilling ≡ true
    → Inv p used
    → Inv (refill_round p).1 used
unfolding refill_round base_allocate
refill_round-Inv p used running v =
    let q = background p used v in
    elim (Bool-cases (leb q.initial (length q.pool))) [
      | inl ended ↦
          rw ended
            (ended-Inv q used (background-Inv p used v) (background-refilling p used v ∙ running))
      | inr more ↦ rw more (background-Inv p used v)
    ]
