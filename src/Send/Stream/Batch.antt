-- ===== src/Send/Stream/Batch.antt =====
-- The packets that are being transmitted, and what process_results makes of their results.
use spead.Prelude.{
  ℕ, ◌+◌, ◌-◌, ◌≤◌, ◌<◌, ◌≡◌, ◌≢◌, ◌⊎◌, inl, refl, true, List, [], ◌∷◌, ◌++◌, Option, none, some,
  if◌then◌else◌, length, ne→==, arith, is_some, map, drop,
}
use spead.Common.RingBuffer.{next}
use spead.Common.RingBuffer.Slots.{Represents, place}
use spead.Send.Heap.{Heap}
use spead.Send.Generator.{one_if}
use spead.Send.Stream.{QueueItem, TransmitPacket, Completion, StreamImpl, process_packet}
use spead.Send.Stream.Queue.{ring}

-- The packets are of the `n` items from `slot` on, in order: all that are left of `m` items, and then
-- some of the one after these.
abbrev pub Follow : (cap slot n m : ℕ) → List TransmitPacket → Type 0
Follow cap slot n m [] = m ≡ 0
Follow cap slot n m (p ∷ packets) =
    (p.item ≡ slot)
    × (0 < n)
    × (p.last ≡ true → 0 < m)
    × Follow cap (if p.last then next cap slot else slot) (n - one_if p.last) (m - one_if p.last)
        packets

abbrev pub cap_of : StreamImpl → ℕ
cap_of s = s.config.max_heaps + 1

-- Before packets that follow one another from `slot` on: the item there is the first of the queue.
pub record Synced (s : StreamImpl) (slot n m : ℕ) (items : List QueueItem) : Type 0 where
  pub holds : Represents (ring s) items
  pub here : s.queue_head ≡ slot
  pub count : length items ≡ n
  pub within : m ≤ n
  pub active_at : s.active ≡ place (cap_of s) s.queue_head m
  pub partial : is_some s.gen ≡ true → m < n

-- The item there has failed, and the packets that are left of it are passed over.
pub record Aborted (s : StreamImpl) (slot n m : ℕ) (items : List QueueItem) : Type 0 where
  pub holds : Represents (ring s) items
  pub gone : next (cap_of s) slot ≡ s.queue_head
  pub inside : slot < cap_of s
  pub several : 1 < cap_of s
  pub count : length items + 1 ≡ n
  pub within : m ≤ n
  pub active_at : s.active ≡ place (cap_of s) s.queue_head (m - 1)
  pub partial : is_some s.gen ≡ true → (0 < m) × (m < n)

abbrev pub At : (s : StreamImpl) (slot n m : ℕ) (items : List QueueItem) → Type 0
At s slot n m items = Synced s slot n m items ⊎ Aborted s slot n m items

-- What the loop leaves alone.
pub record Kept (s s' : StreamImpl) : Type 0 where
  pub config : s'.config ≡ s.config
  pub most : s'.max_current_packets ≡ s.max_current_packets
  pub gen : (s'.gen ≡ s.gen) ⊎ (s'.gen ≡ none)

abbrev pub handlers : List QueueItem → List ℕ
handlers = map (λ (it : QueueItem). it.handler)

abbrev pub heaps : List QueueItem → List Heap
heaps = map (λ (it : QueueItem). it.heap)

abbrev pub called : List Completion → List ℕ
called = map (λ (c : Completion). c.handler)

-- The result of some rounds: completions in the order of the queue.
pub record Processed (s : StreamImpl) (items : List QueueItem) (slot n m : ℕ)
    (r : Option (List Completion × StreamImpl)) : Type 0 where
  pub posted : List Completion
  pub after : StreamImpl
  pub left : List QueueItem
  pub made : r ≡ some (posted, after)
  pub at : At after slot n m left
  pub order : called posted ++ handlers left ≡ handlers items
  pub same_heaps : heaps left ≡ drop (length posted) (heaps items)
  pub kept : Kept s after

pub Kept-refl : (s : StreamImpl) → Kept s s
Kept-refl s = record { config = refl; most = refl; gen = inl refl }

abbrev pub step_slot : StreamImpl → TransmitPacket → ℕ → ℕ
step_slot s p slot = if p.last then next (cap_of s) slot else slot

-- The item `m` places on is the first only for `m` = 0.
pub place-head : (cap head m : ℕ) → head < cap → 0 < m → m < cap → place cap head m ≢ head
place-head cap head m h p l = ground arith

pub place-none : (cap head : ℕ) → head < cap → place cap head 0 ≡ head
place-none cap head h = ground arith

pub skipped :
    (s : StreamImpl) (p : TransmitPacket)
    → p.item ≢ s.queue_head
    → process_packet p s ≡ some ([], s)
unfolding process_packet
skipped s p elsewhere = let test = ne→== p.item s.queue_head elsewhere in rw test refl
