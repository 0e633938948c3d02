-- ===== src/Recv/Stream.antt =====
-- The heaps being received of a stream: stream_base of src/recv_stream.cpp and
-- include/spead2/recv_stream.h.
use spead.Prelude.{
  ℕ, zero, suc, ◌+◌, ◌-◌, ◌*◌, ◌/◌, ◌%◌, ◌^◌, Bool, true, false, ◌&&◌, not, List, [], ◌∷◌, ◌++◌,
  Option, none, some, ltb, ◌==◌, if◌then◌else◌, get_elem?, set, drop, replicate, max, is_some,
}
use spead.Recv.Packet.{PacketHeader, decode_packet}
use spead.Recv.LiveHeap.{LiveHeap, PacketMemcpy, live_heap, add_packet, is_complete}
pub mod Buckets
pub mod Packets
mod Runs

-- stream_stats
pub record Stats : Type 0 where
  pub heaps : ℕ
  pub incomplete_heaps_evicted : ℕ
  pub incomplete_heaps_flushed : ℕ
  pub packets : ℕ
  pub batches : ℕ
  pub worker_blocked : ℕ
  pub max_batch : ℕ
  pub single_packet_heaps : ℕ
  pub search_dist : ℕ

-- operator+= and, on a copy, operator+
pub add_stats : Stats → Stats → Stats
add_stats a b = record {
  heaps = a.heaps + b.heaps;
  incomplete_heaps_evicted = a.incomplete_heaps_evicted + b.incomplete_heaps_evicted;
  incomplete_heaps_flushed = a.incomplete_heaps_flushed + b.incomplete_heaps_flushed;
  packets = a.packets + b.packets;
  batches = a.batches + b.batches;
  worker_blocked = a.worker_blocked + b.worker_blocked;
  max_batch = max a.max_batch b.max_batch;
  single_packet_heaps = a.single_packet_heaps + b.single_packet_heaps;
  search_dist = a.search_dist + b.search_dist;
}

abbrev pub no_stats : Stats
no_stats = record {
  heaps = 0;
  incomplete_heaps_evicted = 0;
  incomplete_heaps_flushed = 0;
  packets = 0;
  batches = 0;
  worker_blocked = 0;
  max_batch = 0;
  single_packet_heaps = 0;
  search_dist = 0;
}

-- A queue_entry pointer: INVALID_ENTRY, NULL, or the slot with that index.
pub data Link : Type 0 where
  invalid_entry null : Link
  entry : ℕ → Link

-- A slot is constructed iff `next` is not INVALID_ENTRY.
pub record QueueEntry : Type 0 where
  pub next : Link
  pub heap : LiveHeap

-- `ready` are the heaps that heap_ready, which subclasses define, has been called with, in order.
pub record StreamBase : Type 0 where
  pub queue_storage : List QueueEntry
  pub bucket_count : ℕ
  pub bucket_shift : ℕ
  pub buckets : List Link
  pub head : ℕ
  pub max_heaps : ℕ
  pub bug_compat : ℕ
  pub stopped : Bool
  pub stats : Stats
  pub ready : List LiveHeap

-- The loop of compute_bucket_count, whose rounds the fuel counts.
unfoldable pub double_until : ℕ → ℕ → ℕ → Option ℕ
double_until zero buckets max_heaps = if ltb buckets max_heaps then none else some buckets
double_until (suc fuel) buckets max_heaps =
    if ltb buckets max_heaps then double_until fuel (buckets * 2) max_heaps else some buckets

-- compute_bucket_count, with its last doubling: `max_heaps` rounds are enough.
unfoldable pub compute_bucket_count : ℕ → Option ℕ
unfolding double_until
compute_bucket_count max_heaps = elim (double_until max_heaps 4 max_heaps) [
  | none ↦ none
  | some buckets ↦ some (buckets * 4)
]

-- The loop of compute_bucket_shift: at most 64 rounds for a std::size_t.
unfoldable pub halve_until : ℕ → ℕ → ℕ → ℕ
halve_until zero shift bucket_count = shift
halve_until (suc fuel) shift bucket_count =
    if ltb 1 bucket_count then halve_until fuel (shift - 1) (bucket_count / 2) else shift

unfoldable pub compute_bucket_shift : ℕ → ℕ
unfolding halve_until
compute_bucket_shift bucket_count = halve_until 64 64 bucket_count

-- Fibonacci hashing, in 64 bits.
abbrev pub magic_factor : ℕ
magic_factor = 11400714819323198485

unfoldable pub get_bucket : ℕ → ℕ → ℕ
get_bucket bucket_shift heap_cnt = heap_cnt * magic_factor % 2 ^ 64 / 2 ^ bucket_shift

-- Storage in which nothing is constructed; the heap is never read.
abbrev pub unused_entry : QueueEntry
unused_entry = record {
  next = invalid_entry;
  heap =
      live_heap
        (record {
          heap_address_bits = 0;
          n_items = 0;
          heap_cnt = 0;
          heap_length = none;
          payload_offset = 0;
          payload_length = 0;
          pointers = [];
          payload = [];
        })
        0;
}

-- The constructor: `none` is the std::invalid_argument.
unfoldable pub stream_base : ℕ → ℕ → Option StreamBase
unfolding compute_bucket_count compute_bucket_shift
stream_base bug_compat max_heaps = elim (compute_bucket_count max_heaps) [
  | none ↦ none
  | some bucket_count ↦
      if max_heaps == 0
      then none
      else some (record {
        queue_storage = replicate max_heaps unused_entry;
        bucket_count = bucket_count;
        bucket_shift = compute_bucket_shift bucket_count;
        buckets = replicate bucket_count null;
        head = 0;
        max_heaps = max_heaps;
        bug_compat = bug_compat;
        stopped = false;
        stats = no_stats;
        ready = [];
      })
]
