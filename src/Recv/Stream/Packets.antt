-- ===== src/Recv/Stream/Packets.antt =====
-- Adding packets to a stream_base and flushing it: src/recv_stream.cpp. `none` is a failed assert.
use spead.Prelude.{
  ℕ, zero, suc, ◌+◌, Bool, true, false, ◌&&◌, not, List, [], ◌∷◌, ◌++◌, Option, none, some, ltb,
  ◌==◌, if◌then◌else◌, get_elem?, set, drop, length, max,
}
use spead.Recv.Packet.{PacketHeader, decode_packet}
use spead.Recv.LiveHeap
use spead.Recv.LiveHeap.{PacketMemcpy, live_heap, is_complete}
use spead.Recv.Stream.{
  Link, invalid_entry, null, entry, QueueEntry, StreamBase, get_bucket, unused_entry,
}

-- *cast(i)
abbrev pub slot : List QueueEntry → ℕ → QueueEntry
slot storage i = elim (get_elem? storage i) [ none ↦ unused_entry | some e ↦ e ]

abbrev pub set_next : List QueueEntry → ℕ → Link → List QueueEntry
set_next storage i next = set storage i (record (slot storage i) { next = next })

abbrev pub bucket : List Link → ℕ → Link
bucket buckets i = elim (get_elem? buckets i) [ none ↦ null | some l ↦ l ]

abbrev pub is_valid : Link → Bool
is_valid invalid_entry = false
is_valid null = true
is_valid (entry i) = true

-- The loop of unlink_entry, from the pointer `*prev` on: what `*prev` becomes, and the storage with
-- the change of the `next` that `prev` has moved on to. The fuel bounds the chain.
unfoldable pub unlink_from : ℕ → List QueueEntry → ℕ → Link → Option (Link × List QueueEntry)
unlink_from zero storage target prev = none
unlink_from (suc fuel) storage target invalid_entry = none
unlink_from (suc fuel) storage target null = none
unlink_from (suc fuel) storage target (entry j) =
    let rest = unlink_from fuel storage target (slot storage j).next in
    if j == target then some ((slot storage j).next, storage) else elim rest [
      | none ↦ none
      | some (next, storage') ↦ some (entry j, set_next storage' j next)
    ]

unfoldable pub unlink_entry : StreamBase → ℕ → Option StreamBase
unfolding unlink_from
unlink_entry s i =
    let bucket_id = get_bucket s.bucket_shift (slot s.queue_storage i).heap.cnt in
    if is_valid (slot s.queue_storage i).next
    then elim (unlink_from (s.max_heaps + 1) s.queue_storage i (bucket s.buckets bucket_id)) [
      | none ↦ none
      | some (first, storage) ↦ some (record s {
        buckets = set s.buckets bucket_id first;
        queue_storage = set_next storage i invalid_entry;
      })
    ]
    else none

-- The search of add_packet along a chain: the slot with the heap ID, if any, and search_dist.
unfoldable pub find_heap : ℕ → List QueueEntry → ℕ → Link → ℕ → Option (Option ℕ × ℕ)
find_heap zero storage heap_cnt link search_dist = none
find_heap (suc fuel) storage heap_cnt invalid_entry search_dist = none
find_heap (suc fuel) storage heap_cnt null search_dist = some (none, search_dist)
find_heap (suc fuel) storage heap_cnt (entry j) search_dist =
    let rest = find_heap fuel storage heap_cnt (slot storage j).next (search_dist + 1) in
    if (slot storage j).heap.cnt == heap_cnt then some (some j, search_dist) else rest

-- add_packet_state, with what its constructor copies from the stream's configuration.
pub record AddPacketState : Type 0 where
  pub memcpy : PacketMemcpy
  pub stop_on_stop_item : Bool
  pub allow_unsized_heaps : Bool
  pub packets : ℕ
  pub complete_heaps : ℕ
  pub incomplete_heaps_evicted : ℕ
  pub single_packet_heaps : ℕ
  pub search_dist : ℕ

unfoldable pub add_packet_state : PacketMemcpy → Bool → Bool → AddPacketState
add_packet_state memcpy stop_on_stop_item allow_unsized_heaps = record {
  memcpy = memcpy;
  stop_on_stop_item = stop_on_stop_item;
  allow_unsized_heaps = allow_unsized_heaps;
  packets = 0;
  complete_heaps = 0;
  incomplete_heaps_evicted = 0;
  single_packet_heaps = 0;
  search_dist = 0;
}

-- The destructor: the batch goes into the statistics.
unfoldable pub end_batch : AddPacketState → StreamBase → StreamBase
end_batch state s = if state.packets == 0 && s.stopped then s else record s {
  stats = record (s.stats) {
    packets = s.stats.packets + state.packets;
    batches = s.stats.batches + 1;
    heaps = s.stats.heaps + (state.complete_heaps + state.incomplete_heaps_evicted);
    incomplete_heaps_evicted = s.stats.incomplete_heaps_evicted + state.incomplete_heaps_evicted;
    single_packet_heaps = s.stats.single_packet_heaps + state.single_packet_heaps;
    search_dist = s.stats.search_dist + state.search_dist;
    max_batch = max s.stats.max_batch state.packets;
  };
}

-- `if (++head == max_heaps) head = 0;`
unfoldable pub next_head : StreamBase → ℕ
next_head s = if s.head + 1 == s.max_heaps then 0 else s.head + 1

-- unlink_entry and heap_ready for the heap of a slot.
unfoldable pub eject : StreamBase → ℕ → Option StreamBase
unfolding unlink_entry
eject s i = elim (unlink_entry s i) [
  | none ↦ none
  | some s' ↦ some (record s' { ready = s.ready ++ (slot s.queue_storage i).heap ∷ [] })
]

-- One round of flush_unlocked: the slot at the next head, and whether it held a heap.
unfoldable pub flush_slot : StreamBase → Option (Bool × StreamBase)
unfolding next_head eject
flush_slot s =
    let s1 = record s { head = next_head s } in
    if is_valid (slot s.queue_storage s1.head).next
    then elim (eject s1 s1.head) [ none ↦ none | some s2 ↦ some (true, s2) ]
    else some (false, s1)

-- The loop of flush_unlocked: `n` rounds, and the number of heaps flushed.
unfoldable pub flush_rounds : ℕ → StreamBase → Option (ℕ × StreamBase)
unfolding flush_slot
flush_rounds zero s = some (0, s)
flush_rounds (suc n) s = elim (flush_slot s) [
  | none ↦ none
  | some (held, s1) ↦ elim (flush_rounds n s1) [
    | none ↦ none
    | some (flushed, s2) ↦ some ((if held then flushed + 1 else flushed), s2)
  ]
]

unfoldable pub flush_unlocked : StreamBase → Option StreamBase
unfolding flush_rounds
flush_unlocked s = elim (flush_rounds s.max_heaps s) [
  | none ↦ none
  | some (n_flushed, s') ↦ some (record s' {
    stats = record (s'.stats) {
      heaps = s'.stats.heaps + n_flushed;
      incomplete_heaps_flushed = s'.stats.incomplete_heaps_flushed + n_flushed;
    };
  })
]

-- stop_received of stream_base; subclasses do more.
unfoldable pub stop_received : StreamBase → Option StreamBase
unfolding flush_unlocked
stop_received s = if s.stopped then none else flush_unlocked (record s { stopped = true })

-- stop_unlocked, and stop and add_packet_state::stop, which call it with the lock held.
unfoldable pub stop : StreamBase → Option StreamBase
unfolding stop_received
stop s = if s.stopped then some s else stop_received s

-- A slot for a new heap: the heap that is in it is evicted.
unfoldable pub new_heap :
    StreamBase → AddPacketState → PacketHeader → Option (ℕ × StreamBase × AddPacketState)
unfolding next_head eject
new_heap s state packet =
    let bucket_id = get_bucket s.bucket_shift packet.heap_cnt in
    let i = next_head s in
    let s1 = record s { head = i } in
    let evicted : Option (StreamBase × AddPacketState) =
      if is_valid (slot s.queue_storage i).next
      then elim (eject s1 i) [
        | none ↦ none
        | some s2 ↦
            some
              (s2, record state { incomplete_heaps_evicted = state.incomplete_heaps_evicted + 1 })
      ]
      else some (s1, state) in
    elim evicted [
      | none ↦ none
      | some (s2, state2) ↦ some (
        i,
        record s2 {
          queue_storage =
              set s2.queue_storage i (record {
                next = bucket s2.buckets bucket_id;
                heap = live_heap packet s.bug_compat;
              });
          buckets = set s2.buckets bucket_id (entry i);
        },
        state2,
      )
    ]

-- The end of add_packet, once the packet's heap is in slot `i`.
unfoldable pub add_to_heap :
    StreamBase → AddPacketState → PacketHeader → ℕ → Option (Bool × StreamBase × AddPacketState)
unfolding stop_received unlink_entry
add_to_heap s state packet i =
    let (added, h) = LiveHeap.add_packet (slot s.queue_storage i).heap packet state.memcpy in
    let s1 = record s {
      queue_storage = set s.queue_storage i (record (slot s.queue_storage i) { heap = h });
    } in
    let end_of_stream = added && state.stop_on_stop_item && h.end_of_stream in
    let after = if added && is_complete h then unlink_entry s1 i else some s1 in
    elim after [
      | none ↦ none
      | some s2 ↦
          if end_of_stream
          then elim (stop_received s2) [ none ↦ none | some s3 ↦ some (added, s3, state) ]
          else if added && is_complete h
          then some (
            added,
            record s2 { ready = s2.ready ++ h ∷ [] },
            record state { complete_heaps = state.complete_heaps + 1 },
          )
          else some (added, s2, state)
    ]

-- Where the packet's heap is: a packet that is a whole heap is not looked for.
unfoldable pub find_or_new :
    StreamBase → AddPacketState → PacketHeader → Option (ℕ × StreamBase × AddPacketState)
unfolding new_heap find_heap
find_or_new s state packet =
    let bucket_id = get_bucket s.bucket_shift packet.heap_cnt in
    let whole : Bool = elim packet.heap_length [
      | none ↦ false
      | some heap_length ↦ packet.payload_length == heap_length
    ] in
    if whole
    then new_heap s (record state { single_packet_heaps = state.single_packet_heaps + 1 }) packet
    else elim (find_heap (s.max_heaps + 1) s.queue_storage packet.heap_cnt
        (bucket s.buckets bucket_id) 1) [
          | none ↦ none
          | some (none, search_dist) ↦
              new_heap s (record state { search_dist = state.search_dist + search_dist }) packet
          | some (some i, search_dist) ↦
              some (i, s, record state { search_dist = state.search_dist + search_dist })
        ]

unfoldable pub add_packet :
    StreamBase → AddPacketState → PacketHeader → Option (Bool × StreamBase × AddPacketState)
unfolding find_or_new add_to_heap
add_packet s state packet =
    let state1 = record state { packets = state.packets + 1 } in
    let unsized : Bool = elim packet.heap_length [ none ↦ true | some heap_length ↦ false ] in
    if s.stopped
    then none
    else if unsized && not state.allow_unsized_heaps
    then some (false, s, state1)
    else elim (find_or_new s state1 packet) [
      | none ↦ none
      | some (i, s2, state2) ↦ add_to_heap s2 state2 packet i
    ]

-- mem_to_stream: decodes and adds the packets in `bytes`, in one batch; each packet has a byte at
-- least, and so many rounds of fuel are enough.
unfoldable pub decode_all :
    ℕ → StreamBase → AddPacketState → List ℕ → Option (StreamBase × AddPacketState)
unfolding add_packet
decode_all zero s state bytes = some (s, state)
decode_all (suc fuel) s state bytes =
    if ltb 0 (length bytes) && not s.stopped
    then elim (decode_packet bytes (length bytes)) [
      | none ↦ some (s, state)
      | some (size, packet) ↦ elim (add_packet s state packet) [
        | none ↦ none
        | some (result, s', state') ↦ decode_all fuel s' state' (drop size bytes)
      ]
    ]
    else some (s, state)

unfoldable pub mem_to_stream : StreamBase → AddPacketState → List ℕ → Option StreamBase
unfolding decode_all end_batch
mem_to_stream s state bytes = elim (decode_all (length bytes) s state bytes) [
  | none ↦ none
  | some (s', state') ↦ some (end_batch state' s')
]
