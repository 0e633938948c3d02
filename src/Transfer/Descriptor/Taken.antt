-- ===== src/Transfer/Descriptor/Taken.antt =====
-- A heap that comes in one packet: live_heap::add_packet of src/recv_live_heap.cpp.
use spead.Prelude.{
  ℕ, ◌+◌, ◌-◌, ◌<◌, ◌≡◌, refl, ap, ◌∙◌, Bool, true, false, List, [], ◌++◌, some, All, map, length,
  ltb, ◌==◌, arith, get_elem?,
}
use spead.Pointer.{pointer_decoder, get_id}
use spead.Recv.Packet.{PacketHeader}
use spead.Recv.Ranges.{Ranges, add_payload_range}
use spead.Recv.PointerStore.{stored, empty_store}
use spead.Recv.PointerStore.Order.{store_all, store_all_lem, append_new, empty_store-IsValid}
use spead.Recv.LiveHeap.{
  LiveHeap, live_heap, adapt_memcpy, add_packet, accept, is_inconsistent, note_length,
  payload_reserve, copy_payload, add_pointers, is_contiguous,
}
use spead.Recv.LiveHeap.Contents.{copy_payload-new}
use spead.Send.Descriptor.{words}
use spead.Transfer.Descriptor.Stored.{
  Admitted, All-Admitted, Stores, add_pointers-Stores, distinct, append_new-distinct,
}

module _ (bits cnt bug_compat : ℕ) (ws payload : List ℕ) where
  abbrev pub whole_packet : PacketHeader
  whole_packet = record {
    heap_address_bits = bits;
    n_items = length ws;
    heap_cnt = cnt;
    heap_length = some (length payload);
    payload_offset = 0;
    payload_length = length payload;
    pointers = words ws ++ payload;
    payload = payload;
  }

  abbrev n : ℕ
  n = length payload

  abbrev new_heap : LiveHeap
  new_heap = live_heap whole_packet bug_compat

  abbrev range : Bool × Ranges
  range = add_payload_range 0 (0 + n) []

  -- The heap before the item pointers are added, and when the payload is copied.
  abbrev noted : LiveHeap
  noted = note_length (record new_heap { payload_ranges = range.1 }) whole_packet

  abbrev pointed : LiveHeap
  pointed = add_pointers noted (length ws) (words ws ++ payload)

  abbrev pub taken : LiveHeap
  taken = copy_payload pointed whole_packet adapt_memcpy

  noted_lem :
      (noted.cnt ≡ cnt)
      × (noted.bug_compat ≡ bug_compat)
      × (noted.decoder ≡ pointer_decoder bits)
      × (noted.heap_length ≡ some n)
      × (noted.received_length ≡ 0)
      × (noted.min_length ≡ n)
      × (noted.pointers ≡ empty_store)
  unfolding note_length payload_reserve live_heap
  noted_lem = (
    ground arith,
    ground arith,
    ground arith,
    ground arith,
    ground arith,
    ground arith,
    ground arith,
  )

  range_new : range.0 ≡ true
  unfolding add_payload_range
  range_new = ground arith

  pub add_packet-taken : add_packet new_heap whole_packet adapt_memcpy ≡ (true, taken)
  unfolding add_packet is_inconsistent live_heap accept
  add_packet-taken =
      let passes : ltb n 0 ≡ false = ground arith in
      let same : (bits == bits) ≡ true = ground arith in rw (passes, same, range_new) refl

  -- What the heap has then.
  pub record Taken (h : LiveHeap) : Type 0 where
    pub same_cnt : h.cnt ≡ cnt
    pub same_bug_compat : h.bug_compat ≡ bug_compat
    pub decoder : h.decoder ≡ pointer_decoder bits
    pub min_length : h.min_length ≡ n
    pub contiguous : is_contiguous h ≡ true
    pub pointers : stored h.pointers ≡ ws
    pub bytes : (x : ℕ) → x < n → h.payload x ≡ get_elem? payload x

  nothing_stored : stored empty_store ≡ []
  unfolding stored
  nothing_stored = refl

  pointed-Stores : All (Admitted (pointer_decoder bits) n) ws → Stores noted ws pointed
  pointed-Stores all =
      let (_, _, decoder, _, _, length_here, _) = noted_lem in
      add_pointers-Stores noted ws payload (
        All-Admitted (pointer_decoder bits) noted.decoder n noted.min_length ws decoder length_here
          all)

  pub taken-Taken :
      All (Admitted (pointer_decoder bits) n) ws
      → distinct [] (map (get_id (pointer_decoder bits)) ws) ≡ true
      → Taken taken
  unfolding copy_payload is_contiguous
  taken-Taken all ids =
      let (cnt_here, compat, decoder, _, none_yet, length_here, empty) = noted_lem in
      let s = pointed-Stores all in
      let (_, in_order) = store_all_lem empty_store ws empty_store-IsValid in
      let all_stored : stored pointed.pointers ≡ ws =
        ap stored (s.pointers ∙ ap (λ p. store_all p ws) empty)
        ∙ in_order
        ∙ ap (λ l. append_new l ws) nothing_stored
        ∙ append_new-distinct (pointer_decoder bits) [] ws ids in
      record {
        same_cnt = ground (arith, s.cnt, cnt_here);
        same_bug_compat = ground (arith, s.bug_compat, compat);
        decoder = ground (arith, s.decoder, decoder);
        min_length = ground (arith, s.min_length, length_here);
        contiguous = ground (arith, s.min_length, length_here, s.received_length, none_yet);
        pointers = ground (arith, all_stored);
        bytes = λ x less.
            let place : x - 0 ≡ x = omega arith in
            copy_payload-new pointed whole_packet x (ground (arith, less))
            ∙ ap (get_elem? payload) place;
      }
