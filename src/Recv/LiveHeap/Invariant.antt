-- ===== src/Recv/LiveHeap/Invariant.antt =====
-- The invariant of a live heap, which every operation keeps.
use spead.Prelude.{
  ℕ, ◌≤◌, ◌≡◌, refl, sym, ap, subst, ◌∙◌, Bool, true, false, ◌⊎◌, inl, inr, arith, max,
}
use spead.Recv.Packet.{PacketHeader}
use spead.Recv.Ranges.{Ranges, add_payload_range}
use spead.Recv.Ranges.Coverage.{IsSeparated, total, add_payload_range-Adds}
use spead.Recv.Ranges.Shape.{
  EndsBy, EndsBy-le, add_payload_range-IsSeparated, add_payload_range-EndsBy,
}
use spead.Recv.Ranges.Rejection.{add_payload_range_unchanged}
use spead.Recv.PointerStore.Order
use spead.Recv.PointerStore.Order.{store_lem, empty_store-IsValid}
use spead.Recv.LiveHeap.Effects.{IsSound, HasLength, last_of, accept-Accepted}
use spead.Recv.LiveHeap.{LiveHeap, PacketMemcpy, live_heap, accept, is_inconsistent, add_packet}

-- The ranges are those of separate pieces of payload within the memory and within min_length, and
-- received_length is their length.
pub record IsValid (h : LiveHeap) : Type 0 where
  pub known : HasLength h
  pub separated : IsSeparated h.payload_ranges
  pub within_length : EndsBy h.min_length h.payload_ranges
  pub within_memory : EndsBy h.payload_reserved h.payload_ranges
  pub counted : total h.payload_ranges ≡ h.received_length
  pub pointers_valid : Order.IsValid h.pointers

accepted-IsValid :
    (h : LiveHeap) (packet : PacketHeader) (m : PacketMemcpy)
    → IsValid h
    → IsSound packet
    → is_inconsistent h packet ≡ false
    → (add_payload_range packet.payload_offset (last_of packet) h.payload_ranges).0 ≡ true
    → let ranges = (add_payload_range packet.payload_offset (last_of packet) h.payload_ranges).1 in
      IsValid (accept (record h { payload_ranges = ranges }) packet m)
unfolding is_inconsistent
accepted-IsValid h packet m v p c new =
    let first = packet.payload_offset in
    let last = last_of packet in
    let r = add_payload_range first last h.payload_ranges in
    let ordered : first ≤ last = omega arith in
    let g = record h { payload_ranges = r.1 } in
    let adds = add_payload_range-Adds first last ordered h.payload_ranges v.separated in
    let a =
      accept-Accepted g packet m
        (record { length_le = v.known.length_le; reserved = v.known.reserved }) p c in
    let ends = λ (n : ℕ) (ok : EndsBy n h.payload_ranges).
      add_payload_range-EndsBy first last ordered (max n last) h.payload_ranges (omega arith)
        (EndsBy-le n (max n last) h.payload_ranges (omega arith) ok) in
    record {
      known = a.known;
      separated =
          subst IsSeparated (sym a.same_ranges)
            (add_payload_range-IsSeparated first last ordered h.payload_ranges v.separated);
      within_length =
          subst (EndsBy _) (sym a.same_ranges)
            (EndsBy-le (max h.min_length last) _ r.1 a.longer (ends h.min_length v.within_length));
      within_memory = subst (EndsBy _) (sym a.same_ranges) (
          EndsBy-le (max h.payload_reserved last) _ r.1 a.larger
            (ends h.payload_reserved v.within_memory));
      counted = ap total a.same_ranges ∙ ground (arith, adds.counted, v.counted, a.added);
      pointers_valid = a.valid_pointers v.pointers_valid;
    }

abbrev pub range_of : LiveHeap → PacketHeader → Bool × Ranges
range_of h packet = add_payload_range packet.payload_offset (last_of packet) h.payload_ranges

-- A packet is turned away and the heap stays as it was, or it passed the checks and is accepted.
pub add_packet_cases :
    (h : LiveHeap) (packet : PacketHeader) (m : PacketMemcpy)
    → (((add_packet h packet m).0 ≡ false) × ((add_packet h packet m).1 ≡ h))
      ⊎ ((is_inconsistent h packet ≡ false)
          × ((range_of h packet).0 ≡ true)
          × (add_packet h packet m
              ≡ (true, accept (record h { payload_ranges = (range_of h packet).1 }) packet m)))
unfolding add_packet
add_packet_cases h packet m =
    ground
      (arith, add_payload_range_unchanged packet.payload_offset (last_of packet) h.payload_ranges)

-- add_packet keeps the invariant, whether it accepts the packet or not.
pub add_packet-IsValid :
    (h : LiveHeap) (packet : PacketHeader) (m : PacketMemcpy)
    → IsValid h
    → IsSound packet
    → IsValid (add_packet h packet m).1
add_packet-IsValid h packet m v p = elim (add_packet_cases h packet m) [
  | inl (_, e) ↦ subst IsValid (sym e) v
  | inr (c, new, e) ↦ subst IsValid (sym (ap (λ r. r.1) e)) (accepted-IsValid h packet m v p c new)
]

-- So does the constructor, and reset.
pub live_heap-IsValid :
    (packet : PacketHeader) (bug_compat : ℕ) → IsValid (live_heap packet bug_compat)
unfolding live_heap
live_heap-IsValid packet bug_compat = record {
  known = record { length_le = tt; reserved = tt };
  separated = tt;
  within_length = tt;
  within_memory = tt;
  counted = refl;
  pointers_valid = empty_store-IsValid;
}
