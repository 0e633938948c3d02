-- ===== src/Recv/LiveHeap/History.antt =====
-- A heap through a whole sequence of packets: what its payload is made of.
use spead.Prelude.{
  ℕ, ◌-◌, ◌<◌, ◌≡◌, refl, sym, ap, subst, ◌∙◌, Bool, true, false, List, [], ◌∷◌, Option, none, some,
  arith, get_elem?_of_lt, if◌then◌else◌, ◌||◌, Bool-cases, inl, inr, ◌⊎◌, All,
}
use spead.Recv.Packet.{PacketHeader}
use spead.Recv.Ranges.{Ranges}
use spead.Recv.Ranges.Coverage.{covers, Adds, add_payload_range-Adds}
use spead.Recv.Ranges.Shape.{EndsBy}
use spead.Recv.Ranges.Complete.{total-covers}
use spead.Recv.LiveHeap.{
  LiveHeap, live_heap, adapt_memcpy, add_packet, accept, is_inconsistent, is_complete,
  is_contiguous,
}
use spead.Recv.LiveHeap.Effects.{IsSound, HasLength, last_of, accept-Accepted}
use spead.Recv.LiveHeap.Invariant.{
  IsValid, range_of, add_packet_cases, add_packet-IsValid, live_heap-IsValid,
}
use spead.Recv.LiveHeap.Contents.{is_in, byte_at, accept-new, accept-old}

-- A heap with the packets that it has accepted, the latest first.
pub record Session : Type 0 where
  pub heap : LiveHeap
  pub taken : List PacketHeader

unfoldable pub offer : Session → PacketHeader → Session
offer s packet =
    let (accepted, heap) = add_packet s.heap packet adapt_memcpy in
    record { heap = heap; taken = if accepted then packet ∷ s.taken else s.taken }

unfoldable pub offer_all : Session → List PacketHeader → Session
offer_all s [] = s
offer_all s (packet ∷ packets) = offer_all (offer s packet) packets

unfoldable pub start : PacketHeader → ℕ → Session
start packet bug_compat = record { heap = live_heap packet bug_compat; taken = [] }

-- Whether some packet of the list carries byte x of the heap, and what the byte is.
abbrev pub carries : List PacketHeader → ℕ → Bool
carries [] x = false
carries (packet ∷ packets) x = is_in packet x || carries packets x

abbrev pub sent_byte : List PacketHeader → ℕ → Option ℕ
sent_byte [] x = none
sent_byte (packet ∷ packets) x = if is_in packet x then byte_at packet x else sent_byte packets x

-- The ranges are those of the accepted packets, and their bytes are in place.
pub record Holds (s : Session) : Type 0 where
  pub valid : IsValid s.heap
  pub sound : All IsSound s.taken
  pub ranges : (x : ℕ) → covers x s.heap.payload_ranges ≡ carries s.taken x
  pub bytes : (x : ℕ) → carries s.taken x ≡ true → s.heap.payload x ≡ sent_byte s.taken x

pub start-Holds : (packet : PacketHeader) (bug_compat : ℕ) → Holds (start packet bug_compat)
unfolding start live_heap
start-Holds packet bug_compat = record {
  valid = live_heap-IsValid packet bug_compat;
  sound = tt;
  ranges = λ x. refl;
  bytes = λ x e. cc;
}

covers-EndsBy : (n x : ℕ) (m : Ranges) → EndsBy n m → covers x m ≡ true → x < n
covers-EndsBy n x [] e c = cc
covers-EndsBy n x ((a, b) ∷ rest) e c = ground (arith, covers-EndsBy n x rest e.1)

-- The heap with the new ranges, as accept finds it.
abbrev ranged : LiveHeap → PacketHeader → LiveHeap
ranged h packet = record h { payload_ranges = (range_of h packet).1 }

abbrev taken_in : Session → PacketHeader → Session
taken_in s packet = record {
  heap = accept (ranged s.heap packet) packet adapt_memcpy;
  taken = packet ∷ s.taken;
}

offer_cases :
    (s : Session) (packet : PacketHeader)
    → (offer s packet ≡ s)
      ⊎ ((is_inconsistent s.heap packet ≡ false)
          × ((range_of s.heap packet).0 ≡ true)
          × (offer s packet ≡ taken_in s packet))
unfolding offer
offer_cases s packet = elim (add_packet_cases s.heap packet adapt_memcpy) [
  | inl (e, same) ↦ inl (ground arith)
  | inr (c, new, e) ↦ inr (c, new, ground arith)
]

module _ (s : Session) (packet : PacketHeader) (v : Holds s) (p : IsSound packet) where
  module _ (c : is_inconsistent s.heap packet ≡ false)
      (new : (range_of s.heap packet).0 ≡ true) where
    adds :
        Adds packet.payload_offset (last_of packet) s.heap.payload_ranges (range_of s.heap packet)
    adds =
        add_payload_range-Adds packet.payload_offset (last_of packet) (omega arith)
          s.heap.payload_ranges v.valid.separated

    known : HasLength (ranged s.heap packet)
    known = record { length_le = v.valid.known.length_le; reserved = v.valid.known.reserved }

    still : is_inconsistent (ranged s.heap packet) packet ≡ false
    unfolding is_inconsistent
    still = c

    taken_in-ranges :
        (x : ℕ) → covers x (taken_in s packet).heap.payload_ranges ≡ carries (packet ∷ s.taken) x
    taken_in-ranges x =
        ap (covers x)
          (accept-Accepted (ranged s.heap packet) packet adapt_memcpy known p still).same_ranges
        ∙ ground (arith, adds.covered x, new, v.ranges x)

    taken_in-bytes :
        (x : ℕ)
        → carries (packet ∷ s.taken) x ≡ true
        → (taken_in s packet).heap.payload x ≡ sent_byte (packet ∷ s.taken) x
    taken_in-bytes x e = elim (Bool-cases (is_in packet x)) [
      | inl inside ↦ ground (arith, accept-new (ranged s.heap packet) packet x inside)
      | inr outside ↦
          let old : carries s.taken x ≡ true = ground arith in
          let below =
            covers-EndsBy s.heap.payload_reserved x s.heap.payload_ranges v.valid.within_memory
              (v.ranges x ∙ old) in
          ground (
            arith,
            accept-old (ranged s.heap packet) packet x known p still outside below,
            v.bytes x old,
          )
    ]

  offer-IsValid : IsValid (offer s packet).heap
  unfolding offer
  offer-IsValid = add_packet-IsValid s.heap packet adapt_memcpy v.valid p

  offer-Holds : Holds (offer s packet)
  offer-Holds = elim (offer_cases s packet) [
    | inl same ↦ rw same v
    | inr (c, new, e) ↦ rw e (record {
      valid = subst (λ r. IsValid r.heap) e offer-IsValid;
      sound = (p, v.sound);
      ranges = taken_in-ranges c new;
      bytes = taken_in-bytes c new;
    })
  ]

pub offer_all-Holds :
    (s : Session) (packets : List PacketHeader)
    → Holds s
    → All IsSound packets
    → Holds (offer_all s packets)
unfolding offer_all
offer_all-Holds s [] v p = v
offer_all-Holds s (packet ∷ packets) v p =
    offer_all-Holds (offer s packet) packets (offer-Holds s packet v p.0) p.1

-- Where some packet carries a byte, it is there.
sent_byte-IsSome :
    (packets : List PacketHeader) (x : ℕ)
    → All IsSound packets
    → carries packets x ≡ true
    → (b : ℕ) × (sent_byte packets x ≡ some b)
sent_byte-IsSome [] x p e = absurd (cc)
sent_byte-IsSome (packet ∷ packets) x p e = elim (Bool-cases (is_in packet x)) [
  | inl inside ↦
      let i = x - packet.payload_offset in
      let readable = p.0.readable in
      let (b, q) = get_elem?_of_lt packet.payload i (ground arith) in (b, ground arith)
  | inr outside ↦ let (b, q) = sent_byte-IsSome packets x p.1 (ground arith) in (b, ground arith)
]

-- Where as many bytes have come as min_length says, they are all there.
pub Holds-contiguous :
    (s : Session)
    → Holds s
    → is_contiguous s.heap ≡ true
    → (x : ℕ) → x < s.heap.min_length
    → (b : ℕ) × (s.heap.payload x ≡ some b) × (sent_byte s.taken x ≡ some b)
unfolding is_contiguous
Holds-contiguous s v full x below =
    let covered : covers x s.heap.payload_ranges ≡ true =
      total-covers s.heap.min_length s.heap.payload_ranges v.valid.separated v.valid.within_length
        (v.valid.counted ∙ ground (arith, full)) x below in
    let carried = sym (v.ranges x) ∙ covered in
    let (b, sent) = sent_byte-IsSome s.taken x v.sound carried in
    (b, v.bytes x carried ∙ sent, sent)

Holds-complete :
    (s : Session) (n : ℕ)
    → Holds s
    → is_complete s.heap ≡ true
    → s.heap.heap_length ≡ some n
    → (x : ℕ) → x < n
    → (b : ℕ) × (s.heap.payload x ≡ some b) × (sent_byte s.taken x ≡ some b)
unfolding is_complete is_contiguous
Holds-complete s n v done known x below =
    let full : s.heap.received_length ≡ s.heap.min_length = ground arith in
    let all : s.heap.received_length ≡ n = ground arith in
    Holds-contiguous s v (ground arith) x (omega arith)

-- Offer any packets, in any order, to a new heap. If it is then complete, every byte below its heap
-- length is in the payload, and is the byte that an accepted packet carried for that place.
pub complete-payload :
    (initial : PacketHeader) (bug_compat : ℕ) (packets : List PacketHeader) (n : ℕ)
    → All IsSound packets
    → is_complete (offer_all (start initial bug_compat) packets).heap ≡ true
    → (offer_all (start initial bug_compat) packets).heap.heap_length ≡ some n
    → (x : ℕ) → x < n
    → (b : ℕ) × ((offer_all (start initial bug_compat) packets).heap.payload x ≡ some b)
      × (sent_byte (offer_all (start initial bug_compat) packets).taken x ≡ some b)
complete-payload initial bug_compat packets n sound done known x below =
    Holds-complete (offer_all (start initial bug_compat) packets) n
      (offer_all-Holds (start initial bug_compat) packets (start-Holds initial bug_compat) sound)
      done known x below
