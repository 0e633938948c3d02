-- ===== src/Send/Stream/Loaded.antt =====
-- That load_packets finds what it needs, and makes packets in the order of the queue.
use spead.Prelude.{
  ℕ, zero, suc, ◌+◌, ◌-◌, ◌≤◌, ◌<◌, ◌≡◌, inl, inr, refl, sym, ap, ◌∙◌, Bool, true, List, [], ◌∷◌,
  ◌++◌, none, some, if◌then◌else◌, length, arith, is_some, Bool-cases, Option-cases, lt→ltb, All,
  get_elem?, subst,
}
use spead.Common.RingBuffer.{next, slot_at}
use spead.Common.RingBuffer.Slots.{Represents, place, place-next}
use spead.Pointer.{IsFlavour}
use spead.Send.Generator.{Generator, one_if, ok, packet_generator, next_packet, has_next_packet}
use spead.Send.Generator.Progress.{Inv, to_send}
use spead.Send.Generator.Start.{
  new_generator, packet_generator_ok, new_generator-Inv, new_generator-pos,
}
use spead.Send.Generator.Delivery.{has_next_packet_lem}
use spead.Send.Generator.Complete.{IsSize}
use spead.Send.Stream.{QueueItem, TransmitPacket, StreamImpl}
use spead.Send.Stream.Load.{generator_for, put_packet, load_packet}
use spead.Send.Stream.Queue.{ring}
use spead.Send.Heap.{Heap}
use spead.Send.Stream.Batch.{Follow, cap_of, heaps}

pub get_elem?-heaps :
    (items : List QueueItem) (m : ℕ) (it : QueueItem)
    → get_elem? items m ≡ some it
    → get_elem? (heaps items) m ≡ some it.heap
get_elem?-heaps [] m it e = absurd (cc)
get_elem?-heaps (x ∷ items) zero it e = ground arith
get_elem?-heaps (x ∷ items) (suc m) it e = get_elem?-heaps items m it e

-- A heap whose packets packet_generator makes without fail.
pub record Sendable (size : ℕ) (h : Heap) : Type 0 where
  pub flavour : IsFlavour h.heap_address_bits
  pub fit : IsSize h size

-- The generator at hand has a packet to give.
abbrev pub HasNext : Generator → Type 0
HasNext g = Inv g × (0 < to_send g)

-- While packets are being loaded: all of the first `m` items, and some of the next.
pub record Loading (s : StreamImpl) (items : List QueueItem) (m : ℕ) : Type 0 where
  pub holds : Represents (ring s) items
  pub within : m ≤ length items
  pub active_at : s.active ≡ place (cap_of s) s.queue_head m
  pub partial : is_some s.gen ≡ true → m < length items
  pub gen_next : (g : Generator) → s.gen ≡ some g → HasNext g
  pub sendable : All (Sendable s.config.max_packet_size) (heaps items)
  pub follow : Follow (cap_of s) s.queue_head (length items) m s.current_packets

-- What load_packets leaves alone.
pub record SameQueue (s s' : StreamImpl) : Type 0 where
  pub config : s'.config ≡ s.config
  pub most : s'.max_current_packets ≡ s.max_current_packets
  pub head : s'.queue_head ≡ s.queue_head
  pub tail : s'.queue_tail ≡ s.queue_tail
  pub state : s'.state ≡ s.state
  pub more : length s.current_packets ≤ length s'.current_packets

place-first : (cap head : ℕ) → head < cap → place cap head 0 ≡ head
place-first cap head h = ground arith

next-in : (cap idx : ℕ) → idx < cap → next cap idx < cap
unfolding next
next-in cap idx h = ground arith

-- Where the packets after one of the item at `slot` start, and how many items they have.
module _ (cap slot n m : ℕ) (b : Bool) (inside : slot < cap) (room : n < cap) (more : m < n)
    (due : b ≡ true → 0 < m) where
  after-in : (if b then next cap slot else slot) < cap
  after-in = elim (Bool-cases b) [ inl e ↦ rw e (next-in cap slot inside) | inr e ↦ rw e inside ]

  after-lt : m - one_if b < n - one_if b
  after-lt = elim (Bool-cases b) [
    | inl e ↦ let some_done = due e in rw e (omega arith)
    | inr e ↦ rw e (omega arith)
  ]

  after-place : place cap slot m ≡ place cap (if b then next cap slot else slot) (m - one_if b)
  after-place = elim (Bool-cases b) [
    | inl e ↦
        let some_done = due e in
        let whole : m - 1 + 1 ≡ m = omega arith in
        rw e (sym (place-next cap slot (m - 1) inside (omega arith) ∙ ap (place cap slot) whole))
    | inr e ↦ let same : m - 0 ≡ m = omega arith in rw e (rw same refl)
  ]

  after-count : (k : ℕ) → m - one_if b + k ≡ m + k - one_if b
  after-count k = elim (Bool-cases b) [
    | inl e ↦ let some_done = due e in rw e (omega arith)
    | inr e ↦ rw e (omega arith)
  ]

one_if-pos : (b : Bool) (m : ℕ) → b ≡ true → 0 < m + one_if b
one_if-pos b m e = rw e (omega arith)

-- One packet more.
pub Follow-append :
    (cap slot n m : ℕ) (packets : List TransmitPacket) (p : TransmitPacket)
    → slot < cap
    → n < cap
    → m < n
    → p.item ≡ place cap slot m
    → Follow cap slot n m packets
    → Follow cap slot n (m + one_if p.last) (packets ++ p ∷ [])
Follow-append cap slot n m [] p inside room more own done = (
  own ∙ ap (place cap slot) done ∙ place-first cap slot inside,
  omega arith,
  one_if-pos p.last m,
  omega arith,
)
Follow-append cap slot n m (q ∷ packets) p inside room more own (item, some_left, due, rest) =
    let slot' = if q.last then next cap slot else slot in
    let n' = n - one_if q.last in
    let m' = m - one_if q.last in
    let less : n' < cap = omega arith in
    (
      item,
      some_left,
      λ last. let done = due last in omega arith,
      subst (λ k. Follow cap slot' n' k (packets ++ p ∷ []))
          (after-count cap slot n m q.last inside room more due (one_if p.last))
          (Follow-append cap slot' n' m' packets p
            (after-in cap slot n m q.last inside room more due) less
            (after-lt cap slot n m q.last inside room more due)
            (own ∙ after-place cap slot n m q.last inside room more due) rest),
    )

pub some-injective : (g h : Generator) → some g ≡ some h → g ≡ h
some-injective g h e = cc

generator_for-new :
    (s : StreamImpl) (it : QueueItem) (g : Generator)
    → s.gen ≡ none
    → packet_generator it.heap it.cnt s.config.max_packet_size ≡ ok g
    → generator_for s it ≡ some g
unfolding generator_for
generator_for-new s it g e e' = ground arith

-- The generator for an item whose heap can be sent.
pub generator_for-HasNext :
    (s : StreamImpl) (it : QueueItem)
    → Sendable s.config.max_packet_size it.heap
    → ((g : Generator) → s.gen ≡ some g → HasNext g)
    → (g : Generator) × (generator_for s it ≡ some g) × HasNext g
unfolding generator_for
generator_for-HasNext s it can old = elim (Option-cases s.gen) [
  | inr (g, e) ↦ (g, rw e refl, old g e)
  | inl e ↦
      let size = s.config.max_packet_size in
      let made = packet_generator_ok it.heap it.cnt size can.fit.large can.fit.room in
      (
        new_generator it.heap it.cnt size,
        generator_for-new s it (new_generator it.heap it.cnt size) e made,
        (
          new_generator-Inv it.heap it.cnt size can.flavour can.fit.large can.fit.whole
              can.fit.room,
          new_generator-pos it.heap it.cnt size can.flavour can.fit.large can.fit.whole
              can.fit.room,
        ),
      )
]

pub load_packet-made :
    (s : StreamImpl) (it : QueueItem) (g g' : Generator) (buffers : List (List ℕ))
    → slot_at s.queue s.active ≡ some it
    → generator_for s it ≡ some g
    → has_next_packet g ≡ true
    → next_packet g ≡ some (buffers, g')
    → load_packet s ≡ some (put_packet buffers g' s)
unfolding load_packet
load_packet-made s it g g' buffers e e' more e'' = rw (e, load_packet) (rw (e', more, e'') refl)

pub has_next-pos : (g : Generator) → 0 < to_send g → has_next_packet g ≡ true
has_next-pos g more = has_next_packet_lem g ∙ lt→ltb g.payload_offset g.payload_size (omega arith)

pub pos-has_next : (g : Generator) → has_next_packet g ≡ true → 0 < to_send g
pos-has_next g e = let test = sym (has_next_packet_lem g) ∙ e in ground (arith, test)
