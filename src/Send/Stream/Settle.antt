-- ===== src/Send/Stream/Settle.antt =====
-- All rounds of process_results (src/send_stream.cpp): the items whose packets were all there are gone.
use spead.Prelude.{
  ℕ, ◌+◌, ◌-◌, ◌≤◌, ◌<◌, ◌≡◌, inl, inr, refl, sym, ap, ◌∙◌, true, List, [], ◌∷◌, ◌++◌, some, length,
  arith, is_some, subst, drop, drop-drop, length-append, append_assoc,
}
use spead.Common.RingBuffer.Slots.{Represents, place}
use spead.Send.Generator.{one_if}
use spead.Send.Stream.{
  Config, QueueItem, TransmitPacket, Completion, StreamImpl, process_packet, process_packets,
}
use spead.Send.Stream.Queue.{ring}
use spead.Send.Stream.Batch.{
  Follow, cap_of, At, Kept, handlers, heaps, called, Kept-refl, step_slot, place-none,
}
use spead.Send.Stream.Rounds.{Goal, Aborted-step, Synced-step}

-- A round, from either state.
At-step :
    (s : StreamImpl) (p : TransmitPacket) (slot n m : ℕ) (items : List QueueItem)
    → At s slot n m items
    → p.item ≡ slot
    → 0 < n
    → (p.last ≡ true → 0 < m)
    → Goal s p slot n m items
At-step s p slot n m items (inr a) own some_left due = Aborted-step s p slot n m items a own
At-step s p slot n m [] (inl y) own some_left due = absurd (omega (arith, y.count))
At-step s p slot n m (front ∷ items) (inl y) own some_left due =
    Synced-step s p slot n m front items y own due

Kept-trans : (s t u : StreamImpl) → Kept s t → Kept t u → Kept s u
Kept-trans s t u k l = record {
  config = l.config ∙ k.config;
  most = l.most ∙ k.most;
  gen = elim l.gen [
    | inr gone ↦ inr gone
    | inl same ↦ elim k.gen [ inl kept ↦ inl (same ∙ kept) | inr gone ↦ inr (same ∙ gone) ]
  ];
}

pub called-append : (xs ys : List Completion) → called (xs ++ ys) ≡ called xs ++ called ys
called-append [] ys = refl
called-append (x ∷ xs) ys = ap (λ t. x.handler ∷ t) (called-append xs ys)

joined :
    (s : StreamImpl) (p : TransmitPacket) (packets : List TransmitPacket) (s' s'' : StreamImpl)
    (posted later : List Completion)
    → process_packet p s ≡ some (posted, s')
    → process_packets packets s' ≡ some (later, s'')
    → process_packets (p ∷ packets) s ≡ some (posted ++ later, s'')
unfolding process_packets
joined s p packets s' s'' posted later e e' = rw (e, e', process_packets) refl

-- After all packets: every item of which all packets were there is gone, and so is the one after
-- these if it has failed; `active` is at the first item again.
pub record Settled (s : StreamImpl) (items : List QueueItem) : Type 0 where
  pub posted : List Completion
  pub after : StreamImpl
  pub left : List QueueItem
  pub made : process_packets s.current_packets s ≡ some (posted, after)
  pub holds : Represents (ring after) left
  pub first : after.active ≡ after.queue_head
  pub partial : is_some after.gen ≡ true → 0 < length left
  pub order : called posted ++ handlers left ≡ handlers items
  pub same_heaps : heaps left ≡ drop (length posted) (heaps items)
  pub kept : Kept s after

process_packets-Processed :
    (packets : List TransmitPacket) (s : StreamImpl) (slot n m : ℕ) (items : List QueueItem)
    → At s slot n m items
    → Follow (cap_of s) slot n m packets
    → (posted : List Completion) × (after : StreamImpl) × (left : List QueueItem) × (slot' : ℕ)
      × (n' : ℕ) × (process_packets packets s ≡ some (posted, after))
      × At after slot' n' 0 left
      × (called posted ++ handlers left ≡ handlers items)
      × (heaps left ≡ drop (length posted) (heaps items))
      × Kept s after
unfolding process_packets
process_packets-Processed [] s slot n m items at done =
    ([], s, items, slot, n, refl, subst (λ k. At s slot n k items) done at, refl, refl, Kept-refl s)
process_packets-Processed (p ∷ packets) s slot n m items at (own, some_left, due, more) =
    let r = At-step s p slot n m items at own some_left due in
    let more' =
      subst
        (λ (c : Config).
          Follow (c.max_heaps + 1) (step_slot s p slot) (n - one_if p.last) (m - one_if p.last)
            packets)
        (sym r.kept.config) more in
    let (later, after, left, slot', n', e, at', order, same, kept) =
      process_packets-Processed packets r.after (step_slot s p slot) (n - one_if p.last)
        (m - one_if p.last) r.left r.at more' in
    (
      r.posted ++ later,
      after,
      left,
      slot',
      n',
      joined s p packets r.after after r.posted later r.made e,
      at',
      ap (λ t. t ++ handlers left) (called-append r.posted later)
          ∙ append_assoc (called r.posted) (called later) (handlers left)
          ∙ ap (λ t. called r.posted ++ t) order
          ∙ r.order,
      same
          ∙ ap (drop (length later)) r.same_heaps
          ∙ drop-drop (length later) (length r.posted) (heaps items)
          ∙ ap (λ k. drop k (heaps items)) (sym (length-append r.posted later)),
      Kept-trans s r.after after r.kept kept,
    )

pub process_packets-Settled :
    (s : StreamImpl) (items : List QueueItem) (m : ℕ)
    → Represents (ring s) items
    → m ≤ length items
    → s.active ≡ place (cap_of s) s.queue_head m
    → (is_some s.gen ≡ true → m < length items)
    → Follow (cap_of s) s.queue_head (length items) m s.current_packets
    → Settled s items
process_packets-Settled s items m holds within active_at partial follow =
    let (posted, after, left, slot', n', e, at, order, same, kept) =
      process_packets-Processed s.current_packets s s.queue_head (length items) m items
        (inl (record {
          holds = holds;
          here = refl;
          count = refl;
          within = within;
          active_at = active_at;
          partial = partial;
        }))
        follow in
    record {
      posted = posted;
      after = after;
      left = left;
      made = e;
      holds = elim at [ inl y ↦ y.holds | inr a ↦ a.holds ];
      first = elim at [
        | inl y ↦ y.active_at ∙ place-none (cap_of after) after.queue_head y.holds.head_in
        | inr a ↦ a.active_at ∙ place-none (cap_of after) after.queue_head a.holds.head_in
      ];
      partial = λ g. elim at [
        | inl y ↦ let some_left = y.partial g in omega (arith, y.count)
        | inr a ↦ let some_left = a.partial g in absurd (omega arith)
      ];
      order = order;
      same_heaps = same;
      kept = kept;
    }
