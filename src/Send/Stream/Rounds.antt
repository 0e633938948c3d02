-- ===== src/Send/Stream/Rounds.antt =====
-- One round of the loop of process_results (src/send_stream.cpp), and all of them.
use spead.Prelude.{
  ℕ, ◌+◌, ◌-◌, ◌<◌, ◌≡◌, ◌≢◌, inl, inr, refl, sym, ap, ◌∙◌, true, false, List, [], ◌∷◌, some,
  length, eq→==, arith, Bool-cases, ltb,
}
use spead.Common.RingBuffer.{next}
use spead.Common.RingBuffer.Slots.{place, place-next}
use spead.Send.Generator.{one_if}
use spead.Send.Stream.{
  is_error, QueueItem, TransmitPacket, Completion, StreamImpl, next_active, post_handler, note_sent,
  process_packet,
}
use spead.Send.Stream.Queue.{
  completion_of, without_head, post_handler-active, post_handler-other, without_head-Represents,
  next_head-lt, counted, with_sent, note_sent-head, with_sent-Represents,
}
use spead.Send.Stream.Batch.{
  cap_of, Synced, Aborted, Processed, Kept-refl, step_slot, place-head, place-none, skipped,
}

minus_zero : (n : ℕ) → n - 0 ≡ n
minus_zero n = omega arith

next-ne : (cap slot : ℕ) → 1 < cap → slot < cap → next cap slot ≢ slot
unfolding next
next-ne cap slot h l = ground arith

failing :
    (s : StreamImpl) (p : TransmitPacket) (c : Completion) (s' : StreamImpl)
    → p.item ≡ s.queue_head
    → is_error p.result ≡ true
    → post_handler p.result s ≡ some (c, s')
    → process_packet p s ≡ some (c ∷ [], s')
unfolding process_packet
failing s p c s' own error e = let test = eq→== p.item s.queue_head own in rw (test, error, e) refl

succeeding :
    (s : StreamImpl) (p : TransmitPacket) (s' : StreamImpl)
    → p.item ≡ s.queue_head
    → is_error p.result ≡ false
    → note_sent s.queue_head p.size s ≡ some s'
    → p.last ≡ false
    → process_packet p s ≡ some ([], s')
unfolding process_packet
succeeding s p s' own fine e more =
    let test = eq→== p.item s.queue_head own in
    let at_item = ap (λ i. note_sent i p.size s) own ∙ e in rw (test, fine, at_item, more) refl

finishing :
    (s : StreamImpl) (p : TransmitPacket) (s' s'' : StreamImpl) (c : Completion)
    → p.item ≡ s.queue_head
    → is_error p.result ≡ false
    → note_sent s.queue_head p.size s ≡ some s'
    → p.last ≡ true
    → post_handler p.result s' ≡ some (c, s'')
    → process_packet p s ≡ some (c ∷ [], s'')
unfolding process_packet
finishing s p s' s'' c own fine e last e' =
    let test = eq→== p.item s.queue_head own in
    let at_item = ap (λ i. note_sent i p.size s) own ∙ e in rw (test, fine, at_item, last, e') refl

module _ (s : StreamImpl) (p : TransmitPacket) (slot n m : ℕ) where
  abbrev pub Goal : List QueueItem → Type 0
  Goal items =
      Processed s items (step_slot s p slot) (n - one_if p.last) (m - one_if p.last)
        (process_packet p s)

  -- A packet of an item that has failed.
  pub Aborted-step :
      (items : List QueueItem) → Aborted s slot n m items → p.item ≡ slot → Goal items
  Aborted-step items a own =
      let elsewhere : p.item ≢ s.queue_head =
        λ e. next-ne (cap_of s) slot a.several a.inside (a.gone ∙ sym e ∙ own) in
      record {
        posted = [];
        after = s;
        left = items;
        made = skipped s p elsewhere;
        at = elim (Bool-cases p.last) [
          | inl last ↦ rw last (
              inl (record {
                holds = a.holds;
                here = sym a.gone;
                count = omega (arith, a.count);
                within = omega (arith, a.within);
                active_at = a.active_at;
                partial = λ g. let more = a.partial g in omega arith;
              }))
          | inr more ↦ rw more (rw (minus_zero n, minus_zero m) (inr a))
        ];
        order = refl;
        same_heaps = refl;
        kept = Kept-refl s;
      }

  module _ (front : QueueItem) (items : List QueueItem) (y : Synced s slot n m (front ∷ items))
      (own : p.item ≡ slot) (due : p.last ≡ true → 0 < m) where
    cap_room : length items + 1 < cap_of s
    cap_room = omega (arith, y.holds.room)

    active-ne : 0 < m → s.active ≢ s.queue_head
    active-ne more e =
        place-head (cap_of s) s.queue_head m y.holds.head_in more
          (omega (arith, y.within, y.count, cap_room)) (sym y.active_at ∙ e)

    -- Where `active` stands, seen from the next item.
    active_after : 0 < m → s.active ≡ place (cap_of s) (next (cap_of s) s.queue_head) (m - 1)
    active_after more =
        let step =
          place-next (cap_of s) s.queue_head (m - 1) y.holds.head_in
            (omega (arith, y.within, y.count, cap_room)) in
        let whole : m - 1 + 1 ≡ m = omega arith in
        y.active_at ∙ sym (step ∙ ap (place (cap_of s) s.queue_head) whole)

    -- The first item fails, with packets of later items loaded or none of them.
    error_other : is_error p.result ≡ true → 0 < m → Goal (front ∷ items)
    unfolding next
    error_other error more = record {
      posted = completion_of front p.result ∷ [];
      after = without_head s;
      left = items;
      made =
          failing s p _ _ (own ∙ sym y.here) error
            (post_handler-other s front items y.holds p.result (active-ne more));
      at = elim (Bool-cases p.last) [
        | inl last ↦ rw last (
            inl (record {
              holds = without_head-Represents s front items y.holds;
              here = ap (next (cap_of s)) y.here;
              count = omega (arith, y.count);
              within = omega (arith, y.within);
              active_at = active_after more;
              partial = λ g. let more' = y.partial g in omega arith;
            }))
        | inr rest ↦ rw rest (
            rw (minus_zero n, minus_zero m)
              (inr (record {
                holds = without_head-Represents s front items y.holds;
                gone = sym (ap (next (cap_of s)) y.here);
                inside = omega (arith, y.holds.head_in, y.here);
                several = omega (arith, cap_room);
                count = omega (arith, y.count);
                within = y.within;
                active_at = active_after more;
                partial = λ g. (more, y.partial g);
              })))
      ];
      order = refl;
      same_heaps = refl;
      kept = record { config = refl; most = refl; gen = inl refl };
    }

    error_active : is_error p.result ≡ true → m ≡ 0 → Goal (front ∷ items)
    unfolding next
    error_active error done =
        let at_head : s.active ≡ s.queue_head =
          y.active_at
          ∙ ap (place (cap_of s) s.queue_head) done
          ∙ place-none (cap_of s) s.queue_head y.holds.head_in in
        let next_in = next_head-lt s front items y.holds in
        record {
          posted = completion_of front p.result ∷ [];
          after = without_head (next_active s);
          left = items;
          made =
              failing s p _ _ (own ∙ sym y.here) error
                (post_handler-active s front items y.holds p.result at_head error);
          at = elim (Bool-cases p.last) [
            | inl last ↦ absurd (omega (arith, due last))
            | inr rest ↦ rw rest (
                rw (minus_zero n, minus_zero m)
                  (inr (record {
                    holds = without_head-Represents s front items y.holds;
                    gone = sym (ap (next (cap_of s)) y.here);
                    inside = omega (arith, y.holds.head_in, y.here);
                    several = omega (arith, cap_room);
                    count = omega (arith, y.count);
                    within = y.within;
                    active_at =
                        ap (next (cap_of s)) at_head
                        ∙ sym (place-none (cap_of s) _ next_in)
                        ∙ ap (place (cap_of s) (next (cap_of s) s.queue_head)) (omega arith);
                    partial = λ g. absurd (cc);
                  })))
          ];
          order = refl;
          same_heaps = refl;
          kept = record { config = refl; most = refl; gen = inr refl };
        }

    abbrev sent : StreamImpl
    sent = with_sent s front items y.holds p.size

    success_more : is_error p.result ≡ false → p.last ≡ false → Goal (front ∷ items)
    success_more fine rest = record {
      posted = [];
      after = sent;
      left = counted s front items y.holds p.size ∷ items;
      made =
          succeeding s p sent (own ∙ sym y.here) fine (note_sent-head s front items y.holds p.size)
            rest;
      at = rw rest (
          rw (minus_zero n, minus_zero m)
            (inl (record {
              holds = with_sent-Represents s front items y.holds p.size;
              here = y.here;
              count = y.count;
              within = y.within;
              active_at = y.active_at;
              partial = y.partial;
            })));
      order = refl;
      same_heaps = refl;
      kept = record { config = refl; most = refl; gen = inl refl };
    }

    success_last : is_error p.result ≡ false → p.last ≡ true → Goal (front ∷ items)
    unfolding next
    success_last fine last =
        let more = due last in
        let again = with_sent-Represents s front items y.holds p.size in
        let it = counted s front items y.holds p.size in
        record {
          posted = completion_of it p.result ∷ [];
          after = without_head sent;
          left = items;
          made =
              finishing s p sent (without_head sent) (completion_of it p.result) (own ∙ sym y.here)
                fine (note_sent-head s front items y.holds p.size) last
                (post_handler-other sent it items again p.result (active-ne more));
          at = rw last (
              inl (record {
                holds = without_head-Represents sent it items again;
                here = ap (next (cap_of s)) y.here;
                count = omega (arith, y.count);
                within = omega (arith, y.within);
                active_at = active_after more;
                partial = λ g. let more' = y.partial g in omega arith;
              }));
          order = refl;
          same_heaps = refl;
          kept = record { config = refl; most = refl; gen = inl refl };
        }

    pub Synced-step : Goal (front ∷ items)
    Synced-step = elim (Bool-cases (is_error p.result)) [
      | inl error ↦ elim (Bool-cases (ltb 0 m)) [
        | inl more ↦ error_other error (ground arith)
        | inr none_more ↦ error_active error (ground arith)
      ]
      | inr fine ↦ elim (Bool-cases p.last) [
        | inl last ↦ success_last fine last
        | inr rest ↦ success_more fine rest
      ]
    ]
