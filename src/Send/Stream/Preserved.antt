-- ===== src/Send/Stream/Preserved.antt =====
-- Every step of a sending stream keeps the invariant, and none is stuck.
use spead.Prelude.{
  ℕ, ◌-◌, ◌<◌, ◌≡◌, refl, sym, ap, subst, ◌∙◌, true, false, List, [], ◌∷◌, ◌++◌, Option, none, some,
  if◌then◌else◌, length, eq→==, true≢false, arith, append_assoc,
}
use spead.Common.RingBuffer.{next}
use spead.Common.RingBuffer.Slots.{place}
use spead.Send.Generator.{one_if}
use spead.Send.Stream.{Code, TransmitPacket, Completion, StreamImpl}
use spead.Send.Stream.Load.{start_sending}
use spead.Send.Stream.Machine.{Next, settle, schedule, do_next, is_empty, set_results}
use spead.Send.Stream.Batch.{Follow, cap_of, handlers, called}
use spead.Send.Stream.Settle.{called-append}
use spead.Send.Stream.Begun.{start_sending-Loading}
use spead.Send.Stream.Steps.{due, in_flight, loading, System, phase_after}
use spead.Send.Stream.Invariant.{CoreOf, Stage, Inv, is_sending, settled, scheduled}

do_next-parts :
    (empty_now now : ℕ) (s s' s'' : StreamImpl) (posted : List Completion) (next : Next)
    → settle empty_now s ≡ some (posted, s')
    → s'.active ≡ s'.queue_head
    → schedule now s' ≡ (next, s'')
    → do_next empty_now now s ≡ some (posted, next, s'')
unfolding do_next
do_next-parts empty_now now s s' s'' posted next e here e' =
    let test = eq→== s'.active s'.queue_head here in rw (e, do_next) (rw (test, e') refl)

place-zero-head : (cap head : ℕ) → head < cap → place cap head 0 ≡ head
place-zero-head cap head h = ground arith

abbrev pub woken : System → List Completion → Next → StreamImpl → System
woken y posted next s' = record y {
  stream = s';
  phase = phase_after next;
  completed = y.completed ++ posted;
}

-- A call of do_next fails no assert, and keeps the invariant.
abbrev pub Woken : System → Option (List Completion × Next × StreamImpl) → Type 0
Woken y none = ⊥
Woken y (some (posted, next, s')) = Inv (woken y posted next s')

pub do_next-Woken :
    (y : System) (empty_now now : ℕ)
    → Inv y
    → y.phase ≡ due
    → Woken y (do_next empty_now now y.stream)
do_next-Woken y empty_now now v waiting =
    let s = y.stream in
    let (busy, follow, none_loaded) = subst (λ ph. Stage ph s v.items v.m) waiting v.stage in
    let (posted, s', left, e, calm) = settled s v.items v.m v.core follow none_loaded empty_now in
    let here =
      calm.core.active_at ∙ place-zero-head (cap_of s') s'.queue_head calm.core.holds.head_in in
    let (next, s'', e', c) = scheduled now s' left calm.core in
    let made = do_next-parts empty_now now s s' s'' posted next e here e' in
    subst (Woken y) (sym made) (record {
      items = left;
      m = 0;
      core = c.core;
      stage = c.stage;
      order =
          v.order
          ∙ ap (λ t. called y.completed ++ t) (sym calm.order)
          ∙ sym (append_assoc (called y.completed) (called posted) (handlers left))
          ∙ ap (λ t. t ++ handlers left) (sym (called-append y.completed posted));
    })

abbrev pub begun : System → StreamImpl → System
begun y s' = record y { stream = s'; phase = in_flight }

-- The loading of packets fails no assert, and keeps the invariant.
abbrev pub Begun : System → Option StreamImpl → Type 0
Begun y none = ⊥
Begun y (some s') = Inv (begun y s')

pub start_sending-Begun :
    (y : System) (tail : ℕ) → Inv y → y.phase ≡ loading tail → Begun y (start_sending tail y.stream)
start_sending-Begun y tail v waiting =
    let s = y.stream in
    let (busy, first, awake, (t, at_tail, some_left, inside)) =
      subst (λ ph. Stage ph s v.items v.m) waiting v.stage in
    let core : CoreOf s v.items 0 = subst (λ k. CoreOf s v.items k) first v.core in
    let (s', m, e, l, same) =
      start_sending-Loading tail s v.items t
        (record {
          holds = core.holds;
          within = core.within;
          active_at = core.active_at;
          partial = core.partial;
          gen_next = core.gen_next;
          sendable = core.sendable;
          follow = refl;
        })
        at_tail inside some_left core.some_packets awake in
    subst (Begun y) (sym e) (record {
      items = v.items;
      m = m;
      core = record {
        holds = l.holds;
        within = l.within;
        active_at = l.active_at;
        partial = l.partial;
        gen_next = l.gen_next;
        sendable = l.sendable;
        some_burst = rw same.config core.some_burst;
        some_packets = rw same.most core.some_packets;
      };
      stage = (same.state ∙ busy, l.follow);
      order = v.order;
    })

-- Result codes do not matter to the order of the packets.
Follow-set_results :
    (cap slot n m : ℕ) (results : List Code) (packets : List TransmitPacket)
    → Follow cap slot n m packets
    → Follow cap slot n m (set_results results packets)
unfolding set_results
Follow-set_results cap slot n m [] packets f = f
Follow-set_results cap slot n m (r ∷ results) [] f = f
Follow-set_results cap slot n m (r ∷ results) (p ∷ packets) (own, some_left, last, rest) = (
  own,
  some_left,
  last,
  Follow-set_results cap (if p.last then next cap slot else slot) (n - one_if p.last)
      (m - one_if p.last) results packets rest,
)

pub transmit-Inv :
    (y : System) (results : List Code)
    → Inv y
    → y.phase ≡ in_flight
    → Inv (record y {
      stream = record y.stream { current_packets = set_results results y.stream.current_packets };
      phase = due;
    })
transmit-Inv y results v waiting =
    let s = y.stream in
    let (busy, follow) = subst (λ ph. Stage ph s v.items v.m) waiting v.stage in
    let not_empty : is_empty s.state ≡ false = rw busy refl in
    let on : is_sending s.state ≡ true = rw busy refl in
    record {
      items = v.items;
      m = v.m;
      core = v.core;
      stage = (
        not_empty,
        λ _.
            Follow-set_results (cap_of s) s.queue_head (length v.items) v.m results
              s.current_packets follow,
        λ idle. absurd (true≢false (sym on ∙ idle)),
      );
      order = v.order;
    }
