-- ===== src/Send/Stream/Steps.antt =====
-- A sending stream with its users, its timer and its transport, as a relation of steps. Each step is
-- what runs under queue_mutex, or what do_next does after releasing it.
use spead.Prelude.{ℕ, ◌≡◌, List, [], ◌∷◌, ◌++◌, Option, some, if◌then◌else◌}
use spead.Send.Heap.{Heap}
use spead.Send.Stream.{Code, Config, Completion, StreamImpl, stream_impl_base}
use spead.Send.Stream.Load.{start_sending}
use spead.Send.Stream.Machine.{
  Next, wait_until, idle, load, do_next, set_results, Sent, async_send_heap, set_cnt_sequence,
}
use spead.Send.Stream.Loaded.{Sendable}

-- What is pending: nothing; a call of do_next, by the I/O service or by the timer; the loading of
-- packets up to a copy of queue_tail; or the transmission of the current packets.
pub data Phase : Type 0 where
  at_rest due in_flight : Phase
  loading : ℕ → Phase

-- With the handlers of the heaps that async_send_heap took, and the calls of these that do_next has
-- posted, both in their order.
pub record System : Type 0 where
  pub stream : StreamImpl
  pub phase : Phase
  pub accepted : List ℕ
  pub completed : List Completion

abbrev pub fresh_system : Config → ℕ → System
fresh_system config max_current_packets = record {
  stream = stream_impl_base config max_current_packets;
  phase = at_rest;
  accepted = [];
  completed = [];
}

abbrev pub submitted : System → ℕ → Sent × StreamImpl → System
submitted y handler (sent, s') = record {
  stream = s';
  phase = if sent.dispatched then due else y.phase;
  accepted = if sent.accepted then y.accepted ++ handler ∷ [] else y.accepted;
  completed = y.completed;
}

abbrev pub phase_after : Next → Phase
phase_after (wait_until target) = due
phase_after idle = at_rest
phase_after (load tail) = loading tail

pub data Step : System → System → Type 0 where
  submit :
      (y : System) (h : Heap) (handler : ℕ) (cnt : Option ℕ)
      → Sendable y.stream.config.max_packet_size h
      → Step y (submitted y handler (async_send_heap h handler cnt y.stream))
  renumber :
      (y : System) (next step : ℕ) (s' : StreamImpl)
      → set_cnt_sequence next step y.stream ≡ some s'
      → Step y (record y { stream = s' })
  wake :
      (y : System) (empty_now now : ℕ) (posted : List Completion) (next : Next) (s' : StreamImpl)
      → y.phase ≡ due
      → do_next empty_now now y.stream ≡ some (posted, next, s')
      → Step y
          (record y { stream = s'; phase = phase_after next; completed = y.completed ++ posted })
  begin :
      (y : System) (tail : ℕ) (s' : StreamImpl)
      → y.phase ≡ loading tail
      → start_sending tail y.stream ≡ some s'
      → Step y (record y { stream = s'; phase = in_flight })
  transmit :
      (y : System) (results : List Code)
      → y.phase ≡ in_flight
      → Step y (record y {
        stream = record y.stream { current_packets = set_results results y.stream.current_packets };
        phase = due;
      })

pub data Reach (x : System) : System → Type 0 where
  here : Reach x x
  after : {y z : System} → Reach x y → Step y z → Reach x z
