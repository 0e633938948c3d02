-- ===== src/Common/RingBuffer/Threads.antt =====
-- Any number of threads on one ring buffer of include/spead2/common_ringbuffer.h. Each block under a
-- mutex and each call of a semaphore is one step, and the steps of the threads interleave freely.
use spead.Prelude.{ℕ, ◌+◌, ◌-◌, ◌<◌, ◌≡◌, List, [], ◌∷◌, ◌++◌, Option, none, some}
use spead.Common.RingBuffer.{
  Base, Error, ok, throws, make_base, emplace_internal, pop_internal, stop_tail, stop_head,
}
pub mod Invariant
pub mod Safety

-- The buffer, and how many threads stand where in their calls. A thread in push holds a token of
-- space_sem (`pushing`), then either a filled slot (`pushed`) or an exception (`push_failed`); a
-- thread in pop likewise. One thread can be between the two blocks of stop_internal (`saved_tail`);
-- after them come the two `put`s of stop. `sent` and `received` record what went in and came out,
-- and the two `extra` counts what stop has added to the semaphores.
pub record System (A : Type 0) : Type 0 where
  pub base : Base A
  pub data_sem : ℕ
  pub space_sem : ℕ
  pub pushing : ℕ
  pub pushed : ℕ
  pub push_failed : ℕ
  pub popping : ℕ
  pub popped : ℕ
  pub pop_failed : ℕ
  pub saved_tail : Option ℕ
  pub stop_space : ℕ
  pub stop_data : ℕ
  pub sent : List A
  pub received : List (Option A)
  pub space_extra : ℕ
  pub data_extra : ℕ

unfoldable pub initial : {A : Type 0} → ℕ → System A
unfolding make_base
initial limit = record {
  base = make_base limit;
  data_sem = 0;
  space_sem = limit;
  pushing = 0;
  pushed = 0;
  push_failed = 0;
  popping = 0;
  popped = 0;
  pop_failed = 0;
  saved_tail = none;
  stop_space = 0;
  stop_data = 0;
  sent = [];
  received = [];
  space_extra = 0;
  data_extra = 0;
}

pub data Step {A : Type 0} : System A → System A → Type 0 where
  -- push: semaphore_get(space_sem) or a successful try_get
  take_space :
      (s : System A)
      → 0 < s.space_sem
      → Step s (record s { space_sem = s.space_sem - 1; pushing = s.pushing + 1 })
  -- push: emplace_internal
  emplace :
      (s : System A) (x : A) (b : Base A)
      → 0 < s.pushing
      → emplace_internal s.base x ≡ ok b
      → Step s (record s {
        base = b;
        pushing = s.pushing - 1;
        pushed = s.pushed + 1;
        sent = s.sent ++ x ∷ [];
      })
  emplace_throws :
      (s : System A) (x : A) (e : Error)
      → 0 < s.pushing
      → emplace_internal s.base x ≡ throws e
      → Step s (record s { pushing = s.pushing - 1; push_failed = s.push_failed + 1 })
  -- push: data_sem.put(), or space_sem.put() in the handler
  put_data :
      (s : System A)
      → 0 < s.pushed
      → Step s (record s { pushed = s.pushed - 1; data_sem = s.data_sem + 1 })
  return_space :
      (s : System A)
      → 0 < s.push_failed
      → Step s (record s { push_failed = s.push_failed - 1; space_sem = s.space_sem + 1 })
  -- pop: semaphore_get(data_sem) or a successful try_get
  take_data :
      (s : System A)
      → 0 < s.data_sem
      → Step s (record s { data_sem = s.data_sem - 1; popping = s.popping + 1 })
  -- pop: pop_internal
  pop :
      (s : System A) (v : Option A) (b : Base A)
      → 0 < s.popping
      → pop_internal s.base ≡ ok (v, b)
      → Step s (record s {
        base = b;
        popping = s.popping - 1;
        popped = s.popped + 1;
        received = s.received ++ v ∷ [];
      })
  pop_throws :
      (s : System A) (e : Error)
      → 0 < s.popping
      → pop_internal s.base ≡ throws e
      → Step s (record s { popping = s.popping - 1; pop_failed = s.pop_failed + 1 })
  -- pop: space_sem.put(), or data_sem.put() in the handler
  put_space :
      (s : System A)
      → 0 < s.popped
      → Step s (record s { popped = s.popped - 1; space_sem = s.space_sem + 1 })
  return_data :
      (s : System A)
      → 0 < s.pop_failed
      → Step s (record s { pop_failed = s.pop_failed - 1; data_sem = s.data_sem + 1 })
  -- stop: the block under tail_mutex, of the first call and of a later one
  stop_first :
      (s : System A) (t : ℕ) (b : Base A)
      → stop_tail s.base ≡ (some t, b)
      → Step s (record s { base = b; saved_tail = some t })
  stop_again :
      (s : System A) (b : Base A)
      → stop_tail s.base ≡ (none, b)
      → Step s (record s { base = b; stop_space = s.stop_space + 1 })
  -- stop: the block under head_mutex
  stop_second :
      (s : System A) (t : ℕ)
      → s.saved_tail ≡ some t
      → Step s
          (record s { base = stop_head s.base t; saved_tail = none; stop_space = s.stop_space + 1 })
  -- stop: space_sem.put(), then data_sem.put()
  stop_put_space :
      (s : System A)
      → 0 < s.stop_space
      → Step s (record s {
        stop_space = s.stop_space - 1;
        stop_data = s.stop_data + 1;
        space_sem = s.space_sem + 1;
        space_extra = s.space_extra + 1;
      })
  stop_put_data :
      (s : System A)
      → 0 < s.stop_data
      → Step s (record s {
        stop_data = s.stop_data - 1;
        data_sem = s.data_sem + 1;
        data_extra = s.data_extra + 1;
      })

-- What a step may be asked besides: no call of stop runs through while another is between its
-- blocks.
abbrev pub OneStop : {A : Type 0} (s t : System A) → Step s t → Type 0
OneStop _ _ (stop_again s b e) = s.saved_tail ≡ none
OneStop _ _ _ = Unit {0}

abbrev pub AnyStop : {A : Type 0} (s t : System A) → Step s t → Type 0
AnyStop s t st = Unit {0}

-- The states that a new buffer can come to by allowed steps.
pub data Reach {A : Type 0} (limit : ℕ) (allowed : (s t : System A) → Step s t → Type 0)
    : System A → Type 0 where
  start : Reach limit allowed (initial limit)
  later :
      {s t : System A}
      → Reach limit allowed s
      → (st : Step s t) → allowed s t st
      → Reach limit allowed t
