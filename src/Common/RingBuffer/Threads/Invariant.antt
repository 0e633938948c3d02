-- ===== src/Common/RingBuffer/Threads/Invariant.antt =====
-- What holds in every state of the threads, as long as calls of stop do not overlap.
use spead.Prelude.{
  ℕ, ◌+◌, ◌-◌, ◌<◌, ◌≡◌, ◌≢◌, refl, ap, sym, subst, ◌∙◌, Bool, true, false, List, [], ◌∷◌, ◌++◌,
  Option, none, some, arith, length, length-append, map, ◌⊎◌, inl, inr, append_assoc, List-cases,
}
use mathlib.Core.List.{map-append}
use spead.Common.RingBuffer.{
  Base, ok, emplace_internal, pop_internal, stop_tail, stop_head, slot_at,
}
use spead.Common.RingBuffer.Slots.{
  Represents, make_base-Represents, emplaced, emplaced-Represents, popped-Represents, head-value,
  Represents-marks, place,
}
use spead.Common.RingBuffer.Slots
use spead.Common.RingBuffer.Threads.{
  System, initial, Step, take_space, emplace, emplace_throws, put_data, return_space, take_data,
  pop, pop_throws, put_space, return_data, stop_first, stop_again, stop_second, stop_put_space,
  stop_put_data, OneStop, Reach, start, later,
}

-- No call of stop has got as far as its `put`s.
abbrev pub Unraised : {A : Type 0} → System A → Type 0
Unraised s =
    (s.space_extra ≡ 0)
    × (s.data_extra ≡ 0)
    × (s.stop_space ≡ 0)
    × (s.stop_data ≡ 0)
    × (s.base.stop_position ≡ s.base.cap)

abbrev pub IsRunning : {A : Type 0} → System A → Type 0
IsRunning s = (s.base.stopped ≡ false) × (s.saved_tail ≡ none) × Unraised s

abbrev pub IsMarked : {A : Type 0} → System A → Type 0
IsMarked s = (s.base.stopped ≡ true) × (s.saved_tail ≡ some (s.base.tail)) × Unraised s

abbrev pub IsStopped : {A : Type 0} → System A → Type 0
IsStopped s =
    (s.base.stopped ≡ true)
    × (s.saved_tail ≡ none)
    × (s.base.stop_position ≡ s.base.tail)
    × (0 < s.stop_space + s.space_extra)
    × (0 < s.stop_space + s.stop_data + s.data_extra)

pub record Inv (A : Type 0) (limit : ℕ) (s : System A) (items : List A) : Type 0 where
  pub holds : Represents s.base items
  pub sized : s.base.cap ≡ limit + 1
  pub flow : map some s.sent ≡ s.received ++ map some items
  pub data_tokens : s.data_sem + s.popping + s.pop_failed + s.pushed ≡ length items + s.data_extra
  pub space_tokens :
      s.space_sem + s.pushing + s.push_failed + s.popped + length items ≡ limit + s.space_extra
  pub phase : IsRunning s ⊎ IsMarked s ⊎ IsStopped s

module _ {A : Type 0} where
  emplace_inversion :
      (r b : Base A) (x : A)
      → emplace_internal r x ≡ ok b
      → (r.stopped ≡ false) × (b ≡ emplaced r x)
  unfolding emplace_internal
  emplace_inversion r b x e = ground arith

  pop_inversion :
      (r b : Base A) (v : Option A)
      → pop_internal r ≡ ok (v, b)
      → (r.stop_position ≢ r.head) × (b ≡ Slots.popped r) × (v ≡ slot_at r.storage r.head)
  unfolding pop_internal
  pop_inversion r b v e = ground arith

  stop_tail_inversion :
      (r b : Base A) (o : Option ℕ)
      → stop_tail r ≡ (o, b)
      → (b ≡ record r { stopped = true })
        × (((r.stopped ≡ false) × (o ≡ some r.tail)) ⊎ ((r.stopped ≡ true) × (o ≡ none)))
  unfolding stop_tail
  stop_tail_inversion r b o e = ground arith

  -- A step of the semaphores alone.
  same_base :
      (limit : ℕ) (s t : System A) (items : List A)
      → Inv A limit s items
      → t.base ≡ s.base
      → t.sent ≡ s.sent
      → t.received ≡ s.received
      → t.data_sem + t.popping + t.pop_failed + t.pushed + s.data_extra
        ≡ s.data_sem + s.popping + s.pop_failed + s.pushed + t.data_extra
      → t.space_sem + t.pushing + t.push_failed + t.popped + s.space_extra
        ≡ s.space_sem + s.pushing + s.push_failed + s.popped + t.space_extra
      → IsRunning t ⊎ IsMarked t ⊎ IsStopped t
      → Inv A limit t items
  same_base limit s t items v e f g d p ph = record {
    holds = subst (λ b. Represents b items) (sym e) v.holds;
    sized = ap (λ b. b.cap) e ∙ v.sized;
    flow = ap (map some) f ∙ v.flow ∙ ap (λ l. l ++ map some items) (sym g);
    data_tokens = omega (arith, v.data_tokens);
    space_tokens = omega (arith, v.space_tokens);
    phase = ph;
  }

  phase-IsRunning :
      (s : System A) → s.base.stopped ≡ false → IsRunning s ⊎ IsMarked s ⊎ IsStopped s → IsRunning s
  phase-IsRunning s run (inl p) = p
  phase-IsRunning s run (inr (inl p)) = absurd (cc)
  phase-IsRunning s run (inr (inr p)) = absurd (cc)

  emplace-Inv :
      (limit : ℕ) (s : System A) (x : A) (items : List A)
      → 0 < s.pushing
      → s.base.stopped ≡ false
      → Inv A limit s items
      → Inv A limit
          (record s {
            base = emplaced s.base x;
            pushing = s.pushing - 1;
            pushed = s.pushed + 1;
            sent = s.sent ++ x ∷ [];
          })
          (items ++ x ∷ [])
  emplace-Inv limit s x items h run v =
      let grown = length-append items (x ∷ []) in
      let quiet : IsRunning s = phase-IsRunning s run v.phase in
      record {
        holds = emplaced-Represents s.base items v.holds x (omega (arith, v.sized, v.space_tokens));
        sized = v.sized;
        flow =
            map-append some s.sent (x ∷ [])
            ∙ ap (λ l. l ++ some x ∷ []) v.flow
            ∙ append_assoc s.received (map some items) (some x ∷ [])
            ∙ ap (λ l. s.received ++ l) (sym (map-append some items (x ∷ [])));
        data_tokens = omega (arith, v.data_tokens, grown);
        space_tokens = omega (arith, v.space_tokens, grown);
        phase = inl quiet;
      }

  pop-Inv :
      (limit : ℕ) (s : System A) (x : A) (items : List A)
      → 0 < s.popping
      → Inv A limit s (x ∷ items)
      → Inv A limit
          (record s {
            base = Slots.popped s.base;
            popping = s.popping - 1;
            popped = s.popped + 1;
            received = s.received ++ slot_at s.base.storage s.base.head ∷ [];
          })
          items
  pop-Inv limit s x items h v = record {
    holds = popped-Represents s.base x items v.holds;
    sized = v.sized;
    flow =
        v.flow
        ∙ sym (append_assoc s.received (some x ∷ []) (map some items))
        ∙ ap (λ o. (s.received ++ o ∷ []) ++ map some items)
            (sym (head-value s.base x items v.holds));
    data_tokens = omega (arith, v.data_tokens);
    space_tokens = omega (arith, v.space_tokens);
    phase = v.phase;
  }

  -- A thread that may take something finds something.
  pop_finds :
      (limit : ℕ) (s : System A) (items : List A)
      → 0 < s.popping
      → s.base.stop_position ≢ s.base.head
      → Inv A limit s items
      → items ≢ []
  pop_finds limit s items h ne v e = elim v.phase [
    | inl p ↦ omega (arith, p.2, v.data_tokens, ap length e)
    | inr (inl p) ↦ omega (arith, p.2, v.data_tokens, ap length e)
    | inr (inr p) ↦ ne (p.2 ∙ ground (arith, v.holds.tail_at, ap length e, v.holds.head_in))
  ]

  pop_step :
      (limit : ℕ) (s : System A) (o : Option A) (b : Base A) (items : List A)
      → 0 < s.popping
      → pop_internal s.base ≡ ok (o, b)
      → Inv A limit s items
      → (items' : List A) × Inv A limit
          (record s {
            base = b;
            popping = s.popping - 1;
            popped = s.popped + 1;
            received = s.received ++ o ∷ [];
          })
          items'
  pop_step limit s o b items h e v =
      let (ne, eb, eo) = pop_inversion s.base b o e in
      elim (List-cases items) [
        | inl empty ↦ absurd (pop_finds limit s items h ne v empty)
        | inr (x, rest, q) ↦
            (rest, rw (eb, eo) (pop-Inv limit s x rest h (subst (Inv A limit s) q v)))
      ]

  -- The system after a block of stop_internal.
  abbrev marked : System A → Bool → ℕ → Option ℕ → ℕ → System A
  marked s stopped position saved n = record s {
    base = record (s.base) { stopped = stopped; stop_position = position };
    saved_tail = saved;
    stop_space = n;
  }

  marks-Inv :
      (limit : ℕ) (s : System A) (items : List A) (stopped : Bool) (position : ℕ) (saved : Option ℕ)
      (n : ℕ)
      → Inv A limit s items
      → IsRunning (marked s stopped position saved n)
        ⊎ IsMarked (marked s stopped position saved n)
        ⊎ IsStopped (marked s stopped position saved n)
      → Inv A limit (marked s stopped position saved n) items
  marks-Inv limit s items stopped position saved n v p = record {
    holds = Represents-marks s.base items stopped position v.holds;
    sized = v.sized;
    flow = v.flow;
    data_tokens = v.data_tokens;
    space_tokens = v.space_tokens;
    phase = p;
  }

  phase_raised :
      (s : System A)
      → 0 < s.stop_space + s.stop_data
      → IsRunning s ⊎ IsMarked s ⊎ IsStopped s
      → IsStopped s
  phase_raised s h (inl p) = absurd (omega (arith, p.2))
  phase_raised s h (inr (inl p)) = absurd (omega (arith, p.2))
  phase_raised s h (inr (inr p)) = p

  pub phase_stopped :
      (s : System A)
      → s.base.stopped ≡ true
      → s.saved_tail ≡ none
      → IsRunning s ⊎ IsMarked s ⊎ IsStopped s
      → IsStopped s
  phase_stopped s h e (inl p) = absurd (cc)
  phase_stopped s h e (inr (inl p)) = absurd (cc)
  phase_stopped s h e (inr (inr p)) = p

  phase-IsMarked :
      (s : System A) (t : ℕ)
      → s.saved_tail ≡ some t
      → IsRunning s ⊎ IsMarked s ⊎ IsStopped s
      → IsMarked s
  phase-IsMarked s t e (inl p) = absurd (cc)
  phase-IsMarked s t e (inr (inl p)) = p
  phase-IsMarked s t e (inr (inr p)) = absurd (cc)

  first_step :
      (limit : ℕ) (s : System A) (t : ℕ) (b : Base A) (items : List A)
      → stop_tail s.base ≡ (some t, b)
      → Inv A limit s items
      → Inv A limit (record s { base = b; saved_tail = some t }) items
  first_step limit s t b items e v =
      let (eb, c) = stop_tail_inversion s.base b (some t) e in
      let run : s.base.stopped ≡ false = ground arith in
      let tail : some t ≡ some s.base.tail = ground arith in
      let p = phase-IsRunning s run v.phase in
      rw eb (
        marks-Inv limit s items true s.base.stop_position (some t) s.stop_space v
          (inr (inl (refl, tail, p.2))))

  again_step :
      (limit : ℕ) (s : System A) (b : Base A) (items : List A)
      → stop_tail s.base ≡ (none, b)
      → s.saved_tail ≡ none
      → Inv A limit s items
      → Inv A limit (record s { base = b; stop_space = s.stop_space + 1 }) items
  again_step limit s b items e o v =
      let (eb, c) = stop_tail_inversion s.base b none e in
      let stopped : s.base.stopped ≡ true = ground arith in
      let p = phase_stopped s stopped o v.phase in
      rw eb (
        marks-Inv limit s items true s.base.stop_position s.saved_tail (s.stop_space + 1) v
          (inr (inr (refl, o, p.2, omega arith, omega arith))))

  second_step :
      (limit : ℕ) (s : System A) (t : ℕ) (items : List A)
      → s.saved_tail ≡ some t
      → Inv A limit s items
      → Inv A limit
          (record s { base = stop_head s.base t; saved_tail = none; stop_space = s.stop_space + 1 })
          items
  unfolding stop_head
  second_step limit s t items e v =
      let p = phase-IsMarked s t e v.phase in
      let tail : t ≡ s.base.tail = ground arith in
      marks-Inv limit s items s.base.stopped t none (s.stop_space + 1) v
        (inr (inr (p.0, refl, tail, omega arith, omega arith)))

  Step-Inv :
      (limit : ℕ) (s t : System A) (st : Step s t) (items : List A)
      → OneStop s t st
      → Inv A limit s items
      → (items' : List A) × Inv A limit t items'
  Step-Inv limit _ _ (take_space s h) items o v =
      (items, same_base limit s _ items v refl refl refl (omega arith) (omega arith) v.phase)
  Step-Inv limit _ _ (emplace s x b h e) items o v =
      let (run, eb) = emplace_inversion s.base b x e in
      (items ++ x ∷ [], rw eb (emplace-Inv limit s x items h run v))
  Step-Inv limit _ _ (emplace_throws s x e h q) items o v =
      (items, same_base limit s _ items v refl refl refl (omega arith) (omega arith) v.phase)
  Step-Inv limit _ _ (put_data s h) items o v =
      (items, same_base limit s _ items v refl refl refl (omega arith) (omega arith) v.phase)
  Step-Inv limit _ _ (return_space s h) items o v =
      (items, same_base limit s _ items v refl refl refl (omega arith) (omega arith) v.phase)
  Step-Inv limit _ _ (take_data s h) items o v =
      (items, same_base limit s _ items v refl refl refl (omega arith) (omega arith) v.phase)
  Step-Inv limit _ _ (pop s x b h e) items o v = pop_step limit s x b items h e v
  Step-Inv limit _ _ (pop_throws s e h q) items o v =
      (items, same_base limit s _ items v refl refl refl (omega arith) (omega arith) v.phase)
  Step-Inv limit _ _ (put_space s h) items o v =
      (items, same_base limit s _ items v refl refl refl (omega arith) (omega arith) v.phase)
  Step-Inv limit _ _ (return_data s h) items o v =
      (items, same_base limit s _ items v refl refl refl (omega arith) (omega arith) v.phase)
  Step-Inv limit _ _ (stop_first s t b e) items o v = (items, first_step limit s t b items e v)
  Step-Inv limit _ _ (stop_again s b e) items o v = (items, again_step limit s b items e o v)
  Step-Inv limit _ _ (stop_second s t e) items o v = (items, second_step limit s t items e v)
  Step-Inv limit _ _ (stop_put_space s h) items o v = (
    items,
    same_base limit s _ items v refl refl refl (omega arith) (omega arith) (
        let p = phase_raised s (omega arith) v.phase in
        inr (inr (p.0, p.1, p.2, omega arith, omega arith))),
  )
  Step-Inv limit _ _ (stop_put_data s h) items o v = (
    items,
    same_base limit s _ items v refl refl refl (omega arith) (omega arith) (
        let p = phase_raised s (omega arith) v.phase in
        inr (inr (p.0, p.1, p.2, omega arith, omega arith))),
  )

  initial-Inv : (limit : ℕ) → Inv A limit (initial limit) []
  unfolding initial
  initial-Inv limit = record {
    holds = make_base-Represents limit;
    sized = refl;
    flow = refl;
    data_tokens = refl;
    space_tokens = omega arith;
    phase = inl (refl, refl, (refl, refl, refl, refl, refl));
  }

  -- Some items account for every state that calls of stop which do not overlap can bring about.
  pub Reach-Inv :
      (limit : ℕ) (s : System A) → Reach limit OneStop s → (items : List A) × Inv A limit s items
  Reach-Inv limit _ start = ([], initial-Inv limit)
  Reach-Inv limit t (later {s = s} r st o) =
      let (items, v) = Reach-Inv limit s r in Step-Inv limit s t st items o v
