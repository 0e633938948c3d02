-- ===== src/Common/RingBuffer/Slots.antt =====
-- How the slots of ringbuffer_base hold a sequence of values.
use spead.Prelude.{
  ℕ, zero, suc, ◌+◌, ◌-◌, ◌≤◌, ◌<◌, ◌≡◌, refl, ap, sym, eq→==, ne→==, ◌∙◌, ◌≢◌, ◌==◌, ℕ_discrete,
  Bool, List, [], ◌∷◌, ◌++◌, Option, none, some, ltb, if◌then◌else◌, arith, length, get_elem?, set,
  length-set, get_elem?-set_self, get_elem?-set_ne, length-append, length-replicate, replicate,
}
use native.Mathlib.Numerals.{add-one}
use spead.Common.RingBuffer.{Base, next, slot_at, make_base, size, capacity}

-- The slot `k` places after `head`, going round at `cap`.
abbrev pub place : ℕ → ℕ → ℕ → ℕ
place cap head k = if ltb (head + k) cap then head + k else head + k - cap

pub place-lt : (cap head k : ℕ) → head < cap → k < cap → place cap head k < cap
place-lt cap head k h l = ground arith

pub place-next :
    (cap head k : ℕ) → head < cap → k < cap → place cap (next cap head) k ≡ place cap head (k + 1)
unfolding next
place-next cap head k h l = ground arith

pub next-place :
    (cap head k : ℕ)
    → head < cap
    → k + 1 < cap
    → next cap (place cap head k) ≡ place cap head (k + 1)
unfolding next
next-place cap head k h l = ground arith

pub place_injective :
    (cap head j k : ℕ)
    → head < cap
    → j < cap
    → k < cap
    → j ≢ k
    → place cap head j ≢ place cap head k
place_injective cap head j k h lj lk ne = ground arith

module _ {ℓ} {A : Type ℓ} where
  pub record Represents (r : Base A) (items : List A) : Type ℓ where
    pub slots : length r.storage ≡ r.cap
    pub head_in : r.head < r.cap
    pub room : length items < r.cap
    pub tail_at : r.tail ≡ place r.cap r.head (length items)
    pub filled :
        (k : ℕ) → k < length items → slot_at r.storage (place r.cap r.head k) ≡ get_elem? items k
    pub vacant :
        (k : ℕ) → length items ≤ k → k < r.cap → slot_at r.storage (place r.cap r.head k) ≡ none

  pub slot_at-set_self :
      (st : List (Option A)) (i : ℕ) (v : Option A) → i < length st → slot_at (set st i v) i ≡ v
  slot_at-set_self st i v h = ground (arith, get_elem?-set_self st i v h)

  pub slot_at-set_ne :
      (st : List (Option A)) (i j : ℕ) (v : Option A)
      → i ≢ j
      → slot_at (set st i v) j ≡ slot_at st j
  slot_at-set_ne st i j v h = ground (arith, get_elem?-set_ne st i j v h)

  pub slot_at-replicate : (n i : ℕ) → slot_at (replicate {A = Option A} n none) i ≡ none
  slot_at-replicate zero i = refl
  slot_at-replicate (suc n) zero = refl
  slot_at-replicate (suc n) (suc i) = slot_at-replicate n i

  get_elem?-append :
      (xs : List A) (x : A) (k : ℕ)
      → get_elem? (xs ++ x ∷ []) k ≡ (if k == length xs then some x else get_elem? xs k)
  get_elem?-append [] x zero = refl
  get_elem?-append [] x (suc k) = ground arith
  get_elem?-append (y ∷ xs) x zero = ground arith
  get_elem?-append (y ∷ xs) x (suc k) = ground (arith, get_elem?-append xs x k)

  pub make_base-Represents : (cap : ℕ) → Represents (make_base cap) []
  unfolding make_base
  make_base-Represents cap = record {
    slots = length-replicate (cap + 1) none;
    head_in = omega arith;
    room = omega arith;
    tail_at = ground arith;
    filled = λ k h. elim h [ ];
    vacant = λ k l h. slot_at-replicate (cap + 1) (place (cap + 1) 0 k);
  }

  -- The ring after a value is put at `tail`, and after one is taken from `head`.
  abbrev pub emplaced : Base A → A → Base A
  emplaced r x = record r { storage = set r.storage r.tail (some x); tail = next r.cap r.tail }

  abbrev pub popped : Base A → Base A
  popped r = record r { storage = set r.storage r.head none; head = next r.cap r.head }

module _ {ℓ} {A : Type ℓ} (r : Base A) (items : List A) (v : Represents r items) where
  place_in : (k : ℕ) → k < r.cap → place r.cap r.head k < length r.storage
  place_in k h = ground (arith, place-lt r.cap r.head k v.head_in h, v.slots)

  slot_at-emplaced :
      (x : A) (k : ℕ)
      → k < r.cap
      → slot_at (emplaced r x).storage (place r.cap r.head k)
        ≡ (if k == length items then some x else slot_at r.storage (place r.cap r.head k))
  slot_at-emplaced x k h =
      let n = length items in
      rw v.tail_at (elim (ℕ_discrete k n) [
        | yes e ↦
            rw (e, eq→== n n refl)
              (slot_at-set_self r.storage (place r.cap r.head n) (some x) (place_in n v.room))
        | no e ↦ rw (ne→== k n e) (
            slot_at-set_ne r.storage (place r.cap r.head n) (place r.cap r.head k) (some x)
              (place_injective r.cap r.head n k v.head_in v.room h (λ q. e (sym q))))
      ])

  pub emplaced-Represents :
      (x : A) → length items + 1 < r.cap → Represents (emplaced r x) (items ++ x ∷ [])
  emplaced-Represents x h =
      let n = length items in
      let grown = length-append items (x ∷ []) in
      record {
        slots = length-set r.storage r.tail (some x) ∙ v.slots;
        head_in = v.head_in;
        room = omega (arith, grown);
        tail_at =
            ap (next r.cap) v.tail_at
            ∙ next-place r.cap r.head n v.head_in h
            ∙ ap (place r.cap r.head) (omega (arith, grown));
        filled = λ k l.
            rw (slot_at-emplaced x k (omega (arith, grown)), get_elem?-append items x k)
              (elim (ℕ_discrete k n) [
                | yes e ↦ rw (eq→== k n e)
                | no e ↦ rw (ne→== k n e) (v.filled k (omega (arith, grown)))
              ]);
        vacant = λ k l m.
            rw (slot_at-emplaced x k m, ne→== k n (omega (arith, grown)))
              (v.vacant k (omega (arith, grown)) m);
      }

module _ {ℓ} {A : Type ℓ} (r : Base A) (x : A) (items : List A) (v : Represents r (x ∷ items)) where
  pub head-value : slot_at r.storage r.head ≡ some x
  head-value = ground (arith, v.filled 0, v.head_in)

  pub place-zero : place r.cap r.head 0 ≡ r.head
  place-zero = ground (arith, v.head_in)

  slot_at-popped :
      (k : ℕ)
      → k + 1 < r.cap
      → slot_at (popped r).storage (place r.cap (next r.cap r.head) k)
        ≡ slot_at r.storage (place r.cap r.head (k + 1))
  slot_at-popped k h = rw (place-next r.cap r.head k v.head_in (omega arith)) (
      slot_at-set_ne r.storage r.head (place r.cap r.head (k + 1)) none (λ e.
        place_injective r.cap r.head 0 (k + 1) v.head_in (omega arith) h (omega arith)
          (place-zero ∙ e)))

  place-last : place r.cap (next r.cap r.head) (r.cap - 1) ≡ r.head
  unfolding next
  place-last = ground (arith, v.head_in)

  pub next-lt : next r.cap r.head < r.cap
  unfolding next
  next-lt = ground (arith, v.head_in)

  pub popped-Represents : Represents (popped r) items
  popped-Represents =
      let n = length items in
      let inside : n + 1 < r.cap = omega (arith, v.room) in
      let after = place-next r.cap r.head n v.head_in (omega arith) in
      record {
        slots = length-set r.storage r.head none ∙ v.slots;
        head_in = next-lt;
        room = omega (arith, v.room);
        tail_at = v.tail_at ∙ ap (place r.cap r.head) (omega arith) ∙ sym after;
        filled = λ k l.
            slot_at-popped k (omega arith)
            ∙ ap (λ j. slot_at r.storage (place r.cap r.head j)) (add-one k)
            ∙ v.filled (suc k) (omega arith);
        vacant = λ k l m. elim (ℕ_discrete (k + 1) r.cap) [
          | yes e ↦
              let last : k ≡ r.cap - 1 = omega arith in
              ap (λ j. slot_at (popped r).storage (place r.cap (next r.cap r.head) j)) last
              ∙ ap (slot_at (popped r).storage) place-last
              ∙ slot_at-set_self r.storage r.head none (omega (arith, v.slots, v.head_in))
          | no e ↦ slot_at-popped k (omega arith) ∙ v.vacant (k + 1) (omega arith) (omega arith)
        ];
      }

-- size and capacity are those of the sequence.
pub size-length {ℓ} :
    {A : Type ℓ} (r : Base A) (items : List A)
    → Represents r items
    → (size r ≡ length items) × (size r ≤ capacity r)
unfolding size capacity
size-length r items v = ground (arith, v.tail_at, v.room, v.head_in)

-- What a ring holds does not depend on its two stop marks.
pub Represents-marks {ℓ} :
    {A : Type ℓ} (r : Base A) (items : List A) (b : Bool) (p : ℕ)
    → Represents r items
    → Represents (record r { stopped = b; stop_position = p }) items
Represents-marks r items b p v = record {
  slots = v.slots;
  head_in = v.head_in;
  room = v.room;
  tail_at = v.tail_at;
  filled = v.filled;
  vacant = v.vacant;
}
