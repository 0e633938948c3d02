-- ===== src/Send/Generator/Payload.antt =====
-- What the payload loop of packet_generator::next_packet puts into a packet.
use spead.Prelude.{
  ℕ, zero, suc, ◌+◌, ◌-◌, ◌≤◌, ◌<◌, ◌≡◌, refl, sym, ap, ◌∙◌, Bool, true, false, inl, inr, List, [],
  ◌∷◌, ◌++◌, Option, none, some, length, take, drop, replicate, min, if◌then◌else◌, arith,
  Bool-cases, leb, leb→le, ◌==◌, take-append, drop-append, take_all, drop_all, drop-drop,
  length-drop, length-append, append_assoc, append-nil, ◌&&◌, is_some,
}
use spead.Send.Heap.{Item, use_immediate, payload_of, heap_payload}
use spead.Send.Generator.{Cursor, push_buffer, emit_payload, concat}

-- The payload that is still to be sent, from `offset` in the first of the items on.
abbrev pub remaining : ℕ → List Item → ℕ → List ℕ
remaining max_imm [] offset = []
remaining max_imm (it ∷ items) offset =
    drop offset (payload_of max_imm it) ++ heap_payload max_imm items

abbrev pub Inside : List Item → ℕ → Type 0
Inside [] offset = Unit {0}
Inside (it ∷ items) offset = offset ≤ length it.buffer

pub remaining-start :
    (max_imm : ℕ) (items : List Item) → remaining max_imm items 0 ≡ heap_payload max_imm items
unfolding heap_payload
remaining-start max_imm [] = refl
remaining-start max_imm (it ∷ items) = refl

pub Inside-start : (items : List Item) → Inside items 0
Inside-start [] = tt
Inside-start (it ∷ items) = omega arith

-- `len` bytes of payload, with zeros past its end.
abbrev pub padded : ℕ → List ℕ → List ℕ
padded len bytes = take len bytes ++ replicate (len - length bytes) 0

padded-append :
    (len : ℕ) (xs ys : List ℕ)
    → length xs ≤ len
    → xs ++ padded (len - length xs) ys ≡ padded len (xs ++ ys)
padded-append len xs ys h =
    let zeros : len - length xs - length ys ≡ len - length (xs ++ ys) =
      omega (arith, length-append xs ys) in
    rw (take-append len xs ys, take_all len xs h)
      (sym (append_assoc xs (take (len - length xs) ys) (replicate (len - length xs - length ys) 0))
        ∙ ap (λ n. (xs ++ take (len - length xs) ys) ++ replicate n 0) zeros)

padded-start : (len : ℕ) (xs ys : List ℕ) → len ≤ length xs → take len xs ≡ padded len (xs ++ ys)
padded-start len xs ys h =
    let none_left : len - length xs ≡ 0 = omega arith in
    let no_zeros : len - length (xs ++ ys) ≡ 0 = omega (arith, length-append xs ys) in
    rw (no_zeros, take-append len xs ys, none_left)
      (sym (append-nil (take len xs ++ []) ∙ append-nil (take len xs)))

-- The loop has put `len` bytes into its buffers and stands at the rest of the payload.
pub record Emits (max_imm : ℕ) (items : List Item) (next_item offset len : ℕ) (c : Cursor)
    : Type 0 where
  pub sent : concat c.buffers ≡ padded len (remaining max_imm items offset)
  pub later :
      remaining max_imm (drop (c.next_item - next_item) items) c.next_item_offset
      ≡ drop len (remaining max_imm items offset)
  pub forward : next_item ≤ c.next_item
  pub inside : Inside (drop (c.next_item - next_item) items) c.next_item_offset

-- So it has, unless an assert has failed.
abbrev pub Emitted : ℕ → List Item → ℕ → ℕ → ℕ → Option Cursor → Type 0
Emitted max_imm items next_item offset len none = Unit {0}
Emitted max_imm items next_item offset len (some c) = Emits max_imm items next_item offset len c

module _ (max_imm : ℕ) (it : Item) (items : List Item) (next_item offset len : ℕ) where
  -- The items from the cursor on are the same, counted from the next item or from this one.
  shift :
      (c : Cursor)
      → next_item + 1 ≤ c.next_item
      → drop (c.next_item - next_item) (it ∷ items) ≡ drop (c.next_item - (next_item + 1)) items
  shift c h =
      let one_more : c.next_item - next_item ≡ suc (c.next_item - (next_item + 1)) = omega arith in
      rw one_more refl

  skip-Emits :
      (c : Cursor)
      → use_immediate max_imm it ≡ true
      → Emits max_imm items (next_item + 1) 0 len c
      → Emits max_imm (it ∷ items) next_item offset len c
  unfolding payload_of
  skip-Emits c imm v =
      let none_here : drop offset (payload_of max_imm it) ≡ [] =
        rw imm (drop_all offset [] (omega arith)) in
      let same : remaining max_imm items 0 ≡ remaining max_imm (it ∷ items) offset =
        remaining-start max_imm items ∙ sym (ap (λ t. t ++ heap_payload max_imm items) none_here) in
      record {
        sent = v.sent ∙ ap (padded len) same;
        later = rw (shift c v.forward) (v.later ∙ ap (drop len) same);
        forward = omega (arith, v.forward);
        inside = rw (shift c v.forward) (v.inside);
      }

  skip-Emitted :
      (o : Option Cursor)
      → use_immediate max_imm it ≡ true
      → Emitted max_imm items (next_item + 1) 0 len o
      → Emitted max_imm (it ∷ items) next_item offset len o
  skip-Emitted none imm v = tt
  skip-Emitted (some c) imm v = skip-Emits c imm v

  module _ (buffered : use_immediate max_imm it ≡ false) (h : offset ≤ length it.buffer) where
    abbrev here : List ℕ
    here = drop offset it.buffer

    whole : here ++ heap_payload max_imm items ≡ remaining max_imm (it ∷ items) offset
    unfolding payload_of
    whole = rw buffered refl

    finish-Emits :
        (c : Cursor)
        → length here ≤ len
        → Emits max_imm items (next_item + 1) 0 (len - length here) c
        → Emits max_imm (it ∷ items) next_item offset len (push_buffer here c)
    unfolding concat
    finish-Emits c fits v =
        let left : List ℕ = heap_payload max_imm items in
        let start = remaining-start max_imm items in
        record {
          sent =
              ap (λ t. here ++ t) (v.sent ∙ ap (padded (len - length here)) start)
              ∙ padded-append len here left fits
              ∙ ap (padded len) whole;
          later = rw (shift c v.forward) (
              v.later
              ∙ ap (drop (len - length here)) start
              ∙ sym (ap (λ t. t ++ drop (len - length here) left) (drop_all len here fits))
              ∙ sym (drop-append len here left)
              ∙ ap (drop len) whole);
          forward = omega (arith, v.forward);
          inside = rw (shift c v.forward) (v.inside);
        }

    finish-Emitted :
        (o : Option Cursor) (b : List ℕ)
        → b ≡ here
        → length here ≤ len
        → Emitted max_imm items (next_item + 1) 0 (len - length here) o
        → Emitted max_imm
            (it ∷ items)
            next_item
            offset
            len
            (elim o [ none ↦ none | some c ↦ some (push_buffer b c) ])
    finish-Emitted none b e fits v = tt
    finish-Emitted (some c) b e fits v = rw e (finish-Emits c fits v)

    fill-Emits :
        len < length it.buffer - offset
        → Emits max_imm (it ∷ items) next_item offset len (record {
          buffers = take len here ∷ [];
          next_item = next_item;
          next_item_offset = offset + len;
        })
    unfolding concat payload_of
    fill-Emits more =
        let size : length here ≡ length it.buffer - offset = length-drop offset it.buffer in
        let stay : next_item - next_item ≡ 0 = omega arith in
        let none_left : len - length here ≡ 0 = omega arith in
        record {
          sent =
              append-nil (take len here)
              ∙ padded-start len here (heap_payload max_imm items) (omega arith)
              ∙ ap (padded len) whole;
          later = rw stay (
              ap (λ t. t ++ heap_payload max_imm items)
                (ap (drop (offset + len)) (rw buffered refl) ∙ sym (drop-drop len offset it.buffer))
              ∙ ap (λ n. drop len here ++ drop n (heap_payload max_imm items)) (sym none_left)
              ∙ sym (drop-append len here (heap_payload max_imm items))
              ∙ ap (drop len) whole);
          forward = omega arith;
          inside = rw stay (omega arith);
        }

pub emit_payload-Emitted :
    (max_imm : ℕ) (need_null : Bool) (items : List Item) (next_item offset len : ℕ)
    → Inside items offset
    → Emitted max_imm items next_item offset len
        (emit_payload max_imm need_null items next_item offset len)
unfolding emit_payload concat
emit_payload-Emitted max_imm need_null items next_item offset zero h =
    let stay : next_item - next_item ≡ 0 = omega arith in
    let none_asked : 0 - length (remaining max_imm items offset) ≡ 0 = omega arith in
    record {
      sent = rw none_asked refl;
      later = rw stay refl;
      forward = omega arith;
      inside = rw stay h;
    }
emit_payload-Emitted max_imm need_null [] next_item offset (suc l) h =
    let stay : next_item - next_item ≡ 0 = omega arith in
    let all : suc l - 0 ≡ suc l = omega arith in
    elim (Bool-cases (need_null && leb (suc l) 8)) [
      | inl ok ↦ rw ok (record {
        sent = rw all (append-nil (replicate (suc l) 0));
        later = rw stay refl;
        forward = omega arith;
        inside = rw stay tt;
      })
      | inr failed ↦ rw failed tt
    ]
emit_payload-Emitted max_imm need_null (it ∷ items) next_item offset (suc l) h =
    let here : List ℕ = drop offset it.buffer in
    let size : length here ≡ length it.buffer - offset = length-drop offset it.buffer in
    elim (Bool-cases (use_immediate max_imm it)) [
      | inl imm ↦ rw imm (
          skip-Emitted max_imm it items next_item offset (suc l) _ imm (
            emit_payload-Emitted max_imm need_null items (next_item + 1) 0 (suc l)
              (Inside-start items)))
      | inr buffered ↦ elim (Bool-cases (leb (length here) (suc l))) [
        | inl fits ↦
            let all : min (length it.buffer - offset) (suc l) ≡ length here = ground arith in
            let used_up : (offset + length here == length it.buffer) ≡ true = ground arith in
            rw (buffered, all, used_up)
              (finish-Emitted max_imm it items next_item offset (suc l) buffered h _ _
                (ap (λ n. take n here) all ∙ take_all (length here) here (omega arith))
                (leb→le (length here) (suc l) fits)
                (emit_payload-Emitted max_imm need_null items (next_item + 1) 0
                  (suc l - length here) (Inside-start items)))
        | inr more ↦
            let full : min (length it.buffer - offset) (suc l) ≡ suc l = ground arith in
            let not_used_up : (offset + suc l == length it.buffer) ≡ false = ground arith in
            rw (buffered, full, not_used_up)
              (fill-Emits max_imm it items next_item offset (suc l) buffered h (ground arith))
      ]
    ]

-- How far the padding may go past the payload.
abbrev pub slack : Bool → ℕ
slack need_null = if need_null then 8 else 0

skipped-length :
    (max_imm : ℕ) (it : Item) (items : List Item) (offset : ℕ)
    → use_immediate max_imm it ≡ true
    → length (remaining max_imm (it ∷ items) offset) ≡ length (remaining max_imm items 0)
unfolding payload_of
skipped-length max_imm it items offset imm =
    let nothing : length {A = ℕ} [] ≤ offset = omega arith in
    rw (imm, remaining-start max_imm items, drop_all offset [] nothing) refl

data-length :
    (max_imm : ℕ) (it : Item) (items : List Item) (offset : ℕ)
    → use_immediate max_imm it ≡ false
    → length (remaining max_imm (it ∷ items) offset)
      ≡ (length it.buffer - offset) + length (remaining max_imm items 0)
unfolding payload_of
data-length max_imm it items offset buffered =
    rw (buffered, remaining-start max_imm items)
      (length-append (drop offset it.buffer) (heap_payload max_imm items)
        ∙ ap (λ n. n + length (heap_payload max_imm items)) (length-drop offset it.buffer))

is_some-push :
    (o : Option Cursor) (b : List ℕ)
    → is_some o ≡ true
    → is_some (elim o as (λ x. Option Cursor) [ none ↦ none | some c ↦ some (push_buffer b c) ])
      ≡ true
is_some-push none b h = cc
is_some-push (some c) b h = refl

-- No assert fails as long as there is payload, with eight bytes of padding where a null item is due.
pub emit_payload-is_some :
    (max_imm : ℕ) (need_null : Bool) (items : List Item) (next_item offset len : ℕ)
    → Inside items offset
    → len ≤ length (remaining max_imm items offset) + slack need_null
    → is_some (emit_payload max_imm need_null items next_item offset len) ≡ true
unfolding emit_payload
emit_payload-is_some max_imm need_null items next_item offset zero h enough = refl
emit_payload-is_some max_imm need_null [] next_item offset (suc l) h enough = ground arith
emit_payload-is_some max_imm need_null (it ∷ items) next_item offset (suc l) h enough =
    elim (Bool-cases (use_immediate max_imm it)) [
      | inl imm ↦
          let same = skipped-length max_imm it items offset imm in
          rw imm (
            emit_payload-is_some max_imm need_null items (next_item + 1) 0 (suc l)
              (Inside-start items) (omega arith))
      | inr buffered ↦
          let size = data-length max_imm it items offset buffered in
          elim (Bool-cases (leb (length it.buffer - offset) (suc l))) [
            | inl fits ↦
                let all : min (length it.buffer - offset) (suc l) ≡ length it.buffer - offset =
                  ground arith in
                let used_up : (offset + (length it.buffer - offset) == length it.buffer) ≡ true =
                  ground arith in
                rw (buffered, all, used_up)
                  (is_some-push _ _ (
                    emit_payload-is_some max_imm need_null items (next_item + 1) 0
                      (suc l - (length it.buffer - offset)) (Inside-start items) (omega arith)))
            | inr more ↦
                let full : min (length it.buffer - offset) (suc l) ≡ suc l = ground arith in
                let not_used_up : (offset + suc l == length it.buffer) ≡ false = ground arith in
                rw (buffered, full, not_used_up) refl
          ]
    ]
