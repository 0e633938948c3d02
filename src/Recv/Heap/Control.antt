-- ===== src/Recv/Heap/Control.antt =====
-- Stream control items: heap_base::is_ctrl_item of src/recv_heap.cpp.
use spead.Prelude.{
  ℕ, ◌%◌, ◌^◌, ◌<◌, ◌≡◌, ◌≢◌, refl, ap, ◌∙◌, Bool, true, false, ◌⊎◌, inl, inr, List, [], ◌∷◌, ◌++◌,
  subst, sym, Option, none, some, All, ◌==◌, arith, Bool-cases,
}
use spead.Pointer.{stream_ctrl_id}
use spead.Recv.Heap.{Item, HeapBase, load_bytes_be, ctrl_among, is_ctrl_item}

-- A stream control item with that value.
abbrev pub HasControl : ℕ → Item → Type 0
HasControl value it = (it.id ≡ stream_ctrl_id) × (load_bytes_be it.ptr it.length ≡ some value)

-- An item that is no stream control item, or whose value can be loaded.
abbrev pub IsLoadable : Item → Type 0
IsLoadable it =
    (it.id ≢ stream_ctrl_id) ⊎ ((value : ℕ) × (load_bytes_be it.ptr it.length ≡ some value))

abbrev pub Some : (Item → Type 0) → List Item → Type 0
Some P [] = ⊥
Some P (it ∷ items) = P it ⊎ Some P items

-- The answer of the loop: true with a control item of the value, false with none.
abbrev Answers : ℕ → List Item → Option Bool → Type 0
Answers value items none = ⊥
Answers value items (some true) = Some (HasControl value) items
Answers value items (some false) = All (λ it. ¬ HasControl value it) items

Answers-skip :
    (value : ℕ) (it : Item) (items : List Item) (later : Option Bool)
    → ¬ HasControl value it
    → Answers value items later
    → Answers value (it ∷ items) later
Answers-skip value it items none no_match answers = answers
Answers-skip value it items (some true) no_match answers = inr answers
Answers-skip value it items (some false) no_match answers = (no_match, answers)

ctrl_among-Answers :
    (value : ℕ) (items : List Item)
    → All IsLoadable items
    → Answers value items (ctrl_among value items)
unfolding ctrl_among
ctrl_among-Answers value [] loadable = tt
ctrl_among-Answers value (it ∷ items) loadable =
    let later = ctrl_among-Answers value items loadable.1 in
    elim (Bool-cases (it.id == stream_ctrl_id)) [
      | inr other ↦
          let no_match : ¬ HasControl value it = λ c. absurd (ground (arith, c.0)) in
          rw other (Answers-skip value it items (ctrl_among value items) no_match later)
      | inl same ↦ elim loadable.0 [
        | inl differs ↦ absurd (ground arith)
        | inr (found, e) ↦ elim (Bool-cases (found == value)) [
          | inl hit ↦
              let yields : ctrl_among value (it ∷ items) ≡ some true = ground (arith, e) in
              subst (Answers value (it ∷ items)) (sym yields)
                (inl (ground arith, ground (arith, e)))
          | inr miss ↦
              let no_match : ¬ HasControl value it = λ c. absurd (ground (arith, c.1, e)) in
              let skips : ctrl_among value (it ∷ items) ≡ ctrl_among value items =
                ground (arith, e) in
              subst (Answers value (it ∷ items)) (sym skips)
                (Answers-skip value it items (ctrl_among value items) no_match later)
        ]
      ]
    ]

Answers-cases :
    (value : ℕ) (items : List Item) (answer : Option Bool)
    → Answers value items answer
    → ((answer ≡ some true) × Some (HasControl value) items)
      ⊎ ((answer ≡ some false) × All (λ it. ¬ HasControl value it) items)
Answers-cases value items none a = absurd a
Answers-cases value items (some true) a = inl (refl, a)
Answers-cases value items (some false) a = inr (refl, a)

ctrl_among-oversized :
    (value : ℕ) (before after : List Item) (it : Item)
    → All (λ i. i.id ≢ stream_ctrl_id) before
    → it.id ≡ stream_ctrl_id
    → 8 < it.length % 2 ^ 32
    → ctrl_among value (before ++ it ∷ after) ≡ none
unfolding ctrl_among load_bytes_be
ctrl_among-oversized value [] after it others control more = ground arith
ctrl_among-oversized value (i ∷ before) after it others control more =
    ground (arith, others.0, ctrl_among-oversized value before after it others.1 control more)

-- is_ctrl_item, for items of which each stream control item can be loaded: it fails no assert, and
-- answers true if one of them has the value, and false if none has.
pub is_ctrl_item_lem :
    (h : HeapBase) (value : ℕ)
    → All IsLoadable h.items
    → ((is_ctrl_item h value ≡ some true) × Some (HasControl value) h.items)
      ⊎ ((is_ctrl_item h value ≡ some false) × All (λ it. ¬ HasControl value it) h.items)
unfolding is_ctrl_item
is_ctrl_item_lem h value loadable =
    Answers-cases value h.items (ctrl_among value h.items)
      (ctrl_among-Answers value h.items loadable)

-- A stream control item of more than eight bytes, counted modulo 2^32 as load_bytes_be takes them,
-- with no stream control item in front: is_ctrl_item fails the assert of load_bytes_be, whatever
-- value it looks for, whatever the bytes, and whatever items follow.
pub is_ctrl_item-oversized :
    (h : HeapBase) (value : ℕ) (before after : List Item) (it : Item)
    → h.items ≡ before ++ it ∷ after
    → All (λ i. i.id ≢ stream_ctrl_id) before
    → it.id ≡ stream_ctrl_id
    → 8 < it.length % 2 ^ 32
    → is_ctrl_item h value ≡ none
unfolding is_ctrl_item
is_ctrl_item-oversized h value before after it e others control more =
    ap (ctrl_among value) e ∙ ctrl_among-oversized value before after it others control more
