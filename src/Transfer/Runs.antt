-- ===== src/Transfer/Runs.antt =====
-- A concrete heap, sent and received.
use spead.Prelude.{ℕ, ◌+◌, ◌≡◌, refl, true, false, List, [], ◌∷◌, some, All, arith}
use spead.Pointer.{IsFlavour}
use spead.Send.Heap.{Item, Heap, inline_item, buffer_item, use_immediate}
use spead.Send.Generator.{Generator, ok, packet_generator, packets, sum_payload}
use spead.Send.Generator.Complete.{IsSize}
use spead.Transfer.Words.{IsPlain}
use spead.Transfer.Complete.{AllReceived, heap_received}

-- An inline item, one of three bytes in the payload, and one of two bytes in its pointer.
abbrev some_items : List Item
some_items =
    inline_item 0x1000 7
    ∷ buffer_item 0x1001 (1 ∷ 2 ∷ 3 ∷ []) false
    ∷ buffer_item 0x1002 (4 ∷ 5 ∷ []) true
    ∷ []

abbrev some_heap : Heap
some_heap = record { heap_address_bits = 40; repeat_pointers = false; items = some_items }

some_items-IsPlain : All (IsPlain 40) some_items
some_items-IsPlain = (
  record { own_id = omega arith; id_fits = omega arith; value_fits = λ _. omega arith; bytes = tt },
  (
    record {
      own_id = omega arith;
      id_fits = omega arith;
      value_fits = λ _. omega arith;
      bytes = (omega arith, (omega arith, (omega arith, tt)));
    },
    (
      record {
        own_id = omega arith;
        id_fits = omega arith;
        value_fits = λ _. omega arith;
        bytes = (omega arith, (omega arith, tt));
      },
      tt,
    ),
  ),
)

IsFlavour-some_heap : IsFlavour 40
IsFlavour-some_heap = record { positive = omega arith; below = omega arith; whole = refl }

IsSize-some_heap : IsSize some_heap 64
IsSize-some_heap = record { large = omega arith; whole = refl; room = λ again. absurd cc }

heap_received_example :
    (made : Generator) × (sent : List (List (List ℕ))) × (packet_generator some_heap 5 64 ≡ ok made)
    × (packets (made.payload_size + 1) made ≡ some sent)
    × AllReceived 40 5 made.payload_size 0 sent
unfolding sum_payload use_immediate
heap_received_example =
    heap_received some_heap 5 64 IsFlavour-some_heap IsSize-some_heap (omega arith)
      some_items-IsPlain (omega arith) (omega arith)
