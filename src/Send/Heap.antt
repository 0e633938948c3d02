-- ===== src/Send/Heap.antt =====
-- A heap to send, and its items: include/spead2/send_heap.h.
use spead.Prelude.{
  ℕ, Bool, true, false, ◌&&◌, ◌||◌, List, [], ◌∷◌, ◌++◌, leb, length, if◌then◌else◌,
}
use spead.Pointer.{stream_ctrl_id, ctrl_stream_stop}

-- `data` is a union: `immediate` is read if is_inline is set, and `buffer` (the bytes that its
-- pointer and length delimit) if it is not.
pub record Item : Type 0 where
  pub id : ℕ
  pub is_inline : Bool
  pub allow_immediate : Bool
  pub buffer : List ℕ
  pub immediate : ℕ

-- The constructors of a referenced item and of an inline one.
abbrev pub buffer_item : ℕ → List ℕ → Bool → Item
buffer_item id bytes allow_immediate = record {
  id = id;
  is_inline = false;
  allow_immediate = allow_immediate;
  buffer = bytes;
  immediate = 0;
}

abbrev pub inline_item : ℕ → ℕ → Item
inline_item id immediate = record {
  id = id;
  is_inline = true;
  allow_immediate = true;
  buffer = [];
  immediate = immediate;
}

pub record Heap : Type 0 where
  pub heap_address_bits : ℕ
  pub repeat_pointers : Bool
  pub items : List Item

pub make_heap : ℕ → Heap
make_heap heap_address_bits = record {
  heap_address_bits = heap_address_bits;
  repeat_pointers = false;
  items = [];
}

-- add_item: the handle is the index of the new item.
pub add_item : Heap → Item → ℕ × Heap
add_item h it = (length h.items, record h { items = h.items ++ it ∷ [] })

pub add_start : Heap → Heap
unfolding add_item
add_start h = (add_item h (inline_item stream_ctrl_id 0)).1

pub add_end : Heap → Heap
unfolding add_item
add_end h = (add_item h (inline_item stream_ctrl_id ctrl_stream_stop)).1

pub set_repeat_pointers : Heap → Bool → Heap
set_repeat_pointers h repeat = record h { repeat_pointers = repeat }

-- use_immediate of src/send_packet.cpp
unfoldable pub use_immediate : ℕ → Item → Bool
use_immediate max_immediate_size it =
    it.is_inline || (it.allow_immediate && leb (length it.buffer) max_immediate_size)

-- What an item adds to the payload of its heap.
unfoldable pub payload_of : ℕ → Item → List ℕ
unfolding use_immediate
payload_of max_immediate_size it = if use_immediate max_immediate_size it then [] else it.buffer

unfoldable pub heap_payload : ℕ → List Item → List ℕ
unfolding payload_of
heap_payload max_immediate_size [] = []
heap_payload max_immediate_size (it ∷ items) =
    payload_of max_immediate_size it ++ heap_payload max_immediate_size items
