-- ===== src/Recv/Descriptor/Runs.antt =====
-- The descriptors in a frozen heap: an item with an encoded descriptor, between others.
use spead.Prelude.{ℕ, ◌≡◌, refl, false, List, [], ◌∷◌, Option, none, some, get_elem?, length}
use spead.Bytes.{load_bytes, load_be}
use spead.Pointer.{
  get_id, get_address, get_immediate, is_immediate, encode_immediate, encode_address,
}
use spead.Common.Flavour.{Flavour, flavour, check_bits}
use spead.Descriptor.{Descriptor, descriptor_id, has_bits, field_size, shape_size, variable_tag}
use spead.Recv.Packet.{
  decode_packet, decode_header, extract_bits, scan, scan_item, note_immediate, finish, finish_with,
}
use spead.Recv.Ranges.{
  join_next, overlaps_next, insert_first, insert_after, add_after, add_payload_range,
}
use spead.Recv.PointerStore.{contains, was_seen, spill, append, store, stored}
use spead.Recv.LiveHeap
use spead.Recv.LiveHeap.{
  live_heap, adapt_memcpy, is_inconsistent, accept, note_length, payload_reserve, add_pointers,
  add_pointer, copy_payload, is_complete, is_contiguous, reset,
}
use spead.Recv.Heap.{
  Item, HeapBase, read, load_bytes_be, sort_key, insert_pointer, stable_sort, end_of, load_item,
  load_items, load, heap,
}
use spead.Recv.Stream.{
  double_until, compute_bucket_count, halve_until, compute_bucket_shift, get_bucket, stream_base,
}
use spead.Recv.Stream.Packets.{
  add_packet_state, unlink_from, unlink_entry, find_heap, next_head, eject, new_heap, find_or_new,
  add_to_heap, add_packet, end_batch, flush_slot, flush_rounds, flush_unlocked, stop_received, stop,
  decode_all, mem_to_stream,
}
use spead.Recv.Descriptor.{
  parse_format, parse_shape, note_item, note_items, override_format, to_descriptor, heap_ready,
  all_ready, stream_items, get_descriptors,
}
use spead.Send.Descriptor.{
  Encoded, out_of_range, failed, encoded, encode_descriptor, can_encode_all, encoder_calls,
  descriptor_payload, descriptor_payload_size, descriptor_pointers, descriptor_header,
  description_offset, format_offset, shape_offset, dtype_offset, store_format, store_shape,
  store_entry, store_bytes_be,
}

abbrev flavour_40 : Flavour
flavour_40 = record { heap_address_bits = 40; bug_compat = 0 }

abbrev column : Descriptor
column = record {
  id = 0x1234;
  name = 65 ∷ 66 ∷ [];
  description = [];
  format = record { type = 117; bits = 8 } ∷ [];
  shape = none ∷ some 3 ∷ [];
  numpy_header = [];
}

abbrev item_of : ℕ → List ℕ → Item
item_of id bytes = record {
  id = id;
  ptr = get_elem? bytes;
  length = length bytes;
  immediate_value = none;
  is_immediate = false;
}

abbrev heap_with : Encoded → HeapBase
heap_with encoding = record {
  cnt = 1;
  flavour = flavour_40;
  items = elim encoding [
    | out_of_range ↦ []
    | failed ↦ []
    | encoded bytes ↦ item_of 9 (1 ∷ []) ∷ item_of descriptor_id bytes ∷ []
  ];
  payload = none;
}

abbrev run : Option (List Descriptor)
run = get_descriptors (heap_with (encode_descriptor column flavour_40))

get_descriptors_of_column : run ≡ some (column ∷ [])
unfolding encode_descriptor can_encode_all encoder_calls descriptor_payload descriptor_payload_size
    descriptor_pointers descriptor_header description_offset format_offset shape_offset dtype_offset
    store_format store_shape store_entry store_bytes_be has_bits field_size shape_size variable_tag
    encode_immediate encode_address get_descriptors stream_items all_ready heap_ready to_descriptor
    override_format note_items note_item parse_format parse_shape read load_bytes_be sort_key
    insert_pointer stable_sort end_of load_item load_items load heap flavour check_bits stored reset
    is_contiguous adapt_memcpy is_inconsistent accept note_length payload_reserve add_pointers
    add_pointer copy_payload is_complete live_heap store was_seen contains spill append
    add_payload_range insert_first insert_after add_after join_next overlaps_next get_id get_address
    get_immediate is_immediate load_be load_bytes decode_packet decode_header extract_bits scan
    scan_item note_immediate finish finish_with stream_base double_until compute_bucket_count
    halve_until compute_bucket_shift get_bucket add_packet_state unlink_from unlink_entry find_heap
    next_head eject new_heap find_or_new add_to_heap add_packet end_batch flush_slot flush_rounds
    flush_unlocked stop_received stop decode_all mem_to_stream LiveHeap.add_packet
get_descriptors_of_column = refl
