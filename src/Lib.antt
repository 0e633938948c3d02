-- ===== src/Lib.antt =====
-- A model of spead2's core, and proofs about it.
--
-- spead2 sends and receives heaps, which are sets of items, as packets of the SPEAD protocol. A
-- sender's packet_generator cuts a heap into packets. A receiver decodes each packet
-- (decode_packet), collects packets of one heap in a live_heap, and hands heaps over through a
-- ringbuffer; a memory_pool supplies the payload memory.
--
-- The files, with the code that each models:
--   Bytes          include/spead2/common_endian.h: load_be and htobe of 64 bits
--   Pointer        include/spead2/recv_utils.h and send_utils.h: pointer_decoder, pointer_encoder;
--                  the constants of include/spead2/common_defines.h
--   Descriptor     include/spead2/common_defines.h: descriptor, and the widths of its fields
--   Recv/Packet    src/recv_packet.cpp: decode_header, get_packet_size, decode_packet
--   Recv/Ranges    src/recv_live_heap.cpp: live_heap::add_payload_range
--   Recv/PointerStore  src/recv_live_heap.cpp: the store inside live_heap::add_pointers
--   Recv/LiveHeap  src/recv_live_heap.cpp: the rest of live_heap
--   Recv/Heap      src/recv_heap.cpp: heap_base, heap, incomplete_heap; Recv/Descriptor, in the same
--                  file, to_descriptor and get_descriptors
--   Recv/Stream    src/recv_stream.cpp: stream_base; its hash table and Packets, the operations
--   Common/RingBuffer  include/spead2/common_ringbuffer.h: ringbuffer_base and ringbuffer, whose
--                  state is the record Base and the record Ringbuffer; Queue is what they promise,
--                  and Threads has each block under a mutex as a step
--   Common/UnboundedQueue  include/spead2/common_unbounded_queue.h: unbounded_queue
--   Common/Flavour src/common_flavour.cpp: flavour
--   Common/RawPacket  src/common_raw_packet.cpp: udp_from_ethernet, update_checksum, multicast_mac
--   Common/MemoryPool  src/common_memory_pool.cpp: memory_pool
--   Send/Heap      include/spead2/send_heap.h: item and heap
--   Send/Descriptor  src/send_heap.cpp: encode_descriptor and add_descriptor
--   Send/Generator src/send_packet.cpp: packet_generator
--   Send/Stream    src/send_stream.cpp and include/spead2/send_stream.h: stream_impl_base and
--                  stream_impl; Load is load_packets, Machine do_next and async_send_heap, and Steps
--                  has what runs under the mutex, and what runs after it, as steps
--   Transfer       the two ends together: what packet_generator makes, decode_packet reads, and what
--                  encode_descriptor makes, to_descriptor reads
-- Children of a module hold the proofs about it, and Runs the tests and examples.
--
-- Numbers are natural numbers; -1 for `unknown` is `none`. s_item_pointer_t has 64 bits, and the
-- values that the code adds up are below 2 ^ 56, as decode_packet-IsDecoded shows, so that sums do
-- not wrap. A byte pointer is the list of the bytes from it on. The payload memory of a live heap is
-- a function from places to bytes, `none` where nothing has been written; copying is the default
-- std::memcpy or any packet_memcpy_function, as a parameter. Addresses that the base allocator of a
-- memory_pool gives out are counted up, that is, fresh. Semaphores are counters. A mutex makes the
-- block under it one step.
--
-- Fuel: MemoryPool.refill takes a round for each missing buffer and one more; Generator.packets a
-- round for each byte of payload and one more; a walk along a chain of Stream a round for each slot and
-- one more; compute_bucket_count a round for each heap; add_carries as many rounds as the sum.
--
-- Not modelled: sockets, files, ibverbs, the thread pool, logging, the Python bindings, the tools,
-- and class stream of recv_stream.cpp. Immediates of a frozen heap are copied, and whether their bytes
-- are stored inline or allocated is not told apart.
pub mod Prelude
pub mod Bytes
pub mod Pointer
pub mod Descriptor
pub mod Common
pub mod Recv
pub mod Send
pub mod Transfer
