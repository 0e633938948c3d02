-- ===== src/Recv.antt =====
-- The receiver: src/recv_*.cpp and include/spead2/recv_*.h.
pub mod Packet
pub mod PointerStore
pub mod Ranges
pub mod LiveHeap
pub mod Stream
pub mod Heap
pub mod Descriptor
