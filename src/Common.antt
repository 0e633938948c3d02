-- ===== src/Common.antt =====
-- The parts that sender and receiver share: include/spead2/common_*.h and src/common_*.cpp.
pub mod RingBuffer
pub mod MemoryPool
pub mod UnboundedQueue
pub mod Flavour
pub mod RawPacket
