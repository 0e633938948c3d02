-- ===== src/Transfer/Descriptor.antt =====
-- A descriptor from src/send_heap.cpp to src/recv_heap.cpp.
pub mod Fields
pub mod Segments
pub mod Read
pub mod Immediate
pub mod Stored
pub mod Taken
pub mod Frozen
pub mod Packet
pub mod Parts
pub mod Noted
pub mod Encode
pub mod Exact
pub mod Complete
mod Runs
