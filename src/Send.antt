-- ===== src/Send.antt =====
-- The sender: src/send_*.cpp and include/spead2/send_*.h.
pub mod Heap
pub mod Descriptor
pub mod Generator
pub mod Stream
