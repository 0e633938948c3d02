-- ===== src/Transfer.antt =====
-- From the sender to the receiver: what src/send_packet.cpp writes, src/recv_packet.cpp reads.
pub mod Words
pub mod Pointers
pub mod Decode
pub mod Complete
pub mod Descriptor
mod Runs
