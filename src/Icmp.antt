-- ===== src/Icmp.antt =====
-- pkg/transport/icmp: sequence numbers, the retransmit queue, the flight counter, the byte buffer and the
-- congestion control of the reliable transport over echo messages.
pub mod Seq
pub mod Flight
pub mod Retransmit
pub mod Buffer
pub mod Reno
mod Tests
