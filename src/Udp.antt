-- ===== src/Udp.antt =====
-- service/udp.go: the Shadowsocks UDP service: the connections of its NAT table and its packets.
pub mod NatConn
pub mod Deadlines
pub mod NatMap
pub mod Packet
pub mod Loop
pub mod Copy
pub mod Layout
pub mod Replies
pub mod Lifecycle
pub mod Turns
pub mod Drain
pub mod Admission
pub mod Unsent
pub mod Public
pub mod Samples
mod Tests
