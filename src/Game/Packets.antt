-- ===== src/Game/Packets.antt =====
-- game/core/packet_queue.py: the packets and their codecs, by protocol, the test of a packet against
-- a firewall, and the queue of a system.
pub mod Bytes
pub mod Ip
pub mod IpRoundTrip
pub mod Icmp
pub mod Tcp
pub mod Udp
pub mod TcpRoundTrip
pub mod IcmpRoundTrip
pub mod Firewall
pub mod Subnets
pub mod Queue
mod Tests
