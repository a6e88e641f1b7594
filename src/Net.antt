-- ===== src/Net.antt =====
-- kernel/net: addresses, checksums, the ARP cache and the IPv4 frame path.
pub mod Address
pub mod Checksum
pub mod State
pub mod Arp
pub mod Ipv4
mod Tests
