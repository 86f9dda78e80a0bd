-- ===== src/Network.antt =====
-- pkg/network: IPv4 and IPv6 packets and the checksums that the client recomputes when it rewrites an address.
pub mod Ipv4
pub mod Ipv6
