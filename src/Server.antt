-- ===== src/Server.antt =====
-- pkg/server: the pool of tunnel addresses that the server hands to its clients.
pub mod IpPool
