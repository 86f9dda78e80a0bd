-- ===== src/Client.antt =====
-- pkg/client: the connection tracking of the client's packet handlers.
pub mod Conntrack
mod Tests
