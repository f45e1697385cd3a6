-- ===== src/Tcp.antt =====
-- internal/server/tcp: the ports of TCP tunnels, the sessions of a tunnel, and the connections of
-- clients from their registration to their end.
pub mod PortAllocator
pub mod ConnectionGroup
pub mod GroupManager
pub mod Registration
pub mod Lifecycle
mod Tests
