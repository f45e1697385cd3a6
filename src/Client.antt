-- ===== src/Client.antt =====
-- internal/client/tcp: the client's end of a tunnel.
pub mod Pool
mod Tests
