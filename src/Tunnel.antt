-- ===== src/Tunnel.antt =====
-- internal/server/tunnel: the tunnels that a server holds, and the limits on their registration.
pub mod RateLimiter
pub mod Connection
pub mod Manager
mod Tests
