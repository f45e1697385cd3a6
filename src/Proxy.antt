-- ===== src/Proxy.antt =====
-- internal/server/proxy: requests from the public side, on their way to a tunnel.
pub mod AuthLimiter
pub mod Sessions
pub mod Bearer
pub mod Routing
pub mod Headers
pub mod Handler
mod Tests
