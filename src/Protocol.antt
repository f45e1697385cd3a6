-- ===== src/Protocol.antt =====
-- internal/shared/protocol: frames on the wire and the queue that writes them.
pub mod Pool
pub mod Frame
pub mod Writer
mod Tests
