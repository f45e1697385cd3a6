-- ===== src/Wsutil.antt =====
-- internal/shared/wsutil/conn.go: a web socket as a stream of bytes.
pub mod Conn
mod Tests
