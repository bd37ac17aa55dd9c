-- ===== src/Protocol.antt =====
-- src/protocol.rs
pub mod Decimal
pub mod Offset
pub mod Utf8
pub mod Content
pub mod Integer
pub mod Json
pub mod Sse
pub mod Http
pub mod Cursor
