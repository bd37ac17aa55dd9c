-- ===== src/Facade.antt =====
-- src/facade.rs: the public router in front of the actors.
pub mod HeaderMap
pub mod Upstream
pub mod Reply
pub mod Body
pub mod Bridge
pub mod Routing
pub mod Handle
