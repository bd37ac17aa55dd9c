-- ===== src/Actor.antt =====
-- src/actor.rs and src/actor/
pub mod Types
pub mod Exec
pub mod Producer
pub mod Tags
pub mod Maintenance
pub mod Lifecycle
pub mod Recovery
pub mod Fork
pub mod Write
pub mod Read
pub mod Dispatch
pub mod Log
