-- ===== src/Store.antt =====
-- src/store.rs
pub mod Tables
pub mod Platform
pub mod Meta
pub mod Append
pub mod Range
pub mod Producers
pub mod Forks
pub mod Rows
pub mod Schema
