-- ===== src/Server.antt =====
-- src/serverless_http.rs, src/main.rs and src/lib.rs: the program around the router and the actors.
pub mod Serverless
pub mod Config
pub mod Tabs
