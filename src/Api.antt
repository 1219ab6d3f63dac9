-- ===== src/Api.antt =====
-- crates/qpedia-api/src/routes.rs and its neighbours: handlers that decide more than how to answer.
pub mod Auth
pub mod Folders
pub mod Sources
pub mod RateLimit
