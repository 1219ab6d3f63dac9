-- ===== src/Store.antt =====
-- crates/qpedia-store
pub mod WikiRepo
pub mod Blob
