-- ===== src/Ingest.antt =====
-- crates/qpedia-ingest
pub mod Frontmatter
pub mod Remove
pub mod Tools
pub mod Agent
pub mod Validator
pub mod Pipeline
pub mod Runner
