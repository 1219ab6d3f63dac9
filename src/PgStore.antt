-- ===== src/PgStore.antt =====
-- crates/qpedia-pg-store: the tables and the queries that the other crates rely on.
pub mod Slug
pub mod FolderAcls
pub mod Sources
pub mod Folders
pub mod Jobs
pub mod Sessions
pub mod OidcPending
pub mod Workspaces
