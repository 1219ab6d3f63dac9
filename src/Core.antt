-- ===== src/Core.antt =====
-- crates/qpedia-core: the domain types that all crates share. Identifiers are texts, instants are
-- numbers of milliseconds.
pub mod Acl
pub mod Tenant
pub mod Job
pub mod Source
pub mod Wiki
