-- ===== src/Retriever.antt =====
-- crates/qpedia-retriever/src/lib.rs: what a question's answer is made from.
pub mod Access
pub mod Links
pub mod Search
pub mod Gather
pub mod Chat
pub mod Tests
