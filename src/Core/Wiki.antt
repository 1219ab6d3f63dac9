-- ===== src/Core/Wiki.antt =====
-- crates/qpedia-core/src/wiki.rs: a proposed change to the wiki.
use qpedia.Prelude.{List}
use qpedia.Text.{Text}

pub data DiffOp : Type 0 where
  create : (path content rationale : Text) → DiffOp
  patch : (path new_content rationale : Text) → DiffOp
  delete : (path rationale : Text) → DiffOp
  link : (from to kind : Text) → DiffOp

pub record DiffBundle : Type 0 where
  pub ingest_id : Text
  pub operations : List DiffOp
  pub summary : Text
