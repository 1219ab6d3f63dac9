-- ===== src/Core/Source.antt =====
-- crates/qpedia-core/src/source.rs. A time is a natural number.
use qpedia.Prelude.{ℕ, Option}
use qpedia.Text.{Text}
use qpedia.Core.Acl.{Acl}

pub data SourceStatus : Type 0 where
  pending extracting extracted classifying classified agent_distilling agent_distilled :
      SourceStatus
  validating validated committing committed embedding done tainted failed dead : SourceStatus

pub record Source : Type 0 where
  pub id : Text
  pub tenant : Text
  pub folder_path : Text
  pub filename : Text
  pub mime : Text
  pub sha256 : Text
  pub size_bytes : ℕ
  pub acl : Acl
  pub status : SourceStatus
  pub language : Option Text
  pub created_at : ℕ
  pub ingested_at : Option ℕ
  pub classification : Option Text
