-- ===== src/Api/Sources/Replaced.antt =====
-- What replacing a source's file does to its row, its file and the queue.
use qpedia.Prelude.{ℕ, ◌≡◌, ◌⊎◌, true, false, Option, none, some, ok, err, if◌then◌else◌, is_empty}
use qpedia.Text.{Text, text_eq, byte_len}
use qpedia.Core.Source.{Source, pending}
use qpedia.PgStore.Jobs
use qpedia.PgStore.Sources.{get_source_in}
use qpedia.Store.Blob
use qpedia.Store.Blob.{original}
use qpedia.Ingest.Runner.{ingest_job}
use qpedia.Api.Auth.{User}
use qpedia.Api.Sources.{Db, Files, Answer, missing_file, internal, ext_of}

module _ (files : Files) (user : User) (id : Text) (now : ℕ) (db : Db) where
  -- What becomes of a row, column by column.
  abbrev pub new_row : Source → Text → Text → Source
  new_row existing filename bytes = record {
    id = existing.id;
    tenant = existing.tenant;
    folder_path = existing.folder_path;
    filename = filename;
    mime = files.mime filename;
    sha256 = files.sha256 bytes;
    size_bytes = byte_len bytes;
    acl = existing.acl;
    status = pending;
    language = none;
    created_at = existing.created_at;
    ingested_at = none;
    classification = none;
  }

  -- The row and the file are the new ones, and a job is there to ingest them. Other rows stay.
  pub record IsReplaced (existing : Source) (filename bytes : Text) (a : Answer) : Type 0 where
    pub answer : a.1 ≡ ok (new_row existing filename bytes)
    pub row : get_source_in id a.0.sources ≡ some (new_row existing filename bytes)
    pub others :
        (x : Text) → text_eq id x ≡ false → get_source_in x a.0.sources ≡ get_source_in x db.sources
    pub stored : Blob.get id original (ext_of filename) a.0.blobs ≡ some bytes
    pub queued : a.0.jobs ≡ Jobs.enqueue user.tenant (ingest_job user.tenant id now) db.jobs

  -- What the handler does for a source that the user may read, by the file in the form.
  abbrev pub IsReplacement : Source → Option (Text × Text) → Answer → Type 0
  IsReplacement existing none a = a ≡ (db, err missing_file)
  IsReplacement existing (some (name, bytes)) a =
      ((files.sha256 bytes ≡ existing.sha256) × (a ≡ (db, ok existing)))
      ⊎ (((files.put_fails ≡ true) × (a ≡ (db, err internal)))
          ⊎ IsReplaced existing (if is_empty name then existing.filename else name) bytes a)
