-- ===== src/Api/Sources.antt =====
-- crates/qpedia-api/src/routes.rs: the handlers of sources. A `Db` has the rows that the transactions of the
-- user's tenant see, so that a handler is applied to that of its user's tenant; the queue and the blobs, which
-- have no tenant, are those of all. Queries that fail, the audit log and a body that cannot be read are left out; the hash of a
-- file and the type that its name suggests are parameters.
pub mod Hidden
pub mod Replaced
pub mod Uploaded
pub mod Shared
pub mod Tests
use qpedia.Prelude.{
  ℕ, zero, suc, ◌*◌, min, Bool, true, false, not, Option, none, some, List, [], ◌∷◌, if◌then◌else◌,
  is_empty, take, Result, ok, err, ◌>>=◌, or_fail,
}
use qpedia.Text.{Text, codes, text_eq, byte_len}
use qpedia.Core.Acl.{Acl}
use qpedia.Core.Source.{Source, pending}
use qpedia.PgStore.Slug.{slugify_folder, unique_source_slug}
use qpedia.PgStore.FolderAcls.{AclRow, resolve_folder_acl}
use qpedia.PgStore.Jobs
use qpedia.PgStore.Sources
use qpedia.Store.Blob
use qpedia.Store.Blob.{Blob, original, extension}
use qpedia.Ingest.Runner.{ingest_job, remove_job}
use qpedia.Api.Auth.{User, can_read, filter_sources}

pub data ApiError : Type 0 where
  not_found missing_file missing_filename internal : ApiError

pub record Db : Type 0 where
  pub sources : List Source
  pub folder_acls : List AclRow
  pub blobs : List Blob
  pub jobs : Jobs.Table

-- `Sha256` and `mime_guess`, whether the blob store refuses a file, and the answers of the queries that
-- ask if a slug is free.
pub record Files : Type 0 where
  pub slug_is_free : ℕ → Text → Result Text Bool
  pub sha256 : Text → Text
  pub mime : Text → Text
  pub put_fails : Bool

abbrev pub Answer : Type 0
Answer = Db × Result ApiError Source

unfoldable pub readable : User → Option Source → Result ApiError Source
unfolding can_read
readable user none = err not_found
readable user (some src) = if can_read user src.acl then ok src else err not_found

unfoldable pub get_source : User → Text → Db → Result ApiError Source
unfolding readable Sources.get_source_in
get_source user id db = readable user (Sources.get_source_in id db.sources)

unfoldable pub or_text : Option Text → Text → Text
or_text none t = t
or_text (some s) t = s

-- `q.limit.unwrap_or(100).min(1000)`; a limit below zero, which the database refuses, is left out.
page_size : Option ℕ → ℕ
page_size none = 100
page_size (some limit) = min limit 1000

unfoldable pub list_sources : User → Option Text → Option ℕ → Db → List Source
unfolding page_size or_text filter_sources Sources.list_sources
list_sources user folder limit db =
    let n = page_size limit in
    take n
      (filter_sources user (Sources.list_sources (or_text folder (codes "/")) (n * 5) db.sources))

unfoldable pub ext_of : Text → Text
unfolding extension or_text
ext_of filename = or_text (extension filename) (codes "bin")

-- The bytes with the source whose name and type go into the header.
unfoldable pub download_source_original : User → Text → Db → Result ApiError (Source × Text)
unfolding get_source ext_of Blob.get
download_source_original user id db = get_source user id db >>= (λ src.
    or_fail (Blob.get id original (ext_of src.filename) db.blobs) not_found
    >>= (λ bytes. ok (src, bytes)))

unfoldable pub delete_source : User → Text → ℕ → Db → Db × Result ApiError Source
unfolding get_source remove_job Jobs.enqueue
delete_source user id now db = elim (get_source user id db) [
  | err e ↦ (db, err e)
  | ok src ↦ (
    record db { jobs = Jobs.enqueue user.tenant (remove_job user.tenant id now) db.jobs },
    ok src,
  )
]

-- A part of the form. The name of a file may be missing.
pub data Field : Type 0 where
  folder_path : Text → Field
  file : Option Text → Text → Field
  other : Field

-- The last file among the parts; `default` is the name of one without a name.
unfoldable pub file_field : Text → List Field → Option (Text × Text) → Option (Text × Text)
unfolding or_text
file_field default [] last = last
file_field default (file name bytes ∷ fields) last =
    file_field default fields (some (or_text name default, bytes))
file_field default (folder_path path ∷ fields) last = file_field default fields last
file_field default (other ∷ fields) last = file_field default fields last

unfoldable pub folder_field : List Field → Text → Text
folder_field [] last = last
folder_field (folder_path path ∷ fields) last = folder_field fields path
folder_field (file name bytes ∷ fields) last = folder_field fields last
folder_field (other ∷ fields) last = folder_field fields last

-- What is written for a file that is new.
unfoldable pub replace_with : Files → User → Text → Source → Text → Text → ℕ → Db → Answer
unfolding ext_of Blob.put Sources.replace_source_blob Sources.get_source_in Jobs.enqueue ingest_job
replace_with files user id existing filename bytes now db =
    let rows =
      Sources.replace_source_blob id filename (files.mime filename) (files.sha256 bytes)
        (byte_len bytes) db.sources in
    if files.put_fails then (db, err internal) else (
      record db {
        blobs = Blob.put id original (ext_of filename) bytes db.blobs;
        sources = rows;
        jobs = Jobs.enqueue user.tenant (ingest_job user.tenant id now) db.jobs;
      },
      or_fail (Sources.get_source_in id rows) not_found,
    )

unfoldable pub replace_file : Files → User → Text → Source → Option (Text × Text) → ℕ → Db → Answer
unfolding replace_with text_eq
replace_file files user id existing none now db = (db, err missing_file)
replace_file files user id existing (some (name, bytes)) now db =
    let filename = if is_empty name then existing.filename else name in
    if text_eq (files.sha256 bytes) existing.sha256
    then (db, ok existing)
    else replace_with files user id existing filename bytes now db

unfoldable pub replace_source : Files → User → Text → List Field → ℕ → Db → Answer
unfolding get_source file_field replace_file
replace_source files user id fields now db = elim (get_source user id db) [
  | err e ↦ (db, err e)
  | ok existing ↦
      replace_file files user id existing (file_field existing.filename fields none) now db
]

unfoldable pub move_source : User → Text → Text → Db → Db × Result ApiError Text
unfolding get_source Sources.update_folder_path
move_source user id path db = elim (get_source user id db) [
  | err e ↦ (db, err e)
  | ok src ↦ (
    record db { sources = Sources.update_folder_path id (slugify_folder path) db.sources },
    ok (slugify_folder path),
  )
]

unfoldable pub upload_acl : User → Text → Db → Acl
unfolding resolve_folder_acl
upload_acl user path db = elim (resolve_folder_acl path db.folder_acls) [
  | some acl ↦ acl
  | none ↦ record { groups = user.groups }
]

unfoldable pub uploaded : Files → User → Text → Text → Text → Text → ℕ → Db → Source
unfolding upload_acl
uploaded files user id path filename bytes now db = record {
  id = id;
  tenant = user.tenant;
  folder_path = path;
  filename = filename;
  mime = files.mime filename;
  sha256 = files.sha256 bytes;
  size_bytes = byte_len bytes;
  acl = upload_acl user path db;
  status = pending;
  language = none;
  created_at = now;
  ingested_at = none;
  classification = none;
}

-- The row is inserted before the file is stored.
unfoldable pub insert_uploaded : Files → Text → Source → Text → Text → ℕ → Db → Answer
unfolding Sources.insert_source ext_of Blob.put Jobs.enqueue ingest_job
insert_uploaded files tenant src filename bytes now db =
    elim (Sources.insert_source src db.sources) [
      | none ↦ (db, err internal)
      | some rows ↦ if files.put_fails then (record db { sources = rows }, err internal) else (
        record db {
          sources = rows;
          blobs = Blob.put src.id original (ext_of filename) bytes db.blobs;
          jobs = Jobs.enqueue tenant (ingest_job tenant src.id now) db.jobs;
        },
        ok src,
      )
    ]

unfoldable pub upload_file : Files → User → Text → Option (Text × Text) → ℕ → Db → Answer
unfolding uploaded insert_uploaded unique_source_slug
upload_file files user path none now db = (db, err missing_file)
upload_file files user path (some (filename, bytes)) now db =
    if is_empty filename
    then (db, err missing_filename)
    else elim (unique_source_slug files.slug_is_free filename) [
      | err e ↦ (db, err internal)
      | ok id ↦
          insert_uploaded files user.tenant (uploaded files user id path filename bytes now db)
            filename bytes now db
    ]

unfoldable pub upload_source : Files → User → List Field → ℕ → Db → Answer
unfolding upload_file file_field folder_field
upload_source files user fields now db =
    upload_file files user (folder_field fields (codes "/"))
      (file_field (codes "upload.bin") fields none) now db
