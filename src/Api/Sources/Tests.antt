-- ===== src/Api/Sources/Tests.antt =====
-- Two users, and a file that one of them uploads, replaces and moves.
use qpedia.Prelude.{
  ℕ, ◌≡◌, refl, inr, true, false, none, some, List, [], ◌∷◌, Result, ok, err, if◌then◌else◌,
}
use qpedia.Text.{Text, codes, split, join, trim, byte_len}
use qpedia.Core.Source.{Source, pending}
use qpedia.PgStore.Slug.{slugify_folder, unique_source_slug, probe_unique}
use qpedia.PgStore.Sources.{get_source_in}
use qpedia.Api.Auth.{User, can_read}
use qpedia.Api.Folders.{delete_folder, not_empty}
use qpedia.Api.Sources.{
  ext_of, Db, Files, Field, folder_path, file, other, Answer, ApiError, not_found, get_source,
  list_sources, download_source_original, delete_source, replace_source, move_source, upload_source,
  file_field, folder_field,
}
use qpedia.Api.Sources.Hidden.{IsHidden, hidden-not_found}
use qpedia.Api.Sources.Shared.{download_source_original-shared}
use qpedia.Api.Sources.Uploaded.{
  IsUploaded, upload_source-IsUploaded, download_source_original-upload_source,
}

abbrev files : Files
files = record {
  slug_is_free = λ n s. ok true;
  sha256 = λ bytes. bytes;
  mime = λ name. codes "text/plain";
  put_fails = false;
}

abbrev user_in : Text → User
user_in group = record {
  id = group;
  email = none;
  name = none;
  groups = group ∷ [];
  tenant = codes "t";
}

abbrev start : Db
start = record {
  sources = [];
  folder_acls = [];
  blobs = [];
  jobs = record { next_id = 1; rows = [] };
}

abbrev form : List Field
form = folder_path (codes "/Finance") ∷ other ∷ file (some (codes "Q4 plan.md")) (codes "one") ∷ []

abbrev first : Answer
first = upload_source files (user_in (codes "hr")) form 7 start

abbrev ap_acl : Result ApiError Source → List Text
ap_acl (ok s) = s.acl.groups
ap_acl (err e) = []

abbrev src : Source
src = record {
  id = codes "q4-plan-md";
  tenant = codes "t";
  folder_path = codes "/Finance";
  filename = codes "Q4 plan.md";
  mime = codes "text/plain";
  sha256 = codes "one";
  size_bytes = 3;
  acl = record { groups = codes "hr" ∷ [] };
  status = pending;
  language = none;
  created_at = 7;
  ingested_at = none;
  classification = none;
}

abbrev db : Db
db = first.0

uploads : first ≡ (db, ok src)
unfolding upload_source slugify_folder unique_source_slug probe_unique byte_len
uploads = refl

upload_source-IsUploaded_example :
    IsUploaded files
      (user_in (codes "hr"))
      7
      start
      db
      src
      (folder_field form (codes "/"))
      (file_field (codes "upload.bin") form none)
upload_source-IsUploaded_example =
    upload_source-IsUploaded files (user_in (codes "hr")) 7 start db src form uploads

sent : file_field (codes "upload.bin") form none ≡ some (codes "Q4 plan.md", codes "one")
unfolding file_field
sent = refl

download_source_original-upload_source_example :
    download_source_original (user_in (codes "hr")) src.id db
    ≡ (if can_read (user_in (codes "hr")) src.acl then ok (src, codes "one") else err not_found)
download_source_original-upload_source_example =
    download_source_original-upload_source files (user_in (codes "hr")) 7 start db src form
      (user_in (codes "hr")) (codes "Q4 plan.md") (codes "one") uploads sent refl

found : get_source_in src.id db.sources ≡ some src
unfolding upload_source get_source_in unique_source_slug probe_unique byte_len
found = refl

may_read :
    (can_read (user_in (codes "hr")) src.acl ≡ true)
    × (can_read (user_in (codes "dev")) src.acl ≡ false)
unfolding can_read
may_read = (refl, refl)

hidden : IsHidden (user_in (codes "dev")) src.id db
hidden = inr (src, found, may_read.1)

hidden-not_found_example :
    (get_source (user_in (codes "dev")) src.id db ≡ err not_found)
    × (download_source_original (user_in (codes "dev")) src.id db ≡ err not_found)
    × (delete_source (user_in (codes "dev")) src.id 8 db ≡ (db, err not_found))
    × (replace_source files (user_in (codes "dev")) src.id form 8 db ≡ (db, err not_found))
    × (move_source (user_in (codes "dev")) src.id (codes "/x") db ≡ (db, err not_found))
hidden-not_found_example =
    hidden-not_found files (user_in (codes "dev")) src.id form (codes "/x") 8 db hidden

abbrev new_form : List Field
new_form = file none (codes "two") ∷ []

-- A folder's list of readers goes before the groups of the user.
listed_readers :
    ap_acl
      (upload_source files (user_in (codes "hr")) form 7 (record start {
        folder_acls =
            record {
              folder_path = codes "/finance";
              acl = record { groups = codes "cfo" ∷ [] };
              updated_at = 0;
              updated_by = codes "ann";
            }
            ∷ [];
      })).1
    ≡ codes "cfo" ∷ []
unfolding upload_source slugify_folder unique_source_slug probe_unique trim join
listed_readers = refl

-- A file that is uploaded to a folder whose path is not in normal form is not counted in the folder, which
-- can then be deleted; after a move it is counted.
counts :
    (delete_folder (codes "/Finance") (record { folders = []; sources = db.sources })
      ≡ ok (record { folders = []; sources = db.sources }))
    × (delete_folder (codes "/Finance") (record {
      folders = [];
      sources = (move_source (user_in (codes "hr")) src.id (codes "/Finance") db).0.sources;
    })
        ≡ err (not_empty 1))
unfolding delete_folder move_source upload_source unique_source_slug split join probe_unique trim
counts = (refl, refl)

-- The hundred rows that a listing of twenty asks for may all be hidden.
abbrev row_of : ℕ → Text → Source
row_of age group = record src { created_at = age; acl = record { groups = group ∷ [] } }

misses :
    list_sources (user_in (codes "hr")) none (some 1) (record start {
      sources =
          row_of 1 (codes "hr")
          ∷ row_of 2 (codes "dev")
          ∷ row_of 3 (codes "dev")
          ∷ row_of 4 (codes "dev")
          ∷ row_of 5 (codes "dev")
          ∷ row_of 6 (codes "dev")
          ∷ [];
    })
    ≡ []
unfolding list_sources
misses = refl

abbrev other_user : User
other_user = record (user_in (codes "staff")) { tenant = codes "u" }

abbrev other_form : List Field
other_form = file (some (codes "q4 Plan.md")) (codes "two") ∷ []

abbrev other_src : Source
other_src = record src {
  tenant = codes "u";
  folder_path = codes "/";
  filename = codes "q4 Plan.md";
  sha256 = codes "two";
  acl = record { groups = codes "staff" ∷ [] };
  created_at = 8;
}

abbrev other_db : Db
other_db = record start { blobs = db.blobs }

other_uploads :
    upload_source files other_user other_form 8 other_db
    ≡ ((upload_source files other_user other_form 8 other_db).0, ok other_src)
unfolding upload_source slugify_folder unique_source_slug probe_unique byte_len
other_uploads = refl

other_sent :
    file_field (codes "upload.bin") other_form none ≡ some (codes "q4 Plan.md", codes "two")
unfolding file_field
other_sent = refl

same_extension : ext_of other_src.filename ≡ ext_of src.filename
unfolding ext_of
same_extension = refl

download_source_original-shared_example :
    download_source_original
      (user_in (codes "hr"))
      src.id
      (record db { blobs = (upload_source files other_user other_form 8 other_db).0.blobs })
    ≡ ok (src, codes "two")
download_source_original-shared_example =
    download_source_original-shared files (user_in (codes "hr")) other_user (user_in (codes "hr")) 7
      8 start db other_db (upload_source files other_user other_form 8 other_db).0 src other_src
      form other_form (codes "q4 Plan.md") (codes "two") uploads refl other_uploads other_sent refl
      same_extension may_read.0
