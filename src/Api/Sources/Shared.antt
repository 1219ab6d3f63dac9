-- ===== src/Api/Sources/Shared.antt =====
-- The original of a source after an upload in another tenant: crates/qpedia-store/src/blob.rs keeps the files of
-- all tenants together, under the slugs of their sources.
use qpedia.Prelude.{ℕ, ◌≡◌, sym, ap, subst, ◌∙◌, true, none, some, List, ok}
use qpedia.Text.{Text, codes}
use qpedia.Core.Source.{Source}
use qpedia.Store.Blob
use qpedia.Store.Blob.{original}
use qpedia.Api.Auth.{User, can_read}
use qpedia.Api.Sources.{
  Db, Files, Field, readable, get_source, file_field, ext_of, upload_source,
  download_source_original,
}
use qpedia.Api.Sources.Uploaded.{bytes_of, upload_source-IsUploaded}

-- A slug is unique in its tenant alone, and the blobs are shared: if a second upload, by a user of any other
-- tenant, gets the same slug and its file has the same extension, then who reads the first source
-- downloads the bytes of the second upload.
pub download_source_original-shared :
    (files : Files) (user other reader : User) (now later : ℕ) (db db' db2 db2' : Db)
    (src src2 : Source) (fields fields2 : List Field) (name bytes : Text)
    → upload_source files user fields now db ≡ (db', ok src)
    → db2.blobs ≡ db'.blobs
    → upload_source files other fields2 later db2 ≡ (db2', ok src2)
    → file_field (codes "upload.bin") fields2 none ≡ some (name, bytes)
    → src2.id ≡ src.id
    → ext_of src2.filename ≡ ext_of src.filename
    → can_read reader src.acl ≡ true
    → download_source_original reader src.id (record db' { blobs = db2'.blobs }) ≡ ok (src, bytes)
unfolding download_source_original get_source readable
download_source_original-shared files user other reader now later db db' db2 db2' src src2 fields
      fields2 name bytes first shared second sent same_id same_ext may =
    let up = upload_source-IsUploaded files user now db db' src fields first in
    let up2 = upload_source-IsUploaded files other later db2 db2' src2 fields2 second in
    let same : up2.bytes ≡ bytes = bytes_of (sym up2.sent ∙ sent) in
    let stored : Blob.get src.id original (ext_of src.filename) db2'.blobs ≡ some up2.bytes =
      subst (λ x. Blob.get x original (ext_of src.filename) db2'.blobs ≡ some up2.bytes) same_id
        (subst (λ x. Blob.get src2.id original x db2'.blobs ≡ some up2.bytes) same_ext
          up2.stored) in
    rw (download_source_original, get_source, up.row, readable, may, stored)
      (ap (λ b. ok (src, b)) same)
