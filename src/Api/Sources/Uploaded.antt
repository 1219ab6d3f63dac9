-- ===== src/Api/Sources/Uploaded.antt =====
-- An uploaded file, and what a reader of it downloads.
use qpedia.Prelude.{
  ℕ, ◌≡◌, refl, sym, ap, subst, ◌∙◌, ◌⊎◌, inl, inr, false, Option, none, some, List, ok, err,
  if◌then◌else◌, is_empty, Bool-cases, Option-cases, Result-cases, ok-injective,
}
use qpedia.Text.{Text, codes}
use qpedia.Core.Acl.{Acl}
use qpedia.Core.Source.{Source, pending}
use qpedia.PgStore.FolderAcls.{resolve_folder_acl}
use qpedia.PgStore.Jobs
use qpedia.PgStore.Slug.{unique_source_slug}
use qpedia.PgStore.Sources.{get_source_in, has_slug, insert_source}
use qpedia.PgStore.Sources.Rows.{get_source_in-insert}
use qpedia.Store.Blob
use qpedia.Store.Blob.{original}
use qpedia.Store.Blob.Written.{get-put}
use qpedia.Ingest.Runner.{ingest_job}
use qpedia.Api.Auth.{User, can_read}
use qpedia.Api.Sources.{
  Db, Files, Field, Answer, not_found, readable, get_source, file_field, folder_field, ext_of,
  upload_acl, uploaded, insert_uploaded, upload_file, upload_source, download_source_original,
}

pub bytes_of : {a b c d : Text} → ◌≡◌ {A = Option (Text × Text)} (some (a, b)) (some (c, d)) → b ≡ d
bytes_of h = cc

module _ (files : Files) (user : User) (now : ℕ) (db db' : Db) (src : Source) where
  -- What the upload of a file leaves.
  pub record IsUploaded (path : Text) (file : Option (Text × Text)) : Type 0 where
    pub filename : Text
    pub bytes : Text
    pub sent : file ≡ some (filename, bytes)
    pub named : src.filename ≡ filename
    pub folder : src.folder_path ≡ path
    pub readers :
        ((acl : Acl) × (resolve_folder_acl path db.folder_acls ≡ some acl) × (src.acl ≡ acl))
        ⊎ ((resolve_folder_acl path db.folder_acls ≡ none)
            × (src.acl ≡ record { groups = user.groups }))
    pub fresh : src.status ≡ pending
    pub new_slug : has_slug src.id db.sources ≡ false
    pub row : get_source_in src.id db'.sources ≡ some src
    pub stored : Blob.get src.id original (ext_of src.filename) db'.blobs ≡ some bytes
    pub queued : db'.jobs ≡ Jobs.enqueue user.tenant (ingest_job user.tenant src.id now) db.jobs

  upload_acl-readers :
      (path : Text)
      → ((acl : Acl) × (resolve_folder_acl path db.folder_acls ≡ some acl)
          × (upload_acl user path db ≡ acl))
        ⊎ ((resolve_folder_acl path db.folder_acls ≡ none)
            × (upload_acl user path db ≡ record { groups = user.groups }))
  unfolding upload_acl
  upload_acl-readers path = elim (Option-cases (resolve_folder_acl path db.folder_acls)) [
    | inl e ↦ inr (e, rw (upload_acl, e))
    | inr (acl, e) ↦ inl (acl, e, rw (upload_acl, e))
  ]

  -- The handler's answer, if it is a success.
  abbrev Succeeds : Answer → Type 0
  Succeeds a = a ≡ (db', ok src)

  insert_uploaded-ok :
      (s : Source) (bytes : Text)
      → Succeeds (insert_uploaded files user.tenant s s.filename bytes now db)
      → (s ≡ src)
        × (has_slug s.id db.sources ≡ false)
        × (get_source_in s.id db'.sources ≡ some s)
        × (Blob.get s.id original (ext_of s.filename) db'.blobs ≡ some bytes)
        × (db'.jobs ≡ Jobs.enqueue user.tenant (ingest_job user.tenant s.id now) db.jobs)
  unfolding insert_uploaded insert_source
  insert_uploaded-ok s bytes h = elim (Bool-cases (has_slug s.id db.sources)) [
    | inl e ↦ cc (ap (λ o. o.1) (rw (insert_uploaded, insert_source, e) at h))
    | inr e ↦ elim (Bool-cases files.put_fails) [
      | inl k ↦ cc (ap (λ o. o.1) (rw (insert_uploaded, insert_source, e, k) at h))
      | inr k ↦
          let h' = rw (insert_uploaded, insert_source, e, k) at h in
          let left = ap (λ o. o.0) h' in
          (
            ok-injective (ap (λ o. o.1) h'),
            e,
            ap (λ d. get_source_in s.id d.sources) (sym left) ∙ get_source_in-insert s db.sources e,
            ap (λ d. Blob.get s.id original (ext_of s.filename) d.blobs) (sym left)
                ∙ get-put s.id original (ext_of s.filename) bytes db.blobs,
            ap (λ d. d.jobs) (sym left),
          )
    ]
  ]

  uploaded-IsUploaded :
      (path id filename bytes : Text)
      → Succeeds (
          insert_uploaded files user.tenant
            (uploaded files user id path filename bytes now db)
            filename
            bytes
            now
            db)
      → IsUploaded path (some (filename, bytes))
  unfolding uploaded
  uploaded-IsUploaded path id filename bytes h =
      let s = uploaded files user id path filename bytes now db in
      let (same, new, found, kept, jobs) = insert_uploaded-ok s bytes h in
      record {
        filename = filename;
        bytes = bytes;
        sent = refl;
        named = ap (λ x. x.filename) (sym same);
        folder = ap (λ x. x.folder_path) (sym same);
        readers =
            subst
              (λ a.
                ((acl : Acl) × (resolve_folder_acl path db.folder_acls ≡ some acl) × (a ≡ acl))
                ⊎ ((resolve_folder_acl path db.folder_acls ≡ none)
                    × (a ≡ record { groups = user.groups })))
              (ap (λ x. x.acl) same) (upload_acl-readers path);
        fresh = ap (λ x. x.status) (sym same);
        new_slug = subst (λ x. has_slug x.id db.sources ≡ false) same new;
        row = subst (λ x. get_source_in x.id db'.sources ≡ some x) same found;
        stored =
            subst (λ x. Blob.get x.id original (ext_of x.filename) db'.blobs ≡ some bytes) same
              kept;
        queued =
            subst
              (λ x. db'.jobs ≡ Jobs.enqueue user.tenant (ingest_job user.tenant x.id now) db.jobs)
              same jobs;
      }

  upload_file-IsUploaded :
      (path : Text) (o : Option (Text × Text))
      → Succeeds (upload_file files user path o now db)
      → IsUploaded path o
  unfolding upload_file
  upload_file-IsUploaded path none h = cc (ap (λ o. o.1) h)
  upload_file-IsUploaded path (some (filename, bytes)) h = elim (Bool-cases (is_empty filename)) [
    | inl e ↦ cc (ap (λ o. o.1) (rw (upload_file, e) at h))
    | inr e ↦ elim (Result-cases (unique_source_slug files.slug_is_free filename)) [
      | inr (reason, k) ↦ cc (ap (λ o. o.1) (rw (upload_file, e, k) at h))
      | inl (id, k) ↦ uploaded-IsUploaded path id filename bytes (rw (upload_file, e, k) at h)
    ]
  ]

  -- If an upload succeeds, the last file of the form has a new row, under a slug that no row had, in the
  -- folder as the form spells it; its readers are those of the closest folder with a list, or else the
  -- groups of the user; it is pending, its bytes are stored, and one job is queued to ingest it. So it is also if another source has
  -- the same bytes and the same hash.
  pub upload_source-IsUploaded :
      (fields : List Field)
      → Succeeds (upload_source files user fields now db)
      → IsUploaded (folder_field fields (codes "/")) (file_field (codes "upload.bin") fields none)
  unfolding upload_source
  upload_source-IsUploaded fields h =
      upload_file-IsUploaded (folder_field fields (codes "/"))
        (file_field (codes "upload.bin") fields none) h

  -- Right after an upload, a user of the same tenant who may read the source downloads the bytes that
  -- were uploaded, and a user of the same tenant who may not gets the answer that it is not found.
  pub download_source_original-upload_source :
      (fields : List Field) (reader : User) (name bytes : Text)
      → upload_source files user fields now db ≡ (db', ok src)
      → file_field (codes "upload.bin") fields none ≡ some (name, bytes)
      → reader.tenant ≡ user.tenant
      → download_source_original reader src.id db'
        ≡ (if can_read reader src.acl then ok (src, bytes) else err not_found)
  unfolding download_source_original get_source readable
  download_source_original-upload_source fields reader name bytes h sent same_tenant =
      let up = upload_source-IsUploaded fields h in
      let same : up.bytes ≡ bytes = bytes_of (sym up.sent ∙ sent) in
      elim (Bool-cases (can_read reader src.acl)) [
        | inl e ↦
            rw (download_source_original, get_source, up.row, readable, e, up.stored)
              (ap (λ b. ok (src, b)) same)
        | inr e ↦ rw (download_source_original, get_source, up.row, readable, e) refl
      ]
