-- ===== src/Store/Blob/Written.antt =====
-- A file that was written is found.
use qpedia.Prelude.{◌≡◌, inl, inr, some, List, [], ◌∷◌, Bool-cases}
use qpedia.Text.{Text}
use qpedia.Text.Laws.{text_eq_refl}
use qpedia.Store.Blob.{BlobKind, Blob, is_at, path_for, write, find, put, get}

find-write :
    (id name bytes : Text) (blobs : List Blob)
    → find id name (write id name bytes blobs) ≡ some bytes
unfolding find write is_at
find-write id name bytes [] = rw (text_eq_refl id, text_eq_refl name)
find-write id name bytes (b ∷ blobs) = elim (Bool-cases (is_at id name b)) [
  | inl e ↦ rw (e, e)
  | inr e ↦ rw (e, e) (find-write id name bytes blobs)
]

pub get-put :
    (id : Text) (kind : BlobKind) (ext bytes : Text) (blobs : List Blob)
    → get id kind ext (put id kind ext bytes blobs) ≡ some bytes
unfolding get put
get-put id kind ext bytes blobs = find-write id (path_for kind ext) bytes blobs
