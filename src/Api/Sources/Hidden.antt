-- ===== src/Api/Sources/Hidden.antt =====
-- A source that a user may not read.
use qpedia.Prelude.{ℕ, ◌≡◌, ◌⊎◌, inl, inr, false, none, some, List, err}
use qpedia.Text.{Text}
use qpedia.Core.Source.{Source}
use qpedia.PgStore.Sources.{get_source_in}
use qpedia.Api.Auth.{User, can_read}
use qpedia.Api.Sources.{
  Db, Files, Field, not_found, readable, get_source, download_source_original, delete_source,
  replace_source, move_source,
}

-- There is no such source, or the user may not read it.
abbrev pub IsHidden : User → Text → Db → Type 0
IsHidden user id db =
    (get_source_in id db.sources ≡ none)
    ⊎ ((src : Source) × (get_source_in id db.sources ≡ some src) × (can_read user src.acl ≡ false))

hidden-get_source :
    (user : User) (id : Text) (db : Db)
    → IsHidden user id db
    → get_source user id db ≡ err not_found
unfolding get_source readable
hidden-get_source user id db (inl e) = rw e
hidden-get_source user id db (inr (src, e, h)) = rw (e, h)

-- A user who may not read a source cannot tell it from one that is not there, and cannot change it: each
-- handler of a single source answers that it is not found, whatever else the request holds, and leaves
-- the sources, their files, the folders' lists and the queue as they were.
pub hidden-not_found :
    (files : Files) (user : User) (id : Text) (fields : List Field) (path : Text) (now : ℕ)
    (db : Db)
    → IsHidden user id db
    → (get_source user id db ≡ err not_found)
      × (download_source_original user id db ≡ err not_found)
      × (delete_source user id now db ≡ (db, err not_found))
      × (replace_source files user id fields now db ≡ (db, err not_found))
      × (move_source user id path db ≡ (db, err not_found))
unfolding download_source_original delete_source replace_source move_source
hidden-not_found files user id fields path now db h =
    let e = hidden-get_source user id db h in
    (
      e,
      rw (download_source_original, e),
      rw (delete_source, e),
      rw (replace_source, e),
      rw (move_source, e),
    )
