-- ===== src/PgStore/FolderAcls/Closest.antt =====
-- The closest folder with an access list, as a walk up the tree of folders.
use qpedia.Prelude.{
  ℕ, ◌≡◌, refl, sym, ap, ◌∙◌, Option, none, some, List, [], ◌∷◌, All-map, if◌then◌else◌, All, arith,
}
use mathlib.Core.List.{reverse_aux}
use qpedia.Text.{Text, codes, text_eq}
use qpedia.Text.Laws.{text_eq_iff}
use qpedia.Core.Acl.{Acl}
use qpedia.PgStore.Slug.{slugify_folder}
use qpedia.PgStore.Slug.Shape.{IsSlug}
use qpedia.PgStore.Slug.Folder.{slugify_folder-IsFolder}
use qpedia.PgStore.FolderAcls.{
  AclRow, without_path, upsert, set_folder_acl, delete_folder_acl, chain, longest_row, acl_of,
  resolve_folder_acl,
}
use qpedia.PgStore.FolderAcls.Names.{
  path_of, ancestors, IsName, ancestors-IsShorter, IsSlug-IsName, path_of-reverse_aux,
  All-reverse_aux,
}
use qpedia.PgStore.FolderAcls.Chain.{contains_text-chain}
use qpedia.PgStore.FolderAcls.Longest.{
  Acls, acl_at, or_else, longest_row_ext, acl_of-longest_row, longest_row-none, or_else-none,
}

-- What is asked of the table.
pub data Event : Type 0 where
  set : (folder_path : Text) (acl : Acl) (now : ℕ) (updated_by : Text) → Event
  remove : (folder_path : Text) → Event

step : Event → List AclRow → List AclRow
unfolding set_folder_acl delete_folder_acl
step (set folder_path acl now updated_by) = set_folder_acl folder_path acl now updated_by
step (remove folder_path) = delete_folder_acl folder_path

unfoldable pub run : List Event → List AclRow → List AclRow
unfolding step
run [] rows = rows
run (e ∷ events) rows = run events (step e rows)

abbrev pub view_step : Event → Acls → Acls
view_step (set folder_path acl now updated_by) m q =
    if text_eq (slugify_folder folder_path) q then some acl else m q
view_step (remove folder_path) m q = if text_eq (slugify_folder folder_path) q then none else m q

unfoldable pub view : List Event → Acls → Acls
view [] m = m
view (e ∷ events) m = view events (view_step e m)

-- The access list of a folder, else that of the folder around it.
unfoldable pub closest : Acls → List Text → Option Acl
closest m [] = m (codes "/")
closest m (name ∷ outer) = or_else (m (path_of (name ∷ outer))) (closest m outer)

acl_at-upsert :
    (row : AclRow) (rows : List AclRow) (q : Text)
    → acl_at (upsert row rows) q
      ≡ (if text_eq row.folder_path q then some row.acl else acl_at rows q)
unfolding acl_at upsert
acl_at-upsert row [] q = refl
acl_at-upsert row (r ∷ rows) q = ground (
  arith,
  acl_at-upsert row rows q,
  text_eq_iff r.folder_path row.folder_path,
  text_eq_iff r.folder_path q,
  text_eq_iff row.folder_path q,
)

acl_at-without_path :
    (path : Text) (rows : List AclRow) (q : Text)
    → acl_at (without_path path rows) q ≡ (if text_eq path q then none else acl_at rows q)
unfolding acl_at without_path
acl_at-without_path path [] q = ground arith
acl_at-without_path path (r ∷ rows) q = ground (
  arith,
  acl_at-without_path path rows q,
  text_eq_iff r.folder_path path,
  text_eq_iff r.folder_path q,
  text_eq_iff path q,
)

acl_at-step :
    (e : Event) (rows : List AclRow) (m : Acls) (q : Text)
    → acl_at rows q ≡ m q
    → acl_at (step e rows) q ≡ view_step e m q
unfolding step set_folder_acl delete_folder_acl
acl_at-step (set p a now by) rows m q h =
    acl_at-upsert
      (record { folder_path = slugify_folder p; acl = a; updated_at = now; updated_by = by }) rows q
    ∙ rw h
acl_at-step (remove p) rows m q h = acl_at-without_path (slugify_folder p) rows q ∙ rw h

acl_at-run :
    (events : List Event) (rows : List AclRow) (m : Acls)
    → ((q : Text) → acl_at rows q ≡ m q)
    → (q : Text) → acl_at (run events rows) q ≡ view events m q
unfolding run view
acl_at-run [] rows m h q = h q
acl_at-run (e ∷ events) rows m h q =
    acl_at-run events (step e rows) (view_step e m) (λ r. acl_at-step e rows m r (h r)) q

-- The query on all ancestors is the walk.
longest_row-ancestors :
    (names : List Text) (rows : List AclRow)
    → All IsName names
    → acl_of (longest_row (ancestors names) rows) ≡ closest (acl_at rows) names
unfolding ancestors closest
longest_row-ancestors [] rows h =
    acl_of-longest_row (codes "/") [] rows tt
    ∙ rw (longest_row-none rows, or_else-none (acl_at rows (codes "/")))
longest_row-ancestors (name ∷ outer) rows h =
    acl_of-longest_row (path_of (name ∷ outer)) (ancestors outer) rows
      (ancestors-IsShorter name outer h)
    ∙ ap (or_else (acl_at rows (path_of (name ∷ outer)))) (longest_row-ancestors outer rows h.1)

resolve-closest :
    (names : List Text) (path : Text) (rows : List AclRow)
    → All IsName names
    → slugify_folder path ≡ path_of names
    → resolve_folder_acl path rows ≡ closest (acl_at rows) names
unfolding resolve_folder_acl
resolve-closest names path rows h same = rw same (
    ap acl_of (
      longest_row_ext (chain (path_of names)) (ancestors names) rows
        (λ q. contains_text-chain names q h))
    ∙ longest_row-ancestors names rows h)

closest_ext :
    (m m' : Acls) (names : List Text)
    → ((q : Text) → m q ≡ m' q)
    → closest m names ≡ closest m' names
unfolding closest
closest_ext m m' [] h = h (codes "/")
closest_ext m m' (name ∷ outer) h = rw (h (path_of (name ∷ outer)), closest_ext m m' outer h)

-- The table of access lists behaves as a map from the normal forms of paths, which `set_folder_acl` and
-- `delete_folder_acl` change at one path, and `resolve_folder_acl` as a walk from a folder up to the
-- root that stops at the first folder with a list: whatever was asked of the table before, the path
-- has names, each a slug, and the answer is what the walk over them finds in the map.
pub resolve_folder_acl-closest :
    (events : List Event) (path : Text)
    → (names : List Text) × All IsSlug names
      × (slugify_folder path ≡ path_of names)
      × (resolve_folder_acl path (run events []) ≡ closest (view events (λ q. none)) names)
resolve_folder_acl-closest events path =
    let (parts, slugs, same) = slugify_folder-IsFolder path in
    let names = reverse_aux parts [] in
    let slugs' = All-reverse_aux IsSlug parts [] slugs tt in
    let same' = same ∙ sym (path_of-reverse_aux parts) in
    (
      names,
      slugs',
      same',
      resolve-closest names path (run events []) (All-map (λ s h. IsSlug-IsName s h) names slugs')
            same'
          ∙ closest_ext (acl_at (run events [])) (view events (λ q. none)) names
              (acl_at-run events [] (λ q. none) (λ q. unfold acl_at in refl)),
    )
