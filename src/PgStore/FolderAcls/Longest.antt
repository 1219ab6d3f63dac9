-- ===== src/PgStore/FolderAcls/Longest.antt =====
-- The longest row among candidates, and the access list at one path.
use qpedia.Prelude.{
  ◌≤◌, ◌<◌, ◌≡◌, refl, sym, ap, subst, ◌∙◌, ◌⊎◌, inl, inr, true, Option, none, some, List, [], ◌∷◌,
  All-map, leb, if◌then◌else◌, length, All, Bool-cases, Option-cases, arith, any,
}
use mathlib.Core.Option.{some-injective}
use qpedia.Text.{Text, text_eq, contains_text}
use qpedia.Text.Laws.{text_eq→eq}
use qpedia.Core.Acl.{Acl}
use qpedia.PgStore.FolderAcls.{AclRow, longer, longest_row, acl_of}
use qpedia.PgStore.FolderAcls.Names.{IsShorter}

abbrev pub or_else : Option Acl → Option Acl → Option Acl
or_else none later = later
or_else (some acl) later = some acl

-- The table seen as a map from normal paths.
abbrev pub Acls : Type 0
Acls = Text → Option Acl

unfoldable pub acl_at : List AclRow → Acls
acl_at [] q = none
acl_at (r ∷ rows) q = if text_eq r.folder_path q then some r.acl else acl_at rows q

contains_text-All :
    (P : Text → Type 0) (cs : List Text) (q : Text) → All P cs → contains_text cs q ≡ true → P q
unfolding contains_text
contains_text-All P [] q h e = cc
contains_text-All P (c ∷ cs) q (h, hs) e = elim (Bool-cases (text_eq q c)) [
  | inl same ↦ subst P (sym (text_eq→eq q c same)) h
  | inr other ↦ contains_text-All P cs q hs (rw other at e)
]

longer-cases :
    (r : AclRow) (o : Option AclRow)
    → (longer r o ≡ r) ⊎ ((s : AclRow) × (o ≡ some s) × (longer r o ≡ s))
longer-cases r none = inl refl
longer-cases r (some s) = elim (Bool-cases (leb (length s.folder_path) (length r.folder_path))) [
  | inl e ↦ inl (rw e)
  | inr e ↦ inr (s, refl, rw e)
]

longest_row-contains_text :
    (cs : List Text) (rows : List AclRow) (s : AclRow)
    → longest_row cs rows ≡ some s
    → contains_text cs s.folder_path ≡ true
unfolding longest_row
longest_row-contains_text cs [] s h = cc
longest_row-contains_text cs (r ∷ rows) s h = elim (Bool-cases (contains_text cs r.folder_path)) [
  | inr out ↦ longest_row-contains_text cs rows s (rw (longest_row, out) at h)
  | inl in_chain ↦ elim (longer-cases r (longest_row cs rows)) [
    | inl this ↦
        rw (← some-injective (longer r (longest_row cs rows)) s (rw (longest_row, in_chain) at h))
          (rw this in_chain)
    | inr (t, found, that) ↦
        longest_row-contains_text cs rows s
          (found ∙ ap some (sym that) ∙ rw (longest_row, in_chain) at h)
  ]
]

pub longest_row_ext :
    (cs ds : List Text) (rows : List AclRow)
    → ((q : Text) → contains_text cs q ≡ contains_text ds q)
    → longest_row cs rows ≡ longest_row ds rows
unfolding longest_row
longest_row_ext cs ds [] h = refl
longest_row_ext cs ds (r ∷ rows) h = rw (h r.folder_path, longest_row_ext cs ds rows h)

-- With no row for the first candidate the others decide.
longest_row_without :
    (path : Text) (cs : List Text) (rows : List AclRow)
    → acl_at rows path ≡ none
    → longest_row (path ∷ cs) rows ≡ longest_row cs rows
unfolding longest_row acl_at
longest_row_without path cs [] h = refl
longest_row_without path cs (r ∷ rows) h = elim (Bool-cases (text_eq r.folder_path path)) [
  | inl e ↦ cc (rw (acl_at, e) at h)
  | inr e ↦ rw (e, longest_row_without path cs rows (rw (acl_at, e) at h))
]

longer_of_long :
    (r : AclRow) (o : Option AclRow)
    → ((s : AclRow) → o ≡ some s → length s.folder_path ≤ length r.folder_path)
    → longer r o ≡ r
longer_of_long r none h = refl
longer_of_long r (some s) h = ground (arith, h s refl)

longest_row-le :
    (path : Text) (cs : List Text) (rows : List AclRow) (s : AclRow)
    → All (IsShorter path) cs
    → longest_row (path ∷ cs) rows ≡ some s
    → length s.folder_path ≤ length path
longest_row-le path cs rows s shorter h =
    contains_text-All (λ p. length p ≤ length path) (path ∷ cs) s.folder_path
      (omega arith, All-map (λ p k. omega (arith, k)) cs shorter)
      (longest_row-contains_text (path ∷ cs) rows s h)

longer_of_short :
    (r s : AclRow) → length r.folder_path < length s.folder_path → longer r (some s) ≡ s
longer_of_short r s h = ground arith

-- A row for the first candidate is the longest, if the other candidates are shorter.
longest_row_with :
    (path : Text) (cs : List Text) (rows : List AclRow) (acl : Acl)
    → All (IsShorter path) cs
    → acl_at rows path ≡ some acl
    → (r : AclRow) × (longest_row (path ∷ cs) rows ≡ some r)
      × (r.folder_path ≡ path)
      × (r.acl ≡ acl)
unfolding longest_row acl_at
longest_row_with path cs [] acl shorter h = cc
longest_row_with path cs (r ∷ rows) acl shorter h = elim (Bool-cases (text_eq r.folder_path path)) [
  | inl e ↦
      let same = text_eq→eq r.folder_path path e in
      (
        r,
        rw e (
            ap some (
              longer_of_long r (longest_row (path ∷ cs) rows) (λ s found.
                subst (λ p. length s.folder_path ≤ length p) (sym same)
                  (longest_row-le path cs rows s shorter found)))),
        same,
        some-injective r.acl acl (rw (acl_at, e) at h),
      )
  | inr e ↦
      let (s, found, same, acl_is) =
        longest_row_with path cs rows acl shorter (rw (acl_at, e) at h) in
      (
        s,
        elim (Bool-cases (any (text_eq r.folder_path) cs)) [
          | inl t ↦
              rw (e, t, found)
                (ap some (
                  longer_of_short r s (
                    subst (λ p. length r.folder_path < length p) (sym same)
                      (contains_text-All (IsShorter path) cs r.folder_path shorter
                        (unfold contains_text in t)))))
          | inr t ↦ rw (e, t) found
        ],
        same,
        acl_is,
      )
]

-- One step of the walk.
pub acl_of-longest_row :
    (path : Text) (cs : List Text) (rows : List AclRow)
    → All (IsShorter path) cs
    → acl_of (longest_row (path ∷ cs) rows)
      ≡ or_else (acl_at rows path) (acl_of (longest_row cs rows))
acl_of-longest_row path cs rows shorter = elim (Option-cases (acl_at rows path)) [
  | inl e ↦ rw (e, longest_row_without path cs rows e)
  | inr (acl, e) ↦
      let (r, found, same, acl_is) = longest_row_with path cs rows acl shorter e in
      rw (e, found) (ap some acl_is)
]

pub longest_row-none : (rows : List AclRow) → longest_row [] rows ≡ none
unfolding longest_row
longest_row-none [] = refl
longest_row-none (r ∷ rows) = longest_row-none rows

pub or_else-none : (o : Option Acl) → or_else o none ≡ o
or_else-none none = refl
or_else-none (some acl) = refl
