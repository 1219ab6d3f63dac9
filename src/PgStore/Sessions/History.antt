-- ===== src/PgStore/Sessions/History.antt =====
-- The session that a token has after any changes of the table.
use qpedia.Prelude.{
  ◌≡◌, refl, sym, ap, ◌∙◌, inl, inr, true, false, Option, none, some, List, [], ◌∷◌, arith,
  if◌then◌else◌, Bool-cases,
}
use qpedia.Text.{Text, text_eq}
use qpedia.Text.Laws.{text_eq→eq, text_eq_iff}
use qpedia.Core.Tenant.{Tenant}
use qpedia.PgStore.Sessions.{
  SessionRow, find_session, create_session, update_session_workspace, delete_session,
}

-- A sign-in, a change of workspace and a sign-out.
pub data Change : Type 0 where
  signed_in : SessionRow → Change
  switched : (token_hash : Text) (tenant : Tenant) (groups : List Text) → Change
  signed_out : (token_hash : Text) → Change

unfoldable pub apply : Change → List SessionRow → List SessionRow
unfolding create_session update_session_workspace delete_session
apply (signed_in row) = create_session row
apply (switched token_hash tenant groups) = update_session_workspace token_hash tenant groups
apply (signed_out token_hash) = delete_session token_hash

unfoldable pub apply_all : List Change → List SessionRow → List SessionRow
unfolding apply
apply_all [] rows = rows
apply_all (c ∷ changes) rows = apply_all changes (apply c rows)

abbrev moved_to : Tenant → List Text → Option SessionRow → Option SessionRow
moved_to tenant groups none = none
moved_to tenant groups (some r) = some (record r { tenant = tenant; groups = groups })

-- What a change means for one token.
abbrev meaning : Text → Change → Option SessionRow → Option SessionRow
meaning h (signed_in row) s = if text_eq row.token_hash h then some row else s
meaning h (switched token_hash tenant groups) s =
    if text_eq token_hash h then moved_to tenant groups s else s
meaning h (signed_out token_hash) s = if text_eq token_hash h then none else s

abbrev pub meanings : Text → List Change → Option SessionRow → Option SessionRow
meanings h [] s = s
meanings h (c ∷ changes) s = meanings h changes (meaning h c s)

find-create :
    (h : Text) (row : SessionRow) (rows : List SessionRow)
    → find_session h (create_session row rows) ≡ meaning h (signed_in row) (find_session h rows)
unfolding find_session create_session
find-create h row [] = refl
find-create h row (r ∷ rows) = ground (
  arith,
  find-create h row rows,
  text_eq_iff r.token_hash h,
  text_eq_iff row.token_hash h,
  text_eq_iff r.token_hash row.token_hash,
)

find-delete :
    (h k : Text) (rows : List SessionRow)
    → find_session h (delete_session k rows) ≡ meaning h (signed_out k) (find_session h rows)
unfolding find_session delete_session
find-delete h k [] = ground arith
find-delete h k (r ∷ rows) = ground (
  arith,
  find-delete h k rows,
  text_eq_iff r.token_hash h,
  text_eq_iff k h,
  text_eq_iff r.token_hash k,
)

find-switch :
    (h k : Text) (tenant : Tenant) (groups : List Text) (rows : List SessionRow)
    → find_session h (update_session_workspace k tenant groups rows)
      ≡ meaning h (switched k tenant groups) (find_session h rows)
unfolding find_session update_session_workspace
find-switch h k tenant groups [] = ground arith
find-switch h k tenant groups (r ∷ rows) = elim (Bool-cases (text_eq r.token_hash k)) [
  | inl e ↦
      let g = ap (λ x. text_eq x h) (sym (text_eq→eq r.token_hash k e)) in
      elim (Bool-cases (text_eq r.token_hash h)) [
        | inl f ↦ rw (find_session, update_session_workspace, e, f, g ∙ f) refl
        | inr f ↦
            rw (find_session, update_session_workspace, e, f, g ∙ f)
              (find-switch h k tenant groups rows
                ∙ ap
                    (λ b.
                      if b
                      then moved_to tenant groups (find_session h rows)
                      else find_session h rows)
                    (g ∙ f))
      ]
  | inr e ↦ elim (Bool-cases (text_eq r.token_hash h)) [
    | inl f ↦
        let g : text_eq k h ≡ false = other e f in
        rw (find_session, update_session_workspace, e, f, g) refl
    | inr f ↦ rw (find_session, update_session_workspace, e, f) (find-switch h k tenant groups rows)
  ]
]
  where
    other : text_eq r.token_hash k ≡ false → text_eq r.token_hash h ≡ true → text_eq k h ≡ false
    other e f = elim (Bool-cases (text_eq k h)) [
      | inl g ↦ cc (sym e ∙ ap (text_eq r.token_hash) (text_eq→eq k h g) ∙ f)
      | inr g ↦ g
    ]

find-apply :
    (h : Text) (c : Change) (rows : List SessionRow)
    → find_session h (apply c rows) ≡ meaning h c (find_session h rows)
unfolding apply
find-apply h (signed_in row) rows = find-create h row rows
find-apply h (switched k tenant groups) rows = find-switch h k tenant groups rows
find-apply h (signed_out k) rows = find-delete h k rows

pub find-apply_all :
    (h : Text) (changes : List Change) (rows : List SessionRow)
    → find_session h (apply_all changes rows) ≡ meanings h changes (find_session h rows)
unfolding apply_all
find-apply_all h [] rows = refl
find-apply_all h (c ∷ changes) rows =
    find-apply_all h changes (apply c rows) ∙ ap (meanings h changes) (find-apply h c rows)
