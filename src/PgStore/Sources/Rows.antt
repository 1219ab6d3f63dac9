-- ===== src/PgStore/Sources/Rows.antt =====
-- The row of a source after a change.
use qpedia.Prelude.{
  ◌≡◌, refl, sym, ap, ◌∙◌, inl, inr, true, false, Option, some, List, [], ◌∷◌, ◌++◌, Bool-cases,
}
use qpedia.Text.{Text, text_eq}
use qpedia.Text.Laws.{text_eq→eq, text_eq_refl}
use qpedia.Core.Source.{Source}
use qpedia.PgStore.Sources.{has_slug, get_source_in, update_source}

-- A change of a row that leaves its key.
abbrev pub KeepsId : (Source → Source) → Type 0
KeepsId f = (r : Source) → (f r).id ≡ r.id

get_here :
    (slug : Text) (r : Source) (rows : List Source)
    → text_eq r.id slug ≡ true
    → get_source_in slug (r ∷ rows) ≡ some r
unfolding get_source_in
get_here slug r rows h = rw (get_source_in, h)

get_later :
    (slug : Text) (r : Source) (rows : List Source)
    → text_eq r.id slug ≡ false
    → get_source_in slug (r ∷ rows) ≡ get_source_in slug rows
unfolding get_source_in
get_later slug r rows h = rw (get_source_in, h)

update_here :
    (slug : Text) (f : Source → Source) (r : Source) (rows : List Source)
    → text_eq r.id slug ≡ true
    → update_source slug f (r ∷ rows) ≡ f r ∷ update_source slug f rows
unfolding update_source
update_here slug f r rows h = rw (update_source, h)

update_later :
    (slug : Text) (f : Source → Source) (r : Source) (rows : List Source)
    → text_eq r.id slug ≡ false
    → update_source slug f (r ∷ rows) ≡ r ∷ update_source slug f rows
unfolding update_source
update_later slug f r rows h = rw (update_source, h)

pub get_source_in-update_source :
    (slug : Text) (f : Source → Source) (rows : List Source) (src : Source)
    → KeepsId f
    → get_source_in slug rows ≡ some src
    → get_source_in slug (update_source slug f rows) ≡ some (f src)
unfolding get_source_in
get_source_in-update_source slug f [] src keeps h = cc
get_source_in-update_source slug f (r ∷ rows) src keeps h = elim (Bool-cases (text_eq r.id slug)) [
  | inl e ↦
      ap (get_source_in slug) (update_here slug f r rows e)
      ∙ get_here slug (f r) (update_source slug f rows) (ap (λ x. text_eq x slug) (keeps r) ∙ e)
      ∙ ap (λ x. some (f x)) (same (sym (get_here slug r rows e) ∙ h))
  | inr e ↦
      ap (get_source_in slug) (update_later slug f r rows e)
      ∙ get_later slug r (update_source slug f rows) e
      ∙ get_source_in-update_source slug f rows src keeps (sym (get_later slug r rows e) ∙ h)
]
  where
    same : ◌≡◌ {A = Option Source} (some r) (some src) → r ≡ src
    same k = cc

get_source_in-cong :
    (slug : Text) (r r' : Source) (rows rows' : List Source)
    → r'.id ≡ r.id
    → text_eq r.id slug ≡ false
    → get_source_in slug rows' ≡ get_source_in slug rows
    → get_source_in slug (r' ∷ rows') ≡ get_source_in slug (r ∷ rows)
get_source_in-cong slug r r' rows rows' same e h =
    get_later slug r' rows' (ap (λ x. text_eq x slug) same ∙ e) ∙ h ∙ sym (get_later slug r rows e)

pub get_source_in-update_other :
    (slug other : Text) (f : Source → Source) (rows : List Source)
    → KeepsId f
    → text_eq slug other ≡ false
    → get_source_in other (update_source slug f rows) ≡ get_source_in other rows
get_source_in-update_other slug other f [] keeps h = unfold update_source in refl
get_source_in-update_other slug other f (r ∷ rows) keeps h = elim (Bool-cases (text_eq r.id slug)) [
  | inl e ↦
      ap (get_source_in other) (update_here slug f r rows e)
      ∙ get_source_in-cong other r (f r) rows (update_source slug f rows) (keeps r)
          (ap (λ x. text_eq x other) (text_eq→eq r.id slug e) ∙ h)
          (get_source_in-update_other slug other f rows keeps h)
  | inr e ↦
      ap (get_source_in other) (update_later slug f r rows e)
      ∙ elim (Bool-cases (text_eq r.id other)) [
        | inl k ↦ get_here other r (update_source slug f rows) k ∙ sym (get_here other r rows k)
        | inr k ↦
            get_source_in-cong other r r rows (update_source slug f rows) refl k
              (get_source_in-update_other slug other f rows keeps h)
      ]
]

pub get_source_in-insert :
    (src : Source) (rows : List Source)
    → has_slug src.id rows ≡ false
    → get_source_in src.id (rows ++ src ∷ []) ≡ some src
unfolding get_source_in has_slug
get_source_in-insert src [] h = rw (text_eq_refl src.id)
get_source_in-insert src (r ∷ rows) h = elim (Bool-cases (text_eq r.id src.id)) [
  | inl e ↦ cc (rw (has_slug, e) at h)
  | inr e ↦ rw (get_source_in, e) (get_source_in-insert src rows (rw (has_slug, e) at h))
]
