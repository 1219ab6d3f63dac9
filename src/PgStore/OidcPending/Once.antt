-- ===== src/PgStore/OidcPending/Once.antt =====
-- A pending sign-in is taken once.
use qpedia.Prelude.{
  ℕ, ◌+◌, ◌≤◌, ◌≡◌, refl, sym, ap, ◌∙◌, inl, inr, false, not, none, some, List, [], ◌∷◌, ◌++◌,
  arith, ltb, filter, any, if◌then◌else◌, Bool-cases,
}
use qpedia.Text.{Text, text_eq}
use qpedia.Text.Laws.{text_eq_refl}
use qpedia.PgStore.OidcPending.{
  ttl_secs, PendingLogin, PendingRow, is_stale, is_takeable, save_pending, first_taken,
  take_pending,
}

still_not :
    (now later : ℕ) (state : Text) (r : PendingRow)
    → now ≤ later
    → is_takeable now state r ≡ false
    → is_takeable later state r ≡ false
unfolding is_takeable
still_not now later state r le h = ground arith

first_taken-filter :
    (now later : ℕ) (state : Text) (rows : List PendingRow)
    → now ≤ later
    → first_taken later state (filter (λ r. not (is_takeable now state r)) rows) ≡ none
unfolding first_taken
first_taken-filter now later state [] le = refl
first_taken-filter now later state (r ∷ rows) le = elim (Bool-cases (is_takeable now state r)) [
  | inl e ↦ rw (filter, e) (first_taken-filter now later state rows le)
  | inr e ↦
      rw (filter, e, still_not now later state r le e) (first_taken-filter now later state rows le)
]

module _ (t now : ℕ) (state : Text) (login : PendingLogin) where
  saved_row : PendingRow
  saved_row = record { state = state; login = login; created_at = t }

  kept : List PendingRow → List PendingRow
  unfolding saved_row
  kept rows = filter (λ r. not (is_stale t r)) (rows ++ saved_row ∷ [])

  saved_row-is_stale : is_stale t saved_row ≡ false
  unfolding is_stale saved_row
  saved_row-is_stale = ground arith

  saved_row-taken :
      first_taken now state (saved_row ∷ []) ≡ (if ltb now (t + ttl_secs) then some login else none)
  unfolding first_taken is_takeable saved_row
  saved_row-taken = rw (text_eq_refl state) refl

  first_taken-later :
      (r : PendingRow) (rows : List PendingRow)
      → text_eq r.state state ≡ false
      → first_taken now state (r ∷ rows) ≡ first_taken now state rows
  unfolding first_taken is_takeable
  first_taken-later r rows h = rw (first_taken, h) refl

  first_taken-kept :
      (rows : List PendingRow)
      → any (λ r. text_eq r.state state) rows ≡ false
      → first_taken now state (kept rows) ≡ (if ltb now (t + ttl_secs) then some login else none)
  unfolding kept
  first_taken-kept [] h = rw (filter, saved_row-is_stale) saved_row-taken
  first_taken-kept (r ∷ rows) h = elim (Bool-cases (text_eq r.state state)) [
    | inl e ↦ cc (rw e at h)
    | inr e ↦
        let more = first_taken-kept rows (rw e at h) in
        elim (Bool-cases (is_stale t r)) [
          | inl k ↦ rw (filter, k) more
          | inr k ↦ rw (filter, k) (first_taken-later r (kept rows) e ∙ more)
        ]
  ]

  -- A sign-in that is saved at `t` is taken with its verifier, nonce and destination for ten minutes, and
  -- no longer; once it was asked for, it is not taken again at any later time.
  pub take_pending-once :
      (later : ℕ) (rows rows' : List PendingRow)
      → save_pending t state login rows ≡ some rows'
      → now ≤ later
      → ((take_pending now state rows').1 ≡ (if ltb now (t + ttl_secs) then some login else none))
        × ((take_pending later state (take_pending now state rows').0).1 ≡ none)
  unfolding save_pending take_pending
  take_pending-once later rows rows' h le =
      elim (Bool-cases (any (λ r. text_eq r.state state) rows)) [
        | inl e ↦ cc (rw (save_pending, e) at h)
        | inr e ↦
            let same : kept rows ≡ rows' =
              unfold kept saved_row in cc (rw (save_pending, e) at h) in
            (
              ap (first_taken now state) (sym same) ∙ first_taken-kept rows e,
              first_taken-filter now later state rows' le,
            )
      ]
