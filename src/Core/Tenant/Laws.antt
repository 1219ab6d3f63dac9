-- ===== src/Core/Tenant/Laws.antt =====
-- What an identifier of a tenant looks like.
use qpedia.Prelude.{
  ℕ, ◌≡◌, ◌≢◌, refl, ap₂, true, false, Bool-cases, inl, inr, [], ◌∷◌, map, All, arith, is_empty,
  if◌then◌else◌, ◌||◌, ◌==◌,
}
use qpedia.Text.{
  Text, trim, trim_start, trim_end, trim_start_by, trim_end_by, is_whitespace, to_ascii_lowercase,
  is_digit, is_lower,
}
use qpedia.Core.Tenant.{sanitize, new, default_tenant}

-- A digit, a lower-case letter, a dash or an underscore.
abbrev pub IsIdChar : ℕ → Type 0
IsIdChar c = (is_digit c || is_lower c || c == b'-' || c == b'_') ≡ true

abbrev pub IsTenantId : Text → Type 0
IsTenantId id = (id ≢ []) × All IsIdChar id

sanitized : (c : ℕ) → IsIdChar (to_ascii_lowercase (sanitize c))
unfolding sanitize
sanitized c = ground arith

kept : (c : ℕ) → IsIdChar c → to_ascii_lowercase (sanitize c) ≡ c
unfolding sanitize
kept c h = ground arith

not_white : (c : ℕ) → IsIdChar c → is_whitespace c ≡ false
not_white c h = ground arith

sanitized-All : (s : Text) → All IsIdChar (map (λ c. to_ascii_lowercase (sanitize c)) s)
sanitized-All [] = tt
sanitized-All (c ∷ s) = (sanitized c, sanitized-All s)

kept-All : (s : Text) → All IsIdChar s → map (λ c. to_ascii_lowercase (sanitize c)) s ≡ s
kept-All [] h = refl
kept-All (c ∷ s) (h, hs) = ap₂ ◌∷◌ (kept c h) (kept-All s hs)

trim_end-All : (s : Text) → All IsIdChar s → trim_end_by (λ c. is_whitespace c) s ≡ s
unfolding trim_end_by
trim_end-All [] h = refl
trim_end-All (c ∷ s) (h, hs) =
    rw (trim_end_by, trim_end-All s hs)
      (elim (Bool-cases (is_empty s)) [ inl e ↦ rw (e, not_white c h) refl | inr e ↦ rw e refl ])

trim-All : (s : Text) → All IsIdChar s → trim s ≡ s
unfolding trim trim_start trim_end trim_start_by
trim-All [] h = trim_end-All [] h
trim-All (c ∷ s) (h, hs) =
    rw (trim, trim_start, trim_start_by, not_white c h) (trim_end-All (c ∷ s) (h, hs))

-- Whatever the text, `Tenant::new` makes an identifier that is not empty and holds only digits,
-- lower-case letters, dashes and underscores.
pub new-IsTenantId : (raw : Text) → IsTenantId (new raw).id
unfolding new
new-IsTenantId raw = go (trim raw)
  where
    go :
        (s : Text)
        → IsTenantId
            (if is_empty s then default_tenant else map (λ c. to_ascii_lowercase (sanitize c)) s)
    go [] = ((λ e. cc), (refl, (refl, (refl, (refl, (refl, (refl, (refl, tt))))))))
    go (c ∷ s) = ((λ e. cc), sanitized-All (c ∷ s))

new_of_id : (s : Text) → IsTenantId s → (new s).id ≡ s
unfolding new
new_of_id [] (some_char, h) = absurd (some_char refl)
new_of_id (c ∷ s) (some_char, h) = rw (new, trim-All (c ∷ s) h) (kept-All (c ∷ s) h)

-- An identifier is the identifier of itself, so that a tenant is the same each time it is read back.
pub new_idempotent : (raw : Text) → (new (new raw).id).id ≡ (new raw).id
new_idempotent raw = new_of_id (new raw).id (new-IsTenantId raw)
