-- ===== src/PgStore/Slug/Probe.antt =====
-- What `probe_unique` returns, whatever other writers do between two of its transactions.
use qpedia.Prelude.{
  ℕ, zero, suc, ◌+◌, ◌-◌, ◌<◌, ◌≤◌, ◌≡◌, refl, Bool, true, false, ok, err, Result, arith, ltb,
  if◌then◌else◌, inl, inr, ◌∷◌, ◌++◌, Bool-cases, subst,
}
use native.Mathlib.Decide.{dec_lt}
use qpedia.Text.{Text, codes}
use qpedia.PgStore.Slug.{
  ProbeError, failed, no_free_slug, numbered, max_attempts, slugify, round, probe_loop,
  probe_unique, unique_source_slug, unique_wiki_path, unique_connector_name,
}

-- The name that is tried when the counter is `n`: `base`, then `base-2`, `base-3`, ...
abbrev pub candidate : Text → ℕ → Text
candidate base n = if ltb 2 n then numbered base (n - 1) else base

candidate-suc : (base : Text) (n : ℕ) → 2 ≤ n → numbered base n ≡ candidate base (n + 1)
candidate-suc base n h = ground arith

module _ {E : Type 0} (is_free : ℕ → Text → Result E Bool) (base : Text) where
  -- Every name that is tried before the counter is `n` was taken.
  abbrev pub AllTaken : ℕ → Type 0
  AllTaken n = (m : ℕ) → 2 ≤ m → m < n → is_free m (candidate base m) ≡ ok false

  -- The first name that was found free; or the first error of the store; or no name was free.
  abbrev pub IsFirstFree : Result (ProbeError E) Text → Type 0
  IsFirstFree (ok c) =
      (n : ℕ) × (n ≤ max_attempts) × (c ≡ candidate base n) × (is_free n c ≡ ok true) × AllTaken n
  IsFirstFree (err (failed e)) =
      (n : ℕ) × (n ≤ max_attempts) × (is_free n (candidate base n) ≡ err e) × AllTaken n
  IsFirstFree (err no_free_slug) = AllTaken (suc max_attempts)

  AllTaken-suc : (n : ℕ) → AllTaken n → is_free n (candidate base n) ≡ ok false → AllTaken (suc n)
  AllTaken-suc n h e m a l = elim (dec_lt m n) [
    | yes p ↦ h m a p
    | no p ↦ let same : m ≡ n = omega arith in rw same e
  ]

  -- One round, on the answer of its transaction.
  answered :
      (n : ℕ) (next : Result (ProbeError E) Text) (r : Result E Bool)
      → n ≤ max_attempts
      → AllTaken n
      → is_free n (candidate base n) ≡ r
      → (is_free n (candidate base n) ≡ ok false → suc n ≤ max_attempts → IsFirstFree next)
      → IsFirstFree (round n (candidate base n) r next)
  unfolding round
  answered n next (err e) l h p k = (n, l, p, h)
  answered n next (ok true) l h p k = (n, l, refl, p, h)
  answered n next (ok false) l h p k = elim (Bool-cases (ltb max_attempts (n + 1))) [
    | inl e ↦
        let last : n ≡ max_attempts = ground arith in
        rw e (subst (λ m. AllTaken (suc m)) last (AllTaken-suc n h p))
    | inr e ↦ rw e (k p (ground arith))
  ]

  probe_loop-IsFirstFree :
      (fuel n : ℕ)
      → 2 ≤ n
      → n ≤ max_attempts
      → max_attempts < n + fuel
      → AllTaken n
      → IsFirstFree (probe_loop is_free base fuel n (candidate base n))
  unfolding probe_loop
  probe_loop-IsFirstFree zero n a l f h = absurd (omega arith)
  probe_loop-IsFirstFree (suc fuel) n a l f h =
      answered n (probe_loop is_free base fuel (n + 1) (numbered base n))
        (is_free n (candidate base n)) l h refl
        λ e m.
          let next : suc n ≡ n + 1 = omega arith in
          rw (candidate-suc base n a) (
            subst (λ k. IsFirstFree (probe_loop is_free base fuel k (candidate base k))) next
              (probe_loop-IsFirstFree fuel (suc n) (omega arith) m (omega arith)
                (AllTaken-suc n h e)))

  -- `probe_unique` returns the first of `base`, `base-2`, ..., `base-999` that its transaction finds
  -- free; the first error of the store before that; or that no name is free, when all were taken.
  pub probe_unique-IsFirstFree : IsFirstFree (probe_unique is_free base)
  unfolding probe_unique
  probe_unique-IsFirstFree =
      probe_loop-IsFirstFree max_attempts 2 (omega arith) (omega arith) (omega arith)
        (λ m a l. absurd (omega arith))

-- Source slugs and connector names are probed from the slug of what was asked for, and wiki paths from
-- the slugs of directory and name: each of the three returns the first free name, an error of the
-- store before it, or that all names were taken.
pub unique_names-IsFirstFree :
    {E : Type 0} (is_free : ℕ → Text → Result E Bool) (kind desired : Text)
    → IsFirstFree is_free (slugify desired) (unique_source_slug is_free desired)
      × IsFirstFree is_free (slugify desired) (unique_connector_name is_free desired)
      × IsFirstFree is_free
          (slugify kind ++ (b'/' ∷ (slugify desired ++ codes ".md")))
          (unique_wiki_path is_free kind desired)
unfolding unique_source_slug unique_connector_name unique_wiki_path
unique_names-IsFirstFree is_free kind desired = (
  probe_unique-IsFirstFree is_free (slugify desired),
  probe_unique-IsFirstFree is_free (slugify desired),
  probe_unique-IsFirstFree is_free (slugify kind ++ (b'/' ∷ (slugify desired ++ codes ".md"))),
)
