-- ===== src/PgStore/Slug/Shape.antt =====
-- What `slugify` returns.
use qpedia.Prelude.{
  ℕ, suc, ◌+◌, ◌∙◌, ◌≤◌, ◌<◌, ◌≡◌, refl, ◌⊎◌, inl, inr, Bool, true, false, not, ◌&&◌, ◌||◌, [], ◌∷◌,
  arith, ◌==◌, leb, length, is_empty, Bool-cases,
}
use mathlib.Core.List.{reverse_aux, reverse_aux-reverse_aux-nil}
use qpedia.Text.{Text, codes, is_digit, is_lower, is_ascii_alphanumeric, to_ascii_lowercase}
use qpedia.PgStore.Slug.{slug_loop, pop_dashes, or_untitled, slugify, max_len}

-- The rest of a slug, where `dash` says that a dash, or nothing at all, stands before it.
abbrev pub IsSlugAfter : Bool → Text → Type 0
IsSlugAfter dash [] = dash ≡ false
IsSlugAfter dash (c ∷ s) =
    ((c ≡ b'-') × (dash ≡ false) × IsSlugAfter true s)
    ⊎ (((is_digit c || is_lower c) ≡ true) × IsSlugAfter false s)

-- Not empty; of digits, lower-case letters and dashes; no dash at either end, nor two together; short.
abbrev pub IsSlug : Text → Type 0
IsSlug s = IsSlugAfter true s × (length s ≤ max_len)

not_dash : (c : ℕ) → (is_digit c || is_lower c) ≡ true → (c == b'-') ≡ false
not_dash c h = ground arith

length-reverse_aux : (s t : Text) → length (reverse_aux s t) ≡ length s + length t
length-reverse_aux [] t = omega arith
length-reverse_aux (c ∷ s) t = omega (arith, length-reverse_aux s (c ∷ t))

-- The same of what has been written so far, reversed.
abbrev IsWritten : Bool → Text → Type 0
IsWritten dash [] = dash ≡ true
IsWritten dash (c ∷ out) =
    ((c ≡ b'-') × (dash ≡ true) × IsWritten false out)
    ⊎ (((is_digit c || is_lower c) ≡ true)
        × (dash ≡ false)
        × (IsWritten true out ⊎ IsWritten false out))

abbrev IsOut : Text → Type 0
IsOut out = (IsWritten true out ⊎ IsWritten false out) × (length out ≤ max_len)

either_dash :
    (dash : Bool) (out : Text) → IsWritten dash out → IsWritten true out ⊎ IsWritten false out
either_dash true out h = inl h
either_dash false out h = inr h

module _ {ℓ} (P : Text → Type ℓ) where
  -- The four ways in which a round of the loop goes on.
  slug_loop_cases :
      (out : Text) (dash : Bool) (ch : ℕ) (name : Text)
      → P out
      → (length out < max_len
          → is_ascii_alphanumeric (to_ascii_lowercase ch) ≡ true
          → P (slug_loop (to_ascii_lowercase ch ∷ out) false name))
      → (length out < max_len → dash ≡ false → P (slug_loop (b'-' ∷ out) true name))
      → P (slug_loop out dash name)
      → P (slug_loop out dash (ch ∷ name))
  unfolding slug_loop
  slug_loop_cases out dash ch name full pushed dashed skipped =
      elim (Bool-cases (leb max_len (length out))) [
        | inl e ↦ rw e full
        | inr room ↦ elim (Bool-cases (is_ascii_alphanumeric (to_ascii_lowercase ch))) [
          | inl e ↦ rw (room, e) (pushed (ground arith) e)
          | inr e ↦ elim (Bool-cases (not dash && not (is_empty out))) [
            | inl d ↦ rw (room, e, d) (dashed (ground arith) (ground arith))
            | inr d ↦ rw (room, e, d) skipped
          ]
        ]
      ]

lowered :
    (ch : ℕ)
    → is_ascii_alphanumeric (to_ascii_lowercase ch) ≡ true
    → (is_digit (to_ascii_lowercase ch) || is_lower (to_ascii_lowercase ch)) ≡ true
lowered ch h = ground arith

slug_loop-IsOut :
    (out : Text) (dash : Bool) (name : Text)
    → IsWritten dash out
    → length out ≤ max_len
    → IsOut (slug_loop out dash name)
unfolding slug_loop
slug_loop-IsOut out dash [] h k = (either_dash dash out h, k)
slug_loop-IsOut out dash (ch ∷ name) h k =
    slug_loop_cases IsOut out dash ch name (either_dash dash out h, k)
      (λ room e.
        slug_loop-IsOut (to_ascii_lowercase ch ∷ out) false name
          (inr (lowered ch e, refl, either_dash dash out h)) room)
      (λ room e. slug_loop-IsOut (b'-' ∷ out) true name (inl (refl, refl, rw e at h)) room)
      (slug_loop-IsOut out dash name h k)

pop_dashes_cases :
    (dash : Bool) (out : Text)
    → IsWritten dash out
    → (pop_dashes out ≡ [])
      ⊎ (IsWritten false (pop_dashes out) × (length (pop_dashes out) ≤ length out))
unfolding pop_dashes
pop_dashes_cases dash [] h = inl refl
pop_dashes_cases dash (c ∷ out) (inr (h, e, k)) =
    rw (not_dash c h) (inr (inr (h, refl, k), omega arith))
pop_dashes_cases dash (c ∷ []) (inl (h, e, k)) = cc
pop_dashes_cases dash (c ∷ d ∷ out) (inl (h, e, inl (_, f, _))) = cc
pop_dashes_cases dash (c ∷ d ∷ out) (inl (h, e, inr (g, f, k))) =
    rw (h, not_dash d g) (inr (inr (g, refl, k), omega arith))

reverse_aux-IsSlugAfter :
    (dash : Bool) (out s : Text)
    → IsWritten dash out
    → IsSlugAfter dash s
    → IsSlugAfter true (reverse_aux out s)
reverse_aux-IsSlugAfter dash [] s h k = rw h at k
reverse_aux-IsSlugAfter dash (c ∷ out) s (inl (h, e, w)) k =
    reverse_aux-IsSlugAfter false out (c ∷ s) w (inl (h, refl, rw e at k))
reverse_aux-IsSlugAfter dash (c ∷ out) s (inr (h, e, inl w)) k =
    reverse_aux-IsSlugAfter true out (c ∷ s) w (inr (h, rw e at k))
reverse_aux-IsSlugAfter dash (c ∷ out) s (inr (h, e, inr w)) k =
    reverse_aux-IsSlugAfter false out (c ∷ s) w (inr (h, rw e at k))

or_untitled-IsSlug :
    (out : Text) → IsWritten false out → length out ≤ max_len → IsSlug (or_untitled out)
unfolding or_untitled
or_untitled-IsSlug [] h k = cc
or_untitled-IsSlug (c ∷ out) h k = (
  reverse_aux-IsSlugAfter false (c ∷ out) [] h refl,
  omega (arith, length-reverse_aux (c ∷ out) []),
)

untitled-IsSlug : IsSlug (codes "untitled")
untitled-IsSlug = (
  inr (
    refl,
    inr (refl, inr (refl, inr (refl, inr (refl, inr (refl, inr (refl, inr (refl, refl))))))),
  ),
  omega arith,
)

popped-IsSlug :
    (dash : Bool) (out : Text)
    → IsWritten dash out
    → length out ≤ max_len
    → IsSlug (or_untitled (pop_dashes out))
unfolding or_untitled
popped-IsSlug dash out h k = elim (pop_dashes_cases dash out h) [
  | inl e ↦ rw (e, or_untitled) untitled-IsSlug
  | inr (w, l) ↦ or_untitled-IsSlug (pop_dashes out) w (omega arith)
]

popped-IsSlug_either :
    (out : Text)
    → IsWritten true out ⊎ IsWritten false out
    → length out ≤ max_len
    → IsSlug (or_untitled (pop_dashes out))
popped-IsSlug_either out (inl w) k = popped-IsSlug true out w k
popped-IsSlug_either out (inr w) k = popped-IsSlug false out w k

room : (m n : ℕ) → m + suc n ≤ max_len → leb max_len m ≡ false
room m n h = ground arith

keeps : (c : ℕ) → (is_digit c || is_lower c) ≡ true → to_ascii_lowercase c ≡ c
keeps c h = ground arith

kept : (c : ℕ) → (is_digit c || is_lower c) ≡ true → is_ascii_alphanumeric c ≡ true
kept c h = ground arith

-- Whatever the name, its slug is not empty, holds only digits, lower-case letters and dashes, has no
-- dash at either end and no two together, and is at most 80 characters long.
pub slugify-IsSlug : (name : Text) → IsSlug (slugify name)
unfolding slugify
slugify-IsSlug name =
    let (written, short) = slug_loop-IsOut [] true name refl (omega arith) in
    popped-IsSlug_either (slug_loop [] true name) written short

slug_loop_of_slug :
    (out : Text) (dash : Bool) (s : Text)
    → IsSlugAfter dash s
    → (dash ≡ false → is_empty out ≡ false)
    → length out + length s ≤ max_len
    → slug_loop out dash s ≡ reverse_aux s out
unfolding slug_loop
slug_loop_of_slug out dash [] h k l = refl
slug_loop_of_slug out dash (c ∷ s) (inl (h, e, w)) k l =
    rw (h, e, k e, room (length out) (length s) l)
      (slug_loop_of_slug (b'-' ∷ out) true s w (λ p. cc) (omega arith))
slug_loop_of_slug out dash (c ∷ s) (inr (h, w)) k l =
    rw (room (length out) (length s) l, keeps c h, kept c h)
      (slug_loop_of_slug (c ∷ out) false s w (λ p. refl) (omega arith))

pop_dashes_of_slug :
    (dash : Bool) (s out : Text)
    → IsSlugAfter dash s
    → (dash ≡ false → pop_dashes out ≡ out)
    → pop_dashes (reverse_aux s out) ≡ reverse_aux s out
unfolding pop_dashes
pop_dashes_of_slug dash [] out h k = k h
pop_dashes_of_slug dash (c ∷ s) out (inl (h, e, w)) k =
    pop_dashes_of_slug true s (c ∷ out) w (λ p. cc)
pop_dashes_of_slug dash (c ∷ s) out (inr (h, w)) k =
    pop_dashes_of_slug false s (c ∷ out) w (λ p. rw (not_dash c h))

or_untitled-reverse_aux :
    (c : ℕ) (s out : Text)
    → or_untitled (reverse_aux s (c ∷ out)) ≡ reverse_aux (reverse_aux s (c ∷ out)) []
unfolding or_untitled
or_untitled-reverse_aux c [] out = refl
or_untitled-reverse_aux c (d ∷ s) out = or_untitled-reverse_aux d s (c ∷ out)

pub slugify_of_slug : (s : Text) → IsSlug s → slugify s ≡ s
unfolding slugify
slugify_of_slug [] (h, k) = cc
slugify_of_slug (c ∷ s) (h, k) = rw (slug_loop_of_slug [] true (c ∷ s) h (λ p. cc) (omega arith)) (
    rw (pop_dashes_of_slug true (c ∷ s) [] h (λ p. cc))
      (or_untitled-reverse_aux c s [] ∙ reverse_aux-reverse_aux-nil (c ∷ s) []))

-- A slug is its own slug: slugifying twice changes nothing more.
pub slugify_idempotent : (name : Text) → slugify (slugify name) ≡ slugify name
slugify_idempotent name = slugify_of_slug (slugify name) (slugify-IsSlug name)
