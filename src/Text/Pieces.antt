-- ===== src/Text/Pieces.antt =====
-- What a text is made of when it is cut at a pattern.
use qpedia.Prelude.{
  ℕ, ◌<◌, ◌≡◌, ap, Option, none, some, Option-cases, inl, inr, [], ◌∷◌, ◌++◌, length, length-append,
  arith,
}
use qpedia.Text.{Text, strip_prefix, split_once, prepend}

pub strip_prefix-eq-some : (p s t : Text) → strip_prefix p s ≡ some t → s ≡ p ++ t
unfolding strip_prefix
strip_prefix-eq-some [] s t h = cc
strip_prefix-eq-some (x ∷ p) [] t h = cc
strip_prefix-eq-some (x ∷ p) (c ∷ s) t h = ground (arith, strip_prefix-eq-some p s t)

pub prepend-eq-some :
    (c : ℕ) (o : Option (Text × Text)) (before after : Text)
    → prepend c o ≡ some (before, after)
    → (b : Text) × (o ≡ some (b, after)) × (before ≡ c ∷ b)
prepend-eq-some c none before after h = cc
prepend-eq-some c (some (b, a)) before after h = (b, cc, cc)

pub split_once-eq-some :
    (p s before after : Text) → split_once p s ≡ some (before, after) → s ≡ before ++ (p ++ after)
unfolding split_once
split_once-eq-some p [] before after h = elim (Option-cases (strip_prefix p [])) [
  | inl e ↦ cc (rw (split_once, e) at h)
  | inr (t, e) ↦ grind (arith, rw (split_once, e) at h, strip_prefix-eq-some p [] t e)
]
split_once-eq-some p (c ∷ s) before after h = elim (Option-cases (strip_prefix p (c ∷ s))) [
  | inl e ↦
      let (b, later, head) =
        prepend-eq-some c (split_once p s) before after (rw (split_once, e) at h) in
      grind (arith, split_once-eq-some p s b after later, head)
  | inr (t, e) ↦ grind (arith, rw (split_once, e) at h, strip_prefix-eq-some p (c ∷ s) t e)
]

-- What is behind a pattern that is not empty is shorter than the text.
pub strip_prefix-shorter :
    (x : ℕ) (p s t : Text) → strip_prefix (x ∷ p) s ≡ some t → length t < length s
strip_prefix-shorter x p s t h =
    omega (arith, ap length (strip_prefix-eq-some (x ∷ p) s t h), length-append (x ∷ p) t)

pub split_once-shorter :
    (x : ℕ) (p s before after : Text)
    → split_once (x ∷ p) s ≡ some (before, after)
    → length after < length s
split_once-shorter x p s before after h = omega (
  arith,
  ap length (split_once-eq-some (x ∷ p) s before after h),
  length-append before ((x ∷ p) ++ after),
  length-append (x ∷ p) after,
)
