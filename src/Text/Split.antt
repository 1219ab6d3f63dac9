-- ===== src/Text/Split.antt =====
-- Laws of `split`, and of the search for a piece of text.
use qpedia.Prelude.{
  ℕ, ◌≡◌, ◌≢◌, refl, ap, ◌∙◌, ◌⊎◌, inl, inr, true, false, List, [], ◌∷◌, ◌++◌, arith, ◌==◌,
  if◌then◌else◌, All, Bool-cases, ==_iff, some,
}
use qpedia.Text.{Text, split, strip_prefix, starts_with, contains}

abbrev pub HasNone : ℕ → Text → Type 0
HasNone sep s = All (λ c. c ≢ sep) s

abbrev pub add_head : ℕ → List Text → List Text
add_head c [] = []
add_head c (s ∷ parts) = (c ∷ s) ∷ parts

pub split-cons :
    (sep c : ℕ) (s : Text)
    → split sep (c ∷ s) ≡ (if c == sep then [] ∷ split sep s else add_head c (split sep s))
unfolding split
split-cons sep c s = ground arith

ne_of_test : (c sep : ℕ) → (c == sep) ≡ false → c ≢ sep
ne_of_test c sep h = ground arith

All-add_head :
    (sep c : ℕ) (parts : List Text)
    → c ≢ sep
    → All (HasNone sep) parts
    → All (HasNone sep) (add_head c parts)
All-add_head sep c [] h k = tt
All-add_head sep c (s ∷ parts) h (k, ks) = ((h, k), ks)

-- No piece holds the separator.
pub split-HasNone : (sep : ℕ) (s : Text) → All (HasNone sep) (split sep s)
split-HasNone sep [] = unfold split in (tt, tt)
split-HasNone sep (c ∷ s) = elim (Bool-cases (c == sep)) [
  | inl e ↦ rw (split-cons, e) (tt, split-HasNone sep s)
  | inr e ↦
      rw (split-cons, e)
        (All-add_head sep c (split sep s) (ne_of_test c sep e) (split-HasNone sep s))
]

-- One step of a split: no separator at all, or what stands before and behind the first one.
abbrev pub IsSplit : ℕ → Text → Type 0
IsSplit sep s =
    (split sep s ≡ s ∷ [])
    ⊎ ((h : Text) × (t : Text) × (s ≡ h ++ (sep ∷ t)) × (split sep s ≡ h ∷ split sep t))

pub IsSplit-step : (sep : ℕ) (s : Text) → IsSplit sep s
IsSplit-step sep [] = inl (unfold split in refl)
IsSplit-step sep (c ∷ s) = elim (Bool-cases (c == sep)) [
  | inl e ↦ inr ([], s, ap (λ x. x ∷ s) ((==_iff _ _).0 e), split-cons sep c s ∙ rw e)
  | inr e ↦ longer e (IsSplit-step sep s)
]
  where
    longer : (c == sep) ≡ false → IsSplit sep s → IsSplit sep (c ∷ s)
    longer e (inl one) = inl (split-cons sep c s ∙ rw (e, one))
    longer e (inr (h, t, same, rest)) =
        inr (c ∷ h, t, ap (λ x. c ∷ x) same, split-cons sep c s ∙ rw (e, rest))

pub strip_prefix-append : (p t : Text) → strip_prefix p (p ++ t) ≡ some t
unfolding strip_prefix
strip_prefix-append [] t = refl
strip_prefix-append (c ∷ p) t = ground (arith, strip_prefix-append p t)

pub starts_with-append : (p t : Text) → starts_with p (p ++ t) ≡ true
unfolding starts_with
starts_with-append p t = rw (strip_prefix-append p t, starts_with)

contains_of_strip : (p s t : Text) → strip_prefix p s ≡ some t → contains p s ≡ true
unfolding contains
contains_of_strip p [] t h = ground arith
contains_of_strip p (c ∷ s) t h = ground arith

contains-prefix : (p t : Text) → contains p (p ++ t) ≡ true
contains-prefix p t = contains_of_strip p (p ++ t) t (strip_prefix-append p t)

contains-cons : (p : Text) (c : ℕ) (s : Text) → contains p s ≡ true → contains p (c ∷ s) ≡ true
unfolding contains
contains-cons p c s h = ground arith

pub contains-append : (p h t : Text) → contains p (h ++ (p ++ t)) ≡ true
contains-append p [] t = contains-prefix p t
contains-append p (c ∷ h) t = contains-cons p c (h ++ (p ++ t)) (contains-append p h t)

pub contains-append_right : (p h t : Text) → contains p t ≡ true → contains p (h ++ t) ≡ true
contains-append_right p [] t k = k
contains-append_right p (c ∷ h) t k = contains-cons p c (h ++ t) (contains-append_right p h t k)
