-- ===== src/Text/Joined.antt =====
-- Texts that are joined, split and trimmed again.
use qpedia.Prelude.{
  ℕ, ◌≡◌, ◌≢◌, refl, sym, ap, subst, Option-cases, ◌∙◌, inl, inr, Bool, true, false, Option, none,
  some, List, [], ◌∷◌, ◌++◌, append_assoc, append-nil, arith, ◌==◌, is_empty, All, Bool-cases,
}
use qpedia.Text.{
  Text, split, split_head, split_tail, join, strip_prefix, starts_with, split_once, trim_end_by,
  prepend,
}
use qpedia.Text.Pieces.{prepend-eq-some, split_once-eq-some}
use qpedia.Text.Split.{HasNone, split-cons, strip_prefix-append}

-- A separator behind a piece without one ends it.
pub split-append :
    (sep : ℕ) (s rest : Text) → HasNone sep s → split sep (s ++ (sep ∷ rest)) ≡ s ∷ split sep rest
split-append sep [] rest h = split-cons sep sep rest ∙ ground arith
split-append sep (c ∷ s) rest (hc, hs) =
    split-cons sep c (s ++ (sep ∷ rest)) ∙ ground (arith, split-append sep s rest hs)

pub split_of_HasNone : (sep : ℕ) (s : Text) → HasNone sep s → split sep s ≡ s ∷ []
split_of_HasNone sep [] h = unfold split in refl
split_of_HasNone sep (c ∷ s) (hc, hs) =
    split-cons sep c s ∙ ground (arith, split_of_HasNone sep s hs)

-- Splitting what was joined with the separator.
pub split-join :
    (sep : ℕ) (s : Text) (parts : List Text)
    → All (HasNone sep) (s ∷ parts)
    → split sep (join (sep ∷ []) (s ∷ parts)) ≡ s ∷ parts
unfolding join
split-join sep s [] (h, _) = split_of_HasNone sep s h
split-join sep s (t ∷ parts) (h, hs) =
    split-append sep s (join (sep ∷ []) (t ∷ parts)) h ∙ ap (◌∷◌ s) (split-join sep t parts hs)

-- A prefix without the separator is looked for in the first piece only.
pub starts_with-append_sep :
    (sep : ℕ) (p s rest : Text)
    → HasNone sep p
    → starts_with p (s ++ (sep ∷ rest)) ≡ starts_with p s
unfolding starts_with
starts_with-append_sep sep [] s rest h = refl
starts_with-append_sep sep (x ∷ p) [] rest (hx, h) = ground arith
starts_with-append_sep sep (x ∷ p) (c ∷ s) rest (hx, h) =
    ground (arith, starts_with-append_sep sep p s rest h)

pub starts_with_longer : (p s t : Text) → starts_with p s ≡ true → starts_with p (s ++ t) ≡ true
unfolding starts_with
starts_with_longer [] s t h = refl
starts_with_longer (x ∷ p) [] t h = cc
starts_with_longer (x ∷ p) (c ∷ s) t h = ground (arith, starts_with_longer p s t)

pub starts_with-split_head :
    (sep : ℕ) (p s : Text) → starts_with p (split_head sep s) ≡ true → starts_with p s ≡ true
unfolding starts_with split_head
starts_with-split_head sep [] s h = refl
starts_with-split_head sep (x ∷ p) [] h = cc
starts_with-split_head sep (x ∷ p) (c ∷ s) h = ground (arith, starts_with-split_head sep p s)

snoc-ne-nil : (s : Text) (c : ℕ) → is_empty (s ++ c ∷ []) ≡ false
snoc-ne-nil [] c = refl
snoc-ne-nil (d ∷ s) c = refl

pub trim_end_by-append :
    (p : ℕ → Bool) (s : Text) (c : ℕ) → p c ≡ false → trim_end_by p (s ++ c ∷ []) ≡ s ++ c ∷ []
unfolding trim_end_by
trim_end_by-append p [] c h = rw h
trim_end_by-append p (d ∷ s) c h = rw (trim_end_by-append p s c h, snoc-ne-nil s c)

-- All pieces but the first do not start with the pattern.
abbrev pub NoneStarts : Text → List Text → Type 0
NoneStarts p parts = All (λ s. starts_with p s ≡ false) parts

split_once_of_skip :
    (sep : ℕ) (p s : Text) (c : ℕ)
    → c ≢ sep
    → split_once (sep ∷ p) (c ∷ s) ≡ prepend c (split_once (sep ∷ p) s)
unfolding split_once
split_once_of_skip sep p s c h = ground arith

split_once_of_starts :
    (sep : ℕ) (p rest : Text) → split_once (sep ∷ p) (sep ∷ (p ++ rest)) ≡ some ([], rest)
unfolding split_once
split_once_of_starts sep p rest = ground (arith, strip_prefix-append p rest)

split_once_of_not :
    (sep : ℕ) (p s : Text)
    → starts_with p s ≡ false
    → split_once (sep ∷ p) (sep ∷ s) ≡ prepend sep (split_once (sep ∷ p) s)
unfolding split_once starts_with
split_once_of_not sep p s h = ground arith

prepend_all : Text → Option (Text × Text) → Option (Text × Text)
prepend_all [] o = o
prepend_all (c ∷ s) o = prepend c (prepend_all s o)

split_once_of_piece :
    (sep : ℕ) (p s rest : Text)
    → HasNone sep s
    → split_once (sep ∷ p) (s ++ rest) ≡ prepend_all s (split_once (sep ∷ p) rest)
unfolding prepend_all
split_once_of_piece sep p [] rest h = refl
split_once_of_piece sep p (c ∷ s) rest (hc, hs) =
    split_once_of_skip sep p (s ++ rest) c hc ∙ ap (prepend c) (split_once_of_piece sep p s rest hs)

prepend_all-some :
    (s before rest : Text) → prepend_all s (some (before, rest)) ≡ some (s ++ before, rest)
unfolding prepend_all
prepend_all-some [] before rest = refl
prepend_all-some (c ∷ s) before rest = ap (prepend c) (prepend_all-some s before rest)

starts_with-join :
    (sep : ℕ) (p s : Text) (parts : List Text) (rest : Text)
    → HasNone sep p
    → starts_with p (join (sep ∷ []) (s ∷ parts) ++ (sep ∷ rest)) ≡ starts_with p s
unfolding join
starts_with-join sep p s [] rest h = starts_with-append_sep sep p s rest h
starts_with-join sep p s (t ∷ parts) rest h =
    ap (starts_with p) (append_assoc s (sep ∷ join (sep ∷ []) (t ∷ parts)) (sep ∷ rest))
    ∙ starts_with-append_sep sep p s (join (sep ∷ []) (t ∷ parts) ++ (sep ∷ rest)) h

-- The first place of the pattern is behind the joined pieces, if it starts none of them.
pub split_once-join :
    (sep : ℕ) (p s : Text) (parts : List Text) (rest : Text)
    → HasNone sep p
    → All (HasNone sep) (s ∷ parts)
    → NoneStarts p parts
    → split_once (sep ∷ p) (join (sep ∷ []) (s ∷ parts) ++ (sep ∷ (p ++ rest)))
      ≡ some (join (sep ∷ []) (s ∷ parts), rest)
unfolding join
split_once-join sep p s [] rest hp (h, _) k =
    split_once_of_piece sep p s (sep ∷ (p ++ rest)) h
    ∙ ap (prepend_all s) (split_once_of_starts sep p rest)
    ∙ prepend_all-some s [] rest
    ∙ ap (λ t. some (t, rest)) (append-nil s)
split_once-join sep p s (t ∷ parts) rest hp (h, hs) (k, ks) =
    let later = join (sep ∷ []) (t ∷ parts) in
    ap (split_once (sep ∷ p)) (append_assoc s (sep ∷ later) (sep ∷ (p ++ rest)))
    ∙ split_once_of_piece sep p s (sep ∷ (later ++ (sep ∷ (p ++ rest)))) h
    ∙ ap (prepend_all s) (
        split_once_of_not sep p (later ++ (sep ∷ (p ++ rest)))
          (starts_with-join sep p t parts (p ++ rest) hp ∙ k)
        ∙ ap (prepend sep) (split_once-join sep p t parts rest hp hs ks))
    ∙ prepend_all-some s (sep ∷ later) rest

pub starts_with_shorter : (p s t : Text) → starts_with p (s ++ t) ≡ false → starts_with p s ≡ false
starts_with_shorter p s t h = elim (Bool-cases (starts_with p s)) [
  | inl e ↦ cc (sym (starts_with_longer p s t e) ∙ h)
  | inr e ↦ e
]

-- And in what stands before the first place of the pattern it starts no piece but the first.
first_piece :
    (sep : ℕ) (p s before after : Text)
    → starts_with p s ≡ false
    → s ≡ before ++ ((sep ∷ p) ++ after)
    → starts_with p (split_head sep before) ≡ false
first_piece sep p s before after h e = elim (Bool-cases (starts_with p (split_head sep before))) [
  | inl t ↦ cc (
      sym (starts_with_longer p before ((sep ∷ p) ++ after) (starts_with-split_head sep p before t))
      ∙ ap (starts_with p) (sym e)
      ∙ h)
  | inr t ↦ t
]

not_starts :
    (sep c : ℕ) (p s : Text)
    → strip_prefix (sep ∷ p) (c ∷ s) ≡ none
    → (c == sep) ≡ true
    → starts_with p s ≡ false
unfolding starts_with
not_starts sep c p s h e = ground arith

tail_of_sep :
    (sep c : ℕ) (p b : Text)
    → (c == sep) ≡ true
    → starts_with p (split_head sep b) ≡ false
    → NoneStarts p (split_tail sep b)
    → NoneStarts p (split_tail sep (c ∷ b))
unfolding split_tail
tail_of_sep sep c p b t h k = rw t (h, k)

tail_of_other :
    (sep c : ℕ) (p b : Text)
    → (c == sep) ≡ false
    → NoneStarts p (split_tail sep b)
    → NoneStarts p (split_tail sep (c ∷ b))
unfolding split_tail
tail_of_other sep c p b t k = rw t k

pub split_once-NoneStarts :
    (sep : ℕ) (p s before after : Text)
    → split_once (sep ∷ p) s ≡ some (before, after)
    → NoneStarts p (split_tail sep before)
unfolding split_once
split_once-NoneStarts sep p [] before after h = cc
split_once-NoneStarts sep p (c ∷ s) before after h =
    elim (Option-cases (strip_prefix (sep ∷ p) (c ∷ s))) [
      | inr (t, e) ↦
          let nothing : before ≡ [] = cc (rw (split_once, e) at h) in
          subst (λ b. NoneStarts p (split_tail sep b)) (sym nothing) (unfold split_tail in tt)
      | inl e ↦
          let (b, later, head) =
            prepend-eq-some c (split_once (sep ∷ p) s) before after (rw (split_once, e) at h) in
          let more = split_once-NoneStarts sep p s b after later in
          let cut = split_once-eq-some (sep ∷ p) s b after later in
          subst (λ t. NoneStarts p (split_tail sep t)) (sym head)
            (elim (Bool-cases (c == sep)) [
              | inl t ↦
                  tail_of_sep sep c p b t
                    (first_piece sep p s b after (not_starts sep c p s e t) cut) more
              | inr t ↦ tail_of_other sep c p b t more
            ])
    ]
