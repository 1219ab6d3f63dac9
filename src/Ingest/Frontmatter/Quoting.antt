-- ===== src/Ingest/Frontmatter/Quoting.antt =====
-- The list of identifiers that a rewritten line holds, read back.
use qpedia.Prelude.{
  ℕ, ◌≡◌, ◌≢◌, refl, sym, ap, ◌∙◌, Bool, true, false, List, [], ◌∷◌, ◌++◌, append_assoc, map, arith,
  ◌==◌, is_empty, All, All-map,
}
use qpedia.Text.{
  Text, codes, newline, is_whitespace, join, split, trim, trim_start_by, trim_end_by, trim_matches,
}
use qpedia.Text.Split.{HasNone}
use qpedia.Text.Joined.{split-append, split_of_HasNone, trim_end_by-append}
use qpedia.Retriever.Access.{names_in, listed}
use qpedia.Ingest.Frontmatter.{quoted, ids_line}

-- An identifier that a list in a line can hold: some text without comma, quote or newline. A slug is.
pub record IsPlain (s : Text) : Type 0 where
  pub some_text : is_empty s ≡ false
  pub no_comma : HasNone b',' s
  pub no_quote : HasNone b'"' s
  pub no_apostrophe : HasNone b'\'' s
  pub no_newline : HasNone newline s

pub HasNone-append : (sep : ℕ) (s t : Text) → HasNone sep s → HasNone sep t → HasNone sep (s ++ t)
HasNone-append sep [] t h k = k
HasNone-append sep (c ∷ s) t (hc, h) k = (hc, HasNone-append sep s t h k)

trim_end_by_last :
    (ch : ℕ) (s : Text) → HasNone ch s → trim_end_by (λ c. c == ch) (s ++ ch ∷ []) ≡ s
unfolding trim_end_by
trim_end_by_last ch [] h = ground arith
trim_end_by_last ch (c ∷ s) (hc, h) = ground (arith, trim_end_by_last ch s h)

trim_end_by_none : (ch : ℕ) (s : Text) → HasNone ch s → trim_end_by (λ c. c == ch) s ≡ s
unfolding trim_end_by
trim_end_by_none ch [] h = refl
trim_end_by_none ch (c ∷ s) (hc, h) = ground (arith, trim_end_by_none ch s h)

trim_start_by_none :
    (ch : ℕ) (s t : Text)
    → is_empty s ≡ false
    → HasNone ch s
    → trim_start_by (λ c. c == ch) (s ++ t) ≡ s ++ t
unfolding trim_start_by
trim_start_by_none ch [] t e h = cc
trim_start_by_none ch (c ∷ s) t e (hc, h) = ground arith

trim_start_by_self :
    (ch : ℕ) (s : Text) → is_empty s ≡ false → HasNone ch s → trim_start_by (λ c. c == ch) s ≡ s
unfolding trim_start_by
trim_start_by_self ch [] e h = cc
trim_start_by_self ch (c ∷ s) e (hc, h) = ground arith

trim-quoted : (s : Text) → trim (quoted s) ≡ quoted s
unfolding trim
trim-quoted s = trim_end_by-append (λ c. is_whitespace c) (b'"' ∷ s) b'"' refl

trim_space : (s : Text) → trim (32 ∷ s) ≡ trim s
unfolding trim
trim_space s = refl

unquoted : (s : Text) → IsPlain s → trim_matches b'\'' (trim_matches b'"' (quoted s)) ≡ s
unfolding trim_matches
unquoted s plain =
    rw
      (
        trim_start_by_none b'"' s (codes "\"") plain.some_text plain.no_quote,
        trim_end_by_last b'"' s plain.no_quote,
        trim_start_by_self b'\'' s plain.some_text plain.no_apostrophe,
      )
      (trim_end_by_none b'\'' s plain.no_apostrophe)

names_in-quoted :
    (s : Text) (pieces : List Text) (piece : Text)
    → IsPlain s
    → trim piece ≡ quoted s
    → names_in (piece ∷ pieces) ≡ s ∷ names_in pieces
unfolding names_in
names_in-quoted s pieces piece plain h = rw (h, unquoted s plain, plain.some_text)

names_in_spaced :
    (ids : List Text)
    → All IsPlain ids
    → names_in (map (λ q. 32 ∷ q) (map (λ s. quoted s) ids)) ≡ ids
unfolding names_in
names_in_spaced [] h = refl
names_in_spaced (s ∷ ids) (plain, h) =
    names_in-quoted s (map (λ q. 32 ∷ q) (map (λ s. quoted s) ids)) (32 ∷ quoted s) plain
      (trim_space (quoted s) ∙ trim-quoted s)
    ∙ ap (◌∷◌ s) (names_in_spaced ids h)

join_spaced :
    (q : Text) (qs : List Text)
    → 32 ∷ join (codes ", ") (q ∷ qs) ≡ join (codes ", ") ((32 ∷ q) ∷ qs)
unfolding join
join_spaced q [] = refl
join_spaced q (r ∷ qs) = refl

split-join_spaced :
    (q : Text) (qs : List Text)
    → HasNone b',' q
    → All (HasNone b',') qs
    → split b',' (join (codes ", ") (q ∷ qs)) ≡ q ∷ map (λ q. 32 ∷ q) qs
unfolding join
split-join_spaced q [] h k = split_of_HasNone b',' q h
split-join_spaced q (r ∷ qs) h (k, ks) =
    split-append b',' q (32 ∷ join (codes ", ") (r ∷ qs)) h
    ∙ ap (◌∷◌ q)
        (ap (split b',') (join_spaced r qs) ∙ split-join_spaced (32 ∷ r) qs (omega arith, k) ks)

quoted-HasNone : (sep : ℕ) (s : Text) → b'"' ≢ sep → HasNone sep s → HasNone sep (quoted s)
quoted-HasNone sep s h k = (h, HasNone-append sep s (codes "\"") k (h, tt))

All_quoted :
    (sep : ℕ) (ids : List Text)
    → b'"' ≢ sep
    → All (HasNone sep) ids
    → All (HasNone sep) (map (λ s. quoted s) ids)
All_quoted sep [] h k = tt
All_quoted sep (s ∷ ids) h (k, ks) = (quoted-HasNone sep s h k, All_quoted sep ids h ks)

-- The identifiers without the bracket at either end.
abbrev pub id_list : List Text → Text
id_list ids = join (codes ", ") (map (λ s. quoted s) ids)

names_in-split : (ids : List Text) → All IsPlain ids → names_in (split b',' (id_list ids)) ≡ ids
names_in-split [] h = unfold join split names_in trim trim_matches in refl
names_in-split (s ∷ ids) (plain, h) =
    let others = map (λ s. quoted s) ids in
    ap names_in (
      split-join_spaced (quoted s) others (quoted-HasNone b',' s (omega arith) plain.no_comma)
        (All_quoted b',' ids (omega arith) (All-map (λ s p. p.no_comma) ids h)))
    ∙ names_in-quoted s (map (λ q. 32 ∷ q) others) (quoted s) plain (trim-quoted s)
    ∙ ap (◌∷◌ s) (names_in_spaced ids h)

-- What is between the brackets ends with a quote, if it is something.
id_list-end : (s : Text) (ids : List Text) → (t : Text) × (id_list (s ∷ ids) ≡ t ++ codes "\"")
unfolding join
id_list-end s [] = (b'"' ∷ s, refl)
id_list-end s (r ∷ ids) =
    let (t, e) = id_list-end r ids in
    (
      quoted s ++ (codes ", " ++ t),
      ap (λ x. quoted s ++ (codes ", " ++ x)) e
          ∙ sym (append_assoc (quoted s) (codes ", " ++ t) (codes "\"")),
    )

trim_end_by-snoc :
    (p : ℕ → Bool) (s : Text) (c : ℕ) → p c ≡ true → trim_end_by p (s ++ c ∷ []) ≡ trim_end_by p s
unfolding trim_end_by
trim_end_by-snoc p [] c h = rw h
trim_end_by-snoc p (d ∷ s) c h = rw (trim_end_by-snoc p s c h)

id_list-start :
    (s : Text) (ids : List Text) (t : Text)
    → trim_start_by (λ c. c == b'[') (id_list (s ∷ ids) ++ t) ≡ id_list (s ∷ ids) ++ t
unfolding join trim_start_by
id_list-start s [] t = refl
id_list-start s (r ∷ ids) t = refl

trim_list : (x : Text) → trim (codes " [" ++ (x ++ codes "]")) ≡ b'[' ∷ (x ++ codes "]")
unfolding trim
trim_list x = trim_end_by-append (λ c. is_whitespace c) (b'[' ∷ x) b']' refl

unbracketed : Text → Text
unbracketed rest = trim_end_by (λ c. c == b']') (trim_start_by (λ c. c == b'[') (trim rest))

trim_bracket :
    (t : Text) → trim_start_by (λ c. c == b'[') (b'[' ∷ t) ≡ trim_start_by (λ c. c == b'[') t
unfolding trim_start_by
trim_bracket t = refl

unbracketed-id_list :
    (ids : List Text) → unbracketed (codes " [" ++ (id_list ids ++ codes "]")) ≡ id_list ids
unfolding unbracketed
unbracketed-id_list [] = unfold join trim trim_start_by trim_end_by in refl
unbracketed-id_list (s ∷ ids) =
    let (t, e) = id_list-end s ids in
    rw
      (
        trim_list (id_list (s ∷ ids)),
        trim_bracket,
        id_list-start s ids (codes "]"),
        trim_end_by-snoc (λ c. c == b']') (id_list (s ∷ ids)) b']' refl,
      )
      (rw e (trim_end_by-append (λ c. c == b']') t b'"' refl))

listed_lem : (rest : Text) → listed rest ≡ names_in (split b',' (unbracketed rest))
unfolding listed unbracketed
listed_lem rest = refl

pub listed-id_list :
    (ids : List Text) → All IsPlain ids → listed (codes " [" ++ (id_list ids ++ codes "]")) ≡ ids
listed-id_list ids h =
    listed_lem (codes " [" ++ (id_list ids ++ codes "]"))
    ∙ ap (λ x. names_in (split b',' x)) (unbracketed-id_list ids)
    ∙ names_in-split ids h

join-HasNone :
    (sep : ℕ) (between : Text) (parts : List Text)
    → HasNone sep between
    → All (HasNone sep) parts
    → HasNone sep (join between parts)
unfolding join
join-HasNone sep between [] h k = tt
join-HasNone sep between (s ∷ []) h (k, _) = k
join-HasNone sep between (s ∷ t ∷ parts) h (k, ks) =
    HasNone-append sep s (between ++ join between (t ∷ parts)) k (
      HasNone-append sep between (join between (t ∷ parts)) h
        (join-HasNone sep between (t ∷ parts) h ks))

pub ids_line-HasNone : (ids : List Text) → All IsPlain ids → HasNone newline (ids_line ids)
unfolding ids_line
ids_line-HasNone ids h =
    HasNone-append newline (codes "source_ids: [") (id_list ids ++ codes "]") (omega arith) (
      HasNone-append newline (id_list ids) (codes "]")
        (join-HasNone newline (codes ", ") (map (λ s. quoted s) ids) (omega arith)
          (All_quoted newline ids (omega arith) (All-map (λ s p. p.no_newline) ids h)))
        (omega arith))
