-- ===== src/Retriever/Links/Ends.antt =====
-- crates/qpedia-retriever/src/lib.rs, `extract_wikilinks`: the loop without a bound on its rounds.
use qpedia.Prelude.{
  ℕ, zero, suc, ◌<◌, ◌≤◌, ◌≡◌, refl, ap, ◌∙◌, subst, ◌⊎◌, All-map, Bool, true, false, Bool-cases,
  inl, inr, some, Option-cases, List, [], ◌∷◌, ◌++◌, length, length-append, if◌then◌else◌, ◌==◌,
  is_empty, All, arith,
}
use qpedia.Text.{Text, codes, strip_prefix, split_once, trim}
use qpedia.Text.Pieces.{strip_prefix-eq-some, split_once-eq-some}
use qpedia.Text.Brackets.{IsLinkIn, IsLinkIn-later, regroup}
use qpedia.Retriever.Links.{Round, stop, next, after_link, round, pushes, scan, extract_wikilinks}

-- The rounds of the loop from a state on, up to the one in which it ends, and what they push.
pub data Scans : Bool → Bool → Text → List Text → Type 0 where
  ends : {a b : Bool} → {s : Text} → round a b s ≡ stop → Scans a b s []
  goes_on :
      {a b a' b' : Bool}
      → {s rest : Text} → {pushed links : List Text} → round a b s ≡ next pushed a' b' rest
      → Scans a' b' rest links
      → Scans a b s (pushes pushed links)

-- A link that is more than white space.
abbrev pub IsProperIn : Text → Text → Type 0
IsProperIn s link = IsLinkIn s link × (is_empty link ≡ false)

-- A round that goes on has read something, and pushes only a link that stands there.
Reads : Text → Round → Type 0
Reads s stop = Unit {0}
Reads s (next pushed a b rest) =
    (read : Text) × (s ≡ read ++ rest) × (0 < length read) × All (IsProperIn s) pushed

Reads-one : (a b : Bool) (c : ℕ) (s : Text) → Reads (c ∷ s) (next [] a b s)
unfolding Reads
Reads-one a b c s = (c ∷ [], refl, omega arith, tt)

Reads-fence :
    (a b : Bool) (s rest : Text)
    → strip_prefix (codes "```") s ≡ some rest
    → Reads s (next [] a b rest)
unfolding Reads
Reads-fence a b s rest h =
    (codes "```", strip_prefix-eq-some (codes "```") s rest h, omega arith, tt)

-- A link with its brackets, at the start of a text.
bracketed_link :
    (s rest inside after : Text)
    → s ≡ codes "[[" ++ rest
    → rest ≡ inside ++ (codes "]]" ++ after)
    → s ≡ codes "[[" ++ (inside ++ (codes "]]" ++ after))
bracketed_link s rest inside after h k = h ∙ ap (λ t. codes "[[" ++ t) k

read_link :
    (s inside after : Text)
    → s ≡ codes "[[" ++ (inside ++ (codes "]]" ++ after))
    → (b : Bool) → is_empty (trim inside) ≡ b
    → Reads s (next (if b then [] else trim inside ∷ []) false false after)
unfolding Reads
read_link s inside after h true e =
    (codes "[[" ++ (inside ++ codes "]]"), h ∙ regroup [] inside after, omega arith, tt)
read_link s inside after h false e = (
  codes "[[" ++ (inside ++ codes "]]"),
  h ∙ regroup [] inside after,
  omega arith,
  ((record { before = []; inside = inside; after = after; bracketed = h; trimmed = refl }, e), tt),
)

after_link-Reads :
    (s rest : Text)
    → strip_prefix (codes "[[") s ≡ some rest
    → Reads s (after_link (split_once (codes "]]") rest))
unfolding Reads
after_link-Reads s rest h = elim (Option-cases (split_once (codes "]]") rest)) [
  | inl e ↦ rw e tt
  | inr ((inside, after), e) ↦ rw e (
      read_link s inside after
        (bracketed_link s rest inside after (strip_prefix-eq-some (codes "[[") s rest h)
          (split_once-eq-some (codes "]]") rest inside after e))
        (is_empty (trim inside)) refl)
]

round-Reads : (a b : Bool) (s : Text) → Reads s (round a b s)
unfolding round Reads
round-Reads a b [] = tt
round-Reads true true (c ∷ s) = Reads-one true true c s
round-Reads true false (c ∷ s) = elim (Bool-cases (c == b'`')) [
  | inl e ↦ rw (round, e) (Reads-one false false c s)
  | inr e ↦ rw (round, e) (Reads-one true false c s)
]
round-Reads false true (c ∷ s) = elim (Option-cases (strip_prefix (codes "```") (c ∷ s))) [
  | inl e ↦ rw (round, e) (Reads-one false true c s)
  | inr (rest, e) ↦ rw (round, e) (Reads-fence false false (c ∷ s) rest e)
]
round-Reads false false (c ∷ s) = elim (Option-cases (strip_prefix (codes "```") (c ∷ s))) [
  | inl e ↦ elim (Bool-cases (c == b'`')) [
    | inl t ↦ rw (round, e, t) (Reads-one true false c s)
    | inr t ↦ elim (Option-cases (strip_prefix (codes "[[") (c ∷ s))) [
      | inl none_here ↦ rw (round, e, t, none_here) (Reads-one false false c s)
      | inr (rest, here) ↦ rw (round, e, t, here) (after_link-Reads (c ∷ s) rest here)
    ]
  ]
  | inr (rest, e) ↦ rw (round, e) (Reads-fence false true (c ∷ s) rest e)
]

Round-cases :
    (r : Round)
    → (r ≡ stop)
      ⊎ ((pushed : List Text) × (a : Bool) × (b : Bool) × (rest : Text) × (r
            ≡ next pushed a b rest))
Round-cases stop = inl refl
Round-cases (next pushed a b rest) = inr (pushed, a, b, rest, refl)

Reads-at : (a b : Bool) (s : Text) (r : Round) → round a b s ≡ r → Reads s r
Reads-at a b s r e = subst (λ q. Reads s q) e (round-Reads a b s)

shorter :
    (s rest : Text) (pushed : List Text) (a b : Bool)
    → Reads s (next pushed a b rest)
    → length rest < length s
unfolding Reads
shorter s rest pushed a b (read, e, some_read, links) =
    omega (arith, ap length e, length-append read rest, some_read)

-- With as much fuel as there are characters left the scan sees the end of the loop.
scan-Scans : (fuel : ℕ) (a b : Bool) (s : Text) → length s ≤ fuel → Scans a b s (scan fuel a b s)
unfolding scan round
scan-Scans zero a b [] h = ends refl
scan-Scans zero a b (c ∷ s) h = ground (arith, h)
scan-Scans (suc fuel) a b s h = elim (Round-cases (round a b s)) [
  | inl e ↦ rw (scan, e) (ends e)
  | inr (pushed, a', b', rest, e) ↦
      rw (scan, e)
        (goes_on e (
          scan-Scans fuel a' b' rest (
            omega
              (arith, h, shorter s rest pushed a' b' (Reads-at a b s (next pushed a' b' rest) e)))))
]

All-pushes :
    (s : Text) (pushed links : List Text)
    → All (IsProperIn s) pushed
    → All (IsProperIn s) links
    → All (IsProperIn s) (pushes pushed links)
All-pushes s [] links h k = k
All-pushes s (x ∷ pushed) links (p, h) k = (p, All-pushes s pushed links h k)

Scans-IsProperIn :
    {a b : Bool} → {s : Text} → {links : List Text} → Scans a b s links → All (IsProperIn s) links
unfolding Reads
Scans-IsProperIn (ends e) = tt
Scans-IsProperIn {a} {b} {s}
      (goes_on {a' = a'} {b' = b'} {rest = rest} {pushed = pushed} {links = links} e more) =
    let (read, cut, some_read, here) = Reads-at a b s (next pushed a' b' rest) e in
    All-pushes s pushed links here (
      All-map (λ link (l, proper). (IsLinkIn-later s read rest cut link l, proper)) links
        (Scans-IsProperIn more))

-- The loop over the characters of a page comes to its end, whatever the page has in it, and the links
-- that are returned are those that its rounds push, in their order. Each of them is what stands between
-- two brackets of the page on either side, without the white space around it, and is not empty.
pub extract_wikilinks-Scans :
    (content : Text)
    → Scans false false content (extract_wikilinks content)
      × All (IsProperIn content) (extract_wikilinks content)
unfolding extract_wikilinks
extract_wikilinks-Scans content =
    let scanned = scan-Scans (length content) false false content (omega arith) in
    (scanned, Scans-IsProperIn scanned)
