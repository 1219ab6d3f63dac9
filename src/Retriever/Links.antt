-- ===== src/Retriever/Links.antt =====
-- crates/qpedia-retriever/src/lib.rs, `extract_wikilinks`: the `[[links]]` of a page outside code.
pub mod Ends
use qpedia.Prelude.{
  ℕ, zero, suc, Bool, false, not, ◌&&◌, Option, none, some, List, [], ◌∷◌, ◌==◌, if◌then◌else◌,
  is_empty, length,
}
use qpedia.Text.{Text, codes, strip_prefix, split_once, trim, split_head}

-- Where the loop goes on after one round, and the link that it pushed.
pub data Round : Type 0 where
  stop : Round
  next : (pushed : List Text) (in_inline in_fence : Bool) (rest : Text) → Round

abbrev pub after_link : Option (Text × Text) → Round
after_link none = stop
after_link (some (target, rest)) =
    next (if is_empty (trim target) then [] else trim target ∷ []) false false rest

unfoldable pub round : Bool → Bool → Text → Round
unfolding strip_prefix split_once trim
round in_inline in_fence [] = stop
round in_inline in_fence (c ∷ s) =
    elim (if in_inline then none else strip_prefix (codes "```") (c ∷ s)) [
      | some rest ↦ next [] in_inline (not in_fence) rest
      | none ↦
          if not in_fence && c == b'`'
          then next [] (not in_inline) in_fence s
          else elim (if in_inline
              then none
              else if in_fence
              then none
              else strip_prefix (codes "[[") (c ∷ s)) [
                | some rest ↦ after_link (split_once (codes "]]") rest)
                | none ↦ next [] in_inline in_fence s
              ]
    ]

abbrev pub pushes : List Text → List Text → List Text
pushes [] later = later
pushes (x ∷ xs) later = x ∷ pushes xs later

unfoldable pub scan : ℕ → Bool → Bool → Text → List Text
unfolding round
scan zero in_inline in_fence s = []
scan (suc fuel) in_inline in_fence s = elim (round in_inline in_fence s) [
  | stop ↦ []
  | next pushed in_inline' in_fence' rest ↦ pushes pushed (scan fuel in_inline' in_fence' rest)
]

-- Each round takes a character at least.
unfoldable pub extract_wikilinks : Text → List Text
unfolding scan
extract_wikilinks content = scan (length content) false false content

-- `t.split('#').next()`
unfoldable pub path_only : Text → Text
unfolding split_head
path_only = split_head b'#'
