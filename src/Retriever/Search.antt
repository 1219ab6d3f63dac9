-- ===== src/Retriever/Search.antt =====
-- crates/qpedia-retriever/src/lib.rs, `do_search` and `rerank_hits`.
use qpedia.Prelude.{
  ℕ, max, Option, none, some, List, [], ◌∷◌, leb, ◌==◌, if◌then◌else◌, take, length,
}
use qpedia.Text.{Text}

pub record SearchHit : Type 0 where
  pub path : Text
  pub title : Text
  pub snippet : Text

-- What the hybrid search of the database answers.
pub data Hybrid : Type 0 where
  embed_failed query_failed : Hybrid
  rows : List SearchHit → Hybrid

-- The services that a search uses. There is no hybrid search without an embedder. Scores are only
-- compared; a score that is not a number is not modelled.
pub record Services : Type 0 where
  pub hybrid_search : Option (Text → ℕ → Hybrid)
  pub search_text : Text → ℕ → Option (List SearchHit)
  pub scores : Text → List SearchHit → Option (List ℕ)

abbrev pub rerank_pool : ℕ
rerank_pool = 30

-- A stable sort with the best score first.
unfoldable pub insert_scored : ℕ × SearchHit → List (ℕ × SearchHit) → List (ℕ × SearchHit)
insert_scored x [] = x ∷ []
insert_scored (s, h) ((t, g) ∷ xs) =
    let later = insert_scored (s, h) xs in if leb t s then (s, h) ∷ (t, g) ∷ xs else (t, g) ∷ later

unfoldable pub sort_scored : List ℕ → List SearchHit → List (ℕ × SearchHit)
unfolding insert_scored
sort_scored (s ∷ scores) (h ∷ hits) = insert_scored (s, h) (sort_scored scores hits)
sort_scored _ _ = []

abbrev pub hits_of : List (ℕ × SearchHit) → List SearchHit
hits_of [] = []
hits_of ((s, h) ∷ xs) = h ∷ hits_of xs

by_scores : ℕ → List SearchHit → Option (List ℕ) → List SearchHit
unfolding sort_scored
by_scores k hits none = take k hits
by_scores k hits (some scores) =
    if length scores == length hits then take k (hits_of (sort_scored scores hits)) else take k hits

unfoldable pub rerank_hits : Services → Text → List SearchHit → ℕ → List SearchHit
unfolding by_scores
rerank_hits services query hits k =
    if leb (length hits) 1 then take k hits else by_scores k hits (services.scores query hits)

fallback : Services → Text → ℕ → Option (List SearchHit)
unfolding rerank_hits
fallback services query k = elim (services.search_text query (max k rerank_pool)) [
  | none ↦ none
  | some hits ↦ some (rerank_hits services query hits k)
]

from_hybrid : Services → Text → ℕ → Hybrid → Option (List SearchHit)
unfolding rerank_hits fallback
from_hybrid services query k embed_failed = none
from_hybrid services query k query_failed = fallback services query k
from_hybrid services query k (rows []) = fallback services query k
from_hybrid services query k (rows (h ∷ hits)) = some (rerank_hits services query (h ∷ hits) k)

unfoldable pub do_search : Services → Text → ℕ → Option (List SearchHit)
unfolding fallback from_hybrid
do_search services query k = elim services.hybrid_search [
  | none ↦ fallback services query k
  | some search ↦ from_hybrid services query k (search query (max k rerank_pool))
]
