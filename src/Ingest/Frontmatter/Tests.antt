-- ===== src/Ingest/Frontmatter/Tests.antt =====
-- A page of two sources that loses one.
use qpedia.Prelude.{◌≡◌, refl, List, [], ◌∷◌, some, arith}
use qpedia.Text.{Text, codes, lines}
use qpedia.Retriever.Access.{frontmatter}
use qpedia.Ingest.Frontmatter.{extract_source_ids, remove_source_id_from_frontmatter}
use qpedia.Ingest.Frontmatter.Quoting.{IsPlain}
use qpedia.Ingest.Frontmatter.Lines.{count_ids_lines}
use qpedia.Ingest.Frontmatter.RoundTrip.{extract_source_ids-remove_source_id}

abbrev page : Text
page = codes "\n---\nid: cash\n  source_ids: [\"q4\", q3]\n---\n# Cash\n"

abbrev page' : Text
page' = codes "\n---\nid: cash\n  source_ids: [\"q3\"]\n---\n# Cash\n"

abbrev left : List Text
left = codes "q3" ∷ []

rewrites : remove_source_id_from_frontmatter page left ≡ page'
unfolding remove_source_id_from_frontmatter
rewrites = refl

q3-IsPlain : IsPlain (codes "q3")
q3-IsPlain = record {
  some_text = refl;
  no_comma = omega arith;
  no_quote = omega arith;
  no_apostrophe = omega arith;
  no_newline = omega arith;
}

fm_of_page : frontmatter page ≡ some (codes "\nid: cash\n  source_ids: [\"q4\", q3]")
unfolding frontmatter
fm_of_page = refl

extract_source_ids-remove_source_id_example :
    extract_source_ids (remove_source_id_from_frontmatter page left) ≡ left
unfolding lines count_ids_lines
extract_source_ids-remove_source_id_example =
    extract_source_ids-remove_source_id page (codes "\nid: cash\n  source_ids: [\"q4\", q3]") left
      (q3-IsPlain, tt) fm_of_page
