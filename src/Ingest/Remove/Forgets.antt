-- ===== src/Ingest/Remove/Forgets.antt =====
-- The pages of the wiki after a remove job, and the source that it removed.
use qpedia.Prelude.{
  ℕ, zero, suc, max, ◌≡◌, refl, sym, ap, subst, ◌∙◌, inl, inr, true, false, none, some, List, [],
  ◌∷◌, ◌++◌, arith, is_empty, All, ok, Bool-cases, Option-cases,
}
use qpedia.Text.{Text, text_eq, contains_text, lines}
use qpedia.Store.WikiRepo.{FilePath, read_file}
use qpedia.Retriever.Access.{frontmatter, parse_source_ids}
use qpedia.Ingest.Frontmatter.{extract_source_ids, remove_source_id_from_frontmatter}
use qpedia.Ingest.Frontmatter.Quoting.{IsPlain}
use qpedia.Ingest.Frontmatter.Lines.{copies, count_ids_lines}
use qpedia.Ingest.Frontmatter.RoundTrip.{extract_source_ids-remove_source_id}
use qpedia.Ingest.Remove.{without, RemoveEnv, RemoveState, run}
use qpedia.Ingest.Remove.Fated.{fate}
use qpedia.Ingest.Remove.Settled.{IsWikiPage, fate_of}
use qpedia.Ingest.Remove.Removed.{run-IsRemoved}

contains_text-without : (x : Text) (ids : List Text) → contains_text (without x ids) x ≡ false
unfolding contains_text without
contains_text-without x [] = refl
contains_text-without x (s ∷ ids) = elim (Bool-cases (text_eq x s)) [
  | inl e ↦ rw e (contains_text-without x ids)
  | inr e ↦ rw (e, e) (contains_text-without x ids)
]

contains_text-append :
    (x : Text) (s t : List Text)
    → contains_text s x ≡ false
    → contains_text t x ≡ false
    → contains_text (s ++ t) x ≡ false
unfolding contains_text
contains_text-append x [] t h k = k
contains_text-append x (y ∷ s) t h k = ground (arith, contains_text-append x s t)

contains_text-copies :
    (x : Text) (n : ℕ) (ids : List Text)
    → contains_text ids x ≡ false
    → contains_text (copies n ids) x ≡ false
contains_text-copies x zero ids h = unfold contains_text in refl
contains_text-copies x (suc n) ids h =
    contains_text-append x ids (copies n ids) h (contains_text-copies x n ids h)

All-without : (P : Text → Type 0) (x : Text) (ids : List Text) → All P ids → All P (without x ids)
unfolding without
All-without P x [] h = tt
All-without P x (s ∷ ids) (h, hs) = elim (Bool-cases (text_eq x s)) [
  | inl e ↦ rw e (All-without P x ids hs)
  | inr e ↦ rw e (h, All-without P x ids hs)
]

no_frontmatter-extract_source_ids : (c : Text) → frontmatter c ≡ none → extract_source_ids c ≡ []
unfolding extract_source_ids parse_source_ids
no_frontmatter-extract_source_ids c h = rw (parse_source_ids, h)

module _ (source_id : Text) where
  rewritten :
      (c : Text)
      → All IsPlain (extract_source_ids c)
      → contains_text (extract_source_ids c) source_id ≡ true
      → contains_text
          (extract_source_ids
            (remove_source_id_from_frontmatter c (without source_id (extract_source_ids c))))
          source_id
        ≡ false
  unfolding contains_text
  rewritten c plain lists = elim (Option-cases (frontmatter c)) [
    | inl e ↦
        cc (sym lists ∙ ap (λ x. contains_text x source_id) (no_frontmatter-extract_source_ids c e))
    | inr (fm, e) ↦
        let others = without source_id (extract_source_ids c) in
        ap (λ x. contains_text x source_id)
          (extract_source_ids-remove_source_id c fm others
            (All-without IsPlain source_id (extract_source_ids c) plain) e)
        ∙ contains_text-copies source_id (max 1 (count_ids_lines (lines fm))) others
            (contains_text-without source_id (extract_source_ids c))
  ]

  fate-forgets :
      (c content : Text)
      → All IsPlain (extract_source_ids c)
      → fate source_id c ≡ some content
      → contains_text (extract_source_ids content) source_id ≡ false
  unfolding fate
  fate-forgets c content plain h =
      elim (Bool-cases (contains_text (extract_source_ids c) source_id)) [
        | inr e ↦
            let same : c ≡ content = cc (rw (fate, e) at h) in
            subst (λ x. contains_text (extract_source_ids x) source_id ≡ false) same e
        | inl e ↦ elim (Bool-cases (is_empty (without source_id (extract_source_ids c)))) [
          | inl k ↦ cc (rw (fate, e, k) at h)
          | inr k ↦
              let same : remove_source_id_from_frontmatter c
                    (without source_id (extract_source_ids c))
                  ≡ content =
                cc (rw (fate, e, k) at h) in
              subst (λ x. contains_text (extract_source_ids x) source_id ≡ false) same
                (rewritten c plain e)
        ]
      ]

  -- After a remove job that succeeds, for a source that had a row, no page that is in the list of pages
  -- and is not a system page (index.md, log.md, QPEDIA.md and what lies in _meta) lists the source any
  -- more. The identifiers that the page listed before are some text each, without comma, quote,
  -- apostrophe or newline, as slugs are.
  pub run-forgets :
      (env : RemoveEnv) (st st' : RemoveState) (p : FilePath) (content : Text)
      → contains_text st.sources source_id ≡ true
      → ((c : Text) → read_file p st.repo.tree ≡ some c → All IsPlain (extract_source_ids c))
      → run env source_id st ≡ (st', ok tt)
      → IsWikiPage p
      → read_file p st'.repo.tree ≡ some content
      → contains_text (extract_source_ids content) source_id ≡ false
  run-forgets env st st' p content row plain h page found =
      let e = sym ((run-IsRemoved env source_id st st' row h).pages p page) ∙ found in
      elim (Option-cases (read_file p st.repo.tree)) [
        | inl k ↦ cc (ap (fate_of source_id) (sym k) ∙ e)
        | inr (c, k) ↦ fate-forgets c content (plain c k) (ap (fate_of source_id) (sym k) ∙ e)
      ]
