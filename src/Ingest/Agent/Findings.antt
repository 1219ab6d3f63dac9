-- ===== src/Ingest/Agent/Findings.antt =====
-- Where the agent's tools do not agree with what is committed in the end.
use qpedia.Prelude.{
  ◌≤◌, ltb, sym, subst, true, false, Result-cases, ok-injective, append_assoc, ◌>>=◌, ℕ, ◌+◌, ◌*◌,
  ◌<◌, ◌≡◌, refl, ap, ◌∙◌, inl, inr, Bool-cases, lt→ltb, none, some, List, [], ◌∷◌, ◌++◌, arith, ok,
  err,
}
use qpedia.Text.{Text, codes, text_eq, contains_text, byte_len, strip_prefix, trim_start}
use qpedia.Text.Laws.{byte_len-append}
use qpedia.Core.Wiki.{DiffOp, create, patch, delete, link, DiffBundle}
use qpedia.Llm.{Argument}
use qpedia.Store.WikiRepo.{
  Repo, CommitError, Faults, page_too_large, check_write, check_op, check_ops, commit_bundle,
  after_check, read_page, join_path, safe_join,
}
use qpedia.Ingest.Tools.{
  StagedOps, Stamp, staged_page, read_staged, stage_patch, fresh_frontmatter,
  ensure_frontmatter_id_and_timestamps, max_page_bytes, require_str, argument_or_empty, check_path,
  check_page_size, is_taken, stage_new, propose_new, propose_patch, is_known, wiki_page, is_some,
  system_owned,
}

staged_page-append :
    (path : Text) (ops more : List DiffOp) (s : Text)
    → staged_page path ops ≡ some s
    → staged_page path (ops ++ more) ≡ some s
unfolding staged_page
staged_page-append path [] more s h = cc
staged_page-append path (create p content rationale ∷ ops) more s h =
    elim (Bool-cases (text_eq p path)) [
      | inl e ↦ rw e (rw (e, staged_page) at h)
      | inr e ↦ rw e (staged_page-append path ops more s (rw (e, staged_page) at h))
    ]
staged_page-append path (patch p content rationale ∷ ops) more s h =
    elim (Bool-cases (text_eq p path)) [
      | inl e ↦ rw e (rw (e, staged_page) at h)
      | inr e ↦ rw e (staged_page-append path ops more s (rw (e, staged_page) at h))
    ]
staged_page-append path (delete p rationale ∷ ops) more s h = staged_page-append path ops more s h
staged_page-append path (link from to kind ∷ ops) more s h = staged_page-append path ops more s h

-- A page that is already staged is read back as it was staged first: a later `propose_patch` of it is
-- not seen by `read_page`, whatever it writes.
pub read_staged-stage_patch :
    (wiki : Repo) (path content new_content rationale : Text) (staged : StagedOps)
    → staged_page path staged.ops ≡ some content
    → read_staged wiki path (stage_patch wiki path new_content rationale staged).ops ≡ ok content
unfolding read_staged stage_patch
read_staged-stage_patch wiki path content new_content rationale staged h =
    rw
      (
        read_staged,
        staged_page-append path staged.ops (patch path new_content rationale ∷ []) content h,
      )
      refl

fresh_frontmatter-byte_len :
    (stamp : Stamp) (content : Text)
    → byte_len (fresh_frontmatter stamp content)
      ≡ 39 + byte_len stamp.id + 2 * byte_len stamp.now + byte_len content
unfolding fresh_frontmatter byte_len
fresh_frontmatter-byte_len stamp content =
    let l1 = byte_len-append stamp.id (
      (10 ∷ codes "created_at: ")
      ++ (stamp.now
          ++ ((10 ∷ codes "updated_at: ")
              ++ (stamp.now ++ ((10 ∷ codes "---") ++ (10 ∷ content)))))) in
    let l2 =
      byte_len-append stamp.now
        ((10 ∷ codes "updated_at: ") ++ (stamp.now ++ ((10 ∷ codes "---") ++ (10 ∷ content)))) in
    let l3 = byte_len-append stamp.now ((10 ∷ codes "---") ++ (10 ∷ content)) in
    omega (arith, l1, l2, l3)

ensure_frontmatter_of_bare :
    (stamp : Stamp) (content : Text)
    → strip_prefix (codes "---") (trim_start content) ≡ none
    → ensure_frontmatter_id_and_timestamps stamp content ≡ fresh_frontmatter stamp content
unfolding ensure_frontmatter_id_and_timestamps
ensure_frontmatter_of_bare stamp content bare = rw (ensure_frontmatter_id_and_timestamps, bare) refl

check_write_of_large :
    (path content : Text) (total n : ℕ)
    → byte_len content ≡ n
    → max_page_bytes < n
    → check_write path content total ≡ err (page_too_large path n)
unfolding check_write
check_write_of_large path content total n e large =
    rw (check_write, e, lt→ltb max_page_bytes n large) refl

check_op-stage_new :
    (stamp : Stamp) (path content rationale : Text) (total : ℕ)
    → strip_prefix (codes "---") (trim_start content) ≡ none
    → max_page_bytes < 39 + byte_len stamp.id + 2 * byte_len stamp.now + byte_len content
    → check_op (create path (ensure_frontmatter_id_and_timestamps stamp content) rationale) total
      ≡ err
          (page_too_large path (39 + byte_len stamp.id + 2 * byte_len stamp.now + byte_len content))
unfolding check_op
check_op-stage_new stamp path content rationale total bare large =
    check_write_of_large path (ensure_frontmatter_id_and_timestamps stamp content) total _
      (ap (λ (s : Text). byte_len s) (ensure_frontmatter_of_bare stamp content bare)
        ∙ fresh_frontmatter-byte_len stamp content)
      large

-- An operation that no count of bytes before it saves.
check_ops_of_bad :
    (op : DiffOp) (earlier later : List DiffOp) (total : ℕ)
    → ((n : ℕ) → (e : CommitError) × (check_op op n ≡ err e))
    → (e : CommitError) × (check_ops (earlier ++ op ∷ later) total ≡ err e)
unfolding check_ops
check_ops_of_bad op [] later total bad = let (e, h) = bad total in (e, rw h refl)
check_ops_of_bad op (o ∷ earlier) later total bad = elim (Result-cases (check_op o total)) [
  | inl (n, h) ↦ let (e, k) = check_ops_of_bad op earlier later n bad in (e, rw h k)
  | inr (e, h) ↦ (e, rw h refl)
]

commit_bundle_of_bad :
    (faults : Faults) (bundle : DiffBundle) (r : Repo) (e : CommitError)
    → check_ops bundle.operations 0 ≡ err e
    → commit_bundle faults bundle r ≡ (r, err e)
unfolding commit_bundle after_check
commit_bundle_of_bad faults bundle r e h = rw h refl

fits_check :
    (path content : Text) → byte_len content ≤ max_page_bytes → check_page_size path content ≡ ok tt
unfolding check_page_size
fits_check path content fits = rw (not_over (byte_len content) fits) refl
  where
    not_over : (n : ℕ) → n ≤ max_page_bytes → ltb max_page_bytes n ≡ false
    not_over n h = ground arith

-- `propose_new` accepts and stages a page without frontmatter, under a path that it allows and that is not
-- taken, if the page is within its limit of 50 KB, also if the 39 bytes, the identifier and twice the time that it adds take the page over 50 KB. Then
-- `commit_bundle` rejects every bundle with what is staged, whatever was staged before and after the
-- page, and leaves the wiki as it is.
pub commit_bundle-propose_new :
    (wiki r : Repo) (faults : Faults) (stamp : Stamp) (args : List (Text × Argument))
    (staged : StagedOps) (path content ingest_id summary : Text) (later : List DiffOp)
    → require_str args (codes "path") ≡ ok path
    → require_str args (codes "content") ≡ ok content
    → check_path path ≡ ok tt
    → is_taken wiki path staged ≡ ok false
    → strip_prefix (codes "---") (trim_start content) ≡ none
    → byte_len content ≤ max_page_bytes
    → max_page_bytes < 39 + byte_len stamp.id + 2 * byte_len stamp.now + byte_len content
    → (staged' : StagedOps) × (propose_new wiki stamp args staged ≡ ok staged')
      × (e : CommitError) × (commit_bundle faults
            (record { ingest_id = ingest_id; operations = staged'.ops ++ later; summary = summary })
            r
          ≡ (r, err e))
unfolding propose_new
commit_bundle-propose_new wiki r faults stamp args staged path content ingest_id summary later p c
      good free bare fits large =
    let rationale = argument_or_empty (codes "rationale") args in
    let op = create path (ensure_frontmatter_id_and_timestamps stamp content) rationale in
    let (e, h) = check_ops_of_bad op staged.ops later 0 (λ n.
      (page_too_large path _, check_op-stage_new stamp path content rationale n bare large)) in
    (
      stage_new wiki stamp path content rationale staged,
      rw (p, c, good, fits_check path content fits, free) refl,
      e,
      commit_bundle_of_bad faults _ r e (
          subst (λ (ops : List DiffOp). check_ops ops 0 ≡ err e)
            (sym (append_assoc staged.ops (op ∷ []) later)) h),
    )

is_known_other_name :
    (wiki : Repo) (staged : StagedOps) (old : Text)
    → read_page wiki (codes "QPEDIA.md") ≡ ok (some old)
    → is_known wiki (codes "./QPEDIA.md") staged ≡ ok true
unfolding is_known wiki_page read_page join_path safe_join
is_known_other_name wiki staged old h =
    elim (Bool-cases (contains_text staged.created_paths (codes "./QPEDIA.md"))) [
      | inl e ↦ rw e refl
      | inr e ↦ rw e (same h)
    ]
  where
    same :
        read_page wiki (codes "QPEDIA.md") ≡ ok (some old)
        → (wiki_page wiki (codes "./QPEDIA.md") >>= λ o. ok (is_some o)) ≡ ok true
    same k = ap (λ o. ok (is_some o)) (ok-injective k)

-- `check_path` forbids `QPEDIA.md`, but compares texts: `propose_patch` of `./QPEDIA.md` is accepted and
-- staged in every wiki that has the page `QPEDIA.md`, for any text within the limit of 50 KB, and it is a
-- path of that page for the wiki.
pub propose_patch_system_page :
    (wiki : Repo) (args : List (Text × Argument)) (staged : StagedOps) (new_content old : Text)
    → require_str args (codes "path") ≡ ok (codes "./QPEDIA.md")
    → require_str args (codes "new_content") ≡ ok new_content
    → byte_len new_content ≤ max_page_bytes
    → read_page wiki (codes "QPEDIA.md") ≡ ok (some old)
    → (check_path (codes "QPEDIA.md") ≡ err system_owned)
      × (propose_patch wiki args staged
          ≡ ok (
              stage_patch wiki
                (codes "./QPEDIA.md")
                new_content
                (argument_or_empty (codes "rationale") args)
                staged))
      × (join_path (codes "./QPEDIA.md") ≡ join_path (codes "QPEDIA.md"))
unfolding propose_patch check_path join_path safe_join
propose_patch_system_page wiki args staged new_content old p c fits there = (
  refl,
  rw
      (
        p,
        c,
        fits_check (codes "./QPEDIA.md") new_content fits,
        is_known_other_name wiki staged old there,
      )
      refl,
  refl,
)
