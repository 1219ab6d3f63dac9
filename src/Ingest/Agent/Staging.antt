-- ===== src/Ingest/Agent/Staging.antt =====
-- What the two tools that write stage.
use qpedia.Prelude.{
  ◌+◌, ◌≤◌, ◌≡◌, refl, sym, ap, ◌∙◌, inl, inr, Bool, true, false, not, ◌||◌, Option, List, [], ◌∷◌,
  ◌++◌, arith, All, All-append, Result, ok, ◌>>=◌, ◌>>◌, reject_if, >>=-eq-ok, ok-injective,
  Result-cases, Bool-cases,
}
use qpedia.Text.{Text, codes, text_eq, contains_text, byte_len}
use qpedia.Text.Laws.{text_eq→eq}
use qpedia.Llm.{Argument}
use qpedia.Core.Wiki.{DiffOp, create, patch}
use qpedia.Store.WikiRepo.{Repo, read_page}
use qpedia.Store.WikiRepo.Checks.{IsSafePath, op_bytes, ops_bytes, read_page-IsSafePath}
use qpedia.Ingest.Tools.{
  StagedOps, ToolError, Stamp, check_path, check_page_size, wiki_page, is_taken, is_known,
  stage_new, stage_patch, propose_new, propose_patch, require_str, argument_or_empty,
  already_exists, not_found, max_page_bytes, ensure_frontmatter_id_and_timestamps, is_some,
}

-- The agent only makes and replaces pages, under paths that it may write.
abbrev pub IsProposal : DiffOp → Type 0
IsProposal (create path content rationale) = (check_path path ≡ ok tt) × IsSafePath path
IsProposal (patch path new_content rationale) =
    (check_path path ≡ ok tt) × IsSafePath path × (byte_len new_content ≤ max_page_bytes)
IsProposal _ = ⊥

pub record IsStaged (staged : StagedOps) : Type 0 where
  pub sized : staged.bytes ≡ ops_bytes staged.ops
  pub proposals : All IsProposal staged.ops
  pub created : All IsSafePath staged.created_paths

pub ops_bytes-append :
    (xs : List DiffOp) (op : DiffOp) → ops_bytes (xs ++ op ∷ []) ≡ ops_bytes xs + op_bytes op
ops_bytes-append [] op = omega arith
ops_bytes-append (x ∷ xs) op = omega (arith, ops_bytes-append xs op)

wiki_page-IsSafePath :
    (wiki : Repo) (path : Text) (o : Option Text) → wiki_page wiki path ≡ ok o → IsSafePath path
unfolding wiki_page
wiki_page-IsSafePath wiki path o h = elim (Result-cases (read_page wiki path)) [
  | inl (p, e) ↦ read_page-IsSafePath wiki path p e
  | inr (x, e) ↦ cc (rw (e, wiki_page) at h)
]

is_taken-IsSafePath :
    (wiki : Repo) (path : Text) (staged : StagedOps)
    → is_taken wiki path staged ≡ ok false
    → IsSafePath path
unfolding is_taken
is_taken-IsSafePath wiki path staged h =
    elim (Bool-cases
      (contains_text staged.created_paths path || contains_text staged.patched_paths path)) [
        | inl e ↦ cc (rw (e, is_taken) at h)
        | inr e ↦ answered (rw (e, is_taken) at h)
      ]
  where
    answered : (wiki_page wiki path >>= λ o. ok (is_some o)) ≡ ok false → IsSafePath path
    answered k =
        let (o, f, _) = >>=-eq-ok (wiki_page wiki path) (λ o. ok (is_some o)) k in
        wiki_page-IsSafePath wiki path o f

All-contains :
    (P : Text → Type 0) (xs : List Text) (s : Text) → All P xs → contains_text xs s ≡ true → P s
unfolding contains_text
All-contains P [] s h k = cc
All-contains P (x ∷ xs) s (h, hs) k = elim (Bool-cases (text_eq s x)) [
  | inl e ↦ rw (text_eq→eq s x e) h
  | inr e ↦ All-contains P xs s hs (ground arith)
]

is_known-IsSafePath :
    (wiki : Repo) (path : Text) (staged : StagedOps)
    → All IsSafePath staged.created_paths
    → is_known wiki path staged ≡ ok true
    → IsSafePath path
unfolding is_known
is_known-IsSafePath wiki path staged a h =
    elim (Bool-cases (contains_text staged.created_paths path)) [
      | inl e ↦ All-contains IsSafePath staged.created_paths path a e
      | inr e ↦ answered (rw (e, is_known) at h)
    ]
  where
    answered : (wiki_page wiki path >>= λ o. ok (is_some o)) ≡ ok true → IsSafePath path
    answered k =
        let (o, f, _) = >>=-eq-ok (wiki_page wiki path) (λ o. ok (is_some o)) k in
        wiki_page-IsSafePath wiki path o f

check_page_size-ok :
    (path content : Text) (u : Unit {0})
    → check_page_size path content ≡ ok u
    → byte_len content ≤ max_page_bytes
unfolding check_page_size
check_page_size-ok path content u h = ground arith

true_of_not : (b : Bool) → not b ≡ false → b ≡ true
true_of_not true h = refl
true_of_not false h = cc

reject_if-ok :
    (b : Bool) (e : ToolError) {B : Type 0} (k : Result ToolError B) {x : B}
    → (reject_if b e >> k) ≡ ok x
    → (b ≡ false) × (k ≡ ok x)
reject_if-ok true e k h = cc
reject_if-ok false e k h = (refl, h)

-- What an accepted `propose_new` has checked, and what it stages.
pub record IsNew (wiki : Repo) (stamp : Stamp) (staged staged' : StagedOps) : Type 0 where
  pub path : Text
  pub content : Text
  pub rationale : Text
  pub allowed : check_path path ≡ ok tt
  pub small : byte_len content ≤ max_page_bytes
  pub free : is_taken wiki path staged ≡ ok false
  pub result : staged' ≡ stage_new wiki stamp path content rationale staged

pub propose_new-IsNew :
    (wiki : Repo) (stamp : Stamp) (args : List (Text × Argument)) (staged staged' : StagedOps)
    → propose_new wiki stamp args staged ≡ ok staged'
    → IsNew wiki stamp staged staged'
unfolding propose_new
propose_new-IsNew wiki stamp args staged staged' h =
    let (path, _, h1) = >>=-eq-ok (require_str args (codes "path")) _ h in
    let (content, _, h2) = >>=-eq-ok (require_str args (codes "content")) _ h1 in
    let (u, allowed, h3) = >>=-eq-ok (check_path path) _ h2 in
    let (v, size, h4) = >>=-eq-ok (check_page_size path content) _ h3 in
    let (taken, free, h5) = >>=-eq-ok (is_taken wiki path staged) _ h4 in
    let (is_free, h6) = reject_if-ok taken (already_exists path) _ h5 in
    record {
      path = path;
      content = content;
      rationale = argument_or_empty (codes "rationale") args;
      allowed = allowed;
      small = check_page_size-ok path content v size;
      free = free ∙ ap (λ (b : Bool). ok b) is_free;
      result = sym (ok-injective h6);
    }

pub record IsReplacement (wiki : Repo) (staged staged' : StagedOps) : Type 0 where
  pub path : Text
  pub new_content : Text
  pub rationale : Text
  pub allowed : check_path path ≡ ok tt
  pub small : byte_len new_content ≤ max_page_bytes
  pub known : is_known wiki path staged ≡ ok true
  pub result : staged' ≡ stage_patch wiki path new_content rationale staged

pub propose_patch-IsReplacement :
    (wiki : Repo) (args : List (Text × Argument)) (staged staged' : StagedOps)
    → propose_patch wiki args staged ≡ ok staged'
    → IsReplacement wiki staged staged'
unfolding propose_patch
propose_patch-IsReplacement wiki args staged staged' h =
    let (path, _, h1) = >>=-eq-ok (require_str args (codes "path")) _ h in
    let (new_content, _, h2) = >>=-eq-ok (require_str args (codes "new_content")) _ h1 in
    let (u, allowed, h3) = >>=-eq-ok (check_path path) _ h2 in
    let (v, size, h4) = >>=-eq-ok (check_page_size path new_content) _ h3 in
    let (known, found, h5) = >>=-eq-ok (is_known wiki path staged) _ h4 in
    let (is_found, h6) = reject_if-ok (not known) (not_found path) _ h5 in
    record {
      path = path;
      new_content = new_content;
      rationale = argument_or_empty (codes "rationale") args;
      allowed = allowed;
      small = check_page_size-ok path new_content v size;
      known = found ∙ ap (λ (b : Bool). ok b) (true_of_not known is_found);
      result = sym (ok-injective h6);
    }

pub new-IsStaged :
    (wiki : Repo) (stamp : Stamp) (staged staged' : StagedOps)
    → IsNew wiki stamp staged staged'
    → IsStaged staged
    → IsStaged staged'
unfolding stage_new
new-IsStaged wiki stamp staged staged' n s = rw n.result (record {
  sized = omega (
    arith,
    s.sized,
    ops_bytes-append staged.ops
        (create n.path (ensure_frontmatter_id_and_timestamps stamp n.content) n.rationale),
  );
  proposals = All-append IsProposal staged.ops _ s.proposals ((n.allowed, safe), tt);
  created = (safe, s.created);
})
  where
    safe : IsSafePath n.path
    safe = is_taken-IsSafePath wiki n.path staged n.free

pub replacement-IsStaged :
    (wiki : Repo) (staged staged' : StagedOps)
    → IsReplacement wiki staged staged'
    → IsStaged staged
    → IsStaged staged'
unfolding stage_patch
replacement-IsStaged wiki staged staged' n s = rw n.result (record {
  sized =
      omega (arith, s.sized, ops_bytes-append staged.ops (patch n.path n.new_content n.rationale));
  proposals =
      All-append IsProposal staged.ops _ s.proposals
        ((n.allowed, is_known-IsSafePath wiki n.path staged s.created n.known, n.small), tt);
  created = s.created;
})
