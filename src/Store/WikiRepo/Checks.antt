-- ===== src/Store/WikiRepo/Checks.antt =====
-- The first loop of `commit_bundle`: what it lets through, and with what errors it stops.
use qpedia.Prelude.{
  ℕ, ◌+◌, ◌≤◌, ◌≡◌, ap, ◌∙◌, inl, inr, false, Option, List, [], ◌∷◌, arith, ltb, All, Result, ok,
  err, ◌>>=◌, Result-cases, Bool-cases, >>=-eq-ok, ok-injective,
}
use native.Mathlib.Nat.{add-zero, add_assoc}
use qpedia.Text.{Text, byte_len}
use qpedia.Core.Wiki.{DiffOp, create, patch, delete, link}
use qpedia.Store.WikiRepo.{
  FilePath, PathError, safe_join, read_file, Repo, CommitError, page_too_large, bad_path,
  max_page_bytes, join_path, read_page, check_write, check_op, check_ops,
}

-- The bytes of the pages that the operations write.
abbrev pub op_bytes : DiffOp → ℕ
op_bytes (create path content rationale) = byte_len content
op_bytes (patch path new_content rationale) = byte_len new_content
op_bytes _ = 0

abbrev pub ops_bytes : List DiffOp → ℕ
ops_bytes [] = 0
ops_bytes (op ∷ ops) = op_bytes op + ops_bytes ops

abbrev pub IsSafePath : Text → Type 0
IsSafePath path = (p : FilePath) × (safe_join path ≡ ok p)

-- Each path of the operation is a path inside the repository, and a page is at most 50 KB.
abbrev pub IsFit : DiffOp → Type 0
IsFit (create path content rationale) = IsSafePath path × (byte_len content ≤ max_page_bytes)
IsFit (patch path new_content rationale) = IsSafePath path × (byte_len new_content ≤ max_page_bytes)
IsFit (delete path rationale) = IsSafePath path
IsFit (link from to kind) = IsSafePath from × IsSafePath to

join_path-ok : (path : Text) (p : FilePath) → join_path path ≡ ok p → safe_join path ≡ ok p
unfolding join_path
join_path-ok path p h = ground arith

pub join_path_of_safe : (path : Text) (p : FilePath) → safe_join path ≡ ok p → join_path path ≡ ok p
unfolding join_path
join_path_of_safe path p h = rw (h, join_path)

pub read_page-IsSafePath :
    (r : Repo) (path : Text) (o : Option Text) → read_page r path ≡ ok o → IsSafePath path
unfolding read_page
read_page-IsSafePath r path o h =
    let (p, e, k) = >>=-eq-ok (join_path path) (λ p. ok (read_file p r.tree)) h in
    (p, join_path-ok path p e)

check_write-ok :
    (path content : Text) (total total' : ℕ)
    → check_write path content total ≡ ok total'
    → IsSafePath path × (byte_len content ≤ max_page_bytes) × (total' ≡ total + byte_len content)
unfolding check_write
check_write-ok path content total total' h = elim (Result-cases (join_path path)) [
  | inl (p, e) ↦ ((p, join_path-ok path p e), ground arith, ground arith)
  | inr (x, e) ↦ ground arith
]

check_op-ok :
    (op : DiffOp) (total total' : ℕ)
    → check_op op total ≡ ok total'
    → IsFit op × (total' ≡ total + op_bytes op)
unfolding check_op
check_op-ok (create path content rationale) n m h =
    let (a, b, c) = check_write-ok path content n m h in ((a, b), c)
check_op-ok (patch path new_content rationale) n m h =
    let (a, b, c) = check_write-ok path new_content n m h in ((a, b), c)
check_op-ok (delete path rationale) n m h =
    let (p, e, k) = >>=-eq-ok (join_path path) (λ _. ok n) h in
    ((p, join_path-ok path p e), omega (arith, ok-injective k))
check_op-ok (link from to kind) n m h =
    let (p, e, k) = >>=-eq-ok (join_path from) (λ _. join_path to >>= λ _. ok n) h in
    let (q, f, l) = >>=-eq-ok (join_path to) (λ _. ok n) k in
    (((p, join_path-ok from p e), (q, join_path-ok to q f)), omega (arith, ok-injective l))

pub check_ops-ok :
    (ops : List DiffOp) (total total' : ℕ)
    → check_ops ops total ≡ ok total'
    → All IsFit ops × (total' ≡ total + ops_bytes ops)
unfolding check_ops
check_ops-ok [] n m h = (tt, ground arith)
check_ops-ok (op ∷ ops) n m h =
    let (k, e, h') = >>=-eq-ok (check_op op n) (check_ops ops) h in
    let (fit, sum) = check_op-ok op n k e in
    let (fits, sums) = check_ops-ok ops k m h' in ((fit, fits), omega arith)

-- An error of the first loop.
abbrev pub IsCheckError : CommitError → Type 0
IsCheckError (page_too_large path bytes) = Unit
IsCheckError (bad_path e) = Unit
IsCheckError _ = ⊥

abbrev pub Rejects : {A : Type 0} → Result CommitError A → Type 0
Rejects (ok a) = Unit
Rejects (err e) = IsCheckError e

Rejects-bind :
    {A B : Type 0} (m : Result CommitError A) (f : A → Result CommitError B)
    → Rejects m
    → ((a : A) → Rejects (f a))
    → Rejects (m >>= f)
Rejects-bind (ok a) f h k = k a
Rejects-bind (err e) f h k = h

join_path-Rejects : (path : Text) → Rejects (join_path path)
unfolding join_path
join_path-Rejects path = go (safe_join path)
  where
    go :
        (r : Result PathError FilePath)
        → Rejects (elim r [ ok p ↦ ok p | err e ↦ err (bad_path e) ])
    go (ok p) = tt
    go (err e) = tt

check_write-Rejects : (path content : Text) (total : ℕ) → Rejects (check_write path content total)
unfolding check_write
check_write-Rejects path content total = elim (Bool-cases (ltb max_page_bytes (byte_len content))) [
  | inl e ↦ rw e tt
  | inr e ↦ rw e (
      Rejects-bind (join_path path) (λ _. ok (total + byte_len content)) (join_path-Rejects path)
        (λ p. tt))
]

check_op-Rejects : (op : DiffOp) (total : ℕ) → Rejects (check_op op total)
unfolding check_op
check_op-Rejects (create path content rationale) n = check_write-Rejects path content n
check_op-Rejects (patch path new_content rationale) n = check_write-Rejects path new_content n
check_op-Rejects (delete path rationale) n =
    Rejects-bind (join_path path) (λ _. ok n) (join_path-Rejects path) (λ p. tt)
check_op-Rejects (link from to kind) n =
    Rejects-bind (join_path from) (λ _. join_path to >>= λ _. ok n) (join_path-Rejects from)
      (λ p. Rejects-bind (join_path to) (λ _. ok n) (join_path-Rejects to) (λ q. tt))

pub check_ops-Rejects : (ops : List DiffOp) (total : ℕ) → Rejects (check_ops ops total)
unfolding check_ops
check_ops-Rejects [] n = tt
check_ops-Rejects (op ∷ ops) n =
    Rejects-bind (check_op op n) (check_ops ops) (check_op-Rejects op n) (check_ops-Rejects ops)

small_enough : (n : ℕ) → n ≤ max_page_bytes → ltb max_page_bytes n ≡ false
small_enough n h = ground arith

check_write_of_fit :
    (path content : Text) (total : ℕ)
    → IsSafePath path
    → byte_len content ≤ max_page_bytes
    → check_write path content total ≡ ok (total + byte_len content)
unfolding check_write
check_write_of_fit path content total (p, safe) h =
    rw (small_enough (byte_len content) h, join_path_of_safe path p safe)

check_op_of_fit :
    (op : DiffOp) (total : ℕ) → IsFit op → check_op op total ≡ ok (total + op_bytes op)
unfolding check_op
check_op_of_fit (create path content rationale) n (safe, small) =
    check_write_of_fit path content n safe small
check_op_of_fit (patch path new_content rationale) n (safe, small) =
    check_write_of_fit path new_content n safe small
check_op_of_fit (delete path rationale) n (p, safe) = rw (join_path_of_safe path p safe, add-zero)
check_op_of_fit (link from to kind) n ((p, safe), (q, safe')) =
    rw (join_path_of_safe from p safe, join_path_of_safe to q safe', add-zero)

pub check_ops_of_fit :
    (ops : List DiffOp) (total : ℕ)
    → All IsFit ops
    → check_ops ops total ≡ ok (total + ops_bytes ops)
unfolding check_ops
check_ops_of_fit [] n h = rw add-zero
check_ops_of_fit (op ∷ ops) n (h, hs) = rw (check_op_of_fit op n h) (
    check_ops_of_fit ops (n + op_bytes op) hs
    ∙ ap (λ (k : ℕ). ok k) (add_assoc n (op_bytes op) (ops_bytes ops)))
