-- ===== src/Store/WikiRepo/Replay.antt =====
-- The second loop of `commit_bundle`: what it makes of the files.
use qpedia.Prelude.{
  ◌≡◌, refl, sym, ap, ◌∙◌, inl, inr, Bool, false, Option, none, some, List, [], ◌∷◌, if◌then◌else◌,
  All, Result, ok, err, Bool-cases,
}
use qpedia.Text.{Text}
use qpedia.Core.Wiki.{DiffOp, create, patch, delete, link}
use qpedia.Store.WikiRepo.{
  FilePath, FileTree, safe_join, path_eq, read_file, Faults, CommitError, write_failed, write_at,
  delete_at, apply_op, applied, apply_ops,
}
use qpedia.Store.WikiRepo.Files.{path_eq→eq, read_file-remove_file, read_file-write_file}
use qpedia.Store.WikiRepo.Checks.{IsSafePath, IsFit, join_path_of_safe}

-- The path names this file.
abbrev pub names : Text → FilePath → Bool
names path p = elim (safe_join path) [ ok q ↦ path_eq q p | err e ↦ false ]

-- What the file `p` holds after an operation, if it held `old`.
abbrev pub effect : DiffOp → FilePath → Option Text → Option Text
effect (create path content rationale) p old = if names path p then some content else old
effect (patch path new_content rationale) p old = if names path p then some new_content else old
effect (delete path rationale) p old = if names path p then none else old
effect (link from to kind) p old = old

abbrev pub effects : List DiffOp → FilePath → Option Text → Option Text
effects [] p old = old
effects (op ∷ ops) p old = effects ops p (effect op p old)

-- An error of the second loop.
abbrev pub IsWriteError : CommitError → Type 0
IsWriteError (write_failed path) = Unit
IsWriteError _ = ⊥

-- What a step of the second loop returns, from `files`.
abbrev IsStep : DiffOp → FileTree → Result CommitError FileTree → Type 0
IsStep op files (ok files') = (p : FilePath) → read_file p files' ≡ effect op p (read_file p files)
IsStep op files (err e) = IsWriteError e

names_of_safe : (path : Text) (q p : FilePath) → safe_join path ≡ ok q → names path p ≡ path_eq q p
names_of_safe path q p h = rw (h, names)

missing :
    (files : FileTree) (q p : FilePath)
    → read_file q files ≡ none
    → read_file p files ≡ (if path_eq q p then none else read_file p files)
missing files q p h = elim (Bool-cases (path_eq q p)) [
  | inl e ↦ rw e (rw (← path_eq→eq q p e) h)
  | inr e ↦ rw e
]

write_at-IsStep :
    (faults : Faults) (path content rationale : Text) (files : FileTree)
    → IsSafePath path
    → IsStep (create path content rationale) files (write_at faults path content files)
unfolding write_at
write_at-IsStep faults path content rationale files (q, safe) =
    elim (Bool-cases (faults.write_fails q)) [
      | inl e ↦ rw (join_path_of_safe path q safe, e) tt
      | inr e ↦
          rw (join_path_of_safe path q safe, e)
            (λ p.
              read_file-write_file q p content files
              ∙ ap (λ b. if b then some content else read_file p files)
                  (sym (names_of_safe path q p safe)))
    ]

delete_at-IsStep :
    (faults : Faults) (path rationale : Text) (files : FileTree) (q : FilePath) (o : Option Text)
    → safe_join path ≡ ok q
    → read_file q files ≡ o
    → IsStep (delete path rationale) files (delete_at faults path files o q)
unfolding delete_at
delete_at-IsStep faults path rationale files q none safe found = λ p.
    missing files q p found
    ∙ ap (λ b. if b then none else read_file p files) (sym (names_of_safe path q p safe))
delete_at-IsStep faults path rationale files q (some s) safe found =
    elim (Bool-cases (faults.write_fails q)) [
      | inl e ↦ rw e tt
      | inr e ↦ rw e (λ p.
          read_file-remove_file q p files
          ∙ ap (λ b. if b then none else read_file p files) (sym (names_of_safe path q p safe)))
    ]

apply_op-IsStep :
    (faults : Faults) (op : DiffOp) (files : FileTree)
    → IsFit op
    → IsStep op files (apply_op faults op files)
unfolding apply_op
apply_op-IsStep faults (create path content rationale) files (safe, _) =
    write_at-IsStep faults path content rationale files safe
apply_op-IsStep faults (patch path new_content rationale) files (safe, _) =
    write_at-IsStep faults path new_content rationale files safe
apply_op-IsStep faults (delete path rationale) files (q, safe) =
    rw (join_path_of_safe path q safe)
      (delete_at-IsStep faults path rationale files q (read_file q files) safe refl)
apply_op-IsStep faults (link from to kind) files fit = λ p. refl

-- What the second loop returns, with the files that it leaves.
abbrev pub IsReplay : List DiffOp → FileTree → FileTree × Result CommitError (Unit {0}) → Type 0
IsReplay ops files (files', ok _) =
    (p : FilePath) → read_file p files' ≡ effects ops p (read_file p files)
IsReplay ops files (files', err e) = IsWriteError e

applied-IsReplay :
    (op : DiffOp) (ops : List DiffOp) (files : FileTree) (r : Result CommitError FileTree)
    (more : FileTree → FileTree × Result CommitError (Unit {0}))
    → IsStep op files r
    → ((files' : FileTree) → IsReplay ops files' (more files'))
    → IsReplay (op ∷ ops) files (applied files r more)
unfolding applied
applied-IsReplay op ops files (err e) more h k = h
applied-IsReplay op ops files (ok files') more h k = later (more files') (k files')
  where
    later :
        (o : FileTree × Result CommitError (Unit {0}))
        → IsReplay ops files' o
        → IsReplay (op ∷ ops) files o
    later (files'', ok _) l = λ p. l p ∙ ap (effects ops p) (h p)
    later (files'', err e) l = l

pub apply_ops-IsReplay :
    (faults : Faults) (ops : List DiffOp) (files : FileTree)
    → All IsFit ops
    → IsReplay ops files (apply_ops faults ops files)
unfolding apply_ops
apply_ops-IsReplay faults [] files fits = λ p. refl
apply_ops-IsReplay faults (op ∷ ops) files (fit, fits) =
    applied-IsReplay op ops files (apply_op faults op files) (apply_ops faults ops)
      (apply_op-IsStep faults op files fit) (λ files'. apply_ops-IsReplay faults ops files' fits)
