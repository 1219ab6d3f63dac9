-- ===== src/Store/WikiRepo/Files.antt =====
-- Reading a file tree after a write or a removal.
use qpedia.Prelude.{◌≡◌, ◌↔◌, refl, ap₂, true, none, some, [], ◌∷◌, arith, if◌then◌else◌}
use qpedia.Text.{Text}
use qpedia.Text.Laws.{text_eq→eq, text_eq_refl}
use qpedia.Store.WikiRepo.{FilePath, FileTree, path_eq, read_file, remove_file, write_file}

pub path_eq→eq : (p q : FilePath) → path_eq p q ≡ true → p ≡ q
unfolding path_eq
path_eq→eq [] [] h = refl
path_eq→eq (a ∷ p) (b ∷ q) h =
    ap₂ ◌∷◌ (text_eq→eq a b (ground arith)) (path_eq→eq p q (ground arith))
path_eq→eq [] (b ∷ q) h = cc
path_eq→eq (a ∷ p) [] h = cc

pub path_eq_refl : (p : FilePath) → path_eq p p ≡ true
unfolding path_eq
path_eq_refl [] = refl
path_eq_refl (a ∷ p) = rw (text_eq_refl a) (path_eq_refl p)

pub path_eq_iff : (p q : FilePath) → (path_eq p q ≡ true) ↔ (p ≡ q)
path_eq_iff p q = (path_eq→eq p q, λ e. rw e (path_eq_refl q))

pub read_file-remove_file :
    (p q : FilePath) (files : FileTree)
    → read_file q (remove_file p files) ≡ (if path_eq p q then none else read_file q files)
unfolding read_file remove_file
read_file-remove_file p q [] = ground arith
read_file-remove_file p q ((x, s) ∷ files) =
    ground
      (arith, read_file-remove_file p q files, path_eq_iff x p, path_eq_iff x q, path_eq_iff p q)

pub read_file-write_file :
    (p q : FilePath) (s : Text) (files : FileTree)
    → read_file q (write_file p s files) ≡ (if path_eq p q then some s else read_file q files)
unfolding read_file write_file
read_file-write_file p q s files = ground (arith, read_file-remove_file p q files)
