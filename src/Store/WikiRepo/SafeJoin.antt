-- ===== src/Store/WikiRepo/SafeJoin.antt =====
-- Where the paths lie that `safe_join` lets through.
use qpedia.Prelude.{
  ℕ, zero, suc, ◌+◌, ◌<◌, ◌≡◌, ◌≢◌, sym, ap, ◌∙◌, ◌⊎◌, inl, inr, true, false, ◌||◌, List, [], ◌∷◌,
  ◌++◌, arith, ◌==◌, length, is_empty, All, ok, Bool-cases, length-append,
}
use mathlib.Core.Bool.{false≢true}
use qpedia.Text.{Text, codes, text_eq, contains_text, starts_with, contains, split, trim_start_by}
use qpedia.Text.Split.{
  HasNone, split-HasNone, IsSplit-step, starts_with-append, contains-append, contains-append_right,
}
use qpedia.Text.Laws.{text_eq_iff}
use qpedia.Store.WikiRepo.{FilePath, components, checked_join, safe_join}

-- A name of a file or directory: not empty, not "." and not "..", and with no slash in it.
abbrev pub IsName : Text → Type 0
IsName s = (s ≢ []) × (s ≢ codes ".") × (s ≢ codes "..") × HasNone b'/' s

-- The path of a file within the directory `.git` of the repository.
abbrev pub IsUnderGit : FilePath → Type 0
IsUnderGit [] = ⊥
IsUnderGit (a ∷ []) = ⊥
IsUnderGit (a ∷ b ∷ p) = a ≡ codes ".git"

-- The path lies inside the repository, and not within its `.git`.
abbrev pub IsInside : FilePath → Type 0
IsInside p = All IsName p × (¬ IsUnderGit p)

components_dropped :
    (s : Text) (parts : List Text)
    → (is_empty s || text_eq s (codes ".")) ≡ true
    → components (s ∷ parts) ≡ components parts
unfolding components
components_dropped s parts h = rw h

components_kept :
    (s : Text) (parts : List Text)
    → (is_empty s || text_eq s (codes ".")) ≡ false
    → components (s ∷ parts) ≡ s ∷ components parts
unfolding components
components_kept s parts h = rw h

kept-IsName :
    (s : Text)
    → HasNone b'/' s
    → (is_empty s || text_eq s (codes ".")) ≡ false
    → s ≢ codes ".."
    → IsName s
kept-IsName [] n h k = cc
kept-IsName (c ∷ s) n h k =
    ((λ e. cc), (λ e. ground (arith, text_eq_iff (c ∷ s) (codes "."))), k, n)

components-IsName :
    (parts : List Text)
    → All (HasNone b'/') parts
    → contains_text parts (codes "..") ≡ false
    → All IsName (components parts)
unfolding contains_text
components-IsName [] n h = unfold components in tt
components-IsName (s ∷ parts) (n, ns) h = elim (Bool-cases (is_empty s || text_eq s (codes "."))) [
  | inl e ↦ rw (components_dropped s parts e) (components-IsName parts ns (ground arith))
  | inr e ↦ rw (components_kept s parts e) (
    kept-IsName s n e (λ q. ground (arith, text_eq_iff (codes "..") s)),
    components-IsName parts ns (ground arith),
  )
]

-- Where the text of a path leads under `.git`, the text shows it.
abbrev ShowsGit : Text → Type 0
ShowsGit s = ((t : Text) × (s ≡ codes ".git/" ++ t)) ⊎ (contains (codes "/.git/") s ≡ true)

ShowsGit-behind : (h t : Text) → ShowsGit t → ShowsGit (h ++ (b'/' ∷ t))
ShowsGit-behind h t (inl (u, e)) = inr (rw e (contains-append (codes "/.git/") h u))
ShowsGit-behind h t (inr e) = inr (
    contains-append_right (codes "/.git/") h (b'/' ∷ t)
      (contains-append_right (codes "/.git/") (b'/' ∷ []) t e))

single : (s : Text) → ¬ IsUnderGit (components (s ∷ []))
unfolding components
single s u = elim (Bool-cases (is_empty s || text_eq s (codes "."))) [
  | inl e ↦ rw e at u
  | inr e ↦ rw e at u
]

first_name : (h : Text) (p : FilePath) → IsUnderGit (h ∷ p) → h ≡ codes ".git"
first_name h [] u = absurd u
first_name h (a ∷ p) u = u

shorter : (s h t : Text) (fuel : ℕ) → s ≡ h ++ (b'/' ∷ t) → length s < suc fuel → length t < fuel
shorter s h t fuel e l =
    let len : length s ≡ length h + length (b'/' ∷ t) = ap length e ∙ length-append h (b'/' ∷ t) in
    omega arith

under_git-ShowsGit :
    (fuel : ℕ) (s : Text) → length s < fuel → IsUnderGit (components (split b'/' s)) → ShowsGit s
under_git-ShowsGit zero s l u = absurd (omega arith)
under_git-ShowsGit (suc fuel) s l u = elim (IsSplit-step b'/' s) [
  | inl one ↦ absurd (single s (rw one at u))
  | inr (h, t, same, rest) ↦ rw same (elim (Bool-cases (is_empty h || text_eq h (codes "."))) [
    | inl e ↦ ShowsGit-behind h t (
        under_git-ShowsGit fuel t (shorter s h t fuel same l)
          (rw (rest, components_dropped h (split b'/' t) e) at u))
    | inr e ↦ inl (
      t,
      ap (λ x. x ++ (b'/' ∷ t))
          (first_name h (components (split b'/' t))
            (rw (rest, components_kept h (split b'/' t) e) at u)),
    )
  ])
]

accepted : (rel : Text) (p : FilePath) → checked_join rel ≡ ok p → components (split b'/' rel) ≡ p
unfolding checked_join
accepted rel p h = ground arith

no_parent :
    (rel : Text) (p : FilePath)
    → checked_join rel ≡ ok p
    → contains_text (split b'/' rel) (codes "..") ≡ false
unfolding checked_join
no_parent rel p h = ground arith

not_shown :
    (rel : Text) (p : FilePath)
    → checked_join rel ≡ ok p
    → (starts_with (codes ".git") rel ≡ false) × (contains (codes "/.git/") rel ≡ false)
unfolding checked_join
not_shown rel p h = ground arith

hidden : (rel : Text) (p : FilePath) → checked_join rel ≡ ok p → ¬ ShowsGit rel
hidden rel p h (inl (t, e)) =
    false≢true (sym (not_shown rel p h).0 ∙ rw e (starts_with-append (codes ".git") (b'/' ∷ t)))
hidden rel p h (inr e) = false≢true (sym (not_shown rel p h).1 ∙ e)

checked_join-IsInside : (rel : Text) (p : FilePath) → checked_join rel ≡ ok p → IsInside p
unfolding checked_join
checked_join-IsInside rel p h =
    let q = components (split b'/' rel) in
    let same : q ≡ p = accepted rel p h in
    rw (← same) (
      components-IsName (split b'/' rel) (split-HasNone b'/' rel) (no_parent rel p h),
      λ u. hidden rel p h (under_git-ShowsGit (suc (length rel)) rel (omega arith) u),
    )

-- A path that `safe_join` accepts, whatever slashes and dots it was written with, leads through proper
-- names only: it does not leave the repository, and it does not lead into the directory `.git`.
pub safe_join-IsInside : (rel : Text) (p : FilePath) → safe_join rel ≡ ok p → IsInside p
unfolding safe_join
safe_join-IsInside rel p h = checked_join-IsInside (trim_start_by (λ c. c == b'/') rel) p h
