-- ===== src/PgStore/FolderAcls/Chain.antt =====
-- The candidates of `resolve_folder_acl` are the folders around a folder.
use qpedia.Prelude.{
  ℕ, zero, suc, ◌≤◌, ◌≡◌, refl, sym, ap, subst, ◌∙◌, inl, inr, Bool, true, false, ◌||◌, none, some,
  List, [], ◌∷◌, ◌++◌, length, length-append, All, Bool-cases, arith,
}
use qpedia.Text.{Text, codes, text_eq, contains_text}
use qpedia.Text.Laws.{text_eq→eq}
use qpedia.Text.Split.{HasNone}
use qpedia.PgStore.FolderAcls.{before_last, push_new, parents, chain}
use qpedia.PgStore.FolderAcls.Names.{path_above, path_of, ancestors, IsName, path_above-ne-nil}

-- What `rfind` finds in a path: the last name.
before_last_of_name : (sep : ℕ) (name : Text) → HasNone sep name → before_last sep name ≡ none
unfolding before_last
before_last_of_name sep [] h = refl
before_last_of_name sep (c ∷ name) (h, hs) = ground (arith, before_last_of_name sep name hs, h)

before_last-append :
    (sep : ℕ) (before name : Text)
    → HasNone sep name
    → before_last sep (before ++ (sep ∷ name)) ≡ some before
unfolding before_last
before_last-append sep [] name h = ground (arith, before_last_of_name sep name h)
before_last-append sep (c ∷ before) name h = rw (before_last-append sep before name h)

contains_text-append :
    (cs ds : List Text) (q : Text)
    → contains_text (cs ++ ds) q ≡ (contains_text cs q || contains_text ds q)
unfolding contains_text
contains_text-append [] ds q = refl
contains_text-append (c ∷ cs) ds q = ground (arith, contains_text-append cs ds q)

or_known : (b c : Bool) → (c ≡ true → b ≡ true) → b ≡ (b || c)
or_known true c h = refl
or_known false true h = h refl
or_known false false h = refl

or_false : (b c : Bool) → (b || (c || false)) ≡ (b || c)
or_false true c = refl
or_false false true = refl
or_false false false = refl

contains_text-push_new :
    (path : Text) (cs : List Text) (q : Text)
    → contains_text (push_new path cs) q ≡ (contains_text cs q || text_eq q path)
unfolding push_new
contains_text-push_new path cs q = elim (Bool-cases (contains_text cs path)) [
  | inl e ↦ rw e (
      or_known (contains_text cs q) (text_eq q path)
        (λ same. subst (λ p. contains_text cs p ≡ true) (sym (text_eq→eq q path same)) e))
  | inr e ↦
      rw e (contains_text-append cs (path ∷ []) q ∙ or_false (contains_text cs q) (text_eq q path))
]

contains_text-root :
    (names : List Text) (q : Text)
    → text_eq q (codes "/") ≡ true
    → contains_text (ancestors names) q ≡ true
unfolding ancestors contains_text
contains_text-root [] q h = rw h
contains_text-root (name ∷ outer) q h = ground (arith, contains_text-root outer q h)

or_regroup : (a b c : Bool) → ((a || b) || c) ≡ (a || (b || c))
or_regroup true b c = refl
or_regroup false b c = refl

-- The loop pushes the folders around the one it starts from.
parents-ancestors :
    (fuel : ℕ) (name : Text) (outer cs : List Text) (q : Text)
    → All IsName (name ∷ outer)
    → length (path_above (name ∷ outer)) ≤ fuel
    → contains_text (parents fuel (path_above (name ∷ outer)) cs) q
      ≡ (contains_text cs q || contains_text (ancestors outer) q)
unfolding parents ancestors
parents-ancestors zero name outer cs q h k =
    absurd (omega (arith, k, length-append (path_above outer) (b'/' ∷ name)))
parents-ancestors (suc fuel) name [] cs q ((_, no_slash), _) k =
    rw (before_last_of_name b'/' name no_slash) (
      contains_text-push_new (codes "/") cs q
      ∙ sym (or_false (contains_text cs q) (text_eq q (codes "/"))))
parents-ancestors (suc fuel) name (n ∷ outer) cs q ((_, no_slash), hs) k =
    let before = path_above (n ∷ outer) in
    rw (parents, before_last-append b'/' before name no_slash, path_above-ne-nil n outer)
      (parents-ancestors fuel n outer (push_new before cs) q hs
          (omega (arith, k, length-append before (b'/' ∷ name)))
        ∙ ap (λ b. b || contains_text (ancestors outer) q) (contains_text-push_new before cs q)
        ∙ or_regroup (contains_text cs q) (text_eq q before) (contains_text (ancestors outer) q))

drop_root :
    (here around root : Bool)
    → (root ≡ true → around ≡ true)
    → (((here || false) || around) || root) ≡ (here || around)
drop_root true around root h = refl
drop_root false true root h = refl
drop_root false false true h = sym (h refl)
drop_root false false false h = refl

-- The candidates of the query are the ancestors.
pub contains_text-chain :
    (names : List Text) (q : Text)
    → All IsName names
    → contains_text (chain (path_of names)) q ≡ contains_text (ancestors names) q
unfolding chain ancestors contains_text
contains_text-chain [] q h = refl
contains_text-chain (name ∷ outer) q h =
    let path = path_of (name ∷ outer) in
    contains_text-push_new (codes "/") (parents (length path) path (path ∷ [])) q
    ∙ ap (λ b. b || text_eq q (codes "/"))
        (parents-ancestors (length path) name outer (path ∷ []) q h (omega arith))
    ∙ drop_root (text_eq q path) (contains_text (ancestors outer) q) (text_eq q (codes "/"))
        (contains_text-root outer q)
