-- ===== src/Prelude/Quantified.antt =====
-- `any` over lists that are mapped, filtered and extended.
use mathlib.Core.Path.{◌≡◌, refl, ap, subst, ◌∙◌}
use mathlib.Core.Logic.{inl, inr}
use mathlib.Core.Bool.{Bool, true, false, ◌&&◌, ◌||◌}
use mathlib.Core.List.{List, [], ◌∷◌, ◌++◌, map}
use native.Mathlib.Omega.{arith}
use qpedia.Prelude.Lists.{any, filter}
use qpedia.Prelude.Tests.{Bool-cases}

module _ {ℓ} {A : Type ℓ} where
  pub any-map : (p : A → Bool) (f : A → A) (xs : List A) → any p (map f xs) ≡ any (λ x. p (f x)) xs
  any-map p f [] = refl
  any-map p f (x ∷ xs) = ap (λ c. p (f x) || c) (any-map p f xs)

  pub any-append-last :
      (p : A → Bool) (xs : List A) (x : A) → p x ≡ false → any p (xs ++ x ∷ []) ≡ any p xs
  any-append-last p [] x n = rw n refl
  any-append-last p (y ∷ xs) x n = ap (λ c. p y || c) (any-append-last p xs x n)

  any_kept :
      (p : A → Bool) (x : A) (rest : List A) (b : Bool)
      → any p (elim b [ true ↦ x ∷ rest | false ↦ rest ]) ≡ ((b && p x) || any p rest)
  any_kept p x rest true = refl
  any_kept p x rest false = refl

  pub any-filter : (p q : A → Bool) (xs : List A) → any p (filter q xs) ≡ any (λ x. q x && p x) xs
  any-filter p q [] = refl
  any-filter p q (x ∷ xs) =
      any_kept p x (filter q xs) (q x) ∙ ap (λ c. (q x && p x) || c) (any-filter p q xs)

  pub any-weaken :
      (p q : A → Bool) (xs : List A)
      → ((x : A) → p x ≡ true → q x ≡ true)
      → any p xs ≡ true
      → any q xs ≡ true
  any-weaken p q [] k h = h
  any-weaken p q (x ∷ xs) k h = elim (Bool-cases (p x)) [
    | inl e ↦ rw (k x e) refl
    | inr n ↦
        let rest = any-weaken p q xs k (subst (λ c. c || any p xs ≡ true) n h) in
        ground (arith, rest)
  ]

  pub none-weaken :
      (p q : A → Bool) (xs : List A)
      → ((x : A) → q x ≡ true → p x ≡ true)
      → any p xs ≡ false
      → any q xs ≡ false
  none-weaken p q xs k h = elim (Bool-cases (any q xs)) [
    | inl e ↦ let some_p = any-weaken q p xs k e in ground (arith, some_p, h)
    | inr n ↦ n
  ]
