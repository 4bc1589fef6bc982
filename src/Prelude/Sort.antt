-- ===== src/Prelude/Sort.antt =====
-- Python's `sorted`: a stable sort, by insertion from the right. What is sorted or filtered is a
-- permutation of what was given.
use Prim.Native.Nat.{ℕ}
use mathlib.Core.Path.{◌≡◌, refl, ap, ◌∙◌, subst, subst₂}
use mathlib.Core.Logic.{∥∥₁_elim}
use mathlib.Core.Bool.{Bool, not}
use mathlib.Core.List.{List, [], ◌∷◌, ◌++◌, Perm, Permᴰ, Perm-prop, perm_middle}
use mathlib.Core.List.Perm
use native.Mathlib.Omega.{arith}
use native.Mathlib.Nat.{ℕ_set}
use zions_light_ai.Prelude.Tests.{if◌then◌else◌, Bool-cases}
use zions_light_ai.Prelude.Lists.{filter, sum_by}
use mathlib.Core.Logic.{inl, inr}

module _ {ℓ} {A : Type ℓ} (before : A → A → Bool) where
  -- The new element comes earlier in the list than those of `xs`, so it stays before its equals.
  unfoldable pub insert : A → List A → List A
  insert x [] = x ∷ []
  insert x (y ∷ ys) = let rest = insert x ys in if before x y then x ∷ y ∷ ys else y ∷ rest

  unfoldable pub sorted : List A → List A
  unfolding insert
  sorted [] = []
  sorted (x ∷ xs) = insert x (sorted xs)

  insert-perm : (x : A) (ys : List A) → Perm (insert x ys) (x ∷ ys)
  unfolding insert
  insert-perm x [] = Perm.refl _
  insert-perm x (y ∷ ys) = elim (Bool-cases (before x y)) [
    | inl e ↦ rw e (Perm.refl _)
    | inr e ↦ rw e (Perm.trans (Perm.cons y (insert-perm x ys)) (Perm.swap x y ys))
  ]

  pub sorted-perm : (xs : List A) → Perm (sorted xs) xs
  unfolding sorted
  sorted-perm [] = Perm.refl []
  sorted-perm (x ∷ xs) = Perm.trans (insert-perm x (sorted xs)) (Perm.cons x (sorted-perm xs))

module _ {ℓ} {A : Type ℓ} where
  pub partition-perm :
      (p : A → Bool) (xs : List A) → Perm (filter p xs ++ filter (λ x. not (p x)) xs) xs
  partition-perm p [] = Perm.refl []
  partition-perm p (x ∷ xs) = elim (Bool-cases (p x)) [
    | inl e ↦ rw e (Perm.cons x (partition-perm p xs))
    | inr e ↦ rw e (Perm.trans (perm_middle _ _) (Perm.cons x (partition-perm p xs)))
  ]

  filter-cons :
      (p : A → Bool) (x : A) (xs ys : List A)
      → Perm (filter p xs) (filter p ys)
      → Perm (filter p (x ∷ xs)) (filter p (x ∷ ys))
  filter-cons p x xs ys h = elim (Bool-cases (p x)) [
    | inl e ↦ rw e (Perm.cons x h)
    | inr e ↦ rw e h
  ]

  filter-swap :
      (p : A → Bool) (x y : A) (xs : List A) → Perm (filter p (x ∷ y ∷ xs)) (filter p (y ∷ x ∷ xs))
  filter-swap p x y xs = elim (Bool-cases (p x)) [
    | inl e ↦ elim (Bool-cases (p y)) [
      | inl d ↦ rw (e, d) (Perm.swap y x (filter p xs))
      | inr d ↦ rw (e, d) (Perm.refl _)
    ]
    | inr e ↦ rw e (Perm.refl _)
  ]

  filter-permᴰ : (p : A → Bool) {xs ys : List A} → Permᴰ xs ys → Perm (filter p xs) (filter p ys)
  filter-permᴰ p Permᴰ.nil = Perm.refl []
  filter-permᴰ p (Permᴰ.cons {a} {b} {l₁} {l₂} e h) =
      subst (λ y. Perm (filter p (a ∷ l₁)) (filter p (y ∷ l₂))) e
        (filter-cons p a l₁ l₂ (filter-permᴰ p h))
  filter-permᴰ p (Permᴰ.swap {a} {b} {a'} {b'} {l} e d) =
      subst₂ (λ y z. Perm (filter p (a ∷ b ∷ l)) (filter p (z ∷ y ∷ l))) e d (filter-swap p a b l)
  filter-permᴰ p (Permᴰ.trans h k) = Perm.trans (filter-permᴰ p h) (filter-permᴰ p k)

  pub filter-perm : (p : A → Bool) {xs ys : List A} → Perm xs ys → Perm (filter p xs) (filter p ys)
  filter-perm p h = ∥∥₁_elim h Perm-prop (filter-permᴰ p)

  sum_by-permᴰ : (f : A → ℕ) {xs ys : List A} → Permᴰ xs ys → sum_by f xs ≡ sum_by f ys
  sum_by-permᴰ f Permᴰ.nil = refl
  sum_by-permᴰ f (Permᴰ.cons e h) = omega (arith, ap f e, sum_by-permᴰ f h)
  sum_by-permᴰ f (Permᴰ.swap e d) = omega (arith, ap f e, ap f d)
  sum_by-permᴰ f (Permᴰ.trans h k) = sum_by-permᴰ f h ∙ sum_by-permᴰ f k

  pub sum_by-perm : (f : A → ℕ) {xs ys : List A} → Perm xs ys → sum_by f xs ≡ sum_by f ys
  sum_by-perm f h = ∥∥₁_elim h (ℕ_set _ _) (sum_by-permᴰ f)
