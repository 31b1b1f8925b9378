-- ===== src/Prelude/Lists.antt =====
-- Lists measured by native numbers, and the closures of an iterator as Boolean tests.
use Prim.Native.Nat.{ℕ, suc, ◌+◌, ◌≤◌}
use mathlib.Core.Path.{◌≡◌, refl, ap, subst, ◌∙◌}
use mathlib.Core.Bool.{Bool, true, false, not, ◌&&◌, ◌||◌}
use mathlib.Core.Option.{Option, none, some}
use mathlib.Core.List.{List, [], ◌∷◌, ◌++◌, Permᴰ}
use native.Mathlib.Omega.{arith}
use repo_link.Prelude.Tests.{if◌then◌else◌}
use repo_link.Prelude.Equality.{Eq, ◌==◌}

module _ {ℓ} {A : Type ℓ} where
  abbrev pub length : List A → ℕ
  length [] = 0
  length (x ∷ xs) = suc (length xs)

  -- `iter().any(p)` and `iter().all(p)`
  unfoldable pub any : (A → Bool) → List A → Bool
  any p [] = false
  any p (x ∷ xs) = p x || any p xs

  unfoldable pub all : (A → Bool) → List A → Bool
  all p [] = true
  all p (x ∷ xs) = p x && all p xs

  -- `Vec::retain`, and `iter().filter(p).collect()`
  unfoldable pub retain : (A → Bool) → List A → List A
  retain p [] = []
  retain p (x ∷ xs) = if p x then x ∷ retain p xs else retain p xs

  -- `iter().find(p)`
  unfoldable pub find : (A → Bool) → List A → Option A
  find p [] = none
  find p (x ∷ xs) = if p x then some x else find p xs

  pub length-append : (xs ys : List A) → length (xs ++ ys) ≡ length xs + length ys
  length-append [] ys = omega arith
  length-append (x ∷ xs) ys = omega (arith, length-append xs ys)

  pub any-append : (p : A → Bool) (xs ys : List A) → any p (xs ++ ys) ≡ (any p xs || any p ys)
  unfolding any
  any-append p [] ys = refl
  any-append p (x ∷ xs) ys = ground (arith, any-append p xs ys)

  pub length-retain-le : (p : A → Bool) (xs : List A) → length (retain p xs) ≤ length xs
  unfolding retain
  length-retain-le p [] = omega arith
  length-retain-le p (x ∷ xs) = ground (arith, length-retain-le p xs)

  -- A filter that drops nothing by count drops nothing.
  pub retain_all : (p : A → Bool) (xs : List A) → any (λ x. not (p x)) xs ≡ false → retain p xs ≡ xs
  unfolding any retain
  retain_all p [] h = refl
  retain_all p (x ∷ xs) h = ground (arith, retain_all p xs)

  pub length-retain-lt :
      (p : A → Bool) (xs : List A)
      → any (λ x. not (p x)) xs ≡ true
      → suc (length (retain p xs)) ≤ length xs
  unfolding any retain
  length-retain-lt p [] h = cc
  length-retain-lt p (x ∷ xs) h = ground (arith, length-retain-lt p xs, length-retain-le p xs)

  pub any-retain : (q p : A → Bool) (xs : List A) → any q xs ≡ false → any q (retain p xs) ≡ false
  unfolding any retain
  any-retain q p [] h = refl
  any-retain q p (x ∷ xs) h = ground (arith, any-retain q p xs)

  pub all-any-not : (p : A → Bool) (xs : List A) → all p xs ≡ not (any (λ x. not (p x)) xs)
  unfolding any all
  all-any-not p [] = refl
  all-any-not p (x ∷ xs) = ground (arith, all-any-not p xs)

module _ {ℓ} {A : Type ℓ} ⦃e : Eq A⦄ where
  -- `xs.contains(&a)`
  unfoldable pub contains : List A → A → Bool
  contains [] a = false
  contains (x ∷ xs) a = x == a || contains xs a

  -- A test that holds of all elements holds of each.
  pub all-contains :
      (p : A → Bool) (xs : List A) (a : A) → all p xs ≡ true → contains xs a ≡ true → p a ≡ true
  unfolding all contains
  all-contains p [] a h c = cc
  all-contains p (x ∷ xs) a h c = elim (e.dec_eq x a) [
    | yes q ↦ subst (λ y. p y ≡ true) q (ground arith)
    | no n ↦ all-contains p xs a (ground arith) (ground arith)
  ]

  -- And a test that holds of each holds of all.
  pub all_of_contains :
      (p : A → Bool) (xs : List A) → ((a : A) → contains xs a ≡ true → p a ≡ true) → all p xs ≡ true
  unfolding all contains
  all_of_contains p [] h = refl
  all_of_contains p (x ∷ xs) h =
      ground (
        arith,
        h x,
        all_of_contains p xs (λ (a : A) (c : contains xs a ≡ true). h a (ground arith)),
      )

  -- Every element of the second list is in the first.
  abbrev pub includes : List A → List A → Bool
  includes xs ys = all (contains xs) ys

  pub includes_refl : (xs : List A) → includes xs xs ≡ true
  includes_refl xs = all_of_contains (contains xs) xs (λ a c. c)

  pub includes_trans :
      (xs ys zs : List A) → includes xs ys ≡ true → includes ys zs ≡ true → includes xs zs ≡ true
  includes_trans xs ys zs p q =
      all_of_contains (contains xs) zs
        (λ a c. all-contains (contains xs) ys a p (all-contains (contains ys) zs a q c))

  pub includes_of_eq :
      (xs ys : List A) → ((a : A) → contains xs a ≡ contains ys a) → includes xs ys ≡ true
  includes_of_eq xs ys h = all_of_contains (contains xs) ys (λ a c. h a ∙ c)

  -- A permutation has the same elements.
  pub contains-permᴰ : {xs ys : List A} → Permᴰ xs ys → (a : A) → contains xs a ≡ contains ys a
  unfolding contains
  contains-permᴰ Permᴰ.nil a = refl
  contains-permᴰ (Permᴰ.cons x p) a = ground (arith, contains-permᴰ p a)
  contains-permᴰ (Permᴰ.swap p q) a = ground arith
  contains-permᴰ (Permᴰ.trans p q) a = contains-permᴰ p a ∙ contains-permᴰ q a

pub length-permᴰ {ℓ} : {A : Type ℓ} {xs ys : List A} → Permᴰ xs ys → length xs ≡ length ys
length-permᴰ Permᴰ.nil = refl
length-permᴰ (Permᴰ.cons x p) = ap suc (length-permᴰ p)
length-permᴰ (Permᴰ.swap p q) = refl
length-permᴰ (Permᴰ.trans p q) = length-permᴰ p ∙ length-permᴰ q
