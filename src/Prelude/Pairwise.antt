-- ===== src/Prelude/Pairwise.antt =====
-- Tests of all elements of a list, and of each element against those behind it.
use mathlib.Core.Path.{◌≡◌, refl}
use mathlib.Core.Bool.{Bool, true, false, not, ◌&&◌}
use mathlib.Core.Option.{some}
use mathlib.Core.List.{List, [], ◌∷◌, ◌++◌, map}
use native.Mathlib.Omega.{arith}
use repo_link.Prelude.Tests.{Bool-cases}
use mathlib.Core.Logic.{inl, inr}
use repo_link.Prelude.Equality.{Eq, ◌==◌}
use repo_link.Prelude.Lists.{any, all, find, retain, contains}

module _ {ℓ} {A : Type ℓ} where
  pub all-append : (p : A → Bool) (xs ys : List A) → all p (xs ++ ys) ≡ (all p xs && all p ys)
  unfolding all
  all-append p [] ys = refl
  all-append p (x ∷ xs) ys = ground (arith, all-append p xs ys)

  pub all-not-any : (q : A → Bool) (xs : List A) → any q xs ≡ false → all (λ x. not (q x)) xs ≡ true
  unfolding all any
  all-not-any q [] h = refl
  all-not-any q (x ∷ xs) h = ground (arith, all-not-any q xs)

  pub all-any_not :
      (p q : A → Bool) (xs : List A)
      → ((x : A) → p x ≡ true → q x ≡ false)
      → all p xs ≡ true
      → any q xs ≡ false
  unfolding all any
  all-any_not p q [] f h = refl
  all-any_not p q (x ∷ xs) f h = ground (arith, f x, all-any_not p q xs f)

  pub all_mono :
      (p q : A → Bool) (xs : List A)
      → ((x : A) → p x ≡ true → q x ≡ true)
      → all p xs ≡ true
      → all q xs ≡ true
  unfolding all
  all_mono p q [] f h = refl
  all_mono p q (x ∷ xs) f h = ground (arith, f x, all_mono p q xs f)

  -- Two tests that hold of all elements give a third.
  pub all_mono₂ :
      (p q r : A → Bool) (xs : List A)
      → ((x : A) → p x ≡ true → q x ≡ true → r x ≡ true)
      → all p xs ≡ true
      → all q xs ≡ true
      → all r xs ≡ true
  unfolding all
  all_mono₂ p q r [] f h k = refl
  all_mono₂ p q r (x ∷ xs) f h k = ground (arith, f x, all_mono₂ p q r xs f)

  pub all-retain : (p q : A → Bool) (xs : List A) → all p xs ≡ true → all p (retain q xs) ≡ true
  unfolding all retain
  all-retain p q [] h = refl
  all-retain p q (x ∷ xs) h = ground (arith, all-retain p q xs)

  pub all-retain_self : (p : A → Bool) (xs : List A) → all p (retain p xs) ≡ true
  unfolding all retain
  all-retain_self p [] = refl
  all-retain_self p (x ∷ xs) = ground (arith, all-retain_self p xs)

  pub all-map :
      (p q : A → Bool) (f : A → A) (xs : List A)
      → ((x : A) → q x ≡ true → p (f x) ≡ true)
      → all q xs ≡ true
      → all p (map f xs) ≡ true
  unfolding all
  all-map p q f [] m h = refl
  all-map p q f (x ∷ xs) m h = ground (arith, m x, all-map p q f xs m)

  -- What holds of all elements holds of the one that is found, and so does the test.
  pub find-all :
      (p q : A → Bool) (xs : List A) (x : A)
      → all p xs ≡ true
      → find q xs ≡ some x
      → (p x ≡ true) × (q x ≡ true)
  unfolding all find
  find-all p q [] x h k = cc
  find-all p q (y ∷ xs) x h k = ground (arith, find-all p q xs x)

  -- A test that some element passes finds one.
  pub find_of_any : (p : A → Bool) (xs : List A) → any p xs ≡ true → (x : A) × (find p xs ≡ some x)
  unfolding any find
  find_of_any p [] h = cc
  find_of_any p (y ∷ xs) h = elim (Bool-cases (p y)) [
    | inl t ↦ (y, rw (t) refl)
    | inr f ↦ rw (f) (find_of_any p xs (ground arith))
  ]

  -- A relation holds of each element and each that stands behind it.
  unfoldable pub pairwise : (A → A → Bool) → List A → Bool
  unfolding all
  pairwise r [] = true
  pairwise r (x ∷ xs) = all (r x) xs && pairwise r xs

  pub pairwise-snoc :
      (r : A → A → Bool) (xs : List A) (y : A)
      → pairwise r xs ≡ true
      → all (λ x. r x y) xs ≡ true
      → pairwise r (xs ++ y ∷ []) ≡ true
  unfolding pairwise
  pairwise-snoc r [] y h k = refl
  pairwise-snoc r (x ∷ xs) y h k =
      ground (arith, all-append (r x) xs (y ∷ []), pairwise-snoc r xs y)

  pub pairwise-retain :
      (r : A → A → Bool) (q : A → Bool) (xs : List A)
      → pairwise r xs ≡ true
      → pairwise r (retain q xs) ≡ true
  unfolding pairwise retain
  pairwise-retain r q [] h = refl
  pairwise-retain r q (x ∷ xs) h = ground (arith, all-retain (r x) q xs, pairwise-retain r q xs)

  -- What a pairwise relation says of an element in the middle.
  pub pairwise_middle :
      (r : A → A → Bool) (xs : List A) (y : A) (zs : List A)
      → pairwise r (xs ++ y ∷ zs) ≡ true
      → (all (λ x. r x y) xs ≡ true) × (all (r y) zs ≡ true)
  unfolding pairwise
  pairwise_middle r [] y zs h = ground arith
  pairwise_middle r (x ∷ xs) y zs h =
      ground (arith, all-append (r x) xs (y ∷ zs), pairwise_middle r xs y zs)

  -- And what it asks of one that takes its place.
  pub pairwise_replace :
      (r : A → A → Bool) (xs : List A) (y y' : A) (zs : List A)
      → pairwise r (xs ++ y ∷ zs) ≡ true
      → all (λ x. r x y') xs ≡ true
      → all (r y') zs ≡ true
      → pairwise r (xs ++ y' ∷ zs) ≡ true
  unfolding pairwise
  pairwise_replace r [] y y' zs h k l = ground arith
  pairwise_replace r (x ∷ xs) y y' zs h k l = ground (
    arith,
    all-append (r x) xs (y ∷ zs),
    all-append (r x) xs (y' ∷ zs),
    pairwise_replace r xs y y' zs,
  )

  pub pairwise-map :
      (r : A → A → Bool) (f : A → A) (xs : List A)
      → ((x y : A) → r x y ≡ true → r (f x) (f y) ≡ true)
      → pairwise r xs ≡ true
      → pairwise r (map f xs) ≡ true
  unfolding pairwise
  pairwise-map r f [] m h = refl
  pairwise-map r f (x ∷ xs) m h =
      ground (arith, all-map (r (f x)) (r x) f xs (m x), pairwise-map r f xs m)

-- The elements whose key is new to a list that has grown by one key.
pub all_unseen {ℓ κ} :
    {A : Type ℓ} {K : Type κ} ⦃e : Eq K⦄ (key : A → K) (k : K) (seen : List K) (xs : List A)
    → all (λ x. not (contains (k ∷ seen) (key x))) xs
      ≡ (all (λ x. not (k == key x)) xs && all (λ x. not (contains seen (key x))) xs)
unfolding all contains
all_unseen key k seen [] = refl
all_unseen key k seen (x ∷ xs) = ground (arith, all_unseen key k seen xs)
