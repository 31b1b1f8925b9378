-- ===== src/Poller/Maps.antt =====
-- The hash maps of crates/application-sync/src/poller.rs, keyed by text.
use repo_link.Prelude.{
  Option, none, some, List, [], ◌∷◌, ◌≡◌, ◌≢◌, arith, if◌then◌else◌, ◌==◌, nat_eq, list_eq,
}
use repo_link.Prelude.Text.{Text}

module _ {ℓ} {A : Type ℓ} where
  -- `HashMap::get`
  unfoldable pub entry : Text → List (Text × A) → Option A
  entry k [] = none
  entry k ((j, a) ∷ xs) = if j == k then some a else entry k xs

  -- `HashMap::insert`
  unfoldable pub put : Text → A → List (Text × A) → List (Text × A)
  put k a [] = (k, a) ∷ []
  put k a ((j, b) ∷ xs) = if j == k then (k, a) ∷ xs else (j, b) ∷ put k a xs

  pub entry-put : (k : Text) (a : A) (xs : List (Text × A)) → entry k (put k a xs) ≡ some a
  unfolding entry put
  entry-put k a [] = ground arith
  entry-put k a ((j, b) ∷ xs) = ground (arith, entry-put k a xs)

  pub entry-put_other :
      (k j : Text) (a : A) (xs : List (Text × A)) → k ≢ j → entry j (put k a xs) ≡ entry j xs
  unfolding entry put
  entry-put_other k j a [] n = ground arith
  entry-put_other k j a ((i, b) ∷ xs) n = ground (arith, entry-put_other k j a xs)

  pub put-put : (k : Text) (a b : A) (xs : List (Text × A)) → put k a (put k b xs) ≡ put k a xs
  unfolding put
  put-put k a b [] = ground arith
  put-put k a b ((j, c) ∷ xs) = ground (arith, put-put k a b xs)

  -- What is there may be put again.
  pub put-entry : (k : Text) (a : A) (xs : List (Text × A)) → entry k xs ≡ some a → put k a xs ≡ xs
  unfolding entry put
  put-entry k a [] h = ground arith
  put-entry k a ((j, b) ∷ xs) h = ground (arith, put-entry k a xs)
