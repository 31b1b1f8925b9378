-- ===== src/Prelude/Equality.antt =====
-- `==` of the source's `PartialEq` types, as a decision. A type that has it is an instance.
use Prim.Native.Nat.{ℕ}
use mathlib.Core.Path.{◌≡◌, refl, ap, ap₂}
use mathlib.Core.Bool.{Bool, true, false}
use mathlib.Core.Option.{Option, none, some}
use mathlib.Core.List.{List, [], ◌∷◌}
use native.Mathlib.Decide.{ℕ_discrete}

pub record Eq {ℓ} (A : Type ℓ) : Type ℓ where
  pub dec_eq : Discrete A

abbrev pub is_yes {ℓ} : {A : Type ℓ} → Dec A → Bool
is_yes (yes _) = true
is_yes (no _) = false

infix 50 ◌==◌
abbrev pub ◌==◌ {ℓ} : {A : Type ℓ} ⦃e : Eq A⦄ → A → A → Bool
◌==◌ ⦃e⦄ a b = is_yes (e.dec_eq a b)

instance abbrev pub nat_eq : Eq ℕ
nat_eq = record { dec_eq = ℕ_discrete }

module _ {ℓ} {A : Type ℓ} where
  dec_cons : {x y : A} {xs ys : List A} → Dec (x ≡ y) → Dec (xs ≡ ys) → Dec ((x ∷ xs) ≡ (y ∷ ys))
  dec_cons (yes p) (yes q) = yes (ap₂ ◌∷◌ p q)
  dec_cons (yes p) (no n) = no (λ e. n (cc))
  dec_cons (no n) d = no (λ e. n (cc))

  unfoldable pub List-discrete : Discrete A → Discrete (List A)
  unfolding dec_cons
  List-discrete d [] [] = yes refl
  List-discrete d [] (y ∷ ys) = no (λ e. cc)
  List-discrete d (x ∷ xs) [] = no (λ e. cc)
  List-discrete d (x ∷ xs) (y ∷ ys) = dec_cons (d x y) (List-discrete d xs ys)

  dec_some : {x y : A} → Dec (x ≡ y) → Dec (some x ≡ some y)
  dec_some (yes p) = yes (ap some p)
  dec_some (no n) = no (λ e. n (cc))

  unfoldable pub Option-discrete : Discrete A → Discrete (Option A)
  unfolding dec_some
  Option-discrete d none none = yes refl
  Option-discrete d none (some y) = no (λ e. cc)
  Option-discrete d (some x) none = no (λ e. cc)
  Option-discrete d (some x) (some y) = dec_some (d x y)

instance abbrev pub list_eq {ℓ} : {A : Type ℓ} ⦃e : Eq A⦄ → Eq (List A)
list_eq ⦃e⦄ = record { dec_eq = List-discrete e.dec_eq }

instance abbrev pub option_eq {ℓ} : {A : Type ℓ} ⦃e : Eq A⦄ → Eq (Option A)
option_eq ⦃e⦄ = record { dec_eq = Option-discrete e.dec_eq }
