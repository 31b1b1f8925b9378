-- ===== src/Task/Mirror/Assignees.antt =====
-- `assignees_equal` of crates/domain-task/src/task.rs compares the assignees as sets.
use repo_link.Prelude.{
  true, List, ◌≡◌, sym, arith, includes_refl, includes_trans, includes_of_eq, contains-permᴰ,
  length-permᴰ, nat_eq, list_eq,
}
use mathlib.Core.List.{Perm, Permᴰ}
use mathlib.Core.Bool.{Bool-set}
use mathlib.Core.Logic.{∥∥₁_elim}
use repo_link.Prelude.Text.{Text}
use repo_link.Task.Mirror.{same_set, assignees_equal}

pub assignees_equal_refl : (a : List Text) → assignees_equal a a ≡ true
unfolding assignees_equal same_set
assignees_equal_refl a = ground (arith, includes_refl a)

pub assignees_equal-sym :
    (a b : List Text) → assignees_equal a b ≡ true → assignees_equal b a ≡ true
unfolding assignees_equal same_set
assignees_equal-sym a b h = ground arith

pub assignees_equal_trans :
    (a b c : List Text)
    → assignees_equal a b ≡ true
    → assignees_equal b c ≡ true
    → assignees_equal a c ≡ true
unfolding assignees_equal same_set
assignees_equal_trans a b c p q = ground (arith, includes_trans c b a, includes_trans a b c)

assignees_equal-permᴰ : {a b : List Text} → Permᴰ a b → assignees_equal a b ≡ true
unfolding assignees_equal same_set
assignees_equal-permᴰ {a} {b} p = ground (
  arith,
  length-permᴰ p,
  includes_of_eq a b (contains-permᴰ p),
  includes_of_eq b a (λ x. sym (contains-permᴰ p x)),
)

pub assignees_equal-perm : (a b : List Text) → Perm a b → assignees_equal a b ≡ true
assignees_equal-perm a b p = ∥∥₁_elim p (Bool-set _ _) assignees_equal-permᴰ
