-- ===== src/TaskService/Cycles/Acyclic.antt =====
-- What the guard of `add_relation` keeps: crates/application-task/src/service.rs.
use repo_link.Prelude.{true, ◌≡◌, ◌≢◌, refl, sym, subst, ◌⊎◌, inl, inr, nat_eq}
use repo_link.Core.{TaskId}
use repo_link.TaskService.Cycles.{Up}
use repo_link.TaskService.Cycles.Walks.{is_up, Reach, here, step, Closes}

-- No task is upstream of itself.
pub record IsAcyclic (up : Up) : Type 0 where
  pub no_loop : (n : TaskId) → ¬ Closes up n n

reach_trans : {up : Up} {a b c : TaskId} → Reach up a b → Reach up b c → Reach up a c
reach_trans r here = r
reach_trans r (step s e) = step (reach_trans r s) e

last_step : {up : Up} {a b : TaskId} → Reach up a b → (a ≡ b) ⊎ Closes up a b
last_step here = inl refl
last_step (step {n} r e) = inr (record { last = n; reached = r; edge = e })

-- Another map with the edges of the first, and perhaps that from `x` to `y`.
abbrev pub Extends : TaskId → TaskId → Up → Up → Type 0
Extends x y up new =
    (n p : TaskId) → is_up new n p ≡ true → (is_up up n p ≡ true) ⊎ ((n ≡ x) × (p ≡ y))

module _ (up new : Up) (x y : TaskId) (ext : Extends x y up new) where
  -- A path of the new map is one of the old, or passes the new edge and is one after it.
  split_reach : {a b : TaskId} → Reach new a b → Reach up a b ⊎ (Reach up a x × Reach up y b)
  split_reach here = inl here
  split_reach {a} (step {n} {p} r e) = elim (split_reach r) [
    | inl old ↦ elim (ext n p e) [
      | inl f ↦ inl (step old f)
      | inr (s, t) ↦ inr (subst (λ z. Reach up a z) s old, subst (λ z. Reach up y z) (sym t) here)
    ]
    | inr (before, after) ↦ elim (ext n p e) [
      | inl f ↦ inr (before, step after f)
      | inr (s, t) ↦ inr (before, subst (λ z. Reach up y z) (sym t) here)
    ]
  ]

  reach-Closes : x ≢ y → Reach up y x → Closes up y x
  reach-Closes d r = elim (last_step r) [ inl e ↦ absurd (d (sym e)) | inr c ↦ c ]

  loop-Closes : x ≢ y → (n : TaskId) → Closes new n n → Closes up n n ⊎ Closes up y x
  loop-Closes d n c = elim (split_reach c.reached) [
    | inl old ↦ elim (ext c.last n c.edge) [
      | inl f ↦ inl (record { last = c.last; reached = old; edge = f })
      | inr (s, t) ↦
          let ends = subst (λ z. Reach up n z) s old in
          inr (reach-Closes d (subst (λ z. Reach up z x) t ends))
    ]
    | inr (before, after) ↦ elim (ext c.last n c.edge) [
      | inl f ↦ inr (reach-Closes d (reach_trans (step after f) before))
      | inr (s, t) ↦ inr (reach-Closes d (subst (λ z. Reach up z x) t before))
    ]
  ]

  pub extend-IsAcyclic : x ≢ y → ¬ Closes up y x → IsAcyclic up → IsAcyclic new
  extend-IsAcyclic d free a = record {
    no_loop = λ n c. elim (loop-Closes d n c) [ inl old ↦ a.no_loop n old | inr k ↦ free k ];
  }

module _ (up new : Up) (sub : (n p : TaskId) → is_up new n p ≡ true → is_up up n p ≡ true) where
  sub_reach : {a b : TaskId} → Reach new a b → Reach up a b
  sub_reach here = here
  sub_reach (step {n} {p} r e) = step (sub_reach r) (sub n p e)

  pub mono-IsAcyclic : IsAcyclic up → IsAcyclic new
  mono-IsAcyclic a = record {
    no_loop = λ n c.
        a.no_loop n
          (record { last = c.last; reached = sub_reach c.reached; edge = sub c.last n c.edge });
  }
