-- ===== src/TaskService/Relations/Families.antt =====
-- The two directed families of relations, blocks and ancestry, after an edge is added or removed:
-- crates/application-task/src/service.rs.
use repo_link.Prelude.{
  unwrap_or, true, false, ◌||◌, ◌≡◌, ◌≢◌, arith, ◌==◌, nat_eq, Bool-cases, inl, inr,
}
use repo_link.Core.{TaskId}
use repo_link.Task.Enums.{
  RelationKind, parent_of, child_of, blocked_by, blocks, related_to, duplicates, inverse,
  relation_kind_eq,
}
use repo_link.TaskRepo.{TaskStore}
use repo_link.TaskService.Cycles.{cycle_axis}
use repo_link.TaskService.Cycles.Walks.{is_up}
use repo_link.TaskService.Cycles.Acyclic.{IsAcyclic, extend-IsAcyclic, mono-IsAcyclic}
use repo_link.TaskService.Relations.{up_in, would_create_cycle, closes_cycle}
use repo_link.TaskService.Relations.Edges.{edge_of}
use repo_link.TaskService.Relations.Graph.{joins}
use repo_link.TaskService.Relations.Upstream.{is_up-up_in, guard_passes}

module _ (s s' : TaskStore) (forward backward : RelationKind)
    (apart : (forward == backward) ≡ false) where
  -- Edges that were there keep a family free of cycles.
  pub fewer-IsAcyclic :
      ((n : TaskId) (k : RelationKind) (p : TaskId)
        → edge_of s'.rows n k p ≡ true
        → edge_of s.rows n k p ≡ true)
      → IsAcyclic (up_in forward backward s)
      → IsAcyclic (up_in forward backward s')
  fewer-IsAcyclic sub a =
      mono-IsAcyclic (up_in forward backward s) (up_in forward backward s')
        (λ n p e.
          let old = is_up-up_in forward backward s n p apart in
          let new = is_up-up_in forward backward s' n p apart in
          ground (arith, sub n forward p, sub p backward n))
        a

  module _ (kind : RelationKind) (a b x y : TaskId)
      (edges : (n : TaskId) (k : RelationKind) (p : TaskId)
        → edge_of s'.rows n k p ≡ (edge_of s.rows n k p || joins kind a b n k p)) where
    -- So does one more edge that the guard let pass.
    more-IsAcyclic :
        ((n p : TaskId)
          → (joins kind a b n forward p || joins kind a b p backward n) ≡ true
          → (n ≡ x) × (p ≡ y))
        → x ≢ y
        → unwrap_or (would_create_cycle forward backward x y s) true ≡ false
        → IsAcyclic (up_in forward backward s)
        → IsAcyclic (up_in forward backward s')
    more-IsAcyclic only d free =
        extend-IsAcyclic (up_in forward backward s) (up_in forward backward s') x y
          (λ n p e.
            let old = is_up-up_in forward backward s n p apart in
            let new = is_up-up_in forward backward s' n p apart in
            elim (Bool-cases (is_up (up_in forward backward s) n p)) [
              | inl before ↦ inl before
              | inr fresh ↦ inr (only n p (ground (arith, edges n forward p, edges p backward n)))
            ])
          d (guard_passes forward backward x y s free)

    same-IsAcyclic :
        ((n p : TaskId) → (joins kind a b n forward p || joins kind a b p backward n) ≡ false)
        → IsAcyclic (up_in forward backward s)
        → IsAcyclic (up_in forward backward s')
    same-IsAcyclic none_new =
        mono-IsAcyclic (up_in forward backward s) (up_in forward backward s') (λ n p e.
          let old = is_up-up_in forward backward s n p apart in
          let new = is_up-up_in forward backward s' n p apart in
          ground (arith, none_new n p, edges n forward p, edges p backward n))

pub blocking_apart : (blocked_by == blocks) ≡ false
blocking_apart = ground arith

pub ancestry_apart : (child_of == parent_of) ≡ false
ancestry_apart = ground arith

module _ (s s' : TaskStore) (a b : TaskId) (differ : (b == a) ≡ false) where
  -- The family of blocks after an edge that the guard let pass.
  pub related-blocking :
      (kind : RelationKind)
      → ((n : TaskId) (k : RelationKind) (p : TaskId)
          → edge_of s'.rows n k p ≡ (edge_of s.rows n k p || joins kind a b n k p))
      → closes_cycle kind a b s ≡ false
      → IsAcyclic (up_in blocked_by blocks s)
      → IsAcyclic (up_in blocked_by blocks s')
  unfolding closes_cycle cycle_axis joins inverse
  related-blocking blocked_by edges free =
      more-IsAcyclic s s' blocked_by blocks blocking_apart blocked_by a b a b edges
        (λ n p e. ground arith) (ground arith) free
  related-blocking blocks edges free =
      more-IsAcyclic s s' blocked_by blocks blocking_apart blocks a b b a edges
        (λ n p e. ground arith) (ground arith) free
  related-blocking parent_of edges free =
      same-IsAcyclic s s' blocked_by blocks blocking_apart parent_of a b a b edges
        (λ n p. ground arith)
  related-blocking child_of edges free =
      same-IsAcyclic s s' blocked_by blocks blocking_apart child_of a b a b edges
        (λ n p. ground arith)
  related-blocking related_to edges free =
      same-IsAcyclic s s' blocked_by blocks blocking_apart related_to a b a b edges
        (λ n p. ground arith)
  related-blocking duplicates edges free =
      same-IsAcyclic s s' blocked_by blocks blocking_apart duplicates a b a b edges
        (λ n p. ground arith)

  pub related-ancestry :
      (kind : RelationKind)
      → ((n : TaskId) (k : RelationKind) (p : TaskId)
          → edge_of s'.rows n k p ≡ (edge_of s.rows n k p || joins kind a b n k p))
      → closes_cycle kind a b s ≡ false
      → IsAcyclic (up_in child_of parent_of s)
      → IsAcyclic (up_in child_of parent_of s')
  unfolding closes_cycle cycle_axis joins inverse
  related-ancestry child_of edges free =
      more-IsAcyclic s s' child_of parent_of ancestry_apart child_of a b a b edges
        (λ n p e. ground arith) (ground arith) free
  related-ancestry parent_of edges free =
      more-IsAcyclic s s' child_of parent_of ancestry_apart parent_of a b b a edges
        (λ n p e. ground arith) (ground arith) free
  related-ancestry blocked_by edges free =
      same-IsAcyclic s s' child_of parent_of ancestry_apart blocked_by a b a b edges
        (λ n p. ground arith)
  related-ancestry blocks edges free =
      same-IsAcyclic s s' child_of parent_of ancestry_apart blocks a b a b edges
        (λ n p. ground arith)
  related-ancestry related_to edges free =
      same-IsAcyclic s s' child_of parent_of ancestry_apart related_to a b a b edges
        (λ n p. ground arith)
  related-ancestry duplicates edges free =
      same-IsAcyclic s s' child_of parent_of ancestry_apart duplicates a b a b edges
        (λ n p. ground arith)
