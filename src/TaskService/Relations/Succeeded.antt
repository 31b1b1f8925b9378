-- ===== src/TaskService/Relations/Succeeded.antt =====
-- What a command that succeeds has passed and saved: crates/application-task/src/service.rs.
use repo_link.Prelude.{
  true, false, not, some, List, [], ◌∷◌, ◌++◌, ◌≡◌, arith, ap, ◌∙◌, ◌==◌, nat_eq, any,
}
use repo_link.Task.Enums.{RelationKind, inverse, relation_kind_eq}
use repo_link.Task.Snapshot.Source.{local_edit}
use repo_link.Task.State.{Task}
use repo_link.Task.Edits.{is_edge, add_relation, remove_relation}
use repo_link.Sync.Outbox.{OutboxEntry}
use repo_link.TaskService.{
  done, or_fail, conflict, Directory, Stores, save_many, save_many_with_outbox,
}
use repo_link.TaskService.Answers.{bind-done, unless-done, or_fail-done}
use repo_link.TaskService.Relations.{
  Clock, closes_cycle, plan_if, plan_relation_entries, saved_as, save_changed, changed, relate,
  unrelate,
}

pub saved_as-done :
    (clock : Clock) (t v : Task) (batch : List Task) (entries : List OutboxEntry) (s s' : Stores)
    → saved_as clock t batch entries s ≡ done (s', v)
    → save_many clock.captured local_edit batch s.tasks ≡ some s'.tasks
unfolding saved_as save_many_with_outbox
saved_as-done clock t v batch entries s s' h =
    let (m, a, b) =
      bind-done (save_many_with_outbox clock.captured local_edit batch entries s) _ _ h in
    let (x, c, d) =
      bind-done (or_fail conflict (save_many clock.captured local_edit batch s.tasks)) _ _ a in
    let e : x ≡ s'.tasks = ground arith in or_fail-done conflict _ x c ∙ ap some e

pub save_changed-done :
    (clock : Clock) (t v : Task) (batch : List Task) (entries : List OutboxEntry) (s s' : Stores)
    → save_changed clock t batch entries s ≡ done (s', v)
    → save_many clock.captured local_edit batch s.tasks ≡ some s'.tasks
unfolding save_changed save_many
save_changed-done clock t v [] entries s s' h = ground arith
save_changed-done clock t v (c ∷ batch) entries s s' h =
    saved_as-done clock t v (c ∷ batch) entries s s' h

pub relate-done :
    (dir : Directory) (clock : Clock) (kind : RelationKind) (t other v : Task) (s s' : Stores)
    → relate dir clock kind t other s ≡ done (s', v)
    → ((other.id == t.id) ≡ false)
      × (closes_cycle kind t.id other.id s.tasks ≡ false)
      × (save_many clock.captured local_edit
            (add_relation (clock.edited t.id) kind other.id t
              ∷ add_relation (clock.edited other.id) (inverse kind) t.id other
              ∷ [])
            s.tasks
          ≡ some s'.tasks)
unfolding relate
relate-done dir clock kind t other v s s' h =
    let (n, g) = unless-done (other.id == t.id) _ _ _ h in
    let (c, k) = unless-done (closes_cycle kind t.id other.id s.tasks) _ _ _ g in
    let t' = add_relation (clock.edited t.id) kind other.id t in
    let other' = add_relation (clock.edited other.id) (inverse kind) t.id other in
    let plan =
      plan_if (not (any (is_edge kind other.id) t.relations))
        (plan_relation_entries dir clock kind true t' other') in
    let (entries, a, b) =
      bind-done plan (λ entries. saved_as clock t' (t' ∷ other' ∷ []) entries s) _ k in
    (n, c, saved_as-done clock t' v (t' ∷ other' ∷ []) entries s s' b)

pub unrelate-done :
    (dir : Directory) (clock : Clock) (kind : RelationKind) (t other v : Task) (s s' : Stores)
    → unrelate dir clock kind t other s ≡ done (s', v)
    → ((other.id == t.id) ≡ false)
      × (save_many clock.captured local_edit
            (changed (remove_relation (clock.edited t.id) kind other.id t)
              ++ changed (remove_relation (clock.edited other.id) (inverse kind) t.id other))
            s.tasks
          ≡ some s'.tasks)
unfolding unrelate
unrelate-done dir clock kind t other v s s' h =
    let (n, g) = unless-done (other.id == t.id) _ _ _ h in
    let a = remove_relation (clock.edited t.id) kind other.id t in
    let b = remove_relation (clock.edited other.id) (inverse kind) t.id other in
    let plan = plan_if a.1 (plan_relation_entries dir clock kind false a.0 b.0) in
    let batch = changed a ++ changed b in
    let (entries, p, q) = bind-done plan (λ entries. save_changed clock a.0 batch entries s) _ g in
    (n, save_changed-done clock a.0 v batch entries s s' q)
