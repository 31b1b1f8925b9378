-- ===== src/TaskService/Relations/Commands/Emptied.antt =====
-- The relation graph after the relations of a task are cleared:
-- crates/application-task/src/service.rs.
use repo_link.Prelude.{
  Bool, true, false, not, ◌&&◌, ◌||◌, some, List, [], ◌∷◌, ◌≡◌, refl, arith, sym, subst, ap, ◌∙◌,
  ◌==◌, nat_eq, any, pairwise, Bool-cases, inl, inr, ◌⊎◌,
}
use repo_link.Core.{TaskId, Timestamp}
use repo_link.Task.Enums.{RelationKind, inverse, relation_kind_eq}
use repo_link.Task.Snapshot.{TaskRelation}
use repo_link.Task.Snapshot.Source.{local_edit}
use repo_link.Task.State.{Task}
use repo_link.Task.Edits.{clear_relations}
use repo_link.Task.Edits.Relations.{has_edge}
use repo_link.TaskRepo.{TaskStore, get}
use repo_link.TaskRepo.Unique.{is_unique}
use repo_link.TaskService.{done, Directory, Stores}
use repo_link.TaskService.Answers.{bind-done}
use repo_link.TaskService.Relations.{Clock}
use repo_link.TaskService.Relations.Commands.{
  ByOther, group, Stripped, strip_all, relation_remote_coords_cached, unlinks, cleared,
}
use repo_link.TaskService.Relations.Commands.Groups.{
  strips, IsOrder, strips-group, group-once, group-others,
}
use repo_link.TaskService.Relations.Commands.Cleared.{strip_all-put}
use repo_link.TaskService.Relations.Edges.{edge_of, Graph, put, get-edges, save_many-Graph}
use repo_link.TaskService.Relations.Graph.{IsMirrored}
use repo_link.TaskService.Relations.Succeeded.{saved_as-done}

-- Clearing takes away every edge that has the task at either end, and leaves the others, in a graph
-- whose edges have their reciprocals.
abbrev pub Emptied : TaskId → Graph → Graph → Type 0
Emptied id g h =
    (n : TaskId) (k : RelationKind) (p : TaskId) → h n k p ≡ (g n k p && not (n == id || p == id))

-- The edge to a task is its reciprocal's.
unmirrored :
    (s : TaskStore) (t : Task) (n : TaskId) (k : RelationKind)
    → IsMirrored s
    → is_unique s.rows ≡ true
    → get t.id s ≡ some t
    → edge_of s.rows n k t.id ≡ has_edge (inverse k) n t.relations
unmirrored s t n k m u r = m n k t.id ∙ get-edges s t.id t (inverse k) n u r

without_edges :
    (s : TaskStore) (t : Task)
    → t.relations ≡ []
    → IsMirrored s
    → is_unique s.rows ≡ true
    → get t.id s ≡ some t
    → Emptied t.id (edge_of s.rows) (edge_of s.rows)
unfolding any
without_edges s t e m u r n k p =
    let from : edge_of s.rows t.id k p ≡ false = get-edges s t.id t k p u r ∙ ap (has_edge k p) e in
    let to : edge_of s.rows n k t.id ≡ false =
      unmirrored s t n k m u r ∙ ap (has_edge (inverse k) n) e in
    elim (Bool-cases (n == t.id)) [
      | inl y ↦
          let same : t.id ≡ n = ground arith in
          let gone : edge_of s.rows n k p ≡ false =
            subst (λ z. edge_of s.rows z k p ≡ false) same from in
          ground arith
      | inr f ↦ elim (Bool-cases (p == t.id)) [
        | inl y ↦
            let same : t.id ≡ p = ground arith in
            let gone : edge_of s.rows n k p ≡ false =
              subst (λ z. edge_of s.rows n k z ≡ false) same to in
            ground arith
        | inr g ↦ ground arith
      ]
    ]

-- What the batch leaves: of the task nothing, and of the others what was not stripped.
emptied_by :
    (s : TaskStore) (t : Task) (n : TaskId) (k : RelationKind) (p : TaskId) (b : Bool)
    → IsMirrored s
    → is_unique s.rows ≡ true
    → get t.id s ≡ some t
    → b ≡ (not (n == t.id) && has_edge (inverse k) n t.relations)
    → (not (t.id == n) && edge_of s.rows n k p && not (p == t.id && b))
      ≡ (edge_of s.rows n k p && not (n == t.id || p == t.id))
emptied_by s t n k p b m u r e = elim (Bool-cases (p == t.id)) [
  | inl y ↦
      let same : t.id ≡ p = ground arith in
      let to : edge_of s.rows n k p ≡ has_edge (inverse k) n t.relations =
        subst (λ z. edge_of s.rows n k z ≡ has_edge (inverse k) n t.relations) same
          (unmirrored s t n k m u r) in
      ground arith
  | inr f ↦ ground arith
]

-- The task after its relations are cleared, and the edges that it had.
record IsCleared (t : Task) (y : Task × List TaskRelation) : Type 0 where
  named : y.0.id ≡ t.id
  empty : y.0.relations ≡ []
  had : y.1 ≡ t.relations

cleared_list :
    (rs : List TaskRelation)
    → (rs ≡ []) ⊎ ((r : TaskRelation) × (rest : List TaskRelation) × (rs ≡ r ∷ rest))
cleared_list [] = inl refl
cleared_list (r ∷ rs) = inr (r, rs, refl)

clear_relations-IsCleared : (now : Timestamp) (t : Task) → IsCleared t (clear_relations now t)
unfolding clear_relations
clear_relations-IsCleared now t = elim (cleared_list t.relations) [
  | inl e ↦ record { named = ground arith; empty = ground arith; had = ground arith }
  | inr (r, rs, e) ↦ record { named = ground arith; empty = ground arith; had = ground arith }
]

left_of :
    (t x : Task) (old : Graph) (n : TaskId) (k : RelationKind) (p : TaskId) (b : Bool)
    → x.id ≡ t.id
    → x.relations ≡ []
    → (put x old n k p && not (p == x.id && b))
      ≡ (not (t.id == n) && old n k p && not (p == t.id && b))
unfolding any
left_of t x old n k p b i e =
    let none_left : has_edge k p x.relations ≡ false = ap (has_edge k p) e in ground (arith, i)

group-stripped :
    (shuffle : ByOther → ByOther) (id : TaskId) (rs : List TaskRelation) (n : TaskId)
    (k : RelationKind)
    → IsOrder shuffle
    → strips (shuffle (group id rs [])) n k ≡ (not (n == id) && has_edge (inverse k) n rs)
unfolding strips any
group-stripped shuffle id rs n k order = order.same _ (group id rs []) ∙ strips-group id rs [] n k

-- The entries are not of the task itself, so what was put of it leaves their edges.
group-untouched :
    (shuffle : ByOther → ByOther) (id : TaskId) (rs : List TaskRelation) (x : Task) (old : Graph)
    (n : TaskId) (k : RelationKind) (p : TaskId)
    → IsOrder shuffle
    → x.id ≡ id
    → any (λ e. e.0 == n) (shuffle (group id rs [])) ≡ true
    → put x old n k p ≡ old n k p
unfolding any
group-untouched shuffle id rs x old n k p order e i = elim (Bool-cases (x.id == n)) [
  | inl y ↦
      let same : id ≡ n = ground arith in
      let own : any (λ e. e.0 == id) (shuffle (group id rs [])) ≡ false =
        order.same (λ e. e.0 == id) (group id rs []) ∙ group-others id rs [] refl in
      let gone : any (λ e. e.0 == n) (shuffle (group id rs [])) ≡ false =
        subst (λ z. any (λ e. e.0 == z) (shuffle (group id rs [])) ≡ false) same own in
      absurd (ground arith)
  | inr f ↦ rw f refl
]

cleared-Emptied :
    (shuffle : ByOther → ByOther) (dir : Directory) (clock : Clock) (t : Task)
    (y : Task × List TaskRelation) (v : Task) (s s' : Stores)
    → IsOrder shuffle
    → IsCleared t y
    → cleared shuffle dir clock y s ≡ done (s', v)
    → IsMirrored s.tasks
    → is_unique s.tasks.rows ≡ true
    → get t.id s.tasks ≡ some t
    → (is_unique s'.tasks.rows ≡ true) × Emptied t.id (edge_of s.tasks.rows) (edge_of s'.tasks.rows)
unfolding cleared pairwise
cleared-Emptied shuffle dir clock t (x, []) v s s' order c h m u g =
    let same : s ≡ s' = ground arith in
    let none_left = without_edges s.tasks t (sym c.had) m u g in
    (
      subst (λ (z : Stores). is_unique z.tasks.rows ≡ true) same u,
      subst (λ (z : Stores). Emptied t.id (edge_of s.tasks.rows) (edge_of z.tasks.rows)) same
          none_left,
    )
cleared-Emptied shuffle dir clock t (x, r ∷ rs) v s s' order c h m u g =
    let by_other = shuffle (group x.id (r ∷ rs) []) in
    let nothing : Stripped = record { others_changed = []; coords_by_other = [] } in
    let (out, a, b) = bind-done (strip_all dir clock s.tasks x.id by_other nothing) _ (s', v) h in
    let (here, d, e) = bind-done (relation_remote_coords_cached dir x) _ (s', v) b in
    let saving =
      saved_as-done clock x v (x ∷ out.others_changed)
        (unlinks clock 0 x.id here out.coords_by_other (r ∷ rs)) s s' e in
    let old : Graph = edge_of s.tasks.rows in
    let (unique, edges) =
      save_many-Graph clock.captured local_edit (x ∷ out.others_changed) s.tasks s'.tasks old saving
        u (λ n k p. refl) in
    (
      unique,
      λ n k p.
          edges n k p
          ∙ strip_all-put dir clock s.tasks x.id by_other nothing out (put x old) a u
              (order.once _ (group-once x.id (r ∷ rs) [] refl))
              (λ n k p i. group-untouched shuffle x.id (r ∷ rs) x old n k p order refl i) n k p
          ∙ left_of t x old n k p (strips by_other n k) c.named c.empty
          ∙ emptied_by s.tasks t n k p (strips by_other n k) m u g (
              subst
                (λ z. strips by_other n k ≡ (not (n == z) && has_edge (inverse k) n t.relations))
                c.named
                (subst (λ z. strips by_other n k ≡ (not (n == x.id) && has_edge (inverse k) n z))
                  c.had (group-stripped shuffle x.id (r ∷ rs) n k order))),
    )

pub clear_relations-Emptied :
    (shuffle : ByOther → ByOther) (dir : Directory) (clock : Clock) (t v : Task) (s s' : Stores)
    → IsOrder shuffle
    → cleared shuffle dir clock (clear_relations (clock.edited t.id) t) s ≡ done (s', v)
    → IsMirrored s.tasks
    → is_unique s.tasks.rows ≡ true
    → get t.id s.tasks ≡ some t
    → (is_unique s'.tasks.rows ≡ true) × Emptied t.id (edge_of s.tasks.rows) (edge_of s'.tasks.rows)
clear_relations-Emptied shuffle dir clock t v s s' order h m u g =
    cleared-Emptied shuffle dir clock t _ v s s' order
      (clear_relations-IsCleared (clock.edited t.id) t) h m u g
