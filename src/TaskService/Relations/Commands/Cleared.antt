-- ===== src/TaskService/Relations/Commands/Cleared.antt =====
-- What clearing the relations of a task does to the relation graph:
-- crates/application-task/src/service.rs.
use repo_link.Prelude.{
  Bool, true, false, not, ◌&&◌, ◌||◌, List, [], ◌∷◌, ◌++◌, ◌≡◌, refl, arith, sym, subst, ap, ◌∙◌,
  if◌then◌else◌, ◌==◌, nat_eq, any, contains, pairwise, Bool-cases, inl, inr,
}
use repo_link.Core.{TaskId, Timestamp}
use repo_link.Task.Enums.{RelationKind, relation_kind_eq}
use repo_link.Task.State.{Task}
use repo_link.Task.Edits.{remove_relation}
use repo_link.Task.Edits.Relations.{has_edge, remove_relation-removed}
use repo_link.TaskRepo.{TaskStore, get}
use repo_link.TaskRepo.Saved.{get-id}
use repo_link.TaskRepo.Unique.{is_unique}
use repo_link.TaskService.{done, or_fail, not_found, Directory}
use repo_link.TaskService.Answers.{bind-done, or_fail-done}
use repo_link.TaskService.Relations.{Clock}
use repo_link.TaskService.Relations.Commands.{
  ByOther, strip, Stripped, strip_all, relation_remote_coords_cached,
}
use repo_link.TaskService.Relations.Commands.Groups.{strips, other_task, all-others}
use repo_link.TaskService.Relations.Edges.{
  edge_of, Graph, put_all, get-edges, has_edge-remove_relation,
}
use repo_link.TaskService.Relations.Graph.{put_all-append, remove_relation-id}

-- The other task after the loop.
record IsStripped (id : TaskId) (ks : List RelationKind) (x : Task) (b : Bool) (y : Task × Bool)
    : Type 0 where
  named : y.0.id ≡ x.id
  edges :
      (k : RelationKind) (p : TaskId)
      → has_edge k p y.0.relations ≡ (has_edge k p x.relations && not (p == id && contains ks k))
  unchanged : y.1 ≡ false → (b ≡ false) × (y.0 ≡ x)

strip-IsStripped :
    (now : Timestamp) (id : TaskId) (ks : List RelationKind) (x : Task) (b : Bool)
    → IsStripped id ks x b (strip now id ks (x, b))
unfolding strip contains
strip-IsStripped now id [] x b = record {
  named = refl;
  edges = λ k p. ground arith;
  unchanged = λ e. (e, refl);
}
strip-IsStripped now id (j ∷ ks) x b =
    let r = remove_relation now j id x in
    let rest = strip-IsStripped now id ks r.0 (b || r.1) in
    record {
      named = rest.named ∙ remove_relation-id now j id x;
      edges = λ k p.
          rest.edges k p
          ∙ ap (λ h. h && not (p == id && contains ks k)) (has_edge-remove_relation now j k id p x)
          ∙ ground arith;
      unchanged = λ e.
          let u = rest.unchanged e in
          let kept : r.1 ≡ false = ground arith in
          (ground arith, u.1 ∙ (remove_relation-removed now j id x).1 kept);
    }

-- A task that is saved only if it changed, over the edges that were read.
put_stripped :
    (id : TaskId) (ks : List RelationKind) (x : Task) (y : Task × Bool) (h : Graph)
    → IsStripped id ks x false y
    → ((k : RelationKind) (p : TaskId) → h x.id k p ≡ has_edge k p x.relations)
    → (n : TaskId) (k : RelationKind) (p : TaskId)
    → put_all (if y.1 then y.0 ∷ [] else []) h n k p
      ≡ (h n k p && not (p == id && (x.id == n && contains ks k)))
put_stripped id ks x y h i e n k p = elim (Bool-cases y.1) [
  | inl c ↦ rw (c, i.named, i.edges k p) (ground (arith, e k p))
  | inr c ↦
      let same : has_edge k p x.relations
          ≡ (has_edge k p x.relations && not (p == id && contains ks k)) =
        ap (λ (z : Task). has_edge k p z.relations) (sym (i.unchanged c).1) ∙ i.edges k p in
      rw c (ground (arith, e k p))
]

both_gone :
    (o x n : TaskId) (ks : List RelationKind) (m : ByOther) (b : Bool) (p id : TaskId)
    (k : RelationKind)
    → x ≡ o
    → ((b && not (p == id && (x == n && contains ks k))) && not (p == id && strips m n k))
      ≡ (b && not (p == id && strips ((o, ks) ∷ m) n k))
unfolding strips any
both_gone o x n ks m b p id k at = ground arith

-- The edges that were read are still there for the tasks of the entries.
abbrev Untouched : TaskStore → ByOther → Graph → Type 0
Untouched s m h =
    (n : TaskId) (k : RelationKind) (p : TaskId)
    → any (λ e. e.0 == n) m ≡ true
    → h n k p ≡ edge_of s.rows n k p

entry_other :
    (o x n : TaskId) (ks : List RelationKind) (m : ByOther) (b : Bool) (p id : TaskId)
    (k : RelationKind)
    → x ≡ o
    → pairwise other_task ((o, ks) ∷ m) ≡ true
    → any (λ e. e.0 == n) m ≡ true
    → (b && not (p == id && (x == n && contains ks k))) ≡ b
unfolding pairwise
entry_other o x n ks m b p id k at d e = elim (Bool-cases (o == n)) [
  | inl y ↦
      let same : o ≡ n = ground arith in
      let gone : any (λ e. e.0 == n) m ≡ false =
        subst (λ z. any (λ e. e.0 == z) m ≡ false) same (ground (arith, all-others o ks m)) in
      absurd (ground arith)
  | inr f ↦ ground arith
]

pub strip_all-put :
    (dir : Directory) (clock : Clock) (s : TaskStore) (id : TaskId) (m : ByOther)
    (before after : Stripped) (g : Graph)
    → strip_all dir clock s id m before ≡ done after
    → is_unique s.rows ≡ true
    → pairwise other_task m ≡ true
    → Untouched s m (put_all before.others_changed g)
    → (n : TaskId) (k : RelationKind) (p : TaskId)
    → put_all after.others_changed g n k p
      ≡ (put_all before.others_changed g n k p && not (p == id && strips m n k))
unfolding strip_all strips any pairwise
strip_all-put dir clock s id [] before after g h u d i n k p =
    let same : before ≡ after = ground arith in
    ap (λ (z : Stripped). put_all z.others_changed g n k p) (sym same) ∙ ground arith
strip_all-put dir clock s id ((o, ks) ∷ m) before after g h u d i n k p =
    let (x, a, b) = bind-done (or_fail not_found (get o s)) _ after h in
    let read = or_fail-done not_found (get o s) x a in
    let at : x.id ≡ o = get-id o s x read in
    let y = strip (clock.edited x.id) id ks (x, false) in
    let (coords, c, rest) = bind-done (relation_remote_coords_cached dir y.0) _ after b in
    let old : Graph = put_all before.others_changed g in
    let agrees : (k : RelationKind) (p : TaskId) → old x.id k p ≡ has_edge k p x.relations = λ k p.
      i x.id k p (ground arith)
      ∙ subst (λ z. edge_of s.rows z k p ≡ has_edge k p x.relations) (sym at)
          (get-edges s o x k p u read) in
    let next : Stripped = record {
      others_changed = before.others_changed ++ (if y.1 then y.0 ∷ [] else []);
      coords_by_other = before.coords_by_other ++ (x.id, coords) ∷ [];
    } in
    let step : (n : TaskId) (k : RelationKind) (p : TaskId)
        → put_all next.others_changed g n k p
          ≡ (old n k p && not (p == id && (x.id == n && contains ks k))) =
      λ n k p.
        put_all-append before.others_changed (if y.1 then y.0 ∷ [] else []) g n k p
        ∙ put_stripped id ks x y old (strip-IsStripped (clock.edited x.id) id ks x false) agrees n k
            p in
    let later : Untouched s m (put_all next.others_changed g) = λ n k p e.
      step n k p ∙ entry_other o x.id n ks m (old n k p) p id k at d e ∙ i n k p (ground arith) in
    strip_all-put dir clock s id m next after g rest u (ground arith) later n k p
    ∙ ap (λ b. b && not (p == id && strips m n k)) (step n k p)
    ∙ both_gone o x.id n ks m (old n k p) p id k at
