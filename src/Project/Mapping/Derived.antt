-- ===== src/Project/Mapping/Derived.antt =====
-- The seeded mappings are ones that a board admits: crates/domain-project/src/mapping.rs, status.rs and priority.rs.
use repo_link.Prelude.{
  ℕ, zero, suc, ◌-◌, ◌<◌, min, Bool, true, some, List, [], ◌∷◌, ◌≡◌, refl, arith, list_eq, nat_eq,
  length, any, all, find, pairwise, contains,
}
use repo_link.Prelude.Text.{Text, codes}
use repo_link.Task.Enums.{Priority, p0, p1, p2, p3, priority_eq}
use repo_link.Project.Field.{FieldOption}
use repo_link.Project.Mapping.{
  first, last, normalize, first_matching, open_option, closed_option, push_mapping,
  derive_status_mappings, insert_by_ordinal, sort_by_ordinal, option_at, priority_row,
  derive_priority_mappings,
}
use repo_link.Project.Board.{owns, bool_eq}
use repo_link.Project.Board.Valid.{AreMapped, ArePrioritised}

owns-find :
    (p : FieldOption → Bool) (os : List FieldOption) (o : FieldOption)
    → find p os ≡ some o
    → owns os o.option_id ≡ true
unfolding find any
owns-find p [] o h = ground arith
owns-find p (x ∷ os) o h = ground (arith, owns-find p os o)

owns-last :
    (os : List FieldOption) (o : FieldOption) → last os ≡ some o → owns os o.option_id ≡ true
unfolding last any
owns-last [] o h = ground arith
owns-last (x ∷ os) o h = grind (arith, owns-last os)

owns-first :
    (os : List FieldOption) (o : FieldOption) → first os ≡ some o → owns os o.option_id ≡ true
unfolding first any
owns-first [] o h = ground arith
owns-first (x ∷ os) o h = ground arith

owns-insert :
    (id : Text) (o : FieldOption) (os : List FieldOption)
    → owns (insert_by_ordinal o os) id ≡ owns (o ∷ os) id
unfolding insert_by_ordinal any
owns-insert id o [] = refl
owns-insert id o (x ∷ os) = ground (arith, owns-insert id o os)

-- Sorting keeps the options.
owns-sort : (id : Text) (os : List FieldOption) → owns (sort_by_ordinal os) id ≡ owns os id
unfolding sort_by_ordinal any
owns-sort id [] = refl
owns-sort id (o ∷ os) = ground (arith, owns-insert id o (sort_by_ordinal os), owns-sort id os)

length-insert :
    (o : FieldOption) (os : List FieldOption) → length (insert_by_ordinal o os) ≡ suc (length os)
unfolding insert_by_ordinal
length-insert o [] = refl
length-insert o (x ∷ os) = ground (arith, length-insert o os)

owns-option_at :
    (os : List FieldOption) (i : ℕ) (d : FieldOption)
    → i < length os
    → owns os (option_at os i d).option_id ≡ true
unfolding option_at any
owns-option_at [] i d h = ground arith
owns-option_at (x ∷ xs) zero d h = ground arith
owns-option_at (x ∷ xs) (suc i) d h = ground (arith, owns-option_at xs i d)

length-sort : (os : List FieldOption) → length (sort_by_ordinal os) ≡ length os
unfolding sort_by_ordinal
length-sort [] = refl
length-sort (o ∷ os) = ground (arith, length-insert o (sort_by_ordinal os), length-sort os)

owns_row :
    (o : FieldOption) (os : List FieldOption) (k : ℕ) (p : Priority)
    → owns (o ∷ os) (priority_row (sort_by_ordinal (o ∷ os)) o k p).option_id ≡ true
unfolding priority_row
owns_row o os k p = ground (
  arith,
  owns-sort
      (option_at (sort_by_ordinal (o ∷ os)) (min k (length (sort_by_ordinal (o ∷ os)) - 1))
        o).option_id
      (o ∷ os),
  owns-option_at (sort_by_ordinal (o ∷ os)) (min k (length (sort_by_ordinal (o ∷ os)) - 1)) o,
  length-sort (o ∷ os),
)

-- The mappings seeded from the options of a priority field are ones that a board with that field
-- admits.
derive_priority_mappings-ArePrioritised :
    (os : List FieldOption) → ArePrioritised os (derive_priority_mappings os)
unfolding derive_priority_mappings all pairwise
derive_priority_mappings-ArePrioritised [] = ground arith
derive_priority_mappings-ArePrioritised (o ∷ os) =
    ground (arith, owns_row o os 0 p0, owns_row o os 1 p1, owns_row o os 2 p2, owns_row o os 3 p3)

module _ (to_lowercase : ℕ → Text) where
  owns_open :
      (os : List FieldOption) (o : FieldOption)
      → open_option to_lowercase os ≡ some o
      → owns os o.option_id ≡ true
  unfolding open_option first_matching
  owns_open os o h = grind (
    arith,
    owns-find
        (λ (a : FieldOption).
          contains (codes "backlog" ∷ codes "todo" ∷ codes "open" ∷ codes "new" ∷ [])
            (normalize to_lowercase a.name))
        os,
    owns-find
        (λ (a : FieldOption).
          contains (codes "inprogress" ∷ codes "doing" ∷ codes "wip" ∷ codes "ready" ∷ [])
            (normalize to_lowercase a.name))
        os,
    owns-first os,
  )

  owns_closed :
      (os : List FieldOption) (o : FieldOption)
      → closed_option to_lowercase os ≡ some o
      → owns os o.option_id ≡ true
  unfolding closed_option first_matching
  owns_closed os o h = grind (
    arith,
    owns-find
        (λ (a : FieldOption).
          contains (codes "done" ∷ codes "complete" ∷ codes "closed" ∷ codes "shipped" ∷ [])
            (normalize to_lowercase a.name))
        os,
    owns-last os,
  )

  -- The mappings seeded from the options of a status field are ones that a board with that field
  -- admits.
  derive_status_mappings-AreMapped :
      (os : List FieldOption) → AreMapped os (derive_status_mappings to_lowercase os)
  unfolding derive_status_mappings push_mapping all pairwise
  derive_status_mappings-AreMapped [] = ground arith
  derive_status_mappings-AreMapped (o ∷ os) =
      grind (arith, owns_open (o ∷ os), owns_closed (o ∷ os))
