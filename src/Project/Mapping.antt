-- ===== src/Project/Mapping.antt =====
-- crates/domain-project/src/mapping.rs, status.rs and priority.rs: the mappings seeded at link time.
pub mod Derived
use repo_link.Prelude.{
  ℕ, zero, suc, ◌+◌, ◌-◌, min, Bool, true, false, not, ◌&&◌, ◌||◌, Option, none, some, List, [],
  ◌∷◌, ◌++◌, map, leb, ltb, length, if◌then◌else◌, ◌==◌, nat_eq, list_eq, or, find, retain,
  contains,
}
use mathlib.Core.List.{head?, get_last?, flatten}
use repo_link.Prelude.Text.{Text, codes, is_whitespace}
use repo_link.Task.Enums.{Priority, p0, p1, p2, p3}
use repo_link.Project.Field.{FieldOption}

pub record StatusMapping : Type 0 where
  pub is_open : Bool
  pub option_id : Text

pub record PriorityMapping : Type 0 where
  pub priority : Priority
  pub option_id : Text

-- `options.first()` and `options.last()`
unfoldable pub first : List FieldOption → Option FieldOption
first [] = none
first (o ∷ os) = some o

unfoldable pub last : List FieldOption → Option FieldOption
last [] = none
last (o ∷ os) = or (last os) (some o)

-- `to_lowercase` is Unicode's mapping of one character, `char::to_lowercase`.
module _ (to_lowercase : ℕ → Text) where
  unfoldable pub normalize : Text → Text
  normalize [] = []
  normalize (c ∷ s) =
      let rest = normalize s in
      if not (is_whitespace c) && not (c == b'-') && not (c == b'_')
      then to_lowercase c ++ rest
      else rest

  unfoldable pub first_matching : List FieldOption → List Text → Option FieldOption
  unfolding normalize
  first_matching options vocab = find (λ o. contains vocab (normalize o.name)) options

  -- The option of the open bucket, and that of the closed one.
  unfoldable pub open_option : List FieldOption → Option FieldOption
  unfolding first_matching first
  open_option options =
      or
        (or
          (first_matching options
            (codes "backlog" ∷ codes "todo" ∷ codes "open" ∷ codes "new" ∷ []))
          (first_matching options
            (codes "inprogress" ∷ codes "doing" ∷ codes "wip" ∷ codes "ready" ∷ [])))
        (first options)

  unfoldable pub closed_option : List FieldOption → Option FieldOption
  unfolding first_matching last
  closed_option options =
      or
        (first_matching options
          (codes "done" ∷ codes "complete" ∷ codes "closed" ∷ codes "shipped" ∷ []))
        (last options)

  unfoldable pub push_mapping : List StatusMapping → Bool → Option FieldOption → List StatusMapping
  push_mapping out is_open none = out
  push_mapping out is_open (some o) =
      out ++ (record { is_open = is_open; option_id = o.option_id } ∷ [])

  unfoldable pub derive_status_mappings : List FieldOption → List StatusMapping
  unfolding push_mapping open_option closed_option
  derive_status_mappings [] = []
  derive_status_mappings (o ∷ os) =
      push_mapping (push_mapping [] true (open_option (o ∷ os))) false (closed_option (o ∷ os))

-- `sort_by_key(|o| o.ordinal)`, which is stable.
unfoldable pub insert_by_ordinal : FieldOption → List FieldOption → List FieldOption
insert_by_ordinal o [] = o ∷ []
insert_by_ordinal o (x ∷ xs) =
    if leb o.ordinal x.ordinal then o ∷ x ∷ xs else x ∷ insert_by_ordinal o xs

unfoldable pub sort_by_ordinal : List FieldOption → List FieldOption
unfolding insert_by_ordinal
sort_by_ordinal [] = []
sort_by_ordinal (o ∷ os) = insert_by_ordinal o (sort_by_ordinal os)

-- `ordered[i]`, for a list that is not empty; `o` stands in past the end.
unfoldable pub option_at : List FieldOption → ℕ → FieldOption → FieldOption
option_at [] i o = o
option_at (x ∷ xs) zero o = x
option_at (x ∷ xs) (suc i) o = option_at xs i o

-- The row of the priority whose index is `k`: `ordered[k.min(last)]`.
unfoldable pub priority_row : List FieldOption → FieldOption → ℕ → Priority → PriorityMapping
unfolding option_at
priority_row ordered o k p = record {
  priority = p;
  option_id = (option_at ordered (min k (length ordered - 1)) o).option_id;
}

unfoldable pub derive_priority_mappings : List FieldOption → List PriorityMapping
unfolding sort_by_ordinal priority_row
derive_priority_mappings [] = []
derive_priority_mappings (o ∷ os) =
    let row = priority_row (sort_by_ordinal (o ∷ os)) o in
    row 0 p0 ∷ row 1 p1 ∷ row 2 p2 ∷ row 3 p3 ∷ []
