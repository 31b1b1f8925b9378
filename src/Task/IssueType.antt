-- ===== src/Task/IssueType.antt =====
-- crates/domain-task/src/enums.rs: the open classification `IssueType` and its single-string form.
use repo_link.Prelude.{
  Option, none, some, if◌then◌else◌, Eq, nat_eq, list_eq, List-discrete, ℕ_discrete, ◌≡◌, arith,
  Bool, true, false, not, is_none, ◌≢◌,
}
use repo_link.Prelude.Text.{Text, codes, eq_ignore_ascii_case}

pub data IssueType : Type 0 where
  task bug feature : IssueType
  custom : Text → IssueType

unfoldable pub IssueType-discrete : Discrete IssueType
IssueType-discrete = hlevel (List-discrete ℕ_discrete)

instance abbrev pub issue_type_eq : Eq IssueType
issue_type_eq = record { dec_eq = IssueType-discrete }

-- `impl Display`
unfoldable pub display : IssueType → Text
display task = codes "task"
display bug = codes "bug"
display feature = codes "feature"
display (custom s) = s

unfoldable pub well_known : Text → Option IssueType
well_known s =
    if eq_ignore_ascii_case s (codes "task")
    then some task
    else if eq_ignore_ascii_case s (codes "bug")
    then some bug
    else if eq_ignore_ascii_case s (codes "feature")
    then some feature
    else none

-- `impl From<&str>` and `impl From<String>`
unfoldable pub from : Text → IssueType
unfolding well_known
from s = elim (well_known s) [ some t ↦ t | none ↦ custom s ]

-- A custom type that spells a well-known name.
abbrev pub is_degenerate : IssueType → Bool
is_degenerate (custom s) = not (is_none (well_known s))
is_degenerate _ = false

-- Parsing after printing gives the type back exactly when it is not a custom type that spells a
-- well-known name.
from-display :
    (i : IssueType)
    → (is_degenerate i ≡ false → from (display i) ≡ i)
      × (is_degenerate i ≡ true → from (display i) ≢ i)
unfolding from display eq_ignore_ascii_case List-discrete ℕ_discrete
from-display (custom s) = ground arith
from-display _ = ground arith

-- Parsing does not see the case of ASCII letters in a well-known name, and keeps any other text.
pub from_case :
    (s t : Text)
    → eq_ignore_ascii_case s t ≡ true
    → (well_known s ≡ well_known t) × (well_known s ≡ none → display (from s) ≡ s)
unfolding well_known eq_ignore_ascii_case from display
from_case s t h = ground arith
