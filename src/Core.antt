-- ===== src/Core.antt =====
-- crates/domain-core: identifiers, instants and the domain's errors.
use repo_link.Prelude.{ℕ}

-- `define_id!`: a UUID, read as the 128-bit number that it is.
abbrev pub TaskId : Type 0
TaskId = ℕ

abbrev pub WorkspaceId : Type 0
WorkspaceId = ℕ

abbrev pub RepoId : Type 0
RepoId = ℕ

abbrev pub RepoOriginId : Type 0
RepoOriginId = ℕ

abbrev pub OutboxEntryId : Type 0
OutboxEntryId = ℕ

-- `Timestamp`: an instant, in nanoseconds since the Unix epoch. A reading of the clock
-- (`Timestamp::now()`) is an argument of the operation that takes it.
abbrev pub Timestamp : Type 0
Timestamp = ℕ

-- `DomainError`, without the messages: `InvalidTransition`, `Validation` and `Id`.
pub data DomainError : Type 0 where
  transition validation invalid_id : DomainError

pub data Result {ℓ} (A : Type ℓ) : Type ℓ where
  ok : A → Result A
  err : DomainError → Result A
