-- ===== src/TaskService/Minted.antt =====
-- crates/application-task/src/service.rs: `save_with_minted_hash`. What is drawn, the k-th time, for a
-- length, is a parameter.
use repo_link.Prelude.{
  ℕ, zero, suc, ◌+◌, ◌-◌, ◌*◌, ◌/◌, ◌≤◌, ◌<◌, Bool, not, ◌&&◌, Option, none, some, ◌≡◌, refl, arith,
  leb, ltb, if◌then◌else◌, ◌==◌, nat_eq, list_eq, any, Bool-cases, inl, inr, ap,
}
use repo_link.Prelude.Text.{Text, is_empty}
use repo_link.Core.{Timestamp}
use repo_link.Task.Snapshot.Source.{SnapshotSource}
use repo_link.Task.State.{Task}
use repo_link.Task.Hash.{min_hash_len, max_hash_len}
use repo_link.TaskRepo.{TaskStore, save}
use repo_link.TaskService.{Answer, done, failed, ◌>>=◌, or_fail, conflict, backend}

abbrev pub k_retries_at_length : ℕ
k_retries_at_length = 8

-- `conflict_target() == Some("tasks.hash")`: the index on the hash is met first.
unfoldable pub hash_taken : Task → TaskStore → Bool
hash_taken t s = any (λ r. not (r.id == t.id) && r.hash == t.hash && not (is_empty t.hash)) s.rows

unfoldable pub saved_once :
    Timestamp → SnapshotSource → Task → TaskStore → Answer (TaskStore × Task)
unfolding save
saved_once at source t s = do s' ← or_fail conflict (save at source t s); done (s', t)

-- The loop, on fuel: the k-th round, at a length, after some attempts at it.
unfoldable pub mint :
    ℕ
    → (ℕ → ℕ → Text)
    → Timestamp
    → SnapshotSource
    → Task
    → TaskStore
    → ℕ
    → ℕ
    → ℕ
    → Option (Answer (TaskStore × Task))
unfolding hash_taken saved_once
mint zero draw at source t s k size attempts = none
mint (suc fuel) draw at source t s k size attempts =
    let t' = record t { hash = draw k size } in
    let again = mint fuel draw at source t s (suc k) size (suc attempts) in
    let longer = mint fuel draw at source t s (suc k) (suc size) 0 in
    if hash_taken t' s
    then if leb k_retries_at_length (suc attempts)
      then if ltb max_hash_len (suc size) then some (failed backend) else longer
      else again
    else some (saved_once at source t' s)

-- Eight attempts at each length.
abbrev pub rounds : ℕ
rounds = k_retries_at_length * (suc max_hash_len - min_hash_len)

unfoldable pub save_with_minted_hash :
    (ℕ → ℕ → Text)
    → Timestamp
    → SnapshotSource
    → Task
    → TaskStore
    → Option (Answer (TaskStore × Task))
unfolding mint
save_with_minted_hash draw at source t s = mint rounds draw at source t s 0 min_hash_len 0

-- The first hash that is free, of the k-th that is drawn and those after it.
unfoldable pub first_free :
    ℕ
    → (ℕ → ℕ → Text)
    → Timestamp
    → SnapshotSource
    → Task
    → TaskStore
    → ℕ
    → Answer (TaskStore × Task)
unfolding hash_taken saved_once
first_free zero draw at source t s k = failed backend
first_free (suc left) draw at source t s k =
    let t' = record t { hash = draw k (min_hash_len + k / k_retries_at_length) } in
    let later = first_free left draw at source t s (suc k) in
    if hash_taken t' s then later else saved_once at source t' s

module _ (draw : ℕ → ℕ → Text) (at : Timestamp) (source : SnapshotSource) (t : Task)
    (s : TaskStore) where
  mint-first_free :
      (fuel left k size attempts : ℕ)
      → k ≡ 8 * (size - 3) + attempts
      → attempts < 8
      → 3 ≤ size
      → size ≤ 16
      → left + k ≡ 112
      → left ≤ fuel
      → mint fuel draw at source t s k size attempts ≡ some (first_free left draw at source t s k)
  unfolding mint first_free
  mint-first_free fuel zero k size attempts e a l h r f = absurd (omega arith)
  mint-first_free zero (suc left) k size attempts e a l h r f = absurd (omega arith)
  mint-first_free (suc fuel) (suc left) k size attempts e a l h r f =
      let at_size : 3 + k / 8 ≡ size = omega arith in
      rw at_size (elim (Bool-cases (hash_taken (record t { hash = draw k size }) s)) [
        | inr free ↦ rw free refl
        | inl taken ↦ rw taken (elim (Bool-cases (leb 8 (suc attempts))) [
          | inr more ↦
              let few : suc attempts < 8 = ground arith in
              rw more (
                mint-first_free fuel left (suc k) size (suc attempts) (omega arith) few l h
                  (omega arith) (omega arith))
          | inl last ↦
              let full : attempts ≡ 7 = ground arith in
              rw last (elim (Bool-cases (ltb 16 (suc size))) [
                | inl top ↦
                    let over : size ≡ 16 = ground arith in
                    let none_left : 0 ≡ left = omega arith in
                    rw top (ap (λ n. some (first_free n draw at source t s (suc k))) none_left)
                | inr room ↦
                    let short : suc size ≤ 16 = ground arith in
                    rw room (
                      mint-first_free fuel left (suc k) (suc size) 0 (omega arith) (omega arith)
                        (omega arith) short (omega arith) (omega arith))
              ])
        ])
      ])

  -- The loop ends within 112 rounds. It saves the task with the first hash that is free of those
  -- drawn, eight at each length from 3 to 16, and fails if none of them is free.
  pub save_with_minted_hash-first_free :
      save_with_minted_hash draw at source t s ≡ some (first_free rounds draw at source t s 0)
  unfolding save_with_minted_hash
  save_with_minted_hash-first_free =
      mint-first_free rounds rounds 0 3 0 (omega arith) (omega arith) (omega arith) (omega arith)
        (omega arith) (omega arith)
