-- ===== src/Checkpoints.antt =====
-- `OperatorCheckpoint` and `CheckpointAlignManager` of
-- rlink/src/runtime/coordinator/checkpoint_manager.rs, with the `MemoryCheckpointStorage` of
-- rlink/src/storage/checkpoint. A string is a value of the type `S`; the log is left out, and so is the
-- storage in MySQL. A checkpoint's id is the time of its barrier in milliseconds.
pub mod Consistent
pub mod Create
pub mod Tracked
mod Tests
use rlink_rs.Prelude.{
  ℕ, zero, suc, ◌+◌, ◌-◌, Bool, true, false, not, Option, none, some, List, [], ◌∷◌, ◌++◌, length,
  ltb, ◌==◌, map, if◌then◌else◌,
}
use rlink_rs.Prelude.Maps.{lookup, insert, delete}
use rlink_rs.Prelude.Sort.{sort_by_key}
use rlink_rs.Core.{TaskId}

pub record Checkpoint (S : Type 0) : Type 0 where
  pub operator_id : ℕ
  pub task_id : TaskId
  pub checkpoint_id : ℕ
  pub completed_checkpoint_id : Option ℕ
  pub handle : S

pub record OperatorCheckpoint (S : Type 0) : Type 0 where
  pub job_id : ℕ
  pub operator_id : ℕ
  pub operator_name : S
  pub parallelism : ℕ
  pub current_cks : List (ℕ × Checkpoint S)

abbrev pub History : Type 0 → Type 0
History S = List (ℕ × List (Checkpoint S))

pub record CheckpointAlignManager (S : Type 0) : Type 0 where
  pub checkpoint_ttl : ℕ
  pub current_ck_id : ℕ
  pub operator_cks : List (ℕ × OperatorCheckpoint S)
  pub finish_operator_cks : List (ℕ × OperatorCheckpoint S)
  pub storage : Option (History S)

-- How `CheckpointAlignManager::apply` ends
pub data Applied : Type 0 where
  applied operator_not_found : Applied

abbrev pub take : ℕ → List ℕ → List ℕ
take zero xs = []
take (suc n) [] = []
take (suc n) (x ∷ xs) = x ∷ take n xs

module _ {S : Type 0} where
  -- `OperatorCheckpoint::new`
  abbrev pub new_operator : ℕ → ℕ → S → ℕ → OperatorCheckpoint S
  new_operator job_id operator_id operator_name parallelism = record {
    job_id = job_id;
    operator_id = operator_id;
    operator_name = operator_name;
    parallelism = parallelism;
    current_cks = [];
  }

  -- `OperatorCheckpoint::is_align`
  unfoldable pub operator_is_align : OperatorCheckpoint S → Bool
  operator_is_align o = length o.current_cks == o.parallelism

  -- `OperatorCheckpoint::apply`
  unfoldable pub apply_operator : OperatorCheckpoint S → Checkpoint S → OperatorCheckpoint S
  unfolding operator_is_align lookup insert
  apply_operator o ck =
      if operator_is_align o then o else elim (lookup ◌==◌ ck.task_id.task_number o.current_cks) [
        | some old ↦ o
        | none ↦ record o { current_cks = insert ◌==◌ ck.task_id.task_number ck o.current_cks }
      ]

  -- `unreached_operators`
  unfoldable pub unreached_operators : List (ℕ × OperatorCheckpoint S) → List (OperatorCheckpoint S)
  unfolding operator_is_align
  unreached_operators [] = []
  unreached_operators ((id, o) ∷ rest) =
      if operator_is_align o then unreached_operators rest else o ∷ unreached_operators rest

  -- `CheckpointAlignManager::is_align`
  unfoldable pub is_align : CheckpointAlignManager S → Bool
  unfolding unreached_operators
  is_align m = length (unreached_operators m.operator_cks) == 0

  -- `next_checkpoint`
  unfoldable pub reset_operators : List (ℕ × OperatorCheckpoint S) → List (ℕ × OperatorCheckpoint S)
  reset_operators [] = []
  reset_operators ((id, o) ∷ rest) =
      (id, new_operator o.job_id o.operator_id o.operator_name o.parallelism) ∷ reset_operators rest

  unfoldable pub next_checkpoint : ℕ → CheckpointAlignManager S → CheckpointAlignManager S
  unfolding reset_operators
  next_checkpoint id m = record m {
    current_ck_id = id;
    operator_cks = reset_operators m.operator_cks;
  }

  -- `MemoryCheckpointStorage::save`: the ids below the time to live, and the oldest above 100 entries
  unfoldable pub expired_ids : ℕ → History S → List ℕ
  expired_ids limit [] = []
  expired_ids limit ((id, cks) ∷ rest) =
      if ltb id limit then id ∷ expired_ids limit rest else expired_ids limit rest

  unfoldable pub remove_ids : List ℕ → History S → History S
  unfolding delete
  remove_ids [] h = h
  remove_ids (id ∷ ids) h = remove_ids ids (delete ◌==◌ id h)

  abbrev pub ids_of : History S → List ℕ
  ids_of [] = []
  ids_of ((id, cks) ∷ rest) = id ∷ ids_of rest

  unfoldable pub remove_oldest : History S → History S
  unfolding remove_ids sort_by_key
  remove_oldest h =
      if ltb 100 (length h)
      then remove_ids (take (length h - 100) (sort_by_key (λ id. id) (ids_of h))) h
      else h

  unfoldable pub save : ℕ → List (Checkpoint S) → ℕ → History S → History S
  unfolding expired_ids remove_ids remove_oldest insert
  save id cks ttl h =
      let h = insert ◌==◌ id cks h in
      if ltb id ttl then h else remove_oldest (remove_ids (expired_ids (id - ttl) h) h)

  -- The checkpoints of all operators, as they are saved
  unfoldable pub all_cks : List (ℕ × OperatorCheckpoint S) → List (Checkpoint S)
  all_cks [] = []
  all_cks ((id, o) ∷ rest) = map (λ e. e.1) o.current_cks ++ all_cks rest

  unfoldable pub save_in : ℕ → List (Checkpoint S) → ℕ → Option (History S) → Option (History S)
  unfolding save
  save_in id cks ttl none = none
  save_in id cks ttl (some h) = some (save id cks ttl h)

  -- The end of `apply`: an aligned checkpoint is kept as the finished one, and saved.
  unfoldable pub finish : CheckpointAlignManager S → CheckpointAlignManager S
  unfolding is_align all_cks save_in
  finish m =
      if is_align m
      then record m {
        finish_operator_cks = m.operator_cks;
        storage = save_in m.current_ck_id (all_cks m.operator_cks) m.checkpoint_ttl m.storage;
      }
      else m

  unfoldable pub apply_current :
      CheckpointAlignManager S → Checkpoint S → CheckpointAlignManager S × Applied
  unfolding apply_operator finish lookup insert
  apply_current m ck = elim (lookup ◌==◌ ck.operator_id m.operator_cks) [
    | none ↦ (m, operator_not_found)
    | some o ↦ (
      finish (record m {
        operator_cks = insert ◌==◌ ck.operator_id (apply_operator o ck) m.operator_cks;
      }),
      applied,
    )
  ]

  -- `CheckpointAlignManager::apply`
  unfoldable pub apply :
      CheckpointAlignManager S → Checkpoint S → CheckpointAlignManager S × Applied
  unfolding next_checkpoint apply_current
  apply m ck =
      if ltb ck.checkpoint_id m.current_ck_id
      then (m, applied)
      else if ltb m.current_ck_id ck.checkpoint_id
      then apply_current (next_checkpoint ck.checkpoint_id m) ck
      else apply_current m ck
