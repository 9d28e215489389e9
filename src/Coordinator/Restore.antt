-- ===== src/Coordinator/Restore.antt =====
-- The checkpoints that a coordinator starts from: `CheckpointAlignManager::load` of
-- rlink/src/runtime/coordinator/checkpoint_manager.rs, and the loop of `build_checkpoint_manager` of
-- rlink/src/runtime/coordinator/mod.rs, which gives each operator of each task its checkpoint. The two
-- queries of the storage are arguments: all the checkpoints of the application, and those of an id.
use rlink_rs.Prelude.{
  ℕ, Option, none, some, List, [], ◌∷◌, ◌++◌, ◌==◌, ltb, if◌then◌else◌, Outcome, ok, ◌>>=◌, unwrap,
}
use rlink_rs.Prelude.Maps.{lookup, insert}
use rlink_rs.Checkpoints.{Checkpoint}
use rlink_rs.Coordinator.{
  OperatorDescriptor, TaskDescriptor, WorkerManagerDescriptor, ClusterDescriptor,
}

-- A `for` loop over elements that it changes in place, which may panic
unfoldable pub each : {A : Type 0} → (A → Outcome ⊥ A) → List A → Outcome ⊥ (List A)
each f [] = ok []
each f (x ∷ xs) = f x >>= λ y. each f xs >>= λ ys. ok (y ∷ ys)

abbrev pub OperatorCheckpoints : Type 0 → Type 0
OperatorCheckpoints S = List (ℕ × List (Checkpoint S))

-- The id of a completed checkpoint, if it is above 0
abbrev pub keep_id : Option ℕ → List ℕ → List ℕ
keep_id none ids = ids
keep_id (some id) ids = if ltb 0 id then id ∷ ids else ids

-- `min_by_key`, and `unwrap_or_default`
abbrev pub min_or_default : List ℕ → ℕ
min_or_default [] = 0
min_or_default (id ∷ []) = id
min_or_default (id ∷ other ∷ ids) =
    let m = min_or_default (other ∷ ids) in if ltb m id then m else id

module _ {S : Type 0} where
  abbrev pub completed_ids : List (Checkpoint S) → List ℕ
  completed_ids [] = []
  completed_ids (ck ∷ cks) = keep_id ck.completed_checkpoint_id (completed_ids cks)

  -- `entry(..).or_insert(Vec::new()).push(..)`
  abbrev pub or_new : Option (List (Checkpoint S)) → List (Checkpoint S)
  or_new none = []
  or_new (some cks) = cks

  unfoldable pub group : List (Checkpoint S) → OperatorCheckpoints S → OperatorCheckpoints S
  unfolding lookup insert
  group [] m = m
  group (ck ∷ cks) m =
      group cks (insert ◌==◌ ck.operator_id (or_new (lookup ◌==◌ ck.operator_id m) ++ ck ∷ []) m)

  -- The rows that `load` takes
  unfoldable pub loaded_rows : List (Checkpoint S) → (ℕ → List (Checkpoint S)) → List (Checkpoint S)
  loaded_rows all by_id =
      let id = min_or_default (completed_ids all) in if id == 0 then all else by_id id

  -- `load`
  unfoldable pub load : List (Checkpoint S) → (ℕ → List (Checkpoint S)) → OperatorCheckpoints S
  unfolding loaded_rows group
  load all by_id = group (loaded_rows all by_id) []

  abbrev pub find_number : ℕ → List (Checkpoint S) → Option (Checkpoint S)
  find_number n [] = none
  find_number n (ck ∷ cks) = if ck.task_id.task_number == n then some ck else find_number n cks

  -- The body of the inner loop, on the operator's checkpoints; an empty list is passed by.
  abbrev pub restored :
      ℕ → OperatorDescriptor S → List (Checkpoint S) → Outcome ⊥ (OperatorDescriptor S)
  restored n o [] = ok o
  restored n o (ck ∷ cks) = unwrap (find_number n (ck ∷ cks)) >>= λ k.
      ok (record o { checkpoint_id = k.checkpoint_id; checkpoint_handle = some k.handle })

  unfoldable pub restore_operator :
      OperatorCheckpoints S → ℕ → OperatorDescriptor S → Outcome ⊥ (OperatorDescriptor S)
  unfolding lookup
  restore_operator m n o = unwrap (lookup ◌==◌ o.operator_id m) >>= restored n o

module _ {S I : Type 0} where
  unfoldable pub restore_task :
      OperatorCheckpoints S → TaskDescriptor S I → Outcome ⊥ (TaskDescriptor S I)
  unfolding each restore_operator
  restore_task m t = each (restore_operator m t.task_id.task_number) t.operators >>= λ os.
      ok (record t { operators = os })

  unfoldable pub restore_worker :
      OperatorCheckpoints S → WorkerManagerDescriptor S I → Outcome ⊥ (WorkerManagerDescriptor S I)
  unfolding each restore_task
  restore_worker m w =
      each (restore_task m) w.task_descriptors >>= λ ts. ok (record w { task_descriptors = ts })

  -- `build_checkpoint_manager`, from the checkpoints that `load` answers
  unfoldable pub restore_cluster :
      OperatorCheckpoints S → ClusterDescriptor S I → Outcome ⊥ (ClusterDescriptor S I)
  unfolding each restore_worker
  restore_cluster [] c = ok c
  restore_cluster (e ∷ m) c = each (restore_worker (e ∷ m)) c.worker_managers >>= λ ws.
      ok (record c { worker_managers = ws })
