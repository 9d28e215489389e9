-- ===== src/Coordinator/Storage.antt =====
-- `MemoryMetadataStorage` of rlink/src/storage/metadata/mem_metadata_storage.rs: the one description
-- behind the lock, each operation from the store before to the store after and what it returns. The
-- text of a thread's id and the clock are what the standard library answers.
use rlink_rs.Prelude.{
  ℕ, Bool, true, false, Option, none, some, List, [], ◌∷◌, map, if◌then◌else◌, Outcome, ok, err,
}
use rlink_rs.Core.{TaskId}
use rlink_rs.Coordinator.{
  ManagerStatus, WorkerManagerDescriptor, TaskDescriptor, ClusterDescriptor, HeartbeatItem,
  worker_manager_address, worker_manager_web_address, metrics_address_item, heart_beat_status,
  task_thread_id, task_end, task_id_eq, set_status, flush_coordinator_status,
}

pub data MetadataError (S : Type 0) : Type 0 where
  cluster_descriptor_not_found : MetadataError S
  task_manager_not_found : S → MetadataError S

-- What the lock guards
abbrev pub Store : Type 0 → Type 0 → Type 0
Store S I = Option (ClusterDescriptor S I)

module _ {S I : Type 0} where
  -- `save` and `load`
  abbrev pub save : ClusterDescriptor S I → Store S I → Store S I × Outcome (MetadataError S) Unit
  save metadata store = (some metadata, ok tt)

  abbrev pub load : Store S I → Outcome (MetadataError S) (ClusterDescriptor S I)
  load none = err cluster_descriptor_not_found
  load (some c) = ok c

  -- `update_coordinator_status`
  unfoldable pub update_coordinator_status :
      ManagerStatus → Store S I → Store S I × Outcome (MetadataError S) Unit
  unfolding set_status
  update_coordinator_status status none = (none, err cluster_descriptor_not_found)
  update_coordinator_status status (some c) = (some (set_status status c), ok tt)

  -- The loop over the task descriptors that changes each one with the id
  abbrev pub change_task :
      (TaskDescriptor S I → TaskDescriptor S I) → TaskId → TaskDescriptor S I → TaskDescriptor S I
  change_task f i t = if task_id_eq t.task_id i then f t else t

  abbrev pub change_tasks :
      (TaskDescriptor S I → TaskDescriptor S I)
      → TaskId
      → WorkerManagerDescriptor S I
      → WorkerManagerDescriptor S I
  change_tasks f i w = record w { task_descriptors = map (change_task f i) w.task_descriptors }

module _ {S I : Type 0} (hex : ℕ → S) where
  -- The body of the loop over the items, with the flag `exist_task_end_hb`
  unfoldable pub apply_item :
      HeartbeatItem S → WorkerManagerDescriptor S I × Bool → WorkerManagerDescriptor S I × Bool
  unfolding task_id_eq
  apply_item (metrics_address_item addr) (w, e) = (record w { metrics_address = addr }, e)
  apply_item (worker_manager_address addr) (w, e) = (record w { task_manager_address = addr }, e)
  apply_item (worker_manager_web_address addr) (w, e) = (record w { web_address = addr }, e)
  apply_item (heart_beat_status s) (w, e) = (record w { latest_heart_beat_status = s }, e)
  apply_item (task_thread_id i thread) (w, e) =
      (change_tasks (λ t. record t { thread_id = hex thread }) i w, e)
  apply_item (task_end i) (w, e) = (change_tasks (λ t. record t { ended = true }) i w, true)

  unfoldable pub apply_items :
      List (HeartbeatItem S)
      → WorkerManagerDescriptor S I × Bool
      → WorkerManagerDescriptor S I × Bool
  unfolding apply_item
  apply_items [] state = state
  apply_items (item ∷ items) state = apply_items items (apply_item item state)

  -- The worker's description after a heartbeat that arrives at a time
  unfoldable pub report :
      ℕ
      → List (HeartbeatItem S)
      → ManagerStatus
      → WorkerManagerDescriptor S I
      → WorkerManagerDescriptor S I × Bool
  unfolding apply_items
  report now items status w =
      apply_items items (record w { status = status; latest_heart_beat_ts = now }, false)

module _ {S I : Type 0} where
  -- A worker that the search passes by stays in its place.
  abbrev pub passed :
      WorkerManagerDescriptor S I
      → Option (List (WorkerManagerDescriptor S I) × Bool)
      → Option (List (WorkerManagerDescriptor S I) × Bool)
  passed w none = none
  passed w (some (vs, e)) = some (w ∷ vs, e)

  -- The first worker with the id, changed in its place, and the flag
  unfoldable pub update_found :
      (S → S → Bool)
      → (WorkerManagerDescriptor S I → WorkerManagerDescriptor S I × Bool)
      → S
      → List (WorkerManagerDescriptor S I)
      → Option (List (WorkerManagerDescriptor S I) × Bool)
  update_found eq f id [] = none
  update_found eq f id (w ∷ ws) =
      if eq w.task_manager_id id
      then some ((f w).0 ∷ ws, (f w).1)
      else passed w (update_found eq f id ws)

  -- The store after a found worker has been changed, flushed if a task ended
  unfoldable pub updated :
      List (WorkerManagerDescriptor S I) → Bool → ClusterDescriptor S I → ClusterDescriptor S I
  unfolding flush_coordinator_status
  updated ws true c = flush_coordinator_status (record c { worker_managers = ws })
  updated ws false c = record c { worker_managers = ws }

  unfoldable pub stored :
      ClusterDescriptor S I
      → S
      → Option (List (WorkerManagerDescriptor S I) × Bool)
      → Store S I × Outcome (MetadataError S) ManagerStatus
  unfolding updated
  stored c id none = (some c, err (task_manager_not_found id))
  stored c id (some (ws, e)) =
      (some (updated ws e c), ok ((updated ws e c).coordinator_manager.status))

  -- `update_worker_status`
  unfoldable pub update_worker_status :
      (ℕ → S)
      → (S → S → Bool)
      → ℕ
      → S
      → List (HeartbeatItem S)
      → ManagerStatus
      → Store S I
      → Store S I × Outcome (MetadataError S) ManagerStatus
  unfolding update_found report updated stored
  update_worker_status hex eq now id items status none = (none, err cluster_descriptor_not_found)
  update_worker_status hex eq now id items status (some c) =
      stored c id (update_found eq (report hex now items status) id c.worker_managers)
