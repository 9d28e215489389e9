-- ===== src/Coordinator.antt =====
-- The cluster's description that the coordinator keeps: rlink/src/core/runtime.rs, and the items of a
-- heartbeat of rlink/src/runtime/mod.rs. A string is a value of the type `S`, and the split of a
-- task's input, which the function of the source made, one of the type `I`.
pub mod Storage
pub mod Reports
pub mod Status
pub mod Monitor
pub mod Runs
pub mod Ends
pub mod Distribution
pub mod Restore
pub mod Restores
mod Tests
use rlink_rs.Prelude.{
  ℕ, ◌+◌, Bool, true, false, ◌&&◌, Option, none, some, List, [], ◌∷◌, ◌==◌, if◌then◌else◌,
}
use rlink_rs.Core.{TaskId}

pub data ManagerStatus : Type 0 where
  pending registered migration terminating terminated : ManagerStatus

unfoldable pub is_terminating : ManagerStatus → Bool
is_terminating terminating = true
is_terminating _ = false

unfoldable pub is_terminated : ManagerStatus → Bool
is_terminated terminated = true
is_terminated _ = false

pub data HeartBeatStatus : Type 0 where
  beat_ok beat_panic beat_end : HeartBeatStatus

-- `TaskId::eq`, derived
unfoldable pub task_id_eq : TaskId → TaskId → Bool
task_id_eq i j =
    i.job_id == j.job_id && (i.task_number == j.task_number && i.num_tasks == j.num_tasks)

pub record OperatorDescriptor (S : Type 0) : Type 0 where
  pub operator_id : ℕ
  pub checkpoint_id : ℕ
  pub completed_checkpoint_id : Option ℕ
  pub checkpoint_handle : Option S

pub record TaskDescriptor (S I : Type 0) : Type 0 where
  pub task_id : TaskId
  pub operators : List (OperatorDescriptor S)
  pub input_split : I
  pub daemon : Bool
  pub thread_id : S
  pub ended : Bool

pub record WorkerManagerDescriptor (S I : Type 0) : Type 0 where
  pub status : ManagerStatus
  pub latest_heart_beat_ts : ℕ
  pub latest_heart_beat_status : HeartBeatStatus
  pub task_manager_id : S
  pub task_manager_address : S
  pub metrics_address : S
  pub web_address : S
  pub task_descriptors : List (TaskDescriptor S I)

pub record CoordinatorManagerDescriptor (S : Type 0) : Type 0 where
  pub version : S
  pub application_id : S
  pub application_properties : List (S × S)
  pub web_address : S
  pub metrics_address : S
  pub status : ManagerStatus
  pub v_cores : ℕ
  pub memory_mb : ℕ
  pub num_task_managers : ℕ
  pub uptime : ℕ
  pub startup_number : ℕ

pub record ClusterDescriptor (S I : Type 0) : Type 0 where
  pub coordinator_manager : CoordinatorManagerDescriptor S
  pub worker_managers : List (WorkerManagerDescriptor S I)

pub data HeartbeatItem (S : Type 0) : Type 0 where
  worker_manager_address : S → HeartbeatItem S
  worker_manager_web_address : S → HeartbeatItem S
  metrics_address_item : S → HeartbeatItem S
  heart_beat_status : HeartBeatStatus → HeartbeatItem S
  task_thread_id : TaskId → ℕ → HeartbeatItem S
  task_end : TaskId → HeartbeatItem S

-- The status that the two counters lead to
unfoldable pub flushed_status : ℕ × ℕ → ManagerStatus → ManagerStatus
flushed_status (task_count, terminated_count) status =
    if task_count == terminated_count
    then terminated
    else if terminated_count == 0
    then status
    else terminating

module _ {S I : Type 0} where
  abbrev pub has_task : TaskId → List (TaskDescriptor S I) → Bool
  has_task i [] = false
  has_task i (t ∷ ts) = if task_id_eq t.task_id i then true else has_task i ts

  abbrev pub find_manager :
      TaskId → List (WorkerManagerDescriptor S I) → Option (WorkerManagerDescriptor S I)
  find_manager i [] = none
  find_manager i (w ∷ ws) = if has_task i w.task_descriptors then some w else find_manager i ws

  -- `get_worker_manager`
  unfoldable pub get_worker_manager :
      TaskId → ClusterDescriptor S I → Option (WorkerManagerDescriptor S I)
  get_worker_manager i c = find_manager i c.worker_managers

  -- The two counters of `flush_coordinator_status`
  abbrev pub count_tasks : List (TaskDescriptor S I) → ℕ × ℕ → ℕ × ℕ
  count_tasks [] counts = counts
  count_tasks (t ∷ ts) (task_count, terminated_count) = count_tasks ts (
      if t.ended
      then (task_count + 1, terminated_count + 1)
      else (task_count + 1, terminated_count))

  abbrev pub count_workers : List (WorkerManagerDescriptor S I) → ℕ × ℕ → ℕ × ℕ
  count_workers [] counts = counts
  count_workers (w ∷ ws) counts = count_workers ws (count_tasks w.task_descriptors counts)

  unfoldable pub set_status : ManagerStatus → ClusterDescriptor S I → ClusterDescriptor S I
  set_status status c = record c {
    coordinator_manager = record (c.coordinator_manager) { status = status };
  }

  -- `flush_coordinator_status`
  unfoldable pub flush_coordinator_status : ClusterDescriptor S I → ClusterDescriptor S I
  unfolding flushed_status set_status
  flush_coordinator_status c =
      set_status
        (flushed_status (count_workers c.worker_managers (0, 0)) c.coordinator_manager.status) c
