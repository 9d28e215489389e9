-- ===== src/Coordinator/Tests.antt =====
-- Two workers with a task each; strings are numbers, compared as numbers.
use rlink_rs.Prelude.{
  ℕ, ◌+◌, ◌≡◌, ◌≢◌, ◌⊎◌, refl, true, false, Option, none, some, List, [], ◌∷◌, length, map,
  get_elem?, arith, ◌==◌, All, ok, inl, inr, ◌<◌,
}
use rlink_rs.Prelude.Pairwise.{Pairwise}
use rlink_rs.Core.{TaskId}
use rlink_rs.Checkpoints.{Checkpoint}
use rlink_rs.Planner.Execution.{ExecutionNode}
use rlink_rs.Planner.Workers.{share}
use rlink_rs.Coordinator.{
  registered, terminating, terminated, beat_ok, beat_panic, TaskDescriptor, WorkerManagerDescriptor,
  ClusterDescriptor, heart_beat_status, task_thread_id, task_end, set_status,
}
use rlink_rs.Coordinator.Storage.{updated, update_worker_status}
use rlink_rs.Coordinator.Reports.{task_after, update_worker_status-report}
use rlink_rs.Coordinator.Status.{
  all_tasks, Ended, Running, called_for, update_worker_status-called_for,
}
use rlink_rs.Coordinator.Monitor.{
  timeout, end, OnTime, check_heartbeats, start_heartbeat_timer, wait_turn,
  check_heartbeats-HeartbeatResult,
}
use rlink_rs.Coordinator.Runs.{Request, Later, run_heartbeats, run_heartbeats-Later}
use rlink_rs.Coordinator.Ends.{end-Ended, registered-never_ends}
use rlink_rs.Coordinator.Distribution.{
  Context, build_cluster_descriptor, manager_of, build_cluster_descriptor-share,
}
use rlink_rs.Coordinator.Restore.{loaded_rows, load, restore_cluster}
use rlink_rs.Coordinator.Restores.{RestoredWorker, restore_cluster-RestoredWorker}

abbrev id_of : ℕ → TaskId
id_of n = record { job_id = 1; task_number = n; num_tasks = 2 }

abbrev task : ℕ → TaskDescriptor ℕ ℕ
task n = record {
  task_id = id_of n;
  operators =
      record {
        operator_id = 7;
        checkpoint_id = 0;
        completed_checkpoint_id = none;
        checkpoint_handle = none;
      }
      ∷ [];
  input_split = n;
  daemon = false;
  thread_id = 0;
  ended = false;
}

abbrev worker : ℕ → WorkerManagerDescriptor ℕ ℕ
worker n = record {
  status = registered;
  latest_heart_beat_ts = 1000;
  latest_heart_beat_status = beat_ok;
  task_manager_id = n;
  task_manager_address = 0;
  metrics_address = 0;
  web_address = 0;
  task_descriptors = task n ∷ [];
}

abbrev cluster : ClusterDescriptor ℕ ℕ
cluster = record {
  coordinator_manager = record {
    version = 1;
    application_id = 2;
    application_properties = [];
    web_address = 0;
    metrics_address = 0;
    status = registered;
    v_cores = 1;
    memory_mb = 100;
    num_task_managers = 2;
    uptime = 5;
    startup_number = 1;
  };
  worker_managers = worker 0 ∷ worker 1 ∷ [];
}

abbrev hex : ℕ → ℕ
hex n = n

abbrev ends : ℕ → Request ℕ
ends n = record {
  now = 2000;
  task_manager_id = n;
  change_items = task_thread_id (id_of n) 9 ∷ task_end (id_of n) ∷ [];
}

abbrev quiet : ℕ → Request ℕ
quiet n = record {
  now = 3000;
  task_manager_id = n;
  change_items = heart_beat_status beat_panic ∷ [];
}

one_ended : (run_heartbeats hex ◌==◌ (ends 1 ∷ []) cluster).coordinator_manager.status ≡ terminating
unfolding run_heartbeats update_worker_status
one_ended = refl

abbrev finished : ClusterDescriptor ℕ ℕ
finished = run_heartbeats hex ◌==◌ (ends 1 ∷ ends 0 ∷ quiet 1 ∷ []) cluster

both_ended : finished.coordinator_manager.status ≡ terminated
unfolding run_heartbeats update_worker_status
both_ended = refl

update_worker_status-report_example :
    (w' : WorkerManagerDescriptor ℕ ℕ) × (update_worker_status hex ◌==◌ 2000 1
        (ends 1).change_items
        registered
        (some cluster)
      ≡ (
        some (updated (worker 0 ∷ w' ∷ []) true cluster),
        ok ((updated (worker 0 ∷ w' ∷ []) true cluster).coordinator_manager.status),
      ))
    × (w'.task_descriptors ≡ map (task_after hex (ends 1).change_items) (task 1 ∷ []))
    × (w'.status ≡ registered)
    × (w'.latest_heart_beat_ts ≡ 2000)
    × (w'.task_manager_id ≡ 1)
update_worker_status-report_example =
    update_worker_status-report ◌==◌ 1 hex 2000 (ends 1).change_items registered cluster
      (worker 0 ∷ []) (worker 1) [] refl (refl, tt) refl

abbrev one_left : ClusterDescriptor ℕ ℕ
one_left = run_heartbeats hex ◌==◌ (ends 1 ∷ []) cluster

update_worker_status-called_for_example :
    (terminating ≡ one_left.coordinator_manager.status)
    × (terminating ≡ called_for one_left.worker_managers registered)
unfolding run_heartbeats update_worker_status
update_worker_status-called_for_example =
    update_worker_status-called_for hex ◌==◌ 2000 1 (ends 1).change_items registered cluster
      one_left terminating refl (λ e. refl, (λ e. absurd (cc e), tt))

run_heartbeats-Later_example : Later cluster finished
run_heartbeats-Later_example =
    run_heartbeats-Later hex ◌==◌ (ends 1 ∷ ends 0 ∷ quiet 1 ∷ []) cluster

end-Ended_example : All Ended (all_tasks finished.worker_managers)
unfolding run_heartbeats update_worker_status check_heartbeats
end-Ended_example =
    end-Ended hex ◌==◌ (ends 1 ∷ ends 0 ∷ quiet 1 ∷ []) cluster 60000 (λ e. absurd (cc e)) refl

-- Every task has ended before the waiting loop has read the workers' status; both are registered.
registered-never_ends_example :
    (wait_turn finished (some finished) ≡ (some (set_status registered finished), true))
    × (check_heartbeats 60000
          (run_heartbeats hex ◌==◌ (quiet 0 ∷ []) (set_status registered finished))
        ≢ some end)
unfolding run_heartbeats update_worker_status wait_turn
registered-never_ends_example =
    registered-never_ends hex ◌==◌ finished (quiet 0 ∷ []) 60000 refl (refl, tt)

-- The loop then ends with a timeout, after which the coordinator starts all tasks again.
restarts : start_heartbeat_timer ((60000, set_status registered finished) ∷ []) ≡ some timeout
unfolding run_heartbeats update_worker_status start_heartbeat_timer set_status
restarts = refl

check_heartbeats-HeartbeatResult_example :
    ((registered ≡ terminated) × (check_heartbeats 52000 cluster ≡ some end))
    ⊎ ((registered ≢ terminated)
        × (¬ All (OnTime 52000) (worker 0 ∷ worker 1 ∷ []))
        × (check_heartbeats 52000 cluster ≡ some timeout))
    ⊎ ((registered ≢ terminated)
        × All (OnTime 52000) (worker 0 ∷ worker 1 ∷ [])
        × (check_heartbeats 52000 cluster ≡ none))
check_heartbeats-HeartbeatResult_example = check_heartbeats-HeartbeatResult 52000 cluster

abbrev node : ℕ → ExecutionNode ℕ
node n = record { task_id = id_of n; task_nodes = []; input_split = n; task_daemon = false }

abbrev context : Context ℕ
context = record {
  version = 1;
  application_id = 2;
  application_properties = [];
  metric_addr = 3;
  v_cores = 1;
  memory_mb = 100;
  num_task_managers = 2;
  uptime = 5;
}

abbrev chains : List (List (ExecutionNode ℕ))
chains = (node 0 ∷ []) ∷ (node 1 ∷ []) ∷ (node 2 ∷ []) ∷ []

build_cluster_descriptor-share_example :
    (c : ClusterDescriptor ℕ ℕ) × (build_cluster_descriptor hex 0 context chains ≡ ok c)
    × (length c.worker_managers ≡ 2)
    × ((k : ℕ)
        → k < 2
        → get_elem? c.worker_managers k ≡ some (manager_of hex 0 k (share 2 k 0 chains)))
    × All Running (all_tasks c.worker_managers)
build_cluster_descriptor-share_example =
    build_cluster_descriptor-share hex 0 context chains (λ e. omega (arith, e))

abbrev row : ℕ → ℕ → ℕ → Option ℕ → Checkpoint ℕ
row operator number id completed = record {
  operator_id = operator;
  task_id = id_of number;
  checkpoint_id = id;
  completed_checkpoint_id = completed;
  handle = 40 + number;
}

abbrev rows_of : ℕ → List (Checkpoint ℕ)
rows_of id = row 7 1 id none ∷ row 7 0 id none ∷ []

restore_cluster-RestoredWorker_example :
    (c' : ClusterDescriptor ℕ ℕ) × (restore_cluster (load (row 7 0 9 (some 8) ∷ []) rows_of) cluster
      ≡ ok c')
    × Pairwise
        (RestoredWorker (loaded_rows (row 7 0 9 (some 8) ∷ []) rows_of))
        (worker 0 ∷ worker 1 ∷ [])
        c'.worker_managers
unfolding loaded_rows
restore_cluster-RestoredWorker_example =
    restore_cluster-RestoredWorker (row 7 0 9 (some 8) ∷ []) rows_of cluster (λ e. cc e)
      (((inr (inl (refl, refl)), tt), tt), (((inl (refl, refl), tt), tt), tt))
