-- ===== src/Coordinator/Distribution.antt =====
-- `build_cluster_descriptor` of rlink/src/runtime/coordinator/task_distribution.rs: the description of
-- the cluster, from the tasks that `alloc_by_instance` gives each worker manager. `name` is the text
-- of a worker manager's id, `blank` the empty string.
use rlink_rs.Prelude.{
  ℕ, zero, suc, ◌+◌, ◌<◌, ◌≡◌, ◌≢◌, refl, ap, ◌∙◌, false, none, some, List, [], ◌∷◌, length,
  get_elem?, map, arith, All, All-append, Outcome, ok, ◌>>=◌, some_injective,
}
use mathlib.Core.Path.{ap₂}
use rlink_rs.Coordinator.{
  pending, beat_ok, OperatorDescriptor, TaskDescriptor, WorkerManagerDescriptor, ClusterDescriptor,
}
use rlink_rs.Coordinator.Status.{all_tasks, Running}
use rlink_rs.Planner.Operators.{DagError, StreamNode}
use rlink_rs.Planner.Execution.{ExecutionNode}
use rlink_rs.Planner.Workers.{alloc_by_instance, share, alloc_by_instance-share}

-- What `build_cluster_descriptor` reads of its context and of the properties
pub record Context (S : Type 0) : Type 0 where
  pub version : S
  pub application_id : S
  pub application_properties : List (S × S)
  pub metric_addr : S
  pub v_cores : ℕ
  pub memory_mb : ℕ
  pub num_task_managers : ℕ
  pub uptime : ℕ

abbrev pub operator_of : {S : Type 0} → StreamNode → OperatorDescriptor S
operator_of n = record {
  operator_id = n.id;
  checkpoint_id = 0;
  completed_checkpoint_id = none;
  checkpoint_handle = none;
}

module _ {S I : Type 0} (name : ℕ → S) (blank : S) where
  abbrev pub descriptor_of : ExecutionNode I → TaskDescriptor S I
  descriptor_of n = record {
    task_id = n.task_id;
    operators = map operator_of n.task_nodes;
    input_split = n.input_split;
    daemon = n.task_daemon;
    thread_id = blank;
    ended = false;
  }

  abbrev pub manager_of : ℕ → List (ExecutionNode I) → WorkerManagerDescriptor S I
  manager_of index tasks = record {
    status = pending;
    latest_heart_beat_ts = 0;
    latest_heart_beat_status = beat_ok;
    task_manager_id = name index;
    task_manager_address = blank;
    metrics_address = blank;
    web_address = blank;
    task_descriptors = map descriptor_of tasks;
  }

  -- The loop over the worker managers, the first of them with the number `index`
  abbrev pub managers_from : ℕ → List (List (ExecutionNode I)) → List (WorkerManagerDescriptor S I)
  managers_from index [] = []
  managers_from index (tasks ∷ rest) = manager_of index tasks ∷ managers_from (suc index) rest

  abbrev pub cluster_of : Context S → List (List (ExecutionNode I)) → ClusterDescriptor S I
  cluster_of context workers = record {
    coordinator_manager = record {
      version = context.version;
      application_id = context.application_id;
      application_properties = context.application_properties;
      web_address = blank;
      metrics_address = context.metric_addr;
      status = pending;
      v_cores = context.v_cores;
      memory_mb = context.memory_mb;
      num_task_managers = context.num_task_managers;
      uptime = context.uptime;
      startup_number = 0;
    };
    worker_managers = managers_from 0 workers;
  }

  -- `build_cluster_descriptor`, on the chains of tasks of the physical graph
  unfoldable pub build_cluster_descriptor :
      Context S → List (List (ExecutionNode I)) → Outcome DagError (ClusterDescriptor S I)
  unfolding alloc_by_instance
  build_cluster_descriptor context chains =
      alloc_by_instance context.num_task_managers chains >>= λ workers.
      ok (cluster_of context workers)

  managers_from-get_elem? :
      (i k : ℕ) (ws : List (List (ExecutionNode I))) (w : List (ExecutionNode I))
      → get_elem? ws k ≡ some w
      → get_elem? (managers_from i ws) k ≡ some (manager_of (i + k) w)
  managers_from-get_elem? i k [] w e = absurd (cc e)
  managers_from-get_elem? i zero (v ∷ ws) w e =
      ap some (ap₂ manager_of (omega arith) (some_injective v w e))
  managers_from-get_elem? i (suc k) (v ∷ ws) w e =
      managers_from-get_elem? (suc i) k ws w e ∙ ap (λ n. some (manager_of n w)) (omega arith)

  map-Running : (tasks : List (ExecutionNode I)) → All Running (map descriptor_of tasks)
  map-Running [] = tt
  map-Running (t ∷ ts) = (refl, map-Running ts)

  managers_from-Running :
      (i : ℕ) (ws : List (List (ExecutionNode I))) → All Running (all_tasks (managers_from i ws))
  managers_from-Running i [] = tt
  managers_from-Running i (w ∷ ws) =
      All-append Running (map descriptor_of w) (all_tasks (managers_from (suc i) ws))
        (map-Running w) (managers_from-Running (suc i) ws)

  length-managers_from :
      (i : ℕ) (ws : List (List (ExecutionNode I))) → length (managers_from i ws) ≡ length ws
  length-managers_from i [] = refl
  length-managers_from i (w ∷ ws) = ap suc (length-managers_from (suc i) ws)

  -- With at least one worker manager, the cluster's description is built: it has that many, the one
  -- with a number has exactly the tasks of the chains that leave this number as the remainder, and no
  -- task in it has ended.
  pub build_cluster_descriptor-share :
      (context : Context S) (chains : List (List (ExecutionNode I)))
      → context.num_task_managers ≢ 0
      → (c : ClusterDescriptor S I) × (build_cluster_descriptor context chains ≡ ok c)
        × (length c.worker_managers ≡ context.num_task_managers)
        × ((k : ℕ)
            → k < context.num_task_managers
            → get_elem? c.worker_managers k
              ≡ some (manager_of k (share context.num_task_managers k 0 chains)))
        × All Running (all_tasks c.worker_managers)
  unfolding build_cluster_descriptor
  build_cluster_descriptor-share context chains some_worker =
      let (ws, done, count, shares) =
        alloc_by_instance-share context.num_task_managers chains some_worker in
      (
        cluster_of context ws,
        rw done refl,
        length-managers_from 0 ws ∙ count,
        λ k lt.
            managers_from-get_elem? 0 k ws (share context.num_task_managers k 0 chains)
              (shares k lt)
            ∙ ap (λ n. some (manager_of n (share context.num_task_managers k 0 chains)))
                (omega arith),
        managers_from-Running 0 ws,
      )
