-- ===== src/Checkpoints/Create.antt =====
-- `CheckpointAlignManager::new` of rlink/src/runtime/coordinator/checkpoint_manager.rs on the jobs of the
-- job graph, and the loop of `run_align_task` over the checkpoints that it receives. A string is the
-- list of its codes.
use rlink_rs.Prelude.{ℕ, ◌≡◌, List, [], ◌∷◌, Option, All, ◌==◌}
use rlink_rs.Prelude.Maps.{insert, Present}
use rlink_rs.Prelude.Sort.{Any}
use rlink_rs.Planner.Operators.{StreamNode}
use rlink_rs.Planner.Job.{JobNode}
use rlink_rs.Checkpoints.{
  Checkpoint, OperatorCheckpoint, CheckpointAlignManager, History, new_operator, apply,
}

abbrev pub Name : Type 0
Name = List ℕ

abbrev pub OperatorCks : Type 0
OperatorCks = List (ℕ × OperatorCheckpoint Name)

-- The loop over the operators of a job
unfoldable pub add_operators : JobNode → List StreamNode → OperatorCks → OperatorCks
unfolding insert
add_operators job [] cks = cks
add_operators job (n ∷ ns) cks =
    add_operators job ns
      (insert ◌==◌ n.id (new_operator job.job_id n.id n.operator_name job.parallelism) cks)

-- The loop over the jobs
unfoldable pub add_all_operators : List JobNode → OperatorCks → OperatorCks
unfolding add_operators
add_all_operators [] cks = cks
add_all_operators (job ∷ jobs) cks = add_all_operators jobs (add_operators job job.stream_nodes cks)

-- `CheckpointAlignManager::new`, with the storage that is configured
unfoldable pub new_align_manager :
    ℕ → Option (History Name) → List JobNode → CheckpointAlignManager Name
unfolding add_all_operators
new_align_manager ttl storage jobs = record {
  checkpoint_ttl = ttl;
  current_ck_id = 0;
  operator_cks = add_all_operators jobs [];
  finish_operator_cks = [];
  storage = storage;
}

-- The loop of `run_align_task`: an error is logged, and the loop goes on.
unfoldable pub run_align_task :
    CheckpointAlignManager Name → List (Checkpoint Name) → CheckpointAlignManager Name
unfolding apply
run_align_task m [] = m
run_align_task m (ck ∷ cks) = run_align_task (apply m ck).0 cks

-- An operator of the job, with the job's id and parallelism
abbrev pub IsOperatorOf : ℕ × OperatorCheckpoint Name → JobNode → Type 0
IsOperatorOf e job =
    (e.1.job_id ≡ job.job_id)
    × (e.1.parallelism ≡ job.parallelism)
    × Any (λ n. n.id ≡ e.0) job.stream_nodes

-- What is tracked: operators of the jobs, with no checkpoint of another id and not too many, and each
abbrev pub Tracks : List JobNode → OperatorCks → Type 0
Tracks jobs cks =
    All (λ e. Any (IsOperatorOf e) jobs) cks
    × All (λ job. All (λ n. Present n.id cks) job.stream_nodes) jobs
