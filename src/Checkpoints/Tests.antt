-- ===== src/Checkpoints/Tests.antt =====
-- A job of one operator with two tasks, and one of two operators.
use rlink_rs.Prelude.{ℕ, ◌≡◌, refl, Option, none, some, List, [], ◌∷◌, arith, false, map, length}
use rlink_rs.Operators.{user}
use rlink_rs.Planner.Operators.{OperatorType, source, sink, StreamNode, empty}
use rlink_rs.Planner.Job.{JobNode}
use rlink_rs.Checkpoints.Create.{Name, new_align_manager, run_align_task, Tracks}
use rlink_rs.Checkpoints.Tracked.{run_align_task-Tracks}
use rlink_rs.Core.{TaskId}
use rlink_rs.Checkpoints.{
  Checkpoint, CheckpointAlignManager, new_operator, apply, operator_not_found, ids_of,
}
use rlink_rs.Checkpoints.Consistent.{IsConsistent, apply-IsConsistent}

abbrev task : ℕ → TaskId
task n = record { job_id = 1; task_number = n; num_tasks = 2 }

abbrev ck : ℕ → ℕ → ℕ → Checkpoint ℕ
ck operator number id = record {
  operator_id = operator;
  task_id = task number;
  checkpoint_id = id;
  completed_checkpoint_id = none;
  handle = 0;
}

abbrev start : CheckpointAlignManager ℕ
start = record {
  checkpoint_ttl = 1000;
  current_ck_id = 0;
  operator_cks = (7, new_operator 1 7 0 2) ∷ [];
  finish_operator_cks = [];
  storage = some [];
}

abbrev after_first : CheckpointAlignManager ℕ
after_first = (apply start (ck 7 0 30)).0

start-IsConsistent : IsConsistent start
start-IsConsistent = (((tt, omega arith), tt), (0, omega arith, tt))

apply-IsConsistent_example : IsConsistent (apply after_first (ck 7 1 30)).0
apply-IsConsistent_example =
    apply-IsConsistent after_first (ck 7 1 30)
      (apply-IsConsistent start (ck 7 0 30) start-IsConsistent)

-- The second task completes the checkpoint, which is saved; an unknown operator is an error.
saved_ids : Option (List (ℕ × List (Checkpoint ℕ))) → List ℕ
saved_ids none = []
saved_ids (some h) = ids_of h

apply_saves : saved_ids (apply after_first (ck 7 1 30)).0.storage ≡ 30 ∷ []
unfolding apply saved_ids
apply_saves = refl

apply_unknown : (apply start (ck 9 0 30)).1 ≡ operator_not_found
unfolding apply
apply_unknown = refl

abbrev node : ℕ → OperatorType → StreamNode
node k type = record {
  id = k;
  parent_ids = [];
  parallelism = 2;
  input_schema = empty;
  output_schema = empty;
  daemon = false;
  operator_name = [];
  operator_type = type;
  fn_creator = user;
}

-- A source and a sink, with two tasks
abbrev copy : JobNode
copy = record {
  job_id = 1;
  parallelism = 2;
  stream_nodes = node 7 source ∷ node 8 sink ∷ [];
  child_job_ids = [];
  parent_job_ids = [];
}

abbrev named_ck : ℕ → ℕ → ℕ → Checkpoint Name
named_ck operator number id = record {
  operator_id = operator;
  task_id = task number;
  checkpoint_id = id;
  completed_checkpoint_id = none;
  handle = [];
}

abbrev created : CheckpointAlignManager Name
created = new_align_manager 1000 (some []) (copy ∷ [])

-- The last of these is of an operator that is not there.
abbrev arrivals : List (Checkpoint Name)
arrivals =
    named_ck 7 0 30 ∷ named_ck 8 1 30 ∷ named_ck 8 0 30 ∷ named_ck 7 1 30 ∷ named_ck 9 0 40 ∷ []

run_align_task-Tracks_example :
    IsConsistent (run_align_task created arrivals)
    × Tracks (copy ∷ []) (run_align_task created arrivals).operator_cks
run_align_task-Tracks_example = run_align_task-Tracks 1000 (some []) (copy ∷ []) arrivals

arrivals_saved :
    ((run_align_task created arrivals).current_ck_id ≡ 40)
    × (map (λ e. length e.1.current_cks) (run_align_task created arrivals).finish_operator_cks
        ≡ 2 ∷ 2 ∷ [])
unfolding run_align_task new_align_manager apply
arrivals_saved = (refl, refl)
