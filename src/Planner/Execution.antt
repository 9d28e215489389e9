-- ===== src/Planner/Execution.antt =====
-- The edges between jobs (`build_job_edge` of rlink/src/dag/job_graph.rs), and the execution graph of
-- rlink/src/dag/execution_graph.rs: a task for each number below a job's parallelism, and the edges
-- between the tasks of two jobs. The input splits are what the source's function answers.
pub mod Edges
pub mod Connect
pub mod Build
use rlink_rs.Prelude.{
  ℕ, zero, suc, ◌+◌, Bool, true, false, Option, none, some, List, [], ◌∷◌, ◌++◌, length, get_elem?,
  ltb, ◌==◌, if◌then◌else◌, Outcome, ok, err, panic, ◌>>=◌, unwrap,
}
use rlink_rs.Prelude.Maps.{lookup}
use rlink_rs.Core.{TaskId}
use rlink_rs.Planner.Dag.{Dag, Added, added, would_cycle, out_of_bounds}
use rlink_rs.Planner.Operators.{
  DagError, would_cycle_error, source_not_found, reduce_output_parallelism_conflict,
  illegal_input_split_size, job_parallelism_not_found, operator_not_found, StreamNode,
  StreamOperator, is_source,
}
use rlink_rs.Planner.Job.{JobNode, is_reduce_job}

pub data JobEdge : Type 0 where
  forward re_balance : JobEdge

-- The edge of `build_job_edge` from a job to its child
unfoldable pub job_edge_of : JobNode → JobNode → Outcome DagError JobEdge
unfolding is_reduce_job
job_edge_of job child =
    if is_reduce_job child
    then ok re_balance
    else if is_reduce_job job
    then (if job.parallelism == child.parallelism
        then ok forward
        else err reduce_output_parallelism_conflict)
    else if job.parallelism == child.parallelism
    then ok forward
    else ok re_balance

pub data ExecutionEdge : Type 0 where
  memory network : ExecutionEdge

pub record ExecutionNode (S : Type 0) : Type 0 where
  pub task_id : TaskId
  pub task_nodes : List StreamNode
  pub input_split : S
  pub task_daemon : Bool

-- `add_edge(..).map_err(|_e| DagError::WouldCycle)`
abbrev pub or_cycle : {G : Type 0} → Added G → Outcome DagError G
or_cycle (added g) = ok g
or_cycle would_cycle = err would_cycle_error
or_cycle out_of_bounds = panic

-- `is_daemon_job`
abbrev pub is_daemon_job : List StreamNode → Bool
is_daemon_job [] = false
is_daemon_job (n ∷ ns) = n.daemon

module _ {S : Type 0} where
  -- The task with this number
  abbrev pub task_of : JobNode → ℕ → S → ExecutionNode S
  task_of job number split = record {
    task_id = record { job_id = job.job_id; task_number = number; num_tasks = job.parallelism };
    task_nodes = job.stream_nodes;
    input_split = split;
    task_daemon = is_daemon_job job.stream_nodes;
  }

  module _ (D : Dag (ExecutionNode S) ExecutionEdge) where
    -- The loop over the task numbers, from one on, with the splits left; a full graph is a panic. It
    -- collects the indices of the nodes.
    unfoldable pub add_tasks : JobNode → ℕ → List S → D.Graph → Outcome DagError (List ℕ × D.Graph)
    add_tasks job number [] g = ok ([], g)
    add_tasks job number (split ∷ splits) g =
        unwrap (D.add_node (task_of job number split) g) >>= λ g₁.
        add_tasks job (suc number) splits g₁ >>= λ r. ok (length (D.raw_nodes g) ∷ r.0, r.1)

    -- The loop body of `build_nodes`, from the operator and the splits that its function creates for
    -- the job's parallelism
    unfoldable pub build_tasks :
        (StreamOperator → ℕ → Outcome DagError (List S))
        → List (ℕ × StreamOperator)
        → JobNode
        → D.Graph
        → Outcome DagError (List ℕ × D.Graph)
    unfolding lookup is_source add_tasks
    build_tasks create_input_splits operators job g = unwrap (get_elem? job.stream_nodes 0) >>= λ n.
        elim (lookup ◌==◌ n.id operators) [
          | none ↦ err (operator_not_found n.id)
          | some op ↦
              if is_source op
              then (create_input_splits op job.parallelism >>= λ splits.
                  if length splits == job.parallelism
                  then (if job.parallelism == 0
                      then err job_parallelism_not_found
                      else add_tasks job 0 splits g)
                  else err illegal_input_split_size)
              else err source_not_found
        ]

    -- `JobEdge::Forward`: task by task; a child with fewer tasks is an index out of bounds.
    unfoldable pub add_forward : List ℕ → List ℕ → D.Graph → Outcome DagError D.Graph
    add_forward [] children g = ok g
    add_forward (p ∷ ps) [] g = panic
    add_forward (p ∷ ps) (c ∷ cs) g = or_cycle (D.add_edge p c memory g) >>= add_forward ps cs

    unfoldable pub add_network : ℕ → List ℕ → D.Graph → Outcome DagError D.Graph
    add_network p [] g = ok g
    add_network p (c ∷ cs) g = or_cycle (D.add_edge p c network g) >>= add_network p cs

    -- `JobEdge::ReBalance`: every task to every task
    unfoldable pub add_re_balance : List ℕ → List ℕ → D.Graph → Outcome DagError D.Graph
    unfolding add_network
    add_re_balance [] children g = ok g
    add_re_balance (p ∷ ps) children g = add_network p children g >>= add_re_balance ps children

    -- The match on the job edge in `build_edges`
    unfoldable pub add_job_edge : JobEdge → List ℕ → List ℕ → D.Graph → Outcome DagError D.Graph
    unfolding add_forward add_re_balance
    add_job_edge forward ps cs g = add_forward ps cs g
    add_job_edge re_balance ps cs g = add_re_balance ps cs g
