-- ===== src/Planner/JobTests.antt =====
-- Examples of the theorems on jobs, tasks and worker managers.
use rlink_rs.Prelude.{
  ℕ, ◌≡◌, ◌≢◌, refl, sym, ap, ◌∙◌, some, List, [], ◌∷◌, get_elem?, arith, All, ok, err, ◌≤◌,
}
use rlink_rs.Prelude.Maps.{lookup}
use rlink_rs.Planner.Dag.{Dag, Ends}
use rlink_rs.Planner.ListDag.{ListDag, list_add_node, list_add_edge, list_children}
use rlink_rs.Planner.Operators.{StreamOperator, stream_source, stream_sink, StreamNode}
use rlink_rs.Planner.Stream.{check_operator}
use rlink_rs.Planner.Stream.Add.{add_operator}
use rlink_rs.Planner.Stream.Sound.{add_all, HasPlan, program-HasPlan}
use rlink_rs.Planner.Tests.{G, at_parallelism, graph_after, source_node}
use rlink_rs.Planner.Job.{JobNode, Plan, out_of_fuel, build_job_node}
use rlink_rs.Planner.Job.Chain.{build_job_node-fuel}
use rlink_rs.Planner.Job.Linked.{Linked, build_job_node-IsWalked}
use rlink_rs.Planner.Job.Build.{JobNodeBuilder, build_parallelism}
use rlink_rs.Planner.Job.Unresolved.{build_parallelism-loops}
use rlink_rs.Planner.Execution.{ExecutionEdge, ExecutionNode, task_of}

-- A source with a sink behind
abbrev copy_calls : List (StreamOperator × List ℕ)
copy_calls = (stream_source (at_parallelism 2), []) ∷ (stream_sink (at_parallelism 0), 0 ∷ []) ∷ []

abbrev copy_graph : G.Graph
copy_graph = (graph_after copy_calls).dag

build_job_node-fuel_example : build_job_node G 0 copy_graph ≢ err out_of_fuel
unfolding graph_after add_all add_operator check_operator ListDag list_add_node list_add_edge
build_job_node-fuel_example =
    build_job_node-fuel G copy_graph 0 ((omega arith, omega arith), tt) (omega arith)

copy-HasPlan : HasPlan G (graph_after copy_calls)
unfolding graph_after add_all add_operator check_operator ListDag list_add_node list_add_edge
copy-HasPlan = program-HasPlan G copy_calls (graph_after copy_calls) refl

unfoldable job_of_plan : Plan JobNode → JobNode
job_of_plan (ok job) = job
job_of_plan _ = record {
  job_id = 0;
  parallelism = 0;
  stream_nodes = [];
  child_job_ids = [];
  parent_job_ids = [];
}

abbrev copy_job : JobNode
copy_job = job_of_plan (build_job_node G 0 copy_graph)

copy_starts : get_elem? (G.raw_nodes copy_graph) 0 ≡ some source_node
unfolding graph_after add_all add_operator check_operator ListDag list_add_node list_add_edge
copy_starts = refl

copy_built : build_job_node G 0 copy_graph ≡ ok copy_job
unfolding job_of_plan build_job_node graph_after add_all add_operator check_operator ListDag
    list_add_node list_add_edge list_children
copy_built = refl

build_job_node-IsWalked_example :
    (behind : List StreamNode) × (copy_job.stream_nodes ≡ source_node ∷ behind)
    × Linked source_node behind
    × (copy_job.job_id ≡ 0)
    × All (λ m. m.parallelism ≤ copy_job.parallelism) (source_node ∷ behind)
build_job_node-IsWalked_example =
    build_job_node-IsWalked G (graph_after copy_calls) copy-HasPlan.0 copy-HasPlan.1 copy-HasPlan.2
      0 source_node copy_job (ap (λ l. get_elem? l 0) (sym copy-HasPlan.1.nodes) ∙ copy_starts) refl
      copy_built

-- A source with no parallelism
abbrev unset_job : JobNode
unset_job = record {
  job_id = 0;
  parallelism = 0;
  stream_nodes = source_node ∷ [];
  child_job_ids = [];
  parent_job_ids = [];
}

abbrev unset_jobs : JobNodeBuilder
unset_jobs = record { c2p_job_id_map = []; job_nodes = (0, unset_job) ∷ [] }

build_parallelism-loops_example : build_parallelism 9 9 unset_jobs ≢ ok unset_jobs
unfolding lookup
build_parallelism-loops_example =
    build_parallelism-loops 0 9 9 unset_jobs unset_jobs refl (unset_job, refl, refl)

abbrev E : Dag (ExecutionNode Unit) ExecutionEdge
E = ListDag (ExecutionNode Unit) ExecutionEdge

abbrev two_tasks : List (ExecutionNode Unit)
two_tasks = task_of copy_job 0 tt ∷ task_of copy_job 1 tt ∷ []

unfoldable two_tasks_graph : List (Ends ExecutionEdge) → E.Graph
unfolding ListDag
two_tasks_graph edges = (two_tasks, edges)
