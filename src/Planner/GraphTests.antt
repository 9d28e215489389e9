-- ===== src/Planner/GraphTests.antt =====
-- The planner's graphs on a program: its jobs, the edges between these and the edges between tasks.
use rlink_rs.Prelude.{ℕ, ◌≡◌, refl, ◌⊎◌, List, [], ◌∷◌, length, arith, All, Outcome, ok, err, panic}
use rlink_rs.Prelude.Maps.{lookup, insert}
use rlink_rs.Planner.Dag.{Dag}
use rlink_rs.Planner.ListDag.{ListDag, list_add_node, list_add_edge, list_children}
use rlink_rs.Planner.Operators.{StreamOperator, stream_source, DagError, would_cycle_error}
use rlink_rs.Planner.Stream.{check_operator}
use rlink_rs.Planner.Stream.Add.{add_operator}
use rlink_rs.Planner.Stream.Sound.{add_all}
use rlink_rs.Planner.Tests.{G, at_parallelism, graph_after, reduce_calls}
use rlink_rs.Planner.Job.{JobNode}
use rlink_rs.Planner.Job.Build.{JobNodeBuilder, build_jobs}
use rlink_rs.Planner.Execution.{
  JobEdge, forward, re_balance, job_edge_of, ExecutionEdge, ExecutionNode,
}
use rlink_rs.Planner.Execution.Edges.{count_from}
use rlink_rs.Planner.Execution.Build.{
  JobGraph, build_job_graph, build_nodes, build_edges, build_execution_graph,
}
use rlink_rs.Planner.Execution.Build.Joined.{IsGraphOf, build-IsGraphOf}
use rlink_rs.Planner.Execution.Build.Between.{all_task_edges, IsTaskEdge}
use rlink_rs.Planner.Execution.Build.Whole.{build_edges-tasks}

abbrev J : Dag JobNode JobEdge
J = ListDag JobNode JobEdge

abbrev T : Dag (ExecutionNode ℕ) ExecutionEdge
T = ListDag (ExecutionNode ℕ) ExecutionEdge

unfoldable value_of : {E A : Type 0} → A → Outcome E A → A
value_of other (ok a) = a
value_of other (err x) = other
value_of other panic = other

abbrev no_jobs : JobNodeBuilder
no_jobs = record { c2p_job_id_map = []; job_nodes = [] }

abbrev reduce_dag : G.Graph
reduce_dag = (graph_after reduce_calls).dag

abbrev reduce_sources : List ℕ
reduce_sources = 0 ∷ 3 ∷ 7 ∷ []

abbrev reduce_jobs : JobNodeBuilder
reduce_jobs = value_of no_jobs (build_jobs G 5 5 reduce_sources reduce_dag)

abbrev no_job_graph : JobGraph J
no_job_graph = record { job_node_indies = []; dag = J.new }

abbrev reduce_graph : JobGraph J
reduce_graph = value_of no_job_graph (build_job_graph J reduce_jobs)

-- The third job has the parallelism of the second.
reduce_graph_edges : J.raw_edges reduce_graph.dag ≡ (0, (1, re_balance)) ∷ (1, (2, forward)) ∷ []
unfolding value_of build_jobs build_job_graph job_edge_of graph_after add_all add_operator
    check_operator ListDag list_add_node list_add_edge list_children lookup insert
reduce_graph_edges = refl

reduce_jobs_built : build_jobs G 5 5 reduce_sources reduce_dag ≡ ok reduce_jobs
unfolding value_of build_jobs graph_after add_all add_operator check_operator ListDag list_add_node
    list_add_edge list_children lookup insert
reduce_jobs_built = refl

reduce_graph_built : build_job_graph J reduce_jobs ≡ ok reduce_graph
unfolding value_of build_jobs build_job_graph job_edge_of graph_after add_all add_operator
    check_operator ListDag list_add_node list_add_edge list_children lookup insert
reduce_graph_built = refl

build-IsGraphOf_example : IsGraphOf J reduce_jobs reduce_graph
build-IsGraphOf_example =
    build-IsGraphOf J G 5 5 reduce_sources reduce_dag reduce_jobs reduce_graph reduce_jobs_built
      reduce_graph_built

-- A split is its number.
abbrev numbers : StreamOperator → ℕ → Outcome DagError (List ℕ)
numbers op n = ok (count_from 0 n)

abbrev reduce_operators : List (ℕ × StreamOperator)
reduce_operators =
    (0, stream_source (at_parallelism 2))
    ∷ (3, stream_source (at_parallelism 0))
    ∷ (7, stream_source (at_parallelism 0))
    ∷ []

abbrev reduce_tasks : List (ℕ × List ℕ) × T.Graph
reduce_tasks =
    value_of ([], T.new)
      (build_nodes J T numbers reduce_operators reduce_graph.job_node_indies reduce_graph.dag []
        T.new)

-- Two tasks that are each joined to three, and these to three more
reduce_tasks_indices :
    (reduce_tasks.0 ≡ (0, 0 ∷ 1 ∷ []) ∷ (3, 2 ∷ 3 ∷ 4 ∷ []) ∷ (7, 5 ∷ 6 ∷ 7 ∷ []) ∷ [])
    × (length (all_task_edges J reduce_graph reduce_tasks.0 reduce_tasks.0) ≡ 9)
unfolding value_of build_jobs build_job_graph job_edge_of build_nodes graph_after add_all
    add_operator check_operator ListDag list_add_node list_add_edge list_children lookup insert
reduce_tasks_indices = (refl, refl)

reduce_tasks_built :
    build_nodes J T numbers reduce_operators reduce_graph.job_node_indies reduce_graph.dag [] T.new
    ≡ ok reduce_tasks
unfolding value_of build_jobs build_job_graph job_edge_of build_nodes graph_after add_all
    add_operator check_operator ListDag list_add_node list_add_edge list_children lookup insert
reduce_tasks_built = refl

build_edges-tasks_example :
    (build_edges J T reduce_tasks.0 reduce_graph reduce_tasks.0 reduce_tasks.1
      ≡ err would_cycle_error)
    ⊎ ((g : T.Graph) × (build_edges J T reduce_tasks.0 reduce_graph reduce_tasks.0 reduce_tasks.1
          ≡ ok g)
        × (T.raw_nodes g ≡ T.raw_nodes reduce_tasks.1)
        × (T.raw_edges g ≡ all_task_edges J reduce_graph reduce_tasks.0 reduce_tasks.0)
        × All (IsTaskEdge J reduce_graph (T.raw_nodes g)) (T.raw_edges g))
build_edges-tasks_example =
    build_edges-tasks G J T 5 5 reduce_sources reduce_dag reduce_jobs reduce_graph numbers
      reduce_operators reduce_tasks reduce_jobs_built reduce_graph_built reduce_tasks_built
      (omega (arith, reduce_tasks_indices.1))

-- The whole run: as many edges
reduce_edges :
    length (
      T.raw_edges
        (value_of T.new (build_execution_graph J T numbers reduce_operators reduce_graph)))
    ≡ 9
unfolding value_of build_jobs build_job_graph job_edge_of build_execution_graph graph_after add_all
    add_operator check_operator ListDag list_add_node list_add_edge list_children lookup insert
reduce_edges = refl
