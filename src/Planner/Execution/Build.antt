-- ===== src/Planner/Execution/Build.antt =====
-- The loops of `JobGraph::build` (rlink/src/dag/job_graph.rs) over the jobs and their children, and
-- those of `ExecutionGraph::build` (rlink/src/dag/execution_graph.rs) over the jobs and the edges
-- between them. A hash map is the list of its entries. The map `node_indies` of the execution graph is
-- left out: no other code reads it.
pub mod Jobs
pub mod Kinds
pub mod Joined
pub mod Tasks
pub mod Nodes
pub mod Links
pub mod Between
pub mod Whole
use rlink_rs.Prelude.{
  ℕ, Option, none, some, List, [], ◌∷◌, ◌++◌, map, length, get_elem?, ◌==◌, Outcome, ok, err, ◌>>=◌,
  unwrap,
}
use rlink_rs.Prelude.Maps.{lookup, insert}
use rlink_rs.Planner.Dag.{Dag}
use rlink_rs.Planner.Operators.{DagError, job_not_found, StreamOperator}
use rlink_rs.Planner.Job.{JobNode}
use rlink_rs.Planner.Job.Build.{JobNodeBuilder, ids_or_none}
use rlink_rs.Planner.Execution.{
  JobEdge, job_edge_of, ExecutionEdge, ExecutionNode, or_cycle, build_tasks, add_job_edge,
}

pub record JobGraph (J : Dag JobNode JobEdge) : Type 0 where
  pub job_node_indies : List (ℕ × ℕ)
  pub dag : J.Graph

-- `Option::ok_or`
abbrev pub ok_or : {A : Type 0} → Option A → DagError → Outcome DagError A
ok_or none x = err x
ok_or (some a) x = ok a

module _ (J : Dag JobNode JobEdge) where
  -- The loop of `build` over the jobs of the builder
  unfoldable pub add_job_nodes : List (ℕ × JobNode) → JobGraph J → Outcome DagError (JobGraph J)
  unfolding insert
  add_job_nodes [] g = ok g
  add_job_nodes ((id, job) ∷ jobs) g = unwrap (J.add_node job g.dag) >>= λ d.
      add_job_nodes jobs (record {
        job_node_indies = insert ◌==◌ id (length (J.raw_nodes g.dag)) g.job_node_indies;
        dag = d;
      })

  -- The loop of `build_job_edge` over the ids of the children
  unfoldable pub add_child_edges : JobNode → ℕ → List ℕ → JobGraph J → Outcome DagError (JobGraph J)
  unfolding lookup job_edge_of
  add_child_edges job i [] g = ok g
  add_child_edges job i (c ∷ cs) g =
      ok_or (lookup ◌==◌ c g.job_node_indies) (job_not_found c) >>= λ j.
      unwrap (get_elem? (J.raw_nodes g.dag) j) >>= λ child. job_edge_of job child >>= λ e.
      or_cycle (J.add_edge i j e g.dag) >>= λ d. add_child_edges job i cs (record g { dag = d })

  -- `build_job_edge`: with no child, the loop has no round.
  unfoldable pub build_job_edge : ℕ → JobGraph J → Outcome DagError (JobGraph J)
  unfolding add_child_edges
  build_job_edge i g =
      unwrap (get_elem? (J.raw_nodes g.dag) i) >>= λ job. add_child_edges job i job.child_job_ids g

  -- The loop of `build_job_edges`
  unfoldable pub build_job_edges : List ℕ → JobGraph J → Outcome DagError (JobGraph J)
  unfolding build_job_edge
  build_job_edges [] g = ok g
  build_job_edges (i ∷ is) g = build_job_edge i g >>= build_job_edges is

  -- `build`, from what the builder has
  unfoldable pub build_job_graph : JobNodeBuilder → Outcome DagError (JobGraph J)
  unfolding add_job_nodes build_job_edges
  build_job_graph b =
      add_job_nodes b.job_nodes (record { job_node_indies = []; dag = J.new }) >>= λ g.
      build_job_edges (map (λ e. e.1) g.job_node_indies) g

  module _ {S : Type 0} (D : Dag (ExecutionNode S) ExecutionEdge) where
    -- The loop of `build_nodes`, with the jobs left and the indices of each job's tasks so far
    unfoldable pub build_nodes :
        (StreamOperator → ℕ → Outcome DagError (List S))
        → List (ℕ × StreamOperator)
        → List (ℕ × ℕ)
        → J.Graph
        → List (ℕ × List ℕ)
        → D.Graph
        → Outcome DagError (List (ℕ × List ℕ) × D.Graph)
    unfolding lookup insert build_tasks
    build_nodes create_input_splits operators [] jobs tasks g = ok (tasks, g)
    build_nodes create_input_splits operators ((id, i) ∷ rest) jobs tasks g =
        unwrap (get_elem? (J.raw_nodes jobs) i) >>= λ job.
        build_tasks D create_input_splits operators job g >>= λ r.
        build_nodes create_input_splits operators rest jobs
          (insert ◌==◌ job.job_id (ids_or_none (lookup ◌==◌ job.job_id tasks) ++ r.0) tasks) r.1

    -- The loop of `build_edges` over the children of a job
    unfoldable pub add_child_tasks :
        List ℕ → List (ℕ × ℕ) → J.Graph → List (ℕ × List ℕ) → D.Graph → Outcome DagError D.Graph
    unfolding lookup add_job_edge
    add_child_tasks ps [] jobs tasks g = ok g
    add_child_tasks ps (c ∷ cs) jobs tasks g =
        unwrap (get_elem? (J.raw_nodes jobs) c.1) >>= λ child.
        ok_or (lookup ◌==◌ child.job_id tasks) (job_not_found child.job_id) >>= λ ks.
        unwrap (get_elem? (J.raw_edges jobs) c.0) >>= λ e.
        add_job_edge D e.1.1 ps ks g >>= add_child_tasks ps cs jobs tasks

    -- The loop of `build_edges` over the jobs that have tasks, with those left
    unfoldable pub build_edges :
        List (ℕ × List ℕ) → JobGraph J → List (ℕ × List ℕ) → D.Graph → Outcome DagError D.Graph
    unfolding lookup add_child_tasks
    build_edges [] jobs tasks g = ok g
    build_edges ((id, ps) ∷ rest) jobs tasks g =
        ok_or (lookup ◌==◌ id jobs.job_node_indies) (job_not_found id) >>= λ i.
        add_child_tasks ps (J.children i jobs.dag) jobs.dag tasks g >>= build_edges rest jobs tasks

    -- `ExecutionGraph::build` on a new graph
    unfoldable pub build_execution_graph :
        (StreamOperator → ℕ → Outcome DagError (List S))
        → List (ℕ × StreamOperator)
        → JobGraph J
        → Outcome DagError D.Graph
    unfolding build_nodes build_edges
    build_execution_graph create_input_splits operators jobs =
        build_nodes create_input_splits operators jobs.job_node_indies jobs.dag [] D.new >>= λ r.
        build_edges r.0 jobs r.0 r.1
