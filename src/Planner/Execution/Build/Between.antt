-- ===== src/Planner/Execution/Build/Between.antt =====
-- What `build_edges` of rlink/src/dag/execution_graph.rs finds for an edge of the job graph, and the edges
-- between tasks that it is to add.
use rlink_rs.Prelude.{
  ℕ, ◌≡◌, sym, ap, ◌∙◌, inl, inr, Option, none, some, List, [], ◌∷◌, ◌++◌, length, get_elem?,
  All-get_elem?, ◌==◌, ==_iff, some_injective, ok,
}
use mathlib.Core.Path.{subst}
use rlink_rs.Prelude.Sort.{Any}
use rlink_rs.Prelude.Maps.{Present, lookup, All-lookup}
use rlink_rs.Planner.Dag.{Dag, Ends}
use rlink_rs.Planner.Job.{JobNode}
use rlink_rs.Planner.Execution.{JobEdge, forward, ExecutionEdge, ExecutionNode}
use rlink_rs.Planner.Execution.Edges.{job_edge_of_lem}
use rlink_rs.Planner.Execution.Connect.{task_edges}
use rlink_rs.Planner.Execution.Build.{JobGraph}
use rlink_rs.Planner.Execution.Build.Jobs.{HasJob, IsJobGraph, IsChildEdge}
use rlink_rs.Planner.Execution.Build.Tasks.{AreTasks, HasTasks}
use rlink_rs.Planner.Execution.Build.Nodes.{AreBuilt}
use rlink_rs.Planner.Execution.Build.Links.{JoinsTasks}

abbrev pub with_some : {A B : Type 0} → Option A → (A → List B) → List B
with_some none f = []
with_some (some a) f = f a

module _ (J : Dag JobNode JobEdge) (jobs : JobGraph J) where
  abbrev pub edges_at : List ℕ → ℕ × ℕ → List (ℕ × List ℕ) → List (Ends ExecutionEdge)
  edges_at ps c tasks = with_some (get_elem? (J.raw_nodes jobs.dag) c.1) (λ child.
      with_some (lookup ◌==◌ child.job_id tasks)
        (λ ks. with_some (get_elem? (J.raw_edges jobs.dag) c.0) (λ e. task_edges e.1.1 ps ks)))

  abbrev pub child_task_edges :
      List ℕ → List (ℕ × ℕ) → List (ℕ × List ℕ) → List (Ends ExecutionEdge)
  child_task_edges ps [] tasks = []
  child_task_edges ps (c ∷ cs) tasks = edges_at ps c tasks ++ child_task_edges ps cs tasks

  -- For each job that has tasks and each edge to a child, the edges between the tasks of the two
  abbrev pub all_task_edges : List (ℕ × List ℕ) → List (ℕ × List ℕ) → List (Ends ExecutionEdge)
  all_task_edges [] tasks = []
  all_task_edges (e ∷ rest) tasks =
      with_some (lookup ◌==◌ e.0 jobs.job_node_indies)
        (λ i. child_task_edges e.1 (J.children i jobs.dag) tasks)
      ++ all_task_edges rest tasks

module _ {S : Type 0} (J : Dag JobNode JobEdge) (jobs : JobGraph J) where
  -- An edge of the job graph joins the jobs of the two tasks, and says which tasks of these are joined
  -- and how.
  abbrev pub IsTaskEdge : List (ExecutionNode S) → Ends ExecutionEdge → Type 0
  IsTaskEdge nodes e =
      (job : JobNode) × (child : JobNode) × (x : Ends JobEdge) × (k : ℕ) × (get_elem?
          (J.raw_edges jobs.dag) k
        ≡ some x)
      × (get_elem? (J.raw_nodes jobs.dag) x.0 ≡ some job)
      × (get_elem? (J.raw_nodes jobs.dag) x.1.0 ≡ some child)
      × JoinsTasks nodes job child x.1.1 e

  module _ (D : Dag (ExecutionNode S) ExecutionEdge) (tasks : List (ℕ × List ℕ)) (g₀ g : D.Graph)
      (graph : IsJobGraph J jobs)
      (built : AreBuilt J D jobs jobs.job_node_indies [] g₀ (tasks, g)) where
    -- The tasks of the job at an index
    tasks_at :
        (k i : ℕ) (job : JobNode)
        → lookup ◌==◌ k jobs.job_node_indies ≡ some i
        → get_elem? (J.raw_nodes jobs.dag) i ≡ some job
        → (ks : List ℕ) × (lookup ◌==◌ k tasks ≡ some ks)
          × (length ks ≡ job.parallelism)
          × AreTasks (D.raw_nodes g) job 0 ks
    tasks_at k i job key at =
        let (j, same, (ks, found)) =
          All-lookup ◌==◌ (λ e. Present e.0 tasks) k i jobs.job_node_indies built.all_jobs key in
        let found' = subst (λ n. lookup ◌==◌ n tasks ≡ some ks) ((==_iff j k).0 same) found in
        let (j', same', (i', job', key', at', count, are)) =
          All-lookup ◌==◌ (HasTasks (D.raw_nodes g) (J.raw_nodes jobs.dag) jobs.job_node_indies) k
            ks tasks built.all_tasks found' in
        let i≡ = some_injective i' i (
          sym
            (subst (λ n. lookup ◌==◌ n jobs.job_node_indies ≡ some i') ((==_iff j' k).0 same') key')
          ∙ key) in
        let job≡ =
          some_injective job' job
            (sym (subst (λ n. get_elem? (J.raw_nodes jobs.dag) n ≡ some job') i≡ at') ∙ at) in
        (
          ks,
          found',
          count ∙ ap (λ x. x.parallelism) job≡,
          subst (λ x. AreTasks (D.raw_nodes g) x 0 ks) job≡ are,
        )

    child_key :
        (cs : List ℕ) (i : ℕ) (child : JobNode)
        → get_elem? (J.raw_nodes jobs.dag) i ≡ some child
        → Any (λ c. lookup ◌==◌ c jobs.job_node_indies ≡ some i) cs
        → lookup ◌==◌ child.job_id jobs.job_node_indies ≡ some i
    child_key [] i child at h = absurd h
    child_key (c ∷ cs) i child at (inr there) = child_key cs i child at there
    child_key (c ∷ cs) i child at (inl here) =
        let (j, same, (job, at', named)) =
          All-lookup ◌==◌ (HasJob (J.raw_nodes jobs.dag)) c i jobs.job_node_indies graph.indexed
            here in
        let id : child.job_id ≡ c =
          ap (λ x. x.job_id) (some_injective child job (sym at ∙ at'))
          ∙ (named ∙ (==_iff j c).0 same) in
        ap (λ n. lookup ◌==◌ n jobs.job_node_indies) id ∙ here

    -- What a child's edge leads to
    abbrev pub LeadsTo : ℕ → JobNode → ℕ × ℕ → Type 0
    LeadsTo i job c =
        (child : JobNode) × (kind : JobEdge) × (ks : List ℕ) × (get_elem? (J.raw_nodes jobs.dag) c.1
          ≡ some child)
        × (lookup ◌==◌ child.job_id tasks ≡ some ks)
        × (get_elem? (J.raw_edges jobs.dag) c.0 ≡ some (i, (c.1, kind)))
        × (kind ≡ forward → job.parallelism ≡ length ks)
        × AreTasks (D.raw_nodes g) child 0 ks

    pub leads_to :
        (i : ℕ) (job : JobNode) (c : ℕ × ℕ) (kind : JobEdge)
        → get_elem? (J.raw_nodes jobs.dag) i ≡ some job
        → get_elem? (J.raw_edges jobs.dag) c.0 ≡ some (i, (c.1, kind))
        → LeadsTo i job c
    leads_to i job c kind at edge =
        let (job', child, at', at_c, fits, own) =
          All-get_elem? (IsChildEdge (J.raw_nodes jobs.dag) jobs.job_node_indies)
            (J.raw_edges jobs.dag) c.0 (i, (c.1, kind)) graph.edges edge in
        let same = some_injective job' job (sym at' ∙ at) in
        let (ks, found, count, are) =
          tasks_at child.job_id c.1 child (child_key job'.child_job_ids c.1 child at_c own) at_c in
        (
          child,
          kind,
          ks,
          at_c,
          found,
          edge,
          λ ahead.
              ap (λ x. x.parallelism) (sym same)
              ∙ (((job_edge_of_lem job' child).0.0 (fits ∙ ap ok ahead)).1 ∙ sym count),
          are,
        )
