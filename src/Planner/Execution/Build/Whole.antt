-- ===== src/Planner/Execution/Build/Whole.antt =====
-- `build_edges` of rlink/src/dag/execution_graph.rs, on the job graph and the tasks that the planner
-- has made before.
use rlink_rs.Prelude.{
  ℕ, ◌≡◌, refl, sym, ap, ◌∙◌, inl, inr, some, List, [], ◌∷◌, ◌++◌, length, get_elem?, arith, All,
  All-append, map_All, Outcome, ok, err, ◌>>=◌, ◌⊎◌, bind_ok, length-append, ◌<◌, ◌≤◌,
}
use mathlib.Core.Path.{subst}
use rlink_rs.Planner.Dag.{Dag, Ends}
use rlink_rs.Planner.Operators.{DagError, StreamOperator, StreamNode, would_cycle_error}
use rlink_rs.Planner.Job.{JobNode}
use rlink_rs.Planner.Execution.{JobEdge, ExecutionEdge, ExecutionNode, add_job_edge}
use rlink_rs.Planner.Execution.Connect.{
  task_edges, Connects, Connects-nothing, Connects-trans, add_job_edge-Connects,
}
use rlink_rs.Planner.Execution.Build.{
  JobGraph, build_job_graph, build_nodes, add_child_tasks, build_edges,
}
use rlink_rs.Planner.Job.Build.{JobNodeBuilder, build_jobs}
use rlink_rs.Planner.Execution.Build.Jobs.{IsJobGraph, build-IsJobGraph}
use rlink_rs.Planner.Execution.Build.Tasks.{AreTasks, AreTasks-bound, HasTasks}
use rlink_rs.Planner.Execution.Build.Nodes.{AreBuilt, build_nodes_lem}
use rlink_rs.Planner.Execution.Build.Links.{
  JoinsTasks, task_edges-JoinsTasks, IsAddition, IsAddition-cases, bind-IsAddition, HasRoom,
  rest-HasRoom, add_job_edge-IsAddition,
}
use rlink_rs.Planner.Execution.Build.Between.{
  edges_at, child_task_edges, all_task_edges, IsTaskEdge, leads_to,
}

module _ {S : Type 0} (J : Dag JobNode JobEdge) (jobs : JobGraph J) where
  module _ (D : Dag (ExecutionNode S) ExecutionEdge) (tasks : List (ℕ × List ℕ)) (g₀ g : D.Graph)
      (graph : IsJobGraph J jobs)
      (built : AreBuilt J D jobs jobs.job_node_indies [] g₀ (tasks, g)) where
    -- A run that ends with a graph, to which it has added these edges, or with the error of a cycle
    abbrev Adds : List (Ends ExecutionEdge) → D.Graph → Outcome DagError D.Graph → Type 0
    Adds es h m = IsAddition m × ((h' : D.Graph) → m ≡ ok h' → Connects D h es h')

    bind-Adds :
        (es fs : List (Ends ExecutionEdge)) (h : D.Graph) (m : Outcome DagError D.Graph)
        (f : D.Graph → Outcome DagError D.Graph)
        → Adds es h m
        → ((h' : D.Graph) → Connects D h es h' → Adds fs h' (f h'))
        → Adds (es ++ fs) h (m >>= f)
    bind-Adds es fs h m f (ends, adds) next = (
      bind-IsAddition m f ends (λ h' e. (next h' (adds h' e)).0),
      λ k e.
          let (h', one, rest) = bind_ok m f e in
          Connects-trans D h h' k es fs (adds h' one) ((next h' (adds h' one)).1 k rest),
    )

    child_edges :
        (i : ℕ) (job : JobNode) (ps : List ℕ) (cs : List (ℕ × ℕ)) (h : D.Graph)
        → get_elem? (J.raw_nodes jobs.dag) i ≡ some job
        → length ps ≡ job.parallelism
        → AreTasks (D.raw_nodes g) job 0 ps
        → All (λ c. (e : JobEdge) × (get_elem? (J.raw_edges jobs.dag) c.0 ≡ some (i, (c.1, e)))) cs
        → D.raw_nodes h ≡ D.raw_nodes g
        → HasRoom D h (child_task_edges J jobs ps cs tasks)
        → Adds (child_task_edges J jobs ps cs tasks) h (add_child_tasks J D ps cs jobs.dag tasks h)
          × All (IsTaskEdge J jobs (D.raw_nodes g)) (child_task_edges J jobs ps cs tasks)
    unfolding add_child_tasks
    child_edges i job ps [] h at count are cs_at same room =
        ((tt, λ h' e. Connects-nothing D h h' e), tt)
    child_edges i job ps (c ∷ cs) h at count are ((kind, at_e), cs_at) same room =
        let (child, kind', ks, at_c, found, edge, ahead, are_c) =
          leads_to J jobs D tasks g₀ g graph built i job c kind at at_e in
        let rest = child_task_edges J jobs ps cs tasks in
        let one : edges_at J jobs ps c tasks ≡ task_edges kind' ps ks =
          rw (at_c, found, edge) refl in
        let room' : HasRoom D h (task_edges kind' ps ks ++ rest) =
          subst (λ es. HasRoom D h (es ++ rest)) one room in
        let within =
          λ (number : ℕ) (x : JobNode) (ns : List ℕ) (a : AreTasks (D.raw_nodes g) x number ns).
            subst (λ l. All (λ k. k < length l) ns) (sym same)
              (AreTasks-bound (D.raw_nodes g) x number ns a) in
        let joined =
          map_All (JoinsTasks (D.raw_nodes g) job child kind') (IsTaskEdge J jobs (D.raw_nodes g))
            (λ e j. (job, child, (i, (c.1, kind')), c.0, edge, at, at_c, j))
            (task_edges kind' ps ks)
            (task_edges-JoinsTasks (D.raw_nodes g) job child kind' ps ks are are_c) in
        let first : Adds (task_edges kind' ps ks) h (add_job_edge D kind' ps ks h) = (
          add_job_edge-IsAddition D kind' ps ks h (λ f. count ∙ ahead f) (within 0 job ps are)
              (within 0 child ks are_c)
              (omega (arith, room', length-append (task_edges kind' ps ks) rest)),
          λ h' e. add_job_edge-Connects D kind' ps ks h h' e,
        ) in
        let step =
          bind-Adds (task_edges kind' ps ks) rest h (add_job_edge D kind' ps ks h)
            (add_child_tasks J D ps cs jobs.dag tasks) first
            (λ h' k.
              (child_edges i job ps cs h' at count are cs_at (k.0 ∙ same)
                (rest-HasRoom D (task_edges kind' ps ks) rest h h' k room')).0) in
        let others =
          child_edges i job ps cs h at count are cs_at same
            (omega (arith, room', length-append (task_edges kind' ps ks) rest)) in
        (
          rw (at_c, found, edge) step,
          rw (at_c, found, edge)
              (All-append (IsTaskEdge J jobs (D.raw_nodes g)) (task_edges kind' ps ks) rest joined
                others.1),
        )

    job_edges :
        (rest : List (ℕ × List ℕ)) (h : D.Graph)
        → All (HasTasks (D.raw_nodes g) (J.raw_nodes jobs.dag) jobs.job_node_indies) rest
        → D.raw_nodes h ≡ D.raw_nodes g
        → HasRoom D h (all_task_edges J jobs rest tasks)
        → Adds (all_task_edges J jobs rest tasks) h (build_edges J D rest jobs tasks h)
          × All (IsTaskEdge J jobs (D.raw_nodes g)) (all_task_edges J jobs rest tasks)
    unfolding build_edges
    job_edges [] h own same room = ((tt, λ h' e. Connects-nothing D h h' e), tt)
    job_edges ((id, ps) ∷ rest) h ((i, job, key, at, count, are), own) same room =
        let cs = J.children i jobs.dag in
        let es = child_task_edges J jobs ps cs tasks in
        let fs = all_task_edges J jobs rest tasks in
        let room' : HasRoom D h (es ++ fs) = rw key at room in
        let few : HasRoom D h es = omega (arith, room', length-append es fs) in
        let late : HasRoom D h fs = omega (arith, room', length-append es fs) in
        let first = child_edges i job ps cs h at count are (J.children-at i jobs.dag) same few in
        let step =
          bind-Adds es fs h (add_child_tasks J D ps cs jobs.dag tasks h)
            (build_edges J D rest jobs tasks) first.0
            (λ h' k. (job_edges rest h' own (k.0 ∙ same) (rest-HasRoom D es fs h h' k room')).0) in
        (
          rw key step,
          rw key (
              All-append (IsTaskEdge J jobs (D.raw_nodes g)) es fs first.1
                (job_edges rest h own same late).1),
        )

module _ {S : Type 0} (P : Dag StreamNode Unit) (J : Dag JobNode JobEdge)
    (D : Dag (ExecutionNode S) ExecutionEdge) where
  -- `build_edges` ends with a graph or with the error of a cycle, and with no other error and no panic,
  -- on the jobs that `JobNodeBuilder` and `JobGraph::build` make of a stream graph and on the tasks
  -- that `build_nodes` makes of these, if the edges are not too many for a graph. The graph has those
  -- tasks as its nodes; its edges are, for each job that has tasks and each of the job's edges to a
  -- child, those between the tasks of the two jobs: of one number, in memory, where the edge is
  -- forward, and of any two numbers, over the network, where it is not.
  pub build_edges-tasks :
      (rounds fuel : ℕ) (sources : List ℕ) (dag : P.Graph) (b : JobNodeBuilder) (jobs : JobGraph J)
      (create_input_splits : StreamOperator → ℕ → Outcome DagError (List S))
      (operators : List (ℕ × StreamOperator)) (r : List (ℕ × List ℕ) × D.Graph)
      → build_jobs P rounds fuel sources dag ≡ ok b
      → build_job_graph J b ≡ ok jobs
      → build_nodes J D create_input_splits operators jobs.job_node_indies jobs.dag [] D.new ≡ ok r
      → length (all_task_edges J jobs r.0 r.0) ≤ 4294967295
      → (build_edges J D r.0 jobs r.0 r.1 ≡ err would_cycle_error)
        ⊎ ((g : D.Graph) × (build_edges J D r.0 jobs r.0 r.1 ≡ ok g)
            × (D.raw_nodes g ≡ D.raw_nodes r.1)
            × (D.raw_edges g ≡ all_task_edges J jobs r.0 r.0)
            × All (IsTaskEdge J jobs (D.raw_nodes g)) (D.raw_edges g))
  build_edges-tasks rounds fuel sources dag b jobs create operators r made graph nodes room =
      let whole = build-IsJobGraph J P rounds fuel sources dag b jobs made graph in
      let built = build_nodes_lem J D jobs create operators r whole nodes in
      let es = all_task_edges J jobs r.0 r.0 in
      let none_yet = built.no_edges ∙ D.raw_edges-new in
      let ends =
        job_edges J jobs D r.0 D.new r.1 whole built r.0 r.1 built.all_tasks refl
          (omega (arith, room, ap length none_yet)) in
      elim (IsAddition-cases (build_edges J D r.0 jobs r.0 r.1) ends.0.0) [
        | inl cycle ↦ inl cycle
        | inr (g, done) ↦
            let (same, added) = ends.0.1 g done in
            let edges = added ∙ ap (λ l. l ++ es) none_yet in
            inr (
              g,
              done,
              same,
              edges,
              subst (λ l. All (IsTaskEdge J jobs (D.raw_nodes g)) l) (sym edges)
                  (subst (λ l. All (IsTaskEdge J jobs l) es) (sym same) ends.1),
            )
      ]
