-- ===== src/Planner/Execution/Build/Nodes.antt =====
-- The tasks that `build_nodes` of rlink/src/dag/execution_graph.rs adds for the jobs of a job graph, and
-- its map from a job to the indices of these.
use rlink_rs.Prelude.{
  ℕ, zero, suc, ◌≡◌, refl, sym, ap, ◌∙◌, none, some, List, [], ◌∷◌, ◌++◌, length, get_elem?, All,
  map_All, ◌==◌, ==_iff, Outcome, ok, unwrap, bind_ok, unwrap_ok, ok_injective, some_injective,
}
use mathlib.Core.Path.{subst}
use rlink_rs.Prelude.Maps.{
  Present, Present-insert, lookup, insert, lookup-insert_self, lookup-insert_other, All-insert,
  Fresh, Distinct, lookup-Distinct, ==-IsTest,
}
use rlink_rs.Planner.Dag.{Dag}
use rlink_rs.Planner.Operators.{DagError, StreamOperator}
use rlink_rs.Planner.Job.{JobNode}
use rlink_rs.Planner.Job.Build.{ids_or_none}
use rlink_rs.Planner.Execution.{JobEdge, ExecutionEdge, ExecutionNode, build_tasks}
use rlink_rs.Planner.Execution.Edges.{tasks_of, count_from, build_tasks-tasks}
use rlink_rs.Planner.Execution.Build.{JobGraph, build_nodes}
use rlink_rs.Planner.Execution.Build.Jobs.{HasJob, IsJobGraph}
use rlink_rs.Planner.Execution.Build.Tasks.{AreTasks, AreTasks-tasks_of, HasTasks, HasTasks-append}

length-count_from : (k n : ℕ) → length (count_from k n) ≡ n
length-count_from k zero = refl
length-count_from k (suc n) = ap suc (length-count_from (suc k) n)

module _ {S : Type 0} (J : Dag JobNode JobEdge) (D : Dag (ExecutionNode S) ExecutionEdge)
    (jobs : JobGraph J) where
  -- What the loop has so far
  record IsBuilt (rest : List (ℕ × ℕ)) (tasks : List (ℕ × List ℕ)) (g : D.Graph) : Type 0 where
    distinct : Distinct rest
    listed : All (λ e. lookup ◌==◌ e.0 jobs.job_node_indies ≡ some e.1) rest
    indexed : All (HasJob (J.raw_nodes jobs.dag)) rest
    unbuilt : All (λ e. lookup ◌==◌ e.0 tasks ≡ none) rest
    built : All (HasTasks (D.raw_nodes g) (J.raw_nodes jobs.dag) jobs.job_node_indies) tasks

  unbuilt-insert :
      (k : ℕ) (v : List ℕ) (rest : List (ℕ × ℕ)) (tasks : List (ℕ × List ℕ))
      → Fresh k rest
      → All (λ e. lookup ◌==◌ e.0 tasks ≡ none) rest
      → All (λ e. lookup ◌==◌ e.0 (insert ◌==◌ k v tasks) ≡ none) rest
  unbuilt-insert k v [] tasks fresh h = tt
  unbuilt-insert k v (e ∷ rest) tasks fresh h = (
    lookup-insert_other ◌==◌ k e.0 v tasks ==-IsTest fresh.0 ∙ h.0,
    unbuilt-insert k v rest tasks fresh.1 h.1,
  )

  -- What `build_nodes` answers: every job of the index with all its tasks, and no edge
  pub record AreBuilt (rest : List (ℕ × ℕ)) (tasks : List (ℕ × List ℕ)) (g : D.Graph)
      (r : List (ℕ × List ℕ) × D.Graph) : Type 0 where
    pub all_tasks : All (HasTasks (D.raw_nodes r.1) (J.raw_nodes jobs.dag) jobs.job_node_indies) r.0
    pub all_jobs : All (λ e. Present e.0 r.0) rest
    pub kept : (k : ℕ) → Present k tasks → Present k r.0
    pub no_edges : D.raw_edges r.1 ≡ D.raw_edges g

  build_nodes-nothing :
      (tasks : List (ℕ × List ℕ)) (g : D.Graph) (r : List (ℕ × List ℕ) × D.Graph)
      → IsBuilt [] tasks g
      → ◌≡◌ {A = Outcome DagError (List (ℕ × List ℕ) × D.Graph)} (ok (tasks, g)) (ok r)
      → AreBuilt [] tasks g r
  build_nodes-nothing tasks g r h e =
      subst (AreBuilt [] tasks g) (ok_injective {E = DagError} (tasks, g) r e)
        record { all_tasks = h.built; all_jobs = tt; kept = λ k p. p; no_edges = refl }

  module _ (create_input_splits : StreamOperator → ℕ → Outcome DagError (List S))
      (operators : List (ℕ × StreamOperator)) where
    -- The entry of the job that a round builds
    entry_of :
        (id i : ℕ) (job : JobNode) (g : D.Graph) (r : List ℕ × D.Graph)
        → lookup ◌==◌ id jobs.job_node_indies ≡ some i
        → get_elem? (J.raw_nodes jobs.dag) i ≡ some job
        → build_tasks D create_input_splits operators job g ≡ ok r
        → HasTasks (D.raw_nodes r.1) (J.raw_nodes jobs.dag) jobs.job_node_indies (id, r.0)
    entry_of id i job g r key at e =
        let (splits, right, _, nodes, _, indices) =
          build_tasks-tasks D create_input_splits operators job g r e in
        let from = length (D.raw_nodes g) in
        let tasks =
          subst (λ n. AreTasks (D.raw_nodes g ++ tasks_of job 0 splits) job 0 (count_from from n))
            right (AreTasks-tasks_of (D.raw_nodes g) job 0 splits) in
        (
          i,
          job,
          key,
          at,
          ap length indices ∙ length-count_from from job.parallelism,
          subst (AreTasks (D.raw_nodes r.1) job 0) (sym indices)
              (subst (λ l. AreTasks l job 0 (count_from from job.parallelism)) (sym nodes) tasks),
        )

    build_nodes-AreBuilt :
        (rest : List (ℕ × ℕ)) (tasks : List (ℕ × List ℕ)) (g : D.Graph)
        (r : List (ℕ × List ℕ) × D.Graph)
        → IsBuilt rest tasks g
        → build_nodes J D create_input_splits operators rest jobs.dag tasks g ≡ ok r
        → AreBuilt rest tasks g r
    unfolding build_nodes
    build_nodes-AreBuilt [] tasks g r h e = build_nodes-nothing tasks g r h e
    build_nodes-AreBuilt ((id, i) ∷ rest) tasks g r h e =
        let (job, found, e₁) = bind_ok (unwrap (get_elem? (J.raw_nodes jobs.dag) i)) _ e in
        let (r₁, one, e₂) = bind_ok (build_tasks D create_input_splits operators job g) _ e₁ in
        let at = unwrap_ok _ job found in
        let (job', at', id_is) = h.indexed.0 in
        let named = ap (λ j. j.job_id) (some_injective job job' (sym at ∙ at')) ∙ id_is in
        let new = ap (λ k. lookup ◌==◌ k tasks) named ∙ h.unbuilt.0 in
        let v = ids_or_none (lookup ◌==◌ job.job_id tasks) ++ r₁.0 in
        let (splits, _, _, nodes, edges, _) =
          build_tasks-tasks D create_input_splits operators job g r₁ one in
        let entry = entry_of id i job g r₁ h.listed.0 at one in
        let has = HasTasks (D.raw_nodes r₁.1) (J.raw_nodes jobs.dag) jobs.job_node_indies in
        let old =
          map_All _ has
            (λ e k.
              subst (λ l. HasTasks l (J.raw_nodes jobs.dag) jobs.job_node_indies e) (sym nodes)
                (HasTasks-append (D.raw_nodes g) (tasks_of job 0 splits) (J.raw_nodes jobs.dag)
                  jobs.job_node_indies e k))
            tasks h.built in
        let r' =
          build_nodes-AreBuilt rest (insert ◌==◌ job.job_id v tasks) r₁.1 r
            record {
              distinct = h.distinct.1;
              listed = h.listed.1;
              indexed = h.indexed.1;
              unbuilt =
                  unbuilt-insert job.job_id v rest tasks
                    (subst (λ k. Fresh k rest) (sym named) h.distinct.0) h.unbuilt.1;
              built =
                  All-insert ◌==◌ has job.job_id v tasks ((==_iff job.job_id job.job_id).1 refl) old
                    (λ j same.
                      subst (λ k. has (k, v)) (sym ((==_iff j job.job_id).0 same ∙ named))
                        (subst (λ l. has (id, l)) (sym (ap (λ o. ids_or_none o ++ r₁.0) new))
                          entry));
            }
            e₂ in
        record {
          all_tasks = r'.all_tasks;
          all_jobs = (
            r'.kept id (
              v,
              subst (λ k. lookup ◌==◌ k (insert ◌==◌ job.job_id v tasks) ≡ some v) named
                  (lookup-insert_self ◌==◌ job.job_id v tasks
                    ((==_iff job.job_id job.job_id).1 refl)),
            ),
            r'.all_jobs,
          );
          kept = λ k p. r'.kept k (Present-insert job.job_id k v tasks p);
          no_edges = r'.no_edges ∙ edges;
        }

    all_unbuilt : (rest : List (ℕ × ℕ)) → All (λ e. lookup {V = List ℕ} ◌==◌ e.0 [] ≡ none) rest
    unfolding lookup
    all_unbuilt [] = tt
    all_unbuilt (e ∷ rest) = (refl, all_unbuilt rest)

    pub build_nodes_lem :
        (r : List (ℕ × List ℕ) × D.Graph)
        → IsJobGraph J jobs
        → build_nodes J D create_input_splits operators jobs.job_node_indies jobs.dag [] D.new
          ≡ ok r
        → AreBuilt jobs.job_node_indies [] D.new r
    build_nodes_lem r h e =
        build_nodes-AreBuilt jobs.job_node_indies [] D.new r
          record {
            distinct = h.distinct;
            listed = lookup-Distinct jobs.job_node_indies h.distinct;
            indexed = h.indexed;
            unbuilt = all_unbuilt jobs.job_node_indies;
            built = tt;
          }
          e
