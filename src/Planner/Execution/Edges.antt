-- ===== src/Planner/Execution/Edges.antt =====
-- The tasks of a job and the edges between the tasks of two jobs (rlink/src/dag/execution_graph.rs).
use rlink_rs.Prelude.{
  ℕ, zero, suc, ◌≡◌, ◌≢◌, refl, sym, ap, ◌∙◌, inl, inr, Bool, true, false, List, [], ◌∷◌, ◌++◌,
  length, get_elem?, length-append, arith, Bool-cases, Option-cases, ◌==◌, ==_iff, if◌then◌else◌,
  Outcome, ok, err, unwrap, bind_ok, unwrap_ok, ok_injective, ◌↔◌,
}
use mathlib.Core.Path.{subst}
use mathlib.Core.List.{append_assoc, append-nil}
use rlink_rs.Prelude.Maps.{lookup}
use rlink_rs.Planner.Dag.{Dag}
use rlink_rs.Planner.Operators.{
  DagError, reduce_output_parallelism_conflict, StreamOperator, is_source,
}
use rlink_rs.Planner.Job.{JobNode, is_reduce_job}
use rlink_rs.Planner.Execution.{
  JobEdge, forward, re_balance, job_edge_of, ExecutionEdge, ExecutionNode, task_of, add_tasks,
  build_tasks,
}

abbrev choose : Bool → Bool → Bool → Outcome DagError JobEdge
choose child_reduces reduces same =
    if child_reduces
    then ok re_balance
    else if reduces
    then (if same then ok forward else err reduce_output_parallelism_conflict)
    else if same
    then ok forward
    else ok re_balance

choose-forward : (r s q : Bool) → choose r s q ≡ ok forward ↔ ((r ≡ false) × (q ≡ true))
choose-forward true s q = (λ e. absurd (cc e), λ h. absurd (cc h.0))
choose-forward false true true = (λ _. (refl, refl), λ _. refl)
choose-forward false true false = (λ e. absurd (cc e), λ h. absurd (cc h.1))
choose-forward false false true = (λ _. (refl, refl), λ _. refl)
choose-forward false false false = (λ e. absurd (cc e), λ h. absurd (cc h.1))

choose-conflict :
    (r s q : Bool) (x : DagError) → choose r s q ≡ err x → (r ≡ false) × (s ≡ true) × (q ≡ false)
choose-conflict true s q x e = absurd (cc e)
choose-conflict false true true x e = absurd (cc e)
choose-conflict false true false x e = (refl, refl, refl)
choose-conflict false false true x e = absurd (cc e)
choose-conflict false false false x e = absurd (cc e)

-- The edge to a child is forward for exactly the jobs of one parallelism whose child does not reduce;
-- and there is an error only from a job that reduces to one of another parallelism that does not.
pub job_edge_of_lem :
    (job child : JobNode)
    → (job_edge_of job child ≡ ok forward
        ↔ ((is_reduce_job child ≡ false) × (job.parallelism ≡ child.parallelism)))
      × ((x : DagError)
          → job_edge_of job child ≡ err x
          → (is_reduce_job job ≡ true)
            × (is_reduce_job child ≡ false)
            × (job.parallelism ≢ child.parallelism))
unfolding job_edge_of
job_edge_of_lem job child =
    let same = ==_iff job.parallelism child.parallelism in
    let choice =
      choose-forward (is_reduce_job child) (is_reduce_job job)
        (job.parallelism == child.parallelism) in
    (
      (λ e. ((choice.0 e).0, same.0 (choice.0 e).1), λ h. choice.1 (h.0, same.1 h.1)),
      λ x e.
          let (r, s, q) =
            choose-conflict (is_reduce_job child) (is_reduce_job job)
              (job.parallelism == child.parallelism) x e in
          (s, r, λ h. cc (q, same.1 h)),
    )

abbrev pub tasks_of : {S : Type 0} → JobNode → ℕ → List S → List (ExecutionNode S)
tasks_of job number [] = []
tasks_of job number (s ∷ ss) = task_of job number s ∷ tasks_of job (suc number) ss

-- Numbers from `k` on
abbrev pub count_from : ℕ → ℕ → List ℕ
count_from k zero = []
count_from k (suc n) = k ∷ count_from (suc k) n

module _ {S : Type 0} (D : Dag (ExecutionNode S) ExecutionEdge) where
  add_tasks_lem :
      (job : JobNode) (number : ℕ) (splits : List S) (g : D.Graph) (r : List ℕ × D.Graph)
      → add_tasks D job number splits g ≡ ok r
      → (D.raw_nodes r.1 ≡ D.raw_nodes g ++ tasks_of job number splits)
        × (D.raw_edges r.1 ≡ D.raw_edges g)
        × (r.0 ≡ count_from (length (D.raw_nodes g)) (length splits))
  unfolding add_tasks
  add_tasks_lem job number [] g r e =
      subst
        (λ r.
          (D.raw_nodes r.1 ≡ D.raw_nodes g ++ []) × (D.raw_edges r.1 ≡ D.raw_edges g) × (r.0 ≡ []))
        (ok_injective {E = DagError} ([], g) r e) (sym (append-nil (D.raw_nodes g)), refl, refl)
  add_tasks_lem job number (s ∷ ss) g r e =
      let (g₁, new, e₁) = bind_ok (unwrap (D.add_node (task_of job number s) g)) _ e in
      let (r₁, rest, e₂) = bind_ok (add_tasks D job (suc number) ss g₁) _ e₁ in
      let (nodes₁, edges₁, _) = D.add_node_lem (task_of job number s) g g₁ (unwrap_ok _ g₁ new) in
      let (nodes', edges', indices) = add_tasks_lem job (suc number) ss g₁ r₁ rest in
      let count : length (D.raw_nodes g₁) ≡ suc (length (D.raw_nodes g)) =
        ap length nodes₁
        ∙ omega (arith, length-append (D.raw_nodes g) (task_of job number s ∷ [])) in
      subst
        (λ r.
          (D.raw_nodes r.1 ≡ D.raw_nodes g ++ task_of job number s ∷ tasks_of job (suc number) ss)
          × (D.raw_edges r.1 ≡ D.raw_edges g)
          × (r.0 ≡ length (D.raw_nodes g) ∷ count_from (suc (length (D.raw_nodes g))) (length ss)))
        (ok_injective {E = DagError} (length (D.raw_nodes g) ∷ r₁.0, r₁.1) r e₂)
        (
          nodes'
              ∙ (ap (λ l. l ++ tasks_of job (suc number) ss) nodes₁
                  ∙ append_assoc (D.raw_nodes g) (task_of job number s ∷ [])
                      (tasks_of job (suc number) ss)),
          edges' ∙ edges₁,
          ap (λ l. length (D.raw_nodes g) ∷ l) (indices ∙ ap (λ k. count_from k (length ss)) count),
        )

  build_tasks_lem :
      (create_input_splits : StreamOperator → ℕ → Outcome DagError (List S))
      (operators : List (ℕ × StreamOperator)) (job : JobNode) (g : D.Graph) (r : List ℕ × D.Graph)
      → build_tasks D create_input_splits operators job g ≡ ok r
      → (splits : List S) × (length splits ≡ job.parallelism)
        × (job.parallelism ≢ 0)
        × (add_tasks D job 0 splits g ≡ ok r)
  unfolding build_tasks
  build_tasks_lem create operators job g r e =
      let (n, _, e₁) = bind_ok (unwrap (get_elem? job.stream_nodes 0)) _ e in
      elim (Option-cases (lookup ◌==◌ n.id operators)) [
        | inl unknown ↦ absurd (cc (rw unknown at e₁))
        | inr (op, at) ↦ elim (Bool-cases (is_source op)) [
          | inr other ↦ absurd (cc (rw (at, other) at e₁))
          | inl starts ↦
              let (splits, _, e₂) = bind_ok (create op job.parallelism) _ (rw (at, starts) at e₁) in
              elim (Bool-cases (length splits == job.parallelism)) [
                | inr wrong ↦ absurd (cc (rw wrong at e₂))
                | inl right ↦ elim (Bool-cases (job.parallelism == 0)) [
                  | inl unset ↦ absurd (cc (rw (right, unset) at e₂))
                  | inr set ↦ (
                    splits,
                    (==_iff (length splits) job.parallelism).0 right,
                    λ h. cc (set, (==_iff job.parallelism 0).1 h),
                    rw (right, set) at e₂,
                  )
                ]
              ]
        ]
      ]

  -- When the tasks of a job are built, its parallelism is not 0, the graph has at its end one task for
  -- each number below the parallelism, with its split, and the answer is the indices of these.
  pub build_tasks-tasks :
      (create_input_splits : StreamOperator → ℕ → Outcome DagError (List S))
      (operators : List (ℕ × StreamOperator)) (job : JobNode) (g : D.Graph) (r : List ℕ × D.Graph)
      → build_tasks D create_input_splits operators job g ≡ ok r
      → (splits : List S) × (length splits ≡ job.parallelism)
        × (job.parallelism ≢ 0)
        × (D.raw_nodes r.1 ≡ D.raw_nodes g ++ tasks_of job 0 splits)
        × (D.raw_edges r.1 ≡ D.raw_edges g)
        × (r.0 ≡ count_from (length (D.raw_nodes g)) job.parallelism)
  build_tasks-tasks create operators job g r e =
      let (splits, right, set, tasks) = build_tasks_lem create operators job g r e in
      let (nodes, edges, indices) = add_tasks_lem job 0 splits g r tasks in
      (splits, right, set, nodes, edges, indices ∙ ap (count_from (length (D.raw_nodes g))) right)
