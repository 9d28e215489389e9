-- ===== src/Planner/Execution/Build/Tasks.antt =====
-- What the map of `build_nodes` of rlink/src/dag/execution_graph.rs says: from a job to the indices of
-- its tasks.
use rlink_rs.Prelude.{
  ℕ, suc, ◌<◌, ◌≡◌, refl, some, List, [], ◌∷◌, ◌++◌, length, get_elem?, get_elem?-append,
  get_elem?-last, get_elem?-bound, length-append, arith, All, ◌==◌,
}
use mathlib.Core.Path.{subst}
use mathlib.Core.List.{append_assoc}
use rlink_rs.Prelude.Maps.{lookup}
use rlink_rs.Planner.Job.{JobNode}
use rlink_rs.Planner.Execution.{ExecutionNode, task_of}
use rlink_rs.Planner.Execution.Edges.{tasks_of, count_from}

module _ {S : Type 0} where
  -- The node at the index is the task of the job with this number.
  abbrev pub IsTaskAt : List (ExecutionNode S) → JobNode → ℕ → ℕ → Type 0
  IsTaskAt nodes job number k =
      (t : ExecutionNode S) × (get_elem? nodes k ≡ some t)
      × (t.task_id
          ≡ record { job_id = job.job_id; task_number = number; num_tasks = job.parallelism })

  -- The nodes at the indices are the tasks of the job, by their numbers from this one on.
  abbrev pub AreTasks : List (ExecutionNode S) → JobNode → ℕ → List ℕ → Type 0
  AreTasks nodes job number [] = Unit
  AreTasks nodes job number (k ∷ ks) =
      IsTaskAt nodes job number k × AreTasks nodes job (suc number) ks

  AreTasks-append :
      (nodes more : List (ExecutionNode S)) (job : JobNode) (number : ℕ) (ks : List ℕ)
      → AreTasks nodes job number ks
      → AreTasks (nodes ++ more) job number ks
  AreTasks-append nodes more job number [] h = tt
  AreTasks-append nodes more job number (k ∷ ks) ((t, at, is), rest) = (
    (t, get_elem?-append nodes more k t at, is),
    AreTasks-append nodes more job (suc number) ks rest,
  )

  pub AreTasks-tasks_of :
      (nodes : List (ExecutionNode S)) (job : JobNode) (number : ℕ) (splits : List S)
      → AreTasks
          (nodes ++ tasks_of job number splits)
          job
          number
          (count_from (length nodes) (length splits))
  AreTasks-tasks_of nodes job number [] = tt
  AreTasks-tasks_of nodes job number (s ∷ ss) =
      let t = task_of job number s in
      let count : length (nodes ++ t ∷ []) ≡ suc (length nodes) =
        omega (arith, length-append nodes (t ∷ [])) in
      let all = AreTasks-tasks_of (nodes ++ t ∷ []) job (suc number) ss in
      let grown = append_assoc nodes (t ∷ []) (tasks_of job (suc number) ss) in
      let first =
        get_elem?-append (nodes ++ t ∷ []) (tasks_of job (suc number) ss) (length nodes) t
          (get_elem?-last nodes t) in
      (
        (t, subst (λ l. get_elem? l (length nodes) ≡ some t) grown first, refl),
        subst
            (λ k.
              AreTasks (nodes ++ t ∷ tasks_of job (suc number) ss) job (suc number)
                (count_from k (length ss)))
            count
            (subst
              (λ l. AreTasks l job (suc number) (count_from (length (nodes ++ t ∷ [])) (length ss)))
              grown all),
      )

  pub AreTasks-bound :
      (nodes : List (ExecutionNode S)) (job : JobNode) (number : ℕ) (ks : List ℕ)
      → AreTasks nodes job number ks
      → All (λ k. k < length nodes) ks
  AreTasks-bound nodes job number [] h = tt
  AreTasks-bound nodes job number (k ∷ ks) ((t, at, is), rest) =
      (get_elem?-bound nodes k t at, AreTasks-bound nodes job (suc number) ks rest)

  -- An entry of the map: a job of the index, and all its tasks
  abbrev pub HasTasks : List (ExecutionNode S) → List JobNode → List (ℕ × ℕ) → ℕ × List ℕ → Type 0
  HasTasks nodes jobs indies e =
      (i : ℕ) × (job : JobNode) × (lookup ◌==◌ e.0 indies ≡ some i)
      × (get_elem? jobs i ≡ some job)
      × (length e.1 ≡ job.parallelism)
      × AreTasks nodes job 0 e.1

  pub HasTasks-append :
      (nodes more : List (ExecutionNode S)) (jobs : List JobNode) (indies : List (ℕ × ℕ))
      (e : ℕ × List ℕ)
      → HasTasks nodes jobs indies e
      → HasTasks (nodes ++ more) jobs indies e
  HasTasks-append nodes more jobs indies e (i, job, key, at, count, tasks) =
      (i, job, key, at, count, AreTasks-append nodes more job 0 e.1 tasks)
