-- ===== src/Planner/Execution/Build/Kinds.antt =====
-- The kinds of the edges between jobs that `JobGraph::build_job_edge` of rlink/src/dag/job_graph.rs
-- decides on, by what the two jobs are.
use rlink_rs.Prelude.{
  ◌≡◌, refl, sym, ap, arith, ◌∙◌, inl, inr, ◌↔◌, true, false, List, [], ◌∷◌, Bool-cases, ◌==◌,
  ==_iff, ok, ok_injective,
}
use rlink_rs.Prelude.Sort.{Any}
use rlink_rs.Planner.Operators.{DagError, StreamNode, OperatorType, reduce}
use rlink_rs.Planner.Stream.{is_reduce_type}
use rlink_rs.Planner.Job.{JobNode, is_reduce_job, has_type}
use rlink_rs.Planner.Execution.{JobEdge, forward, job_edge_of}
use rlink_rs.Planner.Execution.Edges.{job_edge_of_lem}

-- The job has a reduce operator.
abbrev pub Reduces : JobNode → Type 0
Reduces job = Any (λ n. n.operator_type ≡ reduce) job.stream_nodes

-- An edge is forward exactly where the child does not reduce and has the parallelism of the job; and
-- from a job that reduces to one that does not, the two are the same.
abbrev pub IsKindOf : JobNode → JobNode → JobEdge → Type 0
IsKindOf job child kind =
    ((kind ≡ forward) ↔ ((¬ Reduces child) × (job.parallelism ≡ child.parallelism)))
    × (Reduces job → ¬ Reduces child → job.parallelism ≡ child.parallelism)

reduce_type : (t : OperatorType) → is_reduce_type t ≡ true → t ≡ reduce
reduce_type t e = ground arith

has_type-Reduces :
    (ns : List StreamNode)
    → (has_type is_reduce_type ns ≡ true) ↔ Any (λ (n : StreamNode). n.operator_type ≡ reduce) ns
has_type-Reduces [] = (λ e. absurd (cc e), λ h. absurd h)
has_type-Reduces (n ∷ ns) =
    let (to, from) = has_type-Reduces ns in
    (
      λ e. elim (Bool-cases (is_reduce_type n.operator_type)) [
        | inl here ↦ inl (reduce_type n.operator_type here)
        | inr other ↦ inr (to (rw other at e))
      ],
      λ h. elim h [
        | inl here ↦ rw (ap is_reduce_type here) refl
        | inr there ↦ elim (Bool-cases (is_reduce_type n.operator_type)) [
          | inl here ↦ rw here refl
          | inr other ↦ rw other (from there)
        ]
      ],
    )

is_reduce_job-Reduces : (job : JobNode) → (is_reduce_job job ≡ true) ↔ Reduces job
unfolding is_reduce_job
is_reduce_job-Reduces job = has_type-Reduces job.stream_nodes

is_reduce_job-no : (job : JobNode) → (is_reduce_job job ≡ false) ↔ (¬ Reduces job)
is_reduce_job-no job = (
  λ e h. cc (e, (is_reduce_job-Reduces job).1 h),
  λ h. elim (Bool-cases (is_reduce_job job)) [
    | inl yes_it ↦ absurd (h ((is_reduce_job-Reduces job).0 yes_it))
    | inr no_it ↦ no_it
  ],
)

conflict :
    (job child : JobNode) (kind : JobEdge)
    → job_edge_of job child ≡ ok kind
    → is_reduce_job job ≡ true
    → is_reduce_job child ≡ false
    → job.parallelism ≡ child.parallelism
unfolding job_edge_of
conflict job child kind e reduces not_child =
    elim (Bool-cases (job.parallelism == child.parallelism)) [
      | inl same ↦ (==_iff job.parallelism child.parallelism).0 same
      | inr differ ↦ absurd (cc (rw (not_child, reduces, differ) at e))
    ]

pub job_edge_of-IsKindOf :
    (job child : JobNode) (kind : JobEdge)
    → job_edge_of job child ≡ ok kind
    → IsKindOf job child kind
job_edge_of-IsKindOf job child kind e =
    let law = (job_edge_of_lem job child).0 in
    (
      (
        λ f. let h = law.0 (e ∙ ap ok f) in ((is_reduce_job-no child).0 h.0, h.1),
        λ h.
            ok_injective {E = DagError} kind forward
              (sym e ∙ law.1 ((is_reduce_job-no child).1 h.0, h.1)),
      ),
      λ r n.
          conflict job child kind e ((is_reduce_job-Reduces job).1 r)
            ((is_reduce_job-no child).1 n),
    )
