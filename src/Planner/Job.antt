-- ===== src/Planner/Job.antt =====
-- `JobNodeBuilder` of rlink/src/dag/job_graph.rs. The loop of `build_job_node`, the recursion of
-- `get_parent_parallelism0` and the loop of `build_parallelism` are recursion on fuel, and running out
-- of it is a way to halt that is told apart from every error. A hash map is the list of its entries.
pub mod Chain
pub mod Linked
pub mod Build
pub mod Keyed
pub mod Unresolved
use rlink_rs.Prelude.{
  ℕ, zero, suc, Bool, true, false, ◌||◌, Option, none, some, List, [], ◌∷◌, ◌++◌, map, length,
  get_elem?, ltb, ◌==◌, if◌then◌else◌, Outcome, ok, err, panic, ◌>>=◌, unwrap,
}
use rlink_rs.Prelude.Maps.{lookup, insert}
use rlink_rs.Prelude.Sort.{sort_by_key}
use rlink_rs.Planner.Dag.{Dag}
use rlink_rs.Planner.Operators.{
  DagError, child_not_found_in_pipeline, multi_children_in_pipeline, OperatorType, sink, StreamNode,
}
use rlink_rs.Planner.Stream.{
  max, default_parallelism, is_source_type, is_co_process_type, is_reduce_type,
}

pub record JobNode : Type 0 where
  pub job_id : ℕ
  pub parallelism : ℕ
  pub stream_nodes : List StreamNode
  pub child_job_ids : List ℕ
  pub parent_job_ids : List ℕ

pub data Halt : Type 0 where
  dag_error : DagError → Halt
  out_of_fuel : Halt

abbrev pub Plan : Type 0 → Type 0
Plan A = Outcome Halt A

abbrev pub has_type : (OperatorType → Bool) → List StreamNode → Bool
has_type test [] = false
has_type test (n ∷ ns) = test n.operator_type || has_type test ns

unfoldable pub is_co_process_job : JobNode → Bool
is_co_process_job job = has_type is_co_process_type job.stream_nodes

unfoldable pub is_reduce_job : JobNode → Bool
is_reduce_job job = has_type is_reduce_type job.stream_nodes

abbrev pub is_sink_type : OperatorType → Bool
is_sink_type sink = true
is_sink_type _ = false

-- The locals of `build_job_node`
pub record JobWalk : Type 0 where
  pub walked : List StreamNode
  pub walk_parallelism : ℕ
  pub walk_job_id : ℕ

abbrev pub new_walk : JobWalk
new_walk = record { walked = []; walk_parallelism = default_parallelism; walk_job_id = 0 }

-- What one round of the loop records of its node
unfoldable pub visit : StreamNode → JobWalk → JobWalk
visit n w = record {
  walked = w.walked ++ n ∷ [];
  walk_parallelism = max w.walk_parallelism n.parallelism;
  walk_job_id = if is_source_type n.operator_type then n.id else w.walk_job_id;
}

module _ (D : Dag StreamNode Unit) where
  abbrev pub stream_node : ℕ → D.Graph → Plan StreamNode
  stream_node i dag = unwrap (get_elem? (D.raw_nodes dag) i)

  -- `f_job_ids`
  unfoldable pub ids_of : List (ℕ × ℕ) → D.Graph → Plan (List ℕ)
  ids_of [] dag = ok []
  ids_of (c ∷ cs) dag = stream_node c.1 dag >>= λ n. ids_of cs dag >>= λ ids. ok (n.id ∷ ids)

  abbrev pub job_of : JobWalk → List ℕ → JobNode
  job_of w ids = record {
    job_id = w.walk_job_id;
    parallelism = w.walk_parallelism;
    stream_nodes = w.walked;
    child_job_ids = ids;
    parent_job_ids = [];
  }

  -- The end of a round at a node that is no sink: on to its only child
  abbrev pub go_on : List (ℕ × ℕ) → (ℕ → Plan JobNode) → Plan JobNode
  go_on [] next = err (dag_error child_not_found_in_pipeline)
  go_on (c ∷ []) next = next c.1
  go_on (c ∷ d ∷ cs) next = err (dag_error multi_children_in_pipeline)

  abbrev pub round : Bool → List (ℕ × ℕ) → Plan JobNode → (ℕ → Plan JobNode) → Plan JobNode
  round true children finish next = finish
  round false children finish next = go_on children next

  -- The loop of `build_job_node`
  unfoldable pub walk : ℕ → ℕ → JobWalk → D.Graph → Plan JobNode
  unfolding visit ids_of
  walk zero i w dag = err out_of_fuel
  walk (suc fuel) i w dag = stream_node i dag >>= λ n.
      round (is_sink_type n.operator_type) (D.children i dag)
        (ids_of (D.children i dag) dag >>= λ ids. ok (job_of (visit n w) ids))
        (λ c. walk fuel c (visit n w) dag)

  -- `build_job_node`: the nodes bound the rounds.
  unfoldable pub build_job_node : ℕ → D.Graph → Plan JobNode
  unfolding walk
  build_job_node i dag = walk (length (D.raw_nodes dag)) i new_walk dag
