-- ===== src/Planner/Stream/Add.antt =====
-- `add_operator` of rlink/src/dag/stream_graph.rs: the virtual operators it puts between two jobs.
use rlink_rs.Prelude.{
  ℕ, Bool, true, false, Option, none, some, List, [], ◌∷◌, ◌++◌, if◌then◌else◌, ok, err, ◌>>=◌,
}
use rlink_rs.Planner.Dag.{Dag}
use rlink_rs.Planner.Operators.{
  source_not_found, not_combine_operator, StreamOperator, operator_type_of, default_of, StreamNode,
}
use rlink_rs.Planner.Stream.{
  max, is_pipeline, is_reduce_type, is_source_type, is_co_process_type, create_virtual_flat_map,
  create_virtual_source, create_virtual_sink, RawStreamGraph, Build, node_of, add_operator0,
  is_reduce_parent,
}

-- The locals of the loop over the parents: `new_p_operator_ids`, `p_reduce_operator_id` and
-- `left_parent_parallelism`
pub record Parents : Type 0 where
  pub new_ids : List ℕ
  pub reduce_id : Option ℕ
  pub left_parallelism : ℕ

abbrev pub with_parent : Bool → ℕ → ℕ → Parents → Parents
with_parent true id n ps = record ps { reduce_id = some id; left_parallelism = n }
with_parent false id n ps = record ps { new_ids = ps.new_ids ++ id ∷ []; left_parallelism = n }

module _ (D : Dag StreamNode Unit) where
  abbrev pub Added0 : Type 0
  Added0 = Build D (ℕ × RawStreamGraph D)

  -- The virtual flat map behind the virtual source when the parent is a reduce
  unfoldable pub add_virtual_map : Bool → ℕ → ℕ → RawStreamGraph D → Added0
  unfolding add_operator0 create_virtual_flat_map
  add_virtual_map true id n g = add_operator0 D (create_virtual_flat_map n) (id ∷ []) n g
  add_virtual_map false id n g = ok (id, g)

  -- A child of another job: sink, source, a flat map behind a reduce, and the operator
  unfoldable pub add_exchange : StreamOperator → ℕ → ℕ → ℕ → RawStreamGraph D → Added0
  unfolding add_operator0 create_virtual_sink create_virtual_source add_virtual_map is_reduce_parent
  add_exchange operator p parallelism p_parallelism g =
      add_operator0 D (create_virtual_sink p_parallelism) (p ∷ []) p_parallelism g >>= λ r₁.
      add_operator0 D (create_virtual_source parallelism) (r₁.0 ∷ []) parallelism r₁.1 >>= λ r₂.
      is_reduce_parent D p r₂.1 >>= λ reduced.
      add_virtual_map reduced r₂.0 parallelism r₂.1 >>= λ r₃.
      add_operator0 D operator (r₃.0 ∷ []) parallelism r₃.1

  abbrev pub add_pipeline : Bool → StreamOperator → ℕ → ℕ → ℕ → RawStreamGraph D → Added0
  add_pipeline true operator p parallelism p_parallelism g =
      add_operator0 D operator (p ∷ []) (max parallelism p_parallelism) g
  add_pipeline false operator p parallelism p_parallelism g =
      add_exchange operator p parallelism p_parallelism g

  -- The loop: a virtual sink behind each parent
  unfoldable pub add_sinks :
      List ℕ → Parents → RawStreamGraph D → Build D (Parents × RawStreamGraph D)
  unfolding node_of add_operator0 create_virtual_sink
  add_sinks [] locals g = ok (locals, g)
  add_sinks (p ∷ ps) locals g = node_of D p g >>= λ n.
      add_operator0 D (create_virtual_sink 0) (p ∷ []) n.parallelism g >>= λ r.
      add_sinks ps (with_parent (is_reduce_type n.operator_type) r.0 n.parallelism locals) r.1

  -- The match on `p_reduce_operator_id`
  unfoldable pub add_combined :
      StreamOperator → ℕ → List ℕ → ℕ → Option ℕ → RawStreamGraph D → Added0
  unfolding add_operator0 create_virtual_sink create_virtual_source create_virtual_flat_map
  add_combined operator parallelism ids left none g =
      add_operator0 D (create_virtual_source 0) ids parallelism g >>= λ r.
      add_operator0 D operator (r.0 ∷ []) parallelism r.1
  add_combined operator parallelism ids left (some id) g =
      add_operator0 D (create_virtual_source left) (id ∷ []) left g >>= λ r₁.
      add_operator0 D (create_virtual_flat_map left) (r₁.0 ∷ []) left r₁.1 >>= λ r₂.
      add_operator0 D (create_virtual_sink left) (r₂.0 ∷ []) left r₂.1 >>= λ r₃.
      add_operator0 D (create_virtual_source left) (ids ++ r₃.0 ∷ []) left r₃.1 >>= λ r₄.
      add_operator0 D operator (r₄.0 ∷ []) left r₄.1

  -- The branch with two parents or more
  abbrev pub add_co_process : StreamOperator → List ℕ → ℕ → RawStreamGraph D → Added0
  add_co_process operator ps parallelism g =
      if is_co_process_type (operator_type_of operator)
      then (add_sinks ps (record { new_ids = []; reduce_id = none; left_parallelism = 0 }) g
          >>= λ r.
              add_combined operator parallelism r.0.new_ids r.0.left_parallelism r.0.reduce_id r.1)
      else err not_combine_operator

  -- `add_operator`
  unfoldable pub add_operator : StreamOperator → List ℕ → RawStreamGraph D → Added0
  unfolding operator_type_of default_of node_of is_pipeline add_operator0 add_exchange add_sinks
      add_combined
  add_operator operator [] g =
      if is_source_type (operator_type_of operator)
      then add_operator0 D operator [] (default_of operator).parallelism g
      else err source_not_found
  add_operator operator (p ∷ []) g =
      let parallelism = (default_of operator).parallelism in
      node_of D p g >>= λ n.
      is_pipeline (operator_type_of operator) parallelism n.operator_type n.parallelism
      >>= λ pipeline. add_pipeline pipeline operator p parallelism n.parallelism g
  add_operator operator (p ∷ q ∷ ps) g =
      add_co_process operator (p ∷ q ∷ ps) (default_of operator).parallelism g
