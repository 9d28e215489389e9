-- ===== src/Planner/Stream/Shapes.antt =====
-- Which nodes `add_operator` of rlink/src/dag/stream_graph.rs adds: their types and their parents.
use rlink_rs.Prelude.{ℕ, suc, ◌≡◌, List, ◌++◌, map, length}
use rlink_rs.Planner.Dag.{Dag}
use rlink_rs.Planner.Operators.{StreamOperator, operator_type_of, default_of, StreamNode}
use rlink_rs.Planner.Stream.{RawStreamGraph}
use rlink_rs.Planner.Stream.Spec.{IsPlan}
use rlink_rs.Planner.Stream.Refines.{Represents}
use rlink_rs.Planner.Stream.NodeShapes.{Shape, shape_of, AddedFor, AddsLast}

module _ (D : Dag StreamNode Unit) where
  -- What a call of `add_operator` leaves
  pub record Extends (ns : List StreamNode) (operator : StreamOperator) (ps : List ℕ)
      (r : ℕ × RawStreamGraph D) : Type 0 where
    pub added : List StreamNode
    pub represents : Represents D r.1 (ns ++ added)
    pub plan : IsPlan (ns ++ added)
    pub last : suc r.0 ≡ length (ns ++ added)
    pub added_for :
        AddedFor ns
          (operator_type_of operator)
          (default_of operator).parallelism
          ps
          (map shape_of added)

  HasShape : List StreamNode → StreamOperator → List ℕ → ℕ × RawStreamGraph D → Type 0
  HasShape ns operator ps r =
      (s : List Shape) × AddsLast D ns s r
      × AddedFor ns (operator_type_of operator) (default_of operator).parallelism ps s
