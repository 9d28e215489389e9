-- ===== src/Planner/Stream/Grows.antt =====
-- `add_operator` of rlink/src/dag/stream_graph.rs: what every operator that is added leaves behind.
use rlink_rs.Prelude.{
  get_elem?-last, ℕ, ◌≡◌, refl, ap, ◌∙◌, Bool, false, List, [], ◌∷◌, ◌++◌, All, ok,
}
use mathlib.Core.List.{append_assoc}
use rlink_rs.Planner.Dag.{Dag}
use rlink_rs.Planner.Operators.{
  StreamOperator, OperatorType, source, flat_map, filter, co_process, key_by, reduce,
  watermark_assigner, window_assigner, sink, operator_type_of, StreamNode,
}
use rlink_rs.Planner.Stream.{
  check_operator, is_pipeline, is_source_type, create_virtual_flat_map, create_virtual_source,
  create_virtual_sink, RawStreamGraph, add_operator0,
}
use rlink_rs.Planner.Stream.Spec.{TypeAt, TypeAt-append, ParentsFit, IsPlan, IsPlan-append}
use rlink_rs.Planner.Stream.Refines.{Represents, add_operator0-Appends}

-- An operator that is a pipeline with its parent or has it in another job is no source.
pub is_pipeline-source :
    (t p : OperatorType) (n m : ℕ) (b : Bool)
    → is_pipeline t n p m ≡ ok b
    → is_source_type t ≡ false
unfolding is_pipeline check_operator
is_pipeline-source source source n m b e = absurd (cc e)
is_pipeline-source source flat_map n m b e = absurd (cc e)
is_pipeline-source source filter n m b e = absurd (cc e)
is_pipeline-source source co_process n m b e = absurd (cc e)
is_pipeline-source source key_by n m b e = absurd (cc e)
is_pipeline-source source reduce n m b e = absurd (cc e)
is_pipeline-source source watermark_assigner n m b e = absurd (cc e)
is_pipeline-source source window_assigner n m b e = absurd (cc e)
is_pipeline-source source sink n m b e = absurd (cc e)
is_pipeline-source flat_map p n m b e = refl
is_pipeline-source filter p n m b e = refl
is_pipeline-source co_process p n m b e = refl
is_pipeline-source key_by p n m b e = refl
is_pipeline-source reduce p n m b e = refl
is_pipeline-source watermark_assigner p n m b e = refl
is_pipeline-source window_assigner p n m b e = refl
is_pipeline-source sink p n m b e = refl

abbrev pub Extends : List StreamNode → List StreamNode → Type 0
Extends ns ns' = (ms : List StreamNode) × (ns' ≡ ns ++ ms)

pub Extends-trans : (ns ms ls : List StreamNode) → Extends ns ms → Extends ms ls → Extends ns ls
Extends-trans ns ms ls (xs, e) (ys, f) =
    (xs ++ ys, f ∙ (ap (λ l. l ++ ys) e ∙ append_assoc ns xs ys))

pub TypeAt-Extends :
    (ns ms : List StreamNode) (i : ℕ) (t : OperatorType)
    → Extends ns ms
    → TypeAt ns i t
    → TypeAt ms i t
TypeAt-Extends ns ms i t (xs, e) h = rw e (TypeAt-append ns xs i t h)

one_parent :
    (ns : List StreamNode) (t : OperatorType) (p : ℕ)
    → is_source_type t ≡ false
    → ParentsFit ns t (p ∷ [])
one_parent ns t p h = (λ s. absurd (cc (h, s)), λ _. refl)

module _ (D : Dag StreamNode Unit) where
  -- The graph stands for a list of nodes with these in front, and the id is that of such an operator.
  pub record Grown (ns : List StreamNode) (t : OperatorType) (id : ℕ) (g : RawStreamGraph D)
      : Type 0 where
    pub nodes : List StreamNode
    pub extends : Extends ns nodes
    pub represents : Represents D g nodes
    pub plan : IsPlan nodes
    pub type_at : TypeAt nodes id t

  -- A graph that stands for a plan with these nodes in front
  pub record Larger (ns : List StreamNode) (g : RawStreamGraph D) : Type 0 where
    pub nodes : List StreamNode
    pub extends : Extends ns nodes
    pub represents : Represents D g nodes
    pub plan : IsPlan nodes

  pub Grown-Larger :
      (ns : List StreamNode) (t : OperatorType) (i : ℕ) (g : RawStreamGraph D)
      → Grown ns t i g
      → Larger ns g
  Grown-Larger ns t i g a = record {
    nodes = a.nodes;
    extends = a.extends;
    represents = a.represents;
    plan = a.plan;
  }

  pub Larger-Grown :
      (ns ms : List StreamNode) (t : OperatorType) (i : ℕ) (g : RawStreamGraph D)
      → Extends ns ms
      → Grown ms t i g
      → Grown ns t i g
  Larger-Grown ns ms t i g a b = record {
    nodes = b.nodes;
    extends = Extends-trans ns ms b.nodes a b.extends;
    represents = b.represents;
    plan = b.plan;
    type_at = b.type_at;
  }

  pub add_operator0_grows :
      (operator : StreamOperator) (ps : List ℕ) (parallelism id : ℕ) (g g' : RawStreamGraph D)
      (ns : List StreamNode)
      → Represents D g ns
      → IsPlan ns
      → ParentsFit ns (operator_type_of operator) ps
      → add_operator0 D operator ps parallelism g ≡ ok (id, g')
      → Grown ns (operator_type_of operator) id g'
  add_operator0_grows operator ps parallelism id g g' ns r plan fit e =
      let a = add_operator0-Appends D operator ps parallelism id g g' ns r e in
      record {
        nodes = ns ++ a.node ∷ [];
        extends = (a.node ∷ [], refl);
        represents = a.represents;
        plan =
            IsPlan-append ns a.node plan a.node_id (rw a.node_parents a.parents_before)
              (rw (a.node_parents, a.node_type) fit);
        type_at = (a.node, rw a.id_is (get_elem?-last ns a.node), a.node_type);
      }

  -- An operator with one parent that is no source
  pub add_child_grows :
      (operator : StreamOperator) (p parallelism : ℕ) (g : RawStreamGraph D)
      (r : ℕ × RawStreamGraph D) (ns : List StreamNode)
      → Represents D g ns
      → IsPlan ns
      → is_source_type (operator_type_of operator) ≡ false
      → add_operator0 D operator (p ∷ []) parallelism g ≡ ok r
      → Grown ns (operator_type_of operator) r.0 r.1
  add_child_grows operator p parallelism g r ns rep plan child e =
      add_operator0_grows operator (p ∷ []) parallelism r.0 g r.1 ns rep plan
        (one_parent ns (operator_type_of operator) p child) e

  -- A virtual source behind sinks
  pub add_source_grows :
      (n parallelism : ℕ) (ps : List ℕ) (g : RawStreamGraph D) (r : ℕ × RawStreamGraph D)
      (ns : List StreamNode)
      → Represents D g ns
      → IsPlan ns
      → All (λ p. TypeAt ns p sink) ps
      → add_operator0 D (create_virtual_source n) ps parallelism g ≡ ok r
      → Grown ns source r.0 r.1
  unfolding create_virtual_source operator_type_of
  add_source_grows n parallelism ps g r ns rep plan sinks e =
      add_operator0_grows (create_virtual_source n) ps parallelism r.0 g r.1 ns rep plan
        (λ _. sinks, λ b. absurd (cc b)) e

  pub add_sink_grows :
      (n p parallelism : ℕ) (g : RawStreamGraph D) (r : ℕ × RawStreamGraph D) (ns : List StreamNode)
      → Represents D g ns
      → IsPlan ns
      → add_operator0 D (create_virtual_sink n) (p ∷ []) parallelism g ≡ ok r
      → Grown ns sink r.0 r.1
  unfolding create_virtual_sink operator_type_of
  add_sink_grows n p parallelism g r ns rep plan e =
      add_child_grows (create_virtual_sink n) p parallelism g r ns rep plan refl e

  pub add_flat_map_grows :
      (n p parallelism : ℕ) (g : RawStreamGraph D) (r : ℕ × RawStreamGraph D) (ns : List StreamNode)
      → Represents D g ns
      → IsPlan ns
      → add_operator0 D (create_virtual_flat_map n) (p ∷ []) parallelism g ≡ ok r
      → Grown ns flat_map r.0 r.1
  unfolding create_virtual_flat_map operator_type_of
  add_flat_map_grows n p parallelism g r ns rep plan e =
      add_child_grows (create_virtual_flat_map n) p parallelism g r ns rep plan refl e
