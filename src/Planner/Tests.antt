-- ===== src/Planner/Tests.antt =====
-- Tests of the planner and the examples of its theorems, on a graph that is two lists.
use rlink_rs.Prelude.{
  ℕ, zero, suc, ◌<◌, ◌≡◌, refl, false, some, List, [], ◌∷◌, map, arith, ◌==◌, Outcome, ok, err,
  panic,
}
use rlink_rs.Planner.Stream.Succeeds.{add_operator0-succeeds}
use rlink_rs.Prelude.Maps.{lookup, insert}
use rlink_rs.Planner.Dag.{Dag}
use rlink_rs.Planner.Stream.{RawStreamGraph, new_graph, check_operator, add_operator0}
use rlink_rs.Planner.Stream.Add.{add_operator}
use rlink_rs.Planner.Stream.Sound.{add_all, HasPlan, program-HasPlan}
use rlink_rs.Planner.Stream.Spec.{edges_of, sources_of, user_sources_of, Numbered, IsPlan}
use rlink_rs.Planner.Stream.Refines.{Represents}
use rlink_rs.Operators.{user}
use rlink_rs.Planner.Operators.{
  DagError, empty, OperatorFn, DefaultStreamOperator, StreamOperator, stream_source,
  stream_flat_map, stream_key_by, stream_reduce, stream_window_assigner, stream_sink,
  stream_co_process, OperatorType, source, flat_map, key_by, window_assigner, reduce, sink,
  StreamNode, operator_schema, empty_schema, single,
}
use rlink_rs.Planner.ListDag.{ListDag, list_add_node, list_add_edge}

-- The functions of a user whose schemas are all one
abbrev pub function : OperatorFn
function = record { name = []; daemon = false; fn_schema = λ input. ok (single empty_schema) }

abbrev pub at_parallelism : ℕ → DefaultStreamOperator
at_parallelism n = record { parallelism = n; fn_creator = user; operator_fn = function }

abbrev pub G : Dag StreamNode Unit
G = ListDag StreamNode Unit

-- A source that is reduced in windows, with a sink behind
abbrev pub reduce_calls : List (StreamOperator × List ℕ)
reduce_calls =
    (stream_source (at_parallelism 2), [])
    ∷ (stream_key_by (at_parallelism 0), 0 ∷ [])
    ∷ (stream_window_assigner (at_parallelism 0), 1 ∷ [])
    ∷ (stream_reduce (at_parallelism 3), 4 ∷ [])
    ∷ (stream_sink (at_parallelism 0), 5 ∷ [])
    ∷ []

-- Two such streams joined
abbrev join_calls : List (StreamOperator × List ℕ)
join_calls =
    (stream_source (at_parallelism 1), [])
    ∷ (stream_key_by (at_parallelism 0), 0 ∷ [])
    ∷ (stream_reduce (at_parallelism 1), 1 ∷ [])
    ∷ (stream_source (at_parallelism 1), [])
    ∷ (stream_key_by (at_parallelism 0), 5 ∷ [])
    ∷ (stream_reduce (at_parallelism 1), 6 ∷ [])
    ∷ (stream_co_process (at_parallelism 0), 4 ∷ 9 ∷ [])
    ∷ []

-- The types, parents and parallelism of the nodes
abbrev outline : Outcome DagError (RawStreamGraph G) → List (OperatorType × (List ℕ × ℕ))
outline (ok g) = map (λ n. (n.operator_type, (n.parent_ids, n.parallelism))) (G.raw_nodes g.dag)
outline (err e) = []
outline panic = []

outline-reduce :
    outline (add_all G reduce_calls (new_graph G))
    ≡ (source, ([], 2))
      ∷ (key_by, (0 ∷ [], 2))
      ∷ (sink, (1 ∷ [], 2))
      ∷ (source, (2 ∷ [], 0))
      ∷ (window_assigner, (3 ∷ [], 0))
      ∷ (reduce, (4 ∷ [], 3))
      ∷ (sink, (5 ∷ [], 3))
      ∷ (source, (6 ∷ [], 0))
      ∷ (flat_map, (7 ∷ [], 0))
      ∷ (sink, (8 ∷ [], 0))
      ∷ []
unfolding add_all add_operator check_operator ListDag list_add_node list_add_edge
outline-reduce = refl

-- Both reduces, 4 and 9, have a sink, 10 and 11; 10 is no node's parent.
outline-join :
    map (λ n. n.1.0) (outline (add_all G join_calls (new_graph G)))
    ≡ []
      ∷ (0 ∷ [])
      ∷ (1 ∷ [])
      ∷ (2 ∷ [])
      ∷ (3 ∷ [])
      ∷ []
      ∷ (5 ∷ [])
      ∷ (6 ∷ [])
      ∷ (7 ∷ [])
      ∷ (8 ∷ [])
      ∷ (4 ∷ [])
      ∷ (9 ∷ [])
      ∷ (11 ∷ [])
      ∷ (12 ∷ [])
      ∷ (13 ∷ [])
      ∷ (14 ∷ [])
      ∷ (15 ∷ [])
      ∷ []
unfolding add_all add_operator check_operator ListDag list_add_node list_add_edge
outline-join = refl

-- The graph of a program, if no call fails
unfoldable pub graph_after : List (StreamOperator × List ℕ) → RawStreamGraph G
unfolding add_all
graph_after calls = elim (add_all G calls (new_graph G)) [
  | ok g ↦ g
  | err e ↦ new_graph G
  | panic ↦ new_graph G
]

program-HasPlan_example : HasPlan G (graph_after reduce_calls)
unfolding graph_after add_all add_operator check_operator ListDag list_add_node list_add_edge
program-HasPlan_example = program-HasPlan G reduce_calls (graph_after reduce_calls) refl

abbrev pub source_node : StreamNode
source_node = record {
  id = 0;
  parent_ids = [];
  parallelism = 2;
  input_schema = empty;
  output_schema = single empty_schema;
  daemon = false;
  operator_name = [];
  operator_type = source;
  fn_creator = user;
}

-- A plan of one source
abbrev source_calls : List (StreamOperator × List ℕ)
source_calls = (stream_source (at_parallelism 2), []) ∷ []

source_complete :
    (i : ℕ)
    → i < 1
    → (e : ℕ × StreamOperator) × (lookup ◌==◌ i (graph_after source_calls).operators ≡ some e)
unfolding graph_after add_all add_operator check_operator ListDag list_add_node list_add_edge lookup
    insert
source_complete zero lt = ((0, stream_source (at_parallelism 2)), refl)
source_complete (suc i) lt = absurd (omega (arith, lt))

source-IsPlan :
    Represents G (graph_after source_calls) (source_node ∷ []) × IsPlan (source_node ∷ [])
unfolding graph_after add_all add_operator check_operator ListDag list_add_node list_add_edge
    edges_of sources_of user_sources_of Numbered
source-IsPlan = (
  record {
    nodes = refl;
    edges = refl;
    ids = refl;
    fits = omega arith;
    sources = refl;
    user_sources = refl;
    operators = ((refl, (source_node, refl, refl)), tt);
    complete = source_complete;
  },
  (((refl, tt), tt), ((λ _. tt, λ e. absurd (cc e)), tt)),
)

-- A key selector behind the source
abbrev keyed : Outcome DagError (ℕ × RawStreamGraph G)
keyed = add_operator G (stream_key_by (at_parallelism 0)) (0 ∷ []) (graph_after source_calls)

unfoldable graph_of : Outcome DagError (ℕ × RawStreamGraph G) → ℕ × RawStreamGraph G
graph_of (ok r) = r
graph_of (err e) = (0, new_graph G)
graph_of panic = (0, new_graph G)

add_operator0-succeeds_example :
    (r : ℕ × RawStreamGraph G) × (add_operator0 G
        (stream_flat_map (at_parallelism 0))
        (0 ∷ [])
        2
        (graph_after source_calls)
      ≡ ok r)
unfolding operator_schema edges_of
add_operator0-succeeds_example =
    add_operator0-succeeds G (stream_flat_map (at_parallelism 0)) (0 ∷ []) 2
      (graph_after source_calls) (source_node ∷ []) source-IsPlan.0 source-IsPlan.1
      (omega arith, tt) (omega arith) (omega arith) (λ input e. (single empty_schema, refl))
