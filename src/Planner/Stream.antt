-- ===== src/Planner/Stream.antt =====
-- `RawStreamGraph` of rlink/src/dag/stream_graph.rs. Its `stream_nodes` and `sinks`, which nothing
-- writes, are left out, and so are the edges' labels and `stream_edges`, which nothing reads. Every
-- caller panics on an `Err`, so a graph is followed only while the operators are added.
pub mod Add
pub mod Spec
pub mod Refines
pub mod Grows
pub mod Keeps
pub mod Rules
pub mod Sound
pub mod NodeShapes
pub mod Behind
pub mod Shapes
pub mod Succeeds
use rlink_rs.Prelude.{
  ℕ, suc, ◌+◌, ◌%◌, Bool, true, false, ◌&&◌, ◌||◌, Option, none, some, List, [], ◌∷◌, ◌++◌, length,
  get_elem?, ltb, ◌==◌, if◌then◌else◌, Outcome, ok, err, panic, ◌>>=◌, unwrap,
}
use rlink_rs.Prelude.Maps.{lookup, insert}
use rlink_rs.Planner.Dag.{Dag, Added, added, would_cycle, out_of_bounds}
use rlink_rs.Operators.{system}
use rlink_rs.Planner.Operators.{
  FnSchema, empty, single, tuple, DagError, source_not_found, source_not_at_starting,
  sink_not_at_ending, not_combine_operator, parent_operator_not_found, into_schemas, OperatorFn,
  DefaultStreamOperator, StreamOperator, stream_source, stream_flat_map, stream_sink, OperatorType,
  source, flat_map, filter, co_process, key_by, reduce, watermark_assigner, window_assigner, sink,
  operator_type_of, default_of, is_daemon, is_source, operator_schema, StreamNode,
}

abbrev pub default_parallelism : ℕ
default_parallelism = 0

abbrev pub max : ℕ → ℕ → ℕ
max a b = if ltb a b then b else a

-- The match on the child's type under each parent's type
abbrev pub after_source : OperatorType → Outcome DagError Bool
after_source flat_map = ok true
after_source filter = ok true
after_source watermark_assigner = ok true
after_source key_by = ok true
after_source sink = ok true
after_source source = err source_not_at_starting
after_source _ = ok false

abbrev pub after_co_process : OperatorType → Outcome DagError Bool
after_co_process key_by = ok true
after_co_process source = err source_not_at_starting
after_co_process _ = ok false

abbrev pub after_window_assigner : OperatorType → Outcome DagError Bool
after_window_assigner reduce = ok true
after_window_assigner source = err source_not_at_starting
after_window_assigner _ = ok false

abbrev pub after_exchange : OperatorType → Outcome DagError Bool
after_exchange source = err source_not_at_starting
after_exchange _ = ok false

-- `check_operator`, the parent's type second
unfoldable pub check_operator : OperatorType → OperatorType → Outcome DagError Bool
check_operator t source = after_source t
check_operator t flat_map = after_source t
check_operator t filter = after_source t
check_operator t watermark_assigner = after_source t
check_operator t co_process = after_co_process t
check_operator t key_by = after_exchange t
check_operator t window_assigner = after_window_assigner t
check_operator t reduce = after_exchange t
check_operator t sink = err sink_not_at_ending

abbrev pub may_inherit : ℕ → ℕ → Bool
may_inherit parallelism p_parallelism =
    (parallelism == p_parallelism) || (parallelism == default_parallelism)

-- `is_pipeline`
unfoldable pub is_pipeline : OperatorType → ℕ → OperatorType → ℕ → Outcome DagError Bool
is_pipeline reduce parallelism window_assigner p_parallelism = ok true
is_pipeline t parallelism p p_parallelism =
    check_operator t p >>= λ pipeline. ok (pipeline && may_inherit parallelism p_parallelism)

abbrev pub is_reduce_type : OperatorType → Bool
is_reduce_type reduce = true
is_reduce_type _ = false

abbrev pub is_source_type : OperatorType → Bool
is_source_type source = true
is_source_type _ = false

abbrev pub is_co_process_type : OperatorType → Bool
is_co_process_type co_process = true
is_co_process_type _ = false

-- `KeyedStateFlatMapFunction`, `SystemInputFormat` and `SystemOutputFormat` as the planner sees them;
-- their names are left out.
abbrev pub keyed_state_flat_map : OperatorFn
keyed_state_flat_map = record {
  name = [];
  daemon = false;
  fn_schema = λ input. into_schemas input >>= λ schemas. ok (single schemas.1);
}

abbrev pub system_format : OperatorFn
system_format = record { name = []; daemon = false; fn_schema = λ input. ok input }

abbrev pub system_operator : ℕ → OperatorFn → DefaultStreamOperator
system_operator parallelism f = record {
  parallelism = parallelism;
  fn_creator = system;
  operator_fn = f;
}

unfoldable pub create_virtual_flat_map : ℕ → StreamOperator
create_virtual_flat_map n = stream_flat_map (system_operator n keyed_state_flat_map)

unfoldable pub create_virtual_source : ℕ → StreamOperator
create_virtual_source n = stream_source (system_operator n system_format)

unfoldable pub create_virtual_sink : ℕ → StreamOperator
create_virtual_sink n = stream_sink (system_operator n system_format)

-- The last of the ids, `parent_operator_ids[parent_operator_ids.len() - 1]`
abbrev pub last_id : ℕ → List ℕ → ℕ
last_id p [] = p
last_id p (q ∷ qs) = last_id q qs

abbrev pub push_user_source : List ℕ → ℕ → List ℕ → List ℕ
push_user_source [] index user_sources = user_sources ++ index ∷ []
push_user_source (p ∷ ps) index user_sources = user_sources

abbrev pub node_for : StreamOperator → ℕ → List ℕ → ℕ → FnSchema → FnSchema → StreamNode
node_for operator id ps parallelism input output = record {
  id = id;
  parent_ids = ps;
  parallelism = parallelism;
  input_schema = input;
  output_schema = output;
  daemon = is_daemon operator;
  operator_name = (default_of operator).operator_fn.name;
  operator_type = operator_type_of operator;
  fn_creator = (default_of operator).fn_creator;
}

module _ (D : Dag StreamNode Unit) where
  pub record RawStreamGraph : Type 0 where
    pub id_gen : ℕ
    pub operators : List (ℕ × (ℕ × StreamOperator))
    pub sources : List ℕ
    pub user_sources : List ℕ
    pub dag : D.Graph

  abbrev pub Build : Type 0 → Type 0
  Build A = Outcome DagError A

  abbrev pub new_graph : RawStreamGraph
  new_graph = record { id_gen = 0; operators = []; sources = []; user_sources = []; dag = D.new }

  -- `self.dag.index(p_node_index)` of `self.operators.get(id).unwrap()`
  unfoldable pub node_of : ℕ → RawStreamGraph → Build StreamNode
  unfolding lookup
  node_of id g =
      unwrap (lookup ◌==◌ id g.operators) >>= λ p. unwrap (get_elem? (D.raw_nodes g.dag) p.0)

  abbrev pub input_schema_of : List ℕ → RawStreamGraph → Build FnSchema
  input_schema_of [] g = ok empty
  input_schema_of (p ∷ ps) g = node_of (last_id p ps) g >>= λ n. ok n.output_schema

  -- `add_edge(..).unwrap()`
  abbrev pub unwrap_added : Added D.Graph → Build D.Graph
  unwrap_added (added g) = ok g
  unwrap_added would_cycle = panic
  unwrap_added out_of_bounds = panic

  abbrev pub parent_index : Option (ℕ × StreamOperator) → Build ℕ
  parent_index none = err parent_operator_not_found
  parent_index (some p) = ok p.0

  -- The loop over the parents' ids, which adds an edge from each
  unfoldable pub add_edges : List (ℕ × (ℕ × StreamOperator)) → List ℕ → ℕ → D.Graph → Build D.Graph
  unfolding lookup
  add_edges ops [] index dag = ok dag
  add_edges ops (p ∷ ps) index dag = parent_index (lookup ◌==◌ p ops) >>= λ p_index.
      unwrap (get_elem? (D.raw_nodes dag) p_index) >>= λ p_node.
      unwrap_added (D.add_edge p_index index tt dag) >>= λ dag'. add_edges ops ps index dag'

  -- The end of `add_operator0`: the lists of sources and the map of operators
  abbrev pub register : StreamOperator → List ℕ → ℕ → ℕ → D.Graph → RawStreamGraph → RawStreamGraph
  register operator ps id index dag g = record {
    id_gen = (id + 1) % 4294967296;
    operators = insert ◌==◌ id (index, operator) g.operators;
    sources = if is_source operator then g.sources ++ index ∷ [] else g.sources;
    user_sources =
        if is_source operator then push_user_source ps index g.user_sources else g.user_sources;
    dag = dag;
  }

  -- `add_operator0`
  unfoldable pub add_operator0 :
      StreamOperator → List ℕ → ℕ → RawStreamGraph → Build (ℕ × RawStreamGraph)
  unfolding node_of add_edges operator_schema operator_type_of default_of is_daemon is_source insert
  add_operator0 operator ps parallelism g = input_schema_of ps g >>= λ input.
      operator_schema operator input >>= λ output.
      unwrap (D.add_node (node_for operator g.id_gen ps parallelism input output) g.dag) >>= λ dag.
      let index = length (D.raw_nodes g.dag) in
      add_edges g.operators ps index dag >>= λ dag'.
      ok (g.id_gen, register operator ps g.id_gen index dag' g)

  -- `is_reduce_parent`
  unfoldable pub is_reduce_parent : ℕ → RawStreamGraph → Build Bool
  unfolding lookup operator_type_of
  is_reduce_parent id g =
      unwrap (lookup ◌==◌ id g.operators) >>= λ p. ok (is_reduce_type (operator_type_of p.1))
