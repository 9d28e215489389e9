-- ===== src/Planner/Operators.antt =====
-- Operators, their types and their schemas: rlink/src/core/operator.rs, `FnSchema` of
-- rlink/src/core/element.rs, `Schema` of rlink/src/core/data_types.rs, and `OperatorType`, `DagError`
-- and `StreamNode` of rlink/src/dag. A field's type is its id; the functions of the user are what the
-- planner calls of them: the name, whether it is a daemon, and the schema method of its trait.
use rlink_rs.Prelude.{ℕ, Bool, true, false, List, [], ◌∷◌, ◌++◌, Outcome, ok, panic, ◌>>=◌}
use rlink_rs.Operators.{FunctionCreator}

pub record Field : Type 0 where
  pub field_name : List ℕ
  pub type_id : ℕ

pub record Schema : Type 0 where
  pub fields : List Field
  pub type_ids : List ℕ

abbrev pub empty_schema : Schema
empty_schema = record { fields = []; type_ids = [] }

-- `Schema::add_field`; the warning on a name that exists is left out.
abbrev pub add_field : Field → Schema → Schema
add_field f s = record { fields = s.fields ++ f ∷ []; type_ids = s.type_ids ++ f.type_id ∷ [] }

abbrev pub add_fields : List Field → Schema → Schema
add_fields [] s = s
add_fields (f ∷ fs) s = add_fields fs (add_field f s)

-- `Schema::merge`
abbrev pub merge_schema : Schema → Schema → Schema
merge_schema s other = add_fields other.fields s

pub data FnSchema : Type 0 where
  empty : FnSchema
  single : Schema → FnSchema
  tuple : Schema → Schema → FnSchema

pub data DagError : Type 0 where
  would_cycle_error source_not_found source_not_at_starting sink_not_at_ending : DagError
  reduce_output_parallelism_conflict not_combine_operator parent_operator_not_found : DagError
  child_not_found_in_pipeline multi_children_in_pipeline : DagError
  illegal_input_split_size job_parallelism_not_found other_api_error : DagError
  operator_not_found : ℕ → DagError
  job_not_found : ℕ → DagError

-- `Into<Schema>` and `Into<(Schema, Schema)>`
abbrev pub into_schema : FnSchema → Outcome DagError Schema
into_schema (single v) = ok v
into_schema _ = panic

abbrev pub into_schemas : FnSchema → Outcome DagError (Schema × Schema)
into_schemas (tuple v w) = ok (v, w)
into_schemas _ = panic

-- `schema`, `key_schema` or `value_schema`, the one its trait has
pub record OperatorFn : Type 0 where
  pub name : List ℕ
  pub daemon : Bool
  pub fn_schema : FnSchema → Outcome DagError FnSchema

pub record DefaultStreamOperator : Type 0 where
  pub parallelism : ℕ
  pub fn_creator : FunctionCreator
  pub operator_fn : OperatorFn

pub data StreamOperator : Type 0 where
  stream_source stream_flat_map stream_filter stream_co_process stream_key_by stream_reduce
        stream_watermark_assigner stream_window_assigner stream_sink :
      DefaultStreamOperator → StreamOperator

pub data OperatorType : Type 0 where
  source flat_map filter co_process key_by reduce watermark_assigner window_assigner sink :
      OperatorType

-- `OperatorType::from`
unfoldable pub operator_type_of : StreamOperator → OperatorType
operator_type_of (stream_source op) = source
operator_type_of (stream_flat_map op) = flat_map
operator_type_of (stream_filter op) = filter
operator_type_of (stream_co_process op) = co_process
operator_type_of (stream_key_by op) = key_by
operator_type_of (stream_reduce op) = reduce
operator_type_of (stream_watermark_assigner op) = watermark_assigner
operator_type_of (stream_window_assigner op) = window_assigner
operator_type_of (stream_sink op) = sink

-- What each match arm of `operator_name`, `parallelism` and `fn_creator` calls
unfoldable pub default_of : StreamOperator → DefaultStreamOperator
default_of (stream_source op) = op
default_of (stream_flat_map op) = op
default_of (stream_filter op) = op
default_of (stream_co_process op) = op
default_of (stream_key_by op) = op
default_of (stream_reduce op) = op
default_of (stream_watermark_assigner op) = op
default_of (stream_window_assigner op) = op
default_of (stream_sink op) = op

unfoldable pub is_daemon : StreamOperator → Bool
is_daemon (stream_source op) = op.operator_fn.daemon
is_daemon _ = false

unfoldable pub is_source : StreamOperator → Bool
is_source (stream_source op) = true
is_source _ = false

-- The schema that a reduce's output has, from its value schema
abbrev pub reduce_schema : FnSchema → FnSchema → Outcome DagError Schema
reduce_schema value (single record_schema) = into_schema value
reduce_schema value (tuple record_schema key_schema) =
    into_schema value >>= λ v. ok (merge_schema key_schema v)
reduce_schema value empty = panic

-- `TStreamOperator::schema` of an operator
unfoldable pub operator_schema : StreamOperator → FnSchema → Outcome DagError FnSchema
operator_schema (stream_source op) input = op.operator_fn.fn_schema input
operator_schema (stream_flat_map op) input = op.operator_fn.fn_schema input
operator_schema (stream_filter op) input = ok input
operator_schema (stream_co_process op) input = op.operator_fn.fn_schema input
operator_schema (stream_key_by op) input = op.operator_fn.fn_schema input >>= λ key.
    into_schema input >>= λ record_schema.
    into_schema key >>= λ key_schema. ok (tuple record_schema key_schema)
operator_schema (stream_reduce op) input = op.operator_fn.fn_schema input >>= λ value.
    reduce_schema value input >>= λ s. ok (tuple empty_schema s)
operator_schema (stream_watermark_assigner op) input = ok input
operator_schema (stream_window_assigner op) input = ok input
operator_schema (stream_sink op) input = op.operator_fn.fn_schema input

pub record StreamNode : Type 0 where
  pub id : ℕ
  pub parent_ids : List ℕ
  pub parallelism : ℕ
  pub input_schema : FnSchema
  pub output_schema : FnSchema
  pub daemon : Bool
  pub operator_name : List ℕ
  pub operator_type : OperatorType
  pub fn_creator : FunctionCreator
