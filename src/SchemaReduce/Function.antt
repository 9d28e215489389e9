-- ===== src/SchemaReduce/Function.antt =====
-- `SchemaReduceFunction` of rlink/src/functions/reduce/schema_reduce.rs: its state, `open`, and `reduce`.
use rlink_rs.Prelude.{ℕ, ◌+◌, Bool, Option, some, List, [], ◌∷◌, map, Outcome, ok, ◌>>=◌, unwrap}
use rlink_rs.Prelude.Int.{ℤ}
use rlink_rs.Percentile.{Fuel}
use rlink_rs.SchemaReduce.{DataType, Field, AggregationDescriptor, ValueAgg}
use rlink_rs.SchemaReduce.Buffers.{Cell, Serbuffer}
use rlink_rs.SchemaReduce.Aggregations.{
  Names, Aggregation, output_field, agg_len, to_aggregation, reduce_value,
}

-- A schema is its fields; the type ids are their types.
pub record SchemaReduceFunction (F S : Type 0) : Type 0 where
  pub parallelism : ℕ
  pub schema : List (Field S)
  pub val_schema : List (Field S)
  pub val_len : ℕ
  pub agg_descriptors : List (AggregationDescriptor S)
  pub agg_operators : List (Aggregation F S)

abbrev pub type_ids : {S : Type 0} → List (Field S) → List DataType
type_ids fields = map (λ f. f.data_type) fields

module _ {F S : Type 0} where
  -- `SchemaReduceFunction::new`
  abbrev pub new_function : List (AggregationDescriptor S) → ℕ → SchemaReduceFunction F S
  new_function descriptors n = record {
    parallelism = n;
    schema = [];
    val_schema = [];
    val_len = 0;
    agg_descriptors = descriptors;
    agg_operators = [];
  }

module _ {F S : Type 0} (names : Names S) (f32 f64 : ValueAgg F) (eq : S → S → Bool) where
  -- `agg_schema`
  unfoldable pub agg_schema :
      List (AggregationDescriptor S)
      → List (Field S)
      → Outcome Fuel (List (Aggregation F S) × List (Field S) × ℕ)
  unfolding to_aggregation output_field agg_len
  agg_schema [] schema = ok ([], [], 0)
  agg_schema (d ∷ ds) schema = to_aggregation f32 f64 eq schema d >>= λ a.
      agg_schema ds schema >>= λ rest.
      ok (a ∷ rest.0, output_field names a ∷ rest.1, agg_len a + rest.2)

  -- `open`, with the first schema of the context's input
  unfoldable pub open_reduce :
      List (Field S) → SchemaReduceFunction F S → Outcome Fuel (SchemaReduceFunction F S)
  unfolding agg_schema
  open_reduce input f = agg_schema f.agg_descriptors input >>= λ values.
      agg_schema f.agg_descriptors input >>= λ operators. ok (record f {
        schema = input;
        val_schema = values.1;
        val_len = operators.2;
        agg_operators = operators.0;
      })

module _ {F S : Type 0} (B : Serbuffer F) (as_f64 : ℤ → ℕ) where
  -- The loop over the operators, the first of them with the index `i`
  unfoldable pub reduce_values :
      List DataType
      → List DataType
      → List (Aggregation F S)
      → Option B.Buffer
      → ℕ
      → B.Buffer
      → Outcome Fuel (List (Cell F))
  unfolding reduce_value
  reduce_values ids record_ids [] state i r = ok []
  reduce_values ids record_ids (a ∷ operators) state i r =
      reduce_value B as_f64 ids record_ids a state i r >>= λ c.
      reduce_values ids record_ids operators state (i + 1) r >>= λ cs. ok (c ∷ cs)

  -- `reduce`
  unfoldable pub reduce :
      SchemaReduceFunction F S → Option B.Buffer → B.Buffer → Outcome Fuel B.Buffer
  unfolding reduce_values
  reduce f state r =
      reduce_values (type_ids f.val_schema) (type_ids f.schema) f.agg_operators state 0 r >>= λ cs.
      unwrap (B.write (type_ids f.val_schema) cs)

  -- The reduces of a window: each record with the state that the one before left
  unfoldable pub reduce_all :
      SchemaReduceFunction F S → Option B.Buffer → List B.Buffer → Outcome Fuel (Option B.Buffer)
  unfolding reduce
  reduce_all f state [] = ok state
  reduce_all f state (r ∷ rs) = reduce f state r >>= λ b. reduce_all f (some b) rs
