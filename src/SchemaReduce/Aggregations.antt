-- ===== src/SchemaReduce/Aggregations.antt =====
-- The aggregations of rlink/src/functions/reduce/schema_reduce.rs: which one a descriptor stands for, its
-- output field, and what it computes from the state and a record.
use rlink_rs.Prelude.{
  ℕ, ◌+◌, ◌%◌, ◌^◌, Bool, Option, none, some, List, if◌then◌else◌, Outcome, ok, panic, ◌>>=◌,
  unwrap,
}
use rlink_rs.Prelude.Int.{ℤ, pos, pos_part}
use rlink_rs.Percentile.{Fuel}
use rlink_rs.Percentile.Counters.{zeros, get_percentile_capacity, accumulate}
use rlink_rs.SchemaReduce.{
  DataType, uint64, int64, binary, len, Value, Field, AggregationDescriptor, count, sum_of, max_of,
  min_of, pct, BasicAggType, sum, max, min, ValueAgg, value_agg, to_column,
}
use rlink_rs.SchemaReduce.Buffers.{Cell, Serbuffer}

-- The names of output fields: `count`, `sum(x)`, `pct(x)`
pub record Names (S : Type 0) : Type 0 where
  pub count_name : S
  pub basic_name : BasicAggType → S → S
  pub pct_name : S → S

-- `CountAggregation`, `BasicAggregation<T>` and `PctAggregation`
pub data Aggregation (F S : Type 0) : Type 0 where
  count_aggregation : Aggregation F S
  basic_aggregation : ℕ → BasicAggType → S → (t : DataType) → ValueAgg (Value F t) → Aggregation F S
  pct_aggregation : ℕ → S → List ℕ → Aggregation F S

module _ {F S : Type 0} where
  -- `output_field`
  unfoldable pub output_field : Names S → Aggregation F S → Field S
  output_field names count_aggregation = record { name = names.count_name; data_type = uint64 }
  output_field names (basic_aggregation column agg_type name t v) = record {
    name = names.basic_name agg_type name;
    data_type = t;
  }
  output_field names (pct_aggregation column name scale) = record {
    name = names.pct_name name;
    data_type = binary;
  }

  -- The type of the output field
  abbrev pub output_type : Aggregation F S → DataType
  output_type count_aggregation = uint64
  output_type (basic_aggregation column agg_type name t v) = t
  output_type (pct_aggregation column name scale) = binary

  -- `Aggregation::len`
  unfoldable pub agg_len : Aggregation F S → ℕ
  unfolding len get_percentile_capacity
  agg_len count_aggregation = len uint64
  agg_len (basic_aggregation column agg_type name t v) = len t
  agg_len (pct_aggregation column name scale) = get_percentile_capacity scale

  abbrev pub with_value_agg :
      ℕ
      → BasicAggType
      → S
      → (t : DataType) → Option (ValueAgg (Value F t))
      → Outcome Fuel (Aggregation F S)
  with_value_agg column agg_type name t none = panic
  with_value_agg column agg_type name t (some v) = ok (basic_aggregation column agg_type name t v)

  -- `create_basic_agg`
  unfoldable pub create_basic_agg :
      ValueAgg F → ValueAgg F → BasicAggType → ℕ × Field S → Outcome Fuel (Aggregation F S)
  unfolding value_agg
  create_basic_agg f32 f64 agg_type (column, f) =
      with_value_agg column agg_type f.name f.data_type (value_agg f32 f64 f.data_type)

  -- `to_aggregation`
  unfoldable pub to_aggregation :
      ValueAgg F
      → ValueAgg F
      → (S → S → Bool)
      → List (Field S)
      → AggregationDescriptor S
      → Outcome Fuel (Aggregation F S)
  unfolding create_basic_agg to_column
  to_aggregation f32 f64 eq schema count = ok count_aggregation
  to_aggregation f32 f64 eq schema (sum_of l) =
      to_column eq l schema >>= create_basic_agg f32 f64 sum
  to_aggregation f32 f64 eq schema (max_of l) =
      to_column eq l schema >>= create_basic_agg f32 f64 max
  to_aggregation f32 f64 eq schema (min_of l) =
      to_column eq l schema >>= create_basic_agg f32 f64 min
  to_aggregation f32 f64 eq schema (pct l scale) =
      to_column eq l schema >>= λ (column, f). ok (pct_aggregation column f.name scale)

-- The arms of `BasicAggregation::reduce`
unfoldable pub combine : {T : Type 0} → ValueAgg T → BasicAggType → T → T → T
combine v sum basic_value record_value = v.add basic_value record_value
combine v max basic_value record_value =
    if v.gt basic_value record_value then basic_value else record_value
combine v min basic_value record_value =
    if v.gt basic_value record_value then record_value else basic_value

-- `read_value` and `read_record` of the implementations of `ValueAgg`, each with the getter of its type
abbrev pub read_value :
    {F : Type 0} (B : Serbuffer F)
    → List DataType
    → B.Buffer
    → (t : DataType) → ℕ
    → Outcome Fuel (Value F t)
read_value B ids b t i = unwrap (B.get ids b t i)

module _ {F : Type 0} (B : Serbuffer F) (as_f64 : ℤ → ℕ) (ids record_ids : List DataType) where
  -- `CountAggregation::reduce`: the value it writes, from the state and its index in the state
  abbrev pub reduce_count : Option B.Buffer → ℕ → Outcome Fuel (Cell F)
  reduce_count none i = ok (uint64, pos 1)
  reduce_count (some state) i =
      unwrap (B.get ids state uint64 i) >>= λ n. ok (uint64, pos ((pos_part n + 1) % 2 ^ 64))

  -- `BasicAggregation::reduce`
  abbrev pub reduce_basic :
      ℕ
      → BasicAggType
      → (t : DataType) → ValueAgg (Value F t)
      → Option B.Buffer
      → ℕ
      → B.Buffer
      → Outcome Fuel (Cell F)
  reduce_basic column agg_type t v none i r = read_value B record_ids r t column >>= λ x. ok (t, x)
  reduce_basic column agg_type t v (some state) i r = read_value B record_ids r t column >>= λ x.
      read_value B ids state t i >>= λ b. ok (t, combine v agg_type b x)

  -- `PctAggregation::reduce`
  abbrev pub reduce_pct : ℕ → List ℕ → Option B.Buffer → ℕ → B.Buffer → Outcome Fuel (Cell F)
  reduce_pct column scale none i r = unwrap (B.get record_ids r int64 column) >>= λ x.
      accumulate scale (zeros (get_percentile_capacity scale)) (as_f64 x) >>= λ c. ok (binary, c)
  reduce_pct column scale (some state) i r = unwrap (B.get record_ids r int64 column) >>= λ x.
      unwrap (B.get ids state binary i) >>= λ b.
      accumulate scale b (as_f64 x) >>= λ c. ok (binary, c)

module _ {F S : Type 0} (B : Serbuffer F) (as_f64 : ℤ → ℕ) (ids record_ids : List DataType) where
  -- `Aggregation::reduce`, by the aggregation behind the `Box`
  unfoldable pub reduce_value :
      Aggregation F S → Option B.Buffer → ℕ → B.Buffer → Outcome Fuel (Cell F)
  unfolding combine accumulate get_percentile_capacity
  reduce_value count_aggregation state i r = reduce_count B as_f64 ids record_ids state i
  reduce_value (basic_aggregation column agg_type name t v) state i r =
      reduce_basic B as_f64 ids record_ids column agg_type t v state i r
  reduce_value (pct_aggregation column name scale) state i r =
      reduce_pct B as_f64 ids record_ids column scale state i r
