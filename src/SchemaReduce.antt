-- ===== src/SchemaReduce.antt =====
-- `SchemaReduceFunction` of rlink/src/functions/reduce/schema_reduce.rs with the columns it reads
-- (rlink/src/functions/column_locate.rs) and the types of columns (rlink/src/core/data_types.rs). The buffers
-- are `serbuffer`, a third-party crate: an interface with what its documentation says. A string is a
-- value of the type `S`; the arithmetic of f32 and f64 is an argument.
pub mod Buffers
pub mod Aggregations
pub mod Function
pub mod Typed
pub mod Summary
pub mod Extremes
mod Tests
use rlink_rs.Prelude.{
  ℕ, zero, suc, ◌+◌, ◌-◌, ◌%◌, ◌^◌, Bool, true, false, Option, none, some, List, [], ◌∷◌, length,
  get_elem?, ltb, if◌then◌else◌, Outcome, ok, err, panic, ◌>>=◌, unwrap,
}
use rlink_rs.Prelude.Int.{ℤ, pos, negsuc, pos_part, neg_part, ltb_ℤ, ◌+ℤ◌}
use rlink_rs.Percentile.{Fuel}

pub data DataType : Type 0 where
  boolean int8 uint8 int16 uint16 int32 uint32 int64 uint64 : DataType
  float32 float64 binary string : DataType

-- `DataType::len`
unfoldable pub len : DataType → ℕ
len boolean = 1
len int8 = 1
len uint8 = 1
len int16 = 2
len uint16 = 2
len int32 = 4
len uint32 = 4
len int64 = 8
len uint64 = 8
len float32 = 4
len float64 = 8
len binary = 0
len string = 0

-- The Rust type of a column's values: an integer, a float, bytes
abbrev pub Value : Type 0 → DataType → Type 0
Value F boolean = Bool
Value F float32 = F
Value F float64 = F
Value F binary = List ℕ
Value F string = List ℕ
Value F _ = ℤ

-- A `Field`; its length and type id are those of its type.
pub record Field (S : Type 0) : Type 0 where
  pub name : S
  pub data_type : DataType

pub data ColumnLocate (S : Type 0) : Type 0 where
  index : ℕ → ColumnLocate S
  by_name : S → ColumnLocate S

pub data AggregationDescriptor (S : Type 0) : Type 0 where
  count : AggregationDescriptor S
  sum_of max_of min_of : ColumnLocate S → AggregationDescriptor S
  pct : ColumnLocate S → List ℕ → AggregationDescriptor S

pub data BasicAggType : Type 0 where
  sum max min : BasicAggType

-- The trait `ValueAgg`: `Add` and `PartialOrd` of a type of numbers
pub record ValueAgg (T : Type 0) : Type 0 where
  pub add : T → T → T
  pub gt : T → T → Bool

-- The integer with these bits, of `2 ^ w` values of which `2 ^ w / 2` are below 0
abbrev pub wrap_signed : ℕ → ℤ → ℤ
wrap_signed w z =
    let m = (pos_part z + (2 ^ w - neg_part z % 2 ^ w)) % 2 ^ w in
    if ltb m (2 ^ (w - 1)) then pos m else negsuc (2 ^ w - 1 - m)

abbrev pub signed_agg : ℕ → ValueAgg ℤ
signed_agg w = record { add = λ a b. wrap_signed w (a +ℤ b); gt = λ a b. ltb_ℤ b a }

abbrev pub unsigned_agg : ℕ → ValueAgg ℤ
unsigned_agg w = record {
  add = λ a b. pos ((pos_part a + pos_part b) % 2 ^ w);
  gt = λ a b. ltb_ℤ b a;
}

-- The types that `create_basic_agg` has an arm for
unfoldable pub value_agg :
    {F : Type 0} → ValueAgg F → ValueAgg F → (t : DataType) → Option (ValueAgg (Value F t))
value_agg f32 f64 int8 = some (signed_agg 8)
value_agg f32 f64 uint8 = some (unsigned_agg 8)
value_agg f32 f64 int16 = some (signed_agg 16)
value_agg f32 f64 uint16 = some (unsigned_agg 16)
value_agg f32 f64 int32 = some (signed_agg 32)
value_agg f32 f64 uint32 = some (unsigned_agg 32)
value_agg f32 f64 int64 = some (signed_agg 64)
value_agg f32 f64 uint64 = some (unsigned_agg 64)
value_agg f32 f64 float32 = some f32
value_agg f32 f64 float64 = some f64
value_agg f32 f64 boolean = none
value_agg f32 f64 binary = none
value_agg f32 f64 string = none

module _ {S : Type 0} (eq : S → S → Bool) where
  abbrev pub found : ℕ → Field S → S → Option (ℕ × Field S) → Option (ℕ × Field S)
  found i f name rest = if eq f.name name then some (i, f) else rest

  -- `column_with_name`, from an index on
  unfoldable pub column_with_name : ℕ → S → List (Field S) → Option (ℕ × Field S)
  column_with_name i name [] = none
  column_with_name i name (f ∷ fs) = found i f name (column_with_name (i + 1) name fs)

  -- `to_column`; an index out of bounds and an unknown name are panics.
  unfoldable pub to_column : ColumnLocate S → List (Field S) → Outcome Fuel (ℕ × Field S)
  unfolding column_with_name
  to_column (index i) schema = unwrap (get_elem? schema i) >>= λ f. ok (i, f)
  to_column (by_name name) schema = unwrap (column_with_name 0 name schema)
