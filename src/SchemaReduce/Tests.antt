-- ===== src/SchemaReduce/Tests.antt =====
-- A function with a count, a greatest and a sum, over buffers that are lists of typed values.
use rlink_rs.Prelude.{
  ℕ, zero, suc, ◌+◌, ◌≡◌, refl, sym, ap, ◌∙◌, Option, none, some, List, [], ◌∷◌, map, get_elem?,
  ltb, ◌==◌, ok, some_injective,
}
use mathlib.Core.Path.{subst}
use rlink_rs.Prelude.Int.{ℤ, pos, negsuc}
use rlink_rs.SchemaReduce.{
  DataType, boolean, int8, uint8, int16, uint16, int32, uint32, int64, uint64, float32, float64,
  binary, string, Value, Field, AggregationDescriptor, index, by_name, count, sum_of, max_of, sum,
  max, ValueAgg, signed_agg, unsigned_agg, value_agg, to_column,
}
use rlink_rs.SchemaReduce.Buffers.{Cell, type_of, Serbuffer}
use rlink_rs.SchemaReduce.Aggregations.{
  Names, Aggregation, count_aggregation, basic_aggregation, combine, reduce_value,
}
use rlink_rs.SchemaReduce.Function.{
  SchemaReduceFunction, new_function, open_reduce, reduce_values, reduce, reduce_all,
}
use rlink_rs.SchemaReduce.Typed.{reduce-typed}
use rlink_rs.SchemaReduce.Summary.{
  Input, first_kept, summary, cell, Inputs, HoldsAt, AreReadable, reduce_all-summary,
}
use rlink_rs.SchemaReduce.Extremes.{IsGreatest, signed_agg-IsOrder, summary-IsGreatest}

abbrev as_type : (t : DataType) → Cell ℕ → Option (Value ℕ t)
as_type boolean (boolean, v) = some v
as_type int8 (int8, v) = some v
as_type uint8 (uint8, v) = some v
as_type int16 (int16, v) = some v
as_type uint16 (uint16, v) = some v
as_type int32 (int32, v) = some v
as_type uint32 (uint32, v) = some v
as_type int64 (int64, v) = some v
as_type uint64 (uint64, v) = some v
as_type float32 (float32, v) = some v
as_type float64 (float64, v) = some v
as_type binary (binary, v) = some v
as_type string (string, v) = some v
as_type t c = none

as_type_self : (c : Cell ℕ) → as_type c.0 c ≡ some c.1
as_type_self (boolean, v) = refl
as_type_self (int8, v) = refl
as_type_self (uint8, v) = refl
as_type_self (int16, v) = refl
as_type_self (uint16, v) = refl
as_type_self (int32, v) = refl
as_type_self (uint32, v) = refl
as_type_self (int64, v) = refl
as_type_self (uint64, v) = refl
as_type_self (float32, v) = refl
as_type_self (float64, v) = refl
as_type_self (binary, v) = refl
as_type_self (string, v) = refl

abbrev read_as : (t : DataType) → Option (Cell ℕ) → Option (Value ℕ t)
read_as t none = none
read_as t (some c) = as_type t c

abbrev list_buffer : Serbuffer ℕ
list_buffer = record {
  Buffer = List (Cell ℕ);
  get = λ ts b t i. read_as t (get_elem? b i);
  write = λ ts cs. some cs;
  write-typed = λ ts cs typed. (cs, refl);
  get-write = λ ts cs b i c written typed at.
      ap (λ d. read_as c.0 (get_elem? d i)) (sym (some_injective cs b written))
      ∙ ap (read_as c.0) at
      ∙ as_type_self c;
}

abbrev names : Names ℕ
names = record { count_name = 0; basic_name = λ agg n. n; pct_name = λ n. n }

abbrev input : List (Field ℕ)
input = record { name = 4; data_type = int32 } ∷ record { name = 5; data_type = uint64 } ∷ []

abbrev descriptors : List (AggregationDescriptor ℕ)
descriptors = count ∷ max_of (index 0) ∷ sum_of (by_name 5) ∷ []

abbrev opened : SchemaReduceFunction ℕ ℕ
opened = record {
  parallelism = 1;
  schema = input;
  val_schema =
      record { name = 0; data_type = uint64 }
      ∷ record { name = 4; data_type = int32 }
      ∷ record { name = 5; data_type = uint64 }
      ∷ [];
  val_len = 20;
  agg_descriptors = descriptors;
  agg_operators =
      count_aggregation
      ∷ basic_aggregation 0 max 4 int32 (signed_agg 32)
      ∷ basic_aggregation 1 sum 5 uint64 (unsigned_agg 64)
      ∷ [];
}

-- The floats are not used.
abbrev floats : ValueAgg ℕ
floats = record { add = λ a b. a + b; gt = λ a b. ltb b a }

opens : open_reduce names floats floats ◌==◌ input (new_function descriptors 1) ≡ ok opened
unfolding open_reduce to_column value_agg
opens = refl

abbrev row : ℤ → ℕ → List (Cell ℕ)
row x y = (int32, x) ∷ (uint64, pos y) ∷ []

abbrev values : ℕ → ℤ → ℕ → List (Cell ℕ)
values n x y = (uint64, pos n) ∷ (int32, x) ∷ (uint64, pos y) ∷ []

reduces :
    reduce_all list_buffer
      (λ x. 0)
      opened
      none
      (row (negsuc 1) 10 ∷ row (pos 3) 20 ∷ row (negsuc 8) 5 ∷ [])
    ≡ ok (some (values 3 (pos 3) 35))
unfolding reduce_all reduce_value combine
reduces = refl

reduce-typed_example :
    (map type_of (values 1 (negsuc 1) 10) ≡ uint64 ∷ int32 ∷ uint64 ∷ [])
    × ((b : List (Cell ℕ)) × (reduce list_buffer (λ x. 0) opened none (row (negsuc 1) 10) ≡ ok b)
        × (some (values 1 (negsuc 1) 10) ≡ some b))
unfolding open_reduce to_column value_agg reduce_values reduce_value
reduce-typed_example =
    reduce-typed names floats floats ◌==◌ list_buffer (λ x. 0) input (new_function descriptors 1)
      opened none (row (negsuc 1) 10) (values 1 (negsuc 1) 10) refl refl

abbrev rows : List (List (Cell ℕ))
rows = row (negsuc 1) 10 ∷ row (pos 3) 20 ∷ []

abbrev Columns : Aggregation ℕ ℕ → Type 0
Columns a = (xs : List (Input a)) × Inputs list_buffer (int32 ∷ uint64 ∷ []) a rows xs

readable : AreReadable list_buffer (λ x. 0) opened rows
readable zero a at =
    subst Columns (some_injective count_aggregation a at) (tt ∷ tt ∷ [], (refl, (refl, tt)))
readable (suc zero) a at =
    subst Columns (some_injective (basic_aggregation 0 max 4 int32 (signed_agg 32)) a at)
      (negsuc 1 ∷ pos 3 ∷ [], (refl, (refl, tt)))
readable (suc (suc zero)) a at =
    subst Columns (some_injective (basic_aggregation 1 sum 5 uint64 (unsigned_agg 64)) a at)
      (pos 10 ∷ pos 20 ∷ [], (refl, (refl, tt)))
readable (suc (suc (suc k))) a at = absurd (cc at)

reduce_all-summary_example :
    (b : List (Cell ℕ)) × (reduce_all list_buffer (λ x. 0) opened none rows ≡ ok (some b))
    × ((k : ℕ) (a : Aggregation ℕ ℕ) (x : Input a) (xs : List (Input a))
        → get_elem? opened.agg_operators k ≡ some a
        → Inputs list_buffer (int32 ∷ uint64 ∷ []) a rows (x ∷ xs)
        → HoldsAt list_buffer
            (uint64 ∷ int32 ∷ uint64 ∷ [])
            b
            k
            (cell a (summary a (first_kept a x) xs)))
reduce_all-summary_example =
    reduce_all-summary list_buffer (λ x. 0) opened (row (negsuc 1) 10) (row (pos 3) 20 ∷ []) refl
      readable

abbrev four : List ℤ
four = negsuc 1 ∷ pos 3 ∷ negsuc 8 ∷ pos 2 ∷ []

summary-IsGreatest_example : IsGreatest (signed_agg 32) four (pos 3)
unfolding combine
summary-IsGreatest_example =
    summary-IsGreatest ℕ {S = ℕ} 0 4 int32 (signed_agg 32) (signed_agg-IsOrder 32) (negsuc 1)
      (pos 3 ∷ negsuc 8 ∷ pos 2 ∷ [])
