-- ===== src/SchemaReduce/Typed.antt =====
-- The values that the reduce function of rlink/src/functions/reduce/schema_reduce.rs writes have the
-- types of its output schema, so that no write fails.
use rlink_rs.Prelude.{
  ℕ, ◌+◌, ◌%◌, ◌^◌, Bool, ◌≡◌, refl, sym, ap, ◌∙◌, Option, none, some, List, [], ◌∷◌, map, Outcome,
  ok, ◌>>=◌, unwrap, bind_ok, ok_injective,
}
use mathlib.Core.Path.{ap₂}
use rlink_rs.Prelude.Int.{ℤ, pos, pos_part}
use rlink_rs.Percentile.{Fuel}
use rlink_rs.Percentile.Counters.{zeros, get_percentile_capacity, accumulate}
use rlink_rs.SchemaReduce.{DataType, uint64, int64, binary, Field, AggregationDescriptor, ValueAgg}
use rlink_rs.SchemaReduce.Buffers.{Cell, type_of, Serbuffer}
use rlink_rs.SchemaReduce.Aggregations.{
  Names, Aggregation, count_aggregation, basic_aggregation, pct_aggregation, output_field,
  output_type, agg_len, combine, to_aggregation, reduce_value,
}
use rlink_rs.SchemaReduce.Function.{
  SchemaReduceFunction, type_ids, agg_schema, open_reduce, reduce_values, reduce,
}

type_of-ok :
    {F : Type 0} (d c : Cell F)
    → ◌≡◌ {A = Outcome Fuel (Cell F)} (ok d) (ok c)
    → type_of c ≡ type_of d
type_of-ok d c e = sym (ap type_of (ok_injective {E = Fuel} d c e))

module _ {F S : Type 0} (B : Serbuffer F) (as_f64 : ℤ → ℕ) (ids record_ids : List DataType) where
  reduce_value-type_of :
      (a : Aggregation F S) (state : Option B.Buffer) (i : ℕ) (r : B.Buffer) (c : Cell F)
      → reduce_value B as_f64 ids record_ids a state i r ≡ ok c
      → type_of c ≡ output_type a
  unfolding reduce_value
  reduce_value-type_of count_aggregation none i r c e = type_of-ok (uint64, pos 1) c e
  reduce_value-type_of count_aggregation (some state) i r c e =
      let (n, e₁, e₂) = bind_ok (unwrap (B.get ids state uint64 i)) _ e in
      type_of-ok (uint64, pos ((pos_part n + 1) % 2 ^ 64)) c e₂
  reduce_value-type_of (basic_aggregation column agg_type name t v) none i r c e =
      let (x, e₁, e₂) = bind_ok (unwrap (B.get record_ids r t column)) _ e in type_of-ok (t, x) c e₂
  reduce_value-type_of (basic_aggregation column agg_type name t v) (some state) i r c e =
      let (x, e₁, e₂) = bind_ok (unwrap (B.get record_ids r t column)) _ e in
      let (b, e₃, e₄) = bind_ok (unwrap (B.get ids state t i)) _ e₂ in
      type_of-ok (t, combine v agg_type b x) c e₄
  reduce_value-type_of (pct_aggregation column name scale) none i r c e =
      let (x, e₁, e₂) = bind_ok (unwrap (B.get record_ids r int64 column)) _ e in
      let (d, e₃, e₄) =
        bind_ok (accumulate scale (zeros (get_percentile_capacity scale)) (as_f64 x)) _ e₂ in
      type_of-ok (binary, d) c e₄
  reduce_value-type_of (pct_aggregation column name scale) (some state) i r c e =
      let (x, e₁, e₂) = bind_ok (unwrap (B.get record_ids r int64 column)) _ e in
      let (b, e₃, e₄) = bind_ok (unwrap (B.get ids state binary i)) _ e₂ in
      let (d, e₅, e₆) = bind_ok (accumulate scale b (as_f64 x)) _ e₄ in type_of-ok (binary, d) c e₆

  pub reduce_values-type_of :
      (operators : List (Aggregation F S)) (state : Option B.Buffer) (i : ℕ) (r : B.Buffer)
      (cs : List (Cell F))
      → reduce_values B as_f64 ids record_ids operators state i r ≡ ok cs
      → map type_of cs ≡ map output_type operators
  unfolding reduce_values
  reduce_values-type_of [] state i r cs e = ap (map type_of) (sym (ok_injective {E = Fuel} [] cs e))
  reduce_values-type_of (a ∷ operators) state i r cs e =
      let (c, e₁, e₂) = bind_ok (reduce_value B as_f64 ids record_ids a state i r) _ e in
      let (ds, e₃, e₄) =
        bind_ok (reduce_values B as_f64 ids record_ids operators state (i + 1) r) _ e₂ in
      ap (map type_of) (sym (ok_injective {E = Fuel} (c ∷ ds) cs e₄))
      ∙ ap₂ (λ t ts. t ∷ ts) (reduce_value-type_of a state i r c e₁)
          (reduce_values-type_of operators state (i + 1) r ds e₃)

module _ {F S : Type 0} (names : Names S) (f32 f64 : ValueAgg F) (eq : S → S → Bool) where
  output_field-type : (a : Aggregation F S) → (output_field names a).data_type ≡ output_type a
  unfolding output_field
  output_field-type count_aggregation = refl
  output_field-type (basic_aggregation column agg_type name t v) = refl
  output_field-type (pct_aggregation column name scale) = refl

  agg_schema_types :
      (ds : List (AggregationDescriptor S)) (schema : List (Field S))
      (out : List (Aggregation F S) × List (Field S) × ℕ)
      → agg_schema names f32 f64 eq ds schema ≡ ok out
      → type_ids out.1 ≡ map output_type out.0
  unfolding agg_schema
  agg_schema_types [] schema out e =
      ap (λ o. type_ids o.1) (sym same) ∙ ap (λ o. map output_type o.0) same
    where
      same : ◌≡◌ {A = List (Aggregation F S) × List (Field S) × ℕ} ([], [], 0) out
      same = ok_injective {E = Fuel} ([], [], 0) out e
  agg_schema_types (d ∷ ds) schema out e =
      let (a, e₁, e₂) = bind_ok (to_aggregation f32 f64 eq schema d) _ e in
      let (rest, e₃, e₄) = bind_ok (agg_schema names f32 f64 eq ds schema) _ e₂ in
      let same =
        ok_injective {E = Fuel} (a ∷ rest.0, output_field names a ∷ rest.1, agg_len a + rest.2) out
          e₄ in
      ap (λ o. type_ids o.1) (sym same)
      ∙ ap₂ (λ t ts. t ∷ ts) (output_field-type a) (agg_schema_types ds schema rest e₃)
      ∙ ap (λ o. map output_type o.0) same

  -- After a successful `open`, the type ids of the value schema are the output types of the operators.
  pub open_reduce-type_ids :
      (input : List (Field S)) (f g : SchemaReduceFunction F S)
      → open_reduce names f32 f64 eq input f ≡ ok g
      → type_ids g.val_schema ≡ map output_type g.agg_operators
  unfolding open_reduce
  open_reduce-type_ids input f g e =
      let (values, e₁, e₂) = bind_ok (agg_schema names f32 f64 eq f.agg_descriptors input) _ e in
      let (operators, e₃, e₄) =
        bind_ok (agg_schema names f32 f64 eq f.agg_descriptors input) _ e₂ in
      let same =
        ok_injective {E = Fuel}
          (record f {
            schema = input;
            val_schema = values.1;
            val_len = operators.2;
            agg_operators = operators.0;
          })
          g e₄ in
      ap (λ h. type_ids h.val_schema) (sym same)
      ∙ ap (λ o. type_ids o.1) (ok_injective {E = Fuel} values operators (sym e₁ ∙ e₃))
      ∙ agg_schema_types f.agg_descriptors input operators e₃
      ∙ ap (λ h. map output_type h.agg_operators) same

  -- The function that `open` leaves writes values of the types of its value schema: when the values
  -- of a record have been computed, writing them does not panic.
  pub reduce-typed :
      (B : Serbuffer F) (as_f64 : ℤ → ℕ) (input : List (Field S)) (f g : SchemaReduceFunction F S)
      (state : Option B.Buffer) (r : B.Buffer) (cs : List (Cell F))
      → open_reduce names f32 f64 eq input f ≡ ok g
      → reduce_values B as_f64 (type_ids g.val_schema) (type_ids g.schema) g.agg_operators state 0 r
        ≡ ok cs
      → (map type_of cs ≡ type_ids g.val_schema)
        × ((b : B.Buffer) × (reduce B as_f64 g state r ≡ ok b)
            × (B.write (type_ids g.val_schema) cs ≡ some b))
  unfolding reduce
  reduce-typed B as_f64 input f g state r cs opened computed =
      let typed =
        reduce_values-type_of B as_f64 (type_ids g.val_schema) (type_ids g.schema) g.agg_operators
          state 0 r cs computed
        ∙ sym (open_reduce-type_ids input f g opened) in
      let (b, written) = B.write-typed (type_ids g.val_schema) cs typed in
      (
        typed,
        (
          b,
          ap (λ o. o >>= λ ds. unwrap (B.write (type_ids g.val_schema) ds)) computed
              ∙ ap (λ w. unwrap w) written,
          written,
        ),
      )
