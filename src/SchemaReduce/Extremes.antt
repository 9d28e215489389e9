-- ===== src/SchemaReduce/Extremes.antt =====
-- What the folds of `BasicAggregation` (rlink/src/functions/reduce/schema_reduce.rs) compute: the
-- greatest and the least value, and the sum.
use rlink_rs.Prelude.{
  ℕ, ◌+◌, ◌%◌, ◌^◌, ◌<◌, ◌≡◌, refl, sym, ap, ◌∙◌, inl, inr, Bool, true, false, List, [], ◌∷◌, map,
  arith, Bool-cases, All, if◌then◌else◌,
}
use mathlib.Core.Path.{subst}
use rlink_rs.Prelude.Sort.{Any}
use rlink_rs.Prelude.Int.{pos}
use rlink_rs.SchemaReduce.{
  DataType, uint64, Value, BasicAggType, sum, max, min, ValueAgg, signed_agg, unsigned_agg,
}
use rlink_rs.SchemaReduce.Aggregations.{Aggregation, basic_aggregation, combine}
use rlink_rs.SchemaReduce.Summary.{summary}

-- `>` is a strict order of a line, as for integers and for floats that are no NaN.
pub record IsOrder {T : Type 0} (v : ValueAgg T) : Type 0 where
  pub asym : (a b : T) → v.gt a b ≡ true → v.gt b a ≡ false
  pub trans : (a b c : T) → v.gt a b ≡ false → v.gt b c ≡ false → v.gt a c ≡ false

pub signed_agg-IsOrder : (w : ℕ) → IsOrder (signed_agg w)
signed_agg-IsOrder w = record { asym = λ a b h. ground arith; trans = λ a b c h k. ground arith }

module _ {T : Type 0} (v : ValueAgg T) where
  -- The value is one of them, and none of them is greater, or none is less.
  abbrev pub IsGreatest : List T → T → Type 0
  IsGreatest xs m = All (λ x. v.gt x m ≡ false) xs × Any (λ x. x ≡ m) xs

  abbrev pub IsLeast : List T → T → Type 0
  IsLeast xs m = All (λ x. v.gt m x ≡ false) xs × Any (λ x. x ≡ m) xs

  gt_self : IsOrder v → (a : T) → v.gt a a ≡ false
  gt_self order a = elim (Bool-cases (v.gt a a)) [
    | inl above ↦ order.asym a a above
    | inr same ↦ same
  ]

if_true : {T : Type 0} (x y : T) {b : Bool} → b ≡ true → (if b then x else y) ≡ x
if_true x y e = rw e refl

if_false : {T : Type 0} (x y : T) {b : Bool} → b ≡ false → (if b then x else y) ≡ y
if_false x y e = rw e refl

past :
    {T : Type 0} (x y : T) (xs : List T) (m : T)
    → Any (λ z. z ≡ m) (x ∷ xs)
    → Any (λ z. z ≡ m) (x ∷ y ∷ xs)
past x y xs m (inl here) = inl here
past x y xs m (inr rest) = inr (inr rest)

module _ (F : Type 0) {S : Type 0} (column : ℕ) (name : S) (t : DataType)
    (v : ValueAgg (Value F t)) where
  abbrev pub basic : BasicAggType → Aggregation F S
  basic agg_type = basic_aggregation column agg_type name t v

  -- The fold of `max` over a column is its greatest value, when `>` is an order.
  pub summary-IsGreatest :
      IsOrder v
      → (x : Value F t) (xs : List (Value F t)) → IsGreatest v (x ∷ xs) (summary (basic max) x xs)
  unfolding combine
  summary-IsGreatest order x [] = ((gt_self v order x, tt), inl refl)
  summary-IsGreatest order x (y ∷ xs) = elim (Bool-cases (v.gt x y)) [
    | inl above ↦
        let (all, one) = summary-IsGreatest order x xs in
        subst (λ z. IsGreatest v (x ∷ y ∷ xs) (summary (basic max) z xs)) (sym (if_true x y above))
          (
            (
              all.0,
              (order.trans y x (summary (basic max) x xs) (order.asym x y above) all.0, all.1),
            ),
            past x y xs (summary (basic max) x xs) one,
          )
    | inr not_above ↦
        let (all, one) = summary-IsGreatest order y xs in
        subst (λ z. IsGreatest v (x ∷ y ∷ xs) (summary (basic max) z xs))
          (sym (if_false x y not_above))
          ((order.trans x y (summary (basic max) y xs) not_above all.0, all), inr one)
  ]

  -- The fold of `min` over a column is its least value, when `>` is an order.
  pub summary-IsLeast :
      IsOrder v
      → (x : Value F t) (xs : List (Value F t)) → IsLeast v (x ∷ xs) (summary (basic min) x xs)
  unfolding combine
  summary-IsLeast order x [] = ((gt_self v order x, tt), inl refl)
  summary-IsLeast order x (y ∷ xs) = elim (Bool-cases (v.gt x y)) [
    | inl above ↦
        let (all, one) = summary-IsLeast order y xs in
        subst (λ z. IsLeast v (x ∷ y ∷ xs) (summary (basic min) z xs)) (sym (if_true y x above))
          ((order.trans (summary (basic min) y xs) y x all.0 (order.asym x y above), all), inr one)
    | inr not_above ↦
        let (all, one) = summary-IsLeast order x xs in
        subst (λ z. IsLeast v (x ∷ y ∷ xs) (summary (basic min) z xs))
          (sym (if_false y x not_above))
          (
            (all.0, (order.trans (summary (basic min) x xs) x y all.0 not_above, all.1)),
            past x y xs (summary (basic min) x xs) one,
          )
  ]

abbrev pub total : List ℕ → ℕ
total [] = 0
total (n ∷ ns) = n + total ns

-- The sum of a UInt64 column is the sum of its values modulo 2^64.
pub summary-total :
    (F : Type 0) {S : Type 0} (column : ℕ) (name : S) (n : ℕ) (ns : List ℕ)
    → n < 2 ^ 64
    → summary {F = F}
        (basic_aggregation column sum name uint64 (unsigned_agg 64))
        (pos n)
        (map pos ns)
      ≡ pos ((n + total ns) % 2 ^ 64)
unfolding combine
summary-total F column name n [] small = ap pos (omega (arith, small))
summary-total F column name n (m ∷ ns) small =
    summary-total F column name ((n + m) % 2 ^ 64) ns (omega arith) ∙ ap pos (omega arith)
