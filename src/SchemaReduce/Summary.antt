-- ===== src/SchemaReduce/Summary.antt =====
-- The records of a window reduced one after the other (rlink/src/functions/reduce/schema_reduce.rs),
-- against a summary of the values in each column, for functions without percentiles.
use rlink_rs.Prelude.{
  ℕ, zero, suc, ◌+◌, ◌%◌, ◌^◌, ◌≡◌, refl, sym, ap, ◌∙◌, Option, none, some, List, [], ◌∷◌, map,
  get_elem?, arith, ok, ◌>>=◌, unwrap, ok_injective, some_injective,
}
use mathlib.Core.Path.{subst}
use rlink_rs.Prelude.Int.{ℤ, pos}
use rlink_rs.Percentile.{Fuel}
use rlink_rs.SchemaReduce.{DataType, uint64, Value}
use rlink_rs.SchemaReduce.Buffers.{Cell, type_of, Serbuffer}
use rlink_rs.SchemaReduce.Aggregations.{
  Aggregation, count_aggregation, basic_aggregation, pct_aggregation, output_type, combine,
  reduce_value,
}
use rlink_rs.SchemaReduce.Function.{
  SchemaReduceFunction, type_ids, reduce_values, reduce, reduce_all,
}
use rlink_rs.SchemaReduce.Typed.{reduce_values-type_of}

module _ {F S : Type 0} where
  -- What an aggregation takes of a record, and what it keeps; percentiles are left out.
  abbrev pub Input : Aggregation F S → Type 0
  Input count_aggregation = Unit
  Input (basic_aggregation column agg_type name t v) = Value F t
  Input (pct_aggregation column name scale) = ⊥

  abbrev pub Kept : Aggregation F S → Type 0
  Kept count_aggregation = ℕ
  Kept (basic_aggregation column agg_type name t v) = Value F t
  Kept (pct_aggregation column name scale) = ⊥

  abbrev pub first_kept : (a : Aggregation F S) → Input a → Kept a
  first_kept count_aggregation x = 1
  first_kept (basic_aggregation column agg_type name t v) x = x
  first_kept (pct_aggregation column name scale) x = x

  -- The number of records, or the values folded by the aggregation
  abbrev pub summary : (a : Aggregation F S) → Kept a → List (Input a) → Kept a
  summary a s [] = s
  summary count_aggregation s (x ∷ xs) = summary count_aggregation (s + 1) xs
  summary (basic_aggregation column agg_type name t v) s (x ∷ xs) =
      summary (basic_aggregation column agg_type name t v) (combine v agg_type s x) xs
  summary (pct_aggregation column name scale) s (x ∷ xs) = s

  -- The value in the state's buffer
  abbrev pub cell : (a : Aggregation F S) → Kept a → Cell F
  cell count_aggregation s = (uint64, pos (s % 2 ^ 64))
  cell (basic_aggregation column agg_type name t v) s = (t, s)
  cell (pct_aggregation column name scale) s = absurd s

module _ {F S : Type 0} (B : Serbuffer F) (record_ids : List DataType) where
  abbrev pub input : (a : Aggregation F S) → B.Buffer → Option (Input a)
  input count_aggregation r = some tt
  input (basic_aggregation column agg_type name t v) r = B.get record_ids r t column
  input (pct_aggregation column name scale) r = none

  -- The inputs that the records have for an aggregation
  abbrev pub Inputs : (a : Aggregation F S) → List B.Buffer → List (Input a) → Type 0
  Inputs a [] [] = Unit
  Inputs a [] (x ∷ xs) = ⊥
  Inputs a (r ∷ rs) [] = ⊥
  Inputs a (r ∷ rs) (x ∷ xs) = (input a r ≡ some x) × Inputs a rs xs

-- The buffer has the value at the index.
abbrev pub HoldsAt : {F : Type 0} (B : Serbuffer F) → List DataType → B.Buffer → ℕ → Cell F → Type 0
HoldsAt B ids b k c = B.get ids b c.0 k ≡ some c.1

module _ {F S : Type 0} (B : Serbuffer F) (as_f64 : ℤ → ℕ) (ids record_ids : List DataType) where
  reduce_value-first :
      (a : Aggregation F S) (k : ℕ) (r : B.Buffer) (x : Input a)
      → input B record_ids a r ≡ some x
      → reduce_value B as_f64 ids record_ids a none k r ≡ ok (cell a (first_kept a x))
  unfolding reduce_value
  reduce_value-first count_aggregation k r x e = refl
  reduce_value-first (basic_aggregation column agg_type name t v) k r x e = rw e refl
  reduce_value-first (pct_aggregation column name scale) k r x e = absurd x

  reduce_value-next :
      (a : Aggregation F S) (k : ℕ) (st r : B.Buffer) (s : Kept a) (x : Input a)
      → HoldsAt B ids st k (cell a s)
      → input B record_ids a r ≡ some x
      → reduce_value B as_f64 ids record_ids a (some st) k r ≡ ok (cell a (summary a s (x ∷ [])))
  unfolding reduce_value
  reduce_value-next count_aggregation k st r s x held e =
      rw held (ap (λ n. ok (uint64, pos n)) (omega arith))
  reduce_value-next (basic_aggregation column agg_type name t v) k st r s x held e =
      rw (e, held) refl
  reduce_value-next (pct_aggregation column name scale) k st r s x held e = absurd x

  at_front :
      (operators : List (Aggregation F S)) (state : Option B.Buffer) (i : ℕ) (r : B.Buffer)
      (a : Aggregation F S) (c : Cell F) (cs : List (Cell F))
      → reduce_value B as_f64 ids record_ids a state (i + 0) r ≡ ok c
      → ((k : ℕ) (d : Aggregation F S) (x : Cell F)
          → get_elem? operators k ≡ some d
          → reduce_value B as_f64 ids record_ids d state (i + 1 + k) r ≡ ok x
          → get_elem? cs k ≡ some x)
      → (k : ℕ) (d : Aggregation F S) (x : Cell F) → get_elem? (a ∷ operators) k ≡ some d
      → reduce_value B as_f64 ids record_ids d state (i + k) r ≡ ok x
      → get_elem? (c ∷ cs) k ≡ some x
  at_front operators state i r a c cs e at_cs zero d x at e' = ap some (
      ok_injective {E = Fuel} c x (
        sym e
        ∙ ap (λ b. reduce_value B as_f64 ids record_ids b state (i + 0) r) (some_injective a d at)
        ∙ e'))
  at_front operators state i r a c cs e at_cs (suc k) d x at e' =
      let one_more : i + 1 + k ≡ i + suc k = omega arith in
      at_cs k d x at (ap (λ j. reduce_value B as_f64 ids record_ids d state j r) one_more ∙ e')

  reduce_values_total :
      (operators : List (Aggregation F S)) (state : Option B.Buffer) (i : ℕ) (r : B.Buffer)
      → ((k : ℕ) (a : Aggregation F S)
          → get_elem? operators k ≡ some a
          → (c : Cell F) × (reduce_value B as_f64 ids record_ids a state (i + k) r ≡ ok c))
      → (cs : List (Cell F)) × (reduce_values B as_f64 ids record_ids operators state i r ≡ ok cs)
        × ((k : ℕ) (a : Aggregation F S) (c : Cell F)
            → get_elem? operators k ≡ some a
            → reduce_value B as_f64 ids record_ids a state (i + k) r ≡ ok c
            → get_elem? cs k ≡ some c)
  unfolding reduce_values
  reduce_values_total [] state i r h = ([], refl, λ k a c at e. absurd (cc at))
  reduce_values_total (a ∷ operators) state i r h =
      let (c, e) = h 0 a refl in
      let zero_more : i + 0 ≡ i = omega arith in
      let one_more : (k : ℕ) → i + suc k ≡ i + 1 + k = λ k. omega arith in
      let (cs, es, at_cs) = reduce_values_total operators state (i + 1) r (λ k d at.
        let (x, e) = h (suc k) d at in
        (x, ap (λ j. reduce_value B as_f64 ids record_ids d state j r) (sym (one_more k)) ∙ e)) in
      let e₀ = ap (λ j. reduce_value B as_f64 ids record_ids a state j r) (sym zero_more) ∙ e in
      (
        c ∷ cs,
        ap
              (λ o. o >>= λ x.
                reduce_values B as_f64 ids record_ids operators state (i + 1) r >>= λ xs.
                ok (x ∷ xs))
              e₀
            ∙ ap (λ o. o >>= λ xs. ok (c ∷ xs)) es,
        at_front operators state i r a c cs e at_cs,
      )

module _ {F S : Type 0} (B : Serbuffer F) (as_f64 : ℤ → ℕ) (g : SchemaReduceFunction F S) where
  -- The type ids of the value schema are those that the operators write.
  abbrev pub IsOpen : Type 0
  IsOpen = type_ids g.val_schema ≡ map output_type g.agg_operators

  reduce-total :
      (state : Option B.Buffer) (r : B.Buffer)
      → IsOpen
      → ((k : ℕ) (a : Aggregation F S)
          → get_elem? g.agg_operators k ≡ some a
          → (c : Cell F) × (reduce_value B as_f64
                (type_ids g.val_schema)
                (type_ids g.schema)
                a
                state
                k
                r
              ≡ ok c))
      → (b : B.Buffer) × (reduce B as_f64 g state r ≡ ok b)
        × ((k : ℕ) (a : Aggregation F S) (c : Cell F)
            → get_elem? g.agg_operators k ≡ some a
            → reduce_value B as_f64 (type_ids g.val_schema) (type_ids g.schema) a state k r ≡ ok c
            → HoldsAt B (type_ids g.val_schema) b k c)
  unfolding reduce
  reduce-total state r opened h =
      let ts : List DataType = type_ids g.val_schema in
      let at_zero : (k : ℕ) → k ≡ 0 + k = λ k. omega arith in
      let (cs, computed, at_cs) =
        reduce_values_total B as_f64 ts (type_ids g.schema) g.agg_operators state 0 r (λ k a at.
          let (c, e) = h k a at in
          (
            c,
            ap (λ j. reduce_value B as_f64 ts (type_ids g.schema) a state j r) (sym (at_zero k))
                ∙ e,
          )) in
      let typed : map type_of cs ≡ ts =
        reduce_values-type_of B as_f64 ts (type_ids g.schema) g.agg_operators state 0 r cs computed
        ∙ sym opened in
      let (b, written) = B.write-typed ts cs typed in
      (
        b,
        ap (λ o. o >>= λ ds. unwrap (B.write ts ds)) computed ∙ ap (λ w. unwrap w) written,
        λ k a c at e. B.get-write ts cs b k c written typed (
            at_cs k a c at (
              ap (λ j. reduce_value B as_f64 ts (type_ids g.schema) a state j r) (sym (at_zero k))
              ∙ e)),
      )

  -- The records have inputs for every operator.
  abbrev pub AreReadable : List B.Buffer → Type 0
  AreReadable rs =
      (k : ℕ) (a : Aggregation F S)
      → get_elem? g.agg_operators k ≡ some a
      → (xs : List (Input a)) × Inputs B (type_ids g.schema) a rs xs

  summary-cons :
      (a : Aggregation F S) (s : Kept a) (x : Input a) (xs : List (Input a))
      → summary a (summary a s (x ∷ [])) xs ≡ summary a s (x ∷ xs)
  summary-cons count_aggregation s x xs = refl
  summary-cons (basic_aggregation column agg_type name t v) s x xs = refl
  summary-cons (pct_aggregation column name scale) s x xs = absurd x

  head_input :
      (a : Aggregation F S) (r : B.Buffer) (rs : List B.Buffer) (xs : List (Input a))
      → Inputs B (type_ids g.schema) a (r ∷ rs) xs
      → (x : Input a) × (ys : List (Input a)) × (xs ≡ x ∷ ys)
        × (input B (type_ids g.schema) a r ≡ some x)
        × Inputs B (type_ids g.schema) a rs ys
  head_input a r rs [] h = absurd h
  head_input a r rs (x ∷ xs) h = (x, xs, refl, h.0, h.1)

  reduce_all_from :
      (rs : List B.Buffer) (st : B.Buffer)
      → IsOpen
      → AreReadable rs
      → ((k : ℕ) (a : Aggregation F S)
          → get_elem? g.agg_operators k ≡ some a
          → (s : Kept a) × HoldsAt B (type_ids g.val_schema) st k (cell a s))
      → (b : B.Buffer) × (reduce_all B as_f64 g (some st) rs ≡ ok (some b))
        × ((k : ℕ) (a : Aggregation F S) (s : Kept a) (xs : List (Input a))
            → get_elem? g.agg_operators k ≡ some a
            → HoldsAt B (type_ids g.val_schema) st k (cell a s)
            → Inputs B (type_ids g.schema) a rs xs
            → HoldsAt B (type_ids g.val_schema) b k (cell a (summary a s xs)))
  unfolding reduce_all
  reduce_all_from [] st opened readable held =
      (st, refl, λ k a s xs at now none_left. nothing_read k a s xs now none_left)
    where
      nothing_read :
          (k : ℕ) (a : Aggregation F S) (s : Kept a) (xs : List (Input a))
          → HoldsAt B (type_ids g.val_schema) st k (cell a s)
          → Inputs B (type_ids g.schema) a [] xs
          → HoldsAt B (type_ids g.val_schema) st k (cell a (summary a s xs))
      nothing_read k a s [] now h = now
      nothing_read k a s (x ∷ xs) now h = absurd h
  reduce_all_from (r ∷ rs) st opened readable held =
      let ts : List DataType = type_ids g.val_schema in
      let (b, done, holds) = reduce-total (some st) r opened (λ k a at.
        let (xs, read_all) = readable k a at in
        let (x, ys, split, read, left) = head_input a r rs xs read_all in
        let (s, now) = held k a at in
        (
          cell a (summary a s (x ∷ [])),
          reduce_value-next B as_f64 ts (type_ids g.schema) a k st r s x now read,
        )) in
      let next =
        λ (k : ℕ) (a : Aggregation F S) (s : Kept a) (x : Input a)
            (at : get_elem? g.agg_operators k ≡ some a) (now : HoldsAt B ts st k (cell a s))
            (read : input B (type_ids g.schema) a r ≡ some x).
          holds k a (cell a (summary a s (x ∷ []))) at
            (reduce_value-next B as_f64 ts (type_ids g.schema) a k st r s x now read) in
      let (c, finished, final) =
        reduce_all_from rs b opened
          (λ k a at.
            let (xs, read_all) = readable k a at in
            let (x, ys, split, read, left) = head_input a r rs xs read_all in (ys, left))
          (λ k a at.
            let (xs, read_all) = readable k a at in
            let (x, ys, split, read, left) = head_input a r rs xs read_all in
            let (s, now) = held k a at in (summary a s (x ∷ []), next k a s x at now read)) in
      (
        c,
        ap (λ o. o >>= λ d. reduce_all B as_f64 g (some d) rs) done ∙ finished,
        λ k a s xs at now read_all.
            let (x, ys, split, read, left) = head_input a r rs xs read_all in
            subst (λ zs. HoldsAt B ts c k (cell a (summary a s zs))) (sym split)
              (subst (λ z. HoldsAt B ts c k (cell a z)) (summary-cons a s x ys)
                (final k a (summary a s (x ∷ [])) ys at (next k a s x at now read) left)),
      )

  -- When every record has the columns that the operators read, and no operator is a percentile, the
  -- records of a window are reduced without a panic, and the buffer that is left has, at each
  -- operator's index, the summary of its column: the first value with the others folded into it, or
  -- the number of records.
  pub reduce_all-summary :
      (r : B.Buffer) (rs : List B.Buffer)
      → IsOpen
      → AreReadable (r ∷ rs)
      → (b : B.Buffer) × (reduce_all B as_f64 g none (r ∷ rs) ≡ ok (some b))
        × ((k : ℕ) (a : Aggregation F S) (x : Input a) (xs : List (Input a))
            → get_elem? g.agg_operators k ≡ some a
            → Inputs B (type_ids g.schema) a (r ∷ rs) (x ∷ xs)
            → HoldsAt B (type_ids g.val_schema) b k (cell a (summary a (first_kept a x) xs)))
  unfolding reduce_all
  reduce_all-summary r rs opened readable =
      let ts : List DataType = type_ids g.val_schema in
      let (b, done, holds) = reduce-total none r opened (λ k a at.
        let (xs, read_all) = readable k a at in
        let (x, ys, split, read, left) = head_input a r rs xs read_all in
        (
          cell a (first_kept a x),
          reduce_value-first B as_f64 ts (type_ids g.schema) a k r x read,
        )) in
      let (c, finished, final) =
        reduce_all_from rs b opened
          (λ k a at.
            let (xs, read_all) = readable k a at in
            let (x, ys, split, read, left) = head_input a r rs xs read_all in (ys, left))
          (λ k a at.
            let (xs, read_all) = readable k a at in
            let (x, ys, split, read, left) = head_input a r rs xs read_all in
            (
              first_kept a x,
              holds k a (cell a (first_kept a x)) at
                  (reduce_value-first B as_f64 ts (type_ids g.schema) a k r x read),
            )) in
      (
        c,
        ap (λ o. o >>= λ d. reduce_all B as_f64 g (some d) rs) done ∙ finished,
        λ k a x xs at read_all.
            final k a (first_kept a x) xs at
              (holds k a (cell a (first_kept a x)) at
                (reduce_value-first B as_f64 ts (type_ids g.schema) a k r x read_all.0))
              read_all.1,
      )
