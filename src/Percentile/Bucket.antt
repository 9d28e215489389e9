-- ===== src/Percentile/Bucket.antt =====
-- The answer of `search` and `position_in_value_array` of functions/percentile/mod.rs.
use rlink_rs.Prelude.{
  get_elem?-bound, get_elem?-within, ℕ, zero, suc, ◌+◌, ◌-◌, ◌/◌, ◌<◌, ◌≤◌, ◌≡◌, ◌≢◌, refl, sym, ap,
  ◌∙◌, inl, inr, ◌⊎◌, true, false, Option, some, List, length, get_elem?, arith, ltb, leb, ◌==◌,
  ltb→lt, lt→ltb, leb→le, ==_iff, Bool-cases, Outcome, ok, some_injective,
}
use rlink_rs.Percentile.{
  turn_right, turn_left, search_from, search_bucket, position_in_value_array, Fuel,
}

ltb-false : (a b : ℕ) → ltb a b ≡ false → b ≤ a
ltb-false a b e = ground arith

leb-false : (a b : ℕ) → leb a b ≡ false → b ≤ a
leb-false a b e = ground arith

module _ (nums : List ℕ) (target : ℕ) where
  abbrev pub At : ℕ → ℕ → Type 0
  At k v = get_elem? nums k ≡ some v

  -- The value at the index is the target, or above it where the one before is below it.
  abbrev pub Splits : ℕ → Type 0
  Splits k =
      At k target
      ⊎ ((v : ℕ) × (u : ℕ) × (p : ℕ) × (k ≡ suc p) × At k v × At p u × (target < v) × (u < target))

  abbrev Found : Outcome Fuel (Option ℕ) → Type 0
  Found r = (k : ℕ) × (r ≡ ok (some k)) × Splits k

  same_place : (k l v u : ℕ) → At k v → At l u → k ≡ l → v ≡ u
  same_place k l v u at_k at_l e = some_injective v u (sym at_k ∙ (ap (get_elem? nums) e ∙ at_l))

  Found-by : (r s : Outcome Fuel (Option ℕ)) → r ≡ s → Found s → Found r
  Found-by r s e (k, done, splits) = (k, e ∙ done, splits)

  module _ (fuel i j m : ℕ) (lt : i < j) (at_m : At ((i + j) / 2) m) where
    step_same :
        (m == target) ≡ true → search_from (suc fuel) nums target i j ≡ ok (some ((i + j) / 2))
    unfolding search_from
    step_same e = rw (search_from, lt→ltb i j lt, at_m, e) refl

    step_right :
        (m == target) ≡ false
        → ltb m target ≡ true
        → search_from (suc fuel) nums target i j
          ≡ turn_right nums target ((i + j) / 2) (search_from fuel nums target ((i + j) / 2 + 1) j)
    unfolding search_from
    step_right e l = rw (search_from, lt→ltb i j lt, at_m, e, l) refl

    step_left :
        (m == target) ≡ false
        → ltb m target ≡ false
        → search_from (suc fuel) nums target i j
          ≡ turn_left nums target ((i + j) / 2) (search_from fuel nums target i ((i + j) / 2))
    unfolding search_from
    step_left e l = rw (search_from, lt→ltb i j lt, at_m, e, l) refl

  turn_right-Found :
      (mid m w : ℕ) (rest : Outcome Fuel (Option ℕ))
      → At mid m
      → At (mid + 1) w
      → m < target
      → (w ≤ target → Found rest)
      → Found (turn_right nums target mid rest)
  turn_right-Found mid m w rest at_m at_w below next = elim (Bool-cases (ltb target w)) [
    | inl above ↦ (
      mid + 1,
      rw (at_w, above) refl,
      inr (w, m, mid, omega arith, at_w, at_m, ltb→lt target w above, below),
    )
    | inr still ↦ Found-by _ rest (rw (at_w, still) refl) (next (ltb-false target w still))
  ]

  turn_left-Found :
      (mid m : ℕ) (rest : Outcome Fuel (Option ℕ))
      → At mid m
      → target < m
      → 0 < mid
      → ((u p : ℕ) → mid ≡ suc p → At p u → target ≤ u → Found rest)
      → Found (turn_left nums target mid rest)
  turn_left-Found zero m rest at_m above pos next = absurd (omega (arith, pos))
  turn_left-Found (suc p) m rest at_m above pos next =
      let (u, at_u) =
        get_elem?-within nums p (omega (arith, get_elem?-bound nums (suc p) m at_m)) in
      elim (Bool-cases (ltb u target)) [
        | inl below ↦ (
          suc p,
          rw (at_u, below) refl,
          inr (m, u, p, refl, at_m, at_u, above, ltb→lt u target below),
        )
        | inr still ↦
            Found-by _ rest (rw (at_u, still) refl) (next u p refl at_u (ltb-false u target still))
      ]

  search_from-Found :
      (fuel i j a b : ℕ)
      → j < fuel + i
      → i < j
      → At i a
      → At (j - 1) b
      → a ≤ target
      → target ≤ b
      → Found (search_from fuel nums target i j)
  search_from-Found zero i j a b enough lt at_i at_j low high = absurd (omega (arith, enough, lt))
  search_from-Found (suc fuel) i j a b enough lt at_i at_j low high =
      let bound = get_elem?-bound nums (j - 1) b at_j in
      let (m, at_m) = get_elem?-within nums ((i + j) / 2) (omega (arith, lt, bound)) in
      elim (Bool-cases (m == target)) [
        | inl same ↦ (
          (i + j) / 2,
          step_same fuel i j m lt at_m same,
          inl (at_m ∙ ap some ((==_iff m target).0 same)),
        )
        | inr other ↦ elim (Bool-cases (ltb m target)) [
          | inl below ↦
              let less = ltb→lt m target below in
              let inside : (i + j) / 2 ≢ j - 1 =
                λ e. omega (arith, same_place ((i + j) / 2) (j - 1) m b at_m at_j e, less, high) in
              let (w, at_w) =
                get_elem?-within nums ((i + j) / 2 + 1) (omega (arith, lt, bound, inside)) in
              Found-by _ _ (step_right fuel i j m lt at_m other below) (
                turn_right-Found ((i + j) / 2) m w _ at_m at_w less (λ low'.
                  search_from-Found fuel ((i + j) / 2 + 1) j w b (omega (arith, enough, lt))
                    (omega (arith, lt, inside)) at_w at_j low' high))
          | inr not_below ↦
              let apart : m ≢ target = λ e. cc (other, (==_iff m target).1 e) in
              let above : target < m = omega (arith, ltb-false m target not_below, apart) in
              let inside : (i + j) / 2 ≢ i =
                λ e. omega (arith, same_place ((i + j) / 2) i m a at_m at_i e, above, low) in
              Found-by _ _ (step_left fuel i j m lt at_m other not_below) (
                turn_left-Found ((i + j) / 2) m _ at_m above (omega (arith, lt, inside))
                  (λ u p e at_u high'.
                    search_from-Found fuel i ((i + j) / 2) a u (omega (arith, enough, lt))
                      (omega (arith, lt, inside)) at_i
                      (ap (get_elem? nums) (omega (arith, e)) ∙ at_u) low high'))
        ]
      ]

  -- Between the least and the largest boundary `search` ends with an index, that of the target or of a
  -- boundary above it whose predecessor is below it; on a scale in order, it is the target's bucket.
  pub search_bucket-Splits :
      (a b : ℕ)
      → At 0 a
      → At (length nums - 1) b
      → a ≤ target
      → target ≤ b
      → (k : ℕ) × (search_bucket nums target ≡ ok (some k)) × Splits k
  unfolding search_bucket
  search_bucket-Splits a b at_0 at_last low high =
      search_from-Found (length nums + 1) 0 (length nums) a b (omega arith)
        (get_elem?-bound nums 0 a at_0) at_0 at_last low high

  -- The boundaries go up.
  abbrev pub IsScale : Type 0
  IsScale = (p q u v : ℕ) → p < q → At p u → At q v → u < v

  -- The first boundary that is at least the target, or the last one
  abbrev pub IsBucket : ℕ → Type 0
  IsBucket k =
      (v : ℕ) × At k v
      × ((target ≤ v) ⊎ (k ≡ length nums - 1))
      × ((p u : ℕ) → p < k → At p u → u < target)

  Splits-IsBucket : (k : ℕ) → IsScale → Splits k → IsBucket k
  Splits-IsBucket k up (inl at) =
      (target, at, inl (omega arith), λ p u lt at_p. up p k u target lt at_p at)
  Splits-IsBucket k up (inr (v, u, q, e, at_v, at_u, above, below)) =
      (v, at_v, inl (omega (arith, above)), before)
    where
      before : (p w : ℕ) → p < k → At p w → w < target
      before p w lt at_p = elim (Bool-cases (p == q)) [
        | inl same ↦ omega (arith, same_place p q w u at_p at_u ((==_iff p q).0 same), below)
        | inr other ↦
            let apart : p ≢ q = λ h. cc (other, (==_iff p q).1 h) in
            omega (arith, up p q w u (omega (arith, lt, e, apart)) at_p at_u, below)
      ]

  -- On a scale with at least one boundary, `position_in_value_array` ends with the bucket of the value:
  -- the first boundary that is at least the value, or the last boundary for the values above all.
  pub position_in_value_array-IsBucket :
      0 < length nums
      → IsScale
      → (k : ℕ) × (position_in_value_array nums target ≡ ok (some k)) × IsBucket k
  unfolding position_in_value_array
  position_in_value_array-IsBucket pos up =
      let (a, at_0) = get_elem?-within nums 0 pos in
      let (b, at_last) = get_elem?-within nums (length nums - 1) (omega (arith, pos)) in
      elim (Bool-cases (leb b target)) [
        | inl above ↦ (
          length nums - 1,
          rw (at_last, at_0, above) refl,
          (
            b,
            at_last,
            inr refl,
            λ p u lt at_p.
                omega (arith, up p (length nums - 1) u b lt at_p at_last, leb→le b target above),
          ),
        )
        | inr inside ↦ elim (Bool-cases (leb target a)) [
          | inl below ↦ (
            0,
            rw (at_last, at_0, inside, below) refl,
            (a, at_0, inl (leb→le target a below), λ p u lt at_p. absurd (omega (arith, lt))),
          )
          | inr between ↦
              let (k, done, splits) =
                search_bucket-Splits a b at_0 at_last (leb-false target a between)
                  (leb-false b target inside) in
              (k, rw (at_last, at_0, inside, between) done, Splits-IsBucket k up splits)
        ]
      ]
