-- ===== src/Percentile/Tests.antt =====
-- A scale of three boundaries.
use rlink_rs.Prelude.{
  ℕ, zero, suc, ◌+◌, ◌*◌, ◌≡◌, refl, some, List, [], ◌∷◌, get_elem?, arith, ok, some_injective, sym,
}
use rlink_rs.Percentile.Counters.{get_percentile_capacity, zeros, accumulate_all, merge}
use rlink_rs.Percentile.Encoding.{encode}
use rlink_rs.Percentile.Histogram.{IsHistogram, accumulate_all-IsHistogram}
use rlink_rs.Percentile.Merge.{merge-encode}
use rlink_rs.Percentile.{search_from, search_bucket, position_in_value_array}
use rlink_rs.Percentile.Bucket.{IsScale}

abbrev scale : List ℕ
scale = 10 ∷ 20 ∷ 30 ∷ []

abbrev value : ℕ
value = 15

position : position_in_value_array scale value ≡ ok (some 1)
unfolding position_in_value_array search_bucket search_from
position = refl

boundary : (p u : ℕ) → get_elem? scale p ≡ some u → u ≡ 10 * p + 10
boundary zero u e = sym (some_injective 10 u e)
boundary (suc zero) u e = sym (some_injective 20 u e)
boundary (suc (suc zero)) u e = sym (some_injective 30 u e)
boundary (suc (suc (suc p))) u e = absurd (cc e)

scale-IsScale : IsScale scale value
scale-IsScale p q u v lt at_p at_q = omega (arith, boundary p u at_p, boundary q v at_q, lt)

scale-IsScale_0 : IsScale scale 0
scale-IsScale_0 p q u v lt at_p at_q = omega (arith, boundary p u at_p, boundary q v at_q, lt)

abbrev values : List ℕ
values = 15 ∷ 5 ∷ 99 ∷ 20 ∷ []

accumulate_all-IsHistogram_example :
    (c : List ℕ) × (accumulate_all scale (zeros (get_percentile_capacity scale)) values ≡ ok c)
    × IsHistogram scale values c
accumulate_all-IsHistogram_example =
    accumulate_all-IsHistogram scale values (omega arith) scale-IsScale_0 (omega arith)

abbrev counted : List ℕ
counted = encode (1 ∷ 2 ∷ 1 ∷ 4 ∷ [])

values_counted : accumulate_all scale (zeros (get_percentile_capacity scale)) values ≡ ok counted
unfolding accumulate_all get_percentile_capacity position_in_value_array search_bucket search_from
values_counted = refl

-- 200 and 100 values of a bucket are merged to 44.
merge-encode_example :
    merge (encode (200 ∷ 200 ∷ [])) (encode (100 ∷ 100 ∷ [])) ≡ ok (encode (44 ∷ 44 ∷ []))
merge-encode_example =
    merge-encode (200 ∷ 200 ∷ []) (100 ∷ 100 ∷ []) refl (omega arith, (omega arith, tt))
      (omega arith, (omega arith, tt))
