-- ===== src/Percentile/Results.antt =====
-- What `get_result` of rlink/src/functions/percentile/mod.rs answers from a histogram.
use rlink_rs.Prelude.{ℕ, zero, suc, ◌≤◌, ◌<◌, ◌≡◌, some, List, [], ◌∷◌, get_elem?}
use rlink_rs.Percentile.Histogram.{sum}

-- The sum of the counters from an index on
abbrev pub sum_from : ℕ → List ℕ → ℕ
sum_from zero ns = sum ns
sum_from (suc i) [] = 0
sum_from (suc i) (n ∷ ns) = sum_from i ns

-- The boundary where the sum of the counters, from the last one down, reaches the position
abbrev pub Reaches : List ℕ → List ℕ → ℕ → ℕ → Type 0
Reaches scale buckets pos v =
    (j : ℕ) × (get_elem? scale j ≡ some v)
    × (pos ≤ sum_from j buckets)
    × (sum_from (suc j) buckets < pos)
