-- ===== src/Percentile.antt =====
-- The percentile sketch of rlink/src/functions/percentile/mod.rs. Here is the bucket of a value:
-- `position_in_value_array` and `search` of PercentileWriter. An f64 that is no NaN is its place in
-- the order of those numbers; an index out of bounds is a panic; and the loop of `search` is
-- recursion on fuel.
pub mod Bucket
pub mod Counters
pub mod Encoding
pub mod Belongs
pub mod Histogram
pub mod Results
pub mod Merge
mod Tests
use rlink_rs.Prelude.{
  ℕ, zero, suc, ◌+◌, ◌-◌, ◌/◌, Bool, true, false, Option, none, some, List, [], ◌∷◌, length,
  get_elem?, ltb, leb, ◌==◌, Outcome, ok, err, panic, ◌>>=◌, unwrap,
}

pub data Fuel : Type 0 where
  out_of_fuel : Fuel

abbrev pub value_at : List ℕ → ℕ → Outcome Fuel ℕ
value_at nums k = unwrap (get_elem? nums k)

abbrev pub found_or : Bool → ℕ → Outcome Fuel (Option ℕ) → Outcome Fuel (Option ℕ)
found_or true k rest = ok (some k)
found_or false k rest = rest

-- The tests of a round that turns right, or left, around its middle
abbrev pub turn_right : List ℕ → ℕ → ℕ → Outcome Fuel (Option ℕ) → Outcome Fuel (Option ℕ)
turn_right nums target mid rest =
    value_at nums (mid + 1) >>= λ next. found_or (ltb target next) (mid + 1) rest

abbrev pub turn_left : List ℕ → ℕ → ℕ → Outcome Fuel (Option ℕ) → Outcome Fuel (Option ℕ)
turn_left nums target zero rest = ok (some 0)
turn_left nums target (suc before) rest =
    value_at nums before >>= λ previous. found_or (ltb previous target) (suc before) rest

-- A round, by the tests of its middle for equality and for less
abbrev pub turn :
    Bool
    → Bool
    → List ℕ
    → ℕ
    → ℕ
    → Outcome Fuel (Option ℕ)
    → Outcome Fuel (Option ℕ)
    → Outcome Fuel (Option ℕ)
turn true less nums target mid right left = ok (some mid)
turn false true nums target mid right left = turn_right nums target mid right
turn false false nums target mid right left = turn_left nums target mid left

-- The loop of `search`
unfoldable pub search_from : ℕ → List ℕ → ℕ → ℕ → ℕ → Outcome Fuel (Option ℕ)
search_from zero nums target i j = err out_of_fuel
search_from (suc fuel) nums target i j = elim (ltb i j) [
  | false ↦ ok none
  | true ↦
      let mid = (i + j) / 2 in
      value_at nums mid >>= λ mid_value.
      turn (mid_value == target) (ltb mid_value target) nums target mid
        (search_from fuel nums target (mid + 1) j) (search_from fuel nums target i mid)
]

-- `search`
unfoldable pub search_bucket : List ℕ → ℕ → Outcome Fuel (Option ℕ)
unfolding search_from
search_bucket nums target = search_from (length nums + 1) nums target 0 (length nums)

-- `position_in_value_array`; an empty scale is an index out of bounds.
unfoldable pub position_in_value_array : List ℕ → ℕ → Outcome Fuel (Option ℕ)
unfolding search_bucket
position_in_value_array scale val = value_at scale (length scale - 1) >>= λ last.
    value_at scale 0 >>= λ first.
    found_or (leb last val) (length scale - 1)
      (found_or (leb val first) 0 (search_bucket scale val))
