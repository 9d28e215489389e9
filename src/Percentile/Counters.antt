-- ===== src/Percentile/Counters.antt =====
-- The counters of rlink/src/functions/percentile/mod.rs: eight bytes for each boundary of the scale,
-- the most significant first, and eight for the number of values. A byte is a number below 256, and
-- an index out of bounds is a panic. `share` is the product of a counter and the percentage in f64, and
-- `f64_max` the largest f64.
use rlink_rs.Prelude.{
  ℕ, zero, suc, ◌+◌, ◌-◌, ◌*◌, ◌%◌, ◌^◌, Bool, true, false, Option, none, some, List, [], ◌∷◌,
  length, ltb, leb, ◌==◌, if◌then◌else◌, Outcome, ok, panic, ◌>>=◌,
}
use rlink_rs.Wire.Bytes.{big_endian, number}
use rlink_rs.Percentile.{Fuel, value_at, position_in_value_array}

-- `get_percentile_capacity`, and the container of that many zeros
unfoldable pub get_percentile_capacity : List ℕ → ℕ
get_percentile_capacity scale = (length scale + 1) * 8

abbrev pub zeros : ℕ → List ℕ
zeros zero = []
zeros (suc n) = 0 ∷ zeros n

abbrev pub bytes_at : ℕ → List ℕ → ℕ → Outcome Fuel (List ℕ)
bytes_at zero c index = ok []
bytes_at (suc n) c index = value_at c index >>= λ b. bytes_at n c (index + 1) >>= λ bs. ok (b ∷ bs)

-- `read`, with `u64::from_be_bytes`
unfoldable pub read : List ℕ → ℕ → Outcome Fuel ℕ
read c index = bytes_at 8 c index >>= λ bs. ok (number 0 bs)

-- An assignment to an element
abbrev pub put_byte : List ℕ → ℕ → ℕ → Outcome Fuel (List ℕ)
put_byte [] index b = panic
put_byte (x ∷ xs) zero b = ok (b ∷ xs)
put_byte (x ∷ xs) (suc index) b = put_byte xs index b >>= λ ys. ok (x ∷ ys)

abbrev pub put_bytes : List ℕ → List ℕ → ℕ → Outcome Fuel (List ℕ)
put_bytes [] c index = ok c
put_bytes (b ∷ bs) c index = put_byte c index b >>= λ d. put_bytes bs d (index + 1)

-- `write`, with `u64::to_be_bytes`
unfoldable pub write : List ℕ → ℕ → ℕ → Outcome Fuel (List ℕ)
unfolding big_endian
write c index value = put_bytes (big_endian 8 value) c index

-- A counter with one more
unfoldable pub add_one : List ℕ → ℕ → Outcome Fuel (List ℕ)
unfolding read write
add_one c index = read c index >>= λ n. write c index ((n + 1) % 2 ^ 64)

-- `incr_counter`
unfoldable pub incr_counter : List ℕ → List ℕ → Outcome Fuel (List ℕ)
unfolding add_one
incr_counter scale c = add_one c (length scale * 8)

abbrev pub count_in : Option ℕ → List ℕ → Outcome Fuel (List ℕ)
unfolding add_one
count_in none c = ok c
count_in (some index) c = add_one c (index * 8)

-- `accumulate`
unfoldable pub accumulate : List ℕ → List ℕ → ℕ → Outcome Fuel (List ℕ)
unfolding incr_counter position_in_value_array add_one
accumulate scale c value =
    incr_counter scale c >>= λ d. position_in_value_array scale value >>= λ index. count_in index d

unfoldable pub accumulate_all : List ℕ → List ℕ → List ℕ → Outcome Fuel (List ℕ)
unfolding accumulate
accumulate_all scale c [] = ok c
accumulate_all scale c (v ∷ vs) = accumulate scale c v >>= λ d. accumulate_all scale d vs

-- The loop of `PercentileWriter::merge`, which adds byte by byte
unfoldable pub merge : List ℕ → List ℕ → Outcome Fuel (List ℕ)
merge [] other = ok []
merge (x ∷ xs) [] = panic
merge (x ∷ xs) (y ∷ ys) = merge xs ys >>= λ zs. ok ((x + y) % 256 ∷ zs)

-- `adjust`
unfoldable pub adjust : ℕ → ℕ → ℕ
adjust input max = if leb input 1 then 1 else if leb max input then max else input

-- A turn of the loop of `get_result`: a counter of 0 is passed by, and the loop ends at the boundary
-- where the sum reaches the position.
abbrev pub scan_turn :
    Bool → Bool → Outcome Fuel ℕ → Outcome Fuel ℕ → Outcome Fuel ℕ → Outcome Fuel ℕ
scan_turn true reached here skip next = skip
scan_turn false true here skip next = here
scan_turn false false here skip next = next

-- The loop of `get_result`, from an index down
unfoldable pub scan : ℕ → List ℕ → List ℕ → ℕ → ℕ → ℕ → Outcome Fuel ℕ
unfolding read
scan f64_max scale c pos zero scanned = ok f64_max
scan f64_max scale c pos (suc index) scanned = read c (index * 8) >>= λ n.
    scan_turn (n == 0) (leb pos ((scanned + n) % 2 ^ 64)) (value_at scale index)
      (scan f64_max scale c pos index scanned)
      (scan f64_max scale c pos index ((scanned + n) % 2 ^ 64))

-- `get_result`
unfoldable pub get_result : (ℕ → ℕ → ℕ) → ℕ → List ℕ → List ℕ → ℕ → Outcome Fuel ℕ
unfolding read adjust scan
get_result share f64_max scale c water_line =
    if ltb 100 water_line
    then panic
    else read c (length scale * 8) >>= λ counter.
        scan f64_max scale c (adjust (share counter (100 - water_line)) counter) (length scale) 0
