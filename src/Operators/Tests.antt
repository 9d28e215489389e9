-- ===== src/Operators/Tests.antt =====
-- Three partitions.
use rlink_rs.Prelude.{ℕ, ◌%◌, ◌≡◌, refl, none, [], ◌∷◌, ltb}
use rlink_rs.Core.{Element, Record, data_record, watermark, new_watermark, default_channel_key}
use rlink_rs.Operators.{write_element, run_filter, run_sink, system}

abbrev row : ℕ → Record ℕ
row n = record {
  partition_num = 0;
  timestamp = n;
  channel_key = default_channel_key;
  location_windows = none;
  trigger_window = none;
  values = n % 10;
}

abbrev value : Record ℕ → ℕ
value r = r.values

abbrev mark : Element ℕ
mark = watermark (new_watermark 9)

filter_drops : run_filter (λ r. (r, ltb 7 r.values)) (data_record (row 5)) ≡ []
unfolding run_filter
filter_drops = refl

record_is_written_once :
    run_sink system 3 (data_record (row 5)) ≡ write_element (data_record (row 5)) ∷ []
unfolding run_sink
record_is_written_once = refl
