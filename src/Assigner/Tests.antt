-- ===== src/Assigner/Tests.antt =====
-- Runs of the watermark assigner.
use rlink_rs.Prelude.{ℕ, ◌≤◌, ◌≡◌, refl, none, List, [], ◌∷◌, arith, All, false}
use rlink_rs.Core.{
  Record, Element, data_record, stream_status, default_channel_key, new_stream_status,
  max_watermark,
}
use rlink_rs.Generator.{bounded_out_of_orderness}
use rlink_rs.Assigner.{WatermarkAssigner, run_next, new, run}
use rlink_rs.Assigner.Progress.{InBounds, run-InBounds}
use rlink_rs.Assigner.Bounded.{run_all, within_bound_forwarded}

-- A record of which the value is its time.
abbrev at : ℕ → Record ℕ
at t = record {
  partition_num = 0;
  timestamp = 0;
  channel_key = default_channel_key;
  location_windows = none;
  trigger_window = none;
  values = t;
}

abbrev time_of : Record ℕ → ℕ
time_of r = r.values

abbrev status : Element ℕ
status = stream_status (new_stream_status 0 false)

abbrev input : List (ℕ × Element ℕ)
input = (1, data_record (at 50)) ∷ (2, status) ∷ (3, data_record (at 45)) ∷ []

abbrev start : WatermarkAssigner
start = new (bounded_out_of_orderness 0 10)

late_dropped : (run time_of 4 (run_all time_of start input) (data_record (at 30))).1 ≡ []
unfolding run run_all
late_dropped = refl

run-InBounds_example :
    All (InBounds time_of 5 39) (run time_of 5 (run_all time_of start input) status).1
    × ((run time_of 5 (run_all time_of start input) status).0.watermark ≤ max_watermark)
unfolding run run_all
run-InBounds_example = run-InBounds time_of 5 (run_all time_of start input) status (omega arith) tt

within_bound_forwarded_example :
    (run time_of 4 (run_all time_of start input) (data_record (at 40))).1
    ≡ run_next (data_record (record (at 40) { timestamp = 40 })) ∷ []
within_bound_forwarded_example = within_bound_forwarded time_of 10 4 input (at 40) (omega arith)
