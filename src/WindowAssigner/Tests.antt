-- ===== src/WindowAssigner/Tests.antt =====
-- Windows of a minute, each behind the other.
use rlink_rs.Prelude.{ℕ, ◌≡◌, ◌≢◌, refl, none, some, List, [], ◌∷◌, arith}
use rlink_rs.Prelude.Int.{pos}
use rlink_rs.Core.{
  Record, Watermark, Window, data_record, watermark, new_watermark, default_channel_key,
}
use rlink_rs.Window.{SlidingEventTimeWindows}
use rlink_rs.Window.Assign.{IsConfigured}
use rlink_rs.WindowAssigner.{run, run_next, set_record_windows}
use rlink_rs.WindowAssigner.Feeds.{record-IsAssigned, watermark_accepted, watermark_gap_panics}
use rlink_rs.WindowReduce.{new as new_function}
use rlink_rs.Reduce.{new as new_reducer, run as run_reduce}
use rlink_rs.Reduce.Live.{IsAssigned}

abbrev minutes : SlidingEventTimeWindows
minutes = record { size = 60000; slide = 60000; offset = pos 0 }

minutes-IsConfigured : IsConfigured minutes
minutes-IsConfigured = omega arith

abbrev row : Record (List ℕ)
row = record {
  partition_num = 0;
  timestamp = 90000;
  channel_key = default_channel_key;
  location_windows = none;
  trigger_window = none;
  values = [];
}

record-IsAssigned_example :
    (ws : List Window) × (run minutes (data_record row)
      ≡ some (run_next (data_record (set_record_windows row ws)) ∷ []))
    × IsAssigned (set_record_windows row ws)
record-IsAssigned_example = record-IsAssigned minutes row minutes-IsConfigured (omega arith)

watermark_accepted_example :
    (w' : Watermark) × (run {B = List ℕ} minutes (watermark (new_watermark 90000))
      ≡ some (run_next (watermark w') ∷ []))
    × (run_reduce (λ b. b) [] none (λ old r. (r, r)) (new_reducer new_function) (watermark w')
        ≢ none)
watermark_accepted_example =
    watermark_accepted minutes (new_watermark 90000) (λ b. b) [] none (λ old r. (r, r))
      (new_reducer new_function) minutes-IsConfigured (omega arith) (omega arith)

abbrev gaps : SlidingEventTimeWindows
gaps = record { size = 5; slide = 20; offset = pos 0 }

watermark_gap_panics_example :
    (w' : Watermark) × (run {B = List ℕ} gaps (watermark (new_watermark 27))
      ≡ some (run_next (watermark w') ∷ []))
    × (run_reduce (λ b. b) [] none (λ old r. (r, r)) (new_reducer new_function) (watermark w')
        ≡ none)
watermark_gap_panics_example =
    watermark_gap_panics gaps (new_watermark 27) (λ b. b) [] none (λ old r. (r, r))
      (new_reducer new_function) (omega arith) (omega arith) refl (omega arith)
