-- ===== src/WindowAssigner.antt =====
-- `WindowAssignerRunnable` of rlink/src/runtime/worker/runnable/window_assigner_runnable.rs, with the
-- sliding windows of Window. `none` is that the loop of `assign_windows` ran out of fuel.
pub mod Feeds
mod Tests
use rlink_rs.Prelude.{ℕ, Option, none, some, List, [], ◌∷◌}
use rlink_rs.Core.{
  Record, Watermark, Window, Element, data_record, watermark, stream_status, barrier,
}
use rlink_rs.Window.{SlidingEventTimeWindows, assign_windows}

pub data Output (B : Type 0) : Type 0 where
  run_next : Element B → Output B
  submit_checkpoint : ℕ → Output B

-- `Record::set_location_windows` and `Watermark::set_location_windows`
abbrev pub set_record_windows : {B : Type 0} → Record B → List Window → Record B
set_record_windows r ws = record r { location_windows = some ws }

abbrev pub set_watermark_windows : Watermark → List Window → Watermark
set_watermark_windows w ws = record w { location_windows = some ws }

-- `run`, which keeps no state
unfoldable pub run : {B : Type 0} → SlidingEventTimeWindows → Element B → Option (List (Output B))
unfolding assign_windows
run windows (data_record r) = elim (assign_windows windows r.timestamp) [
  | none ↦ none
  | some ws ↦ some (run_next (data_record (set_record_windows r ws)) ∷ [])
]
run windows (watermark w) = elim (assign_windows windows w.timestamp) [
  | none ↦ none
  | some ws ↦ some (run_next (watermark (set_watermark_windows w ws)) ∷ [])
]
run windows (barrier b) = some (submit_checkpoint b.checkpoint_id ∷ run_next (barrier b) ∷ [])
run windows (stream_status st) = some (run_next (stream_status st) ∷ [])
