-- ===== src/Assigner.antt =====
-- `WatermarkAssignerRunnable` of rlink/src/runtime/worker/runnable/watermark_assigner_runnable.rs.
-- What it hands to the next runnable and to the checkpoint channel is a list of outputs. The
-- timestamp assigner is an argument, a function of the record; the metrics and the log are left out.
pub mod Progress
pub mod Bounded
mod Tests
use rlink_rs.Prelude.{
  ℕ, ◌+◌, Bool, true, false, Option, none, some, List, [], ◌∷◌, ltb, if◌then◌else◌,
}
use rlink_rs.Core.{
  Record, Element, data_record, watermark, stream_status, barrier, new_watermark, min_watermark,
  max_watermark,
}
use rlink_rs.Generator.{WatermarkGenerator, on_event, on_periodic_emit}

pub data Output (B : Type 0) : Type 0 where
  run_next : Element B → Output B
  submit_checkpoint : ℕ → Output B

pub record WatermarkAssigner : Type 0 where
  pub watermark_generator : WatermarkGenerator
  pub watermark : ℕ
  pub expire_counter : ℕ

-- `WatermarkAssignerRunnable::new`
abbrev pub new : WatermarkGenerator → WatermarkAssigner
new g = record { watermark_generator = g; watermark = min_watermark; expire_counter = 0 }

-- `update_watermark_progress`
unfoldable pub update_watermark_progress : WatermarkAssigner → ℕ → WatermarkAssigner
update_watermark_progress s w = if ltb max_watermark w then s else record s { watermark = w }

abbrev pub or_min : Option ℕ → ℕ
or_min none = min_watermark
or_min (some w) = w

-- The watermark that `run` sends on, from the runnable's own progress.
abbrev pub send_watermark : {B : Type 0} → WatermarkAssigner → Output B
send_watermark s = run_next (watermark (new_watermark s.watermark))

module _ {B : Type 0} (extract_timestamp : Record B → ℕ) (now : ℕ) where
  -- The branch of `run` on a record that is not late.
  unfoldable pub forward_record :
      WatermarkAssigner → Record B → Option ℕ → WatermarkAssigner × List (Output B)
  unfolding update_watermark_progress
  forward_record s r none = (s, run_next (data_record r) ∷ [])
  forward_record s r (some w) =
      let s' = update_watermark_progress s w in
      (s', run_next (data_record r) ∷ send_watermark s' ∷ [])

  -- `run` on a record. A late one is counted and dropped; the generator has seen it all the same.
  unfoldable pub run_record : WatermarkAssigner → Record B → WatermarkAssigner × List (Output B)
  unfolding on_event forward_record
  run_record s r =
      let timestamp = extract_timestamp r in
      let (g, w) = on_event now timestamp s.watermark_generator in
      let s' = record s { watermark_generator = g } in
      if ltb timestamp s.watermark
      then (record s' { expire_counter = s.expire_counter + 1 }, [])
      else forward_record s' (record r { timestamp = timestamp }) w

  -- `run` on a stream status, which is sent on behind the watermark.
  unfoldable pub run_status :
      WatermarkAssigner → Bool → Element B → WatermarkAssigner × List (Output B)
  unfolding update_watermark_progress on_periodic_emit
  run_status s true element =
      (s, run_next (watermark (new_watermark max_watermark)) ∷ run_next element ∷ [])
  run_status s false element =
      let (g, w) = on_periodic_emit now s.watermark_generator in
      let s' = update_watermark_progress (record s { watermark_generator = g }) (or_min w) in
      (s', send_watermark s' ∷ run_next element ∷ [])

  -- `run`
  unfoldable pub run : WatermarkAssigner → Element B → WatermarkAssigner × List (Output B)
  unfolding run_record run_status
  run s (data_record r) = run_record s r
  run s (stream_status st) = run_status s st.end (stream_status st)
  run s (barrier b) = (s, submit_checkpoint b.checkpoint_id ∷ run_next (barrier b) ∷ [])
  run s (watermark w) = (s, run_next (watermark w) ∷ [])
