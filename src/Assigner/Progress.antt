-- ===== src/Assigner/Progress.antt =====
-- What a step of a watermark assigner sends on, against its progress.
use rlink_rs.Prelude.{ℕ, ◌≤◌, ◌≡◌, refl, Bool, true, false, Option, none, some, arith, All, ltb}
use rlink_rs.Core.{Record, Element, data_record, watermark, stream_status, barrier, max_watermark}
use rlink_rs.Generator.{on_event, on_periodic_emit}
use rlink_rs.Assigner.{
  WatermarkAssigner, Output, run_next, or_min, update_watermark_progress, forward_record,
  run_record, run_status, run,
}

module _ {B : Type 0} (extract_timestamp : Record B → ℕ) (now : ℕ) where
  -- No watermark and no record that goes on is out of bounds.
  abbrev pub InBounds : ℕ → Output B → Type 0
  InBounds low (run_next (watermark w)) = w.timestamp ≤ max_watermark
  InBounds low (run_next (data_record r)) = low ≤ r.timestamp
  InBounds low _ = Unit

  -- The input is no watermark, which only assigners make.
  abbrev pub IsInput : Element B → Type 0
  IsInput (watermark w) = ⊥
  IsInput _ = Unit

  update-le-max :
      (s : WatermarkAssigner) (w : ℕ)
      → s.watermark ≤ max_watermark
      → (update_watermark_progress s w).watermark ≤ max_watermark
  unfolding update_watermark_progress
  update-le-max s w h = ground arith

  forward_record-InBounds :
      (s : WatermarkAssigner) (r : Record B) (w : Option ℕ)
      → s.watermark ≤ max_watermark
      → s.watermark ≤ r.timestamp
      → All (InBounds s.watermark) (forward_record extract_timestamp now s r w).1
        × ((forward_record extract_timestamp now s r w).0.watermark ≤ max_watermark)
  unfolding forward_record
  forward_record-InBounds s r none h le = ((le, tt), h)
  forward_record-InBounds s r (some w) h le = ((le, (update-le-max s w h, tt)), update-le-max s w h)

  late_or_forwarded :
      (s : WatermarkAssigner) (r : Record B) (late : Bool)
      → ltb (extract_timestamp r) s.watermark ≡ late
      → s.watermark ≤ max_watermark
      → All (InBounds s.watermark) (run_record extract_timestamp now s r).1
        × ((run_record extract_timestamp now s r).0.watermark ≤ max_watermark)
  unfolding run_record
  late_or_forwarded s r true e h = rw (e, run_record) (tt, h)
  late_or_forwarded s r false e h =
      let (g, w) = on_event now (extract_timestamp r) s.watermark_generator in
      rw (e, run_record)
        (forward_record-InBounds (record s { watermark_generator = g })
          (record r { timestamp = extract_timestamp r }) w h (ground arith))

  status-InBounds :
      (s : WatermarkAssigner) (end : Bool) (e : Element B)
      → s.watermark ≤ max_watermark
      → InBounds s.watermark (run_next e)
      → All (InBounds s.watermark) (run_status extract_timestamp now s end e).1
        × ((run_status extract_timestamp now s end e).0.watermark ≤ max_watermark)
  unfolding run_status
  status-InBounds s true e h i = ((omega arith, (i, tt)), h)
  status-InBounds s false e h i =
      let (g, w) = on_periodic_emit now s.watermark_generator in
      let low = update-le-max (record s { watermark_generator = g }) (or_min w) h in
      ((low, (i, tt)), low)

  -- From progress of at most `MAX_WATERMARK`, a step on an element that is no watermark sends on only
  -- watermarks of at most that, the idle watermark never, and only records that are not behind the
  -- progress; and the progress stays at most `MAX_WATERMARK`.
  pub run-InBounds :
      (s : WatermarkAssigner) (e : Element B)
      → s.watermark ≤ max_watermark
      → IsInput e
      → All (InBounds s.watermark) (run extract_timestamp now s e).1
        × ((run extract_timestamp now s e).0.watermark ≤ max_watermark)
  unfolding run
  run-InBounds s (data_record r) h i =
      late_or_forwarded s r (ltb (extract_timestamp r) s.watermark) refl h
  run-InBounds s (stream_status st) h i = status-InBounds s st.end (stream_status st) h tt
  run-InBounds s (barrier b) h i = ((tt, (tt, tt)), h)
  run-InBounds s (watermark w) h i = absurd i
