-- ===== src/Assigner/Bounded.antt =====
-- A watermark assigner over `BoundedOutOfOrdernessWatermarks`, over a whole input.
use rlink_rs.Prelude.{ℕ, ◌+◌, ◌≤◌, ◌≡◌, refl, ◌⊎◌, Bool, List, [], ◌∷◌, arith, ltb, if◌then◌else◌}
use rlink_rs.Core.{Record, Element, data_record, watermark, stream_status, barrier}
use rlink_rs.Generator.{bounded_out_of_orderness, bounded_emit}
use rlink_rs.Generator.Bounded.{bounded_emit_lower, bounded_emit_mono}
use rlink_rs.Assigner.{WatermarkAssigner, run_next, new, run_record, run_status, run}

module _ {B : Type 0} (extract_timestamp : Record B → ℕ) where
  abbrev pub after : ℕ → Element B → ℕ
  after m (data_record r) = if ltb m (extract_timestamp r) then extract_timestamp r else m
  after m (watermark w) = m
  after m (stream_status st) = m
  after m (barrier b) = m

  -- The newest event time among the records of an input.
  abbrev pub newest : ℕ → List (ℕ × Element B) → ℕ
  newest m [] = m
  newest m ((now, e) ∷ es) = newest (after m e) es

  -- The runnable after an input, each element with the clock at which it is run.
  unfoldable pub run_all : WatermarkAssigner → List (ℕ × Element B) → WatermarkAssigner
  run_all s [] = s
  run_all s ((now, e) ∷ es) = run_all (run extract_timestamp now s e).0 es

  -- The generator has seen `m`, and progress is at most what it would emit now.
  pub record Trails (delay m : ℕ) (s : WatermarkAssigner) : Type 0 where
    pub generator : s.watermark_generator ≡ bounded_out_of_orderness m delay
    pub progress : s.watermark ≤ bounded_emit m delay

  -- A record: the generator sees it in any case, and progress stays.
  run_record_bounded :
      (delay m now : ℕ) (s : WatermarkAssigner) (r : Record B)
      → s.watermark_generator ≡ bounded_out_of_orderness m delay
      → ((run_record extract_timestamp now s r).0.watermark_generator
          ≡ bounded_out_of_orderness
              (if ltb m (extract_timestamp r) then extract_timestamp r else m)
              delay)
        × ((run_record extract_timestamp now s r).0.watermark ≡ s.watermark)
        × ((run_record extract_timestamp now s r).1 ≡ (
            if ltb (extract_timestamp r) s.watermark
            then []
            else run_next (data_record (record r { timestamp = extract_timestamp r })) ∷ []))
  unfolding run_record
  run_record_bounded delay m now s r e = ground (arith, e)

  run_status_bounded :
      (delay m now : ℕ) (s : WatermarkAssigner) (end : Bool) (e : Element B)
      → s.watermark_generator ≡ bounded_out_of_orderness m delay
      → ((run_status extract_timestamp now s end e).0.watermark_generator
          ≡ bounded_out_of_orderness m delay)
        × (((run_status extract_timestamp now s end e).0.watermark ≡ s.watermark)
            ⊎ ((run_status extract_timestamp now s end e).0.watermark ≡ bounded_emit m delay))
  unfolding run_status
  run_status_bounded delay m now s end e h = ground (arith, h)

  run-Trails :
      (delay m now : ℕ) (s : WatermarkAssigner) (e : Element B)
      → Trails delay m s
      → Trails delay (after m e) (run extract_timestamp now s e).0
        × (s.watermark ≤ (run extract_timestamp now s e).0.watermark)
  unfolding run
  run-Trails delay m now s (data_record r) h =
      let (g, w, out) = run_record_bounded delay m now s r h.generator in
      (
        record {
          generator = g;
          progress = omega (
            arith,
            w,
            h.progress,
            bounded_emit_mono m (if ltb m (extract_timestamp r) then extract_timestamp r else m)
                delay (ground arith),
          );
        },
        omega (arith, w),
      )
  run-Trails delay m now s (stream_status st) h =
      let (g, w) = run_status_bounded delay m now s st.end (stream_status st) h.generator in
      (
        record { generator = g; progress = omega (arith, w, h.progress) },
        omega (arith, w, h.progress),
      )
  run-Trails delay m now s (barrier b) h = (h, omega arith)
  run-Trails delay m now s (watermark w) h = (h, omega arith)

  run_all-Trails :
      (delay m : ℕ) (s : WatermarkAssigner) (es : List (ℕ × Element B))
      → Trails delay m s
      → Trails delay (newest m es) (run_all s es) × (s.watermark ≤ (run_all s es).watermark)
  unfolding run_all
  run_all-Trails delay m s [] h = (h, omega arith)
  run_all-Trails delay m s ((now, e) ∷ es) h =
      let (here, up) = run-Trails delay m now s e h in
      let (there, later) =
        run_all-Trails delay (after m e) (run extract_timestamp now s e).0 es here in
      (there, omega (arith, up, later))

  new-Trails : (delay : ℕ) → Trails delay 0 (new (bounded_out_of_orderness 0 delay))
  new-Trails delay = record { generator = refl; progress = omega arith }

  -- Over any input progress never goes back.
  pub progress_mono :
      (delay : ℕ) (es fs : List (ℕ × Element B))
      → (run_all (new (bounded_out_of_orderness 0 delay)) es).watermark
        ≤ (run_all (run_all (new (bounded_out_of_orderness 0 delay)) es) fs).watermark
  progress_mono delay es fs =
      (run_all-Trails delay (newest 0 es) (run_all (new (bounded_out_of_orderness 0 delay)) es) fs
        (run_all-Trails delay 0 (new (bounded_out_of_orderness 0 delay)) es (new-Trails delay)).0).1

  -- After any input, a record whose time is at most the bound behind the newest record's is sent on,
  -- stamped with its time, and nothing else is.
  pub within_bound_forwarded :
      (delay now : ℕ) (es : List (ℕ × Element B)) (r : Record B)
      → newest 0 es ≤ extract_timestamp r + delay
      → (run extract_timestamp now
          (run_all (new (bounded_out_of_orderness 0 delay)) es)
          (data_record r)).1
        ≡ run_next (data_record (record r { timestamp = extract_timestamp r })) ∷ []
  unfolding run
  within_bound_forwarded delay now es r near =
      let h =
        (run_all-Trails delay 0 (new (bounded_out_of_orderness 0 delay)) es (new-Trails delay)).0 in
      let s = run_all (new (bounded_out_of_orderness 0 delay)) es in
      let (g, w, out) = run_record_bounded delay (newest 0 es) now s r h.generator in
      ground (arith, out, h.progress, bounded_emit_lower (newest 0 es) delay)
