-- ===== src/Watermarks/Tests.antt =====
-- Runs of the watermark manager: the two parent jobs of the repository's own unit test.
use rlink_rs.Prelude.{ℕ, ◌≡◌, refl, true, Option, none, some, [], ◌∷◌}
use rlink_rs.Core.{
  ChannelKey, Watermark, default_task_id, new_watermark, new_stream_status, idle_watermark,
}
use rlink_rs.Watermarks.{
  ParentWatermark, WatermarkManager, new, apply, min_watermark, watermark_job_check,
}
use rlink_rs.Watermarks.Minimum.{AllAtLeast, ReportsIn, min_watermark_least}

abbrev key : ℕ → ℕ → ChannelKey
key job task = record {
  source_task_id = record { job_id = job; task_number = task; num_tasks = 2 };
  target_task_id = default_task_id;
}

abbrev from : ℕ → ℕ → ℕ → Watermark
from job task t = record (new_watermark t) { channel_key = key job task }

abbrev parent : Option Watermark → ParentWatermark
parent w = record { latest_watermark = w; is_dependency = true }

abbrev one_reported : WatermarkManager
one_reported = record {
  reached_watermarks = (1, parent (some (from 1 0 10)) ∷ parent none ∷ []) ∷ [];
}

abbrev both_reported : WatermarkManager
both_reported = record {
  reached_watermarks = (1, parent (some (from 1 0 10)) ∷ parent (some (from 1 1 9)) ∷ []) ∷ [];
}

-- `watermark_manager_test`
first_call :
    apply (new ((1, true ∷ true ∷ []) ∷ (2, true ∷ true ∷ true ∷ []) ∷ [])) (from 1 0 10)
    ≡ some (
      record {
        reached_watermarks =
            (1, parent (some (from 1 0 10)) ∷ parent none ∷ [])
            ∷ (2, parent none ∷ parent none ∷ parent none ∷ [])
            ∷ [];
      },
      none,
    )
unfolding apply new
first_call = refl

job_check :
    watermark_job_check
      (record {
        reached_watermarks =
            (1, parent (some (from 1 0 10)) ∷ parent none ∷ []) ∷ (2, parent none ∷ []) ∷ [];
      })
      (record (new_stream_status 20 true) { channel_key = key 2 0 })
    ≡ some one_reported
unfolding watermark_job_check
job_check = refl

last_call : apply one_reported (from 1 1 9) ≡ some (both_reported, some (from 1 1 9))
unfolding apply
last_call = refl

min_watermark_least_example :
    AllAtLeast 9 both_reported.reached_watermarks
    × ReportsIn (from 1 1 9) both_reported.reached_watermarks
unfolding min_watermark
min_watermark_least_example = min_watermark_least both_reported (from 1 1 9) refl

abbrev idle_parent : WatermarkManager
idle_parent = record { reached_watermarks = (1, parent (some (from 1 0 idle_watermark)) ∷ []) ∷ [] }
