-- ===== src/Watermarks.antt =====
-- `ParentWatermark` and `WatermarkManager` of
-- rlink/src/runtime/worker/runnable/source_runnable.rs: event time of a task is the least watermark
-- that its parent tasks have reported. The `HashMap` of parent jobs is an association list by job id;
-- the order in which Rust visits a `HashMap` is not defined, and the list's order stands for it.
pub mod Minimum
pub mod Progress
mod Tests
use rlink_rs.Prelude.{
  ℕ, ◌+◌, Bool, true, false, not, Option, none, some, List, [], ◌∷◌, ltb, leb, ◌==◌, set, get_elem?,
  length, if◌then◌else◌,
}
use rlink_rs.Core.{TaskId, ChannelKey, Watermark, StreamStatus, max_watermark}

pub record ParentWatermark : Type 0 where
  pub latest_watermark : Option Watermark
  pub is_dependency : Bool

-- `ParentWatermark::update_watermark`
unfoldable pub update_watermark : ParentWatermark → Watermark → ParentWatermark
update_watermark p watermark = elim p.latest_watermark [
  | none ↦ record p { latest_watermark = some watermark }
  | some w ↦
      if ltb max_watermark watermark.timestamp
      then record p { latest_watermark = some watermark }
      else if leb w.timestamp watermark.timestamp
      then record p { latest_watermark = some watermark }
      else p
]

abbrev pub Jobs : Type 0
Jobs = List (ℕ × List ParentWatermark)

pub record WatermarkManager : Type 0 where
  pub reached_watermarks : Jobs

unfoldable pub new_parents : List Bool → List ParentWatermark
new_parents [] = []
new_parents (x ∷ xs) = record { latest_watermark = none; is_dependency = x } ∷ new_parents xs

unfoldable pub new_jobs : List (ℕ × List Bool) → Jobs
new_jobs [] = []
new_jobs ((job_id, tasks) ∷ rest) = (job_id, new_parents tasks) ∷ new_jobs rest

-- `WatermarkManager::new`
unfoldable pub new : List (ℕ × List Bool) → WatermarkManager
unfolding new_parents new_jobs
new parent_jobs = record { reached_watermarks = new_jobs parent_jobs }

-- `HashMap::get`, `get_mut` with an assignment, and `remove`
unfoldable pub get : ℕ → Jobs → Option (List ParentWatermark)
get job_id [] = none
get job_id ((j, ps) ∷ rest) = if j == job_id then some ps else get job_id rest

unfoldable pub assign : ℕ → List ParentWatermark → Jobs → Jobs
assign job_id qs [] = []
assign job_id qs ((j, ps) ∷ rest) =
    if j == job_id then (j, qs) ∷ rest else (j, ps) ∷ assign job_id qs rest

unfoldable pub remove : ℕ → Jobs → Jobs
remove job_id [] = []
remove job_id ((j, ps) ∷ rest) = if j == job_id then rest else (j, ps) ∷ remove job_id rest

-- The lesser of the candidate and the minimum so far, which wins a tie.
abbrev pub lesser : Watermark → Option Watermark → Watermark
lesser w none = w
lesser w (some least) = if ltb w.timestamp least.timestamp then w else least

-- The two loops of `min_watermark`. The outer `none` is its early `return None`.
unfoldable pub min_of_tasks : List ParentWatermark → Option Watermark → Option (Option Watermark)
min_of_tasks [] least = some least
min_of_tasks (p ∷ ps) least =
    let skip = min_of_tasks ps least in
    if not p.is_dependency
    then skip
    else elim p.latest_watermark [ none ↦ none | some w ↦ min_of_tasks ps (some (lesser w least)) ]

unfoldable pub min_of_jobs : Jobs → Option Watermark → Option (Option Watermark)
unfolding min_of_tasks
min_of_jobs [] least = some least
min_of_jobs ((j, ps) ∷ rest) least = elim (min_of_tasks ps least) [
  | none ↦ none
  | some least' ↦ min_of_jobs rest least'
]

-- `WatermarkManager::min_watermark`
unfoldable pub min_watermark : WatermarkManager → Option Watermark
unfolding min_of_jobs
min_watermark m = elim (min_of_jobs m.reached_watermarks none) [ none ↦ none | some least ↦ least ]

-- The entry of one parent task: `none` is one of the three panics of `apply`.
unfoldable pub update_parent : List ParentWatermark → Watermark → Option (List ParentWatermark)
unfolding update_watermark
update_parent ps watermark = elim (get_elem? ps watermark.channel_key.source_task_id.task_number) [
  | none ↦ none
  | some p ↦
      if not p.is_dependency
      then none
      else some
          (set ps watermark.channel_key.source_task_id.task_number (update_watermark p watermark))
]

-- The update of `apply`, before the minimum is taken.
unfoldable pub update : WatermarkManager → Watermark → Option WatermarkManager
unfolding get assign update_parent
update m watermark = elim (get watermark.channel_key.source_task_id.job_id m.reached_watermarks) [
  | none ↦ none
  | some ps ↦ elim (update_parent ps watermark) [
    | none ↦ none
    | some qs ↦ some (record {
      reached_watermarks =
          assign watermark.channel_key.source_task_id.job_id qs m.reached_watermarks;
    })
  ]
]

-- `WatermarkManager::apply`
unfoldable pub apply : WatermarkManager → Watermark → Option (WatermarkManager × Option Watermark)
unfolding update min_watermark
apply m watermark = elim m.reached_watermarks [
  | [] ↦ some (m, some watermark)
  | job ∷ jobs ↦ elim (update m watermark) [ none ↦ none | some m' ↦ some (m', min_watermark m') ]
]

-- `WatermarkManager::watermark_job_check`
unfoldable pub watermark_job_check : WatermarkManager → StreamStatus → Option WatermarkManager
unfolding get remove
watermark_job_check m stream_status =
    elim (get stream_status.channel_key.source_task_id.job_id m.reached_watermarks) [
      | none ↦ some m
      | some ps ↦ elim (get_elem? ps stream_status.channel_key.source_task_id.task_number) [
        | none ↦ none
        | some p ↦ elim p.latest_watermark [
          | none ↦ some (record {
            reached_watermarks =
                remove stream_status.channel_key.source_task_id.job_id m.reached_watermarks;
          })
          | some w ↦ some m
        ]
      ]
    ]
