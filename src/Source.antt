-- ===== src/Source.antt =====
-- `SourceRunnable` of rlink/src/runtime/worker/runnable/source_runnable.rs: the loop of `run`, one
-- element at a time. What it sends on, submits and reports is a list of outputs; the input, the timers
-- and the threads that feed the loop are the list of elements it is given. A panic is `none`.
pub mod Flow
mod Tests
use rlink_rs.Prelude.{
  ℕ, zero, suc, ◌+◌, Bool, true, false, Option, none, some, List, [], ◌∷◌, ◌++◌, length, ltb, leb,
  ◌==◌, set, if◌then◌else◌,
}
use rlink_rs.Prelude.Maps.{lookup, insert}
use rlink_rs.Core.{
  TaskId, Record, Watermark, StreamStatus, Barrier, Element, data_record, watermark, stream_status,
  barrier, new_stream_status,
}
use rlink_rs.Align.{AlignManager, new as new_align, apply as apply_align}
use rlink_rs.Watermarks.{
  WatermarkManager, new as new_watermarks, apply as apply_watermark, watermark_job_check,
}

pub data Output (B : Type 0) : Type 0 where
  run_next : Element B → Output B
  submit_checkpoint : ℕ → Output B
  report_end_status : Output B

-- `end_flags`, a local of `run`, is a field.
pub record SourceRunnable : Type 0 where
  pub waiting_end_flags : ℕ
  pub end_flags : ℕ
  pub barrier_alignment : AlignManager
  pub stream_status_alignment : AlignManager
  pub watermark_manager : WatermarkManager
  pub counter : ℕ

-- `(0..num_tasks).map(|_| false)`
abbrev pub no_tasks : ℕ → List Bool
no_tasks zero = []
no_tasks (suc n) = false ∷ no_tasks n

abbrev pub tasks_or_none : ℕ → Option (List Bool) → List Bool
tasks_or_none n none = no_tasks n
tasks_or_none n (some tasks) = tasks

-- The loop of `open` over the parent executions; `none` is the index out of bounds.
unfoldable pub parent_jobs : List TaskId → List (ℕ × List Bool) → Option (List (ℕ × List Bool))
unfolding lookup insert
parent_jobs [] jobs = some jobs
parent_jobs (t ∷ ts) jobs =
    let tasks = tasks_or_none t.num_tasks (lookup ◌==◌ t.job_id jobs) in
    let rest = parent_jobs ts (insert ◌==◌ t.job_id (set tasks t.task_number true) jobs) in
    if ltb t.task_number (length tasks) then rest else none

-- What `open` sets, from the parent executions and the parent jobs
abbrev pub source_of : List TaskId → List (ℕ × List Bool) → SourceRunnable
source_of parents jobs = record {
  waiting_end_flags = if length parents == 0 then 1 else length parents;
  end_flags = 0;
  barrier_alignment = new_align (length parents);
  stream_status_alignment = new_align (length parents);
  watermark_manager = new_watermarks jobs;
  counter = 0;
}

abbrev pub with_jobs : List TaskId → Option (List (ℕ × List Bool)) → Option SourceRunnable
with_jobs parents none = none
with_jobs parents (some jobs) = some (source_of parents jobs)

-- `open`, from the tasks of the parent executions
unfoldable pub open_source : List TaskId → Option SourceRunnable
unfolding parent_jobs new_align new_watermarks
open_source parents = with_jobs parents (parent_jobs parents [])

abbrev pub count_end : StreamStatus → ℕ → ℕ
count_end st n = if st.end then n + 1 else n

-- `parent_job_terminated`
abbrev pub is_terminated : SourceRunnable → StreamStatus → Bool
is_terminated s st = if st.end then leb s.waiting_end_flags (s.end_flags + 1) else false

module _ {B : Type 0} where
  -- `run` on a record
  abbrev pub run_record : SourceRunnable → Record B → SourceRunnable × List (Output B)
  run_record s r = (record s { counter = s.counter + 1 }, run_next (data_record r) ∷ [])

  abbrev pub barrier_outputs : Bool → Barrier → List (Output B)
  barrier_outputs true b = submit_checkpoint b.checkpoint_id ∷ run_next (barrier b) ∷ []
  barrier_outputs false b = []

  -- `run` on a barrier
  unfoldable pub run_barrier : SourceRunnable → Barrier → Option (SourceRunnable × List (Output B))
  unfolding apply_align
  run_barrier s b = elim (apply_align s.barrier_alignment b.checkpoint_id) [
    | none ↦ none
    | some (m, aligned) ↦ some (record s { barrier_alignment = m }, barrier_outputs aligned b)
  ]

  abbrev pub watermark_outputs : Option Watermark → List (Output B)
  watermark_outputs none = []
  watermark_outputs (some w) = run_next (watermark w) ∷ []

  -- `run` on a watermark
  unfoldable pub run_watermark :
      SourceRunnable → Watermark → Option (SourceRunnable × List (Output B))
  unfolding apply_watermark
  run_watermark s w = elim (apply_watermark s.watermark_manager w) [
    | none ↦ none
    | some (m, least) ↦ some (record s { watermark_manager = m }, watermark_outputs least)
  ]

  abbrev pub status_outputs : Bool → ℕ → Bool → List (Output B)
  status_outputs true t terminated = run_next (stream_status (new_stream_status t terminated)) ∷ []
  status_outputs false t terminated = []

  abbrev pub end_outputs : Bool → List (Output B)
  end_outputs true = report_end_status ∷ []
  end_outputs false = []

  -- `run` on a stream status
  unfoldable pub run_status :
      SourceRunnable → StreamStatus → Option (SourceRunnable × List (Output B))
  unfolding watermark_job_check apply_align
  run_status s st = elim (watermark_job_check s.watermark_manager st) [
    | none ↦ none
    | some w ↦ elim (apply_align s.stream_status_alignment st.timestamp) [
      | none ↦ none
      | some (m, aligned) ↦ some (
        record s {
          end_flags = count_end st s.end_flags;
          watermark_manager = w;
          stream_status_alignment = m;
        },
        status_outputs aligned st.timestamp (is_terminated s st)
            ++ end_outputs (is_terminated s st),
      )
    ]
  ]

  -- One round of the loop of `run`
  unfoldable pub step : SourceRunnable → Element B → Option (SourceRunnable × List (Output B))
  unfolding run_barrier run_watermark run_status
  step s (data_record r) = some (run_record s r)
  step s (barrier b) = run_barrier s b
  step s (watermark w) = run_watermark s w
  step s (stream_status st) = run_status s st

  -- `run`
  unfoldable pub run : SourceRunnable → List (Element B) → Option (SourceRunnable × List (Output B))
  unfolding step
  run s [] = some (s, [])
  run s (e ∷ es) = elim (step s e) [
    | none ↦ none
    | some (s', outs) ↦ elim (run s' es) [
      | none ↦ none
      | some (s'', outs') ↦ some (s'', outs ++ outs')
    ]
  ]
