-- ===== src/Core.antt =====
-- The values that flow through a job: rlink/src/core/runtime.rs (the identifiers),
-- rlink/src/core/window.rs (`TimeWindow`, `Window`) and rlink/src/core/element.rs (`Element` and its
-- four kinds). The buffer of a record is the third-party `serbuffer::Buffer`: a type parameter `B`.
use rlink_rs.Prelude.{ℕ, ◌+◌, Bool, false, Option, none, some, List, ltb, ◌==◌, ◌&&◌, if◌then◌else◌}

-- `JobId`, `OperatorId` and `CheckpointId` are newtypes of an integer, and stand as that integer.
pub record TaskId : Type 0 where
  pub job_id : ℕ
  pub task_number : ℕ
  pub num_tasks : ℕ

pub record ChannelKey : Type 0 where
  pub source_task_id : TaskId
  pub target_task_id : TaskId

abbrev pub default_task_id : TaskId
default_task_id = record { job_id = 0; task_number = 0; num_tasks = 0 }

abbrev pub default_channel_key : ChannelKey
default_channel_key = record { source_task_id = default_task_id; target_task_id = default_task_id }

pub record TimeWindow : Type 0 where
  pub start : ℕ
  pub end : ℕ

pub data Window : Type 0 where
  time_window : TimeWindow → Window

abbrev pub min_timestamp : Window → ℕ
min_timestamp (time_window w) = w.start

abbrev pub max_timestamp : Window → ℕ
max_timestamp (time_window w) = w.end

abbrev pub default_window : Window
default_window = time_window (record { start = 0; end = 0 })

-- `PartialEq` and `Eq` of `Window`, derived from its two ends.
abbrev pub window_eq : Window → Window → Bool
window_eq v w = min_timestamp v == min_timestamp w && max_timestamp v == max_timestamp w

pub record Record (B : Type 0) : Type 0 where
  pub partition_num : ℕ
  pub timestamp : ℕ
  pub channel_key : ChannelKey
  pub location_windows : Option (List Window)
  pub trigger_window : Option Window
  pub values : B

pub record Watermark : Type 0 where
  pub partition_num : ℕ
  pub timestamp : ℕ
  pub channel_key : ChannelKey
  pub location_windows : Option (List Window)
  pub downstream : Bool
  pub drop_windows : Option (List Window)

pub record StreamStatus : Type 0 where
  pub partition_num : ℕ
  pub timestamp : ℕ
  pub channel_key : ChannelKey
  pub end : Bool

pub record Barrier : Type 0 where
  pub partition_num : ℕ
  pub checkpoint_id : ℕ
  pub completed_checkpoint_id : ℕ

pub data Element (B : Type 0) : Type 0 where
  data_record : Record B → Element B
  watermark : Watermark → Element B
  stream_status : StreamStatus → Element B
  barrier : Barrier → Element B

-- `MAX_WATERMARK.timestamp` and its neighbours, of core/watermark.rs
abbrev pub max_watermark : ℕ
max_watermark = 253402185600000

abbrev pub min_watermark : ℕ
min_watermark = 0

abbrev pub idle_watermark : ℕ
idle_watermark = max_watermark + 1

-- `Watermark::new`
abbrev pub new_watermark : ℕ → Watermark
new_watermark t = record {
  partition_num = 0;
  timestamp = t;
  channel_key = default_channel_key;
  location_windows = none;
  downstream = false;
  drop_windows = none;
}

-- `StreamStatus::new`
abbrev pub new_stream_status : ℕ → Bool → StreamStatus
new_stream_status t end = record {
  partition_num = 0;
  timestamp = t;
  channel_key = default_channel_key;
  end = end;
}

-- `Barrier::new`, `Barrier::set_completed_checkpoint_id` and `Barrier::completed_checkpoint_id`
abbrev pub new_barrier : ℕ → Barrier
new_barrier id = record { partition_num = 0; checkpoint_id = id; completed_checkpoint_id = 0 }

abbrev pub set_completed_checkpoint_id : Barrier → ℕ → Barrier
set_completed_checkpoint_id b id =
    if ltb b.completed_checkpoint_id id then record b { completed_checkpoint_id = id } else b

abbrev pub completed_checkpoint_id : Barrier → Option ℕ
completed_checkpoint_id b =
    if b.completed_checkpoint_id == 0 then none else some b.completed_checkpoint_id
