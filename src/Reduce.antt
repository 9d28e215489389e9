-- ===== src/Reduce.antt =====
-- `ReduceRunnable` of rlink/src/runtime/worker/runnable/reduce_runnable.rs. The key selector and the
-- reduce function are arguments, and so is what `serbuffer` gives: the bytes of a buffer and a new
-- one. What the runnable sends on and submits is a list of outputs; a panic is `none`.
pub mod Live
pub mod Triggers
mod Tests
use rlink_rs.Prelude.{
  ℕ, ◌+◌, Bool, true, false, Option, none, some, List, [], ◌∷◌, ltb, leb, map, if◌then◌else◌,
}
use rlink_rs.Core.{
  Record, Window, Watermark, Barrier, Element, data_record, watermark, stream_status, barrier,
  min_timestamp, default_window, set_completed_checkpoint_id, default_channel_key,
}
use rlink_rs.WindowReduce.{WindowReduce, reduce, drop_state, snapshot_state}

pub data Output (B : Type 0) : Type 0 where
  run_next : Element B → Output B
  -- The checkpoint id, the completed one and the windows of the handle
  submit_checkpoint : ℕ → Option ℕ → List Window → Output B

pub record ReduceRunnable (B : Type 0) : Type 0 where
  pub stream_reduce : WindowReduce B
  pub limited_watermark_window : Window
  pub completed_checkpoint_id : Option ℕ
  pub counter : ℕ
  pub expire_counter : ℕ

-- `ReduceRunnable::new`
abbrev pub new : {B : Type 0} → WindowReduce B → ReduceRunnable B
new f = record {
  stream_reduce = f;
  limited_watermark_window = default_window;
  completed_checkpoint_id = none;
  counter = 0;
  expire_counter = 0;
}

-- `Vec::last` and `Vec::first`
abbrev pub last : List Window → Option Window
last [] = none
last (w ∷ []) = some w
last (w ∷ v ∷ ws) = last (v ∷ ws)

abbrev pub first : List Window → Option Window
first [] = none
first (w ∷ ws) = some w

abbrev pub last_of : Option (List Window) → Option Window
last_of none = none
last_of (some ws) = last ws

-- `Record::max_location_window`
abbrev pub max_location_window : {B : Type 0} → Record B → Option Window
max_location_window r = last_of r.location_windows

-- `Watermark::min_location_windows`
abbrev pub min_location_windows : Watermark → Option Window
min_location_windows w = elim w.location_windows [ none ↦ none | some ws ↦ first ws ]

-- The expiration check of `run`
unfoldable pub acceptable : {B : Type 0} → Window → Record B → Bool
acceptable limit r = elim (max_location_window r) [
  | none ↦ true
  | some w ↦ leb (min_timestamp limit) (min_timestamp w)
]

-- The key of a record, and the record, which the selector takes by `&mut`.
abbrev pub key_of :
    {B : Type 0} → B → Option (Record B → Record B × Record B) → Record B → Record B × Record B
key_of new_buffer get_key r = elim get_key [
  | none ↦ (
    record {
      partition_num = 0;
      timestamp = 0;
      channel_key = default_channel_key;
      location_windows = none;
      trigger_window = none;
      values = new_buffer;
    },
    r,
  )
  | some f ↦ f r
]

-- The barrier that is sent on
abbrev pub set_completed : Option ℕ → Barrier → Barrier
set_completed none b = b
set_completed (some id) b = set_completed_checkpoint_id b id

module _ {B : Type 0} (as_slice : B → List ℕ) (new_buffer : B)
    (get_key : Option (Record B → Record B × Record B))
    (reduce_func : Option (Record B) → Record B → Record B × Record B) where
  -- `run` on a record
  unfoldable pub run_record : ReduceRunnable B → Record B → ReduceRunnable B
  unfolding acceptable reduce
  run_record s r =
      let (key, r') = key_of new_buffer get_key r in
      if acceptable s.limited_watermark_window r
      then record s {
        stream_reduce = reduce as_slice reduce_func key r' s.stream_reduce;
        counter = s.counter + 1;
      }
      else record s { expire_counter = s.expire_counter + 1 }

  -- `run` on a watermark, from its first window
  unfoldable pub run_watermark : ReduceRunnable B → Window → ReduceRunnable B × List (Output B)
  unfolding drop_state
  run_watermark s w =
      let (f, drop_events) = drop_state new_buffer (min_timestamp w) s.stream_reduce in
      (
        record s { stream_reduce = f; limited_watermark_window = w },
        map (λ r. run_next (data_record r)) drop_events,
      )

  -- `run` on a barrier, with the checkpoint that it takes
  unfoldable pub run_barrier : ReduceRunnable B → Barrier → ReduceRunnable B × List (Output B)
  unfolding snapshot_state
  run_barrier s b =
      let (f, handle) = snapshot_state b.checkpoint_id s.stream_reduce in
      (
        record s { stream_reduce = f; completed_checkpoint_id = handle.completed_checkpoint_id },
        submit_checkpoint b.checkpoint_id handle.completed_checkpoint_id handle.current_windows
            ∷ run_next (barrier (set_completed handle.completed_checkpoint_id b))
            ∷ [],
      )

  -- `run`; `none` is the `unreachable!` on a watermark without a window.
  unfoldable pub run : ReduceRunnable B → Element B → Option (ReduceRunnable B × List (Output B))
  unfolding run_record run_watermark run_barrier
  run s (data_record r) = some (run_record s r, [])
  run s (watermark w) = elim (min_location_windows w) [
    | none ↦ none
    | some v ↦ some (run_watermark s v)
  ]
  run s (barrier b) = some (run_barrier s b)
  run s (stream_status st) = some (s, run_next (stream_status st) ∷ [])
