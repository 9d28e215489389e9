-- ===== src/WindowReduce.antt =====
-- `WindowBaseReduceFunction` of rlink/src/functions/system/window_base_reduce.rs and the
-- `ReduceCheckpointHandle` of reduce_runnable.rs, which stands as its value: that JSON gives back
-- what it was given is the business of `serde_json`. The gauge of the windows is left out.
pub mod Drops
pub mod Snapshots
use rlink_rs.Prelude.{
  ℕ, Bool, true, false, not, Option, none, some, List, [], ◌∷◌, length, ltb, leb, ◌==◌, ◌&&◌, ◌||◌,
  map, if◌then◌else◌,
}
use rlink_rs.Prelude.Maps.{lookup, insert, delete}
use rlink_rs.Prelude.Sort.{sort_by_key}
use rlink_rs.Core.{Record, Window, window_eq, max_timestamp, default_channel_key}
use rlink_rs.WindowState.{WindowState, keys, drop_window, merge}

pub record ReduceCheckpointHandle : Type 0 where
  pub completed_checkpoint_id : Option ℕ
  pub current_windows : List Window

pub record WindowReduce (B : Type 0) : Type 0 where
  pub state : WindowState B
  pub window_checkpoints : List (ℕ × List (Window × Bool))
  pub skip_windows : List Window

-- `WindowBaseReduceFunction::new`, with the state that `open` makes
abbrev pub new : {B : Type 0} → WindowReduce B
new = record {
  state = record { windows = []; dropped = [] };
  window_checkpoints = [];
  skip_windows = [];
}

-- `initialize_state`
abbrev pub initialize_state :
    {B : Type 0} → Option ReduceCheckpointHandle → WindowReduce B → WindowReduce B
initialize_state none f = f
initialize_state (some handle) f = record f { skip_windows = handle.current_windows }

-- `can_skip_window`, of a list of windows to skip
unfoldable pub can_skip_window : List Window → Window → Bool
can_skip_window [] w = false
can_skip_window (x ∷ xs) w = window_eq x w || can_skip_window xs w

-- `filter_skip_window`
unfoldable pub filter_skip_window : List Window → List Window → List Window
unfolding can_skip_window
filter_skip_window skip [] = []
filter_skip_window skip (w ∷ ws) =
    if can_skip_window skip w then filter_skip_window skip ws else w ∷ filter_skip_window skip ws

-- The record that `reduce` merges, without the windows to skip; `none` is its early return.
abbrev pub with_windows : {B : Type 0} → Record B → List Window → Option (Record B)
with_windows r [] = none
with_windows r (v ∷ vs) = some (record r { location_windows = some (v ∷ vs) })

unfoldable pub skip_filtered :
    {B : Type 0} → List Window → Record B → Option (List Window) → Option (Record B)
unfolding filter_skip_window
skip_filtered [] r l = some r
skip_filtered (x ∷ xs) r none = some r
skip_filtered (x ∷ xs) r (some ws) = with_windows r (filter_skip_window (x ∷ xs) ws)

-- `reduce`
unfoldable pub reduce :
    {B : Type 0}
    → (B → List ℕ)
    → (Option (Record B) → Record B → Record B × Record B)
    → Record B
    → Record B
    → WindowReduce B
    → WindowReduce B
unfolding skip_filtered merge
reduce as_slice reduce_func key r f = elim (skip_filtered f.skip_windows r r.location_windows) [
  | none ↦ f
  | some r' ↦ record f { state = merge as_slice reduce_func key r' f.state }
]

-- The first loop of `drop_state`, over the windows that the state had before it.
unfoldable pub drop_loop :
    {B : Type 0} → ℕ → List Window → WindowState B → List Window × WindowState B
unfolding drop_window
drop_loop watermark_timestamp [] s = ([], s)
drop_loop watermark_timestamp (w ∷ ws) s =
    let (dropped, s') = drop_loop watermark_timestamp ws (drop_window w s) in
    let rest = drop_loop watermark_timestamp ws s in
    if leb (max_timestamp w) watermark_timestamp then (w ∷ dropped, s') else rest

-- `windows.get_mut(w).map(|x| *x = true)`, for each dropped window
unfoldable pub complete : Window → List (Window × Bool) → List (Window × Bool)
complete w [] = []
complete w ((v, b) ∷ rest) = if window_eq v w then (v, true) ∷ rest else (v, b) ∷ complete w rest

unfoldable pub complete_all : List Window → List (Window × Bool) → List (Window × Bool)
unfolding complete
complete_all [] m = m
complete_all (w ∷ ws) m = complete_all ws (complete w m)

abbrev pub complete_in : List Window → ℕ × List (Window × Bool) → ℕ × List (Window × Bool)
complete_in ws (id, m) = (id, complete_all ws m)

-- The record that a dropped window becomes, on a new buffer
abbrev pub drop_record : {B : Type 0} → B → Window → Record B
drop_record new_buffer w = record {
  partition_num = 0;
  timestamp = 0;
  channel_key = default_channel_key;
  location_windows = none;
  trigger_window = some w;
  values = new_buffer;
}

-- `drop_state`. With no window to drop, marking and sorting do nothing.
unfoldable pub drop_state : {B : Type 0} → B → ℕ → WindowReduce B → WindowReduce B × List (Record B)
unfolding drop_loop keys complete_all sort_by_key
drop_state new_buffer watermark_timestamp f =
    let (dropped, s) = drop_loop watermark_timestamp (keys f.state.windows) f.state in
    (
      record f { state = s; window_checkpoints = map (complete_in dropped) f.window_checkpoints },
      map (drop_record new_buffer) (sort_by_key max_timestamp dropped),
    )

abbrev pub uncompleted : List Window → List (Window × Bool)
uncompleted [] = []
uncompleted (w ∷ ws) = (w, false) ∷ uncompleted ws

-- No window of the checkpoint is still there.
unfoldable pub is_completed : List (Window × Bool) → Bool
is_completed [] = true
is_completed ((w, b) ∷ rest) = b && is_completed rest

unfoldable pub completed_ids : List (ℕ × List (Window × Bool)) → List ℕ
unfolding is_completed
completed_ids [] = []
completed_ids ((id, m) ∷ rest) =
    if is_completed m then id ∷ completed_ids rest else completed_ids rest

unfoldable pub remove_all :
    List ℕ → List (ℕ × List (Window × Bool)) → List (ℕ × List (Window × Bool))
unfolding delete
remove_all [] m = m
remove_all (id ∷ ids) m = remove_all ids (delete ◌==◌ id m)

-- `min_by_key` and `max_by_key` of the ids
unfoldable pub min_id : List (ℕ × List (Window × Bool)) → Option ℕ
min_id [] = none
min_id ((id, m) ∷ rest) = elim (min_id rest) [
  | none ↦ some id
  | some least ↦ some (if ltb least id then least else id)
]

unfoldable pub max_id : List ℕ → Option ℕ
max_id [] = none
max_id (id ∷ ids) = elim (max_id ids) [
  | none ↦ some id
  | some greatest ↦ some (if ltb greatest id then id else greatest)
]

-- The cap of 100 checkpoints; the `unwrap` of the least id cannot fail above it.
unfoldable pub protect_memory : List (ℕ × List (Window × Bool)) → List (ℕ × List (Window × Bool))
unfolding min_id delete
protect_memory m = elim (min_id m) [
  | none ↦ m
  | some id ↦ if ltb 100 (length m) then delete ◌==◌ id m else m
]

-- `snapshot_state`
unfoldable pub snapshot_state :
    {B : Type 0} → ℕ → WindowReduce B → WindowReduce B × ReduceCheckpointHandle
unfolding keys insert completed_ids remove_all protect_memory max_id
snapshot_state checkpoint_id f =
    let windows = keys f.state.windows in
    let checkpoints = insert ◌==◌ checkpoint_id (uncompleted windows) f.window_checkpoints in
    let ids = completed_ids checkpoints in
    (
      record f { window_checkpoints = protect_memory (remove_all ids checkpoints) },
      record { completed_checkpoint_id = max_id ids; current_windows = windows },
    )
