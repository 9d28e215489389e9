-- ===== src/Window.antt =====
-- `TimeWindow::get_window_start_with_offset` of rlink/src/core/window.rs and
-- `SlidingEventTimeWindows` of rlink/src/functions/window/mod.rs. A `Duration` is its milliseconds.
pub mod Loop
pub mod Assign
mod Tests
use rlink_rs.Prelude.{
  ℕ, zero, suc, ◌+◌, ◌%◌, ◌^◌, Bool, true, false, Option, none, some, List, [], ◌∷◌, ◌++◌, ltb, leb,
  ◌==◌, ◌||◌, ◌&&◌, if◌then◌else◌,
}
use rlink_rs.Prelude.Int.{
  ℤ, pos, negsuc, pos_part, neg_part, ltb_ℤ, as_i64, as_u64, add_i64, sub_i64, ◌%ℤ◌,
}
use rlink_rs.Prelude.Sort.{sort_by_key}
use rlink_rs.Core.{Window, TimeWindow, time_window, min_timestamp, max_timestamp}

-- `TimeWindow::intersects` and `TimeWindow::cover`
pub intersects : TimeWindow → TimeWindow → Bool
intersects v w = leb v.start w.end && leb w.start v.end

pub cover : TimeWindow → TimeWindow → TimeWindow
cover v w = record {
  start = if leb v.start w.start then v.start else w.start;
  end = if leb v.end w.end then w.end else v.end;
}

unfoldable pub get_window_start_with_offset : ℕ → ℤ → ℕ → ℤ
get_window_start_with_offset timestamp offset window_size =
    let t = as_i64 timestamp in
    let size = as_i64 window_size in sub_i64 t (◌%ℤ◌ (add_i64 (sub_i64 t offset) size) size)

-- `Offset::forward` and `Offset::back`
unfoldable pub forward : ℕ → ℤ
forward millis = as_i64 millis

unfoldable pub back : ℕ → ℤ
back millis = sub_i64 (pos 0) (as_i64 millis)

pub record SlidingEventTimeWindows : Type 0 where
  pub size : ℕ
  pub slide : ℕ
  pub offset : ℤ

abbrev pub offset_or_zero : Option ℤ → ℤ
offset_or_zero none = pos 0
offset_or_zero (some x) = x

-- `SlidingEventTimeWindows::new`; `none` is its panic. `offset.abs() as u64` is the magnitude.
unfoldable pub new : ℕ → ℕ → Option ℤ → Option SlidingEventTimeWindows
new size slide offset =
    let size = size % 2 ^ 64 in
    let slide = slide % 2 ^ 64 in
    let offset = offset_or_zero offset in
    if leb slide (pos_part offset + neg_part offset) || size == 0
    then none
    else some (record { size = size; slide = slide; offset = offset })

-- The window that a round of the loop pushes.
abbrev pub window_at : ℕ → ℤ → Window
window_at size start =
    time_window (record { start = as_u64 start; end = (as_u64 start + size) % 2 ^ 64 })

-- The `loop` of `assign_windows`, on fuel; `none` is that the fuel ran out.
unfoldable pub window_loop : ℕ → ℤ → ℕ → ℕ → ℕ → List Window → Option (List Window)
window_loop zero start timestamp size slide windows = none
window_loop (suc fuel) start timestamp size slide windows =
    let pushed = if ltb_ℤ start (pos 0) then windows else windows ++ window_at size start ∷ [] in
    let rest = window_loop fuel (sub_i64 start (as_i64 slide)) timestamp size slide pushed in
    if ltb_ℤ (sub_i64 (as_i64 timestamp) (as_i64 size)) start then rest else some windows

-- Where the loop starts: the last window start, at least 0.
unfoldable pub first_start : SlidingEventTimeWindows → ℕ → ℤ
unfolding get_window_start_with_offset
first_start w timestamp =
    let start = get_window_start_with_offset timestamp w.offset w.slide in
    if ltb_ℤ start (pos 0) then pos 0 else start

-- `windows.sort_by_key(|x| x.min_timestamp())`, where the loop has ended.
abbrev pub sorted : Option (List Window) → Option (List Window)
sorted none = none
sorted (some windows) = some (sort_by_key min_timestamp windows)

-- `assign_windows`. Each round lowers the start by `slide`, so `size + 1` rounds are enough.
unfoldable pub assign_windows : SlidingEventTimeWindows → ℕ → Option (List Window)
assign_windows w timestamp =
    sorted (window_loop (w.size + 1) (first_start w timestamp) timestamp w.size w.slide [])
