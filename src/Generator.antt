-- ===== src/Generator.antt =====
-- The watermark generators of rlink/src/functions/watermark: bounded_out_of_orderness_watermarks.rs,
-- time_periodic_watermarks.rs and watermarks_with_idleness.rs. A `Box<dyn WatermarkGenerator>` is a
-- value of one data type; a generator that the user supplies is not modelled. The clock that a call
-- reads, `current_timestamp_millis()`, is its argument `now`, one value for the whole call.
pub mod Bounded
pub mod Idle
mod Tests
use rlink_rs.Prelude.{
  ℕ, ◌+◌, ◌-◌, ◌%◌, ◌^◌, Bool, true, false, Option, none, some, ltb, ◌==◌, if◌then◌else◌,
}
use rlink_rs.Prelude.Int.{ℤ, pos, ltb_ℤ, as_i64, sub_i64, pos_part, neg_part}
use rlink_rs.Core.{min_watermark, idle_watermark}

pub record IdlenessTimer : Type 0 where
  pub counter : ℕ
  pub last_counter : ℕ
  pub start_of_inactivity_millis : ℕ
  pub max_idle_time_millis : ℕ

-- `IdlenessTimer::new`
abbrev pub new_timer : ℕ → IdlenessTimer
new_timer idle_timeout = record {
  counter = 0;
  last_counter = 0;
  start_of_inactivity_millis = 0;
  max_idle_time_millis = idle_timeout % 2 ^ 64;
}

-- `IdlenessTimer::activity`
unfoldable pub activity : IdlenessTimer → IdlenessTimer
activity t = record t { counter = (t.counter + 1) % 2 ^ 64 }

-- `IdlenessTimer::check_if_idle`
unfoldable pub check_if_idle : ℕ → IdlenessTimer → IdlenessTimer × Bool
check_if_idle now t =
    if t.counter == t.last_counter
    then (if t.start_of_inactivity_millis == 0
        then (record t { start_of_inactivity_millis = now }, false)
        else (
          t,
          ltb t.max_idle_time_millis ((now + 2 ^ 64 - t.start_of_inactivity_millis) % 2 ^ 64),
        ))
    else (record t { last_counter = t.counter; start_of_inactivity_millis = 0 }, false)

pub record TimePeriodic : Type 0 where
  pub process_timestamp : ℤ
  pub event_timestamp : ℤ
  pub process_period : ℤ
  pub event_period : ℤ

pub data WatermarkGenerator : Type 0 where
  -- `max_timestamp` and `out_of_orderness_millis`
  bounded_out_of_orderness : ℕ → ℕ → WatermarkGenerator
  time_periodic : WatermarkGenerator → TimePeriodic → WatermarkGenerator
  with_idleness : WatermarkGenerator → IdlenessTimer → WatermarkGenerator

-- The three `new`s; a `Duration` is its milliseconds.
abbrev pub new_bounded : ℕ → WatermarkGenerator
new_bounded delay = bounded_out_of_orderness 0 (delay % 2 ^ 64)

abbrev pub new_periodic : WatermarkGenerator → ℕ → ℕ → WatermarkGenerator
new_periodic inner process_period event_period = time_periodic inner (record {
  process_timestamp = pos 0;
  event_timestamp = pos 0;
  process_period = as_i64 process_period;
  event_period = as_i64 event_period;
})

abbrev pub new_idleness : WatermarkGenerator → ℕ → WatermarkGenerator
new_idleness inner idle_timeout = with_idleness inner (new_timer idle_timeout)

-- `BoundedOutOfOrdernessWatermarks::on_periodic_emit`
unfoldable pub bounded_emit : ℕ → ℕ → ℕ
bounded_emit max_timestamp delay =
    if ltb delay max_timestamp then max_timestamp - delay - 1 else min_watermark

-- What `WatermarksWithIdleness::on_periodic_emit` makes of the probe and of the inner generator.
abbrev pub idle_or :
    (IdlenessTimer × Bool)
    → WatermarkGenerator
    → WatermarkGenerator × Option ℕ
    → WatermarkGenerator × Option ℕ
idle_or (t, true) inner emitted = (with_idleness inner t, some idle_watermark)
idle_or (t, false) inner (inner', w) = (with_idleness inner' t, w)

unfoldable pub on_periodic_emit : ℕ → WatermarkGenerator → WatermarkGenerator × Option ℕ
unfolding bounded_emit check_if_idle
on_periodic_emit now (bounded_out_of_orderness max_timestamp delay) =
    (bounded_out_of_orderness max_timestamp delay, some (bounded_emit max_timestamp delay))
on_periodic_emit now (time_periodic inner p) =
    let (inner', w) = on_periodic_emit now inner in (time_periodic inner' p, w)
on_periodic_emit now (with_idleness inner t) =
    idle_or (check_if_idle now t) inner (on_periodic_emit now inner)

abbrev pub is_zero : ℤ → Bool
is_zero z = pos_part z + neg_part z == 0

-- `TimePeriodicWatermarks::on_event`, once the inner generator has given no watermark.
unfoldable pub periodic_event :
    ℕ → WatermarkGenerator → TimePeriodic → ℕ → WatermarkGenerator × Option ℕ
unfolding on_periodic_emit sub_i64 as_i64
periodic_event now inner p event_timestamp =
    let event = as_i64 event_timestamp in
    let current = as_i64 now in
    let moved = record p { process_timestamp = current; event_timestamp = event } in
    let (inner', emitted) = on_periodic_emit now inner in
    if is_zero p.process_timestamp
    then (time_periodic inner moved, none)
    else if ltb_ℤ p.event_period (sub_i64 event p.event_timestamp)
    then (if ltb_ℤ (sub_i64 current p.process_timestamp) p.process_period
        then (time_periodic inner' moved, emitted)
        else (time_periodic inner moved, none))
    else (time_periodic inner p, none)

abbrev pub periodic_or :
    ℕ → TimePeriodic → ℕ → WatermarkGenerator × Option ℕ → WatermarkGenerator × Option ℕ
periodic_or now p event_timestamp (inner, some w) = (time_periodic inner p, some w)
periodic_or now p event_timestamp (inner, none) = periodic_event now inner p event_timestamp

unfoldable pub on_event : ℕ → ℕ → WatermarkGenerator → WatermarkGenerator × Option ℕ
unfolding periodic_event activity
on_event now event_timestamp (bounded_out_of_orderness max_timestamp delay) = (
  bounded_out_of_orderness
      (if ltb max_timestamp event_timestamp then event_timestamp else max_timestamp) delay,
  none,
)
on_event now event_timestamp (time_periodic inner p) =
    periodic_or now p event_timestamp (on_event now event_timestamp inner)
on_event now event_timestamp (with_idleness inner t) =
    let (inner', w) = on_event now event_timestamp inner in (with_idleness inner' (activity t), w)
