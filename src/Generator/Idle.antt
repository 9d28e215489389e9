-- ===== src/Generator/Idle.antt =====
-- The idleness timer of rlink/src/functions/watermark/watermarks_with_idleness.rs over several probes.
use rlink_rs.Prelude.{ℕ, ◌+◌, ◌-◌, ◌^◌, ◌≤◌, ◌<◌, ◌≡◌, ◌↔◌, true, false, some, arith}
use rlink_rs.Core.{idle_watermark}
use rlink_rs.Generator.{
  IdlenessTimer, activity, check_if_idle, WatermarkGenerator, with_idleness, on_periodic_emit,
}

-- The timer between two calls: the counter has not run over, and the probes have not run ahead of it.
pub record IsCounting (t : IdlenessTimer) : Type 0 where
  pub behind : t.last_counter ≤ t.counter
  pub small : t.counter + 1 < 2 ^ 64

pub probe : ℕ → IdlenessTimer → IdlenessTimer
probe now t = (check_if_idle now t).0

-- The timer after an event and the probe behind it, and after the next quiet probe, at `b`.
abbrev pub reset : IdlenessTimer → IdlenessTimer
reset t = record t {
  counter = t.counter + 1;
  last_counter = t.counter + 1;
  start_of_inactivity_millis = 0;
}

abbrev pub started : ℕ → IdlenessTimer → IdlenessTimer
started b t = record t {
  counter = t.counter + 1;
  last_counter = t.counter + 1;
  start_of_inactivity_millis = b;
}

probe_resets :
    (t : IdlenessTimer) (a : ℕ) → IsCounting t → check_if_idle a (activity t) ≡ (reset t, false)
unfolding check_if_idle activity
probe_resets t a h = ground (arith, h.behind, h.small)

probe_starts : (t : IdlenessTimer) (b : ℕ) → check_if_idle b (reset t) ≡ (started b t, false)
unfolding check_if_idle
probe_starts t b = ground arith

probe-activity : (t : IdlenessTimer) (a : ℕ) → IsCounting t → probe a (activity t) ≡ reset t
unfolding probe
probe-activity t a h = rw (probe_resets t a h, probe)

probe-reset : (t : IdlenessTimer) (b : ℕ) → probe b (reset t) ≡ started b t
unfolding probe
probe-reset t b = rw (probe_starts t b, probe)

probe_decides :
    (t : IdlenessTimer) (b c : ℕ)
    → 0 < b
    → b ≤ c
    → c < 2 ^ 64
    → ((check_if_idle c (started b t)).1 ≡ true) ↔ (t.max_idle_time_millis < c - b)
unfolding check_if_idle
probe_decides t b c pb le lt = (λ e. ground arith, λ long. ground arith)

-- After an event the next probe resets the timer, the one behind it starts it at `b`, and a third one
-- at `c` says idle exactly if more than the idle time has passed since `b`.
pub idle_after_event :
    (t : IdlenessTimer) (a b c : ℕ)
    → IsCounting t
    → 0 < b
    → b ≤ c
    → c < 2 ^ 64
    → ((check_if_idle a (activity t)).1 ≡ false)
      × ((check_if_idle b (probe a (activity t))).1 ≡ false)
      × (((check_if_idle c (probe b (probe a (activity t)))).1 ≡ true)
          ↔ (t.max_idle_time_millis < c - b))
idle_after_event t a b c h pb le lt = (
  rw (probe_resets t a h),
  rw (probe-activity t a h, probe_starts t b),
  rw (probe-activity t a h, probe-reset t b) (probe_decides t b c pb le lt),
)

-- An idle stream reports the idle watermark, and its inner generator is not asked.
pub idle_emits :
    (now : ℕ) (t : IdlenessTimer) (g : WatermarkGenerator)
    → (check_if_idle now t).1 ≡ true
    → on_periodic_emit now (with_idleness g t) ≡ (with_idleness g t, some idle_watermark)
unfolding on_periodic_emit
idle_emits now t g idle = ground arith
