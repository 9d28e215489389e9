-- ===== src/Window/Tests.antt =====
-- Sliding windows of 60 seconds every 20 seconds, daily windows of UTC+8, and windows with gaps.
use rlink_rs.Prelude.{ℕ, ◌*◌, ◌+◌, ◌≡◌, ◌<◌, refl, none, some, List, [], ◌∷◌, arith, All, true}
use rlink_rs.Prelude.Int.{pos, negsuc, as_i64, sub_i64, add_i64, ◌%ℤ◌}
use rlink_rs.Prelude.Sort.{IsSorted, Any, sort_by_key}
use rlink_rs.Core.{Window, min_timestamp}
use rlink_rs.Window.{
  SlidingEventTimeWindows, new, back, forward, intersects, cover, assign_windows, first_start,
  window_loop,
}
use rlink_rs.Window.Loop.{span}
use rlink_rs.Window.Assign.{IsConfigured, Holds, assign_windows_exact}

abbrev minutes : SlidingEventTimeWindows
minutes = record { size = 60000; slide = 20000; offset = pos 0 }

abbrev days : SlidingEventTimeWindows
days = record { size = 86400000; slide = 86400000; offset = negsuc 28799999 }

abbrev gaps : SlidingEventTimeWindows
gaps = record { size = 5; slide = 20; offset = pos 0 }

days_assigner_lem : new 86400000 86400000 (some (back 28800000)) ≡ some days
unfolding new back sub_i64
days_assigner_lem = refl

new_refuses : new 60000 20000 (some (forward 20000)) ≡ none
unfolding new forward as_i64
new_refuses = refl

overlap : intersects (record { start = 0; end = 5 }) (record { start = 5; end = 9 }) ≡ true
unfolding intersects
overlap = refl

hull :
    cover (record { start = 4; end = 5 }) (record { start = 5; end = 9 })
    ≡ record { start = 4; end = 9 }
unfolding cover
hull = refl

three_windows :
    assign_windows (record minutes { size = 60; slide = 20 }) 100
    ≡ some (span 60 60 ∷ span 60 80 ∷ span 60 100 ∷ [])
unfolding assign_windows window_loop sort_by_key first_start sub_i64 add_i64 ◌%ℤ◌
three_windows = refl

minutes-IsConfigured : IsConfigured minutes
minutes-IsConfigured = omega arith

gaps-IsConfigured : IsConfigured gaps
gaps-IsConfigured = omega arith

assign_windows_exact_example :
    (ws : List Window) × (assign_windows minutes 100000 ≡ some ws)
    × IsSorted min_timestamp ws
    × All (Holds minutes 100000 100000) ws
    × ((s k : ℕ) → s + k * 20000 ≡ 100000 → 100000 < s + 60000 → Any (λ v. v ≡ span 60000 s) ws)
assign_windows_exact_example =
    assign_windows_exact minutes 100000 minutes-IsConfigured (omega arith)
