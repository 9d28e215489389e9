-- ===== src/WindowAssigner/Feeds.antt =====
-- `WindowAssignerRunnable` in front of `ReduceRunnable`.
use mathlib.Core.Path.{subst}
use rlink_rs.Prelude.{
  ℕ, ◌%◌, ◌≤◌, ◌<◌, ◌≡◌, ◌≢◌, refl, sym, Option, none, some, List, [], ◌∷◌, arith, All,
  some_injective,
}
use rlink_rs.Prelude.Sort.{Any}
use rlink_rs.Prelude.Int.{pos}
use rlink_rs.Core.{Record, Watermark, Window, data_record, watermark, min_timestamp, max_timestamp}
use rlink_rs.Window.{SlidingEventTimeWindows}
use rlink_rs.Window.Loop.{limit, span}
use rlink_rs.Window.Assign.{
  IsConfigured, Holds, last_start, assign_windows_exact, assign_windows_last, assign_windows_gap,
}
use rlink_rs.WindowAssigner.{run_next, set_record_windows, set_watermark_windows, run}
use rlink_rs.Reduce.{ReduceRunnable, last, first, run as run_reduce}
use rlink_rs.Reduce.Live.{IsAssigned, EndAfter}

last-All : (P : Window → Type 0) (ws : List Window) (v : Window) → All P ws → last ws ≡ some v → P v
last-All P [] v h e = absurd (cc e)
last-All P (w ∷ []) v h e = subst P (some_injective w v e) h.0
last-All P (w ∷ u ∷ ws) v h e = last-All P (u ∷ ws) v h.1 e

Holds-EndAfter :
    (w : SlidingEventTimeWindows) (t n u : ℕ) (ws : List Window)
    → u ≤ t
    → All (Holds w t n) ws
    → EndAfter u ws
Holds-EndAfter w t n u [] le h = tt
Holds-EndAfter w t n u (v ∷ ws) le h =
    let (s, k, is, grid, starts, ends) = h.0 in
    (subst (λ x. u < max_timestamp x) (sym is) (omega arith), Holds-EndAfter w t n u ws le h.1)

first-Any :
    (v : Window) (ws : List Window) → Any (λ w. w ≡ v) ws → (u : Window) × (first ws ≡ some u)
first-Any v [] any = elim any [ ]
first-Any v (w ∷ ws) any = (w, refl)

-- A record with a time before 2^61 that a configured assigner sends on has only windows that end after
-- the start of its last one, which is what the expiry check of a reducer relies on; and the assigner
-- does send it on.
pub record-IsAssigned :
    {B : Type 0} (w : SlidingEventTimeWindows) (r : Record B)
    → IsConfigured w
    → r.timestamp < limit
    → (ws : List Window) × (run w (data_record r)
        ≡ some (run_next (data_record (set_record_windows r ws)) ∷ []))
      × IsAssigned (set_record_windows r ws)
unfolding run
record-IsAssigned w r c small =
    let (ws, is, sorted, held, whole) = assign_windows_exact w r.timestamp c small in
    (
      ws,
      rw (run, is) refl,
      λ v last_is.
          let (s, k, spans, grid, starts, ends) =
            last-All (Holds w r.timestamp (last_start w r.timestamp)) ws v held last_is in
          Holds-EndAfter w r.timestamp (last_start w r.timestamp) (min_timestamp v) ws
            (subst (λ x. min_timestamp x ≤ r.timestamp) (sym spans) starts) held,
    )

-- If windows are at least a slide long, a watermark that a configured assigner sends on has a window, so the
-- reducer behind it does not reach its `unreachable!`, whatever its state.
pub watermark_accepted :
    {B : Type 0} (windows : SlidingEventTimeWindows) (w : Watermark) (as_slice : B → List ℕ)
    (new_buffer : B) (get_key : Option (Record B → Record B × Record B))
    (reduce_func : Option (Record B) → Record B → Record B × Record B) (s : ReduceRunnable B)
    → IsConfigured windows
    → windows.slide ≤ windows.size
    → w.timestamp < limit
    → (w' : Watermark) × (run {B = B} windows (watermark w) ≡ some (run_next (watermark w') ∷ []))
      × (run_reduce as_slice new_buffer get_key reduce_func s (watermark w') ≢ none)
unfolding run run_reduce
watermark_accepted windows w as_slice new_buffer get_key reduce_func s c le small =
    let (ws, is, sorted, held, whole) = assign_windows_exact windows w.timestamp c small in
    let (v, first_is) =
      first-Any (span windows.size (last_start windows w.timestamp)) ws
        (assign_windows_last windows w.timestamp ws c small le is) in
    (
      set_watermark_windows w ws,
      rw (run, is) refl,
      λ stop. absurd (cc (rw (run_reduce, first_is) at stop)),
    )

-- Under a configured assigner with offset 0, a watermark before 2^61 whose time is at least a window's
-- size past a multiple of the slide is sent on with no window, and the reducer behind the assigner
-- panics on it, whatever its state.
pub watermark_gap_panics :
    {B : Type 0} (windows : SlidingEventTimeWindows) (w : Watermark) (as_slice : B → List ℕ)
    (new_buffer : B) (get_key : Option (Record B → Record B × Record B))
    (reduce_func : Option (Record B) → Record B → Record B × Record B) (s : ReduceRunnable B)
    → IsConfigured windows
    → w.timestamp < limit
    → windows.offset ≡ pos 0
    → windows.size ≤ w.timestamp % windows.slide
    → (w' : Watermark) × (run {B = B} windows (watermark w) ≡ some (run_next (watermark w') ∷ []))
      × (run_reduce as_slice new_buffer get_key reduce_func s (watermark w') ≡ none)
unfolding run run_reduce
watermark_gap_panics windows w as_slice new_buffer get_key reduce_func s c small no_offset gap = (
  set_watermark_windows w [],
  rw (run, assign_windows_gap windows w.timestamp c small no_offset gap) refl,
  refl,
)
