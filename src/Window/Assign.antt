-- ===== src/Window/Assign.antt =====
-- `assign_windows` of rlink/src/functions/window/mod.rs, against the grid of the slides.
use mathlib.Core.Path.{subst, ap}
use native.Mathlib.Nat.{add-zero}
use rlink_rs.Prelude.{
  ℕ, zero, suc, ◌+◌, ◌-◌, ◌*◌, ◌%◌, ◌≤◌, ◌<◌, ◌≡◌, refl, ◌∙◌, some, List, [], ◌∷◌, inl, inr,
  if◌then◌else◌, leb, arith, All, Bool-cases,
}
use rlink_rs.Prelude.Int.{
  pos, pos_part, neg_part, ltb_ℤ, sub_i64, add_i64, ◌-ℤ◌, ◌%ℤ◌, as_i64-eq, sub_i64_small,
  add_i64_small, int_laws, sub_ℕ,
}
use rlink_rs.Prelude.Sort.{
  IsSorted, Any, sort_by_key, All-sort_by_key, Any-sort_by_key, sort_by_key-IsSorted,
}
use rlink_rs.Core.{Window, min_timestamp}
use rlink_rs.Window.{
  SlidingEventTimeWindows, get_window_start_with_offset, first_start, assign_windows,
}
use rlink_rs.Window.Loop.{span, limit, Chain, window_loop-Chain}

-- What `SlidingEventTimeWindows::new` lets through, with sizes below `limit`.
pub record IsConfigured (w : SlidingEventTimeWindows) : Type 0 where
  pub small_slide : w.slide < limit
  pub small_size : w.size < limit
  pub some_size : 0 < w.size
  pub small_offset : pos_part w.offset + neg_part w.offset < w.slide

-- The last window start at or before the timestamp, and 0 where the grid has none.
abbrev pub last_start : SlidingEventTimeWindows → ℕ → ℕ
last_start w t = t - (t + w.slide + neg_part w.offset - pos_part w.offset) % w.slide

shifted :
    (w : SlidingEventTimeWindows) (t : ℕ)
    → IsConfigured w
    → t < limit
    → add_i64 (sub_i64 (pos t) w.offset) (pos w.slide)
      ≡ pos (t + w.slide + neg_part w.offset - pos_part w.offset)
shifted w t c ht =
    rw
      (
        sub_i64_small (pos t) w.offset (omega (arith, c.small_slide, c.small_offset))
            (omega (arith, c.small_slide, c.small_offset)),
        add_i64_small (pos t -ℤ w.offset) (pos w.slide)
            (omega (int_laws, c.small_slide, c.small_offset))
            (omega (int_laws, c.small_slide, c.small_offset)),
      )
      (omega (int_laws, c.small_slide, c.small_offset))

window_start :
    (w : SlidingEventTimeWindows) (t : ℕ)
    → IsConfigured w
    → t < limit
    → get_window_start_with_offset t w.offset w.slide
      ≡ sub_ℕ t ((t + w.slide + neg_part w.offset - pos_part w.offset) % w.slide)
unfolding get_window_start_with_offset ◌%ℤ◌ ◌-ℤ◌
window_start w t c ht =
    rw
      (
        as_i64-eq t (omega arith),
        as_i64-eq w.slide (omega (arith, c.small_slide)),
        shifted w t c ht,
        add-zero w.slide,
      )
      (rw
        (sub_i64_small (pos t)
          (pos ((t + w.slide + neg_part w.offset - pos_part w.offset) % w.slide)) (omega arith)
          (omega (arith, c.small_slide, c.small_offset)))
        (ground arith))

clamped : (a b : ℕ) → (if ltb_ℤ (sub_ℕ a b) (pos 0) then pos 0 else sub_ℕ a b) ≡ pos (a - b)
clamped a b = ground arith

first_start-eq :
    (w : SlidingEventTimeWindows) (t : ℕ)
    → IsConfigured w
    → t < limit
    → first_start w t ≡ pos (last_start w t)
unfolding first_start
first_start-eq w t c ht =
    rw (window_start w t c ht)
      (clamped t ((t + w.slide + neg_part w.offset - pos_part w.offset) % w.slide))

-- A window of the grid that ends at `last`, `k` slides before it, which holds `t`.
abbrev pub Holds : SlidingEventTimeWindows → ℕ → ℕ → Window → Type 0
Holds w t last v =
    (s : ℕ) × (k : ℕ) × (v ≡ span w.size s) × (s + k * w.slide ≡ last) × (s ≤ t) × (t < s + w.size)

Chain-Holds :
    (w : SlidingEventTimeWindows) (t last s k : ℕ) (ws : List Window)
    → s + k * w.slide ≡ last
    → s ≤ t
    → Chain t w.size w.slide s ws
    → All (Holds w t last) ws
Chain-Holds w t last s k [] e le c = tt
Chain-Holds w t last s k (v ∷ []) e le c = ((s, k, c.0, e, le, c.1), tt)
Chain-Holds w t last s k (v ∷ u ∷ ws) e le c = elim (Bool-cases (leb w.slide s)) [
  | inl more ↦ (
    (s, k, c.0, e, le, c.1),
    Chain-Holds w t last (s - w.slide) (k + 1) (u ∷ ws) (ground arith) (omega arith)
        (c.2 (ground arith)),
  )
  | inr done ↦ absurd (cc (c.3 (ground arith)))
]

Chain-Any :
    (w : SlidingEventTimeWindows) (t s s' k : ℕ) (ws : List Window)
    → s' + k * w.slide ≡ s
    → t < s' + w.size
    → Chain t w.size w.slide s ws
    → Any (λ v. v ≡ span w.size s') ws
Chain-Any w t s s' k [] e lt c = absurd (omega arith)
Chain-Any w t s s' zero (v ∷ ws) e lt c =
    let same : s ≡ s' = omega arith in inl (c.0 ∙ ap (span w.size) same)
Chain-Any w t s s' (suc k) (v ∷ ws) e lt c =
    inr (Chain-Any w t (s - w.slide) s' k ws (omega arith) lt (c.2 (omega arith)))

-- For a configured assigner and a timestamp before 2^61 the loop ends. The windows are in the order of
-- their starts; each of them lies a whole number of slides before `last_start` and holds the
-- timestamp; and every window that does so is there.
pub assign_windows_exact :
    (w : SlidingEventTimeWindows) (t : ℕ)
    → IsConfigured w
    → t < limit
    → (ws : List Window) × (assign_windows w t ≡ some ws)
      × IsSorted min_timestamp ws
      × All (Holds w t (last_start w t)) ws
      × ((s k : ℕ)
          → s + k * w.slide ≡ last_start w t
          → t < s + w.size
          → Any (λ v. v ≡ span w.size s) ws)
unfolding assign_windows
assign_windows_exact w t c ht =
    let (ws, run, chain) =
      window_loop-Chain t w.size w.slide (w.size + 1) (last_start w t) [] ht c.small_size
        c.small_slide (omega arith) (omega (arith, c.small_offset)) (omega arith) (omega arith) in
    (
      sort_by_key min_timestamp ws,
      rw (first_start-eq w t c ht, run),
      sort_by_key-IsSorted min_timestamp ws,
      All-sort_by_key min_timestamp (Holds w t (last_start w t)) ws (
          Chain-Holds w t (last_start w t) (last_start w t) 0 ws (omega arith) (omega arith) chain),
      λ s k e lt.
          Any-sort_by_key min_timestamp (λ v. v ≡ span w.size s) ws
            (Chain-Any w t (last_start w t) s k ws e lt chain),
    )

-- If windows are at least a slide long, the last window before the timestamp is assigned, so there is
-- one at least.
pub assign_windows_last :
    (w : SlidingEventTimeWindows) (t : ℕ) (ws : List Window)
    → IsConfigured w
    → t < limit
    → w.slide ≤ w.size
    → assign_windows w t ≡ some ws
    → Any (λ v. v ≡ span w.size (last_start w t)) ws
assign_windows_last w t ws c ht le e =
    let (vs, run, sorted, holds, complete) = assign_windows_exact w t c ht in
    subst (Any (λ v. v ≡ span w.size (last_start w t))) (cc (run, e))
      (complete (last_start w t) 0 (omega arith) (ground (arith, c.small_offset)))

-- Nothing holds the timestamp where the last grid window has ended.
Holds-nil :
    (w : SlidingEventTimeWindows) (t : ℕ) (ws : List Window)
    → last_start w t + w.size ≤ t
    → All (Holds w t (last_start w t)) ws
    → ws ≡ []
Holds-nil w t [] ended holds = refl
Holds-nil w t (v ∷ ws) ended holds = let (s, k, at, grid, le, lt) = holds.0 in absurd (omega arith)

mod_shift : (t d : ℕ) → 0 < d → (t + d + 0 - 0) % d ≡ t % d
mod_shift t d h = grind arith

last_start_zero :
    (w : SlidingEventTimeWindows) (t : ℕ)
    → IsConfigured w
    → w.offset ≡ pos 0
    → w.size ≤ t % w.slide
    → last_start w t + w.size ≤ t
last_start_zero w t c zero_offset gap =
    rw
      (
        ap neg_part zero_offset,
        ap pos_part zero_offset,
        mod_shift t w.slide (omega (arith, c.small_offset)),
      )
      (omega arith)

-- With offset 0, a timestamp that is at least a window's size past a multiple of the slide gets none.
pub assign_windows_gap :
    (w : SlidingEventTimeWindows) (t : ℕ)
    → IsConfigured w
    → t < limit
    → w.offset ≡ pos 0
    → w.size ≤ t % w.slide
    → assign_windows w t ≡ some []
assign_windows_gap w t c ht zero_offset gap =
    let (ws, run, sorted, holds, complete) = assign_windows_exact w t c ht in
    rw run (ap some (Holds-nil w t ws (last_start_zero w t c zero_offset gap) holds))
