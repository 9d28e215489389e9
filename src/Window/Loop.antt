-- ===== src/Window/Loop.antt =====
-- The loop of `assign_windows` of rlink/src/functions/window/mod.rs.
use mathlib.Core.List.{append-nil, append_assoc}
use rlink_rs.Prelude.{
  ℕ, zero, suc, ◌+◌, ◌-◌, ◌^◌, ◌≤◌, ◌<◌, ◌≡◌, refl, true, false, some, List, [], ◌∷◌, ◌++◌, ltb,
  leb, arith, inl, inr, Bool-cases,
}
use rlink_rs.Prelude.Int.{
  ℤ, pos, negsuc, pos_part, neg_part, ltb_ℤ, as_i64, as_u64, sub_i64, as_i64-eq, -ℤ_parts,
  sub_i64_small, int_laws,
}
use rlink_rs.Core.{Window, time_window}
use rlink_rs.Window.{window_at, window_loop}

-- A plain window of numbers.
abbrev pub span : ℕ → ℕ → Window
span size start = time_window (record { start = start; end = start + size })

-- Times that keep `i64` arithmetic from wrapping: below 2^61 milliseconds.
abbrev pub limit : ℕ
limit = 2 ^ 61

sign_below : (k : ℕ) → ltb_ℤ (negsuc k) (pos 0) ≡ true
sign_below k = ground arith

sign_above : (s : ℕ) → ltb_ℤ (pos s) (pos 0) ≡ false
sign_above s = ground arith

module _ (t size slide : ℕ) where
  -- The windows in the order in which the loop pushes them, from the start `s` down.
  abbrev pub Chain : ℕ → List Window → Type 0
  Chain s [] = s + size ≤ t
  Chain s (w ∷ ws) =
      (w ≡ span size s)
      × (t < s + size)
      × ((slide ≤ s) → Chain (s - slide) ws)
      × ((s < slide) → ws ≡ [])

  -- One round, with its integer arithmetic in range.
  round_test :
      (start : ℤ)
      → t < limit
      → size < limit
      → ltb_ℤ (sub_i64 (as_i64 t) (as_i64 size)) start
        ≡ ltb (t + neg_part start) (pos_part start + size)
  round_test start ht hs =
      rw
        (
          as_i64-eq t (omega arith),
          as_i64-eq size (omega arith),
          sub_i64_small (pos t) (pos size) (omega arith) (omega arith),
        )
        (ground (arith, -ℤ_parts (pos t) (pos size)))

  step_below :
      (k : ℕ)
      → slide < limit
      → suc k < limit
      → sub_i64 (negsuc k) (as_i64 slide) ≡ negsuc (k + slide)
  step_below k hd hk =
      rw
        (
          as_i64-eq slide (omega arith),
          sub_i64_small (negsuc k) (pos slide) (omega arith) (omega arith),
        )
        (omega (int_laws))

  -- Below 0 nothing is pushed any more.
  window_loop_below :
      (fuel k : ℕ) (acc : List Window)
      → t < limit
      → size < limit
      → slide < limit
      → 0 < slide
      → 0 < fuel
      → size < t + suc k + fuel
      → window_loop fuel (negsuc k) t size slide acc ≡ some acc
  unfolding window_loop
  window_loop_below zero k acc ht hs hd p f enough = absurd (omega arith)
  window_loop_below (suc fuel) k acc ht hs hd p f enough =
      elim (Bool-cases (ltb (t + suc k) (0 + size))) [
        | inr stop ↦ rw (round_test (negsuc k) ht hs, stop)
        | inl go ↦
            rw (round_test (negsuc k) ht hs, go, sign_below k, step_below k hd (ground arith))
              (window_loop_below fuel (k + slide) acc ht hs hd p (ground arith) (ground arith))
      ]

  step_down :
      (s : ℕ)
      → slide < limit
      → s < limit
      → slide ≤ s
      → sub_i64 (pos s) (as_i64 slide) ≡ pos (s - slide)
  step_down s hd h le =
      rw
        (
          as_i64-eq slide (omega arith),
          sub_i64_small (pos s) (pos slide) (omega arith) (omega arith),
        )
        (omega (int_laws))

  step_under :
      (s : ℕ)
      → slide < limit
      → s < limit
      → s < slide
      → sub_i64 (pos s) (as_i64 slide) ≡ negsuc (slide - s - 1)
  step_under s hd h lt =
      rw
        (
          as_i64-eq slide (omega arith),
          sub_i64_small (pos s) (pos slide) (omega arith) (omega arith),
        )
        (omega (int_laws))

  window_at-span : (s : ℕ) → s < limit → size < limit → window_at size (pos s) ≡ span size s
  unfolding as_u64
  window_at-span s h hs = ground arith

  -- From a start that is not negative, the loop appends a chain of windows.
  pub window_loop-Chain :
      (fuel s : ℕ) (acc : List Window)
      → t < limit
      → size < limit
      → slide < limit
      → s < limit
      → 0 < slide
      → 0 < fuel
      → s + size < t + fuel
      → (ws : List Window) × (window_loop fuel (pos s) t size slide acc ≡ some (acc ++ ws))
        × Chain s ws
  unfolding window_loop
  window_loop-Chain zero s acc ht hs hd h p f enough = absurd (omega arith)
  window_loop-Chain (suc fuel) s acc ht hs hd h p f enough =
      elim (Bool-cases (ltb (t + 0) (s + size))) [
        | inr stop ↦ ([], rw (round_test (pos s) ht hs, stop, append-nil), ground arith)
        | inl go ↦ elim (Bool-cases (leb slide s)) [
          | inl more ↦
              let (ws, run, chain) =
                window_loop-Chain fuel (s - slide) (acc ++ span size s ∷ []) ht hs hd (omega arith)
                  p (ground arith) (ground arith) in
              (
                span size s ∷ ws,
                rw (
                  round_test (pos s) ht hs,
                  go,
                  sign_above s,
                  step_down s hd h (ground arith),
                  window_at-span s h hs,
                  run,
                  append_assoc,
                ),
                (refl, ground arith, (λ _. chain), λ lt. absurd (ground arith)),
              )
          | inr last ↦ (
            span size s ∷ [],
            rw
                (
                  round_test (pos s) ht hs,
                  go,
                  sign_above s,
                  step_under s hd h (ground arith),
                  window_at-span s h hs,
                )
                (window_loop_below fuel (slide - s - 1) _ ht hs hd p (ground arith) (ground arith)),
            (refl, ground arith, (λ le. absurd (ground arith)), λ _. refl),
          )
        ]
      ]
