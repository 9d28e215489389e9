-- ===== src/Reduce/Tests.antt =====
-- Runs of a reducer over two windows, and witnesses of the theorems.
use rlink_rs.Prelude.{
  ℕ, ◌≡◌, refl, false, Option, none, some, List, [], ◌∷◌, ◌++◌, arith, inl, inr, some_injective,
  ◌≤◌,
}
use rlink_rs.Prelude.Maps.{lookup}
use mathlib.Core.Path.{subst}
use rlink_rs.Core.{
  Record, Window, Watermark, Element, data_record, watermark, time_window, window_eq,
  default_channel_key, min_timestamp,
}
use rlink_rs.WindowState.{new as new_state, merge}
use rlink_rs.WindowState.Merge.{merge_exact, value_at}
use rlink_rs.WindowReduce.{new as new_function, drop_record, drop_state, snapshot_state}
use rlink_rs.WindowReduce.Drops.{drop_state_hands_over}
use rlink_rs.Reduce.{ReduceRunnable, Output, new, run, run_next}
use rlink_rs.Reduce.Live.{InOrder, EndAfter, run-Inv, Inv}
use rlink_rs.Reduce.Triggers.{run_all, triggered_once, Never}

abbrev bytes : List ℕ → List ℕ
bytes xs = xs

abbrev window : ℕ → ℕ → Window
window a b = time_window (record { start = a; end = b })

abbrev at : ℕ → List Window → Record (List ℕ)
at t ws = record {
  partition_num = 0;
  timestamp = t;
  channel_key = default_channel_key;
  location_windows = some ws;
  trigger_window = none;
  values = 7 ∷ [];
}

abbrev mark : Window → Watermark
mark w = record {
  partition_num = 0;
  timestamp = 0;
  channel_key = default_channel_key;
  location_windows = some (w ∷ []);
  downstream = false;
  drop_windows = none;
}

abbrev limit_at : Window → Element (List ℕ)
limit_at w = watermark (mark w)

-- The newest record wins.
abbrev newest : Option (Record (List ℕ)) → Record (List ℕ) → Record (List ℕ) × Record (List ℕ)
newest old r = (r, r)

abbrev early : Window
early = window 0 10

abbrev late : Window
late = window 10 20

abbrev input : List (Element (List ℕ))
input = data_record (at 5 (early ∷ [])) ∷ data_record (at 12 (late ∷ [])) ∷ []

abbrev State : Type 0
State = ReduceRunnable (List ℕ)

abbrev start : State
start = new new_function

abbrev state_of : Option (State × List (Output (List ℕ))) → State
state_of none = start
state_of (some (s, outs)) = s

abbrev outputs_of : Option (State × List (Output (List ℕ))) → List (Output (List ℕ))
outputs_of none = []
outputs_of (some (s, outs)) = outs

abbrev s₁ : State
s₁ = state_of (run_all bytes [] none newest start input)

abbrev s₂ : State
s₂ = state_of (run bytes [] none newest s₁ (limit_at late))

abbrev more : List (Element (List ℕ))
more = data_record (at 3 (early ∷ [])) ∷ limit_at (window 20 30) ∷ []

-- The late record is dropped, and only the second window is sent on.
run_drops_late :
    outputs_of (run_all bytes [] none newest s₂ more)
    ≡ run_next (data_record (drop_record [] late)) ∷ []
unfolding run_all snapshot_state
run_drops_late = refl

only : (P : Window → Type 0) (v : Window) → P v → (w : Window) → some v ≡ some w → P w
only P v p w e = subst P (some_injective v w e) p

more-InOrder : InOrder 10 more
unfolding InOrder
more-InOrder = (
  only (λ w. EndAfter (min_timestamp w) (early ∷ [])) early (omega arith, tt),
  only (λ v. (10 ≤ min_timestamp v) × InOrder {B = List ℕ} (min_timestamp v) []) (window 20 30)
      (omega arith, tt),
)

input-InOrder : InOrder 0 (input ++ limit_at late ∷ more)
unfolding InOrder
input-InOrder = (
  only (λ w. EndAfter (min_timestamp w) (early ∷ [])) early (omega arith, tt),
  (
    only (λ w. EndAfter (min_timestamp w) (late ∷ [])) late (omega arith, tt),
    only (λ v. (0 ≤ min_timestamp v) × InOrder (min_timestamp v) more) late
        (omega arith, more-InOrder),
  ),
)

triggered_once_example : Never early (outputs_of (run_all bytes [] none newest s₂ more))
unfolding run_all
triggered_once_example =
    triggered_once bytes [] none newest (λ r. refl) none input more (mark late) s₁ s₂
      (state_of (run_all bytes [] none newest s₂ more)) []
      (outputs_of (run bytes [] none newest s₁ (limit_at late)))
      (outputs_of (run_all bytes [] none newest s₂ more)) early input-InOrder refl refl (inl refl)
      refl

start-Inv : Inv start
unfolding lookup
start-Inv = (tt, λ v le. refl)

run-Inv_example : Inv (state_of (run bytes [] none newest start (data_record (at 5 (early ∷ [])))))
unfolding run
run-Inv_example =
    run-Inv bytes [] none newest (λ r. refl) start
      (state_of (run bytes [] none newest start (data_record (at 5 (early ∷ [])))))
      (data_record (at 5 (early ∷ []))) (data_record (at 12 (late ∷ [])) ∷ limit_at late ∷ more) []
      start-Inv input-InOrder refl

merge_exact_example :
    value_at bytes late
      (at 9 [])
      (merge bytes newest (at 9 []) (at 5 (early ∷ late ∷ [])) new_state)
    ≡ some (at 5 (early ∷ late ∷ []))
unfolding value_at
merge_exact_example =
    (merge_exact bytes newest (λ o r. refl) (at 9 []) (at 5 (early ∷ late ∷ [])) new_state
        ((refl, tt), (tt, tt))).0
      late (inr (inl refl))

drop_state_hands_over_example :
    lookup window_eq early (drop_state [] 10 s₁.stream_reduce).0.state.windows ≡ none
unfolding run_all
drop_state_hands_over_example =
    ((drop_state_hands_over [] 10 s₁.stream_reduce early (refl, (refl, tt))).0 (omega arith)).0
