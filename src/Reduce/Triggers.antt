-- ===== src/Reduce/Triggers.antt =====
-- `ReduceRunnable`: the windows that it sends on over a run.
use rlink_rs.Prelude.{
  ℕ, ◌≡◌, refl, sym, ap, ◌∙◌, Option, none, some, List, [], ◌∷◌, arith, inl, inr, ◌≤◌, All,
  All-append, leb, map, ◌++◌, Bool-cases, Option-cases, some_injective,
}
use mathlib.Core.Path.{subst}
use rlink_rs.Prelude.Maps.{lookup}
use rlink_rs.Prelude.Sort.{Any}
use rlink_rs.Core.{
  Record, Window, Barrier, Watermark, window_eq, max_timestamp, min_timestamp, Element, data_record,
  watermark, barrier, stream_status,
}
use rlink_rs.WindowState.{keys}
use rlink_rs.WindowState.Merge.{window_eq_refl}
use rlink_rs.WindowReduce.{
  drop_record, ReduceCheckpointHandle, initialize_state, new as new_function,
}
use rlink_rs.WindowReduce.Drops.{drop_state_emits}
use rlink_rs.Reduce.{
  ReduceRunnable, Output, new, run_next, submit_checkpoint, min_location_windows, acceptable,
  key_of, run_record, run_watermark, run_barrier, run,
}
use rlink_rs.Reduce.Live.{Inv, InOrder, run-Inv}

-- The window that an output is the trigger of.
abbrev pub trigger : {B : Type 0} → Output B → Option Window
trigger (run_next (data_record r)) = r.trigger_window
trigger (run_next (watermark w)) = none
trigger (run_next (barrier b)) = none
trigger (run_next (stream_status st)) = none
trigger (submit_checkpoint id completed ws) = none

abbrev pub Never : {B : Type 0} → Window → List (Output B) → Type 0
Never v outs = All (λ o. (trigger o ≡ some v) → ⊥) outs

keys-lookup :
    {A : Type 0} (v : Window) (m : List (Window × A))
    → lookup window_eq v m ≡ none
    → Any (λ w. w ≡ v) (keys m)
    → ⊥
unfolding lookup keys
keys-lookup v [] e any = elim any [ ]
keys-lookup v ((w, a) ∷ m) e (inl here) =
    absurd (cc (rw (lookup, ap (λ u. window_eq u v) here ∙ window_eq_refl v) at e))
keys-lookup v ((w, a) ∷ m) e (inr there) = elim (Bool-cases (window_eq w v)) [
  | inl same ↦ absurd (cc (rw (lookup, same) at e))
  | inr other ↦ keys-lookup v m (rw (lookup, other) at e) there
]

module _ {B : Type 0} (new_buffer : B) where
  records_Never :
      (v : Window) (P : Window → Type 0) (ws : List Window)
      → All P ws
      → (P v → ⊥)
      → Never v (map (λ r. run_next (data_record r)) (map (drop_record new_buffer) ws))
  records_Never v P [] h no_v = tt
  records_Never v P (w ∷ ws) h no_v =
      (λ e. no_v (subst P (some_injective w v e) h.0), records_Never v P ws h.1 no_v)

module _ {B : Type 0} where
  Never-Any :
      (v : Window) (outs : List (Output B)) → Never v outs → Any (λ o. trigger o ≡ some v) outs → ⊥
  Never-Any v [] h any = elim any [ ]
  Never-Any v (o ∷ outs) h (inl here) = h.0 here
  Never-Any v (o ∷ outs) h (inr there) = Never-Any v outs h.1 there

  new-Inv :
      (handle : Option ReduceCheckpointHandle)
      → Inv (new {B = B} (initialize_state handle new_function))
  unfolding lookup
  new-Inv none = (tt, λ v le. refl)
  new-Inv (some handle) = (tt, λ v le. refl)

module _ {B : Type 0} (as_slice : B → List ℕ) (new_buffer : B)
    (get_key : Option (Record B → Record B × Record B))
    (reduce_func : Option (Record B) → Record B → Record B × Record B) where
  -- The elements, one after the other; `none` once one of them panics.
  unfoldable pub run_all :
      ReduceRunnable B → List (Element B) → Option (ReduceRunnable B × List (Output B))
  unfolding run
  run_all s [] = some (s, [])
  run_all s (e ∷ es) = elim (run as_slice new_buffer get_key reduce_func s e) [
    | none ↦ none
    | some (s', outs) ↦ elim (run_all s' es) [
      | none ↦ none
      | some (s'', outs') ↦ some (s'', outs ++ outs')
    ]
  ]

  run_watermark-Never :
      (s : ReduceRunnable B) (w v : Window)
      → ((max_timestamp v ≤ min_timestamp w) × Any (λ u. u ≡ v) (keys s.stream_reduce.state.windows)
          → ⊥)
      → Never v (run_watermark as_slice new_buffer get_key reduce_func s w).1
  unfolding run_watermark
  run_watermark-Never s w v no_v =
      let (ws, emits, sorted, drawn, rest) =
        drop_state_emits new_buffer (min_timestamp w) s.stream_reduce in
      rw emits (records_Never new_buffer v _ ws drawn no_v)

  run_barrier-Never :
      (s : ReduceRunnable B) (b : Barrier) (v : Window)
      → Never v (run_barrier as_slice new_buffer get_key reduce_func s b).1
  unfolding run_barrier
  run_barrier-Never s b v = (λ n. absurd (cc n), (λ n. absurd (cc n), tt))

  -- A window that ends by the start of the limit is not sent on by a step.
  step-Never :
      (s s' : ReduceRunnable B) (e : Element B) (outs : List (Output B)) (v : Window)
      → Inv s
      → max_timestamp v ≤ min_timestamp s.limited_watermark_window
      → run as_slice new_buffer get_key reduce_func s e ≡ some (s', outs)
      → Never v outs
  unfolding run
  step-Never s s' (data_record r) outs v h le e =
      subst (Never v)
        (ap (λ p. p.1)
          (some_injective (run_record as_slice new_buffer get_key reduce_func s r, []) (s', outs)
            e))
        tt
  step-Never s s' (watermark w) outs v h le e = elim (Option-cases (min_location_windows w)) [
    | inl nothing ↦ absurd (cc (rw (run, nothing) at e))
    | inr (u, is) ↦
        subst (Never v)
          (ap (λ p. p.1)
            (some_injective (run_watermark as_slice new_buffer get_key reduce_func s u) (s', outs)
              (rw (run, is) at e)))
          (run_watermark-Never s u v
            (λ (below, there). keys-lookup v s.stream_reduce.state.windows (h.1 v le) there))
  ]
  step-Never s s' (barrier b) outs v h le e =
      subst (Never v)
        (ap (λ p. p.1)
          (some_injective (run_barrier as_slice new_buffer get_key reduce_func s b) (s', outs) e))
        (run_barrier-Never s b v)
  step-Never s s' (stream_status st) outs v h le e =
      subst (Never v)
        (ap (λ p. p.1) (some_injective (s, run_next (stream_status st) ∷ []) (s', outs) e))
        (λ n. absurd (cc n), tt)

  run_record-limit :
      (s : ReduceRunnable B) (r : Record B)
      → (run_record as_slice new_buffer get_key reduce_func s r).limited_watermark_window
        ≡ s.limited_watermark_window
  unfolding run_record
  run_record-limit s r = elim (Bool-cases (acceptable s.limited_watermark_window r)) [
    | inl ok ↦ rw ok refl
    | inr late ↦ rw late refl
  ]

  run_watermark-limit :
      (s : ReduceRunnable B) (w : Window)
      → w ≡ (run_watermark as_slice new_buffer get_key reduce_func s w).0.limited_watermark_window
  unfolding run_watermark
  run_watermark-limit s w = refl

  run_barrier-limit :
      (s : ReduceRunnable B) (b : Barrier)
      → s.limited_watermark_window
        ≡ (run_barrier as_slice new_buffer get_key reduce_func s b).0.limited_watermark_window
  unfolding run_barrier
  run_barrier-limit s b = refl

  -- What a step leaves of the order, and that the limit does not go back.
  step-InOrder :
      (s s' : ReduceRunnable B) (e : Element B) (es : List (Element B)) (outs : List (Output B))
      → InOrder (min_timestamp s.limited_watermark_window) (e ∷ es)
      → run as_slice new_buffer get_key reduce_func s e ≡ some (s', outs)
      → InOrder (min_timestamp s'.limited_watermark_window) es
        × (min_timestamp s.limited_watermark_window ≤ min_timestamp s'.limited_watermark_window)
  unfolding run InOrder
  step-InOrder s s' (data_record r) es outs i e =
      subst
        (λ q.
          InOrder (min_timestamp q) es
          × (min_timestamp s.limited_watermark_window ≤ min_timestamp q))
        (sym (run_record-limit s r)
          ∙ ap (λ p. p.0.limited_watermark_window)
              (some_injective (run_record as_slice new_buffer get_key reduce_func s r, [])
                (s', outs) e))
        (i.1, omega arith)
  step-InOrder s s' (watermark w) es outs i e = elim (Option-cases (min_location_windows w)) [
    | inl nothing ↦ absurd (cc (rw (run, nothing) at e))
    | inr (u, is) ↦
        subst
          (λ q.
            InOrder (min_timestamp q) es
            × (min_timestamp s.limited_watermark_window ≤ min_timestamp q))
          (run_watermark-limit s u
            ∙ ap (λ p. p.0.limited_watermark_window)
                (some_injective (run_watermark as_slice new_buffer get_key reduce_func s u)
                  (s', outs) (rw (run, is) at e)))
          ((i u is).1, (i u is).0)
  ]
  step-InOrder s s' (barrier b) es outs i e =
      subst
        (λ q.
          InOrder (min_timestamp q) es
          × (min_timestamp s.limited_watermark_window ≤ min_timestamp q))
        (run_barrier-limit s b
          ∙ ap (λ p. p.0.limited_watermark_window)
              (some_injective (run_barrier as_slice new_buffer get_key reduce_func s b) (s', outs)
                e))
        (i, omega arith)
  step-InOrder s s' (stream_status st) es outs i e =
      subst
        (λ q.
          InOrder (min_timestamp q) es
          × (min_timestamp s.limited_watermark_window ≤ min_timestamp q))
        (ap (λ p. p.0.limited_watermark_window)
          (some_injective (s, run_next (stream_status st) ∷ []) (s', outs) e))
        (i, omega arith)

  -- A run of one element more is a step and a run.
  run_all-cons :
      (s s₂ : ReduceRunnable B) (e : Element B) (es : List (Element B)) (outs : List (Output B))
      → run_all s (e ∷ es) ≡ some (s₂, outs)
      → (s₁ : ReduceRunnable B) × (a : List (Output B)) × (b : List (Output B)) × (run as_slice
            new_buffer get_key reduce_func s e
          ≡ some (s₁, a))
        × (run_all s₁ es ≡ some (s₂, b))
        × (a ++ b ≡ outs)
  unfolding run_all
  run_all-cons s s₂ e es outs h =
      elim (Option-cases (run as_slice new_buffer get_key reduce_func s e)) [
        | inl stop ↦ absurd (cc (rw (run_all, stop) at h))
        | inr ((s₁, a), step) ↦ elim (Option-cases (run_all s₁ es)) [
          | inl stop ↦ absurd (cc (rw (run_all, step, stop) at h))
          | inr ((s₂', b), rest) ↦
              let same = some_injective (s₂', a ++ b) (s₂, outs) (rw (run_all, step, rest) at h) in
              (
                s₁,
                a,
                b,
                step,
                subst (λ q. run_all s₁ es ≡ some (q, b)) (ap (λ p. p.0) same) rest,
                ap (λ p. p.1) same,
              )
        ]
      ]

  module _
      (keeps : (r : Record B)
        → (key_of new_buffer get_key r).1.location_windows ≡ r.location_windows) where
    pub run_all-Inv :
        (s s' : ReduceRunnable B) (es fs : List (Element B)) (outs : List (Output B))
        → Inv s
        → InOrder (min_timestamp s.limited_watermark_window) (es ++ fs)
        → run_all s es ≡ some (s', outs)
        → Inv s' × InOrder (min_timestamp s'.limited_watermark_window) fs
    unfolding run_all
    run_all-Inv s s' [] fs outs h i e =
        subst (λ q. Inv q × InOrder (min_timestamp q.limited_watermark_window) fs)
          (ap (λ p. p.0) (some_injective (s, []) (s', outs) e)) (h, i)
    run_all-Inv s s' (e₁ ∷ es) fs outs h i e =
        let (s₁, a, b, step, rest, whole) = run_all-cons s s' e₁ es outs e in
        run_all-Inv s₁ s' es fs b
          (run-Inv as_slice new_buffer get_key reduce_func keeps s s₁ e₁ (es ++ fs) a h i step)
          (step-InOrder s s₁ e₁ (es ++ fs) a i step).0 rest

    -- A window that ends by the start of the limit is never sent on again.
    closed_Never :
        (s s' : ReduceRunnable B) (es : List (Element B)) (outs : List (Output B)) (v : Window)
        → Inv s
        → InOrder (min_timestamp s.limited_watermark_window) es
        → max_timestamp v ≤ min_timestamp s.limited_watermark_window
        → run_all s es ≡ some (s', outs)
        → Never v outs
    unfolding run_all
    closed_Never s s' [] outs v h i le e =
        subst (Never v) (ap (λ p. p.1) (some_injective (s, []) (s', outs) e)) tt
    closed_Never s s' (e₁ ∷ es) outs v h i le e =
        let (s₁, a, b, step, rest, whole) = run_all-cons s s' e₁ es outs e in
        let (order, forward) = step-InOrder s s₁ e₁ es a i step in
        subst (Never v) whole (
          All-append _ a b (step-Never s s₁ e₁ a v h le step) (
            closed_Never s₁ s' es b v
              (run-Inv as_slice new_buffer get_key reduce_func keeps s s₁ e₁ es a h i step) order
              (omega arith) rest))

    -- A window that a watermark sends on ends by the start of the new limit.
    watermark_closes :
        (s s' : ReduceRunnable B) (w : Watermark) (outs : List (Output B)) (v : Window)
        → run as_slice new_buffer get_key reduce_func s (watermark w) ≡ some (s', outs)
        → Any (λ o. trigger o ≡ some v) outs
        → max_timestamp v ≤ min_timestamp s'.limited_watermark_window
    unfolding run
    watermark_closes s s' w outs v e any = elim (Option-cases (min_location_windows w)) [
      | inl nothing ↦ absurd (cc (rw (run, nothing) at e))
      | inr (u, is) ↦
          let same =
            some_injective (run_watermark as_slice new_buffer get_key reduce_func s u) (s', outs)
              (rw (run, is) at e) in
          elim (Bool-cases (leb (max_timestamp v) (min_timestamp u))) [
            | inl below ↦
                subst (λ q. max_timestamp v ≤ min_timestamp q)
                  (run_watermark-limit s u ∙ ap (λ p. p.0.limited_watermark_window) same)
                  (ground arith)
            | inr above ↦ absurd (
                Never-Any v outs
                  (subst (Never v) (ap (λ p. p.1) same)
                    (run_watermark-Never s u v (λ (below, there). ground arith)))
                  any)
          ]
    ]

    -- From the start, with or without a checkpoint to restore: once a watermark has sent a window on, no
    -- later element sends it on again, if the records' windows all end after the start of the last one and
    -- the watermarks' windows do not go back.
    pub triggered_once :
        (handle : Option ReduceCheckpointHandle) (es fs : List (Element B)) (w : Watermark)
        (s₁ s₂ s₃ : ReduceRunnable B) (a b c : List (Output B)) (v : Window)
        → InOrder 0 (es ++ watermark w ∷ fs)
        → run_all (new (initialize_state handle new_function)) es ≡ some (s₁, a)
        → run as_slice new_buffer get_key reduce_func s₁ (watermark w) ≡ some (s₂, b)
        → Any (λ o. trigger o ≡ some v) b
        → run_all s₂ fs ≡ some (s₃, c)
        → Never v c
    triggered_once handle es fs w s₁ s₂ s₃ a b c v i before step fired after =
        let (inv, order) =
          run_all-Inv (new (initialize_state handle new_function)) s₁ es (watermark w ∷ fs) a
            (new-Inv handle) i before in
        closed_Never s₂ s₃ fs c v
          (run-Inv as_slice new_buffer get_key reduce_func keeps s₁ s₂ (watermark w) fs b inv order
            step)
          (step-InOrder s₁ s₂ (watermark w) fs b order step).0
          (watermark_closes s₁ s₂ w b v step fired) after
