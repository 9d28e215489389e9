-- ===== src/Reduce/Live.antt =====
-- `ReduceRunnable`: its invariant, on the windows that the state holds.
use rlink_rs.Prelude.{
  ℕ, ◌≡◌, sym, ap, ◌∙◌, true, Option, none, some, List, [], ◌∷◌, arith, inl, inr, ◌<◌, ◌≤◌, All,
  Bool-cases, Option-cases, some_injective, leb→le,
}
use rlink_rs.Prelude.Maps.{lookup, lookup-insert_other}
use mathlib.Core.Path.{subst}
use rlink_rs.Core.{
  Record, Window, Barrier, window_eq, max_timestamp, min_timestamp, Element, data_record, watermark,
  barrier, stream_status,
}
use rlink_rs.WindowState.{
  WindowState, location_windows, or_empty, merge, merge_windows, merge_value, reduce_into,
  table_or_new,
}
use rlink_rs.WindowState.Merge.{window_eq-IsTest}
use rlink_rs.WindowState.Drop.{IsMap, insert-IsMap}
use rlink_rs.WindowReduce.{
  WindowReduce, reduce, skip_filtered, with_windows, filter_skip_window, can_skip_window,
  snapshot_state,
}
use rlink_rs.WindowReduce.Drops.{drop_state_hands_over, drop_state-IsMap}
use rlink_rs.Reduce.{
  ReduceRunnable, Output, run_next, last, last_of, max_location_window, min_location_windows,
  acceptable, key_of, run_record, run_watermark, run_barrier, run,
}

-- The records of `t`'s windows end after it; a state with no table for a window that ends by `t`.
abbrev pub EndAfter : ℕ → List Window → Type 0
EndAfter t ws = All (λ w. t < max_timestamp w) ws

abbrev pub IsLive : {B : Type 0} → ℕ → WindowState B → Type 0
IsLive t s = (v : Window) → max_timestamp v ≤ t → lookup window_eq v s.windows ≡ none

module _ {B : Type 0} (as_slice : B → List ℕ)
    (reduce_func : Option (Record B) → Record B → Record B × Record B) (t : ℕ) where
  merge_windows-IsLive :
      (ws : List Window) (key r : Record B) (s : WindowState B)
      → EndAfter t ws
      → IsMap s.windows × IsLive t s
      → IsMap (merge_windows as_slice reduce_func ws key r s).windows
        × IsLive t (merge_windows as_slice reduce_func ws key r s)
  unfolding merge_windows merge_value
  merge_windows-IsLive [] key r s a h = h
  merge_windows-IsLive (w ∷ ws) key r s a h =
      let kv =
        (reduce_into as_slice reduce_func key r (table_or_new (lookup window_eq w s.windows))).0 in
      merge_windows-IsLive ws key (merge_value as_slice reduce_func w key r s).1
        (merge_value as_slice reduce_func w key r s).0 a.1
        (
          insert-IsMap w kv s.windows h.0,
          λ v le.
              lookup-insert_other window_eq w v kv s.windows window_eq-IsTest (ground arith)
              ∙ h.1 v le,
        )

  filter_skip_window-EndAfter :
      (skip ws : List Window) → EndAfter t ws → EndAfter t (filter_skip_window skip ws)
  unfolding filter_skip_window
  filter_skip_window-EndAfter skip [] a = tt
  filter_skip_window-EndAfter skip (w ∷ ws) a = elim (Bool-cases (can_skip_window skip w)) [
    | inl skips ↦ rw skips (filter_skip_window-EndAfter skip ws a.1)
    | inr takes ↦ rw takes (a.0, filter_skip_window-EndAfter skip ws a.1)
  ]

  with_windows-EndAfter :
      (r r' : Record B) (ws : List Window)
      → with_windows r ws ≡ some r'
      → EndAfter t ws
      → EndAfter t (location_windows r')
  with_windows-EndAfter r r' [] e a = absurd (cc e)
  with_windows-EndAfter r r' (v ∷ vs) e a =
      subst (λ q. EndAfter t (location_windows q))
        (some_injective (record r { location_windows = some (v ∷ vs) }) r' e) a

  skip_filtered-EndAfter :
      (skip : List Window) (r r' : Record B) (l : Option (List Window))
      → skip_filtered skip r l ≡ some r'
      → EndAfter t (or_empty l)
      → EndAfter t (location_windows r)
      → EndAfter t (location_windows r')
  unfolding skip_filtered
  skip_filtered-EndAfter [] r r' l e al a =
      subst (λ q. EndAfter t (location_windows q)) (some_injective r r' e) a
  skip_filtered-EndAfter (x ∷ xs) r r' none e al a =
      subst (λ q. EndAfter t (location_windows q)) (some_injective r r' e) a
  skip_filtered-EndAfter (x ∷ xs) r r' (some ws) e al a =
      with_windows-EndAfter r r' (filter_skip_window (x ∷ xs) ws) e
        (filter_skip_window-EndAfter (x ∷ xs) ws al)

  reduce-IsLive :
      (key r : Record B) (f : WindowReduce B)
      → EndAfter t (location_windows r)
      → IsMap f.state.windows × IsLive t f.state
      → IsMap (reduce as_slice reduce_func key r f).state.windows
        × IsLive t (reduce as_slice reduce_func key r f).state
  unfolding reduce merge
  reduce-IsLive key r f a h =
      elim (Option-cases (skip_filtered f.skip_windows r r.location_windows)) [
        | inl skips ↦ rw (reduce, skips) h
        | inr (r', takes) ↦
            rw (reduce, takes)
              (merge_windows-IsLive (location_windows r') key r' f.state
                (skip_filtered-EndAfter f.skip_windows r r' r.location_windows takes a a) h)
      ]

  -- A snapshot does not touch the tables.
  snapshot_state-IsLive :
      (id : ℕ) (f : WindowReduce B)
      → IsMap f.state.windows × IsLive t f.state
      → IsMap (snapshot_state id f).0.state.windows × IsLive t (snapshot_state id f).0.state
  unfolding snapshot_state
  snapshot_state-IsLive id f h = h

EndAfter-le : (t u : ℕ) (ws : List Window) → t ≤ u → EndAfter u ws → EndAfter t ws
EndAfter-le t u [] h a = tt
EndAfter-le t u (w ∷ ws) h a = (omega arith, EndAfter-le t u ws h a.1)

last-cons : (w : Window) (ws : List Window) → last (w ∷ ws) ≡ none → ⊥
last-cons w [] e = cc e
last-cons w (v ∷ ws) e = last-cons v ws e

last-EndAfter :
    (t : ℕ) (l : Option (List Window))
    → ((w : Window)
        → last_of l ≡ some w
        → (t ≤ min_timestamp w) × EndAfter (min_timestamp w) (or_empty l))
    → EndAfter t (or_empty l)
last-EndAfter t none h = tt
last-EndAfter t (some []) h = tt
last-EndAfter t (some (w ∷ ws)) h = elim (Option-cases (last (w ∷ ws))) [
  | inl nothing ↦ absurd (last-cons w ws nothing)
  | inr (v, is) ↦ EndAfter-le t (min_timestamp v) (w ∷ ws) (h v is).0 (h v is).1
]

module _ {B : Type 0} where
  -- A record's windows all hold its time, so each of them ends after the start of the last one.
  abbrev pub IsAssigned : Record B → Type 0
  IsAssigned r =
      (w : Window)
      → max_location_window r ≡ some w
      → EndAfter (min_timestamp w) (location_windows r)

  -- The records are assigned, and the watermarks' windows do not go back from a start of `t`.
  unfoldable pub InOrder : ℕ → List (Element B) → Type 0
  InOrder t [] = Unit
  InOrder t (data_record r ∷ es) = IsAssigned r × InOrder t es
  InOrder t (watermark w ∷ es) =
      (v : Window)
      → min_location_windows w ≡ some v
      → (t ≤ min_timestamp v) × InOrder (min_timestamp v) es
  InOrder t (barrier b ∷ es) = InOrder t es
  InOrder t (stream_status st ∷ es) = InOrder t es

  -- The invariant of the runnable
  abbrev pub Inv : ReduceRunnable B → Type 0
  Inv s =
      IsMap s.stream_reduce.state.windows
      × IsLive (min_timestamp s.limited_watermark_window) s.stream_reduce.state

module _ {B : Type 0} (as_slice : B → List ℕ) (new_buffer : B)
    (get_key : Option (Record B → Record B × Record B))
    (reduce_func : Option (Record B) → Record B → Record B × Record B)
    (keeps : (r : Record B)
      → (key_of new_buffer get_key r).1.location_windows ≡ r.location_windows) where
  accepted-EndAfter :
      (limit : Window) (r : Record B)
      → acceptable limit r ≡ true
      → IsAssigned r
      → EndAfter (min_timestamp limit) (location_windows r)
  unfolding acceptable
  accepted-EndAfter limit r ok a =
      last-EndAfter (min_timestamp limit) r.location_windows (λ w is.
        (leb→le (min_timestamp limit) (min_timestamp w) (rw (acceptable, is) at ok), a w is))

  run_record-Inv :
      (s : ReduceRunnable B) (r : Record B)
      → Inv s
      → IsAssigned r
      → Inv (run_record as_slice new_buffer get_key reduce_func s r)
  unfolding run_record
  run_record-Inv s r h a = elim (Bool-cases (acceptable s.limited_watermark_window r)) [
    | inl ok ↦ rw ok (
        reduce-IsLive as_slice reduce_func (min_timestamp s.limited_watermark_window)
          (key_of new_buffer get_key r).0 (key_of new_buffer get_key r).1 s.stream_reduce
          (subst (λ l. EndAfter (min_timestamp s.limited_watermark_window) (or_empty l))
            (sym (keeps r)) (accepted-EndAfter s.limited_watermark_window r ok a))
          h)
    | inr late ↦ rw late h
  ]

  run_watermark-Inv :
      (s : ReduceRunnable B) (w : Window)
      → Inv s
      → Inv (run_watermark as_slice new_buffer get_key reduce_func s w).0
  unfolding run_watermark
  run_watermark-Inv s w h = (
    drop_state-IsMap new_buffer (min_timestamp w) s.stream_reduce h.0,
    λ v le. ((drop_state_hands_over new_buffer (min_timestamp w) s.stream_reduce v h.0).0 le).0,
  )

  run_barrier-Inv :
      (s : ReduceRunnable B) (b : Barrier)
      → Inv s
      → Inv (run_barrier as_slice new_buffer get_key reduce_func s b).0
  unfolding run_barrier
  run_barrier-Inv s b h =
      snapshot_state-IsLive as_slice reduce_func (min_timestamp s.limited_watermark_window)
        b.checkpoint_id s.stream_reduce h

  -- A step that does not panic keeps the invariant: the keys are distinct, and no window that ends by
  -- the start of the limit has a table. It is a step on the first element of an input in order, in
  -- which each record's windows end after the start of its last one and no watermark's first window
  -- starts before that of the watermark in front of it or before the limit; and the key selector
  -- leaves the record's windows as they are.
  pub run-Inv :
      (s s' : ReduceRunnable B) (e : Element B) (es : List (Element B)) (outs : List (Output B))
      → Inv s
      → InOrder (min_timestamp s.limited_watermark_window) (e ∷ es)
      → run as_slice new_buffer get_key reduce_func s e ≡ some (s', outs)
      → Inv s'
  unfolding run InOrder
  run-Inv s s' (data_record r) es outs h i e =
      subst Inv
        (ap (λ p. p.0)
          (some_injective (run_record as_slice new_buffer get_key reduce_func s r, []) (s', outs)
            e))
        (run_record-Inv s r h i.0)
  run-Inv s s' (watermark w) es outs h i e = elim (Option-cases (min_location_windows w)) [
    | inl nothing ↦ absurd (cc (rw (run, nothing) at e))
    | inr (v, is) ↦
        subst Inv
          (ap (λ p. p.0)
            (some_injective (run_watermark as_slice new_buffer get_key reduce_func s v) (s', outs)
              (rw (run, is) at e)))
          (run_watermark-Inv s v h)
  ]
  run-Inv s s' (barrier b) es outs h i e =
      subst Inv
        (ap (λ p. p.0)
          (some_injective (run_barrier as_slice new_buffer get_key reduce_func s b) (s', outs) e))
        (run_barrier-Inv s b h)
  run-Inv s s' (stream_status st) es outs h i e =
      subst Inv (ap (λ p. p.0) (some_injective (s, run_next (stream_status st) ∷ []) (s', outs) e))
        h
