-- ===== src/WindowReduce/Drops.antt =====
-- `drop_state` of `WindowBaseReduceFunction`, window by window.
use rlink_rs.Prelude.{
  ℕ, ◌≡◌, refl, ◌∙◌, true, none, some, List, [], ◌∷◌, arith, inl, inr, ◌<◌, ◌≤◌, All, leb, map,
  Bool-cases, Option-cases,
}
use rlink_rs.Prelude.Maps.{lookup}
use rlink_rs.Prelude.Sort.{
  Any, IsSorted, sort_by_key, All-sort_by_key, Any-sort_by_key, sort_by_key-IsSorted,
}
use mathlib.Core.Path.{subst}
use rlink_rs.Core.{Window, window_eq, max_timestamp}
use rlink_rs.WindowState.{WindowState, ReducingState, drop_window, remove_drop_window, keys}
use rlink_rs.WindowState.Merge.{window_eq→≡}
use rlink_rs.WindowState.Drop.{
  IsMap, drop_window-IsMap, drop_window-lookup, drop_window-other, drop_window-gone,
}
use rlink_rs.WindowReduce.{WindowReduce, drop_loop, drop_state, drop_record}

module _ {B : Type 0} (t : ℕ) where
  -- A window that ends after `t` keeps its tables.
  drop_loop-later :
      (v : Window) (ws : List Window) (s : WindowState B)
      → t < max_timestamp v
      → lookup window_eq v (drop_loop t ws s).1.windows ≡ lookup window_eq v s.windows
  unfolding drop_loop
  drop_loop-later v [] s h = refl
  drop_loop-later v (w ∷ ws) s h = elim (Bool-cases (leb (max_timestamp w) t)) [
    | inl drops ↦
        rw drops
          (drop_loop-later v ws (drop_window w s) h ∙ (drop_window-other w v s (ground arith)).0)
    | inr stays ↦ rw stays (drop_loop-later v ws s h)
  ]

  -- A window that has no table gets none, and what is stored for it stays.
  drop_loop-gone :
      (v : Window) (ws : List Window) (s : WindowState B)
      → lookup window_eq v s.windows ≡ none
      → (lookup window_eq v (drop_loop t ws s).1.windows ≡ none)
        × (lookup window_eq v (drop_loop t ws s).1.dropped ≡ lookup window_eq v s.dropped)
  unfolding drop_loop
  drop_loop-gone v [] s h = (h, refl)
  drop_loop-gone v (w ∷ ws) s h = elim (Bool-cases (leb (max_timestamp w) t)) [
    | inl drops ↦
        let (gone, stored) = drop_window-gone w v s h in
        let (gone', stored') = drop_loop-gone v ws (drop_window w s) gone in
        rw drops (gone', stored' ∙ stored)
    | inr stays ↦ rw stays (drop_loop-gone v ws s h)
  ]

  -- A window of the list that ends by `t` loses its table to the storage.
  abbrev Handed : Window → WindowState B → WindowState B → Type 0
  Handed v s s' =
      (lookup window_eq v s'.windows ≡ none)
      × ((kv : ReducingState B)
          → lookup window_eq v s.windows ≡ some kv
          → lookup window_eq v s'.dropped ≡ some kv)

  drop_loop-due_first :
      (v w : Window) (ws : List Window) (s : WindowState B)
      → IsMap s.windows
      → max_timestamp v ≤ t
      → w ≡ v
      → Handed v s (drop_loop t (w ∷ ws) s).1
  unfolding drop_loop
  drop_loop-due_first v w ws s d h here =
      let drops : leb (max_timestamp w) t ≡ true = rw here (ground arith) in
      let (gone, stored) =
        subst (λ u. Handed u s (drop_window w s)) here (drop_window-lookup w s d) in
      let (gone', stored') = drop_loop-gone v ws (drop_window w s) gone in
      rw drops (gone', λ kv e. stored' ∙ stored kv e)

  drop_loop-due :
      (v : Window) (ws : List Window) (s : WindowState B)
      → IsMap s.windows
      → max_timestamp v ≤ t
      → Any (λ w. w ≡ v) ws
      → Handed v s (drop_loop t ws s).1
  unfolding drop_loop
  drop_loop-due v [] s d h any = elim any [ ]
  drop_loop-due v (w ∷ ws) s d h (inl here) = drop_loop-due_first v w ws s d h here
  drop_loop-due v (w ∷ ws) s d h (inr there) = elim (Bool-cases (window_eq w v)) [
    | inl same ↦ drop_loop-due_first v w ws s d h (window_eq→≡ w v same)
    | inr other ↦ elim (Bool-cases (leb (max_timestamp w) t)) [
      | inl drops ↦
          let (gone, handed) =
            drop_loop-due v ws (drop_window w s) (drop_window-IsMap w s d) h there in
          rw drops (gone, λ kv e. handed kv ((drop_window-other w v s other).0 ∙ e))
      | inr stays ↦ rw stays (drop_loop-due v ws s d h there)
    ]
  ]

  pub drop_loop-IsMap :
      (ws : List Window) (s : WindowState B) → IsMap s.windows → IsMap (drop_loop t ws s).1.windows
  unfolding drop_loop
  drop_loop-IsMap [] s d = d
  drop_loop-IsMap (w ∷ ws) s d = elim (Bool-cases (leb (max_timestamp w) t)) [
    | inl drops ↦ rw drops (drop_loop-IsMap ws (drop_window w s) (drop_window-IsMap w s d))
    | inr stays ↦ rw stays (drop_loop-IsMap ws s d)
  ]

keys-Any :
    {A : Type 0} (v : Window) (a : A) (m : List (Window × A))
    → lookup window_eq v m ≡ some a
    → Any (λ w. w ≡ v) (keys m)
unfolding lookup keys
keys-Any v a [] e = absurd (cc e)
keys-Any v a ((w, b) ∷ m) e = elim (Bool-cases (window_eq w v)) [
  | inl here ↦ inl (window_eq→≡ w v here)
  | inr there ↦ inr (keys-Any v a m (rw (lookup, there) at e))
]

module _ {B : Type 0} where
  pub drop_state-IsMap :
      (new_buffer : B) (t : ℕ) (f : WindowReduce B)
      → IsMap f.state.windows
      → IsMap (drop_state new_buffer t f).0.state.windows
  unfolding drop_state
  drop_state-IsMap new_buffer t f d = drop_loop-IsMap t (keys f.state.windows) f.state d

  -- A watermark hands the table of each window that ends by it to the storage, from where the next
  -- operator takes it, and leaves the tables of the other windows.
  pub drop_state_hands_over :
      (new_buffer : B) (t : ℕ) (f : WindowReduce B) (v : Window)
      → IsMap f.state.windows
      → (max_timestamp v ≤ t
          → (lookup window_eq v (drop_state new_buffer t f).0.state.windows ≡ none)
            × ((kv : ReducingState B)
                → lookup window_eq v f.state.windows ≡ some kv
                → (remove_drop_window v (drop_state new_buffer t f).0.state).1 ≡ some kv))
        × (t < max_timestamp v
            → lookup window_eq v (drop_state new_buffer t f).0.state.windows
              ≡ lookup window_eq v f.state.windows)
  unfolding drop_state remove_drop_window
  drop_state_hands_over new_buffer t f v d = (
    λ h. elim (Option-cases (lookup window_eq v f.state.windows)) [
      | inl gone ↦ (
        (drop_loop-gone t v (keys f.state.windows) f.state gone).0,
        λ kv e. absurd (cc (gone, e)),
      )
      | inr (a, there) ↦
          drop_loop-due t v (keys f.state.windows) f.state d h (keys-Any v a f.state.windows there)
    ],
    λ h. drop_loop-later t v (keys f.state.windows) f.state h,
  )

All-weaken :
    (P Q : Window → Type 0) (ws : List Window) → ((w : Window) → P w → Q w) → All P ws → All Q ws
All-weaken P Q [] f h = tt
All-weaken P Q (w ∷ ws) f h = (f w h.0, All-weaken P Q ws f h.1)

module _ {B : Type 0} (t : ℕ) where
  drop_loop-All :
      (ws : List Window) (s : WindowState B)
      → All (λ w. (max_timestamp w ≤ t) × Any (λ u. u ≡ w) ws) (drop_loop t ws s).0
  unfolding drop_loop
  drop_loop-All [] s = tt
  drop_loop-All (w ∷ ws) s =
      let weaken =
        All-weaken (λ v. (max_timestamp v ≤ t) × Any (λ u. u ≡ v) ws)
          (λ v. (max_timestamp v ≤ t) × Any (λ u. u ≡ v) (w ∷ ws)) in
      elim (Bool-cases (leb (max_timestamp w) t)) [
        | inl drops ↦ rw drops (
          (ground arith, inl refl),
          weaken (drop_loop t ws (drop_window w s)).0 (λ v h. (h.0, inr h.1))
              (drop_loop-All ws (drop_window w s)),
        )
        | inr stays ↦
            rw stays (weaken (drop_loop t ws s).0 (λ v h. (h.0, inr h.1)) (drop_loop-All ws s))
      ]

  drop_loop-Any :
      (v : Window) (ws : List Window) (s : WindowState B)
      → max_timestamp v ≤ t
      → Any (λ w. w ≡ v) ws
      → Any (λ w. w ≡ v) (drop_loop t ws s).0
  unfolding drop_loop
  drop_loop-Any v [] s h any = elim any [ ]
  drop_loop-Any v (w ∷ ws) s h (inl here) =
      let drops : leb (max_timestamp w) t ≡ true = rw here (ground arith) in rw drops (inl here)
  drop_loop-Any v (w ∷ ws) s h (inr there) = elim (Bool-cases (leb (max_timestamp w) t)) [
    | inl drops ↦ rw drops (inr (drop_loop-Any v ws (drop_window w s) h there))
    | inr stays ↦ rw stays (drop_loop-Any v ws s h there)
  ]

-- A watermark sends on one record for each entry of a list of windows in the order of their ends: each
-- of them stood in the state and ends by the watermark, and every such window is there.
pub drop_state_emits :
    {B : Type 0} (new_buffer : B) (t : ℕ) (f : WindowReduce B)
    → (ws : List Window) × ((drop_state new_buffer t f).1 ≡ map (drop_record new_buffer) ws)
      × IsSorted max_timestamp ws
      × All (λ w. (max_timestamp w ≤ t) × Any (λ u. u ≡ w) (keys f.state.windows)) ws
      × ((v : Window)
          → max_timestamp v ≤ t
          → Any (λ w. w ≡ v) (keys f.state.windows)
          → Any (λ w. w ≡ v) ws)
unfolding drop_state
drop_state_emits new_buffer t f =
    let dropped = (drop_loop t (keys f.state.windows) f.state).0 in
    (
      sort_by_key max_timestamp dropped,
      refl,
      sort_by_key-IsSorted max_timestamp dropped,
      All-sort_by_key max_timestamp
          (λ w. (max_timestamp w ≤ t) × Any (λ u. u ≡ w) (keys f.state.windows)) dropped
          (drop_loop-All t (keys f.state.windows) f.state),
      λ v h any.
          Any-sort_by_key max_timestamp (λ w. w ≡ v) dropped
            (drop_loop-Any t v (keys f.state.windows) f.state h any),
    )
