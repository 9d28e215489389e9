-- ===== src/WindowState/Merge.antt =====
-- `merge` of `MemoryWindowState`, and the value of a key in a window.
use rlink_rs.Prelude.{
  ℕ, ◌≡◌, refl, ap, ◌∙◌, true, false, Option, some, List, [], ◌∷◌, arith, inl, inr, All, ◌⊎◌, ◌==◌,
  Bool-cases, ==_iff,
}
use rlink_rs.Prelude.Maps.{lookup, lookup-insert_self, lookup-insert_other, IsTest}
use rlink_rs.Prelude.Sort.{Any}
use mathlib.Core.Path.{subst}
use rlink_rs.Core.{Record, Window, window_eq, time_window}
use rlink_rs.WindowState.{
  WindowState, slice_eq, record_eq, reduce_into, merge_value, merge_windows, merge,
  location_windows, table_or_new,
}

slice_eq→≡ : (xs ys : List ℕ) → slice_eq xs ys ≡ true → xs ≡ ys
unfolding slice_eq
slice_eq→≡ [] [] e = refl
slice_eq→≡ [] (y ∷ ys) e = grind arith
slice_eq→≡ (x ∷ xs) [] e = grind arith
slice_eq→≡ (x ∷ xs) (y ∷ ys) e = elim (Bool-cases (x == y)) [
  | inl same ↦ cc (slice_eq→≡ xs ys (cc (rw same at e)), (==_iff x y).0 same)
  | inr other ↦ absurd (cc (rw other at e))
]

slice_eq-IsTest : IsTest slice_eq
slice_eq-IsTest i j k e = ap (λ l. slice_eq l k) (slice_eq→≡ i j e)

pub slice_eq_refl : (xs : List ℕ) → slice_eq xs xs ≡ true
unfolding slice_eq
slice_eq_refl [] = refl
slice_eq_refl (x ∷ xs) = ground (arith, slice_eq_refl xs)

pub window_eq-IsTest : IsTest window_eq
window_eq-IsTest v w u e = ground arith

pub window_eq_refl : (w : Window) → window_eq w w ≡ true
window_eq_refl w = ground arith

pub window_eq→≡ : (v w : Window) → window_eq v w ≡ true → v ≡ w
window_eq→≡ (time_window v) (time_window w) e = elim (Bool-cases (v.start == w.start)) [
  | inl same ↦
      ap (λ a. time_window (record { start = a; end = v.end })) ((==_iff v.start w.start).0 same)
      ∙ ap (λ b. time_window (record { start = w.start; end = b }))
          ((==_iff v.end w.end).0 (cc (rw same at e)))
  | inr other ↦ absurd (cc (rw other at e))
]

module _ {B : Type 0} (as_slice : B → List ℕ) where
  record_eq-IsTest : IsTest (record_eq as_slice)
  unfolding record_eq
  record_eq-IsTest i j k e =
      slice_eq-IsTest (as_slice i.values) (as_slice j.values) (as_slice k.values) e

  -- The value of a key in a window.
  unfoldable pub value_at : Window → Record B → WindowState B → Option (Record B)
  unfolding lookup
  value_at w key s = lookup (record_eq as_slice) key (table_or_new (lookup window_eq w s.windows))

pub window_eq_sym : (v w : Window) → window_eq v w ≡ false → window_eq w v ≡ false
window_eq_sym v w e = ground arith

All-Any :
    (P : Window → Type 0) (v : Window) (ws : List Window) → All P ws → Any (λ w. w ≡ v) ws → P v
All-Any P v [] h any = elim any [ ]
All-Any P v (w ∷ ws) h (inl here) = subst P here h.0
All-Any P v (w ∷ ws) h (inr there) = All-Any P v ws h.1 there

-- No window stands twice in the list.
abbrev pub IsDistinct : List Window → Type 0
IsDistinct [] = Unit
IsDistinct (w ∷ ws) = All (λ v. window_eq v w ≡ false) ws × IsDistinct ws

module _ {B : Type 0} (as_slice : B → List ℕ)
    (reduce : Option (Record B) → Record B → Record B × Record B) where
  pub merge_value-value_at :
      (w : Window) (key r : Record B) (s : WindowState B)
      → value_at as_slice w key (merge_value as_slice reduce w key r s).0
        ≡ some (reduce (value_at as_slice w key s) r).0
  unfolding merge_value reduce_into value_at
  merge_value-value_at w key r s =
      rw
        (lookup-insert_self window_eq w
          (reduce_into as_slice reduce key r (table_or_new (lookup window_eq w s.windows))).0
          s.windows (window_eq_refl w))
        (lookup-insert_self (record_eq as_slice) key (reduce (value_at as_slice w key s) r).0
          (table_or_new (lookup window_eq w s.windows)) (slice_eq_refl (as_slice key.values)))

  merge_value-value_at_window :
      (w v : Window) (key k r : Record B) (s : WindowState B)
      → window_eq w v ≡ false
      → value_at as_slice v k (merge_value as_slice reduce w key r s).0 ≡ value_at as_slice v k s
  unfolding merge_value value_at
  merge_value-value_at_window w v key k r s other =
      ap (λ t. lookup (record_eq as_slice) k (table_or_new t))
        (lookup-insert_other window_eq w v
          (reduce_into as_slice reduce key r (table_or_new (lookup window_eq w s.windows))).0
          s.windows window_eq-IsTest other)

  merge_value-value_at_key :
      (w : Window) (key k r : Record B) (s : WindowState B)
      → record_eq as_slice key k ≡ false
      → value_at as_slice w k (merge_value as_slice reduce w key r s).0 ≡ value_at as_slice w k s
  unfolding merge_value value_at reduce_into
  merge_value-value_at_key w key k r s other =
      rw
        (lookup-insert_self window_eq w
          (reduce_into as_slice reduce key r (table_or_new (lookup window_eq w s.windows))).0
          s.windows (window_eq_refl w))
        (lookup-insert_other (record_eq as_slice) key k (reduce (value_at as_slice w key s) r).0
          (table_or_new (lookup window_eq w s.windows)) (record_eq-IsTest as_slice) other)

  -- Nothing else changes, in any window.
  merge_value-other :
      (w v : Window) (key k r : Record B) (s : WindowState B)
      → (window_eq w v ≡ false) ⊎ (record_eq as_slice key k ≡ false)
      → value_at as_slice v k (merge_value as_slice reduce w key r s).0 ≡ value_at as_slice v k s
  merge_value-other w v key k r s (inl other) = merge_value-value_at_window w v key k r s other
  merge_value-other w v key k r s (inr other) = elim (Bool-cases (window_eq w v)) [
    | inl same ↦
        subst
          (λ u.
            value_at as_slice u k (merge_value as_slice reduce w key r s).0
            ≡ value_at as_slice u k s)
          (window_eq→≡ w v same) (merge_value-value_at_key w key k r s other)
    | inr no_window ↦ merge_value-value_at_window w v key k r s no_window
  ]

  merge_windows-other :
      (ws : List Window) (v : Window) (key k r : Record B) (s : WindowState B)
      → All (λ w. window_eq w v ≡ false) ws ⊎ (record_eq as_slice key k ≡ false)
      → value_at as_slice v k (merge_windows as_slice reduce ws key r s) ≡ value_at as_slice v k s
  unfolding merge_windows
  merge_windows-other [] v key k r s h = refl
  merge_windows-other (w ∷ ws) v key k r s (inl h) =
      merge_windows-other ws v key k (merge_value as_slice reduce w key r s).1
        (merge_value as_slice reduce w key r s).0 (inl h.1)
      ∙ merge_value-other w v key k r s (inl h.0)
  merge_windows-other (w ∷ ws) v key k r s (inr h) =
      merge_windows-other ws v key k (merge_value as_slice reduce w key r s).1
        (merge_value as_slice reduce w key r s).0 (inr h)
      ∙ merge_value-other w v key k r s (inr h)

  module _ (keeps : (o : Option (Record B)) (r : Record B) → (reduce o r).1 ≡ r) where
    merge_value-keeps :
        (w : Window) (key r : Record B) (s : WindowState B)
        → (merge_value as_slice reduce w key r s).1 ≡ r
    unfolding merge_value reduce_into
    merge_value-keeps w key r s =
        keeps (lookup (record_eq as_slice) key (table_or_new (lookup window_eq w s.windows))) r

    merge_windows-value_at :
        (ws : List Window) (v : Window) (key r : Record B) (s : WindowState B)
        → IsDistinct ws
        → Any (λ w. w ≡ v) ws
        → value_at as_slice v key (merge_windows as_slice reduce ws key r s)
          ≡ some (reduce (value_at as_slice v key s) r).0
    unfolding merge_windows
    merge_windows-value_at [] v key r s d h = elim h [ ]
    merge_windows-value_at (w ∷ ws) v key r s d (inl here) =
        subst
          (λ u.
            value_at as_slice u key (merge_windows as_slice reduce (w ∷ ws) key r s)
            ≡ some (reduce (value_at as_slice u key s) r).0)
          here
          (merge_windows-other ws w key key (merge_value as_slice reduce w key r s).1
              (merge_value as_slice reduce w key r s).0 (inl d.0)
            ∙ merge_value-value_at w key r s)
    merge_windows-value_at (w ∷ ws) v key r s d (inr there) =
        merge_windows-value_at ws v key (merge_value as_slice reduce w key r s).1
          (merge_value as_slice reduce w key r s).0 d.1 there
        ∙ (ap
              (λ q.
                some
                  (reduce (value_at as_slice v key (merge_value as_slice reduce w key r s).0) q).0)
              (merge_value-keeps w key r s)
            ∙ ap (λ o. some (reduce o r).0)
                (merge_value-other w v key key r s
                  (inl (window_eq_sym v w (All-Any (λ u. window_eq u w ≡ false) v ws d.0 there)))))

    -- A record is reduced into the value of its key in each of its windows, and no other value
    -- changes, if its windows are distinct and the reduce function leaves the record as it is.
    pub merge_exact :
        (key r : Record B) (s : WindowState B)
        → IsDistinct (location_windows r)
        → ((v : Window)
            → Any (λ w. w ≡ v) (location_windows r)
            → value_at as_slice v key (merge as_slice reduce key r s)
              ≡ some (reduce (value_at as_slice v key s) r).0)
          × ((v : Window) (k : Record B)
              → All (λ w. window_eq w v ≡ false) (location_windows r)
                ⊎ (record_eq as_slice key k ≡ false)
              → value_at as_slice v k (merge as_slice reduce key r s) ≡ value_at as_slice v k s)
    unfolding merge
    merge_exact key r s d = (
      λ v h. merge_windows-value_at (location_windows r) v key r s d h,
      λ v k h. merge_windows-other (location_windows r) v key k r s h,
    )
