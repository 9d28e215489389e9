-- ===== src/WindowReduce/Snapshots.antt =====
-- `snapshot_state` of `WindowBaseReduceFunction`: the checkpoints that it remembers.
use rlink_rs.Prelude.{
  ℕ, ◌+◌, ◌≡◌, ◌∙◌, refl, ◌≤◌, Bool, none, some, List, [], ◌∷◌, length, arith, inl, inr, ◌==◌, ltb,
  Bool-cases, Option-cases, some_injective, ==_iff,
}
use rlink_rs.Prelude.Maps.{insert, delete, length-insert, length-delete}
use rlink_rs.Prelude.Sort.{Any}
use rlink_rs.Core.{Window}
use rlink_rs.WindowState.{keys}
use rlink_rs.WindowReduce.{
  WindowReduce, min_id, protect_memory, remove_all, completed_ids, uncompleted, snapshot_state,
}

abbrev Checkpoints : Type 0
Checkpoints = List (ℕ × List (Window × Bool))

length-delete_present :
    (id : ℕ) (m : Checkpoints) → Any (λ e. e.0 ≡ id) m → length (delete ◌==◌ id m) + 1 ≡ length m
unfolding delete
length-delete_present id [] any = elim any [ ]
length-delete_present id ((j, ws) ∷ m) (inl here) = rw ((==_iff j id).1 here) (omega arith)
length-delete_present id ((j, ws) ∷ m) (inr there) = elim (Bool-cases (j == id)) [
  | inl same ↦ rw same (omega arith)
  | inr other ↦ rw other (omega (arith, length-delete_present id m there))
]

min_id-Any : (id : ℕ) (m : Checkpoints) → min_id m ≡ some id → Any (λ e. e.0 ≡ id) m
unfolding min_id
min_id-Any id [] e = absurd (cc e)
min_id-Any id ((j, ws) ∷ m) e = elim (Option-cases (min_id m)) [
  | inl none_left ↦ inl (some_injective j id (rw (min_id, none_left) at e))
  | inr (least, is) ↦ elim (Bool-cases (ltb least j)) [
    | inl less ↦ inr (min_id-Any id m (is ∙ rw (min_id, is, less) at e))
    | inr more ↦ inl (some_injective j id (rw (min_id, is, more) at e))
  ]
]

min_id_empty : (m : Checkpoints) → min_id m ≡ none → length m ≡ 0
unfolding min_id
min_id_empty [] e = refl
min_id_empty ((j, ws) ∷ m) e = elim (Option-cases (min_id m)) [
  | inl none_left ↦ absurd (cc (rw (min_id, none_left) at e))
  | inr (least, is) ↦ absurd (cc (rw (min_id, is) at e))
]

length-remove_all : (ids : List ℕ) (m : Checkpoints) → length (remove_all ids m) ≤ length m
unfolding remove_all
length-remove_all [] m = omega arith
length-remove_all (id ∷ ids) m =
    omega (arith, length-delete ◌==◌ id m, length-remove_all ids (delete ◌==◌ id m))

length-protect_memory : (m : Checkpoints) → length m ≤ 101 → length (protect_memory m) ≤ 100
unfolding protect_memory
length-protect_memory m h = elim (Option-cases (min_id m)) [
  | inl empty ↦ rw (protect_memory, empty) (omega (arith, min_id_empty m empty))
  | inr (id, is) ↦ elim (Bool-cases (ltb 100 (length m))) [
    | inl above ↦
        rw (protect_memory, is, above)
          (omega (arith, length-delete_present id m (min_id-Any id m is)))
    | inr below ↦ rw (protect_memory, is, below) (ground arith)
  ]
]

-- The function remembers at most 100 checkpoints after a snapshot, if it did before it.
pub snapshots_bounded :
    {B : Type 0} (id : ℕ) (f : WindowReduce B)
    → length f.window_checkpoints ≤ 100
    → length (snapshot_state id f).0.window_checkpoints ≤ 100
unfolding snapshot_state
snapshots_bounded id f h =
    let m = insert ◌==◌ id (uncompleted (keys f.state.windows)) f.window_checkpoints in
    length-protect_memory (remove_all (completed_ids m) m) (
      omega (
        arith,
        h,
        length-insert ◌==◌ id (uncompleted (keys f.state.windows)) f.window_checkpoints,
        length-remove_all (completed_ids m) m,
      ))
