-- ===== src/WindowState.antt =====
-- `MemoryWindowState` of rlink/src/storage/keyed_state/mem_window_state.rs, with the tables of
-- mem_reducing_state.rs and, of mem_storage.rs, the dropped windows of the task at hand. A key is
-- compared by the bytes of its buffer, which `as_slice` of the third-party `serbuffer` gives. The
-- order in which a `HashMap` or a `BTreeMap` is visited is that of the list which stands for it.
pub mod Merge
pub mod Drop
use rlink_rs.Prelude.{
  ℕ, Bool, true, false, Option, none, some, List, [], ◌∷◌, ◌==◌, ◌&&◌, if◌then◌else◌,
}
use rlink_rs.Prelude.Maps.{lookup, insert, delete}
use rlink_rs.Core.{Record, Window, window_eq}

-- `PartialEq` of two slices
unfoldable pub slice_eq : List ℕ → List ℕ → Bool
slice_eq [] [] = true
slice_eq [] (y ∷ ys) = false
slice_eq (x ∷ xs) [] = false
slice_eq (x ∷ xs) (y ∷ ys) = x == y && slice_eq xs ys

-- `MemoryReducingState`: the value of each key of one window
abbrev pub ReducingState : Type 0 → Type 0
ReducingState B = List (Record B × Record B)

pub record WindowState (B : Type 0) : Type 0 where
  pub windows : List (Window × ReducingState B)
  pub dropped : List (Window × ReducingState B)

-- `MemoryWindowState::new`
abbrev pub new : {B : Type 0} → WindowState B
new = record { windows = []; dropped = [] }

abbrev pub or_empty : Option (List Window) → List Window
or_empty none = []
or_empty (some ws) = ws

-- `Record::location_windows`
abbrev pub location_windows : {B : Type 0} → Record B → List Window
location_windows r = or_empty r.location_windows

-- The table of a window, where there may be none
abbrev pub table_or_new : {B : Type 0} → Option (ReducingState B) → ReducingState B
table_or_new none = []
table_or_new (some kv) = kv

-- `windows`
unfoldable pub keys : {A : Type 0} → List (Window × A) → List Window
keys [] = []
keys ((w, a) ∷ rest) = w ∷ keys rest

-- `append_drop_window` of mem_storage.rs, and `remove_drop_window`
unfoldable pub append_drop_window :
    {B : Type 0} → Window → ReducingState B → WindowState B → WindowState B
unfolding insert
append_drop_window w kv s = record s { dropped = insert window_eq w kv s.dropped }

unfoldable pub remove_drop_window :
    {B : Type 0} → Window → WindowState B → WindowState B × Option (ReducingState B)
unfolding lookup delete
remove_drop_window w s =
    (record s { dropped = delete window_eq w s.dropped }, lookup window_eq w s.dropped)

-- `drop_window`
unfoldable pub drop_window : {B : Type 0} → Window → WindowState B → WindowState B
unfolding append_drop_window lookup delete
drop_window w s = elim (lookup window_eq w s.windows) [
  | none ↦ s
  | some kv ↦ append_drop_window w kv (record s { windows = delete window_eq w s.windows })
]

-- `PartialEq` of `Record`
unfoldable pub record_eq : {B : Type 0} → (B → List ℕ) → Record B → Record B → Bool
unfolding slice_eq
record_eq as_slice r q = slice_eq (as_slice r.values) (as_slice q.values)

module _ {B : Type 0} (as_slice : B → List ℕ)
    (reduce : Option (Record B) → Record B → Record B × Record B) where
  -- The table of a window with one more record. `reduce` gives the new value and the record, which
  -- it takes by `&mut` and may change.
  unfoldable pub reduce_into : Record B → Record B → ReducingState B → ReducingState B × Record B
  unfolding record_eq lookup insert
  reduce_into key r kv =
      let (value, r') = reduce (lookup (record_eq as_slice) key kv) r in
      (insert (record_eq as_slice) key value kv, r')

  -- `merge_value`; a window without a table gets one.
  unfoldable pub merge_value :
      Window → Record B → Record B → WindowState B → WindowState B × Record B
  unfolding reduce_into lookup insert
  merge_value w key r s =
      let (kv', r') = reduce_into key r (table_or_new (lookup window_eq w s.windows)) in
      (record s { windows = insert window_eq w kv' s.windows }, r')

  -- The loop of `merge`, over the windows of the record
  unfoldable pub merge_windows : List Window → Record B → Record B → WindowState B → WindowState B
  unfolding merge_value
  merge_windows [] key r s = s
  merge_windows (w ∷ ws) key r s =
      let (s', r') = merge_value w key r s in merge_windows ws key r' s'

  -- `merge`. One window alone is merged by the same call.
  unfoldable pub merge : Record B → Record B → WindowState B → WindowState B
  unfolding merge_windows
  merge key r s = merge_windows (location_windows r) key r s
