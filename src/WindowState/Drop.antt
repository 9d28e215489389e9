-- ===== src/WindowState/Drop.antt =====
-- `drop_window` of `MemoryWindowState`, and the keys of its tables.
use rlink_rs.Prelude.{
  ◌≡◌, refl, ap, ◌∙◌, false, none, some, List, [], ◌∷◌, inl, inr, if◌then◌else◌, Bool-cases,
  Option-cases,
}
use rlink_rs.Prelude.Maps.{lookup, insert, delete, lookup-insert_self, lookup-insert_other}
use rlink_rs.Core.{Window, window_eq}
use rlink_rs.WindowState.{WindowState, ReducingState, drop_window, append_drop_window}
use rlink_rs.WindowState.Merge.{window_eq-IsTest, window_eq_refl, window_eq→≡, window_eq_sym}

module _ {A : Type 0} where
  -- No window is the key of two entries.
  abbrev pub IsMap : List (Window × A) → Type 0
  IsMap [] = Unit
  IsMap ((w, a) ∷ m) = (lookup window_eq w m ≡ none) × IsMap m

  lookup-delete_self :
      (w : Window) (m : List (Window × A))
      → IsMap m
      → lookup window_eq w (delete window_eq w m) ≡ none
  unfolding lookup delete
  lookup-delete_self w [] d = refl
  lookup-delete_self w ((v, a) ∷ m) d = elim (Bool-cases (window_eq v w)) [
    | inl here ↦ rw here (rw (window_eq→≡ v w here) at d.0)
    | inr there ↦ rw (there, lookup, there) (lookup-delete_self w m d.1)
  ]

  lookup-delete_other :
      (w v : Window) (m : List (Window × A))
      → window_eq w v ≡ false
      → lookup window_eq v (delete window_eq w m) ≡ lookup window_eq v m
  unfolding lookup delete
  lookup-delete_other w v [] other = refl
  lookup-delete_other w v ((u, a) ∷ m) other = elim (Bool-cases (window_eq u w)) [
    | inl here ↦ rw (here, window_eq-IsTest u w v here, other) refl
    | inr there ↦
        rw (there, lookup)
          (ap (λ rest. if window_eq u v then some a else rest) (lookup-delete_other w v m other))
  ]

  delete-IsMap : (w : Window) (m : List (Window × A)) → IsMap m → IsMap (delete window_eq w m)
  unfolding delete
  delete-IsMap w [] d = tt
  delete-IsMap w ((v, a) ∷ m) d = elim (Bool-cases (window_eq v w)) [
    | inl here ↦ rw here d.1
    | inr there ↦
        rw there (lookup-delete_other w v m (window_eq_sym v w there) ∙ d.0, delete-IsMap w m d.1)
  ]

  pub insert-IsMap :
      (w : Window) (a : A) (m : List (Window × A)) → IsMap m → IsMap (insert window_eq w a m)
  unfolding insert lookup
  insert-IsMap w a [] d = (refl, tt)
  insert-IsMap w a ((v, b) ∷ m) d = elim (Bool-cases (window_eq v w)) [
    | inl here ↦ rw here d
    | inr there ↦ rw there (
      lookup-insert_other window_eq w v a m window_eq-IsTest (window_eq_sym v w there) ∙ d.0,
      insert-IsMap w a m d.1,
    )
  ]

module _ {B : Type 0} where
  pub drop_window-IsMap :
      (w : Window) (s : WindowState B) → IsMap s.windows → IsMap (drop_window w s).windows
  unfolding drop_window append_drop_window
  drop_window-IsMap w s d = elim (Option-cases (lookup window_eq w s.windows)) [
    | inl gone ↦ rw (drop_window, gone) d
    | inr (kv, there) ↦ rw (drop_window, there) (delete-IsMap w s.windows d)
  ]

  -- The window has no table behind it, and its table is in the storage of the dropped windows.
  pub drop_window-lookup :
      (w : Window) (s : WindowState B)
      → IsMap s.windows
      → (lookup window_eq w (drop_window w s).windows ≡ none)
        × ((kv : ReducingState B)
            → lookup window_eq w s.windows ≡ some kv
            → lookup window_eq w (drop_window w s).dropped ≡ some kv)
  unfolding drop_window append_drop_window
  drop_window-lookup w s d = elim (Option-cases (lookup window_eq w s.windows)) [
    | inl gone ↦ (rw (drop_window, gone) gone, λ kv e. absurd (cc (gone, e)))
    | inr (kv, there) ↦ (
      rw (drop_window, there) (lookup-delete_self w s.windows d),
      λ kv' e.
          rw (drop_window, e) (lookup-insert_self window_eq w kv' s.dropped (window_eq_refl w)),
    )
  ]

  -- Another window's tables stay.
  pub drop_window-other :
      (w v : Window) (s : WindowState B)
      → window_eq w v ≡ false
      → (lookup window_eq v (drop_window w s).windows ≡ lookup window_eq v s.windows)
        × (lookup window_eq v (drop_window w s).dropped ≡ lookup window_eq v s.dropped)
  unfolding drop_window append_drop_window
  drop_window-other w v s other = elim (Option-cases (lookup window_eq w s.windows)) [
    | inl gone ↦ rw (drop_window, gone) (refl, refl)
    | inr (kv, there) ↦
        rw (drop_window, there)
          (
            lookup-delete_other w v s.windows other,
            lookup-insert_other window_eq w v kv s.dropped window_eq-IsTest other,
          )
  ]

  -- A window without a table gets none, and what is stored for it stays.
  pub drop_window-gone :
      (w v : Window) (s : WindowState B)
      → lookup window_eq v s.windows ≡ none
      → (lookup window_eq v (drop_window w s).windows ≡ none)
        × (lookup window_eq v (drop_window w s).dropped ≡ lookup window_eq v s.dropped)
  unfolding drop_window
  drop_window-gone w v s h = elim (Bool-cases (window_eq w v)) [
    | inl same ↦
        rw (drop_window, ap (λ u. lookup window_eq u s.windows) (window_eq→≡ w v same) ∙ h)
          (h, refl)
    | inr other ↦ ((drop_window-other w v s other).0 ∙ h, (drop_window-other w v s other).1)
  ]
