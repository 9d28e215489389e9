-- ===== src/Watermarks/Progress.antt =====
-- `apply` of `WatermarkManager`: the minimum before and after a call.
use mathlib.Core.Path.{subst}
use rlink_rs.Prelude.{
  All-get_elem?, ℕ, zero, suc, ◌≤◌, ◌<◌, ◌≡◌, refl, true, Option, some, List, [], ◌∷◌, ◌⊎◌, inl,
  inr, arith, All, ltb, leb, ◌==◌, sym, ap, ◌∙◌, set, get_elem?, Option-cases, Bool-cases,
}
use rlink_rs.Core.{Watermark, max_watermark, idle_watermark}
use rlink_rs.Watermarks.{
  ParentWatermark, Jobs, WatermarkManager, update_watermark, get, assign, update_parent, update,
  apply, min_watermark,
}
use rlink_rs.Watermarks.Minimum.{AtLeast, AllAtLeast, Reports, ReportsIn, min_watermark_least}

is_dependency-update_watermark :
    (p : ParentWatermark) (u : Watermark) → (update_watermark p u).is_dependency ≡ p.is_dependency
unfolding update_watermark
is_dependency-update_watermark p u = ground arith

-- What a parent task has after an update, if it had `v` before: `v` or the new watermark.
update_watermark-some :
    (p : ParentWatermark) (u v : Watermark) (t : ℕ)
    → t ≤ idle_watermark
    → p.latest_watermark ≡ some v
    → t ≤ v.timestamp
    → (w : Watermark) × ((update_watermark p u).latest_watermark ≡ some w) × (t ≤ w.timestamp)
unfolding update_watermark
update_watermark-some p u v t low at le = elim (Bool-cases (ltb max_watermark u.timestamp)) [
  | inl special ↦ (u, ground arith, ground arith)
  | inr normal ↦ elim (Bool-cases (leb v.timestamp u.timestamp)) [
    | inl later ↦ (u, ground arith, ground arith)
    | inr earlier ↦ (v, ground arith, le)
  ]
]

update_watermark-AtLeast :
    (t : ℕ) (p : ParentWatermark) (u : Watermark)
    → t ≤ idle_watermark
    → AtLeast t p
    → AtLeast t (update_watermark p u)
update_watermark-AtLeast t p u low h d =
    let (v, at, le) = h (sym (is_dependency-update_watermark p u) ∙ d) in
    update_watermark-some p u v t low at le

All-set {ℓ κ} :
    {A : Type ℓ} (P : A → Type κ) (xs : List A) (i : ℕ) (v : A)
    → All P xs
    → P v
    → All P (set xs i v)
All-set P [] i v h new = tt
All-set P (x ∷ xs) zero v h new = (new, h.1)
All-set P (x ∷ xs) (suc i) v h new = (h.0, All-set P xs i v h.1 new)

update_parent-AtLeast :
    (t : ℕ) (ps qs : List ParentWatermark) (u : Watermark)
    → t ≤ idle_watermark
    → All (AtLeast t) ps
    → update_parent ps u ≡ some qs
    → All (AtLeast t) qs
unfolding update_parent
update_parent-AtLeast t ps qs u low h e =
    let i = u.channel_key.source_task_id.task_number in
    elim (Option-cases (get_elem? ps i)) [
      | inl out ↦ absurd (cc (rw (out, update_parent) at e))
      | inr (p, at) ↦ elim (Bool-cases p.is_dependency) [
        | inl dep ↦ subst (All (AtLeast t)) (ground arith) (
            All-set (AtLeast t) ps i (update_watermark p u) h
              (update_watermark-AtLeast t p u low (All-get_elem? (AtLeast t) ps i p h at)))
        | inr free ↦ absurd (ground arith)
      ]
    ]

get-AtLeast :
    (t j : ℕ) (js : Jobs) (ps : List ParentWatermark)
    → AllAtLeast t js
    → get j js ≡ some ps
    → All (AtLeast t) ps
unfolding get
get-AtLeast t j [] ps h e = absurd (cc)
get-AtLeast t j ((i, qs) ∷ js) ps h e = elim (Bool-cases (i == j)) [
  | inl hit ↦ subst (All (AtLeast t)) (ground arith) h.0
  | inr miss ↦ get-AtLeast t j js ps h.1 (ground arith)
]

assign-AtLeast :
    (t j : ℕ) (js : Jobs) (qs : List ParentWatermark)
    → AllAtLeast t js
    → All (AtLeast t) qs
    → AllAtLeast t (assign j qs js)
unfolding assign
assign-AtLeast t j [] qs h new = tt
assign-AtLeast t j ((i, ps) ∷ js) qs h new = elim (Bool-cases (i == j)) [
  | inl hit ↦ rw hit (new, h.1)
  | inr miss ↦ rw miss (h.0, assign-AtLeast t j js qs h.1 new)
]

update-AtLeast :
    (t : ℕ) (m m' : WatermarkManager) (u : Watermark)
    → t ≤ idle_watermark
    → AllAtLeast t m.reached_watermarks
    → update m u ≡ some m'
    → AllAtLeast t m'.reached_watermarks
unfolding update
update-AtLeast t m m' u low h e =
    let j = u.channel_key.source_task_id.job_id in
    elim (Option-cases (get j m.reached_watermarks)) [
      | inl out ↦ absurd (cc (rw (out, update) at e))
      | inr (ps, at) ↦ elim (Option-cases (update_parent ps u)) [
        | inl bad ↦ absurd (cc (rw (at, update, bad) at e))
        | inr (qs, new) ↦
            subst (λ (n : WatermarkManager). AllAtLeast t n.reached_watermarks)
              (cc (rw (at, update, new) at e))
              (assign-AtLeast t j m.reached_watermarks qs h (
                update_parent-AtLeast t ps qs u low (get-AtLeast t j m.reached_watermarks ps h at)
                  new))
      ]
    ]

ReportsIn-AtLeast :
    (t : ℕ) (js : Jobs) (w : Watermark) → AllAtLeast t js → ReportsIn w js → t ≤ w.timestamp
ReportsIn-AtLeast t [] w h x = elim x [ ]
ReportsIn-AtLeast t (j ∷ js) w h (inl here) = in_tasks j.1 h.0 here
  where
    in_tasks : (ps : List ParentWatermark) → All (AtLeast t) ps → Reports w ps → t ≤ w.timestamp
    in_tasks [] a x = elim x [ ]
    in_tasks (p ∷ ps) a (inl (dep, at)) = let (v, e, le) = a.0 dep in ground (arith, at, e, le)
    in_tasks (p ∷ ps) a (inr later) = in_tasks ps a.1 later
ReportsIn-AtLeast t (j ∷ js) w h (inr there) = ReportsIn-AtLeast t js w h.1 there

-- The two branches of `apply`.
apply-cases :
    (m m' : WatermarkManager) (u : Watermark) (r : Option Watermark)
    → apply m u ≡ some (m', r)
    → ((m.reached_watermarks ≡ []) × (m' ≡ m)) ⊎ ((update m u ≡ some m') × (r ≡ min_watermark m'))
unfolding apply
apply-cases m m' u r e = go m.reached_watermarks refl
  where
    go :
        (js : Jobs)
        → m.reached_watermarks ≡ js
        → ((m.reached_watermarks ≡ []) × (m' ≡ m))
          ⊎ ((update m u ≡ some m') × (r ≡ min_watermark m'))
    go [] empty = inl (empty, cc (rw (empty, apply) at e))
    go (j ∷ js) full = elim (Option-cases (update m u)) [
      | inl bad ↦ absurd (cc (rw (full, apply, bad) at e))
      | inr (n, good) ↦
          inr (cc (good, rw (full, apply, good) at e), cc (rw (full, apply, good) at e))
    ]

-- From a minimum of at most the idle watermark, a call of `apply` gives no lower minimum.
pub apply_mono :
    (m m' : WatermarkManager) (u w w' : Watermark)
    → min_watermark m ≡ some w
    → w.timestamp ≤ idle_watermark
    → apply m u ≡ some (m', some w')
    → w.timestamp ≤ w'.timestamp
apply_mono m m' u w w' e low r = elim (apply-cases m m' u (some w') r) [
  | inl (empty, same) ↦ absurd (no_parents empty (min_watermark_least m w e).1)
  | inr (moved, least) ↦
      ReportsIn-AtLeast w.timestamp m'.reached_watermarks w'
        (update-AtLeast w.timestamp m m' u low (min_watermark_least m w e).0 moved)
        (min_watermark_least m' w' (sym least)).1
]
  where
    no_parents : m.reached_watermarks ≡ [] → ReportsIn w m.reached_watermarks → ⊥
    no_parents empty found = rw empty at found

set-same {ℓ} :
    {A : Type ℓ} (xs : List A) (i : ℕ) (v : A) → get_elem? xs i ≡ some v → set xs i v ≡ xs
set-same [] i v e = refl
set-same (x ∷ xs) zero v e = ground arith
set-same (x ∷ xs) (suc i) v e = ap (◌∷◌ x) (set-same xs i v e)

assign-same :
    (j : ℕ) (js : Jobs) (ps : List ParentWatermark) → get j js ≡ some ps → assign j ps js ≡ js
unfolding get assign
assign-same j [] ps e = refl
assign-same j ((i, qs) ∷ js) ps e = ground (arith, assign-same j js ps)

-- A parent task that has reported an idle watermark stays idle: a normal watermark from it changes
-- nothing in the manager.
pub idle_parent_ignored :
    (m : WatermarkManager) (u v : Watermark) (ps : List ParentWatermark) (p : ParentWatermark)
    → get u.channel_key.source_task_id.job_id m.reached_watermarks ≡ some ps
    → get_elem? ps u.channel_key.source_task_id.task_number ≡ some p
    → p.is_dependency ≡ true
    → p.latest_watermark ≡ some v
    → max_watermark < v.timestamp
    → u.timestamp ≤ max_watermark
    → update m u ≡ some m
unfolding update update_parent update_watermark
idle_parent_ignored m u v ps p job task dep at idle normal = ground (
  arith,
  set-same ps u.channel_key.source_task_id.task_number p,
  assign-same u.channel_key.source_task_id.job_id m.reached_watermarks ps,
)
