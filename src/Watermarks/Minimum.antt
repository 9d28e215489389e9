-- ===== src/Watermarks/Minimum.antt =====
-- `min_watermark` of `WatermarkManager`, against what the parent tasks have reported.
use rlink_rs.Prelude.{
  ℕ, ◌≤◌, ◌≡◌, refl, true, false, Option, none, some, List, [], ◌∷◌, ◌⊎◌, inl, inr, arith, All, ltb,
  Option-cases, Bool-cases,
}
use rlink_rs.Core.{Watermark}
use rlink_rs.Watermarks.{
  ParentWatermark, Jobs, WatermarkManager, lesser, min_of_tasks, min_of_jobs, min_watermark,
}

-- A parent task that the minimum ranges over has reported, and not less than `t`.
abbrev pub AtLeast : ℕ → ParentWatermark → Type 0
AtLeast t p =
    p.is_dependency ≡ true → (w : Watermark) × (p.latest_watermark ≡ some w) × (t ≤ w.timestamp)

abbrev pub AllAtLeast : ℕ → Jobs → Type 0
AllAtLeast t js = All (λ j. All (AtLeast t) j.1) js

-- Some parent task has reported exactly `w`.
abbrev pub Reports : Watermark → List ParentWatermark → Type 0
Reports w [] = ⊥
Reports w (p ∷ ps) = ((p.is_dependency ≡ true) × (p.latest_watermark ≡ some w)) ⊎ Reports w ps

abbrev pub ReportsIn : Watermark → Jobs → Type 0
ReportsIn w [] = ⊥
ReportsIn w (j ∷ js) = Reports w j.1 ⊎ ReportsIn w js

-- The tasks hold no place for a dependency.
abbrev pub NoneDepends : List ParentWatermark → Type 0
NoneDepends = All (λ p. p.is_dependency ≡ false)

AtLeast-mono :
    {s t : ℕ} (ps : List ParentWatermark) → s ≤ t → All (AtLeast t) ps → All (AtLeast s) ps
AtLeast-mono [] h a = tt
AtLeast-mono (p ∷ ps) h a =
    (λ d. let (w, e, le) = a.0 d in (w, e, omega arith), AtLeast-mono ps h a.1)

-- The result is at most the start value, and a lower bound of the tasks.
min_of_tasks_lower :
    (ps : List ParentWatermark) (least : Option Watermark) (w : Watermark)
    → min_of_tasks ps least ≡ some (some w)
    → (All (AtLeast w.timestamp) ps)
      × ((l : Watermark) → least ≡ some l → w.timestamp ≤ l.timestamp)
unfolding min_of_tasks
min_of_tasks_lower [] least w e = (tt, λ l h. ground (arith, h))
min_of_tasks_lower (p ∷ ps) least w e = elim (Bool-cases p.is_dependency) [
  | inr skip ↦
      let (rest, start) = min_of_tasks_lower ps least w (ground arith) in
      (((λ d. absurd (cc)), rest), start)
  | inl dep ↦ elim (Option-cases p.latest_watermark) [
    | inl missing ↦ absurd (ground arith)
    | inr (v, at) ↦
        let (rest, start) = min_of_tasks_lower ps (some (lesser v least)) w (ground arith) in
        let below = start (lesser v least) refl in
        (((λ d. (v, at, ground (arith, below))), rest), λ l h. ground (arith, below, h))
  ]
]

-- The result is what a task has reported, or the start value.
min_of_tasks-Reports :
    (ps : List ParentWatermark) (least : Option Watermark) (w : Watermark)
    → min_of_tasks ps least ≡ some (some w)
    → Reports w ps ⊎ (least ≡ some w)
unfolding min_of_tasks
min_of_tasks-Reports [] least w e = inr (ground arith)
min_of_tasks-Reports (p ∷ ps) least w e = elim (Bool-cases p.is_dependency) [
  | inr skip ↦ elim (min_of_tasks-Reports ps least w (ground arith)) [
    | inl later ↦ inl (inr later)
    | inr start ↦ inr start
  ]
  | inl dep ↦ elim (Option-cases p.latest_watermark) [
    | inl missing ↦ absurd (ground arith)
    | inr (v, at) ↦ elim (min_of_tasks-Reports ps (some (lesser v least)) w (ground arith)) [
      | inl later ↦ inl (inr later)
      | inr start ↦ lesser-cases v least at start dep
    ]
  ]
]
  where
    lesser-cases :
        (v : Watermark) (least : Option Watermark)
        → p.latest_watermark ≡ some v
        → some (lesser v least) ≡ some w
        → p.is_dependency ≡ true
        → (((p.is_dependency ≡ true) × (p.latest_watermark ≡ some w)) ⊎ Reports w ps)
          ⊎ (least ≡ some w)
    lesser-cases v none at start dep = inl (inl (dep, cc))
    lesser-cases v (some l) at start dep = elim (Bool-cases (ltb v.timestamp l.timestamp)) [
      | inl less ↦ inl (inl (dep, ground arith))
      | inr more ↦ inr (ground arith)
    ]

-- Where all tasks have reported, the loop runs to its end, and a candidate stays a candidate.
min_of_tasks_total :
    (ps : List ParentWatermark) (least : Option Watermark)
    → All (AtLeast 0) ps
    → (least' : Option Watermark) × (min_of_tasks ps least ≡ some least')
      × ((least' ≡ none) → (least ≡ none) × NoneDepends ps)
unfolding min_of_tasks
min_of_tasks_total [] least a = (least, refl, λ e. (e, tt))
min_of_tasks_total (p ∷ ps) least a = elim (Bool-cases p.is_dependency) [
  | inr skip ↦
      let (r, run, empty) = min_of_tasks_total ps least a.1 in
      (r, ground arith, λ e. ((empty e).0, (skip, (empty e).1)))
  | inl dep ↦
      let (v, at, le) = a.0 dep in
      let (r, run, empty) = min_of_tasks_total ps (some (lesser v least)) a.1 in
      (r, ground arith, λ e. absurd (cc ((empty e).0)))
]

-- No candidate at the end: there was none at the start, and the tasks hold no dependency.
min_of_tasks_keeps :
    (ps : List ParentWatermark) (least : Option Watermark)
    → min_of_tasks ps least ≡ some none
    → (least ≡ none) × NoneDepends ps
unfolding min_of_tasks
min_of_tasks_keeps [] least e = (ground arith, tt)
min_of_tasks_keeps (p ∷ ps) least e = elim (Bool-cases p.is_dependency) [
  | inr skip ↦
      let (start, rest) = min_of_tasks_keeps ps least (ground arith) in (start, (skip, rest))
  | inl dep ↦ elim (Option-cases p.latest_watermark) [
    | inl missing ↦ absurd (ground arith)
    | inr (v, at) ↦ absurd (cc ((min_of_tasks_keeps ps (some (lesser v least)) (ground arith)).0))
  ]
]

NoneDepends-AtLeast : (t : ℕ) (ps : List ParentWatermark) → NoneDepends ps → All (AtLeast t) ps
NoneDepends-AtLeast t [] h = tt
NoneDepends-AtLeast t (p ∷ ps) h = ((λ d. absurd (cc (h.0))), NoneDepends-AtLeast t ps h.1)

min_of_jobs_lower :
    (js : Jobs) (least : Option Watermark) (w : Watermark)
    → min_of_jobs js least ≡ some (some w)
    → AllAtLeast w.timestamp js × ((l : Watermark) → least ≡ some l → w.timestamp ≤ l.timestamp)
unfolding min_of_jobs
min_of_jobs_lower [] least w e = (tt, λ l h. ground (arith, h))
min_of_jobs_lower ((j, ps) ∷ js) least w e = elim (Option-cases (min_of_tasks ps least)) [
  | inl stop ↦ absurd (cc (rw (stop, min_of_jobs) at e))
  | inr (none, go) ↦
      let (rest, start) = min_of_jobs_lower js none w (rw (go, min_of_jobs) at e) in
      (
        (NoneDepends-AtLeast w.timestamp ps (min_of_tasks_keeps ps least go).1, rest),
        λ l h. absurd (cc ((min_of_tasks_keeps ps least go).0, h)),
      )
  | inr (some v, go) ↦
      let (rest, start) = min_of_jobs_lower js (some v) w (rw (go, min_of_jobs) at e) in
      let (here, first) = min_of_tasks_lower ps least v go in
      ((AtLeast-mono ps (start v refl) here, rest), λ l h. omega (arith, first l h, start v refl))
]

min_of_jobs_reports :
    (js : Jobs) (least : Option Watermark) (w : Watermark)
    → min_of_jobs js least ≡ some (some w)
    → ReportsIn w js ⊎ (least ≡ some w)
unfolding min_of_jobs
min_of_jobs_reports [] least w e = inr (ground arith)
min_of_jobs_reports ((j, ps) ∷ js) least w e = elim (Option-cases (min_of_tasks ps least)) [
  | inl stop ↦ absurd (cc (rw (stop, min_of_jobs) at e))
  | inr (r, go) ↦ elim (min_of_jobs_reports js r w (rw (go, min_of_jobs) at e)) [
    | inl later ↦ inl (inr later)
    | inr start ↦ elim (min_of_tasks-Reports ps least w (cc)) [
      | inl here ↦ inl (inl here)
      | inr first ↦ inr first
    ]
  ]
]

min_of_jobs_total :
    (js : Jobs) (least : Option Watermark)
    → AllAtLeast 0 js
    → (least' : Option Watermark) × (min_of_jobs js least ≡ some least')
      × ((least' ≡ none) → (least ≡ none) × All (λ j. NoneDepends j.1) js)
unfolding min_of_jobs
min_of_jobs_total [] least a = (least, refl, λ e. (e, tt))
min_of_jobs_total ((j, ps) ∷ js) least a =
    let (r, here, empty) = min_of_tasks_total ps least a.0 in
    let (r', rest, empty') = min_of_jobs_total js r a.1 in
    (
      r',
      rw (here, min_of_jobs) rest,
      λ e. let (start, later) = empty' e in let (first, now) = empty start in (first, (now, later)),
    )

-- A minimum is a lower bound of what every parent task has reported, all of them have reported, and
-- it is the report of one of them.
pub min_watermark_least :
    (m : WatermarkManager) (w : Watermark)
    → min_watermark m ≡ some w
    → AllAtLeast w.timestamp m.reached_watermarks × ReportsIn w m.reached_watermarks
unfolding min_watermark
min_watermark_least m w e = elim (Option-cases (min_of_jobs m.reached_watermarks none)) [
  | inl stop ↦ absurd (cc (rw (stop, min_watermark) at e))
  | inr (r, go) ↦
      let run : min_of_jobs m.reached_watermarks none ≡ some (some w) =
        cc (rw (go, min_watermark) at e) in
      ((min_of_jobs_lower m.reached_watermarks none w run).0, first_report run)
]
  where
    first_report :
        min_of_jobs m.reached_watermarks none ≡ some (some w) → ReportsIn w m.reached_watermarks
    first_report run = elim (min_of_jobs_reports m.reached_watermarks none w run) [
      | inl found ↦ found
      | inr start ↦ absurd (cc start)
    ]

-- Once every parent task has reported, there is a minimum, unless no parent task is a dependency.
pub min_watermark_total :
    (m : WatermarkManager)
    → AllAtLeast 0 m.reached_watermarks
    → ((w : Watermark) × (min_watermark m ≡ some w))
      ⊎ All (λ j. NoneDepends j.1) m.reached_watermarks
unfolding min_watermark
min_watermark_total m a =
    let (r, run, empty) = min_of_jobs_total m.reached_watermarks none a in go r run empty
  where
    go :
        (r : Option Watermark)
        → min_of_jobs m.reached_watermarks none ≡ some r
        → ((r ≡ none)
            → (◌≡◌ {A = Option Watermark} none none)
              × All (λ j. NoneDepends j.1) m.reached_watermarks)
        → ((w : Watermark) × (min_watermark m ≡ some w))
          ⊎ All (λ j. NoneDepends j.1) m.reached_watermarks
    go none run empty = inr (empty refl).1
    go (some w) run empty = inl (w, rw (run, min_watermark))
