-- ===== src/Source/Flow.antt =====
-- `SourceRunnable`: the records and the ends of a whole run.
use rlink_rs.Prelude.{
  ℕ, ◌+◌, ◌-◌, ◌≡◌, refl, sym, ap, ◌∙◌, Bool, true, false, Option, none, some, List, [], ◌∷◌, ◌++◌,
  length, arith, inl, inr, ◌==◌, if◌then◌else◌, Option-cases, some_injective,
}
use mathlib.Core.Path.{subst}
use rlink_rs.Core.{
  TaskId, Record, Watermark, StreamStatus, Barrier, Element, data_record, watermark, stream_status,
  barrier,
}
use rlink_rs.Align.{AlignManager, apply as apply_align}
use rlink_rs.Watermarks.{WatermarkManager, apply as apply_watermark, watermark_job_check}
use rlink_rs.Source.{
  SourceRunnable, Output, run_next, submit_checkpoint, report_end_status, run_barrier,
  run_watermark, run_status, step, run, open_source, parent_jobs, source_of, count_end,
  is_terminated, barrier_outputs, watermark_outputs, status_outputs, end_outputs,
}

module _ {B : Type 0} where
  -- The records of an input and of an output, in order
  abbrev pub records : List (Element B) → List (Record B)
  records [] = []
  records (data_record r ∷ es) = r ∷ records es
  records (watermark w ∷ es) = records es
  records (stream_status st ∷ es) = records es
  records (barrier b ∷ es) = records es

  abbrev pub sent_records : List (Output B) → List (Record B)
  sent_records [] = []
  sent_records (run_next (data_record r) ∷ outs) = r ∷ sent_records outs
  sent_records (run_next (watermark w) ∷ outs) = sent_records outs
  sent_records (run_next (stream_status st) ∷ outs) = sent_records outs
  sent_records (run_next (barrier b) ∷ outs) = sent_records outs
  sent_records (submit_checkpoint id ∷ outs) = sent_records outs
  sent_records (report_end_status ∷ outs) = sent_records outs

  -- How many stream statuses of the input are an end, and how often the end is reported
  abbrev pub ends : List (Element B) → ℕ
  ends [] = 0
  ends (data_record r ∷ es) = ends es
  ends (watermark w ∷ es) = ends es
  ends (stream_status st ∷ es) = count_end st (ends es)
  ends (barrier b ∷ es) = ends es

  abbrev pub reports : List (Output B) → ℕ
  reports [] = 0
  reports (run_next e ∷ outs) = reports outs
  reports (submit_checkpoint id ∷ outs) = reports outs
  reports (report_end_status ∷ outs) = reports outs + 1

  sent_records-append :
      (xs ys : List (Output B)) → sent_records (xs ++ ys) ≡ sent_records xs ++ sent_records ys
  sent_records-append [] ys = refl
  sent_records-append (run_next (data_record r) ∷ xs) ys =
      ap (λ l. r ∷ l) (sent_records-append xs ys)
  sent_records-append (run_next (watermark w) ∷ xs) ys = sent_records-append xs ys
  sent_records-append (run_next (stream_status st) ∷ xs) ys = sent_records-append xs ys
  sent_records-append (run_next (barrier b) ∷ xs) ys = sent_records-append xs ys
  sent_records-append (submit_checkpoint id ∷ xs) ys = sent_records-append xs ys
  sent_records-append (report_end_status ∷ xs) ys = sent_records-append xs ys

  reports-append : (xs ys : List (Output B)) → reports (xs ++ ys) ≡ reports xs + reports ys
  reports-append [] ys = omega arith
  reports-append (run_next e ∷ xs) ys = reports-append xs ys
  reports-append (submit_checkpoint id ∷ xs) ys = reports-append xs ys
  reports-append (report_end_status ∷ xs) ys = omega (arith, reports-append xs ys)

  -- What one round does to the records, the end flags and the reports
  abbrev Goes : SourceRunnable → Element B → SourceRunnable × List (Output B) → Type 0
  Goes s e p =
      (sent_records p.1 ≡ records (e ∷ []))
      × (p.0.waiting_end_flags ≡ s.waiting_end_flags)
      × (p.0.end_flags ≡ s.end_flags + ends (e ∷ []))
      × (reports p.1 + (s.end_flags + 1 - s.waiting_end_flags)
          ≡ s.end_flags + ends (e ∷ []) + 1 - s.waiting_end_flags)

  barrier-Goes :
      (s : SourceRunnable) (b : Barrier) (aligned : Bool) (m : AlignManager)
      → Goes s (barrier b) (record s { barrier_alignment = m }, barrier_outputs aligned b)
  barrier-Goes s b true m = (refl, refl, omega arith, omega arith)
  barrier-Goes s b false m = (refl, refl, omega arith, omega arith)

  watermark-Goes :
      (s : SourceRunnable) (w : Watermark) (least : Option Watermark) (m : WatermarkManager)
      → Goes s (watermark w) (record s { watermark_manager = m }, watermark_outputs least)
  watermark-Goes s w none m = (refl, refl, omega arith, omega arith)
  watermark-Goes s w (some least) m = (refl, refl, omega arith, omega arith)

  sent_records-status :
      (aligned terminated : Bool) (t : ℕ)
      → sent_records (status_outputs aligned t terminated ++ end_outputs terminated) ≡ []
  sent_records-status true true t = refl
  sent_records-status true false t = refl
  sent_records-status false true t = refl
  sent_records-status false false t = refl

count_reports :
    (n waiting flags ended reported : ℕ)
    → (if n == 0 then 1 else n) ≡ waiting
    → 0 ≡ flags
    → reported + (flags + 1 - waiting) ≡ flags + ended + 1 - waiting
    → reported ≡ ended + 1 - (if n == 0 then 1 else n)
count_reports n waiting flags ended reported w f h = ground arith

reports-status :
    (A : Type 0) (aligned terminated : Bool) (t : ℕ)
    → reports {B = A} (status_outputs aligned t terminated ++ end_outputs terminated)
      ≡ (if terminated then 1 else 0)
reports-status A true true t = refl
reports-status A true false t = refl
reports-status A false true t = refl
reports-status A false false t = refl

module _ {B : Type 0} where
  status-Goes :
      (s : SourceRunnable) (st : StreamStatus) (aligned : Bool) (w : WatermarkManager)
      (m : AlignManager)
      → Goes {B = B} s (stream_status st) (
        record s {
          end_flags = count_end st s.end_flags;
          watermark_manager = w;
          stream_status_alignment = m;
        },
        status_outputs aligned st.timestamp (is_terminated s st)
            ++ end_outputs (is_terminated s st),
      )
  status-Goes s st aligned w m = (
    sent_records-status aligned (is_terminated s st) st.timestamp,
    refl,
    ground arith,
    (ap (λ n. n + (s.end_flags + 1 - s.waiting_end_flags))
          (reports-status B aligned (is_terminated s st) st.timestamp)
        ∙ ground arith),
  )

  step-Goes :
      (s s' : SourceRunnable) (e : Element B) (outs : List (Output B))
      → step s e ≡ some (s', outs)
      → Goes s e (s', outs)
  unfolding step run_barrier run_watermark run_status
  step-Goes s s' (data_record r) outs e =
      subst (Goes s (data_record r))
        (some_injective (record s { counter = s.counter + 1 }, run_next (data_record r) ∷ [])
          (s', outs) e)
        (refl, refl, omega arith, omega arith)
  step-Goes s s' (barrier b) outs e =
      elim (Option-cases (apply_align s.barrier_alignment b.checkpoint_id)) [
        | inl stop ↦ absurd (cc (rw (run_barrier, stop) at e))
        | inr ((m, aligned), go) ↦
            subst (Goes s (barrier b))
              (some_injective (record s { barrier_alignment = m }, barrier_outputs aligned b)
                (s', outs) (rw (run_barrier, go) at e))
              (barrier-Goes s b aligned m)
      ]
  step-Goes s s' (watermark w) outs e =
      elim (Option-cases (apply_watermark s.watermark_manager w)) [
        | inl stop ↦ absurd (cc (rw (run_watermark, stop) at e))
        | inr ((m, least), go) ↦
            subst (Goes s (watermark w))
              (some_injective (record s { watermark_manager = m }, watermark_outputs least)
                (s', outs) (rw (run_watermark, go) at e))
              (watermark-Goes s w least m)
      ]
  step-Goes s s' (stream_status st) outs e =
      elim (Option-cases (watermark_job_check s.watermark_manager st)) [
        | inl stop ↦ absurd (cc (rw (run_status, stop) at e))
        | inr (w, checked) ↦
            elim (Option-cases (apply_align s.stream_status_alignment st.timestamp)) [
              | inl stop ↦ absurd (cc (rw (run_status, checked, stop) at e))
              | inr ((m, aligned), go) ↦
                  subst (Goes {B = B} s (stream_status st))
                    (some_injective
                      (
                        record s {
                          end_flags = count_end st s.end_flags;
                          watermark_manager = w;
                          stream_status_alignment = m;
                        },
                        status_outputs aligned st.timestamp (is_terminated s st)
                            ++ end_outputs (is_terminated s st),
                      )
                      (s', outs) (rw (run_status, checked, go) at e))
                    (status-Goes s st aligned w m)
            ]
      ]

  ends-cons : (e : Element B) (es : List (Element B)) → ends (e ∷ es) ≡ ends (e ∷ []) + ends es
  ends-cons (data_record r) es = omega arith
  ends-cons (watermark w) es = omega arith
  ends-cons (stream_status st) es = ground arith
  ends-cons (barrier b) es = omega arith

  records-cons :
      (e : Element B) (es : List (Element B)) → records (e ∷ es) ≡ records (e ∷ []) ++ records es
  records-cons (data_record r) es = refl
  records-cons (watermark w) es = refl
  records-cons (stream_status st) es = refl
  records-cons (barrier b) es = refl

  run-cons :
      (s s₂ : SourceRunnable) (e : Element B) (es : List (Element B)) (outs : List (Output B))
      → run s (e ∷ es) ≡ some (s₂, outs)
      → (s₁ : SourceRunnable) × (a : List (Output B)) × (b : List (Output B)) × (step s e
          ≡ some (s₁, a))
        × (run s₁ es ≡ some (s₂, b))
        × (a ++ b ≡ outs)
  unfolding run
  run-cons s s₂ e es outs h = elim (Option-cases (step s e)) [
    | inl stop ↦ absurd (cc (rw (run, stop) at h))
    | inr ((s₁, a), go) ↦ elim (Option-cases (run s₁ es)) [
      | inl stop ↦ absurd (cc (rw (run, go, stop) at h))
      | inr ((s₂', b), rest) ↦
          let same = some_injective (s₂', a ++ b) (s₂, outs) (rw (run, go, rest) at h) in
          (
            s₁,
            a,
            b,
            go,
            subst (λ q. run s₁ es ≡ some (q, b)) (ap (λ p. p.0) same) rest,
            ap (λ p. p.1) same,
          )
    ]
  ]

  run_flow :
      (s s' : SourceRunnable) (es : List (Element B)) (outs : List (Output B))
      → run s es ≡ some (s', outs)
      → (sent_records outs ≡ records es)
        × (reports outs + (s.end_flags + 1 - s.waiting_end_flags)
            ≡ s.end_flags + ends es + 1 - s.waiting_end_flags)
  unfolding run
  run_flow s s' [] outs h =
      let same = ap (λ p. p.1) (some_injective (s, []) (s', outs) h) in
      (ap sent_records (sym same), omega (arith, ap reports same))
  run_flow s s' (e ∷ es) outs h =
      let (s₁, a, b, go, rest, whole) = run-cons s s' e es outs h in
      let (sent, waiting, flags, reported) = step-Goes s s₁ e a go in
      let (sent', reported') = run_flow s₁ s' es b rest in
      (
        ap sent_records (sym whole)
            ∙ (sent_records-append a b
                ∙ (ap (λ l. l ++ sent_records b) sent
                    ∙ (ap (λ l. records (e ∷ []) ++ l) sent' ∙ sym (records-cons e es)))),
        omega (
          arith,
          waiting,
          flags,
          reported,
          reported',
          ends-cons e es,
          reports-append a b,
          ap reports whole,
        ),
      )

  -- From `open` on, a source that has not panicked has sent on all its records, in their order and none twice;
  -- and it has reported its end exactly once for each end status from the one on that is the last it waits
  -- for: one of each parent task, or one if there is none.
  pub run_from_open :
      (parents : List TaskId) (s s' : SourceRunnable) (es : List (Element B))
      (outs : List (Output B))
      → open_source parents ≡ some s
      → run s es ≡ some (s', outs)
      → (sent_records outs ≡ records es)
        × (reports outs ≡ ends es + 1 - (if length parents == 0 then 1 else length parents))
  unfolding open_source
  run_from_open parents s s' es outs opened h = elim (Option-cases (parent_jobs parents [])) [
    | inl stop ↦ absurd (cc (rw (open_source, stop) at opened))
    | inr (jobs, is) ↦
        let same = some_injective (source_of parents jobs) s (rw (open_source, is) at opened) in
        let waiting = ap (λ q. q.waiting_end_flags) same in
        let flags = ap (λ q. q.end_flags) same in
        let (sent, reported) = run_flow s s' es outs h in
        (
          sent,
          count_reports (length parents) s.waiting_end_flags s.end_flags (ends es) (reports outs)
              waiting flags reported,
        )
  ]
