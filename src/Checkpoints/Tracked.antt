-- ===== src/Checkpoints/Tracked.antt =====
-- Which operators the manager of rlink/src/runtime/coordinator/checkpoint_manager.rs tracks, from its
-- creation on.
use rlink_rs.Prelude.{
  ℕ, ◌≡◌, refl, sym, ◌∙◌, inl, inr, some, List, [], ◌∷◌, Option, All, map_All, ltb, ◌==◌, ==_iff,
  Bool-cases, Option-cases, arith,
}
use mathlib.Core.Path.{subst}
use rlink_rs.Prelude.Maps.{
  lookup, insert, Present, Present-insert, lookup-insert_self, All-insert, All-lookup,
}
use rlink_rs.Prelude.Sort.{Any, Any-map}
use rlink_rs.Planner.Operators.{StreamNode}
use rlink_rs.Planner.Job.{JobNode}
use rlink_rs.Checkpoints.{
  Checkpoint, OperatorCheckpoint, CheckpointAlignManager, History, new_operator, operator_is_align,
  apply_operator, is_align, reset_operators, next_checkpoint, finish, apply_current, apply,
}
use rlink_rs.Checkpoints.Consistent.{IsConsistent, IsValid, apply-IsConsistent}
use rlink_rs.Checkpoints.Create.{
  Name, OperatorCks, add_operators, add_all_operators, new_align_manager, run_align_task,
  IsOperatorOf, Tracks,
}

-- Such an operator is one of the jobs'.
abbrev IsAmong : List JobNode → JobNode → Type 0
IsAmong jobs job =
    (e : ℕ × OperatorCheckpoint Name) → IsOperatorOf e job → Any (IsOperatorOf e) jobs

each_IsAmong : (jobs : List JobNode) → All (IsAmong jobs) jobs
each_IsAmong [] = tt
each_IsAmong (job ∷ jobs) =
    (λ e h. inl h, map_All _ _ (λ j h e k. inr (h e k)) jobs (each_IsAmong jobs))

each_id : (ns : List StreamNode) → All (λ n. Any (λ (m : StreamNode). m.id ≡ n.id) ns) ns
each_id [] = tt
each_id (n ∷ ns) = (inl refl, map_All _ _ (λ _ h. inr h) ns (each_id ns))

module _ (all : List JobNode) where
  abbrev Fit : OperatorCks → Type 0
  Fit = All (λ e. Any (IsOperatorOf e) all)

  insert-Fit :
      (k : ℕ) (o : OperatorCheckpoint Name) (cks : OperatorCks)
      → Any (IsOperatorOf (k, o)) all
      → Fit cks
      → Fit (insert ◌==◌ k o cks)
  insert-Fit k o cks new h =
      All-insert ◌==◌ (λ e. Any (IsOperatorOf e) all) k o cks ((==_iff k k).1 refl) h
        (λ j same. subst (λ i. Any (IsOperatorOf (i, o)) all) (sym ((==_iff j k).0 same)) new)

  add_operators-Fit :
      (job : JobNode) (ns : List StreamNode) (cks : OperatorCks)
      → IsAmong all job
      → All (λ n. Any (λ (m : StreamNode). m.id ≡ n.id) job.stream_nodes) ns
      → Fit cks
      → Fit (add_operators job ns cks)
  unfolding add_operators
  add_operators-Fit job [] cks among own h = h
  add_operators-Fit job (n ∷ ns) cks among own h =
      let o = new_operator job.job_id n.id n.operator_name job.parallelism in
      add_operators-Fit job ns (insert ◌==◌ n.id o cks) among own.1
        (insert-Fit n.id o cks (among (n.id, o) (refl, refl, own.0)) h)

  add_all_operators-Fit :
      (jobs : List JobNode) (cks : OperatorCks)
      → All (IsAmong all) jobs
      → Fit cks
      → Fit (add_all_operators jobs cks)
  unfolding add_all_operators
  add_all_operators-Fit [] cks among h = h
  add_all_operators-Fit (job ∷ jobs) cks among h =
      add_all_operators-Fit jobs (add_operators job job.stream_nodes cks) among.1
        (add_operators-Fit job job.stream_nodes cks among.0 (each_id job.stream_nodes) h)

  reset_operators-Fit : (cks : OperatorCks) → Fit cks → Fit (reset_operators cks)
  unfolding reset_operators
  reset_operators-Fit [] h = tt
  reset_operators-Fit ((id, o) ∷ cks) h = (h.0, reset_operators-Fit cks h.1)

add_operators-Present :
    (job : JobNode) (ns : List StreamNode) (cks : OperatorCks)
    → ((k : ℕ) → Present k cks → Present k (add_operators job ns cks))
      × All (λ n. Present n.id (add_operators job ns cks)) ns
unfolding add_operators
add_operators-Present job [] cks = (λ k p. p, tt)
add_operators-Present job (n ∷ ns) cks =
    let o = new_operator job.job_id n.id n.operator_name job.parallelism in
    let (kept, own) = add_operators-Present job ns (insert ◌==◌ n.id o cks) in
    (
      λ k p. kept k (Present-insert n.id k o cks p),
      (kept n.id (o, lookup-insert_self ◌==◌ n.id o cks ((==_iff n.id n.id).1 refl)), own),
    )

add_all_operators-Present :
    (jobs : List JobNode) (cks : OperatorCks)
    → ((k : ℕ) → Present k cks → Present k (add_all_operators jobs cks))
      × All (λ job. All (λ n. Present n.id (add_all_operators jobs cks)) job.stream_nodes) jobs
unfolding add_all_operators
add_all_operators-Present [] cks = (λ k p. p, tt)
add_all_operators-Present (job ∷ jobs) cks =
    let first = add_operators-Present job job.stream_nodes cks in
    let rest = add_all_operators-Present jobs (add_operators job job.stream_nodes cks) in
    (
      λ k p. rest.0 k (first.0 k p),
      (map_All _ _ (λ n p. rest.0 n.id p) job.stream_nodes first.1, rest.1),
    )

reset_operators-Present :
    (k : ℕ) (cks : OperatorCks) → Present k cks → Present k (reset_operators cks)
unfolding reset_operators lookup
reset_operators-Present k [] p = absurd (cc p.1)
reset_operators-Present k ((id, o) ∷ cks) p = elim (Bool-cases (id == k)) [
  | inl here ↦
      (new_operator o.job_id o.operator_id o.operator_name o.parallelism, rw (lookup, here) refl)
  | inr there ↦
      let (o', at) = reset_operators-Present k cks (p.0, rw (lookup, there) at p.1) in
      (o', rw (lookup, there) at)
]

apply_operator-same :
    (o : OperatorCheckpoint Name) (ck : Checkpoint Name)
    → ((apply_operator o ck).job_id ≡ o.job_id)
      × ((apply_operator o ck).parallelism ≡ o.parallelism)
unfolding apply_operator
apply_operator-same o ck = elim (Bool-cases (operator_is_align o)) [
  | inl aligned ↦ rw (apply_operator, aligned) (refl, refl)
  | inr partial ↦ elim (Option-cases (lookup ◌==◌ ck.task_id.task_number o.current_cks)) [
    | inl absent ↦ rw (apply_operator, partial, absent) (refl, refl)
    | inr (old, there) ↦ rw (apply_operator, partial, there) (refl, refl)
  ]
]

finish-operator_cks : (m : CheckpointAlignManager Name) → (finish m).operator_cks ≡ m.operator_cks
unfolding finish
finish-operator_cks m = elim (Bool-cases (is_align m)) [
  | inl aligned ↦ rw aligned refl
  | inr partial ↦ rw partial refl
]

module _ (jobs : List JobNode) where
  map-Tracks :
      (cks cks' : OperatorCks)
      → (Fit jobs cks → Fit jobs cks')
      → ((k : ℕ) → Present k cks → Present k cks')
      → Tracks jobs cks
      → Tracks jobs cks'
  map-Tracks cks cks' fit kept h =
      (fit h.0, map_All _ _ (λ job p. map_All _ _ (λ n q. kept n.id q) job.stream_nodes p) jobs h.1)

  apply_operator-Fit :
      (k : ℕ) (o : OperatorCheckpoint Name) (ck : Checkpoint Name) (cks : OperatorCks)
      → lookup ◌==◌ k cks ≡ some o
      → Fit jobs cks
      → Fit jobs (insert ◌==◌ k (apply_operator o ck) cks)
  apply_operator-Fit k o ck cks at h =
      let (j, same, fits) = All-lookup ◌==◌ (λ e. Any (IsOperatorOf e) jobs) k o cks h at in
      let fits' = subst (λ i. Any (IsOperatorOf (i, o)) jobs) ((==_iff j k).0 same) fits in
      let same_o = apply_operator-same o ck in
      insert-Fit jobs k (apply_operator o ck) cks
        (Any-map _ _ (λ job h. (same_o.0 ∙ h.0, same_o.1 ∙ h.1, h.2)) jobs fits') h

  apply_current-Tracks :
      (m : CheckpointAlignManager Name) (ck : Checkpoint Name)
      → Tracks jobs m.operator_cks
      → Tracks jobs (apply_current m ck).0.operator_cks
  unfolding apply_current
  apply_current-Tracks m ck h = elim (Option-cases (lookup ◌==◌ ck.operator_id m.operator_cks)) [
    | inl unknown ↦ rw (apply_current, unknown) h
    | inr (o, at) ↦
        let cks = insert ◌==◌ ck.operator_id (apply_operator o ck) m.operator_cks in
        rw (apply_current, at)
          (subst (Tracks jobs) (sym (finish-operator_cks (record m { operator_cks = cks }))) (
            map-Tracks m.operator_cks cks (apply_operator-Fit ck.operator_id o ck m.operator_cks at)
              (λ k p. Present-insert ck.operator_id k (apply_operator o ck) m.operator_cks p) h))
  ]

  next_checkpoint-Tracks :
      (m : CheckpointAlignManager Name) (id : ℕ)
      → Tracks jobs m.operator_cks
      → Tracks jobs (next_checkpoint id m).operator_cks
  unfolding next_checkpoint
  next_checkpoint-Tracks m id h =
      map-Tracks m.operator_cks (reset_operators m.operator_cks)
        (reset_operators-Fit jobs m.operator_cks)
        (λ k p. reset_operators-Present k m.operator_cks p) h

  apply-Tracks :
      (m : CheckpointAlignManager Name) (ck : Checkpoint Name)
      → Tracks jobs m.operator_cks
      → Tracks jobs (apply m ck).0.operator_cks
  unfolding apply
  apply-Tracks m ck h = elim (Bool-cases (ltb ck.checkpoint_id m.current_ck_id)) [
    | inl late ↦ rw late h
    | inr in_time ↦ elim (Bool-cases (ltb m.current_ck_id ck.checkpoint_id)) [
      | inl newer ↦
          rw (in_time, newer)
            (apply_current-Tracks (next_checkpoint ck.checkpoint_id m) ck
              (next_checkpoint-Tracks m ck.checkpoint_id h))
      | inr same ↦ rw (in_time, same) (apply_current-Tracks m ck h)
    ]
  ]

  run-Tracks :
      (cks : List (Checkpoint Name)) (m : CheckpointAlignManager Name)
      → IsConsistent m
      → Tracks jobs m.operator_cks
      → IsConsistent (run_align_task m cks) × Tracks jobs (run_align_task m cks).operator_cks
  unfolding run_align_task
  run-Tracks [] m c h = (c, h)
  run-Tracks (ck ∷ cks) m c h =
      run-Tracks cks (apply m ck).0 (apply-IsConsistent m ck c) (apply-Tracks m ck h)

add_operators-IsValid :
    (job : JobNode) (ns : List StreamNode) (cks : OperatorCks)
    → All (IsValid 0) cks
    → All (IsValid 0) (add_operators job ns cks)
unfolding add_operators
add_operators-IsValid job [] cks h = h
add_operators-IsValid job (n ∷ ns) cks h =
    let o = new_operator job.job_id n.id n.operator_name job.parallelism in
    add_operators-IsValid job ns (insert ◌==◌ n.id o cks) (
      All-insert ◌==◌ (IsValid 0) n.id o cks ((==_iff n.id n.id).1 refl) h
        (λ j same. (tt, omega arith)))

add_all_operators-IsValid :
    (jobs : List JobNode) (cks : OperatorCks)
    → All (IsValid 0) cks
    → All (IsValid 0) (add_all_operators jobs cks)
unfolding add_all_operators
add_all_operators-IsValid [] cks h = h
add_all_operators-IsValid (job ∷ jobs) cks h =
    add_all_operators-IsValid jobs (add_operators job job.stream_nodes cks)
      (add_operators-IsValid job job.stream_nodes cks h)

-- Whatever checkpoints arrive, the manager that is made from a program's jobs has an entry for every
-- operator of these, and each entry is for an operator of a job, with that job's id and parallelism.
-- The open checkpoints are all of the current id, no operator has more of them than tasks, and the
-- finished ones are of one id throughout, as many for each operator as it has tasks.
pub run_align_task-Tracks :
    (ttl : ℕ) (storage : Option (History Name)) (jobs : List JobNode) (cks : List (Checkpoint Name))
    → IsConsistent (run_align_task (new_align_manager ttl storage jobs) cks)
      × Tracks jobs (run_align_task (new_align_manager ttl storage jobs) cks).operator_cks
unfolding new_align_manager
run_align_task-Tracks ttl storage jobs cks =
    run-Tracks jobs cks (new_align_manager ttl storage jobs)
      (add_all_operators-IsValid jobs [] tt, (0, omega arith, tt))
      (
        add_all_operators-Fit jobs jobs [] (each_IsAmong jobs) tt,
        (add_all_operators-Present jobs []).1,
      )
