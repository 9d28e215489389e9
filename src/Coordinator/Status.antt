-- ===== src/Coordinator/Status.antt =====
-- The coordinator's status against the tasks that have ended: `flush_coordinator_status` of
-- rlink/src/core/runtime.rs and its use in rlink/src/storage/metadata/mem_metadata_storage.rs.
use rlink_rs.Prelude.{
  ℕ, ◌+◌, ◌≤◌, ◌≡◌, refl, sym, ap, ◌∙◌, inl, inr, Bool, true, false, Option, none, some, List, [],
  ◌∷◌, ◌++◌, arith, ◌==◌, ==_iff, if◌then◌else◌, Bool-cases, some_injective, All, Outcome, ok, err,
  ok_injective,
}
use mathlib.Core.Path.{ap₂}
use rlink_rs.Coordinator.{
  ManagerStatus, terminating, terminated, WorkerManagerDescriptor, TaskDescriptor,
  ClusterDescriptor, HeartbeatItem, count_tasks, count_workers, flushed_status, set_status,
  flush_coordinator_status,
}
use rlink_rs.Coordinator.Storage.{
  MetadataError, task_manager_not_found, report, passed, update_found, updated, stored,
  update_worker_status,
}
use rlink_rs.Coordinator.Reports.{has_end, report-task_after}

module _ {S I : Type 0} where
  abbrev pub all_tasks : List (WorkerManagerDescriptor S I) → List (TaskDescriptor S I)
  all_tasks [] = []
  all_tasks (w ∷ ws) = w.task_descriptors ++ all_tasks ws

  abbrev pub Ended : TaskDescriptor S I → Type 0
  Ended t = t.ended ≡ true

  abbrev pub Running : TaskDescriptor S I → Type 0
  Running t = t.ended ≡ false

  -- The status that the tasks call for, given the one before
  pub record StatusOf (ws : List (WorkerManagerDescriptor S I)) (before after : ManagerStatus)
      : Type 0 where
    pub all_ended : All Ended (all_tasks ws) → after ≡ terminated
    pub some_ended : ¬ All Ended (all_tasks ws) → ¬ All Running (all_tasks ws) → after ≡ terminating
    pub none_ended : ¬ All Ended (all_tasks ws) → All Running (all_tasks ws) → after ≡ before

  count_tasks-append :
      (ts us : List (TaskDescriptor S I)) (counts : ℕ × ℕ)
      → count_tasks (ts ++ us) counts ≡ count_tasks us (count_tasks ts counts)
  count_tasks-append [] us counts = refl
  count_tasks-append (t ∷ ts) us (a, b) =
      count_tasks-append ts us (if t.ended then (a + 1, b + 1) else (a + 1, b))

  count_workers-all_tasks :
      (ws : List (WorkerManagerDescriptor S I)) (counts : ℕ × ℕ)
      → count_workers ws counts ≡ count_tasks (all_tasks ws) counts
  count_workers-all_tasks [] counts = refl
  count_workers-all_tasks (w ∷ ws) counts =
      count_workers-all_tasks ws (count_tasks w.task_descriptors counts)
      ∙ sym (count_tasks-append w.task_descriptors (all_tasks ws) counts)

  -- The two counters differ by the running tasks, and the second grows with each ended one.
  count_tasks_lem :
      (ts : List (TaskDescriptor S I)) (a b : ℕ)
      → b ≤ a
      → ((count_tasks ts (a, b)).1 ≤ (count_tasks ts (a, b)).0)
        × (b ≤ (count_tasks ts (a, b)).1)
        × ((count_tasks ts (a, b)).0 ≡ (count_tasks ts (a, b)).1 → (a ≡ b) × All Ended ts)
        × (All Ended ts → a ≡ b → (count_tasks ts (a, b)).0 ≡ (count_tasks ts (a, b)).1)
        × ((count_tasks ts (a, b)).1 ≡ b → All Running ts)
        × (All Running ts → (count_tasks ts (a, b)).1 ≡ b)
  count_tasks_lem [] a b le = (le, omega arith, λ e. (e, tt), λ _ e. e, λ _. tt, λ _. refl)
  count_tasks_lem (t ∷ ts) a b le = elim (Bool-cases t.ended) [
    | inl over ↦ rw over (
        let (l, g, to, from, none_to, none_from) =
          count_tasks_lem ts (a + 1) (b + 1) (omega (arith, le)) in
        (
          l,
          omega (arith, g),
          λ e. let (same, all) = to e in (omega (arith, same), (refl, all)),
          λ all e. from all.1 (omega (arith, e)),
          λ e. absurd (omega (arith, g, e)),
          λ h. absurd (cc h.0),
        ))
    | inr runs ↦ rw runs (
        let (l, g, to, from, none_to, none_from) =
          count_tasks_lem ts (a + 1) b (omega (arith, le)) in
        (
          l,
          g,
          λ e. let (same, all) = to e in absurd (omega (arith, same, le)),
          λ all e. absurd (cc all.0),
          λ e. (refl, none_to e),
          λ h. none_from h.1,
        ))
  ]

  flushed_status_lem :
      (ws : List (WorkerManagerDescriptor S I)) (before : ManagerStatus)
      → StatusOf ws before (flushed_status (count_workers ws (0, 0)) before)
  unfolding flushed_status
  flushed_status_lem ws before =
      let (l, g, to, from, none_to, none_from) = count_tasks_lem (all_tasks ws) 0 0 (omega arith) in
      let n : ℕ = (count_tasks (all_tasks ws) (0, 0)).0 in
      let m : ℕ = (count_tasks (all_tasks ws) (0, 0)).1 in
      rw (count_workers-all_tasks ws (0, 0)) (elim (Bool-cases (n == m)) [
        | inl same ↦ rw same (record {
          all_ended = λ _. refl;
          some_ended = λ h _. absurd (h (to ((==_iff n m).0 same)).1);
          none_ended = λ h _. absurd (h (to ((==_iff n m).0 same)).1);
        })
        | inr differ ↦ elim (Bool-cases (m == 0)) [
          | inl no_end ↦
              rw (differ, no_end)
                (record {
                  all_ended = λ h. absurd (cc (differ, (==_iff n m).1 (from h refl)));
                  some_ended = λ _ h. absurd (h (none_to ((==_iff m 0).0 no_end)));
                  none_ended = λ _ _. refl;
                })
          | inr some_end ↦
              rw (differ, some_end)
                (record {
                  all_ended = λ h. absurd (cc (differ, (==_iff n m).1 (from h refl)));
                  some_ended = λ _ _. refl;
                  none_ended = λ _ h. absurd (cc (some_end, (==_iff m 0).1 (none_from h)));
                })
        ]
      ])

  -- Flushing sets the status that the tasks call for: `Terminated` when every task has ended,
  -- `Terminating` when some have and some have not, and otherwise the one before.
  pub flush_coordinator_status-StatusOf :
      (c : ClusterDescriptor S I)
      → StatusOf c.worker_managers c.coordinator_manager.status
          (flush_coordinator_status c).coordinator_manager.status
  unfolding flush_coordinator_status set_status
  flush_coordinator_status-StatusOf c =
      flushed_status_lem c.worker_managers c.coordinator_manager.status

module _ {S I : Type 0} where
  -- One worker has been changed, in its place.
  abbrev pub Changed :
      (WorkerManagerDescriptor S I → WorkerManagerDescriptor S I × Bool)
      → List (WorkerManagerDescriptor S I)
      → List (WorkerManagerDescriptor S I)
      → Bool
      → Type 0
  Changed f ws vs e =
      (before : List (WorkerManagerDescriptor S I)) × (w : WorkerManagerDescriptor S I)
      × (after : List (WorkerManagerDescriptor S I)) × (ws ≡ before ++ w ∷ after)
      × (vs ≡ before ++ (f w).0 ∷ after)
      × (e ≡ (f w).1)

  passed-Changed :
      (f : WorkerManagerDescriptor S I → WorkerManagerDescriptor S I × Bool)
      (w : WorkerManagerDescriptor S I) (ws vs : List (WorkerManagerDescriptor S I)) (e : Bool)
      (o : Option (List (WorkerManagerDescriptor S I) × Bool))
      → ((us : List (WorkerManagerDescriptor S I)) (d : Bool)
          → o ≡ some (us, d)
          → Changed f ws us d)
      → passed w o ≡ some (vs, e)
      → Changed f (w ∷ ws) vs e
  passed-Changed f w ws vs e none searched same = absurd (cc same)
  passed-Changed f w ws vs e (some (us, d)) searched same =
      let (before, v, after, split, changed, flag) = searched us d refl in
      let whole = some_injective (w ∷ us, d) (vs, e) same in
      (
        w ∷ before,
        v,
        after,
        ap (λ xs. w ∷ xs) split,
        sym (ap (λ p. p.0) whole) ∙ ap (λ xs. w ∷ xs) changed,
        sym (ap (λ p. p.1) whole) ∙ flag,
      )

  update_found-Changed :
      (eq : S → S → Bool) (f : WorkerManagerDescriptor S I → WorkerManagerDescriptor S I × Bool)
      (id : S) (ws vs : List (WorkerManagerDescriptor S I)) (e : Bool)
      → update_found eq f id ws ≡ some (vs, e)
      → Changed f ws vs e
  unfolding update_found
  update_found-Changed eq f id [] vs e found = absurd (cc found)
  update_found-Changed eq f id (w ∷ ws) vs e found = elim (Bool-cases (eq w.task_manager_id id)) [
    | inl here ↦
        let same =
          some_injective ((f w).0 ∷ ws, (f w).1) (vs, e) (rw (update_found, here) at found) in
        ([], w, ws, refl, sym (ap (λ p. p.0) same), sym (ap (λ p. p.1) same))
    | inr there ↦
        passed-Changed f w ws vs e (update_found eq f id ws)
          (λ us d. update_found-Changed eq f id ws us d) (rw (update_found, there) at found)
  ]

module _ {S I : Type 0} where
  updated-StatusOf :
      (ws : List (WorkerManagerDescriptor S I)) (c : ClusterDescriptor S I)
      → StatusOf ws c.coordinator_manager.status (updated ws true c).coordinator_manager.status
  unfolding updated
  updated-StatusOf ws c = flush_coordinator_status-StatusOf (record c { worker_managers = ws })

  pub updated_workers :
      (ws : List (WorkerManagerDescriptor S I)) (e : Bool) (c : ClusterDescriptor S I)
      → (updated ws e c).worker_managers ≡ ws
  unfolding updated flush_coordinator_status set_status
  updated_workers ws true c = refl
  updated_workers ws false c = refl

  updated_quiet :
      (ws : List (WorkerManagerDescriptor S I)) (c : ClusterDescriptor S I)
      → (updated ws false c).coordinator_manager ≡ c.coordinator_manager
  unfolding updated
  updated_quiet ws c = refl

module _ {S I : Type 0} (hex : ℕ → S) (eq : S → S → Bool) where
  stored_inversion :
      (c c' : ClusterDescriptor S I) (id : S) (s : ManagerStatus)
      (o : Option (List (WorkerManagerDescriptor S I) × Bool))
      → stored c id o ≡ (some c', ok s)
      → (ws : List (WorkerManagerDescriptor S I)) × (e : Bool) × (o ≡ some (ws, e))
        × (c' ≡ updated ws e c)
        × (s ≡ c'.coordinator_manager.status)
  unfolding stored
  stored_inversion c c' id s none h =
      let bad : ◌≡◌ {A = Outcome (MetadataError S) ManagerStatus} (err (task_manager_not_found id))
          (ok s) =
        ap (λ p. p.1) h in
      absurd (cc bad)
  stored_inversion c c' id s (some (ws, e)) h =
      let same : updated ws e c ≡ c' = some_injective (updated ws e c) c' (ap (λ p. p.0) h) in
      (
        ws,
        e,
        refl,
        sym same,
        sym (
              ok_injective {E = MetadataError S} (updated ws e c).coordinator_manager.status s
                (ap (λ p. p.1) h))
            ∙ ap (λ d. d.coordinator_manager.status) same,
      )

  -- What a successful update has done
  pub update_worker_status_inversion :
      (now : ℕ) (id : S) (items : List (HeartbeatItem S)) (status : ManagerStatus)
      (c c' : ClusterDescriptor S I) (s : ManagerStatus)
      → update_worker_status hex eq now id items status (some c) ≡ (some c', ok s)
      → (before : List (WorkerManagerDescriptor S I)) × (w : WorkerManagerDescriptor S I)
        × (after : List (WorkerManagerDescriptor S I)) × (c.worker_managers ≡ before ++ w ∷ after)
        × (c' ≡ updated (before ++ (report hex now items status w).0 ∷ after) (has_end items) c)
        × (s ≡ c'.coordinator_manager.status)
  unfolding update_worker_status stored
  update_worker_status_inversion now id items status c c' s h =
      let (ws, e, searched, changed, answer) =
        stored_inversion c c' id s
          (update_found eq (report hex now items status) id c.worker_managers) h in
      let (before, w, after, split, workers, flag) =
        update_found-Changed eq (report hex now items status) id c.worker_managers ws e searched in
      (
        before,
        w,
        after,
        split,
        changed
            ∙ ap₂ (λ vs d. updated vs d c) workers
                (flag ∙ (report-task_after hex now items status w).1),
        answer,
      )

  -- A heartbeat that is taken answers the coordinator's status. Without a `TaskEnd` it is the one
  -- before; with one it is what the tasks then call for.
  pub update_worker_status-StatusOf :
      (now : ℕ) (id : S) (items : List (HeartbeatItem S)) (status : ManagerStatus)
      (c c' : ClusterDescriptor S I) (s : ManagerStatus)
      → update_worker_status hex eq now id items status (some c) ≡ (some c', ok s)
      → (s ≡ c'.coordinator_manager.status)
        × (has_end items ≡ false → s ≡ c.coordinator_manager.status)
        × (has_end items ≡ true → StatusOf c'.worker_managers c.coordinator_manager.status s)
  update_worker_status-StatusOf now id items status c c' s h =
      let (before, w, after, split, changed, answer) =
        update_worker_status_inversion now id items status c c' s h in
      let vs : List (WorkerManagerDescriptor S I) =
        before ++ (report hex now items status w).0 ∷ after in
      (
        answer,
        λ quiet.
            answer
            ∙ ap (λ d. d.coordinator_manager.status) (changed ∙ ap (λ e. updated vs e c) quiet)
            ∙ ap (λ m. m.status) (updated_quiet vs c),
        λ ending.
            let same : c' ≡ updated vs true c = changed ∙ ap (λ e. updated vs e c) ending in
            rw (answer, same, updated_workers vs true c) (updated-StatusOf vs c),
      )

module _ {S I : Type 0} where
  abbrev pub every_ended : List (TaskDescriptor S I) → Bool
  every_ended [] = true
  every_ended (t ∷ ts) = if t.ended then every_ended ts else false

  abbrev pub any_ended : List (TaskDescriptor S I) → Bool
  any_ended [] = false
  any_ended (t ∷ ts) = if t.ended then true else any_ended ts

  -- Whether a task that is no daemon has ended
  abbrev pub any_user_ended : List (TaskDescriptor S I) → Bool
  any_user_ended [] = false
  any_user_ended (t ∷ ts) =
      if t.daemon then any_user_ended ts else if t.ended then true else any_user_ended ts

  -- No daemon task has ended.
  abbrev pub DaemonsRun : List (TaskDescriptor S I) → Type 0
  DaemonsRun = All (λ t. t.daemon ≡ true → Running t)

  -- The status that the tasks call for, as the comments on `ManagerStatus` say: `Terminated` when
  -- every task has ended, `Terminating` when one that is no daemon has, and otherwise the one before
  abbrev pub called_for : List (WorkerManagerDescriptor S I) → ManagerStatus → ManagerStatus
  called_for ws before =
      if every_ended (all_tasks ws)
      then terminated
      else if any_user_ended (all_tasks ws)
      then terminating
      else before

  every_ended_lem :
      (ts : List (TaskDescriptor S I))
      → (every_ended ts ≡ true → All Ended ts) × (every_ended ts ≡ false → ¬ All Ended ts)
  every_ended_lem [] = (λ _. tt, λ e _. cc e)
  every_ended_lem (t ∷ ts) = elim (Bool-cases t.ended) [
    | inl over ↦
        let (all, not_all) = every_ended_lem ts in
        (λ e. (over, all (rw over at e)), λ e h. not_all (rw over at e) h.1)
    | inr runs ↦ (λ e. absurd (cc (rw runs at e)), λ _ h. cc (runs, h.0))
  ]

  any_ended_lem :
      (ts : List (TaskDescriptor S I))
      → (any_ended ts ≡ false → All Running ts) × (any_ended ts ≡ true → ¬ All Running ts)
  any_ended_lem [] = (λ _. tt, λ e _. cc e)
  any_ended_lem (t ∷ ts) = elim (Bool-cases t.ended) [
    | inl over ↦ (λ e. absurd (cc (rw over at e)), λ _ h. cc (over, h.0))
    | inr runs ↦
        let (none_of, some_of) = any_ended_lem ts in
        (λ e. (runs, none_of (rw runs at e)), λ e h. some_of (rw runs at e) h.1)
  ]

  any_user_ended_lem :
      (ts : List (TaskDescriptor S I)) → DaemonsRun ts → any_user_ended ts ≡ any_ended ts
  any_user_ended_lem [] h = refl
  any_user_ended_lem (t ∷ ts) h = elim (Bool-cases t.daemon) [
    | inl daemon ↦ rw (daemon, h.0 daemon) (any_user_ended_lem ts h.1)
    | inr user ↦ elim (Bool-cases t.ended) [
      | inl over ↦ rw (user, over) refl
      | inr runs ↦ rw (user, runs) (any_user_ended_lem ts h.1)
    ]
  ]

  StatusOf-called_for :
      (ws : List (WorkerManagerDescriptor S I)) (before after : ManagerStatus)
      → DaemonsRun (all_tasks ws)
      → StatusOf ws before after
      → after ≡ called_for ws before
  StatusOf-called_for ws before after daemons h =
      let users = any_user_ended_lem (all_tasks ws) daemons in
      let (all, not_all) = every_ended_lem (all_tasks ws) in
      let (none_of, some_of) = any_ended_lem (all_tasks ws) in
      elim (Bool-cases (every_ended (all_tasks ws))) [
        | inl every ↦ rw every (h.all_ended (all every))
        | inr some_run ↦ elim (Bool-cases (any_ended (all_tasks ws))) [
          | inl any ↦ rw (some_run, users, any) (h.some_ended (not_all some_run) (some_of any))
          | inr none_ends ↦
              rw (some_run, users, none_ends) (h.none_ended (not_all some_run) (none_of none_ends))
        ]
      ]

  -- A heartbeat that is taken, after which no daemon task has ended, answers the coordinator's status.
  -- If it has a `TaskEnd`, that is `Terminated` when every task has ended, `Terminating` when one that
  -- is no daemon has, and otherwise the status before; without a `TaskEnd` it is the status before.
  pub update_worker_status-called_for :
      (hex : ℕ → S) (eq : S → S → Bool) (now : ℕ) (id : S) (items : List (HeartbeatItem S))
      (status : ManagerStatus) (c c' : ClusterDescriptor S I) (s : ManagerStatus)
      → update_worker_status hex eq now id items status (some c) ≡ (some c', ok s)
      → DaemonsRun (all_tasks c'.worker_managers)
      → (s ≡ c'.coordinator_manager.status)
        × (s ≡ (
            if has_end items
            then called_for c'.worker_managers c.coordinator_manager.status
            else c.coordinator_manager.status))
  update_worker_status-called_for hex eq now id items status c c' s h daemons =
      let (answer, quiet, ending) =
        update_worker_status-StatusOf hex eq now id items status c c' s h in
      (
        answer,
        elim (Bool-cases (has_end items)) [
          | inl an_end ↦ rw an_end (
              StatusOf-called_for c'.worker_managers c.coordinator_manager.status s daemons
                (ending an_end))
          | inr no_end ↦ rw no_end (quiet no_end)
        ],
      )
