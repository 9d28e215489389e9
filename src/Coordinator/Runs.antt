-- ===== src/Coordinator/Runs.antt =====
-- Sequences of heartbeats that reach the coordinator (`heartbeat` of
-- rlink/src/runtime/coordinator/web_server.rs), each stored by `update_worker_status`, and what they
-- do to the tasks and to the coordinator's status.
use rlink_rs.Prelude.{
  ℕ, ◌≡◌, ◌≢◌, refl, sym, ap, ◌∙◌, ◌⊎◌, inl, inr, Bool, true, false, none, some, List, [], ◌∷◌,
  ◌++◌, All, All-append, Outcome, ok, err, panic,
}
use rlink_rs.Prelude.Pairwise.{
  Pairwise, Pairwise-refl, Pairwise-trans, Pairwise-map, Pairwise-replaced,
}
use mathlib.Core.Path.{subst}
use rlink_rs.Coordinator.{
  ManagerStatus, registered, terminated, WorkerManagerDescriptor, TaskDescriptor, ClusterDescriptor,
  HeartbeatItem,
}
use rlink_rs.Coordinator.Storage.{MetadataError, Store, report, update_worker_status}
use rlink_rs.Coordinator.Reports.{has_end, task_after, report-keeps, report-task_after}
use rlink_rs.Coordinator.Status.{updated_workers, all_tasks, Ended, update_worker_status_inversion}

pub record Request (S : Type 0) : Type 0 where
  pub now : ℕ
  pub task_manager_id : S
  pub change_items : List (HeartbeatItem S)

same_or_not : (a b : Bool) → (a ≡ b) ⊎ (a ≢ b)
same_or_not true true = inl refl
same_or_not true false = inr (λ e. cc e)
same_or_not false true = inr (λ e. cc e)
same_or_not false false = inl refl

module _ {S I : Type 0} where
  -- The same task, ended if it had ended
  abbrev pub LaterTask : TaskDescriptor S I → TaskDescriptor S I → Type 0
  LaterTask t u = (u.task_id ≡ t.task_id) × (t.ended ≡ true → u.ended ≡ true)

  -- The same worker, with the same tasks later
  abbrev pub LaterWorker : WorkerManagerDescriptor S I → WorkerManagerDescriptor S I → Type 0
  LaterWorker w v =
      (v.task_manager_id ≡ w.task_manager_id)
      × Pairwise LaterTask w.task_descriptors v.task_descriptors

  abbrev pub Later : ClusterDescriptor S I → ClusterDescriptor S I → Type 0
  Later c d = Pairwise LaterWorker c.worker_managers d.worker_managers

  -- `Terminated` is not said before every task has ended.
  abbrev pub IsSound : ClusterDescriptor S I → Type 0
  IsSound c = c.coordinator_manager.status ≡ terminated → All Ended (all_tasks c.worker_managers)

  abbrev pub after_answer :
      ClusterDescriptor S I
      → Store S I × Outcome (MetadataError S) ManagerStatus
      → ClusterDescriptor S I
  after_answer c (some d, ok s) = d
  after_answer c _ = c

  -- The heartbeats in the order in which they take the lock; the handler passes `Registered`.
  unfoldable pub run_heartbeats :
      (ℕ → S) → (S → S → Bool) → List (Request S) → ClusterDescriptor S I → ClusterDescriptor S I
  unfolding update_worker_status
  run_heartbeats hex eq [] c = c
  run_heartbeats hex eq (r ∷ rs) c = run_heartbeats hex eq rs (
      after_answer c
        (update_worker_status hex eq r.now r.task_manager_id r.change_items registered (some c)))

  LaterWorker-refl : (w : WorkerManagerDescriptor S I) → LaterWorker w w
  LaterWorker-refl w = (refl, Pairwise-refl LaterTask (λ t. (refl, λ e. e)) w.task_descriptors)

  LaterWorker-trans :
      (u v w : WorkerManagerDescriptor S I) → LaterWorker u v → LaterWorker v w → LaterWorker u w
  LaterWorker-trans u v w h k = (
    k.0 ∙ h.0,
    Pairwise-trans LaterTask (λ a b c p q. (q.0 ∙ p.0, λ e. q.1 (p.1 e))) u.task_descriptors
        v.task_descriptors w.task_descriptors h.1 k.1,
  )

  task_after-LaterTask :
      (hex : ℕ → S) (items : List (HeartbeatItem S)) (t : TaskDescriptor S I)
      → LaterTask t (task_after hex items t)
  task_after-LaterTask hex items t = (refl, λ e. rw e refl)

  report-LaterWorker :
      (hex : ℕ → S) (now : ℕ) (items : List (HeartbeatItem S)) (status : ManagerStatus)
      (w : WorkerManagerDescriptor S I)
      → LaterWorker w (report hex now items status w).0
  report-LaterWorker hex now items status w =
      let (status_kept, ts_kept, id_kept) = report-keeps hex now items status w in
      (
        id_kept,
        subst (Pairwise LaterTask w.task_descriptors)
            (sym (report-task_after hex now items status w).0)
            (Pairwise-map LaterTask (task_after hex items) (task_after-LaterTask hex items)
              w.task_descriptors),
      )

  split_All :
      (P : TaskDescriptor S I → Type 0) (ts us : List (TaskDescriptor S I))
      → All P (ts ++ us)
      → All P ts × All P us
  split_All P [] us h = (tt, h)
  split_All P (t ∷ ts) us h = let (hs, hu) = split_All P ts us h.1 in ((h.0, hs), hu)

  Ended-tasks :
      (ts us : List (TaskDescriptor S I)) → Pairwise LaterTask ts us → All Ended ts → All Ended us
  Ended-tasks [] [] h e = tt
  Ended-tasks [] (u ∷ us) h e = absurd h
  Ended-tasks (t ∷ ts) [] h e = absurd h
  Ended-tasks (t ∷ ts) (u ∷ us) h e = (h.0.1 e.0, Ended-tasks ts us h.1 e.1)

  pub Ended-workers :
      (ws vs : List (WorkerManagerDescriptor S I))
      → Pairwise LaterWorker ws vs
      → All Ended (all_tasks ws)
      → All Ended (all_tasks vs)
  Ended-workers [] [] h e = tt
  Ended-workers [] (v ∷ vs) h e = absurd h
  Ended-workers (w ∷ ws) [] h e = absurd h
  Ended-workers (w ∷ ws) (v ∷ vs) h e =
      let (mine, others) = split_All Ended w.task_descriptors (all_tasks ws) e in
      All-append Ended v.task_descriptors (all_tasks vs)
        (Ended-tasks w.task_descriptors v.task_descriptors h.0.1 mine)
        (Ended-workers ws vs h.1 others)

  pub ended_or_not :
      (b : Bool) (ts : List (TaskDescriptor S I))
      → All (λ t. t.ended ≡ b) ts ⊎ (¬ All (λ t. t.ended ≡ b) ts)
  ended_or_not b [] = inl tt
  ended_or_not b (t ∷ ts) = elim (same_or_not t.ended b) [
    | inl here ↦ elim (ended_or_not b ts) [
      | inl rest ↦ inl (here, rest)
      | inr other ↦ inr (λ h. other h.1)
    ]
    | inr other ↦ inr (λ h. other h.0)
  ]

  pub taken :
      (P : ClusterDescriptor S I → Type 0) (c : ClusterDescriptor S I)
      (r : Store S I × Outcome (MetadataError S) ManagerStatus)
      → P c
      → ((c' : ClusterDescriptor S I) (s : ManagerStatus) → r ≡ (some c', ok s) → P c')
      → P (after_answer c r)
  taken P c (some d, ok s) before after = after d s refl
  taken P c (some d, err e) before after = before
  taken P c (some d, panic) before after = before
  taken P c (none, r) before after = before

module _ {S I : Type 0} (hex : ℕ → S) (eq : S → S → Bool) where
  pub update_worker_status-Later :
      (now : ℕ) (id : S) (items : List (HeartbeatItem S)) (status : ManagerStatus)
      (c c' : ClusterDescriptor S I) (s : ManagerStatus)
      → update_worker_status hex eq now id items status (some c) ≡ (some c', ok s)
      → Later c c'
  update_worker_status-Later now id items status c c' s h =
      let (before, w, after, split, changed, answer) =
        update_worker_status_inversion hex eq now id items status c c' s h in
      let vs : List (WorkerManagerDescriptor S I) =
        before ++ (report hex now items status w).0 ∷ after in
      subst (λ us. Pairwise LaterWorker us c'.worker_managers) (sym split)
        (subst (Pairwise LaterWorker (before ++ w ∷ after))
          (sym (ap (λ d. d.worker_managers) changed ∙ updated_workers vs (has_end items) c))
          (Pairwise-replaced LaterWorker LaterWorker-refl before w (report hex now items status w).0
            after (report-LaterWorker hex now items status w)))

  -- Whatever heartbeats arrive, the workers and their tasks stay the same ones, and a task that has
  -- ended is never running again.
  pub run_heartbeats-Later :
      (rs : List (Request S)) (c : ClusterDescriptor S I) → Later c (run_heartbeats hex eq rs c)
  unfolding run_heartbeats
  run_heartbeats-Later [] c = Pairwise-refl LaterWorker LaterWorker-refl c.worker_managers
  run_heartbeats-Later (r ∷ rs) c =
      let d : ClusterDescriptor S I =
        after_answer c (
          update_worker_status hex eq r.now r.task_manager_id r.change_items registered (some c)) in
      Pairwise-trans LaterWorker LaterWorker-trans c.worker_managers d.worker_managers
        (run_heartbeats hex eq rs d).worker_managers
        (taken (Later c) c
          (update_worker_status hex eq r.now r.task_manager_id r.change_items registered (some c))
          (Pairwise-refl LaterWorker LaterWorker-refl c.worker_managers)
          (λ c' s h.
            update_worker_status-Later r.now r.task_manager_id r.change_items registered c c' s h))
        (run_heartbeats-Later rs d)
