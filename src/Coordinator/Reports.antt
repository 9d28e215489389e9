-- ===== src/Coordinator/Reports.antt =====
-- What a batch of heartbeat items does to a worker's tasks in
-- rlink/src/storage/metadata/mem_metadata_storage.rs: the loop over the items, each with a loop over
-- the tasks, against a summary of the batch for each task.
use rlink_rs.Prelude.{
  ℕ, ◌≡◌, refl, sym, ap, ◌∙◌, inl, inr, Bool, true, false, ◌||◌, none, some, List, [], ◌∷◌, ◌++◌,
  map, if◌then◌else◌, Bool-cases, All, ok, err,
}
use mathlib.Core.Path.{ap₂}
use rlink_rs.Core.{TaskId}
use rlink_rs.Coordinator.{
  ManagerStatus, WorkerManagerDescriptor, TaskDescriptor, ClusterDescriptor, HeartbeatItem,
  worker_manager_address, worker_manager_web_address, metrics_address_item, heart_beat_status,
  task_thread_id, task_end, task_id_eq,
}
use rlink_rs.Coordinator.Storage.{
  change_task, change_tasks, apply_item, apply_items, report, update_found, stored, updated,
  update_worker_status, task_manager_not_found,
}

module _ {S : Type 0} where
  -- The batch reports the end of the task
  abbrev pub reports_end : List (HeartbeatItem S) → TaskId → Bool
  reports_end [] i = false
  reports_end (task_end j ∷ items) i = task_id_eq i j || reports_end items i
  reports_end (_ ∷ items) i = reports_end items i

  -- The batch reports the end of some task
  abbrev pub has_end : List (HeartbeatItem S) → Bool
  has_end [] = false
  has_end (task_end j ∷ items) = true
  has_end (_ ∷ items) = has_end items

  -- The text of the last thread that the batch names for the task
  abbrev pub last_thread : (ℕ → S) → List (HeartbeatItem S) → TaskId → S → S
  last_thread hex [] i before = before
  last_thread hex (task_thread_id j thread ∷ items) i before =
      last_thread hex items i (if task_id_eq i j then hex thread else before)
  last_thread hex (_ ∷ items) i before = last_thread hex items i before

module _ {S I : Type 0} (hex : ℕ → S) where
  abbrev pub task_after : List (HeartbeatItem S) → TaskDescriptor S I → TaskDescriptor S I
  task_after items t = record t {
    thread_id = last_thread hex items t.task_id t.thread_id;
    ended = t.ended || reports_end items t.task_id;
  }

map-same : {A : Type 0} (f : A → A) → ((a : A) → f a ≡ a) → (xs : List A) → map f xs ≡ xs
map-same f h [] = refl
map-same f h (a ∷ xs) = ap₂ (λ b bs. b ∷ bs) (h a) (map-same f h xs)

map-fused :
    {A B C : Type 0} (f : B → C) (g : A → B) (k : A → C)
    → ((a : A) → f (g a) ≡ k a)
    → (xs : List A) → map f (map g xs) ≡ map k xs
map-fused f g k h [] = refl
map-fused f g k h (a ∷ xs) = ap₂ (λ b bs. b ∷ bs) (h a) (map-fused f g k h xs)

or_false : (b : Bool) → (b || false) ≡ b
or_false true = refl
or_false false = refl

or_true : (b : Bool) → (b || true) ≡ true
or_true true = refl
or_true false = refl

or_step : (a b c : Bool) → ((if b then true else a) || c) ≡ (a || (b || c))
or_step true true c = refl
or_step true false c = refl
or_step false true c = refl
or_step false false c = refl

module _ {S I : Type 0} (hex : ℕ → S) where
  -- One turn of the inner loop, before the rest of the batch
  task_after-end :
      (items : List (HeartbeatItem S)) (j : TaskId) (t : TaskDescriptor S I)
      → task_after hex items (change_task (λ u. record u { ended = true }) j t)
        ≡ task_after hex (task_end j ∷ items) t
  task_after-end items j t = elim (Bool-cases (task_id_eq t.task_id j)) [
    | inl here ↦ rw here (
        ap (λ b. record t { thread_id = last_thread hex items t.task_id t.thread_id; ended = b })
          (or_step t.ended true (reports_end items t.task_id)))
    | inr there ↦ rw there refl
  ]

  task_after-thread :
      (items : List (HeartbeatItem S)) (j : TaskId) (n : ℕ) (t : TaskDescriptor S I)
      → task_after hex items (change_task (λ u. record u { thread_id = hex n }) j t)
        ≡ task_after hex (task_thread_id j n ∷ items) t
  task_after-thread items j n t = elim (Bool-cases (task_id_eq t.task_id j)) [
    | inl here ↦ rw here refl
    | inr there ↦ rw there refl
  ]

  -- The loops leave each task of the worker xs the summary of the batch says, and the flag is raised
  -- exactly when the batch has a `TaskEnd`.
  pub apply_items-task_after :
      (items : List (HeartbeatItem S)) (w : WorkerManagerDescriptor S I) (e : Bool)
      → ((apply_items hex items (w, e)).0.task_descriptors
          ≡ map (task_after hex items) w.task_descriptors)
        × ((apply_items hex items (w, e)).1 ≡ (e || has_end items))
  unfolding apply_items apply_item
  apply_items-task_after [] w e = (
    sym (
        map-same (task_after hex []) (λ t. ap (λ b. record t { ended = b }) (or_false t.ended))
          w.task_descriptors),
    sym (or_false e),
  )
  apply_items-task_after (worker_manager_address a ∷ items) w e =
      apply_items-task_after items (record w { task_manager_address = a }) e
  apply_items-task_after (worker_manager_web_address a ∷ items) w e =
      apply_items-task_after items (record w { web_address = a }) e
  apply_items-task_after (metrics_address_item a ∷ items) w e =
      apply_items-task_after items (record w { metrics_address = a }) e
  apply_items-task_after (heart_beat_status s ∷ items) w e =
      apply_items-task_after items (record w { latest_heart_beat_status = s }) e
  apply_items-task_after (task_thread_id j n ∷ items) w e =
      let (tasks, flag) =
        apply_items-task_after items (change_tasks (λ u. record u { thread_id = hex n }) j w) e in
      (
        tasks
            ∙ map-fused (task_after hex items) (change_task (λ u. record u { thread_id = hex n }) j)
                (task_after hex (task_thread_id j n ∷ items)) (task_after-thread items j n)
                w.task_descriptors,
        flag,
      )
  apply_items-task_after (task_end j ∷ items) w e =
      let (tasks, flag) =
        apply_items-task_after items (change_tasks (λ u. record u { ended = true }) j w) true in
      (
        tasks
            ∙ map-fused (task_after hex items) (change_task (λ u. record u { ended = true }) j)
                (task_after hex (task_end j ∷ items)) (task_after-end items j) w.task_descriptors,
        flag ∙ sym (or_true e),
      )

  apply_items-keeps :
      (items : List (HeartbeatItem S)) (w : WorkerManagerDescriptor S I) (e : Bool)
      → ((apply_items hex items (w, e)).0.status ≡ w.status)
        × ((apply_items hex items (w, e)).0.latest_heart_beat_ts ≡ w.latest_heart_beat_ts)
        × ((apply_items hex items (w, e)).0.task_manager_id ≡ w.task_manager_id)
  unfolding apply_items apply_item
  apply_items-keeps [] w e = (refl, refl, refl)
  apply_items-keeps (worker_manager_address a ∷ items) w e =
      apply_items-keeps items (record w { task_manager_address = a }) e
  apply_items-keeps (worker_manager_web_address a ∷ items) w e =
      apply_items-keeps items (record w { web_address = a }) e
  apply_items-keeps (metrics_address_item a ∷ items) w e =
      apply_items-keeps items (record w { metrics_address = a }) e
  apply_items-keeps (heart_beat_status s ∷ items) w e =
      apply_items-keeps items (record w { latest_heart_beat_status = s }) e
  apply_items-keeps (task_thread_id j n ∷ items) w e =
      apply_items-keeps items (change_tasks (λ u. record u { thread_id = hex n }) j w) e
  apply_items-keeps (task_end j ∷ items) w e =
      apply_items-keeps items (change_tasks (λ u. record u { ended = true }) j w) true

  pub report-task_after :
      (now : ℕ) (items : List (HeartbeatItem S)) (status : ManagerStatus)
      (w : WorkerManagerDescriptor S I)
      → ((report hex now items status w).0.task_descriptors
          ≡ map (task_after hex items) w.task_descriptors)
        × ((report hex now items status w).1 ≡ has_end items)
  unfolding report
  report-task_after now items status w =
      apply_items-task_after items (record w { status = status; latest_heart_beat_ts = now }) false

  pub report-keeps :
      (now : ℕ) (items : List (HeartbeatItem S)) (status : ManagerStatus)
      (w : WorkerManagerDescriptor S I)
      → ((report hex now items status w).0.status ≡ status)
        × ((report hex now items status w).0.latest_heart_beat_ts ≡ now)
        × ((report hex now items status w).0.task_manager_id ≡ w.task_manager_id)
  unfolding report
  report-keeps now items status w =
      apply_items-keeps items (record w { status = status; latest_heart_beat_ts = now }) false

module _ {S I : Type 0} (eq : S → S → Bool) (id : S) where
  abbrev pub NotNamed : WorkerManagerDescriptor S I → Type 0
  NotNamed w = eq w.task_manager_id id ≡ false

  update_found-first :
      (f : WorkerManagerDescriptor S I → WorkerManagerDescriptor S I × Bool)
      → (before : List (WorkerManagerDescriptor S I)) (w : WorkerManagerDescriptor S I)
        (after : List (WorkerManagerDescriptor S I))
      → All NotNamed before
      → eq w.task_manager_id id ≡ true
      → update_found eq f id (before ++ w ∷ after) ≡ some (before ++ (f w).0 ∷ after, (f w).1)
  unfolding update_found
  update_found-first f [] w after none_before named = rw named refl
  update_found-first f (v ∷ before) w after none_before named =
      rw (none_before.0, update_found-first f before w after none_before.1 named) refl

  update_found-none :
      (f : WorkerManagerDescriptor S I → WorkerManagerDescriptor S I × Bool)
      → (ws : List (WorkerManagerDescriptor S I)) → All NotNamed ws
      → update_found eq f id ws ≡ none
  unfolding update_found
  update_found-none f [] nobody = refl
  update_found-none f (v ∷ ws) nobody = rw (nobody.0, update_found-none f ws nobody.1) refl

  -- A heartbeat from a worker that the description does not have is an error, and changes nothing.
  pub update_worker_status-unknown :
      (hex : ℕ → S) (now : ℕ) (items : List (HeartbeatItem S)) (status : ManagerStatus)
      (c : ClusterDescriptor S I)
      → All NotNamed c.worker_managers
      → update_worker_status hex eq now id items status (some c)
        ≡ (some c, err (task_manager_not_found id))
  unfolding update_worker_status stored
  update_worker_status-unknown hex now items status c nobody =
      rw (update_found-none (report hex now items status) c.worker_managers nobody) refl

  -- A heartbeat changes the first worker with its id and no other one: it takes the status and the
  -- time, and each of its tasks is as the summary of the batch says. The answer is the coordinator's
  -- status, flushed if the batch has a `TaskEnd`.
  pub update_worker_status-report :
      (hex : ℕ → S) (now : ℕ) (items : List (HeartbeatItem S)) (status : ManagerStatus)
      (c : ClusterDescriptor S I) (before : List (WorkerManagerDescriptor S I))
      (w : WorkerManagerDescriptor S I) (after : List (WorkerManagerDescriptor S I))
      → c.worker_managers ≡ before ++ w ∷ after
      → All NotNamed before
      → eq w.task_manager_id id ≡ true
      → (w' : WorkerManagerDescriptor S I) × (update_worker_status hex eq now id items status
            (some c)
          ≡ (
            some (updated (before ++ w' ∷ after) (has_end items) c),
            ok ((updated (before ++ w' ∷ after) (has_end items) c).coordinator_manager.status),
          ))
        × (w'.task_descriptors ≡ map (task_after hex items) w.task_descriptors)
        × (w'.status ≡ status)
        × (w'.latest_heart_beat_ts ≡ now)
        × (w'.task_manager_id ≡ w.task_manager_id)
  unfolding update_worker_status report stored
  update_worker_status-report hex now items status c before w after workers none_before named =
      let (tasks, flag) = report-task_after hex now items status w in
      let (status_kept, ts_kept, id_kept) = report-keeps hex now items status w in
      (
        (report hex now items status w).0,
        ap (stored c id) (
            ap (update_found eq (report hex now items status) id) workers
            ∙ update_found-first (report hex now items status) before w after none_before named
            ∙ ap (λ e. some (before ++ (report hex now items status w).0 ∷ after, e)) flag),
        tasks,
        status_kept,
        ts_kept,
        id_kept,
      )
