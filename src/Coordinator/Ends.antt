-- ===== src/Coordinator/Ends.antt =====
-- When the coordinator stops: the loops of rlink/src/runtime/coordinator/mod.rs and
-- heart_beat_manager.rs with the heartbeats that the workers send between their turns.
use rlink_rs.Prelude.{
  ℕ, ◌≡◌, ◌≢◌, refl, sym, ◌∙◌, inl, inr, Bool, true, false, some, List, [], ◌∷◌, Bool-cases, All,
  ok,
}
use rlink_rs.Coordinator.{
  ManagerStatus, registered, terminated, WorkerManagerDescriptor, ClusterDescriptor, HeartbeatItem,
  is_terminated, set_status,
}
use rlink_rs.Coordinator.Storage.{update_coordinator_status, update_worker_status}
use rlink_rs.Coordinator.Reports.{has_end}
use rlink_rs.Coordinator.Status.{all_tasks, Ended, update_worker_status-StatusOf}
use rlink_rs.Coordinator.Monitor.{
  end, check_heartbeats, check_heartbeats-OnTime, is_terminated_lem, check_workers, is_late,
  wait_turn, all_registered,
}
use rlink_rs.Coordinator.Runs.{
  Request, IsSound, taken, ended_or_not, Ended-workers, run_heartbeats, update_worker_status-Later,
}

check_workers-end :
    {S I : Type 0} (now : ℕ) (ws : List (WorkerManagerDescriptor S I))
    → check_workers now ws ≢ some end
check_workers-end now [] e = cc e
check_workers-end now (w ∷ ws) e = elim (Bool-cases (is_late now w)) [
  | inl late ↦ cc (rw late at e)
  | inr fine ↦ check_workers-end now ws (rw fine at e)
]

check_end :
    {S I : Type 0} (now : ℕ) (c : ClusterDescriptor S I)
    → check_heartbeats now c ≡ some end
    → c.coordinator_manager.status ≡ terminated
unfolding check_heartbeats
check_end now c e = elim (Bool-cases (is_terminated c.coordinator_manager.status)) [
  | inl over ↦ is_terminated_lem c.coordinator_manager.status over
  | inr goes ↦ absurd (check_workers-end now c.worker_managers (rw (check_heartbeats, goes) at e))
]

-- No task ends by the heartbeat.
abbrev pub IsQuiet : {S : Type 0} → Request S → Type 0
IsQuiet r = has_end r.change_items ≡ false

module _ {S I : Type 0} (hex : ℕ → S) (eq : S → S → Bool) where
  update_worker_status-IsSound :
      (now : ℕ) (id : S) (items : List (HeartbeatItem S)) (status : ManagerStatus)
      (c c' : ClusterDescriptor S I) (s : ManagerStatus)
      → IsSound c
      → update_worker_status hex eq now id items status (some c) ≡ (some c', ok s)
      → IsSound c'
  update_worker_status-IsSound now id items status c c' s sound h over =
      let (answer, quiet, ending) =
        update_worker_status-StatusOf hex eq now id items status c c' s h in
      let kept = λ (was : c.coordinator_manager.status ≡ terminated).
        Ended-workers c.worker_managers c'.worker_managers
          (update_worker_status-Later hex eq now id items status c c' s h) (sound was) in
      elim (Bool-cases (has_end items)) [
        | inr no_end ↦ kept (sym (quiet no_end) ∙ answer ∙ over)
        | inl an_end ↦ elim (ended_or_not true (all_tasks c'.worker_managers)) [
          | inl all ↦ all
          | inr not_all ↦ elim (ended_or_not false (all_tasks c'.worker_managers)) [
            | inl running ↦ kept (sym ((ending an_end).none_ended not_all running) ∙ answer ∙ over)
            | inr some_end ↦
                absurd (cc (sym ((ending an_end).some_ended not_all some_end) ∙ answer ∙ over))
          ]
        ]
      ]

  run_heartbeats-IsSound :
      (rs : List (Request S)) (c : ClusterDescriptor S I)
      → IsSound c
      → IsSound (run_heartbeats hex eq rs c)
  unfolding run_heartbeats
  run_heartbeats-IsSound [] c sound = sound
  run_heartbeats-IsSound (r ∷ rs) c sound = run_heartbeats-IsSound rs _ (
      taken IsSound c
        (update_worker_status hex eq r.now r.task_manager_id r.change_items registered (some c))
        sound
        (λ c' s.
          update_worker_status-IsSound r.now r.task_manager_id r.change_items registered c c' s
            sound))

  -- The heartbeat loop answers `End` only when every task of every worker has ended, whatever
  -- heartbeats arrived before, if the description that was saved did not say `Terminated` too early.
  pub end-Ended :
      (rs : List (Request S)) (c : ClusterDescriptor S I) (now : ℕ)
      → IsSound c
      → check_heartbeats now (run_heartbeats hex eq rs c) ≡ some end
      → All Ended (all_tasks (run_heartbeats hex eq rs c).worker_managers)
  end-Ended rs c now sound over =
      run_heartbeats-IsSound rs c sound (check_end now (run_heartbeats hex eq rs c) over)

  -- When a heartbeat with a `TaskEnd` is taken and every task has then ended, the next turn of the
  -- heartbeat loop answers `End`.
  pub last_task_end-end :
      (now : ℕ) (id : S) (items : List (HeartbeatItem S)) (c c' : ClusterDescriptor S I)
      (s : ManagerStatus) (later : ℕ)
      → update_worker_status hex eq now id items registered (some c) ≡ (some c', ok s)
      → has_end items ≡ true
      → All Ended (all_tasks c'.worker_managers)
      → check_heartbeats later c' ≡ some end
  last_task_end-end now id items c c' s later h an_end all =
      let (answer, quiet, ending) =
        update_worker_status-StatusOf hex eq now id items registered c c' s h in
      (check_heartbeats-OnTime later c').0 (sym answer ∙ (ending an_end).all_ended all)

  run_heartbeats-IsQuiet :
      (rs : List (Request S)) (c : ClusterDescriptor S I)
      → All IsQuiet rs
      → (run_heartbeats hex eq rs c).coordinator_manager.status ≡ c.coordinator_manager.status
  unfolding run_heartbeats
  run_heartbeats-IsQuiet [] c quiet = refl
  run_heartbeats-IsQuiet (r ∷ rs) c quiet =
      run_heartbeats-IsQuiet rs _ quiet.1
      ∙ taken (λ d. d.coordinator_manager.status ≡ c.coordinator_manager.status) c
          (update_worker_status hex eq r.now r.task_manager_id r.change_items registered (some c))
          refl
          (λ c' s h.
            let (answer, same, ending) =
              update_worker_status-StatusOf hex eq r.now r.task_manager_id r.change_items registered
                c c' s h in
            sym answer ∙ same quiet.0)

  -- When the waiting loop finds every worker registered, it writes `Registered` over the coordinator's
  -- status, also when it is `Terminated` because every task has ended already. From then on, while
  -- no heartbeat has a `TaskEnd`, the heartbeat loop does not answer `End`.
  pub registered-never_ends :
      (c : ClusterDescriptor S I) (rs : List (Request S)) (now : ℕ)
      → all_registered c.worker_managers ≡ true
      → All IsQuiet rs
      → (wait_turn c (some c) ≡ (some (set_status registered c), true))
        × (check_heartbeats now (run_heartbeats hex eq rs (set_status registered c)) ≢ some end)
  unfolding wait_turn update_coordinator_status set_status
  registered-never_ends c rs now all quiet = (
    rw all refl,
    λ over. cc (
        sym (check_end now (run_heartbeats hex eq rs (set_status registered c)) over)
        ∙ run_heartbeats-IsQuiet rs (set_status registered c) quiet),
  )
