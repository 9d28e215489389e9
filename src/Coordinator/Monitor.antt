-- ===== src/Coordinator/Monitor.antt =====
-- The coordinator's two loops over the stored description: `waiting_worker_status_fine` of
-- rlink/src/runtime/coordinator/mod.rs and `start_heartbeat_timer` of heart_beat_manager.rs. A turn of
-- a loop is a function of what it reads; the loop runs over what it reads turn by turn. The sleeps
-- between the turns and the log are left out.
use rlink_rs.Prelude.{
  ℕ, ◌+◌, ◌-◌, ◌/◌, ◌≤◌, ◌<◌, ◌≡◌, ◌≢◌, ◌⊎◌, refl, inl, inr, Bool, true, false, Option, none, some,
  List, [], ◌∷◌, ltb, ltb→lt, lt→ltb, if◌then◌else◌, Bool-cases, All, arith,
}
use rlink_rs.Coordinator.{
  ManagerStatus, pending, registered, migration, terminating, terminated, WorkerManagerDescriptor,
  ClusterDescriptor, is_terminated,
}
use rlink_rs.Coordinator.Storage.{Store, update_coordinator_status}

pub data HeartbeatResult : Type 0 where
  timeout end : HeartbeatResult

-- `status.ne(&ManagerStatus::Registered)`, negated
unfoldable pub is_registered : ManagerStatus → Bool
is_registered registered = true
is_registered _ = false

abbrev pub or_next : Option HeartbeatResult → Option HeartbeatResult → Option HeartbeatResult
or_next (some result) next = some result
or_next none next = next

module _ {S I : Type 0} where
  -- The worker's heartbeat is late: not ahead of the clock, and more than 50 whole seconds old.
  unfoldable pub is_late : ℕ → WorkerManagerDescriptor S I → Bool
  is_late now w =
      if ltb now w.latest_heart_beat_ts
      then false
      else ltb 50 ((now - w.latest_heart_beat_ts) / 1000)

  abbrev pub check_workers : ℕ → List (WorkerManagerDescriptor S I) → Option HeartbeatResult
  check_workers now [] = none
  check_workers now (w ∷ ws) = if is_late now w then some timeout else check_workers now ws

  -- A turn of `start_heartbeat_timer`
  unfoldable pub check_heartbeats : ℕ → ClusterDescriptor S I → Option HeartbeatResult
  unfolding is_terminated is_late
  check_heartbeats now c =
      if is_terminated c.coordinator_manager.status
      then some end
      else check_workers now c.worker_managers

  -- `start_heartbeat_timer` on the times and the descriptions of its turns; `none`: still in the loop
  unfoldable pub start_heartbeat_timer : List (ℕ × ClusterDescriptor S I) → Option HeartbeatResult
  unfolding check_heartbeats
  start_heartbeat_timer [] = none
  start_heartbeat_timer ((now, c) ∷ turns) =
      or_next (check_heartbeats now c) (start_heartbeat_timer turns)

  abbrev pub all_registered : List (WorkerManagerDescriptor S I) → Bool
  all_registered [] = true
  all_registered (w ∷ ws) = if is_registered w.status then all_registered ws else false

  -- A turn of `waiting_worker_status_fine`: what it has read, and the store that it then writes; the
  -- flag says that the loop ends.
  unfoldable pub wait_turn : ClusterDescriptor S I → Store S I → Store S I × Bool
  unfolding is_registered update_coordinator_status
  wait_turn read store =
      if all_registered read.worker_managers
      then ((update_coordinator_status registered store).0, true)
      else (store, false)

  -- The heartbeat is less than 51 seconds old, or ahead of the clock.
  abbrev pub OnTime : ℕ → WorkerManagerDescriptor S I → Type 0
  OnTime now w = now < w.latest_heart_beat_ts + 51000

lag_late :
    (now ts : ℕ)
    → (if ltb now ts then false else ltb 50 ((now - ts) / 1000)) ≡ true
    → ts + 51000 ≤ now
lag_late now ts h = elim (Bool-cases (ltb now ts)) [
  | inl ahead ↦ absurd (cc (rw ahead at h))
  | inr behind ↦
      let old : 50 < (now - ts) / 1000 = ltb→lt 50 ((now - ts) / 1000) (rw behind at h) in
      omega (arith, old)
]

lag_on_time :
    (now ts : ℕ)
    → (if ltb now ts then false else ltb 50 ((now - ts) / 1000)) ≡ false
    → now < ts + 51000
lag_on_time now ts h = elim (Bool-cases (ltb now ts)) [
  | inl ahead ↦ omega (arith, ltb→lt now ts ahead)
  | inr behind ↦
      let young : ltb 50 ((now - ts) / 1000) ≡ false = rw behind at h in
      let le : ¬ (50 < (now - ts) / 1000) = λ lt. cc (young, lt→ltb 50 ((now - ts) / 1000) lt) in
      omega (arith, le)
]

pub is_terminated_lem : (s : ManagerStatus) → is_terminated s ≡ true → s ≡ terminated
unfolding is_terminated
is_terminated_lem pending h = absurd (cc h)
is_terminated_lem registered h = absurd (cc h)
is_terminated_lem migration h = absurd (cc h)
is_terminated_lem terminating h = absurd (cc h)
is_terminated_lem terminated h = refl

running : (s : ManagerStatus) → is_terminated s ≡ false → s ≢ terminated
unfolding is_terminated
running pending h e = cc e
running registered h e = cc e
running migration h e = cc e
running terminating h e = cc e
running terminated h e = cc h

not_terminated : (s : ManagerStatus) → s ≢ terminated → is_terminated s ≡ false
unfolding is_terminated
not_terminated pending h = refl
not_terminated registered h = refl
not_terminated migration h = refl
not_terminated terminating h = refl
not_terminated terminated h = absurd (h refl)

module _ {S I : Type 0} where
  check_workers_lem :
      (now : ℕ) (ws : List (WorkerManagerDescriptor S I))
      → (All (OnTime now) ws → check_workers now ws ≡ none)
        × (¬ All (OnTime now) ws → check_workers now ws ≡ some timeout)
  unfolding is_late
  check_workers_lem now [] = (λ _. refl, λ h. absurd (h tt))
  check_workers_lem now (w ∷ ws) = elim (Bool-cases (is_late now w)) [
    | inl late ↦
        let old : w.latest_heart_beat_ts + 51000 ≤ now = lag_late now w.latest_heart_beat_ts late in
        (λ h. absurd (omega (arith, old, h.0)), λ _. rw late refl)
    | inr fine ↦
        let (on_time, not_on_time) = check_workers_lem now ws in
        (
          λ h. rw fine (on_time h.1),
          λ h. rw fine (not_on_time (λ all. h (lag_on_time now w.latest_heart_beat_ts fine, all))),
        )
  ]

  -- A turn of the heartbeat loop ends with `End` when the coordinator's status is `Terminated`,
  -- otherwise with `Timeout` when some worker's heartbeat is 51 seconds old or older, and otherwise
  -- the loop goes on.
  pub check_heartbeats-OnTime :
      (now : ℕ) (c : ClusterDescriptor S I)
      → (c.coordinator_manager.status ≡ terminated → check_heartbeats now c ≡ some end)
        × (c.coordinator_manager.status ≢ terminated
            → ¬ All (OnTime now) c.worker_managers
            → check_heartbeats now c ≡ some timeout)
        × (c.coordinator_manager.status ≢ terminated
            → All (OnTime now) c.worker_managers
            → check_heartbeats now c ≡ none)
  unfolding check_heartbeats is_terminated
  check_heartbeats-OnTime now c =
      let (on_time, not_on_time) = check_workers_lem now c.worker_managers in
      (
        λ over. rw over refl,
        λ goes late. rw (not_terminated c.coordinator_manager.status goes) (not_on_time late),
        λ goes fine. rw (not_terminated c.coordinator_manager.status goes) (on_time fine),
      )

  OnTime-or_not :
      (now : ℕ) (ws : List (WorkerManagerDescriptor S I))
      → All (OnTime now) ws ⊎ (¬ All (OnTime now) ws)
  unfolding is_late
  OnTime-or_not now [] = inl tt
  OnTime-or_not now (w ∷ ws) = elim (Bool-cases (is_late now w)) [
    | inl late ↦
        let old : w.latest_heart_beat_ts + 51000 ≤ now = lag_late now w.latest_heart_beat_ts late in
        inr (λ h. omega (arith, old, h.0))
    | inr fine ↦ elim (OnTime-or_not now ws) [
      | inl others ↦ inl (lag_on_time now w.latest_heart_beat_ts fine, others)
      | inr others ↦ inr (λ h. others h.1)
    ]
  ]

  -- A turn of the heartbeat loop ends with `End` exactly when the coordinator's status is
  -- `Terminated`; otherwise with `Timeout` exactly when some worker's heartbeat is 51 seconds old or
  -- older; and otherwise the loop goes on.
  pub check_heartbeats-HeartbeatResult :
      (now : ℕ) (c : ClusterDescriptor S I)
      → ((c.coordinator_manager.status ≡ terminated) × (check_heartbeats now c ≡ some end))
        ⊎ ((c.coordinator_manager.status ≢ terminated)
            × (¬ All (OnTime now) c.worker_managers)
            × (check_heartbeats now c ≡ some timeout))
        ⊎ ((c.coordinator_manager.status ≢ terminated)
            × All (OnTime now) c.worker_managers
            × (check_heartbeats now c ≡ none))
  check_heartbeats-HeartbeatResult now c =
      let (over, late, fine) = check_heartbeats-OnTime now c in
      elim (Bool-cases (is_terminated c.coordinator_manager.status)) [
        | inl ends ↦
            let same = is_terminated_lem c.coordinator_manager.status ends in inl (same, over same)
        | inr goes ↦
            let differ = running c.coordinator_manager.status goes in
            elim (OnTime-or_not now c.worker_managers) [
              | inl all ↦ inr (inr (differ, all, fine differ all))
              | inr not_all ↦ inr (inl (differ, not_all, late differ not_all))
            ]
      ]
