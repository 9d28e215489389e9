-- ===== src/Coordinator/Restores.antt =====
-- What an operator starts from when the coordinator restores checkpoints
-- (rlink/src/runtime/coordinator/mod.rs): the row of its id and of its task's number.
use rlink_rs.Prelude.{
  ℕ, ◌≡◌, ◌≢◌, refl, sym, ap, ◌∙◌, ◌⊎◌, inl, inr, false, Option, none, some, List, [], ◌∷◌, ◌++◌,
  ◌==◌, ==_iff, if◌then◌else◌, Bool-cases, All, map_All, Outcome, ok, err, panic, ◌>>=◌, unwrap,
}
use mathlib.Core.List.{append_assoc, append-nil}
use rlink_rs.Prelude.Maps.{lookup, insert, ==-IsTest, lookup-insert_self, lookup-insert_other}
use rlink_rs.Prelude.Pairwise.{Pairwise}
use rlink_rs.Prelude.Sort.{Any-map, Any}
use rlink_rs.Checkpoints.{Checkpoint}
use rlink_rs.Coordinator.{
  OperatorDescriptor, TaskDescriptor, WorkerManagerDescriptor, ClusterDescriptor,
}
use rlink_rs.Coordinator.Restore.{
  each, OperatorCheckpoints, or_new, group, loaded_rows, load, find_number, restored,
  restore_operator, restore_task, restore_worker, restore_cluster,
}

each-Pairwise :
    {A : Type 0} (R : A → A → Type 0) (f : A → Outcome ⊥ A) (xs : List A)
    → All (λ x. (y : A) × (f x ≡ ok y) × R x y) xs
    → (ys : List A) × (each f xs ≡ ok ys) × Pairwise R xs ys
unfolding each
each-Pairwise R f [] h = ([], refl, tt)
each-Pairwise R f (x ∷ xs) h =
    let (y, e, r) = h.0 in
    let (ys, es, rs) = each-Pairwise R f xs h.1 in (y ∷ ys, rw (e, each, es) refl, (r, rs))

each-panic :
    {A : Type 0} (f : A → Outcome ⊥ A) (xs : List A) → Any (λ x. f x ≡ panic) xs → each f xs ≡ panic
unfolding each
each-panic f [] h = elim h [ ]
each-panic {A = A} f (x ∷ xs) (inl here) = rw here refl
each-panic {A = A} f (x ∷ xs) (inr rest) = stops (f x) (each f xs) (each-panic f xs rest)
  where
    stops :
        (a : Outcome ⊥ A) (b : Outcome ⊥ (List A))
        → b ≡ panic
        → (a >>= λ y. b >>= λ ys. ok (y ∷ ys)) ≡ panic
    stops (ok y) b e = rw e refl
    stops (err n) b e = absurd n
    stops panic b e = refl

module _ {S : Type 0} where
  abbrev of_operator : ℕ → List (Checkpoint S) → List (Checkpoint S)
  of_operator id [] = []
  of_operator id (ck ∷ cks) =
      if ck.operator_id == id then ck ∷ of_operator id cks else of_operator id cks

  -- What the map has for an operator, with more checkpoints of it
  abbrev more : Option (List (Checkpoint S)) → List (Checkpoint S) → Option (List (Checkpoint S))
  more none [] = none
  more none (ck ∷ cks) = some (ck ∷ cks)
  more (some ds) cks = some (ds ++ cks)

  more_cons :
      (o : Option (List (Checkpoint S))) (ck : Checkpoint S) (cks : List (Checkpoint S))
      → more (some (or_new o ++ ck ∷ [])) cks ≡ more o (ck ∷ cks)
  more_cons none ck cks = refl
  more_cons (some ds) ck cks = ap some (append_assoc ds (ck ∷ []) cks)

  more_nil : (o : Option (List (Checkpoint S))) → more o [] ≡ o
  more_nil none = refl
  more_nil (some ds) = ap some (append-nil ds)

  lookup-group :
      (id : ℕ) (rows : List (Checkpoint S)) (m : OperatorCheckpoints S)
      → lookup ◌==◌ id (group rows m) ≡ more (lookup ◌==◌ id m) (of_operator id rows)
  unfolding group
  lookup-group id [] m = sym (more_nil (lookup ◌==◌ id m))
  lookup-group id (ck ∷ rows) m =
      let new : List (Checkpoint S) = or_new (lookup ◌==◌ ck.operator_id m) ++ ck ∷ [] in
      lookup-group id rows (insert ◌==◌ ck.operator_id new m)
      ∙ elim (Bool-cases (ck.operator_id == id)) [
        | inl here ↦ rw here (
            ap (λ o. more o (of_operator id rows))
              (ap (λ i. lookup ◌==◌ i (insert ◌==◌ ck.operator_id new m))
                  (sym ((==_iff ck.operator_id id).0 here))
                ∙ lookup-insert_self ◌==◌ ck.operator_id new m
                    ((==_iff ck.operator_id ck.operator_id).1 refl))
            ∙ more_cons (lookup ◌==◌ ck.operator_id m) ck (of_operator id rows)
            ∙ ap (λ i. more (lookup ◌==◌ i m) (ck ∷ of_operator id rows))
                ((==_iff ck.operator_id id).0 here))
        | inr there ↦ rw there (
            ap (λ o. more o (of_operator id rows))
              (lookup-insert_other ◌==◌ ck.operator_id id new m ==-IsTest there))
      ]

  -- A row of the operator and of the task's number
  abbrev pub IsRowOf : ℕ → ℕ → Checkpoint S → Type 0
  IsRowOf id n ck = (ck.operator_id ≡ id) × (ck.task_id.task_number ≡ n)

  -- The operator's state comes from one of the rows, of its own id and of the task's number.
  abbrev pub Restored :
      List (Checkpoint S) → ℕ → OperatorDescriptor S → OperatorDescriptor S → Type 0
  Restored rows n o p =
      (p.operator_id ≡ o.operator_id)
      × ((ck : Checkpoint S) × Any (λ d. d ≡ ck) rows
          × IsRowOf o.operator_id n ck
          × (p.checkpoint_id ≡ ck.checkpoint_id)
          × (p.checkpoint_handle ≡ some ck.handle))

  find_number-of_operator :
      (id n : ℕ) (rows : List (Checkpoint S))
      → Any (IsRowOf id n) rows
      → (ck : Checkpoint S) × (find_number n (of_operator id rows) ≡ some ck)
        × Any (λ d. d ≡ ck) rows
        × IsRowOf id n ck
  find_number-of_operator id n [] h = elim h [ ]
  find_number-of_operator id n (ck ∷ rows) h = elim (Bool-cases (ck.operator_id == id)) [
    | inl mine ↦ elim (Bool-cases (ck.task_id.task_number == n)) [
      | inl same ↦ (
        ck,
        rw (mine, find_number, same) refl,
        inl refl,
        ((==_iff ck.operator_id id).0 mine, (==_iff ck.task_id.task_number n).0 same),
      )
      | inr other ↦
          let (k, found, mem, row) =
            find_number-of_operator id n rows
              (rest h (λ r. cc (other, (==_iff ck.task_id.task_number n).1 r.1))) in
          (k, rw (mine, find_number, other) found, inr mem, row)
    ]
    | inr others ↦
        let (k, found, mem, row) =
          find_number-of_operator id n rows
            (rest h (λ r. cc (others, (==_iff ck.operator_id id).1 r.0))) in
        (k, rw others found, inr mem, row)
  ]
    where
      rest : IsRowOf id n ck ⊎ Any (IsRowOf id n) rows → ¬ IsRowOf id n ck → Any (IsRowOf id n) rows
      rest (inl here) not_here = absurd (not_here here)
      rest (inr there) not_here = there

  restored-some :
      (n : ℕ) (o : OperatorDescriptor S) (cks : List (Checkpoint S)) (ck : Checkpoint S)
      → find_number n cks ≡ some ck
      → restored n o cks
        ≡ ok (record o { checkpoint_id = ck.checkpoint_id; checkpoint_handle = some ck.handle })
  restored-some n o [] ck found = absurd (cc found)
  restored-some n o (k ∷ cks) ck found = rw found refl

  more_found :
      (n : ℕ) (cks : List (Checkpoint S)) (ck : Checkpoint S)
      → find_number n cks ≡ some ck
      → more none cks ≡ some cks
  more_found n [] ck found = absurd (cc found)
  more_found n (k ∷ cks) ck found = refl

  restore_operator-Restored :
      (rows : List (Checkpoint S)) (n : ℕ) (o : OperatorDescriptor S)
      → Any (IsRowOf o.operator_id n) rows
      → (p : OperatorDescriptor S) × (restore_operator (group rows []) n o ≡ ok p)
        × Restored rows n o p
  unfolding restore_operator
  restore_operator-Restored rows n o has_row =
      let (ck, found, mem, row) = find_number-of_operator o.operator_id n rows has_row in
      (
        record o { checkpoint_id = ck.checkpoint_id; checkpoint_handle = some ck.handle },
        ap (λ l. unwrap l >>= restored n o)
              (lookup-group o.operator_id rows []
                ∙ more_found n (of_operator o.operator_id rows) ck found)
            ∙ restored-some n o (of_operator o.operator_id rows) ck found,
        (refl, (ck, mem, row, refl, refl)),
      )

  -- An operator that no row names
  abbrev pub IsNew : List (Checkpoint S) → OperatorDescriptor S → Type 0
  IsNew rows o = All (λ ck. (ck.operator_id == o.operator_id) ≡ false) rows

  of_operator-IsNew :
      (id : ℕ) (rows : List (Checkpoint S))
      → All (λ ck. (ck.operator_id == id) ≡ false) rows
      → of_operator id rows ≡ []
  of_operator-IsNew id [] h = refl
  of_operator-IsNew id (ck ∷ rows) h = rw h.0 (of_operator-IsNew id rows h.1)

  restore_operator-IsNew :
      (rows : List (Checkpoint S)) (n : ℕ) (o : OperatorDescriptor S)
      → IsNew rows o
      → restore_operator (group rows []) n o ≡ panic
  unfolding restore_operator
  restore_operator-IsNew rows n o new =
      ap (λ l. unwrap l >>= restored n o)
        (lookup-group o.operator_id rows []
          ∙ ap (more none) (of_operator-IsNew o.operator_id rows new))

  insert_cons :
      (id : ℕ) (cks : List (Checkpoint S)) (e : ℕ × List (Checkpoint S)) (m : OperatorCheckpoints S)
      → (d : ℕ × List (Checkpoint S)) × (n : OperatorCheckpoints S) × (insert ◌==◌ id cks (e ∷ m)
          ≡ d ∷ n)
  unfolding insert
  insert_cons id cks (j, u) m = elim (Bool-cases (j == id)) [
    | inl here ↦ ((j, cks), m, rw here refl)
    | inr there ↦ ((j, u), insert ◌==◌ id cks m, rw there refl)
  ]

  group_cons :
      (rows : List (Checkpoint S)) (e : ℕ × List (Checkpoint S)) (m : OperatorCheckpoints S)
      → (d : ℕ × List (Checkpoint S)) × (n : OperatorCheckpoints S) × (group rows (e ∷ m) ≡ d ∷ n)
  unfolding group
  group_cons [] e m = (e, m, refl)
  group_cons (ck ∷ rows) e m =
      let (d, n, same) =
        insert_cons ck.operator_id (or_new (lookup ◌==◌ ck.operator_id (e ∷ m)) ++ ck ∷ []) e m in
      let (d', n', same') = group_cons rows d n in (d', n', ap (group rows) same ∙ same')

module _ {S I : Type 0} where
  restore_cluster_lem :
      (rows : List (Checkpoint S)) (c : ClusterDescriptor S I)
      → rows ≢ []
      → restore_cluster (group rows []) c ≡ (
          each (restore_worker (group rows [])) c.worker_managers >>= λ ws.
          ok (record c { worker_managers = ws }))
  unfolding restore_cluster group insert
  restore_cluster_lem [] c some_row = absurd (some_row refl)
  restore_cluster_lem (ck ∷ rows) c some_row =
      let (d, n, same) = group_cons rows (ck.operator_id, ck ∷ []) [] in rw same refl

  abbrev pub RestoredTask : List (Checkpoint S) → TaskDescriptor S I → TaskDescriptor S I → Type 0
  RestoredTask rows t u =
      (u.task_id ≡ t.task_id)
      × (u.ended ≡ t.ended)
      × Pairwise (Restored rows t.task_id.task_number) t.operators u.operators

  abbrev pub RestoredWorker :
      List (Checkpoint S) → WorkerManagerDescriptor S I → WorkerManagerDescriptor S I → Type 0
  RestoredWorker rows w v =
      (v.task_manager_id ≡ w.task_manager_id)
      × Pairwise (RestoredTask rows) w.task_descriptors v.task_descriptors

  -- There is a row for each operator of the task.
  abbrev pub HasRows : List (Checkpoint S) → TaskDescriptor S I → Type 0
  HasRows rows t = All (λ o. Any (IsRowOf o.operator_id t.task_id.task_number) rows) t.operators

  restore_task-RestoredTask :
      (rows : List (Checkpoint S)) (t : TaskDescriptor S I)
      → HasRows rows t
      → (u : TaskDescriptor S I) × (restore_task (group rows []) t ≡ ok u) × RestoredTask rows t u
  unfolding restore_task
  restore_task-RestoredTask rows t h =
      let n : ℕ = t.task_id.task_number in
      let (os, done, rel) =
        each-Pairwise (Restored rows n) (restore_operator (group rows []) n) t.operators
          (map_All _ _ (restore_operator-Restored rows n) t.operators h) in
      (record t { operators = os }, rw done refl, (refl, refl, rel))

  restore_worker-RestoredWorker :
      (rows : List (Checkpoint S)) (w : WorkerManagerDescriptor S I)
      → All (HasRows rows) w.task_descriptors
      → (v : WorkerManagerDescriptor S I) × (restore_worker (group rows []) w ≡ ok v)
        × RestoredWorker rows w v
  unfolding restore_worker
  restore_worker-RestoredWorker rows w h =
      let (ts, done, rel) =
        each-Pairwise (RestoredTask rows) (restore_task (group rows [])) w.task_descriptors
          (map_All _ _ (restore_task-RestoredTask rows) w.task_descriptors h) in
      (record w { task_descriptors = ts }, rw done refl, (refl, rel))

  -- If the storage answers some rows, and among them one for each operator of each task, then the
  -- coordinator restores without a panic, and each operator of each task gets the checkpoint id and
  -- the handle of one of the rows, of the same operator and the same task number.
  pub restore_cluster-RestoredWorker :
      (all : List (Checkpoint S)) (by_id : ℕ → List (Checkpoint S)) (c : ClusterDescriptor S I)
      → loaded_rows all by_id ≢ []
      → All (λ w. All (HasRows (loaded_rows all by_id)) w.task_descriptors) c.worker_managers
      → (c' : ClusterDescriptor S I) × (restore_cluster (load all by_id) c ≡ ok c')
        × Pairwise (RestoredWorker (loaded_rows all by_id)) c.worker_managers c'.worker_managers
  unfolding load
  restore_cluster-RestoredWorker all by_id c some_row h =
      let rows : List (Checkpoint S) = loaded_rows all by_id in
      let (ws, done, rel) =
        each-Pairwise (RestoredWorker rows) (restore_worker (group rows [])) c.worker_managers
          (map_All _ _ (restore_worker-RestoredWorker rows) c.worker_managers h) in
      (record c { worker_managers = ws }, restore_cluster_lem rows c some_row ∙ rw done refl, rel)

  restore_task-IsNew :
      (rows : List (Checkpoint S)) (t : TaskDescriptor S I)
      → Any (IsNew rows) t.operators
      → restore_task (group rows []) t ≡ panic
  unfolding restore_task
  restore_task-IsNew rows t h =
      rw
        (each-panic (restore_operator (group rows []) t.task_id.task_number) t.operators (
          Any-map (IsNew rows) _ (restore_operator-IsNew rows t.task_id.task_number) t.operators h))
        refl

  abbrev pub HasNew : List (Checkpoint S) → TaskDescriptor S I → Type 0
  HasNew rows t = Any (IsNew rows) t.operators

  restore_worker-IsNew :
      (rows : List (Checkpoint S)) (w : WorkerManagerDescriptor S I)
      → Any (HasNew rows) w.task_descriptors
      → restore_worker (group rows []) w ≡ panic
  unfolding restore_worker
  restore_worker-IsNew rows w h =
      rw
        (each-panic (restore_task (group rows [])) w.task_descriptors
          (Any-map (HasNew rows) _ (restore_task-IsNew rows) w.task_descriptors h))
        refl

  -- If the storage answers some rows and no row names some operator of some task, the coordinator
  -- panics.
  pub restore_cluster-IsNew :
      (all : List (Checkpoint S)) (by_id : ℕ → List (Checkpoint S)) (c : ClusterDescriptor S I)
      → loaded_rows all by_id ≢ []
      → Any (λ w. Any (HasNew (loaded_rows all by_id)) w.task_descriptors) c.worker_managers
      → restore_cluster (load all by_id) c ≡ panic
  unfolding load
  restore_cluster-IsNew all by_id c some_row h =
      let rows : List (Checkpoint S) = loaded_rows all by_id in
      restore_cluster_lem rows c some_row
      ∙ rw
          (each-panic (restore_worker (group rows [])) c.worker_managers (
            Any-map (λ w. Any (HasNew rows) w.task_descriptors) _ (restore_worker-IsNew rows)
              c.worker_managers h))
          refl
