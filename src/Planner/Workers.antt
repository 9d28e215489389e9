-- ===== src/Planner/Workers.antt =====
-- `alloc_by_instance` of rlink/src/dag/physic_graph.rs: the chains of tasks go to the worker managers
-- in turn. The groups' chains are one list, in the order of the loop; a `TaskInstance` has the fields
-- of the `ExecutionNode` it copies; the place of a worker manager is the number in its id.
use rlink_rs.Prelude.{
  ℕ, zero, suc, ◌+◌, ◌%◌, ◌<◌, ◌≡◌, ◌≢◌, refl, sym, ap, ◌∙◌, inl, inr, some, List, [], ◌∷◌, ◌++◌,
  length, get_elem?, arith, ◌==◌, ==_iff, if◌then◌else◌, Bool-cases, Outcome, ok, panic,
  some_injective,
}
use mathlib.Core.List.{append_assoc, append-nil}
use rlink_rs.Planner.Operators.{DagError}

module _ {A : Type 0} where
  -- `Vec::with_capacity(n)` filled with worker managers that have no task
  abbrev pub idle_workers : ℕ → List (List A)
  idle_workers zero = []
  idle_workers (suc n) = [] ∷ idle_workers n

  -- The tasks of a chain pushed to the worker manager at an index
  unfoldable pub push_tasks : ℕ → List A → List (List A) → List (List A)
  push_tasks index chain [] = []
  push_tasks zero chain (w ∷ ws) = (w ++ chain) ∷ ws
  push_tasks (suc index) chain (w ∷ ws) = w ∷ push_tasks index chain ws

  -- The loop over the chains, from the `i`-th on; with no worker manager the remainder panics.
  unfoldable pub alloc_chains : ℕ → List (List A) → List (List A) → Outcome DagError (List (List A))
  unfolding push_tasks
  alloc_chains i [] ws = ok ws
  alloc_chains i (c ∷ cs) [] = panic
  alloc_chains i (c ∷ cs) (w ∷ ws) =
      alloc_chains (i + 1) cs (push_tasks (i % length (w ∷ ws)) c (w ∷ ws))

  -- `alloc_by_instance`
  unfoldable pub alloc_by_instance : ℕ → List (List A) → Outcome DagError (List (List A))
  unfolding alloc_chains
  alloc_by_instance n chains = alloc_chains 0 chains (idle_workers n)

  -- The tasks of the chains whose numbers, from `i` on, leave the remainder `k`
  abbrev pub share : ℕ → ℕ → ℕ → List (List A) → List A
  share n k i [] = []
  share n k i (c ∷ cs) = if (i % n) == k then c ++ share n k (i + 1) cs else share n k (i + 1) cs

length-idle_workers : (A : Type 0) (n : ℕ) → length (idle_workers {A = A} n) ≡ n
length-idle_workers A zero = refl
length-idle_workers A (suc n) = ap suc (length-idle_workers A n)

module _ {A : Type 0} where
  get_elem?-idle_workers : (n k : ℕ) → k < n → get_elem? (idle_workers {A = A} n) k ≡ some []
  get_elem?-idle_workers zero k lt = absurd (omega (arith, lt))
  get_elem?-idle_workers (suc n) zero lt = refl
  get_elem?-idle_workers (suc n) (suc k) lt = get_elem?-idle_workers n k (omega (arith, lt))

  length-push_tasks :
      (i : ℕ) (c : List A) (ws : List (List A)) → length (push_tasks i c ws) ≡ length ws
  unfolding push_tasks
  length-push_tasks i c [] = refl
  length-push_tasks zero c (w ∷ ws) = refl
  length-push_tasks (suc i) c (w ∷ ws) = ap suc (length-push_tasks i c ws)

  push_tasks_self :
      (k : ℕ) (c w : List A) (ws : List (List A))
      → get_elem? ws k ≡ some w
      → get_elem? (push_tasks k c ws) k ≡ some (w ++ c)
  unfolding push_tasks
  push_tasks_self k c w [] e = absurd (cc e)
  push_tasks_self zero c w (v ∷ ws) e = ap (λ x. some (x ++ c)) (some_injective v w e)
  push_tasks_self (suc k) c w (v ∷ ws) e = push_tasks_self k c w ws e

  push_tasks_other :
      (i k : ℕ) (c : List A) (ws : List (List A))
      → i ≢ k
      → get_elem? (push_tasks i c ws) k ≡ get_elem? ws k
  unfolding push_tasks
  push_tasks_other i k c [] h = refl
  push_tasks_other zero zero c (v ∷ ws) h = absurd (h refl)
  push_tasks_other zero (suc k) c (v ∷ ws) h = refl
  push_tasks_other (suc i) zero c (v ∷ ws) h = refl
  push_tasks_other (suc i) (suc k) c (v ∷ ws) h = push_tasks_other i k c ws (λ e. h (ap suc e))

  push_tasks_at :
      (i k : ℕ) (c w : List A) (ws : List (List A))
      → get_elem? ws k ≡ some w
      → get_elem? (push_tasks i c ws) k ≡ some (if i == k then w ++ c else w)
  push_tasks_at i k c w ws e = elim (Bool-cases (i == k)) [
    | inl here ↦ rw here (
        ap (λ j. get_elem? (push_tasks j c ws) k) ((==_iff i k).0 here)
        ∙ push_tasks_self k c w ws e)
    | inr other ↦ rw other (push_tasks_other i k c ws (λ h. cc (other, (==_iff i k).1 h)) ∙ e)
  ]

  joined :
      (n k i : ℕ) (c : List A) (cs : List (List A)) (w : List A) (m : ℕ)
      → m ≡ n
      → (if (i % m) == k then w ++ c else w) ++ share n k (i + 1) cs ≡ w ++ share n k i (c ∷ cs)
  joined n k i c cs w m same = rw same (elim (Bool-cases ((i % n) == k)) [
    | inl mine ↦ rw mine (append_assoc w c (share n k (i + 1) cs))
    | inr other ↦ rw other refl
  ])

  alloc_chains_lem :
      (n i : ℕ) (chains ws : List (List A))
      → length ws ≡ n
      → n ≢ 0
      → (ws' : List (List A)) × (alloc_chains i chains ws ≡ ok ws')
        × (length ws' ≡ n)
        × ((k : ℕ) (w : List A)
            → get_elem? ws k ≡ some w
            → get_elem? ws' k ≡ some (w ++ share n k i chains))
  unfolding alloc_chains
  alloc_chains_lem n i [] ws count some_worker =
      (ws, refl, count, λ k w e. e ∙ ap some (sym (append-nil w)))
  alloc_chains_lem n i (c ∷ cs) [] count some_worker = absurd (some_worker (sym count))
  alloc_chains_lem n i (c ∷ cs) (v ∷ ws) count some_worker =
      let (ws', done, count', shares) =
        alloc_chains_lem n (i + 1) cs (push_tasks (i % length (v ∷ ws)) c (v ∷ ws))
          (length-push_tasks (i % length (v ∷ ws)) c (v ∷ ws) ∙ count) some_worker in
      (
        ws',
        done,
        count',
        λ k w e.
            shares k (if (i % length (v ∷ ws)) == k then w ++ c else w)
              (push_tasks_at (i % length (v ∷ ws)) k c w (v ∷ ws) e)
            ∙ ap some (joined n k i c cs w (length (v ∷ ws)) count),
      )

  -- With at least one worker manager, the allocation succeeds, and each of them has exactly the tasks
  -- of the chains whose numbers leave its number as the remainder, in their order.
  pub alloc_by_instance-share :
      (n : ℕ) (chains : List (List A))
      → n ≢ 0
      → (ws : List (List A)) × (alloc_by_instance n chains ≡ ok ws)
        × (length ws ≡ n)
        × ((k : ℕ) → k < n → get_elem? ws k ≡ some (share n k 0 chains))
  unfolding alloc_by_instance
  alloc_by_instance-share n chains some_worker =
      let (ws, done, count, shares) =
        alloc_chains_lem n 0 chains (idle_workers n) (length-idle_workers A n) some_worker in
      (ws, done, count, λ k lt. shares k [] (get_elem?-idle_workers n k lt))
