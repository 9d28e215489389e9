-- ===== src/Planner/Execution/Build/Links.antt =====
-- The edges between the tasks of two jobs, as `build_edges` of rlink/src/dag/execution_graph.rs adds
-- them: which tasks they join, and that adding them fails by a cycle only.
use rlink_rs.Prelude.{
  ℕ, suc, ◌+◌, ◌<◌, ◌≤◌, ◌≡◌, ◌≢◌, refl, ap, ◌⊎◌, inl, inr, some, List, [], ◌∷◌, ◌++◌, length,
  get_elem?, length-append, arith, All, All-append, Outcome, ok, err, panic, ◌>>=◌,
}
use mathlib.Core.Path.{subst}
use rlink_rs.Core.{TaskId}
use rlink_rs.Planner.Dag.{Dag, Ends}
use rlink_rs.Planner.Operators.{DagError, would_cycle_error}
use rlink_rs.Planner.Job.{JobNode}
use rlink_rs.Planner.Execution.{
  JobEdge, forward, re_balance, job_edge_of, ExecutionEdge, memory, network, ExecutionNode,
  or_cycle, add_forward, add_network, add_re_balance, add_job_edge,
}
use rlink_rs.Planner.Execution.Edges.{job_edge_of_lem}
use rlink_rs.Planner.Execution.Connect.{
  network_from, task_edges, Added-cases, Connects, add_network-Connects, Connects-one, Indices,
}
use rlink_rs.Planner.Execution.Build.Tasks.{IsTaskAt, AreTasks}

-- A forward edge of the job graph is for the tasks of one number, in memory; the other, for any two.
abbrev pub Paired : JobEdge → TaskId → TaskId → ExecutionEdge → Type 0
Paired forward t u e = (e ≡ memory) × (t.task_number ≡ u.task_number)
Paired re_balance t u e = e ≡ network

module _ {S : Type 0} (nodes : List (ExecutionNode S)) (job child : JobNode) where
  -- An edge from a task of the job to one of its child's
  abbrev pub JoinsTasks : JobEdge → Ends ExecutionEdge → Type 0
  JoinsTasks kind e =
      (t : ExecutionNode S) × (u : ExecutionNode S) × (get_elem? nodes e.0 ≡ some t)
      × (get_elem? nodes e.1.0 ≡ some u)
      × (t.task_id.job_id ≡ job.job_id)
      × (u.task_id.job_id ≡ child.job_id)
      × Paired kind t.task_id u.task_id e.1.1

  forward-JoinsTasks :
      (number : ℕ) (ps cs : List ℕ)
      → AreTasks nodes job number ps
      → AreTasks nodes child number cs
      → All (JoinsTasks forward) (task_edges forward ps cs)
  forward-JoinsTasks number [] cs hp hc = tt
  forward-JoinsTasks number (p ∷ ps) [] hp hc = tt
  forward-JoinsTasks number (p ∷ ps) (c ∷ cs) ((t, at_t, is_t), hp) ((u, at_u, is_u), hc) = (
    (
      t,
      u,
      at_t,
      at_u,
      ap (λ x. x.job_id) is_t,
      ap (λ x. x.job_id) is_u,
      (refl, cc (ap (λ x. x.task_number) is_t, ap (λ x. x.task_number) is_u)),
    ),
    forward-JoinsTasks (suc number) ps cs hp hc,
  )

  network-JoinsTasks :
      (number first p : ℕ) (cs : List ℕ)
      → IsTaskAt nodes job number p
      → AreTasks nodes child first cs
      → All (JoinsTasks re_balance) (network_from p cs)
  network-JoinsTasks number first p [] hp hc = tt
  network-JoinsTasks number first p (c ∷ cs) (t, at_t, is_t) ((u, at_u, is_u), hc) = (
    (t, u, at_t, at_u, ap (λ x. x.job_id) is_t, ap (λ x. x.job_id) is_u, refl),
    network-JoinsTasks number (suc first) p cs (t, at_t, is_t) hc,
  )

  re_balance-JoinsTasks :
      (number : ℕ) (ps cs : List ℕ)
      → AreTasks nodes job number ps
      → AreTasks nodes child 0 cs
      → All (JoinsTasks re_balance) (task_edges re_balance ps cs)
  re_balance-JoinsTasks number [] cs hp hc = tt
  re_balance-JoinsTasks number (p ∷ ps) cs hp hc =
      All-append (JoinsTasks re_balance) (network_from p cs) (task_edges re_balance ps cs)
        (network-JoinsTasks number 0 p cs hp.0 hc)
        (re_balance-JoinsTasks (suc number) ps cs hp.1 hc)

  pub task_edges-JoinsTasks :
      (kind : JobEdge) (ps cs : List ℕ)
      → AreTasks nodes job 0 ps
      → AreTasks nodes child 0 cs
      → All (JoinsTasks kind) (task_edges kind ps cs)
  task_edges-JoinsTasks forward ps cs hp hc = forward-JoinsTasks 0 ps cs hp hc
  task_edges-JoinsTasks re_balance ps cs hp hc = re_balance-JoinsTasks 0 ps cs hp hc

length-forward : (ps cs : List ℕ) → length (task_edges forward ps cs) ≤ length ps
length-forward [] cs = omega arith
length-forward (p ∷ ps) [] = omega arith
length-forward (p ∷ ps) (c ∷ cs) = omega (arith, length-forward ps cs)

-- It ends with a graph, or with the error of a cycle.
abbrev pub IsAddition : {G : Type 0} → Outcome DagError G → Type 0
IsAddition (ok g) = Unit
IsAddition (err x) = x ≡ would_cycle_error
IsAddition panic = ⊥

pub IsAddition-cases :
    {G : Type 0} (m : Outcome DagError G)
    → IsAddition m
    → (m ≡ err would_cycle_error) ⊎ ((g : G) × (m ≡ ok g))
IsAddition-cases (ok g) h = inr (g, refl)
IsAddition-cases (err x) h = inl (ap err h)
IsAddition-cases panic h = absurd h

pub bind-IsAddition :
    {G : Type 0} (m : Outcome DagError G) (f : G → Outcome DagError G)
    → IsAddition m
    → ((g : G) → m ≡ ok g → IsAddition (f g))
    → IsAddition (m >>= f)
bind-IsAddition (ok g) f h k = k g refl
bind-IsAddition (err x) f h k = h
bind-IsAddition panic f h k = h

module _ {S : Type 0} (D : Dag (ExecutionNode S) ExecutionEdge) where
  abbrev pub HasRoom : D.Graph → List (Ends ExecutionEdge) → Type 0
  HasRoom g edges = length (D.raw_edges g) + length edges ≤ 4294967295

  one-IsAddition :
      (a b : ℕ) (e : ExecutionEdge) (rest : List (Ends ExecutionEdge)) (g : D.Graph)
      → a < length (D.raw_nodes g)
      → b < length (D.raw_nodes g)
      → HasRoom g ((a, (b, e)) ∷ rest)
      → IsAddition (or_cycle (D.add_edge a b e g))
  one-IsAddition a b e rest g ha hb room = elim (Added-cases (D.add_edge a b e g)) [
    | inl cycle ↦ rw cycle refl
    | inr (inl outside) ↦
        absurd (D.add_edge-out_of_bounds a b e g ha hb (omega (arith, room)) outside)
    | inr (inr (h, new)) ↦ rw new tt
  ]

  pub rest-HasRoom :
      (es fs : List (Ends ExecutionEdge)) (g g' : D.Graph)
      → Connects D g es g'
      → HasRoom g (es ++ fs)
      → HasRoom g' fs
  rest-HasRoom es fs g g' h room =
      omega (arith, room, length-append es fs, ap length h.1, length-append (D.raw_edges g) es)

  add_forward-IsAddition :
      (ps cs : List ℕ) (g : D.Graph)
      → length ps ≡ length cs
      → Indices D g ps
      → Indices D g cs
      → HasRoom g (task_edges forward ps cs)
      → IsAddition (add_forward D ps cs g)
  unfolding add_forward
  add_forward-IsAddition [] cs g same hp hc room = tt
  add_forward-IsAddition (p ∷ ps) [] g same hp hc room = absurd (omega (arith, same))
  add_forward-IsAddition (p ∷ ps) (c ∷ cs) g same hp hc room =
      bind-IsAddition (or_cycle (D.add_edge p c memory g)) (add_forward D ps cs)
        (one-IsAddition p c memory (task_edges forward ps cs) g hp.0 hc.0 room)
        (λ h new.
          let one = Connects-one D p c memory g h new in
          add_forward-IsAddition ps cs h (omega (arith, same)) (rw one.0 hp.1) (rw one.0 hc.1)
            (rest-HasRoom ((p, (c, memory)) ∷ []) (task_edges forward ps cs) g h one room))

  add_network-IsAddition :
      (p : ℕ) (cs : List ℕ) (rest : List (Ends ExecutionEdge)) (g : D.Graph)
      → p < length (D.raw_nodes g)
      → Indices D g cs
      → HasRoom g (network_from p cs ++ rest)
      → IsAddition (add_network D p cs g)
  unfolding add_network
  add_network-IsAddition p [] rest g hp hc room = tt
  add_network-IsAddition p (c ∷ cs) rest g hp hc room =
      bind-IsAddition (or_cycle (D.add_edge p c network g)) (add_network D p cs)
        (one-IsAddition p c network (network_from p cs ++ rest) g hp hc.0 room)
        (λ h new.
          let one = Connects-one D p c network g h new in
          add_network-IsAddition p cs rest h (rw one.0 hp) (rw one.0 hc.1)
            (rest-HasRoom ((p, (c, network)) ∷ []) (network_from p cs ++ rest) g h one room))

  add_re_balance-IsAddition :
      (ps cs : List ℕ) (g : D.Graph)
      → Indices D g ps
      → Indices D g cs
      → HasRoom g (task_edges re_balance ps cs)
      → IsAddition (add_re_balance D ps cs g)
  unfolding add_re_balance
  add_re_balance-IsAddition [] cs g hp hc room = tt
  add_re_balance-IsAddition (p ∷ ps) cs g hp hc room =
      bind-IsAddition (add_network D p cs g) (add_re_balance D ps cs)
        (add_network-IsAddition p cs (task_edges re_balance ps cs) g hp.0 hc room)
        (λ h new.
          let one = add_network-Connects D p cs g h new in
          add_re_balance-IsAddition ps cs h (rw one.0 hp.1) (rw one.0 hc)
            (rest-HasRoom (network_from p cs) (task_edges re_balance ps cs) g h one room))

  pub add_job_edge-IsAddition :
      (kind : JobEdge) (ps cs : List ℕ) (g : D.Graph)
      → (kind ≡ forward → length ps ≡ length cs)
      → Indices D g ps
      → Indices D g cs
      → HasRoom g (task_edges kind ps cs)
      → IsAddition (add_job_edge D kind ps cs g)
  unfolding add_job_edge
  add_job_edge-IsAddition forward ps cs g same hp hc room =
      add_forward-IsAddition ps cs g (same refl) hp hc room
  add_job_edge-IsAddition re_balance ps cs g same hp hc room =
      add_re_balance-IsAddition ps cs g hp hc room

  -- Where the job graph has a forward edge, the execution graph does not panic: the child has a task
  -- for each of the parent's, when both have as many as their parallelism, in a graph with room.
  pub forward-total :
      (job child : JobNode) (ps cs : List ℕ) (g : D.Graph)
      → job_edge_of job child ≡ ok forward
      → length ps ≡ job.parallelism
      → length cs ≡ child.parallelism
      → Indices D g ps
      → Indices D g cs
      → length (D.raw_edges g) + length ps ≤ 4294967295
      → add_job_edge D forward ps cs g ≢ panic
  forward-total job child ps cs g e p c hp hc room full =
      let same = ((job_edge_of_lem job child).0.0 e).1 in
      subst IsAddition full (
        add_job_edge-IsAddition forward ps cs g (λ _. omega (arith, p, c, same)) hp hc
          (omega (arith, room, length-forward ps cs)))
