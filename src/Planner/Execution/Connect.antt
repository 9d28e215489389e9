-- ===== src/Planner/Execution/Connect.antt =====
-- The edges between the tasks of two jobs: `build_edges` of rlink/src/dag/execution_graph.rs.
use rlink_rs.Prelude.{
  ℕ, ◌<◌, ◌≡◌, refl, sym, ap, ◌∙◌, inl, inr, ◌⊎◌, List, [], ◌∷◌, ◌++◌, length, All, Outcome, ok,
  bind_ok, ok_injective,
}
use mathlib.Core.Path.{subst}
use mathlib.Core.List.{append_assoc, append-nil}
use rlink_rs.Planner.Dag.{Dag, Ends, Added, added, would_cycle, out_of_bounds}
use rlink_rs.Planner.Operators.{DagError}
use rlink_rs.Planner.Execution.{
  JobEdge, forward, re_balance, ExecutionEdge, memory, network, ExecutionNode, or_cycle,
  add_forward, add_network, add_re_balance, add_job_edge,
}

abbrev pub network_from : ℕ → List ℕ → List (Ends ExecutionEdge)
network_from p [] = []
network_from p (c ∷ cs) = (p, (c, network)) ∷ network_from p cs

abbrev pub task_edges : JobEdge → List ℕ → List ℕ → List (Ends ExecutionEdge)
task_edges forward [] cs = []
task_edges forward (p ∷ ps) [] = []
task_edges forward (p ∷ ps) (c ∷ cs) = (p, (c, memory)) ∷ task_edges forward ps cs
task_edges re_balance [] cs = []
task_edges re_balance (p ∷ ps) cs = network_from p cs ++ task_edges re_balance ps cs

pub added_or_cycle : {G : Type 0} (a : Added G) (g : G) → or_cycle a ≡ ok g → a ≡ added g
added_or_cycle (added g) h e = cc e
added_or_cycle would_cycle h e = absurd (cc e)
added_or_cycle out_of_bounds h e = absurd (cc e)

pub Added-cases :
    {G : Type 0} (a : Added G)
    → (a ≡ would_cycle) ⊎ ((a ≡ out_of_bounds) ⊎ ((g : G) × (a ≡ added g)))
Added-cases (added g) = inr (inr (g, refl))
Added-cases would_cycle = inl refl
Added-cases out_of_bounds = inr (inl refl)

module _ {S : Type 0} (D : Dag (ExecutionNode S) ExecutionEdge) where
  -- The nodes are as they were, and these edges are behind the others.
  abbrev pub Connects : D.Graph → List (Ends ExecutionEdge) → D.Graph → Type 0
  Connects g edges g' = (D.raw_nodes g' ≡ D.raw_nodes g) × (D.raw_edges g' ≡ D.raw_edges g ++ edges)

  pub Connects-nothing :
      (g g' : D.Graph) → ◌≡◌ {A = Outcome DagError D.Graph} (ok g) (ok g') → Connects g [] g'
  Connects-nothing g g' e =
      subst (Connects g []) (ok_injective {E = DagError} g g' e)
        (refl, sym (append-nil (D.raw_edges g)))

  pub Connects-trans :
      (g h k : D.Graph) (es fs : List (Ends ExecutionEdge))
      → Connects g es h
      → Connects h fs k
      → Connects g (es ++ fs) k
  Connects-trans g h k es fs a b =
      (b.0 ∙ a.0, b.1 ∙ (ap (λ l. l ++ fs) a.1 ∙ append_assoc (D.raw_edges g) es fs))

  pub Connects-one :
      (a b : ℕ) (e : ExecutionEdge) (g g' : D.Graph)
      → or_cycle (D.add_edge a b e g) ≡ ok g'
      → Connects g ((a, (b, e)) ∷ []) g'
  Connects-one a b e g g' h = D.add_edge_lem a b e g g' (added_or_cycle (D.add_edge a b e g) g' h)

  add_forward-Connects :
      (ps cs : List ℕ) (g g' : D.Graph)
      → add_forward D ps cs g ≡ ok g'
      → Connects g (task_edges forward ps cs) g'
  unfolding add_forward
  add_forward-Connects [] cs g g' e = Connects-nothing g g' e
  add_forward-Connects (p ∷ ps) [] g g' e = absurd (cc e)
  add_forward-Connects (p ∷ ps) (c ∷ cs) g g' e =
      let (h, new, rest) = bind_ok (or_cycle (D.add_edge p c memory g)) _ e in
      Connects-trans g h g' ((p, (c, memory)) ∷ []) (task_edges forward ps cs)
        (Connects-one p c memory g h new) (add_forward-Connects ps cs h g' rest)

  pub add_network-Connects :
      (p : ℕ) (cs : List ℕ) (g g' : D.Graph)
      → add_network D p cs g ≡ ok g'
      → Connects g (network_from p cs) g'
  unfolding add_network
  add_network-Connects p [] g g' e = Connects-nothing g g' e
  add_network-Connects p (c ∷ cs) g g' e =
      let (h, new, rest) = bind_ok (or_cycle (D.add_edge p c network g)) _ e in
      Connects-trans g h g' ((p, (c, network)) ∷ []) (network_from p cs)
        (Connects-one p c network g h new) (add_network-Connects p cs h g' rest)

  -- When the edges between the tasks of two jobs are added, they are exactly those that pair the tasks
  -- of one number, in memory, for a forward edge, and all pairs, over the network, for the other; the
  -- nodes stay as they were.
  pub add_job_edge-Connects :
      (e : JobEdge) (ps cs : List ℕ) (g g' : D.Graph)
      → add_job_edge D e ps cs g ≡ ok g'
      → Connects g (task_edges e ps cs) g'
  unfolding add_job_edge add_re_balance
  add_job_edge-Connects forward ps cs g g' e = add_forward-Connects ps cs g g' e
  add_job_edge-Connects re_balance [] cs g g' e = Connects-nothing g g' e
  add_job_edge-Connects re_balance (p ∷ ps) cs g g' e =
      let (h, new, rest) = bind_ok (add_network D p cs g) _ e in
      Connects-trans g h g' (network_from p cs) (task_edges re_balance ps cs)
        (add_network-Connects p cs g h new) (add_job_edge-Connects re_balance ps cs h g' rest)

  abbrev pub Indices : D.Graph → List ℕ → Type 0
  Indices g = All (λ i. i < length (D.raw_nodes g))
