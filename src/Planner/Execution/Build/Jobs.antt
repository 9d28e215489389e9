-- ===== src/Planner/Execution/Build/Jobs.antt =====
-- The job graph that `JobGraph::build` of rlink/src/dag/job_graph.rs makes from the builder's jobs.
use rlink_rs.Prelude.{
  ℕ, ◌≡◌, refl, sym, ap, ◌∙◌, inl, inr, Option, none, some, List, [], ◌∷◌, ◌++◌, map, length,
  get_elem?, get_elem?-append, get_elem?-last, All, All-append, map_All, ◌==◌, ==_iff, ok, unwrap,
  bind_ok, unwrap_ok, ok_injective,
}
use mathlib.Core.Path.{subst}
use rlink_rs.Prelude.Maps.{lookup, insert, All-insert, Distinct, Distinct-insert}
use rlink_rs.Prelude.Sort.{Any}
use rlink_rs.Planner.Dag.{Dag, Ends}
use rlink_rs.Planner.Operators.{DagError, StreamNode}
use rlink_rs.Planner.Job.{JobNode}
use rlink_rs.Planner.Job.Keyed.{Keyed, build_jobs-Keyed}
use rlink_rs.Planner.Job.Build.{JobNodeBuilder, build_jobs}
use rlink_rs.Planner.Execution.{JobEdge, job_edge_of, or_cycle}
use rlink_rs.Planner.Execution.Connect.{added_or_cycle}
use rlink_rs.Planner.Execution.Build.{
  JobGraph, ok_or, add_job_nodes, add_child_edges, build_job_edge, build_job_edges, build_job_graph,
}

-- The node at the index of an entry is the job of that id.
abbrev pub HasJob : List JobNode → ℕ × ℕ → Type 0
HasJob nodes e = (job : JobNode) × (get_elem? nodes e.1 ≡ some job) × (job.job_id ≡ e.0)

-- An edge is from a job to one of its children, and of the kind that the two have.
abbrev pub IsChildEdge : List JobNode → List (ℕ × ℕ) → Ends JobEdge → Type 0
IsChildEdge nodes indies e =
    (job : JobNode) × (child : JobNode) × (get_elem? nodes e.0 ≡ some job)
    × (get_elem? nodes e.1.0 ≡ some child)
    × (job_edge_of job child ≡ ok e.1.1)
    × Any (λ c. lookup ◌==◌ c indies ≡ some e.1.0) job.child_job_ids

pub ok_or_ok : {A : Type 0} (o : Option A) (x : DagError) (a : A) → ok_or o x ≡ ok a → o ≡ some a
ok_or_ok none x a e = absurd (cc e)
ok_or_ok (some b) x a e = cc e

Any-same : (P : ℕ → Type 0) (c : ℕ) (cs : List ℕ) → Any (λ x. x ≡ c) cs → P c → Any P cs
Any-same P c [] h p = absurd h
Any-same P c (x ∷ cs) (inl here) p = inl (subst P (sym here) p)
Any-same P c (x ∷ cs) (inr there) p = inr (Any-same P c cs there p)

each_of : (cs : List ℕ) → All (λ c. Any (λ x. x ≡ c) cs) cs
each_of [] = tt
each_of (c ∷ cs) = (inl refl, map_All _ _ (λ _ h. inr h) cs (each_of cs))

module _ (J : Dag JobNode JobEdge) where
  pub record IsJobGraph (g : JobGraph J) : Type 0 where
    pub indexed : All (HasJob (J.raw_nodes g.dag)) g.job_node_indies
    pub distinct : Distinct g.job_node_indies
    pub edges : All (IsChildEdge (J.raw_nodes g.dag) g.job_node_indies) (J.raw_edges g.dag)

  add_job_nodes-IsJobGraph :
      (jobs : List (ℕ × JobNode)) (g g' : JobGraph J)
      → Keyed jobs
      → J.raw_edges g.dag ≡ []
      → IsJobGraph g
      → add_job_nodes J jobs g ≡ ok g'
      → IsJobGraph g'
  unfolding add_job_nodes
  add_job_nodes-IsJobGraph [] g g' keyed bare h e =
      subst IsJobGraph (ok_injective {E = DagError} g g' e) h
  add_job_nodes-IsJobGraph ((id, job) ∷ jobs) g g' keyed bare h e =
      let (d, new, rest) = bind_ok (unwrap (J.add_node job g.dag)) _ e in
      let (nodes, edges, room) = J.add_node_lem job g.dag d (unwrap_ok _ d new) in
      let ns = J.raw_nodes g.dag in
      let old =
        map_All (HasJob ns) (HasJob (ns ++ job ∷ []))
          (λ x k. (k.0, get_elem?-append ns (job ∷ []) x.1 k.0 k.1, k.2)) g.job_node_indies
          h.indexed in
      let all =
        All-insert ◌==◌ (HasJob (ns ++ job ∷ [])) id (length ns) g.job_node_indies
          ((==_iff id id).1 refl) old
          (λ j same. (job, get_elem?-last ns job, keyed.0 ∙ sym ((==_iff j id).0 same))) in
      add_job_nodes-IsJobGraph jobs
        (record { job_node_indies = insert ◌==◌ id (length ns) g.job_node_indies; dag = d }) g'
        keyed.1 (edges ∙ bare)
        record {
          indexed =
              subst (λ l. All (HasJob l) (insert ◌==◌ id (length ns) g.job_node_indies)) (sym nodes)
                all;
          distinct = Distinct-insert id (length ns) g.job_node_indies h.distinct;
          edges = subst (All _) (sym (edges ∙ bare)) tt;
        }
        rest

  add_child_edges-IsJobGraph :
      (job : JobNode) (i : ℕ) (cs : List ℕ) (g g' : JobGraph J)
      → get_elem? (J.raw_nodes g.dag) i ≡ some job
      → All (λ c. Any (λ x. x ≡ c) job.child_job_ids) cs
      → IsJobGraph g
      → add_child_edges J job i cs g ≡ ok g'
      → IsJobGraph g'
  unfolding add_child_edges
  add_child_edges-IsJobGraph job i [] g g' at own h e =
      subst IsJobGraph (ok_injective {E = DagError} g g' e) h
  add_child_edges-IsJobGraph job i (c ∷ cs) g g' at own h e =
      let (j, found, e₁) = bind_ok (ok_or (lookup ◌==◌ c g.job_node_indies) _) _ e in
      let (child, at_j, e₂) = bind_ok (unwrap (get_elem? (J.raw_nodes g.dag) j)) _ e₁ in
      let (kind, fits, e₃) = bind_ok (job_edge_of job child) _ e₂ in
      let (d, new, rest) = bind_ok (or_cycle (J.add_edge i j kind g.dag)) _ e₃ in
      let (nodes, edges) = J.add_edge_lem i j kind g.dag d (added_or_cycle _ d new) in
      let fit = IsChildEdge (J.raw_nodes g.dag) g.job_node_indies in
      let edge : fit (i, (j, kind)) = (
        job,
        child,
        at,
        unwrap_ok _ child at_j,
        fits,
        Any-same (λ x. lookup ◌==◌ x g.job_node_indies ≡ some j) c job.child_job_ids own.0
            (ok_or_ok _ _ j found),
      ) in
      let all = All-append fit (J.raw_edges g.dag) ((i, (j, kind)) ∷ []) h.edges (edge, tt) in
      add_child_edges-IsJobGraph job i cs (record g { dag = d }) g'
        (ap (λ l. get_elem? l i) nodes ∙ at) own.1
        record {
          indexed = subst (λ l. All (HasJob l) g.job_node_indies) (sym nodes) h.indexed;
          distinct = h.distinct;
          edges =
              subst (λ l. All (IsChildEdge l g.job_node_indies) (J.raw_edges d)) (sym nodes)
                (subst (All fit) (sym edges) all);
        }
        rest

  build_job_edges-IsJobGraph :
      (is : List ℕ) (g g' : JobGraph J)
      → IsJobGraph g
      → build_job_edges J is g ≡ ok g'
      → IsJobGraph g'
  unfolding build_job_edges build_job_edge
  build_job_edges-IsJobGraph [] g g' h e = subst IsJobGraph (ok_injective {E = DagError} g g' e) h
  build_job_edges-IsJobGraph (i ∷ is) g g' h e =
      let (g₁, one, rest) = bind_ok (build_job_edge J i g) _ e in
      let (job, at, cs) = bind_ok (unwrap (get_elem? (J.raw_nodes g.dag) i)) _ one in
      build_job_edges-IsJobGraph is g₁ g'
        (add_child_edges-IsJobGraph job i job.child_job_ids g g₁ (unwrap_ok _ job at)
          (each_of job.child_job_ids) h cs)
        rest

  build_job_graph-IsJobGraph :
      (b : JobNodeBuilder) (g : JobGraph J)
      → Keyed b.job_nodes
      → build_job_graph J b ≡ ok g
      → IsJobGraph g
  unfolding build_job_graph
  build_job_graph-IsJobGraph b g keyed e =
      let start : JobGraph J = record { job_node_indies = []; dag = J.new } in
      let (g₁, nodes, edges) = bind_ok (add_job_nodes J b.job_nodes start) _ e in
      build_job_edges-IsJobGraph (map (λ e. e.1) g₁.job_node_indies) g₁ g
        (add_job_nodes-IsJobGraph b.job_nodes start g₁ keyed J.raw_edges-new
          record { indexed = tt; distinct = tt; edges = subst (All _) (sym J.raw_edges-new) tt }
          nodes)
        edges

  pub build-IsJobGraph :
      (D : Dag StreamNode Unit) (rounds fuel : ℕ) (sources : List ℕ) (dag : D.Graph)
      (b : JobNodeBuilder) (g : JobGraph J)
      → build_jobs D rounds fuel sources dag ≡ ok b
      → build_job_graph J b ≡ ok g
      → IsJobGraph g
  build-IsJobGraph D rounds fuel sources dag b g jobs graph =
      build_job_graph-IsJobGraph b g (build_jobs-Keyed D rounds fuel sources dag b jobs) graph
