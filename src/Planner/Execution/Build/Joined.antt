-- ===== src/Planner/Execution/Build/Joined.antt =====
-- The nodes and the edges of the graph that `JobGraph::build` of rlink/src/dag/job_graph.rs makes: the
-- builder's jobs, each joined to its children.
use rlink_rs.Prelude.{
  ℕ, ◌≡◌, refl, sym, ap, ◌∙◌, inl, inr, some, List, [], ◌∷◌, ◌++◌, map, length, get_elem?, All,
  map_All, ◌==◌, ==_iff, ok, unwrap, bind_ok, unwrap_ok, ok_injective,
}
use mathlib.Core.Path.{subst}
use mathlib.Core.List.{append_assoc, append-nil}
use rlink_rs.Prelude.Maps.{lookup, Distinct, Present, Present-insert, lookup-insert_self}
use rlink_rs.Prelude.Sort.{Any}
use rlink_rs.Planner.Dag.{Dag, Ends}
use rlink_rs.Planner.Operators.{DagError, StreamNode}
use rlink_rs.Planner.Job.{JobNode}
use rlink_rs.Planner.Job.Build.{JobNodeBuilder, build_jobs}
use rlink_rs.Planner.Execution.{JobEdge, job_edge_of, or_cycle}
use rlink_rs.Planner.Execution.Connect.{added_or_cycle}
use rlink_rs.Planner.Execution.Build.{
  JobGraph, ok_or, add_job_nodes, add_child_edges, build_job_edge, build_job_edges, build_job_graph,
}
use rlink_rs.Planner.Execution.Build.Jobs.{HasJob, ok_or_ok, build-IsJobGraph}
use rlink_rs.Planner.Execution.Build.Kinds.{IsKindOf, job_edge_of-IsKindOf}

Any-append : {A : Type 0} (P : A → Type 0) (xs ys : List A) → Any P xs → Any P (xs ++ ys)
Any-append P [] ys h = absurd h
Any-append P (x ∷ xs) ys (inl here) = inl here
Any-append P (x ∷ xs) ys (inr there) = inr (Any-append P xs ys there)

Any-last : {A : Type 0} (P : A → Type 0) (xs : List A) (y : A) → P y → Any P (xs ++ y ∷ [])
Any-last P [] y p = inl p
Any-last P (x ∷ xs) y p = inr (Any-last P xs y p)

-- An edge from a job to one of its children, of the kind that the two call for
abbrev pub IsJobEdge : List JobNode → List (ℕ × ℕ) → Ends JobEdge → Type 0
IsJobEdge nodes indies e =
    (job : JobNode) × (child : JobNode) × (get_elem? nodes e.0 ≡ some job)
    × (get_elem? nodes e.1.0 ≡ some child)
    × IsKindOf job child e.1.1
    × Any (λ c. lookup ◌==◌ c indies ≡ some e.1.0) job.child_job_ids

-- There is an edge from this node to the one that is under the id.
abbrev pub JoinsChild : List (ℕ × ℕ) → List (Ends JobEdge) → ℕ → ℕ → Type 0
JoinsChild indies edges i c = Any (λ x. (x.0 ≡ i) × (lookup ◌==◌ c indies ≡ some x.1.0)) edges

-- The job at a node is joined to each of its children.
abbrev pub IsJoined : List JobNode → List (ℕ × ℕ) → List (Ends JobEdge) → ℕ → Type 0
IsJoined nodes indies edges i =
    (job : JobNode) × (get_elem? nodes i ≡ some job)
    × All (JoinsChild indies edges i) job.child_job_ids

module _ (J : Dag JobNode JobEdge) where
  pub record IsGraphOf (b : JobNodeBuilder) (g : JobGraph J) : Type 0 where
    pub nodes_are : J.raw_nodes g.dag ≡ map (λ e. e.1) b.job_nodes
    pub present : All (λ e. Present e.0 g.job_node_indies) b.job_nodes
    pub distinct : Distinct g.job_node_indies
    pub indexed : All (HasJob (J.raw_nodes g.dag)) g.job_node_indies
    pub edges : All (IsJobEdge (J.raw_nodes g.dag) g.job_node_indies) (J.raw_edges g.dag)
    pub joined :
        All
          (λ e. IsJoined (J.raw_nodes g.dag) g.job_node_indies (J.raw_edges g.dag) e.1)
          g.job_node_indies

  add_job_nodes_lem :
      (jobs : List (ℕ × JobNode)) (g g' : JobGraph J)
      → add_job_nodes J jobs g ≡ ok g'
      → (J.raw_nodes g'.dag ≡ J.raw_nodes g.dag ++ map (λ e. e.1) jobs)
        × ((k : ℕ) → Present k g.job_node_indies → Present k g'.job_node_indies)
        × All (λ e. Present e.0 g'.job_node_indies) jobs
  unfolding add_job_nodes
  add_job_nodes_lem [] g g' e =
      let same = ok_injective {E = DagError} g g' e in
      (
        ap (λ h. J.raw_nodes h.dag) (sym same) ∙ sym (append-nil (J.raw_nodes g.dag)),
        λ k p. subst (λ h. Present k h.job_node_indies) same p,
        tt,
      )
  add_job_nodes_lem ((id, job) ∷ jobs) g g' e =
      let (d, new, rest) = bind_ok (unwrap (J.add_node job g.dag)) _ e in
      let (nodes, _, _) = J.add_node_lem job g.dag d (unwrap_ok _ d new) in
      let n = length (J.raw_nodes g.dag) in
      let (all, kept, here) = add_job_nodes_lem jobs _ g' rest in
      (
        all
            ∙ (ap (λ l. l ++ map (λ e. e.1) jobs) nodes
                ∙ append_assoc (J.raw_nodes g.dag) (job ∷ []) (map (λ e. e.1) jobs)),
        λ k p. kept k (Present-insert id k n g.job_node_indies p),
        (kept id (n, lookup-insert_self ◌==◌ id n g.job_node_indies ((==_iff id id).1 refl)), here),
      )

  -- More edges on the same jobs
  record Grows (g g' : JobGraph J) : Type 0 where
    nodes : J.raw_nodes g'.dag ≡ J.raw_nodes g.dag
    indies : g'.job_node_indies ≡ g.job_node_indies
    more : List (Ends JobEdge)
    edges : J.raw_edges g'.dag ≡ J.raw_edges g.dag ++ more

  Grows-refl : (g g' : JobGraph J) → g ≡ g' → Grows g g'
  Grows-refl g g' same = subst (Grows g) same record {
    nodes = refl;
    indies = refl;
    more = [];
    edges = sym (append-nil (J.raw_edges g.dag));
  }

  Grows-trans : (g h k : JobGraph J) → Grows g h → Grows h k → Grows g k
  Grows-trans g h k a b = record {
    nodes = b.nodes ∙ a.nodes;
    indies = b.indies ∙ a.indies;
    more = a.more ++ b.more;
    edges =
        b.edges ∙ (ap (λ l. l ++ b.more) a.edges ∙ append_assoc (J.raw_edges g.dag) a.more b.more);
  }

  Joins : JobGraph J → ℕ → ℕ → Type 0
  Joins g i c = JoinsChild g.job_node_indies (J.raw_edges g.dag) i c

  Joins-Grows : (g g' : JobGraph J) (i c : ℕ) → Grows g g' → Joins g i c → Joins g' i c
  unfolding Joins
  Joins-Grows g g' i c a h =
      subst (λ l. JoinsChild l (J.raw_edges g'.dag) i c) (sym a.indies)
        (subst (λ l. JoinsChild g.job_node_indies l i c) (sym a.edges)
          (Any-append _ (J.raw_edges g.dag) a.more h))

  add_child_edges_lem :
      (job : JobNode) (i : ℕ) (cs : List ℕ) (g g' : JobGraph J)
      → add_child_edges J job i cs g ≡ ok g'
      → Grows g g' × All (Joins g' i) cs
  unfolding add_child_edges Joins
  add_child_edges_lem job i [] g g' e = (Grows-refl g g' (ok_injective {E = DagError} g g' e), tt)
  add_child_edges_lem job i (c ∷ cs) g g' e =
      let (j, found, e₁) = bind_ok (ok_or (lookup ◌==◌ c g.job_node_indies) _) _ e in
      let (child, _, e₂) = bind_ok (unwrap (get_elem? (J.raw_nodes g.dag) j)) _ e₁ in
      let (kind, _, e₃) = bind_ok (job_edge_of job child) _ e₂ in
      let (d, new, rest) = bind_ok (or_cycle (J.add_edge i j kind g.dag)) _ e₃ in
      let (nodes, edges) = J.add_edge_lem i j kind g.dag d (added_or_cycle _ d new) in
      let h : JobGraph J = record g { dag = d } in
      let one : Grows g h = record {
        nodes = nodes;
        indies = refl;
        more = (i, (j, kind)) ∷ [];
        edges = edges;
      } in
      let (grows, all) = add_child_edges_lem job i cs h g' rest in
      let here : Joins h i c =
        subst (λ l. JoinsChild g.job_node_indies l i c) (sym edges)
          (Any-last _ (J.raw_edges g.dag) (i, (j, kind)) (refl, ok_or_ok _ _ j found)) in
      (Grows-trans g h g' one grows, (Joins-Grows h g' i c grows here, all))

  AreJoined : JobGraph J → List ℕ → Type 0
  AreJoined g = All (λ i. IsJoined (J.raw_nodes g.dag) g.job_node_indies (J.raw_edges g.dag) i)

  build_job_edges_lem :
      (is : List ℕ) (g g' : JobGraph J)
      → build_job_edges J is g ≡ ok g'
      → Grows g g' × AreJoined g' is
  unfolding build_job_edges build_job_edge AreJoined Joins
  build_job_edges_lem [] g g' e = (Grows-refl g g' (ok_injective {E = DagError} g g' e), tt)
  build_job_edges_lem (i ∷ is) g g' e =
      let (g₁, one, rest) = bind_ok (build_job_edge J i g) _ e in
      let (job, at, cs) = bind_ok (unwrap (get_elem? (J.raw_nodes g.dag) i)) _ one in
      let (first, joins) = add_child_edges_lem job i job.child_job_ids g g₁ cs in
      let (later, all) = build_job_edges_lem is g₁ g' rest in
      let whole = Grows-trans g g₁ g' first later in
      (
        whole,
        (
          (
            job,
            ap (λ l. get_elem? l i) whole.nodes ∙ unwrap_ok _ job at,
            map_All _ _ (λ c h. Joins-Grows g₁ g' i c later h) job.child_job_ids joins,
          ),
          all,
        ),
      )

  All-unmap : (P : ℕ → Type 0) (m : List (ℕ × ℕ)) → All P (map (λ e. e.1) m) → All (λ e. P e.1) m
  All-unmap P [] h = tt
  All-unmap P (e ∷ m) h = (h.0, All-unmap P m h.1)

  -- The nodes of the job graph that `build` makes are the jobs of the builder, each of which is in the
  -- index. The index has each id once, with the node of the job of that id. Each edge is from a job to
  -- the job that is under the id of one of its children, and each job has an edge to each of these. An
  -- edge is forward exactly where the child has no reduce operator and has the job's parallelism; and
  -- from a job that has one to a child that has none, the two parallelisms are the same.
  pub build-IsGraphOf :
      (D : Dag StreamNode Unit) (rounds fuel : ℕ) (sources : List ℕ) (dag : D.Graph)
      (b : JobNodeBuilder) (g : JobGraph J)
      → build_jobs D rounds fuel sources dag ≡ ok b
      → build_job_graph J b ≡ ok g
      → IsGraphOf b g
  unfolding build_job_graph AreJoined
  build-IsGraphOf D rounds fuel sources dag b g jobs graph =
      let whole = build-IsJobGraph J D rounds fuel sources dag b g jobs graph in
      let start : JobGraph J = record { job_node_indies = []; dag = J.new } in
      let (g₁, made, rest) = bind_ok (add_job_nodes J b.job_nodes start) _ graph in
      let (nodes, _, present) = add_job_nodes_lem b.job_nodes start g₁ made in
      let (grows, joined) = build_job_edges_lem (map (λ e. e.1) g₁.job_node_indies) g₁ g rest in
      record {
        nodes_are =
            grows.nodes ∙ (nodes ∙ ap (λ l. l ++ map (λ e. e.1) b.job_nodes) J.raw_nodes-new);
        present = subst (λ l. All (λ e. Present e.0 l) b.job_nodes) (sym grows.indies) present;
        distinct = whole.distinct;
        indexed = whole.indexed;
        edges =
            map_All _ _ (λ e h. (h.0, h.1, h.2, h.3, job_edge_of-IsKindOf h.0 h.1 e.1.1 h.4, h.5))
              (J.raw_edges g.dag) whole.edges;
        joined =
            subst
              (λ l.
                All (λ e. IsJoined (J.raw_nodes g.dag) g.job_node_indies (J.raw_edges g.dag) e.1) l)
              (sym grows.indies) (All-unmap _ g₁.job_node_indies joined);
      }
