-- ===== src/Planner/Job/Linked.antt =====
-- The operators that `build_job_node` of rlink/src/dag/job_graph.rs collects, on the graph of a plan.
use rlink_rs.Prelude.{
  All-get_elem?, ℕ, zero, suc, ◌+◌, ◌≤◌, ◌≡◌, refl, sym, ap, ◌∙◌, ◌⊎◌, inl, inr, true, false, some,
  List, [], ◌∷◌, ◌++◌, length, get_elem?, arith, All, Bool-cases, if◌then◌else◌, ok, bind_ok,
  ok_injective, some_injective,
}
use mathlib.Core.Path.{subst}
use mathlib.Core.List.{append_assoc}
use rlink_rs.Prelude.Sort.{Any}
use rlink_rs.Planner.Dag.{Dag, Ends}
use rlink_rs.Planner.Operators.{StreamNode, sink}
use rlink_rs.Planner.Stream.{RawStreamGraph, is_source_type, max}
use rlink_rs.Planner.Stream.Spec.{edges_to, edges_of, Numbered, IsPlan, ParentsFit}
use rlink_rs.Planner.Stream.Refines.{Represents}
use rlink_rs.Planner.Job.{
  JobNode, Halt, is_sink_type, JobWalk, new_walk, visit, ids_of, job_of, walk, build_job_node,
}
use rlink_rs.Planner.Job.Chain.{walk_cases, child-edge}

-- A node and the ones behind it: each is no source, and its only parent is the one before it; the last
-- is a sink, and no other is.
abbrev pub Linked : StreamNode → List StreamNode → Type 0
Linked n [] = is_sink_type n.operator_type ≡ true
Linked n (m ∷ ms) =
    (is_sink_type n.operator_type ≡ false)
    × ((is_source_type m.operator_type ≡ false) × (m.parent_ids ≡ n.id ∷ []))
    × Linked m ms

Numbered-at :
    (k : ℕ) (ns : List StreamNode) (i : ℕ) (n : StreamNode)
    → Numbered k ns
    → get_elem? ns i ≡ some n
    → n.id ≡ k + i
unfolding Numbered
Numbered-at k [] i n h e = absurd (cc e)
Numbered-at k (m ∷ ns) zero n h e =
    subst (λ x. x.id ≡ k + 0) (some_injective m n e) (omega (arith, h.0.0))
Numbered-at k (m ∷ ns) (suc i) n h e = omega (arith, Numbered-at (suc k) ns i n h.1 e)

-- The edge from `a` to `b` among those to a node, or behind them
edges_to-Any :
    (id : ℕ) (ps : List ℕ) (rest : List (Ends Unit)) (a b : ℕ)
    → Any (λ e. (e.0 ≡ a) × (e.1.0 ≡ b)) (edges_to id ps ++ rest)
    → ((id ≡ b) × Any (λ p. p ≡ a) ps) ⊎ Any (λ e. (e.0 ≡ a) × (e.1.0 ≡ b)) rest
edges_to-Any id [] rest a b h = inr h
edges_to-Any id (p ∷ ps) rest a b (inl h) = inl (h.1, inl h.0)
edges_to-Any id (p ∷ ps) rest a b (inr h) = elim (edges_to-Any id ps rest a b h) [
  | inl k ↦ inl (k.0, inr k.1)
  | inr k ↦ inr k
]

-- An edge of a plan ends at a node that has its start among its parents.
edges_of-Any :
    (k : ℕ) (ns : List StreamNode) (a b : ℕ)
    → Numbered k ns
    → Any (λ e. (e.0 ≡ a) × (e.1.0 ≡ b)) (edges_of ns)
    → (j : ℕ) × (m : StreamNode) × (k + j ≡ b)
      × (get_elem? ns j ≡ some m)
      × Any (λ p. p ≡ a) m.parent_ids
unfolding edges_of Numbered
edges_of-Any k [] a b h none_left = absurd none_left
edges_of-Any k (n ∷ ns) a b h edge = elim (edges_to-Any n.id n.parent_ids (edges_of ns) a b edge) [
  | inl first ↦ (0, n, omega (arith, first.0, h.0.0), refl, first.1)
  | inr later ↦
      let (j, m, at, here, parent) = edges_of-Any (suc k) ns a b h.1 later in
      (suc j, m, omega (arith, at), here, parent)
]

only_parent : (ps : List ℕ) (a : ℕ) → length ps ≡ 1 → Any (λ p. p ≡ a) ps → ps ≡ a ∷ []
only_parent [] a e h = absurd h
only_parent (p ∷ []) a e (inl h) = ap (λ x. x ∷ []) h
only_parent (p ∷ []) a e (inr h) = absurd h
only_parent (p ∷ q ∷ ps) a e h = absurd (omega (arith, e))

All-Any : (P Q : ℕ → Type 0) (ps : List ℕ) → All P ps → Any Q ps → (p : ℕ) × P p × Q p
All-Any P Q [] h a = absurd a
All-Any P Q (p ∷ ps) h (inl a) = (p, h.0, a)
All-Any P Q (p ∷ ps) h (inr a) = All-Any P Q ps h.1 a

two_nodes :
    (ns : List StreamNode) (i : ℕ) (n k : StreamNode)
    → get_elem? ns i ≡ some n
    → is_sink_type n.operator_type ≡ false
    → get_elem? ns i ≡ some k
    → k.operator_type ≡ sink
    → ⊥
two_nodes ns i n k at other at_k type =
    let same : n ≡ k = some_injective n k (sym at ∙ at_k) in
    cc (ap is_sink_type (sym type), ap (λ m. is_sink_type m.operator_type) same, other)

-- The end of an edge from a node that is no sink is no source, and has no other parent.
pub plan_child :
    (ns : List StreamNode) (i c : ℕ) (n : StreamNode)
    → IsPlan ns
    → get_elem? ns i ≡ some n
    → is_sink_type n.operator_type ≡ false
    → Any (λ e. (e.0 ≡ i) × (e.1.0 ≡ c)) (edges_of ns)
    → (m : StreamNode) × (get_elem? ns c ≡ some m)
      × (is_source_type m.operator_type ≡ false)
      × (m.parent_ids ≡ n.id ∷ [])
plan_child ns i c n plan at other edge =
    let (j, m, j≡c, here, parent) = edges_of-Any 0 ns i c plan.0 edge in
    let fit = All-get_elem? (λ n. ParentsFit ns n.operator_type n.parent_ids) ns j m plan.1 here in
    let id : n.id ≡ i = omega (arith, Numbered-at 0 ns i n plan.0 at) in
    let c≡j : c ≡ j = omega (arith, j≡c) in
    elim (Bool-cases (is_source_type m.operator_type)) [
      | inl starts ↦
          let (p, (k, at_p, type), p≡i) = All-Any _ _ m.parent_ids (fit.0 starts) parent in
          absurd (two_nodes ns i n k at other (subst (λ q. get_elem? ns q ≡ some k) p≡i at_p) type)
      | inr child ↦
          (m, rw c≡j here, child, only_parent m.parent_ids i (fit.1 child) parent ∙ rw id refl)
    ]

max-left : (a b : ℕ) → a ≤ max a b
max-left a b = ground arith

max-right : (a b : ℕ) → b ≤ max a b
max-right a b = ground arith

-- What the loop has when it ends, from a round at the node `n`
pub record IsWalked (w : JobWalk) (n : StreamNode) (job : JobNode) : Type 0 where
  pub behind : List StreamNode
  pub nodes_are : job.stream_nodes ≡ w.walked ++ n ∷ behind
  pub linked : Linked n behind
  pub job_id_is : job.job_id ≡ (if is_source_type n.operator_type then n.id else w.walk_job_id)
  pub parallelism_covers : All (λ m. m.parallelism ≤ job.parallelism) (n ∷ behind)
  pub walk_covers : w.walk_parallelism ≤ job.parallelism

module _ (D : Dag StreamNode Unit) (g : RawStreamGraph D) (ns : List StreamNode)
    (rep : Represents D g ns) (plan : IsPlan ns) where
  walk-zero :
      (i : ℕ) (w : JobWalk) (n : StreamNode) (job : JobNode)
      → walk D zero i w g.dag ≡ ok job
      → IsWalked w n job
  unfolding walk
  walk-zero i w n job e = absurd (cc e)

  walk-IsWalked :
      (fuel i : ℕ) (w : JobWalk) (n : StreamNode) (job : JobNode)
      → get_elem? ns i ≡ some n
      → walk D fuel i w g.dag ≡ ok job
      → IsWalked w n job
  unfolding visit
  walk-IsWalked zero i w n job at e = walk-zero i w n job e
  walk-IsWalked (suc fuel) i w n job at e =
      elim (walk_cases D g.dag fuel i w n (ap (λ l. get_elem? l i) rep.nodes ∙ at)) [
        | inl (ends, finish) ↦
            let (ids, _, e₁) = bind_ok (ids_of D (D.children i g.dag) g.dag) _ (sym finish ∙ e) in
            let same = ok_injective {E = Halt} (job_of D (visit n w) ids) job e₁ in
            subst (IsWalked w n) same record {
              behind = [];
              nodes_are = refl;
              linked = ends;
              job_id_is = refl;
              parallelism_covers = (max-right w.walk_parallelism n.parallelism, tt);
              walk_covers = max-left w.walk_parallelism n.parallelism;
            }
        | inr (inl (x, failed)) ↦ absurd (cc (sym failed ∙ e))
        | inr (inr (c, (here, other, only), next)) ↦
            let edge =
              subst (Any (λ e. (e.0 ≡ i) × (e.1.0 ≡ c.1))) rep.edges
                (child-edge D g.dag i c only) in
            let (m, at_m, child, parents) = plan_child ns i c.1 n plan at other edge in
            let r = walk-IsWalked fuel c.1 (visit n w) m job at_m (sym next ∙ e) in
            record {
              behind = m ∷ r.behind;
              nodes_are = r.nodes_are ∙ append_assoc w.walked (n ∷ []) (m ∷ r.behind);
              linked = (other, (child, parents), r.linked);
              job_id_is = r.job_id_is ∙ rw child refl;
              parallelism_covers = (
                omega (arith, r.walk_covers, max-right w.walk_parallelism n.parallelism),
                r.parallelism_covers,
              );
              walk_covers = omega (arith, r.walk_covers, max-left w.walk_parallelism n.parallelism);
            }
      ]

  -- The job that `build_job_node` makes from a source of the plan has the source's id and starts with
  -- it; each operator behind is no source, and its only parent is the operator before it; the last is
  -- a sink, and no other is; and the job's parallelism is at least that of each of its operators.
  pub build_job_node-IsWalked :
      (i : ℕ) (n : StreamNode) (job : JobNode)
      → get_elem? ns i ≡ some n
      → is_source_type n.operator_type ≡ true
      → build_job_node D i g.dag ≡ ok job
      → (behind : List StreamNode) × (job.stream_nodes ≡ n ∷ behind)
        × Linked n behind
        × (job.job_id ≡ n.id)
        × All (λ m. m.parallelism ≤ job.parallelism) (n ∷ behind)
  unfolding build_job_node
  build_job_node-IsWalked i n job at starts e =
      let r = walk-IsWalked (length (D.raw_nodes g.dag)) i new_walk n job at e in
      (r.behind, r.nodes_are, r.linked, r.job_id_is ∙ rw starts refl, r.parallelism_covers)
