-- ===== src/Planner/Stream/Sound.antt =====
-- `add_operator` and sequences of its calls (rlink/src/dag/stream_graph.rs), and `is_pipeline`.
use rlink_rs.Prelude.{
  ℕ, ◌≡◌, refl, inl, inr, true, false, none, List, [], ◌∷◌, arith, Bool-cases, ok, ◌>>=◌,
  ok_injective, bind_ok,
}
use mathlib.Core.Path.{subst}
use rlink_rs.Planner.Dag.{Dag}
use rlink_rs.Planner.Operators.{
  DagError, StreamOperator, OperatorType, operator_type_of, default_of, StreamNode,
}
use rlink_rs.Planner.Stream.{
  is_pipeline, is_source_type, is_co_process_type, RawStreamGraph, Build, new_graph, node_of,
}
use rlink_rs.Planner.Stream.Add.{add_sinks, add_co_process, add_operator, Parents}
use rlink_rs.Planner.Stream.Spec.{edges_of, sources_of, user_sources_of, Numbered, IsPlan}
use rlink_rs.Planner.Stream.Refines.{Represents}
use rlink_rs.Planner.Stream.Grows.{is_pipeline-source, Grown, Larger-Grown, add_operator0_grows}
use rlink_rs.Planner.Stream.Keeps.{add_pipeline_grows, add_sinks_grows, add_combined_grows}

co_process-source : (t : OperatorType) → is_co_process_type t ≡ true → is_source_type t ≡ false
co_process-source t e = ground arith

module _ (D : Dag StreamNode Unit) where
  add_co_process_grows :
      (operator : StreamOperator) (ps : List ℕ) (n : ℕ) (g : RawStreamGraph D)
      (r : ℕ × RawStreamGraph D) (ns : List StreamNode)
      → Represents D g ns
      → IsPlan ns
      → add_co_process D operator ps n g ≡ ok r
      → Grown D ns (operator_type_of operator) r.0 r.1
  add_co_process_grows operator ps n g r ns rep plan e =
      elim (Bool-cases (is_co_process_type (operator_type_of operator))) [
        | inl co ↦
            let locals : Parents = record {
              new_ids = [];
              reduce_id = none;
              left_parallelism = 0;
            } in
            let (s, new, e₁) = bind_ok (add_sinks D ps locals g) _ (rw co at e) in
            let (a, sinks) =
              add_sinks_grows D ps locals g s ns rep plan (tt, λ id h. absurd (cc h)) new in
            Larger-Grown D ns a.nodes (operator_type_of operator) r.0 r.1 a.extends (
              add_combined_grows D operator n s.0.left_parallelism s.0 s.0.reduce_id s.1 r a.nodes
                a.represents a.plan (co_process-source (operator_type_of operator) co) sinks refl
                e₁)
        | inr other ↦ absurd (cc (rw other at e))
      ]

  -- `add_operator`, on a graph that stands for a plan, leaves one that stands for a plan with the old
  -- nodes in front, and returns the id of a node with the operator's type.
  pub add_operator_grows :
      (operator : StreamOperator) (ps : List ℕ) (g : RawStreamGraph D) (r : ℕ × RawStreamGraph D)
      (ns : List StreamNode)
      → Represents D g ns
      → IsPlan ns
      → add_operator D operator ps g ≡ ok r
      → Grown D ns (operator_type_of operator) r.0 r.1
  unfolding add_operator
  add_operator_grows operator [] g r ns rep plan e =
      elim (Bool-cases (is_source_type (operator_type_of operator))) [
        | inl starts ↦
            add_operator0_grows D operator [] (default_of operator).parallelism r.0 g r.1 ns rep
              plan (λ _. tt, λ other. absurd (cc (starts, other))) (rw starts at e)
        | inr other ↦ absurd (cc (rw other at e))
      ]
  add_operator_grows operator (p ∷ []) g r ns rep plan e =
      let (n, _, e₁) = bind_ok (node_of D p g) _ e in
      let (b, pipeline, e₂) =
        bind_ok
          (is_pipeline (operator_type_of operator) (default_of operator).parallelism n.operator_type
            n.parallelism)
          _ e₁ in
      add_pipeline_grows D b operator p (default_of operator).parallelism n.parallelism g r ns rep
        plan
        (is_pipeline-source (operator_type_of operator) n.operator_type
          (default_of operator).parallelism n.parallelism b pipeline)
        e₂
  add_operator_grows operator (p ∷ q ∷ ps) g r ns rep plan e =
      add_co_process_grows operator (p ∷ q ∷ ps) (default_of operator).parallelism g r ns rep plan e

  -- The calls of `add_operator` of a program: each operator with the ids of its parents
  unfoldable pub add_all :
      List (StreamOperator × List ℕ) → RawStreamGraph D → Build D (RawStreamGraph D)
  unfolding add_operator
  add_all [] g = ok g
  add_all (c ∷ cs) g = add_operator D c.0 c.1 g >>= λ r. add_all cs r.1

  abbrev pub HasPlan : RawStreamGraph D → Type 0
  HasPlan g = (ns : List StreamNode) × Represents D g ns × IsPlan ns

  add_all-HasPlan :
      (calls : List (StreamOperator × List ℕ)) (g g' : RawStreamGraph D)
      → HasPlan g
      → add_all calls g ≡ ok g'
      → HasPlan g'
  unfolding add_all
  add_all-HasPlan [] g g' h e = subst HasPlan (ok_injective {E = DagError} g g' e) h
  add_all-HasPlan (c ∷ cs) g g' (ns, rep, plan) e =
      let (r, new, rest) = bind_ok (add_operator D c.0 c.1 g) _ e in
      let a = add_operator_grows c.0 c.1 g r ns rep plan new in
      add_all-HasPlan cs r.1 g' (a.nodes, a.represents, a.plan) rest

  new_graph-HasPlan : HasPlan (new_graph D)
  unfolding edges_of sources_of user_sources_of Numbered
  new_graph-HasPlan = (
    [],
    record {
      nodes = D.raw_nodes-new;
      edges = D.raw_edges-new;
      ids = refl;
      fits = omega arith;
      sources = refl;
      user_sources = refl;
      operators = tt;
      complete = λ i lt. absurd (omega (arith, lt));
    },
    (tt, tt),
  )

  -- Whatever operators a program adds, if no call fails the stream graph stands for a plan: a node's id
  -- is its place, its parents have smaller ids, the edges are the ones from the parents, a source's
  -- parents are sinks, any other node has one parent, and the lists of sources are those of the nodes.
  pub program-HasPlan :
      (calls : List (StreamOperator × List ℕ)) (g : RawStreamGraph D)
      → add_all calls (new_graph D) ≡ ok g
      → HasPlan g
  program-HasPlan calls g e = add_all-HasPlan calls (new_graph D) g new_graph-HasPlan e
