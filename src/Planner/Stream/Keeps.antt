-- ===== src/Planner/Stream/Keeps.antt =====
-- `add_operator` of rlink/src/dag/stream_graph.rs, branch by branch.
use rlink_rs.Prelude.{
  map_All, ℕ, ◌≡◌, sym, ap, Bool, true, false, Option, none, some, List, [], ◌∷◌, ◌++◌, All,
  All-append, ok, ok_injective, bind_ok, some_injective,
}
use mathlib.Core.Path.{subst}
use mathlib.Core.List.{append-nil}
use rlink_rs.Planner.Dag.{Dag}
use rlink_rs.Planner.Operators.{
  DagError, StreamOperator, flat_map, sink, operator_type_of, StreamNode,
}
use rlink_rs.Planner.Stream.{
  is_source_type, is_reduce_type, create_virtual_flat_map, create_virtual_source,
  create_virtual_sink, RawStreamGraph, node_of, add_operator0, is_reduce_parent, max,
}
use rlink_rs.Planner.Stream.Add.{
  add_virtual_map, add_exchange, add_pipeline, Parents, with_parent, add_sinks, add_combined,
}
use rlink_rs.Planner.Stream.Spec.{TypeAt, IsPlan}
use rlink_rs.Planner.Stream.Refines.{Represents}
use rlink_rs.Planner.Stream.Grows.{
  Extends, Extends-trans, TypeAt-Extends, Grown, Larger, Grown-Larger, Larger-Grown,
  add_child_grows, add_source_grows, add_sink_grows, add_flat_map_grows,
}

module _ (D : Dag StreamNode Unit) where
  add_virtual_map_grows :
      (b : Bool) (id n : ℕ) (g : RawStreamGraph D) (r : ℕ × RawStreamGraph D) (ns : List StreamNode)
      → Represents D g ns
      → IsPlan ns
      → add_virtual_map D b id n g ≡ ok r
      → Larger D ns r.1
  unfolding add_virtual_map
  add_virtual_map_grows true id n g r ns rep plan e =
      Grown-Larger D ns flat_map r.0 r.1 (add_flat_map_grows D n id n g r ns rep plan e)
  add_virtual_map_grows false id n g r ns rep plan e =
      let same = ap (λ p. p.1) (ok_injective {E = DagError} (id, g) r e) in
      record {
        nodes = ns;
        extends = ([], sym (append-nil ns));
        represents = subst (λ h. Represents D h ns) same rep;
        plan = plan;
      }

  pub add_exchange_grows :
      (operator : StreamOperator) (p n m : ℕ) (g : RawStreamGraph D) (r : ℕ × RawStreamGraph D)
      (ns : List StreamNode)
      → Represents D g ns
      → IsPlan ns
      → is_source_type (operator_type_of operator) ≡ false
      → add_exchange D operator p n m g ≡ ok r
      → Grown D ns (operator_type_of operator) r.0 r.1
  unfolding add_exchange
  add_exchange_grows operator p n m g r ns rep plan child e =
      let (r₁, s₁, e₁) = bind_ok (add_operator0 D (create_virtual_sink m) (p ∷ []) m g) _ e in
      let (r₂, s₂, e₂) =
        bind_ok (add_operator0 D (create_virtual_source n) (r₁.0 ∷ []) n r₁.1) _ e₁ in
      let (b, _, e₃) = bind_ok (is_reduce_parent D p r₂.1) _ e₂ in
      let (r₃, s₃, s₄) = bind_ok (add_virtual_map D b r₂.0 n r₂.1) _ e₃ in
      let a₁ = add_sink_grows D m p m g r₁ ns rep plan s₁ in
      let a₂ =
        add_source_grows D n n (r₁.0 ∷ []) r₁.1 r₂ a₁.nodes a₁.represents a₁.plan (a₁.type_at, tt)
          s₂ in
      let a₃ = add_virtual_map_grows b r₂.0 n r₂.1 r₃ a₂.nodes a₂.represents a₂.plan s₃ in
      let a₄ = add_child_grows D operator r₃.0 n r₃.1 r a₃.nodes a₃.represents a₃.plan child s₄ in
      Larger-Grown D ns a₃.nodes (operator_type_of operator) r.0 r.1
        (Extends-trans ns a₂.nodes a₃.nodes
          (Extends-trans ns a₁.nodes a₂.nodes a₁.extends a₂.extends) a₃.extends)
        a₄

  pub add_pipeline_grows :
      (b : Bool) (operator : StreamOperator) (p n m : ℕ) (g : RawStreamGraph D)
      (r : ℕ × RawStreamGraph D) (ns : List StreamNode)
      → Represents D g ns
      → IsPlan ns
      → is_source_type (operator_type_of operator) ≡ false
      → add_pipeline D b operator p n m g ≡ ok r
      → Grown D ns (operator_type_of operator) r.0 r.1
  add_pipeline_grows true operator p n m g r ns rep plan child e =
      add_child_grows D operator p (max n m) g r ns rep plan child e
  add_pipeline_grows false operator p n m g r ns rep plan child e =
      add_exchange_grows operator p n m g r ns rep plan child e

  -- The sinks that the loop over the parents has added
  abbrev pub SinksAt : List StreamNode → Parents → Type 0
  SinksAt ns locals =
      All (λ p. TypeAt ns p sink) locals.new_ids
      × ((id : ℕ) → locals.reduce_id ≡ some id → TypeAt ns id sink)

  SinksAt-Extends :
      (ns ms : List StreamNode) (locals : Parents)
      → Extends ns ms
      → SinksAt ns locals
      → SinksAt ms locals
  SinksAt-Extends ns ms locals ext h = (
    map_All _ _ (λ p. TypeAt-Extends ns ms p sink ext) locals.new_ids h.0,
    λ id e. TypeAt-Extends ns ms id sink ext (h.1 id e),
  )

  with_parent-SinksAt :
      (b : Bool) (id n : ℕ) (ns : List StreamNode) (locals : Parents)
      → SinksAt ns locals
      → TypeAt ns id sink
      → SinksAt ns (with_parent b id n locals)
  with_parent-SinksAt true id n ns locals h at =
      (h.0, λ j e. subst (λ i. TypeAt ns i sink) (some_injective id j e) at)
  with_parent-SinksAt false id n ns locals h at =
      (All-append _ locals.new_ids (id ∷ []) h.0 (at, tt), h.1)

  pub add_sinks_grows :
      (ps : List ℕ) (locals : Parents) (g : RawStreamGraph D) (r : Parents × RawStreamGraph D)
      (ns : List StreamNode)
      → Represents D g ns
      → IsPlan ns
      → SinksAt ns locals
      → add_sinks D ps locals g ≡ ok r
      → (a : Larger D ns r.1) × SinksAt a.nodes r.0
  unfolding add_sinks
  add_sinks_grows [] locals g r ns rep plan h e =
      let same = ok_injective {E = DagError} (locals, g) r e in
      (
        record {
          nodes = ns;
          extends = ([], sym (append-nil ns));
          represents = subst (λ p. Represents D p.1 ns) same rep;
          plan = plan;
        },
        subst (λ p. SinksAt ns p.0) same h,
      )
  add_sinks_grows (p ∷ ps) locals g r ns rep plan h e =
      let (n, _, e₁) = bind_ok (node_of D p g) _ e in
      let (s, new, e₂) =
        bind_ok (add_operator0 D (create_virtual_sink 0) (p ∷ []) n.parallelism g) _ e₁ in
      let a = add_sink_grows D 0 p n.parallelism g s ns rep plan new in
      let (b, sinks) =
        add_sinks_grows ps (with_parent (is_reduce_type n.operator_type) s.0 n.parallelism locals)
          s.1 r a.nodes a.represents a.plan
          (with_parent-SinksAt (is_reduce_type n.operator_type) s.0 n.parallelism a.nodes locals
            (SinksAt-Extends ns a.nodes locals a.extends h) a.type_at)
          e₂ in
      (
        record {
          nodes = b.nodes;
          extends = Extends-trans ns a.nodes b.nodes a.extends b.extends;
          represents = b.represents;
          plan = b.plan;
        },
        sinks,
      )

  pub add_combined_grows :
      (operator : StreamOperator) (n left : ℕ) (locals : Parents) (reduced : Option ℕ)
      (g : RawStreamGraph D) (r : ℕ × RawStreamGraph D) (ns : List StreamNode)
      → Represents D g ns
      → IsPlan ns
      → is_source_type (operator_type_of operator) ≡ false
      → SinksAt ns locals
      → locals.reduce_id ≡ reduced
      → add_combined D operator n locals.new_ids left reduced g ≡ ok r
      → Grown D ns (operator_type_of operator) r.0 r.1
  unfolding add_combined
  add_combined_grows operator n left locals none g r ns rep plan child h which e =
      let (s, new, e₁) =
        bind_ok (add_operator0 D (create_virtual_source 0) locals.new_ids n g) _ e in
      let a = add_source_grows D 0 n locals.new_ids g s ns rep plan h.0 new in
      Larger-Grown D ns a.nodes (operator_type_of operator) r.0 r.1 a.extends
        (add_child_grows D operator s.0 n s.1 r a.nodes a.represents a.plan child e₁)
  add_combined_grows operator n left locals (some id) g r ns rep plan child h which e =
      let (r₁, s₁, e₁) =
        bind_ok (add_operator0 D (create_virtual_source left) (id ∷ []) left g) _ e in
      let (r₂, s₂, e₂) =
        bind_ok (add_operator0 D (create_virtual_flat_map left) (r₁.0 ∷ []) left r₁.1) _ e₁ in
      let (r₃, s₃, e₃) =
        bind_ok (add_operator0 D (create_virtual_sink left) (r₂.0 ∷ []) left r₂.1) _ e₂ in
      let (r₄, s₄, s₅) =
        bind_ok
          (add_operator0 D (create_virtual_source left) (locals.new_ids ++ r₃.0 ∷ []) left r₃.1) _
          e₃ in
      let a₁ = add_source_grows D left left (id ∷ []) g r₁ ns rep plan (h.1 id which, tt) s₁ in
      let a₂ = add_flat_map_grows D left r₁.0 left r₁.1 r₂ a₁.nodes a₁.represents a₁.plan s₂ in
      let a₃ = add_sink_grows D left r₂.0 left r₂.1 r₃ a₂.nodes a₂.represents a₂.plan s₃ in
      let ext =
        Extends-trans ns a₂.nodes a₃.nodes
          (Extends-trans ns a₁.nodes a₂.nodes a₁.extends a₂.extends) a₃.extends in
      let sinks = (SinksAt-Extends ns a₃.nodes locals ext h).0 in
      let a₄ =
        add_source_grows D left left (locals.new_ids ++ r₃.0 ∷ []) r₃.1 r₄ a₃.nodes a₃.represents
          a₃.plan (All-append _ locals.new_ids (r₃.0 ∷ []) sinks (a₃.type_at, tt)) s₄ in
      Larger-Grown D ns a₄.nodes (operator_type_of operator) r.0 r.1
        (Extends-trans ns a₃.nodes a₄.nodes ext a₄.extends)
        (add_child_grows D operator r₄.0 left r₄.1 r a₄.nodes a₄.represents a₄.plan child s₅)
