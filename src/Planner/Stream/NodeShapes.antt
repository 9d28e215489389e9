-- ===== src/Planner/Stream/NodeShapes.antt =====
-- The types and the parents of the nodes that are added behind those of a plan in
-- rlink/src/dag/stream_graph.rs: what `add_operator` is to add, and one more node behind others.
use rlink_rs.Prelude.{
  ℕ, zero, suc, ◌+◌, ◌≡◌, refl, sym, ap, ◌∙◌, ◌⊎◌, Bool, true, false, Option, none, some, List, [],
  ◌∷◌, ◌++◌, map, length, get_elem?, length-append, arith, if◌then◌else◌, ◌==◌, ==_iff, ok, unwrap,
  ok_injective, bind_ok, unwrap_ok, some_injective,
}
use mathlib.Core.Path.{subst}
use mathlib.Core.List.{append_assoc, append-nil, map-append}
use rlink_rs.Prelude.Maps.{lookup, All-lookup}
use rlink_rs.Planner.Dag.{Dag}
use rlink_rs.Planner.Operators.{
  DagError, StreamOperator, OperatorType, source, flat_map, reduce, window_assigner, sink,
  operator_type_of, StreamNode,
}
use rlink_rs.Planner.Stream.{
  is_reduce_type, RawStreamGraph, node_of, add_operator0, is_reduce_parent,
}
use rlink_rs.Planner.Stream.Refines.{Represents, Indexed, add_operator0-Appends}
use rlink_rs.Planner.Stream.Rules.{Follows}

-- A node's type and its parents
abbrev pub Shape : Type 0
Shape = OperatorType × List ℕ

abbrev pub shape_of : StreamNode → Shape
shape_of n = (n.operator_type, n.parent_ids)

abbrev pub sink_behind : ℕ → Shape
sink_behind p = (sink, p ∷ [])

-- Behind a parent of another job, with `k` nodes before: a sink, a source, a flat map where the parent
-- reduces, and the operator, each behind the one before
abbrev pub exchange_shape : OperatorType → ℕ → ℕ → Bool → List Shape
exchange_shape t p k true =
    (sink, p ∷ []) ∷ (source, k ∷ []) ∷ (flat_map, (k + 1) ∷ []) ∷ (t, (k + 2) ∷ []) ∷ []
exchange_shape t p k false = (sink, p ∷ []) ∷ (source, k ∷ []) ∷ (t, (k + 1) ∷ []) ∷ []

-- The parent is a reduce operator.
abbrev pub reduces : List StreamNode → ℕ → Bool
reduces [] p = false
reduces (n ∷ ns) zero = is_reduce_type n.operator_type
reduces (n ∷ ns) (suc p) = reduces ns p

-- The sinks behind the parents, from the id `k` on: those behind other parents, and the one behind the
-- last parent that reduces
abbrev pub sinks_behind : List StreamNode → ℕ → List ℕ → List ℕ × Option ℕ → List ℕ × Option ℕ
sinks_behind ns k [] acc = acc
sinks_behind ns k (p ∷ ps) acc =
    sinks_behind ns (suc k) ps (if reduces ns p then (acc.0, some k) else (acc.0 ++ k ∷ [], acc.1))

-- Behind such sinks, with `k` nodes before: a source with all of them, and the operator. The sink of a
-- parent that reduces first has a source, a flat map and a sink of its own.
abbrev pub join_shape : OperatorType → ℕ → List ℕ × Option ℕ → List Shape
join_shape t k (ids, none) = (source, ids) ∷ (t, k ∷ []) ∷ []
join_shape t k (ids, some id) =
    (source, id ∷ [])
    ∷ (flat_map, k ∷ [])
    ∷ (sink, (k + 1) ∷ [])
    ∷ (source, ids ++ (k + 2) ∷ [])
    ∷ (t, (k + 3) ∷ [])
    ∷ []

-- The operator runs in the job of its parent.
abbrev pub InOneJob : OperatorType → ℕ → StreamNode → Type 0
InOneJob t parallelism n =
    ((t ≡ reduce) × (n.operator_type ≡ window_assigner))
    ⊎ (Follows t n.operator_type × ((parallelism ≡ n.parallelism) ⊎ (parallelism ≡ 0)))

-- The nodes that are added for an operator with these parents
abbrev pub AddedFor : List StreamNode → OperatorType → ℕ → List ℕ → List Shape → Type 0
AddedFor ns t parallelism [] s = s ≡ (t, []) ∷ []
AddedFor ns t parallelism (p ∷ []) s =
    (n : StreamNode) × (get_elem? ns p ≡ some n)
    × ((InOneJob t parallelism n × (s ≡ (t, p ∷ []) ∷ []))
        ⊎ ((¬ InOneJob t parallelism n)
            × (s ≡ exchange_shape t p (length ns) (is_reduce_type n.operator_type))))
AddedFor ns t parallelism (p ∷ q ∷ ps) s =
    s
    ≡ map sink_behind (p ∷ q ∷ ps)
      ++ join_shape t (length ns + length (p ∷ q ∷ ps))
          (sinks_behind ns (length ns) (p ∷ q ∷ ps) ([], none))

pub length-shapes :
    (new : List StreamNode) (s : List Shape) → map shape_of new ≡ s → length new ≡ length s
length-shapes [] s e = ap length e
length-shapes (n ∷ new) [] e = absurd (cc e)
length-shapes (n ∷ new) (x ∷ s) e = ap suc (length-shapes new s (cc e))

pub length-sinks : (qs : List ℕ) → length (map sink_behind qs) ≡ length qs
length-sinks [] = refl
length-sinks (q ∷ qs) = ap suc (length-sinks qs)

added_sink :
    (new : List StreamNode) (ps : List ℕ) (p : ℕ) (n : StreamNode)
    → map shape_of new ≡ map sink_behind ps
    → get_elem? new p ≡ some n
    → is_reduce_type n.operator_type ≡ false
added_sink [] ps p n e at = absurd (cc at)
added_sink (m ∷ new) [] p n e at = absurd (cc e)
added_sink (m ∷ new) (q ∷ ps) zero n e at =
    let type : m.operator_type ≡ sink = cc e in
    subst (λ x. is_reduce_type x.operator_type ≡ false) (some_injective m n at) (rw type refl)
added_sink (m ∷ new) (q ∷ ps) (suc p) n e at = added_sink new ps p n (cc e) at

pub reduces-added :
    (ns new : List StreamNode) (ps : List ℕ) (p : ℕ) (n : StreamNode)
    → map shape_of new ≡ map sink_behind ps
    → get_elem? (ns ++ new) p ≡ some n
    → is_reduce_type n.operator_type ≡ reduces ns p
reduces-added [] new ps p n e at = added_sink new ps p n e at
reduces-added (m ∷ ns) new ps zero n e at =
    ap (λ x. is_reduce_type x.operator_type) (sym (some_injective m n at))
reduces-added (m ∷ ns) new ps (suc p) n e at = reduces-added ns new ps p n e at

module _ (D : Dag StreamNode Unit) where
  -- The graph stands for these nodes and new ones of these shapes.
  pub record Adds (ns : List StreamNode) (s : List Shape) (g : RawStreamGraph D) : Type 0 where
    pub new : List StreamNode
    pub shapes : map shape_of new ≡ s
    pub represents : Represents D g (ns ++ new)

  pub Adds-nothing :
      (ns : List StreamNode) (g : RawStreamGraph D) → Represents D g ns → Adds ns [] g
  Adds-nothing ns g r = record {
    new = [];
    shapes = refl;
    represents = subst (Represents D g) (sym (append-nil ns)) r;
  }

  -- One more node behind the ones that are added
  pub add_one :
      (operator : StreamOperator) (ps qs : List ℕ) (parallelism : ℕ) (ns : List StreamNode)
      (s : List Shape) (g : RawStreamGraph D) (r : ℕ × RawStreamGraph D)
      → ps ≡ qs
      → Adds ns s g
      → add_operator0 D operator ps parallelism g ≡ ok r
      → (r.0 ≡ length ns + length s) × Adds ns (s ++ (operator_type_of operator, qs) ∷ []) r.1
  add_one operator ps qs parallelism ns s g r same a e =
      let b =
        add_operator0-Appends D operator ps parallelism r.0 g r.1 (ns ++ a.new) a.represents e in
      let shape : shape_of b.node ≡ (operator_type_of operator, qs) =
        cc (b.node_type, b.node_parents, same) in
      (
        omega (arith, b.id_is, length-append ns a.new, length-shapes a.new s a.shapes),
        record {
          new = a.new ++ b.node ∷ [];
          shapes =
              map-append shape_of a.new (b.node ∷ [])
              ∙ (ap (λ l. l ++ shape_of b.node ∷ []) a.shapes ∙ ap (λ x. s ++ x ∷ []) shape);
          represents = subst (Represents D r.1) (append_assoc ns a.new (b.node ∷ [])) b.represents;
        },
      )

  -- The node at an id that is found
  pub node_of-at :
      (p : ℕ) (g : RawStreamGraph D) (ns : List StreamNode) (n : StreamNode)
      → Represents D g ns
      → node_of D p g ≡ ok n
      → get_elem? ns p ≡ some n
  unfolding node_of
  node_of-at p g ns n r e =
      let (v, found, e₁) = bind_ok (unwrap (lookup ◌==◌ p g.operators)) _ e in
      let (j, same, (index, _)) =
        All-lookup ◌==◌ (Indexed D ns) p v g.operators r.operators (unwrap_ok _ v found) in
      ap (λ l. get_elem? l p) (sym r.nodes)
      ∙ (ap (get_elem? (D.raw_nodes g.dag)) (sym (index ∙ (==_iff j p).0 same)) ∙ unwrap_ok _ n e₁)

  pub is_reduce_parent-at :
      (p : ℕ) (g : RawStreamGraph D) (ns : List StreamNode) (b : Bool)
      → Represents D g ns
      → is_reduce_parent D p g ≡ ok b
      → (n : StreamNode) × (get_elem? ns p ≡ some n) × (b ≡ is_reduce_type n.operator_type)
  unfolding is_reduce_parent
  is_reduce_parent-at p g ns b r e =
      let (v, found, e₁) = bind_ok (unwrap (lookup ◌==◌ p g.operators)) _ e in
      let (j, same, (_, (n, at, type))) =
        All-lookup ◌==◌ (Indexed D ns) p v g.operators r.operators (unwrap_ok _ v found) in
      (
        n,
        subst (λ i. get_elem? ns i ≡ some n) ((==_iff j p).0 same) at,
        sym (ok_injective {E = DagError} _ b e₁) ∙ ap is_reduce_type (sym type),
      )

  -- The shape, and the id of the last node
  abbrev pub AddsLast : List StreamNode → List Shape → ℕ × RawStreamGraph D → Type 0
  AddsLast ns s r = (suc r.0 ≡ length ns + length s) × Adds ns s r.1
