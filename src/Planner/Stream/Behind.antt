-- ===== src/Planner/Stream/Behind.antt =====
-- The nodes that the parts of `add_operator` of rlink/src/dag/stream_graph.rs add: behind a parent of
-- another job, and behind several parents.
use rlink_rs.Prelude.{
  ℕ, suc, ◌+◌, ◌≡◌, refl, sym, ap, ◌∙◌, Bool, true, false, Option, none, some, List, [], ◌∷◌, ◌++◌,
  map, length, get_elem?, get_elem?-append, length-append, arith, if◌then◌else◌, ok, ok_injective,
  bind_ok, some_injective,
}
use mathlib.Core.Path.{subst}
use mathlib.Core.List.{append_assoc, append-nil, map-append}
use rlink_rs.Planner.Dag.{Dag}
use rlink_rs.Planner.Operators.{
  DagError, StreamOperator, source, flat_map, sink, operator_type_of, StreamNode,
}
use rlink_rs.Planner.Stream.{
  is_reduce_type, create_virtual_flat_map, create_virtual_source, create_virtual_sink,
  RawStreamGraph, node_of, add_operator0, is_reduce_parent,
}
use rlink_rs.Planner.Stream.Add.{
  add_virtual_map, add_exchange, Parents, with_parent, add_sinks, add_combined,
}
use rlink_rs.Planner.Stream.Refines.{Represents}
use rlink_rs.Planner.Stream.NodeShapes.{
  Shape, sink_behind, exchange_shape, reduces, sinks_behind, join_shape, length-sinks,
  reduces-added, Adds, Adds-nothing, add_one, node_of-at, is_reduce_parent-at, AddsLast,
}

abbrev pub ids_in : Parents → List ℕ × Option ℕ
ids_in locals = (locals.new_ids, locals.reduce_id)

with_parent_ids :
    (b : Bool) (id n : ℕ) (locals : Parents)
    → ids_in (with_parent b id n locals)
      ≡ (if b then (locals.new_ids, some id) else (locals.new_ids ++ id ∷ [], locals.reduce_id))
with_parent_ids true id n locals = refl
with_parent_ids false id n locals = refl

module _ (D : Dag StreamNode Unit) where
  exchange_end :
      (b : Bool) (operator : StreamOperator) (p n : ℕ) (ns : List StreamNode)
      (r₂ r₃ r : ℕ × RawStreamGraph D)
      → Adds D ns ((sink, p ∷ []) ∷ (source, length ns ∷ []) ∷ []) r₂.1
      → r₂.0 ≡ length ns + 1
      → add_virtual_map D b r₂.0 n r₂.1 ≡ ok r₃
      → add_operator0 D operator (r₃.0 ∷ []) n r₃.1 ≡ ok r
      → AddsLast D ns (exchange_shape (operator_type_of operator) p (length ns) b) r
  unfolding add_virtual_map create_virtual_flat_map operator_type_of
  exchange_end true operator p n ns r₂ r₃ r a id e f =
      let (id₃, a₃) =
        add_one D (create_virtual_flat_map n) (r₂.0 ∷ []) ((length ns + 1) ∷ []) n ns _ r₂.1 r₃
          (ap (λ i. i ∷ []) id) a e in
      let is₃ : r₃.0 ≡ length ns + 2 = omega (arith, id₃) in
      let (id₄, a₄) =
        add_one D operator (r₃.0 ∷ []) ((length ns + 2) ∷ []) n ns _ r₃.1 r (ap (λ i. i ∷ []) is₃)
          a₃ f in
      (omega (arith, id₄), a₄)
  exchange_end false operator p n ns r₂ r₃ r a id e f =
      let same = ok_injective {E = DagError} r₂ r₃ e in
      let is₃ : r₃.0 ≡ length ns + 1 = ap (λ x. x.0) (sym same) ∙ id in
      let (id₄, a₄) =
        add_one D operator (r₃.0 ∷ []) ((length ns + 1) ∷ []) n ns _ r₃.1 r (ap (λ i. i ∷ []) is₃)
          (subst (λ x. Adds D ns ((sink, p ∷ []) ∷ (source, length ns ∷ []) ∷ []) x.1) same a) f in
      (omega (arith, id₄), a₄)

  pub add_exchange_shape :
      (operator : StreamOperator) (p n m : ℕ) (node : StreamNode) (g : RawStreamGraph D)
      (r : ℕ × RawStreamGraph D) (ns : List StreamNode)
      → Represents D g ns
      → get_elem? ns p ≡ some node
      → add_exchange D operator p n m g ≡ ok r
      → AddsLast D ns
          (exchange_shape
            (operator_type_of operator)
            p
            (length ns)
            (is_reduce_type node.operator_type))
          r
  unfolding add_exchange create_virtual_source create_virtual_sink operator_type_of
  add_exchange_shape operator p n m node g r ns rep at e =
      let (r₁, s₁, e₁) = bind_ok (add_operator0 D (create_virtual_sink m) (p ∷ []) m g) _ e in
      let (r₂, s₂, e₂) =
        bind_ok (add_operator0 D (create_virtual_source n) (r₁.0 ∷ []) n r₁.1) _ e₁ in
      let (b, test, e₃) = bind_ok (is_reduce_parent D p r₂.1) _ e₂ in
      let (r₃, s₃, s₄) = bind_ok (add_virtual_map D b r₂.0 n r₂.1) _ e₃ in
      let (id₁, a₁) =
        add_one D (create_virtual_sink m) (p ∷ []) (p ∷ []) m ns [] g r₁ refl
          (Adds-nothing D ns g rep) s₁ in
      let is₁ : r₁.0 ≡ length ns = omega (arith, id₁) in
      let (id₂, a₂) =
        add_one D (create_virtual_source n) (r₁.0 ∷ []) (length ns ∷ []) n ns _ r₁.1 r₂
          (ap (λ i. i ∷ []) is₁) a₁ s₂ in
      let (node', at', is_b) = is_reduce_parent-at D p r₂.1 (ns ++ a₂.new) b a₂.represents test in
      let same : node' ≡ node =
        some_injective node' node (sym at' ∙ get_elem?-append ns a₂.new p node at) in
      subst (λ c. AddsLast D ns (exchange_shape (operator_type_of operator) p (length ns) c) r)
        (is_b ∙ ap (λ x. is_reduce_type x.operator_type) same)
        (exchange_end b operator p n ns r₂ r₃ r a₂ (omega (arith, id₂)) s₃ s₄)

  pub add_sinks_shape :
      (ps qs : List ℕ) (locals : Parents) (g : RawStreamGraph D) (r : Parents × RawStreamGraph D)
      (ns : List StreamNode)
      → Adds D ns (map sink_behind qs) g
      → add_sinks D ps locals g ≡ ok r
      → Adds D ns (map sink_behind (qs ++ ps)) r.1
        × (ids_in r.0 ≡ sinks_behind ns (length ns + length qs) ps (ids_in locals))
  unfolding add_sinks create_virtual_sink operator_type_of
  add_sinks_shape [] qs locals g r ns a e =
      let same = ok_injective {E = DagError} (locals, g) r e in
      (
        subst (λ l. Adds D ns (map sink_behind l) r.1) (sym (append-nil qs))
            (subst (λ x. Adds D ns (map sink_behind qs) x.1) same a),
        ap (λ x. ids_in x.0) (sym same),
      )
  add_sinks_shape (p ∷ ps) qs locals g r ns a e =
      let (n, at, e₁) = bind_ok (node_of D p g) _ e in
      let (s, new, e₂) =
        bind_ok (add_operator0 D (create_virtual_sink 0) (p ∷ []) n.parallelism g) _ e₁ in
      let (id, a₁) =
        add_one D (create_virtual_sink 0) (p ∷ []) (p ∷ []) n.parallelism ns (map sink_behind qs) g
          s refl a new in
      let test =
        reduces-added ns a.new qs p n a.shapes (node_of-at D p g (ns ++ a.new) n a.represents at) in
      let at_k : s.0 ≡ length ns + length qs = omega (arith, id, length-sinks qs) in
      let next : length ns + length (qs ++ p ∷ []) ≡ suc (length ns + length qs) =
        omega (arith, length-append qs (p ∷ [])) in
      let (b, ids) =
        add_sinks_shape ps (qs ++ p ∷ [])
          (with_parent (is_reduce_type n.operator_type) s.0 n.parallelism locals) s.1 r ns
          (subst (λ l. Adds D ns l s.1) (sym (map-append sink_behind qs (p ∷ []))) a₁) e₂ in
      (
        subst (λ l. Adds D ns (map sink_behind l) r.1) (append_assoc qs (p ∷ []) ps) b,
        ids
            ∙ (ap
                  (λ k. sinks_behind ns k ps (
                    ids_in (with_parent (is_reduce_type n.operator_type) s.0 n.parallelism locals)))
                  next
                ∙ ap (λ acc. sinks_behind ns (suc (length ns + length qs)) ps acc)
                    (with_parent_ids (is_reduce_type n.operator_type) s.0 n.parallelism locals
                      ∙ (ap
                            (λ c.
                              if c
                              then (locals.new_ids, some s.0)
                              else (locals.new_ids ++ s.0 ∷ [], locals.reduce_id))
                            test
                          ∙ ap
                              (λ k.
                                if reduces ns p
                                then (locals.new_ids, some k)
                                else (locals.new_ids ++ k ∷ [], locals.reduce_id))
                              at_k))),
      )

  pub add_combined_shape :
      (operator : StreamOperator) (n left : ℕ) (ids : List ℕ) (reduced : Option ℕ)
      (before : List Shape) (g : RawStreamGraph D) (r : ℕ × RawStreamGraph D) (ns : List StreamNode)
      → Adds D ns before g
      → add_combined D operator n ids left reduced g ≡ ok r
      → AddsLast D ns
          (before
            ++ join_shape (operator_type_of operator) (length ns + length before) (ids, reduced))
          r
  unfolding add_combined create_virtual_source create_virtual_sink create_virtual_flat_map
      operator_type_of
  add_combined_shape operator n left ids none before g r ns a e =
      let k = length ns + length before in
      let (r₁, s₁, e₁) = bind_ok (add_operator0 D (create_virtual_source 0) ids n g) _ e in
      let (id₁, a₁) = add_one D (create_virtual_source 0) ids ids n ns before g r₁ refl a s₁ in
      let s₂ = before ++ (source, ids) ∷ [] in
      let (id₂, a₂) =
        add_one D operator (r₁.0 ∷ []) (k ∷ []) n ns s₂ r₁.1 r (ap (λ i. i ∷ []) id₁) a₁ e₁ in
      let whole =
        append_assoc before ((source, ids) ∷ []) ((operator_type_of operator, k ∷ []) ∷ []) in
      subst (λ l. AddsLast D ns l r) whole
        (omega (arith, id₂, length-append s₂ ((operator_type_of operator, k ∷ []) ∷ [])), a₂)
  add_combined_shape operator n left ids (some id) before g r ns a e =
      let k = length ns + length before in
      let x₁ : Shape = (source, id ∷ []) in
      let x₂ : Shape = (flat_map, k ∷ []) in
      let x₃ : Shape = (sink, (k + 1) ∷ []) in
      let x₄ : Shape = (source, ids ++ (k + 2) ∷ []) in
      let x₅ : Shape = (operator_type_of operator, (k + 3) ∷ []) in
      let s₁ = before ++ x₁ ∷ [] in
      let s₂ = s₁ ++ x₂ ∷ [] in
      let s₃ = s₂ ++ x₃ ∷ [] in
      let s₄ = s₃ ++ x₄ ∷ [] in
      let (r₁, n₁, e₁) =
        bind_ok (add_operator0 D (create_virtual_source left) (id ∷ []) left g) _ e in
      let (r₂, n₂, e₂) =
        bind_ok (add_operator0 D (create_virtual_flat_map left) (r₁.0 ∷ []) left r₁.1) _ e₁ in
      let (r₃, n₃, e₃) =
        bind_ok (add_operator0 D (create_virtual_sink left) (r₂.0 ∷ []) left r₂.1) _ e₂ in
      let (r₄, n₄, n₅) =
        bind_ok (add_operator0 D (create_virtual_source left) (ids ++ r₃.0 ∷ []) left r₃.1) _ e₃ in
      let (id₁, a₁) =
        add_one D (create_virtual_source left) (id ∷ []) (id ∷ []) left ns before g r₁ refl a n₁ in
      let (id₂, a₂) =
        add_one D (create_virtual_flat_map left) (r₁.0 ∷ []) (k ∷ []) left ns s₁ r₁.1 r₂
          (ap (λ i. i ∷ []) id₁) a₁ n₂ in
      let is₂ : r₂.0 ≡ k + 1 = omega (arith, id₂, length-append before (x₁ ∷ [])) in
      let (id₃, a₃) =
        add_one D (create_virtual_sink left) (r₂.0 ∷ []) ((k + 1) ∷ []) left ns s₂ r₂.1 r₃
          (ap (λ i. i ∷ []) is₂) a₂ n₃ in
      let is₃ : r₃.0 ≡ k + 2 =
        omega (arith, id₃, length-append s₁ (x₂ ∷ []), length-append before (x₁ ∷ [])) in
      let (id₄, a₄) =
        add_one D (create_virtual_source left) (ids ++ r₃.0 ∷ []) (ids ++ (k + 2) ∷ []) left ns s₃
          r₃.1 r₄ (ap (λ i. ids ++ i ∷ []) is₃) a₃ n₄ in
      let is₄ : r₄.0 ≡ k + 3 = omega (
        arith,
        id₄,
        length-append s₂ (x₃ ∷ []),
        length-append s₁ (x₂ ∷ []),
        length-append before (x₁ ∷ []),
      ) in
      let (id₅, a₅) =
        add_one D operator (r₄.0 ∷ []) ((k + 3) ∷ []) left ns s₄ r₄.1 r (ap (λ i. i ∷ []) is₄) a₄
          n₅ in
      let whole =
        append_assoc s₃ (x₄ ∷ []) (x₅ ∷ [])
        ∙ (append_assoc s₂ (x₃ ∷ []) (x₄ ∷ x₅ ∷ [])
            ∙ (append_assoc s₁ (x₂ ∷ []) (x₃ ∷ x₄ ∷ x₅ ∷ [])
                ∙ append_assoc before (x₁ ∷ []) (x₂ ∷ x₃ ∷ x₄ ∷ x₅ ∷ []))) in
      subst (λ l. AddsLast D ns l r) whole (omega (arith, id₅, length-append s₄ (x₅ ∷ [])), a₅)
