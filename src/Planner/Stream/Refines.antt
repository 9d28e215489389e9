-- ===== src/Planner/Stream/Refines.antt =====
-- `add_operator0` of rlink/src/dag/stream_graph.rs on the list of nodes that a graph stands for.
use rlink_rs.Prelude.{
  get_elem?-last, get_elem?-bound, map_All, ℕ, ◌+◌, ◌<◌, ◌≤◌, ◌≡◌, ◌≢◌, refl, sym, ap, ◌∙◌, inl,
  inr, some, List, [], ◌∷◌, ◌++◌, length, get_elem?, length-append, arith, All, ◌==◌, Bool-cases,
  Option-cases, ==_iff, ok, unwrap, ok_injective, bind_ok, unwrap_ok,
}
use mathlib.Core.Path.{subst}
use mathlib.Core.List.{append_assoc, append-nil}
use rlink_rs.Prelude.Maps.{
  lookup, insert, All-insert, All-lookup, ==-IsTest, lookup-insert_self, lookup-insert_other,
}
use rlink_rs.Planner.Dag.{Dag, Added, added, would_cycle, out_of_bounds}
use rlink_rs.Planner.Operators.{
  DagError, StreamOperator, operator_type_of, operator_schema, StreamNode,
}
use rlink_rs.Planner.Stream.{
  RawStreamGraph, Build, unwrap_added, parent_index, add_edges, node_for, input_schema_of, register,
  add_operator0,
}
use rlink_rs.Planner.Stream.Spec.{
  edges_to, edges_of, sources_of, user_sources_of, TypeAt, TypeAt-append, edges_of-append,
  sources_of-append, user_sources_of-append, is_source-type,
}

module _ (D : Dag StreamNode Unit) where
  -- An entry of the map of operators: a node's index is its id.
  abbrev pub Indexed : List StreamNode → ℕ × (ℕ × StreamOperator) → Type 0
  Indexed ns e = (e.1.0 ≡ e.0) × TypeAt ns e.0 (operator_type_of e.1.1)

  pub record Represents (g : RawStreamGraph D) (ns : List StreamNode) : Type 0 where
    pub nodes : D.raw_nodes g.dag ≡ ns
    pub edges : D.raw_edges g.dag ≡ edges_of ns
    pub ids : g.id_gen ≡ length ns
    pub fits : length ns ≤ 4294967295
    pub sources : g.sources ≡ sources_of ns
    pub user_sources : g.user_sources ≡ user_sources_of ns
    pub operators : All (Indexed ns) g.operators
    pub complete :
        (i : ℕ) → i < length ns → (e : ℕ × StreamOperator) × (lookup ◌==◌ i g.operators ≡ some e)

  -- The index of a parent that is found is its id.
  pub found :
      (ns : List StreamNode) (ops : List (ℕ × (ℕ × StreamOperator))) (p i : ℕ)
      → All (Indexed ns) ops
      → ◌≡◌ {A = Build D ℕ} (parent_index D (lookup ◌==◌ p ops)) (ok i)
      → (i ≡ p) × (p < length ns)
  found ns ops p i h e = elim (Option-cases (lookup ◌==◌ p ops)) [
    | inl no_parent ↦ absurd (cc (rw no_parent at e))
    | inr (v, at) ↦
        let (j, same, entry) = All-lookup ◌==◌ (Indexed ns) p v ops h at in
        let (n, here, _) = entry.1 in
        let i≡v : v.0 ≡ i = ok_injective {E = DagError} v.0 i (rw at at e) in
        let j≡p : j ≡ p = (==_iff j p).0 same in
        (omega (arith, i≡v, j≡p, entry.0), omega (arith, get_elem?-bound ns j n here, j≡p))
  ]

  unwrap_added_ok :
      (a : Added D.Graph) (dag : D.Graph)
      → ◌≡◌ {A = Build D D.Graph} (unwrap_added D a) (ok dag)
      → a ≡ added dag
  unwrap_added_ok (added g) dag e = cc e
  unwrap_added_ok would_cycle dag e = absurd (cc e)
  unwrap_added_ok out_of_bounds dag e = absurd (cc e)

  add_edges_lem :
      (ns : List StreamNode) (ops : List (ℕ × (ℕ × StreamOperator))) (ps : List ℕ) (index : ℕ)
      (dag dag' : D.Graph)
      → All (Indexed ns) ops
      → add_edges D ops ps index dag ≡ ok dag'
      → (D.raw_nodes dag' ≡ D.raw_nodes dag)
        × (D.raw_edges dag' ≡ D.raw_edges dag ++ edges_to index ps)
        × All (λ p. p < length ns) ps
  unfolding add_edges
  add_edges_lem ns ops [] index dag dag' h e =
      let same = ok_injective {E = DagError} dag dag' e in
      (
        ap D.raw_nodes (sym same),
        ap D.raw_edges (sym same) ∙ sym (append-nil (D.raw_edges dag)),
        tt,
      )
  add_edges_lem ns ops (p ∷ ps) index dag dag' h e =
      let (i, at, e₁) = bind_ok (parent_index D (lookup ◌==◌ p ops)) _ e in
      let (n, _, e₂) = bind_ok (unwrap (get_elem? (D.raw_nodes dag) i)) _ e₁ in
      let (dag₁, new, e₃) = bind_ok (unwrap_added D (D.add_edge i index tt dag)) _ e₂ in
      let (nodes₁, edges₁) = D.add_edge_lem i index tt dag dag₁ (unwrap_added_ok _ dag₁ new) in
      let (nodes', edges', rest) = add_edges_lem ns ops ps index dag₁ dag' h e₃ in
      let (i≡p, bound) = found ns ops p i h at in
      (
        nodes' ∙ nodes₁,
        edges'
            ∙ (ap (λ l. l ++ edges_to index ps) edges₁
                ∙ (append_assoc (D.raw_edges dag) ((i, (index, tt)) ∷ []) (edges_to index ps)
                    ∙ ap (λ k. D.raw_edges dag ++ (k, (index, tt)) ∷ edges_to index ps) i≡p)),
        (bound, rest),
      )

  -- What one call of `add_operator0` appends
  pub record Appends (operator : StreamOperator) (ps : List ℕ) (parallelism : ℕ)
      (ns : List StreamNode) (id : ℕ) (g : RawStreamGraph D) : Type 0 where
    pub node : StreamNode
    pub id_is : id ≡ length ns
    pub node_id : node.id ≡ length ns
    pub node_parents : node.parent_ids ≡ ps
    pub node_type : node.operator_type ≡ operator_type_of operator
    pub node_parallelism : node.parallelism ≡ parallelism
    pub parents_before : All (λ p. p < length ns) ps
    pub represents : Represents g (ns ++ node ∷ [])

  Indexed-append :
      (ns : List StreamNode) (n : StreamNode) (e : ℕ × (ℕ × StreamOperator))
      → Indexed ns e
      → Indexed (ns ++ n ∷ []) e
  Indexed-append ns n e h = (h.0, TypeAt-append ns (n ∷ []) e.0 (operator_type_of e.1.1) h.1)

  -- A new id is one more that the map has.
  insert_complete :
      (n id : ℕ) (v : ℕ × StreamOperator) (ops : List (ℕ × (ℕ × StreamOperator)))
      → ((i : ℕ) → i < n → (e : ℕ × StreamOperator) × (lookup ◌==◌ i ops ≡ some e))
      → id ≡ n
      → (i : ℕ) → i < n + 1
      → (e : ℕ × StreamOperator) × (lookup ◌==◌ i (insert ◌==◌ id v ops) ≡ some e)
  insert_complete n id v ops h same i lt = elim (Bool-cases (id == i)) [
    | inl here ↦
        let i≡id : i ≡ id = sym ((==_iff id i).0 here) in
        (v, rw i≡id (lookup-insert_self ◌==◌ id v ops ((==_iff id id).1 refl)))
    | inr other ↦
        let i≢id : i ≢ id = λ e. absurd (cc ((==_iff id i).1 (sym e), other)) in
        let (e, at) = h i (omega (arith, i≢id, same, lt)) in
        (e, lookup-insert_other ◌==◌ id i v ops ==-IsTest other ∙ at)
  ]

  register-Represents :
      (operator : StreamOperator) (ps : List ℕ) (dag : D.Graph) (g : RawStreamGraph D)
      (node : StreamNode) (ns : List StreamNode)
      → Represents g ns
      → node.id ≡ g.id_gen
      → node.parent_ids ≡ ps
      → node.operator_type ≡ operator_type_of operator
      → D.raw_nodes dag ≡ ns ++ node ∷ []
      → D.raw_edges dag ≡ edges_of ns ++ edges_to (length (D.raw_nodes g.dag)) ps
      → length ns < 4294967295
      → Represents
          (register D operator ps g.id_gen (length (D.raw_nodes g.dag)) dag g)
          (ns ++ node ∷ [])
  register-Represents operator ps dag g node ns r id parents type nodes edges room =
      let count : length (D.raw_nodes g.dag) ≡ length ns = ap length r.nodes in
      let index : length (D.raw_nodes g.dag) ≡ node.id = omega (arith, count, r.ids, id) in
      record {
        nodes = nodes;
        edges =
            edges
            ∙ (ap (λ i. edges_of ns ++ edges_to i ps) index
                ∙ (ap (λ l. edges_of ns ++ edges_to node.id l) (sym parents)
                    ∙ sym (edges_of-append ns node)));
        ids = omega (arith, r.ids, room, length-append ns (node ∷ []));
        fits = omega (arith, room, length-append ns (node ∷ []));
        sources =
            rw (sources_of-append ns node, type, is_source-type operator, r.sources, index) refl;
        user_sources =
            rw
              (
                user_sources_of-append ns node,
                type,
                is_source-type operator,
                r.user_sources,
                index,
                parents,
              )
              refl;
        operators =
            All-insert ◌==◌ (Indexed (ns ++ node ∷ [])) g.id_gen
              (length (D.raw_nodes g.dag), operator) g.operators ((==_iff g.id_gen g.id_gen).1 refl)
              (map_All (Indexed ns) _ (Indexed-append ns node) g.operators r.operators)
              (λ j same.
                let j≡id : j ≡ g.id_gen = (==_iff j g.id_gen).0 same in
                let j≡length : j ≡ length ns = omega (arith, j≡id, r.ids) in
                (
                  omega (arith, index, id, j≡id),
                  (node, rw j≡length (get_elem?-last ns node), type),
                ));
        complete = λ i lt.
            insert_complete (length ns) g.id_gen (length (D.raw_nodes g.dag), operator) g.operators
              r.complete r.ids i (omega (arith, lt, length-append ns (node ∷ [])));
      }

  pub add_operator0-Appends :
      (operator : StreamOperator) (ps : List ℕ) (parallelism id : ℕ) (g g' : RawStreamGraph D)
      (ns : List StreamNode)
      → Represents g ns
      → add_operator0 D operator ps parallelism g ≡ ok (id, g')
      → Appends operator ps parallelism ns id g'
  unfolding add_operator0
  add_operator0-Appends operator ps parallelism id g g' ns r e =
      let (input, _, e₁) = bind_ok (input_schema_of D ps g) _ e in
      let (output, _, e₂) = bind_ok (operator_schema operator input) _ e₁ in
      let node = node_for operator g.id_gen ps parallelism input output in
      let (dag, new, e₃) = bind_ok (unwrap (D.add_node node g.dag)) _ e₂ in
      let (dag', with_edges, e₄) =
        bind_ok (add_edges D g.operators ps (length (D.raw_nodes g.dag)) dag) _ e₃ in
      let (nodes₁, edges₁, room) = D.add_node_lem node g.dag dag (unwrap_ok _ dag new) in
      let (nodes', edges', before) =
        add_edges_lem ns g.operators ps (length (D.raw_nodes g.dag)) dag dag' r.operators
          with_edges in
      let result = ok_injective {E = DagError} _ (id, g') e₄ in
      record {
        node = node;
        id_is = sym (ap (λ p. p.0) result) ∙ r.ids;
        node_id = r.ids;
        node_parents = refl;
        node_type = refl;
        node_parallelism = refl;
        parents_before = before;
        represents =
            subst (λ p. Represents p (ns ++ node ∷ [])) (ap (λ p. p.1) result)
              (register-Represents operator ps dag' g node ns r refl refl refl
                (nodes' ∙ (nodes₁ ∙ ap (λ l. l ++ node ∷ []) r.nodes))
                (edges'
                  ∙ ap (λ l. l ++ edges_to (length (D.raw_nodes g.dag)) ps) (edges₁ ∙ r.edges))
                (rw (sym r.nodes) room));
      }
