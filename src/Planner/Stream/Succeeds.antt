-- ===== src/Planner/Stream/Succeeds.antt =====
-- The panics and errors of `add_operator0` of rlink/src/dag/stream_graph.rs.
use rlink_rs.Prelude.{
  get_elem?-within, map_All, ℕ, suc, ◌+◌, ◌<◌, ◌≤◌, ◌≡◌, ◌≢◌, refl, ap, ◌∙◌, Option, none, some,
  List, [], ◌∷◌, length, length-append, arith, All, All-append, ok,
}
use rlink_rs.Planner.Dag.{Dag, Added, added, would_cycle, out_of_bounds, Ascending, Reach-Ascending}
use rlink_rs.Planner.Operators.{FnSchema, empty, StreamOperator, operator_schema, StreamNode}
use rlink_rs.Planner.Stream.{
  RawStreamGraph, add_edges, node_for, input_schema_of, node_of, last_id, register, add_operator0,
}
use rlink_rs.Planner.Stream.Spec.{edges_to, edges_of, Numbered, IsPlan}
use rlink_rs.Planner.Stream.Refines.{Represents, found}

Option-some : {A : Type 0} (o : Option A) → o ≢ none → (a : A) × (o ≡ some a)
Option-some none h = absurd (h refl)
Option-some (some a) h = (a, refl)

edges_to-Ascending :
    (n id : ℕ) (ps : List ℕ) → All (λ p. p < id) ps → id < n → Ascending n (edges_to id ps)
edges_to-Ascending n id [] h lt = tt
edges_to-Ascending n id (p ∷ ps) h lt = ((h.0, lt), edges_to-Ascending n id ps h.1 lt)

edges_of-Ascending :
    (k n : ℕ) (ns : List StreamNode) → Numbered k ns → k + length ns ≤ n → Ascending n (edges_of ns)
unfolding edges_of Numbered
edges_of-Ascending k n [] h le = tt
edges_of-Ascending k n (m ∷ ns) h le =
    All-append _ (edges_to m.id m.parent_ids) (edges_of ns)
      (edges_to-Ascending n m.id m.parent_ids
        (map_All _ _ (λ p lt. omega (arith, lt, h.0.0)) m.parent_ids h.0.1)
        (omega (arith, le, h.0.0)))
      (edges_of-Ascending (suc k) n ns h.1 (omega (arith, le)))

module _ (D : Dag StreamNode Unit) where
  -- An edge upwards is added when there is room.
  add_edge-upwards :
      (a b : ℕ) (dag : D.Graph)
      → a < b
      → b < length (D.raw_nodes dag)
      → Ascending (length (D.raw_nodes dag)) (D.raw_edges dag)
      → length (D.raw_edges dag) < 4294967295
      → (dag' : D.Graph) × (D.add_edge a b tt dag ≡ added dag')
  add_edge-upwards a b dag lt bound up room = which (D.add_edge a b tt dag) refl
    where
      which :
          (r : Added D.Graph)
          → D.add_edge a b tt dag ≡ r
          → (dag' : D.Graph) × (D.add_edge a b tt dag ≡ added dag')
      which (added dag') e = (dag', e)
      which would_cycle e =
          let back =
            Reach-Ascending (length (D.raw_nodes dag)) (D.raw_edges dag) up
              (D.add_edge-would_cycle a b tt dag e) in
          absurd (omega (arith, back, lt))
      which out_of_bounds e =
          absurd (D.add_edge-out_of_bounds a b tt dag (omega (arith, lt, bound)) bound room e)

  add_edges-succeeds :
      (ns : List StreamNode) (g : RawStreamGraph D) (ps : List ℕ) (dag : D.Graph)
      → Represents D g ns
      → All (λ p. p < length ns) ps
      → length (D.raw_nodes dag) ≡ length ns + 1
      → Ascending (length ns + 1) (D.raw_edges dag)
      → length (D.raw_edges dag) + length ps ≤ 4294967295
      → (dag' : D.Graph) × (add_edges D g.operators ps (length ns) dag ≡ ok dag')
  unfolding add_edges
  add_edges-succeeds ns g [] dag rep h count up room = (dag, refl)
  add_edges-succeeds ns g (p ∷ ps) dag rep h count up room =
      let (v, at) = rep.complete p h.0 in
      let i≡p : v.0 ≡ p = (found D ns g.operators p v.0 rep.operators (rw at refl)).0 in
      let (n, here) = get_elem?-within (D.raw_nodes dag) v.0 (omega (arith, i≡p, h.0, count)) in
      let (dag₁, new) =
        add_edge-upwards v.0 (length ns) dag (omega (arith, i≡p, h.0)) (omega (arith, count))
          (rw count up) (omega (arith, room)) in
      let (nodes₁, edges₁) = D.add_edge_lem v.0 (length ns) tt dag dag₁ new in
      let up₁ =
        All-append (λ e. (e.0 < e.1.0) × (e.1.0 < length ns + 1)) (D.raw_edges dag)
          ((v.0, (length ns, tt)) ∷ []) up ((omega (arith, i≡p, h.0), omega arith), tt) in
      let (dag', rest) = add_edges-succeeds ns g ps dag₁ rep h.1 (rw nodes₁ count) (rw edges₁ up₁) (
        omega (
          arith,
          room,
          ap length edges₁,
          length-append (D.raw_edges dag) ((v.0, (length ns, tt)) ∷ []),
        )) in
      (dag', rw (at, here, new) rest)

  node_of-succeeds :
      (ns : List StreamNode) (g : RawStreamGraph D) (p : ℕ)
      → Represents D g ns
      → p < length ns
      → (n : StreamNode) × (node_of D p g ≡ ok n)
  unfolding node_of
  node_of-succeeds ns g p rep lt =
      let (v, at) = rep.complete p lt in
      let i≡p : v.0 ≡ p = (found D ns g.operators p v.0 rep.operators (rw at refl)).0 in
      let count : length (D.raw_nodes g.dag) ≡ length ns = ap length rep.nodes in
      let (n, here) = get_elem?-within (D.raw_nodes g.dag) v.0 (omega (arith, i≡p, lt, count)) in
      (n, rw (at, here) refl)

  last_id-bound : (n p : ℕ) (ps : List ℕ) → All (λ q. q < n) (p ∷ ps) → last_id p ps < n
  last_id-bound n p [] h = h.0
  last_id-bound n p (q ∷ qs) h = last_id-bound n q qs h.1

  input_schema_of-succeeds :
      (ns : List StreamNode) (g : RawStreamGraph D) (ps : List ℕ)
      → Represents D g ns
      → All (λ p. p < length ns) ps
      → (input : FnSchema) × (input_schema_of D ps g ≡ ok input)
  input_schema_of-succeeds ns g [] rep h = (empty, refl)
  input_schema_of-succeeds ns g (p ∷ ps) rep h =
      let (n, e) = node_of-succeeds ns g (last_id p ps) rep (last_id-bound (length ns) p ps h) in
      (n.output_schema, rw e refl)

  -- On a plan, with parents that are its nodes, room in the graph and a schema that is computed,
  -- `add_operator0` succeeds; no `unwrap` panics, the one of `add_edge` included.
  pub add_operator0-succeeds :
      (operator : StreamOperator) (ps : List ℕ) (parallelism : ℕ) (g : RawStreamGraph D)
      (ns : List StreamNode)
      → Represents D g ns
      → IsPlan ns
      → All (λ p. p < length ns) ps
      → length ns < 4294967295
      → length (edges_of ns) + length ps ≤ 4294967295
      → ((input : FnSchema)
          → input_schema_of D ps g ≡ ok input
          → (output : FnSchema) × (operator_schema operator input ≡ ok output))
      → (r : ℕ × RawStreamGraph D) × (add_operator0 D operator ps parallelism g ≡ ok r)
  unfolding add_operator0
  add_operator0-succeeds operator ps parallelism g ns rep plan h room edge_room schema =
      let (input, e₁) = input_schema_of-succeeds ns g ps rep h in
      let (output, e₂) = schema input e₁ in
      let node = node_for operator g.id_gen ps parallelism input output in
      let count : length (D.raw_nodes g.dag) ≡ length ns = ap length rep.nodes in
      let (dag, new) =
        Option-some (D.add_node node g.dag)
          (D.add_node-room node g.dag (omega (arith, count, room))) in
      let (nodes₁, edges₁, _) = D.add_node_lem node g.dag dag new in
      let (dag', e₃) =
        add_edges-succeeds ns g ps dag rep h
          (ap length nodes₁ ∙ omega (arith, count, length-append (D.raw_nodes g.dag) (node ∷ [])))
          (rw (edges₁, rep.edges) (edges_of-Ascending 0 (length ns + 1) ns plan.0 (omega arith)))
          (rw (edges₁, rep.edges) edge_room) in
      let at_index : add_edges D g.operators ps (length (D.raw_nodes g.dag)) dag ≡ ok dag' =
        ap (λ i. add_edges D g.operators ps i dag) count ∙ e₃ in
      (
        (g.id_gen, register D operator ps g.id_gen (length (D.raw_nodes g.dag)) dag' g),
        rw (e₁, e₂, new, at_index) refl,
      )
