-- ===== src/Planner/ListDag.antt =====
-- A graph that is two lists, of nodes and of edges, for the tests; it refuses only loops.
use rlink_rs.Prelude.{
  map_All, ℕ, ◌+◌, ◌<◌, ◌≡◌, ◌≢◌, refl, inl, inr, ◌&&◌, sym, ap, Option, none, some, List, [], ◌∷◌,
  ◌++◌, length, get_elem?, All, suc, arith, ◌∙◌, ltb, ◌==◌, ltb→lt, lt→ltb, ==_iff, if◌then◌else◌,
  Bool-cases, some_injective,
}
use rlink_rs.Planner.Dag.{Dag, Ends, Added, added, would_cycle, out_of_bounds, Reach, here}

module _ (N E : Type 0) where
  abbrev pub ListGraph : Type 0
  ListGraph = List N × List (Ends E)

  unfoldable pub list_add_node : N → ListGraph → Option ListGraph
  list_add_node n g = if ltb (length g.0) 4294967295 then some (g.0 ++ n ∷ [], g.1) else none

  unfoldable pub list_add_edge : ℕ → ℕ → E → ListGraph → Added ListGraph
  list_add_edge a b e g =
      if a == b
      then would_cycle
      else if ltb a (length g.0) && (ltb b (length g.0) && ltb (length g.1) 4294967295)
      then added (g.0, g.1 ++ (a, (b, e)) ∷ [])
      else out_of_bounds

  added_injective : (g h : ListGraph) → added g ≡ added h → g ≡ h
  added_injective g h e = cc e

  pub list_add_node_lem :
      (n : N) (g g' : ListGraph)
      → list_add_node n g ≡ some g'
      → (g'.0 ≡ g.0 ++ n ∷ []) × (g'.1 ≡ g.1) × (length g.0 < 4294967295)
  unfolding list_add_node
  list_add_node_lem n g g' e = elim (Bool-cases (ltb (length g.0) 4294967295)) [
    | inl room ↦
        let same = some_injective (g.0 ++ n ∷ [], g.1) g' (rw room at e) in
        (sym (ap (λ h. h.0) same), sym (ap (λ h. h.1) same), ltb→lt _ _ room)
    | inr full ↦ absurd (cc (rw full at e))
  ]

  pub list_add_edge_lem :
      (a b : ℕ) (e : E) (g g' : ListGraph)
      → list_add_edge a b e g ≡ added g'
      → (g'.0 ≡ g.0) × (g'.1 ≡ g.1 ++ (a, (b, e)) ∷ [])
  unfolding list_add_edge
  list_add_edge_lem a b e g g' h = elim (Bool-cases (a == b)) [
    | inl loop ↦ absurd (cc (rw loop at h))
    | inr other ↦
        elim (Bool-cases
          (ltb a (length g.0) && (ltb b (length g.0) && ltb (length g.1) 4294967295))) [
            | inl within ↦
                let same =
                  added_injective (g.0, g.1 ++ (a, (b, e)) ∷ []) g' (rw (other, within) at h) in
                (sym (ap (λ k. k.0) same), sym (ap (λ k. k.1) same))
            | inr outside ↦ absurd (cc (rw (other, outside) at h))
          ]
  ]

  pub list_add_edge-within :
      (a b : ℕ) (e : E) (g : ListGraph)
      → a < length g.0
      → b < length g.0
      → length g.1 < 4294967295
      → list_add_edge a b e g ≢ out_of_bounds
  unfolding list_add_edge
  list_add_edge-within a b e g la lb room h = elim (Bool-cases (a == b)) [
    | inl loop ↦ absurd (cc (rw loop at h))
    | inr other ↦ absurd (cc (rw (other, lt→ltb _ _ la, lt→ltb _ _ lb, lt→ltb _ _ room) at h))
  ]

  pub list_add_edge-loop :
      (a b : ℕ) (e : E) (g : ListGraph) → list_add_edge a b e g ≡ would_cycle → Reach g.1 b a
  unfolding list_add_edge
  list_add_edge-loop a b e g h = elim (Bool-cases (a == b)) [
    | inl loop ↦ rw ((==_iff a b).0 loop) here
    | inr other ↦
        elim (Bool-cases
          (ltb a (length g.0) && (ltb b (length g.0) && ltb (length g.1) 4294967295))) [
            | inl within ↦ absurd (cc (rw (other, within) at h))
            | inr outside ↦ absurd (cc (rw (other, outside) at h))
          ]
  ]

  unfoldable pub list_children : ℕ → ℕ → List (Ends E) → List (ℕ × ℕ)
  list_children i k [] = []
  list_children i k (e ∷ es) =
      let rest = list_children i (k + 1) es in if e.0 == i then (k, e.1.0) ∷ rest else rest

  -- The edge of a child, counted from the first of the list
  abbrev IsEdgeAt : ℕ → ℕ → List (Ends E) → ℕ × ℕ → Type 0
  IsEdgeAt i k es c = (j : ℕ) × (c.0 ≡ k + j) × ((e : E) × (get_elem? es j ≡ some (i, (c.1, e))))

  from_here : (i : ℕ) (e : Ends E) → e.0 ≡ i → some e ≡ some (i, (e.1.0, e.1.1))
  from_here i e same = ap (λ a. some (a, e.1)) same

  list_children-IsEdgeAt :
      (i k : ℕ) (es : List (Ends E)) → All (IsEdgeAt i k es) (list_children i k es)
  unfolding list_children
  list_children-IsEdgeAt i k [] = tt
  list_children-IsEdgeAt i k (e ∷ es) =
      let rest =
        map_All (IsEdgeAt i (k + 1) es) (IsEdgeAt i k (e ∷ es))
          (λ c h. (suc h.0, omega (arith, h.1), h.2)) (list_children i (k + 1) es)
          (list_children-IsEdgeAt i (k + 1) es) in
      elim (Bool-cases (e.0 == i)) [
        | inl from ↦
            rw from ((0, omega arith, (e.1.1, from_here i e ((==_iff e.0 i).0 from))), rest)
        | inr other ↦ rw other rest
      ]

  pub list_children-at :
      (i : ℕ) (es : List (Ends E))
      → All (λ c. (e : E) × (get_elem? es c.0 ≡ some (i, (c.1, e)))) (list_children i 0 es)
  list_children-at i es =
      map_All (IsEdgeAt i 0 es) _
        (λ c h.
          (h.2.0, ap (get_elem? es) (let same : c.0 ≡ h.0 = omega (arith, h.1) in same) ∙ h.2.1))
        (list_children i 0 es) (list_children-IsEdgeAt i 0 es)

  unfoldable pub ListDag : Dag N E
  unfolding list_add_node list_add_edge list_children
  ListDag = record {
    Graph = ListGraph;
    new = ([], []);
    raw_nodes = λ g. g.0;
    raw_edges = λ g. g.1;
    add_node = list_add_node;
    add_edge = list_add_edge;
    children = λ i g. list_children i 0 g.1;
    raw_nodes-new = refl;
    raw_edges-new = refl;
    add_node_lem = list_add_node_lem;
    add_edge_lem = list_add_edge_lem;
    children-at = λ i g. list_children-at i g.1;
    add_node-room = λ n g room e. absurd (cc (rw (lt→ltb _ _ room) at e));
    add_edge-out_of_bounds = list_add_edge-within;
    add_edge-would_cycle = list_add_edge-loop;
  }
