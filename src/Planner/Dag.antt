-- ===== src/Planner/Dag.antt =====
-- What the planner uses of `daggy::Dag`, a third-party crate, with what its documentation and that of
-- `petgraph` under it say: a node's index is its place among the nodes, both lists grow at the end, an
-- edge is refused only when there is a path back, and a graph takes 2^32 - 1 nodes and as many edges.
use rlink_rs.Prelude.{
  ℕ, zero, suc, ◌<◌, ◌≤◌, ◌≡◌, ◌≢◌, ap, inl, inr, Option, none, some, List, [], ◌∷◌, ◌++◌, length,
  get_elem?, arith, All, map_All, some_injective,
}
use rlink_rs.Prelude.Sort.{Any}

-- The ends of an edge
abbrev pub Ends : Type 0 → Type 0
Ends E = ℕ × (ℕ × E)

-- There is a path of edges.
pub data Reach {E : Type 0} (edges : List (Ends E)) : ℕ → ℕ → Type 0 where
  here : {a : ℕ} → Reach edges a a
  then : {a b c : ℕ} → Any (λ e. (e.0 ≡ a) × (e.1.0 ≡ b)) edges → Reach edges b c → Reach edges a c

-- How `add_edge` ends: with the edge, with `WouldCycle`, or with a panic on an index out of bounds
-- or on a graph that is full
pub data Added (G : Type 0) : Type 0 where
  added : G → Added G
  would_cycle : Added G
  out_of_bounds : Added G

pub record Dag (N E : Type 0) : Type 1 where
  pub Graph : Type 0
  pub new : Graph
  pub raw_nodes : Graph → List N
  pub raw_edges : Graph → List (Ends E)
  -- `none` is the panic of a graph that is full.
  pub add_node : N → Graph → Option Graph
  pub add_edge : ℕ → ℕ → E → Graph → Added Graph
  -- `children(i).iter(dag)`: the edges out of a node, each with its end
  pub children : ℕ → Graph → List (ℕ × ℕ)
  pub raw_nodes-new : raw_nodes new ≡ []
  pub raw_edges-new : raw_edges new ≡ []
  pub add_node_lem :
      (n : N) (g g' : Graph)
      → add_node n g ≡ some g'
      → (raw_nodes g' ≡ raw_nodes g ++ n ∷ [])
        × (raw_edges g' ≡ raw_edges g)
        × (length (raw_nodes g) < 4294967295)
  pub add_edge_lem :
      (a b : ℕ) (e : E) (g g' : Graph)
      → add_edge a b e g ≡ added g'
      → (raw_nodes g' ≡ raw_nodes g) × (raw_edges g' ≡ raw_edges g ++ (a, (b, e)) ∷ [])
  pub children-at :
      (i : ℕ) (g : Graph)
      → All (λ c. (e : E) × (get_elem? (raw_edges g) c.0 ≡ some (i, (c.1, e)))) (children i g)
  pub add_node-room : (n : N) (g : Graph) → length (raw_nodes g) < 4294967295 → add_node n g ≢ none
  pub add_edge-out_of_bounds :
      (a b : ℕ) (e : E) (g : Graph)
      → a < length (raw_nodes g)
      → b < length (raw_nodes g)
      → length (raw_edges g) < 4294967295
      → add_edge a b e g ≢ out_of_bounds
  pub add_edge-would_cycle :
      (a b : ℕ) (e : E) (g : Graph) → add_edge a b e g ≡ would_cycle → Reach (raw_edges g) b a

pub at-Any :
    {E : Type 0} (a b : ℕ) (e : E) (edges : List (Ends E)) (k : ℕ)
    → get_elem? edges k ≡ some (a, (b, e))
    → Any (λ x. (x.0 ≡ a) × (x.1.0 ≡ b)) edges
at-Any a b e [] k at = absurd (cc at)
at-Any a b e (x ∷ edges) zero at =
    let same = some_injective x (a, (b, e)) at in inl (ap (λ y. y.0) same, ap (λ y. y.1.0) same)
at-Any a b e (x ∷ edges) (suc k) at = inr (at-Any a b e edges k at)

module _ {N E : Type 0} (D : Dag N E) where
  pub children-edges :
      (i : ℕ) (g : D.Graph)
      → All (λ c. Any (λ e. (e.0 ≡ i) × (e.1.0 ≡ c.1)) (D.raw_edges g)) (D.children i g)
  children-edges i g =
      map_All _ _ (λ c h. at-Any i c.1 h.0 (D.raw_edges g) c.0 h.1) (D.children i g)
        (D.children-at i g)

-- Every edge goes from a node to one that was added after it.
abbrev pub Ascending : {E : Type 0} → ℕ → List (Ends E) → Type 0
Ascending n edges = All (λ e. (e.0 < e.1.0) × (e.1.0 < n)) edges

pub Ascending-Any :
    {E : Type 0} (n a b : ℕ) (edges : List (Ends E))
    → Ascending n edges
    → Any (λ e. (e.0 ≡ a) × (e.1.0 ≡ b)) edges
    → (a < b) × (b < n)
Ascending-Any n a b [] h none_left = absurd none_left
Ascending-Any n a b (e ∷ edges) h (inl first) =
    (omega (arith, h.0, first), omega (arith, h.0, first))
Ascending-Any n a b (e ∷ edges) h (inr later) = Ascending-Any n a b edges h.1 later

-- Ascending edges lead upwards.
pub Reach-Ascending :
    {E : Type 0} (n : ℕ) (edges : List (Ends E)) {a b : ℕ}
    → Ascending n edges
    → Reach edges a b
    → a ≤ b
Reach-Ascending n edges h here = omega arith
Reach-Ascending n edges h (then {a = a} {b = b} edge rest) =
    omega (arith, (Ascending-Any n a b edges h edge).0, Reach-Ascending n edges h rest)
