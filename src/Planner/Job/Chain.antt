-- ===== src/Planner/Job/Chain.antt =====
-- The rounds of `build_job_node` of rlink/src/dag/job_graph.rs.
use rlink_rs.Prelude.{
  get_elem?-within, ℕ, zero, suc, ◌+◌, ◌<◌, ◌≤◌, ◌≡◌, ◌≢◌, refl, sym, ◌∙◌, inl, inr, Bool, true,
  false, some, List, [], ◌∷◌, length, get_elem?, arith, All, ok, err, ◌>>=◌, bind_err, unwrap_err,
  ◌⊎◌,
}
use mathlib.Core.Path.{subst}
use rlink_rs.Prelude.Sort.{Any}
use rlink_rs.Planner.Dag.{Dag, children-edges, Ascending, Ascending-Any}
use rlink_rs.Planner.Operators.{
  StreamNode, DagError, child_not_found_in_pipeline, multi_children_in_pipeline,
}
use rlink_rs.Planner.Job.{
  out_of_fuel, dag_error, is_sink_type, JobWalk, new_walk, visit, stream_node, ids_of, job_of,
  round, walk, build_job_node,
}

module _ (D : Dag StreamNode Unit) (dag : D.Graph) where
  -- How a round of the loop goes on: with the only child of a node that is no sink
  abbrev pub GoesOn : ℕ → StreamNode → ℕ × ℕ → Type 0
  GoesOn i n c =
      (get_elem? (D.raw_nodes dag) i ≡ some n)
      × (is_sink_type n.operator_type ≡ false)
      × (D.children i dag ≡ c ∷ [])

  ids_of-fuel : (cs : List (ℕ × ℕ)) → ids_of D cs dag ≢ err out_of_fuel
  unfolding ids_of
  ids_of-fuel [] e = cc e
  ids_of-fuel (c ∷ cs) e = elim (bind_err (stream_node D c.1 dag) _ e) [
    | inl outside ↦ unwrap_err (get_elem? (D.raw_nodes dag) c.1) out_of_fuel outside
    | inr (n, _, e₁) ↦ elim (bind_err (ids_of D cs dag) _ e₁) [
      | inl rest ↦ ids_of-fuel cs rest
      | inr (ids, _, e₂) ↦ cc e₂
    ]
  ]

  walk_step :
      (fuel i : ℕ) (w : JobWalk) (n : StreamNode)
      → get_elem? (D.raw_nodes dag) i ≡ some n
      → walk D (suc fuel) i w dag
        ≡ round D
            (is_sink_type n.operator_type)
            (D.children i dag)
            (ids_of D (D.children i dag) dag >>= λ ids. ok (job_of D (visit n w) ids))
            (λ c. walk D fuel c (visit n w) dag)
  unfolding walk
  walk_step fuel i w n at = rw at refl

  -- A round of the loop: the last one, an error, or one that goes on
  abbrev pub Round : ℕ → ℕ → JobWalk → StreamNode → Type 0
  Round fuel i w n =
      ((is_sink_type n.operator_type ≡ true)
        × (walk D (suc fuel) i w dag
            ≡ (ids_of D (D.children i dag) dag >>= λ ids. ok (job_of D (visit n w) ids))))
      ⊎ (((x : DagError) × (walk D (suc fuel) i w dag ≡ err (dag_error x)))
          ⊎ ((c : ℕ × ℕ) × GoesOn i n c
              × (walk D (suc fuel) i w dag ≡ walk D fuel c.1 (visit n w) dag)))

  pub walk_cases :
      (fuel i : ℕ) (w : JobWalk) (n : StreamNode)
      → get_elem? (D.raw_nodes dag) i ≡ some n
      → Round fuel i w n
  walk_cases fuel i w n at =
      by_cases (is_sink_type n.operator_type) (D.children i dag) refl refl (walk_step fuel i w n at)
    where
      by_cases :
          (b : Bool) (cs : List (ℕ × ℕ))
          → is_sink_type n.operator_type ≡ b
          → D.children i dag ≡ cs
          → walk D (suc fuel) i w dag
            ≡ round D b cs
                (ids_of D (D.children i dag) dag >>= λ ids. ok (job_of D (visit n w) ids))
                (λ c. walk D fuel c (visit n w) dag)
          → Round fuel i w n
      by_cases true cs s e h = inl (s, h)
      by_cases false [] s e h = inr (inl (child_not_found_in_pipeline, h))
      by_cases false (c ∷ []) s e h = inr (inr (c, (at, s, e), h))
      by_cases false (c ∷ d ∷ cs) s e h = inr (inl (multi_children_in_pipeline, h))

  -- An only child stands behind its parent.
  pub child-edge :
      (i : ℕ) (c : ℕ × ℕ)
      → D.children i dag ≡ c ∷ []
      → Any (λ e. (e.0 ≡ i) × (e.1.0 ≡ c.1)) (D.raw_edges dag)
  child-edge i c e =
      (subst (All (λ c. Any (λ e. (e.0 ≡ i) × (e.1.0 ≡ c.1)) (D.raw_edges dag))) e
        (children-edges D i dag)).0

  walk-fuel :
      (fuel i : ℕ) (w : JobWalk)
      → Ascending (length (D.raw_nodes dag)) (D.raw_edges dag)
      → length (D.raw_nodes dag) ≤ fuel + i
      → i < length (D.raw_nodes dag)
      → walk D fuel i w dag ≢ err out_of_fuel
  walk-fuel zero i w up enough lt e = omega (arith, enough, lt)
  walk-fuel (suc fuel) i w up enough lt e =
      let (n, at) = get_elem?-within (D.raw_nodes dag) i lt in
      elim (walk_cases fuel i w n at) [
        | inl (_, finish) ↦ elim (bind_err (ids_of D (D.children i dag) dag) _ (sym finish ∙ e)) [
          | inl ids ↦ ids_of-fuel (D.children i dag) ids
          | inr (ids, _, e₁) ↦ cc e₁
        ]
        | inr (inl (x, failed)) ↦ cc (sym failed ∙ e)
        | inr (inr (c, goes_on, next)) ↦
            let (after, bound) =
              Ascending-Any (length (D.raw_nodes dag)) i c.1 (D.raw_edges dag) up
                (child-edge i c goes_on.2) in
            walk-fuel fuel c.1 (visit n w) up (omega (arith, enough, after)) bound (sym next ∙ e)
      ]

  -- From a node of a graph whose edges go up, `build_job_node` ends within as many rounds as there are
  -- nodes.
  pub build_job_node-fuel :
      (i : ℕ)
      → Ascending (length (D.raw_nodes dag)) (D.raw_edges dag)
      → i < length (D.raw_nodes dag)
      → build_job_node D i dag ≢ err out_of_fuel
  unfolding build_job_node
  build_job_node-fuel i up lt = walk-fuel (length (D.raw_nodes dag)) i new_walk up (omega arith) lt
