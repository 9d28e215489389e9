-- ===== src/Planner/Job/Keyed.antt =====
-- `JobNodeBuilder::build` of rlink/src/dag/job_graph.rs keeps each job under its id.
use rlink_rs.Prelude.{
  ℕ, zero, suc, ◌≡◌, refl, sym, ◌∙◌, inl, inr, List, [], ◌∷◌, map, ltb, All, Bool-cases,
  Option-cases, ◌==◌, ==_iff, if◌then◌else◌, ok, panic, ◌>>=◌, unwrap, bind_ok, unwrap_ok,
  ok_injective,
}
use mathlib.Core.Path.{subst}
use rlink_rs.Prelude.Maps.{lookup, insert, All-insert, All-lookup}
use rlink_rs.Planner.Dag.{Dag}
use rlink_rs.Planner.Operators.{StreamNode}
use rlink_rs.Planner.Job.{JobNode, Halt, Plan, is_co_process_job, build_job_node}
use rlink_rs.Planner.Job.Build.{
  JobNodeBuilder, add_jobs, with_parents, set_parents, is_resolved, get_parent_job_id,
  set_parallelism, parallelism_of, left_parallelism_of, inherited, get_parent_parallelism0,
  no_parallelism_jobs, resolve_jobs, get_parent_parallelism, build_parallelism, build_jobs,
}

-- Each job has the id that it is under.
abbrev pub Keyed : List (ℕ × JobNode) → Type 0
Keyed = All (λ e. e.1.job_id ≡ e.0)

abbrev IsKeyed : JobNodeBuilder → Type 0
IsKeyed b = Keyed b.job_nodes

insert-Keyed :
    (id : ℕ) (job : JobNode) (jobs : List (ℕ × JobNode))
    → job.job_id ≡ id
    → Keyed jobs
    → Keyed (insert ◌==◌ id job jobs)
insert-Keyed id job jobs named h =
    All-insert ◌==◌ (λ e. e.1.job_id ≡ e.0) id job jobs ((==_iff id id).1 refl) h
      (λ j same. named ∙ sym ((==_iff j id).0 same))

with_parents-Keyed :
    (c2p : List (ℕ × List ℕ)) (jobs : List (ℕ × JobNode))
    → Keyed jobs
    → Keyed (map (with_parents c2p) jobs)
with_parents-Keyed c2p [] h = tt
with_parents-Keyed c2p ((id, job) ∷ jobs) h = (h.0, with_parents-Keyed c2p jobs h.1)

set_parallelism-Keyed :
    (id parallelism : ℕ) (b b' : JobNodeBuilder)
    → IsKeyed b
    → set_parallelism id parallelism b ≡ ok b'
    → IsKeyed b'
unfolding set_parallelism
set_parallelism-Keyed id parallelism b b' h e =
    let (job, at, e₁) = bind_ok (unwrap (lookup ◌==◌ id b.job_nodes)) _ e in
    let (j, same, named) =
      All-lookup ◌==◌ (λ e. e.1.job_id ≡ e.0) id job b.job_nodes h (unwrap_ok _ job at) in
    subst IsKeyed (ok_injective {E = Halt} _ b' e₁) (
      insert-Keyed id (record job { parallelism = parallelism }) b.job_nodes
        (named ∙ (==_iff j id).0 same) h)

abbrev Keeps : (JobNode → JobNodeBuilder → Plan JobNodeBuilder) → Type 0
Keeps resolve =
    (job : JobNode) (b b' : JobNodeBuilder) → IsKeyed b → resolve job b ≡ ok b' → IsKeyed b'

module _ (resolve : JobNode → JobNodeBuilder → Plan JobNodeBuilder) (keeps : Keeps resolve) where
  parallelism_of-Keyed :
      (p : ℕ) (b : JobNodeBuilder) (r : ℕ × JobNodeBuilder)
      → IsKeyed b
      → parallelism_of resolve p b ≡ ok r
      → IsKeyed r.1
  parallelism_of-Keyed p b r h e =
      let (parent, _, e₁) = bind_ok (unwrap (lookup ◌==◌ p b.job_nodes)) _ e in
      elim (Bool-cases (is_resolved parent)) [
        | inl known ↦
            subst (λ r. IsKeyed r.1)
              (ok_injective {E = Halt} (parent.parallelism, b) r (rw known at e₁)) h
        | inr unknown ↦
            let (b₁, solved, e₂) = bind_ok (resolve parent b) _ (rw unknown at e₁) in
            subst (λ r. IsKeyed r.1) (ok_injective {E = Halt} (0, b₁) r e₂)
              (keeps parent b b₁ h solved)
      ]

  left_parallelism_of-Keyed :
      (left : ℕ) (ps : List ℕ) (parallelism : ℕ) (b : JobNodeBuilder) (r : ℕ × JobNodeBuilder)
      → IsKeyed b
      → left_parallelism_of resolve left ps parallelism b ≡ ok r
      → IsKeyed r.1
  unfolding left_parallelism_of
  left_parallelism_of-Keyed left [] parallelism b r h e =
      subst (λ r. IsKeyed r.1) (ok_injective {E = Halt} (parallelism, b) r e) h
  left_parallelism_of-Keyed left (p ∷ ps) parallelism b r h e =
      let (r₁, one, rest) = bind_ok (parallelism_of resolve p b) _ e in
      left_parallelism_of-Keyed left ps (if p == left then r₁.0 else parallelism) r₁.1 r
        (parallelism_of-Keyed p b r₁ h one) rest

  join-Keyed :
      (job : JobNode) (ps : List ℕ) (b : JobNodeBuilder) (r : ℕ × JobNodeBuilder)
      → IsKeyed b
      → (if is_co_process_job job
          then (get_parent_job_id job b >>= λ left. left_parallelism_of resolve left ps 0 b)
          else panic)
        ≡ ok r
      → IsKeyed r.1
  join-Keyed job ps b r h e = elim (Bool-cases (is_co_process_job job)) [
    | inl joins ↦
        let (left, _, e₁) = bind_ok (get_parent_job_id job b) _ (rw joins at e) in
        left_parallelism_of-Keyed left ps 0 b r h e₁
    | inr other ↦ absurd (cc (rw other at e))
  ]

  inherited-Keyed :
      (job : JobNode) (ps : List ℕ) (b : JobNodeBuilder) (r : ℕ × JobNodeBuilder)
      → IsKeyed b
      → inherited resolve job ps b ≡ ok r
      → IsKeyed r.1
  inherited-Keyed job [] b r h e = join-Keyed job [] b r h e
  inherited-Keyed job (p ∷ []) b r h e = parallelism_of-Keyed p b r h e
  inherited-Keyed job (p ∷ q ∷ ps) b r h e = join-Keyed job (p ∷ q ∷ ps) b r h e

get_parent_parallelism0-Keyed : (fuel : ℕ) → Keeps (get_parent_parallelism0 fuel)
unfolding get_parent_parallelism0
get_parent_parallelism0-Keyed zero job b b' h e = absurd (cc e)
get_parent_parallelism0-Keyed (suc fuel) job b b' h e =
    elim (Option-cases (lookup ◌==◌ job.job_id b.c2p_job_id_map)) [
      | inl orphan ↦
          subst IsKeyed (ok_injective {E = Halt} b b' (rw (orphan, get_parent_parallelism0) at e)) h
      | inr (ps, found) ↦
          let (r, up, set) =
            bind_ok (inherited (get_parent_parallelism0 fuel) job ps b) _
              (rw (found, get_parent_parallelism0) at e) in
          set_parallelism-Keyed job.job_id r.0 r.1 b'
            (inherited-Keyed (get_parent_parallelism0 fuel) (get_parent_parallelism0-Keyed fuel) job
              ps b r h up)
            set
    ]

resolve_jobs-Keyed :
    (fuel : ℕ) (ids : List ℕ) (b b' : JobNodeBuilder)
    → IsKeyed b
    → resolve_jobs fuel ids b ≡ ok b'
    → IsKeyed b'
unfolding resolve_jobs
resolve_jobs-Keyed fuel [] b b' h e = subst IsKeyed (ok_injective {E = Halt} b b' e) h
resolve_jobs-Keyed fuel (id ∷ ids) b b' h e =
    let (job, _, e₁) = bind_ok (unwrap (lookup ◌==◌ id b.job_nodes)) _ e in
    elim (Bool-cases (is_resolved job)) [
      | inl known ↦ resolve_jobs-Keyed fuel ids b b' h (rw known at e₁)
      | inr unknown ↦
          let (b₁, solved, rest) =
            bind_ok (get_parent_parallelism0 fuel job b) _ (rw unknown at e₁) in
          resolve_jobs-Keyed fuel ids b₁ b' (get_parent_parallelism0-Keyed fuel job b b₁ h solved)
            rest
    ]

build_parallelism-Keyed :
    (rounds fuel : ℕ) (b b' : JobNodeBuilder)
    → IsKeyed b
    → build_parallelism rounds fuel b ≡ ok b'
    → IsKeyed b'
unfolding build_parallelism get_parent_parallelism
build_parallelism-Keyed zero fuel b b' h e = absurd (cc e)
build_parallelism-Keyed (suc rounds) fuel b b' h e =
    let (r, one, e₁) = bind_ok (get_parent_parallelism fuel b) _ e in
    let (b₁, solved, e₂) = bind_ok (resolve_jobs fuel (no_parallelism_jobs b.job_nodes) b) _ one in
    let keyed =
      subst (λ r. IsKeyed r.1) (ok_injective {E = Halt} _ r e₂)
        (resolve_jobs-Keyed fuel (no_parallelism_jobs b.job_nodes) b b₁ h solved) in
    elim (Bool-cases (ltb 0 r.0)) [
      | inl more ↦ build_parallelism-Keyed rounds fuel r.1 b' keyed (rw more at e₁)
      | inr done ↦ subst IsKeyed (ok_injective {E = Halt} r.1 b' (rw done at e₁)) keyed
    ]

module _ (D : Dag StreamNode Unit) where
  add_jobs-Keyed :
      (is : List ℕ) (dag : D.Graph) (b b' : JobNodeBuilder)
      → IsKeyed b
      → add_jobs D is dag b ≡ ok b'
      → IsKeyed b'
  unfolding add_jobs
  add_jobs-Keyed [] dag b b' h e = subst IsKeyed (ok_injective {E = Halt} b b' e) h
  add_jobs-Keyed (i ∷ is) dag b b' h e =
      let (job, _, rest) = bind_ok (build_job_node D i dag) _ e in
      add_jobs-Keyed is dag _ b' (insert-Keyed job.job_id job b.job_nodes refl h) rest

  pub build_jobs-Keyed :
      (rounds fuel : ℕ) (sources : List ℕ) (dag : D.Graph) (b : JobNodeBuilder)
      → build_jobs D rounds fuel sources dag ≡ ok b
      → Keyed b.job_nodes
  unfolding build_jobs
  build_jobs-Keyed rounds fuel sources dag b e =
      let empty_builder : JobNodeBuilder = record { c2p_job_id_map = []; job_nodes = [] } in
      let (b₁, jobs, up) = bind_ok (add_jobs D sources dag empty_builder) _ e in
      build_parallelism-Keyed rounds fuel (set_parents b₁) b
        (with_parents-Keyed b₁.c2p_job_id_map b₁.job_nodes
          (add_jobs-Keyed sources dag empty_builder b₁ tt jobs))
        up
