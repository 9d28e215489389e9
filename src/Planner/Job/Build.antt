-- ===== src/Planner/Job/Build.antt =====
-- The rest of `JobNodeBuilder` of rlink/src/dag/job_graph.rs: the map from a job to its parents, and
-- the parallelism that a job inherits.
use rlink_rs.Prelude.{
  ℕ, zero, suc, Bool, true, false, Option, none, some, List, [], ◌∷◌, ◌++◌, map, length, get_elem?,
  ltb, ◌==◌, ◌-◌, if◌then◌else◌, ok, err, panic, ◌>>=◌, unwrap,
}
use rlink_rs.Prelude.Maps.{lookup, insert}
use rlink_rs.Planner.Dag.{Dag}
use rlink_rs.Planner.Operators.{StreamNode}
use rlink_rs.Planner.Job.{JobNode, out_of_fuel, Plan, is_co_process_job, build_job_node}

pub record JobNodeBuilder : Type 0 where
  pub c2p_job_id_map : List (ℕ × List ℕ)
  pub job_nodes : List (ℕ × JobNode)

abbrev pub ids_or_none : Option (List ℕ) → List ℕ
ids_or_none none = []
ids_or_none (some ids) = ids

-- The loop over the ids of a job's children
unfoldable pub push_parent : ℕ → List ℕ → List (ℕ × List ℕ) → List (ℕ × List ℕ)
unfolding lookup insert
push_parent job_id [] c2p = c2p
push_parent job_id (child ∷ children) c2p =
    push_parent job_id children
      (insert ◌==◌ child (ids_or_none (lookup ◌==◌ child c2p) ++ job_id ∷ []) c2p)

module _ (D : Dag StreamNode Unit) where
  -- The loop of `build_job_nodes` over the sources
  unfoldable pub add_jobs : List ℕ → D.Graph → JobNodeBuilder → Plan JobNodeBuilder
  unfolding build_job_node push_parent insert
  add_jobs [] dag b = ok b
  add_jobs (i ∷ is) dag b = build_job_node D i dag >>= λ job. add_jobs is dag (record {
    c2p_job_id_map = push_parent job.job_id job.child_job_ids b.c2p_job_id_map;
    job_nodes = insert ◌==◌ job.job_id job b.job_nodes;
  })

abbrev pub with_parents : List (ℕ × List ℕ) → ℕ × JobNode → ℕ × JobNode
with_parents c2p (id, job) =
    (id, record job { parent_job_ids = ids_or_none (lookup ◌==◌ job.job_id c2p) })

abbrev pub set_parents : JobNodeBuilder → JobNodeBuilder
set_parents b = record b { job_nodes = map (with_parents b.c2p_job_id_map) b.job_nodes }

-- `stream_nodes[len - 1]`
abbrev pub last_node : List StreamNode → Option StreamNode
last_node [] = none
last_node (n ∷ []) = some n
last_node (n ∷ m ∷ ns) = last_node (m ∷ ns)

-- `get_job_id_by_sink`
unfoldable pub get_job_id_by_sink : ℕ → List (ℕ × JobNode) → Plan ℕ
get_job_id_by_sink sink_id [] = panic
get_job_id_by_sink sink_id ((id, job) ∷ jobs) = unwrap (last_node job.stream_nodes) >>= λ n.
    if n.id == sink_id then ok job.job_id else get_job_id_by_sink sink_id jobs

-- `get_parent_job_id`: the job of the last parent of the first operator
unfoldable pub get_parent_job_id : JobNode → JobNodeBuilder → Plan ℕ
unfolding get_job_id_by_sink
get_parent_job_id job b = unwrap (get_elem? job.stream_nodes 0) >>= λ n.
    unwrap (get_elem? n.parent_ids (length n.parent_ids - 1)) >>= λ id.
    get_job_id_by_sink id b.job_nodes

abbrev pub is_resolved : JobNode → Bool
is_resolved job = ltb 0 job.parallelism

-- `get_mut(&job_id).unwrap().parallelism = parallelism`
unfoldable pub set_parallelism : ℕ → ℕ → JobNodeBuilder → Plan JobNodeBuilder
unfolding lookup insert
set_parallelism id parallelism b = unwrap (lookup ◌==◌ id b.job_nodes) >>= λ job.
    ok (record b {
      job_nodes = insert ◌==◌ id (record job { parallelism = parallelism }) b.job_nodes;
    })

-- A parent's parallelism, where `resolve` is `get_parent_parallelism0`, which answers 0
abbrev pub parallelism_of :
    (JobNode → JobNodeBuilder → Plan JobNodeBuilder)
    → ℕ
    → JobNodeBuilder
    → Plan (ℕ × JobNodeBuilder)
parallelism_of resolve p b = unwrap (lookup ◌==◌ p b.job_nodes) >>= λ parent.
    elim (is_resolved parent) [
      | true ↦ ok (parent.parallelism, b)
      | false ↦ resolve parent b >>= λ b'. ok (0, b')
    ]

-- The loop over the parents of a co-process job: the parallelism is that of the left parent.
unfoldable pub left_parallelism_of :
    (JobNode → JobNodeBuilder → Plan JobNodeBuilder)
    → ℕ
    → List ℕ
    → ℕ
    → JobNodeBuilder
    → Plan (ℕ × JobNodeBuilder)
left_parallelism_of resolve left [] parallelism b = ok (parallelism, b)
left_parallelism_of resolve left (p ∷ ps) parallelism b = parallelism_of resolve p b >>= λ r.
    left_parallelism_of resolve left ps (if p == left then r.0 else parallelism) r.1

-- The parallelism by the number of parents; `unimplemented!()` is a panic.
abbrev pub inherited :
    (JobNode → JobNodeBuilder → Plan JobNodeBuilder)
    → JobNode
    → List ℕ
    → JobNodeBuilder
    → Plan (ℕ × JobNodeBuilder)
inherited resolve job (p ∷ []) b = parallelism_of resolve p b
inherited resolve job ps b =
    if is_co_process_job job
    then (get_parent_job_id job b >>= λ left. left_parallelism_of resolve left ps 0 b)
    else panic

-- `get_parent_parallelism0`
unfoldable pub get_parent_parallelism0 : ℕ → JobNode → JobNodeBuilder → Plan JobNodeBuilder
unfolding lookup is_co_process_job get_parent_job_id left_parallelism_of set_parallelism
get_parent_parallelism0 zero job b = err out_of_fuel
get_parent_parallelism0 (suc fuel) job b = elim (lookup ◌==◌ job.job_id b.c2p_job_id_map) [
  | none ↦ ok b
  | some ps ↦
      inherited (get_parent_parallelism0 fuel) job ps b >>= λ r. set_parallelism job.job_id r.0 r.1
]

abbrev pub insert_descending : ℕ → List ℕ → List ℕ
insert_descending x [] = x ∷ []
insert_descending x (y ∷ ys) = if ltb x y then y ∷ insert_descending x ys else x ∷ y ∷ ys

-- The ids of the jobs with no parallelism, the largest first
unfoldable pub no_parallelism_jobs : List (ℕ × JobNode) → List ℕ
no_parallelism_jobs [] = []
no_parallelism_jobs ((id, job) ∷ jobs) =
    let rest = no_parallelism_jobs jobs in
    if job.parallelism == 0 then insert_descending job.job_id rest else rest

-- The loop of `get_parent_parallelism`
unfoldable pub resolve_jobs : ℕ → List ℕ → JobNodeBuilder → Plan JobNodeBuilder
unfolding lookup get_parent_parallelism0
resolve_jobs fuel [] b = ok b
resolve_jobs fuel (id ∷ ids) b = unwrap (lookup ◌==◌ id b.job_nodes) >>= λ job.
    elim (is_resolved job) [
      | true ↦ resolve_jobs fuel ids b
      | false ↦ get_parent_parallelism0 fuel job b >>= λ b'. resolve_jobs fuel ids b'
    ]

-- `get_parent_parallelism`: the number of jobs that had no parallelism
unfoldable pub get_parent_parallelism : ℕ → JobNodeBuilder → Plan (ℕ × JobNodeBuilder)
unfolding no_parallelism_jobs resolve_jobs
get_parent_parallelism fuel b = resolve_jobs fuel (no_parallelism_jobs b.job_nodes) b >>= λ b'.
    ok (length (no_parallelism_jobs b.job_nodes), b')

-- `build_parallelism`: `while get_parent_parallelism() > 0 {}`, so many rounds, with fuel for each
unfoldable pub build_parallelism : ℕ → ℕ → JobNodeBuilder → Plan JobNodeBuilder
unfolding get_parent_parallelism
build_parallelism zero fuel b = err out_of_fuel
build_parallelism (suc rounds) fuel b = get_parent_parallelism fuel b >>= λ r. elim (ltb 0 r.0) [
  | true ↦ build_parallelism rounds fuel r.1
  | false ↦ ok r.1
]

module _ (D : Dag StreamNode Unit) where
  -- `build`, on the sources and the graph of the stream graph
  unfoldable pub build_jobs : ℕ → ℕ → List ℕ → D.Graph → Plan JobNodeBuilder
  unfolding add_jobs build_parallelism
  build_jobs rounds fuel sources dag =
      add_jobs D sources dag (record { c2p_job_id_map = []; job_nodes = [] }) >>= λ b.
      build_parallelism rounds fuel (set_parents b)
