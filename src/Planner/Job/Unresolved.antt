-- ===== src/Planner/Job/Unresolved.antt =====
-- `build_parallelism` of rlink/src/dag/job_graph.rs on a job that has no parallelism and no parents.
use rlink_rs.Prelude.{
  ℕ, zero, suc, ◌<◌, ◌≡◌, ◌≢◌, refl, ap, ◌∙◌, inl, inr, none, some, List, [], ◌∷◌, length, arith,
  Bool-cases, Option-cases, lt→ltb, ◌==◌, ==_iff, if◌then◌else◌, ok, panic, ◌>>=◌, unwrap, bind_ok,
  ok_injective, some_injective,
}
use mathlib.Core.Path.{subst}
use rlink_rs.Prelude.Maps.{lookup, lookup-insert_other, ==-IsTest}
use rlink_rs.Planner.Job.{JobNode, Halt, Plan, is_co_process_job}
use rlink_rs.Planner.Job.Build.{
  JobNodeBuilder, get_parent_job_id, is_resolved, set_parallelism, parallelism_of,
  left_parallelism_of, inherited, get_parent_parallelism0, insert_descending, no_parallelism_jobs,
  resolve_jobs, get_parent_parallelism, build_parallelism,
}

module _ (j : ℕ) where
  -- The parents' map and the job are as they were.
  abbrev Keeps : JobNodeBuilder → JobNodeBuilder → Type 0
  Keeps b b' =
      (b'.c2p_job_id_map ≡ b.c2p_job_id_map)
      × (lookup ◌==◌ j b'.job_nodes ≡ lookup ◌==◌ j b.job_nodes)

  Keeps-trans : (a b c : JobNodeBuilder) → Keeps a b → Keeps b c → Keeps a c
  Keeps-trans a b c h k = (k.0 ∙ h.0, k.1 ∙ h.1)

  abbrev NoParents : JobNodeBuilder → Type 0
  NoParents b = lookup ◌==◌ j b.c2p_job_id_map ≡ none

  Keeps-NoParents : (b b' : JobNodeBuilder) → Keeps b b' → NoParents b → NoParents b'
  Keeps-NoParents b b' k h = ap (lookup ◌==◌ j) k.0 ∙ h

  set_parallelism-Keeps :
      (id n : ℕ) (b b' : JobNodeBuilder) → id ≢ j → set_parallelism id n b ≡ ok b' → Keeps b b'
  unfolding set_parallelism
  set_parallelism-Keeps id n b b' other e =
      let (job, _, e₁) = bind_ok (unwrap (lookup ◌==◌ id b.job_nodes)) _ e in
      subst (Keeps b) (ok_injective {E = Halt} _ b' e₁) (
        refl,
        lookup-insert_other ◌==◌ id j _ b.job_nodes ==-IsTest (elim (Bool-cases (id == j)) [
          | inl same ↦ absurd (other ((==_iff id j).0 same))
          | inr apart ↦ apart
        ]),
      )

  abbrev Resolves : (JobNode → JobNodeBuilder → Plan JobNodeBuilder) → Type 0
  Resolves resolve =
      (job : JobNode) (b b' : JobNodeBuilder) → NoParents b → resolve job b ≡ ok b' → Keeps b b'

  module _ (resolve : JobNode → JobNodeBuilder → Plan JobNodeBuilder) (h : Resolves resolve) where
    parallelism_of-Keeps :
        (p : ℕ) (b : JobNodeBuilder) (r : ℕ × JobNodeBuilder)
        → NoParents b
        → parallelism_of resolve p b ≡ ok r
        → Keeps b r.1
    parallelism_of-Keeps p b r root e =
        let (parent, _, e₁) = bind_ok (unwrap (lookup ◌==◌ p b.job_nodes)) _ e in
        elim (Bool-cases (is_resolved parent)) [
          | inl resolved ↦
              let same = ok_injective {E = Halt} (parent.parallelism, b) r (rw resolved at e₁) in
              subst (λ s. Keeps b s.1) same (refl, refl)
          | inr unresolved ↦
              let (b', done, e₂) = bind_ok (resolve parent b) _ (rw unresolved at e₁) in
              subst (λ s. Keeps b s.1) (ok_injective {E = Halt} (0, b') r e₂)
                (h parent b b' root done)
        ]

    left_parallelism_of-Keeps :
        (left : ℕ) (ps : List ℕ) (n : ℕ) (b : JobNodeBuilder) (r : ℕ × JobNodeBuilder)
        → NoParents b
        → left_parallelism_of resolve left ps n b ≡ ok r
        → Keeps b r.1
    unfolding left_parallelism_of
    left_parallelism_of-Keeps left [] n b r root e =
        subst (λ s. Keeps b s.1) (ok_injective {E = Halt} (n, b) r e) (refl, refl)
    left_parallelism_of-Keeps left (p ∷ ps) n b r root e =
        let (s, first, rest) = bind_ok (parallelism_of resolve p b) _ e in
        let k = parallelism_of-Keeps p b s root first in
        Keeps-trans b s.1 r.1 k (
          left_parallelism_of-Keeps left ps (if p == left then s.0 else n) s.1 r
            (Keeps-NoParents b s.1 k root) rest)

    by_left-Keeps :
        (job : JobNode) (ps : List ℕ) (b : JobNodeBuilder) (r : ℕ × JobNodeBuilder)
        → NoParents b
        → ◌≡◌ {A = Plan (ℕ × JobNodeBuilder)}
            (if is_co_process_job job
              then (get_parent_job_id job b >>= λ left. left_parallelism_of resolve left ps 0 b)
              else panic)
            (ok r)
        → Keeps b r.1
    by_left-Keeps job ps b r root e = elim (Bool-cases (is_co_process_job job)) [
      | inl co ↦
          let (left, _, e₁) = bind_ok (get_parent_job_id job b) _ (rw co at e) in
          left_parallelism_of-Keeps left ps 0 b r root e₁
      | inr other ↦ absurd (cc (rw other at e))
    ]

    inherited-Keeps :
        (job : JobNode) (ps : List ℕ) (b : JobNodeBuilder) (r : ℕ × JobNodeBuilder)
        → NoParents b
        → inherited resolve job ps b ≡ ok r
        → Keeps b r.1
    inherited-Keeps job [] b r root e = by_left-Keeps job [] b r root e
    inherited-Keeps job (p ∷ []) b r root e = parallelism_of-Keeps p b r root e
    inherited-Keeps job (p ∷ q ∷ ps) b r root e = by_left-Keeps job (p ∷ q ∷ ps) b r root e

  get_parent_parallelism0-Resolves : (fuel : ℕ) → Resolves (get_parent_parallelism0 fuel)
  unfolding get_parent_parallelism0
  get_parent_parallelism0-Resolves zero job b b' root e = absurd (cc e)
  get_parent_parallelism0-Resolves (suc fuel) job b b' root e =
      elim (Option-cases (lookup ◌==◌ job.job_id b.c2p_job_id_map)) [
        | inl root_job ↦
            subst (Keeps b)
              (ok_injective {E = Halt} b b' (rw (get_parent_parallelism0, root_job) at e))
              (refl, refl)
        | inr (ps, child) ↦
            let (r, got, e₁) =
              bind_ok (inherited (get_parent_parallelism0 fuel) job ps b) _
                (rw (get_parent_parallelism0, child) at e) in
            let k =
              inherited-Keeps (get_parent_parallelism0 fuel) (get_parent_parallelism0-Resolves fuel)
                job ps b r root got in
            Keeps-trans b r.1 b' k (
              set_parallelism-Keeps job.job_id r.0 r.1 b'
                (λ same. absurd (cc (ap (λ i. lookup ◌==◌ i b.c2p_job_id_map) same, child, root)))
                e₁)
      ]

  resolve_jobs-Keeps :
      (fuel : ℕ) (ids : List ℕ) (b b' : JobNodeBuilder)
      → NoParents b
      → resolve_jobs fuel ids b ≡ ok b'
      → Keeps b b'
  unfolding resolve_jobs
  resolve_jobs-Keeps fuel [] b b' root e =
      subst (Keeps b) (ok_injective {E = Halt} b b' e) (refl, refl)
  resolve_jobs-Keeps fuel (id ∷ ids) b b' root e =
      let (job, _, e₁) = bind_ok (unwrap (lookup ◌==◌ id b.job_nodes)) _ e in
      elim (Bool-cases (is_resolved job)) [
        | inl resolved ↦ resolve_jobs-Keeps fuel ids b b' root (rw resolved at e₁)
        | inr unresolved ↦
            let (b₁, done, e₂) =
              bind_ok (get_parent_parallelism0 fuel job b) _ (rw unresolved at e₁) in
            let k = get_parent_parallelism0-Resolves fuel job b b₁ root done in
            Keeps-trans b b₁ b' k
              (resolve_jobs-Keeps fuel ids b₁ b' (Keeps-NoParents b b₁ k root) e₂)
      ]

  -- The job is there, with no parallelism.
  abbrev pub IsUnresolved : JobNodeBuilder → Type 0
  IsUnresolved b = (job : JobNode) × (lookup ◌==◌ j b.job_nodes ≡ some job) × (job.parallelism ≡ 0)

  insert_descending_grows : (x : ℕ) (ys : List ℕ) → 0 < length (insert_descending x ys)
  insert_descending_grows x [] = omega arith
  insert_descending_grows x (y ∷ ys) = ground arith

  unresolved_counted :
      (jobs : List (ℕ × JobNode)) (job : JobNode)
      → lookup ◌==◌ j jobs ≡ some job
      → job.parallelism ≡ 0
      → 0 < length (no_parallelism_jobs jobs)
  unfolding lookup no_parallelism_jobs
  unresolved_counted [] job at zero_par = absurd (cc at)
  unresolved_counted ((id, other) ∷ jobs) job at zero_par =
      elim (Bool-cases (other.parallelism == 0)) [
        | inl none_yet ↦
            rw none_yet (insert_descending_grows other.job_id (no_parallelism_jobs jobs))
        | inr resolved ↦ elim (Bool-cases (id == j)) [
          | inl here ↦
              let same : other ≡ job = some_injective other job (rw (lookup, here) at at) in
              let unset : other.parallelism ≡ 0 = ap (λ x. x.parallelism) same ∙ zero_par in
              absurd (cc (resolved, (==_iff other.parallelism 0).1 unset))
          | inr there ↦
              rw resolved (unresolved_counted jobs job (rw (lookup, there) at at) zero_par)
        ]
      ]

  -- `build_parallelism` never returns while a job has neither parallelism nor parents: with any number
  -- of rounds, and fuel for each, it does not end with a result.
  pub build_parallelism-loops :
      (rounds fuel : ℕ) (b b' : JobNodeBuilder)
      → lookup ◌==◌ j b.c2p_job_id_map ≡ none
      → IsUnresolved b
      → build_parallelism rounds fuel b ≢ ok b'
  unfolding build_parallelism get_parent_parallelism
  build_parallelism-loops zero fuel b b' root u e = cc e
  build_parallelism-loops (suc rounds) fuel b b' root (job, at, zero_par) e =
      let (r, round, e₁) = bind_ok (get_parent_parallelism fuel b) _ e in
      let (b₁, resolved, e₂) =
        bind_ok (resolve_jobs fuel (no_parallelism_jobs b.job_nodes) b) _ round in
      let same = ok_injective {E = Halt} (length (no_parallelism_jobs b.job_nodes), b₁) r e₂ in
      let k = subst (λ s. Keeps b s.1) same (resolve_jobs-Keeps fuel _ b b₁ root resolved) in
      let more : 0 < r.0 =
        subst (λ s. 0 < s.0) same (unresolved_counted b.job_nodes job at zero_par) in
      build_parallelism-loops rounds fuel r.1 b' (Keeps-NoParents b r.1 k root)
        (job, k.1 ∙ at, zero_par) (rw (lt→ltb 0 r.0 more) at e₁)
