-- ===== src/Planner/Stream/Rules.antt =====
-- `check_operator` and `is_pipeline` of rlink/src/dag/stream_graph.rs.
use rlink_rs.Prelude.{
  ℕ, ◌≡◌, refl, sym, ◌∙◌, inl, inr, ◌⊎◌, ◌↔◌, Bool, true, ◌&&◌, arith, Bool-cases, Outcome, ok,
  ◌>>=◌, ok_injective, bind_ok, ◌==◌, ==_iff,
}
use rlink_rs.Planner.Operators.{
  DagError, OperatorType, source, flat_map, filter, co_process, key_by, reduce, watermark_assigner,
  window_assigner, sink,
}
use rlink_rs.Planner.Stream.{check_operator, may_inherit, is_pipeline}

-- An operator that handles one element at a time, without state
pub data IsStateless : OperatorType → Type 0 where
  flat_map_stateless : IsStateless flat_map
  filter_stateless : IsStateless filter
  watermark_assigner_stateless : IsStateless watermark_assigner

-- The child's type may follow the parent's in one job.
pub data Follows : OperatorType → OperatorType → Type 0 where
  source_stateless : {t : OperatorType} → IsStateless t → Follows t source
  source_key : Follows key_by source
  source_sink : Follows sink source
  stateless : {t p : OperatorType} → IsStateless p → IsStateless t → Follows t p
  stateless_key : {p : OperatorType} → IsStateless p → Follows key_by p
  stateless_sink : {p : OperatorType} → IsStateless p → Follows sink p
  co_process_key : Follows key_by co_process
  window_reduce : Follows reduce window_assigner

ruleset follow_rules = (
  flat_map_stateless, filter_stateless, watermark_assigner_stateless, source_stateless, source_key,
  source_sink, stateless, stateless_key, stateless_sink, co_process_key, window_reduce,
)

&&-left : (b c : Bool) → (b && c) ≡ true → b ≡ true
&&-left b c e = ground arith

&&-right : (b c : Bool) → (b && c) ≡ true → c ≡ true
&&-right b c e = ground arith

check_operator-Follows : (t p : OperatorType) → check_operator t p ≡ ok true → Follows t p
unfolding check_operator
check_operator-Follows t p e = grind (arith, follow_rules)

Follows-check_operator : (t p : OperatorType) → Follows t p → check_operator t p ≡ ok true
unfolding check_operator
Follows-check_operator t p (source_stateless s) = grind arith
Follows-check_operator t p source_key = refl
Follows-check_operator t p source_sink = refl
Follows-check_operator t p (stateless s h) = grind arith
Follows-check_operator t p (stateless_key s) = grind arith
Follows-check_operator t p (stateless_sink s) = grind arith
Follows-check_operator t p co_process_key = refl
Follows-check_operator t p window_reduce = refl

-- The test of `is_pipeline` behind its first branch
abbrev by_check : OperatorType → ℕ → OperatorType → ℕ → Outcome DagError Bool
by_check t n p m = check_operator t p >>= λ pipeline. ok (pipeline && may_inherit n m)

is_pipeline-cases :
    (t p : OperatorType) (n m : ℕ)
    → ((t ≡ reduce) × (p ≡ window_assigner)) ⊎ (is_pipeline t n p m ≡ by_check t n p m)
unfolding is_pipeline
is_pipeline-cases reduce window_assigner n m = inl (refl, refl)
is_pipeline-cases source p n m = inr refl
is_pipeline-cases flat_map p n m = inr refl
is_pipeline-cases filter p n m = inr refl
is_pipeline-cases co_process p n m = inr refl
is_pipeline-cases key_by p n m = inr refl
is_pipeline-cases watermark_assigner p n m = inr refl
is_pipeline-cases window_assigner p n m = inr refl
is_pipeline-cases sink p n m = inr refl
is_pipeline-cases reduce source n m = inr refl
is_pipeline-cases reduce flat_map n m = inr refl
is_pipeline-cases reduce filter n m = inr refl
is_pipeline-cases reduce co_process n m = inr refl
is_pipeline-cases reduce key_by n m = inr refl
is_pipeline-cases reduce watermark_assigner n m = inr refl
is_pipeline-cases reduce sink n m = inr refl
is_pipeline-cases reduce reduce n m = inr refl

may_inherit_iff : (n m : ℕ) → may_inherit n m ≡ true ↔ ((n ≡ m) ⊎ (n ≡ 0))
may_inherit_iff n m = (
  λ e. elim (Bool-cases (n == m)) [
    | inl same ↦ inl ((==_iff n m).0 same)
    | inr other ↦ inr ((==_iff n 0).0 (rw other at e))
  ],
  λ h. elim h [
    | inl same ↦ rw ((==_iff n m).1 same) refl
    | inr default ↦ rw ((==_iff n 0).1 default) (ground arith)
  ],
)

by_check_iff :
    (t p : OperatorType) (n m : ℕ)
    → by_check t n p m ≡ ok true ↔ (Follows t p × ((n ≡ m) ⊎ (n ≡ 0)))
by_check_iff t p n m = (
  λ e.
      let (b, checked, tested) = bind_ok (check_operator t p) _ e in
      let both = ok_injective {E = DagError} (b && may_inherit n m) true tested in
      (
        check_operator-Follows t p (rw (&&-left b (may_inherit n m) both) at checked),
        (may_inherit_iff n m).0 (&&-right b (may_inherit n m) both),
      ),
  λ h. rw (Follows-check_operator t p h.0) (rw ((may_inherit_iff n m).1 h.1) refl),
)

-- `is_pipeline` answers true for exactly the reduce behind a window assigner and the types that may
-- follow each other at the parent's parallelism or at the default one.
pub is_pipeline_iff :
    (t p : OperatorType) (n m : ℕ)
    → is_pipeline t n p m ≡ ok true
      ↔ (((t ≡ reduce) × (p ≡ window_assigner)) ⊎ (Follows t p × ((n ≡ m) ⊎ (n ≡ 0))))
unfolding is_pipeline
is_pipeline_iff t p n m = (
  λ e. elim (is_pipeline-cases t p n m) [
    | inl window ↦ inl window
    | inr checked ↦ inr ((by_check_iff t p n m).0 (sym checked ∙ e))
  ],
  λ h. elim (is_pipeline-cases t p n m) [
    | inl window ↦ rw (window.0, window.1) refl
    | inr checked ↦ elim h [
      | inl window ↦ rw (window.0, window.1) refl
      | inr follows ↦ checked ∙ (by_check_iff t p n m).1 follows
    ]
  ],
)
