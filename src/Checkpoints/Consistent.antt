-- ===== src/Checkpoints/Consistent.antt =====
-- `apply` of `CheckpointAlignManager`: the ids of the checkpoints that it holds.
use rlink_rs.Prelude.{
  ℕ, ◌+◌, ◌≤◌, ◌≡◌, sym, ◌∙◌, false, List, [], ◌∷◌, length, arith, inl, inr, All, ltb, ◌==◌,
  Bool-cases, Option-cases, ==_iff,
}
use mathlib.Core.Path.{subst}
use rlink_rs.Prelude.Maps.{lookup, insert, All-insert, All-lookup, length-insert}
use rlink_rs.Checkpoints.{
  Checkpoint, OperatorCheckpoint, CheckpointAlignManager, operator_is_align, apply_operator,
  unreached_operators, is_align, reset_operators, next_checkpoint, finish, apply_current, apply,
}

room : (a b : ℕ) → a ≤ b → (a == b) ≡ false → a + 1 ≤ b
room a b le ne = ground arith

module _ {S : Type 0} where
  -- A checkpoint of the id `id` and of the operator `k`, under its task's number
  abbrev pub Belongs : ℕ → ℕ → ℕ × Checkpoint S → Type 0
  Belongs id k e =
      (e.1.checkpoint_id ≡ id) × (e.1.operator_id ≡ k) × (e.1.task_id.task_number ≡ e.0)

  -- An operator's checkpoints all belong to it and to `id`, and there are not too many.
  abbrev pub IsValid : ℕ → ℕ × OperatorCheckpoint S → Type 0
  IsValid id e = All (Belongs id e.0) e.1.current_cks × (length e.1.current_cks ≤ e.1.parallelism)

  -- An operator's checkpoints all belong to it and to `id`, one for each of its tasks.
  abbrev pub IsComplete : ℕ → ℕ × OperatorCheckpoint S → Type 0
  IsComplete id e =
      All (Belongs id e.0) e.1.current_cks × (length e.1.current_cks ≡ e.1.parallelism)

  abbrev pub IsConsistent : CheckpointAlignManager S → Type 0
  IsConsistent m =
      All (IsValid m.current_ck_id) m.operator_cks
      × ((id : ℕ) × (id ≤ m.current_ck_id) × All (IsComplete id) m.finish_operator_cks)

  apply_operator-IsValid :
      (o : OperatorCheckpoint S) (ck : Checkpoint S) (id k : ℕ)
      → IsValid id (k, o)
      → ck.checkpoint_id ≡ id
      → ck.operator_id ≡ k
      → IsValid id (k, apply_operator o ck)
  unfolding apply_operator operator_is_align
  apply_operator-IsValid o ck id k h same_id same_op = elim (Bool-cases (operator_is_align o)) [
    | inl aligned ↦ rw (apply_operator, aligned) h
    | inr partial ↦ elim (Option-cases (lookup ◌==◌ ck.task_id.task_number o.current_cks)) [
      | inr (old, there) ↦ rw (apply_operator, partial, there) h
      | inl absent ↦
          rw (apply_operator, partial, absent)
            (
              All-insert ◌==◌ (Belongs id k) ck.task_id.task_number ck o.current_cks (ground arith)
                  h.0
                  (λ j same. (same_id, same_op, sym ((==_iff j ck.task_id.task_number).0 same))),
              (let below : length o.current_cks + 1 ≤ o.parallelism =
                    room (length o.current_cks) o.parallelism h.1 partial in
                  omega (arith, below, length-insert ◌==◌ ck.task_id.task_number ck o.current_cks)),
            )
    ]
  ]

  reset_operators-IsValid :
      (id : ℕ) (os : List (ℕ × OperatorCheckpoint S)) → All (IsValid id) (reset_operators os)
  unfolding reset_operators
  reset_operators-IsValid id [] = tt
  reset_operators-IsValid id ((k, o) ∷ os) = ((tt, omega arith), reset_operators-IsValid id os)

  aligned-IsComplete :
      (id : ℕ) (os : List (ℕ × OperatorCheckpoint S))
      → All (IsValid id) os
      → length (unreached_operators os) ≡ 0
      → All (IsComplete id) os
  unfolding unreached_operators operator_is_align
  aligned-IsComplete id [] h e = tt
  aligned-IsComplete id ((k, o) ∷ os) h e = elim (Bool-cases (operator_is_align o)) [
    | inl aligned ↦ (
      (h.0.0, (==_iff (length o.current_cks) o.parallelism).0 aligned),
      aligned-IsComplete id os h.1 (rw aligned at e),
    )
    | inr partial ↦ absurd (omega (arith, rw partial at e))
  ]

  finish-IsConsistent : (m : CheckpointAlignManager S) → IsConsistent m → IsConsistent (finish m)
  unfolding finish is_align
  finish-IsConsistent m h = elim (Bool-cases (is_align m)) [
    | inl aligned ↦ rw aligned (
      h.0,
      (
        m.current_ck_id,
        omega arith,
        aligned-IsComplete m.current_ck_id m.operator_cks h.0
            ((==_iff (length (unreached_operators m.operator_cks)) 0).0 aligned),
      ),
    )
    | inr partial ↦ rw partial h
  ]

  apply_current-IsConsistent :
      (m : CheckpointAlignManager S) (ck : Checkpoint S)
      → IsConsistent m
      → ck.checkpoint_id ≡ m.current_ck_id
      → IsConsistent (apply_current m ck).0
  unfolding apply_current
  apply_current-IsConsistent m ck h same =
      elim (Option-cases (lookup ◌==◌ ck.operator_id m.operator_cks)) [
        | inl unknown ↦ rw (apply_current, unknown) h
        | inr (o, there) ↦
            let (k, is_key, valid) =
              All-lookup ◌==◌ (IsValid m.current_ck_id) ck.operator_id o m.operator_cks h.0 there in
            rw (apply_current, there)
              (finish-IsConsistent
                (record m {
                  operator_cks = insert ◌==◌ ck.operator_id (apply_operator o ck) m.operator_cks;
                })
                (
                  All-insert ◌==◌ (IsValid m.current_ck_id) ck.operator_id (apply_operator o ck)
                      m.operator_cks (ground arith) h.0
                      (λ j is_j.
                        apply_operator-IsValid o ck m.current_ck_id j
                          (subst (λ i. IsValid m.current_ck_id (i, o))
                            ((==_iff k ck.operator_id).0 is_key
                              ∙ sym ((==_iff j ck.operator_id).0 is_j))
                            valid)
                          same (sym ((==_iff j ck.operator_id).0 is_j))),
                  h.1,
                ))
      ]

  next_checkpoint-IsConsistent :
      (m : CheckpointAlignManager S) (id : ℕ)
      → IsConsistent m
      → m.current_ck_id ≤ id
      → IsConsistent (next_checkpoint id m)
  unfolding next_checkpoint
  next_checkpoint-IsConsistent m id h le =
      (reset_operators-IsValid id m.operator_cks, (h.1.0, omega (arith, h.1.1, le), h.1.2))

  -- Whatever checkpoints arrive, late, early, twice or for an unknown operator: the open checkpoints are all
  -- of the current id, no operator has more of them than tasks, and the finished ones are of one id
  -- throughout, as many for each operator as it has tasks.
  pub apply-IsConsistent :
      (m : CheckpointAlignManager S) (ck : Checkpoint S)
      → IsConsistent m
      → IsConsistent (apply m ck).0
  unfolding apply
  apply-IsConsistent m ck h = elim (Bool-cases (ltb ck.checkpoint_id m.current_ck_id)) [
    | inl late ↦ rw late h
    | inr in_time ↦ elim (Bool-cases (ltb m.current_ck_id ck.checkpoint_id)) [
      | inl newer ↦
          rw (in_time, newer)
            (apply_current-IsConsistent (next_checkpoint ck.checkpoint_id m) ck
              (next_checkpoint-IsConsistent m ck.checkpoint_id h (ground arith)) (ground arith))
      | inr same ↦ rw (in_time, same) (apply_current-IsConsistent m ck h (ground arith))
    ]
  ]
