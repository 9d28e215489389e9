-- ===== src/Align.antt =====
-- `AlignManager` of rlink/src/runtime/worker/runnable/source_runnable.rs: it counts, for the newest
-- batch (a checkpoint id or a stream status time), how many of the parent tasks have sent it.
pub mod Count
mod Tests
use rlink_rs.Prelude.{
  ℕ, ◌+◌, Bool, true, false, Option, none, some, List, [], ◌∷◌, ltb, ◌==◌, if◌then◌else◌,
}

pub record AlignManager : Type 0 where
  pub parent_execution_size : ℕ
  pub batch_id : ℕ
  pub reached_size : ℕ

-- `AlignManager::new`
unfoldable pub new : ℕ → AlignManager
new n = record { parent_execution_size = n; batch_id = 0; reached_size = 0 }

-- `AlignManager::apply`; `none` is its `unreachable!()`.
unfoldable pub apply : AlignManager → ℕ → Option (AlignManager × Bool)
apply m id =
    if m.parent_execution_size == 0
    then some (m, true)
    else if m.batch_id == id
    then (if ltb m.parent_execution_size (m.reached_size + 1)
        then none
        else some (
          record m { reached_size = m.reached_size + 1 },
          m.reached_size + 1 == m.parent_execution_size,
        ))
    else if ltb m.batch_id id
    then some (record m { batch_id = id; reached_size = 1 }, 1 == m.parent_execution_size)
    else some (m, false)

-- The calls that a source makes, one for each event; `none` once a call panics.
pub run : AlignManager → List ℕ → Option AlignManager
run m [] = some m
run m (id ∷ ids) = elim (apply m id) [ none ↦ none | some (m', answer) ↦ run m' ids ]
