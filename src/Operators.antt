-- ===== src/Operators.antt =====
-- The runnables between the source and the sink that keep no state of the stream, in
-- rlink/src/runtime/worker/runnable: filter_runnable.rs, flat_map_runnable.rs, key_by_runnable.rs and
-- sink_runnable.rs. The user's function and the hash of a key (murmur3, a third-party crate, with the
-- `unwrap_or(0)` behind it) are arguments. Counters are left out.
pub mod Partitions
mod Tests
use rlink_rs.Prelude.{
  ℕ, zero, suc, ◌+◌, ◌%◌, ◌^◌, Bool, true, false, Option, none, some, List, [], ◌∷◌, ◌++◌, ltb,
  ◌==◌, if◌then◌else◌, map,
}
use rlink_rs.Core.{
  Record, Watermark, StreamStatus, Barrier, Element, data_record, watermark, stream_status, barrier,
  completed_checkpoint_id,
}

pub data Output (B : Type 0) : Type 0 where
  run_next : Element B → Output B
  write_element : Element B → Output B
  -- The checkpoint's id and the completed one that its context has
  submit_checkpoint : ℕ → Option ℕ → Output B

-- `FunctionCreator`
pub data FunctionCreator : Type 0 where
  system user : FunctionCreator

module _ {B : Type 0} where
  -- `Element::set_partition` and `Element::partition`
  abbrev pub set_partition : ℕ → Element B → Element B
  set_partition p (data_record r) = data_record (record r { partition_num = p })
  set_partition p (watermark w) = watermark (record w { partition_num = p })
  set_partition p (stream_status st) = stream_status (record st { partition_num = p })
  set_partition p (barrier b) = barrier (record b { partition_num = p })

  abbrev pub partition : Element B → ℕ
  partition (data_record r) = r.partition_num
  partition (watermark w) = w.partition_num
  partition (stream_status st) = st.partition_num
  partition (barrier b) = b.partition_num

  -- The branches of `run` that the first three runnables share: what is no record goes on, a barrier
  -- behind its checkpoint.
  abbrev pub run_barrier : Barrier → List (Output B)
  run_barrier b = submit_checkpoint b.checkpoint_id none ∷ run_next (barrier b) ∷ []

  -- `FilterRunnable::run`; the function may change the record that it is shown.
  unfoldable pub run_filter : (Record B → Record B × Bool) → Element B → List (Output B)
  run_filter filter (data_record r) =
      let (r', keep) = filter r in if keep then run_next (data_record r') ∷ [] else []
  run_filter filter (barrier b) = run_barrier b
  run_filter filter (watermark w) = run_next (watermark w) ∷ []
  run_filter filter (stream_status st) = run_next (stream_status st) ∷ []

  -- `FlatMapRunnable::run`
  unfoldable pub run_flat_map : (Element B → List (Element B)) → Element B → List (Output B)
  run_flat_map flat_map_element (data_record r) = map run_next (flat_map_element (data_record r))
  run_flat_map flat_map_element (barrier b) = run_barrier b
  run_flat_map flat_map_element (watermark w) = run_next (watermark w) ∷ []
  run_flat_map flat_map_element (stream_status st) = run_next (stream_status st) ∷ []

  -- `KeyByRunnable::run`; `none` is the remainder by a partition size of 0.
  unfoldable pub run_key_by :
      (Record B → Record B × Record B) → (Record B → ℕ) → ℕ → Element B → Option (List (Output B))
  run_key_by get_key hash_code partition_size (data_record r) =
      let (key, r') = get_key r in
      if partition_size == 0
      then none
      else some
          (run_next (set_partition (hash_code key % partition_size % 2 ^ 16) (data_record r')) ∷ [])
  run_key_by get_key hash_code partition_size (barrier b) = some (run_barrier b)
  run_key_by get_key hash_code partition_size (watermark w) = some (run_next (watermark w) ∷ [])
  run_key_by get_key hash_code partition_size (stream_status st) =
      some (run_next (stream_status st) ∷ [])

  -- The loop of `SinkRunnable::run` over the downstream partitions from `index`, `count` of them
  unfoldable pub write_from : ℕ → ℕ → Element B → List (Output B)
  write_from index zero e = []
  write_from index (suc count) e =
      write_element (set_partition index e) ∷ write_from (index + 1) count e

  -- What the sink does with an element that is no record
  unfoldable pub distribute : FunctionCreator → ℕ → Element B → List (Output B)
  unfolding write_from
  distribute user child_parallelism e = []
  distribute system child_parallelism e =
      if ltb 0 child_parallelism then write_from 0 child_parallelism e else write_element e ∷ []

  -- `SinkRunnable::run`
  unfoldable pub run_sink : FunctionCreator → ℕ → Element B → List (Output B)
  unfolding distribute
  run_sink creator child_parallelism (data_record r) = write_element (data_record r) ∷ []
  run_sink creator child_parallelism (barrier b) =
      submit_checkpoint b.checkpoint_id (completed_checkpoint_id b)
      ∷ distribute creator child_parallelism (barrier b)
  run_sink creator child_parallelism (watermark w) =
      distribute creator child_parallelism (watermark w)
  run_sink creator child_parallelism (stream_status st) =
      distribute creator child_parallelism (stream_status st)
