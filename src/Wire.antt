-- ===== src/Wire.antt =====
-- The wire format: `Serde` of rlink/src/core/element.rs and rlink/src/core/runtime.rs, and the requests
-- and responses of rlink/src/pub_sub/network/mod.rs. The buffers of `bytes` and, for the values of a
-- record, of `serbuffer` are third-party: arguments.
pub mod Bytes
pub mod Elements
pub mod RoundTrip
pub mod Messages
mod Tests
use rlink_rs.Prelude.{
  ℕ, ◌+◌, ◌^◌, ◌%◌, Bool, true, false, Option, none, some, List, [], ◌∷◌, length, ◌==◌,
  if◌then◌else◌, Outcome, ok, err, panic, ◌>>=◌, unwrap,
}
use rlink_rs.Core.{
  TaskId, ChannelKey, default_channel_key, Record, Watermark, StreamStatus, Barrier, Element,
  data_record, watermark, stream_status, barrier,
}
use rlink_rs.Wire.Bytes.{BytesMut}

pub data WireError : Type 0 where
  -- "Illegal request body length" and "found unknown code"
  illegal_length : ℕ → WireError
  unknown_code : ℕ → WireError

-- `assert!` before the rest
abbrev pub assert : {A : Type 0} → Bool → Outcome WireError A → Outcome WireError A
assert true rest = rest
assert false rest = panic

-- `capacity`
unfoldable pub capacity : {B : Type 0} → (B → ℕ) → Element B → ℕ
capacity len (data_record r) = 15 + len r.values
capacity len (watermark w) = 11
capacity len (stream_status st) = 10
capacity len (barrier b) = 19

abbrev pub end_byte : Bool → ℕ
end_byte end = if end then 1 else 0

module _ (M : BytesMut) where
  abbrev pub get : ℕ → M.Buf → Outcome WireError (ℕ × M.Buf)
  get width b = unwrap (M.get_uint width b)

  -- `serialize` and `deserialize` of `TaskId` and `ChannelKey`
  unfoldable pub put_task : TaskId → M.Buf → M.Buf
  put_task t b = M.put_uint 2 t.num_tasks (M.put_uint 2 t.task_number (M.put_uint 4 t.job_id b))

  unfoldable pub get_task : M.Buf → Outcome WireError (TaskId × M.Buf)
  get_task b = get 4 b >>= λ (job_id, b). get 2 b >>= λ (task_number, b).
      get 2 b >>= λ (num_tasks, b).
      ok (record { job_id = job_id; task_number = task_number; num_tasks = num_tasks }, b)

  unfoldable pub put_channel_key : ChannelKey → M.Buf → M.Buf
  unfolding put_task
  put_channel_key k b = put_task k.target_task_id (put_task k.source_task_id b)

  unfoldable pub get_channel_key : M.Buf → Outcome WireError (ChannelKey × M.Buf)
  unfolding get_task
  get_channel_key b = get_task b >>= λ (source, b). get_task b >>= λ (target, b).
      ok (record { source_task_id = source; target_task_id = target }, b)

  -- `serialize` and `deserialize` of `Watermark`, `StreamStatus` and `Barrier`
  unfoldable pub put_watermark : Watermark → M.Buf → M.Buf
  put_watermark w b = M.put_uint 8 w.timestamp (M.put_uint 2 w.partition_num (M.put_uint 1 2 b))

  unfoldable pub get_watermark : M.Buf → Outcome WireError (Watermark × M.Buf)
  get_watermark b = get 1 b >>= λ (flag, b). assert (flag == 2) (
      get 2 b >>= λ (partition_num, b). get 8 b >>= λ (timestamp, b). ok (
        record {
          partition_num = partition_num;
          timestamp = timestamp;
          channel_key = default_channel_key;
          location_windows = none;
          downstream = false;
          drop_windows = none;
        },
        b,
      ))

  unfoldable pub put_stream_status : StreamStatus → M.Buf → M.Buf
  put_stream_status st b =
      M.put_uint 8 st.timestamp (M.put_uint 1 (end_byte st.end) (M.put_uint 1 3 b))

  unfoldable pub get_stream_status : M.Buf → Outcome WireError (StreamStatus × M.Buf)
  get_stream_status b = get 1 b >>= λ (flag, b). assert (flag == 3) (
      get 1 b >>= λ (end, b). get 8 b >>= λ (timestamp, b). ok (
        record {
          partition_num = 0;
          timestamp = timestamp;
          channel_key = default_channel_key;
          end = end == 1;
        },
        b,
      ))

  unfoldable pub put_barrier : Barrier → M.Buf → M.Buf
  put_barrier br b =
      M.put_uint 8 br.completed_checkpoint_id
        (M.put_uint 8 br.checkpoint_id (M.put_uint 2 br.partition_num (M.put_uint 1 4 b)))

  unfoldable pub get_barrier : M.Buf → Outcome WireError (Barrier × M.Buf)
  get_barrier b = get 1 b >>= λ (flag, b). assert (flag == 4) (
      get 2 b >>= λ (partition_num, b). get 8 b >>= λ (checkpoint_id, b).
      get 8 b >>= λ (completed_checkpoint_id, b). ok (
        record {
          partition_num = partition_num;
          checkpoint_id = checkpoint_id;
          completed_checkpoint_id = completed_checkpoint_id;
        },
        b,
      ))

  module _ {B : Type 0} (len : B → ℕ) (as_slice : B → List ℕ) (buffer_from : List ℕ → B) where
    -- `serialize` and `deserialize` of `Record`, with their asserts
    unfoldable pub put_record : Record B → M.Buf → Outcome WireError M.Buf
    put_record r b =
        let header =
          M.put_uint 4 (len r.values % 2 ^ 32)
            (M.put_uint 8 r.timestamp (M.put_uint 2 r.partition_num (M.put_uint 1 1 b))) in
        assert (length (as_slice r.values) == len r.values)
          (ok (M.put_slice (as_slice r.values) header))

    unfoldable pub get_record : M.Buf → Outcome WireError (Record B × M.Buf)
    get_record b = get 1 b >>= λ (flag, b). assert (flag == 1) (
        get 2 b >>= λ (partition_num, b). get 8 b >>= λ (timestamp, b).
        get 4 b >>= λ (value_len, b). assert (length (M.as_ref b) == value_len) (
          unwrap (M.split_to value_len b) >>= λ (values, b). ok (
            record {
              partition_num = partition_num;
              timestamp = timestamp;
              channel_key = default_channel_key;
              location_windows = none;
              trigger_window = none;
              values = buffer_from values;
            },
            b,
          )))

    -- `serialize` of `Element`
    unfoldable pub serialize : Element B → M.Buf → Outcome WireError M.Buf
    unfolding put_record put_watermark put_stream_status put_barrier
    serialize (data_record r) b = put_record r b
    serialize (watermark w) b = ok (put_watermark w b)
    serialize (stream_status st) b = ok (put_stream_status st b)
    serialize (barrier br) b = ok (put_barrier br b)

    -- The element of a type of its own
    abbrev pub as_element :
        {A : Type 0}
        → (A → Element B)
        → Outcome WireError (A × M.Buf)
        → Outcome WireError (Element B × M.Buf)
    as_element f o = o >>= λ (a, b). ok (f a, b)

    -- `deserialize` of `Element`, by its first byte; an empty buffer and an unknown tag panic.
    unfoldable pub by_tag : List ℕ → M.Buf → Outcome WireError (Element B × M.Buf)
    unfolding get_record get_watermark get_stream_status get_barrier
    by_tag [] b = panic
    by_tag (tag ∷ rest) b =
        if tag == 1
        then as_element data_record (get_record b)
        else if tag == 2
        then as_element watermark (get_watermark b)
        else if tag == 3
        then as_element stream_status (get_stream_status b)
        else if tag == 4
        then as_element barrier (get_barrier b)
        else panic

    unfoldable pub deserialize : M.Buf → Outcome WireError (Element B × M.Buf)
    unfolding by_tag
    deserialize b = by_tag (M.as_ref b) b
