-- ===== src/Wire/Messages/RoundTrip.antt =====
-- `ElementRequest` of rlink/src/pub_sub/network/mod.rs, written and read.
use rlink_rs.Prelude.{
  ℕ, ◌^◌, ◌<◌, ◌≡◌, refl, ap, ◌∙◌, true, List, [], ◌∷◌, ◌++◌, length, arith, ◌==◌, ok, ==_iff,
}
use rlink_rs.Core.{TaskId, ChannelKey}
use rlink_rs.Wire.Bytes.{BytesMut, Writes, Writes-then, put_uint-Writes, wire, length-wire}
use rlink_rs.Wire.{put_task, get_task, put_channel_key, get_channel_key}
use rlink_rs.Wire.Elements.{Reads}
use rlink_rs.Wire.Messages.{ElementRequest, put_request, get_request}

abbrev TaskFits : TaskId → Type 0
TaskFits t = (t.job_id < 2 ^ 32) × (t.task_number < 2 ^ 16) × (t.num_tasks < 2 ^ 16)

abbrev pub RequestFits : ElementRequest → Type 0
RequestFits q =
    TaskFits q.channel_key.source_task_id
    × TaskFits q.channel_key.target_task_id
    × (q.batch_pull_size < 2 ^ 16)
    × (q.batch_id < 2 ^ 16)

abbrev task_fields : TaskId → List (ℕ × ℕ)
task_fields t = (4, t.job_id) ∷ (2, t.task_number) ∷ (2, t.num_tasks) ∷ []

module _ (M : BytesMut) where
  put_task-Writes : (t : TaskId) → Writes M (put_task M t) (task_fields t)
  unfolding put_task
  put_task-Writes t =
      Writes-then M (λ b. M.put_uint 2 t.task_number (M.put_uint 4 t.job_id b))
        (M.put_uint 2 t.num_tasks) ((4, t.job_id) ∷ (2, t.task_number) ∷ []) ((2, t.num_tasks) ∷ [])
        (Writes-then M (M.put_uint 4 t.job_id) (M.put_uint 2 t.task_number) ((4, t.job_id) ∷ [])
          ((2, t.task_number) ∷ []) (put_uint-Writes M 4 t.job_id)
          (put_uint-Writes M 2 t.task_number))
        (put_uint-Writes M 2 t.num_tasks)

  get_task-Reads : (t : TaskId) → TaskFits t → Reads M (get_task M) (task_fields t) t
  unfolding get_task
  get_task-Reads t fits b rest h =
      let (b₁, e₁, v₁) =
        M.get_uint-big_endian 4 t.job_id b (wire ((2, t.task_number) ∷ (2, t.num_tasks) ∷ []) rest)
          fits.0 h in
      let (b₂, e₂, v₂) =
        M.get_uint-big_endian 2 t.task_number b₁ (wire ((2, t.num_tasks) ∷ []) rest) fits.1 v₁ in
      let (b₃, e₃, v₃) = M.get_uint-big_endian 2 t.num_tasks b₂ rest fits.2 v₂ in
      (b₃, rw (e₁, e₂, e₃) refl, v₃)

  abbrev key_fields : ChannelKey → List (ℕ × ℕ)
  key_fields k = task_fields k.source_task_id ++ task_fields k.target_task_id

  put_channel_key-Writes : (k : ChannelKey) → Writes M (put_channel_key M k) (key_fields k)
  unfolding put_channel_key
  put_channel_key-Writes k =
      Writes-then M (put_task M k.source_task_id) (put_task M k.target_task_id)
        (task_fields k.source_task_id) (task_fields k.target_task_id)
        (put_task-Writes k.source_task_id) (put_task-Writes k.target_task_id)

  get_channel_key-Reads :
      (k : ChannelKey)
      → TaskFits k.source_task_id
      → TaskFits k.target_task_id
      → Reads M (get_channel_key M) (key_fields k) k
  unfolding get_channel_key
  get_channel_key-Reads k fs ft b rest h =
      let (b₁, e₁, v₁) =
        get_task-Reads k.source_task_id fs b (wire (task_fields k.target_task_id) rest) h in
      let (b₂, e₂, v₂) = get_task-Reads k.target_task_id ft b₁ rest v₁ in
      (b₂, rw (get_channel_key, e₁) (rw e₂ refl), v₂)

  abbrev request_fields : ElementRequest → List (ℕ × ℕ)
  request_fields q =
      (4, 20) ∷ (key_fields q.channel_key ++ (2, q.batch_pull_size) ∷ (2, q.batch_id) ∷ [])

  request-Writes :
      (q : ElementRequest)
      → Writes M
          (λ b.
            M.put_uint 2 q.batch_id (
              M.put_uint 2 q.batch_pull_size (put_channel_key M q.channel_key (M.put_uint 4 20 b))))
          (request_fields q)
  request-Writes q =
      Writes-then M (λ b. put_channel_key M q.channel_key (M.put_uint 4 20 b))
        (λ b. M.put_uint 2 q.batch_id (M.put_uint 2 q.batch_pull_size b))
        ((4, 20) ∷ key_fields q.channel_key) ((2, q.batch_pull_size) ∷ (2, q.batch_id) ∷ [])
        (Writes-then M (M.put_uint 4 20) (put_channel_key M q.channel_key) ((4, 20) ∷ [])
          (key_fields q.channel_key) (put_uint-Writes M 4 20)
          (put_channel_key-Writes q.channel_key))
        (Writes-then M (M.put_uint 2 q.batch_pull_size) (M.put_uint 2 q.batch_id)
          ((2, q.batch_pull_size) ∷ []) ((2, q.batch_id) ∷ [])
          (put_uint-Writes M 2 q.batch_pull_size) (put_uint-Writes M 2 q.batch_id))

  -- A request whose numbers fit their fields is written without a panic, in 24 bytes, and read back.
  pub request_round_trip :
      (q : ElementRequest)
      → RequestFits q
      → (b : M.Buf) × (put_request M q ≡ ok b)
        × (length (M.as_ref b) ≡ 24)
        × (get_request M b ≡ ok q)
  unfolding put_request get_request
  request_round_trip q fits =
      let b = M.put_uint 2 q.batch_id (
        M.put_uint 2 q.batch_pull_size
          (put_channel_key M q.channel_key (M.put_uint 4 20 (M.with_capacity 24)))) in
      let v = request-Writes q (M.with_capacity 24) [] (M.as_ref-with_capacity 24) in
      let size : length (M.as_ref b) ≡ 24 = ap length v ∙ length-wire (request_fields q) [] in
      let ends : List (ℕ × ℕ) = (2, q.batch_pull_size) ∷ (2, q.batch_id) ∷ [] in
      let (b₁, e₁, v₁) =
        M.get_uint-big_endian 4 20 b (wire (key_fields q.channel_key ++ ends) []) (omega arith) v in
      let body : (length (M.as_ref b₁) == 20) ≡ true =
        (==_iff (length (M.as_ref b₁)) 20).1
          (ap length v₁ ∙ length-wire (key_fields q.channel_key ++ ends) []) in
      let (b₂, e₂, v₂) = get_channel_key-Reads q.channel_key fits.0 fits.1 b₁ (wire ends []) v₁ in
      let (b₃, e₃, v₃) =
        M.get_uint-big_endian 2 q.batch_pull_size b₂ (wire ((2, q.batch_id) ∷ []) []) fits.2 v₂ in
      let (b₄, e₄, v₄) = M.get_uint-big_endian 2 q.batch_id b₃ [] fits.3 v₃ in
      (
        b,
        rw ((==_iff (length (M.as_ref b)) 24).1 size) refl,
        size,
        rw (e₁, body) (rw e₂ (rw (e₃, e₄) refl)),
      )
