-- ===== src/Wire/Elements.antt =====
-- The bytes of an element, field by field: the writers and the readers of each kind.
use rlink_rs.Prelude.{
  ℕ, ◌^◌, ◌<◌, ◌≡◌, refl, ap, sym, ◌∙◌, Bool, true, false, none, some, List, [], ◌∷◌, length, arith,
  ◌==◌, Outcome, ok, ==_iff,
}
use mathlib.Core.List.{append-nil}
use rlink_rs.Core.{
  default_channel_key, Record, Watermark, StreamStatus, Barrier, Element, data_record, watermark,
  stream_status, barrier,
}
use rlink_rs.Wire.Bytes.{BytesMut, Writes, Writes-then, put_uint-Writes, wire}
use rlink_rs.Wire.{
  WireError, as_element, end_byte, put_watermark, get_watermark, put_stream_status,
  get_stream_status, put_barrier, get_barrier, get_record,
}

-- What arrives of an element: its place in the task graph is not sent.
abbrev pub arrived_watermark : Watermark → Watermark
arrived_watermark w = record {
  partition_num = w.partition_num;
  timestamp = w.timestamp;
  channel_key = default_channel_key;
  location_windows = none;
  downstream = false;
  drop_windows = none;
}

-- The partition of a stream status is not sent either.
abbrev pub arrived_status : StreamStatus → StreamStatus
arrived_status st = record {
  partition_num = 0;
  timestamp = st.timestamp;
  channel_key = default_channel_key;
  end = st.end;
}

abbrev pub watermark_fields : Watermark → List (ℕ × ℕ)
watermark_fields w = (1, 2) ∷ (2, w.partition_num) ∷ (8, w.timestamp) ∷ []

abbrev pub status_fields : StreamStatus → List (ℕ × ℕ)
status_fields st = (1, 3) ∷ (1, end_byte st.end) ∷ (8, st.timestamp) ∷ []

abbrev pub barrier_fields : Barrier → List (ℕ × ℕ)
barrier_fields br =
    (1, 4) ∷ (2, br.partition_num) ∷ (8, br.checkpoint_id) ∷ (8, br.completed_checkpoint_id) ∷ []

abbrev pub arrived : {B : Type 0} → (B → List ℕ) → (List ℕ → B) → Element B → Element B
arrived as_slice buffer_from (data_record r) = data_record (record {
  partition_num = r.partition_num;
  timestamp = r.timestamp;
  channel_key = default_channel_key;
  location_windows = none;
  trigger_window = none;
  values = buffer_from (as_slice r.values);
})
arrived as_slice buffer_from (watermark w) = watermark (arrived_watermark w)
arrived as_slice buffer_from (stream_status st) = stream_status (arrived_status st)
arrived as_slice buffer_from (barrier br) = barrier br

abbrev pub element_fields : {B : Type 0} → (B → ℕ) → Element B → List (ℕ × ℕ)
element_fields len (data_record r) =
    (1, 1) ∷ (2, r.partition_num) ∷ (8, r.timestamp) ∷ (4, len r.values) ∷ []
element_fields len (watermark w) = watermark_fields w
element_fields len (stream_status st) = status_fields st
element_fields len (barrier br) = barrier_fields br

abbrev pub payload : {B : Type 0} → (B → List ℕ) → Element B → List ℕ
payload as_slice (data_record r) = as_slice r.values
payload as_slice (watermark w) = []
payload as_slice (stream_status st) = []
payload as_slice (barrier br) = []

-- Each number fits its field.
abbrev pub Fits : {B : Type 0} → (B → ℕ) → Element B → Type 0
Fits len (data_record r) =
    (r.partition_num < 2 ^ 16) × (r.timestamp < 2 ^ 64) × (len r.values < 2 ^ 32)
Fits len (watermark w) = (w.partition_num < 2 ^ 16) × (w.timestamp < 2 ^ 64)
Fits len (stream_status st) = st.timestamp < 2 ^ 64
Fits len (barrier br) =
    (br.partition_num < 2 ^ 16)
    × (br.checkpoint_id < 2 ^ 64)
    × (br.completed_checkpoint_id < 2 ^ 64)

module _ (M : BytesMut) where
  -- The reader takes the fields from the front of any buffer, as this value.
  abbrev pub Reads :
      {A : Type 0} → (M.Buf → Outcome WireError (A × M.Buf)) → List (ℕ × ℕ) → A → Type 0
  Reads read fields a =
      (b : M.Buf) (rest : List ℕ)
      → M.as_ref b ≡ wire fields rest
      → (b' : M.Buf) × (read b ≡ ok (a, b')) × (M.as_ref b' ≡ rest)

  pub get_watermark-Reads :
      (w : Watermark)
      → (w.partition_num < 2 ^ 16) × (w.timestamp < 2 ^ 64)
      → Reads (get_watermark M) (watermark_fields w) (arrived_watermark w)
  unfolding get_watermark
  get_watermark-Reads w fits b rest h =
      let (b₁, e₁, v₁) =
        M.get_uint-big_endian 1 2 b (wire ((2, w.partition_num) ∷ (8, w.timestamp) ∷ []) rest)
          (omega arith) h in
      let (b₂, e₂, v₂) =
        M.get_uint-big_endian 2 w.partition_num b₁ (wire ((8, w.timestamp) ∷ []) rest) fits.0 v₁ in
      let (b₃, e₃, v₃) = M.get_uint-big_endian 8 w.timestamp b₂ rest fits.1 v₂ in
      (b₃, rw (e₁, e₂, e₃) refl, v₃)

  end_byte_small : (end : Bool) → (end_byte end < 256 ^ 1) × ((end_byte end == 1) ≡ end)
  end_byte_small true = (omega arith, refl)
  end_byte_small false = (omega arith, refl)

  pub get_stream_status-Reads :
      (st : StreamStatus)
      → st.timestamp < 2 ^ 64
      → Reads (get_stream_status M) (status_fields st) (arrived_status st)
  unfolding get_stream_status
  get_stream_status-Reads st fits b rest h =
      let (b₁, e₁, v₁) =
        M.get_uint-big_endian 1 3 b (wire ((1, end_byte st.end) ∷ (8, st.timestamp) ∷ []) rest)
          (omega arith) h in
      let (b₂, e₂, v₂) =
        M.get_uint-big_endian 1 (end_byte st.end) b₁ (wire ((8, st.timestamp) ∷ []) rest)
          (end_byte_small st.end).0 v₁ in
      let (b₃, e₃, v₃) = M.get_uint-big_endian 8 st.timestamp b₂ rest fits v₂ in
      (b₃, rw (e₁, e₂, e₃, (end_byte_small st.end).1) refl, v₃)

  pub get_barrier-Reads :
      (br : Barrier)
      → (br.partition_num < 2 ^ 16)
        × (br.checkpoint_id < 2 ^ 64)
        × (br.completed_checkpoint_id < 2 ^ 64)
      → Reads (get_barrier M) (barrier_fields br) br
  unfolding get_barrier
  get_barrier-Reads br fits b rest h =
      let (b₁, e₁, v₁) =
        M.get_uint-big_endian 1 4 b
          (wire
            ((2, br.partition_num) ∷ (8, br.checkpoint_id) ∷ (8, br.completed_checkpoint_id) ∷ [])
            rest)
          (omega arith) h in
      let (b₂, e₂, v₂) =
        M.get_uint-big_endian 2 br.partition_num b₁
          (wire ((8, br.checkpoint_id) ∷ (8, br.completed_checkpoint_id) ∷ []) rest) fits.0 v₁ in
      let (b₃, e₃, v₃) =
        M.get_uint-big_endian 8 br.checkpoint_id b₂
          (wire ((8, br.completed_checkpoint_id) ∷ []) rest) fits.1 v₂ in
      let (b₄, e₄, v₄) = M.get_uint-big_endian 8 br.completed_checkpoint_id b₃ rest fits.2 v₃ in
      (b₄, rw (e₁, e₂, e₃, e₄) refl, v₄)

  pub put_watermark-Writes : (w : Watermark) → Writes M (put_watermark M w) (watermark_fields w)
  unfolding put_watermark
  put_watermark-Writes w =
      Writes-then M (λ b. M.put_uint 2 w.partition_num (M.put_uint 1 2 b))
        (M.put_uint 8 w.timestamp) ((1, 2) ∷ (2, w.partition_num) ∷ []) ((8, w.timestamp) ∷ [])
        (Writes-then M (M.put_uint 1 2) (M.put_uint 2 w.partition_num) ((1, 2) ∷ [])
          ((2, w.partition_num) ∷ []) (put_uint-Writes M 1 2) (put_uint-Writes M 2 w.partition_num))
        (put_uint-Writes M 8 w.timestamp)

  pub put_stream_status-Writes :
      (st : StreamStatus) → Writes M (put_stream_status M st) (status_fields st)
  unfolding put_stream_status
  put_stream_status-Writes st =
      Writes-then M (λ b. M.put_uint 1 (end_byte st.end) (M.put_uint 1 3 b))
        (M.put_uint 8 st.timestamp) ((1, 3) ∷ (1, end_byte st.end) ∷ []) ((8, st.timestamp) ∷ [])
        (Writes-then M (M.put_uint 1 3) (M.put_uint 1 (end_byte st.end)) ((1, 3) ∷ [])
          ((1, end_byte st.end) ∷ []) (put_uint-Writes M 1 3)
          (put_uint-Writes M 1 (end_byte st.end)))
        (put_uint-Writes M 8 st.timestamp)

  pub put_barrier-Writes : (br : Barrier) → Writes M (put_barrier M br) (barrier_fields br)
  unfolding put_barrier
  put_barrier-Writes br =
      Writes-then M (λ b. M.put_uint 2 br.partition_num (M.put_uint 1 4 b))
        (λ b. M.put_uint 8 br.completed_checkpoint_id (M.put_uint 8 br.checkpoint_id b))
        ((1, 4) ∷ (2, br.partition_num) ∷ [])
        ((8, br.checkpoint_id) ∷ (8, br.completed_checkpoint_id) ∷ [])
        (Writes-then M (M.put_uint 1 4) (M.put_uint 2 br.partition_num) ((1, 4) ∷ [])
          ((2, br.partition_num) ∷ []) (put_uint-Writes M 1 4)
          (put_uint-Writes M 2 br.partition_num))
        (Writes-then M (M.put_uint 8 br.checkpoint_id) (M.put_uint 8 br.completed_checkpoint_id)
          ((8, br.checkpoint_id) ∷ []) ((8, br.completed_checkpoint_id) ∷ [])
          (put_uint-Writes M 8 br.checkpoint_id) (put_uint-Writes M 8 br.completed_checkpoint_id))

  module _ {B : Type 0} (len : B → ℕ) (as_slice : B → List ℕ) (buffer_from : List ℕ → B)
      (len_as_slice : (v : B) → length (as_slice v) ≡ len v) where
    abbrev ReadsAll : (M.Buf → Outcome WireError (Element B × M.Buf)) → Element B → Type 0
    ReadsAll read e =
        (b : M.Buf)
        → M.as_ref b ≡ wire (element_fields len e) (payload as_slice e)
        → (b' : M.Buf) × (read b ≡ ok (arrived as_slice buffer_from e, b')) × (M.as_ref b' ≡ [])

    pub get_record-Reads :
        (r : Record B)
        → Fits len (data_record r)
        → ReadsAll
            (λ b.
              as_element M len as_slice buffer_from data_record
                (get_record M len as_slice buffer_from b))
            (data_record r)
    unfolding get_record
    get_record-Reads r fits b h =
        let (b₁, e₁, v₁) =
          M.get_uint-big_endian 1 1 b
            (wire ((2, r.partition_num) ∷ (8, r.timestamp) ∷ (4, len r.values) ∷ [])
              (as_slice r.values))
            (omega arith) h in
        let (b₂, e₂, v₂) =
          M.get_uint-big_endian 2 r.partition_num b₁
            (wire ((8, r.timestamp) ∷ (4, len r.values) ∷ []) (as_slice r.values)) fits.0 v₁ in
        let (b₃, e₃, v₃) =
          M.get_uint-big_endian 8 r.timestamp b₂ (wire ((4, len r.values) ∷ []) (as_slice r.values))
            fits.1 v₂ in
        let (b₄, e₄, v₄) =
          M.get_uint-big_endian 4 (len r.values) b₃ (as_slice r.values) fits.2 v₃ in
        let (b₅, e₅, v₅) =
          M.split_to-append b₄ (as_slice r.values) [] (v₄ ∙ sym (append-nil (as_slice r.values))) in
        let full : (length (M.as_ref b₄) == len r.values) ≡ true =
          (==_iff (length (M.as_ref b₄)) (len r.values)).1 (ap length v₄ ∙ len_as_slice r.values) in
        let e₅' : M.split_to (len r.values) b₄ ≡ some (as_slice r.values, b₅) =
          ap (λ n. M.split_to n b₄) (sym (len_as_slice r.values)) ∙ e₅ in
        (b₅, rw (e₁, e₂, e₃, e₄, full, e₅') refl, v₅)
