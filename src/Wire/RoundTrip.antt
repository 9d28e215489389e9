-- ===== src/Wire/RoundTrip.antt =====
-- `to_bytes` and `deserialize` of `Element`, one after the other, and `capacity`.
use rlink_rs.Prelude.{
  ℕ, ◌%◌, ◌^◌, ◌≡◌, refl, ap, ◌∙◌, true, List, [], ◌∷◌, ◌++◌, length, arith, ◌==◌, ok, ==_iff,
}
use rlink_rs.Core.{Record, Element, data_record, watermark, stream_status, barrier}
use rlink_rs.Wire.Bytes.{
  BytesMut, Writes, Writes-then, put_uint-Writes, big_endian, wire, length-wire, put_slice-wire,
}
use rlink_rs.Wire.{capacity, put_record, serialize, deserialize, by_tag}
use rlink_rs.Wire.Elements.{
  Fits, watermark_fields, status_fields, barrier_fields, arrived, element_fields, payload,
  get_record-Reads, get_watermark-Reads, get_stream_status-Reads, get_barrier-Reads,
  put_watermark-Writes, put_stream_status-Writes, put_barrier-Writes,
}

module _ (M : BytesMut) {B : Type 0} (len : B → ℕ) (as_slice : B → List ℕ)
    (buffer_from : List ℕ → B) (len_as_slice : (v : B) → length (as_slice v) ≡ len v) where
  header-Writes :
      (r : Record B)
      → Writes M
          (λ b.
            M.put_uint 4
              (len r.values % 2 ^ 32)
              (M.put_uint 8 r.timestamp (M.put_uint 2 r.partition_num (M.put_uint 1 1 b))))
          ((1, 1) ∷ (2, r.partition_num) ∷ (8, r.timestamp) ∷ (4, len r.values % 2 ^ 32) ∷ [])
  header-Writes r =
      Writes-then M (λ b. M.put_uint 2 r.partition_num (M.put_uint 1 1 b))
        (λ b. M.put_uint 4 (len r.values % 2 ^ 32) (M.put_uint 8 r.timestamp b))
        ((1, 1) ∷ (2, r.partition_num) ∷ []) ((8, r.timestamp) ∷ (4, len r.values % 2 ^ 32) ∷ [])
        (Writes-then M (M.put_uint 1 1) (M.put_uint 2 r.partition_num) ((1, 1) ∷ [])
          ((2, r.partition_num) ∷ []) (put_uint-Writes M 1 1) (put_uint-Writes M 2 r.partition_num))
        (Writes-then M (M.put_uint 8 r.timestamp) (M.put_uint 4 (len r.values % 2 ^ 32))
          ((8, r.timestamp) ∷ []) ((4, len r.values % 2 ^ 32) ∷ [])
          (put_uint-Writes M 8 r.timestamp) (put_uint-Writes M 4 (len r.values % 2 ^ 32)))

  -- A writer of an element puts its fields and its values behind what is there.
  pub serialize-wire :
      (e : Element B) (b : M.Buf) (before : List (ℕ × ℕ))
      → Fits len e
      → M.as_ref b ≡ wire before []
      → (b' : M.Buf) × (serialize M len as_slice buffer_from e b ≡ ok b')
        × (M.as_ref b' ≡ wire (before ++ element_fields len e) (payload as_slice e))
  unfolding serialize put_record
  serialize-wire (data_record r) b before fits h =
      let header =
        M.put_uint 4 (len r.values % 2 ^ 32)
          (M.put_uint 8 r.timestamp (M.put_uint 2 r.partition_num (M.put_uint 1 1 b))) in
      let whole : (length (as_slice r.values) == len r.values) ≡ true =
        (==_iff (length (as_slice r.values)) (len r.values)).1 (len_as_slice r.values) in
      let small : len r.values % 2 ^ 32 ≡ len r.values = omega (arith, fits.2) in
      (
        M.put_slice (as_slice r.values) header,
        rw whole refl,
        put_slice-wire M header
            (before ++ (1, 1) ∷ (2, r.partition_num) ∷ (8, r.timestamp) ∷ (4, len r.values) ∷ [])
            (as_slice r.values)
            (header-Writes r b before h
              ∙ ap
                  (λ n.
                    wire (before ++ (1, 1) ∷ (2, r.partition_num) ∷ (8, r.timestamp) ∷ (4, n) ∷ [])
                      [])
                  small),
      )
  serialize-wire (watermark w) b before fits h = (_, refl, put_watermark-Writes M w b before h)
  serialize-wire (stream_status st) b before fits h =
      (_, refl, put_stream_status-Writes M st b before h)
  serialize-wire (barrier br) b before fits h = (_, refl, put_barrier-Writes M br b before h)

  -- A reader of an element alone takes all of it.
  pub deserialize-wire :
      (e : Element B) (b : M.Buf)
      → Fits len e
      → M.as_ref b ≡ wire (element_fields len e) (payload as_slice e)
      → (b' : M.Buf) × (deserialize M len as_slice buffer_from b
          ≡ ok (arrived as_slice buffer_from e, b'))
        × (M.as_ref b' ≡ [])
  unfolding deserialize big_endian by_tag
  deserialize-wire (data_record r) b fits h =
      let (b', e, v) = get_record-Reads M len as_slice buffer_from len_as_slice r fits b h in
      (b', rw (deserialize, h) e, v)
  deserialize-wire (watermark w) b fits h =
      let (b', e, v) = get_watermark-Reads M w fits b [] h in
      (b', rw (deserialize, h) (rw e refl), v)
  deserialize-wire (stream_status st) b fits h =
      let (b', e, v) = get_stream_status-Reads M st fits b [] h in
      (b', rw (deserialize, h) (rw e refl), v)
  deserialize-wire (barrier br) b fits h =
      let (b', e, v) = get_barrier-Reads M br fits b [] h in
      (b', rw (deserialize, h) (rw e refl), v)

  pub capacity-fields :
      (e : Element B) → length (wire (element_fields len e) (payload as_slice e)) ≡ capacity len e
  unfolding capacity
  capacity-fields (data_record r) = omega (
    arith,
    length-wire (element_fields len (data_record r)) (as_slice r.values),
    len_as_slice r.values,
  )
  capacity-fields (watermark w) = length-wire (watermark_fields w) []
  capacity-fields (stream_status st) = length-wire (status_fields st) []
  capacity-fields (barrier br) = length-wire (barrier_fields br) []

  -- `to_bytes` does not panic on an element whose numbers fit their fields; it writes `capacity` bytes, and
  -- `deserialize` reads from them what is sent of the element, and nothing is left.
  pub serde_round_trip :
      (e : Element B) (n : ℕ)
      → Fits len e
      → (b : M.Buf) × (b' : M.Buf) × (serialize M len as_slice buffer_from e (M.with_capacity n)
          ≡ ok b)
        × (length (M.as_ref b) ≡ capacity len e)
        × (deserialize M len as_slice buffer_from b ≡ ok (arrived as_slice buffer_from e, b'))
        × (M.as_ref b' ≡ [])
  serde_round_trip e n fits =
      let (b, written, v) =
        serialize-wire e (M.with_capacity n) [] fits (M.as_ref-with_capacity n) in
      let (b', read, v') = deserialize-wire e b fits v in
      (b, b', written, ap length v ∙ capacity-fields e, read, v')
