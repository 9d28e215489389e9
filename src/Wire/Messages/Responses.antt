-- ===== src/Wire/Messages/Responses.antt =====
-- `ElementResponse` of rlink/src/pub_sub/network/mod.rs, written and read.
use rlink_rs.Prelude.{
  ℕ, ◌+◌, ◌%◌, ◌^◌, ◌<◌, ◌≡◌, refl, ap, ◌∙◌, true, List, [], ◌∷◌, ◌++◌, length, arith, ◌==◌,
  Outcome, ok, err, ==_iff, length-append,
}
use rlink_rs.Core.{Element}
use rlink_rs.Wire.Bytes.{
  BytesMut, Writes-then, put_uint-Writes, wire, length-wire, big_endian, length-big_endian,
}
use rlink_rs.Wire.{WireError, unknown_code, capacity}
use rlink_rs.Wire.Elements.{Fits, arrived, element_fields, payload}
use rlink_rs.Wire.RoundTrip.{serialize-wire, deserialize-wire, capacity-fields}
use rlink_rs.Wire.Messages.{
  ElementResponse, ResponseCode, unknown, code_ok, batch_finish, empty, no_service, code_value,
  code_from, response_ok, response_end, put_response, get_response, put_ok, put_end, by_code,
}

module _ (M : BytesMut) {B : Type 0} (len : B → ℕ) (as_slice : B → List ℕ)
    (buffer_from : List ℕ → B) (len_as_slice : (v : B) → length (as_slice v) ≡ len v) where
  -- A response with an element is written without a panic, and the element arrives, if its numbers fit
  -- their fields and the length of the body fits 32 bits.
  pub response_ok_round_trip :
      (e : Element B)
      → Fits len e
      → 1 + capacity len e < 2 ^ 32
      → (b : M.Buf) × (put_response M len as_slice buffer_from (response_ok e) ≡ ok b)
        × (length (M.as_ref b) ≡ 5 + capacity len e)
        × (get_response M len as_slice buffer_from b
            ≡ ok (response_ok (arrived as_slice buffer_from e)))
  unfolding put_response put_ok get_response by_code
  response_ok_round_trip e fits short =
      let n = (1 + capacity len e) % 2 ^ 32 in
      let exact : n ≡ 1 + capacity len e = omega (arith, short) in
      let start = M.put_uint 1 1 (M.put_uint 4 n (M.with_capacity (4 + (1 + capacity len e)))) in
      let opened =
        Writes-then M (M.put_uint 4 n) (M.put_uint 1 1) ((4, n) ∷ []) ((1, 1) ∷ [])
          (put_uint-Writes M 4 n) (put_uint-Writes M 1 1)
          (M.with_capacity (4 + (1 + capacity len e))) []
          (M.as_ref-with_capacity (4 + (1 + capacity len e))) in
      let (b, written, v) =
        serialize-wire M len as_slice buffer_from len_as_slice e start ((4, n) ∷ (1, 1) ∷ []) fits
          opened in
      let body = wire (element_fields len e) (payload as_slice e) in
      let body_size = capacity-fields M len as_slice buffer_from len_as_slice e in
      let size : length (M.as_ref b) ≡ 4 + (1 + capacity len e) =
        ap length v
        ∙ omega (
          arith,
          body_size,
          length-append (big_endian 4 n) (big_endian 1 1 ++ body),
          length-append (big_endian 1 1) body,
          length-big_endian 4 n,
          length-big_endian 1 1,
        ) in
      let (b₁, e₁, v₁) =
        M.get_uint-big_endian 4 n b (big_endian 1 1 ++ body) (omega (arith, exact, short)) v in
      let full : (length (M.as_ref b₁) == n) ≡ true = (==_iff (length (M.as_ref b₁)) n).1 (
        ap length v₁
        ∙ omega (
          arith,
          exact,
          body_size,
          length-append (big_endian 1 1) body,
          length-big_endian 1 1,
        )) in
      let (b₂, e₂, v₂) = M.get_uint-big_endian 1 1 b₁ body (omega arith) v₁ in
      let (b₃, e₃, v₃) = deserialize-wire M len as_slice buffer_from len_as_slice e b₂ fits v₂ in
      (
        b,
        rw written (rw ((==_iff (length (M.as_ref b)) (4 + (1 + capacity len e))).1 size) refl),
        omega (arith, size),
        rw (e₁, full, e₂) (rw e₃ refl),
      )

  -- What the other side makes of a response without an element
  abbrev pub end_result : ResponseCode → Outcome WireError (ElementResponse B)
  end_result unknown = err (unknown_code 0)
  end_result code_ok = ok (response_end code_ok)
  end_result batch_finish = ok (response_end batch_finish)
  end_result empty = ok (response_end empty)
  end_result no_service = ok (response_end no_service)

  -- The five bytes of a response without an element
  abbrev Ends : ResponseCode → Type 0
  Ends c =
      (b : M.Buf) × (put_response M len as_slice buffer_from (response_end c) ≡ ok b)
      × (get_response M len as_slice buffer_from b ≡ end_result c)

  put_end-lem :
      (c : ResponseCode)
      → code_value c < 256
      → (b : M.Buf) × (put_end M len as_slice buffer_from c ≡ ok b)
        × (b₂ : M.Buf) × (get_response M len as_slice buffer_from b
            ≡ by_code M len as_slice buffer_from (code_value c) (code_from (code_value c)) b₂)
  unfolding put_end get_response
  put_end-lem c small =
      let b = M.put_uint 1 (code_value c) (M.put_uint 4 1 (M.with_capacity 5)) in
      let v =
        Writes-then M (M.put_uint 4 1) (M.put_uint 1 (code_value c)) ((4, 1) ∷ [])
          ((1, code_value c) ∷ []) (put_uint-Writes M 4 1) (put_uint-Writes M 1 (code_value c))
          (M.with_capacity 5) [] (M.as_ref-with_capacity 5) in
      let (b₁, e₁, v₁) =
        M.get_uint-big_endian 4 1 b (wire ((1, code_value c) ∷ []) []) (omega arith) v in
      let (b₂, e₂, v₂) = M.get_uint-big_endian 1 (code_value c) b₁ [] small v₁ in
      (
        b,
        rw
            ((==_iff (length (M.as_ref b)) 5).1
              (ap length v ∙ length-wire ((4, 1) ∷ (1, code_value c) ∷ []) []))
            refl,
        b₂,
        rw
            (
              e₁,
              (==_iff (length (M.as_ref b₁)) 1).1
                  (ap length v₁ ∙ length-wire ((1, code_value c) ∷ []) []),
              e₂,
            )
            refl,
      )

  -- A response without an element and with another code than `Ok` is written without a panic and arrives;
  -- the code `Unknown` arrives as an error.
  pub response_end_round_trip : (c : ResponseCode) → (c ≡ code_ok → ⊥) → Ends c
  unfolding put_response by_code
  response_end_round_trip unknown h =
      let (b, w, b₂, r) = put_end-lem unknown (omega arith) in (b, w, r)
  response_end_round_trip code_ok h = absurd (h refl)
  response_end_round_trip batch_finish h =
      let (b, w, b₂, r) = put_end-lem batch_finish (omega arith) in (b, w, r)
  response_end_round_trip empty h = let (b, w, b₂, r) = put_end-lem empty (omega arith) in (b, w, r)
  response_end_round_trip no_service h =
      let (b, w, b₂, r) = put_end-lem no_service (omega arith) in (b, w, r)
