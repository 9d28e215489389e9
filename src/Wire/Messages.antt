-- ===== src/Wire/Messages.antt =====
-- The requests and responses of rlink/src/pub_sub/network/mod.rs.
pub mod RoundTrip
pub mod Responses
use rlink_rs.Prelude.{
  ℕ, ◌+◌, ◌^◌, ◌%◌, Bool, true, false, not, Option, none, some, List, [], ◌∷◌, length, ◌==◌,
  if◌then◌else◌, Outcome, ok, err, panic, ◌>>=◌, unwrap,
}
use rlink_rs.Core.{ChannelKey, Element}
use rlink_rs.Wire.Bytes.{BytesMut}
use rlink_rs.Wire.{
  WireError, illegal_length, unknown_code, assert, get, capacity, put_channel_key, get_channel_key,
  serialize, deserialize,
}

-- `HEADER_LEN` and `REQUEST_BODY_LEN`
abbrev pub header_len : ℕ
header_len = 4

abbrev pub request_body_len : ℕ
request_body_len = 20

pub record ElementRequest : Type 0 where
  pub channel_key : ChannelKey
  pub batch_pull_size : ℕ
  pub batch_id : ℕ

pub data ResponseCode : Type 0 where
  unknown code_ok batch_finish empty no_service : ResponseCode

-- `code as u8` and `ResponseCode::from`
abbrev pub code_value : ResponseCode → ℕ
code_value unknown = 0
code_value code_ok = 1
code_value batch_finish = 2
code_value empty = 3
code_value no_service = 4

abbrev pub code_from : ℕ → ResponseCode
code_from v =
    if v == 1
    then code_ok
    else if v == 2
    then batch_finish
    else if v == 3
    then empty
    else if v == 4
    then no_service
    else unknown

pub record ElementResponse (B : Type 0) : Type 0 where
  pub code : ResponseCode
  pub element : Option (Element B)

-- `ElementResponse::ok` and `ElementResponse::end`
abbrev pub response_ok : {B : Type 0} → Element B → ElementResponse B
response_ok e = record { code = code_ok; element = some e }

abbrev pub response_end : {B : Type 0} → ResponseCode → ElementResponse B
response_end code = record { code = code; element = none }

module _ (M : BytesMut) where
  -- `Into<BytesMut>` of `ElementRequest`, with its assert
  unfoldable pub put_request : ElementRequest → Outcome WireError M.Buf
  unfolding put_channel_key
  put_request q =
      let b = M.put_uint 2 q.batch_id (
        M.put_uint 2 q.batch_pull_size (
          put_channel_key M q.channel_key
            (M.put_uint 4 request_body_len (M.with_capacity (header_len + request_body_len))))) in
      assert (length (M.as_ref b) == header_len + request_body_len) (ok b)

  -- `TryFrom<BytesMut>` of `ElementRequest`
  unfoldable pub get_request : M.Buf → Outcome WireError ElementRequest
  unfolding get_channel_key
  get_request b = get M 4 b >>= λ (body_len, b). assert (length (M.as_ref b) == body_len) (
      if not (body_len == request_body_len)
      then err (illegal_length body_len)
      else get_channel_key M b >>= λ (channel_key, b). get M 2 b >>= λ (batch_pull_size, b).
          get M 2 b >>= λ (batch_id, b). ok (record {
            channel_key = channel_key;
            batch_pull_size = batch_pull_size;
            batch_id = batch_id;
          }))

  module _ {B : Type 0} (len : B → ℕ) (as_slice : B → List ℕ) (buffer_from : List ℕ → B) where
    -- `Into<BytesMut>` of `ElementResponse`, on the code `Ok` and on another
    unfoldable pub put_ok : Option (Element B) → Outcome WireError M.Buf
    unfolding capacity serialize
    put_ok element = unwrap element >>= λ e.
        serialize M len as_slice buffer_from e (
          M.put_uint 1 (code_value code_ok) (
            M.put_uint 4 ((1 + capacity len e) % 2 ^ 32)
              (M.with_capacity (header_len + (1 + capacity len e)))))
        >>= λ b. assert (length (M.as_ref b) == header_len + (1 + capacity len e)) (ok b)

    unfoldable pub put_end : ResponseCode → Outcome WireError M.Buf
    put_end code =
        let b =
          M.put_uint 1 (code_value code) (M.put_uint 4 1 (M.with_capacity (header_len + 1))) in
        assert (length (M.as_ref b) == header_len + 1) (ok b)

    unfoldable pub put_response : ElementResponse B → Outcome WireError M.Buf
    unfolding put_ok put_end
    put_response r = elim r.code [
      | code_ok ↦ put_ok r.element
      | unknown ↦ put_end unknown
      | batch_finish ↦ put_end batch_finish
      | empty ↦ put_end empty
      | no_service ↦ put_end no_service
    ]

    -- What follows the code in `TryFrom<BytesMut>`
    unfoldable pub by_code : ℕ → ResponseCode → M.Buf → Outcome WireError (ElementResponse B)
    unfolding deserialize
    by_code value unknown b = err (unknown_code value)
    by_code value code_ok b = deserialize M len as_slice buffer_from b >>= λ (e, b).
        ok (record { code = code_ok; element = some e })
    by_code value batch_finish b = ok (record { code = batch_finish; element = none })
    by_code value empty b = ok (record { code = empty; element = none })
    by_code value no_service b = ok (record { code = no_service; element = none })

    -- `TryFrom<BytesMut>` of `ElementResponse`
    unfoldable pub get_response : M.Buf → Outcome WireError (ElementResponse B)
    unfolding by_code
    get_response b = get M 4 b >>= λ (body_len, b).
        assert (length (M.as_ref b) == body_len)
          (get M 1 b >>= λ (value, b). by_code value (code_from value) b)
