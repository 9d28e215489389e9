-- ===== src/Wire/Tests.antt =====
-- A byte buffer that is a list, and witnesses of the round trips over it.
use rlink_rs.Prelude.{
  ℕ, zero, suc, ◌+◌, ◌^◌, ◌<◌, ◌≡◌, refl, ap, sym, ◌∙◌, Option, none, some, List, [], ◌∷◌, ◌++◌,
  length, arith, ok,
}
use rlink_rs.Core.{Element, data_record, default_channel_key, time_window}
use rlink_rs.Wire.Bytes.{number, number-big_endian, BytesMut, big_endian, length-big_endian}
use rlink_rs.Wire.{capacity, serialize, deserialize}
use rlink_rs.Wire.Elements.{arrived}
use rlink_rs.Wire.RoundTrip.{serde_round_trip}
use rlink_rs.Wire.Messages.{ElementRequest, put_response, get_response, response_ok}
use rlink_rs.Wire.Messages.Responses.{response_ok_round_trip}

-- Two parts of a list, the first as long as the number
abbrev split : ℕ → List ℕ → Option (List ℕ × List ℕ)
split zero xs = some ([], xs)
split (suc n) [] = none
split (suc n) (x ∷ xs) = elim (split n xs) [
  | none ↦ none
  | some (front, back) ↦ some (x ∷ front, back)
]

split-append : (xs ys : List ℕ) → split (length xs) (xs ++ ys) ≡ some (xs, ys)
split-append [] ys = refl
split-append (x ∷ xs) ys = rw (split-append xs ys) refl

abbrev numbered : Option (List ℕ × List ℕ) → Option (ℕ × List ℕ)
numbered none = none
numbered (some (front, back)) = some (number 0 front, back)

abbrev get_number : ℕ → List ℕ → Option (ℕ × List ℕ)
get_number width xs = numbered (split width xs)

split-big_endian :
    (width x : ℕ) (rest : List ℕ)
    → split width (big_endian width x ++ rest) ≡ some (big_endian width x, rest)
split-big_endian width x rest =
    ap (λ n. split n (big_endian width x ++ rest)) (sym (length-big_endian width x))
    ∙ split-append (big_endian width x) rest

get_number-big_endian :
    (width x : ℕ) (rest : List ℕ)
    → x < 256 ^ width
    → get_number width (big_endian width x ++ rest) ≡ some (x, rest)
get_number-big_endian width x rest h =
    ap numbered (split-big_endian width x rest)
    ∙ ap (λ n. some (n, rest)) (number-big_endian width x h)

abbrev list_buffer : BytesMut
list_buffer = record {
  Buf = List ℕ;
  as_ref = λ b. b;
  with_capacity = λ n. [];
  put_uint = λ width x b. b ++ big_endian width x;
  put_slice = λ xs b. b ++ xs;
  get_uint = get_number;
  split_to = split;
  as_ref-with_capacity = λ n. refl;
  as_ref-put_uint = λ width x b. refl;
  as_ref-put_slice = λ xs b. refl;
  get_uint-big_endian = λ width x b rest h e.
      (rest, ap (get_number width) e ∙ get_number-big_endian width x rest h, refl);
  split_to-append = λ b xs rest e. (rest, ap (split (length xs)) e ∙ split-append xs rest, refl);
}

abbrev same : List ℕ → List ℕ
same xs = xs

abbrev some_record : Element (List ℕ)
some_record = data_record (record {
  partition_num = 2;
  timestamp = 3;
  channel_key = default_channel_key;
  location_windows = some (time_window (record { start = 0; end = 10 }) ∷ []);
  trigger_window = none;
  values = 10 ∷ 20 ∷ 30 ∷ [];
})

abbrev request : ElementRequest
request = record { channel_key = default_channel_key; batch_pull_size = 6000; batch_id = 7 }

-- The bytes of a record: its tag, its partition, its time, its length and its values
serialize_record :
    serialize list_buffer length same same some_record []
    ≡ ok (1 ∷ 0 ∷ 2 ∷ 0 ∷ 0 ∷ 0 ∷ 0 ∷ 0 ∷ 0 ∷ 0 ∷ 3 ∷ 0 ∷ 0 ∷ 0 ∷ 3 ∷ 10 ∷ 20 ∷ 30 ∷ [])
unfolding serialize big_endian
serialize_record = refl

serde_round_trip_example :
    (b : List ℕ) × (b' : List ℕ) × (serialize list_buffer length same same some_record [] ≡ ok b)
    × (length b ≡ capacity length some_record)
    × (deserialize list_buffer length same same b ≡ ok (arrived same same some_record, b'))
    × (b' ≡ [])
serde_round_trip_example =
    serde_round_trip list_buffer length same same (λ v. refl) some_record 18
      (omega arith, omega arith, omega arith)

record_short : 1 + capacity length some_record < 2 ^ 32
unfolding capacity
record_short = omega arith

response_ok_round_trip_example :
    (b : List ℕ) × (put_response list_buffer length same same (response_ok some_record) ≡ ok b)
    × (length b ≡ 5 + capacity length some_record)
    × (get_response list_buffer length same same b
        ≡ ok (response_ok (arrived same same some_record)))
response_ok_round_trip_example =
    response_ok_round_trip list_buffer length same same (λ v. refl) some_record
      (omega arith, omega arith, omega arith) record_short
