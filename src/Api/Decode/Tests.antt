-- ===== src/Api/Decode/Tests.antt =====
-- Tests and instances for the decoding of v2 requests.
use kafka_rest_proxy_go.Common.{
  ℕ, ◌+◌, ◌≡◌, refl, true, false, Option, none, some, List, [], ◌∷◌, ◌++◌, length,
}
use kafka_rest_proxy_go.Common.Int.{ℤ, pos, negsuc, add64}
use kafka_rest_proxy_go.Common.Try.{ok, err}
use kafka_rest_proxy_go.Producer.{Bytes, Record, size_bytes}
use kafka_rest_proxy_go.Go.Strings.{bytes}
use kafka_rest_proxy_go.Api.Payload.{Codec, NullableRaw, format_json, format_binary, format_avro}
use kafka_rest_proxy_go.Api.Decode.{
  RawRecord, RawProduceRequest, DecodeLimits, with_defaults, Encode, missing_records, empty_records,
  of_record, negative_partition, bad_base64, registry_required, record_key,
}
use kafka_rest_proxy_go.Api.Decode.Records.{
  no_ids, decode_record, decode_records, decode_produce_request,
}
use kafka_rest_proxy_go.Api.Decode.Accepted.{Decoded, decode-Accepted}
use kafka_rest_proxy_go.Api.Decode.Order.{Decodes, decode_records_first_error}

abbrev lax : Codec
lax = record { json_valid = λ _. true; json_string = some; base64_decode = λ _. none }

abbrev given : Bytes → NullableRaw
given raw = record { present = true; raw = raw }

abbrev absent : NullableRaw
absent = record { present = false; raw = [] }

abbrev raw_record : Option ℤ → RawRecord
raw_record p = record {
  key = absent;
  value = given (bytes "{\"a\": 1}");
  partition = p;
  headers = record { key = bytes "h"; value = given (bytes "2") } ∷ [];
}

abbrev request : Option (List RawRecord) → RawProduceRequest
request rs = record {
  key_schema_id = none;
  key_schema = [];
  value_schema_id = none;
  value_schema = [];
  records = rs;
}

-- Three records at most, and the defaults for the rest.
abbrev few : DecodeLimits
few = record {
  max_records = pos 3;
  max_record_bytes = pos 0;
  max_key_bytes = pos 0;
  max_headers = pos 0;
  max_header_bytes = negsuc 4;
}

abbrev no_encoder : Option (Encode ℕ)
no_encoder = none

abbrev body_of : Option (List RawRecord) → Bytes → Option RawProduceRequest
body_of rs _ = some (request rs)

abbrev decoded : Option ℤ → Record
decoded p = record {
  topic = bytes "t";
  key = none;
  value = some (bytes "{\"a\":1}");
  headers = record { key = bytes "h"; value = some (bytes "2") } ∷ [];
  partition = p;
}

two_records :
    decode_produce_request lax
      (body_of (some (raw_record none ∷ raw_record (some (pos 2)) ∷ [])))
      no_encoder
      (bytes "t")
      []
      format_json
      few
      none
    ≡ ok (decoded none ∷ decoded (some (pos 2)) ∷ [], no_ids)
unfolding decode_produce_request add64 size_bytes
two_records = refl

path_partition :
    decode_produce_request lax
      (body_of (some (raw_record (some (negsuc 2)) ∷ [])))
      no_encoder
      (bytes "t")
      []
      format_json
      few
      (some (pos 5))
    ≡ ok (decoded (some (pos 5)) ∷ [], no_ids)
unfolding decode_produce_request add64 size_bytes
path_partition = refl

refusals :
    (decode_produce_request lax (body_of none) no_encoder (bytes "t") [] format_json few none
      ≡ err missing_records)
    × (decode_produce_request lax (body_of (some [])) no_encoder (bytes "t") [] format_json few none
        ≡ err empty_records)
    × (decode_produce_request lax
          (body_of (some (raw_record none ∷ raw_record (some (negsuc 0)) ∷ [])))
          no_encoder
          (bytes "t")
          []
          format_json
          few
          none
        ≡ err (of_record (negative_partition 1)))
    × (decode_produce_request lax
          (body_of (some (raw_record none ∷ [])))
          no_encoder
          (bytes "t")
          []
          format_avro
          few
          none
        ≡ err (of_record (record_key 0 (registry_required format_avro))))
    × (decode_produce_request lax
          (body_of (some (raw_record none ∷ [])))
          no_encoder
          (bytes "t")
          []
          format_binary
          few
          none
        ≡ err (of_record (bad_base64 (bytes "{\"a\": 1}"))))
unfolding decode_produce_request add64 size_bytes
refusals = (refl, refl, refl, refl, refl)

decode-Accepted_example :
    Decoded lax
      (body_of (some (raw_record none ∷ raw_record (some (pos 2)) ∷ [])))
      no_encoder
      (bytes "t")
      []
      format_json
      few
      none
      (decoded none ∷ decoded (some (pos 2)) ∷ [])
      no_ids
decode-Accepted_example =
    decode-Accepted lax (body_of (some (raw_record none ∷ raw_record (some (pos 2)) ∷ [])))
      no_encoder (bytes "t") [] format_json few none _ no_ids two_records

abbrev bad_second : List RawRecord
bad_second = raw_record none ∷ raw_record (some (negsuc 0)) ∷ raw_record none ∷ []

second_fails :
    decode_records lax no_encoder
      (bytes "t")
      format_json
      (with_defaults few)
      none
      (request none)
      0
      no_ids
      bad_second
    ≡ err (negative_partition 1)
unfolding decode_records with_defaults add64 size_bytes
second_fails = refl

decode_records_first_error_example :
    (before : List RawRecord) × (raw : RawRecord) × (after : List RawRecord) × (bad_second
      ≡ before ++ raw ∷ after)
    × Decodes lax no_encoder
        (bytes "t")
        format_json
        (with_defaults few)
        none
        (request none)
        0
        before
    × (decode_record lax no_encoder
          (bytes "t")
          format_json
          (with_defaults few)
          none
          (request none)
          (0 + length before)
          raw
        ≡ err (negative_partition 1))
decode_records_first_error_example =
    decode_records_first_error lax no_encoder (bytes "t") format_json (with_defaults few) none
      (request none) 0 no_ids bad_second (negative_partition 1) second_fails
