-- ===== src/Api/Decode.antt =====
-- decodeProduceRequestWithSchema of internal/api/types.go: from the body of a v2 request to records.
-- json.Unmarshal is a parameter, and so is the schema encoder, an interface of the source that may
-- be nil. `X` stands for the encoder's errors, and the text of a message for its data.
pub mod Records
pub mod Accepted
pub mod Order
mod Tests
use kafka_rest_proxy_go.Common.{
  ℕ, zero, suc, ◌+◌, Bool, true, false, not, ◌&&◌, Option, none, some, List, [], ◌∷◌, ◌++◌, length,
  if◌then◌else◌, ltb,
}
use kafka_rest_proxy_go.Common.Int.{ℤ, pos, negsuc, ltb_ℤ}
use kafka_rest_proxy_go.Common.Try.{Try, ok, err, ◌>>=◌, map_err}
use kafka_rest_proxy_go.Producer.{Bytes, Header, Record, len, size_bytes}
use kafka_rest_proxy_go.Go.Strings.{bytes}
use kafka_rest_proxy_go.Schema.{RequestData, Metadata}
use kafka_rest_proxy_go.Api.Payload.{
  Codec, PayloadFormat, format_json, format_binary, format_avro, format_protobuf,
  format_json_schema, NullableRaw, ValueError, binary_decode, decode_nullable_value,
}

pub record RawHeader : Type 0 where
  pub key : Bytes
  pub value : NullableRaw

pub record RawRecord : Type 0 where
  pub key : NullableRaw
  pub value : NullableRaw
  pub partition : Option ℤ
  pub headers : List RawHeader

-- A nil slice of records is `none`.
pub record RawProduceRequest : Type 0 where
  pub key_schema_id : Option ℤ
  pub key_schema : Bytes
  pub value_schema_id : Option ℤ
  pub value_schema : Bytes
  pub records : Option (List RawRecord)

pub record DecodeLimits : Type 0 where
  pub max_records : ℤ
  pub max_record_bytes : ℤ
  pub max_key_bytes : ℤ
  pub max_headers : ℤ
  pub max_header_bytes : ℤ

pub record ProduceMetadata : Type 0 where
  pub key_schema_id : Option ℤ
  pub value_schema_id : Option ℤ

abbrev pub positive_or : ℤ → ℤ → ℤ
positive_or n d = if ltb_ℤ (pos 0) n then n else d

unfoldable pub with_defaults : DecodeLimits → DecodeLimits
with_defaults l = record {
  max_records = positive_or l.max_records (pos 1000);
  max_record_bytes = positive_or l.max_record_bytes (pos 1048576);
  max_key_bytes = positive_or l.max_key_bytes (pos 1048576);
  max_headers = positive_or l.max_headers (pos 64);
  max_header_bytes = positive_or l.max_header_bytes (pos 65536);
}

-- Errors of a key or value.
pub data PartError (X : Type 0) : Type 0 where
  of_value : ValueError → PartError X
  registry_required : PayloadFormat → PartError X
  of_encoder : X → PartError X

-- Errors of the headers of a record, with the header's index.
pub data HeaderError : Type 0 where
  too_many_headers : ℕ → ℤ → HeaderError
  header_key_required header_value_required header_too_large : ℕ → HeaderError
  header_value : ℕ → ValueError → HeaderError

-- Errors of one record, with its index.
pub data RecordError (X : Type 0) : Type 0 where
  bad_base64 : Bytes → RecordError X
  record_key record_value : ℕ → PartError X → RecordError X
  record_headers : ℕ → HeaderError → RecordError X
  key_too_large negative_partition record_too_large : ℕ → RecordError X

-- `unprocessableError` for the two first, `validationError` for the others.
pub data DecodeError (X : Type 0) : Type 0 where
  missing_records empty_records : DecodeError X
  invalid_json : DecodeError X
  too_many_records : ℕ → ℤ → DecodeError X
  of_record : RecordError X → DecodeError X

-- The method `Encode` of the interface, on a topic, whether the data is a key, and the data.
abbrev pub Encode : Type 0 → Type 0
Encode X = Bytes → Bool → RequestData → Try X (Option Bytes × Metadata)

abbrev pub schema_type : PayloadFormat → Option Bytes
schema_type format_avro = some (bytes "AVRO")
schema_type format_protobuf = some (bytes "PROTOBUF")
schema_type format_json_schema = some (bytes "JSONSCHEMA")
schema_type _ = none

abbrev pub strategy_for : Option ℤ → Bytes
strategy_for none = []
strategy_for (some id) = bytes "TOPIC_NAME"
