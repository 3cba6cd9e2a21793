-- ===== src/Api/Decode/Records.antt =====
-- The loops of decodeProduceRequestWithSchema and decodeHeaders.
pub mod Parts
use kafka_rest_proxy_go.Common.{
  ℕ, suc, ◌+◌, Bool, true, false, not, Option, none, some, List, [], ◌∷◌, length, if◌then◌else◌,
}
use kafka_rest_proxy_go.Common.Int.{ℤ, pos, ltb_ℤ}
use kafka_rest_proxy_go.Common.Try.{Try, ok, err, ◌>>=◌, map_err}
use kafka_rest_proxy_go.Producer.{Bytes, Header, Record, len, size_bytes}
use kafka_rest_proxy_go.Api.Payload.{
  Codec, PayloadFormat, NullableRaw, binary_decode, decode_nullable_value,
}
use kafka_rest_proxy_go.Api.Decode.{
  RawHeader, RawRecord, RawProduceRequest, DecodeLimits, ProduceMetadata, with_defaults, PartError,
  of_value, registry_required, of_encoder, HeaderError, too_many_headers, header_key_required,
  header_value_required, header_too_large, header_value, RecordError, bad_base64, record_key,
  record_value, record_headers, key_too_large, negative_partition, record_too_large, DecodeError,
  missing_records, empty_records, invalid_json, too_many_records, of_record, Encode, schema_type,
  strategy_for,
}

abbrev pub is_empty : Bytes → Bool
is_empty [] = true
is_empty (c ∷ s) = false

unfoldable pub header_value_of :
    DecodeLimits → ℕ → RawHeader → Option Bytes → Try HeaderError Header
header_value_of limits i h v =
    if ltb_ℤ limits.max_header_bytes (pos (length h.key + len v))
    then err (header_too_large i)
    else ok (record { key = h.key; value = v })

-- The error of a key or value, as the loop reports it.
abbrev pub part_error :
    {X : Type 0} → (ℕ → PartError X → RecordError X) → ℕ → PartError X → RecordError X
part_error at i (of_value (binary_decode b)) = bad_base64 b
part_error at i e = at i e

module _ {X : Type 0} (codec : Codec) where
  -- The bytes of a key or value, and the schema id of its metadata.
  pub decode_part :
      Option (Encode X)
      → Bytes
      → Bool
      → NullableRaw
      → PayloadFormat
      → Option Bytes
      → Option ℤ
      → Bytes
      → Try (PartError X) (Option Bytes × Option ℤ)
  unfolding decode_nullable_value
  decode_part enc topic key v format none schema_id schema = do
    b ← map_err of_value (decode_nullable_value codec v format)
    ok (b, none)
  decode_part none topic key v format (some type_name) schema_id schema =
      err (registry_required format)
  decode_part (some encode) topic key v format (some type_name) schema_id schema = do
    encoded ← map_err of_encoder (
        encode topic key (record {
          type_name = type_name;
          subject = [];
          subject_name_strategy = strategy_for schema_id;
          schema_id = schema_id;
          schema_version = none;
          schema = schema;
          payload = v.raw;
          data_present = v.present;
        }))
    ok (encoded.0, encoded.1.schema_id)

  -- decodeV2NullableValue.
  unfoldable pub decode_v2_nullable_value :
      Option (Encode X)
      → Bytes
      → Bool
      → NullableRaw
      → PayloadFormat
      → Option ℤ
      → Bytes
      → Try (PartError X) (Option Bytes × Option ℤ)
  unfolding decode_part
  decode_v2_nullable_value enc topic key v format schema_id schema =
      decode_part enc topic key v format (schema_type format) schema_id schema

module _ (codec : Codec) where
  unfoldable pub decode_header :
      PayloadFormat → DecodeLimits → ℕ → RawHeader → Try HeaderError Header
  unfolding decode_nullable_value header_value_of
  decode_header format limits i h =
      if is_empty h.key
      then err (header_key_required i)
      else if not h.value.present
      then err (header_value_required i)
      else (map_err (header_value i) (decode_nullable_value codec h.value format)
          >>= header_value_of limits i h)

  unfoldable pub decode_header_list :
      PayloadFormat → DecodeLimits → ℕ → List RawHeader → Try HeaderError (List Header)
  unfolding decode_header
  decode_header_list format limits i [] = ok []
  decode_header_list format limits i (h ∷ hs) = do
    header ← decode_header format limits i h
    rest ← decode_header_list format limits (suc i) hs
    ok (header ∷ rest)

  -- decodeHeaders.
  unfoldable pub decode_headers :
      PayloadFormat → DecodeLimits → List RawHeader → Try HeaderError (List Header)
  unfolding decode_header_list
  decode_headers format limits [] = ok []
  decode_headers format limits (h ∷ hs) =
      if ltb_ℤ limits.max_headers (pos (length (h ∷ hs)))
      then err (too_many_headers (length (h ∷ hs)) limits.max_headers)
      else decode_header_list format limits 0 (h ∷ hs)

-- The partition of a record: the path's, if it has one.
abbrev pub chosen : Option ℤ → Option ℤ → Option ℤ
chosen none p = p
chosen (some q) p = some q

abbrev is_negative : Option ℤ → Bool
is_negative none = false
is_negative (some p) = ltb_ℤ p (pos 0)

-- The test of a record's own partition, made only where the path names none.
abbrev pub partition_refused : Option ℤ → Option ℤ → Bool
partition_refused none p = is_negative p
partition_refused (some q) p = false

-- The tests behind the three decodings of a record.
unfoldable pub check_record :
    {X : Type 0} → DecodeLimits → Option ℤ → ℕ → Option ℤ → Record → Try (RecordError X) Record
check_record limits path i own r =
    if ltb_ℤ limits.max_key_bytes (pos (len r.key))
    then err (key_too_large i)
    else if partition_refused path own
    then err (negative_partition i)
    else if ltb_ℤ limits.max_record_bytes (size_bytes r)
    then err (record_too_large i)
    else ok r

-- The first schema id that is there.
abbrev pub first_id : Option ℤ → Option ℤ → Option ℤ
first_id none b = b
first_id (some a) b = some a

-- The metadata behind a record: the ids that were there stay.
abbrev pub next_ids : ProduceMetadata → ProduceMetadata → ProduceMetadata
next_ids meta ids = record {
  key_schema_id = first_id meta.key_schema_id ids.key_schema_id;
  value_schema_id = first_id meta.value_schema_id ids.value_schema_id;
}

module _ {X : Type 0} (codec : Codec) (enc : Option (Encode X)) (topic : Bytes)
    (format : PayloadFormat) (limits : DecodeLimits) (path : Option ℤ)
    (req : RawProduceRequest) where
  -- One round of the loop: the record, and the schema ids of its key and value.
  unfoldable pub decode_record : ℕ → RawRecord → Try (RecordError X) (Record × ProduceMetadata)
  unfolding decode_v2_nullable_value decode_headers check_record
  decode_record i rr = do
    key ← map_err (part_error record_key i) (
        decode_v2_nullable_value codec enc topic true rr.key format req.key_schema_id
          req.key_schema)
    value ← map_err (part_error record_value i) (
        decode_v2_nullable_value codec enc topic false rr.value format req.value_schema_id
          req.value_schema)
    headers ← map_err (record_headers i) (decode_headers codec format limits rr.headers)
    r ← check_record limits path i rr.partition (record {
      topic = topic;
      key = key.0;
      value = value.0;
      headers = headers;
      partition = chosen path rr.partition;
    })
    ok (r, record { key_schema_id = key.1; value_schema_id = value.1 })

  unfoldable pub decode_records :
      ℕ → ProduceMetadata → List RawRecord → Try (RecordError X) (List Record × ProduceMetadata)
  unfolding decode_record
  decode_records i meta [] = ok ([], meta)
  decode_records i meta (rr ∷ rrs) = do
    first ← decode_record i rr
    rest ← decode_records (suc i) (next_ids meta first.1) rrs
    ok (first.0 ∷ rest.0, rest.1)

abbrev pub no_ids : ProduceMetadata
no_ids = record { key_schema_id = none; value_schema_id = none }

module _ {X : Type 0} (codec : Codec) (unmarshal : Bytes → Option RawProduceRequest) where
  unfoldable pub decode_list :
      Option (Encode X)
      → Bytes
      → PayloadFormat
      → DecodeLimits
      → Option ℤ
      → RawProduceRequest
      → Option (List RawRecord)
      → Try (DecodeError X) (List Record × ProduceMetadata)
  unfolding decode_records
  decode_list enc topic format limits path req none = err missing_records
  decode_list enc topic format limits path req (some []) = err empty_records
  decode_list enc topic format limits path req (some (rr ∷ rrs)) =
      if ltb_ℤ limits.max_records (pos (length (rr ∷ rrs)))
      then err (too_many_records (length (rr ∷ rrs)) limits.max_records)
      else map_err of_record
          (decode_records codec enc topic format limits path req 0 no_ids (rr ∷ rrs))

  unfoldable pub decode_request :
      Option (Encode X)
      → Bytes
      → PayloadFormat
      → DecodeLimits
      → Option ℤ
      → Option RawProduceRequest
      → Try (DecodeError X) (List Record × ProduceMetadata)
  unfolding decode_list
  decode_request enc topic format limits path none = err invalid_json
  decode_request enc topic format limits path (some req) =
      decode_list enc topic format limits path req req.records

  -- decodeProduceRequestWithSchema.
  unfoldable pub decode_produce_request :
      Option (Encode X)
      → Bytes
      → Bytes
      → PayloadFormat
      → DecodeLimits
      → Option ℤ
      → Try (DecodeError X) (List Record × ProduceMetadata)
  unfolding with_defaults decode_request
  decode_produce_request enc topic body format limits path =
      decode_request enc topic format (with_defaults limits) path (unmarshal body)
