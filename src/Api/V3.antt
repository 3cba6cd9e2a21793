-- ===== src/Api/V3.antt =====
-- internal/api/v3.go: the v3 API, from an envelope to a record, and from a result to a response. The
-- time of a record is read and not used, so it is left out.
pub mod Within
pub mod Responses
pub mod BatchBody
pub mod Produce
pub mod Stream
use kafka_rest_proxy_go.Common.{
  ℕ, suc, ◌+◌, Bool, true, false, not, ◌&&◌, Option, none, some, List, [], ◌∷◌, length,
  if◌then◌else◌,
}
use kafka_rest_proxy_go.Common.Int.{ℤ, pos, ltb_ℤ}
use kafka_rest_proxy_go.Common.Try.{Try, ok, err, ◌>>=◌, map_err, require, found}
use kafka_rest_proxy_go.Producer.{Bytes, Header, Record, len, size_bytes}
use kafka_rest_proxy_go.Schema.{RequestData, Metadata, is_schema_aware}
use kafka_rest_proxy_go.Schema.Encoder.{Languages, Registry, EncodeError, encode, no_metadata}
use kafka_rest_proxy_go.Api.Payload.{Codec}
use kafka_rest_proxy_go.Api.Decode.{DecodeLimits}

pub record V3ProduceHeader : Type 0 where
  pub name : Bytes
  pub value : Option Bytes

pub record V3ProduceRecord : Type 0 where
  pub partition_id : Option ℤ
  pub headers : List V3ProduceHeader
  pub key : Option RequestData
  pub value : Option RequestData

pub record V3RecordEnvelope : Type 0 where
  pub id : Bytes
  pub produced_record : Record
  pub key : Metadata
  pub value : Metadata

pub data DataError (X : Type 0) : Type 0 where
  schema_registry_required : DataError X
  of_encode : EncodeError X → DataError X

-- With the index of the header.
pub data V3HeaderError : Type 0 where
  too_many_headers : ℕ → ℤ → V3HeaderError
  name_required value_not_base64 header_too_large : ℕ → V3HeaderError

pub data EnvelopeError (X : Type 0) : Type 0 where
  key_failed value_failed : DataError X → EnvelopeError X
  key_too_large negative_partition record_too_large : EnvelopeError X
  headers_failed : V3HeaderError → EnvelopeError X

abbrev pub is_empty : Bytes → Bool
is_empty [] = true
is_empty (c ∷ s) = false

abbrev pub is_none {ℓ} : {A : Type ℓ} → Option A → Bool
is_none none = true
is_none (some a) = false

abbrev pub registry_in {ℓ} : {A : Type ℓ} → Option (Option A) → Option A
registry_in none = none
registry_in (some r) = r

abbrev pub is_negative : Option ℤ → Bool
is_negative none = false
is_negative (some p) = ltb_ℤ p (pos 0)

module _ {X : Type 0} (codec : Codec) (languages : Languages X) where
  -- encodeV3Data; an encoder that is absent is made without a registry.
  unfoldable pub encode_v3_data :
      Bytes
      → Bool
      → Option RequestData
      → Option (Option (Registry X))
      → Try (DataError X) (Option Bytes × Metadata)
  unfolding encode is_schema_aware
  encode_v3_data topic key none enc = ok (none, no_metadata)
  encode_v3_data topic key (some d) enc =
      if is_schema_aware d && is_none enc
      then err schema_registry_required
      else map_err of_encode (encode codec languages (registry_in enc) topic key (some d))

module _ (codec : Codec) where
  -- The value of a header, nil or in base64.
  abbrev pub header_bytes : ℕ → Option Bytes → Try V3HeaderError (Option Bytes)
  header_bytes i none = ok none
  header_bytes i (some text) = do
    b ← found (codec.base64_decode text) (value_not_base64 i)
    ok (some b)

  abbrev pub header_within :
      DecodeLimits → ℕ → V3ProduceHeader → Option Bytes → Try V3HeaderError Header
  header_within limits i h value =
      if ltb_ℤ limits.max_header_bytes (pos (length h.name + len value))
      then err (header_too_large i)
      else ok (record { key = h.name; value = value })

  unfoldable pub decode_v3_header : DecodeLimits → ℕ → V3ProduceHeader → Try V3HeaderError Header
  decode_v3_header limits i h =
      if is_empty h.name
      then err (name_required i)
      else (header_bytes i h.value >>= header_within limits i h)

  unfoldable pub decode_v3_header_list :
      DecodeLimits → ℕ → List V3ProduceHeader → Try V3HeaderError (List Header)
  unfolding decode_v3_header
  decode_v3_header_list limits i [] = ok []
  decode_v3_header_list limits i (h ∷ hs) = do
    header ← decode_v3_header limits i h
    rest ← decode_v3_header_list limits (suc i) hs
    ok (header ∷ rest)

  unfoldable pub decode_v3_headers :
      DecodeLimits → List V3ProduceHeader → Try V3HeaderError (List Header)
  unfolding decode_v3_header_list
  decode_v3_headers limits [] = ok []
  decode_v3_headers limits (h ∷ hs) =
      if ltb_ℤ limits.max_headers (pos (length (h ∷ hs)))
      then err (too_many_headers (length (h ∷ hs)) limits.max_headers)
      else decode_v3_header_list limits 0 (h ∷ hs)

module _ {X : Type 0} (codec : Codec) (languages : Languages X) where
  -- v3EnvelopeFromRecord, with its tests in their order.
  unfoldable pub v3_envelope_from_record :
      Bytes
      → Bytes
      → V3ProduceRecord
      → Option (Option (Registry X))
      → DecodeLimits
      → Try (EnvelopeError X) V3RecordEnvelope
  unfolding encode_v3_data decode_v3_headers size_bytes
  v3_envelope_from_record topic id rec enc limits = do
    key ← map_err key_failed (encode_v3_data codec languages topic true rec.key enc)
    value ← map_err value_failed (encode_v3_data codec languages topic false rec.value enc)
    key_fits ← require (not (ltb_ℤ limits.max_key_bytes (pos (len key.0)))) key_too_large
    partition_valid ← require (not (is_negative rec.partition_id)) negative_partition
    headers ← map_err headers_failed (decode_v3_headers codec limits rec.headers)
    let built : Record = record {
      topic = topic;
      key = key.0;
      value = value.0;
      headers = headers;
      partition = rec.partition_id;
    }
    record_fits ← require (not (ltb_ℤ limits.max_record_bytes (size_bytes built))) record_too_large
    ok (record { id = id; produced_record = built; key = key.1; value = value.1 })
