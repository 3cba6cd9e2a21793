-- ===== src/Schema/Encoder.antt =====
-- internal/schema/encoder.go: from the envelope of a key or value to the bytes for Kafka. The
-- registry, the encoders of the three schema languages and what is read of a schema's text are
-- parameters; `X` stands for their errors.
pub mod Wire
pub mod Encoded
mod Tests
use kafka_rest_proxy_go.Common.{
  ℕ, ◌+◌, ◌*◌, ◌/◌, ◌%◌, Bool, true, false, not, ◌&&◌, ◌||◌, Option, none, some, List, [], ◌∷◌,
  ◌++◌, length, if◌then◌else◌,
}
use kafka_rest_proxy_go.Common.Int.{ℤ, pos, residue64}
use kafka_rest_proxy_go.Common.Try.{Try, ok, err, ◌>>=◌, map_err}
use kafka_rest_proxy_go.Producer.{Bytes, len}
use kafka_rest_proxy_go.Go.Strings.{bytes, eq_bytes, trim_space, to_upper}
use kafka_rest_proxy_go.Schema.{
  RequestData, Metadata, ResolveRequest, Resolved, normalized_type, is_schema_aware,
}
use kafka_rest_proxy_go.Schema.Kinds.{avro, json_schema, protobuf, normalize_schema_type}
use kafka_rest_proxy_go.Schema.Subjects.{SchemaNames, resolve_subject}
use kafka_rest_proxy_go.Api.Payload.{Codec, is_json_null, json_compact}

-- encodeAvro, encodeJSONSchema and encodeProtobuf, each on the schema's text and the data; what
-- is read of their names.
pub record Languages (X : Type 0) : Type 0 where
  pub encode_avro : Bytes → Bytes → Try X Bytes
  pub encode_json_schema : Bytes → Bytes → Try X Bytes
  pub encode_protobuf : Bytes → Bytes → Try X Bytes
  pub names : SchemaNames

-- The method Resolve of the interface Registry.
abbrev pub Registry : Type 0 → Type 0
Registry X = ResolveRequest → Try X Resolved

pub data EncodeError (X : Type 0) : Type 0 where
  binary_not_string binary_not_base64 string_not_string bad_json : EncodeError X
  unsupported_data_type unsupported_schema_type registry_required : Bytes → EncodeError X
  of_library : X → EncodeError X

abbrev pub no_metadata : Metadata
no_metadata = record {
  type_name = [];
  size = pos 0;
  subject = [];
  schema_id = none;
  schema_version = none;
}

abbrev pub is_missing : RequestData → Bool
is_missing d = not d.data_present || is_json_null d.payload

-- uint32 of an int, and its four bytes as PutUint32 of BigEndian writes them.
abbrev pub uint32 : ℤ → ℕ
uint32 n = residue64 n % 4294967296

abbrev pub put_uint32 : ℕ → Bytes
put_uint32 n = n / 16777216 ∷ n / 65536 % 256 ∷ n / 256 % 256 ∷ n % 256 ∷ []

unfoldable pub append_confluent_wire_format : Bytes → ℤ → Bytes → Bytes → Bytes
unfolding eq_bytes
append_confluent_wire_format dst schema_id typ payload =
    let head = (dst ++ 0 ∷ []) ++ put_uint32 (uint32 schema_id) in
    (if eq_bytes typ protobuf then head ++ 0 ∷ [] else head) ++ payload

-- firstNonEmpty, of two texts.
unfoldable pub first_non_empty : Bytes → Bytes → Bytes
unfolding eq_bytes trim_space
first_non_empty a b =
    if not (eq_bytes (trim_space a) [])
    then a
    else if not (eq_bytes (trim_space b) [])
    then b
    else []

-- A type that is there, or else another.
abbrev pub kind_of : Bytes → Bytes → Bytes
kind_of [] typ = typ
kind_of (c ∷ kind) typ = c ∷ kind

module _ {X : Type 0} (languages : Languages X) where
  unfoldable pub encode_by : Bytes → Bytes → Bytes → Try (EncodeError X) Bytes
  unfolding eq_bytes
  encode_by typ schema raw =
      if eq_bytes typ avro
      then map_err of_library (languages.encode_avro schema raw)
      else if eq_bytes typ json_schema
      then map_err of_library (languages.encode_json_schema schema raw)
      else if eq_bytes typ protobuf
      then map_err of_library (languages.encode_protobuf schema raw)
      else err (unsupported_schema_type typ)

  -- What the registry is asked.
  unfoldable pub request_of : Bytes → Bool → Bytes → RequestData → ResolveRequest
  unfolding resolve_subject
  request_of topic key typ d = record {
    subject = resolve_subject languages.names topic key d typ;
    type_name = typ;
    schema_id = d.schema_id;
    schema_version = d.schema_version;
    schema = d.schema;
  }

  -- encodeSchemaAware with a registry, on data that is there.
  unfoldable pub encode_resolved :
      Registry X
      → Bytes
      → Bool
      → Bytes
      → RequestData
      → Try (EncodeError X) (Option Bytes × Metadata)
  unfolding encode_by append_confluent_wire_format first_non_empty request_of
  encode_resolved registry topic key typ d = do
    resolved ← map_err of_library (registry (request_of topic key typ d))
    encoded ← encode_by (kind_of resolved.type_name typ) resolved.schema d.payload
    let wire =
        append_confluent_wire_format [] resolved.schema_id (kind_of resolved.type_name typ) encoded
    ok (
      some wire,
      record {
        type_name = kind_of resolved.type_name typ;
        size = pos (length wire);
        subject =
            first_non_empty resolved.subject (resolve_subject languages.names topic key d typ);
        schema_id = some resolved.schema_id;
        schema_version = resolved.schema_version;
      },
    )

  unfoldable pub with_registry :
      Option (Registry X)
      → Bytes
      → Bool
      → Bytes
      → RequestData
      → Try (EncodeError X) (Option Bytes × Metadata)
  unfolding encode_resolved
  with_registry none topic key typ d = err (registry_required typ)
  with_registry (some registry) topic key typ d = encode_resolved registry topic key typ d

  unfoldable pub encode_schema_aware :
      Option (Registry X)
      → Bytes
      → Bool
      → Bytes
      → RequestData
      → Try (EncodeError X) (Option Bytes × Metadata)
  unfolding with_registry is_json_null
  encode_schema_aware registry topic key typ d =
      if is_missing d
      then ok (none, record no_metadata { type_name = typ })
      else with_registry registry topic key typ d

abbrev given_json : {X : Type 0} → Option Bytes → Try (EncodeError X) (Option Bytes)
given_json none = err bad_json
given_json (some b) = ok (some b)

abbrev given_string : {X : Type 0} → Option Bytes → Try (EncodeError X) (Option Bytes)
given_string none = err string_not_string
given_string (some b) = ok (some b)

abbrev given_base64 : {X : Type 0} → Option Bytes → Try (EncodeError X) (Option Bytes)
given_base64 none = err binary_not_base64
given_base64 (some b) = ok (some b)

abbrev given_binary : {X : Type 0} → Codec → Option Bytes → Try (EncodeError X) (Option Bytes)
given_binary codec none = err binary_not_string
given_binary codec (some encoded) = given_base64 (codec.base64_decode encoded)

module _ {X : Type 0} (codec : Codec) where
  unfoldable pub encode_binary : RequestData → Try (EncodeError X) (Option Bytes)
  unfolding is_json_null
  encode_binary d =
      if is_missing d then ok none else given_binary codec (codec.json_string d.payload)

  unfoldable pub encode_string : RequestData → Try (EncodeError X) (Option Bytes)
  unfolding is_json_null
  encode_string d = if is_missing d then ok none else given_string (codec.json_string d.payload)

  unfoldable pub encode_json : RequestData → Try (EncodeError X) (Option Bytes)
  unfolding is_json_null json_compact
  encode_json d = if is_missing d then ok none else given_json (json_compact codec d.payload)

-- The type that Encode goes by.
unfoldable pub data_type : RequestData → Bytes
unfolding normalized_type is_schema_aware eq_bytes
data_type d =
    if not (eq_bytes (normalized_type d) [])
    then normalized_type d
    else if is_schema_aware d
    then avro
    else bytes "JSON"

-- The end of Encode: the metadata gets a type, if it has none, and the size.
abbrev pub finished : Bytes → Option Bytes × Metadata → Option Bytes × Metadata
finished typ (payload, meta) =
    (payload, record meta { type_name = kind_of meta.type_name typ; size = pos (len payload) })

abbrev plain :
    {X : Type 0}
    → Bytes
    → Try (EncodeError X) (Option Bytes)
    → Try (EncodeError X) (Option Bytes × Metadata)
plain typ (err e) = err e
plain typ (ok payload) = ok (payload, record no_metadata { type_name = typ })

module _ {X : Type 0} (codec : Codec) (languages : Languages X)
    (registry : Option (Registry X)) where
  unfoldable pub encode_typed :
      Bytes → Bytes → Bool → RequestData → Try (EncodeError X) (Option Bytes × Metadata)
  unfolding encode_binary encode_string encode_json encode_schema_aware eq_bytes
  encode_typed typ topic key d =
      if eq_bytes typ (bytes "BINARY")
      then plain typ (encode_binary codec d)
      else if eq_bytes typ (bytes "STRING")
      then plain typ (encode_string codec d)
      else if eq_bytes typ (bytes "JSON")
      then plain typ (encode_json codec d)
      else if eq_bytes typ avro || (eq_bytes typ json_schema || eq_bytes typ protobuf)
      then encode_schema_aware languages registry topic key typ d
      else err (unsupported_data_type d.type_name)

  -- Encode, where a nil pointer is `none`.
  unfoldable pub encode :
      Bytes → Bool → Option RequestData → Try (EncodeError X) (Option Bytes × Metadata)
  unfolding data_type encode_typed
  encode topic key none = ok (none, no_metadata)
  encode topic key (some d) = do
    encoded ← encode_typed (data_type d) topic key d
    ok (finished (data_type d) encoded)
