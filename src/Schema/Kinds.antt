-- ===== src/Schema/Kinds.antt =====
-- The names of schema types in internal/schema/registry.go: registrySchemaType,
-- normalizeRegistrySchemaType and normalizeSchemaType.
use kafka_rest_proxy_go.Common.{◌≡◌, ◌≢◌, refl, sym, ◌||◌, [], if◌then◌else◌, inl, inr, Bool-cases}
use kafka_rest_proxy_go.Producer.{Bytes}
use kafka_rest_proxy_go.Go.Strings.{bytes, eq_bytes, eq_bytes_iff, trim_space, to_upper}

abbrev pub avro : Bytes
avro = bytes "AVRO"

abbrev pub json_schema : Bytes
json_schema = bytes "JSONSCHEMA"

abbrev pub protobuf : Bytes
protobuf = bytes "PROTOBUF"

-- The switch of normalizeSchemaType, on the trimmed text in upper case.
pub schema_kind : Bytes → Bytes
unfolding eq_bytes
schema_kind t =
    if eq_bytes t json_schema || (eq_bytes t (bytes "JSON_SCHEMA") || eq_bytes t (bytes "JSON"))
    then json_schema
    else if eq_bytes t protobuf || eq_bytes t (bytes "PROTO")
    then protobuf
    else if eq_bytes t avro || eq_bytes t []
    then avro
    else t

unfoldable pub normalize_schema_type : Bytes → Bytes
unfolding schema_kind trim_space to_upper
normalize_schema_type typ = schema_kind (to_upper (trim_space typ))

-- The switch of normalizeRegistrySchemaType.
pub registry_kind : Bytes → Bytes
unfolding eq_bytes
registry_kind t =
    if eq_bytes t (bytes "JSON")
    then json_schema
    else if eq_bytes t protobuf
    then protobuf
    else if eq_bytes t avro || eq_bytes t []
    then avro
    else t

unfoldable pub normalize_registry_schema_type : Bytes → Bytes
unfolding registry_kind trim_space to_upper
normalize_registry_schema_type typ = registry_kind (to_upper (trim_space typ))

-- The switch of registrySchemaType.
pub registry_name : Bytes → Bytes
unfolding eq_bytes
registry_name kind =
    if eq_bytes kind json_schema
    then bytes "JSON"
    else if eq_bytes kind protobuf
    then bytes "PROTOBUF"
    else if eq_bytes kind avro
    then bytes "AVRO"
    else []

unfoldable pub registry_schema_type : Bytes → Bytes
unfolding registry_name normalize_schema_type
registry_schema_type typ = registry_name (normalize_schema_type typ)

registry_kind_of_name :
    (kind : Bytes)
    → registry_name kind ≢ []
    → normalize_registry_schema_type (registry_name kind) ≡ kind
unfolding normalize_registry_schema_type registry_name
registry_kind_of_name kind known = elim (Bool-cases (eq_bytes kind json_schema)) [
  | inl is_json ↦ rw is_json (sym ((eq_bytes_iff kind json_schema).0 is_json))
  | inr not_json ↦ elim (Bool-cases (eq_bytes kind protobuf)) [
    | inl is_protobuf ↦
        rw (not_json, is_protobuf) (sym ((eq_bytes_iff kind protobuf).0 is_protobuf))
    | inr not_protobuf ↦ elim (Bool-cases (eq_bytes kind avro)) [
      | inl is_avro ↦
          rw (not_json, not_protobuf, is_avro) (sym ((eq_bytes_iff kind avro).0 is_avro))
      | inr not_avro ↦ absurd (known (rw (not_json, not_protobuf, not_avro) refl))
    ]
  ]
]

-- Where the registry has a name for a schema type, that name, read back from the registry's answer,
-- is the type as the proxy normalizes it.
pub normalize-registry_schema_type :
    (typ : Bytes)
    → registry_schema_type typ ≢ []
    → normalize_registry_schema_type (registry_schema_type typ) ≡ normalize_schema_type typ
unfolding registry_schema_type
normalize-registry_schema_type typ known = registry_kind_of_name (normalize_schema_type typ) known
