-- ===== src/Schema.antt =====
-- internal/schema/types.go: the envelope of a key or value, and what an encoder says of it.
pub mod Kinds
pub mod Subjects
pub mod Encoder
pub mod Memory
pub mod Http
use kafka_rest_proxy_go.Common.{Bool, true, false, ◌||◌, Option, none, some, [], not}
use kafka_rest_proxy_go.Common.Int.{ℤ}
use kafka_rest_proxy_go.Producer.{Bytes}
use kafka_rest_proxy_go.Go.Strings.{bytes, eq_bytes, trim_space, to_upper}

-- Strings of Go are bytes; a pointer is `none` or its value.
pub record RequestData : Type 0 where
  pub type_name : Bytes
  pub subject : Bytes
  pub subject_name_strategy : Bytes
  pub schema_id : Option ℤ
  pub schema_version : Option ℤ
  pub schema : Bytes
  pub payload : Bytes
  pub data_present : Bool

pub record Metadata : Type 0 where
  pub type_name : Bytes
  pub size : ℤ
  pub subject : Bytes
  pub schema_id : Option ℤ
  pub schema_version : Option ℤ

pub record ResolveRequest : Type 0 where
  pub subject : Bytes
  pub type_name : Bytes
  pub schema_id : Option ℤ
  pub schema_version : Option ℤ
  pub schema : Bytes

pub record Resolved : Type 0 where
  pub subject : Bytes
  pub type_name : Bytes
  pub schema_id : ℤ
  pub schema_version : Option ℤ
  pub schema : Bytes

abbrev pub is_some {ℓ} : {A : Type ℓ} → Option A → Bool
is_some none = false
is_some (some a) = true

unfoldable pub normalized_type : RequestData → Bytes
unfolding trim_space to_upper
normalized_type d = to_upper (trim_space d.type_name)

unfoldable pub is_schema_aware : RequestData → Bool
unfolding normalized_type eq_bytes
is_schema_aware d =
    let t = normalized_type d in
    eq_bytes t (bytes "AVRO")
    || (eq_bytes t (bytes "JSONSCHEMA")
        || (eq_bytes t (bytes "PROTOBUF")
            || (not (eq_bytes d.schema []) || (is_some d.schema_id || is_some d.schema_version))))
