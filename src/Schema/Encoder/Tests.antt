-- ===== src/Schema/Encoder/Tests.antt =====
-- Tests and instances for the encoder.
use kafka_rest_proxy_go.Common.{ℕ, ◌≡◌, ◌≢◌, refl, inl, true, false, none, some, [], ◌∷◌}
use kafka_rest_proxy_go.Common.Int.{pos}
use kafka_rest_proxy_go.Common.Try.{ok, err}
use kafka_rest_proxy_go.Producer.{Bytes}
use kafka_rest_proxy_go.Go.Strings.{bytes}
use kafka_rest_proxy_go.Api.Payload.{Codec}
use kafka_rest_proxy_go.Schema.{RequestData, Metadata}
use kafka_rest_proxy_go.Schema.Encoder.{
  Languages, Registry, append_confluent_wire_format, encode, data_type, registry_required,
  unsupported_data_type,
}
use kafka_rest_proxy_go.Schema.Encoder.Wire.{read_wire, read_wire-append_confluent_wire_format}
use kafka_rest_proxy_go.Schema.Subjects.{resolve_subject, resolve_subject-ne-nil}
use kafka_rest_proxy_go.Schema.Encoder.Encoded.{Encoding, encode-Encoding}

-- Encoders that copy the data, and a registry that answers 258.
abbrev lax : Codec
lax = record { json_valid = λ _. true; json_string = some; base64_decode = λ _. none }

abbrev copying : Languages ℕ
copying = record {
  encode_avro = λ _ raw. ok raw;
  encode_json_schema = λ _ raw. ok raw;
  encode_protobuf = λ _ _. err 7;
  names = record {
    avro_names = λ _. (bytes "n", bytes "R");
    json_title = λ _. [];
    message_name = λ _. none;
  };
}

abbrev answers : Registry ℕ
answers req = ok (record {
  subject = [];
  type_name = [];
  schema_id = pos 258;
  schema_version = none;
  schema = req.schema;
})

abbrev envelope : Bytes → RequestData
envelope typ = record {
  type_name = typ;
  subject = [];
  subject_name_strategy = bytes "record_name";
  schema_id = none;
  schema_version = none;
  schema = bytes "{}";
  payload = bytes "1";
  data_present = true;
}

abbrev metadata : Metadata
metadata = record {
  type_name = bytes "AVRO";
  size = pos 6;
  subject = bytes "n.R";
  schema_id = some (pos 258);
  schema_version = none;
}

encoded :
    encode lax copying (some answers) (bytes "t") true (some (envelope (bytes " avro")))
    ≡ ok (some (0 ∷ 0 ∷ 0 ∷ 1 ∷ 2 ∷ b'1' ∷ []), metadata)
unfolding encode
encoded = refl

no_registry :
    encode lax copying none (bytes "t") true (some (envelope []))
    ≡ err (registry_required (bytes "AVRO"))
unfolding encode
no_registry = refl

unknown :
    encode lax copying (some answers) (bytes "t") true (some (envelope (bytes "xml")))
    ≡ err (unsupported_data_type (bytes "xml"))
unfolding encode
unknown = refl

avro_type : data_type (envelope (bytes " avro")) ≡ bytes "AVRO"
unfolding data_type
avro_type = refl

encode-Encoding_example :
    (ask : Registry ℕ) × (some answers ≡ some ask)
    × Encoding copying
        (bytes "t")
        true
        (envelope (bytes " avro"))
        ask
        (data_type (envelope (bytes " avro")))
        (0 ∷ 0 ∷ 0 ∷ 1 ∷ 2 ∷ b'1' ∷ [])
        metadata
encode-Encoding_example =
    encode-Encoding lax copying (some answers) (bytes "t") true (envelope (bytes " avro"))
      (0 ∷ 0 ∷ 0 ∷ 1 ∷ 2 ∷ b'1' ∷ []) metadata (inl avro_type) encoded

read_wire-append_confluent_wire_format_example :
    read_wire
      (bytes "PROTOBUF")
      (append_confluent_wire_format [] (pos 70000) (bytes "PROTOBUF") (bytes "x"))
    ≡ some (70000, bytes "x")
read_wire-append_confluent_wire_format_example =
    read_wire-append_confluent_wire_format (pos 70000) (bytes "PROTOBUF") (bytes "x")

resolve_subject-ne-nil_example :
    resolve_subject copying.names (bytes "t") false (envelope (bytes "AVRO")) (bytes "AVRO") ≢ []
resolve_subject-ne-nil_example =
    resolve_subject-ne-nil copying.names (bytes "t") false (envelope (bytes "AVRO")) (bytes "AVRO")
