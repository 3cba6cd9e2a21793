-- ===== src/Api/Decode/Records/Parts.antt =====
-- What becomes of the key or the value of a record.
use kafka_rest_proxy_go.Common.{◌≡◌, refl, subst, Bool, Option, none, some, []}
use kafka_rest_proxy_go.Common.Int.{ℤ}
use kafka_rest_proxy_go.Common.Try.{ok, map_err, >>=-eq-ok, map_err-eq-ok, ok_inj}
use kafka_rest_proxy_go.Producer.{Bytes}
use kafka_rest_proxy_go.Schema.{Metadata}
use kafka_rest_proxy_go.Api.Payload.{Codec, PayloadFormat, NullableRaw, decode_nullable_value}
use kafka_rest_proxy_go.Api.Payload.Decoded.{PlainPayload, decode_nullable_value-Plain}
use kafka_rest_proxy_go.Api.Decode.{of_value, of_encoder, Encode, schema_type, strategy_for}
use kafka_rest_proxy_go.Api.Decode.Records.{decode_part, decode_v2_nullable_value}

module _ {X : Type 0} (codec : Codec) (enc : Option (Encode X)) (topic : Bytes) (is_key : Bool)
    (v : NullableRaw) (format : PayloadFormat) (schema_id : Option ℤ) (schema : Bytes) where
  -- A payload that is taken as it is, without a schema id, or what the schema encoder makes of it, with
  -- the schema id it answers.
  pub data Payload : Option Bytes → Option ℤ → Type 0 where
    plain :
        {b : Option Bytes}
        → schema_type format ≡ none
        → PlainPayload codec format v b
        → Payload b none
    encoded :
        {b : Option Bytes} {id : Option ℤ} (encode : Encode X) (type_name : Bytes) (m : Metadata)
        → enc ≡ some encode
        → schema_type format ≡ some type_name
        → encode topic is_key (record {
          type_name = type_name;
          subject = [];
          subject_name_strategy = strategy_for schema_id;
          schema_id = schema_id;
          schema_version = none;
          schema = schema;
          payload = v.raw;
          data_present = v.present;
        })
          ≡ ok (b, m)
        → m.schema_id ≡ id
        → Payload b id

  part-Payload :
      (o : Option (Encode X)) (typ : Option Bytes) (out : Option Bytes × Option ℤ)
      → enc ≡ o
      → schema_type format ≡ typ
      → decode_part codec o topic is_key v format typ schema_id schema ≡ ok out
      → Payload out.0 out.1
  unfolding decode_part
  part-Payload o none out eo et e =
      let (b, eb, e') =
        >>=-eq-ok (map_err (λ x. of_value x) (decode_nullable_value codec v format)) _ e in
      let read =
        decode_nullable_value-Plain codec v format b (map_err-eq-ok (λ x. of_value x) _ eb) in
      subst (λ (x : Option Bytes × Option ℤ). Payload x.0 x.1) (ok_inj e') (plain et read)
  part-Payload none (some type_name) out eo et e = cc
  part-Payload (some encode) (some type_name) out eo et e =
      let (made, em, e') = >>=-eq-ok (map_err (λ x. of_encoder x) _) _ e in
      subst (λ (x : Option Bytes × Option ℤ). Payload x.0 x.1) (ok_inj e')
        (encoded encode type_name made.1 eo et (map_err-eq-ok (λ x. of_encoder x) _ em) refl)

  pub decode_v2_nullable_value-Payload :
      (out : Option Bytes × Option ℤ)
      → decode_v2_nullable_value codec enc topic is_key v format schema_id schema ≡ ok out
      → Payload out.0 out.1
  unfolding decode_v2_nullable_value
  decode_v2_nullable_value-Payload out e = part-Payload enc (schema_type format) out refl refl e
