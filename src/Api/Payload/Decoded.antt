-- ===== src/Api/Payload/Decoded.antt =====
-- What decodeNullableValue makes of a value.
use kafka_rest_proxy_go.Common.{
  ◌≡◌, ◌≢◌, ◌⊎◌, refl, ap, ◌∙◌, subst, true, false, Option, none, some, inl, inr, Bool-cases,
  Option-cases,
}
use kafka_rest_proxy_go.Common.Try.{Try, ok, ok_inj}
use kafka_rest_proxy_go.Producer.{Bytes}
use kafka_rest_proxy_go.Go.Strings.{bytes, eq_bytes, eq_bytes_iff, trim_space}
use kafka_rest_proxy_go.Api.Payload.{
  Codec, PayloadFormat, format_binary, format_json, format_avro, format_protobuf,
  format_json_schema, NullableRaw, strip, is_json_null, json_raw_is_compact, json_compact,
  decode_json_value, decode_nullable_value, decode_present, decode_trimmed, binary_value,
  ValueError,
}
use kafka_rest_proxy_go.Api.Payload.Compact.{json_raw_is_compact_iff}

module _ (codec : Codec) (format : PayloadFormat) (v : NullableRaw) where
  -- A value that is missing or null; a text in base64; or else a JSON value without white space outside
  -- its strings.
  pub data PlainPayload : Option Bytes → Type 0 where
    missing : (v.present ≡ false) ⊎ (trim_space v.raw ≡ bytes "null") → PlainPayload none
    from_base64 :
        (text b : Bytes)
        → v.present ≡ true
        → trim_space v.raw ≢ bytes "null"
        → format ≡ format_binary
        → codec.json_string v.raw ≡ some text
        → codec.base64_decode text ≡ some b
        → PlainPayload (some b)
    compact :
        v.present ≡ true
        → trim_space v.raw ≢ bytes "null"
        → format ≢ format_binary
        → PlainPayload (some (strip (trim_space v.raw)))

decode_trimmed-strip :
    (codec : Codec) (t : Bytes) (b : Option Bytes)
    → decode_trimmed codec t ≡ ok b
    → some (strip t) ≡ b
unfolding decode_trimmed json_compact
decode_trimmed-strip codec t b e = elim (Bool-cases (json_raw_is_compact t)) [
  | inl already ↦
      let same = (json_raw_is_compact_iff t).0 already in
      let out : ◌≡◌ {A = Try ValueError (Option Bytes)} (ok (some t)) (ok b) = cc in
      ap some same ∙ ok_inj out
  | inr spaced ↦ elim (Bool-cases (codec.json_valid t)) [ inl valid ↦ cc | inr bad ↦ cc ]
]

module _ (codec : Codec) (v : NullableRaw) where
  present_json :
      (format : PayloadFormat) (b : Option Bytes)
      → v.present ≡ true
      → trim_space v.raw ≢ bytes "null"
      → format ≢ format_binary
      → decode_json_value codec v.raw ≡ ok b
      → PlainPayload codec format v b
  unfolding decode_json_value
  present_json format b there ne other e =
      subst (PlainPayload codec format v) (decode_trimmed-strip codec (trim_space v.raw) b e)
        (compact there ne other)

  binary_value-Plain :
      (b : Option Bytes) (text : Option Bytes)
      → v.present ≡ true
      → trim_space v.raw ≢ bytes "null"
      → codec.json_string v.raw ≡ text
      → binary_value codec text ≡ ok b
      → PlainPayload codec format_binary v b
  binary_value-Plain b none there ne read e = cc
  binary_value-Plain b (some text) there ne read e =
      elim (Option-cases (codec.base64_decode text)) [
        | inl bad ↦ cc
        | inr (d, good) ↦
            let out : ◌≡◌ {A = Try ValueError (Option Bytes)} (ok (some d)) (ok b) = cc in
            subst (PlainPayload codec format_binary v) (ok_inj out)
              (from_base64 text d there ne refl read good)
      ]

  decode_present-Plain :
      (format : PayloadFormat) (b : Option Bytes)
      → v.present ≡ true
      → trim_space v.raw ≢ bytes "null"
      → decode_present codec format v.raw ≡ ok b
      → PlainPayload codec format v b
  unfolding decode_present
  decode_present-Plain format_binary b there ne e =
      binary_value-Plain b (codec.json_string v.raw) there ne refl e
  decode_present-Plain format_json b there ne e = present_json format_json b there ne (λ x. cc) e
  decode_present-Plain format_avro b there ne e = present_json format_avro b there ne (λ x. cc) e
  decode_present-Plain format_protobuf b there ne e =
      present_json format_protobuf b there ne (λ x. cc) e
  decode_present-Plain format_json_schema b there ne e =
      present_json format_json_schema b there ne (λ x. cc) e

  differs : (s : Bytes) → eq_bytes s (bytes "null") ≡ false → s ≢ bytes "null"
  differs s e same = let both = (eq_bytes_iff s (bytes "null")).1 same in cc

  pub decode_nullable_value-Plain :
      (format : PayloadFormat) (b : Option Bytes)
      → decode_nullable_value codec v format ≡ ok b
      → PlainPayload codec format v b
  unfolding decode_nullable_value is_json_null
  decode_nullable_value-Plain format b e = elim (Bool-cases v.present) [
    | inl there ↦ elim (Bool-cases (is_json_null v.raw)) [
      | inl null ↦
          let out : ◌≡◌ {A = Try ValueError (Option Bytes)} (ok none) (ok b) = cc in
          subst (PlainPayload codec format v) (ok_inj out)
            (missing (inr ((eq_bytes_iff (trim_space v.raw) (bytes "null")).0 null)))
      | inr other ↦
          let out : decode_present codec format v.raw ≡ ok b = cc in
          decode_present-Plain format b there (differs (trim_space v.raw) other) out
    ]
    | inr absent ↦
        let out : ◌≡◌ {A = Try ValueError (Option Bytes)} (ok none) (ok b) = cc in
        subst (PlainPayload codec format v) (ok_inj out) (missing (inl absent))
  ]
