-- ===== src/Api/Payload/Tests.antt =====
-- Tests and instances for payloads.
use kafka_rest_proxy_go.Common.{◌≡◌, refl, true, false, none, some, []}
use kafka_rest_proxy_go.Go.Strings.{bytes, trim_space}
use kafka_rest_proxy_go.Common.Try.{ok, err}
use kafka_rest_proxy_go.Api.Payload.{
  Codec, binary_decode, format_json, format_binary, json_raw_is_compact, strip, decode_json_value,
  decode_nullable_value,
}
use kafka_rest_proxy_go.Api.Payload.Compact.{json_raw_is_compact_iff, decode_json_value_exact}

-- Every text is JSON, and a string that is its own content; no base64 is valid.
abbrev lax : Codec
lax = record { json_valid = λ _. true; json_string = some; base64_decode = λ _. none }

loose : json_raw_is_compact (bytes "{\"a b\": 1}") ≡ false
unfolding json_raw_is_compact
loose = refl

quoted : json_raw_is_compact (bytes "{\"a \\\" b\":1}") ≡ true
unfolding json_raw_is_compact
quoted = refl

decoded : decode_json_value lax (bytes " {\"a b\": [1, 2]}\n") ≡ ok (some (bytes "{\"a b\":[1,2]}"))
unfolding decode_json_value
decoded = refl

nulls :
    (decode_nullable_value lax (record { present = true; raw = bytes " null " }) format_binary
      ≡ ok none)
    × (decode_nullable_value lax (record { present = false; raw = [] }) format_json ≡ ok none)
    × (decode_nullable_value lax (record { present = true; raw = bytes "zz" }) format_binary
        ≡ err (binary_decode (bytes "zz")))
unfolding decode_nullable_value
nulls = (refl, refl, refl)

json_raw_is_compact_iff_example : strip (bytes "{\"a b\":1}") ≡ bytes "{\"a b\":1}"
unfolding json_raw_is_compact
json_raw_is_compact_iff_example = (json_raw_is_compact_iff (bytes "{\"a b\":1}")).0 refl

decode_json_value_exact_example :
    (decode_json_value lax (bytes " [1, 2]") ≡ ok (some (strip (trim_space (bytes " [1, 2]")))))
    × (json_raw_is_compact (strip (trim_space (bytes " [1, 2]"))) ≡ true)
decode_json_value_exact_example = decode_json_value_exact lax (bytes " [1, 2]") refl
