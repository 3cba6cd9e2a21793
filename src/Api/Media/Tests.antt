-- ===== src/Api/Media/Tests.antt =====
-- Tests and instances for media types.
use kafka_rest_proxy_go.Common.{arith, ◌≡◌, refl, true, false, none, some, Option}
use kafka_rest_proxy_go.Producer.{Bytes}
use kafka_rest_proxy_go.Go.Strings.{bytes, trim_space}
use kafka_rest_proxy_go.Api.Payload.{format_json, format_avro}
use kafka_rest_proxy_go.Api.Media.Accepted.{accepts_response-parse_content_type}
use kafka_rest_proxy_go.Api.Media.{
  parse_content_type, accepts_response, is_json_content_type, accepts_v3_response,
}

-- Every text is a media type without parameters, which is read trimmed.
abbrev whole : Bytes → Option Bytes
unfolding trim_space
whole s = some (trim_space s)

avro : parse_content_type whole (bytes " Application/vnd.kafka.AVRO.v2+json") ≡ some format_avro
unfolding parse_content_type whole
avro = refl

missing : parse_content_type whole (bytes " ") ≡ some format_json
unfolding parse_content_type
missing = refl

text : parse_content_type whole (bytes "text/plain") ≡ none
unfolding parse_content_type whole
text = refl

second_part : accepts_response whole (bytes "text/html, */*") ≡ true
unfolding accepts_response whole
second_part = refl

html : accepts_response whole (bytes "text/html,text/plain") ≡ false
unfolding accepts_response whole
html = refl

v3_types :
    (is_json_content_type (bytes "Application/JSON; charset=utf-8") ≡ true)
    × (is_json_content_type (bytes "text/json") ≡ false)
    × (accepts_v3_response (bytes "text/html, */*") ≡ true)
    × (accepts_v3_response (bytes "text/html") ≡ false)
unfolding is_json_content_type accepts_v3_response
v3_types = (refl, refl, refl, refl)

-- Every header is read as JSON.
abbrev json_always : Bytes → Option Bytes
json_always s = some (bytes "application/json")

accepts_response-parse_content_type_example :
    accepts_response json_always (bytes " application/json; charset=utf-8") ≡ true
unfolding parse_content_type trim_space
accepts_response-parse_content_type_example =
    accepts_response-parse_content_type json_always (bytes " application/json; charset=utf-8")
      format_json (λ s. refl) (omega arith) refl
