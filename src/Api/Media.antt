-- ===== src/Api/Media.antt =====
-- Media types in internal/api/media.go, and isJSONContentType and acceptsV3Response of
-- internal/api/v3.go. `media_type` is what mime.ParseMediaType reads of a header, none for an error.
pub mod Accepted
mod Tests
use kafka_rest_proxy_go.Common.{
  ℕ, Bool, true, false, ◌||◌, Option, none, some, List, [], ◌∷◌, if◌then◌else◌,
}
use kafka_rest_proxy_go.Producer.{Bytes}
use kafka_rest_proxy_go.Go.Strings.{bytes, eq_bytes, contains, trim_space, to_lower}
use kafka_rest_proxy_go.Go.Strings.Split.{split}
use kafka_rest_proxy_go.Api.Payload.{
  PayloadFormat, format_json, format_binary, format_avro, format_protobuf, format_json_schema,
}

abbrev pub media_kafka_v2 : Bytes
media_kafka_v2 = bytes "application/vnd.kafka.v2+json"

abbrev pub media_kafka_json_v2 : Bytes
media_kafka_json_v2 = bytes "application/vnd.kafka.json.v2+json"

abbrev pub media_kafka_binary_v2 : Bytes
media_kafka_binary_v2 = bytes "application/vnd.kafka.binary.v2+json"

abbrev pub media_kafka_avro_v2 : Bytes
media_kafka_avro_v2 = bytes "application/vnd.kafka.avro.v2+json"

abbrev pub media_kafka_protobuf_v2 : Bytes
media_kafka_protobuf_v2 = bytes "application/vnd.kafka.protobuf.v2+json"

abbrev pub media_kafka_json_sch_v2 : Bytes
media_kafka_json_sch_v2 = bytes "application/vnd.kafka.jsonschema.v2+json"

abbrev pub media_json : Bytes
media_json = bytes "application/json"

-- The switch of parseContentType, on a media type in lower case.
unfoldable pub format_of : Bytes → Option PayloadFormat
unfolding eq_bytes
format_of mt =
    if eq_bytes mt media_kafka_json_v2 || (eq_bytes mt media_kafka_v2 || eq_bytes mt media_json)
    then some format_json
    else if eq_bytes mt media_kafka_binary_v2
    then some format_binary
    else if eq_bytes mt media_kafka_avro_v2
    then some format_avro
    else if eq_bytes mt media_kafka_protobuf_v2
    then some format_protobuf
    else if eq_bytes mt media_kafka_json_sch_v2
    then some format_json_schema
    else none

-- The switch of acceptsResponse, on a media type in lower case.
unfoldable pub is_acceptable : Bytes → Bool
unfolding eq_bytes
is_acceptable mt =
    eq_bytes mt (bytes "*/*")
    || (eq_bytes mt (bytes "application/*")
        || (eq_bytes mt media_kafka_v2
            || (eq_bytes mt media_kafka_json_v2
                || (eq_bytes mt media_kafka_binary_v2
                    || (eq_bytes mt media_kafka_avro_v2
                        || (eq_bytes mt media_kafka_protobuf_v2
                            || (eq_bytes mt media_kafka_json_sch_v2 || eq_bytes mt media_json)))))))

module _ (media_type : Bytes → Option Bytes) where
  unfoldable pub format_of_media : Option Bytes → Option PayloadFormat
  unfolding format_of to_lower
  format_of_media none = none
  format_of_media (some mt) = format_of (to_lower mt)

  unfoldable pub parse_content_type : Bytes → Option PayloadFormat
  unfolding format_of_media eq_bytes trim_space
  parse_content_type header =
      if eq_bytes (trim_space header) []
      then some format_json
      else format_of_media (media_type header)

  unfoldable pub accepts_media : Option Bytes → Bool
  unfolding is_acceptable to_lower
  accepts_media none = false
  accepts_media (some mt) = is_acceptable (to_lower mt)

  unfoldable pub accepts_some : List Bytes → Bool
  unfolding accepts_media trim_space
  accepts_some [] = false
  accepts_some (part ∷ parts) =
      let rest = accepts_some parts in
      if accepts_media (media_type (trim_space part)) then true else rest

  -- acceptsResponse, on the Accept header.
  unfoldable pub accepts_response : Bytes → Bool
  unfolding accepts_some eq_bytes trim_space split
  accepts_response header =
      if eq_bytes (trim_space header) []
      then true
      else accepts_some (split b',' (trim_space header))

unfoldable pub is_json_content_type : Bytes → Bool
unfolding eq_bytes trim_space to_lower contains
is_json_content_type header =
    if eq_bytes (trim_space header) []
    then true
    else contains (to_lower header) (bytes "application/json")

-- acceptsV3Response, on the Accept header.
unfoldable pub accepts_v3_response : Bytes → Bool
unfolding eq_bytes trim_space to_lower contains
accepts_v3_response header =
    let accept = trim_space header in
    eq_bytes accept []
    || (contains accept (bytes "*/*") || contains (to_lower accept) (bytes "application/json"))
