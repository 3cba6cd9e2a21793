-- ===== src/Api/Payload.antt =====
-- The payloads of internal/api/types.go: decodeNullableValue, decodeJSONValue, jsonRawIsCompact and
-- isJSONNull. What encoding/json and encoding/base64 decide about a text is a parameter; the
-- compaction of encoding/json, which drops white space outside strings, is modelled.
pub mod Compact
pub mod Decoded
mod Tests
use kafka_rest_proxy_go.Common.{
  ℕ, Bool, true, false, not, ◌&&◌, ◌||◌, Option, none, some, List, [], ◌∷◌, ◌==◌, if◌then◌else◌,
}
use kafka_rest_proxy_go.Common.Try.{Try, ok, err}
use kafka_rest_proxy_go.Producer.{Bytes}
use kafka_rest_proxy_go.Go.Strings.{bytes, eq_bytes, trim_space}

-- `json_valid` is the grammar of JSON; `json_string` is Unmarshal into a string; `base64_decode` is
-- StdEncoding.DecodeString.
pub record Codec : Type 0 where
  pub json_valid : Bytes → Bool
  pub json_string : Bytes → Option Bytes
  pub base64_decode : Bytes → Option Bytes

pub data PayloadFormat : Type 0 where
  format_json format_binary format_avro format_protobuf format_json_schema : PayloadFormat

-- `json.RawMessage` with its presence.
pub record NullableRaw : Type 0 where
  pub present : Bool
  pub raw : Bytes

pub data ValueError : Type 0 where
  not_a_string : ValueError
  binary_decode : Bytes → ValueError
  bad_json : ValueError

abbrev pub is_space : ℕ → Bool
is_space b = b == b' ' || (b == 10 || (b == 13 || b == 9))

-- Where the loop of jsonRawIsCompact stands: outside a string, inside, or behind a backslash.
pub data Mode : Type 0 where
  outside in_string escaped : Mode

-- The mode behind a byte.
abbrev pub advance : Mode → ℕ → Mode
advance escaped b = in_string
advance in_string b = if b == b'\\' then escaped else if b == b'"' then outside else in_string
advance outside b = if b == b'"' then in_string else outside

scan : Mode → List ℕ → Bool
scan m [] = true
scan escaped (b ∷ raw) = scan (advance escaped b) raw
scan in_string (b ∷ raw) = scan (advance in_string b) raw
scan outside (b ∷ raw) =
    let rest = scan (advance outside b) raw in if is_space b then false else rest

unfoldable pub json_raw_is_compact : List ℕ → Bool
unfolding scan
json_raw_is_compact raw = scan outside raw

-- The text without the white space outside strings.
strip_from : Mode → List ℕ → List ℕ
strip_from m [] = []
strip_from escaped (b ∷ raw) = b ∷ strip_from (advance escaped b) raw
strip_from in_string (b ∷ raw) = b ∷ strip_from (advance in_string b) raw
strip_from outside (b ∷ raw) =
    let rest = strip_from (advance outside b) raw in if is_space b then rest else b ∷ rest

unfoldable pub strip : List ℕ → List ℕ
unfolding strip_from
strip raw = strip_from outside raw

unfoldable pub is_json_null : List ℕ → Bool
unfolding eq_bytes trim_space
is_json_null raw = eq_bytes (trim_space raw) (bytes "null")

module _ (codec : Codec) where
  -- json.Compact.
  unfoldable pub json_compact : Bytes → Option Bytes
  unfolding strip
  json_compact raw = if codec.json_valid raw then some (strip raw) else none

  abbrev compacted : Option Bytes → Try ValueError (Option Bytes)
  compacted none = err bad_json
  compacted (some b) = ok (some b)

  -- decodeJSONValue behind its TrimSpace.
  decode_trimmed : Bytes → Try ValueError (Option Bytes)
  unfolding json_raw_is_compact json_compact
  decode_trimmed trimmed =
      if json_raw_is_compact trimmed then ok (some trimmed) else compacted (json_compact trimmed)

  unfoldable pub decode_json_value : Bytes → Try ValueError (Option Bytes)
  unfolding trim_space decode_trimmed
  decode_json_value raw = decode_trimmed (trim_space raw)

  abbrev base64_value : Bytes → Option Bytes → Try ValueError (Option Bytes)
  base64_value encoded none = err (binary_decode encoded)
  base64_value encoded (some b) = ok (some b)

  abbrev binary_value : Option Bytes → Try ValueError (Option Bytes)
  binary_value none = err not_a_string
  binary_value (some encoded) = base64_value encoded (codec.base64_decode encoded)

  abbrev decode_present : PayloadFormat → Bytes → Try ValueError (Option Bytes)
  decode_present format_binary raw = binary_value (codec.json_string raw)
  decode_present _ raw = decode_json_value raw

  unfoldable pub decode_nullable_value : NullableRaw → PayloadFormat → Try ValueError (Option Bytes)
  unfolding is_json_null decode_json_value
  decode_nullable_value v format =
      if not v.present || is_json_null v.raw then ok none else decode_present format v.raw
