-- ===== src/Api/Handler/Tests.antt =====
-- An environment for tests: whole tokens for float64, a producer that counts its calls and answers each
-- record, and libraries that take everything.
use kafka_rest_proxy_go.Common.{
  ℕ, suc, ◌+◌, ◌-◌, ◌*◌, ◌≡◌, refl, ap, sym, ◌∙◌, true, none, some, List, [], ◌∷◌, ◌++◌, length,
  map, ltb, leb, Option,
}
use kafka_rest_proxy_go.Common.Int.{pos, pos_part}
use kafka_rest_proxy_go.Common.Try.{ok}
use kafka_rest_proxy_go.Producer.{Bytes, Record, Result}
use kafka_rest_proxy_go.Go.Strings.{bytes}
use kafka_rest_proxy_go.RateLimit.{Float64}
use kafka_rest_proxy_go.Schema.Encoder.{Languages}
use kafka_rest_proxy_go.Api.Decode.{RawProduceRequest}
use kafka_rest_proxy_go.Api.Handler.{
  false, Env, AnswersAll, Config, Handler, new_handler_with_schema, request_limiter, byte_limiter,
}
use kafka_rest_proxy_go.Api.Handler.World.{World}

abbrev whole : Float64
whole = record {
  Float = ℕ;
  Time = ℕ;
  zero = 0;
  lt = ltb;
  le = leb;
  add = ◌+◌;
  sub = ◌-◌;
  mul = ◌*◌;
  of_int = pos_part;
  seconds = ◌-◌;
}

abbrev copying : Languages ℕ
copying = record {
  encode_avro = λ _ raw. ok raw;
  encode_json_schema = λ _ raw. ok raw;
  encode_protobuf = λ _ raw. ok raw;
  names = record { avro_names = λ _. ([], []); json_title = λ _. []; message_name = λ _. none };
}

abbrev placed : Record → Result ℕ
placed r = record { partition = pos 0; offset = pos 7; error_code = none; err = none }

-- One record with the body as its value.
abbrev one_record : Bytes → Option RawProduceRequest
one_record body = some (record {
  key_schema_id = none;
  key_schema = [];
  value_schema_id = none;
  value_schema = [];
  records = some (
      record {
        key = record { present = false; raw = [] };
        value = record { present = true; raw = body };
        partition = none;
        headers = [];
      }
      ∷ []);
})

abbrev pub test_env : Env
test_env = record {
  float = whole;
  ceil = pos;
  E = ℕ;
  X = ℕ;
  State = ℕ;
  produce = λ s records. (suc s, ok (map placed records));
  codec = record { json_valid = λ _. true; json_string = some; base64_decode = some };
  unmarshal = one_record;
  media_type = some;
  languages = copying;
  texts = record { quote = λ s. b'"' ∷ s ++ b'"' ∷ []; message = λ _. bytes "failed" };
}

length-map-placed : (records : List Record) → length (map placed records) ≡ length records
length-map-placed [] = refl
length-map-placed (r ∷ records) = ap suc (length-map-placed records)

pub test_env-AnswersAll : AnswersAll test_env
test_env-AnswersAll s records results e = ap length (sym same) ∙ length-map-placed records
  where
    same : map placed records ≡ results
    same = cc e

-- One request and two bytes a second, with bursts of two requests and of twelve bytes.
abbrev pub test_config : Config test_env
test_config = record {
  max_request_bytes = pos 10;
  max_records = pos 0;
  max_record_bytes = pos 0;
  max_key_bytes = pos 0;
  max_headers = pos 0;
  max_header_bytes = pos 0;
  allowed_topics = bytes "t*" ∷ [];
  produce_timeout = pos 0;
  bearer_tokens = [];
  cluster_id = [];
  rate_limit_requests_per_second = 1;
  rate_limit_requests_burst = pos 2;
  rate_limit_bytes_per_second = 2;
  rate_limit_bytes_burst = pos 12;
}

unfoldable pub test_handler : Handler test_env
unfolding new_handler_with_schema
test_handler = new_handler_with_schema test_env test_config none true

unfoldable pub test_world : World test_env
unfolding request_limiter byte_limiter
test_world = record {
  request_rate = request_limiter test_env test_config 0;
  byte_rate = byte_limiter test_env test_config 0;
  producer = 0;
  produced = [];
  events = [];
}
