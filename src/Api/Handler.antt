-- ===== src/Api/Handler.antt =====
-- The handler of internal/api/handler.go: its configuration, its construction, its limiters and
-- what it is built on.
pub mod World
pub mod TopicProduce
pub mod Tests
use kafka_rest_proxy_go.Common.{
  length, ◌≡◌, ℕ, Bool, true, false, Option, none, some, List, [], ◌∷◌, ◌++◌, length, ◌≡◌,
  if◌then◌else◌,
}
use kafka_rest_proxy_go.Common.Int.{ℤ, pos, ltb_ℤ}
use kafka_rest_proxy_go.Common.Try.{Try, ok, err}
use kafka_rest_proxy_go.Producer.{Bytes, Record, Result, ProduceError}
use kafka_rest_proxy_go.Go.Strings.{bytes, eq_bytes, trim_space}
use kafka_rest_proxy_go.RateLimit.{Float64, Limiter, new, allow}
use kafka_rest_proxy_go.Schema.Encoder.{Languages, Registry}
use kafka_rest_proxy_go.Api.Payload.{Codec, PayloadFormat}
use kafka_rest_proxy_go.Api.Decode.{RawProduceRequest, DecodeLimits, positive_or}
use kafka_rest_proxy_go.Api.Respond.{Texts}
use kafka_rest_proxy_go.Api.Access.{AllowedTopics, allowed_of, topic_allowed, tokens_of}

-- What the handler is built on: float64 with the ceiling as an int64, the errors of the Kafka client
-- (`E`) and of the schema libraries (`X`), the producer, encoding/json and the other libraries. A
-- call of Produce takes the producer to another state and answers.
pub record Env : Type 1 where
  pub float : Float64
  pub ceil : float.Float → ℤ
  pub E : Type 0
  pub X : Type 0
  pub State : Type 0
  pub produce : State → List Record → State × Try (ProduceError E) (List (Result E))
  pub codec : Codec
  pub unmarshal : Bytes → Option RawProduceRequest
  pub media_type : Bytes → Option Bytes
  pub languages : Languages X
  pub texts : Texts E

-- What the handler relies on: a call that succeeds answers each record, in order.
abbrev pub AnswersAll : Env → Type 0
AnswersAll env =
    (s : env.State) (records : List Record) (results : List (Result env.E))
    → (env.produce s records).1 ≡ ok results
    → length results ≡ length records

module _ (env : Env) where
  abbrev float : Float64
  float = env.float

  abbrev Float : Type 0
  Float = env.float.Float

  abbrev pub Time : Type 0
  Time = env.float.Time

  -- A duration is in nanoseconds.
  pub record Config : Type 0 where
    pub max_request_bytes : ℤ
    pub max_records : ℤ
    pub max_record_bytes : ℤ
    pub max_key_bytes : ℤ
    pub max_headers : ℤ
    pub max_header_bytes : ℤ
    pub allowed_topics : List Bytes
    pub produce_timeout : ℤ
    pub bearer_tokens : List Bytes
    pub cluster_id : Bytes
    pub rate_limit_requests_per_second : Float
    pub rate_limit_requests_burst : ℤ
    pub rate_limit_bytes_per_second : Float
    pub rate_limit_bytes_burst : ℤ

  unfoldable pub with_defaults : Config → Config
  unfolding eq_bytes trim_space
  with_defaults cfg = record cfg {
    max_request_bytes = positive_or cfg.max_request_bytes (pos 8388608);
    max_records = positive_or cfg.max_records (pos 1000);
    max_record_bytes = positive_or cfg.max_record_bytes (pos 1048576);
    max_key_bytes = positive_or cfg.max_key_bytes (pos 1048576);
    max_headers = positive_or cfg.max_headers (pos 64);
    max_header_bytes = positive_or cfg.max_header_bytes (pos 65536);
    produce_timeout = positive_or cfg.produce_timeout (pos 30000000000);
    cluster_id = if eq_bytes (trim_space cfg.cluster_id) [] then bytes "local" else cfg.cluster_id;
  }

  unfoldable pub decode_limits : Config → DecodeLimits
  decode_limits cfg = record {
    max_records = cfg.max_records;
    max_record_bytes = cfg.max_record_bytes;
    max_key_bytes = cfg.max_key_bytes;
    max_headers = cfg.max_headers;
    max_header_bytes = cfg.max_header_bytes;
  }

  abbrev pub max_int64 : ℤ → ℤ → ℤ
  max_int64 a b = if ltb_ℤ b a then a else b

  -- The encoder is a pointer, and so is the registry in it. Metrics may be absent.
  pub record Handler : Type 0 where
    pub cfg : Config
    pub tokens : List Bytes
    pub allowed : AllowedTopics
    pub schema_encoder : Option (Option (Registry env.X))
    pub has_metrics : Bool

  -- The limiters that NewHandlerWithSchema makes, at the reading of the clock.
  unfoldable pub request_limiter : Config → Time → Option (Limiter float)
  unfolding new
  request_limiter cfg now =
      let rate = cfg.rate_limit_requests_per_second in
      let burst = positive_or cfg.rate_limit_requests_burst (env.ceil rate) in
      if float.lt float.zero rate then new float rate burst now else none

  unfoldable pub byte_limiter : Config → Time → Option (Limiter float)
  unfolding new
  byte_limiter cfg now =
      let rate = cfg.rate_limit_bytes_per_second in
      let burst =
        positive_or cfg.rate_limit_bytes_burst (max_int64 (env.ceil rate) cfg.max_request_bytes) in
      if float.lt float.zero rate then new float rate burst now else none

  unfoldable pub new_handler_with_schema :
      Config → Option (Option (Registry env.X)) → Bool → Handler
  unfolding with_defaults allowed_of tokens_of
  new_handler_with_schema cfg encoder has_metrics = record {
    cfg = with_defaults cfg;
    tokens = tokens_of cfg.bearer_tokens;
    allowed = allowed_of cfg.allowed_topics;
    schema_encoder = encoder;
    has_metrics = has_metrics;
  }
