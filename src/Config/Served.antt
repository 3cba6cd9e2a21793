-- ===== src/Config/Served.antt =====
-- The configuration that run of cmd/kafka-rest-proxy-go/main.go gives to the handler.
use kafka_rest_proxy_go.Common.{◌≡◌, refl, Option, arith}
use kafka_rest_proxy_go.Common.Int.{ℤ, pos, negsuc, ◌≤ℤ◌}
use kafka_rest_proxy_go.Common.Try.{ok}
use kafka_rest_proxy_go.Producer.{Bytes}
use kafka_rest_proxy_go.Api.Decode.{DecodeLimits, positive_or}
use kafka_rest_proxy_go.Api.Handler.{Env, with_defaults, decode_limits}
use kafka_rest_proxy_go.Config.{Config}
use kafka_rest_proxy_go.Config.Env.{Environment}
use kafka_rest_proxy_go.Config.Load.{load_from_env}
use kafka_rest_proxy_go.Config.Valid.{IsValid, load_from_env_iff}

module _ (env : Env) where
  unfoldable pub handler_config :
      Config env.float.Float → kafka_rest_proxy_go.Api.Handler.Config env
  handler_config cfg = record {
    max_request_bytes = cfg.request_max_bytes;
    max_records = cfg.request_max_records;
    max_record_bytes = cfg.request_max_record_bytes;
    max_key_bytes = cfg.request_max_key_bytes;
    max_headers = cfg.request_max_headers;
    max_header_bytes = cfg.request_max_header_bytes;
    allowed_topics = cfg.topic_allowlist;
    produce_timeout = cfg.produce_timeout;
    bearer_tokens = cfg.auth_bearer_tokens;
    cluster_id = cfg.cluster_id;
    rate_limit_requests_per_second = cfg.rate_limit.requests_per_second;
    rate_limit_requests_burst = cfg.rate_limit.requests_burst;
    rate_limit_bytes_per_second = cfg.rate_limit.bytes_per_second;
    rate_limit_bytes_burst = cfg.rate_limit.bytes_burst;
  }

  -- The limits of a configuration, but for headers.
  abbrev pub limits_of : Config env.float.Float → ℤ → DecodeLimits
  limits_of cfg headers = record {
    max_records = cfg.request_max_records;
    max_record_bytes = cfg.request_max_record_bytes;
    max_key_bytes = cfg.request_max_key_bytes;
    max_headers = headers;
    max_header_bytes = cfg.request_max_header_bytes;
  }

positive_or_id : (n d : ℤ) → pos 1 ≤ℤ n → positive_or n d ≡ n
positive_or_id (pos n) d h = ground arith
positive_or_id (negsuc n) d h = absurd (ground arith)

module _ (env : Env) (parse_float : Bytes → Option env.float.Float)
    (parse_duration : Bytes → Option ℤ) where
  -- A handler that is made of an accepted configuration works within the limits of that configuration,
  -- with one exception: where the limit on headers is zero, it takes 64 of them.
  pub decode_limits-handler_config :
      (getenv : Environment) (cfg : Config env.float.Float)
      → load_from_env env.float parse_float parse_duration getenv ≡ ok cfg
      → let served = with_defaults env (handler_config env cfg) in
        (decode_limits env served
          ≡ limits_of env cfg (positive_or cfg.request_max_headers (pos 64)))
        × (served.max_request_bytes ≡ cfg.request_max_bytes)
  unfolding handler_config with_defaults decode_limits
  decode_limits-handler_config getenv cfg e =
      let v : IsValid env.float cfg =
        ((load_from_env_iff env.float parse_float parse_duration getenv cfg).0 e).1 in
      (
        rw
            (
              positive_or_id cfg.request_max_records (pos 1000) v.records_positive,
              positive_or_id cfg.request_max_record_bytes (pos 1048576) v.record_bytes_positive,
              positive_or_id cfg.request_max_key_bytes (pos 1048576) v.key_bytes_positive,
              positive_or_id cfg.request_max_header_bytes (pos 65536) v.header_bytes_positive,
            )
            refl,
        positive_or_id cfg.request_max_bytes (pos 8388608) v.bytes_positive,
      )
