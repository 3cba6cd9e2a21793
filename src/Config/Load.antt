-- ===== src/Config/Load.antt =====
-- LoadFromEnv of internal/config/config.go.
use kafka_rest_proxy_go.Common.{Bool, true, false, not, ◌||◌, Option, List, [], ◌∷◌}
use kafka_rest_proxy_go.Common.Int.{ℤ, pos, ltb_ℤ}
use kafka_rest_proxy_go.Common.Try.{Try, ok, err}
use kafka_rest_proxy_go.Producer.{Bytes}
use kafka_rest_proxy_go.Go.Strings.{bytes}
use kafka_rest_proxy_go.RateLimit.{Float64}
use kafka_rest_proxy_go.Config.{Config}
use kafka_rest_proxy_go.Config.Env.{
  Environment, env_string, env_bool, env_int, env_int64, env_csv, env_csv_default, env_float,
  env_duration, int32_of,
}

pub data ConfigError : Type 0 where
  brokers_empty max_records_not_positive max_bytes_not_positive : ConfigError
  max_record_bytes_not_positive max_key_bytes_not_positive : ConfigError
  max_headers_negative max_header_bytes_not_positive : ConfigError
  requests_rate_negative requests_burst_negative : ConfigError
  bytes_rate_negative bytes_burst_negative : ConfigError
  buffered_records_not_positive buffered_bytes_not_positive : ConfigError
  tls_files_apart sasl_incomplete : ConfigError

abbrev pub is_positive : ℤ → Bool
is_positive n = ltb_ℤ (pos 0) n

abbrev pub is_nonnegative : ℤ → Bool
is_nonnegative n = not (ltb_ℤ n (pos 0))

abbrev pub is_unset : Bytes → Bool
is_unset [] = true
is_unset (c ∷ s) = false

abbrev pub is_nil : List Bytes → Bool
is_nil [] = true
is_nil (p ∷ ps) = false

abbrev pub same_bool : Bool → Bool → Bool
same_bool true b = b
same_bool false b = not b

-- The checks in their order; the error is that of the first one that does not hold.
abbrev pub run_checks : {A : Type 0} → A → List (Bool × ConfigError) → Try ConfigError A
run_checks a [] = ok a
run_checks a ((true, e) ∷ checks) = run_checks a checks
run_checks a ((false, e) ∷ checks) = err e

module _ (f : Float64) where
  abbrev pub checks : Config f.Float → List (Bool × ConfigError)
  checks cfg =
      (not (is_nil cfg.kafka.brokers), brokers_empty)
      ∷ (is_positive cfg.request_max_records, max_records_not_positive)
      ∷ (is_positive cfg.request_max_bytes, max_bytes_not_positive)
      ∷ (is_positive cfg.request_max_record_bytes, max_record_bytes_not_positive)
      ∷ (is_positive cfg.request_max_key_bytes, max_key_bytes_not_positive)
      ∷ (is_nonnegative cfg.request_max_headers, max_headers_negative)
      ∷ (is_positive cfg.request_max_header_bytes, max_header_bytes_not_positive)
      ∷ (not (f.lt cfg.rate_limit.requests_per_second f.zero), requests_rate_negative)
      ∷ (is_nonnegative cfg.rate_limit.requests_burst, requests_burst_negative)
      ∷ (not (f.lt cfg.rate_limit.bytes_per_second f.zero), bytes_rate_negative)
      ∷ (is_nonnegative cfg.rate_limit.bytes_burst, bytes_burst_negative)
      ∷ (is_positive cfg.kafka.max_buffered_records, buffered_records_not_positive)
      ∷ (is_positive cfg.kafka.max_buffered_bytes, buffered_bytes_not_positive)
      ∷ (
        same_bool (is_unset cfg.kafka.tls.cert_file) (is_unset cfg.kafka.tls.key_file),
        tls_files_apart,
      )
      ∷ (
        is_unset cfg.kafka.sasl.mechanism
            || not (is_unset cfg.kafka.sasl.username || is_unset cfg.kafka.sasl.password),
        sasl_incomplete,
      )
      ∷ []

module _ (f : Float64) (parse_float : Bytes → Option f.Float)
    (parse_duration : Bytes → Option ℤ) where
  unfoldable pub read_config : Environment → Config f.Float
  unfolding env_string env_bool env_int env_int64 env_csv env_csv_default env_float env_duration
      int32_of
  read_config getenv =
      let string = env_string getenv in
      let duration = env_duration parse_duration getenv in
      let float = env_float parse_float getenv in
      record {
        http_addr = string (bytes "HTTP_ADDR") (bytes ":8080");
        pprof_enable = env_bool getenv (bytes "PPROF_ENABLE") false;
        read_header_timeout = duration (bytes "HTTP_READ_HEADER_TIMEOUT") (pos 5000000000);
        shutdown_timeout = duration (bytes "SHUTDOWN_TIMEOUT") (pos 20000000000);
        produce_timeout = duration (bytes "PRODUCE_TIMEOUT") (pos 30000000000);
        request_max_bytes = env_int64 getenv (bytes "REQUEST_MAX_BYTES") (pos 8388608);
        request_max_records = env_int getenv (bytes "REQUEST_MAX_RECORDS") (pos 1000);
        request_max_record_bytes =
            env_int64 getenv (bytes "REQUEST_MAX_RECORD_BYTES") (pos 1048576);
        request_max_key_bytes = env_int64 getenv (bytes "REQUEST_MAX_KEY_BYTES") (pos 1048576);
        request_max_headers = env_int getenv (bytes "REQUEST_MAX_HEADERS") (pos 64);
        request_max_header_bytes = env_int64 getenv (bytes "REQUEST_MAX_HEADER_BYTES") (pos 65536);
        topic_allowlist = env_csv getenv (bytes "TOPIC_ALLOWLIST");
        auth_bearer_tokens = env_csv getenv (bytes "AUTH_BEARER_TOKENS");
        cluster_id = string (bytes "KAFKA_CLUSTER_ID") (bytes "local");
        rate_limit = record {
          requests_per_second = float (bytes "RATE_LIMIT_REQUESTS_PER_SECOND") f.zero;
          requests_burst = env_int64 getenv (bytes "RATE_LIMIT_REQUESTS_BURST") (pos 0);
          bytes_per_second = float (bytes "RATE_LIMIT_BYTES_PER_SECOND") f.zero;
          bytes_burst = env_int64 getenv (bytes "RATE_LIMIT_BYTES_BURST") (pos 0);
        };
        schema_registry = record {
          url = string (bytes "SCHEMA_REGISTRY_URL") [];
          username = string (bytes "SCHEMA_REGISTRY_USERNAME") [];
          password = string (bytes "SCHEMA_REGISTRY_PASSWORD") [];
        };
        kafka = record {
          brokers = env_csv_default getenv (bytes "KAFKA_BROKERS") (bytes "localhost:9092" ∷ []);
          client_id = string (bytes "KAFKA_CLIENT_ID") (bytes "kafka-rest-proxy-go");
          required_acks = string (bytes "KAFKA_REQUIRED_ACKS") (bytes "all");
          compression = string (bytes "KAFKA_COMPRESSION") (bytes "lz4");
          linger = duration (bytes "KAFKA_LINGER") (pos 0);
          delivery_timeout = duration (bytes "KAFKA_DELIVERY_TIMEOUT") (pos 30000000000);
          request_timeout = duration (bytes "KAFKA_REQUEST_TIMEOUT") (pos 10000000000);
          batch_max_bytes = int32_of (env_int getenv (bytes "KAFKA_BATCH_MAX_BYTES") (pos 1048576));
          max_buffered_records = env_int getenv (bytes "KAFKA_MAX_BUFFERED_RECORDS") (pos 100000);
          max_buffered_bytes = env_int getenv (bytes "KAFKA_MAX_BUFFERED_BYTES") (pos 134217728);
          tls = record {
            enable = env_bool getenv (bytes "KAFKA_TLS_ENABLE") false;
            insecure_skip_verify = env_bool getenv (bytes "KAFKA_TLS_INSECURE_SKIP_VERIFY") false;
            ca_file = string (bytes "KAFKA_TLS_CA_FILE") [];
            cert_file = string (bytes "KAFKA_TLS_CERT_FILE") [];
            key_file = string (bytes "KAFKA_TLS_KEY_FILE") [];
          };
          sasl = record {
            mechanism = string (bytes "KAFKA_SASL_MECHANISM") [];
            username = string (bytes "KAFKA_SASL_USERNAME") [];
            password = string (bytes "KAFKA_SASL_PASSWORD") [];
          };
        };
      }

  unfoldable pub load_from_env : Environment → Try ConfigError (Config f.Float)
  unfolding read_config
  load_from_env getenv = let cfg = read_config getenv in run_checks cfg (checks f cfg)
