-- ===== src/Config/Tests.antt =====
-- Tests and instances for the configuration.
use kafka_rest_proxy_go.Franz.Options.Accepted.{Starts, new_producer-Starts}
use kafka_rest_proxy_go.Limits.{Admission, new_admission}
use kafka_rest_proxy_go.Franz.Options.{
  Libraries, Options, all_isr_acks, lz4, no_compression, new_producer,
}
use kafka_rest_proxy_go.Common.{
  Bool, some, ℕ, ◌≡◌, ◌↔◌, refl, true, false, none, List, [], ◌∷◌, if◌then◌else◌, Option,
}
use kafka_rest_proxy_go.Common.Int.{ℤ, pos, negsuc}
use kafka_rest_proxy_go.Common.Try.{ok, err}
use kafka_rest_proxy_go.Producer.{Bytes}
use kafka_rest_proxy_go.Go.Strings.{bytes, eq_bytes}
use kafka_rest_proxy_go.Api.Decode.{positive_or}
use kafka_rest_proxy_go.Api.Handler.{with_defaults, decode_limits}
use kafka_rest_proxy_go.Api.Handler.Tests.{test_env}
use kafka_rest_proxy_go.Config.{Config}
use kafka_rest_proxy_go.Config.Env.{
  Environment, clean_csv, env_int, env_bool, env_duration, int32_of,
}
use kafka_rest_proxy_go.Config.Load.{
  tls_files_apart, max_records_not_positive, load_from_env, read_config,
}
use kafka_rest_proxy_go.Config.Valid.{IsValid, load_from_env_iff}
use kafka_rest_proxy_go.Config.Served.{handler_config, limits_of, decode_limits-handler_config}

abbrev lookup : List (Bytes × Bytes) → Environment
unfolding eq_bytes
lookup [] name = []
lookup ((n, v) ∷ vs) name = if eq_bytes n name then v else lookup vs name

abbrev no_float : Bytes → Option ℕ
no_float s = none

abbrev no_duration : Bytes → Option ℤ
no_duration s = none

csv : clean_csv (bytes " a, ,b ,") ≡ bytes "a" ∷ bytes "b" ∷ []
unfolding clean_csv
csv = refl

csv_blank : clean_csv (bytes "  ") ≡ []
unfolding clean_csv
csv_blank = refl

abbrev variables : Environment
unfolding lookup
variables = lookup (
    (bytes "A", bytes " 12 ")
    ∷ (bytes "B", bytes "x")
    ∷ (bytes "C", bytes "ON")
    ∷ (bytes "D", bytes "-3")
    ∷ [])

readers :
    (env_int variables (bytes "A") (pos 1) ≡ pos 12)
    × (env_int variables (bytes "B") (pos 1) ≡ pos 1)
    × (env_bool variables (bytes "C") false ≡ true)
    × (env_bool variables (bytes "B") false ≡ false)
    × (env_duration no_duration variables (bytes "D") (pos 1) ≡ negsuc 2999999)
    × (env_duration no_duration variables (bytes "E") (pos 1) ≡ pos 1)
unfolding variables lookup env_int env_bool env_duration eq_bytes
readers = (refl, refl, refl, refl, refl, refl)

-- A batch size of 2^31 becomes negative.
narrowed : int32_of (pos 2147483648) ≡ negsuc 2147483647
unfolding int32_of
narrowed = refl

abbrev small : Environment
unfolding lookup
small = lookup ((bytes "REQUEST_MAX_HEADERS", bytes "0") ∷ (bytes "KAFKA_BROKERS", bytes ",") ∷ [])

refused_configs :
    (load_from_env test_env.float no_float no_duration
        (lookup ((bytes "REQUEST_MAX_RECORDS", bytes "0") ∷ []))
      ≡ err max_records_not_positive)
    × (load_from_env test_env.float no_float no_duration
          (lookup ((bytes "KAFKA_TLS_KEY_FILE", bytes "k") ∷ []))
        ≡ err tls_files_apart)
unfolding lookup load_from_env eq_bytes
refused_configs = (refl, refl)

abbrev small_config : Config ℕ
unfolding read_config
small_config = read_config test_env.float no_float no_duration small

small_loaded : load_from_env test_env.float no_float no_duration small ≡ ok small_config
unfolding load_from_env small_config small lookup eq_bytes
small_loaded = refl

load_from_env_iff_example :
    (load_from_env test_env.float no_float no_duration small ≡ ok small_config) ↔ (
      (read_config test_env.float no_float no_duration small ≡ small_config)
      × IsValid test_env.float small_config)
load_from_env_iff_example = load_from_env_iff test_env.float no_float no_duration small small_config

decode_limits-handler_config_example :
    let served = with_defaults test_env (handler_config test_env small_config) in
    (decode_limits test_env served
      ≡ limits_of test_env small_config (positive_or small_config.request_max_headers (pos 64)))
    × (served.max_request_bytes ≡ small_config.request_max_bytes)
decode_limits-handler_config_example =
    decode_limits-handler_config test_env no_float no_duration small small_config small_loaded

abbrev files : Libraries ℕ ℕ
files = record { read_file = some; roots = λ b. some 1; load_pair = λ c k. some 2 }

abbrev takes : Options ℕ ℕ → Bool
takes o = true

abbrev options : Options ℕ ℕ
options = record {
  seed_brokers = bytes "localhost:9092" ∷ [];
  client_id = bytes "kafka-rest-proxy-go";
  max_buffered_records = pos 100000;
  max_buffered_bytes = pos 134217728;
  linger = pos 0;
  batch_max_bytes = pos 1048576;
  request_timeout = pos 10000000000;
  delivery_timeout = pos 30000000000;
  acks = all_isr_acks;
  compression = lz4 ∷ no_compression ∷ [];
  tls = none;
  sasl = none;
}

abbrev controller : Admission
controller = new_admission (pos 100000) (pos 134217728)

made : new_producer files takes small_config.kafka ≡ ok (options, controller)
unfolding new_producer small_config read_config small lookup eq_bytes
made = refl

valid : IsValid test_env.float small_config
valid =
    ((load_from_env_iff test_env.float no_float no_duration small small_config).0 small_loaded).1

new_producer-Starts_example : Starts small_config.kafka options controller
new_producer-Starts_example =
    new_producer-Starts files test_env.float takes small_config options controller valid made
