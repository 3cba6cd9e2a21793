-- ===== src/Config.antt =====
-- internal/config/config.go: the configuration from the environment, and its validation. os.Getenv is
-- a function, empty on a name that is not set; strconv.ParseFloat and time.ParseDuration are
-- parameters, none on an error. A duration is in nanoseconds.
pub mod Env
pub mod Load
pub mod Valid
pub mod Served
mod Tests
use kafka_rest_proxy_go.Common.{Bool, List}
use kafka_rest_proxy_go.Common.Int.{ℤ}
use kafka_rest_proxy_go.Producer.{Bytes}

pub record SchemaRegistryConfig : Type 0 where
  pub url : Bytes
  pub username : Bytes
  pub password : Bytes

pub record TlsConfig : Type 0 where
  pub enable : Bool
  pub insecure_skip_verify : Bool
  pub ca_file : Bytes
  pub cert_file : Bytes
  pub key_file : Bytes

pub record SaslConfig : Type 0 where
  pub mechanism : Bytes
  pub username : Bytes
  pub password : Bytes

pub record KafkaConfig : Type 0 where
  pub brokers : List Bytes
  pub client_id : Bytes
  pub required_acks : Bytes
  pub compression : Bytes
  pub linger : ℤ
  pub delivery_timeout : ℤ
  pub request_timeout : ℤ
  pub batch_max_bytes : ℤ
  pub max_buffered_records : ℤ
  pub max_buffered_bytes : ℤ
  pub tls : TlsConfig
  pub sasl : SaslConfig

module _ (Float : Type 0) where
  pub record RateLimitConfig : Type 0 where
    pub requests_per_second : Float
    pub requests_burst : ℤ
    pub bytes_per_second : Float
    pub bytes_burst : ℤ

  pub record Config : Type 0 where
    pub http_addr : Bytes
    pub pprof_enable : Bool
    pub read_header_timeout : ℤ
    pub shutdown_timeout : ℤ
    pub produce_timeout : ℤ
    pub request_max_bytes : ℤ
    pub request_max_records : ℤ
    pub request_max_record_bytes : ℤ
    pub request_max_key_bytes : ℤ
    pub request_max_headers : ℤ
    pub request_max_header_bytes : ℤ
    pub topic_allowlist : List Bytes
    pub auth_bearer_tokens : List Bytes
    pub cluster_id : Bytes
    pub rate_limit : RateLimitConfig
    pub schema_registry : SchemaRegistryConfig
    pub kafka : KafkaConfig
