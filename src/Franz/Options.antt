-- ===== src/Franz/Options.antt =====
-- The settings of the Kafka client in internal/producer/franz/producer.go: New up to the call of
-- kgo.NewClient, and what it asks. Files, x509, tls and the client are parameters.
pub mod Accepted
mod Tests
use kafka_rest_proxy_go.Common.{
  Bool, true, false, not, ◌&&◌, ◌||◌, Option, none, some, List, [], ◌∷◌, if◌then◌else◌,
}
use kafka_rest_proxy_go.Common.Int.{ℤ}
use kafka_rest_proxy_go.Common.Try.{Try, ok, err, ◌>>=◌, require, found}
use kafka_rest_proxy_go.Producer.{Bytes}
use kafka_rest_proxy_go.Go.Strings.{bytes, eq_bytes, trim_space, to_lower, to_upper}
use kafka_rest_proxy_go.Limits.{Admission, new_admission}
use kafka_rest_proxy_go.Config.{KafkaConfig, TlsConfig, SaslConfig}

pub data Acks : Type 0 where
  no_ack leader_ack all_isr_acks : Acks

pub data Compression : Type 0 where
  no_compression gzip snappy lz4 zstd : Compression

-- With the user and the password.
pub data Mechanism : Type 0 where
  plain scram_sha_256 scram_sha_512 : Bytes → Bytes → Mechanism

pub data OptionError : Type 0 where
  unsupported_compression unsupported_mechanism : Bytes → OptionError
  ca_unreadable ca_without_certificates tls_files_apart pair_unreadable : OptionError
  client_refused : OptionError

-- `roots` reads certificates from PEM, `load_pair` a certificate and its key from their files.
pub record Libraries (Roots Certificate : Type 0) : Type 0 where
  pub read_file : Bytes → Option Bytes
  pub roots : Bytes → Option Roots
  pub load_pair : Bytes → Bytes → Option Certificate

pub record TlsSettings (Roots Certificate : Type 0) : Type 0 where
  pub insecure_skip_verify : Bool
  pub root_cas : Option Roots
  pub certificate : Option Certificate

pub record Options (Roots Certificate : Type 0) : Type 0 where
  pub seed_brokers : List Bytes
  pub client_id : Bytes
  pub max_buffered_records : ℤ
  pub max_buffered_bytes : ℤ
  pub linger : ℤ
  pub batch_max_bytes : ℤ
  pub request_timeout : ℤ
  pub delivery_timeout : ℤ
  pub acks : Acks
  pub compression : List Compression
  pub tls : Option (TlsSettings Roots Certificate)
  pub sasl : Option Mechanism

unfoldable pub is_one_of : List Bytes → Bytes → Bool
unfolding eq_bytes
is_one_of [] s = false
is_one_of (x ∷ xs) s = eq_bytes s x || is_one_of xs s

unfoldable pub required_acks : Bytes → Acks
unfolding is_one_of to_lower trim_space
required_acks v =
    let s = to_lower (trim_space v) in
    if is_one_of (bytes "0" ∷ bytes "none" ∷ bytes "noack" ∷ bytes "no-ack" ∷ []) s
    then no_ack
    else if is_one_of (bytes "1" ∷ bytes "leader" ∷ []) s
    then leader_ack
    else all_isr_acks

unfoldable pub compression_preference : Bytes → Try OptionError (List Compression)
unfolding is_one_of to_lower trim_space eq_bytes
compression_preference v =
    let s = to_lower (trim_space v) in
    if is_one_of ([] ∷ bytes "default" ∷ []) s
    then ok []
    else if is_one_of (bytes "none" ∷ bytes "off" ∷ bytes "false" ∷ []) s
    then ok (no_compression ∷ [])
    else if eq_bytes s (bytes "gzip")
    then ok (gzip ∷ [])
    else if eq_bytes s (bytes "snappy")
    then ok (snappy ∷ [])
    else if eq_bytes s (bytes "lz4")
    then ok (lz4 ∷ no_compression ∷ [])
    else if eq_bytes s (bytes "zstd")
    then ok (zstd ∷ lz4 ∷ no_compression ∷ [])
    else err (unsupported_compression v)

unfoldable pub sasl_mechanism : SaslConfig → Try OptionError (Option Mechanism)
unfolding is_one_of to_upper trim_space eq_bytes
sasl_mechanism cfg =
    let s = to_upper (trim_space cfg.mechanism) in
    if eq_bytes s []
    then ok none
    else if eq_bytes s (bytes "PLAIN")
    then ok (some (plain cfg.username cfg.password))
    else if is_one_of (bytes "SCRAM-SHA-256" ∷ bytes "SCRAM_SHA_256" ∷ []) s
    then ok (some (scram_sha_256 cfg.username cfg.password))
    else if is_one_of (bytes "SCRAM-SHA-512" ∷ bytes "SCRAM_SHA_512" ∷ []) s
    then ok (some (scram_sha_512 cfg.username cfg.password))
    else err (unsupported_mechanism cfg.mechanism)

abbrev pub is_unset : Bytes → Bool
is_unset [] = true
is_unset (c ∷ s) = false

module _ {Roots Certificate : Type 0} (libs : Libraries Roots Certificate) where
  abbrev pub load_roots : Bytes → Try OptionError (Option Roots)
  load_roots [] = ok none
  load_roots (c ∷ file) = do
    pem ← found (libs.read_file (c ∷ file)) ca_unreadable
    roots ← found (libs.roots pem) ca_without_certificates
    ok (some roots)

  abbrev pub load_certificate : Bytes → Bytes → Try OptionError (Option Certificate)
  load_certificate [] [] = ok none
  load_certificate [] (k ∷ key) = err tls_files_apart
  load_certificate (c ∷ cert) [] = err tls_files_apart
  load_certificate (c ∷ cert) (k ∷ key) = do
    certificate ← found (libs.load_pair (c ∷ cert) (k ∷ key)) pair_unreadable
    ok (some certificate)

  unfoldable pub new_tls_config : TlsConfig → Try OptionError (TlsSettings Roots Certificate)
  new_tls_config cfg = do
    roots ← load_roots cfg.ca_file
    certificate ← load_certificate cfg.cert_file cfg.key_file
    ok (record {
      insecure_skip_verify = cfg.insecure_skip_verify;
      root_cas = roots;
      certificate = certificate;
    })

  abbrev pub tls_of : Bool → TlsConfig → Try OptionError (Option (TlsSettings Roots Certificate))
  tls_of false cfg = ok none
  tls_of true cfg = do settings ← new_tls_config cfg; ok (some settings)

  -- New, for a client that takes the options or not.
  unfoldable pub new_producer :
      (Options Roots Certificate → Bool)
      → KafkaConfig
      → Try OptionError (Options Roots Certificate × Admission)
  unfolding required_acks compression_preference sasl_mechanism new_tls_config
  new_producer new_client cfg = do
    compression ← compression_preference cfg.compression
    tls ← tls_of cfg.tls.enable cfg.tls
    sasl ← sasl_mechanism cfg.sasl
    let options : Options Roots Certificate = record {
      seed_brokers = cfg.brokers;
      client_id = cfg.client_id;
      max_buffered_records = cfg.max_buffered_records;
      max_buffered_bytes = cfg.max_buffered_bytes;
      linger = cfg.linger;
      batch_max_bytes = cfg.batch_max_bytes;
      request_timeout = cfg.request_timeout;
      delivery_timeout = cfg.delivery_timeout;
      acks = required_acks cfg.required_acks;
      compression = compression;
      tls = tls;
      sasl = sasl;
    }
    taken ← require (new_client options) client_refused
    ok (options, new_admission cfg.max_buffered_records cfg.max_buffered_bytes)
