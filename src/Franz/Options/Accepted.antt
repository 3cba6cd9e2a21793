-- ===== src/Franz/Options/Accepted.antt =====
-- The settings that an accepted configuration gives to the client and the controller.
use kafka_rest_proxy_go.Go.Strings.{bytes, eq_bytes, eq_bytes_iff, to_lower, to_upper, trim_space}
use kafka_rest_proxy_go.Common.{
  arith, inl, inr, ◌⊎◌, Bool-cases, ◌∷◌, some, none, true, Option, List, subst, ◌≡◌, ◌≢◌, refl,
  Bool, [],
}
use kafka_rest_proxy_go.Common.Int.{pos, ◌≤ℤ◌}
use kafka_rest_proxy_go.Common.Try.{ok_inj, Try, ok_pair, require, ok, >>=-eq-ok}
use kafka_rest_proxy_go.RateLimit.{Float64}
use kafka_rest_proxy_go.Limits.{Admission}
use kafka_rest_proxy_go.Config.{SaslConfig, Config, KafkaConfig}
use kafka_rest_proxy_go.Config.Valid.{IsValid}
use kafka_rest_proxy_go.Producer.{Bytes}
use kafka_rest_proxy_go.Franz.Options.{
  zstd, OptionError, lz4, all_isr_acks, snappy, leader_ack, gzip, scram_sha_512, no_compression,
  scram_sha_256, no_ack, plain, Mechanism, Acks, is_one_of, Compression, client_refused,
  required_acks, Libraries, Options, tls_of, compression_preference, sasl_mechanism, new_producer,
}

-- One of the names that are listed.
abbrev pub OneOf : List Bytes → Bytes → Type 0
OneOf [] s = ⊥
OneOf (x ∷ xs) s = (s ≡ x) ⊎ OneOf xs s

-- The names that the settings take.
abbrev pub none_names : List Bytes
none_names = bytes "0" ∷ bytes "none" ∷ bytes "noack" ∷ bytes "no-ack" ∷ []

abbrev pub leader_names : List Bytes
leader_names = bytes "1" ∷ bytes "leader" ∷ []

abbrev pub default_names : List Bytes
default_names = [] ∷ bytes "default" ∷ []

abbrev pub off_names : List Bytes
off_names = bytes "none" ∷ bytes "off" ∷ bytes "false" ∷ []

abbrev pub sha_256_names : List Bytes
sha_256_names = bytes "SCRAM-SHA-256" ∷ bytes "SCRAM_SHA_256" ∷ []

abbrev pub sha_512_names : List Bytes
sha_512_names = bytes "SCRAM-SHA-512" ∷ bytes "SCRAM_SHA_512" ∷ []

-- The acknowledgements that a normalised name asks for.
pub data AcksNamed (s : Bytes) : Acks → Type 0 where
  asks_none : OneOf none_names s → AcksNamed s no_ack
  asks_leader : OneOf leader_names s → AcksNamed s leader_ack
  asks_all : ¬ OneOf none_names s → ¬ OneOf leader_names s → AcksNamed s all_isr_acks

-- The codecs that a normalised name stands for, the preferred first.
pub data CompressionNamed (s : Bytes) : List Compression → Type 0 where
  of_client : OneOf default_names s → CompressionNamed s []
  of_none : OneOf off_names s → CompressionNamed s (no_compression ∷ [])
  of_gzip : s ≡ bytes "gzip" → CompressionNamed s (gzip ∷ [])
  of_snappy : s ≡ bytes "snappy" → CompressionNamed s (snappy ∷ [])
  of_lz4 : s ≡ bytes "lz4" → CompressionNamed s (lz4 ∷ no_compression ∷ [])
  of_zstd : s ≡ bytes "zstd" → CompressionNamed s (zstd ∷ lz4 ∷ no_compression ∷ [])

-- The mechanism that a normalised name stands for, with its user and password.
pub data MechanismNamed (user password s : Bytes) : Option Mechanism → Type 0 where
  no_sasl : s ≡ [] → MechanismNamed user password s none
  of_plain : s ≡ bytes "PLAIN" → MechanismNamed user password s (some (plain user password))
  of_sha_256 :
      OneOf sha_256_names s → MechanismNamed user password s (some (scram_sha_256 user password))
  of_sha_512 :
      OneOf sha_512_names s → MechanismNamed user password s (some (scram_sha_512 user password))

is_one_of-OneOf : (xs : List Bytes) (s : Bytes) → is_one_of xs s ≡ true → OneOf xs s
unfolding is_one_of
is_one_of-OneOf [] s e = absurd (ground arith)
is_one_of-OneOf (x ∷ xs) s e = elim (Bool-cases (eq_bytes s x)) [
  | inl same ↦ inl ((eq_bytes_iff s x).0 same)
  | inr apart ↦ inr (is_one_of-OneOf xs s cc)
]

OneOf-is_one_of : (xs : List Bytes) (s : Bytes) → OneOf xs s → is_one_of xs s ≡ true
unfolding is_one_of
OneOf-is_one_of [] s m = elim m [ ]
OneOf-is_one_of (x ∷ xs) s (inl same) = let e = (eq_bytes_iff s x).1 same in cc
OneOf-is_one_of (x ∷ xs) s (inr later) =
    let e = OneOf-is_one_of xs s later in
    elim (Bool-cases (eq_bytes s x)) [ inl same ↦ cc | inr apart ↦ cc ]

required_acks-Named : (v : Bytes) → AcksNamed (to_lower (trim_space v)) (required_acks v)
unfolding required_acks
required_acks-Named v =
    let s = to_lower (trim_space v) in
    elim (Bool-cases (is_one_of none_names s)) [
      | inl none_asked ↦ rw none_asked (asks_none (is_one_of-OneOf none_names s none_asked))
      | inr other ↦ elim (Bool-cases (is_one_of leader_names s)) [
        | inl leader ↦ rw (other, leader) (asks_leader (is_one_of-OneOf leader_names s leader))
        | inr rest ↦
            rw (other, rest)
              (asks_all (λ m. let e = OneOf-is_one_of none_names s m in cc)
                (λ m. let e = OneOf-is_one_of leader_names s m in cc))
      ]
    ]

compression_preference-Named :
    (v : Bytes) (cs : List Compression)
    → compression_preference v ≡ ok cs
    → CompressionNamed (to_lower (trim_space v)) cs
unfolding compression_preference
compression_preference-Named v cs e =
    let s = to_lower (trim_space v) in
    let is : (ds : List Compression)
        → CompressionNamed s ds
        → ◌≡◌ {A = Try OptionError (List Compression)} (ok ds) (ok cs)
        → CompressionNamed s cs =
      λ ds named same. subst (CompressionNamed s) (ok_inj same) named in
    elim (Bool-cases (is_one_of default_names s)) [
      | inl a ↦ is [] (of_client (is_one_of-OneOf default_names s a)) cc
      | inr a ↦ elim (Bool-cases (is_one_of off_names s)) [
        | inl b ↦ is (no_compression ∷ []) (of_none (is_one_of-OneOf off_names s b)) cc
        | inr b ↦ elim (Bool-cases (eq_bytes s (bytes "gzip"))) [
          | inl c ↦ is (gzip ∷ []) (of_gzip ((eq_bytes_iff s _).0 c)) cc
          | inr c ↦ elim (Bool-cases (eq_bytes s (bytes "snappy"))) [
            | inl d ↦ is (snappy ∷ []) (of_snappy ((eq_bytes_iff s _).0 d)) cc
            | inr d ↦ elim (Bool-cases (eq_bytes s (bytes "lz4"))) [
              | inl f ↦ is (lz4 ∷ no_compression ∷ []) (of_lz4 ((eq_bytes_iff s _).0 f)) cc
              | inr f ↦ elim (Bool-cases (eq_bytes s (bytes "zstd"))) [
                | inl g ↦
                    is (zstd ∷ lz4 ∷ no_compression ∷ []) (of_zstd ((eq_bytes_iff s _).0 g)) cc
                | inr g ↦ cc
              ]
            ]
          ]
        ]
      ]
    ]

sasl_mechanism-Named :
    (cfg : SaslConfig) (m : Option Mechanism)
    → sasl_mechanism cfg ≡ ok m
    → MechanismNamed cfg.username cfg.password (to_upper (trim_space cfg.mechanism)) m
unfolding sasl_mechanism
sasl_mechanism-Named cfg m e =
    let s = to_upper (trim_space cfg.mechanism) in
    let Named : Option Mechanism → Type 0 = MechanismNamed cfg.username cfg.password s in
    let is : (n : Option Mechanism)
        → Named n
        → ◌≡◌ {A = Try OptionError (Option Mechanism)} (ok n) (ok m)
        → Named m =
      λ n named same. subst Named (ok_inj same) named in
    elim (Bool-cases (eq_bytes s [])) [
      | inl a ↦ is none (no_sasl ((eq_bytes_iff s _).0 a)) cc
      | inr a ↦ elim (Bool-cases (eq_bytes s (bytes "PLAIN"))) [
        | inl b ↦ is (some (plain cfg.username cfg.password)) (of_plain ((eq_bytes_iff s _).0 b)) cc
        | inr b ↦ elim (Bool-cases (is_one_of sha_256_names s)) [
          | inl c ↦
              is (some (scram_sha_256 cfg.username cfg.password))
                (of_sha_256 (is_one_of-OneOf sha_256_names s c)) cc
          | inr c ↦ elim (Bool-cases (is_one_of sha_512_names s)) [
            | inl d ↦
                is (some (scram_sha_512 cfg.username cfg.password))
                  (of_sha_512 (is_one_of-OneOf sha_512_names s d)) cc
            | inr d ↦ cc
          ]
        ]
      ]
    ]

-- The settings and the controller that come of a configuration.
pub record Starts {Roots Certificate : Type 0} (cfg : KafkaConfig) (o : Options Roots Certificate)
    (a : Admission) : Type 0 where
  pub some_broker : o.seed_brokers ≢ []
  pub same_records : a.max_records ≡ o.max_buffered_records
  pub same_bytes : a.max_bytes ≡ o.max_buffered_bytes
  pub records_limited : pos 1 ≤ℤ a.max_records
  pub bytes_limited : pos 1 ≤ℤ a.max_bytes
  pub unused : (a.used_records ≡ pos 0) × (a.used_bytes ≡ pos 0)
  pub acks_named : AcksNamed (to_lower (trim_space cfg.required_acks)) o.acks
  pub compression_named : CompressionNamed (to_lower (trim_space cfg.compression)) o.compression
  pub mechanism_named :
      MechanismNamed cfg.sasl.username cfg.sasl.password
        (to_upper (trim_space cfg.sasl.mechanism))
        o.sasl

module _ {Roots Certificate : Type 0} (libs : Libraries Roots Certificate) where
  -- A producer that is made of a valid configuration has a broker and an unused admission controller whose
  -- limits are positive and are those of the client's buffer. Without regard to case and to spaces around a name,
  -- its acknowledgements are none or the leader's exactly for their names and all otherwise, and compression and SASL mechanism, with
  -- user and password, are those that the configuration names.
  pub new_producer-Starts :
      (f : Float64) (new_client : Options Roots Certificate → Bool) (cfg : Config f.Float)
      (o : Options Roots Certificate) (a : Admission)
      → IsValid f cfg
      → new_producer libs new_client cfg.kafka ≡ ok (o, a)
      → Starts cfg.kafka o a
  unfolding new_producer
  new_producer-Starts f new_client cfg o a v e =
      let (compression, e1, k1) = >>=-eq-ok (compression_preference cfg.kafka.compression) _ e in
      let (tls, e2, k2) = >>=-eq-ok (tls_of libs cfg.kafka.tls.enable cfg.kafka.tls) _ k1 in
      let (sasl, e3, k3) = >>=-eq-ok (sasl_mechanism cfg.kafka.sasl) _ k2 in
      let options : Options Roots Certificate = record {
        seed_brokers = cfg.kafka.brokers;
        client_id = cfg.kafka.client_id;
        max_buffered_records = cfg.kafka.max_buffered_records;
        max_buffered_bytes = cfg.kafka.max_buffered_bytes;
        linger = cfg.kafka.linger;
        batch_max_bytes = cfg.kafka.batch_max_bytes;
        request_timeout = cfg.kafka.request_timeout;
        delivery_timeout = cfg.kafka.delivery_timeout;
        acks = required_acks cfg.kafka.required_acks;
        compression = compression;
        tls = tls;
        sasl = sasl;
      } in
      let (taken, e4, k4) = >>=-eq-ok (require (new_client options) client_refused) _ k3 in
      let (same_options, same_admission) = ok_pair k4 in
      subst (λ x. Starts cfg.kafka x a) same_options
        (subst (Starts cfg.kafka options) same_admission (record {
          some_broker = v.some_broker;
          same_records = refl;
          same_bytes = refl;
          records_limited = v.buffered_records;
          bytes_limited = v.buffered_bytes;
          unused = (refl, refl);
          acks_named = required_acks-Named cfg.kafka.required_acks;
          compression_named = compression_preference-Named cfg.kafka.compression compression e1;
          mechanism_named = sasl_mechanism-Named cfg.kafka.sasl sasl e3;
        }))
