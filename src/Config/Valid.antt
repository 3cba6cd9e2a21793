-- ===== src/Config/Valid.antt =====
-- The configurations that are accepted.
use kafka_rest_proxy_go.Common.{
  sym, sym, ◌≡◌, ◌≢◌, ◌↔◌, refl, subst, Bool, true, false, not, ◌||◌, Option, List, [], ◌∷◌, All,
  arith,
}
use kafka_rest_proxy_go.Common.Int.{negsuc, ℤ, pos, ◌≤ℤ◌}
use kafka_rest_proxy_go.Common.Try.{ok, ok_inj}
use kafka_rest_proxy_go.Producer.{Bytes}
use kafka_rest_proxy_go.RateLimit.{Float64}
use kafka_rest_proxy_go.Config.{Config}
use kafka_rest_proxy_go.Config.Env.{Environment}
use kafka_rest_proxy_go.Config.Load.{
  ConfigError, run_checks, checks, read_config, load_from_env, is_nil, is_positive, is_nonnegative,
  is_unset, same_bool,
}

module _ (f : Float64) where
  -- The limits are positive, or not negative, and settings that belong together are set together.
  pub record IsValid (cfg : Config f.Float) : Type 0 where
    pub some_broker : cfg.kafka.brokers ≢ []
    pub records_positive : pos 1 ≤ℤ cfg.request_max_records
    pub bytes_positive : pos 1 ≤ℤ cfg.request_max_bytes
    pub record_bytes_positive : pos 1 ≤ℤ cfg.request_max_record_bytes
    pub key_bytes_positive : pos 1 ≤ℤ cfg.request_max_key_bytes
    pub headers_nonnegative : pos 0 ≤ℤ cfg.request_max_headers
    pub header_bytes_positive : pos 1 ≤ℤ cfg.request_max_header_bytes
    pub requests_rate : f.lt cfg.rate_limit.requests_per_second f.zero ≡ false
    pub requests_burst : pos 0 ≤ℤ cfg.rate_limit.requests_burst
    pub bytes_rate : f.lt cfg.rate_limit.bytes_per_second f.zero ≡ false
    pub bytes_burst : pos 0 ≤ℤ cfg.rate_limit.bytes_burst
    pub buffered_records : pos 1 ≤ℤ cfg.kafka.max_buffered_records
    pub buffered_bytes : pos 1 ≤ℤ cfg.kafka.max_buffered_bytes
    pub tls_files : (cfg.kafka.tls.cert_file ≡ []) ↔ (cfg.kafka.tls.key_file ≡ [])
    pub sasl :
        cfg.kafka.sasl.mechanism ≢ []
        → (cfg.kafka.sasl.username ≢ []) × (cfg.kafka.sasl.password ≢ [])

run_checks-All :
    {A : Type 0} (a b : A) (cs : List (Bool × ConfigError))
    → run_checks a cs ≡ ok b
    → (a ≡ b) × All (λ c. c.0 ≡ true) cs
run_checks-All a b [] e = (ok_inj e, tt)
run_checks-All a b ((true, fault) ∷ cs) e =
    let (same, all) = run_checks-All a b cs e in (same, (refl, all))
run_checks-All a b ((false, fault) ∷ cs) e = cc

All-run_checks :
    {A : Type 0} (a : A) (cs : List (Bool × ConfigError))
    → All (λ c. c.0 ≡ true) cs
    → run_checks a cs ≡ ok a
All-run_checks a [] all = refl
All-run_checks a ((true, fault) ∷ cs) (h, all) = All-run_checks a cs all
All-run_checks a ((false, fault) ∷ cs) (h, all) = cc

positive_iff : (n : ℤ) → (is_positive n ≡ true) ↔ (pos 1 ≤ℤ n)
positive_iff (pos n) = (λ h. ground arith, λ h. ground arith)
positive_iff (negsuc n) = (λ h. ground arith, λ h. ground arith)

nonnegative_iff : (n : ℤ) → (is_nonnegative n ≡ true) ↔ (pos 0 ≤ℤ n)
nonnegative_iff (pos n) = (λ h. ground arith, λ h. ground arith)
nonnegative_iff (negsuc n) = (λ h. ground arith, λ h. ground arith)

not_iff : (b : Bool) → (not b ≡ true) ↔ (b ≡ false)
not_iff true = (λ h. cc, λ h. cc)
not_iff false = (λ h. refl, λ h. refl)

some_iff : (xs : List Bytes) → (not (is_nil xs) ≡ true) ↔ (xs ≢ [])
some_iff [] = (λ h. cc, λ h. absurd (h refl))
some_iff (x ∷ xs) = (λ h e. cc, λ h. refl)

together_iff : (a b : Bytes) → (same_bool (is_unset a) (is_unset b) ≡ true) ↔ ((a ≡ []) ↔ (b ≡ []))
together_iff [] [] = (λ h. (λ x. refl, λ x. refl), λ h. refl)
together_iff [] (c ∷ b) = (λ h. cc, λ h. cc (h.0 refl))
together_iff (c ∷ a) [] = (λ h. cc, λ h. cc (h.1 refl))
together_iff (c ∷ a) (d ∷ b) = (λ h. (λ x. cc, λ x. cc), λ h. refl)

sasl_iff :
    (m u p : Bytes)
    → (is_unset m || not (is_unset u || is_unset p) ≡ true) ↔ (m ≢ [] → (u ≢ []) × (p ≢ []))
sasl_iff [] u p = (λ h ne. absurd (ne refl), λ h. refl)
sasl_iff (c ∷ m) [] p = (λ h. cc, λ h. absurd ((h (λ x. cc)).0 refl))
sasl_iff (c ∷ m) (d ∷ u) [] = (λ h. cc, λ h. absurd ((h (λ x. cc)).1 refl))
sasl_iff (c ∷ m) (d ∷ u) (e ∷ p) = (λ h ne. (λ x. cc, λ x. cc), λ h. refl)

module _ (f : Float64) where
  checks-IsValid : (cfg : Config f.Float) → All (λ c. c.0 ≡ true) (checks f cfg) → IsValid f cfg
  checks-IsValid cfg
        (a, (b, (c, (d, (e, (g, (h, (i, (j, (k, (l, (m, (n, (o, (p, end))))))))))))))) =
      record {
        some_broker = (some_iff _).0 a;
        records_positive = (positive_iff _).0 b;
        bytes_positive = (positive_iff _).0 c;
        record_bytes_positive = (positive_iff _).0 d;
        key_bytes_positive = (positive_iff _).0 e;
        headers_nonnegative = (nonnegative_iff _).0 g;
        header_bytes_positive = (positive_iff _).0 h;
        requests_rate = (not_iff _).0 i;
        requests_burst = (nonnegative_iff _).0 j;
        bytes_rate = (not_iff _).0 k;
        bytes_burst = (nonnegative_iff _).0 l;
        buffered_records = (positive_iff _).0 m;
        buffered_bytes = (positive_iff _).0 n;
        tls_files = (together_iff _ _).0 o;
        sasl = (sasl_iff _ _ _).0 p;
      }

  IsValid-checks : (cfg : Config f.Float) → IsValid f cfg → All (λ c. c.0 ≡ true) (checks f cfg)
  IsValid-checks cfg v = (
    (some_iff _).1 v.some_broker,
    (
      (positive_iff _).1 v.records_positive,
      (
        (positive_iff _).1 v.bytes_positive,
        (
          (positive_iff _).1 v.record_bytes_positive,
          (
            (positive_iff _).1 v.key_bytes_positive,
            (
              (nonnegative_iff _).1 v.headers_nonnegative,
              (
                (positive_iff _).1 v.header_bytes_positive,
                (
                  (not_iff _).1 v.requests_rate,
                  (
                    (nonnegative_iff _).1 v.requests_burst,
                    (
                      (not_iff _).1 v.bytes_rate,
                      (
                        (nonnegative_iff _).1 v.bytes_burst,
                        (
                          (positive_iff _).1 v.buffered_records,
                          (
                            (positive_iff _).1 v.buffered_bytes,
                            ((together_iff _ _).1 v.tls_files, ((sasl_iff _ _ _).1 v.sasl, tt)),
                          ),
                        ),
                      ),
                    ),
                  ),
                ),
              ),
            ),
          ),
        ),
      ),
    ),
  )

module _ (f : Float64) (parse_float : Bytes → Option f.Float)
    (parse_duration : Bytes → Option ℤ) where
  -- LoadFromEnv succeeds with exactly the configurations that are read from the environment and valid:
  -- at least one broker, positive limits on bytes, records and buffers, no negative limit on headers, rate or
  -- burst, the two TLS files set together, and a user and a password with a SASL mechanism.
  pub load_from_env_iff :
      (getenv : Environment) (cfg : Config f.Float)
      → (load_from_env f parse_float parse_duration getenv ≡ ok cfg)
        ↔ ((read_config f parse_float parse_duration getenv ≡ cfg) × IsValid f cfg)
  unfolding load_from_env
  load_from_env_iff getenv cfg =
      let read = read_config f parse_float parse_duration getenv in
      (
        λ e.
            let (same, all) = run_checks-All read cfg (checks f read) e in
            (same, subst (IsValid f) same (checks-IsValid f read all)),
        λ h.
            let (same, valid) = h in
            subst (λ x. run_checks read (checks f read) ≡ ok x) same
              (All-run_checks read (checks f read)
                (IsValid-checks f read (subst (IsValid f) (sym same) valid))),
      )
