-- ===== src/Api/V3/Stream/Invariant.antt =====
-- What holds of a stream of v3 records between two records, and at its end.
use kafka_rest_proxy_go.Common.{
  ℕ, suc, ◌≤◌, ◌<◌, ◌≡◌, refl, sym, ◌∙◌, false, none, some, List, [], ◌∷◌, ◌++◌, length,
  length-append, map, arith, inl, inr, Bool-cases, ltb, All,
}
use kafka_rest_proxy_go.Common.Int.{pos, pos_part}
use kafka_rest_proxy_go.Common.Try.{ok}
use kafka_rest_proxy_go.Producer.{Bytes, Record}
use kafka_rest_proxy_go.Api.Errors.{ApiError, IsRefusal}
use kafka_rest_proxy_go.Api.Handler.{Env, Handler, decode_limits}
use kafka_rest_proxy_go.Api.Handler.World.{World}
use kafka_rest_proxy_go.Api.Handler.World.Same.{SameProducer}
use kafka_rest_proxy_go.Api.V3.{V3ProduceRecord, V3RecordEnvelope, v3_envelope_from_record}
use kafka_rest_proxy_go.Api.V3.Responses.{v3_error, of_message}
use kafka_rest_proxy_go.Api.V3.Stream.{Stream, Line, fail_stream, write_record_response}

pub length-append_last {ℓ} :
    {A : Type ℓ} (xs : List A) (y : A) → length (xs ++ y ∷ []) ≡ suc (length xs)
length-append_last xs y = ground (arith, length-append xs (y ∷ []))

pub eq_nil {ℓ} : {A : Type ℓ} (xs : List A) → ltb 0 (length xs) ≡ false → xs ≡ []
eq_nil [] e = refl
eq_nil (x ∷ xs) e = absurd (ground arith)

module _ {env : Env} where
  -- What the client sees: lines under a 200, or one error and no line.
  pub data Replied (s : Stream env) : Type 0 where
    streamed : s.error ≡ none → s.status ≡ 200 → 0 < length s.lines → Replied s
    refused :
        (e : ApiError env.E env.X)
        → s.error ≡ some e
        → s.lines ≡ []
        → s.status ≡ e.status
        → IsRefusal e
        → Replied s

  -- No error so far, and the head is written with the first line.
  pub record Writing (s : Stream env) : Type 0 where
    pub no_error : s.error ≡ none
    pub is_ok : s.status ≡ 200
    pub written : s.wrote ≡ ltb 0 (length s.lines)

  -- Records that are what a read record becomes.
  abbrev pub IsHanded : Handler env → Bytes → Record → Type 0
  IsHanded h topic r =
      (raw : V3ProduceRecord) × (v : V3RecordEnvelope) × (v3_envelope_from_record env.codec
          env.languages topic [] raw h.schema_encoder (decode_limits env h.cfg)
        ≡ ok v)
      × (v.produced_record ≡ r)

  -- From `w` to `v`, these records were handed over, each in a batch of its own.
  pub record HandedOver (h : Handler env) (topic : Bytes) (w v : World env) (count : ℕ)
      : Type 0 where
    pub handed : List Record
    pub logged : v.produced ≡ w.produced ++ map (λ r. r ∷ []) handed
    pub valid : All (IsHanded h topic) handed
    pub few : length handed ≤ count

  pub record Running (h : Handler env) (topic : Bytes) (w : World env) (s : Stream env)
      : Type 0 where
    pub writing : Writing s
    pub counted : length s.lines ≡ s.record_count
    pub within : s.record_count ≤ pos_part h.cfg.max_records
    pub over : HandedOver h topic w s.world s.record_count

  pub record Ended (h : Handler env) (topic : Bytes) (w : World env) (s : Stream env) : Type 0 where
    pub replied : Replied s
    pub lines_few : length s.lines ≤ suc (pos_part h.cfg.max_records)
    pub over : HandedOver h topic w s.world (pos_part h.cfg.max_records)

  pub write_record_response-Writing :
      (resp : Line env) (s : Stream env)
      → Writing s
      → Writing (write_record_response env resp s)
        × (length (write_record_response env resp s).lines ≡ suc (length s.lines))
  unfolding write_record_response
  write_record_response-Writing resp s k = (
    record {
      no_error = k.no_error;
      is_ok = ground (arith, k.is_ok);
      written = ground (arith, length-append_last s.lines resp);
    },
    length-append_last s.lines resp,
  )

  pub fail_stream-Replied :
      (e : ApiError env.E env.X) (s : Stream env)
      → Writing s
      → IsRefusal e
      → Replied (fail_stream env e s) × (length (fail_stream env e s).lines ≤ suc (length s.lines))
  unfolding fail_stream
  fail_stream-Replied e s k le = elim (Bool-cases s.wrote) [
    | inl wrote ↦
        let line : Line env = v3_error (pos e.code) (of_message e.message) in
        let more = length-append_last s.lines line in
        rw wrote (streamed k.no_error k.is_ok (omega (arith, more)), omega (arith, more))
    | inr fresh ↦
        let none_written = eq_nil s.lines (sym k.written ∙ fresh) in
        rw fresh (refused e refl none_written refl le, omega arith)
  ]

  pub HandedOver-same :
      {h : Handler env} {topic : Bytes} {w v u : World env} {m n : ℕ}
      → HandedOver h topic w v m
      → SameProducer v u
      → m ≤ n
      → HandedOver h topic w u n
  HandedOver-same k same le = record {
    handed = k.handed;
    logged = same.same_log ∙ k.logged;
    valid = k.valid;
    few = omega (arith, k.few, le);
  }
