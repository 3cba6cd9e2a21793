-- ===== src/Api/V3/Stream/Transcript.antt =====
-- What a stream of v3 records did with the records that were read, one after another.
use kafka_rest_proxy_go.RateLimit.{Limiter, allow}
use kafka_rest_proxy_go.Common.{
  false, Option, refl, sym, ap, ◌∙◌, sym, ap, ◌∙◌, ◌<◌, suc, ◌≡◌, true, some, List, [], ◌∷◌, ◌++◌,
  length, map, ltb,
}
use kafka_rest_proxy_go.Common.Int.{pos, ltb_ℤ}
use kafka_rest_proxy_go.Common.Try.{Try, ok, err}
use kafka_rest_proxy_go.Producer.{Record, Result, ProduceError}
use kafka_rest_proxy_go.Api.Routes.{V3Target}
use kafka_rest_proxy_go.Api.Errors.{
  ApiError, api_error, as_context_error, classify_produce_error, rate_limit_exceeded,
  bad_request_body, payload_too_large, no_record, too_many_records,
}
use kafka_rest_proxy_go.Api.Handler.{Env, Handler, decode_limits}
use kafka_rest_proxy_go.Api.Handler.World.{World}
use kafka_rest_proxy_go.Api.V3.{V3RecordEnvelope, EnvelopeError, v3_envelope_from_record}
use kafka_rest_proxy_go.Api.V3.Responses.{v3_response_for_result, v3_error, of_message, of_envelope}
use kafka_rest_proxy_go.Api.V3.Stream.Invariant.{length-append_last}
use kafka_rest_proxy_go.Api.V3.Stream.{
  Stream, StreamRead, Line, BodyEnd, end_of_body, max_bytes_reached, malformed, first_result,
}

module _ {env : Env} where
  -- What a read record becomes.
  abbrev pub envelope_read :
      Handler env → V3Target → StreamRead env → Try (EnvelopeError env.X) V3RecordEnvelope
  envelope_read h target r =
      v3_envelope_from_record env.codec env.languages target.topic [] r.read_record h.schema_encoder
        (decode_limits env h.cfg)

  -- The reads that were answered, the records that were handed over for them, their lines, and the
  -- state of the producer behind them: each read is answered by one line, and is handed over by
  -- itself if it becomes an envelope.
  pub data Transcript (no_result : env.E) (h : Handler env) (target : V3Target) (start : env.State)
      : List (StreamRead env) → List Record → List (Line env) → env.State → Type 0 where
    begun : Transcript no_result h target start [] [] [] start
    invalid :
        {reads : List (StreamRead env)} {handed : List Record} {lines : List (Line env)}
        {state : env.State} (r : StreamRead env) (e : EnvelopeError env.X)
        → envelope_read h target r ≡ err e
        → Transcript no_result h target start reads handed lines state
        → Transcript no_result h target start
            (reads ++ r ∷ [])
            handed
            (lines ++ v3_error (pos 400) (of_envelope e) ∷ [])
            state
    placed :
        {reads : List (StreamRead env)} {handed : List Record} {lines : List (Line env)}
        {state : env.State} (r : StreamRead env) (v : V3RecordEnvelope)
        (results : List (Result env.E))
        → envelope_read h target r ≡ ok v
        → (env.produce state (v.produced_record ∷ [])).1 ≡ ok results
        → Transcript no_result h target start reads handed lines state
        → Transcript no_result h target start
            (reads ++ r ∷ [])
            (handed ++ v.produced_record ∷ [])
            (lines
              ++ v3_response_for_result env.texts r.answered_at target v
                  (first_result env no_result results)
                ∷ [])
            (env.produce state (v.produced_record ∷ [])).0

  -- How an error is told behind these lines: by one more, or as the answer if there is none.
  pub data Told (e : ApiError env.E env.X) (lines : List (Line env)) (s : Stream env) : Type 0 where
    by_line :
        ltb 0 (length lines) ≡ true
        → s.lines ≡ lines ++ v3_error (pos e.code) (of_message e.message) ∷ []
        → Told e lines s
    by_answer : lines ≡ [] → s.lines ≡ [] → s.error ≡ some e → Told e lines s

  -- The limiter of bytes when it was asked for these reads.
  unfoldable pub charged :
      Option (Limiter env.float) → List (StreamRead env) → Option (Limiter env.float)
  unfolding allow
  charged limiter [] = limiter
  charged limiter (r ∷ reads) =
      charged (allow env.float limiter (pos r.bytes_read) r.read_at).0 reads

  -- Why a stream ends: what was read and not answered, and the records that failed in Kafka.
  pub data Ending (h : Handler env) (target : V3Target) (finish : BodyEnd)
      (done : List (StreamRead env)) (lines : List (Line env)) (state : env.State)
      (limiter : Option (Limiter env.float)) (s : Stream env)
      : List (StreamRead env) → List Record → Type 0 where
    complete :
        finish ≡ end_of_body
        → 0 < length done
        → s.lines ≡ lines
        → Ending h target finish done lines state limiter s [] []
    none_read :
        finish ≡ end_of_body
        → done ≡ []
        → s.lines ≡ []
        → s.error ≡ some (api_error 400 400 no_record)
        → Ending h target finish done lines state limiter s [] []
    too_large :
        finish ≡ max_bytes_reached
        → Told (api_error 413 413 payload_too_large) lines s
        → Ending h target finish done lines state limiter s [] []
    unreadable :
        finish ≡ malformed
        → Told (api_error 400 400 bad_request_body) lines s
        → Ending h target finish done lines state limiter s [] []
    rate_limited :
        (r : StreamRead env) (rest : List (StreamRead env))
        → (allow env.float limiter (pos r.bytes_read) r.read_at).1 ≡ false
        → Told rate_limit_exceeded lines s
        → Ending h target finish done lines state limiter s (r ∷ rest) []
    too_many :
        (r : StreamRead env) (rest : List (StreamRead env))
        → ltb_ℤ h.cfg.max_records (pos (suc (length done))) ≡ true
        → Told (api_error 400 400 (too_many_records (suc (length done)) h.cfg.max_records)) lines s
        → Ending h target finish done lines state limiter s (r ∷ rest) []
    not_produced :
        (r : StreamRead env) (rest : List (StreamRead env)) (v : V3RecordEnvelope)
        (e : ProduceError env.E)
        → envelope_read h target r ≡ ok v
        → (env.produce state (v.produced_record ∷ [])).1 ≡ err e
        → Told (classify_produce_error (as_context_error e)) lines s
        → Ending h target finish done lines state limiter s (r ∷ rest) (v.produced_record ∷ [])

  -- A stream that was read: what was answered, and why it ended.
  pub record Served (no_result : env.E) (h : Handler env) (target : V3Target)
      (reads : List (StreamRead env)) (finish : BodyEnd) (w : World env) (s : Stream env)
      : Type 0 where
    pub done : List (StreamRead env)
    pub rest : List (StreamRead env)
    pub handed : List Record
    pub failed : List Record
    pub lines : List (Line env)
    pub state : env.State
    pub all_reads : reads ≡ done ++ rest
    pub transcript : Transcript no_result h target w.producer done handed lines state
    pub logged : s.world.produced ≡ w.produced ++ map (λ r. r ∷ []) (handed ++ failed)
    pub ending : Ending h target finish done lines state (charged w.byte_rate done) s rest failed

  -- What holds between two records.
  pub record Kept (no_result : env.E) (h : Handler env) (target : V3Target)
      (done : List (StreamRead env)) (w : World env) (s : Stream env) : Type 0 where
    pub handed : List Record
    pub transcript : Transcript no_result h target w.producer done handed s.lines s.world.producer
    pub logged : s.world.produced ≡ w.produced ++ map (λ r. r ∷ []) handed
    pub counted : s.record_count ≡ length done
    pub written : s.wrote ≡ ltb 0 (length s.lines)

  -- Each read that was answered has one line.
  pub Transcript_length :
      {no_result : env.E} {h : Handler env} {target : V3Target} {start : env.State}
      {reads : List (StreamRead env)} {handed : List Record} {lines : List (Line env)}
      {state : env.State}
      → Transcript no_result h target start reads handed lines state
      → length lines ≡ length reads
  Transcript_length begun = refl
  Transcript_length (invalid {reads = reads} {lines = lines} r e made t) =
      length-append_last lines _ ∙ ap suc (Transcript_length t) ∙ sym (length-append_last reads r)
  Transcript_length (placed {reads = reads} {lines = lines} r v results made answered t) =
      length-append_last lines _ ∙ ap suc (Transcript_length t) ∙ sym (length-append_last reads r)
