-- ===== src/Api/V3/Stream.antt =====
-- handleV3RecordStream of internal/api/v3.go: the records of a v3 request, one after another. What
-- encoding/json reads from the body is an argument: the records, each with the bytes that were taken
-- for it and the readings of the clock, and how the body ends.
pub mod Invariant
pub mod Steps
pub mod Transcript
pub mod Rate
pub mod Kept
pub mod Ended
use kafka_rest_proxy_go.Common.{
  ℕ, zero, suc, ◌+◌, ◌==◌, Bool, true, false, Option, none, some, List, [], ◌∷◌, ◌++◌,
  if◌then◌else◌,
}
use kafka_rest_proxy_go.Common.Int.{ℤ, pos, negsuc, ltb_ℤ}
use kafka_rest_proxy_go.Common.Try.{Try, ok, err}
use kafka_rest_proxy_go.Producer.{Bytes, Record, Result, ProduceError}
use kafka_rest_proxy_go.Api.Routes.{V3Target}
use kafka_rest_proxy_go.Api.Respond.{count_result_status}
use kafka_rest_proxy_go.Api.Errors.{
  ApiError, api_error, as_context_error, classify_produce_error, rate_limit_exceeded,
  bad_request_body, payload_too_large, no_record, too_many_records,
}
use kafka_rest_proxy_go.Api.Handler.{Env, Handler, Time, decode_limits}
use kafka_rest_proxy_go.Metrics.{
  bytes_rate, rate_limit_rejected, kafka_callback_wait, produce_result, admission_rejected,
}
use kafka_rest_proxy_go.Api.Handler.World.{World, observe, allow_byte_rate, produce}
use kafka_rest_proxy_go.Api.Handler.TopicProduce.{is_overloaded}
use kafka_rest_proxy_go.Api.V3.{
  V3ProduceRecord, V3RecordEnvelope, EnvelopeError, v3_envelope_from_record,
}
use kafka_rest_proxy_go.Api.V3.Responses.{
  V3ProduceResponse, of_message, of_envelope, v3_error, v3_response_for_result,
}

pub data BodyEnd : Type 0 where
  end_of_body max_bytes_reached malformed : BodyEnd

module _ (env : Env) where
  pub record StreamRead : Type 0 where
    pub bytes_read : ℕ
    pub read_record : V3ProduceRecord
    pub read_at : Time env
    pub answered_at : Time env

  abbrev pub Line : Type 0
  Line = V3ProduceResponse (Time env) env.E env.X

  -- The lines are the responses that were written, and the error is the body of one that is none.
  pub record Stream : Type 0 where
    pub world : World env
    pub status : ℕ
    pub body_len : ℕ
    pub record_count : ℕ
    pub wrote : Bool
    pub lines : List Line
    pub error : Option (ApiError env.E env.X)

  -- What the loop does behind a read.
  pub data Step : Type 0 where
    continues stops : Stream → Step

  unfoldable pub start_stream : World env → Stream
  start_stream w = record {
    world = w;
    status = 200;
    body_len = 0;
    record_count = 0;
    wrote = false;
    lines = [];
    error = none;
  }

  unfoldable pub write_record_response : Line → Stream → Stream
  write_record_response resp s = record s {
    status = if s.wrote then s.status else 200;
    wrote = true;
    lines = s.lines ++ resp ∷ [];
  }

  -- A line with the error, or the error as the answer if there is no line yet.
  unfoldable pub fail_stream : ApiError env.E env.X → Stream → Stream
  unfolding write_record_response
  fail_stream e s =
      if s.wrote
      then write_record_response (v3_error (pos e.code) (of_message e.message)) s
      else record s { status = e.status; error = some e }

  abbrev pub seeing : World env → Stream → Stream
  seeing w s = record s { world = w }

  -- A failure of one record, as the metrics are told.
  abbrev pub count_failure : Handler env → Stream → Stream
  count_failure h s = seeing (observe env h (produce_result 0 1) s.world) s

  -- The first result, or one with the error that stands for no result.
  abbrev pub first_result : env.E → List (Result env.E) → Result env.E
  first_result no_result [] = record {
    partition = pos 0;
    offset = pos 0;
    error_code = none;
    err = some no_result;
  }
  first_result no_result (r ∷ rs) = r

  -- Behind Produce.
  unfoldable pub answer_record :
      env.E
      → Handler env
      → V3Target
      → Time env
      → V3RecordEnvelope
      → Stream
      → Try (ProduceError env.E) (List (Result env.E))
      → Step
  unfolding observe as_context_error classify_produce_error fail_stream count_result_status
      write_record_response v3_response_for_result
  answer_record no_result h target now envelope s (err e) =
      let e' = as_context_error e in
      let answer = classify_produce_error e' in
      let waited = observe env h (kafka_callback_wait answer.status) s.world in
      let counted = observe env h (produce_result 0 1) waited in
      let told = if is_overloaded e' then observe env h admission_rejected counted else counted in
      stops (fail_stream answer (seeing told s))
  answer_record no_result h target now envelope s (ok results) =
      let r = first_result no_result results in
      let (successes, failures) = count_result_status (r ∷ []) in
      let waited = observe env h (kafka_callback_wait s.status) s.world in
      let told = observe env h (produce_result successes failures) waited in
      continues (
        write_record_response (v3_response_for_result env.texts now target envelope r)
          (seeing told s))

  -- Behind the envelope.
  unfoldable pub serve_envelope :
      env.E
      → Handler env
      → V3Target
      → Time env
      → Stream
      → Try (EnvelopeError env.X) V3RecordEnvelope
      → Step
  unfolding observe write_record_response produce answer_record
  serve_envelope no_result h target now s (err e) =
      continues (write_record_response (v3_error (pos 400) (of_envelope e)) (count_failure h s))
  serve_envelope no_result h target now s (ok envelope) =
      let (w, answer) = produce env (envelope.produced_record ∷ []) s.world in
      answer_record no_result h target now envelope (seeing w s) answer

  -- A record within the rate.
  unfoldable pub serve_record : env.E → Handler env → V3Target → StreamRead → Stream → Step
  unfolding fail_stream observe serve_envelope v3_envelope_from_record decode_limits
  serve_record no_result h target r s =
      let count = suc s.record_count in
      let counted = record s { record_count = count } in
      if ltb_ℤ h.cfg.max_records (pos count)
      then stops (
          fail_stream (api_error 400 400 (too_many_records count h.cfg.max_records))
            (count_failure h counted))
      else serve_envelope no_result h target r.answered_at counted (
          v3_envelope_from_record env.codec env.languages target.topic [] r.read_record
            h.schema_encoder (decode_limits env h.cfg))

  unfoldable pub serve_read : env.E → Handler env → V3Target → StreamRead → Stream → Step
  unfolding allow_byte_rate observe fail_stream rate_limit_exceeded serve_record
  serve_read no_result h target r s =
      let read = record s { body_len = s.body_len + r.bytes_read } in
      let (w, allowed) = allow_byte_rate env (pos r.bytes_read) r.read_at s.world in
      if allowed
      then serve_record no_result h target r (seeing w read)
      else stops (
          fail_stream rate_limit_exceeded
            (count_failure h (seeing (observe env h (rate_limit_rejected bytes_rate) w) read)))

  -- Behind the last record, with the bytes that were read to find the end.
  unfoldable pub end_stream : BodyEnd → ℕ → Stream → Stream
  unfolding fail_stream
  end_stream max_bytes_reached rest s =
      fail_stream (api_error 413 413 payload_too_large) (record s { body_len = s.body_len + rest })
  end_stream malformed rest s =
      fail_stream (api_error 400 400 bad_request_body) (record s { body_len = s.body_len + rest })
  end_stream end_of_body rest s =
      let read = record s { body_len = s.body_len + rest } in
      if s.record_count == 0
      then record read { status = 400; error = some (api_error 400 400 no_record) }
      else read

  abbrev pub after_step : (Stream → Stream) → Step → Stream
  after_step next (stops s) = s
  after_step next (continues s) = next s

  unfoldable pub run_stream :
      env.E → Handler env → V3Target → List StreamRead → BodyEnd → ℕ → Stream → Stream
  unfolding serve_read end_stream
  run_stream no_result h target [] finish rest s = end_stream finish rest s
  run_stream no_result h target (r ∷ reads) finish rest s =
      after_step (λ s'. run_stream no_result h target reads finish rest s')
        (serve_read no_result h target r s)

  unfoldable pub handle_v3_record_stream :
      env.E → Handler env → V3Target → List StreamRead → BodyEnd → ℕ → World env → Stream
  unfolding run_stream start_stream
  handle_v3_record_stream no_result h target reads finish rest w =
      run_stream no_result h target reads finish rest (start_stream w)
