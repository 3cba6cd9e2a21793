-- ===== src/Api/Handler/TopicProduce.antt =====
-- handleTopicProduce of internal/api/handler.go: a v2 request, with its guards in their order, its
-- effects on the world and its answer.
pub mod Checked
pub mod Produced
pub mod Metrics
mod Tests
use kafka_rest_proxy_go.Common.{
  ℕ, Bool, true, false, Option, none, some, List, [], ◌∷◌, length, if◌then◌else◌,
}
use kafka_rest_proxy_go.Common.Int.{ℤ, pos}
use kafka_rest_proxy_go.Common.Try.{Try, ok, err, ◌>>=◌, require, found}
use kafka_rest_proxy_go.Producer.{Bytes, Record, Result, ProduceError, overloaded}
use kafka_rest_proxy_go.Go.Strings.{bytes, eq_bytes}
use kafka_rest_proxy_go.Schema.{RequestData, Metadata}
use kafka_rest_proxy_go.Schema.Encoder.{Registry, EncodeError, encode}
use kafka_rest_proxy_go.Api.Routes.{ProduceTarget, produce_target_from_path}
use kafka_rest_proxy_go.Api.Payload.{PayloadFormat}
use kafka_rest_proxy_go.Api.Decode.{Encode, DecodeError, ProduceMetadata}
use kafka_rest_proxy_go.Api.Decode.Records.{decode_produce_request}
use kafka_rest_proxy_go.Api.Respond.{append_produce_response, count_result_status}
use kafka_rest_proxy_go.Api.Access.{topic_allowed}
use kafka_rest_proxy_go.Api.Media.{parse_content_type, accepts_response}
use kafka_rest_proxy_go.Api.Errors.{
  HandlerError, of_producer, as_context_error, ApiError, api_error, rate_limit_exceeded,
  classify_produce_error, decode_error, method_not_allowed, not_found, topic_not_allowed,
  not_acceptable, unsupported_media, payload_too_large, read_failed,
}
use kafka_rest_proxy_go.Api.Handler.{Env, Handler, Time, decode_limits}
use kafka_rest_proxy_go.Metrics.{
  requests_rate, bytes_rate, inc_outstanding, dec_outstanding, request, rate_limit_rejected, decode,
  kafka_callback_wait, produce_result, admission_rejected,
}
use kafka_rest_proxy_go.Api.Handler.World.{
  World, Body, ReadError, max_bytes_error, other_read_error, read_request_body, observe,
  allow_request_rate, allow_byte_rate, produce,
}

-- The registry of an encoder, each of which may be nil.
abbrev pub registry_of {ℓ} : {A : Type ℓ} → Option (Option A) → Option A
registry_of none = none
registry_of (some r) = r

abbrev pub is_overloaded : {E : Type 0} → HandlerError E → Bool
is_overloaded (of_producer overloaded) = true
is_overloaded e = false

module _ (env : Env) where
  -- A request, with the readings of the clock when the limiters are asked.
  pub record Request : Type 0 where
    pub method : Bytes
    pub path : Bytes
    pub accept : Bytes
    pub content_type : Bytes
    pub body : Body
    pub arrived : Time env
    pub read : Time env

  pub data Reply : Type 0 where
    refused : ApiError env.E env.X → Reply
    answered : ℕ → Bytes → Reply

  -- The world behind the request, the reply, and what the metrics are told of it.
  pub record Served : Type 0 where
    pub world : World env
    pub status : ℕ
    pub body_len : ℕ
    pub record_count : ℕ
    pub reply : Reply

  abbrev pub refuse : World env → ℕ → ℕ → ApiError env.E env.X → Served
  refuse w body_len record_count e = record {
    world = w;
    status = e.status;
    body_len = body_len;
    record_count = record_count;
    reply = refused e;
  }

  -- The encoder as the decoder sees it: a pointer in an interface, which is never nil.
  abbrev pub schema_encode : Handler env → Encode (EncodeError env.X)
  unfolding encode
  schema_encode h topic key d =
      encode env.codec env.languages (registry_of h.schema_encoder) topic key (some d)

  -- The guards that need no state.
  unfoldable pub check_request :
      Handler env → Request → Try (ApiError env.E env.X) (ProduceTarget × PayloadFormat)
  unfolding produce_target_from_path topic_allowed accepts_response parse_content_type eq_bytes
  check_request h r = do
    post ← require (eq_bytes r.method (bytes "POST")) (api_error 405 400 method_not_allowed)
    target ← found (produce_target_from_path r.path) (api_error 404 400 not_found)
    allowed ← require (topic_allowed h.allowed target.topic) (api_error 403 403 topic_not_allowed)
    accepted ← require (accepts_response env.media_type r.accept) (api_error 406 406 not_acceptable)
    format ←
        found (parse_content_type env.media_type r.content_type)
          (api_error 415 415 unsupported_media)
    ok (target, format)

  -- Behind Produce.
  unfoldable pub answer_produce :
      Handler env
      → ℕ
      → ℕ
      → ProduceMetadata
      → World env
      → Try (ProduceError env.E) (List (Result env.E))
      → Served
  unfolding observe classify_produce_error as_context_error count_result_status
      append_produce_response
  answer_produce h body_len count meta w (err e) =
      let e' = as_context_error e in
      let answer = classify_produce_error e' in
      let waited = observe env h (kafka_callback_wait answer.status) w in
      refuse (if is_overloaded e' then observe env h admission_rejected waited else waited) body_len
        count answer
  answer_produce h body_len count meta w (ok results) =
      let (successes, failures) = count_result_status results in
      record {
        world =
            observe env h (produce_result successes failures)
              (observe env h (kafka_callback_wait 200) w);
        status = 200;
        body_len = body_len;
        record_count = count;
        reply = answered 200 (append_produce_response env.texts [] results meta);
      }

  -- Behind the decoder.
  unfoldable pub produce_decoded :
      Handler env
      → ℕ
      → PayloadFormat
      → World env
      → Try (DecodeError (EncodeError env.X)) (List Record × ProduceMetadata)
      → Served
  unfolding observe produce answer_produce decode_error
  produce_decoded h body_len format w (err e) =
      refuse (observe env h (decode format false) w) body_len 0 (decode_error e)
  produce_decoded h body_len format w (ok (records, meta)) =
      let (w', answer) = produce env records (observe env h (decode format true) w) in
      answer_produce h body_len (length records) meta w' answer

  -- Behind the body.
  unfoldable pub serve_body :
      Handler env
      → Request
      → ProduceTarget
      → PayloadFormat
      → World env
      → Bytes × Option ReadError
      → Served
  unfolding allow_byte_rate observe produce_decoded decode_produce_request decode_limits
      rate_limit_exceeded
  serve_body h r target format w (body, some max_bytes_error) =
      refuse w (length body) 0 (api_error 413 413 payload_too_large)
  serve_body h r target format w (body, some other_read_error) =
      refuse w (length body) 0 (api_error 400 400 read_failed)
  serve_body h r target format w (body, none) =
      let (w', allowed) = allow_byte_rate env (pos (length body)) r.read w in
      if allowed
      then produce_decoded h (length body) format w' (
          decode_produce_request env.codec env.unmarshal (some (schema_encode h)) target.topic body
            format (decode_limits env h.cfg) target.partition)
      else refuse (observe env h (rate_limit_rejected bytes_rate) w') (length body) 0
          rate_limit_exceeded

  -- Behind the guards.
  unfoldable pub serve_checked :
      Handler env
      → Request
      → World env
      → Try (ApiError env.E env.X) (ProduceTarget × PayloadFormat)
      → Served
  unfolding allow_request_rate observe serve_body read_request_body rate_limit_exceeded
  serve_checked h r w (err e) = refuse w 0 0 e
  serve_checked h r w (ok (target, format)) =
      let (w', allowed) = allow_request_rate env (pos 1) r.arrived w in
      if allowed
      then serve_body h r target format w' (read_request_body r.body h.cfg.max_request_bytes)
      else refuse (observe env h (rate_limit_rejected requests_rate) w') 0 0 rate_limit_exceeded

  -- handleTopicProduce, with its deferred calls.
  unfoldable pub handle_topic_produce : Handler env → Request → World env → World env × Reply
  unfolding observe serve_checked check_request
  handle_topic_produce h r w =
      let served = serve_checked h r (observe env h inc_outstanding w) (check_request h r) in
      (
        observe env h dec_outstanding (
            observe env h (request served.status served.body_len served.record_count) served.world),
        served.reply,
      )
