-- ===== src/Api/V3/Produce.antt =====
-- handleV3Produce of internal/api/v3.go: a v3 request, with its guards in their order.
pub mod Outcome
mod Tests
use kafka_rest_proxy_go.Common.{
  ℕ, Bool, true, false, Option, none, some, List, [], ◌∷◌, length, if◌then◌else◌,
}
use kafka_rest_proxy_go.Common.Int.{ℤ, pos}
use kafka_rest_proxy_go.Common.Try.{Try, ok, err, ◌>>=◌, require, found}
use kafka_rest_proxy_go.Producer.{Bytes}
use kafka_rest_proxy_go.Go.Strings.{bytes, eq_bytes}
use kafka_rest_proxy_go.Api.Routes.{V3Target, v3_target_from_path}
use kafka_rest_proxy_go.Api.Access.{topic_allowed}
use kafka_rest_proxy_go.Api.Media.{is_json_content_type, accepts_v3_response}
use kafka_rest_proxy_go.Api.Errors.{
  ApiError, api_error, rate_limit_exceeded, method_not_allowed, not_found, topic_not_allowed,
  not_acceptable, unsupported_media, payload_too_large, read_failed,
}
use kafka_rest_proxy_go.Api.Handler.{Env, Handler, Time}
use kafka_rest_proxy_go.Metrics.{
  requests_rate, bytes_rate, inc_outstanding, dec_outstanding, request, rate_limit_rejected,
}
use kafka_rest_proxy_go.Api.Handler.World.{
  World, Body, ReadError, max_bytes_error, other_read_error, read_request_body, observe,
  allow_request_rate, allow_byte_rate,
}
use kafka_rest_proxy_go.Api.V3.BatchBody.{
  UnmarshalBatch, BatchReply, BatchServed, refuse_batch, handle_v3_batch_body,
}
use kafka_rest_proxy_go.Api.V3.Stream.{Stream, StreamRead, BodyEnd, handle_v3_record_stream}

module _ (env : Env) where
  -- A request, with its body as a whole and as a stream of records, and readings of the clock.
  pub record V3Request : Type 0 where
    pub method : Bytes
    pub path : Bytes
    pub accept : Bytes
    pub content_type : Bytes
    pub body : Body
    pub reads : List (StreamRead env)
    pub finish : BodyEnd
    pub rest : ℕ
    pub arrived : Time env
    pub read : Time env
    pub answered : Time env

  pub data V3Reply : Type 0 where
    v3_refused : ApiError env.E env.X → V3Reply
    v3_batch : BatchReply env → V3Reply
    v3_stream : Stream env → V3Reply

  pub record V3Served : Type 0 where
    pub world : World env
    pub status : ℕ
    pub body_len : ℕ
    pub record_count : ℕ
    pub reply : V3Reply

  abbrev pub refuse_v3 : World env → ℕ → ApiError env.E env.X → V3Served
  refuse_v3 w body_len e = record {
    world = w;
    status = e.status;
    body_len = body_len;
    record_count = 0;
    reply = v3_refused e;
  }

  abbrev pub of_batch : ℕ → BatchServed env → V3Served
  of_batch body_len served = record {
    world = served.world;
    status = served.status;
    body_len = body_len;
    record_count = served.record_count;
    reply = v3_batch served.reply;
  }

  abbrev pub of_stream : Stream env → V3Served
  of_stream s = record {
    world = s.world;
    status = s.status;
    body_len = s.body_len;
    record_count = s.record_count;
    reply = v3_stream s;
  }

  -- The guards that need no state.
  unfoldable pub check_v3_request : Handler env → V3Request → Try (ApiError env.E env.X) V3Target
  unfolding v3_target_from_path topic_allowed accepts_v3_response is_json_content_type eq_bytes
  check_v3_request h r = do
    post ← require (eq_bytes r.method (bytes "POST")) (api_error 405 400 method_not_allowed)
    target ← found (v3_target_from_path r.path) (api_error 404 400 not_found)
    allowed ← require (topic_allowed h.allowed target.topic) (api_error 403 403 topic_not_allowed)
    accepted ← require (accepts_v3_response r.accept) (api_error 406 406 not_acceptable)
    json ← require (is_json_content_type r.content_type) (api_error 415 415 unsupported_media)
    ok target

  -- The body of a batch.
  unfoldable pub serve_v3_body :
      UnmarshalBatch
      → Handler env
      → V3Request
      → V3Target
      → World env
      → Bytes × Option ReadError
      → V3Served
  unfolding allow_byte_rate observe handle_v3_batch_body rate_limit_exceeded
  serve_v3_body unmarshal h r target w (body, some max_bytes_error) =
      refuse_v3 w (length body) (api_error 413 413 payload_too_large)
  serve_v3_body unmarshal h r target w (body, some other_read_error) =
      refuse_v3 w (length body) (api_error 400 400 read_failed)
  serve_v3_body unmarshal h r target w (body, none) =
      let (w', allowed) = allow_byte_rate env (pos (length body)) r.read w in
      if allowed
      then of_batch (length body) (handle_v3_batch_body env unmarshal h r.answered target body w')
      else refuse_v3 (observe env h (rate_limit_rejected bytes_rate) w') (length body)
          rate_limit_exceeded

  -- A batch or a stream. The error is the one that a stream makes where Produce answers nothing.
  abbrev pub serve_v3_target :
      UnmarshalBatch → env.E → Handler env → V3Request → V3Target → World env → Bool → V3Served
  serve_v3_target unmarshal no_result h r target w true =
      serve_v3_body unmarshal h r target w (read_request_body r.body h.cfg.max_request_bytes)
  serve_v3_target unmarshal no_result h r target w false =
      of_stream (handle_v3_record_stream env no_result h target r.reads r.finish r.rest w)

  -- Behind the guards.
  unfoldable pub serve_v3_checked :
      UnmarshalBatch
      → env.E
      → Handler env
      → V3Request
      → World env
      → Try (ApiError env.E env.X) V3Target
      → V3Served
  unfolding allow_request_rate observe serve_v3_body read_request_body handle_v3_record_stream
      rate_limit_exceeded
  serve_v3_checked unmarshal no_result h r w (err e) = refuse_v3 w 0 e
  serve_v3_checked unmarshal no_result h r w (ok target) =
      let (w', allowed) = allow_request_rate env (pos 1) r.arrived w in
      if allowed
      then serve_v3_target unmarshal no_result h r target w' target.batch
      else refuse_v3 (observe env h (rate_limit_rejected requests_rate) w') 0 rate_limit_exceeded

  -- handleV3Produce, with its deferred calls.
  unfoldable pub handle_v3_produce :
      UnmarshalBatch → env.E → Handler env → V3Request → World env → World env × V3Reply
  unfolding observe serve_v3_checked check_v3_request
  handle_v3_produce unmarshal no_result h r w =
      let served =
        serve_v3_checked unmarshal no_result h r (observe env h inc_outstanding w)
          (check_v3_request h r) in
      (
        observe env h dec_outstanding (
            observe env h (request served.status served.body_len served.record_count) served.world),
        served.reply,
      )
