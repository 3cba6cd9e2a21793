-- ===== src/Api/V3/Produce/Outcome.antt =====
-- What becomes of a v3 request.
use kafka_rest_proxy_go.Common.{
  arith, ◌≤◌, ◌≡◌, ◌∙◌, refl, ap, subst, Bool, true, false, some, none, length, inl, inr,
  Bool-cases, Option,
}
use kafka_rest_proxy_go.Common.Int.{pos, pos_part}
use kafka_rest_proxy_go.Common.Try.{
  Try, ok, err, ok_inj, Fails, Fails-require_bind, Fails-found_bind, require, found, require-eq-ok,
  found-eq-ok, >>=-eq-ok,
}
use kafka_rest_proxy_go.Producer.{Bytes}
use kafka_rest_proxy_go.Go.Strings.{bytes, eq_bytes, eq_bytes_iff}
use kafka_rest_proxy_go.Api.Routes.{V3Target, v3_target_from_path}
use kafka_rest_proxy_go.Api.Access.{topic_allowed}
use kafka_rest_proxy_go.Api.Media.{is_json_content_type, accepts_v3_response}
use kafka_rest_proxy_go.Api.Errors.{ApiError, IsRefusal}
use kafka_rest_proxy_go.Api.Handler.{Env, AnswersAll, Handler}
use kafka_rest_proxy_go.Metrics.{
  requests_rate, bytes_rate, inc_outstanding, dec_outstanding, request, rate_limit_rejected,
}
use kafka_rest_proxy_go.Api.Handler.World.{
  World, ReadError, max_bytes_error, other_read_error, read_request_body, observe,
  allow_request_rate, allow_byte_rate,
}
use kafka_rest_proxy_go.Api.Handler.World.Whole.{read_request_body-whole}
use kafka_rest_proxy_go.Api.Handler.World.Same.{
  same_refl, SameProducer, same_trans, same-observe, same-allow_byte_rate, same-allow_request_rate,
}
use kafka_rest_proxy_go.Api.V3.BatchBody.{UnmarshalBatch, BatchReply, handle_v3_batch_body}
use kafka_rest_proxy_go.Api.V3.BatchBody.Answered.{BatchOutcome, handle_v3_batch_body-Outcome}
use kafka_rest_proxy_go.Api.V3.Stream.{Stream, handle_v3_record_stream}
use kafka_rest_proxy_go.Api.V3.Stream.Invariant.{Ended}
use kafka_rest_proxy_go.Api.V3.Stream.Transcript.{Served}
use kafka_rest_proxy_go.Api.V3.Stream.Ended.{handle_v3_record_stream-Ended}
use kafka_rest_proxy_go.Api.V3.Produce.{
  serve_v3_target, V3Request, V3Reply, v3_refused, v3_batch, v3_stream, check_v3_request,
  serve_v3_body, serve_v3_checked, handle_v3_produce,
}

module _ {env : Env} where
  -- The guards, for a request that passed them.
  pub record V3Checked (h : Handler env) (r : V3Request env) (target : V3Target) : Type 0 where
    pub is_post : r.method ≡ bytes "POST"
    pub target_read : v3_target_from_path r.path ≡ some target
    pub topic_is_allowed : topic_allowed h.allowed target.topic ≡ true
    pub is_accepted : accepts_v3_response r.accept ≡ true
    pub is_json : is_json_content_type r.content_type ≡ true

  pub data V3Outcome (unmarshal : UnmarshalBatch) (no_result : env.E) (h : Handler env)
      (r : V3Request env) (w w' : World env) : V3Reply env → Type 0 where
    turned_away :
        (e : ApiError env.E env.X)
        → SameProducer w w'
        → IsRefusal e
        → V3Outcome unmarshal no_result h r w w' (v3_refused e)
    batched :
        (target : V3Target) (u v : World env) (reply : BatchReply env)
        → V3Checked h r target
        → target.batch ≡ true
        → length r.body.content ≤ pos_part h.cfg.max_request_bytes
        → SameProducer w u
        → BatchOutcome env unmarshal h r.answered target r.body.content u v reply
        → SameProducer v w'
        → V3Outcome unmarshal no_result h r w w' (v3_batch reply)
    streams :
        (target : V3Target) (u : World env) (s : Stream env)
        → V3Checked h r target
        → target.batch ≡ false
        → SameProducer w u
        → Ended h target.topic u s
        → Served no_result h target r.reads r.finish u s
        → SameProducer s.world w'
        → V3Outcome unmarshal no_result h r w w' (v3_stream s)

  check_v3_request-Checked :
      (h : Handler env) (r : V3Request env) (target : V3Target)
      → check_v3_request env h r ≡ ok target
      → V3Checked h r target
  unfolding check_v3_request
  check_v3_request-Checked h r target e =
      let (u1, e1, k1) = >>=-eq-ok (require (eq_bytes r.method (bytes "POST")) _) _ e in
      let (t, e2, k2) = >>=-eq-ok (found (v3_target_from_path r.path) _) _ k1 in
      let (u3, e3, k3) = >>=-eq-ok (require (topic_allowed h.allowed t.topic) _) _ k2 in
      let (u4, e4, k4) = >>=-eq-ok (require (accepts_v3_response r.accept) _) _ k3 in
      let (u5, e5, k5) = >>=-eq-ok (require (is_json_content_type r.content_type) _) _ k4 in
      let same : t ≡ target = ok_inj k5 in
      record {
        is_post = (eq_bytes_iff r.method (bytes "POST")).0 (require-eq-ok _ _ e1);
        target_read = found-eq-ok _ _ e2 ∙ ap some same;
        topic_is_allowed =
            subst (λ x. topic_allowed h.allowed x.topic ≡ true) same (require-eq-ok _ _ e3);
        is_accepted = require-eq-ok _ _ e4;
        is_json = require-eq-ok _ _ e5;
      }

  check_v3_request_status :
      (h : Handler env) (r : V3Request env) → Fails IsRefusal (check_v3_request env h r)
  unfolding check_v3_request
  check_v3_request_status h r =
      Fails-require_bind IsRefusal (eq_bytes r.method (bytes "POST")) _ (omega arith) (
        Fails-found_bind IsRefusal (v3_target_from_path r.path) (omega arith) λ target.
          Fails-require_bind IsRefusal (topic_allowed h.allowed target.topic) _ (omega arith) (
            Fails-require_bind IsRefusal (accepts_v3_response r.accept) _ (omega arith) (
              Fails-require_bind IsRefusal (is_json_content_type r.content_type) _ (omega arith)
                λ e c. cc)))

  V3Outcome-same :
      (unmarshal : UnmarshalBatch) (no_result : env.E) (h : Handler env) (r : V3Request env)
      (w v u : World env) (reply : V3Reply env)
      → V3Outcome unmarshal no_result h r w v reply
      → SameProducer v u
      → V3Outcome unmarshal no_result h r w u reply
  V3Outcome-same unmarshal no_result h r w v u reply (turned_away e s le) k =
      turned_away e (same_trans w v u s k) le
  V3Outcome-same unmarshal no_result h r w v u reply (batched target a b answer c is le s o t) k =
      batched target a b answer c is le s o (same_trans b v u t k)
  V3Outcome-same unmarshal no_result h r w v u reply (streams target a st c is s o served t) k =
      streams target a st c is s o served (same_trans st.world v u t k)

  serve_v3_body-Outcome :
      (unmarshal : UnmarshalBatch) (no_result : env.E) (h : Handler env) (r : V3Request env)
      (target : V3Target) (w v : World env) (o : Bytes × Option ReadError)
      → AnswersAll env
      → read_request_body r.body h.cfg.max_request_bytes ≡ o
      → V3Checked h r target
      → target.batch ≡ true
      → SameProducer w v
      → let served = serve_v3_body env unmarshal h r target v o in
        V3Outcome unmarshal no_result h r w served.world served.reply
  unfolding serve_v3_body
  serve_v3_body-Outcome unmarshal no_result h r target w v (body, some max_bytes_error) all e c is
        s =
      turned_away _ s (omega arith)
  serve_v3_body-Outcome unmarshal no_result h r target w v (body, some other_read_error) all e c is
        s =
      turned_away _ s (omega arith)
  serve_v3_body-Outcome unmarshal no_result h r target w v (body, none) all e c is s =
      let (same, le) = read_request_body-whole r.body h.cfg.max_request_bytes body e in
      let u = (allow_byte_rate env (pos (length body)) r.read v).0 in
      let t = same_trans w v u s (same-allow_byte_rate (pos (length body)) r.read v) in
      let served = handle_v3_batch_body env unmarshal h r.answered target body u in
      elim (Bool-cases (allow_byte_rate env (pos (length body)) r.read v).1) [
        | inl allowed ↦ rw allowed (
            batched target u served.world served.reply c is le t
              (subst
                (λ x. BatchOutcome env unmarshal h r.answered target x u served.world served.reply)
                same (handle_v3_batch_body-Outcome unmarshal h r.answered target body u all))
              (same_refl served.world))
        | inr limited ↦ rw limited (
            turned_away _
              (same_trans w u (observe env h (rate_limit_rejected bytes_rate) u) t
                (same-observe h (rate_limit_rejected bytes_rate) u))
              (omega arith))
      ]

  serve_v3_target-Outcome :
      (unmarshal : UnmarshalBatch) (no_result : env.E) (h : Handler env) (r : V3Request env)
      (target : V3Target) (w u : World env) (batch : Bool)
      → AnswersAll env
      → V3Checked h r target
      → target.batch ≡ batch
      → SameProducer w u
      → let served = serve_v3_target env unmarshal no_result h r target u batch in
        V3Outcome unmarshal no_result h r w served.world served.reply
  serve_v3_target-Outcome unmarshal no_result h r target w u true all checked is t =
      serve_v3_body-Outcome unmarshal no_result h r target w u
        (read_request_body r.body h.cfg.max_request_bytes) all refl checked is t
  serve_v3_target-Outcome unmarshal no_result h r target w u false all checked is t =
      let s = handle_v3_record_stream env no_result h target r.reads r.finish r.rest u in
      let (ended, served) =
        handle_v3_record_stream-Ended no_result h target r.reads r.finish r.rest u in
      streams target u s checked is t ended served (same_refl s.world)

  serve_v3_checked-Outcome :
      (unmarshal : UnmarshalBatch) (no_result : env.E) (h : Handler env) (r : V3Request env)
      (w v : World env) (checked : Try (ApiError env.E env.X) V3Target)
      → AnswersAll env
      → check_v3_request env h r ≡ checked
      → SameProducer w v
      → let served = serve_v3_checked env unmarshal no_result h r v checked in
        V3Outcome unmarshal no_result h r w served.world served.reply
  unfolding serve_v3_checked
  serve_v3_checked-Outcome unmarshal no_result h r w v (err e) all c s =
      turned_away e s (check_v3_request_status h r e c)
  serve_v3_checked-Outcome unmarshal no_result h r w v (ok target) all c s =
      let u = (allow_request_rate env (pos 1) r.arrived v).0 in
      let t = same_trans w v u s (same-allow_request_rate (pos 1) r.arrived v) in
      let checked = check_v3_request-Checked h r target c in
      elim (Bool-cases (allow_request_rate env (pos 1) r.arrived v).1) [
        | inl allowed ↦ rw allowed (
            serve_v3_target-Outcome unmarshal no_result h r target w u target.batch all checked refl
              t)
        | inr limited ↦ rw limited (
            turned_away _
              (same_trans w u (observe env h (rate_limit_rejected requests_rate) u) t
                (same-observe h (rate_limit_rejected requests_rate) u))
              (omega arith))
      ]

  -- A v3 request either leaves the producer alone and is refused with a status of 400 or above, or it is
  -- a POST to a v3 path with an allowed topic and media types that are taken; then it is
  -- answered as a batch, its body being within the limit, or as a stream, as its path says, whatever cluster the path names. That a batch is answered takes a
  -- producer that answers each record.
  pub handle_v3_produce-Outcome :
      (unmarshal : UnmarshalBatch) (no_result : env.E) (h : Handler env) (r : V3Request env)
      (w : World env)
      → AnswersAll env
      → let (w', reply) = handle_v3_produce env unmarshal no_result h r w in
        V3Outcome unmarshal no_result h r w w' reply
  unfolding handle_v3_produce
  handle_v3_produce-Outcome unmarshal no_result h r w all =
      let v = observe env h inc_outstanding w in
      let served = serve_v3_checked env unmarshal no_result h r v (check_v3_request env h r) in
      let event = request served.status served.body_len served.record_count in
      let seen = observe env h event served.world in
      V3Outcome-same unmarshal no_result h r w served.world (observe env h dec_outstanding seen)
        served.reply
        (serve_v3_checked-Outcome unmarshal no_result h r w v (check_v3_request env h r) all refl
          (same-observe h inc_outstanding w))
        (same_trans served.world seen (observe env h dec_outstanding seen)
          (same-observe h event served.world) (same-observe h dec_outstanding seen))
