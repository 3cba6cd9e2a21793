-- ===== src/Api/Handler/TopicProduce/Checked.antt =====
-- The guards of handleTopicProduce.
use kafka_rest_proxy_go.Common.{
  arith, subst, ap, ◌∙◌, arith, ◌≡◌, ap, ◌∙◌, subst, true, some, arith,
}
use kafka_rest_proxy_go.Common.Try.{
  ok_pair, Fails, Fails-bind, Fails-require, Fails-found, ok, require, found, require-eq-ok,
  found-eq-ok, >>=-eq-ok,
}
use kafka_rest_proxy_go.Go.Strings.{bytes, eq_bytes, eq_bytes_iff}
use kafka_rest_proxy_go.Api.Routes.{ProduceTarget, produce_target_from_path}
use kafka_rest_proxy_go.Api.Routes.Targets.{IsTarget, produce_target-IsTarget}
use kafka_rest_proxy_go.Api.Payload.{PayloadFormat}
use kafka_rest_proxy_go.Api.Access.{topic_allowed}
use kafka_rest_proxy_go.Api.Media.{parse_content_type, accepts_response}
use kafka_rest_proxy_go.Api.Errors.{
  IsRefusal, api_error, method_not_allowed, not_found, topic_not_allowed, not_acceptable,
  unsupported_media,
}
use kafka_rest_proxy_go.Api.Handler.{Env, Handler}
use kafka_rest_proxy_go.Api.Handler.TopicProduce.{Request, check_request}

module _ {env : Env} where
  -- The guards, for a request that passed them.
  pub record Checked (h : Handler env) (r : Request env) (target : ProduceTarget)
      (format : PayloadFormat) : Type 0 where
    pub is_post : r.method ≡ bytes "POST"
    pub target_read : produce_target_from_path r.path ≡ some target
    pub target_valid : IsTarget target
    pub topic_is_allowed : topic_allowed h.allowed target.topic ≡ true
    pub is_accepted : accepts_response env.media_type r.accept ≡ true
    pub format_read : parse_content_type env.media_type r.content_type ≡ some format

  pub check_request-Checked :
      (h : Handler env) (r : Request env) (target : ProduceTarget) (format : PayloadFormat)
      → check_request env h r ≡ ok (target, format)
      → Checked h r target format
  unfolding check_request
  check_request-Checked h r target format e =
      let (u1, e1, k1) = >>=-eq-ok (require (eq_bytes r.method (bytes "POST")) _) _ e in
      let (t, e2, k2) = >>=-eq-ok (found (produce_target_from_path r.path) _) _ k1 in
      let (u3, e3, k3) = >>=-eq-ok (require (topic_allowed h.allowed t.topic) _) _ k2 in
      let (u4, e4, k4) = >>=-eq-ok (require (accepts_response env.media_type r.accept) _) _ k3 in
      let (f, e5, k5) =
        >>=-eq-ok (found (parse_content_type env.media_type r.content_type) _) _ k4 in
      let (same_target, same_format) = ok_pair k5 in
      record {
        is_post = (eq_bytes_iff r.method (bytes "POST")).0 (require-eq-ok _ _ e1);
        target_read = found-eq-ok _ _ e2 ∙ ap some same_target;
        target_valid =
            produce_target-IsTarget r.path target (found-eq-ok _ _ e2 ∙ ap some same_target);
        topic_is_allowed =
            subst (λ x. topic_allowed h.allowed x.topic ≡ true) same_target (require-eq-ok _ _ e3);
        is_accepted = require-eq-ok _ _ e4;
        format_read = found-eq-ok _ _ e5 ∙ ap some same_format;
      }

  pub check_request_status :
      (h : Handler env) (r : Request env) → Fails IsRefusal (check_request env h r)
  unfolding check_request
  check_request_status h r e c =
      Fails-bind IsRefusal
        (require (eq_bytes r.method (bytes "POST")) (api_error 405 400 method_not_allowed)) _ e c
        (Fails-require IsRefusal _ (api_error 405 400 method_not_allowed) (omega arith))
        λ post c2.
          Fails-bind IsRefusal
            (found (produce_target_from_path r.path) (api_error 404 400 not_found)) _ e c2
            (Fails-found IsRefusal _ (api_error 404 400 not_found) (omega arith))
            λ target c3.
              Fails-bind IsRefusal
                (require (topic_allowed h.allowed target.topic)
                  (api_error 403 403 topic_not_allowed))
                _ e c3
                (Fails-require IsRefusal _ (api_error 403 403 topic_not_allowed) (omega arith))
                λ allowed c4.
                  Fails-bind IsRefusal
                    (require (accepts_response env.media_type r.accept)
                      (api_error 406 406 not_acceptable))
                    _ e c4
                    (Fails-require IsRefusal _ (api_error 406 406 not_acceptable) (omega arith))
                    λ accepted c5.
                      Fails-bind IsRefusal
                        (found (parse_content_type env.media_type r.content_type)
                          (api_error 415 415 unsupported_media))
                        _ e c5
                        (Fails-found IsRefusal _ (api_error 415 415 unsupported_media)
                          (omega arith))
                        λ format c6. cc
