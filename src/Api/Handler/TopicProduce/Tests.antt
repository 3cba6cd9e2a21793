-- ===== src/Api/Handler/TopicProduce/Tests.antt =====
-- Tests and instances for v2 requests.
use kafka_rest_proxy_go.Common.{◌≡◌, refl, false, none, some, [], ◌∷◌, arith}
use kafka_rest_proxy_go.Common.Int.{pos, add64}
use kafka_rest_proxy_go.Producer.{Bytes, size_bytes}
use kafka_rest_proxy_go.Go.Strings.{bytes}
use kafka_rest_proxy_go.Metrics.{record_events}
use kafka_rest_proxy_go.Api.Handler.Tests.{test_env, test_env-AnswersAll, test_handler, test_world}
use kafka_rest_proxy_go.Api.Handler.World.{World}
use kafka_rest_proxy_go.Api.Errors.{
  api_error, not_found, method_not_allowed, topic_not_allowed, unsupported_media, payload_too_large,
  rate_limit,
}
use kafka_rest_proxy_go.Api.Handler.TopicProduce.{
  Request, Reply, refused, answered, handle_topic_produce,
}
use kafka_rest_proxy_go.Api.Handler.TopicProduce.Produced.{Outcome, handle_topic_produce-Outcome}
use kafka_rest_proxy_go.Api.Handler.TopicProduce.Metrics.{
  Accounted, counters, status_of, handle_topic_produce-Accounted,
}

abbrev posted : Bytes → Bytes → Request test_env
posted path body = record {
  method = bytes "POST";
  path = path;
  accept = [];
  content_type = bytes "application/json";
  body = record { content = body; fails = false };
  arrived = 0;
  read = 0;
}

abbrev reply_to : Request test_env → World test_env → Reply test_env
unfolding handle_topic_produce
reply_to r w = (handle_topic_produce test_env test_handler r w).1

answer :
    reply_to (posted (bytes "/topics/t1") (bytes "{ }")) test_world
    ≡ answered 200 (
        bytes
          "{\"offsets\":[{\"partition\":0,\"offset\":7,\"error_code\":null,\"error\":null}],\"key_schema_id\":null,\"value_schema_id\":null}\n")
unfolding reply_to test_handler test_world handle_topic_produce add64 size_bytes
answer = refl

handed_over :
    (handle_topic_produce test_env test_handler
      (posted (bytes "/topics/t1/partitions/3") (bytes "{ }"))
      test_world).0.produced
    ≡ (record {
      topic = bytes "t1";
      key = none;
      value = some (bytes "{}");
      headers = [];
      partition = some (pos 3);
    }
        ∷ [])
      ∷ []
unfolding test_handler test_world handle_topic_produce add64 size_bytes
handed_over = refl

refusals :
    (reply_to (posted (bytes "/topics/") (bytes "{ }")) test_world
      ≡ refused (api_error 404 400 not_found))
    × (reply_to (record (posted (bytes "/topics/t") []) { method = bytes "GET" }) test_world
        ≡ refused (api_error 405 400 method_not_allowed))
    × (reply_to (posted (bytes "/topics/u") []) test_world
        ≡ refused (api_error 403 403 topic_not_allowed))
    × (reply_to
          (record (posted (bytes "/topics/t") []) { content_type = bytes "text/plain" })
          test_world
        ≡ refused (api_error 415 415 unsupported_media))
    × (reply_to (posted (bytes "/topics/t") (bytes "12345678901")) test_world
        ≡ refused (api_error 413 413 payload_too_large))
unfolding reply_to test_handler test_world handle_topic_produce add64 size_bytes
refusals = (refl, refl, refl, refl, refl)

-- The second request at one time has too few byte tokens, and the third none for a request.
abbrev behind : Request test_env → World test_env → World test_env
unfolding handle_topic_produce
behind r w = (handle_topic_produce test_env test_handler r w).0

limited :
    let r = posted (bytes "/topics/t") (bytes "12345678") in
    (reply_to r (behind r test_world) ≡ refused (api_error 429 429 rate_limit))
    × ((behind r (behind r (behind r test_world))).producer ≡ 1)
unfolding reply_to behind test_handler test_world handle_topic_produce add64 size_bytes
limited = (refl, refl)

handle_topic_produce-Outcome_example :
    let r = posted (bytes "/topics/t1") (bytes "{ }") in
    Outcome test_env test_handler r test_world
      (handle_topic_produce test_env test_handler r test_world).0
      (handle_topic_produce test_env test_handler r test_world).1
handle_topic_produce-Outcome_example =
    handle_topic_produce-Outcome test_env test_handler (posted (bytes "/topics/t1") (bytes "{ }"))
      test_world

handle_topic_produce-Accounted_example :
    let r = posted (bytes "/topics/t1") (bytes "{ }") in
    Accounted
      (counters test_world)
      (counters (handle_topic_produce test_env test_handler r test_world).0)
      (status_of (handle_topic_produce test_env test_handler r test_world).1)
unfolding test_handler test_world record_events
handle_topic_produce-Accounted_example =
    handle_topic_produce-Accounted test_handler 0 (posted (bytes "/topics/t1") (bytes "{ }"))
      test_world refl test_env-AnswersAll refl (omega arith)
