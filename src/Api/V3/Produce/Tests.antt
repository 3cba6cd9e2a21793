-- ===== src/Api/V3/Produce/Tests.antt =====
-- Tests and instances for v3 requests.
use kafka_rest_proxy_go.Common.{◌≡◌, refl, false, true, none, some, List, [], ◌∷◌, map, Option}
use kafka_rest_proxy_go.Common.Int.{pos, negsuc}
use kafka_rest_proxy_go.Common.Try.{ok}
use kafka_rest_proxy_go.Producer.{Bytes}
use kafka_rest_proxy_go.Go.Strings.{bytes}
use kafka_rest_proxy_go.Schema.Encoder.{no_metadata}
use kafka_rest_proxy_go.Api.V3.Responses.{v3_response_for_result, v3_batch_success_for_result}
use kafka_rest_proxy_go.Common.Int.{ℤ, add64}
use kafka_rest_proxy_go.Producer.{size_bytes}
use kafka_rest_proxy_go.Api.Routes.{V3Target}
use kafka_rest_proxy_go.Api.Handler.{decode_limits}
use kafka_rest_proxy_go.Api.Handler.Tests.{test_env, test_env-AnswersAll, test_handler, test_world}
use kafka_rest_proxy_go.Api.V3.{V3ProduceRecord, v3_envelope_from_record, V3RecordEnvelope}
use kafka_rest_proxy_go.Api.V3.Within.{Within, v3_envelope_from_record-Within}
use kafka_rest_proxy_go.Api.V3.BatchBody.{UnmarshalBatch, handle_v3_batch_body, multi_status}
use kafka_rest_proxy_go.Api.V3.BatchBody.Answered.{BatchOutcome, handle_v3_batch_body-Outcome}
use kafka_rest_proxy_go.Api.V3.Stream.{StreamRead, end_of_body, handle_v3_record_stream}
use kafka_rest_proxy_go.Api.V3.Stream.Invariant.{Ended}
use kafka_rest_proxy_go.Api.V3.Stream.Transcript.{Served}
use kafka_rest_proxy_go.Api.V3.Stream.Ended.{handle_v3_record_stream-Ended}
use kafka_rest_proxy_go.Api.V3.Produce.{V3Request, V3Reply, handle_v3_produce, v3_batch, v3_stream}
use kafka_rest_proxy_go.Api.V3.Produce.Outcome.{V3Outcome, handle_v3_produce-Outcome}

abbrev at : Option ℤ → V3ProduceRecord
at partition = record {
  partition_id = partition;
  headers = record { name = bytes "h"; value = some (bytes "v") } ∷ [];
  key = none;
  value = none;
}

abbrev entries : UnmarshalBatch
entries body = some (
    (bytes "a", at none)
    ∷ (bytes "a", at none)
    ∷ (bytes "b", at (some (negsuc 0)))
    ∷ (bytes "c", at (some (pos 2)))
    ∷ [])

abbrev here : V3Target
here = record { cluster_id = []; topic = bytes "t"; batch = true }

abbrev reads : List (StreamRead test_env)
reads =
    record { bytes_read = 4; read_record = at none; read_at = 0; answered_at = 0 }
    ∷ record { bytes_read = 5; read_record = at (some (negsuc 0)); read_at = 0; answered_at = 0 }
    ∷ record { bytes_read = 5; read_record = at none; read_at = 0; answered_at = 0 }
    ∷ []

abbrev posted : Bytes → V3Request test_env
posted path = record {
  method = bytes "POST";
  path = path;
  accept = [];
  content_type = bytes "application/json";
  body = record { content = bytes "{ }"; fails = false };
  reads = reads;
  finish = end_of_body;
  rest = 0;
  arrived = 0;
  read = 0;
  answered = 0;
}

abbrev ids_of : V3Reply test_env → List Bytes × List Bytes
ids_of (v3_batch (multi_status response)) =
    (map (λ x. x.id) response.successes, map (λ x. x.id) response.failures)
ids_of _ = ([], [])

abbrev codes_of : V3Reply test_env → List ℤ
codes_of (v3_stream s) = map (λ x. x.error_code) s.lines
codes_of _ = []

batch_ids :
    ids_of
      (handle_v3_produce test_env entries 9 test_handler
        (posted (bytes "/v3/clusters/x/topics/t/records:batch"))
        test_world).1
    ≡ (bytes "a" ∷ bytes "c" ∷ [], bytes "a" ∷ bytes "b" ∷ [])
unfolding test_handler test_world handle_v3_produce v3_envelope_from_record
    v3_batch_success_for_result v3_response_for_result add64 size_bytes
batch_ids = refl

-- The third record is beyond the rate.
stream_codes :
    codes_of
      (handle_v3_produce test_env entries 9 test_handler
        (posted (bytes "/v3/clusters/x/topics/t/records"))
        test_world).1
    ≡ pos 200 ∷ pos 400 ∷ pos 429 ∷ []
unfolding test_handler test_world handle_v3_produce v3_envelope_from_record
    v3_batch_success_for_result v3_response_for_result add64 size_bytes
stream_codes = refl

abbrev made : V3RecordEnvelope
made = record {
  id = bytes "c";
  produced_record = record {
    topic = bytes "t";
    key = none;
    value = none;
    headers = record { key = bytes "h"; value = some (bytes "v") } ∷ [];
    partition = some (pos 2);
  };
  key = no_metadata;
  value = no_metadata;
}

made_so :
    v3_envelope_from_record test_env.codec test_env.languages
      (bytes "t")
      (bytes "c")
      (at (some (pos 2)))
      none
      (decode_limits test_env test_handler.cfg)
    ≡ ok made
unfolding v3_envelope_from_record test_handler decode_limits add64 size_bytes
made_so = refl

v3_envelope_from_record-Within_example :
    Within test_env.codec test_env.languages none
      (bytes "t")
      (bytes "c")
      (decode_limits test_env test_handler.cfg)
      (at (some (pos 2)))
      made
unfolding test_handler
v3_envelope_from_record-Within_example =
    v3_envelope_from_record-Within test_env.codec test_env.languages (bytes "t") (bytes "c")
      (at (some (pos 2))) none (decode_limits test_env test_handler.cfg) made made_so

handle_v3_batch_body-Outcome_example :
    let served =
      handle_v3_batch_body test_env entries test_handler 0 here (bytes "{ }") test_world in
    BatchOutcome test_env entries test_handler 0 here
      (bytes "{ }")
      test_world
      served.world
      served.reply
handle_v3_batch_body-Outcome_example =
    handle_v3_batch_body-Outcome entries test_handler 0 here (bytes "{ }") test_world
      test_env-AnswersAll

handle_v3_record_stream-Ended_example :
    let s = handle_v3_record_stream test_env 9 test_handler here reads end_of_body 0 test_world in
    Ended test_handler (bytes "t") test_world s
    × Served 9 test_handler here reads end_of_body test_world s
handle_v3_record_stream-Ended_example =
    handle_v3_record_stream-Ended 9 test_handler here reads end_of_body 0 test_world

handle_v3_produce-Outcome_example :
    let r = posted (bytes "/v3/clusters/x/topics/t/records") in
    let (w', reply) = handle_v3_produce test_env entries 9 test_handler r test_world in
    V3Outcome entries 9 test_handler r test_world w' reply
handle_v3_produce-Outcome_example =
    handle_v3_produce-Outcome entries 9 test_handler
      (posted (bytes "/v3/clusters/x/topics/t/records")) test_world test_env-AnswersAll
