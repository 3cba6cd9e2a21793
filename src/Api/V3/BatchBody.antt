-- ===== src/Api/V3/BatchBody.antt =====
-- handleV3BatchBody of internal/api/v3.go: a v3 batch behind its body.
pub mod Counted
pub mod Answered
use kafka_rest_proxy_go.Common.{
  ℕ, Bool, true, false, Option, none, some, List, [], ◌∷◌, ◌++◌, length, map, if◌then◌else◌,
}
use kafka_rest_proxy_go.Common.Int.{ℤ, pos, ltb_ℤ}
use kafka_rest_proxy_go.Common.Try.{Try, ok, err}
use kafka_rest_proxy_go.Producer.{Bytes, Record, Result, ProduceError}
use kafka_rest_proxy_go.Api.Routes.{V3Target}
use kafka_rest_proxy_go.Api.Respond.{result_failed, count_result_status}
use kafka_rest_proxy_go.Api.Batch.{EntryError, sort_entries}
use kafka_rest_proxy_go.Api.Errors.{
  ApiError, api_error, of_producer, classify_produce_error, bad_request_body, entries_empty,
  too_many_entries,
}
use kafka_rest_proxy_go.Api.Handler.{Env, Handler, Time, decode_limits}
use kafka_rest_proxy_go.Metrics.{produce_result}
use kafka_rest_proxy_go.Api.Handler.World.{World, observe, produce}
use kafka_rest_proxy_go.Api.V3.{
  V3ProduceRecord, V3RecordEnvelope, EnvelopeError, v3_envelope_from_record,
}
use kafka_rest_proxy_go.Api.V3.Responses.{
  V3ProduceBatchSuccess, V3ProduceBatchFailure, V3ProduceBatchResponse, of_entry, result_error_code,
  result_error_message, v3_batch_success_for_result,
}

-- The entries of a batch, with their ids, from encoding/json.
abbrev pub UnmarshalBatch : Type 0
UnmarshalBatch = Bytes → Option (List (Bytes × V3ProduceRecord))

module _ (env : Env) where
  abbrev pub BatchResponse : Type 0
  BatchResponse = V3ProduceBatchResponse (Time env) env.E env.X

  abbrev pub Failure : Type 0
  Failure = V3ProduceBatchFailure env.E env.X

  -- `panicked`: the code reads past the end of the envelopes.
  pub data BatchReply : Type 0 where
    refused : ApiError env.E env.X → BatchReply
    multi_status : BatchResponse → BatchReply
    panicked : BatchReply

  -- The world behind the batch, the status, the number of records and the reply.
  pub record BatchServed : Type 0 where
    pub world : World env
    pub status : ℕ
    pub record_count : ℕ
    pub reply : BatchReply

  abbrev pub refuse_batch : World env → ℕ → ApiError env.E env.X → BatchServed
  refuse_batch w count e = record {
    world = w;
    status = e.status;
    record_count = count;
    reply = refused e;
  }

  -- What an entry becomes.
  abbrev pub envelope_of :
      Handler env → Bytes → Bytes → V3ProduceRecord → Try (EnvelopeError env.X) V3RecordEnvelope
  unfolding v3_envelope_from_record decode_limits
  envelope_of h topic id rec =
      v3_envelope_from_record env.codec env.languages topic id rec h.schema_encoder
        (decode_limits env h.cfg)

  abbrev pub entry_failure : Bytes × EntryError (EnvelopeError env.X) → Failure
  entry_failure (id, e) = record { id = id; error_code = pos 400; message = of_entry e }

  abbrev pub result_failure : V3RecordEnvelope → Result env.E → Failure
  result_failure envelope r = record {
    id = envelope.id;
    error_code = result_error_code r;
    message = result_error_message env.texts r;
  }

  -- The loop over the results, each at the index of its envelope; none is the panic.
  unfoldable pub add_results :
      Time env
      → V3Target
      → List V3RecordEnvelope
      → List (Result env.E)
      → BatchResponse
      → Option BatchResponse
  add_results now target envelopes [] response = some response
  add_results now target [] (r ∷ rs) response = none
  add_results now target (e ∷ es) (r ∷ rs) response = add_results now target es rs (
      if result_failed r
      then record response { failures = response.failures ++ result_failure e r ∷ [] }
      else record response {
        successes =
            response.successes ++ v3_batch_success_for_result env.X env.texts now target e r ∷ [];
      })

  abbrev pub batch_reply : World env → ℕ → Option BatchResponse → BatchServed
  batch_reply w count none = record {
    world = w;
    status = 200;
    record_count = count;
    reply = panicked;
  }
  batch_reply w count (some response) = record {
    world = w;
    status = 207;
    record_count = count;
    reply = multi_status response;
  }

  -- Behind Produce. The errors of a context are not told apart here.
  unfoldable pub answer_batch :
      Handler env
      → Time env
      → V3Target
      → List V3RecordEnvelope
      → List Failure
      → World env
      → Try (ProduceError env.E) (List (Result env.E))
      → BatchServed
  unfolding observe add_results count_result_status classify_produce_error
  answer_batch h now target envelopes failures w (err e) =
      refuse_batch w (length envelopes) (classify_produce_error (of_producer e))
  answer_batch h now target envelopes failures w (ok results) =
      let (successes, failed) = count_result_status results in
      batch_reply (observe env h (produce_result successes failed) w) (length envelopes)
        (add_results now target envelopes results (record { successes = []; failures = failures }))

  -- The envelopes that go to Kafka, if there are any.
  unfoldable pub produce_batch :
      Handler env
      → Time env
      → V3Target
      → List V3RecordEnvelope
      → List Failure
      → World env
      → BatchServed
  unfolding answer_batch produce
  produce_batch h now target [] failures w =
      batch_reply w 0 (some (record { successes = []; failures = failures }))
  produce_batch h now target (e ∷ es) failures w =
      let (w', answer) = produce env (map (λ x. x.produced_record) (e ∷ es)) w in
      answer_batch h now target (e ∷ es) failures w' answer

  unfoldable pub serve_entries :
      Handler env → Time env → V3Target → List (Bytes × V3ProduceRecord) → World env → BatchServed
  unfolding produce_batch sort_entries
  serve_entries h now target [] w = refuse_batch w 0 (api_error 400 400 entries_empty)
  serve_entries h now target (e ∷ es) w =
      let count = length (e ∷ es) in
      let (envelopes, failures) = sort_entries (envelope_of h target.topic) [] (e ∷ es) in
      if ltb_ℤ h.cfg.max_records (pos count)
      then refuse_batch w 0 (api_error 400 400 (too_many_entries count h.cfg.max_records))
      else produce_batch h now target (map (λ x. x.1) envelopes) (map entry_failure failures) w

  abbrev pub serve_unmarshaled :
      Handler env
      → Time env
      → V3Target
      → Option (List (Bytes × V3ProduceRecord))
      → World env
      → BatchServed
  unfolding serve_entries
  serve_unmarshaled h now target none w = refuse_batch w 0 (api_error 400 400 bad_request_body)
  serve_unmarshaled h now target (some entries) w = serve_entries h now target entries w

  unfoldable pub handle_v3_batch_body :
      UnmarshalBatch → Handler env → Time env → V3Target → Bytes → World env → BatchServed
  unfolding serve_unmarshaled
  handle_v3_batch_body unmarshal h now target body w =
      serve_unmarshaled h now target (unmarshal body) w
