-- ===== src/Api/Errors.antt =====
-- internal/api/errors.go: the errors that a handler answers with, and the classification of the
-- errors of Produce. A message stands for its text; `E` are the errors of the Kafka client, and `X`
-- those of the schema libraries.
use kafka_rest_proxy_go.Common.{arith, ℕ, ◌≤◌}
use kafka_rest_proxy_go.Common.Int.{ℤ}
use kafka_rest_proxy_go.Producer.{
  ProduceError, overloaded, client_closed, canceled, deadline_exceeded, other,
}
use kafka_rest_proxy_go.Schema.Encoder.{EncodeError}
use kafka_rest_proxy_go.Api.Decode.{DecodeError, missing_records, empty_records}

-- An error of Produce as a handler sees it: two handlers put one error in place of those of a context.
pub data HandlerError (E : Type 0) : Type 0 where
  of_producer : ProduceError E → HandlerError E
  context_canceled : HandlerError E

unfoldable pub as_context_error : {E : Type 0} → ProduceError E → HandlerError E
as_context_error canceled = context_canceled
as_context_error deadline_exceeded = context_canceled
as_context_error overloaded = of_producer overloaded
as_context_error client_closed = of_producer client_closed
as_context_error (other e) = of_producer (other e)

pub data Message (E X : Type 0) : Type 0 where
  method_not_allowed not_found topic_not_allowed not_acceptable unsupported_media : Message E X
  rate_limit payload_too_large read_failed bad_request_body : Message E X
  entries_empty no_record : Message E X
  too_many_entries too_many_records : ℕ → ℤ → Message E X
  decode_failed : DecodeError (EncodeError X) → Message E X
  producer_overloaded produce_timed_out : Message E X
  produce_failed : HandlerError E → Message E X

-- The status and the error code of an answer, and its message.
pub record ApiError (E X : Type 0) : Type 0 where
  pub status : ℕ
  pub code : ℕ
  pub message : Message E X

abbrev pub api_error : {E X : Type 0} → ℕ → ℕ → Message E X → ApiError E X
api_error status code message = record { status = status; code = code; message = message }

-- An answer that refuses.
abbrev pub IsRefusal : {E X : Type 0} → ApiError E X → Type 0
IsRefusal e = 400 ≤ e.status

unfoldable pub rate_limit_exceeded : {E X : Type 0} → ApiError E X
rate_limit_exceeded = api_error 429 429 rate_limit

unfoldable pub classify_produce_error : {E X : Type 0} → HandlerError E → ApiError E X
classify_produce_error (of_producer overloaded) = api_error 429 429 producer_overloaded
classify_produce_error context_canceled = api_error 504 504 produce_timed_out
classify_produce_error e = api_error 503 503 (produce_failed e)

-- The answer to a body that does not decode.
unfoldable pub decode_error : {E X : Type 0} → DecodeError (EncodeError X) → ApiError E X
decode_error missing_records = api_error 422 422 (decode_failed missing_records)
decode_error empty_records = api_error 422 422 (decode_failed empty_records)
decode_error e = api_error 400 400 (decode_failed e)

pub decode_error_status :
    (E : Type 0) {X : Type 0} (e : DecodeError (EncodeError X)) → IsRefusal (decode_error {E = E} e)
unfolding decode_error
decode_error_status E e = ground arith

pub classify_produce_error_status :
    (X : Type 0) {E : Type 0} (e : HandlerError E) → IsRefusal (classify_produce_error {X = X} e)
unfolding classify_produce_error
classify_produce_error_status X e = ground arith
