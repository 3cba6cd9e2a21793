-- ===== src/Api/V3/Responses.antt =====
-- internal/api/v3.go: what a v3 result becomes. An empty text stands for a member that is left out, and
-- the time is a reading of the clock.
use kafka_rest_proxy_go.Common.{not, ◌&&◌, Option, none, some, List, if◌then◌else◌}
use kafka_rest_proxy_go.Common.Int.{ℤ, pos, eq_ℤ}
use kafka_rest_proxy_go.Producer.{Bytes, Result}
use kafka_rest_proxy_go.Go.Strings.{bytes, eq_bytes}
use kafka_rest_proxy_go.Schema.{Metadata, is_some}
use kafka_rest_proxy_go.Schema.Encoder.{first_non_empty}
use kafka_rest_proxy_go.Api.Routes.{V3Target}
use kafka_rest_proxy_go.Api.Respond.{
  Texts, value_or, error_text, result_failed, confluent_kafka_record_error_code,
}
use kafka_rest_proxy_go.Api.Batch.{EntryError}
use kafka_rest_proxy_go.Api.Errors.{Message}
use kafka_rest_proxy_go.Api.V3.{[], V3RecordEnvelope, EnvelopeError}

pub record V3ProduceResponseData : Type 0 where
  pub size : ℤ
  pub type_name : Bytes
  pub subject : Option Bytes
  pub schema_id : Option ℤ
  pub schema_version : Option ℤ

-- A message stands for its text.
pub data V3Message (E X : Type 0) : Type 0 where
  no_message : V3Message E X
  text : Bytes → V3Message E X
  of_message : Message E X → V3Message E X
  of_envelope : EnvelopeError X → V3Message E X
  of_entry : EntryError (EnvelopeError X) → V3Message E X

pub record V3ProduceResponse (T E X : Type 0) : Type 0 where
  pub error_code : ℤ
  pub message : V3Message E X
  pub cluster_id : Bytes
  pub topic_name : Bytes
  pub partition_id : Option ℤ
  pub offset : Option ℤ
  pub timestamp : Option T
  pub key : Option V3ProduceResponseData
  pub value : Option V3ProduceResponseData

pub record V3ProduceBatchSuccess (T : Type 0) : Type 0 where
  pub id : Bytes
  pub cluster_id : Bytes
  pub topic_name : Bytes
  pub partition_id : Option ℤ
  pub offset : Option ℤ
  pub timestamp : Option T
  pub key : Option V3ProduceResponseData
  pub value : Option V3ProduceResponseData

pub record V3ProduceBatchFailure (E X : Type 0) : Type 0 where
  pub id : Bytes
  pub error_code : ℤ
  pub message : V3Message E X

pub record V3ProduceBatchResponse (T E X : Type 0) : Type 0 where
  pub successes : List (V3ProduceBatchSuccess T)
  pub failures : List (V3ProduceBatchFailure E X)

unfoldable pub v3_response_data : Metadata → Option V3ProduceResponseData
unfolding eq_bytes
v3_response_data meta =
    if eq_bytes meta.type_name [] && eq_ℤ meta.size (pos 0) && not (is_some meta.schema_id)
    then none
    else some (record {
      size = meta.size;
      type_name = meta.type_name;
      subject = if eq_bytes meta.subject [] then none else some meta.subject;
      schema_id = meta.schema_id;
      schema_version = meta.schema_version;
    })

abbrev pub result_error_code : {E : Type 0} → Result E → ℤ
result_error_code r = value_or r.error_code confluent_kafka_record_error_code

abbrev pub result_error_message : {E X : Type 0} → Texts E → Result E → V3Message E X
result_error_message texts r = text (error_text texts r.err)

module _ {T E X : Type 0} where
  -- A response with an error only.
  abbrev pub v3_error : ℤ → V3Message E X → V3ProduceResponse T E X
  v3_error code message = record {
    error_code = code;
    message = message;
    cluster_id = [];
    topic_name = [];
    partition_id = none;
    offset = none;
    timestamp = none;
    key = none;
    value = none;
  }

  unfoldable pub v3_response_for_result :
      Texts E → T → V3Target → V3RecordEnvelope → Result E → V3ProduceResponse T E X
  unfolding first_non_empty v3_response_data
  v3_response_for_result texts now target env r =
      if result_failed r
      then v3_error (result_error_code r) (result_error_message texts r)
      else record {
        error_code = pos 200;
        message = no_message;
        cluster_id = first_non_empty target.cluster_id (bytes "local");
        topic_name = target.topic;
        partition_id = some r.partition;
        offset = some r.offset;
        timestamp = some now;
        key = v3_response_data env.key;
        value = v3_response_data env.value;
      }

module _ {T E : Type 0} (X : Type 0) where
  unfoldable pub v3_batch_success_for_result :
      Texts E → T → V3Target → V3RecordEnvelope → Result E → V3ProduceBatchSuccess T
  unfolding v3_response_for_result
  v3_batch_success_for_result texts now target env r =
      let resp : V3ProduceResponse T E X = v3_response_for_result texts now target env r in
      record {
        id = env.id;
        cluster_id = resp.cluster_id;
        topic_name = resp.topic_name;
        partition_id = resp.partition_id;
        offset = resp.offset;
        timestamp = resp.timestamp;
        key = resp.key;
        value = resp.value;
      }
