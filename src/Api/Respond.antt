-- ===== src/Api/Respond.antt =====
-- appendProduceResponse, countResultStatus and resultFailed of internal/api/types.go: the body of a
-- v2 response, appended piece by piece. strconv.AppendQuote and the text of an error are
-- parameters. A slice has fewer than 2^63 elements, so the counts are natural numbers.
pub mod Structure
mod Tests
use kafka_rest_proxy_go.Common.{
  ℕ, zero, suc, ◌+◌, Bool, true, false, ◌||◌, Option, none, some, List, [], ◌∷◌, ◌++◌, ltb,
  if◌then◌else◌,
}
use kafka_rest_proxy_go.Common.Int.{ℤ, pos}
use kafka_rest_proxy_go.Producer.{Bytes, Result}
use kafka_rest_proxy_go.Go.Strings.{bytes}
use kafka_rest_proxy_go.Go.Number.{append_int}
use kafka_rest_proxy_go.Schema.{is_some}
use kafka_rest_proxy_go.Api.Decode.{ProduceMetadata}

abbrev pub confluent_kafka_record_error_code : ℤ
confluent_kafka_record_error_code = pos 50002

abbrev pub value_or {ℓ} : {A : Type ℓ} → Option A → A → A
value_or none a = a
value_or (some b) a = b

abbrev pub result_failed : {E : Type 0} → Result E → Bool
result_failed r = is_some r.err || is_some r.error_code

-- How the code writes a text in quotes, and the text of an error.
pub record Texts (E : Type 0) : Type 0 where
  pub quote : Bytes → Bytes
  pub message : E → Bytes

unfoldable pub append_nullable_int : Bytes → Option ℤ → Bytes
unfolding append_int
append_nullable_int dst none = dst ++ bytes "null"
append_nullable_int dst (some n) = append_int dst n

abbrev pub error_text : {E : Type 0} → Texts E → Option E → Bytes
error_text texts none = bytes "Kafka produce failed"
error_text texts (some e) = texts.message e

module _ {E : Type 0} (texts : Texts E) where
  unfoldable pub append_failure : Bytes → Result E → Bytes
  unfolding append_int
  append_failure dst r =
      let head = dst ++ bytes "\"partition\":null,\"offset\":null,\"error_code\":" in
      let code = append_int head (value_or r.error_code confluent_kafka_record_error_code) in
      (code ++ bytes ",\"error\":") ++ texts.quote (error_text texts r.err)

  unfoldable pub append_success : Bytes → Result E → Bytes
  unfolding append_int
  append_success dst r =
      let partition = append_int (dst ++ bytes "\"partition\":") r.partition in
      let offset = append_int (partition ++ bytes ",\"offset\":") r.offset in
      offset ++ bytes ",\"error_code\":null,\"error\":null"

  unfoldable pub append_result : Bytes → Result E → Bytes
  unfolding append_failure append_success
  append_result dst r =
      (if result_failed r
        then append_failure (dst ++ bytes "{") r
        else append_success (dst ++ bytes "{") r)
      ++ bytes "}"

  -- The loop, at the index of the first result of the list.
  unfoldable pub append_results : ℕ → Bytes → List (Result E) → Bytes
  unfolding append_result
  append_results i dst [] = dst
  append_results i dst (r ∷ rs) =
      append_results (suc i) (append_result (if ltb 0 i then dst ++ bytes "," else dst) r) rs

  unfoldable pub append_produce_response : Bytes → List (Result E) → ProduceMetadata → Bytes
  unfolding append_results append_nullable_int
  append_produce_response dst results meta =
      let offsets = append_results 0 (dst ++ bytes "{\"offsets\":[") results in
      let key = append_nullable_int (offsets ++ bytes "],\"key_schema_id\":") meta.key_schema_id in
      let value = append_nullable_int (key ++ bytes ",\"value_schema_id\":") meta.value_schema_id in
      (value ++ bytes "}") ++ 10 ∷ []

-- The numbers of successes and failures, as the loop counts them.
abbrev pub count_from : {E : Type 0} → ℕ × ℕ → List (Result E) → ℕ × ℕ
count_from counts [] = counts
count_from (successes, failures) (r ∷ rs) =
    count_from (if result_failed r then (successes, suc failures) else (suc successes, failures)) rs

unfoldable pub count_result_status : {E : Type 0} → List (Result E) → ℕ × ℕ
count_result_status results = count_from (0, 0) results
