-- ===== src/Api/Respond/Tests.antt =====
-- Tests and instances for the response.
use kafka_rest_proxy_go.Common.{◌≡◌, refl, none, some, List, [], ◌∷◌, ◌++◌}
use kafka_rest_proxy_go.Common.Int.{pos, negsuc}
use kafka_rest_proxy_go.Producer.{Bytes, Result}
use kafka_rest_proxy_go.Go.Strings.{bytes}
use kafka_rest_proxy_go.Api.Decode.{ProduceMetadata}
use kafka_rest_proxy_go.Api.Respond.{Texts, append_produce_response}
use kafka_rest_proxy_go.Api.Respond.Structure.{
  json_response, response_of, append_produce_response_exact,
}

-- Errors are texts, and a text stands in bare quotes.
abbrev plain : Texts Bytes
plain = record { quote = λ s. b'"' ∷ s ++ b'"' ∷ []; message = λ s. s }

abbrev results : List (Result Bytes)
results =
    record { partition = pos 1; offset = pos 42; error_code = none; err = none }
    ∷ record {
      partition = pos 0;
      offset = pos 0;
      error_code = some (pos 7);
      err = some (bytes "lost");
    }
    ∷ record { partition = negsuc 0; offset = pos 3; error_code = some (pos 50002); err = none }
    ∷ []

abbrev meta : ProduceMetadata
meta = record { key_schema_id = none; value_schema_id = some (pos 9) }

rendered :
    append_produce_response plain [] results meta
    ≡ bytes
        "{\"offsets\":[{\"partition\":1,\"offset\":42,\"error_code\":null,\"error\":null},{\"partition\":null,\"offset\":null,\"error_code\":7,\"error\":\"lost\"},{\"partition\":null,\"offset\":null,\"error_code\":50002,\"error\":\"Kafka produce failed\"}],\"key_schema_id\":null,\"value_schema_id\":9}\n"
unfolding append_produce_response
rendered = refl

append_produce_response_exact_example :
    append_produce_response plain [] results meta
    ≡ json_response plain.quote (response_of plain results meta) ++ 10 ∷ []
append_produce_response_exact_example =
    append_produce_response_exact plain plain.quote [] results meta
      ((λ failed. refl), ((λ failed. refl), ((λ failed. refl), tt)))
