-- ===== src/Producer/Tests.antt =====
-- Instances for the sizes of records.
use kafka_rest_proxy_go.Common.{◌≡◌, none, some, [], ◌∷◌, arith}
use kafka_rest_proxy_go.Common.Int.{pos}
use kafka_rest_proxy_go.Producer.{Record, size_bytes}
use kafka_rest_proxy_go.Producer.Sizes.{size_bytes_exact}

abbrev order : Record
order = record {
  topic = b'o' ∷ [];
  key = some (1 ∷ 2 ∷ []);
  value = none;
  headers = record { key = b'h' ∷ []; value = some (7 ∷ 7 ∷ []) } ∷ [];
  partition = none;
}

size_bytes_exact_example : size_bytes order ≡ pos 5
size_bytes_exact_example = size_bytes_exact order (omega arith)
