-- ===== src/Api/Routes/Tests.antt =====
-- Tests and instances for the routes.
use kafka_rest_proxy_go.Common.{◌≡◌, refl, true, none, some, arith}
use kafka_rest_proxy_go.Common.Int.{pos}
use kafka_rest_proxy_go.Go.Strings.{bytes}
use kafka_rest_proxy_go.Api.Routes.{produce_target_from_path, v3_target_from_path}
use kafka_rest_proxy_go.Api.Routes.RoundTrip.{
  topic_path, produce_target-topic_path, v3_path, v3_target-v3_path,
}
use kafka_rest_proxy_go.Api.Routes.Targets.{IsTarget, produce_target-IsTarget}

escaped :
    produce_target_from_path (bytes "/topics/a%2Fb")
    ≡ some (record { topic = bytes "a/b"; partition = none })
unfolding produce_target_from_path
escaped = refl

partitioned :
    produce_target_from_path (bytes "/topics/t/partitions/12")
    ≡ some (record { topic = bytes "t"; partition = some (pos 12) })
unfolding produce_target_from_path
partitioned = refl

rejected :
    (produce_target_from_path (bytes "/topics/") ≡ none)
    × (produce_target_from_path (bytes "/topics/a/b") ≡ none)
    × (produce_target_from_path (bytes "/topics/t/partitions/-1") ≡ none)
    × (produce_target_from_path (bytes "/topics/t/partitions/2147483648") ≡ none)
    × (produce_target_from_path (bytes "/topics/%4") ≡ none)
    × (v3_target_from_path (bytes "/v3/clusters//topics/t/records") ≡ none)
unfolding produce_target_from_path v3_target_from_path
rejected = (refl, refl, refl, refl, refl, refl)

produce_target-topic_path_example :
    produce_target_from_path (topic_path (bytes "a/b c") (some 7))
    ≡ some (record { topic = bytes "a/b c"; partition = some (pos 7) })
produce_target-topic_path_example =
    produce_target-topic_path (bytes "a/b c") (some 7) (omega arith) (λ e. cc) (omega arith)

v3_target-v3_path_example :
    v3_target_from_path (v3_path (bytes "c1") (bytes "a/b") true)
    ≡ some (record { cluster_id = bytes "c1"; topic = bytes "a/b"; batch = true })
v3_target-v3_path_example =
    v3_target-v3_path (bytes "c1") (bytes "a/b") true (omega arith) (omega arith) (λ e. cc)
      (λ e. cc)

produce_target-IsTarget_example : IsTarget (record { topic = bytes "t"; partition = some (pos 12) })
produce_target-IsTarget_example =
    produce_target-IsTarget (bytes "/topics/t/partitions/12") _ partitioned
