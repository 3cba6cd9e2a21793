-- ===== src/Api/Routes.antt =====
-- produceTargetFromPath of internal/api/handler.go and v3ProduceTargetFromPath of internal/api/v3.go,
-- on the escaped path of the URL.
pub mod RoundTrip
pub mod Targets
mod Tests
use kafka_rest_proxy_go.Common.{
  ℕ, ◌≡◌, Bool, true, false, not, ◌&&◌, ◌||◌, Option, none, some, List, [], ◌∷◌, ◌++◌, length, ◌==◌,
  if◌then◌else◌,
}
use kafka_rest_proxy_go.Common.Int.{ℤ, pos, negsuc}
use kafka_rest_proxy_go.Go.Strings.{bytes, eq_bytes, has_prefix, trim_prefix}
use kafka_rest_proxy_go.Go.Strings.Split.{split}
use kafka_rest_proxy_go.Go.Url.{path_unescape}
use kafka_rest_proxy_go.Go.Number.{parse_int}

-- 2^31: ParseInt(s, 10, 32) reads what lies below it.
abbrev pub int32_bound : ℕ
int32_bound = 2147483648

pub record ProduceTarget : Type 0 where
  pub topic : List ℕ
  pub partition : Option ℤ

-- A segment that decodes to something.
abbrev non_empty : Option (List ℕ) → Option (List ℕ)
non_empty none = none
non_empty (some []) = none
non_empty (some (c ∷ s)) = some (c ∷ s)

unfoldable pub segment : List ℕ → Option (List ℕ)
unfolding path_unescape
segment s = non_empty (path_unescape s)

abbrev with_partition : List ℕ → Option ℤ → Option ProduceTarget
with_partition topic none = none
with_partition topic (some (pos n)) = some (record { topic = topic; partition = some (pos n) })
with_partition topic (some (negsuc n)) = none

abbrev is_empty : List ℕ → Bool
is_empty [] = true
is_empty (c ∷ s) = false

abbrev topic_only : Option (List ℕ) → Option ProduceTarget
topic_only none = none
topic_only (some topic) = some (record { topic = topic; partition = none })

partition_target : List ℕ → List ℕ → Option (List ℕ) → Option ProduceTarget
unfolding parse_int eq_bytes
partition_target word number none = none
partition_target word number (some topic) =
    if not (eq_bytes word (bytes "partitions")) || is_empty number
    then none
    else with_partition topic (parse_int int32_bound number)

unfoldable pub target_of : List (List ℕ) → Option ProduceTarget
unfolding segment partition_target
target_of (t ∷ []) = topic_only (segment t)
target_of (t ∷ word ∷ number ∷ []) = partition_target word number (segment t)
target_of _ = none

unfoldable pub produce_target_from_path : List ℕ → Option ProduceTarget
unfolding target_of split has_prefix trim_prefix
produce_target_from_path path =
    let prefix = bytes "/topics/" in
    if not (has_prefix path prefix) || length path == length prefix
    then none
    else target_of (split b'/' (trim_prefix path prefix))

pub record V3Target : Type 0 where
  pub cluster_id : List ℕ
  pub topic : List ℕ
  pub batch : Bool

abbrev v3_ending : List ℕ → List ℕ → List ℕ → Option V3Target
v3_ending cluster topic ending =
    if eq_bytes ending (bytes "records")
    then some (record { cluster_id = cluster; topic = topic; batch = false })
    else if eq_bytes ending (bytes "records:batch")
    then some (record { cluster_id = cluster; topic = topic; batch = true })
    else none

abbrev v3_named : Option (List ℕ) → Option (List ℕ) → List ℕ → Option V3Target
v3_named none topic ending = none
v3_named (some cluster) none ending = none
v3_named (some cluster) (some topic) ending = v3_ending cluster topic ending

unfoldable pub v3_target_of : List (List ℕ) → Option V3Target
unfolding segment eq_bytes
v3_target_of (v3 ∷ clusters ∷ cluster ∷ topics ∷ topic ∷ ending ∷ []) =
    if not (eq_bytes v3 (bytes "v3"))
      || (not (eq_bytes clusters (bytes "clusters")) || not (eq_bytes topics (bytes "topics")))
    then none
    else v3_named (segment cluster) (segment topic) ending
v3_target_of _ = none

unfoldable pub v3_target_from_path : List ℕ → Option V3Target
unfolding v3_target_of split trim_prefix
v3_target_from_path path = v3_target_of (split b'/' (trim_prefix path (bytes "/")))
