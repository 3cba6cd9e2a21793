-- ===== src/Api/Routes/RoundTrip.antt =====
-- The paths of a topic lead back to it, and what a path leads to is a target.
use kafka_rest_proxy_go.Common.{
  ℕ, ◌<◌, ◌≡◌, ◌≢◌, refl, ap, append-nil, ◌∙◌, Bool, true, false, Option, none, some, List, [], ◌∷◌,
  ◌++◌, All, if◌then◌else◌, arith,
}
use kafka_rest_proxy_go.Common.Int.{ℤ, pos}
use kafka_rest_proxy_go.Go.Strings.{bytes}
use kafka_rest_proxy_go.Go.Strings.Split.{Lacks, split, split_part, split_last}
use kafka_rest_proxy_go.Go.Url.{path_escape}
use kafka_rest_proxy_go.Go.Url.Escape.{IsText, path_unescape-path_escape, path_escape-Lacks}
use kafka_rest_proxy_go.Go.Number.{digits}
use kafka_rest_proxy_go.Go.Number.Digits.{IsDigit, IsDecimal, digits-IsDecimal, parse_int-digits}
use kafka_rest_proxy_go.Api.Routes.{
  is_empty, int32_bound, segment, target_of, produce_target_from_path, v3_target_from_path,
}

segment-path_escape : (s : List ℕ) → IsText s → s ≢ [] → segment (path_escape s) ≡ some s
unfolding segment
segment-path_escape [] h ne = absurd (ne refl)
segment-path_escape (c ∷ s) h ne = rw (path_unescape-path_escape (c ∷ s) h)

IsDecimal-Lacks : (s : List ℕ) → IsDecimal s → Lacks b'/' s
IsDecimal-Lacks [] d = absurd d
IsDecimal-Lacks (c ∷ s) (d, ds) = ((λ e. absurd (omega (arith, e, d))), digits_lack s ds)
  where
    digits_lack : (t : List ℕ) → All IsDigit t → Lacks b'/' t
    digits_lack [] d = tt
    digits_lack (c ∷ t) (d, ds) = ((λ e. absurd (omega (arith, e, d))), digits_lack t ds)

-- The path of a topic, and that of one of its partitions.
abbrev pub rest_of : Option ℕ → List ℕ
rest_of none = []
rest_of (some p) = bytes "/partitions/" ++ digits p

abbrev pub topic_path : List ℕ → Option ℕ → List ℕ
topic_path topic p = bytes "/topics/" ++ (path_escape topic ++ rest_of p)

abbrev pub IsPartition : Option ℕ → Type 0
IsPartition none = Unit
IsPartition (some p) = p < int32_bound

abbrev pub partition_of : Option ℕ → Option ℤ
partition_of none = none
partition_of (some p) = some (pos p)

IsDecimal-not_empty : (s : List ℕ) → IsDecimal s → is_empty s ≡ false
IsDecimal-not_empty [] d = absurd d
IsDecimal-not_empty (c ∷ s) d = refl

partition_target_exact :
    (topic : List ℕ) (p : ℕ)
    → IsText topic
    → topic ≢ []
    → p < int32_bound
    → target_of (path_escape topic ∷ bytes "partitions" ∷ digits p ∷ [])
      ≡ some (record { topic = topic; partition = some (pos p) })
unfolding target_of
partition_target_exact topic p h ne hp = rw (
  segment-path_escape topic h ne,
  IsDecimal-not_empty (digits p) (digits-IsDecimal p),
  parse_int-digits int32_bound p hp,
)

target_of_path :
    (topic : List ℕ) (p : Option ℕ)
    → IsText topic
    → topic ≢ []
    → IsPartition p
    → target_of (split b'/' (path_escape topic ++ rest_of p))
      ≡ some (record { topic = topic; partition = partition_of p })
unfolding target_of
target_of_path topic none h ne hp = rw (
  append-nil (path_escape topic),
  split_last b'/' (path_escape topic) (path_escape-Lacks topic h),
  segment-path_escape topic h ne,
)
target_of_path topic (some p) h ne hp =
    rw
      (
        split_part b'/' (path_escape topic) (bytes "partitions/" ++ digits p)
            (path_escape-Lacks topic h),
        split_part b'/' (bytes "partitions") (digits p) (omega arith),
        split_last b'/' (digits p) (IsDecimal-Lacks (digits p) (digits-IsDecimal p)),
      )
      (partition_target_exact topic p h ne hp)

path_escape_append : (s rest : List ℕ) → s ≢ [] → path_escape s ++ rest ≢ []
unfolding path_escape
path_escape_append [] rest ne = absurd (ne refl)
path_escape_append (c ∷ s) rest ne = ground arith

target_of_prefixed :
    (rest : List ℕ)
    → rest ≢ []
    → produce_target_from_path (bytes "/topics/" ++ rest) ≡ target_of (split b'/' rest)
unfolding produce_target_from_path
target_of_prefixed [] ne = absurd (ne refl)
target_of_prefixed (c ∷ s) ne = ground arith

-- A topic's path, escaped as net/url escapes it, leads to that topic and partition.
pub produce_target-topic_path :
    (topic : List ℕ) (p : Option ℕ)
    → IsText topic
    → topic ≢ []
    → IsPartition p
    → produce_target_from_path (topic_path topic p)
      ≡ some (record { topic = topic; partition = partition_of p })
unfolding produce_target_from_path
produce_target-topic_path topic p h ne hp =
    target_of_prefixed (path_escape topic ++ rest_of p) (path_escape_append topic (rest_of p) ne)
    ∙ target_of_path topic p h ne hp

-- The path of a topic's records on the v3 route.
abbrev pub v3_path : List ℕ → List ℕ → Bool → List ℕ
v3_path cluster topic batch =
    bytes "/v3/clusters/"
    ++ (path_escape cluster
        ++ (bytes "/topics/"
            ++ (path_escape topic ++ (if batch then bytes "/records:batch" else bytes "/records"))))

v3_split :
    (cluster topic ending : List ℕ)
    → IsText cluster
    → IsText topic
    → Lacks b'/' ending
    → split b'/' (
        bytes "v3/clusters/"
        ++ (path_escape cluster ++ (bytes "/topics/" ++ (path_escape topic ++ (b'/' ∷ ending)))))
      ≡ bytes "v3"
        ∷ bytes "clusters"
        ∷ path_escape cluster
        ∷ bytes "topics"
        ∷ path_escape topic
        ∷ ending
        ∷ []
v3_split cluster topic ending hc ht he =
    let after_topic : List ℕ = path_escape topic ++ (b'/' ∷ ending) in
    let after_cluster : List ℕ = path_escape cluster ++ (bytes "/topics/" ++ after_topic) in
    split_part b'/' (bytes "v3") (bytes "clusters/" ++ after_cluster) (omega arith)
    ∙ ap (λ t. bytes "v3" ∷ t)
        (split_part b'/' (bytes "clusters") after_cluster (omega arith)
          ∙ ap (λ t. bytes "clusters" ∷ t)
              (split_part b'/' (path_escape cluster) (bytes "topics/" ++ after_topic)
                  (path_escape-Lacks cluster hc)
                ∙ ap (λ t. path_escape cluster ∷ t)
                    (split_part b'/' (bytes "topics") after_topic (omega arith)
                      ∙ ap (λ t. bytes "topics" ∷ t)
                          (split_part b'/' (path_escape topic) ending (path_escape-Lacks topic ht)
                            ∙ ap (λ t. path_escape topic ∷ t) (split_last b'/' ending he)))))

-- The v3 path of a cluster and a topic, each escaped as net/url escapes it, leads back to them, for
-- single records and for batches.
pub v3_target-v3_path :
    (cluster topic : List ℕ) (batch : Bool)
    → IsText cluster
    → IsText topic
    → cluster ≢ []
    → topic ≢ []
    → v3_target_from_path (v3_path cluster topic batch)
      ≡ some (record { cluster_id = cluster; topic = topic; batch = batch })
unfolding v3_target_from_path
v3_target-v3_path cluster topic true hc ht nc nt = rw (
  v3_split cluster topic (bytes "records:batch") hc ht (omega arith),
  segment-path_escape cluster hc nc,
  segment-path_escape topic ht nt,
)
v3_target-v3_path cluster topic false hc ht nc nt = rw (
  v3_split cluster topic (bytes "records") hc ht (omega arith),
  segment-path_escape cluster hc nc,
  segment-path_escape topic ht nt,
)
