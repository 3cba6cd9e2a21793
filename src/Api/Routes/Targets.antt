-- ===== src/Api/Routes/Targets.antt =====
-- What every path that the v2 route accepts leads to.
use kafka_rest_proxy_go.Common.{
  ℕ, ◌<◌, ◌≡◌, ◌≢◌, refl, subst, ◌⊎◌, inl, inr, Option, none, some, List, [], ◌∷◌, arith,
}
use kafka_rest_proxy_go.Common.Int.{ℤ, pos, negsuc}
use kafka_rest_proxy_go.Go.Strings.{bytes, trim_prefix}
use kafka_rest_proxy_go.Go.Strings.Split.{split}
use kafka_rest_proxy_go.Go.Url.{path_unescape}
use kafka_rest_proxy_go.Go.Number.{parse_int}
use kafka_rest_proxy_go.Go.Number.Digits.{parse_int_lt}
use kafka_rest_proxy_go.Api.Routes.{
  non_empty, int32_bound, topic_only, with_partition, ProduceTarget, segment, partition_target,
  target_of, produce_target_from_path,
}

-- What the type of a target cannot say: it names a topic, and a partition of an int32 that is not
-- negative.
abbrev pub IsTarget : ProduceTarget → Type 0
IsTarget t =
    (t.topic ≢ [])
    × ((t.partition ≡ none) ⊎ ((p : ℕ) × (t.partition ≡ some (pos p)) × (p < int32_bound)))

segment-ne-nil : (s topic : List ℕ) → segment s ≡ some topic → topic ≢ []
unfolding segment
segment-ne-nil s topic e n = by_text (path_unescape s) e n
  where
    by_text : (o : Option (List ℕ)) → non_empty o ≡ some topic → topic ≢ []
    by_text none e n = cc
    by_text (some []) e n = cc
    by_text (some (c ∷ t)) e n = let x : some (c ∷ t) ≡ some [] = rw (← n) e in cc

one_segment-IsTarget :
    (s : List ℕ) (o : Option (List ℕ)) (t : ProduceTarget)
    → segment s ≡ o
    → topic_only o ≡ some t
    → IsTarget t
one_segment-IsTarget s none t eo e = cc
one_segment-IsTarget s (some topic) t eo e =
    let same : record { topic = topic; partition = none } ≡ t = cc in
    subst IsTarget same (segment-ne-nil s topic eo, inl refl)

with_partition-IsTarget :
    (topic number : List ℕ) (o : Option ℤ) (t : ProduceTarget)
    → topic ≢ []
    → parse_int int32_bound number ≡ o
    → with_partition topic o ≡ some t
    → IsTarget t
with_partition-IsTarget topic number none t ne eo e = cc
with_partition-IsTarget topic number (some (negsuc n)) t ne eo e = cc
with_partition-IsTarget topic number (some (pos n)) t ne eo e =
    let same : record { topic = topic; partition = some (pos n) } ≡ t = cc in
    subst IsTarget same (ne, inr (n, refl, parse_int_lt int32_bound n number (omega arith) eo))

partition_target-IsTarget :
    (s word number : List ℕ) (o : Option (List ℕ)) (t : ProduceTarget)
    → segment s ≡ o
    → partition_target word number o ≡ some t
    → IsTarget t
unfolding partition_target
partition_target-IsTarget s word number none t eo e = cc
partition_target-IsTarget s word number (some topic) t eo e =
    with_partition-IsTarget topic number (parse_int int32_bound number) t
      (segment-ne-nil s topic eo) refl (ground arith)

target_of-IsTarget :
    (segs : List (List ℕ)) (t : ProduceTarget) → target_of segs ≡ some t → IsTarget t
unfolding target_of
target_of-IsTarget [] t e = cc
target_of-IsTarget (s ∷ []) t e = one_segment-IsTarget s (segment s) t refl e
target_of-IsTarget (s ∷ _ ∷ []) t e = cc
target_of-IsTarget (s ∷ word ∷ number ∷ []) t e =
    partition_target-IsTarget s word number (segment s) t refl e
target_of-IsTarget (s ∷ _ ∷ _ ∷ _ ∷ _) t e = cc

-- Every path that the v2 route accepts leads to a topic that is not empty and to a partition, if it
-- names one, that is not negative and below 2^31.
pub produce_target-IsTarget :
    (path : List ℕ) (t : ProduceTarget) → produce_target_from_path path ≡ some t → IsTarget t
unfolding produce_target_from_path
produce_target-IsTarget path t e =
    target_of-IsTarget (split b'/' (trim_prefix path (bytes "/topics/"))) t (ground arith)
