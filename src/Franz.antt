-- ===== src/Franz.antt =====
-- internal/producer/franz: records on their way to the Kafka client (producer.go) and the
-- partitioner (partitioner.go). The client's record is written whole on each use of the pool, so
-- the pool is left out. The client's own partitioner is a parameter.
pub mod Partitions
pub mod Requests
pub mod System
pub mod Options
mod Tests
use kafka_rest_proxy_go.Common.{Bool, true, false, Option, none, some, List, [], ◌∷◌}
use kafka_rest_proxy_go.Common.Int.{ℤ, pos, negsuc}
use kafka_rest_proxy_go.Producer.{Bytes, Header, Record}

pub record RecordHeader : Type 0 where
  pub key : Bytes
  pub value : Option Bytes

-- `kgo.Record`, the fields that the code sets or reads.
pub record KgoRecord : Type 0 where
  pub topic : Bytes
  pub key : Option Bytes
  pub value : Option Bytes
  pub headers : List RecordHeader
  pub partition : ℤ
  pub offset : ℤ

abbrev pub unspecified_partition : ℤ
unspecified_partition = negsuc 0

unfoldable pub to_kgo_headers : List Header → List RecordHeader
to_kgo_headers [] = []
to_kgo_headers (h ∷ hs) = record { key = h.key; value = h.value } ∷ to_kgo_headers hs

abbrev pub partition_or : Option ℤ → ℤ → ℤ
partition_or none d = d
partition_or (some p) d = p

unfoldable pub acquire_record : Record → KgoRecord
unfolding to_kgo_headers
acquire_record r = record {
  topic = r.topic;
  key = r.key;
  value = r.value;
  headers = to_kgo_headers r.headers;
  partition = partition_or r.partition unspecified_partition;
  offset = pos 0;
}

-- `kgo.TopicPartitioner`, with the backup method that some of its implementations have. `Backup` is
-- the client's iterator over backup partitions.
pub record TopicPartitioner (Backup : Type 0) : Type 0 where
  pub requires_consistency : KgoRecord → Bool
  pub partition : KgoRecord → ℤ → ℤ
  pub partition_by_backup : Option (KgoRecord → ℤ → Backup → ℤ)

abbrev pub is_explicit : ℤ → Bool
is_explicit (pos p) = true
is_explicit (negsuc p) = false
