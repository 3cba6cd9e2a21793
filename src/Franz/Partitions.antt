-- ===== src/Franz/Partitions.antt =====
-- internal/producer/franz/partitioner.go: an explicit partition is kept, and every other record goes
-- to the fallback.
use mathlib.Core.Option
use kafka_rest_proxy_go.Common.{ℕ, ◌≡◌, refl, Bool, true, Option, none, some, if◌then◌else◌}
use kafka_rest_proxy_go.Common.Int.{ℤ, pos}
use kafka_rest_proxy_go.Producer.{Record}
use kafka_rest_proxy_go.Franz.{KgoRecord, acquire_record, TopicPartitioner, is_explicit}

-- The partition that the client named, or else the other value.
abbrev pub named_or {ℓ} : {A : Type ℓ} → Option ℕ → (ℕ → A) → A → A
named_or none f a = a
named_or (some p) f a = f p

module _ {Backup : Type 0} where
  unfoldable pub requires_consistency : TopicPartitioner Backup → KgoRecord → Bool
  requires_consistency fallback r =
      if is_explicit r.partition then true else fallback.requires_consistency r

  unfoldable pub partition : TopicPartitioner Backup → KgoRecord → ℤ → ℤ
  partition fallback r n = if is_explicit r.partition then r.partition else fallback.partition r n

  -- The type assertion on the fallback, and what it falls back to.
  abbrev pub backup_or :
      Option (KgoRecord → ℤ → Backup → ℤ) → TopicPartitioner Backup → KgoRecord → ℤ → Backup → ℤ
  backup_or none fallback r n it = fallback.partition r n
  backup_or (some by_backup) fallback r n it = by_backup r n it

  unfoldable pub partition_by_backup : TopicPartitioner Backup → KgoRecord → ℤ → Backup → ℤ
  partition_by_backup fallback r n it =
      if is_explicit r.partition
      then r.partition
      else backup_or fallback.partition_by_backup fallback r n it

  abbrev pub explicit_partitioner : TopicPartitioner Backup → TopicPartitioner Backup
  explicit_partitioner fallback = record {
    requires_consistency = requires_consistency fallback;
    partition = partition fallback;
    partition_by_backup = some (partition_by_backup fallback);
  }

  -- A record whose client named a partition goes to it, consistently, on every path of the client;
  -- a record with none is partitioned as the fallback would.
  pub partition_exact :
      (fallback : TopicPartitioner Backup) (r : Record) (named : Option ℕ) (n : ℤ) (it : Backup)
      → r.partition ≡ Option.map pos named
      → let p = explicit_partitioner fallback in
        let k = acquire_record r in
        (p.requires_consistency k ≡ named_or named (λ _. true) (fallback.requires_consistency k))
        × (p.partition k n ≡ named_or named pos (fallback.partition k n))
        × (backup_or p.partition_by_backup p k n it
            ≡ named_or named pos (backup_or fallback.partition_by_backup fallback k n it))
  unfolding acquire_record requires_consistency partition partition_by_backup
  partition_exact fallback r none n it e = rw e (refl, refl, refl)
  partition_exact fallback r (some p) n it e = rw e (refl, refl, refl)
