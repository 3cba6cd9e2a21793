-- ===== src/Schema/Encoder/Wire.antt =====
-- The wire format, read back.
use kafka_rest_proxy_go.Common.{
  ℕ, zero, ◌+◌, ◌*◌, ◌/◌, ◌%◌, ◌<◌, ◌≡◌, refl, Bool, true, false, Option, none, some, [], ◌∷◌,
  arith, inl, inr, Bool-cases,
}
use kafka_rest_proxy_go.Common.Int.{ℤ}
use kafka_rest_proxy_go.Producer.{Bytes}
use kafka_rest_proxy_go.Go.Strings.{eq_bytes}
use kafka_rest_proxy_go.Schema.Kinds.{protobuf}
use kafka_rest_proxy_go.Schema.Encoder.{uint32, append_confluent_wire_format}

-- The payload behind the message index that only Protobuf has.
abbrev behind_index : Bool → ℕ → Bytes → Option (ℕ × Bytes)
behind_index false id rest = some (id, rest)
behind_index true id (zero ∷ rest) = some (id, rest)
behind_index true id _ = none

-- What a consumer reads: a magic zero, a big-endian schema id, for Protobuf a message index of one
-- zero, and the payload.
abbrev pub read_wire : Bytes → Bytes → Option (ℕ × Bytes)
read_wire typ (zero ∷ a ∷ b ∷ c ∷ d ∷ rest) =
    behind_index (eq_bytes typ protobuf) (((a * 256 + b) * 256 + c) * 256 + d) rest
read_wire typ _ = none

four_bytes :
    (n : ℕ)
    → n < 4294967296
    → ((n / 16777216 * 256 + n / 65536 % 256) * 256 + n / 256 % 256) * 256 + n % 256 ≡ n
four_bytes n lt = omega arith

-- A consumer reads from the wire format the schema id, as an unsigned 32-bit number, and the payload
-- as it was.
pub read_wire-append_confluent_wire_format :
    (schema_id : ℤ) (typ payload : Bytes)
    → read_wire typ (append_confluent_wire_format [] schema_id typ payload)
      ≡ some (uint32 schema_id, payload)
unfolding append_confluent_wire_format
read_wire-append_confluent_wire_format schema_id typ payload =
    let four = four_bytes (uint32 schema_id) (omega arith) in
    elim (Bool-cases (eq_bytes typ protobuf)) [
      | inl indexed ↦ rw (indexed, four, indexed) refl
      | inr bare ↦ rw (bare, four, bare) refl
    ]
