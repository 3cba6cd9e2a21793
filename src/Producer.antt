-- ===== src/Producer.antt =====
-- internal/producer/producer.go: the records and results that the HTTP layer and the Kafka producer
-- exchange. A string is its bytes. A nil slice is `none`, which Kafka sees as null. `E` stands for
-- the errors of the libraries that the code only passes on.
pub mod Sizes
mod Tests
use kafka_rest_proxy_go.Common.{ℕ, ◌+◌, Option, none, some, List, [], ◌∷◌, length}
use kafka_rest_proxy_go.Common.Int.{ℤ, pos, add64}

abbrev pub Bytes : Type 0
Bytes = List ℕ

pub record Header : Type 0 where
  pub key : Bytes
  pub value : Option Bytes

pub record Record : Type 0 where
  pub topic : Bytes
  pub key : Option Bytes
  pub value : Option Bytes
  pub headers : List Header
  pub partition : Option ℤ

pub record Result (E : Type 0) : Type 0 where
  pub partition : ℤ
  pub offset : ℤ
  pub error_code : Option ℤ
  pub err : Option E

-- The errors of `Produce` that callers tell apart, and any other.
pub data ProduceError (E : Type 0) : Type 0 where
  overloaded : ProduceError E
  client_closed : ProduceError E
  canceled deadline_exceeded : ProduceError E
  other : E → ProduceError E

-- `len` of a slice, 0 for nil.
abbrev pub len : Option Bytes → ℕ
len none = 0
len (some b) = length b

-- The loop of `SizeBytes`.
add_headers : ℤ → List Header → ℤ
add_headers n [] = n
add_headers n (h ∷ hs) = add_headers (add64 n (pos (length h.key + len h.value))) hs

unfoldable pub size_bytes : Record → ℤ
unfolding add_headers
size_bytes r = add_headers (pos (len r.key + len r.value)) r.headers
