-- ===== src/Api/Handler/World.antt =====
-- What a request does to the world: the limiters of internal/api/handler.go, its reading of a body,
-- its calls of Produce and the metrics that it observes. `World` holds what requests share: the two
-- token buckets, the state of the producer and, in order, the batches that were handed to it and the
-- metrics that were observed (without durations).
pub mod Same
pub mod Whole
use kafka_rest_proxy_go.Common.{
  ℕ, zero, suc, Bool, Option, none, some, List, [], ◌∷◌, ◌++◌, length, ltb, if◌then◌else◌,
}
use kafka_rest_proxy_go.Common.Int.{ℤ, pos_part}
use kafka_rest_proxy_go.Common.Try.{Try}
use kafka_rest_proxy_go.Producer.{Bytes, Record, Result, ProduceError}
use kafka_rest_proxy_go.RateLimit.{Limiter, allow}
use kafka_rest_proxy_go.Metrics.{Event}
use kafka_rest_proxy_go.Api.Payload.{PayloadFormat}
use kafka_rest_proxy_go.Api.Handler.{Env, Handler, Time}

-- The content of a body, and whether the connection fails behind it.
pub record Body : Type 0 where
  pub content : Bytes
  pub fails : Bool

pub data ReadError : Type 0 where
  max_bytes_error other_read_error : ReadError

abbrev pub take : ℕ → Bytes → Bytes
take zero s = []
take (suc n) [] = []
take (suc n) (c ∷ s) = c ∷ take n s

-- readRequestBody: what was read, and the error. Both of its branches read through MaxBytesReader,
-- which fails behind the byte at the limit.
unfoldable pub read_request_body : Body → ℤ → Bytes × Option ReadError
read_request_body b max_bytes =
    if ltb (pos_part max_bytes) (length b.content)
    then (take (pos_part max_bytes) b.content, some max_bytes_error)
    else (b.content, if b.fails then some other_read_error else none)

module _ (env : Env) where
  pub record World : Type 0 where
    pub request_rate : Option (Limiter env.float)
    pub byte_rate : Option (Limiter env.float)
    pub producer : env.State
    pub produced : List (List Record)
    pub events : List Event

  -- A call on the metrics, if there are any.
  unfoldable pub observe : Handler env → Event → World → World
  observe h e w = if h.has_metrics then record w { events = w.events ++ e ∷ [] } else w

  unfoldable pub allow_request_rate : ℤ → Time env → World → World × Bool
  unfolding allow
  allow_request_rate cost now w =
      let (limiter, allowed) = allow env.float w.request_rate cost now in
      (record w { request_rate = limiter }, allowed)

  unfoldable pub allow_byte_rate : ℤ → Time env → World → World × Bool
  unfolding allow
  allow_byte_rate cost now w =
      let (limiter, allowed) = allow env.float w.byte_rate cost now in
      (record w { byte_rate = limiter }, allowed)

  unfoldable pub produce :
      List Record → World → World × Try (ProduceError env.E) (List (Result env.E))
  produce records w =
      let (after, answer) = env.produce w.producer records in
      (record w { producer = after; produced = w.produced ++ records ∷ [] }, answer)
