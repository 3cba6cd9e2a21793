-- ===== src/Api/Handler/World/Whole.antt =====
-- A body that was read whole.
use kafka_rest_proxy_go.Common.{◌≤◌, ◌≡◌, none, length, arith}
use kafka_rest_proxy_go.Common.Int.{ℤ, pos_part}
use kafka_rest_proxy_go.Producer.{Bytes}
use kafka_rest_proxy_go.Api.Handler.World.{Body, read_request_body}

pub read_request_body-whole :
    (b : Body) (limit : ℤ) (body : Bytes)
    → read_request_body b limit ≡ (body, none)
    → (body ≡ b.content) × (length b.content ≤ pos_part limit)
unfolding read_request_body
read_request_body-whole b limit body e = ground arith
