-- ===== src/Producer/Sizes.antt =====
-- SizeBytes against the plain sum of the lengths.
use kafka_rest_proxy_go.Common.{ℕ, ◌+◌, ◌<◌, ◌≡◌, ◌∙◌, ap, List, [], ◌∷◌, length, arith}
use kafka_rest_proxy_go.Common.Int.{pos, int64_bound, add64_pos}
use kafka_rest_proxy_go.Producer.{Header, Record, len, add_headers, size_bytes}

abbrev pub headers_size : List Header → ℕ
headers_size [] = 0
headers_size (h ∷ hs) = length h.key + len h.value + headers_size hs

-- The bytes that a record holds, without a bound.
abbrev pub payload : Record → ℕ
payload r = len r.key + len r.value + headers_size r.headers

add_headers_exact :
    (n : ℕ) (hs : List Header)
    → n + headers_size hs < int64_bound
    → add_headers (pos n) hs ≡ pos (n + headers_size hs)
unfolding add_headers
add_headers_exact n [] h = ap pos (omega arith)
add_headers_exact n (x ∷ hs) h =
    rw (add64_pos n (length x.key + len x.value) (omega arith))
      (add_headers_exact (n + (length x.key + len x.value)) hs (omega arith) ∙ ap pos (omega arith))

-- As long as the sum fits int64, SizeBytes is the total length of key, value and headers.
pub size_bytes_exact : (r : Record) → payload r < int64_bound → size_bytes r ≡ pos (payload r)
unfolding size_bytes
size_bytes_exact r h = add_headers_exact (len r.key + len r.value) r.headers h
