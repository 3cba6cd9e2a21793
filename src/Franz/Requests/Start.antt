-- ===== src/Franz/Requests/Start.antt =====
-- The start of a request, on every branch.
use kafka_rest_proxy_go.Common.{
  ℕ, ◌+◌, ◌<◌, ◌≡◌, refl, ap, ◌∙◌, Bool, true, false, ◌&&◌, some, List, [], ◌∷◌, length, map, arith,
  if◌then◌else◌, Bool-cases, inl, inr,
}
use kafka_rest_proxy_go.Common.Int.{pos, int64_bound, add64_pos}
use kafka_rest_proxy_go.Limits.Bounds.{Counts, admission, more, fits, InRange, try_acquire_counts}
use kafka_rest_proxy_go.Producer.{Record, ProduceError}
use kafka_rest_proxy_go.Producer.Sizes.{payload, size_bytes_exact}
use kafka_rest_proxy_go.Franz.{acquire_record}
use kafka_rest_proxy_go.Franz.Requests.{
  batch_payload, RequestState, results, failed, Started, returned, waits, new_request_state,
  total_bytes, produce,
}

pub total_bytes_exact :
    (n : ℕ) (rs : List Record)
    → n + batch_payload rs < int64_bound
    → total_bytes (pos n) rs ≡ pos (n + batch_payload rs)
unfolding total_bytes
total_bytes_exact n [] h = ap pos (omega arith)
total_bytes_exact n (r ∷ rs) h =
    rw (size_bytes_exact r (omega arith), add64_pos n (payload r) (omega arith))
      (total_bytes_exact (n + payload r) rs (omega arith) ∙ ap pos (omega arith))

total_bytes_all :
    (rs : List Record)
    → batch_payload rs < int64_bound
    → total_bytes (pos 0) rs ≡ pos (batch_payload rs)
total_bytes_all rs h = total_bytes_exact 0 rs (omega arith) ∙ ap pos (omega arith)

-- What `Produce` does at once: a closed producer and an empty batch return, and another batch is
-- sent whole, with a state of its own and its records and bytes on the controller, exactly when
-- both fit; if not, it is refused and nothing changes.
abbrev pub start_of : {E : Type 0} → Bool → Counts → List Record → Started E
start_of true c records = returned (failed ProduceError.client_closed)
start_of false c [] = returned (results [])
start_of false c (r ∷ rs) =
    let n = length (r ∷ rs) in
    let b = batch_payload (r ∷ rs) in
    if fits c.limit_records c.records n && fits c.limit_bytes c.bytes b
    then waits (new_request_state n (pos n) (pos b)) (some (admission (more c n b)))
        (map acquire_record (r ∷ rs))
    else returned (failed ProduceError.overloaded)

-- While no sum leaves int64: a closed producer refuses every batch and an empty batch returns no
-- results; another batch is sent whole, with its number of records and its bytes added to the
-- counters, exactly when both fit within their limits; if not, it is refused as an overload.
pub produce_exact :
    {E : Type 0} (closed : Bool) (c : Counts) (records : List Record)
    → InRange c (length records) (batch_payload records)
    → produce {E = E} closed (some (admission c)) records ≡ start_of closed c records
unfolding produce
produce_exact true c records h = refl
produce_exact false c [] h = refl
produce_exact false c (r ∷ rs) h =
    let n : ℕ = length (r ∷ rs) in
    let b : ℕ = batch_payload (r ∷ rs) in
    rw (total_bytes_all (r ∷ rs) (omega arith), try_acquire_counts c n b h)
      (elim (Bool-cases (fits c.limit_records c.records n && fits c.limit_bytes c.bytes b)) [
        | inl fit ↦ rw fit refl
        | inr full ↦ rw full refl
      ])

-- So a batch that waits has its fresh state, and its records and bytes on the controller within
-- the limits.
pub waits_inv :
    {E : Type 0} (closed : Bool) (c : Counts) (records : List Record) {st : RequestState E}
    {admit : _} {sent : _}
    → InRange c (length records) (batch_payload records)
    → produce closed (some (admission c)) records ≡ waits st admit sent
    → (st ≡ new_request_state (length records) (pos (length records)) (pos (batch_payload records)))
      × (admit ≡ some (admission (more c (length records) (batch_payload records))))
      × ((fits c.limit_records c.records (length records)
            && fits c.limit_bytes c.bytes (batch_payload records))
          ≡ true)
      × (0 < length records)
waits_inv true c records h e = cc (produce_exact true c records h)
waits_inv false c [] h e = cc (produce_exact false c [] h)
waits_inv {E} false c (r ∷ rs) h e = ground (arith, produce_exact {E = E} false c (r ∷ rs) h)
