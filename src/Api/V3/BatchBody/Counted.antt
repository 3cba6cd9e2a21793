-- ===== src/Api/V3/BatchBody/Counted.antt =====
-- What the answer to a v3 batch holds.
use kafka_rest_proxy_go.Common.{
  append-nil, append_assoc, ℕ, suc, ◌+◌, ◌≡◌, refl, ap, some, List, [], ◌∷◌, ◌++◌, length, map,
  if◌then◌else◌, arith, inl, inr, Bool-cases,
}
use kafka_rest_proxy_go.Common.Try.{Try}
use kafka_rest_proxy_go.Producer.{Bytes, Result}
use kafka_rest_proxy_go.Go.Strings.{eq_bytes}
use kafka_rest_proxy_go.Api.Routes.{V3Target}
use kafka_rest_proxy_go.Api.Respond.{Texts, result_failed}
use kafka_rest_proxy_go.Api.Batch.{EntryError}
use kafka_rest_proxy_go.Api.Batch.Sorted.{Splits, done, accepted, undecoded, refused}
use kafka_rest_proxy_go.Api.Handler.{decode_limits, Env, Handler, Time}
use kafka_rest_proxy_go.Api.V3.{
  v3_envelope_from_record, V3ProduceRecord, V3RecordEnvelope, EnvelopeError,
}
use kafka_rest_proxy_go.Api.V3.Within.{v3_envelope_from_record-Within}
use kafka_rest_proxy_go.Api.V3.Responses.{
  V3ProduceBatchSuccess, V3ProduceBatchFailure, v3_batch_success_for_result, V3ProduceBatchResponse,
}
use kafka_rest_proxy_go.Api.V3.BatchBody.{result_failure, BatchResponse, envelope_of, add_results}

-- How often an id stands in a list.
abbrev pub count : Bytes → List Bytes → ℕ
count id [] = 0
count id (x ∷ xs) = (if eq_bytes id x then 1 else 0) + count id xs

-- One more at the end.
count-map-append {ℓ} :
    {A : Type ℓ} (id : Bytes) (f : A → Bytes) (xs : List A) (y : A)
    → count id (map f (xs ++ y ∷ [])) ≡ count id (map f xs) + count id (f y ∷ [])
count-map-append id f [] y = omega arith
count-map-append id f (x ∷ xs) y = ground (arith, count-map-append id f xs y)

pub length-map {ℓ κ} :
    {A : Type ℓ} {B : Type κ} (f : A → B) (xs : List A) → length (map f xs) ≡ length xs
length-map f [] = refl
length-map f (x ∷ xs) = ap suc (length-map f xs)

module _ {A B X : Type 0} {decode : Bytes → A → Try X B} where
  -- Each id of the entries is that of a record or of a failure.
  pub Splits_count :
      {seen : List Bytes} {entries : List (Bytes × A)} {envelopes : List (Bytes × B)}
      {failures : List (Bytes × EntryError X)} (id : Bytes)
      → Splits decode seen entries envelopes failures
      → count id (map (λ x. x.0) entries)
        ≡ count id (map (λ x. x.0) envelopes) + count id (map (λ x. x.0) failures)
  Splits_count id done = refl
  Splits_count id (accepted i n d s) = ground (arith, Splits_count id s)
  Splits_count id (undecoded i n d s) = ground (arith, Splits_count id s)
  Splits_count id (refused r s) = ground (arith, Splits_count id s)

module _ {T E X : Type 0} where
  abbrev pub success_ids : V3ProduceBatchResponse T E X → List Bytes
  success_ids response = map (λ x. x.id) response.successes

  abbrev pub failure_ids : V3ProduceBatchResponse T E X → List Bytes
  failure_ids response = map (λ x. x.id) response.failures

  abbrev pub answered_count : Bytes → V3ProduceBatchResponse T E X → ℕ
  answered_count id response = count id (success_ids response) + count id (failure_ids response)

module _ {env : Env} where
  -- The id of an envelope is that of its entry.
  pub Splits_ids :
      (h : Handler env) (topic : Bytes) {seen : List Bytes}
      {entries : List (Bytes × V3ProduceRecord)} {envelopes : List (Bytes × V3RecordEnvelope)}
      {failures : List (Bytes × EntryError (EnvelopeError env.X))}
      → Splits (envelope_of env h topic) seen entries envelopes failures
      → map (λ x. x.id) (map (λ x. x.1) envelopes) ≡ map (λ x. x.0) envelopes
  unfolding v3_envelope_from_record envelope_of
  Splits_ids h topic done = refl
  Splits_ids h topic (accepted {id = id} {a = a} {b = b} i n d s) =
      let within =
        v3_envelope_from_record-Within env.codec env.languages topic id a h.schema_encoder
          (decode_limits env h.cfg) b d in
      rw (within.id_is, Splits_ids h topic s) refl
  Splits_ids h topic (undecoded i n d s) = Splits_ids h topic s
  Splits_ids h topic (refused r s) = Splits_ids h topic s

v3_batch_success_for_result_id :
    {T E : Type 0} (X : Type 0) (texts : Texts E) (now : T) (target : V3Target)
    (v : V3RecordEnvelope) (r : Result E)
    → (v3_batch_success_for_result X texts now target v r).id ≡ v.id
unfolding v3_batch_success_for_result
v3_batch_success_for_result_id X texts now target v r = refl

module _ (env : Env) where
  -- As many results as envelopes give a response, with the ids of the envelopes.
  pub add_results-counted :
      (now : Time env) (target : V3Target) (envelopes : List V3RecordEnvelope)
      (results : List (Result env.E)) (response : BatchResponse env)
      → length results ≡ length envelopes
      → (after : BatchResponse env) × (add_results env now target envelopes results response
          ≡ some after)
        × ((id : Bytes)
            → answered_count id after
              ≡ answered_count id response + count id (map (λ x. x.id) envelopes))
  unfolding add_results
  add_results-counted now target [] [] response e = (response, refl, λ id. omega arith)
  add_results-counted now target [] (r ∷ rs) response e = absurd (omega arith)
  add_results-counted now target (v ∷ vs) [] response e = absurd (omega arith)
  add_results-counted now target (v ∷ vs) (r ∷ rs) response e =
      let e' : length rs ≡ length vs = omega arith in
      elim (Bool-cases (result_failed r)) [
        | inl failed ↦
            let (after, same, counts) =
              add_results-counted now target vs rs
                (record response { failures = response.failures ++ result_failure env v r ∷ [] })
                e' in
            rw failed (
              after,
              same,
              λ id. ground (
                arith,
                counts id,
                count-map-append id (λ x. x.id) response.failures (result_failure env v r),
              ),
            )
        | inr placed ↦
            let success = v3_batch_success_for_result env.X env.texts now target v r in
            let (after, same, counts) =
              add_results-counted now target vs rs
                (record response { successes = response.successes ++ success ∷ [] }) e' in
            rw placed (
              after,
              same,
              λ id. ground (
                arith,
                counts id,
                count-map-append id (λ x. x.id) response.successes success,
                ap (λ x. count id (x ∷ []))
                    (v3_batch_success_for_result_id env.X env.texts now target v r),
              ),
            )
      ]

  -- The successes and the failures of results, in order.
  abbrev pub successes_of :
      Time env
      → V3Target
      → List V3RecordEnvelope
      → List (Result env.E)
      → List (V3ProduceBatchSuccess (Time env))
  successes_of now target (v ∷ vs) (r ∷ rs) =
      if result_failed r
      then successes_of now target vs rs
      else v3_batch_success_for_result env.X env.texts now target v r
        ∷ successes_of now target vs rs
  successes_of now target [] rs = []
  successes_of now target (v ∷ vs) [] = []

  abbrev pub failures_of :
      List V3RecordEnvelope → List (Result env.E) → List (V3ProduceBatchFailure env.E env.X)
  failures_of (v ∷ vs) (r ∷ rs) =
      if result_failed r then result_failure env v r ∷ failures_of vs rs else failures_of vs rs
  failures_of [] rs = []
  failures_of (v ∷ vs) [] = []

  -- The loop over the results appends them to the response.
  pub add_results_exact :
      (now : Time env) (target : V3Target) (envelopes : List V3RecordEnvelope)
      (results : List (Result env.E)) (response : BatchResponse env)
      → length results ≡ length envelopes
      → add_results env now target envelopes results response
        ≡ some (record {
          successes = response.successes ++ successes_of now target envelopes results;
          failures = response.failures ++ failures_of envelopes results;
        })
  unfolding add_results
  add_results_exact now target [] [] response e =
      rw (append-nil response.successes, append-nil response.failures) refl
  add_results_exact now target [] (r ∷ rs) response e = absurd (omega arith)
  add_results_exact now target (v ∷ vs) [] response e = absurd (omega arith)
  add_results_exact now target (v ∷ vs) (r ∷ rs) response e =
      let e' : length rs ≡ length vs = omega arith in
      elim (Bool-cases (result_failed r)) [
        | inl failed ↦
            rw
              (
                failed,
                ← append_assoc response.failures (result_failure env v r ∷ []) (failures_of vs rs),
              )
              (add_results_exact now target vs rs
                (record response { failures = response.failures ++ result_failure env v r ∷ [] })
                e')
        | inr placed ↦
            let success = v3_batch_success_for_result env.X env.texts now target v r in
            rw
              (
                placed,
                ← append_assoc response.successes (success ∷ []) (successes_of now target vs rs),
              )
              (add_results_exact now target vs rs
                (record response { successes = response.successes ++ success ∷ [] }) e')
      ]
