-- ===== src/Api/Handler/TopicProduce/Metrics.antt =====
-- What the metrics are told of a v2 request.
use kafka_rest_proxy_go.Common.{
  none, suc, ℕ, ◌+◌, ◌≤◌, ◌<◌, ◌≡◌, refl, sym, ap, ◌∙◌, subst, true, false, Option, none, some,
  List, [], ◌∷◌, ◌++◌, length, if◌then◌else◌, arith, inl, inr, Bool-cases, ltb,
}
use kafka_rest_proxy_go.Common.Int.{negsuc, pos, int64_bound, add64}
use kafka_rest_proxy_go.Common.Try.{Fails, Try, ok, err}
use kafka_rest_proxy_go.Producer.{Bytes, Record, Result, ProduceError}
use kafka_rest_proxy_go.Metrics.{
  Metrics, Event, new_metrics, record_event, record_events, observe_request, observe_produce_result,
  status_class, add_at, requests_rate, bytes_rate, inc_outstanding, dec_outstanding, request,
  rate_limit_rejected, decode, kafka_callback_wait, produce_result, admission_rejected,
}
use kafka_rest_proxy_go.Schema.Encoder.{EncodeError}
use kafka_rest_proxy_go.Api.Routes.{ProduceTarget}
use kafka_rest_proxy_go.Api.Payload.{PayloadFormat}
use kafka_rest_proxy_go.Api.Decode.{DecodeError, ProduceMetadata}
use kafka_rest_proxy_go.Api.Respond.{count_result_status, result_failed, count_from}
use kafka_rest_proxy_go.Api.Errors.{
  decode_error_status, classify_produce_error_status, api_error, payload_too_large, read_failed,
  rate_limit_exceeded, ApiError, IsRefusal, as_context_error, classify_produce_error, decode_error,
}
use kafka_rest_proxy_go.Api.Handler.{Env, AnswersAll, Handler}
use kafka_rest_proxy_go.Api.Handler.World.{
  max_bytes_error, other_read_error, read_request_body, World, ReadError, observe,
  allow_request_rate, allow_byte_rate, produce,
}
use kafka_rest_proxy_go.Api.Handler.TopicProduce.Checked.{check_request_status}
use kafka_rest_proxy_go.Api.Handler.TopicProduce.{
  Request, Reply, refused, answered, Served, refuse, is_overloaded, check_request, answer_produce,
  produce_decoded, serve_body, serve_checked, handle_topic_produce,
}

record_events-append :
    (m : Metrics) (es : List Event) (e : Event)
    → record_events m (es ++ e ∷ []) ≡ record_event e (record_events m es)
unfolding record_events
record_events-append m [] e = refl
record_events-append m (x ∷ es) e = record_events-append (record_event x m) es e

count_from-total :
    {E : Type 0} (s f : ℕ) (rs : List (Result E))
    → (count_from (s, f) rs).0 + (count_from (s, f) rs).1 ≡ s + f + length rs
count_from-total s f [] = omega arith
count_from-total s f (r ∷ rs) = elim (Bool-cases (result_failed r)) [
  | inl failed ↦ rw failed (ground (arith, count_from-total s (suc f) rs))
  | inr placed ↦ rw placed (ground (arith, count_from-total (suc s) f rs))
]

count_result_status-total :
    {E : Type 0} (rs : List (Result E))
    → (count_result_status rs).0 + (count_result_status rs).1 ≡ length rs
unfolding count_result_status
count_result_status-total rs = ground (arith, count_from-total 0 0 rs)

-- Two states of the metrics that agree on all but rejections.
pub record Agrees (c d : Metrics) : Type 0 where
  pub requests : d.requests ≡ c.requests
  pub request_bytes : d.request_bytes ≡ c.request_bytes
  pub accepted : d.records_accepted ≡ c.records_accepted
  pub outstanding : d.outstanding ≡ c.outstanding
  pub produced : d.records_produced ≡ c.records_produced
  pub failed : d.records_failed ≡ c.records_failed

Agrees-refl : (c : Metrics) → Agrees c c
Agrees-refl c = record {
  requests = refl;
  request_bytes = refl;
  accepted = refl;
  outstanding = refl;
  produced = refl;
  failed = refl;
}

-- What changes no more than rejections.
abbrev IsQuiet : Event → Type 0
IsQuiet inc_outstanding = ⊥
IsQuiet dec_outstanding = ⊥
IsQuiet (request status request_bytes records) = ⊥
IsQuiet (produce_result successes failures) = ⊥
IsQuiet (rate_limit_rejected kind) = Unit
IsQuiet (decode format success) = Unit
IsQuiet (kafka_callback_wait status) = Unit
IsQuiet admission_rejected = Unit

record_event-Agrees :
    (c d : Metrics) (e : Event) → IsQuiet e → Agrees c d → Agrees c (record_event e d)
unfolding record_event
record_event-Agrees c d (rate_limit_rejected kind) q a = record {
  requests = a.requests;
  request_bytes = a.request_bytes;
  accepted = a.accepted;
  outstanding = a.outstanding;
  produced = a.produced;
  failed = a.failed;
}
record_event-Agrees c d (decode format success) q a = a
record_event-Agrees c d (kafka_callback_wait status) q a = a
record_event-Agrees c d admission_rejected q a = record {
  requests = a.requests;
  request_bytes = a.request_bytes;
  accepted = a.accepted;
  outstanding = a.outstanding;
  produced = a.produced;
  failed = a.failed;
}
record_event-Agrees c d inc_outstanding q a = absurd q
record_event-Agrees c d dec_outstanding q a = absurd q
record_event-Agrees c d (request status request_bytes records) q a = absurd q
record_event-Agrees c d (produce_result successes failures) q a = absurd q

-- What the metrics `d` have been told of a request when its handler returns, from `c` on.
record Told (c d : Metrics) (status count : ℕ) : Type 0 where
  requests : d.requests ≡ c.requests
  request_bytes : d.request_bytes ≡ c.request_bytes
  accepted : d.records_accepted ≡ c.records_accepted
  outstanding : d.outstanding ≡ c.outstanding
  results :
      d.records_produced + d.records_failed
      ≡ c.records_produced + c.records_failed + (if ltb status 400 then count else 0)

Agrees-Told : (c d : Metrics) (status count : ℕ) → 400 ≤ status → Agrees c d → Told c d status count
Agrees-Told c d status count bad a = record {
  requests = a.requests;
  request_bytes = a.request_bytes;
  accepted = a.accepted;
  outstanding = a.outstanding;
  results = ground (arith, a.produced, a.failed);
}

produce_result-Told :
    (c d : Metrics) (successes failures count : ℕ)
    → successes + failures ≡ count
    → Agrees c d
    → Told c (record_event (produce_result successes failures) d) 200 count
unfolding record_event observe_produce_result
produce_result-Told c d successes failures count e a = record {
  requests = a.requests;
  request_bytes = a.request_bytes;
  accepted = a.accepted;
  outstanding = a.outstanding;
  results = ground (arith, a.produced, a.failed);
}

inc_dec : (n : ℕ) → suc n < int64_bound → add64 (add64 (pos n) (pos 1)) (negsuc 0) ≡ pos n
unfolding add64
inc_dec n lt = ground arith

-- What one request changes: `c` before it, `d` behind it.
abbrev pub Accounted : Metrics → Metrics → ℕ → Type 0
Accounted c d status =
    (d.outstanding ≡ c.outstanding)
    × (d.requests ≡ add_at (status_class status) c.requests)
    × (d.records_accepted + c.records_produced + c.records_failed
        ≡ c.records_accepted + d.records_produced + d.records_failed)

-- The deferred calls, behind what was told between.
deferred :
    (c d : Metrics) (n status request_bytes count : ℕ)
    → c.outstanding ≡ pos n
    → suc n < int64_bound
    → Told (record_event inc_outstanding c) d status count
    → Accounted c
        (record_event dec_outstanding (record_event (request status request_bytes count) d))
        status
unfolding record_event observe_request
deferred c d n status request_bytes count ec lt t = (
  ap (λ x. add64 x (negsuc 0)) t.outstanding ∙ (rw ec (inc_dec n lt)),
  ap (add_at (status_class status)) t.requests,
  ground (arith, t.accepted, t.results),
)

module _ {env : Env} where
  abbrev pub counters : World env → Metrics
  counters w = record_events new_metrics w.events

  abbrev pub status_of : Reply env → ℕ
  status_of (refused e) = e.status
  status_of (answered status body) = status

  -- A served request, told as it is answered.
  abbrev IsTold : Metrics → Served env → Type 0
  IsTold c served =
      Told c (counters served.world) served.status served.record_count
      × (status_of served.reply ≡ served.status)

  observed :
      (h : Handler env) (e : Event) (w : World env)
      → h.has_metrics ≡ true
      → counters (observe env h e w) ≡ record_event e (counters w)
  unfolding observe
  observed h e w on = rw on (record_events-append new_metrics w.events e)

module _ {env : Env} (h : Handler env) (on : h.has_metrics ≡ true) (answers : AnswersAll env)
    (c : Metrics) where
  observe-Agrees :
      (e : Event) (w : World env)
      → IsQuiet e
      → Agrees c (counters w)
      → Agrees c (counters (observe env h e w))
  observe-Agrees e w q a =
      subst (Agrees c) (sym (observed h e w on)) (record_event-Agrees c (counters w) e q a)

  refuse-Told :
      (w : World env) (body_len count : ℕ) (e : ApiError env.E env.X)
      → IsRefusal e
      → Agrees c (counters w)
      → IsTold c (refuse env w body_len count e)
  refuse-Told w body_len count e bad a = (Agrees-Told c (counters w) e.status count bad a, refl)

  answer_produce-Told :
      (body_len count : ℕ) (meta : ProduceMetadata) (w : World env)
      (answer : Try (ProduceError env.E) (List (Result env.E)))
      → ((results : List (Result env.E)) → answer ≡ ok results → length results ≡ count)
      → Agrees c (counters w)
      → IsTold c (answer_produce env h body_len count meta w answer)
  unfolding answer_produce
  answer_produce-Told body_len count meta w (err e) all a =
      let answer = classify_produce_error {X = env.X} (as_context_error e) in
      let waited = observe env h (kafka_callback_wait answer.status) w in
      let b = observe-Agrees (kafka_callback_wait answer.status) w tt a in
      elim (Bool-cases (is_overloaded (as_context_error e))) [
        | inl full ↦ rw full (
            refuse-Told (observe env h admission_rejected waited) body_len count answer
              (classify_produce_error_status env.X (as_context_error e))
              (observe-Agrees admission_rejected waited tt b))
        | inr other ↦ rw other (
            refuse-Told waited body_len count answer
              (classify_produce_error_status env.X (as_context_error e)) b)
      ]
  answer_produce-Told body_len count meta w (ok results) all a =
      let counts = count_result_status results in
      let waited = observe env h (kafka_callback_wait 200) w in
      let b = observe-Agrees (kafka_callback_wait 200) w tt a in
      let told = observed h (produce_result counts.0 counts.1) waited on in
      (
        subst (λ d. Told c d 200 count) (sym told)
            (produce_result-Told c (counters waited) counts.0 counts.1 count
              (count_result_status-total results ∙ all results refl) b),
        refl,
      )

  produce_decoded-Told :
      (body_len : ℕ) (format : PayloadFormat) (w : World env)
      (d : Try (DecodeError (EncodeError env.X)) (List Record × ProduceMetadata))
      → Agrees c (counters w)
      → IsTold c (produce_decoded env h body_len format w d)
  unfolding produce_decoded produce
  produce_decoded-Told body_len format w (err e) a =
      refuse-Told (observe env h (decode format false) w) body_len 0 (decode_error e)
        (decode_error_status env.E e) (observe-Agrees (decode format false) w tt a)
  produce_decoded-Told body_len format w (ok (records, meta)) a =
      let v = observe env h (decode format true) w in
      answer_produce-Told body_len (length records) meta (produce env records v).0
        (env.produce v.producer records).1 (λ results e. answers v.producer records results e)
        (observe-Agrees (decode format true) w tt a)

  serve_body-Told :
      (r : Request env) (target : ProduceTarget) (format : PayloadFormat) (w : World env)
      (o : Bytes × Option ReadError)
      → Agrees c (counters w)
      → IsTold c (serve_body env h r target format w o)
  unfolding serve_body allow_byte_rate
  serve_body-Told r target format w (body, some max_bytes_error) a =
      refuse-Told w (length body) 0 (api_error 413 413 payload_too_large) (omega arith) a
  serve_body-Told r target format w (body, some other_read_error) a =
      refuse-Told w (length body) 0 (api_error 400 400 read_failed) (omega arith) a
  serve_body-Told r target format w (body, none) a =
      let (v, allowed) = allow_byte_rate env (pos (length body)) r.read w in
      elim (Bool-cases allowed) [
        | inl within ↦ rw within (produce_decoded-Told (length body) format v _ a)
        | inr limited ↦ rw limited (
            refuse-Told (observe env h (rate_limit_rejected bytes_rate) v) (length body) 0
              rate_limit_exceeded (omega arith)
              (observe-Agrees (rate_limit_rejected bytes_rate) v tt a))
      ]

  serve_checked-Told :
      (r : Request env) (w : World env)
      (checked : Try (ApiError env.E env.X) (ProduceTarget × PayloadFormat))
      → Fails IsRefusal checked
      → Agrees c (counters w)
      → IsTold c (serve_checked env h r w checked)
  unfolding serve_checked allow_request_rate
  serve_checked-Told r w (err e) bad a = refuse-Told w 0 0 e (bad e refl) a
  serve_checked-Told r w (ok (target, format)) bad a =
      let (v, allowed) = allow_request_rate env (pos 1) r.arrived w in
      elim (Bool-cases allowed) [
        | inl within ↦
            rw within (
              serve_body-Told r target format v (read_request_body r.body h.cfg.max_request_bytes)
                a)
        | inr limited ↦ rw limited (
            refuse-Told (observe env h (rate_limit_rejected requests_rate) v) 0 0
              rate_limit_exceeded (omega arith)
              (observe-Agrees (rate_limit_rejected requests_rate) v tt a))
      ]

-- With metrics, and a producer that answers each record: once a v2 request is handled, no more requests
-- are outstanding than before; one request is counted, under the class of the status that was sent;
-- and the records that it adds to those accepted are those that it adds to the produced and the failed.
pub handle_topic_produce-Accounted :
    {env : Env} (h : Handler env) (n : ℕ) (r : Request env) (w : World env)
    → h.has_metrics ≡ true
    → AnswersAll env
    → (counters w).outstanding ≡ pos n
    → suc n < int64_bound
    → let (w', reply) = handle_topic_produce env h r w in
      Accounted (counters w) (counters w') (status_of reply)
unfolding handle_topic_produce
handle_topic_produce-Accounted {env} h n r w on answers out lt =
    let c = counters w in
    let v = observe env h inc_outstanding w in
    let served = serve_checked env h r v (check_request env h r) in
    let told = request served.status served.body_len served.record_count in
    let seen = observe env h told served.world in
    let begun : counters v ≡ record_event inc_outstanding c = observed h inc_outstanding w on in
    let (t, same) =
      serve_checked-Told h on answers (record_event inc_outstanding c) r v (check_request env h r)
        (check_request_status h r)
        (subst (λ d. Agrees (record_event inc_outstanding c) d) (sym begun) (Agrees-refl _)) in
    let ended : counters (observe env h dec_outstanding seen)
        ≡ record_event dec_outstanding (record_event told (counters served.world)) =
      observed h dec_outstanding seen on
      ∙ ap (record_event dec_outstanding) (observed h told served.world on) in
    subst (λ status. Accounted c (counters (observe env h dec_outstanding seen)) status) (sym same)
      (subst (λ d. Accounted c d served.status) (sym ended)
        (deferred c (counters served.world) n served.status served.body_len served.record_count out
          lt t))
