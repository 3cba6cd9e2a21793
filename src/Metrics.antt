-- ===== src/Metrics.antt =====
-- internal/metrics/metrics.go: the counters, and what each observation adds to them. A counter of
-- OpenTelemetry is a number, one for each attribute where it has one; what it exports is not
-- modelled, and neither are durations.
use kafka_rest_proxy_go.Common.{
  ℕ, ◌+◌, ◌/◌, ◌==◌, Bool, true, false, ◌&&◌, List, [], ◌∷◌, ◌++◌, ltb, if◌then◌else◌,
}
use kafka_rest_proxy_go.Common.Int.{ℤ, pos, negsuc, add64}
use kafka_rest_proxy_go.Producer.{Bytes}
use kafka_rest_proxy_go.Go.Strings.{bytes, eq_bytes}
use kafka_rest_proxy_go.Go.Number.{itoa}
use kafka_rest_proxy_go.Api.Payload.{PayloadFormat}

pub data RateKind : Type 0 where
  requests_rate bytes_rate : RateKind

-- The calls of internal/metrics/metrics.go, with their arguments.
pub data Event : Type 0 where
  inc_outstanding dec_outstanding : Event
  request : ℕ → ℕ → ℕ → Event
  rate_limit_rejected : RateKind → Event
  decode : PayloadFormat → Bool → Event
  kafka_callback_wait : ℕ → Event
  produce_result : ℕ → ℕ → Event
  admission_rejected : Event

-- `outstanding` is an atomic int64.
pub record Metrics : Type 0 where
  pub requests : Bytes → ℕ
  pub request_bytes : ℕ
  pub records_accepted : ℕ
  pub records_produced : ℕ
  pub records_failed : ℕ
  pub rejections : ℕ
  pub rate_rejections : RateKind → ℕ
  pub outstanding : ℤ

abbrev pub new_metrics : Metrics
new_metrics = record {
  requests = λ _. 0;
  request_bytes = 0;
  records_accepted = 0;
  records_produced = 0;
  records_failed = 0;
  rejections = 0;
  rate_rejections = λ _. 0;
  outstanding = pos 0;
}

unfoldable pub status_class : ℕ → Bytes
unfolding itoa
status_class status =
    if status == 0 then bytes "unknown" else itoa (pos (status / 100)) ++ bytes "xx"

-- A counter with one more under an attribute.
unfoldable pub add_at : Bytes → (Bytes → ℕ) → Bytes → ℕ
unfolding eq_bytes
add_at class counter c = if eq_bytes c class then counter c + 1 else counter c

abbrev pub same_kind : RateKind → RateKind → Bool
same_kind requests_rate requests_rate = true
same_kind bytes_rate bytes_rate = true
same_kind requests_rate bytes_rate = false
same_kind bytes_rate requests_rate = false

-- ObserveRequest.
unfoldable pub observe_request : ℕ → ℕ → ℕ → Metrics → Metrics
unfolding add_at status_class
observe_request status request_bytes records m = record m {
  requests = add_at (status_class status) m.requests;
  request_bytes = m.request_bytes + request_bytes;
  records_accepted =
      if ltb 0 records && ltb status 400 then m.records_accepted + records else m.records_accepted;
}

-- ObserveProduceResult.
unfoldable pub observe_produce_result : ℕ → ℕ → Metrics → Metrics
observe_produce_result successes failures m = record m {
  records_produced = if ltb 0 successes then m.records_produced + successes else m.records_produced;
  records_failed = if ltb 0 failures then m.records_failed + failures else m.records_failed;
}

unfoldable pub record_event : Event → Metrics → Metrics
unfolding observe_request observe_produce_result add64
record_event inc_outstanding m = record m { outstanding = add64 m.outstanding (pos 1) }
record_event dec_outstanding m = record m { outstanding = add64 m.outstanding (negsuc 0) }
record_event (request status request_bytes records) m =
    observe_request status request_bytes records m
record_event (rate_limit_rejected kind) m = record m {
  rate_rejections = λ k. if same_kind k kind then m.rate_rejections k + 1 else m.rate_rejections k;
}
record_event (decode format success) m = m
record_event (kafka_callback_wait status) m = m
record_event (produce_result successes failures) m = observe_produce_result successes failures m
record_event admission_rejected m = record m { rejections = m.rejections + 1 }

unfoldable pub record_events : Metrics → List Event → Metrics
unfolding record_event
record_events m [] = m
record_events m (e ∷ es) = record_events (record_event e m) es
