-- ===== src/Api/V3/Stream/Rate.antt =====
-- What a stream of v3 records does with the limiter of bytes.
use kafka_rest_proxy_go.Common.{
  ℕ, suc, ◌+◌, ◌≡◌, refl, ◌∙◌, List, [], ◌∷◌, ◌++◌, Option, inl, inr, Bool-cases,
}
use kafka_rest_proxy_go.Common.Int.{pos, ltb_ℤ}
use kafka_rest_proxy_go.Common.Try.{Try, ok, err}
use kafka_rest_proxy_go.Producer.{Result, ProduceError}
use kafka_rest_proxy_go.RateLimit.{Limiter, allow}
use kafka_rest_proxy_go.Api.Routes.{V3Target}
use kafka_rest_proxy_go.Metrics.{Event, kafka_callback_wait, produce_result}
use kafka_rest_proxy_go.Api.Handler.{Env, Handler, Time}
use kafka_rest_proxy_go.Api.Handler.World.{World, observe, allow_byte_rate, produce}
use kafka_rest_proxy_go.Api.V3.{V3RecordEnvelope, EnvelopeError}
use kafka_rest_proxy_go.Api.Respond.{count_result_status}
use kafka_rest_proxy_go.Api.V3.Stream.{
  Stream, StreamRead, Step, stops, continues, first_result, write_record_response, answer_record,
  serve_envelope, serve_record, serve_read,
}
use kafka_rest_proxy_go.Api.V3.Stream.Transcript.{envelope_read, charged}

module _ {env : Env} where
  -- One more read.
  pub charged-append_last :
      (limiter : Option (Limiter env.float)) (reads : List (StreamRead env)) (r : StreamRead env)
      → charged limiter (reads ++ r ∷ [])
        ≡ (allow env.float (charged limiter reads) (pos r.bytes_read) r.read_at).0
  unfolding charged
  charged-append_last limiter [] r = refl
  charged-append_last limiter (q ∷ reads) r =
      charged-append_last (allow env.float limiter (pos q.bytes_read) q.read_at).0 reads r

  observe_byte_rate :
      (h : Handler env) (e : Event) (w : World env) → (observe env h e w).byte_rate ≡ w.byte_rate
  unfolding observe
  observe_byte_rate h e w = elim (Bool-cases h.has_metrics) [
    | inl on ↦ rw on refl
    | inr off ↦ rw off refl
  ]

  -- The limiter of a stream that goes on.
  abbrev pub RateIs : Option (Limiter env.float) → Step env → Type 0
  RateIs limiter (stops s) = Unit
  RateIs limiter (continues s) = s.world.byte_rate ≡ limiter

  answer_record-RateIs :
      (no_result : env.E) (h : Handler env) (target : V3Target) (now : Time env)
      (v : V3RecordEnvelope) (s : Stream env)
      (answer : Try (ProduceError env.E) (List (Result env.E)))
      → RateIs s.world.byte_rate (answer_record env no_result h target now v s answer)
  unfolding answer_record write_record_response
  answer_record-RateIs no_result h target now v s (err e) = tt
  answer_record-RateIs no_result h target now v s (ok results) =
      let (successes, failures) = count_result_status (first_result env no_result results ∷ []) in
      let waited = observe env h (kafka_callback_wait s.status) s.world in
      observe_byte_rate h (produce_result successes failures) waited
      ∙ observe_byte_rate h (kafka_callback_wait s.status) s.world

  serve_envelope-RateIs :
      (no_result : env.E) (h : Handler env) (target : V3Target) (now : Time env) (s : Stream env)
      (made : Try (EnvelopeError env.X) V3RecordEnvelope)
      → RateIs s.world.byte_rate (serve_envelope env no_result h target now s made)
  unfolding serve_envelope write_record_response produce
  serve_envelope-RateIs no_result h target now s (err e) =
      observe_byte_rate h (produce_result 0 1) s.world
  serve_envelope-RateIs no_result h target now s (ok v) =
      let (after, answer) = produce env (v.produced_record ∷ []) s.world in
      answer_record-RateIs no_result h target now v (record s { world = after }) answer

  serve_record-RateIs :
      (no_result : env.E) (h : Handler env) (target : V3Target) (r : StreamRead env)
      (s : Stream env)
      → RateIs s.world.byte_rate (serve_record env no_result h target r s)
  unfolding serve_record
  serve_record-RateIs no_result h target r s =
      let count : ℕ = suc s.record_count in
      let counted : Stream env = record s { record_count = count } in
      elim (Bool-cases (ltb_ℤ h.cfg.max_records (pos count))) [
        | inl many ↦ rw many tt
        | inr fits ↦ rw fits (
            serve_envelope-RateIs no_result h target r.answered_at counted
              (envelope_read h target r))
      ]

  -- A read is charged.
  pub serve_read-RateIs :
      (no_result : env.E) (h : Handler env) (target : V3Target) (r : StreamRead env)
      (s : Stream env)
      → RateIs
          (allow env.float s.world.byte_rate (pos r.bytes_read) r.read_at).0
          (serve_read env no_result h target r s)
  unfolding serve_read allow_byte_rate
  serve_read-RateIs no_result h target r s =
      let (after, allowed) = allow_byte_rate env (pos r.bytes_read) r.read_at s.world in
      let seen : Stream env = record s { world = after; body_len = s.body_len + r.bytes_read } in
      elim (Bool-cases (allow env.float s.world.byte_rate (pos r.bytes_read) r.read_at).1) [
        | inl taken ↦ rw taken (serve_record-RateIs no_result h target r seen)
        | inr limited ↦ rw limited tt
      ]
