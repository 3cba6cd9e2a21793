-- ===== src/Api/Handler/TopicProduce/Produced.antt =====
-- What a v2 request hands to Kafka and what it is answered.
use kafka_rest_proxy_go.Common.{
  arith, subst, sym, ap, ◌∙◌, arith, inl, inr, ◌≤◌, ◌≡◌, refl, ap, ◌∙◌, subst, true, some, List, [],
  ◌∷◌, ◌++◌, length, arith, inl, inr, Bool-cases,
}
use kafka_rest_proxy_go.Common.Int.{pos, pos_part}
use kafka_rest_proxy_go.Common.Try.{Try, ok, err}
use kafka_rest_proxy_go.Producer.{Record, Result, ProduceError}
use kafka_rest_proxy_go.Schema.Encoder.{EncodeError}
use kafka_rest_proxy_go.Api.Routes.{ProduceTarget}
use kafka_rest_proxy_go.Api.Payload.{PayloadFormat}
use kafka_rest_proxy_go.Api.Decode.Records.{decode_produce_request}
use kafka_rest_proxy_go.Api.Decode.Accepted.{decode-Accepted}
use kafka_rest_proxy_go.Api.Decode.Records.{decode_produce_request}
use kafka_rest_proxy_go.Api.Decode.Accepted.{decode-Accepted}
use kafka_rest_proxy_go.Api.Decode.{DecodeError, ProduceMetadata}
use kafka_rest_proxy_go.Api.Decode.Accepted.{Decoded}
use kafka_rest_proxy_go.Api.Respond.Structure.{
  append_produce_response_quoted, json_response, response_of,
}
use kafka_rest_proxy_go.Api.Errors.{
  decode_error_status, IsRefusal, ApiError, as_context_error, classify_produce_error, decode_error,
}
use kafka_rest_proxy_go.Api.Handler.{Option, none, Bytes, false, ℕ, Env, Handler, decode_limits}
use kafka_rest_proxy_go.Metrics.{
  requests_rate, inc_outstanding, dec_outstanding, request, rate_limit_rejected, bytes_rate,
  requests_rate, inc_outstanding, dec_outstanding, request, decode, rate_limit_rejected, bytes_rate,
  requests_rate, inc_outstanding, dec_outstanding, request, kafka_callback_wait, produce_result,
  admission_rejected,
}
use kafka_rest_proxy_go.Api.Handler.World.{
  allow_request_rate, allow_byte_rate, read_request_body, allow_request_rate, ReadError,
  max_bytes_error, other_read_error, produce, allow_byte_rate, read_request_body,
  allow_request_rate, ReadError, max_bytes_error, other_read_error, World, observe,
}
use kafka_rest_proxy_go.Api.Handler.TopicProduce.{
  serve_checked, handle_topic_produce, serve_body, serve_checked, handle_topic_produce,
  schema_encode, Served, produce_decoded, serve_body, serve_checked, handle_topic_produce,
  schema_encode, count_result_status, Request, Reply, refused, answered, is_overloaded,
  check_request, answer_produce,
}
use kafka_rest_proxy_go.Api.Handler.World.Whole.{read_request_body-whole}
use kafka_rest_proxy_go.Api.Handler.World.Same.{
  SameProducer, same_trans, same-observe, same-allow_byte_rate, same-allow_request_rate,
}
use kafka_rest_proxy_go.Api.Handler.TopicProduce.Checked.{
  Checked, check_request-Checked, check_request_status,
}

module _ (env : Env) where
  -- The batch and the metadata that a body holds, for a target and a format.
  pub record Batch (h : Handler env) (r : Request env) (target : ProduceTarget)
      (format : PayloadFormat) (records : List Record) (meta : ProduceMetadata) : Type 0 where
    pub body_within : length r.body.content ≤ pos_part h.cfg.max_request_bytes
    pub decoded :
        Decoded env.codec env.unmarshal
          (some (schema_encode env h))
          target.topic
          r.body.content
          format
          (decode_limits env h.cfg)
          target.partition
          records
          meta

  -- The answer to what Produce answers.
  abbrev pub reply_of : ProduceMetadata → Try (ProduceError env.E) (List (Result env.E)) → Reply env
  unfolding as_context_error classify_produce_error
  reply_of meta (err e) = refused (classify_produce_error (as_context_error e))
  reply_of meta (ok results) =
      answered 200 (json_response env.texts.quote (response_of env.texts results meta) ++ 10 ∷ [])

  pub data Outcome (h : Handler env) (r : Request env) (w w' : World env) : Reply env → Type 0 where
    refuses :
        (e : ApiError env.E env.X) → SameProducer w w' → IsRefusal e → Outcome h r w w' (refused e)
    produces :
        (target : ProduceTarget) (format : PayloadFormat) (records : List Record)
        (meta : ProduceMetadata)
        → Checked h r target format
        → Batch h r target format records meta
        → w'.producer ≡ (env.produce w.producer records).0
        → w'.produced ≡ w.produced ++ records ∷ []
        → Outcome h r w w' (reply_of meta (env.produce w.producer records).1)

  Outcome-same :
      (h : Handler env) (r : Request env) (w v u : World env) (reply : Reply env)
      → Outcome h r w v reply
      → SameProducer v u
      → Outcome h r w u reply
  Outcome-same h r w v u reply (refuses e s le) k = refuses e (same_trans w v u s k) le
  Outcome-same h r w v u reply (produces target format records meta c b p l) k =
      produces target format records meta c b (k.same_state ∙ p) (k.same_log ∙ l)

  -- Behind Produce the producer stays, and the reply is what it answered.
  answer_produce-replies :
      (h : Handler env) (body_len count : ℕ) (meta : ProduceMetadata) (w : World env)
      (answer : Try (ProduceError env.E) (List (Result env.E)))
      → let served = answer_produce env h body_len count meta w answer in
        SameProducer w served.world × (served.reply ≡ reply_of meta answer)
  unfolding answer_produce
  answer_produce-replies h body_len count meta w (err e) =
      let answer = classify_produce_error {X = env.X} (as_context_error e) in
      let waited = observe env h (kafka_callback_wait answer.status) w in
      let first = same-observe h (kafka_callback_wait answer.status) w in
      elim (Bool-cases (is_overloaded (as_context_error e))) [
        | inl full ↦ rw full (
          same_trans w waited (observe env h admission_rejected waited) first
              (same-observe h admission_rejected waited),
          refl,
        )
        | inr other ↦ rw other (first, refl)
      ]
  answer_produce-replies h body_len count meta w (ok results) =
      let (successes, failures) = count_result_status results in
      let waited = observe env h (kafka_callback_wait 200) w in
      (
        same_trans w waited (observe env h (produce_result successes failures) waited)
            (same-observe h (kafka_callback_wait 200) w)
            (same-observe h (produce_result successes failures) waited),
        ap (answered 200) (append_produce_response_quoted env.texts [] results meta),
      )

  -- A call of Produce on a world with the producer of `w`.
  produced-Outcome :
      (h : Handler env) (r : Request env) (w v : World env) (target : ProduceTarget)
      (format : PayloadFormat) (records : List Record) (meta : ProduceMetadata) (body_len count : ℕ)
      → Checked h r target format
      → Batch h r target format records meta
      → SameProducer w v
      → let (after, answer) = produce env records v in
        let served = answer_produce env h body_len count meta after answer in
        Outcome h r w served.world served.reply
  unfolding produce
  produced-Outcome h r w v target format records meta body_len count c b s =
      let answer = (env.produce v.producer records).1 in
      let (same, replied) =
        answer_produce-replies h body_len count meta (produce env records v).0 answer in
      let served : Served env =
        answer_produce env h body_len count meta (produce env records v).0 answer in
      let answers : (env.produce w.producer records).1 ≡ answer =
        ap (λ x. (env.produce x records).1) (sym s.same_state) in
      subst (λ x. Outcome h r w served.world x) (ap (reply_of meta) answers ∙ sym replied)
        (produces target format records meta c b
          (same.same_state ∙ ap (λ x. (env.produce x records).0) s.same_state)
          (same.same_log ∙ ap (λ x. x ++ records ∷ []) s.same_log))

  produce_decoded-Outcome :
      (h : Handler env) (r : Request env) (w v : World env) (target : ProduceTarget)
      (format : PayloadFormat) (body_len : ℕ)
      (d : Try (DecodeError (EncodeError env.X)) (List Record × ProduceMetadata))
      → Checked h r target format
      → ((records : List Record) (meta : ProduceMetadata)
          → d ≡ ok (records, meta)
          → Batch h r target format records meta)
      → SameProducer w v
      → let served = produce_decoded env h body_len format v d in
        Outcome h r w served.world served.reply
  unfolding produce_decoded
  produce_decoded-Outcome h r w v target format body_len (err e) c b s =
      refuses (decode_error e)
        (same_trans w v (observe env h (decode format false) v) s
          (same-observe h (decode format false) v))
        (decode_error_status env.E e)
  produce_decoded-Outcome h r w v target format body_len (ok (records, meta)) c b s =
      produced-Outcome h r w (observe env h (decode format true) v) target format records meta
        body_len (length records) c (b records meta refl)
        (same_trans w v (observe env h (decode format true) v) s
          (same-observe h (decode format true) v))

  decoded-Batch :
      (h : Handler env) (r : Request env) (target : ProduceTarget) (format : PayloadFormat)
      (body : Bytes) (records : List Record) (meta : ProduceMetadata)
      → (body ≡ r.body.content) × (length r.body.content ≤ pos_part h.cfg.max_request_bytes)
      → decode_produce_request env.codec env.unmarshal
          (some (schema_encode env h))
          target.topic
          body
          format
          (decode_limits env h.cfg)
          target.partition
        ≡ ok (records, meta)
      → Batch h r target format records meta
  decoded-Batch h r target format body records meta (same, le) e = record {
    body_within = le;
    decoded =
        subst
          (λ b.
            Decoded env.codec env.unmarshal (some (schema_encode env h)) target.topic b format
              (decode_limits env h.cfg) target.partition records meta)
          same
          (decode-Accepted env.codec env.unmarshal (some (schema_encode env h)) target.topic body
            format (decode_limits env h.cfg) target.partition records meta e);
  }

  serve_body-Outcome :
      (h : Handler env) (r : Request env) (w v : World env) (target : ProduceTarget)
      (format : PayloadFormat) (o : Bytes × Option ReadError)
      → read_request_body r.body h.cfg.max_request_bytes ≡ o
      → Checked h r target format
      → SameProducer w v
      → let served = serve_body env h r target format v o in Outcome h r w served.world served.reply
  unfolding serve_body
  serve_body-Outcome h r w v target format (body, some max_bytes_error) e c s =
      refuses _ s (omega arith)
  serve_body-Outcome h r w v target format (body, some other_read_error) e c s =
      refuses _ s (omega arith)
  serve_body-Outcome h r w v target format (body, none) e c s =
      let u = (allow_byte_rate env (pos (length body)) r.read v).0 in
      let t = same_trans w v u s (same-allow_byte_rate (pos (length body)) r.read v) in
      let decoded =
        decode_produce_request env.codec env.unmarshal (some (schema_encode env h)) target.topic
          body format (decode_limits env h.cfg) target.partition in
      elim (Bool-cases (allow_byte_rate env (pos (length body)) r.read v).1) [
        | inl allowed ↦ rw allowed (
            produce_decoded-Outcome h r w u target format (length body) decoded c
              (λ records meta d.
                decoded-Batch h r target format body records meta
                  (read_request_body-whole r.body h.cfg.max_request_bytes body e) d)
              t)
        | inr limited ↦ rw limited (
            refuses _
              (same_trans w u (observe env h (rate_limit_rejected bytes_rate) u) t
                (same-observe h (rate_limit_rejected bytes_rate) u))
              (omega arith))
      ]

  serve_checked-Outcome :
      (h : Handler env) (r : Request env) (w v : World env)
      (checked : Try (ApiError env.E env.X) (ProduceTarget × PayloadFormat))
      → check_request env h r ≡ checked
      → SameProducer w v
      → let served = serve_checked env h r v checked in Outcome h r w served.world served.reply
  unfolding serve_checked
  serve_checked-Outcome h r w v (err e) c s = refuses e s (check_request_status h r e c)
  serve_checked-Outcome h r w v (ok (target, format)) c s =
      let u = (allow_request_rate env (pos 1) r.arrived v).0 in
      let t = same_trans w v u s (same-allow_request_rate (pos 1) r.arrived v) in
      elim (Bool-cases (allow_request_rate env (pos 1) r.arrived v).1) [
        | inl allowed ↦ rw allowed (
            serve_body-Outcome h r w u target format
              (read_request_body r.body h.cfg.max_request_bytes) refl
              (check_request-Checked h r target format c) t)
        | inr limited ↦ rw limited (
            refuses _
              (same_trans w u (observe env h (rate_limit_rejected requests_rate) u) t
                (same-observe h (rate_limit_rejected requests_rate) u))
              (omega arith))
      ]

  -- A v2 request either leaves the producer alone and is refused with a status of 400 or above, or it
  -- hands Kafka one batch and is answered with what Produce said of it: for results, a 200 with the
  -- offsets of them and the schema ids, texts in the quotes of the code, and for an error its class. It hands a batch
  -- over only if it is a POST to a topic's path, the topic is allowed, both media types are taken and
  -- the body is within its limit; and the batch and the schema ids are what that body decodes to: the
  -- records of the request that encoding/json reads, at least one and no more than the limit, in
  -- order, each for that topic with the partition of the path or its own, within the limits on keys,
  -- headers and size, with its key, its value and the values of its headers as the format decodes them.
  pub handle_topic_produce-Outcome :
      (h : Handler env) (r : Request env) (w : World env)
      → let (w', reply) = handle_topic_produce env h r w in Outcome h r w w' reply
  unfolding handle_topic_produce
  handle_topic_produce-Outcome h r w =
      let v = observe env h inc_outstanding w in
      let served = serve_checked env h r v (check_request env h r) in
      let seen =
        observe env h (request served.status served.body_len served.record_count) served.world in
      Outcome-same h r w served.world (observe env h dec_outstanding seen) served.reply
        (serve_checked-Outcome h r w v (check_request env h r) refl
          (same-observe h inc_outstanding w))
        (same_trans served.world seen (observe env h dec_outstanding seen)
          (same-observe h (request served.status served.body_len served.record_count) served.world)
          (same-observe h dec_outstanding seen))
