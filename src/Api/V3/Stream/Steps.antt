-- ===== src/Api/V3/Stream/Steps.antt =====
-- What each step of a stream of v3 records leaves.
use kafka_rest_proxy_go.Common.{
  ℕ, suc, ◌+◌, ◌≤◌, ◌≡◌, refl, sym, ap, ◌∙◌, subst, false, List, [], ◌∷◌, ◌++◌, length, map, arith,
  inl, inr, Bool-cases, append_assoc, ltb, All,
}
use kafka_rest_proxy_go.Common.Int.{ℤ, pos, negsuc, pos_part, ltb_ℤ}
use kafka_rest_proxy_go.Common.Try.{Try, ok, err}
use kafka_rest_proxy_go.Producer.{Bytes, Record, Result, ProduceError}
use kafka_rest_proxy_go.Api.Routes.{V3Target}
use kafka_rest_proxy_go.Api.Errors.{
  ApiError, IsRefusal, as_context_error, classify_produce_error, classify_produce_error_status,
  rate_limit_exceeded,
}
use kafka_rest_proxy_go.Api.Handler.{Env, Handler, Time, decode_limits}
use kafka_rest_proxy_go.Metrics.{
  bytes_rate, rate_limit_rejected, kafka_callback_wait, produce_result, admission_rejected,
}
use kafka_rest_proxy_go.Api.Handler.World.{World, observe, allow_byte_rate, produce}
use kafka_rest_proxy_go.Api.Handler.World.Same.{
  SameProducer, same_trans, same-observe, same-allow_byte_rate,
}
use kafka_rest_proxy_go.Api.V3.{
  V3ProduceRecord, V3RecordEnvelope, EnvelopeError, v3_envelope_from_record,
}
use kafka_rest_proxy_go.Api.V3.Responses.{v3_response_for_result, v3_error, of_envelope}
use kafka_rest_proxy_go.Api.Respond.{count_result_status}
use kafka_rest_proxy_go.Api.Handler.TopicProduce.{is_overloaded}
use kafka_rest_proxy_go.Api.V3.Stream.{
  first_result, Stream, StreamRead, Step, stops, continues, Line, seeing, count_failure,
  fail_stream, write_record_response, answer_record, serve_envelope, serve_record, serve_read,
}
use kafka_rest_proxy_go.Api.V3.Stream.Invariant.{
  length-append_last, Writing, IsHanded, HandedOver, Running, Ended, write_record_response-Writing,
  fail_stream-Replied, HandedOver-same,
}

All-append_last {ℓ κ} :
    {A : Type ℓ} (P : A → Type κ) (xs : List A) (y : A) → All P xs → P y → All P (xs ++ y ∷ [])
All-append_last P [] y all p = (p, tt)
All-append_last P (x ∷ xs) y (q, all) p = (q, All-append_last P xs y all p)

pub map-append_last {ℓ κ} :
    {A : Type ℓ} {B : Type κ} (f : A → B) (xs : List A) (y : A)
    → map f (xs ++ y ∷ []) ≡ map f xs ++ f y ∷ []
map-append_last f [] y = refl
map-append_last f (x ∷ xs) y = ap (λ zs. f x ∷ zs) (map-append_last f xs y)

within_limit : (limit : ℤ) (n : ℕ) → ltb_ℤ limit (pos n) ≡ false → n ≤ pos_part limit
within_limit (pos m) n e = ground arith
within_limit (negsuc m) n e = absurd (ground arith)

module _ {env : Env} where
  -- Other worlds and other counts leave what is written.
  pub Writing-same :
      (s u : Stream env)
      → Writing s
      → u.error ≡ s.error
      → u.status ≡ s.status
      → u.wrote ≡ s.wrote
      → u.lines ≡ s.lines
      → Writing u
  Writing-same s u k a b c d = record {
    no_error = a ∙ k.no_error;
    is_ok = b ∙ k.is_ok;
    written = c ∙ k.written ∙ ap (λ x. ltb 0 (length x)) (sym d);
  }

  pub world_of_fail :
      (e : ApiError env.E env.X) (s : Stream env) → (fail_stream env e s).world ≡ s.world
  unfolding fail_stream
  world_of_fail e s = elim (Bool-cases s.wrote) [ inl on ↦ rw on refl | inr off ↦ rw off refl ]

  -- A failure ends a stream well.
  pub fail_stream-Ended :
      (h : Handler env) (topic : Bytes) (w : World env) (e : ApiError env.E env.X) (s : Stream env)
      → Writing s
      → IsRefusal e
      → length s.lines ≤ pos_part h.cfg.max_records
      → HandedOver h topic w s.world (pos_part h.cfg.max_records)
      → Ended h topic w (fail_stream env e s)
  fail_stream-Ended h topic w e s k le few over =
      let (replied, more) = fail_stream-Replied e s k le in
      record {
        replied = replied;
        lines_few = omega (arith, more, few);
        over =
            subst (λ x. HandedOver h topic w x (pos_part h.cfg.max_records))
              (sym (world_of_fail e s)) over;
      }

  seen-Ended :
      (h : Handler env) (topic : Bytes) (w v : World env) (e : ApiError env.E env.X)
      (s : Stream env)
      → Writing s
      → IsRefusal e
      → length s.lines ≤ pos_part h.cfg.max_records
      → HandedOver h topic w v (pos_part h.cfg.max_records)
      → Ended h topic w (fail_stream env e (seeing env v s))
  seen-Ended h topic w v e s k le few over =
      fail_stream-Ended h topic w e (seeing env v s)
        (Writing-same s (seeing env v s) k refl refl refl refl) le few over

  -- One more record in a batch of its own.
  HandedOver-produce :
      {h : Handler env} {topic : Bytes} {w v : World env} {n : ℕ} (r : Record)
      → HandedOver h topic w v n
      → IsHanded h topic r
      → HandedOver h topic w (produce env (r ∷ []) v).0 (suc n)
  unfolding produce
  HandedOver-produce {w = w} {v = v} r k valid = record {
    handed = k.handed ++ r ∷ [];
    logged =
        ap (λ x. x ++ (r ∷ []) ∷ []) k.logged
        ∙ append_assoc w.produced (map (λ x. x ∷ []) k.handed) ((r ∷ []) ∷ [])
        ∙ ap (λ x. w.produced ++ x) (sym (map-append_last (λ x. x ∷ []) k.handed r));
    valid = All-append_last _ k.handed r k.valid valid;
    few = omega (arith, k.few, length-append_last k.handed r);
  }

  -- Between the count of a record and its answer.
  record Counted (h : Handler env) (topic : Bytes) (w : World env) (s : Stream env) : Type 0 where
    writing : Writing s
    counted : suc (length s.lines) ≡ s.record_count
    within : s.record_count ≤ pos_part h.cfg.max_records
    over : HandedOver h topic w s.world (length s.lines)

  -- What a step leaves.
  abbrev pub Leaves : Handler env → Bytes → World env → Step env → Type 0
  Leaves h topic w (stops s) = Ended h topic w s
  Leaves h topic w (continues s) = Running h topic w s

  same-count_failure :
      (h : Handler env) (s : Stream env) → SameProducer s.world (count_failure env h s).world
  same-count_failure h s = same-observe h (produce_result 0 1) s.world

  -- A line for the record ends its step.
  write_record_response-Running :
      (h : Handler env) (topic : Bytes) (w v : World env) (resp : Line env) (s : Stream env)
      → Writing s
      → suc (length s.lines) ≡ s.record_count
      → s.record_count ≤ pos_part h.cfg.max_records
      → HandedOver h topic w v s.record_count
      → Running h topic w (write_record_response env resp (seeing env v s))
  unfolding write_record_response
  write_record_response-Running h topic w v resp s k counted within over =
      let k' = Writing-same s (seeing env v s) k refl refl refl refl in
      let (writing, more) = write_record_response-Writing resp (seeing env v s) k' in
      record {
        writing = writing;
        counted = omega (arith, more, counted);
        within = within;
        over = over;
      }

  answer_record-Leaves :
      (no_result : env.E) (h : Handler env) (target : V3Target) (now : Time env)
      (v : V3RecordEnvelope) (w : World env) (s : Stream env)
      (answer : Try (ProduceError env.E) (List (Result env.E)))
      → Writing s
      → suc (length s.lines) ≡ s.record_count
      → s.record_count ≤ pos_part h.cfg.max_records
      → HandedOver h target.topic w s.world s.record_count
      → Leaves h target.topic w (answer_record env no_result h target now v s answer)
  unfolding answer_record
  answer_record-Leaves no_result h target now v w s (err e) k counted within over =
      let answer = classify_produce_error {X = env.X} (as_context_error e) in
      let waited = observe env h (kafka_callback_wait answer.status) s.world in
      let told = observe env h (produce_result 0 1) waited in
      let first =
        same_trans s.world waited told (same-observe h (kafka_callback_wait answer.status) s.world)
          (same-observe h (produce_result 0 1) waited) in
      let le = classify_produce_error_status env.X (as_context_error e) in
      elim (Bool-cases (is_overloaded (as_context_error e))) [
        | inl full ↦ rw full (
            seen-Ended h target.topic w (observe env h admission_rejected told) answer s k le
              (omega (arith, counted, within))
              (HandedOver-same over
                (same_trans s.world told (observe env h admission_rejected told) first
                  (same-observe h admission_rejected told))
                within))
        | inr other ↦ rw other (
            seen-Ended h target.topic w told answer s k le (omega (arith, counted, within))
              (HandedOver-same over first within))
      ]
  answer_record-Leaves no_result h target now v w s (ok results) k counted within over =
      let r = first_result env no_result results in
      let (successes, failures) = count_result_status (r ∷ []) in
      let waited = observe env h (kafka_callback_wait s.status) s.world in
      let told = observe env h (produce_result successes failures) waited in
      write_record_response-Running h target.topic w told
        (v3_response_for_result env.texts now target v r) s k counted within
        (HandedOver-same over
          (same_trans s.world waited told (same-observe h (kafka_callback_wait s.status) s.world)
            (same-observe h (produce_result successes failures) waited))
          (omega arith))

  serve_envelope-Leaves :
      (no_result : env.E) (h : Handler env) (target : V3Target) (now : Time env) (w : World env)
      (s : Stream env) (raw : V3ProduceRecord) (made : Try (EnvelopeError env.X) V3RecordEnvelope)
      → v3_envelope_from_record env.codec env.languages target.topic [] raw h.schema_encoder
          (decode_limits env h.cfg)
        ≡ made
      → Writing s
      → suc (length s.lines) ≡ s.record_count
      → s.record_count ≤ pos_part h.cfg.max_records
      → HandedOver h target.topic w s.world (length s.lines)
      → Leaves h target.topic w (serve_envelope env no_result h target now s made)
  unfolding serve_envelope
  serve_envelope-Leaves no_result h target now w s raw (err e) same k counted within over =
      write_record_response-Running h target.topic w (count_failure env h s).world
        (v3_error (pos 400) (of_envelope e)) s k counted within
        (HandedOver-same over (same-count_failure h s) (omega (arith, counted)))
  serve_envelope-Leaves no_result h target now w s raw (ok v) same k counted within over =
      let (after, answer) = produce env (v.produced_record ∷ []) s.world in
      answer_record-Leaves no_result h target now v w (seeing env after s) answer
        (Writing-same s (seeing env after s) k refl refl refl refl) counted within
        (subst (HandedOver h target.topic w after) counted
          (HandedOver-produce v.produced_record over (raw, v, same, refl)))

  serve_record-Leaves :
      (no_result : env.E) (h : Handler env) (target : V3Target) (r : StreamRead env) (w : World env)
      (s : Stream env)
      → Running h target.topic w s
      → Leaves h target.topic w (serve_record env no_result h target r s)
  unfolding serve_record
  serve_record-Leaves no_result h target r w s k =
      let count : ℕ = suc s.record_count in
      let counted : Stream env = record s { record_count = count } in
      let k' = Writing-same s counted k.writing refl refl refl refl in
      elim (Bool-cases (ltb_ℤ h.cfg.max_records (pos count))) [
        | inl many ↦ rw many (
            seen-Ended h target.topic w (count_failure env h counted).world _ counted k'
              (omega arith) (omega (arith, k.counted, k.within))
              (HandedOver-same k.over (same-count_failure h counted) k.within))
        | inr fits ↦ rw fits (
            serve_envelope-Leaves no_result h target r.answered_at w counted r.read_record _ refl k'
              (omega (arith, k.counted)) (within_limit h.cfg.max_records count fits)
              (subst (HandedOver h target.topic w s.world) (sym k.counted) k.over))
      ]

  pub serve_read-Leaves :
      (no_result : env.E) (h : Handler env) (target : V3Target) (r : StreamRead env) (w : World env)
      (s : Stream env)
      → Running h target.topic w s
      → Leaves h target.topic w (serve_read env no_result h target r s)
  unfolding serve_read
  serve_read-Leaves no_result h target r w s k =
      let read : Stream env = record s { body_len = s.body_len + r.bytes_read } in
      let after : World env = (allow_byte_rate env (pos r.bytes_read) r.read_at s.world).0 in
      let same = same-allow_byte_rate (pos r.bytes_read) r.read_at s.world in
      let seen : Stream env = seeing env after read in
      let k' = Writing-same s seen k.writing refl refl refl refl in
      elim (Bool-cases (allow_byte_rate env (pos r.bytes_read) r.read_at s.world).1) [
        | inl allowed ↦ rw allowed (
            serve_record-Leaves no_result h target r w seen (record {
              writing = k';
              counted = k.counted;
              within = k.within;
              over = HandedOver-same k.over same (omega arith);
            }))
        | inr limited ↦ rw limited (
            let told = observe env h (rate_limit_rejected bytes_rate) after in
            let counted = observe env h (produce_result 0 1) told in
            seen-Ended h target.topic w counted rate_limit_exceeded seen k' (omega arith)
              (omega (arith, k.counted, k.within))
              (HandedOver-same k.over
                (same_trans s.world told counted
                  (same_trans s.world after told same
                    (same-observe h (rate_limit_rejected bytes_rate) after))
                  (same-observe h (produce_result 0 1) told))
                k.within))
      ]
