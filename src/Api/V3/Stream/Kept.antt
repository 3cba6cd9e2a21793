-- ===== src/Api/V3/Stream/Kept.antt =====
-- What each step of a stream of v3 records does with the record that it read.
use kafka_rest_proxy_go.RateLimit.{Limiter, allow}
use kafka_rest_proxy_go.Api.V3.Stream.Transcript.{charged}
use kafka_rest_proxy_go.Common.{
  false, Option, ℕ, suc, ◌+◌, ◌≡◌, refl, sym, ap, ◌∙◌, subst, List, [], ◌∷◌, ◌++◌, length, map,
  arith, inl, inr, Bool-cases, append_assoc, append-nil, ltb,
}
use kafka_rest_proxy_go.Common.Int.{pos, ltb_ℤ}
use kafka_rest_proxy_go.Common.Try.{Try, ok, err}
use kafka_rest_proxy_go.Producer.{Record, Result, ProduceError}
use kafka_rest_proxy_go.Api.Routes.{V3Target}
use kafka_rest_proxy_go.Api.Errors.{
  ApiError, api_error, as_context_error, classify_produce_error, rate_limit_exceeded,
  too_many_records,
}
use kafka_rest_proxy_go.Api.Handler.{Env, Handler}
use kafka_rest_proxy_go.Metrics.{
  bytes_rate, rate_limit_rejected, kafka_callback_wait, produce_result, admission_rejected,
}
use kafka_rest_proxy_go.Api.Handler.World.{World, observe, allow_byte_rate, produce}
use kafka_rest_proxy_go.Api.Handler.World.Same.{
  SameProducer, same_trans, same-observe, same-allow_byte_rate,
}
use kafka_rest_proxy_go.Api.Handler.TopicProduce.{is_overloaded}
use kafka_rest_proxy_go.Api.V3.{true, false, V3RecordEnvelope, EnvelopeError}
use kafka_rest_proxy_go.Api.V3.Responses.{v3_response_for_result, v3_error, of_envelope}
use kafka_rest_proxy_go.Api.Respond.{count_result_status}
use kafka_rest_proxy_go.Api.V3.Stream.{
  Stream, StreamRead, Line, Step, stops, continues, BodyEnd, seeing, count_failure, first_result,
  fail_stream, write_record_response, answer_record, serve_envelope, serve_record, serve_read,
}
use kafka_rest_proxy_go.Api.V3.Stream.Invariant.{length-append_last}
use kafka_rest_proxy_go.Api.V3.Stream.Steps.{map-append_last, world_of_fail}
use kafka_rest_proxy_go.Api.V3.Stream.Transcript.{
  envelope_read, Transcript, invalid, placed, Told, by_line, by_answer, Ending, rate_limited,
  too_many, not_produced, Served, Kept,
}

nothing {ℓ} : {A : Type ℓ} (xs : List A) → ltb 0 (length xs) ≡ false → xs ≡ []
nothing [] e = refl
nothing (x ∷ xs) e = absurd (ground arith)

-- One more record in the log of the batches.
logged_more :
    (start log : List (List Record)) (handed : List Record) (r : Record)
    → log ≡ start ++ map (λ x. x ∷ []) handed
    → log ++ (r ∷ []) ∷ [] ≡ start ++ map (λ x. x ∷ []) (handed ++ r ∷ [])
logged_more start log handed r e =
    ap (λ x. x ++ (r ∷ []) ∷ []) e
    ∙ append_assoc start (map (λ x. x ∷ []) handed) ((r ∷ []) ∷ [])
    ∙ ap (λ x. start ++ x) (sym (map-append_last (λ x. x ∷ []) handed r))

module _ {env : Env} where
  fail_stream-Told :
      (e : ApiError env.E env.X) (s : Stream env)
      → s.wrote ≡ ltb 0 (length s.lines)
      → Told e s.lines (fail_stream env e s)
  unfolding fail_stream write_record_response
  fail_stream-Told e s written = elim (Bool-cases s.wrote) [
    | inl on ↦ rw on (by_line (sym written ∙ on) refl)
    | inr off ↦
        let empty = nothing s.lines (sym written ∙ off) in rw off (by_answer empty empty refl)
  ]

  module _ {no_result : env.E} {h : Handler env} {target : V3Target} {w : World env} where
    -- Nothing was handed over since.
    pub logged_none :
        {done : List (StreamRead env)} (s : Stream env) (v : World env)
        (k : Kept no_result h target done w s)
        → SameProducer s.world v
        → v.produced ≡ w.produced ++ map (λ r. r ∷ []) (k.handed ++ [])
    logged_none s v k same =
        same.same_log
        ∙ k.logged
        ∙ ap (λ x. w.produced ++ map (λ r. r ∷ []) x) (sym (append-nil k.handed))

    -- One more line, for a read that was answered.
    written_more :
        (done : List (StreamRead env)) (s t : Stream env) (r : StreamRead env) (line : Line env)
        (handed : List Record)
        → t.lines ≡ s.lines
        → t.record_count ≡ suc (length done)
        → Transcript no_result h target w.producer
            (done ++ r ∷ [])
            handed
            (s.lines ++ line ∷ [])
            t.world.producer
        → t.world.produced ≡ w.produced ++ map (λ x. x ∷ []) handed
        → Kept no_result h target (done ++ r ∷ []) w (write_record_response env line t)
    unfolding write_record_response
    written_more done s t r line handed lines count transcript logged = record {
      handed = handed;
      transcript =
          subst
            (λ x.
              Transcript no_result h target w.producer (done ++ r ∷ []) handed (x ++ line ∷ [])
                t.world.producer)
            (sym lines) transcript;
      logged = logged;
      counted = count ∙ sym (length-append_last done r);
      written = ground (arith, length-append_last t.lines line);
    }

  module _ {no_result : env.E} {h : Handler env} {target : V3Target}
      {all done : List (StreamRead env)} {finish : BodyEnd} {w : World env} where
    -- An error behind what was kept, when the records of `failed` were handed over since.
    pub fail_stream-Served :
        (s t : Stream env) (rest : List (StreamRead env)) (failed : List Record)
        (e : ApiError env.E env.X) (k : Kept no_result h target done w s)
        → all ≡ done ++ rest
        → t.wrote ≡ s.wrote
        → t.lines ≡ s.lines
        → t.world.produced ≡ w.produced ++ map (λ r. r ∷ []) (k.handed ++ failed)
        → (Told e s.lines (fail_stream env e t)
            → Ending h target finish done s.lines s.world.producer
                (charged w.byte_rate done)
                (fail_stream env e t)
                rest
                failed)
        → Served no_result h target all finish w (fail_stream env e t)
    fail_stream-Served s t rest failed e k split wrote lines logged ends = record {
      done = done;
      rest = rest;
      handed = k.handed;
      failed = failed;
      lines = s.lines;
      state = s.world.producer;
      all_reads = split;
      transcript = k.transcript;
      logged = ap (λ x. x.produced) (world_of_fail e t) ∙ logged;
      ending = ends (
          subst (λ x. Told e x (fail_stream env e t)) lines
            (fail_stream-Told e t (wrote ∙ k.written ∙ ap (λ x. ltb 0 (length x)) (sym lines))));
    }

  -- What a step leaves.
  abbrev pub Goes :
      env.E
      → Handler env
      → V3Target
      → List (StreamRead env)
      → List (StreamRead env)
      → BodyEnd
      → World env
      → StreamRead env
      → Step env
      → Type 0
  Goes no_result h target all done finish w r (stops s) = Served no_result h target all finish w s
  Goes no_result h target all done finish w r (continues s) =
      Kept no_result h target (done ++ r ∷ []) w s

  module _ (no_result : env.E) (h : Handler env) (target : V3Target)
      (all done : List (StreamRead env)) (finish : BodyEnd) (w : World env) where
    answer_record-Goes :
        (r : StreamRead env) (rest : List (StreamRead env)) (v : V3RecordEnvelope)
        (s t : Stream env) (answer : Try (ProduceError env.E) (List (Result env.E)))
        (k : Kept no_result h target done w s)
        → all ≡ done ++ r ∷ rest
        → envelope_read h target r ≡ ok v
        → (env.produce s.world.producer (v.produced_record ∷ [])).1 ≡ answer
        → t.wrote ≡ s.wrote
        → t.lines ≡ s.lines
        → t.record_count ≡ suc (length done)
        → t.world.producer ≡ (env.produce s.world.producer (v.produced_record ∷ [])).0
        → t.world.produced ≡ w.produced ++ map (λ x. x ∷ []) (k.handed ++ v.produced_record ∷ [])
        → Goes no_result h target all done finish w r
            (answer_record env no_result h target r.answered_at v t answer)
    unfolding answer_record
    answer_record-Goes r rest v s t (err e) k split made answered wrote lines count state logged =
        let e' = as_context_error e in
        let answer = classify_produce_error {X = env.X} e' in
        let waited = observe env h (kafka_callback_wait answer.status) t.world in
        let told = observe env h (produce_result 0 1) waited in
        let first =
          same_trans t.world waited told
            (same-observe h (kafka_callback_wait answer.status) t.world)
            (same-observe h (produce_result 0 1) waited) in
        let after = observe env h admission_rejected told in
        let all_same =
          same_trans t.world told after first (same-observe h admission_rejected told) in
        elim (Bool-cases (is_overloaded e')) [
          | inl full ↦ rw full (
              fail_stream-Served s (seeing env after t) (r ∷ rest) (v.produced_record ∷ []) answer k
                split wrote lines (all_same.same_log ∙ logged)
                (not_produced r rest v e made answered))
          | inr other ↦ rw other (
              fail_stream-Served s (seeing env told t) (r ∷ rest) (v.produced_record ∷ []) answer k
                split wrote lines (first.same_log ∙ logged) (not_produced r rest v e made answered))
        ]
    answer_record-Goes r rest v s t (ok results) k split made answered wrote lines count state
          logged =
        let one = first_result env no_result results in
        let (successes, failures) = count_result_status (one ∷ []) in
        let waited = observe env h (kafka_callback_wait t.status) t.world in
        let told = observe env h (produce_result successes failures) waited in
        let same =
          same_trans t.world waited told (same-observe h (kafka_callback_wait t.status) t.world)
            (same-observe h (produce_result successes failures) waited) in
        let line = v3_response_for_result env.texts r.answered_at target v one in
        let handed = k.handed ++ v.produced_record ∷ [] in
        written_more done s (seeing env told t) r line handed lines count
          (subst
            (Transcript no_result h target w.producer (done ++ r ∷ []) handed
              (s.lines ++ line ∷ []))
            (sym (same.same_state ∙ state)) (placed r v results made answered k.transcript))
          (same.same_log ∙ logged)

    serve_envelope-Goes :
        (r : StreamRead env) (rest : List (StreamRead env)) (s t : Stream env)
        (made : Try (EnvelopeError env.X) V3RecordEnvelope) (k : Kept no_result h target done w s)
        → all ≡ done ++ r ∷ rest
        → envelope_read h target r ≡ made
        → t.wrote ≡ s.wrote
        → t.lines ≡ s.lines
        → t.record_count ≡ suc (length done)
        → t.world ≡ s.world
        → Goes no_result h target all done finish w r
            (serve_envelope env no_result h target r.answered_at t made)
    unfolding serve_envelope
    serve_envelope-Goes r rest s t (err e) k split made wrote lines count world =
        let same = same-observe h (produce_result 0 1) t.world in
        let line = v3_error (pos 400) (of_envelope e) in
        written_more done s (count_failure env h t) r line k.handed lines count
          (subst
            (Transcript no_result h target w.producer (done ++ r ∷ []) k.handed
              (s.lines ++ line ∷ []))
            (sym (same.same_state ∙ ap (λ x. x.producer) world)) (invalid r e made k.transcript))
          (same.same_log ∙ ap (λ x. x.produced) world ∙ k.logged)
    serve_envelope-Goes r rest s t (ok v) k split made wrote lines count world =
        let (after, answer) = produce env (v.produced_record ∷ []) t.world in
        let stepped : (env.produce s.world.producer (v.produced_record ∷ [])).1 ≡ answer =
          ap (λ x. (env.produce x.producer (v.produced_record ∷ [])).1) (sym world) in
        answer_record-Goes r rest v s (seeing env after t) answer k split made stepped wrote lines
          count (ap (λ x. (env.produce x.producer (v.produced_record ∷ [])).0) world)
          (logged_more w.produced t.world.produced k.handed v.produced_record
            (ap (λ x. x.produced) world ∙ k.logged))

    serve_record-Goes :
        (r : StreamRead env) (rest : List (StreamRead env)) (s : Stream env)
        → Kept no_result h target done w s
        → all ≡ done ++ r ∷ rest
        → Goes no_result h target all done finish w r (serve_record env no_result h target r s)
    unfolding serve_record
    serve_record-Goes r rest s k split =
        let count : ℕ = suc s.record_count in
        let is_count : count ≡ suc (length done) = ap suc k.counted in
        let counted : Stream env = record s { record_count = count } in
        let problem : ℕ → ApiError env.E env.X =
          λ n. api_error 400 400 (too_many_records n h.cfg.max_records) in
        elim (Bool-cases (ltb_ℤ h.cfg.max_records (pos count))) [
          | inl many ↦ rw many (
              fail_stream-Served s (count_failure env h counted) (r ∷ rest) [] (problem count) k
                split refl refl
                (logged_none s (count_failure env h counted).world k
                  (same-observe h (produce_result 0 1) s.world))
                λ told.
                  too_many r rest
                    (subst (λ n. ltb_ℤ h.cfg.max_records (pos n) ≡ true) is_count many)
                    (subst
                      (λ n.
                        Told (problem n) s.lines
                          (fail_stream env (problem count) (count_failure env h counted)))
                      is_count told))
          | inr fits ↦ rw fits (
              serve_envelope-Goes r rest s counted (envelope_read h target r) k split refl refl refl
                is_count refl)
        ]

  -- A change of the world that leaves the producer alone.
  Kept-same :
      {no_result : env.E} {h : Handler env} {target : V3Target} {done : List (StreamRead env)}
      {w : World env} (s u : Stream env)
      → Kept no_result h target done w s
      → SameProducer s.world u.world
      → u.wrote ≡ s.wrote
      → u.lines ≡ s.lines
      → u.record_count ≡ s.record_count
      → Kept no_result h target done w u
  Kept-same {no_result} {h} {target} {done} {w} s u k same wrote lines count = record {
    handed = k.handed;
    transcript =
        subst (λ x. Transcript no_result h target w.producer done k.handed x u.world.producer)
          (sym lines)
          (subst (Transcript no_result h target w.producer done k.handed s.lines)
            (sym same.same_state) k.transcript);
    logged = same.same_log ∙ k.logged;
    counted = count ∙ k.counted;
    written = wrote ∙ k.written ∙ ap (λ x. ltb 0 (length x)) (sym lines);
  }

  refused_read :
      (r : StreamRead env) (s : Stream env) (limiter : Option (Limiter env.float))
      → s.world.byte_rate ≡ limiter
      → (allow_byte_rate env (pos r.bytes_read) r.read_at s.world).1 ≡ false
      → (allow env.float limiter (pos r.bytes_read) r.read_at).1 ≡ false
  unfolding allow_byte_rate
  refused_read r s limiter e limited =
      subst (λ l. (allow env.float l (pos r.bytes_read) r.read_at).1 ≡ false) e limited

  pub serve_read-Goes :
      (no_result : env.E) (h : Handler env) (target : V3Target) (all done : List (StreamRead env))
      (finish : BodyEnd) (w : World env) (r : StreamRead env) (rest : List (StreamRead env))
      (s : Stream env)
      → Kept no_result h target done w s
      → s.world.byte_rate ≡ charged w.byte_rate done
      → all ≡ done ++ r ∷ rest
      → Goes no_result h target all done finish w r (serve_read env no_result h target r s)
  unfolding serve_read
  serve_read-Goes no_result h target all done finish w r rest s k rate split =
      let read : Stream env = record s { body_len = s.body_len + r.bytes_read } in
      let after : World env = (allow_byte_rate env (pos r.bytes_read) r.read_at s.world).0 in
      let same = same-allow_byte_rate (pos r.bytes_read) r.read_at s.world in
      let seen : Stream env = seeing env after read in
      let k' = Kept-same s seen k same refl refl refl in
      elim (Bool-cases (allow_byte_rate env (pos r.bytes_read) r.read_at s.world).1) [
        | inl allowed ↦
            rw allowed (serve_record-Goes no_result h target all done finish w r rest seen k' split)
        | inr limited ↦ rw limited (
            let told = observe env h (rate_limit_rejected bytes_rate) after in
            let counted = observe env h (produce_result 0 1) told in
            fail_stream-Served seen (seeing env counted read) (r ∷ rest) [] rate_limit_exceeded k'
              split refl refl
              (logged_none seen counted k' (
                same_trans after told counted
                  (same-observe h (rate_limit_rejected bytes_rate) after)
                  (same-observe h (produce_result 0 1) told)))
              (rate_limited r rest (refused_read r s (charged w.byte_rate done) rate limited)))
      ]
