-- ===== src/Api/V3/Stream/Ended.antt =====
-- How a stream of v3 records ends.
use kafka_rest_proxy_go.Api.Errors.{api_error, payload_too_large, bad_request_body}
use kafka_rest_proxy_go.Api.V3.Stream.Kept.{fail_stream-Served, logged_none, Goes, serve_read-Goes}
use kafka_rest_proxy_go.Api.V3.Stream.Transcript.{
  begun, complete, none_read, Transcript_length, too_large, unreadable, Served, Kept,
}
use kafka_rest_proxy_go.RateLimit.{Limiter, allow}
use kafka_rest_proxy_go.Common.Int.{pos}
use kafka_rest_proxy_go.Api.V3.Stream.Rate.{RateIs, charged-append_last, serve_read-RateIs}
use kafka_rest_proxy_go.Api.V3.Stream.Transcript.{charged}
use kafka_rest_proxy_go.Common.{
  Option, ap, subst, ◌∙◌, append_assoc, ◌≡◌, ◌++◌, ℕ, ◌+◌, ◌==◌, refl, sym, List, [], ◌∷◌, arith,
  inl, inr, Bool-cases, append-nil,
}
use kafka_rest_proxy_go.Producer.{Bytes}
use kafka_rest_proxy_go.Api.Routes.{V3Target}
use kafka_rest_proxy_go.Api.Handler.{Env, Handler}
use kafka_rest_proxy_go.Api.Handler.World.{World}
use kafka_rest_proxy_go.Api.Handler.World.Same.{same_refl}
use kafka_rest_proxy_go.Api.V3.Stream.{
  max_bytes_reached, malformed, end_of_body, Stream, StreamRead, Step, stops, continues, BodyEnd,
  serve_read, end_stream, after_step, run_stream, start_stream, handle_v3_record_stream,
}
use kafka_rest_proxy_go.Api.V3.Stream.Invariant.{
  eq_nil, streamed, refused, Running, Ended, HandedOver-same,
}
use kafka_rest_proxy_go.Api.V3.Stream.Steps.{
  Writing-same, fail_stream-Ended, Leaves, serve_read-Leaves,
}

module _ {env : Env} where
  end_stream-Ended :
      (h : Handler env) (topic : Bytes) (finish : BodyEnd) (rest : ℕ) (w : World env)
      (s : Stream env)
      → Running h topic w s
      → Ended h topic w (end_stream env finish rest s)
  unfolding end_stream
  end_stream-Ended h topic max_bytes_reached rest w s k =
      fail_stream-Ended h topic w _ (record s { body_len = s.body_len + rest })
        (Writing-same s _ k.writing refl refl refl refl) (omega arith)
        (omega (arith, k.counted, k.within)) (HandedOver-same k.over (same_refl s.world) k.within)
  end_stream-Ended h topic malformed rest w s k =
      fail_stream-Ended h topic w _ (record s { body_len = s.body_len + rest })
        (Writing-same s _ k.writing refl refl refl refl) (omega arith)
        (omega (arith, k.counted, k.within)) (HandedOver-same k.over (same_refl s.world) k.within)
  end_stream-Ended h topic end_of_body rest w s k = elim (Bool-cases (s.record_count == 0)) [
    | inl empty ↦ rw empty (record {
      replied = refused _ refl (eq_nil s.lines (ground (arith, k.counted))) refl (omega arith);
      lines_few = omega (arith, k.counted, k.within);
      over = HandedOver-same k.over (same_refl s.world) k.within;
    })
    | inr some_record ↦ rw some_record (record {
      replied = streamed k.writing.no_error k.writing.is_ok (ground (arith, k.counted));
      lines_few = omega (arith, k.counted, k.within);
      over = HandedOver-same k.over (same_refl s.world) k.within;
    })
  ]

  after_step-Ended :
      (h : Handler env) (topic : Bytes) (w : World env) (next : Stream env → Stream env)
      (step : Step env)
      → Leaves h topic w step
      → ((s : Stream env) → Running h topic w s → Ended h topic w (next s))
      → Ended h topic w (after_step env next step)
  after_step-Ended h topic w next (stops s) k go = k
  after_step-Ended h topic w next (continues s) k go = go s k

  run_stream-Ended :
      (no_result : env.E) (h : Handler env) (target : V3Target) (reads : List (StreamRead env))
      (finish : BodyEnd) (rest : ℕ) (w : World env) (s : Stream env)
      → Running h target.topic w s
      → Ended h target.topic w (run_stream env no_result h target reads finish rest s)
  unfolding run_stream
  run_stream-Ended no_result h target [] finish rest w s k =
      end_stream-Ended h target.topic finish rest w s k
  run_stream-Ended no_result h target (r ∷ reads) finish rest w s k =
      after_step-Ended h target.topic w
        (λ s'. run_stream env no_result h target reads finish rest s')
        (serve_read env no_result h target r s) (serve_read-Leaves no_result h target r w s k)
        (λ s' k'. run_stream-Ended no_result h target reads finish rest w s' k')

  end_stream-Served :
      (no_result : env.E) (h : Handler env) (target : V3Target) (all done : List (StreamRead env))
      (finish : BodyEnd) (rest : ℕ) (w : World env) (s : Stream env)
      → Kept no_result h target done w s
      → all ≡ done ++ []
      → Served no_result h target all finish w (end_stream env finish rest s)
  unfolding end_stream
  end_stream-Served no_result h target all done max_bytes_reached rest w s k split =
      fail_stream-Served s (record s { body_len = s.body_len + rest }) [] []
        (api_error 413 413 payload_too_large) k split refl refl
        (logged_none s s.world k (same_refl s.world)) (too_large refl)
  end_stream-Served no_result h target all done malformed rest w s k split =
      fail_stream-Served s (record s { body_len = s.body_len + rest }) [] []
        (api_error 400 400 bad_request_body) k split refl refl
        (logged_none s s.world k (same_refl s.world)) (unreadable refl)
  end_stream-Served no_result h target all done end_of_body rest w s k split =
      elim (Bool-cases (s.record_count == 0)) [
        | inl zero_read ↦
            let nothing_read : done ≡ [] = eq_nil done (ground (arith, k.counted)) in
            let no_line : s.lines ≡ [] =
              eq_nil s.lines (ground (arith, Transcript_length k.transcript, k.counted)) in
            rw zero_read (record {
              done = done;
              rest = [];
              handed = k.handed;
              failed = [];
              lines = s.lines;
              state = s.world.producer;
              all_reads = split;
              transcript = k.transcript;
              logged = logged_none s s.world k (same_refl s.world);
              ending = none_read refl nothing_read no_line refl;
            })
        | inr some_read ↦ rw some_read (record {
          done = done;
          rest = [];
          handed = k.handed;
          failed = [];
          lines = s.lines;
          state = s.world.producer;
          all_reads = split;
          transcript = k.transcript;
          logged = logged_none s s.world k (same_refl s.world);
          ending = complete refl (ground (arith, k.counted)) refl;
        })
      ]

  after_step-Served :
      (no_result : env.E) (h : Handler env) (target : V3Target) (all done : List (StreamRead env))
      (finish : BodyEnd) (w : World env) (r : StreamRead env) (next : Stream env → Stream env)
      (step : Step env) (limiter : Option (Limiter env.float))
      → Goes no_result h target all done finish w r step
      → RateIs limiter step
      → ((s : Stream env)
          → Kept no_result h target (done ++ r ∷ []) w s
          → s.world.byte_rate ≡ limiter
          → Served no_result h target all finish w (next s))
      → Served no_result h target all finish w (after_step env next step)
  after_step-Served no_result h target all done finish w r next (stops s) limiter k rate go = k
  after_step-Served no_result h target all done finish w r next (continues s) limiter k rate go =
      go s k rate

  run_stream-Served :
      (no_result : env.E) (h : Handler env) (target : V3Target)
      (all done reads : List (StreamRead env)) (finish : BodyEnd) (rest : ℕ) (w : World env)
      (s : Stream env)
      → Kept no_result h target done w s
      → s.world.byte_rate ≡ charged w.byte_rate done
      → all ≡ done ++ reads
      → Served no_result h target all finish w
          (run_stream env no_result h target reads finish rest s)
  unfolding run_stream
  run_stream-Served no_result h target all done [] finish rest w s k rate split =
      end_stream-Served no_result h target all done finish rest w s k split
  run_stream-Served no_result h target all done (r ∷ reads) finish rest w s k rate split =
      after_step-Served no_result h target all done finish w r
        (λ s'. run_stream env no_result h target reads finish rest s')
        (serve_read env no_result h target r s) (charged w.byte_rate (done ++ r ∷ []))
        (serve_read-Goes no_result h target all done finish w r reads s k rate split)
        (subst (λ l. RateIs l (serve_read env no_result h target r s))
          (ap (λ l. (allow env.float l (pos r.bytes_read) r.read_at).0) rate
            ∙ sym (charged-append_last w.byte_rate done r))
          (serve_read-RateIs no_result h target r s))
        (λ s' k' rate'.
          run_stream-Served no_result h target all (done ++ r ∷ []) reads finish rest w s' k' rate'
            (split ∙ sym (append_assoc done (r ∷ []) reads)))

  -- A stream of v3 records ends either with lines, the first of them under a status of 200, and no other
  -- answer, or with no line and one error whose status is 400 or above. The reads are answered from the
  -- first on, each by one line: the error of a record that becomes no envelope, or else the
  -- response for what Kafka answers to a batch of that record alone; Kafka got these records in this
  -- order and, but for one that it refused at the end, no other. Every read is answered and the body ends there,
  -- or the error that is told says why not: no record came, the body was too long or cannot be read, the limiter refused
  -- the bytes of the next read, that read was one above the limit on records, or Produce failed. The records are no more than the limit, which
  -- the lines exceed by one at most.
  pub handle_v3_record_stream-Ended :
      (no_result : env.E) (h : Handler env) (target : V3Target) (reads : List (StreamRead env))
      (finish : BodyEnd) (rest : ℕ) (w : World env)
      → let s = handle_v3_record_stream env no_result h target reads finish rest w in
        Ended h target.topic w s × Served no_result h target reads finish w s
  unfolding handle_v3_record_stream start_stream charged
  handle_v3_record_stream-Ended no_result h target reads finish rest w = (
    run_stream-Ended no_result h target reads finish rest w (start_stream env w) (record {
      writing = record { no_error = refl; is_ok = refl; written = refl };
      counted = refl;
      within = omega arith;
      over = record {
        handed = [];
        logged = sym (append-nil w.produced);
        valid = tt;
        few = omega arith;
      };
    }),
    run_stream-Served no_result h target reads [] reads finish rest w (start_stream env w)
        (record {
          handed = [];
          transcript = begun;
          logged = sym (append-nil w.produced);
          counted = refl;
          written = refl;
        })
        refl refl,
  )
