-- ===== src/Api/V3/BatchBody/Answered.antt =====
-- The answer to a v3 batch.
use kafka_rest_proxy_go.Common.{
  ◌+◌, ◌<◌, ◌≡◌, refl, sym, ap, ◌∙◌, Option, none, some, List, [], ◌∷◌, ◌++◌, length, map, arith,
  inl, inr, Bool-cases, append-nil,
}
use kafka_rest_proxy_go.Common.Int.{ℤ, pos, ltb_ℤ, ◌≤ℤ◌}
use kafka_rest_proxy_go.Common.Try.{Try, ok, err}
use kafka_rest_proxy_go.Producer.{Bytes, Record, Result, ProduceError}
use kafka_rest_proxy_go.Metrics.{produce_result}
use kafka_rest_proxy_go.Api.Respond.{count_result_status}
use kafka_rest_proxy_go.Api.Routes.{V3Target}
use kafka_rest_proxy_go.Api.Batch.{EntryError, sort_entries}
use kafka_rest_proxy_go.Api.Batch.Sorted.{Splits, sort_entries-Splits}
use kafka_rest_proxy_go.Api.Errors.{ApiError, IsRefusal, of_producer, classify_produce_error}
use kafka_rest_proxy_go.Api.Handler.{Env, AnswersAll, Handler, Time}
use kafka_rest_proxy_go.Api.Handler.World.{World, produce}
use kafka_rest_proxy_go.Api.Handler.World.Same.{SameProducer, same_refl, same-observe}
use kafka_rest_proxy_go.Api.V3.{V3ProduceRecord, V3RecordEnvelope, EnvelopeError}
use kafka_rest_proxy_go.Api.V3.BatchBody.{
  serve_unmarshaled, UnmarshalBatch, BatchResponse, BatchReply, refused, multi_status, envelope_of,
  entry_failure, answer_batch, produce_batch, serve_entries, handle_v3_batch_body,
}
use kafka_rest_proxy_go.Api.V3.BatchBody.Counted.{
  successes_of, failures_of, add_results_exact, count, answered_count, Splits_count, Splits_ids,
  add_results-counted, length-map,
}

-- The batches that records make: one, or none if there is no record.
abbrev pub calls : List Record → List (List Record)
calls [] = []
calls (r ∷ rs) = (r ∷ rs) ∷ []

module _ (env : Env) where
  abbrev pub ids : List (Bytes × V3ProduceRecord) → List Bytes
  ids entries = map (λ x. x.0) entries

  -- The entries of a body, what they are sorted into, and the one batch handed over.
  pub record Handed (h : Handler env) (topic : Bytes) (entries : List (Bytes × V3ProduceRecord))
      (w w' : World env) : Type 0 where
    pub nonempty : 0 < length entries
    pub within : pos (length entries) ≤ℤ h.cfg.max_records
    pub envelopes : List (Bytes × V3RecordEnvelope)
    pub failures : List (Bytes × EntryError (EnvelopeError env.X))
    pub sorted : Splits (envelope_of env h topic) [] entries envelopes failures
    pub handed :
        w'.produced ≡ w.produced ++ calls (map (λ x. x.produced_record) (map (λ x. x.1) envelopes))

  -- The results of a batch: those of Produce, or none if it has no record.
  abbrev pub ResultsOf : World env → List Record → List (Result env.E) → Type 0
  ResultsOf w [] results = results ≡ []
  ResultsOf w (r ∷ rs) results = (env.produce w.producer (r ∷ rs)).1 ≡ ok results

  pub data BatchOutcome (unmarshal : UnmarshalBatch) (h : Handler env) (now : Time env)
      (target : V3Target) (body : Bytes) (w w' : World env) : BatchReply env → Type 0 where
    refuses :
        (e : ApiError env.E env.X)
        → SameProducer w w'
        → IsRefusal e
        → BatchOutcome unmarshal h now target body w w' (refused e)
    fails :
        (entries : List (Bytes × V3ProduceRecord)) (e : ProduceError env.E)
        → unmarshal body ≡ some entries
        → (k : Handed h target.topic entries w w')
        → (env.produce w.producer (map (λ x. x.produced_record) (map (λ x. x.1) k.envelopes))).1
          ≡ err e
        → BatchOutcome unmarshal h now target body w w'
            (refused (classify_produce_error (of_producer e)))
    answers :
        (entries : List (Bytes × V3ProduceRecord)) (results : List (Result env.E))
        (response : BatchResponse env)
        → unmarshal body ≡ some entries
        → (k : Handed h target.topic entries w w')
        → ResultsOf w (map (λ x. x.produced_record) (map (λ x. x.1) k.envelopes)) results
        → length results ≡ length k.envelopes
        → response.successes ≡ successes_of env now target (map (λ x. x.1) k.envelopes) results
        → response.failures
          ≡ map (entry_failure env) k.failures
            ++ failures_of env (map (λ x. x.1) k.envelopes) results
        → ((id : Bytes) → answered_count id response ≡ count id (ids entries))
        → BatchOutcome unmarshal h now target body w w' (multi_status response)

some_inj {ℓ} : {A : Type ℓ} {a b : A} → Path (Option A) (some a) (some b) → a ≡ b
some_inj e = cc

module _ (env : Env) where
  failure_ids-map :
      (failures : List (Bytes × EntryError (EnvelopeError env.X)))
      → map (λ x. x.id) (map (entry_failure env) failures) ≡ map (λ x. x.0) failures
  failure_ids-map [] = refl
  failure_ids-map ((id, e) ∷ failures) = ap (λ ys. id ∷ ys) (failure_ids-map failures)

module _ {env : Env} where
  -- The failures of a batch and its envelopes have the ids of its entries.
  ids_counted :
      (h : Handler env) (topic : Bytes) (entries : List (Bytes × V3ProduceRecord))
      (envelopes : List (Bytes × V3RecordEnvelope))
      (failures : List (Bytes × EntryError (EnvelopeError env.X)))
      → Splits (envelope_of env h topic) [] entries envelopes failures
      → (id : Bytes)
      → count id (map (λ x. x.id) (map (entry_failure env) failures))
          + count id (map (λ x. x.id) (map (λ x. x.1) envelopes))
        ≡ count id (ids env entries)
  ids_counted h topic entries envelopes failures s id = ground (
    arith,
    Splits_count id s,
    ap (count id) (failure_ids-map env failures),
    ap (count id) (Splits_ids h topic s),
  )

  answer_batch-Outcome :
      (unmarshal : UnmarshalBatch) (h : Handler env) (now : Time env) (target : V3Target)
      (body : Bytes) (w v : World env) (entries : List (Bytes × V3ProduceRecord))
      (k : Handed env h target.topic entries w v)
      (answer : Try (ProduceError env.E) (List (Result env.E)))
      → unmarshal body ≡ some entries
      → (env.produce w.producer (map (λ x. x.produced_record) (map (λ x. x.1) k.envelopes))).1
        ≡ answer
      → ((results : List (Result env.E))
          → answer ≡ ok results
          → length results ≡ length k.envelopes)
      → ((results : List (Result env.E))
          → answer ≡ ok results
          → ResultsOf env w (map (λ x. x.produced_record) (map (λ x. x.1) k.envelopes)) results)
      → let served =
          answer_batch env h now target
            (map (λ x. x.1) k.envelopes)
            (map (entry_failure env) k.failures)
            v
            answer in
        BatchOutcome env unmarshal h now target body w served.world served.reply
  unfolding answer_batch
  answer_batch-Outcome unmarshal h now target body w v entries k (err e) read same all given =
      fails entries e read k same
  answer_batch-Outcome unmarshal h now target body w v entries k (ok results) read same all given =
      let vs = map (λ x. x.1) k.envelopes in
      let start : BatchResponse env = record {
        successes = [];
        failures = map (entry_failure env) k.failures;
      } in
      let as_many : length results ≡ length vs =
        all results refl ∙ sym (length-map (λ x. x.1) k.envelopes) in
      let (after, added, counts) = add_results-counted env now target vs results start as_many in
      let made : BatchResponse env = record {
        successes = successes_of env now target vs results;
        failures = start.failures ++ failures_of env vs results;
      } in
      let exact : after ≡ made =
        some_inj (sym added ∙ add_results_exact env now target vs results start as_many) in
      let (successes, failed) = count_result_status results in
      rw added (
        answers entries results after read
          (record {
            nonempty = k.nonempty;
            within = k.within;
            envelopes = k.envelopes;
            failures = k.failures;
            sorted = k.sorted;
            handed = (same-observe h (produce_result successes failed) v).same_log ∙ k.handed;
          })
          (given results refl) (all results refl) (ap (λ x. x.successes) exact)
          (ap (λ x. x.failures) exact)
          (λ id. ground (
            arith,
            counts id,
            ids_counted h target.topic entries k.envelopes k.failures k.sorted id,
          )))

  produce_batch-Outcome :
      (unmarshal : UnmarshalBatch) (h : Handler env) (now : Time env) (target : V3Target)
      (body : Bytes) (w : World env) (entries : List (Bytes × V3ProduceRecord))
      (envelopes : List (Bytes × V3RecordEnvelope))
      (failures : List (Bytes × EntryError (EnvelopeError env.X)))
      → AnswersAll env
      → unmarshal body ≡ some entries
      → 0 < length entries
      → pos (length entries) ≤ℤ h.cfg.max_records
      → Splits (envelope_of env h target.topic) [] entries envelopes failures
      → let served =
          produce_batch env h now target
            (map (λ x. x.1) envelopes)
            (map (entry_failure env) failures)
            w in
        BatchOutcome env unmarshal h now target body w served.world served.reply
  unfolding produce_batch produce
  produce_batch-Outcome unmarshal h now target body w entries [] failures all read some_entry few
        s =
      answers entries [] _ read
        (record {
          nonempty = some_entry;
          within = few;
          envelopes = [];
          failures = failures;
          sorted = s;
          handed = sym (append-nil w.produced);
        })
        refl refl refl (sym (append-nil (map (entry_failure env) failures)))
        (λ id. ground (arith, ids_counted h target.topic entries [] failures s id))
  produce_batch-Outcome unmarshal h now target body w entries (v ∷ vs) failures all read some_entry
        few s =
      let records = map (λ x. x.produced_record) (map (λ x. x.1) (v ∷ vs)) in
      let after = (produce env records w).0 in
      let k : Handed env h target.topic entries w after = record {
        nonempty = some_entry;
        within = few;
        envelopes = v ∷ vs;
        failures = failures;
        sorted = s;
        handed = refl;
      } in
      answer_batch-Outcome unmarshal h now target body w after entries k
        (env.produce w.producer records).1 read refl
        (λ results e.
          all w.producer records results e
          ∙ length-map (λ x. x.produced_record) (map (λ x. x.1) (v ∷ vs))
          ∙ length-map (λ x. x.1) (v ∷ vs))
        (λ results e. e)

  serve_entries-Outcome :
      (unmarshal : UnmarshalBatch) (h : Handler env) (now : Time env) (target : V3Target)
      (body : Bytes) (w : World env) (entries : List (Bytes × V3ProduceRecord))
      → AnswersAll env
      → unmarshal body ≡ some entries
      → let served = serve_entries env h now target entries w in
        BatchOutcome env unmarshal h now target body w served.world served.reply
  unfolding serve_entries
  serve_entries-Outcome unmarshal h now target body w [] all read =
      refuses _ (same_refl w) (omega arith)
  serve_entries-Outcome unmarshal h now target body w (e ∷ es) all read =
      let few : ℤ = pos (length (e ∷ es)) in
      elim (Bool-cases (ltb_ℤ h.cfg.max_records few)) [
        | inl over ↦ rw over (refuses _ (same_refl w) (omega arith))
        | inr fits ↦ rw fits (
            produce_batch-Outcome unmarshal h now target body w (e ∷ es)
              (sort_entries (envelope_of env h target.topic) [] (e ∷ es)).0
              (sort_entries (envelope_of env h target.topic) [] (e ∷ es)).1 all read (omega arith)
              (ground arith) (sort_entries-Splits (envelope_of env h target.topic) [] (e ∷ es)))
      ]

  serve_unmarshaled-Outcome :
      (unmarshal : UnmarshalBatch) (h : Handler env) (now : Time env) (target : V3Target)
      (body : Bytes) (w : World env) (read : Option (List (Bytes × V3ProduceRecord)))
      → AnswersAll env
      → unmarshal body ≡ read
      → let served = serve_unmarshaled env h now target read w in
        BatchOutcome env unmarshal h now target body w served.world served.reply
  unfolding serve_unmarshaled
  serve_unmarshaled-Outcome unmarshal h now target body w none all read =
      refuses _ (same_refl w) (omega arith)
  serve_unmarshaled-Outcome unmarshal h now target body w (some entries) all read =
      serve_entries-Outcome unmarshal h now target body w entries all read

  -- A v3 batch, for a producer that answers each record, is refused with a status of 400 or above before
  -- the producer is called, or fails with the class of an error of Produce, or is answered with a list
  -- of successes and one of failures; it never reads past its envelopes. An answered batch has at least
  -- one entry and no more than the limit; what Kafka got is one batch with the records of the
  -- entries that have a valid and new id and decode, in order, or nothing if there are none. The
  -- successes are those of the results that did not fail, in order, each with the id of its record; the
  -- failures are the refused entries and then the failed results; and each id stands in both lists
  -- together as often as in the entries.
  pub handle_v3_batch_body-Outcome :
      (unmarshal : UnmarshalBatch) (h : Handler env) (now : Time env) (target : V3Target)
      (body : Bytes) (w : World env)
      → AnswersAll env
      → let served = handle_v3_batch_body env unmarshal h now target body w in
        BatchOutcome env unmarshal h now target body w served.world served.reply
  unfolding handle_v3_batch_body
  handle_v3_batch_body-Outcome unmarshal h now target body w all =
      serve_unmarshaled-Outcome unmarshal h now target body w (unmarshal body) all refl
