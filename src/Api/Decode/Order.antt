-- ===== src/Api/Decode/Order.antt =====
-- Records are decoded in order, and the first that fails decides the error.
use kafka_rest_proxy_go.Common.{
  ℕ, suc, ◌+◌, ◌≡◌, refl, ap, ◌∙◌, subst, inl, inr, Option, List, [], ◌∷◌, ◌++◌, length, arith,
}
use kafka_rest_proxy_go.Common.Int.{ℤ}
use kafka_rest_proxy_go.Common.Try.{Try-cases, ok, err}
use kafka_rest_proxy_go.Producer.{Bytes, Record}
use kafka_rest_proxy_go.Api.Payload.{Codec, PayloadFormat}
use kafka_rest_proxy_go.Api.Decode.{
  RawRecord, RawProduceRequest, DecodeLimits, ProduceMetadata, RecordError, Encode,
}
use kafka_rest_proxy_go.Api.Decode.Records.{next_ids, decode_record, decode_records}

module _ {X : Type 0} (codec : Codec) (enc : Option (Encode X)) (topic : Bytes)
    (format : PayloadFormat) (limits : DecodeLimits) (path : Option ℤ)
    (req : RawProduceRequest) where
  -- The records of a list decode, the first at index `i`.
  abbrev pub Decodes : ℕ → List RawRecord → Type 0
  Decodes i [] = Unit
  Decodes i (raw ∷ raws) =
      ((out : Record × ProduceMetadata) × (decode_record codec enc topic format limits path req i
            raw
          ≡ ok out))
      × Decodes (suc i) raws

  -- A list of records fails with the error of its first record that fails, at that record's index:
  -- all before it decode.
  pub decode_records_first_error :
      (i : ℕ) (meta : ProduceMetadata) (raws : List RawRecord) (e : RecordError X)
      → decode_records codec enc topic format limits path req i meta raws ≡ err e
      → (before : List RawRecord) × (raw : RawRecord) × (after : List RawRecord) × (raws
          ≡ before ++ raw ∷ after)
        × Decodes i before
        × (decode_record codec enc topic format limits path req (i + length before) raw ≡ err e)
  unfolding decode_records
  decode_records_first_error i meta [] e h = cc
  decode_records_first_error i meta (raw ∷ raws) e h =
      elim (Try-cases (decode_record codec enc topic format limits path req i raw)) [
        | inr (e', failed) ↦
            let same : e' ≡ e = cc (rw failed at h) in
            (
              [],
              raw,
              raws,
              refl,
              tt,
              subst (λ k. decode_record codec enc topic format limits path req k raw ≡ err e)
                  (omega arith) (failed ∙ ap err same),
            )
        | inl (out, decoded) ↦
            let h' = rw decoded at h in
            let meta' = next_ids meta out.1 in
            elim (Try-cases
              (decode_records codec enc topic format limits path req (suc i) meta' raws)) [
                | inl (rest, through) ↦ let x = rw through at h' in cc
                | inr (e', failed) ↦
                    let x = rw failed at h' in
                    let same : e' ≡ e = cc in
                    let (before, bad, after, split, fine, error) =
                      decode_records_first_error (suc i) meta' raws e (failed ∙ ap err same) in
                    (
                      raw ∷ before,
                      bad,
                      after,
                      ap (λ t. raw ∷ t) split,
                      ((out, decoded), fine),
                      subst
                          (λ k. decode_record codec enc topic format limits path req k bad ≡ err e)
                          (omega arith) error,
                    )
              ]
      ]
