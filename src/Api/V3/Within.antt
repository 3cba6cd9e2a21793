-- ===== src/Api/V3/Within.antt =====
-- What a v3 record becomes, and that it is within the limits.
use kafka_rest_proxy_go.Common.{
  ℕ, ◌&&◌, ◌+◌, ◌≡◌, ◌≢◌, ◌⊎◌, refl, subst, Bool, true, false, not, Option, List, [], ◌∷◌, length,
  arith, inl, inr, Bool-cases, All2, suc,
}
use kafka_rest_proxy_go.Common.Int.{ℤ, pos, ltb_ℤ, ◌≤ℤ◌}
use kafka_rest_proxy_go.Common.Try.{
  found-eq-ok, Try, ok_inj, Try, ok, ◌>>=◌, map_err, require, >>=-eq-ok, require-eq-ok,
  map_err-eq-ok,
}
use kafka_rest_proxy_go.Producer.{Bytes, Header, Record, len, size_bytes}
use kafka_rest_proxy_go.Schema.Encoder.{Languages, Registry}
use kafka_rest_proxy_go.Api.Payload.{Codec}
use kafka_rest_proxy_go.Api.Decode.{DecodeLimits}
use kafka_rest_proxy_go.Api.V3.{
  encode, no_metadata, found, is_schema_aware, Metadata, some, none, RequestData, is_none,
  key_failed, value_failed, value_not_base64, of_encode, registry_in, is_empty, V3HeaderError,
  V3ProduceHeader, V3ProduceRecord, V3RecordEnvelope, headers_failed, encode_v3_data, header_bytes,
  header_within, decode_v3_header, decode_v3_header_list, decode_v3_headers, is_negative,
  v3_envelope_from_record,
}

-- The value of a header: none, or the bytes whose base64 text came.
pub data HeaderValue (codec : Codec) : Option Bytes → Option Bytes → Type 0 where
  no_value : HeaderValue codec none none
  base64_value :
      (text b : Bytes) → codec.base64_decode text ≡ some b → HeaderValue codec (some text) (some b)

-- A header as it came and as it goes out.
pub record HeaderWithin (codec : Codec) (limits : DecodeLimits) (raw : V3ProduceHeader) (h : Header)
    : Type 0 where
  pub name_kept : h.key ≡ raw.name
  pub value_read : HeaderValue codec raw.value h.value
  pub name_nonempty : raw.name ≢ []
  pub size_within : pos (length h.key + len h.value) ≤ℤ limits.max_header_bytes

-- A key (`is_key`) or value as it came, and what the schema encoder makes of it.
pub data DataEncoded {X : Type 0} (codec : Codec) (languages : Languages X) (topic : Bytes)
    (is_key : Bool) (enc : Option (Option (Registry X)))
    : Option RequestData → Option Bytes → Metadata → Type 0 where
  no_data : DataEncoded codec languages topic is_key enc none none no_metadata
  encoded :
      (d : RequestData) (b : Option Bytes) (meta : Metadata)
      → (is_schema_aware d ≡ true → enc ≢ none)
      → encode codec languages (registry_in enc) topic is_key (some d) ≡ ok (b, meta)
      → DataEncoded codec languages topic is_key enc (some d) b meta

-- A record as it came and its envelope.
pub record Within {X : Type 0} (codec : Codec) (languages : Languages X)
    (enc : Option (Option (Registry X))) (topic id : Bytes) (limits : DecodeLimits)
    (raw : V3ProduceRecord) (env : V3RecordEnvelope) : Type 0 where
  pub id_is : env.id ≡ id
  pub key_encoded :
      DataEncoded codec languages topic true enc raw.key env.produced_record.key env.key
  pub value_encoded :
      DataEncoded codec languages topic false enc raw.value env.produced_record.value env.value
  pub topic_is : env.produced_record.topic ≡ topic
  pub partition_is : env.produced_record.partition ≡ raw.partition_id
  pub partition_allowed : is_negative raw.partition_id ≡ false
  pub key_within : pos (len env.produced_record.key) ≤ℤ limits.max_key_bytes
  pub size_within : size_bytes env.produced_record ≤ℤ limits.max_record_bytes
  pub header_count : (raw.headers ≡ []) ⊎ (pos (length raw.headers) ≤ℤ limits.max_headers)
  pub headers_within : All2 (HeaderWithin codec limits) raw.headers env.produced_record.headers

is_false : (b : Bool) → not b ≡ true → b ≡ false
is_false true h = cc
is_false false h = refl

of_ltb_false : (a b : ℤ) → ltb_ℤ a b ≡ false → b ≤ℤ a
of_ltb_false a b h = ground arith

registry_there {ℓ} :
    {A : Type ℓ} (aware : Bool) (enc : Option A)
    → (aware && is_none enc) ≡ false
    → aware ≡ true
    → enc ≢ none
registry_there aware none h t = λ u. cc
registry_there aware (some a) h t = λ u. cc

nonempty : (s : Bytes) → is_empty s ≡ false → s ≢ []
nonempty [] e = cc
nonempty (c ∷ s) e = λ x. cc

module _ {X : Type 0} (codec : Codec) (languages : Languages X) where
  encode_v3_data-Encoded :
      (topic : Bytes) (is_key : Bool) (raw : Option RequestData)
      (enc : Option (Option (Registry X))) (b : Option Bytes) (meta : Metadata)
      → encode_v3_data codec languages topic is_key raw enc ≡ ok (b, meta)
      → DataEncoded codec languages topic is_key enc raw b meta
  unfolding encode_v3_data
  encode_v3_data-Encoded topic is_key none enc b meta e =
      subst (λ p. DataEncoded codec languages topic is_key enc none p.0 p.1) (ok_inj e) no_data
  encode_v3_data-Encoded topic is_key (some d) enc b meta e =
      elim (Bool-cases (is_schema_aware d && is_none enc)) [
        | inl missing ↦ cc
        | inr there ↦
            let asked = encode codec languages (registry_in enc) topic is_key (some d) in
            encoded d b meta (registry_there (is_schema_aware d) enc there)
              (map_err-eq-ok of_encode asked cc)
      ]

module _ (codec : Codec) where
  header_bytes-Value :
      (i : ℕ) (raw value : Option Bytes)
      → header_bytes codec i raw ≡ ok value
      → HeaderValue codec raw value
  header_bytes-Value i none value e = subst (HeaderValue codec none) (ok_inj e) no_value
  header_bytes-Value i (some text) value e =
      let (b, eb, e') = >>=-eq-ok (found (codec.base64_decode text) (value_not_base64 i)) _ e in
      subst (HeaderValue codec (some text)) (ok_inj e') (base64_value text b (found-eq-ok _ _ eb))

  header_within-HeaderWithin :
      (limits : DecodeLimits) (i : ℕ) (raw : V3ProduceHeader) (value : Option Bytes) (h : Header)
      → raw.name ≢ []
      → HeaderValue codec raw.value value
      → header_within codec limits i raw value ≡ ok h
      → HeaderWithin codec limits raw h
  header_within-HeaderWithin limits i raw value h ne read e =
      let made : Header = record { key = raw.name; value = value } in
      let size : ℤ = pos (length raw.name + len value) in
      elim (Bool-cases (ltb_ℤ limits.max_header_bytes size)) [
        | inl over ↦ cc
        | inr fits ↦
            let same : ◌≡◌ {A = Try V3HeaderError Header} (ok made) (ok h) = cc in
            subst (HeaderWithin codec limits raw) (ok_inj same) (record {
              name_kept = refl;
              value_read = read;
              name_nonempty = ne;
              size_within = of_ltb_false limits.max_header_bytes size fits;
            })
      ]

  decode_v3_header-HeaderWithin :
      (limits : DecodeLimits) (i : ℕ) (raw : V3ProduceHeader) (h : Header)
      → decode_v3_header codec limits i raw ≡ ok h
      → HeaderWithin codec limits raw h
  unfolding decode_v3_header
  decode_v3_header-HeaderWithin limits i raw h e = elim (Bool-cases (is_empty raw.name)) [
    | inl empty ↦ cc
    | inr full ↦
        let decoded : (header_bytes codec i raw.value >>= header_within codec limits i raw) ≡ ok h =
          cc in
        let (b, eb, e') = >>=-eq-ok (header_bytes codec i raw.value) _ decoded in
        header_within-HeaderWithin limits i raw b h (nonempty raw.name full)
          (header_bytes-Value i raw.value b eb) e'
  ]

  decode_v3_header_list-Within :
      (limits : DecodeLimits) (i : ℕ) (raws : List V3ProduceHeader) (hs : List Header)
      → decode_v3_header_list codec limits i raws ≡ ok hs
      → All2 (HeaderWithin codec limits) raws hs
  unfolding decode_v3_header_list
  decode_v3_header_list-Within limits i [] hs e =
      subst (All2 (HeaderWithin codec limits) []) (ok_inj e) tt
  decode_v3_header_list-Within limits i (raw ∷ raws) hs e =
      let (h, eh, e') = >>=-eq-ok (decode_v3_header codec limits i raw) _ e in
      let (rest, er, e'') = >>=-eq-ok (decode_v3_header_list codec limits (suc i) raws) _ e' in
      subst (All2 (HeaderWithin codec limits) (raw ∷ raws)) (ok_inj e'') (
        decode_v3_header-HeaderWithin limits i raw h eh,
        decode_v3_header_list-Within limits (suc i) raws rest er,
      )

  decode_v3_headers-Within :
      (limits : DecodeLimits) (raws : List V3ProduceHeader) (hs : List Header)
      → decode_v3_headers codec limits raws ≡ ok hs
      → ((raws ≡ []) ⊎ (pos (length raws) ≤ℤ limits.max_headers))
        × All2 (HeaderWithin codec limits) raws hs
  unfolding decode_v3_headers
  decode_v3_headers-Within limits [] hs e =
      (inl refl, subst (All2 (HeaderWithin codec limits) []) (ok_inj e) tt)
  decode_v3_headers-Within limits (raw ∷ raws) hs e =
      let count : ℤ = pos (length (raw ∷ raws)) in
      elim (Bool-cases (ltb_ℤ limits.max_headers count)) [
        | inl over ↦ cc
        | inr fits ↦ (
          inr (of_ltb_false limits.max_headers count fits),
          decode_v3_header_list-Within limits 0 (raw ∷ raws) hs cc,
        )
      ]

-- An envelope is made only of a record whose partition is not negative and which is within the
-- limits. It has the id, and a record for the topic with that partition; key and value are none
-- where none came, and otherwise the bytes, and the envelope's metadata, that the encoder gives for
-- them; the headers are in order, each with its name and the bytes of its base64 value.
pub v3_envelope_from_record-Within :
    {X : Type 0} (codec : Codec) (languages : Languages X) (topic id : Bytes)
    (raw : V3ProduceRecord) (enc : Option (Option (Registry X))) (limits : DecodeLimits)
    (env : V3RecordEnvelope)
    → v3_envelope_from_record codec languages topic id raw enc limits ≡ ok env
    → Within codec languages enc topic id limits raw env
unfolding v3_envelope_from_record
v3_envelope_from_record-Within codec languages topic id raw enc limits env e =
    let (key, ek, e1) =
      >>=-eq-ok (map_err _ (encode_v3_data codec languages topic true raw.key enc)) _ e in
    let (value, ev, e2) =
      >>=-eq-ok (map_err _ (encode_v3_data codec languages topic false raw.value enc)) _ e1 in
    let (u3, k3, e3) =
      >>=-eq-ok (require (not (ltb_ℤ limits.max_key_bytes (pos (len key.0)))) _) _ e2 in
    let (u4, k4, e4) = >>=-eq-ok (require (not (is_negative raw.partition_id)) _) _ e3 in
    let (hs, eh, e5) =
      >>=-eq-ok (map_err headers_failed (decode_v3_headers codec limits raw.headers)) _ e4 in
    let built : Record = record {
      topic = topic;
      key = key.0;
      value = value.0;
      headers = hs;
      partition = raw.partition_id;
    } in
    let (u6, k6, e6) =
      >>=-eq-ok (require (not (ltb_ℤ limits.max_record_bytes (size_bytes built))) _) _ e5 in
    let (count, all) =
      decode_v3_headers-Within codec limits raw.headers hs (map_err-eq-ok headers_failed _ eh) in
    subst (Within codec languages enc topic id limits raw) (ok_inj e6) (record {
      id_is = refl;
      key_encoded =
          encode_v3_data-Encoded codec languages topic true raw.key enc key.0 key.1
            (map_err-eq-ok key_failed _ ek);
      value_encoded =
          encode_v3_data-Encoded codec languages topic false raw.value enc value.0 value.1
            (map_err-eq-ok value_failed _ ev);
      topic_is = refl;
      partition_is = refl;
      partition_allowed = is_false _ (require-eq-ok _ _ k4);
      key_within =
          of_ltb_false limits.max_key_bytes (pos (len key.0)) (is_false _ (require-eq-ok _ _ k3));
      size_within =
          of_ltb_false limits.max_record_bytes (size_bytes built)
            (is_false _ (require-eq-ok _ _ k6));
      header_count = count;
      headers_within = all;
    })
