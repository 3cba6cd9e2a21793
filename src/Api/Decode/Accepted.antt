-- ===== src/Api/Decode/Accepted.antt =====
-- What is known of the records of a request that was decoded.
use kafka_rest_proxy_go.Common.{
  map, sym, none, ap, ◌∙◌, ◌<◌, ℕ, ◌+◌, suc, ◌≡◌, ◌≢◌, refl, subst, ◌⊎◌, inl, inr, true, false,
  Option, List, [], ◌∷◌, length, arith, Bool-cases, All2,
}
use kafka_rest_proxy_go.Common.Int.{ℤ, pos, ◌≤ℤ◌, ltb_ℤ}
use kafka_rest_proxy_go.Common.Try.{
  ◌>>=◌, ok_inj, ok_pair, map_err-eq-ok, Try, ok, err, map_err, >>=-eq-ok,
}
use kafka_rest_proxy_go.Producer.{Bytes, Header, Record, len, size_bytes}
use kafka_rest_proxy_go.Api.Payload.{Codec, PayloadFormat, decode_nullable_value}
use kafka_rest_proxy_go.Api.Payload.Decoded.{PlainPayload, decode_nullable_value-Plain}
use kafka_rest_proxy_go.Api.Decode.Records.Parts.{Payload, decode_v2_nullable_value-Payload}
use kafka_rest_proxy_go.Api.Decode.{
  HeaderError, header_value, of_record, record_headers, record_value, with_defaults, record_key,
  RecordError, some, ProduceMetadata, RawProduceRequest, Encode, RawHeader, RawRecord, DecodeLimits,
}
use kafka_rest_proxy_go.Api.Decode.Records.{
  first_id, next_ids, header_value_of, is_empty, decode_request, no_ids, decode_list,
  decode_v2_nullable_value, part_error, decode_records, decode_record, decode_produce_request,
  decode_header, decode_header_list, decode_headers, chosen, partition_refused, check_record,
}

-- A header as it came and as it goes out.
pub record HeaderAccepted (codec : Codec) (format : PayloadFormat) (limits : DecodeLimits)
    (raw : RawHeader) (h : Header) : Type 0 where
  pub key_kept : h.key ≡ raw.key
  pub key_nonempty : raw.key ≢ []
  pub value_present : raw.value.present ≡ true
  pub value_read : PlainPayload codec format raw.value h.value
  pub size_within : pos (length h.key + len h.value) ≤ℤ limits.max_header_bytes

module _ {X : Type 0} (codec : Codec) (enc : Option (Encode X)) (topic : Bytes)
    (format : PayloadFormat) (limits : DecodeLimits) (path : Option ℤ)
    (req : RawProduceRequest) where
  -- A record as it came, and as it goes out with the schema ids of its key and value.
  pub record Accepted (raw : RawRecord) (out : Record × ProduceMetadata) : Type 0 where
    pub topic_is : out.0.topic ≡ topic
    pub key_read :
        Payload codec enc topic true raw.key format req.key_schema_id req.key_schema out.0.key
          out.1.key_schema_id
    pub value_read :
        Payload codec enc topic false raw.value format req.value_schema_id req.value_schema
          out.0.value out.1.value_schema_id
    pub partition_is : out.0.partition ≡ chosen path raw.partition
    pub partition_allowed : partition_refused path raw.partition ≡ false
    pub key_within : pos (len out.0.key) ≤ℤ limits.max_key_bytes
    pub size_within : size_bytes out.0 ≤ℤ limits.max_record_bytes
    pub header_count : (raw.headers ≡ []) ⊎ (pos (length raw.headers) ≤ℤ limits.max_headers)
    pub headers_accepted : All2 (HeaderAccepted codec format limits) raw.headers out.0.headers

-- The first of some ids that is there.
abbrev pub first_some : List (Option ℤ) → Option ℤ
first_some [] = none
first_some (none ∷ ids) = first_some ids
first_some (some id ∷ ids) = some id

-- What comes out of the records of a request: the records in order, and the first schema id of a key
-- and of a value.
abbrev pub ComesOut : List (Record × ProduceMetadata) → List Record → ProduceMetadata → Type 0
ComesOut outs rs meta =
    (map (λ o. o.0) outs ≡ rs)
    × (meta.key_schema_id ≡ first_some (map (λ o. o.1.key_schema_id) outs))
    × (meta.value_schema_id ≡ first_some (map (λ o. o.1.value_schema_id) outs))

first_some-first_id :
    (a b : Option ℤ) (ids : List (Option ℤ))
    → first_some (first_id a b ∷ ids) ≡ first_some (a ∷ b ∷ ids)
first_some-first_id none b ids = refl
first_some-first_id (some a) b ids = refl

first_some-singleton : (a : Option ℤ) → a ≡ first_some (a ∷ [])
first_some-singleton none = refl
first_some-singleton (some a) = refl

full_ne : (s : Bytes) → is_empty s ≡ false → s ≢ []
full_ne [] e = cc
full_ne (c ∷ s) e = λ x. cc

header_value_of-Accepted :
    (codec : Codec) (format : PayloadFormat) (limits : DecodeLimits) (i : ℕ) (raw : RawHeader)
    (b : Option Bytes) (h : Header)
    → raw.key ≢ []
    → raw.value.present ≡ true
    → PlainPayload codec format raw.value b
    → header_value_of limits i raw b ≡ ok h
    → HeaderAccepted codec format limits raw h
unfolding header_value_of
header_value_of-Accepted codec format limits i raw b h ne there read e =
    let made : Header = record { key = raw.key; value = b } in
    elim (Bool-cases (ltb_ℤ limits.max_header_bytes (pos (length raw.key + len b)))) [
      | inl over ↦ cc
      | inr fits ↦
          let same : ◌≡◌ {A = Try HeaderError Header} (ok made) (ok h) = cc in
          subst (HeaderAccepted codec format limits raw) (ok_inj same) (record {
            key_kept = refl;
            key_nonempty = ne;
            value_present = there;
            value_read = read;
            size_within = ground arith;
          })
    ]

decode_header-Accepted :
    (codec : Codec) (format : PayloadFormat) (limits : DecodeLimits) (i : ℕ) (raw : RawHeader)
    (h : Header)
    → decode_header codec format limits i raw ≡ ok h
    → HeaderAccepted codec format limits raw h
unfolding decode_header
decode_header-Accepted codec format limits i raw h e = elim (Bool-cases (is_empty raw.key)) [
  | inl empty ↦ cc
  | inr full ↦ elim (Bool-cases raw.value.present) [
    | inr absent ↦ cc
    | inl there ↦
        let chain : (map_err (header_value i) (decode_nullable_value codec raw.value format)
              >>= header_value_of limits i raw)
            ≡ ok h =
          cc in
        let (b, eb, e') =
          >>=-eq-ok (map_err (header_value i) (decode_nullable_value codec raw.value format)) _
            chain in
        let read =
          decode_nullable_value-Plain codec raw.value format b
            (map_err-eq-ok (header_value i) _ eb) in
        header_value_of-Accepted codec format limits i raw b h (full_ne raw.key full) there read e'
  ]
]

decode_header_list-Accepted :
    (codec : Codec) (format : PayloadFormat) (limits : DecodeLimits) (i : ℕ) (raws : List RawHeader)
    (hs : List Header)
    → decode_header_list codec format limits i raws ≡ ok hs
    → All2 (HeaderAccepted codec format limits) raws hs
unfolding decode_header_list
decode_header_list-Accepted codec format limits i [] hs e =
    subst (All2 (HeaderAccepted codec format limits) []) (let p : [] ≡ hs = cc in p) tt
decode_header_list-Accepted codec format limits i (raw ∷ raws) hs e =
    let (h, eh, e') = >>=-eq-ok (decode_header codec format limits i raw) _ e in
    let (rest, er, e'') = >>=-eq-ok (decode_header_list codec format limits (suc i) raws) _ e' in
    let same : h ∷ rest ≡ hs = cc in
    subst (All2 (HeaderAccepted codec format limits) (raw ∷ raws)) same (
      decode_header-Accepted codec format limits i raw h eh,
      decode_header_list-Accepted codec format limits (suc i) raws rest er,
    )

decode_headers-Accepted :
    (codec : Codec) (format : PayloadFormat) (limits : DecodeLimits) (raws : List RawHeader)
    (hs : List Header)
    → decode_headers codec format limits raws ≡ ok hs
    → ((raws ≡ []) ⊎ (pos (length raws) ≤ℤ limits.max_headers))
      × All2 (HeaderAccepted codec format limits) raws hs
unfolding decode_headers
decode_headers-Accepted codec format limits [] hs e = (
  inl refl,
  decode_header_list-Accepted codec format limits 0 [] hs (unfold decode_header_list in e),
)
decode_headers-Accepted codec format limits (raw ∷ raws) hs e =
    elim (Bool-cases (ltb_ℤ limits.max_headers (pos (length (raw ∷ raws))))) [
      | inl many ↦ let x : err _ ≡ ok hs = rw many at e in cc
      | inr few ↦ (
        inr (ground arith),
        decode_header_list-Accepted codec format limits 0 (raw ∷ raws) hs (rw few at e),
      )
    ]

check_record_inv :
    {X : Type 0} (limits : DecodeLimits) (path : Option ℤ) (i : ℕ) (own : Option ℤ) (r r' : Record)
    → check_record {X = X} limits path i own r ≡ ok r'
    → (r ≡ r')
      × (pos (len r.key) ≤ℤ limits.max_key_bytes)
      × (partition_refused path own ≡ false)
      × (size_bytes r ≤ℤ limits.max_record_bytes)
unfolding check_record
check_record_inv limits path i own r r' e = ground arith

module _ {X : Type 0} (codec : Codec) (enc : Option (Encode X)) (topic : Bytes)
    (format : PayloadFormat) (limits : DecodeLimits) (path : Option ℤ)
    (req : RawProduceRequest) where
  decode_record-Accepted :
      (i : ℕ) (raw : RawRecord) (r : Record) (ids : ProduceMetadata)
      → decode_record codec enc topic format limits path req i raw ≡ ok (r, ids)
      → Accepted codec enc topic format limits path req raw (r, ids)
  unfolding decode_record
  decode_record-Accepted i raw r ids e =
      let (key, ek, e1) =
        >>=-eq-ok
          (map_err (part_error record_key i) (
            decode_v2_nullable_value codec enc topic true raw.key format req.key_schema_id
              req.key_schema))
          _ e in
      let (value, ev, e2) =
        >>=-eq-ok
          (map_err (part_error record_value i) (
            decode_v2_nullable_value codec enc topic false raw.value format req.value_schema_id
              req.value_schema))
          _ e1 in
      let (headers, eh, e3) =
        >>=-eq-ok (map_err (record_headers i) (decode_headers codec format limits raw.headers)) _
          e2 in
      let (r', ec, e4) =
        >>=-eq-ok (check_record limits path i raw.partition (built key.0 value.0 headers)) _ e3 in
      let (same, key_ok, part_ok, size_ok) =
        check_record_inv limits path i raw.partition (built key.0 value.0 headers) r' ec in
      let (count, each) =
        decode_headers-Accepted codec format limits raw.headers headers
          (map_err-eq-ok (record_headers i) _ eh) in
      let made : Record × ProduceMetadata = (
        built key.0 value.0 headers,
        record { key_schema_id = key.1; value_schema_id = value.1 },
      ) in
      let e5 : ◌≡◌ {A = Try (RecordError X) (Record × ProduceMetadata)} (ok made) (ok (r, ids)) =
        ap (λ x. ok (x, record { key_schema_id = key.1; value_schema_id = value.1 })) same ∙ e4 in
      subst (Accepted codec enc topic format limits path req raw) (ok_inj e5) (record {
        topic_is = refl;
        key_read =
            decode_v2_nullable_value-Payload codec enc topic true raw.key format req.key_schema_id
              req.key_schema key (map_err-eq-ok (part_error record_key i) _ ek);
        value_read =
            decode_v2_nullable_value-Payload codec enc topic false raw.value format
              req.value_schema_id req.value_schema value
              (map_err-eq-ok (part_error record_value i) _ ev);
        partition_is = refl;
        partition_allowed = part_ok;
        key_within = key_ok;
        size_within = size_ok;
        header_count = count;
        headers_accepted = each;
      })
    where
      built : Option Bytes → Option Bytes → List Header → Record
      built key value headers = record {
        topic = topic;
        key = key;
        value = value;
        headers = headers;
        partition = chosen path raw.partition;
      }

  decode_records-Accepted :
      (i : ℕ) (meta : ProduceMetadata) (raws : List RawRecord) (rs : List Record)
      (meta' : ProduceMetadata)
      → decode_records codec enc topic format limits path req i meta raws ≡ ok (rs, meta')
      → (outs : List (Record × ProduceMetadata)) × All2
          (Accepted codec enc topic format limits path req)
          raws
          outs
        × (map (λ o. o.0) outs ≡ rs)
        × (meta'.key_schema_id
            ≡ first_some (meta.key_schema_id ∷ map (λ o. o.1.key_schema_id) outs))
        × (meta'.value_schema_id
            ≡ first_some (meta.value_schema_id ∷ map (λ o. o.1.value_schema_id) outs))
  unfolding decode_records
  decode_records-Accepted i meta [] rs meta' e =
      let (none_out, same) = ok_pair e in
      (
        [],
        tt,
        none_out,
        ap (λ m. m.key_schema_id) (sym same) ∙ first_some-singleton meta.key_schema_id,
        ap (λ m. m.value_schema_id) (sym same) ∙ first_some-singleton meta.value_schema_id,
      )
  decode_records-Accepted i meta (raw ∷ raws) rs meta' e =
      let (first, ef, e1) =
        >>=-eq-ok (decode_record codec enc topic format limits path req i raw) _ e in
      let (rest, er, e2) =
        >>=-eq-ok
          (decode_records codec enc topic format limits path req (suc i) (next_ids meta first.1)
            raws)
          _ e1 in
      let (same_records, same_meta) = ok_pair e2 in
      let (outs, all, records, keys, values) =
        decode_records-Accepted (suc i) (next_ids meta first.1) raws rest.0 rest.1 er in
      (
        first ∷ outs,
        (decode_record-Accepted i raw first.0 first.1 ef, all),
        ap (λ xs. first.0 ∷ xs) records ∙ same_records,
        ap (λ m. m.key_schema_id) (sym same_meta)
            ∙ keys
            ∙ first_some-first_id meta.key_schema_id first.1.key_schema_id
                (map (λ o. o.1.key_schema_id) outs),
        ap (λ m. m.value_schema_id) (sym same_meta)
            ∙ values
            ∙ first_some-first_id meta.value_schema_id first.1.value_schema_id
                (map (λ o. o.1.value_schema_id) outs),
      )

module _ {X : Type 0} (codec : Codec) (unmarshal : Bytes → Option RawProduceRequest)
    (enc : Option (Encode X)) (topic body : Bytes) (format : PayloadFormat) (limits : DecodeLimits)
    (path : Option ℤ) where
  -- A body, the records and the metadata that come of it.
  pub record Decoded (rs : List Record) (meta : ProduceMetadata) : Type 0 where
    pub req : RawProduceRequest
    pub raws : List RawRecord
    pub outs : List (Record × ProduceMetadata)
    pub read : unmarshal body ≡ some req
    pub has_records : req.records ≡ some raws
    pub nonempty : 0 < length raws
    pub count_within : pos (length raws) ≤ℤ (with_defaults limits).max_records
    pub accepted : All2 (Accepted codec enc topic format (with_defaults limits) path req) raws outs
    pub come_out : ComesOut outs rs meta

  by_records :
      (req : RawProduceRequest) (o : Option (List RawRecord)) (rs : List Record)
      (meta : ProduceMetadata)
      → unmarshal body ≡ some req
      → req.records ≡ o
      → decode_list codec unmarshal enc topic format (with_defaults limits) path req o
        ≡ ok (rs, meta)
      → Decoded rs meta
  unfolding decode_list
  by_records req none rs meta eb eo e = cc
  by_records req (some []) rs meta eb eo e = cc
  by_records req (some (raw ∷ raws)) rs meta eb eo e =
      let limit = (with_defaults limits).max_records in
      elim (Bool-cases (ltb_ℤ limit (pos (length (raw ∷ raws))))) [
        | inl many ↦ cc
        | inr few ↦
            let made : map_err of_record (
                  decode_records codec enc topic format (with_defaults limits) path req 0 no_ids
                    (raw ∷ raws))
                ≡ ok (rs, meta) =
              cc in
            let (outs, all, records, keys, values) =
              decode_records-Accepted codec enc topic format (with_defaults limits) path req 0
                no_ids (raw ∷ raws) rs meta (map_err-eq-ok of_record _ made) in
            record {
              req = req;
              raws = raw ∷ raws;
              outs = outs;
              read = eb;
              has_records = eo;
              nonempty = omega arith;
              count_within = ground arith;
              accepted = all;
              come_out = (records, keys, values);
            }
      ]

  by_body :
      (o : Option RawProduceRequest) (rs : List Record) (meta : ProduceMetadata)
      → unmarshal body ≡ o
      → decode_request codec unmarshal enc topic format (with_defaults limits) path o
        ≡ ok (rs, meta)
      → Decoded rs meta
  unfolding decode_request
  by_body none rs meta eb e = cc
  by_body (some req) rs meta eb e = by_records req req.records rs meta eb refl e

  -- A body that is decoded is a request with at least one record and no more than the limit; its records
  -- come out in order, each for the topic, with the partition of the path or else its own, which is not
  -- negative, and with key, headers and size within the limits, defaults put in for limits that are not
  -- positive. The key and the value are null where they are missing or null, the bytes of the base64
  -- text in the binary format, the JSON text without white space, or what the schema encoder makes of
  -- them, and so is the value of each header, which keeps its name, but never encoded with a schema; the
  -- two schema ids are the first that the encoder answered for a key and for a value.
  pub decode-Accepted :
      (rs : List Record) (meta : ProduceMetadata)
      → decode_produce_request codec unmarshal enc topic body format limits path ≡ ok (rs, meta)
      → Decoded rs meta
  unfolding decode_produce_request
  decode-Accepted rs meta e = by_body (unmarshal body) rs meta refl e
