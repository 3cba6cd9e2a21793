-- ===== src/Schema/Encoder/Encoded.antt =====
-- What Encode returns for data with a schema.
use kafka_rest_proxy_go.Common.{
  none, ap, ◌∙◌, subst, length, if-cases, sym, inl, inr, ◌⊎◌, ◌≡◌, ◌⊎◌, refl, sym, ap, ◌∙◌, subst,
  Bool, Option, some, [], ◌∷◌, length,
}
use kafka_rest_proxy_go.Common.Int.{pos}
use kafka_rest_proxy_go.Common.Try.{map_err-eq-ok, Try, ok, map_err, >>=-eq-ok}
use kafka_rest_proxy_go.Producer.{Bytes, len}
use kafka_rest_proxy_go.Schema.{RequestData, Metadata, Resolved}
use kafka_rest_proxy_go.Schema.Kinds.{avro, json_schema, protobuf}
use kafka_rest_proxy_go.Schema.Encoder.{
  data_type, encode, finished, Codec, is_missing, encode_typed, encode_schema_aware, with_registry,
  Languages, Registry, of_library, uint32, append_confluent_wire_format, kind_of, encode_by,
  request_of, encode_resolved,
}
use kafka_rest_proxy_go.Schema.Encoder.Wire.{read_wire, read_wire-append_confluent_wire_format}

abbrev pub IsSchemaType : Bytes → Type 0
IsSchemaType typ = (typ ≡ avro) ⊎ (typ ≡ json_schema) ⊎ (typ ≡ protobuf)

kind_of_twice : (kind typ : Bytes) → kind_of (kind_of kind typ) typ ≡ kind_of kind typ
kind_of_twice [] [] = refl
kind_of_twice [] (c ∷ typ) = refl
kind_of_twice (c ∷ kind) typ = refl

returned_parts :
    {E : Type 0} {a b : Bytes} {m meta : Metadata}
    → Path (Try E (Option Bytes × Metadata)) (ok (some a, m)) (ok (some b, meta))
    → (a ≡ b) × (m ≡ meta)
returned_parts h = (cc, cc)

-- The parts of what Encode returns at its end.
finished_parts :
    {E : Type 0} (typ : Bytes) (payload : Option Bytes) (m : Metadata) {b : Bytes} {meta : Metadata}
    → Path (Try E (Option Bytes × Metadata)) (ok (finished typ (payload, m))) (ok (some b, meta))
    → (payload ≡ some b)
      × (record m { type_name = kind_of m.type_name typ; size = pos (len payload) } ≡ meta)
finished_parts typ payload m h = (cc, cc)

module _ {X : Type 0} (languages : Languages X) (topic : Bytes) (key : Bool) (d : RequestData) where
  -- An encoding: what the registry answered, and its payload behind the header that a consumer reads.
  pub record Encoding (ask : Registry X) (typ : Bytes) (b : Bytes) (meta : Metadata) : Type 0 where
    pub resolved : Resolved
    pub payload : Bytes
    pub asked : ask (request_of languages topic key typ d) ≡ ok resolved
    pub kind : meta.type_name ≡ kind_of resolved.type_name typ
    pub encoded : encode_by languages meta.type_name resolved.schema d.payload ≡ ok payload
    pub wire : read_wire meta.type_name b ≡ some (uint32 resolved.schema_id, payload)
    pub schema_id : meta.schema_id ≡ some resolved.schema_id
    pub size : meta.size ≡ pos (length b)

  encode_resolved-Encoding :
      (ask : Registry X) (typ : Bytes) {b : Bytes} {meta : Metadata}
      → encode_resolved languages ask topic key typ d ≡ ok (some b, meta)
      → Encoding ask typ b meta
  unfolding encode_resolved
  encode_resolved-Encoding ask typ {b} {meta} e =
      let (res, er, e') =
        >>=-eq-ok (map_err of_library (ask (request_of languages topic key typ d))) _ e in
      let (p, ep, e'') =
        >>=-eq-ok (encode_by languages (kind_of res.type_name typ) res.schema d.payload) _ e' in
      let (w, same) = returned_parts e'' in
      let k : kind_of res.type_name typ ≡ meta.type_name = ap (λ m. m.type_name) same in
      record {
        resolved = res;
        payload = p;
        asked = map_err-eq-ok of_library (ask (request_of languages topic key typ d)) er;
        kind = sym k;
        encoded = subst (λ t. encode_by languages t res.schema d.payload ≡ ok p) k ep;
        wire =
            subst (λ x. read_wire meta.type_name x ≡ some (uint32 res.schema_id, p)) w
              (subst
                (λ t.
                  read_wire t
                    (append_confluent_wire_format [] res.schema_id (kind_of res.type_name typ) p)
                  ≡ some (uint32 res.schema_id, p))
                k
                (read_wire-append_confluent_wire_format res.schema_id (kind_of res.type_name typ)
                  p));
        schema_id = sym (ap (λ m. m.schema_id) same);
        size = sym (ap (λ m. m.size) same) ∙ ap (λ x. pos (length x)) w;
      }

  with_registry-Encoding :
      (registry : Option (Registry X)) (typ : Bytes) {b : Bytes} {meta : Metadata}
      → with_registry languages registry topic key typ d ≡ ok (some b, meta)
      → (ask : Registry X) × (registry ≡ some ask) × Encoding ask typ b meta
  unfolding with_registry
  with_registry-Encoding none typ e = cc
  with_registry-Encoding (some ask) typ e = (ask, refl, encode_resolved-Encoding ask typ e)

  encode_schema_aware-Encoding :
      (registry : Option (Registry X)) (typ : Bytes) {b : Bytes} {meta : Metadata}
      → encode_schema_aware languages registry topic key typ d ≡ ok (some b, meta)
      → (ask : Registry X) × (registry ≡ some ask) × Encoding ask typ b meta
  unfolding encode_schema_aware
  encode_schema_aware-Encoding registry typ e = elim (if-cases (is_missing d) e) [
    | inl (missing, h) ↦ cc
    | inr (there, h) ↦ with_registry-Encoding registry typ h
  ]

  finished-Encoding :
      (ask : Registry X) (typ : Bytes) {b : Bytes} {m meta : Metadata}
      → Encoding ask typ b m
      → record m { type_name = kind_of m.type_name typ; size = pos (length b) } ≡ meta
      → Encoding ask typ b meta
  finished-Encoding ask typ {b} {m} {meta} v same =
      let again : kind_of m.type_name typ ≡ m.type_name =
        ap (λ t. kind_of t typ) v.kind ∙ kind_of_twice v.resolved.type_name typ ∙ sym v.kind in
      let t : m.type_name ≡ meta.type_name = sym again ∙ ap (λ x. x.type_name) same in
      record {
        resolved = v.resolved;
        payload = v.payload;
        asked = v.asked;
        kind = sym t ∙ v.kind;
        encoded =
            subst (λ x. encode_by languages x v.resolved.schema d.payload ≡ ok v.payload) t
              v.encoded;
        wire = subst (λ x. read_wire x b ≡ some (uint32 v.resolved.schema_id, v.payload)) t v.wire;
        schema_id = sym (ap (λ x. x.schema_id) same) ∙ v.schema_id;
        size = sym (ap (λ x. x.size) same);
      }

encode_typed_schema :
    {X : Type 0} (codec : Codec) (languages : Languages X) (registry : Option (Registry X))
    (typ topic : Bytes) (key : Bool) (d : RequestData)
    → IsSchemaType typ
    → encode_typed codec languages registry typ topic key d
      ≡ encode_schema_aware languages registry topic key typ d
unfolding encode_typed
encode_typed_schema codec languages registry typ topic key d (inl e) = rw e refl
encode_typed_schema codec languages registry typ topic key d (inr (inl e)) = rw e refl
encode_typed_schema codec languages registry typ topic key d (inr (inr e)) = rw e refl

-- Data of a schema type that Encode turns into bytes: there is a registry, it answered the request
-- for the subject, id, version and text of the data; the bytes are, as a consumer reads them, the id
-- that it answered, as an unsigned 32-bit number, and the data as the encoder of the answered type
-- writes it under the answered schema; the metadata has that type, that id and the number of bytes.
pub encode-Encoding :
    {X : Type 0} (codec : Codec) (languages : Languages X) (registry : Option (Registry X))
    (topic : Bytes) (key : Bool) (d : RequestData) (b : Bytes) (meta : Metadata)
    → IsSchemaType (data_type d)
    → encode codec languages registry topic key (some d) ≡ ok (some b, meta)
    → (ask : Registry X) × (registry ≡ some ask)
      × Encoding languages topic key d ask (data_type d) b meta
unfolding encode
encode-Encoding codec languages registry topic key d b meta schema e =
    let ((payload, m), em, e') =
      >>=-eq-ok (encode_typed codec languages registry (data_type d) topic key d) _ e in
    let (same_payload, same_meta) = finished_parts (data_type d) payload m e' in
    let aware : encode_schema_aware languages registry topic key (data_type d) d ≡ ok (payload, m) =
      sym (encode_typed_schema codec languages registry (data_type d) topic key d schema) ∙ em in
    let (ask, is_ask, v) =
      encode_schema_aware-Encoding languages topic key d registry (data_type d)
        (aware ∙ ap (λ p. ok (p, m)) same_payload) in
    (
      ask,
      is_ask,
      finished-Encoding languages topic key d ask (data_type d) v (
          subst
            (λ p.
              record m { type_name = kind_of m.type_name (data_type d); size = pos (len p) } ≡ meta)
            same_payload same_meta),
    )
