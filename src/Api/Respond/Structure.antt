-- ===== src/Api/Respond/Structure.antt =====
-- What a v2 response says, as the structures produceResponse and produceOffset of
-- internal/api/types.go, and how JSON writes them.
use kafka_rest_proxy_go.Common.{
  All, ℕ, suc, ◌+◌, ◌≡◌, refl, sym, ap, ◌∙◌, Bool, true, not, Option, none, some, List, [], ◌∷◌,
  ◌++◌, map, append_assoc, append-nil, if◌then◌else◌, ltb, arith, Bool-cases, inl, inr,
}
use kafka_rest_proxy_go.Common.Int.{ℤ}
use kafka_rest_proxy_go.Producer.{Bytes, Result}
use kafka_rest_proxy_go.Go.Strings.{bytes}
use kafka_rest_proxy_go.Go.Number.{append_int}
use kafka_rest_proxy_go.Api.Decode.{ProduceMetadata}
use kafka_rest_proxy_go.Api.Respond.{
  is_some, count_result_status, Bool, count_from, ltb, Texts, value_or, result_failed, error_text,
  confluent_kafka_record_error_code, append_nullable_int, append_failure, append_success,
  append_result, append_results, append_produce_response,
}

pub record ProduceOffset : Type 0 where
  pub partition : Option ℤ
  pub offset : Option ℤ
  pub error_code : Option ℤ
  pub error : Option Bytes

pub record ProduceResponse : Type 0 where
  pub offsets : List ProduceOffset
  pub key_schema_id : Option ℤ
  pub value_schema_id : Option ℤ

-- What a response says of one record: where it is, or what went wrong.
abbrev pub offset_of : {E : Type 0} → Texts E → Result E → ProduceOffset
offset_of texts r =
    if result_failed r
    then record {
      partition = none;
      offset = none;
      error_code = some (value_or r.error_code confluent_kafka_record_error_code);
      error = some (error_text texts r.err);
    }
    else record {
      partition = some r.partition;
      offset = some r.offset;
      error_code = none;
      error = none;
    }

abbrev pub response_of :
    {E : Type 0} → Texts E → List (Result E) → ProduceMetadata → ProduceResponse
response_of texts results meta = record {
  offsets = map (offset_of texts) results;
  key_schema_id = meta.key_schema_id;
  value_schema_id = meta.value_schema_id;
}

-- JSON texts of an array and an object, from those of their parts.
abbrev pub commas : List Bytes → Bytes
commas [] = []
commas (s ∷ ss) = b',' ∷ s ++ commas ss

abbrev pub separated : List Bytes → Bytes
separated [] = []
separated (s ∷ ss) = s ++ commas ss

abbrev pub json_array : List Bytes → Bytes
json_array ss = b'[' ∷ separated ss ++ bytes "]"

-- A member with a name that needs no escape.
abbrev pub member : Bytes → Bytes → Bytes
member name value = b'"' ∷ name ++ bytes "\":" ++ value

abbrev pub json_object : List Bytes → Bytes
json_object members = b'{' ∷ separated members ++ bytes "}"

abbrev pub json_int : Option ℤ → Bytes
json_int n = append_nullable_int [] n

module _ (quote : Bytes → Bytes) where
  abbrev pub json_text : Option Bytes → Bytes
  json_text none = bytes "null"
  json_text (some s) = quote s

  abbrev pub json_offset : ProduceOffset → Bytes
  json_offset o = json_object (
      member (bytes "partition") (json_int o.partition)
      ∷ member (bytes "offset") (json_int o.offset)
      ∷ member (bytes "error_code") (json_int o.error_code)
      ∷ member (bytes "error") (json_text o.error)
      ∷ [])

  abbrev pub json_response : ProduceResponse → Bytes
  json_response r = json_object (
      member (bytes "offsets") (json_array (map json_offset r.offsets))
      ∷ member (bytes "key_schema_id") (json_int r.key_schema_id)
      ∷ member (bytes "value_schema_id") (json_int r.value_schema_id)
      ∷ [])

append_nullable_int_exact :
    (dst : Bytes) (o : Option ℤ) → append_nullable_int dst o ≡ dst ++ json_int o
unfolding append_nullable_int append_int
append_nullable_int_exact dst none = refl
append_nullable_int_exact dst (some n) = refl

module _ {E : Type 0} (texts : Texts E) where
  abbrev json_result : Result E → Bytes
  json_result r = json_offset texts.quote (offset_of texts r)

  append_result_exact :
      (dst : Bytes) (r : Result E) → append_result texts dst r ≡ dst ++ json_result r
  unfolding append_result append_failure append_success append_nullable_int append_int
  append_result_exact dst r = elim (Bool-cases (result_failed r)) [
    | inl failed ↦ rw failed (simp append_assoc)
    | inr placed ↦ rw placed (simp append_assoc)
  ]

  append_results_more :
      (i : ℕ) (dst : Bytes) (rs : List (Result E))
      → append_results texts (suc i) dst rs ≡ dst ++ commas (map json_result rs)
  unfolding append_results
  append_results_more i dst [] = sym (append-nil dst)
  append_results_more i dst (r ∷ rs) =
      let later : ltb 0 (suc i) ≡ true = ground arith in
      rw later (
        append_results_more (suc i) (append_result texts (dst ++ bytes ",") r) rs
        ∙ (rw (append_result_exact (dst ++ bytes ",") r) (simp append_assoc)))

  append_results_exact :
      (dst : Bytes) (rs : List (Result E))
      → append_results texts 0 dst rs ≡ dst ++ separated (map json_result rs)
  unfolding append_results
  append_results_exact dst [] = sym (append-nil dst)
  append_results_exact dst (r ∷ rs) =
      append_results_more 0 (append_result texts dst r) rs
      ∙ (rw (append_result_exact dst r) (simp append_assoc))

  map_json :
      (rs : List (Result E))
      → map (json_offset texts.quote) (map (offset_of texts) rs) ≡ map json_result rs
  map_json [] = refl
  map_json (r ∷ rs) = ap (◌∷◌ (json_result r)) (map_json rs)

  -- The appended bytes, with the texts quoted as the code quotes them.
  pub append_produce_response_quoted :
      (dst : Bytes) (results : List (Result E)) (meta : ProduceMetadata)
      → append_produce_response texts dst results meta
        ≡ dst ++ json_response texts.quote (response_of texts results meta) ++ 10 ∷ []
  unfolding append_produce_response
  append_produce_response_quoted dst results meta =
      rw
        (
          append_nullable_int_exact _ meta.value_schema_id,
          append_nullable_int_exact _ meta.key_schema_id,
          append_results_exact (dst ++ bytes "{\"offsets\":[") results,
          map_json results,
        )
        (simp append_assoc)

  -- The error texts of the failed results, on which two ways to quote agree.
  abbrev pub QuoteAlike : (Bytes → Bytes) → List (Result E) → Type 0
  QuoteAlike quote = All (λ r.
      result_failed r ≡ true
      → texts.quote (error_text texts r.err) ≡ quote (error_text texts r.err))

  json_offset_alike :
      (quote : Bytes → Bytes) (r : Result E)
      → (result_failed r ≡ true
          → texts.quote (error_text texts r.err) ≡ quote (error_text texts r.err))
      → json_offset texts.quote (offset_of texts r) ≡ json_offset quote (offset_of texts r)
  json_offset_alike quote r h = elim (Bool-cases (result_failed r)) [
    | inl failed ↦ let same = h failed in rw failed (rw same refl)
    | inr placed ↦ rw placed refl
  ]

  map_json_alike :
      (quote : Bytes → Bytes) (rs : List (Result E))
      → QuoteAlike quote rs
      → map (json_offset texts.quote) (map (offset_of texts) rs)
        ≡ map (json_offset quote) (map (offset_of texts) rs)
  map_json_alike quote [] h = refl
  map_json_alike quote (r ∷ rs) (h, hs) =
      rw (json_offset_alike quote r h, map_json_alike quote rs hs) refl

  -- Where the quoting of the code agrees with that of JSON on the error texts of the failed results, the
  -- bytes appended piece by piece are those of the JSON object that has one offset for each result, in
  -- order, and the two schema ids, with a newline at the end, behind what the buffer held.
  pub append_produce_response_exact :
      (json_quote : Bytes → Bytes) (dst : Bytes) (results : List (Result E))
      (meta : ProduceMetadata)
      → QuoteAlike json_quote results
      → append_produce_response texts dst results meta
        ≡ dst ++ json_response json_quote (response_of texts results meta) ++ 10 ∷ []
  append_produce_response_exact json_quote dst results meta h =
      append_produce_response_quoted dst results meta
      ∙ ap
          (λ offsets.
            dst
            ++ json_object (
                member (bytes "offsets") (json_array offsets)
                ∷ member (bytes "key_schema_id") (json_int meta.key_schema_id)
                ∷ member (bytes "value_schema_id") (json_int meta.value_schema_id)
                ∷ [])
            ++ 10 ∷ [])
          (map_json_alike json_quote results h)

abbrev pub is_error : ProduceOffset → Bool
is_error o = is_some o.error_code

abbrev pub count {ℓ} : {A : Type ℓ} → (A → Bool) → List A → ℕ
count p [] = 0
count p (x ∷ xs) = if p x then suc (count p xs) else count p xs

count_from_exact :
    {E : Type 0} (texts : Texts E) (s f : ℕ) (rs : List (Result E))
    → count_from (s, f) rs ≡ (
      s + count (λ o. not (is_error o)) (map (offset_of texts) rs),
      f + count is_error (map (offset_of texts) rs),
    )
count_from_exact texts s f [] = ground arith
count_from_exact texts s f (r ∷ rs) = elim (Bool-cases (result_failed r)) [
  | inl failed ↦ rw failed (ground (arith, count_from_exact texts s (suc f) rs))
  | inr placed ↦ rw placed (ground (arith, count_from_exact texts (suc s) f rs))
]

-- The successes and failures that are counted are the offsets of the response without and with an
-- error code.
pub count_result_status_exact :
    {E : Type 0} (texts : Texts E) (results : List (Result E)) (meta : ProduceMetadata)
    → let offsets = (response_of texts results meta).offsets in
      count_result_status results ≡ (count (λ o. not (is_error o)) offsets, count is_error offsets)
unfolding count_result_status
count_result_status_exact texts results meta = ground (arith, count_from_exact texts 0 0 results)
