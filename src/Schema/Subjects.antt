-- ===== src/Schema/Subjects.antt =====
-- resolveSubject and schemaRecordName of internal/schema/encoder.go: the subject under which a schema
-- is looked up.
use kafka_rest_proxy_go.Common.{
  ◌≡◌, ◌≢◌, Bool, true, false, not, Option, none, some, [], ◌∷◌, ◌++◌, append_assoc, if◌then◌else◌,
  inl, inr, Bool-cases,
}
use kafka_rest_proxy_go.Producer.{Bytes}
use kafka_rest_proxy_go.Go.Strings.{bytes, eq_bytes, eq_bytes_iff, trim_space, to_upper}
use kafka_rest_proxy_go.Schema.{RequestData}
use kafka_rest_proxy_go.Schema.Kinds.{avro, json_schema, protobuf, normalize_schema_type}

-- What json.Unmarshal reads of an Avro schema (name space and name) and of a JSON schema (title), and
-- the submatch of the regular expression for the name of a message.
pub record SchemaNames : Type 0 where
  pub avro_names : Bytes → Bytes × Bytes
  pub json_title : Bytes → Bytes
  pub message_name : Bytes → Option Bytes

abbrev name_in : Bytes × Bytes → Bytes
name_in (namespace, []) = []
name_in ([], c ∷ name) = c ∷ name
name_in (d ∷ namespace, c ∷ name) = (d ∷ namespace) ++ bytes "." ++ c ∷ name

abbrev or_empty : Option Bytes → Bytes
or_empty none = []
or_empty (some name) = name

abbrev pub suffix : Bool → Bytes
suffix true = bytes "key"
suffix false = bytes "value"

-- The subject under a strategy, for the name of the record in the schema.
pub subject_by : Bytes → Bytes → Bool → Bytes → Bytes
unfolding eq_bytes
subject_by strategy topic key [] = topic ++ bytes "-" ++ suffix key
subject_by strategy topic key (c ∷ name) =
    if eq_bytes strategy (bytes "RECORD_NAME")
    then c ∷ name
    else if eq_bytes strategy (bytes "TOPIC_RECORD_NAME")
    then topic ++ bytes "-" ++ c ∷ name
    else topic ++ bytes "-" ++ suffix key

unfoldable pub schema_record_name : SchemaNames → Bytes → Bytes → Bytes
unfolding eq_bytes normalize_schema_type
schema_record_name names typ text =
    let kind = normalize_schema_type typ in
    if eq_bytes kind avro
    then name_in (names.avro_names text)
    else if eq_bytes kind json_schema
    then names.json_title text
    else if eq_bytes kind protobuf
    then or_empty (names.message_name text)
    else []

unfoldable pub resolve_subject : SchemaNames → Bytes → Bool → RequestData → Bytes → Bytes
unfolding eq_bytes trim_space to_upper subject_by schema_record_name
resolve_subject names topic key data_ typ =
    if not (eq_bytes (trim_space data_.subject) [])
    then trim_space data_.subject
    else subject_by (to_upper (trim_space data_.subject_name_strategy)) topic key
        (schema_record_name names typ data_.schema)

append-ne-nil : (topic rest : Bytes) → rest ≢ [] → topic ++ rest ≢ []
append-ne-nil [] rest ne = ne
append-ne-nil (c ∷ topic) rest ne = λ e. cc

dash-ne-nil : (topic rest : Bytes) → topic ++ bytes "-" ++ rest ≢ []
dash-ne-nil topic rest =
    rw (append_assoc topic (bytes "-") rest) (append-ne-nil topic (bytes "-" ++ rest) (λ e. cc))

subject_by-ne-nil :
    (strategy topic : Bytes) (key : Bool) (name : Bytes) → subject_by strategy topic key name ≢ []
unfolding subject_by
subject_by-ne-nil strategy topic key [] = dash-ne-nil topic (suffix key)
subject_by-ne-nil strategy topic key (c ∷ name) =
    elim (Bool-cases (eq_bytes strategy (bytes "RECORD_NAME"))) [
      | inl by_record ↦ rw by_record (λ e. cc)
      | inr other ↦ elim (Bool-cases (eq_bytes strategy (bytes "TOPIC_RECORD_NAME"))) [
        | inl by_both ↦ rw (other, by_both) (dash-ne-nil topic (c ∷ name))
        | inr neither ↦ rw (other, neither) (dash-ne-nil topic (suffix key))
      ]
    ]

-- The subject that the registry is asked for is never empty, whatever the envelope and the schema say.
pub resolve_subject-ne-nil :
    (names : SchemaNames) (topic : Bytes) (key : Bool) (d : RequestData) (typ : Bytes)
    → resolve_subject names topic key d typ ≢ []
unfolding resolve_subject
resolve_subject-ne-nil names topic key d typ =
    elim (Bool-cases (eq_bytes (trim_space d.subject) [])) [
      | inl none_given ↦ rw none_given (
          subject_by-ne-nil (to_upper (trim_space d.subject_name_strategy)) topic key
            (schema_record_name names typ d.schema))
      | inr given ↦ rw given (λ e.
          let x : eq_bytes (trim_space d.subject) [] ≡ true =
            (eq_bytes_iff (trim_space d.subject) []).1 e in
          cc)
    ]
