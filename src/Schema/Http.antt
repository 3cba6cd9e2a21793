-- ===== src/Schema/Http.antt =====
-- HTTPRegistry of internal/schema/registry.go: the requests that it makes, and what it answers. The
-- client of net/http, encoding/json and path.Join are parameters.
pub mod Resolves
mod Tests
use kafka_rest_proxy_go.Common.{
  ℕ, ◌++◌, Bool, true, false, not, ◌&&◌, ◌||◌, Option, none, some, List, [], ◌∷◌, ltb,
  if◌then◌else◌,
}
use kafka_rest_proxy_go.Common.Int.{ℤ}
use kafka_rest_proxy_go.Common.Try.{Try, ok, err, ◌>>=◌, map_err}
use kafka_rest_proxy_go.Producer.{Bytes}
use kafka_rest_proxy_go.Go.Strings.{bytes, eq_bytes, trim_space}
use kafka_rest_proxy_go.Go.Number.{itoa}
use kafka_rest_proxy_go.Go.Url.{path_escape, escape_path}
use kafka_rest_proxy_go.Schema.{ResolveRequest, Resolved, is_some}
use kafka_rest_proxy_go.Schema.Kinds.{
  normalize_schema_type, normalize_registry_schema_type, registry_schema_type,
}
use kafka_rest_proxy_go.Schema.Encoder.{first_non_empty}

pub data Method : Type 0 where
  get post : Method

-- A request, with its path as the URL spells it, the members of its JSON body and its user and password.
pub record HttpRequest : Type 0 where
  pub method : Method
  pub path : Bytes
  pub body : Option (List (Bytes × Bytes))
  pub auth : Option (Bytes × Bytes)

pub record HttpResponse : Type 0 where
  pub status_code : ℕ
  pub status : Bytes
  pub body : Bytes

-- What is read of the answer to a version that was asked for.
pub record Answer : Type 0 where
  pub subject : Bytes
  pub id : ℤ
  pub version : ℤ
  pub schema : Bytes
  pub schema_type : Bytes

-- What is read of the answer to an id that was asked for.
pub record SchemaAnswer : Type 0 where
  pub schema : Bytes
  pub schema_type : Bytes

-- The client, the decoders into the three structs of answers, that of the message of an error, and
-- path.Join.
pub record Client (X : Type 0) : Type 0 where
  pub exchange : HttpRequest → Try X HttpResponse
  pub decode_id : Bytes → Try X ℤ
  pub decode_version : Bytes → Try X Answer
  pub decode_schema : Bytes → Try X SchemaAnswer
  pub message : Bytes → Bytes
  pub join : Bytes → Bytes → Bytes

pub record HttpRegistry : Type 0 where
  pub base_path : Bytes
  pub username : Bytes
  pub password : Bytes

pub data RegistryError (X : Type 0) : Type 0 where
  not_configured subject_required : RegistryError X
  of_client : X → RegistryError X
  rejected : Method → Bytes → Bytes → RegistryError X

abbrev pub is_empty : Bytes → Bool
is_empty [] = true
is_empty (c ∷ s) = false

module _ {X : Type 0} (client : Client X) where
  -- The request of doJSON: u.String() escapes the path, in which a subject is escaped already.
  unfoldable pub request_to :
      HttpRegistry → Method → Bytes → Option (List (Bytes × Bytes)) → HttpRequest
  unfolding escape_path
  request_to r method suffix body = record {
    method = method;
    path = escape_path (client.join r.base_path suffix);
    body = body;
    auth =
        if is_empty r.username && is_empty r.password then none else some (r.username, r.password);
  }

  abbrev pub message_of : HttpResponse → Bytes
  message_of response =
      if is_empty (client.message response.body)
      then response.status
      else client.message response.body

  unfoldable pub read_response :
      {A : Type 0} → (Bytes → Try X A) → Method → Bytes → HttpResponse → Try (RegistryError X) A
  read_response decode method suffix response =
      if ltb response.status_code 200 || ltb 299 response.status_code
      then err (rejected method suffix (message_of response))
      else map_err of_client (decode response.body)

  unfoldable pub do_json :
      {A : Type 0}
      → (Bytes → Try X A)
      → HttpRegistry
      → Method
      → Bytes
      → Option (List (Bytes × Bytes))
      → Try (RegistryError X) A
  unfolding request_to read_response
  do_json decode r method suffix body = do
    response ← map_err of_client (client.exchange (request_to r method suffix body))
    read_response decode method suffix response

  abbrev pub versions_of : Bytes → Bytes
  unfolding path_escape
  versions_of subject = (bytes "/subjects/" ++ path_escape subject) ++ bytes "/versions"

  abbrev pub registration_of : Bytes → Bytes → List (Bytes × Bytes)
  registration_of schema registry_type =
      (bytes "schema", schema)
      ∷ (if is_empty registry_type then [] else (bytes "schemaType", registry_type) ∷ [])

  unfoldable pub post_schema : HttpRegistry → ResolveRequest → Try (RegistryError X) Resolved
  unfolding do_json registry_schema_type normalize_schema_type
  post_schema r req = do
    id ←
        do_json client.decode_id r post (versions_of req.subject)
          (some (registration_of req.schema (registry_schema_type req.type_name)))
    ok (record {
      subject = req.subject;
      type_name = normalize_schema_type req.type_name;
      schema_id = id;
      schema_version = none;
      schema = req.schema;
    })

  unfoldable pub get_subject_version : HttpRegistry → Bytes → Bytes → Try (RegistryError X) Resolved
  unfolding do_json first_non_empty normalize_registry_schema_type path_escape
  get_subject_version r subject version = do
    answer ←
        do_json client.decode_version r get
          ((versions_of subject ++ bytes "/") ++ path_escape version) none
    ok (record {
      subject = first_non_empty answer.subject subject;
      type_name = normalize_registry_schema_type answer.schema_type;
      schema_id = answer.id;
      schema_version = some answer.version;
      schema = answer.schema;
    })

  unfoldable pub get_schema_by_id :
      HttpRegistry → ℤ → Bytes → Bytes → Try (RegistryError X) Resolved
  unfolding do_json first_non_empty normalize_registry_schema_type normalize_schema_type itoa
  get_schema_by_id r id typ subject = do
    answer ← do_json client.decode_schema r get (bytes "/schemas/ids/" ++ itoa id) none
    ok (record {
      subject = subject;
      type_name =
          first_non_empty (normalize_registry_schema_type answer.schema_type)
            (normalize_schema_type typ);
      schema_id = id;
      schema_version = none;
      schema = answer.schema;
    })

  -- Without a schema text: by version, by id, or the latest.
  abbrev pub look_up :
      HttpRegistry → ResolveRequest → Option ℤ → Option ℤ → Try (RegistryError X) Resolved
  unfolding itoa
  look_up r req (some version) id = get_subject_version r req.subject (itoa version)
  look_up r req none (some id) = get_schema_by_id r id req.type_name req.subject
  look_up r req none none = get_subject_version r req.subject (bytes "latest")

  -- Resolve; a nil registry is none.
  unfoldable pub resolve_over_http :
      Option HttpRegistry → ResolveRequest → Try (RegistryError X) Resolved
  unfolding post_schema get_subject_version get_schema_by_id eq_bytes trim_space
  resolve_over_http none req = err not_configured
  resolve_over_http (some r) req =
      if eq_bytes (trim_space req.subject) [] && not (is_some req.schema_id)
      then err subject_required
      else if not (eq_bytes (trim_space req.schema) [])
      then post_schema r req
      else look_up r req req.schema_version req.schema_id
