-- ===== src/Schema/Http/Resolves.antt =====
-- What a success of HTTPRegistry.Resolve rests on.
use kafka_rest_proxy_go.Common.{inl, inr, ◌++◌, ◌≤◌, ◌≡◌, ◌≢◌, ◌⊎◌, inl, inr, none, some, []}
use kafka_rest_proxy_go.Common.Int.{ℤ}
use kafka_rest_proxy_go.Common.Try.{Try, ok}
use kafka_rest_proxy_go.Producer.{Bytes}
use kafka_rest_proxy_go.Go.Strings.{bytes, trim_space}
use kafka_rest_proxy_go.Go.Number.{itoa}
use kafka_rest_proxy_go.Go.Url.{path_escape}
use kafka_rest_proxy_go.Schema.{ResolveRequest, Resolved}
use kafka_rest_proxy_go.Schema.Kinds.{registry_schema_type}
use kafka_rest_proxy_go.Schema.Http.{
  get, post, HttpRequest, HttpResponse, Answer, SchemaAnswer, Client, HttpRegistry, request_to,
  versions_of, registration_of,
}

module _ {X : Type 0} (client : Client X) where
  -- A request that was answered with a status from 200 to 299 and a body that decodes.
  pub record Exchanged {A : Type 0} (decode : Bytes → Try X A) (asked : HttpRequest) (answer : A)
      : Type 0 where
    pub response : HttpResponse
    pub sent : client.exchange asked ≡ ok response
    pub accepted : (200 ≤ response.status_code) × (response.status_code ≤ 299)
    pub decoded : decode response.body ≡ ok answer

  -- The request that a call makes, and what it makes of the answer.
  pub data Resolution (r : HttpRegistry) (req : ResolveRequest) (resolved : Resolved) : Type 0 where
    registers :
        (id : ℤ)
        → trim_space req.schema ≢ []
        → Exchanged client.decode_id
            (request_to client r post
              (versions_of client req.subject)
              (some (registration_of client req.schema (registry_schema_type req.type_name))))
            id
        → resolved.schema_id ≡ id
        → resolved.schema_version ≡ none
        → resolved.schema ≡ req.schema
        → resolved.subject ≡ req.subject
        → Resolution r req resolved
    finds_version :
        (version : Bytes) (answer : Answer)
        → trim_space req.schema ≡ []
        → ((n : ℤ) × (req.schema_version ≡ some n) × (version ≡ itoa n))
          ⊎ ((req.schema_version ≡ none) × (req.schema_id ≡ none) × (version ≡ bytes "latest"))
        → Exchanged client.decode_version
            (request_to client r get
              ((versions_of client req.subject ++ bytes "/") ++ path_escape version)
              none)
            answer
        → resolved.schema_id ≡ answer.id
        → resolved.schema ≡ answer.schema
        → resolved.schema_version ≡ some answer.version
        → Resolution r req resolved
    finds_id :
        (id : ℤ) (answer : SchemaAnswer)
        → trim_space req.schema ≡ []
        → req.schema_version ≡ none
        → req.schema_id ≡ some id
        → Exchanged client.decode_schema
            (request_to client r get (bytes "/schemas/ids/" ++ itoa id) none)
            answer
        → resolved.schema_id ≡ id
        → resolved.schema ≡ answer.schema
        → resolved.subject ≡ req.subject
        → Resolution r req resolved
