-- ===== src/Schema/Http/Tests.antt =====
-- Tests and instances for the registry over HTTP.
use kafka_rest_proxy_go.Common.{ℕ, ◌≡◌, ◌++◌, refl, none, some, [], Option}
use kafka_rest_proxy_go.Common.Int.{ℤ, pos}
use kafka_rest_proxy_go.Common.Try.{ok, err}
use kafka_rest_proxy_go.Producer.{Bytes}
use kafka_rest_proxy_go.Go.Strings.{bytes}
use kafka_rest_proxy_go.Schema.{ResolveRequest, Resolved}
use kafka_rest_proxy_go.Schema.Http.{
  Client, HttpRegistry, subject_required, rejected, get, resolve_over_http,
}

-- A client that answers each request with the path as its body, which is read as the schema.
abbrev echo : ℕ → Client ℕ
echo status = record {
  exchange = λ r. ok (record { status_code = status; status = bytes "status"; body = r.path });
  decode_id = λ b. ok (pos 7);
  decode_schema = λ b. ok (record { schema = b; schema_type = bytes "json" });
  decode_version = λ b. ok (record {
    subject = [];
    id = pos 7;
    version = pos 2;
    schema = b;
    schema_type = bytes "json";
  });
  message = λ b. [];
  join = λ base suffix. base ++ suffix;
}

abbrev registry : HttpRegistry
registry = record { base_path = bytes "/r"; username = []; password = [] }

abbrev asking : Bytes → Option ℤ → ResolveRequest
asking subject id = record {
  subject = subject;
  type_name = bytes "AVRO";
  schema_id = id;
  schema_version = none;
  schema = [];
}

abbrev latest : Resolved
latest = record {
  subject = bytes "a b";
  type_name = bytes "JSONSCHEMA";
  schema_id = pos 7;
  schema_version = some (pos 2);
  schema = bytes "/r/subjects/a%2520b/versions/latest";
}

errors :
    (resolve_over_http (echo 200) (some registry) (asking (bytes " ") none) ≡ err subject_required)
    × (resolve_over_http (echo 404) (some registry) (asking [] (some (pos 5)))
        ≡ err (rejected get (bytes "/schemas/ids/5") (bytes "status")))
unfolding resolve_over_http
errors = (refl, refl)
