-- ===== src/Schema/Memory/Tests.antt =====
-- Tests and instances for the registry in memory and the names of schema types.
use kafka_rest_proxy_go.Common.{◌≡◌, refl, none, some, [], ◌∷◌, arith}
use kafka_rest_proxy_go.Common.Int.{pos, add64, sub64}
use kafka_rest_proxy_go.Common.Try.{ok, err}
use kafka_rest_proxy_go.Producer.{Bytes}
use kafka_rest_proxy_go.Go.Strings.{bytes}
use kafka_rest_proxy_go.Schema.{ResolveRequest, Resolved}
use kafka_rest_proxy_go.Schema.Kinds.{
  normalize_schema_type, registry_schema_type, normalize_registry_schema_type,
  normalize-registry_schema_type,
}
use kafka_rest_proxy_go.Schema.Memory.{new_memory_registry, resolve, run, version_not_found}
use kafka_rest_proxy_go.Schema.Memory.Registered.{is_registration, Inv}
use kafka_rest_proxy_go.Schema.Memory.Histories.{
  registrations, asking, run-new-Inv, registered_stays,
}

abbrev registering : Bytes → Bytes → ResolveRequest
registering subject text = record {
  subject = subject;
  type_name = bytes " json_schema ";
  schema_id = none;
  schema_version = none;
  schema = text;
}

abbrev other : ResolveRequest
other = registering (bytes "other") (bytes "{}")

abbrev mine : ResolveRequest
mine = registering (bytes "mine") (bytes "true")

-- The second registration of `mine`, behind one of `other`.
abbrev second : Resolved
second = record {
  subject = bytes "mine";
  type_name = bytes "JSONSCHEMA";
  schema_id = pos 3;
  schema_version = some (pos 2);
  schema = bytes "true";
}

second_registered : (resolve (run new_memory_registry (mine ∷ other ∷ [])) mine).1 ≡ ok second
unfolding resolve run add64 sub64
second_registered = refl

no_version :
    (resolve (run new_memory_registry (mine ∷ [])) (asking (bytes "mine") none (some (pos 2)))).1
    ≡ err (version_not_found (bytes "mine") (pos 2))
unfolding resolve run add64 sub64
no_version = refl

registered_stays_example :
    let r = run new_memory_registry (mine ∷ other ∷ []) in
    let q = run new_memory_registry (mine ∷ other ∷ mine ∷ other ∷ []) in
    (res : Resolved) × ((resolve r mine).1 ≡ ok res)
    × (res.subject ≡ bytes "mine")
    × (res.schema ≡ bytes "true")
    × (res.type_name ≡ normalize_schema_type (bytes " json_schema "))
    × ((resolve q (asking [] (some res.schema_id) none)).1 ≡ ok res)
    × ((resolve q (asking (bytes "mine") none res.schema_version)).1 ≡ ok res)
registered_stays_example =
    registered_stays (mine ∷ other ∷ []) (other ∷ []) mine (refl, refl, (λ e. cc), λ e. cc)
      (omega arith)

run-new-Inv_example : Inv (run new_memory_registry (mine ∷ other ∷ [])) 3
unfolding registrations is_registration
run-new-Inv_example = run-new-Inv (mine ∷ other ∷ []) (omega arith)

normalize-registry_schema_type_example :
    normalize_registry_schema_type (registry_schema_type (bytes "proto"))
    ≡ normalize_schema_type (bytes "proto")
unfolding registry_schema_type
normalize-registry_schema_type_example = normalize-registry_schema_type (bytes "proto") (λ e. cc)
