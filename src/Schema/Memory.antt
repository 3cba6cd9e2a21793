-- ===== src/Schema/Memory.antt =====
-- MemoryRegistry of internal/schema/registry.go. The mutex makes Resolve one step. A map is a
-- function, with the nil slice for a subject that is missing.
pub mod Registered
pub mod Histories
mod Tests
use kafka_rest_proxy_go.Common.{
  suc, ◌+◌, Bool, true, false, Option, none, some, List, [], ◌∷◌, ◌++◌, length, get_elem?,
  if◌then◌else◌,
}
use kafka_rest_proxy_go.Common.Int.{ℤ, pos, negsuc, eq_ℤ, add64, sub64}
use kafka_rest_proxy_go.Common.Try.{Try, ok, err}
use kafka_rest_proxy_go.Producer.{Bytes}
use kafka_rest_proxy_go.Go.Strings.{eq_bytes}
use kafka_rest_proxy_go.Schema.{ResolveRequest, Resolved}
use kafka_rest_proxy_go.Schema.Kinds.{normalize_schema_type}

pub record MemoryRegistry : Type 0 where
  pub next_id : ℤ
  pub by_id : ℤ → Option Resolved
  pub versions : Bytes → List Resolved

pub data ResolveError : Type 0 where
  id_not_found : ℤ → ResolveError
  subject_required : ResolveError
  version_not_found : Bytes → ℤ → ResolveError
  subject_not_found : Bytes → ResolveError

abbrev pub new_memory_registry : MemoryRegistry
new_memory_registry = record { next_id = pos 1; by_id = λ _. none; versions = λ _. [] }

abbrev pub started : MemoryRegistry → MemoryRegistry
started r = if eq_ℤ r.next_id (pos 0) then record r { next_id = pos 1 } else r

abbrev pub renamed : Bytes → Resolved → Resolved
renamed [] res = res
renamed (c ∷ subject) res = record res { subject = c ∷ subject }

abbrev by_its_id : ℤ → Bytes → Option Resolved → Try ResolveError Resolved
by_its_id id subject none = err (id_not_found id)
by_its_id id subject (some res) = ok (renamed subject res)

-- The element of a slice, if the index is within it.
abbrev pub at_index : List Resolved → ℤ → Option Resolved
at_index versions (pos i) = get_elem? versions i
at_index versions (negsuc i) = none

abbrev pub last : List Resolved → Option Resolved
last [] = none
last (v ∷ []) = some v
last (v ∷ w ∷ vs) = last (w ∷ vs)

abbrev found : ResolveError → Option Resolved → Try ResolveError Resolved
found e none = err e
found e (some res) = ok res

-- What a registration stores.
unfoldable pub registration : MemoryRegistry → ResolveRequest → Resolved
unfolding normalize_schema_type add64
registration r req = record {
  subject = req.subject;
  type_name = normalize_schema_type req.type_name;
  schema_id = r.next_id;
  schema_version = some (add64 (pos (length (r.versions req.subject))) (pos 1));
  schema = req.schema;
}

unfoldable pub register : MemoryRegistry → ResolveRequest → MemoryRegistry
unfolding registration add64 eq_bytes
register r req =
    let res = registration r req in
    record {
      next_id = add64 r.next_id (pos 1);
      by_id = λ id. if eq_ℤ id r.next_id then some res else r.by_id id;
      versions = λ subject.
          if eq_bytes subject req.subject
          then r.versions subject ++ res ∷ []
          else r.versions subject;
    }

-- A subject without a version: its text registers, and no text asks for the latest version.
unfoldable pub resolve_text :
    MemoryRegistry → ResolveRequest → MemoryRegistry × Try ResolveError Resolved
unfolding register eq_bytes
resolve_text r req =
    if eq_bytes req.schema []
    then (r, found (subject_not_found req.subject) (last (r.versions req.subject)))
    else (register r req, ok (registration r req))

abbrev resolve_version :
    MemoryRegistry → ResolveRequest → Option ℤ → MemoryRegistry × Try ResolveError Resolved
unfolding resolve_text sub64
resolve_version r req (some version) = (
  r,
  found (version_not_found req.subject version)
      (at_index (r.versions req.subject) (sub64 version (pos 1))),
)
resolve_version r req none = resolve_text r req

abbrev resolve_id :
    MemoryRegistry → ResolveRequest → Option ℤ → MemoryRegistry × Try ResolveError Resolved
resolve_id r req (some id) = (r, by_its_id id req.subject (r.by_id id))
resolve_id r req none =
    if eq_bytes req.subject []
    then (r, err subject_required)
    else resolve_version r req req.schema_version

unfoldable pub resolve :
    MemoryRegistry → ResolveRequest → MemoryRegistry × Try ResolveError Resolved
unfolding resolve_text sub64 eq_bytes
resolve r req = resolve_id (started r) req req.schema_id

pub run : MemoryRegistry → List ResolveRequest → MemoryRegistry
unfolding resolve
run r [] = r
run r (req ∷ reqs) = run (resolve r req).0 reqs
