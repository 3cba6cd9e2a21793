-- ===== src/Schema/Memory/Histories.antt =====
-- The registry in memory over a history of calls.
use kafka_rest_proxy_go.Common.{
  if◌then◌else◌, Bool-cases, inl, inr, ℕ, suc, ◌+◌, ◌-◌, ◌<◌, ◌≤◌, ◌≡◌, ◌≢◌, refl, sym, ap, ◌∙◌,
  subst, false, Option, none, some, List, [], ◌∷◌, ◌++◌, length, get_elem?, get_elem?-append_last,
  arith, inl, inr, Bool-cases,
}
use kafka_rest_proxy_go.Common.Int.{ℤ, pos, sub64_pos, int64_bound}
use kafka_rest_proxy_go.Common.Try.{ok}
use kafka_rest_proxy_go.Producer.{Bytes}
use kafka_rest_proxy_go.Go.Strings.{eq_bytes}
use kafka_rest_proxy_go.Schema.{ResolveRequest, Resolved}
use kafka_rest_proxy_go.Schema.Kinds.{normalize_schema_type}
use kafka_rest_proxy_go.Schema.Memory.{
  MemoryRegistry, new_memory_registry, registration, register, resolve_text, resolve, run,
}
use kafka_rest_proxy_go.Schema.Memory.Registered.{
  is_registration, listed_stays, resolve_state, Inv, new-Inv, started_same, registered_other,
  registered_versions, newest, register-Inv, resolve_cases,
}

-- What is registered under an id, and as a version of a subject, in both maps.
pub record Stored (r : MemoryRegistry) (res : Resolved) (i : ℕ) : Type 0 where
  pub under_id : r.by_id res.schema_id ≡ some res
  pub as_version : get_elem? (r.versions res.subject) i ≡ some res

register-Stored :
    (r : MemoryRegistry) (n : ℕ) (v : Inv r n) (req : ResolveRequest) (res : Resolved) (i : ℕ)
    → Stored r res i
    → Stored (register r req) res i
register-Stored r n v req res i s = record {
  under_id = registered_other r n v req res.schema_id res s.under_id;
  as_version = listed_stays r n v req res.subject i res s.as_version;
}

resolve-Inv :
    (r : MemoryRegistry) (n : ℕ) (v : Inv r n) (req : ResolveRequest)
    → suc n < int64_bound
    → (m : ℕ) × Inv (resolve r req).0 m × (m ≤ suc n)
resolve-Inv r n v req lt = elim (resolve_cases r n v req) [
  | inl same ↦ (n, subst (λ q. Inv q n) (sym same) v, omega arith)
  | inr more ↦
      (suc n, subst (λ q. Inv q (suc n)) (sym more) (register-Inv r n v req lt), omega arith)
]

resolve-Stored :
    (r : MemoryRegistry) (n : ℕ) (v : Inv r n) (req : ResolveRequest) (res : Resolved) (i : ℕ)
    → Stored r res i
    → Stored (resolve r req).0 res i
resolve-Stored r n v req res i s = elim (resolve_cases r n v req) [
  | inl same ↦ subst (λ q. Stored q res i) (sym same) s
  | inr more ↦ subst (λ q. Stored q res i) (sym more) (register-Stored r n v req res i s)
]

run-Inv :
    (r : MemoryRegistry) (n : ℕ) (v : Inv r n) (reqs : List ResolveRequest)
    → n + length reqs < int64_bound
    → (m : ℕ) × Inv (run r reqs) m × (m ≤ n + length reqs)
unfolding run
run-Inv r n v [] lt = (n, v, omega arith)
run-Inv r n v (req ∷ reqs) lt =
    let (m, w, le) = resolve-Inv r n v req (omega arith) in
    let (k, x, le') = run-Inv (resolve r req).0 m w reqs (omega arith) in (k, x, omega arith)

run-Stored :
    (r : MemoryRegistry) (n : ℕ) (v : Inv r n) (reqs : List ResolveRequest) (res : Resolved) (i : ℕ)
    → n + length reqs < int64_bound
    → Stored r res i
    → Stored (run r reqs) res i
unfolding run
run-Stored r n v [] res i lt s = s
run-Stored r n v (req ∷ reqs) res i lt s =
    let (m, w, le) = resolve-Inv r n v req (omega arith) in
    run-Stored (resolve r req).0 m w reqs res i (omega arith) (resolve-Stored r n v req res i s)

run-append :
    (r : MemoryRegistry) (before later : List ResolveRequest)
    → run r (before ++ later) ≡ run (run r before) later
unfolding run
run-append r [] later = refl
run-append r (req ∷ before) later = run-append (resolve r req).0 before later

-- How many requests of a history register.
unfoldable pub registrations : List ResolveRequest → ℕ
unfolding is_registration
registrations [] = 0
registrations (req ∷ reqs) = (if is_registration req then 1 else 0) + registrations reqs

run-Inv_exact :
    (r : MemoryRegistry) (n : ℕ) (v : Inv r n) (reqs : List ResolveRequest)
    → n + length reqs < int64_bound
    → Inv (run r reqs) (n + registrations reqs)
unfolding run registrations
run-Inv_exact r n v [] lt = subst (Inv r) (omega arith) v
run-Inv_exact r n v (req ∷ reqs) lt = elim (Bool-cases (is_registration req)) [
  | inl yes_ ↦
      let made : (resolve r req).0 ≡ register r req = resolve_state r n v req ∙ (rw yes_ refl) in
      let w : Inv (resolve r req).0 (suc n) =
        subst (λ q. Inv q (suc n)) (sym made) (register-Inv r n v req (omega arith)) in
      rw yes_ (
        subst (Inv (run (resolve r req).0 reqs)) (omega arith)
          (run-Inv_exact (resolve r req).0 (suc n) w reqs (omega arith)))
  | inr no_ ↦
      let made : (resolve r req).0 ≡ r = resolve_state r n v req ∙ (rw no_ refl) in
      let w : Inv (resolve r req).0 n = subst (λ q. Inv q n) (sym made) v in
      rw no_ (
        subst (Inv (run (resolve r req).0 reqs)) (omega arith)
          (run-Inv_exact (resolve r req).0 n w reqs (omega arith)))
]

-- In a registry that has served fewer than 2^63 - 1 calls, the ids from 1 to the number of calls that
-- register, and no others, lead to a registration, which is a version of its subject; and the
-- versions of each subject are counted from 1, in order, and are found under their ids.
pub run-new-Inv :
    (reqs : List ResolveRequest)
    → suc (length reqs) < int64_bound
    → Inv (run new_memory_registry reqs) (suc (registrations reqs))
run-new-Inv reqs lt =
    subst (Inv (run new_memory_registry reqs)) (omega arith)
      (run-Inv_exact new_memory_registry 1 new-Inv reqs (omega arith))

abbrev pub IsRegistration : ResolveRequest → Type 0
IsRegistration req =
    (req.schema_id ≡ none) × (req.schema_version ≡ none) × (req.subject ≢ []) × (req.schema ≢ [])

-- Requests for what a registration returned.
abbrev pub asking : Bytes → Option ℤ → Option ℤ → ResolveRequest
asking subject id version = record {
  subject = subject;
  type_name = [];
  schema_id = id;
  schema_version = version;
  schema = [];
}

not_empty : (s : Bytes) → s ≢ [] → eq_bytes s [] ≡ false
unfolding eq_bytes
not_empty [] ne = absurd (ne refl)
not_empty (c ∷ s) ne = refl

resolve_registers :
    (r : MemoryRegistry) (n : ℕ) (v : Inv r n) (req : ResolveRequest)
    → IsRegistration req
    → resolve r req ≡ (register r req, ok (registration r req))
unfolding resolve resolve_text
resolve_registers r n v req (id, version, subject, schema) =
    rw
      (
        started_same r n v req,
        id,
        not_empty req.subject subject,
        version,
        not_empty req.schema schema,
      )
      refl

registration-Stored :
    (r : MemoryRegistry) (n : ℕ) (v : Inv r n) (req : ResolveRequest)
    → suc n < int64_bound
    → Stored (register r req) (registration r req) (length (r.versions req.subject))
unfolding registration
registration-Stored r n v req lt = record {
  under_id = (newest r n v req lt).1;
  as_version =
      rw (registered_versions r n v req)
        (get_elem?-append_last (r.versions req.subject) (registration r req));
}

module _ (r : MemoryRegistry) (n : ℕ) (v : Inv r n) (res : Resolved) (i : ℕ)
    (s : Stored r res i) where
  answer_by_id : (resolve r (asking [] (some res.schema_id) none)).1 ≡ ok res
  unfolding resolve
  answer_by_id = rw (started_same r n v (asking [] (some res.schema_id) none), s.under_id) refl

  answer_by_version :
      (version : Option ℤ) (subject : Bytes)
      → suc i < int64_bound
      → version ≡ some (pos (suc i))
      → res.subject ≡ subject
      → subject ≢ []
      → (resolve r (asking subject none version)).1 ≡ ok res
  unfolding resolve
  answer_by_version version subject lt ev es ne =
      let pred : suc i - 1 ≡ i = omega arith in
      let at : get_elem? (r.versions subject) i ≡ some res =
        subst (λ x. get_elem? (r.versions x) i ≡ some res) es s.as_version in
      rw
        (
          ev,
          started_same r n v (asking subject none (some (pos (suc i)))),
          not_empty subject ne,
          sub64_pos (suc i) 1 (omega arith) lt,
          pred,
          at,
        )
        refl

registration_fields :
    (r : MemoryRegistry) (req : ResolveRequest)
    → ((registration r req).subject ≡ req.subject)
      × ((registration r req).schema ≡ req.schema)
      × ((registration r req).type_name ≡ normalize_schema_type req.type_name)
unfolding registration
registration_fields r req = (refl, refl, refl)

run-registration :
    (before later : List ResolveRequest) (req : ResolveRequest)
    → let r = run new_memory_registry before in
      resolve r req ≡ (register r req, ok (registration r req))
      → run new_memory_registry (before ++ req ∷ later) ≡ run (register r req) later
unfolding run
run-registration before later req made =
    run-append new_memory_registry before (req ∷ later) ∙ ap (λ x. run x.0 later) made

-- A registration, after any history of calls from the empty registry, succeeds with the subject, the
-- text and the normalized type of the request; after whatever calls follow, as long as there are
-- fewer than 2^63 - 2 in all, its id and its version of the subject still lead to that very answer.
pub registered_stays :
    (before later : List ResolveRequest) (req : ResolveRequest)
    → IsRegistration req
    → 2 + length before + length later < int64_bound
    → let r = run new_memory_registry before in
      let q = run new_memory_registry (before ++ req ∷ later) in
      (res : Resolved) × ((resolve r req).1 ≡ ok res)
      × (res.subject ≡ req.subject)
      × (res.schema ≡ req.schema)
      × (res.type_name ≡ normalize_schema_type req.type_name)
      × ((resolve q (asking [] (some res.schema_id) none)).1 ≡ ok res)
      × ((resolve q (asking req.subject none res.schema_version)).1 ≡ ok res)
registered_stays before later req reg lt =
    let r : MemoryRegistry = run new_memory_registry before in
    let (n, v, le) = run-Inv new_memory_registry 1 new-Inv before (omega arith) in
    let made = resolve_registers r n v req reg in
    let v' = register-Inv r n v req (omega arith) in
    let (m, w, le') = run-Inv (register r req) (suc n) v' later (omega arith) in
    let res : Resolved = registration r req in
    let i : ℕ = length (r.versions req.subject) in
    let stored =
      run-Stored (register r req) (suc n) v' later res i (omega arith)
        (registration-Stored r n v req (omega arith)) in
    let q : run (register r req) later ≡ run new_memory_registry (before ++ req ∷ later) =
      sym (run-registration before later req made) in
    let (same_subject, same_schema, same_type) = registration_fields r req in
    (
      res,
      ap (λ x. x.1) made,
      same_subject,
      same_schema,
      same_type,
      subst (λ x. (resolve x (asking [] (some res.schema_id) none)).1 ≡ ok res) q
          (answer_by_id (run (register r req) later) m w res i stored),
      subst (λ x. (resolve x (asking req.subject none res.schema_version)).1 ≡ ok res) q
          (answer_by_version (run (register r req) later) m w res i stored res.schema_version
            req.subject (omega (arith, v.short req.subject)) (newest r n v req (omega arith)).0
            same_subject reg.2),
    )
