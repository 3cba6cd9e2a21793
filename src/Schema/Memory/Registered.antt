-- ===== src/Schema/Memory/Registered.antt =====
-- The registry in memory: its two maps agree, and what is registered stays.
use kafka_rest_proxy_go.Common.{
  Bool, not, ◌&&◌, ◌==◌, if◌then◌else◌, get_elem?-append, get_elem?-append_last, ℕ, suc, ◌<◌, ◌≡◌,
  ◌≢◌, ◌⊎◌, refl, sym, ap, ◌∙◌, subst, true, false, some, [], ◌∷◌, ◌++◌, length, get_elem?,
  length-append, get_elem?-append_inv, arith, inl, inr, Bool-cases,
}
use kafka_rest_proxy_go.Common.Int.{ℤ, pos, eq_ℤ, eq_ℤ_iff, add64_pos, int64_bound}
use kafka_rest_proxy_go.Producer.{Bytes}
use kafka_rest_proxy_go.Go.Strings.{eq_bytes, eq_bytes_iff, eq_bytes_refl}
use kafka_rest_proxy_go.Schema.{is_some, ResolveRequest, Resolved}
use kafka_rest_proxy_go.Schema.Memory.{
  MemoryRegistry, new_memory_registry, started, registration, register, resolve_text, resolve,
}

-- A request that registers: a text under a subject, without an id or a version.
unfoldable pub is_registration : ResolveRequest → Bool
unfolding eq_bytes
is_registration req =
    not (is_some req.schema_id)
    && (not (eq_bytes req.subject [])
        && (not (is_some req.schema_version) && not (eq_bytes req.schema [])))

-- A registry that has given out the ids below `n`, from 1 on: those ids and no others lead to a
-- registration, each of which is a version of its subject; the versions of a subject are counted from
-- 1 and found under their ids.
pub record Inv (r : MemoryRegistry) (n : ℕ) : Type 0 where
  pub next : r.next_id ≡ pos n
  pub positive : 0 < n
  pub ids :
      (id : ℤ) (res : Resolved)
      → r.by_id id ≡ some res
      → (res.schema_id ≡ id) × (k : ℕ) × (id ≡ pos k) × (0 < k) × (k < n)
  pub given : (k : ℕ) → 0 < k → k < n → (res : Resolved) × (r.by_id (pos k) ≡ some res)
  pub placed :
      (id : ℤ) (res : Resolved)
      → r.by_id id ≡ some res
      → (i : ℕ) × (get_elem? (r.versions res.subject) i ≡ some res)
  pub listed :
      (subject : Bytes) (i : ℕ) (res : Resolved)
      → get_elem? (r.versions subject) i ≡ some res
      → (res.subject ≡ subject)
        × (res.schema_version ≡ some (pos (suc i)))
        × (r.by_id res.schema_id ≡ some res)
  pub short : (subject : Bytes) → length (r.versions subject) < n

pub new-Inv : Inv new_memory_registry 1
new-Inv = record {
  next = refl;
  positive = omega arith;
  ids = λ id res e. cc;
  given = λ k p lt. absurd (omega arith);
  placed = λ id res e. cc;
  listed = λ subject i res e. cc;
  short = λ subject. omega arith;
}

eq_ℤ_refl : (a : ℤ) → eq_ℤ a a ≡ true
eq_ℤ_refl a = (eq_ℤ_iff a a).1 refl

module _ (r : MemoryRegistry) (n : ℕ) (v : Inv r n) (req : ResolveRequest) where
  -- The id that comes next is new.
  fresh : (res : Resolved) → r.by_id (pos n) ≢ some res
  fresh res e =
      let (_, k, same, p, lt) = v.ids (pos n) res e in let x : n ≡ k = cc in absurd (omega arith)

  pub started_same : started r ≡ r
  started_same = let h = v.next in let p = v.positive in rw h (ground arith)

  pub registered_id : (register r req).by_id (pos n) ≡ some (registration r req)
  unfolding register
  registered_id = rw (v.next, eq_ℤ_refl (pos n)) refl

  pub registered_other :
      (id : ℤ) (res : Resolved) → r.by_id id ≡ some res → (register r req).by_id id ≡ some res
  unfolding register
  registered_other id res e = elim (Bool-cases (eq_ℤ id r.next_id)) [
    | inl same ↦
        let x : id ≡ pos n = (eq_ℤ_iff id r.next_id).0 same ∙ v.next in
        absurd (fresh res (subst (λ i. r.by_id i ≡ some res) x e))
    | inr other ↦ rw other e
  ]

  pub registered_versions :
      (register r req).versions req.subject ≡ r.versions req.subject ++ registration r req ∷ []
  unfolding register
  registered_versions = rw (eq_bytes_refl req.subject) refl

  pub registered_elsewhere :
      (subject : Bytes)
      → eq_bytes subject req.subject ≡ false
      → (register r req).versions subject ≡ r.versions subject
  unfolding register
  registered_elsewhere subject other = rw other refl

  registered_ids :
      suc n < int64_bound
      → (id : ℤ) (res : Resolved) → (register r req).by_id id ≡ some res
      → (res.schema_id ≡ id) × (k : ℕ) × (id ≡ pos k) × (0 < k) × (k < suc n)
  unfolding register registration
  registered_ids lt id res e = elim (Bool-cases (eq_ℤ id r.next_id)) [
    | inl same ↦
        let x : id ≡ r.next_id = (eq_ℤ_iff id r.next_id).0 same in
        let y : (register r req).by_id id ≡ some (registration r req) = rw same refl in
        let z : res.schema_id ≡ r.next_id = cc in
        (z ∙ sym x, n, x ∙ v.next, v.positive, omega arith)
    | inr other ↦
        let y : (register r req).by_id id ≡ r.by_id id = rw other refl in
        let (a, k, b, p, c) = v.ids id res (sym y ∙ e) in (a, k, b, p, omega arith)
  ]

  newest_placed :
      get_elem?
        ((register r req).versions (registration r req).subject)
        (length (r.versions req.subject))
      ≡ some (registration r req)
  unfolding registration
  newest_placed =
      rw registered_versions (get_elem?-append_last (r.versions req.subject) (registration r req))

  pub newest :
      suc n < int64_bound
      → ((registration r req).schema_version ≡ some (pos (suc (length (r.versions req.subject)))))
        × ((register r req).by_id (registration r req).schema_id ≡ some (registration r req))
  unfolding registration
  newest lt =
      let short = v.short req.subject in
      (
        rw (add64_pos (length (r.versions req.subject)) 1 (omega arith))
            (ap (λ k. some (pos k)) (omega arith)),
        subst (λ i. (register r req).by_id i ≡ some (registration r req)) (sym v.next)
            registered_id,
      )

  listed_there :
      suc n < int64_bound
      → (subject : Bytes) (i : ℕ) (res : Resolved) → subject ≡ req.subject
      → get_elem? ((register r req).versions subject) i ≡ some res
      → (res.subject ≡ subject)
        × (res.schema_version ≡ some (pos (suc i)))
        × ((register r req).by_id res.schema_id ≡ some res)
  unfolding registration
  listed_there lt subject i res same e =
      let e' : get_elem? (r.versions req.subject ++ registration r req ∷ []) i ≡ some res =
        subst (λ vs. get_elem? vs i ≡ some res) registered_versions
          (subst (λ s. get_elem? ((register r req).versions s) i ≡ some res) same e) in
      elim (get_elem?-append_inv (r.versions req.subject) (registration r req) i e') [
        | inl before ↦
            let (a, b, c) = v.listed req.subject i res before in
            (a ∙ sym same, b, registered_other res.schema_id res c)
        | inr (k, made) ↦
            let (a, b) = newest lt in
            subst
              (λ x.
                (x.subject ≡ subject)
                × (x.schema_version ≡ some (pos (suc i)))
                × ((register r req).by_id x.schema_id ≡ some x))
              made (sym same, rw k a, b)
      ]

  registered_listed :
      suc n < int64_bound
      → (subject : Bytes) (i : ℕ) (res : Resolved)
      → get_elem? ((register r req).versions subject) i ≡ some res
      → (res.subject ≡ subject)
        × (res.schema_version ≡ some (pos (suc i)))
        × ((register r req).by_id res.schema_id ≡ some res)
  registered_listed lt subject i res e = elim (Bool-cases (eq_bytes subject req.subject)) [
    | inl same ↦ listed_there lt subject i res ((eq_bytes_iff subject req.subject).0 same) e
    | inr other ↦
        let (a, b, c) =
          v.listed subject i res
            (subst (λ vs. get_elem? vs i ≡ some res) (registered_elsewhere subject other) e) in
        (a, b, registered_other res.schema_id res c)
  ]

  registered_short :
      suc n < int64_bound → (subject : Bytes) → length ((register r req).versions subject) < suc n
  registered_short lt subject = elim (Bool-cases (eq_bytes subject req.subject)) [
    | inl same ↦
        let x : req.subject ≡ subject = sym ((eq_bytes_iff subject req.subject).0 same) in
        subst (λ s. length ((register r req).versions s) < suc n) x
          (rw
            (registered_versions, length-append (r.versions req.subject) (registration r req ∷ []))
            (omega (arith, v.short req.subject)))
    | inr other ↦ rw (registered_elsewhere subject other) (omega (arith, v.short subject))
  ]

  registered_given :
      (k : ℕ) → 0 < k → k < suc n → (res : Resolved) × ((register r req).by_id (pos k) ≡ some res)
  registered_given k p lt = elim (Bool-cases (k == n)) [
    | inl newest_id ↦
        let same : n ≡ k = ground arith in
        (
          registration r req,
          subst (λ x. (register r req).by_id (pos x) ≡ some (registration r req)) same
              registered_id,
        )
    | inr older ↦ let (res, e) = v.given k p (ground arith) in (res, registered_other (pos k) res e)
  ]

  -- A version stays where it is.
  pub listed_stays :
      (subject : Bytes) (i : ℕ) (res : Resolved)
      → get_elem? (r.versions subject) i ≡ some res
      → get_elem? ((register r req).versions subject) i ≡ some res
  listed_stays subject i res e = elim (Bool-cases (eq_bytes subject req.subject)) [
    | inl same ↦
        let x : subject ≡ req.subject = (eq_bytes_iff subject req.subject).0 same in
        let old : get_elem? (r.versions req.subject) i ≡ some res =
          subst (λ s. get_elem? (r.versions s) i ≡ some res) x e in
        subst (λ s. get_elem? ((register r req).versions s) i ≡ some res) (sym x)
          (subst (λ vs. get_elem? vs i ≡ some res) (sym registered_versions)
            (get_elem?-append (r.versions req.subject) (registration r req ∷ []) i old))
    | inr other ↦ rw (registered_elsewhere subject other) e
  ]

  registered_placed :
      (id : ℤ) (res : Resolved)
      → (register r req).by_id id ≡ some res
      → (i : ℕ) × (get_elem? ((register r req).versions res.subject) i ≡ some res)
  unfolding register
  registered_placed id res e = elim (Bool-cases (eq_ℤ id r.next_id)) [
    | inl same ↦
        let y : (register r req).by_id id ≡ some (registration r req) = rw same refl in
        let made : registration r req ≡ res = cc in
        (
          length (r.versions req.subject),
          subst
              (λ x.
                get_elem? ((register r req).versions x.subject) (length (r.versions req.subject))
                ≡ some x)
              made newest_placed,
        )
    | inr other ↦
        let y : (register r req).by_id id ≡ r.by_id id = rw other refl in
        let (i, at) = v.placed id res (sym y ∙ e) in (i, listed_stays res.subject i res at)
  ]

  pub register-Inv : suc n < int64_bound → Inv (register r req) (suc n)
  unfolding register
  register-Inv lt = record {
    next = rw (v.next, add64_pos n 1 (omega arith)) (ap pos (omega arith));
    positive = omega arith;
    ids = registered_ids lt;
    given = registered_given;
    placed = registered_placed;
    listed = registered_listed lt;
    short = registered_short lt;
  }

  -- A call registers or leaves the registry alone.
  pub resolve_state : (resolve r req).0 ≡ (if is_registration req then register r req else r)
  unfolding resolve resolve_text is_registration
  resolve_state = rw started_same (ground arith)

  -- A call leaves the registry alone or registers.
  pub resolve_cases : ((resolve r req).0 ≡ r) ⊎ ((resolve r req).0 ≡ register r req)
  unfolding resolve resolve_text
  resolve_cases = rw started_same (ground arith)
