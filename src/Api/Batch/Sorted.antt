-- ===== src/Api/Batch/Sorted.antt =====
-- What becomes of the entries of a batch.
use kafka_rest_proxy_go.Common.{
  ◌≤◌, ◌<◌, ◌≡◌, ◌⊎◌, refl, true, false, List, [], ◌∷◌, length, arith, inl, inr,
}
use kafka_rest_proxy_go.Common.Try.{Try, ok, err, Try-cases}
use kafka_rest_proxy_go.Producer.{Bytes}
use kafka_rest_proxy_go.Api.Access.{contains}
use kafka_rest_proxy_go.Api.Batch.{
  IdError, validate_batch_id, EntryError, bad_id, bad_record, sort_entries,
}

abbrev pub IsId : Bytes → Type 0
IsId id = (0 < length id) × (length id ≤ 80)

validate_batch_id_inv :
    (id : Bytes) (seen : List Bytes) {after : List Bytes}
    → validate_batch_id id seen ≡ ok after
    → IsId id × (contains seen id ≡ false) × (id ∷ seen ≡ after)
unfolding validate_batch_id
validate_batch_id_inv [] seen e = cc
validate_batch_id_inv (c ∷ id) seen e = ground arith

module _ {A B X : Type 0} (decode : Bytes → A → Try X B) where
  -- The records and failures that the entries are sorted into: each entry goes to the one or the other,
  -- in order; a record is what its entry decodes to, under a valid id that was not seen before.
  pub data Splits
      : List Bytes
        → List (Bytes × A)
        → List (Bytes × B)
        → List (Bytes × EntryError X)
        → Type 0 where
    done : {seen : List Bytes} → Splits seen [] [] []
    accepted :
        {seen : List Bytes} {id : Bytes} {a : A} {b : B} {entries : List (Bytes × A)}
        {envelopes : List (Bytes × B)} {failures : List (Bytes × EntryError X)}
        → IsId id
        → contains seen id ≡ false
        → decode id a ≡ ok b
        → Splits (id ∷ seen) entries envelopes failures
        → Splits seen ((id, a) ∷ entries) ((id, b) ∷ envelopes) failures
    undecoded :
        {seen : List Bytes} {id : Bytes} {a : A} {e : X} {entries : List (Bytes × A)}
        {envelopes : List (Bytes × B)} {failures : List (Bytes × EntryError X)}
        → IsId id
        → contains seen id ≡ false
        → decode id a ≡ err e
        → Splits (id ∷ seen) entries envelopes failures
        → Splits seen ((id, a) ∷ entries) envelopes ((id, bad_record e) ∷ failures)
    refused :
        {seen : List Bytes} {id : Bytes} {a : A} {e : IdError} {entries : List (Bytes × A)}
        {envelopes : List (Bytes × B)} {failures : List (Bytes × EntryError X)}
        → (length id ≡ 0) ⊎ (80 < length id) ⊎ (contains seen id ≡ true)
        → Splits seen entries envelopes failures
        → Splits seen ((id, a) ∷ entries) envelopes ((id, bad_id e) ∷ failures)

  validate_batch_id_refused :
      (id : Bytes) (seen : List Bytes) {e : IdError}
      → validate_batch_id id seen ≡ err e
      → (length id ≡ 0) ⊎ (80 < length id) ⊎ (contains seen id ≡ true)
  unfolding validate_batch_id
  validate_batch_id_refused [] seen e = inl refl
  validate_batch_id_refused (c ∷ id) seen e = ground arith

  -- A batch is sorted entry by entry: an entry is refused for an id that is empty, longer than 80 bytes or
  -- that of an earlier entry with a valid id, fails if it does not decode, and otherwise goes to the
  -- records; both lists keep the order of the entries.
  pub sort_entries-Splits :
      (seen : List Bytes) (entries : List (Bytes × A))
      → Splits seen entries
          (sort_entries decode seen entries).0
          (sort_entries decode seen entries).1
  unfolding sort_entries
  sort_entries-Splits seen [] = done
  sort_entries-Splits seen ((id, a) ∷ entries) = elim (Try-cases (validate_batch_id id seen)) [
    | inl (after, valid) ↦
        let (is_id, new, same) = validate_batch_id_inv id seen valid in
        elim (Try-cases (decode id a)) [
          | inl (b, decoded) ↦
              rw (valid, decoded, ← same)
                (accepted is_id new decoded (sort_entries-Splits (id ∷ seen) entries))
          | inr (e, failed) ↦
              rw (valid, failed, ← same)
                (undecoded is_id new failed (sort_entries-Splits (id ∷ seen) entries))
        ]
    | inr (e, bad) ↦
        rw bad (refused (validate_batch_id_refused id seen bad) (sort_entries-Splits seen entries))
  ]
