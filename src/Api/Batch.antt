-- ===== src/Api/Batch.antt =====
-- The entries of a v3 batch in internal/api/v3.go: validateBatchID, and the loop of
-- handleV3BatchBody that sorts the entries into records for Kafka and failures. What an entry is
-- decoded to is an argument of the loop.
pub mod Sorted
mod Tests
use kafka_rest_proxy_go.Common.{ℕ, Bool, true, false, List, [], ◌∷◌, length, ltb, if◌then◌else◌}
use kafka_rest_proxy_go.Common.Try.{Try, ok, err}
use kafka_rest_proxy_go.Producer.{Bytes}
use kafka_rest_proxy_go.Api.Access.{contains}

pub data IdError : Type 0 where
  id_required id_too_long : IdError
  duplicate_id : Bytes → IdError

-- The ids that were seen, with this one put in, or an error.
unfoldable pub validate_batch_id : Bytes → List Bytes → Try IdError (List Bytes)
unfolding contains
validate_batch_id [] seen = err id_required
validate_batch_id (c ∷ id) seen =
    if ltb 80 (length (c ∷ id))
    then err id_too_long
    else if contains seen (c ∷ id)
    then err (duplicate_id (c ∷ id))
    else ok ((c ∷ id) ∷ seen)

pub data EntryError (X : Type 0) : Type 0 where
  bad_id : IdError → EntryError X
  bad_record : X → EntryError X

abbrev pub seen_after : List Bytes → Try IdError (List Bytes) → List Bytes
seen_after seen (err e) = seen
seen_after seen (ok after) = after

module _ {A B X : Type 0} (decode : Bytes → A → Try X B) where
  -- The records for Kafka and the failures, each with the id of its entry.
  abbrev pub Sorted : Type 0
  Sorted = List (Bytes × B) × List (Bytes × EntryError X)

  abbrev pub add_decoded : Bytes → Try X B → Sorted → Sorted
  add_decoded id (err e) (envelopes, failures) = (envelopes, (id, bad_record e) ∷ failures)
  add_decoded id (ok b) (envelopes, failures) = ((id, b) ∷ envelopes, failures)

  abbrev pub add_validated : Bytes → A → Try IdError (List Bytes) → Sorted → Sorted
  add_validated id a (err e) (envelopes, failures) = (envelopes, (id, bad_id e) ∷ failures)
  add_validated id a (ok seen) rest = add_decoded id (decode id a) rest

  unfoldable pub sort_entries : List Bytes → List (Bytes × A) → Sorted
  unfolding validate_batch_id
  sort_entries seen [] = ([], [])
  sort_entries seen ((id, a) ∷ entries) =
      let valid = validate_batch_id id seen in
      add_validated id a valid (sort_entries (seen_after seen valid) entries)
