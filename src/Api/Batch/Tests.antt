-- ===== src/Api/Batch/Tests.antt =====
-- Tests and instances for batches.
use kafka_rest_proxy_go.Common.{ℕ, zero, ◌≡◌, refl, List, [], ◌∷◌}
use kafka_rest_proxy_go.Common.Try.{Try, ok, err}
use kafka_rest_proxy_go.Producer.{Bytes}
use kafka_rest_proxy_go.Go.Strings.{bytes}
use kafka_rest_proxy_go.Api.Batch.{id_required, duplicate_id, bad_id, bad_record, sort_entries}

-- An entry is a number; zero does not decode.
abbrev positive : Bytes → ℕ → Try ℕ ℕ
positive id zero = err 400
positive id n = ok n

abbrev entries : List (Bytes × ℕ)
entries = (bytes "a", 1) ∷ (bytes "", 2) ∷ (bytes "b", 0) ∷ (bytes "b", 3) ∷ (bytes "c", 4) ∷ []

sorted : sort_entries positive [] entries ≡ (
  (bytes "a", 1) ∷ (bytes "c", 4) ∷ [],
  (bytes "", bad_id id_required)
      ∷ (bytes "b", bad_record 400)
      ∷ (bytes "b", bad_id (duplicate_id (bytes "b")))
      ∷ [],
)
unfolding sort_entries
sorted = refl
