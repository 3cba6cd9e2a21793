-- ===== src/Franz/Requests.antt =====
-- internal/producer/franz/producer.go: requests in flight. `Produce` admits a request, hands its
-- records to the client and waits for its callbacks or for its context; callbacks of all requests
-- and the contexts interleave. A callback, the release at a cancelled context and the start of a
-- request are each one step: what they share is the controller, behind its mutex, and the two
-- atomics of a request, of which one `CompareAndSwap` decides who releases. The Kafka client is the
-- environment: it calls the callback of each record once, with a record or an error.
pub mod Callback
pub mod Start
use kafka_rest_proxy_go.Common.{
  ℕ, ◌+◌, ◌<◌, ◌≡◌, Bool, true, false, Option, none, some, List, [], ◌∷◌, length, get_elem?, set,
  replicate, map, if◌then◌else◌, ltb,
}
use kafka_rest_proxy_go.Common.Int.{ℤ, pos, negsuc, add64}
use kafka_rest_proxy_go.Limits.{Admission, try_acquire, release}
use kafka_rest_proxy_go.Producer.{Record, Result, ProduceError, size_bytes}
use kafka_rest_proxy_go.Producer.Sizes.{payload}
use kafka_rest_proxy_go.Franz.{KgoRecord, acquire_record}

-- 2^62: no batch in memory has more records or bytes.
abbrev pub batch_bound : ℕ
batch_bound = 4611686018427387904

abbrev pub batch_payload : List Record → ℕ
batch_payload [] = 0
batch_payload (r ∷ rs) = payload r + batch_payload rs

pub record RequestState (E : Type 0) : Type 0 where
  pub remaining : ℤ
  pub results : List (Result E)
  pub done : Bool
  pub records : ℤ
  pub bytes : ℤ
  pub released : Bool

-- What a callback reports: the record as the broker placed it, and the error.
pub record Outcome (E : Type 0) : Type 0 where
  pub record_placed : Option KgoRecord
  pub err : Option E

-- The return of a call of `Produce`.
pub data Returned (E : Type 0) : Type 0 where
  results : List (Result E) → Returned E
  failed : ProduceError E → Returned E

abbrev is_zero : ℤ → Bool
is_zero (pos n) = ltb n 1
is_zero (negsuc n) = false

-- The bytes of a batch, as the loop of `Produce` adds them.
unfoldable pub total_bytes : ℤ → List Record → ℤ
total_bytes n [] = n
total_bytes n (r ∷ rs) = total_bytes (add64 n (size_bytes r)) rs

-- What becomes of a call of `Produce`: an early return, or a wait for the callbacks.
pub data Started (E : Type 0) : Type 0 where
  returned : Returned E → Started E
  waits : RequestState E → Option Admission → List KgoRecord → Started E

module _ {E : Type 0} where
  abbrev zero_result : Result E
  zero_result = record { partition = pos 0; offset = pos 0; error_code = none; err = none }

  unfoldable pub new_request_state : ℕ → ℤ → ℤ → RequestState E
  new_request_state n records bytes = record {
    remaining = pos n;
    results = replicate n zero_result;
    done = false;
    records = records;
    bytes = bytes;
    released = false;
  }

  abbrev pub kafka_error_code : Option E → Option ℤ
  kafka_error_code none = none
  kafka_error_code (some e) = some (pos 50002)

  -- The result that `complete` stores for an outcome.
  abbrev placed : Option KgoRecord → Option E → Result E
  placed none err = record {
    partition = pos 0;
    offset = pos 0;
    error_code = kafka_error_code err;
    err = err;
  }
  placed (some r) err = record {
    partition = r.partition;
    offset = r.offset;
    error_code = kafka_error_code err;
    err = err;
  }

  unfoldable pub result_of : Outcome E → Result E
  result_of o = placed o.record_placed o.err

  -- The method `release` of a request.
  unfoldable pub release_state :
      RequestState E × Option Admission → RequestState E × Option Admission
  release_state (st, admit) =
      if st.released
      then (st, admit)
      else (record st { released = true }, release admit st.records st.bytes)

  -- `close(s.done)`, which panics (`none`) on a channel that is closed.
  unfoldable pub close_done :
      RequestState E × Option Admission → Option (RequestState E × Option Admission)
  close_done (st, admit) = if st.done then none else some (record st { done = true }, admit)

  -- One callback. An index out of range panics.
  unfoldable pub complete :
      ℕ → Outcome E → RequestState E × Option Admission → Option (RequestState E × Option Admission)
  unfolding release_state close_done
  complete index o (st, admit) =
      if ltb index (length st.results)
      then (let left = add64 st.remaining (negsuc 0) in
          let st' = record st { results = set st.results index (result_of o); remaining = left } in
          if is_zero left then close_done (release_state (st', admit)) else some (st', admit))
      else none

  abbrev admitted : List Record → ℤ → ℤ → Option Admission × Bool → Started E
  admitted records n bytes (admit, true) =
      waits (new_request_state (length records) n bytes) admit (map acquire_record records)
  admitted records n bytes (admit, false) = returned (failed ProduceError.overloaded)

  -- `Produce` up to its `select`: an early return, or the state, the controller and the records
  -- that go to the client.
  unfoldable pub produce : Bool → Option Admission → List Record → Started E
  unfolding total_bytes new_request_state
  produce true admit records = returned (failed ProduceError.client_closed)
  produce false admit [] = returned (results [])
  produce false admit (r ∷ rs) =
      let n = pos (length (r ∷ rs)) in
      let bytes = total_bytes (pos 0) (r ∷ rs) in
      admitted (r ∷ rs) n bytes (try_acquire admit n bytes)
