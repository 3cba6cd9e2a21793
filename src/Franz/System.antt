-- ===== src/Franz/System.antt =====
-- The requests of one producer in flight together, as a step relation: `Produce` begins, callbacks
-- run, and each waiting call returns its results or gives up with its context's error. The outcomes
-- that the client has reported so far are kept beside each request; the code does not read them.
pub mod Held
pub mod Invariant
pub mod Results
use kafka_rest_proxy_go.Common.{
  ℕ, ◌+◌, ◌<◌, ◌≡◌, Bool, true, false, ◌⊎◌, Option, none, some, List, [], ◌∷◌, length, get_elem?,
  set, replicate,
}
use kafka_rest_proxy_go.Common.Int.{ℤ, pos}
use kafka_rest_proxy_go.Limits.{Admission, new_admission}
use kafka_rest_proxy_go.Producer.{Record, Result, ProduceError}
use kafka_rest_proxy_go.Producer.Sizes.{payload}
use kafka_rest_proxy_go.Franz.{KgoRecord}
use kafka_rest_proxy_go.Franz.Requests.{
  batch_bound, batch_payload, RequestState, Outcome, Returned, results, failed, Started, waits,
  release_state, complete, produce,
}

-- The call of `Produce` behind a request: at its `select`, or returned.
pub data Caller (E : Type 0) : Type 0 where
  waiting : Caller E
  gone : Returned E → Caller E

pub record Request (E : Type 0) : Type 0 where
  pub state : RequestState E
  pub outcomes : List (Option (Outcome E))
  pub caller : Caller E

pub record Producer (E : Type 0) : Type 0 where
  pub close_flag : Bool
  pub admit : Option Admission
  pub requests : List (Request E)

module _ {E : Type 0} where
  -- `New`, as far as the requests go.
  abbrev pub new : ℤ → ℤ → Producer E
  new max_records max_bytes = record {
    close_flag = false;
    admit = some (new_admission max_records max_bytes);
    requests = [];
  }

  abbrev pub fresh : RequestState E → ℕ → Request E
  fresh st n = record { state = st; outcomes = replicate n none; caller = waiting }

  abbrev pub replace :
      Producer E
      → ℕ
      → Request E
      → RequestState E × Option Admission
      → List (Option (Outcome E))
      → Caller E
      → Producer E
  replace p i q (st, admit) outcomes caller = record p {
    admit = admit;
    requests = set p.requests i (record { state = st; outcomes = outcomes; caller = caller });
  }

  abbrev pub IsContextError : ProduceError E → Type 0
  IsContextError e = (e ≡ ProduceError.canceled) ⊎ (e ≡ ProduceError.deadline_exceeded)

  pub data Step (p : Producer E) : Producer E → Type 0 where
    begin :
        (records : List Record) {st : RequestState E} {admit : Option Admission}
        {sent : List KgoRecord}
        → length records < batch_bound
        → batch_payload records < batch_bound
        → produce p.close_flag p.admit records ≡ waits st admit sent
        → Step p (record p { admit = admit; requests = fresh st (length records) ∷ p.requests })
    callback :
        (i j : ℕ) (o : Outcome E) {q : Request E} {after : RequestState E × Option Admission}
        → get_elem? p.requests i ≡ some q
        → get_elem? q.outcomes j ≡ some none
        → complete j o (q.state, p.admit) ≡ some after
        → Step p (replace p i q after (set q.outcomes j (some o)) q.caller)
    deliver :
        (i : ℕ) {q : Request E}
        → get_elem? p.requests i ≡ some q
        → q.caller ≡ waiting
        → q.state.done ≡ true
        → Step p (replace p i q (q.state, p.admit) q.outcomes (gone (results q.state.results)))
    give_up :
        (i : ℕ) (e : ProduceError E) {q : Request E}
        → get_elem? p.requests i ≡ some q
        → q.caller ≡ waiting
        → IsContextError e
        → Step p (replace p i q (release_state (q.state, p.admit)) q.outcomes (gone (failed e)))
    close : Step p (record p { close_flag = true })

  pub data Reach (p : Producer E) : Producer E → Type 0 where
    here : Reach p p
    next : {s t : Producer E} → Reach p s → Step s t → Reach p t
