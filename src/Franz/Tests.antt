-- ===== src/Franz/Tests.antt =====
-- Tests and instances for the Kafka producer: two requests in flight, one of them cancelled.
use kafka_rest_proxy_go.Common.{
  ℕ, ◌≤◌, ◌≡◌, refl, inl, Bool, true, false, Option, none, some, List, [], ◌∷◌, map, arith,
}
use kafka_rest_proxy_go.Common.Int.{ℤ, pos, add64, sub64}
use kafka_rest_proxy_go.Limits.{Admission, new_admission, try_acquire, release}
use kafka_rest_proxy_go.Limits.Bounds.{Counts, admission}
use kafka_rest_proxy_go.Producer.{Record, Result, ProduceError, size_bytes}
use kafka_rest_proxy_go.Franz.{TopicPartitioner, acquire_record}
use kafka_rest_proxy_go.Franz.Partitions.{backup_or, explicit_partitioner, partition_exact}
use kafka_rest_proxy_go.Franz.Requests.{
  RequestState, Outcome, results, result_of, new_request_state, release_state, complete,
  total_bytes, produce,
}
use kafka_rest_proxy_go.Franz.Requests.Start.{start_of, produce_exact}
use kafka_rest_proxy_go.Franz.System.{
  Producer, Request, waiting, gone, new, replace, Step, begin, callback, deliver, give_up, Reach,
  here, next,
}
use kafka_rest_proxy_go.Franz.System.Held.{held}
use kafka_rest_proxy_go.Franz.System.Invariant.{records_of, bytes_of}
use kafka_rest_proxy_go.Franz.System.Results.{
  admission_conserved, admission_drained, callback_total, returned_results, deliverable,
}

abbrev order : Record
order = record {
  topic = b'o' ∷ [];
  key = some (1 ∷ 2 ∷ []);
  value = some (3 ∷ []);
  headers = [];
  partition = some (pos 4);
}

abbrev note : Record
note = record { topic = b'o' ∷ []; key = none; value = none; headers = []; partition = none }

-- A client whose partitioner always answers 7.
abbrev sevens : TopicPartitioner (Unit {0})
sevens = record {
  requires_consistency = λ _. false;
  partition = λ _ _. pos 7;
  partition_by_backup = none;
}

partition_exact_example :
    ((explicit_partitioner sevens).requires_consistency (acquire_record order) ≡ true)
    × ((explicit_partitioner sevens).partition (acquire_record order) (pos 3) ≡ pos 4)
    × (backup_or
          (explicit_partitioner sevens).partition_by_backup
          (explicit_partitioner sevens)
          (acquire_record order)
          (pos 3)
          tt
        ≡ pos 4)
partition_exact_example = partition_exact sevens order (some 4) (pos 3) tt refl

abbrev wide : Counts
wide = record { limit_records = 3; limit_bytes = 100; records = 0; bytes = 0 }

produce_exact_example :
    produce {E = ℕ} false (some (admission wide)) (order ∷ note ∷ [])
    ≡ start_of false wide (order ∷ note ∷ [])
produce_exact_example = produce_exact false wide (order ∷ note ∷ []) (omega arith)

-- Errors of the client are numbers here.
abbrev start : Producer ℕ
start = new (pos 3) (pos 100)

abbrev state : Bool → List (Result ℕ) → ℕ → RequestState ℕ
state done rs left = record {
  remaining = pos left;
  results = rs;
  done = done;
  records = pos 2;
  bytes = pos 3;
  released = done;
}

abbrev placed_at : ℤ → Outcome ℕ
placed_at offset = record {
  record_placed = some (record {
    topic = [];
    key = none;
    value = none;
    headers = [];
    partition = pos 4;
    offset = offset;
  });
  err = none;
}

abbrev lost : Outcome ℕ
lost = record { record_placed = none; err = some 9 }

abbrev stored : ℤ → Option ℤ → Option ℕ → ℤ → Result ℕ
stored partition code err offset = record {
  partition = partition;
  offset = offset;
  error_code = code;
  err = err;
}

abbrev blank : Result ℕ
blank = stored (pos 0) none none (pos 0)

abbrev controller : ℕ → ℕ → Option Admission
controller records bytes = some (record {
  max_records = pos 3;
  max_bytes = pos 100;
  used_records = pos records;
  used_bytes = pos bytes;
})

abbrev at_work : Option Admission → Request ℕ → Producer ℕ
at_work admit q = record { close_flag = false; admit = admit; requests = q ∷ [] }

-- Two records begin, the second is reported first.
abbrev begun : Producer ℕ
begun = at_work (controller 2 3) (record {
  state = state false (blank ∷ blank ∷ []) 2;
  outcomes = none ∷ none ∷ [];
  caller = waiting;
})

abbrev half_way : Producer ℕ
half_way = at_work (controller 2 3) (record {
  state = state false (blank ∷ stored (pos 0) (some (pos 50002)) (some 9) (pos 0) ∷ []) 1;
  outcomes = none ∷ some lost ∷ [];
  caller = waiting;
})

abbrev final_results : List (Result ℕ)
final_results =
    stored (pos 4) none none (pos 11) ∷ stored (pos 0) (some (pos 50002)) (some 9) (pos 0) ∷ []

abbrev finished : Producer ℕ
finished = at_work (controller 0 0) (record {
  state = state true final_results 0;
  outcomes = some (placed_at (pos 11)) ∷ some lost ∷ [];
  caller = waiting;
})

abbrev answered : Producer ℕ
answered = at_work (controller 0 0) (record {
  state = state true final_results 0;
  outcomes = some (placed_at (pos 11)) ∷ some lost ∷ [];
  caller = gone (results final_results);
})

code : Unit {0}
unfolding produce total_bytes size_bytes new_request_state try_acquire add64 acquire_record complete
    result_of release_state release sub64 held
code = tt

begun_reached : Reach start begun
unfolding code
begun_reached = next here (begin (order ∷ note ∷ []) (omega arith) (omega arith) refl)

half_way_reached : Reach start half_way
unfolding code
half_way_reached = next begun_reached (callback 0 1 lost refl refl refl)

finished_reached : Reach start finished
unfolding code
finished_reached = next half_way_reached (callback 0 0 (placed_at (pos 11)) refl refl refl)

answered_reached : Reach start answered
unfolding code
answered_reached = next finished_reached (deliver 0 refl refl refl)

-- The call gives up after the first callback: it releases, and the last callback does not again.
given_up_reached : (p : Producer ℕ) × Reach start p × (p.admit ≡ controller 0 0)
unfolding code
given_up_reached =
    (_, next half_way_reached (give_up 0 ProduceError.canceled refl refl (inl refl)), refl)

admission_conserved_example :
    (c : Counts) × (controller 2 3 ≡ some (admission c))
    × (c.limit_records ≡ 3)
    × (c.limit_bytes ≡ 100)
    × (c.records ≡ held records_of half_way.requests)
    × (c.bytes ≡ held bytes_of half_way.requests)
    × (c.records ≤ 3)
    × (c.bytes ≤ 100)
admission_conserved_example =
    admission_conserved 3 100 (omega arith) (omega arith) (omega arith) (omega arith)
      half_way_reached

admission_drained_example : answered.admit ≡ some (new_admission (pos 3) (pos 100))
admission_drained_example =
    admission_drained 3 100 (omega arith) (omega arith) (omega arith) (omega arith) answered_reached
      (inl refl, tt)

callback_total_example :
    (after : RequestState ℕ × Option Admission) × (complete 0 (placed_at (pos 11)) (
      state false (blank ∷ stored (pos 0) (some (pos 50002)) (some 9) (pos 0) ∷ []) 1,
      controller 2 3,
    )
      ≡ some after)
callback_total_example =
    callback_total 3 100 (omega arith) (omega arith) (omega arith) (omega arith) 0 0
      (placed_at (pos 11)) half_way_reached refl refl

returned_results_example :
    (xs : List (Outcome ℕ)) × (some (placed_at (pos 11)) ∷ some lost ∷ [] ≡ map some xs)
    × (final_results ≡ map result_of xs)
returned_results_example =
    returned_results 3 100 (omega arith) (omega arith) (omega arith) (omega arith) 0
      answered_reached refl refl

deliverable_example :
    (xs : List (Outcome ℕ)) × (some (placed_at (pos 11)) ∷ some lost ∷ [] ≡ map some xs)
    × Step finished (
        replace finished 0
          (record {
            state = state true final_results 0;
            outcomes = some (placed_at (pos 11)) ∷ some lost ∷ [];
            caller = waiting;
          })
          (state true final_results 0, controller 0 0)
          (some (placed_at (pos 11)) ∷ some lost ∷ [])
          (gone (results (map result_of xs))))
deliverable_example =
    deliverable 3 100 (omega arith) (omega arith) (omega arith) (omega arith) 0 finished_reached
      refl refl refl
