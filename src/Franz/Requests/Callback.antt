-- ===== src/Franz/Requests/Callback.antt =====
-- One callback and one release, against the outcomes reported so far.
use kafka_rest_proxy_go.Common.{
  replicate, length-replicate, ℕ, zero, suc, ◌+◌, ◌<◌, ◌≤◌, ◌≡◌, refl, sym, ap, ◌∙◌, true, false,
  Option, none, some, List, [], ◌∷◌, length, get_elem?, set, arith, ◌==◌, if◌then◌else◌, length-set,
}
use kafka_rest_proxy_go.Common.Int.{ℤ, pos, negsuc, pos_part, add64, int64_bound}
use kafka_rest_proxy_go.Limits.Bounds.{Counts, admission, less, release_exact}
use kafka_rest_proxy_go.Producer.{Result}
use kafka_rest_proxy_go.Franz.Requests.{
  batch_bound, zero_result, new_request_state, RequestState, Outcome, result_of, release_state,
  close_done, complete,
}

add64_pred : (n : ℕ) → suc n < int64_bound → add64 (pos (suc n)) (negsuc 0) ≡ pos n
unfolding add64
add64_pred n h = ground arith

module _ {E : Type 0} where
  -- The callbacks that have not run.
  abbrev pub pending : List (Option (Outcome E)) → ℕ
  pending [] = 0
  pending (none ∷ os) = suc (pending os)
  pending (some o ∷ os) = pending os

  -- Each reported outcome is stored at its record's place.
  abbrev pub Match : List (Option (Outcome E)) → List (Result E) → Type 0
  Match [] [] = Unit
  Match (none ∷ os) (r ∷ rs) = Match os rs
  Match (some o ∷ os) (r ∷ rs) = (r ≡ result_of o) × Match os rs
  Match [] (_ ∷ _) = ⊥
  Match (_ ∷ _) [] = ⊥

  pub Match-length :
      (os : List (Option (Outcome E))) (rs : List (Result E)) → Match os rs → length os ≡ length rs
  Match-length [] [] m = refl
  Match-length (none ∷ os) (r ∷ rs) m = omega (arith, Match-length os rs m)
  Match-length (some o ∷ os) (r ∷ rs) (_, m) = omega (arith, Match-length os rs m)
  Match-length [] (_ ∷ _) m = absurd m
  Match-length (none ∷ _) [] m = absurd m
  Match-length (some _ ∷ _) [] m = absurd m

  pub Match-set :
      (os : List (Option (Outcome E))) (rs : List (Result E)) (j : ℕ) (o : Outcome E)
      → Match os rs
      → Match (set os j (some o)) (set rs j (result_of o))
  Match-set [] [] j o m = tt
  Match-set (none ∷ os) (r ∷ rs) zero o m = (refl, m)
  Match-set (some p ∷ os) (r ∷ rs) zero o (_, m) = (refl, m)
  Match-set (none ∷ os) (r ∷ rs) (suc j) o m = Match-set os rs j o m
  Match-set (some p ∷ os) (r ∷ rs) (suc j) o (e, m) = (e, Match-set os rs j o m)
  Match-set [] (_ ∷ _) j o m = absurd m
  Match-set (none ∷ _) [] j o m = absurd m
  Match-set (some _ ∷ _) [] j o m = absurd m

  pending-set :
      (os : List (Option (Outcome E))) (j : ℕ) (o : Outcome E)
      → get_elem? os j ≡ some none
      → pending os ≡ suc (pending (set os j (some o)))
  pending-set [] j o e = cc
  pending-set (none ∷ os) zero o e = refl
  pending-set (some p ∷ os) zero o e = ground arith
  pending-set (none ∷ os) (suc j) o e = omega (arith, pending-set os j o e)
  pending-set (some p ∷ os) (suc j) o e = pending-set os j o e

  pending-lt : (os : List (Option (Outcome E))) (j : ℕ) → get_elem? os j ≡ some none → j < length os
  pending-lt [] j e = cc
  pending-lt (p ∷ os) zero e = omega arith
  pending-lt (p ∷ os) (suc j) e = omega (arith, pending-lt os j e)

  pub pending-le-length : (os : List (Option (Outcome E))) → pending os ≤ length os
  pending-le-length [] = omega arith
  pending-le-length (none ∷ os) = omega (arith, pending-le-length os)
  pending-le-length (some o ∷ os) = omega (arith, pending-le-length os)

  -- What the state of a request holds, given the outcomes so far.
  pub record Tracks (st : RequestState E) (os : List (Option (Outcome E))) : Type 0 where
    pub matched : Match os st.results
    pub remaining_is : st.remaining ≡ pos (pending os)
    pub records_is : st.records ≡ pos (length os)
    pub bytes : ℕ
    pub bytes_is : st.bytes ≡ pos bytes
    pub records_small : length os < batch_bound
    pub bytes_small : bytes < batch_bound
    pub done_is : st.done ≡ (pending os == 0)
    pub done_released : st.done ≡ true → st.released ≡ true

  replicate_fresh :
      (n : ℕ) (r : Result E)
      → Match (replicate n none) (replicate n r)
        × (pending (replicate {A = Option (Outcome E)} n none) ≡ n)
  replicate_fresh zero r = (tt, refl)
  replicate_fresh (suc n) r = let (m, e) = replicate_fresh n r in (m, ap suc e)

  pub fresh-Tracks :
      (n b : ℕ)
      → 0 < n
      → n < batch_bound
      → b < batch_bound
      → Tracks (new_request_state n (pos n) (pos b)) (replicate n none)
  unfolding new_request_state
  fresh-Tracks n b h hn hb = record {
    matched = (replicate_fresh n zero_result).0;
    remaining_is = ap pos (sym (replicate_fresh n zero_result).1);
    records_is = ap pos (sym (length-replicate n none));
    bytes = b;
    bytes_is = refl;
    records_small = omega (arith, length-replicate {0} {A = Option (Outcome E)} n none);
    bytes_small = hb;
    done_is = rw ((replicate_fresh n zero_result).1) (ground arith);
    done_released = λ d. cc;
  }

  -- What a request still holds of the controller.
  abbrev pub held_by : (RequestState E → ℤ) → RequestState E → ℕ
  held_by amount st = if st.released then 0 else pos_part (amount st)

  -- The controller gives back what the request no longer holds, and nothing else.
  pub record Shift (c : Counts) (st : RequestState E) (d : Counts) (st' : RequestState E)
      : Type 0 where
    pub limit_records_kept : d.limit_records ≡ c.limit_records
    pub limit_bytes_kept : d.limit_bytes ≡ c.limit_bytes
    pub records_moved :
        d.records + held_by (λ s. s.records) st ≡ c.records + held_by (λ s. s.records) st'
    pub records_fall : held_by (λ s. s.records) st' ≤ held_by (λ s. s.records) st
    pub bytes_fall : held_by (λ s. s.bytes) st' ≤ held_by (λ s. s.bytes) st
    pub released_kept : st.released ≡ true → st'.released ≡ true
    pub bytes_moved : d.bytes + held_by (λ s. s.bytes) st ≡ c.bytes + held_by (λ s. s.bytes) st'

  pub record Holds (c : Counts) (st : RequestState E) : Type 0 where
    pub records_range : c.records < int64_bound
    pub bytes_range : c.bytes < int64_bound
    pub records_held : held_by (λ s. s.records) st ≤ c.records
    pub bytes_held : held_by (λ s. s.bytes) st ≤ c.bytes

  abbrev pub after_release : Counts → RequestState E → Counts
  after_release c st = if st.released then c else less c (pos_part st.records) (pos_part st.bytes)

  pub release_state_exact :
      (st : RequestState E) (m b : ℕ) (c : Counts)
      → st.records ≡ pos m
      → st.bytes ≡ pos b
      → m < batch_bound
      → b < batch_bound
      → Holds c st
      → release_state (st, some (admission c))
        ≡ (record st { released = true }, some (admission (after_release c st)))
  unfolding release_state
  release_state_exact st m b c em eb hm hb h = ground (arith, release_exact c m b)

  pub release_state-Shift :
      (st : RequestState E) (c : Counts)
      → Holds c st
      → Shift c st (after_release c st) (record st { released = true })
  release_state-Shift st c h = ground arith

  abbrev stored : RequestState E → ℕ → Outcome E → ℕ → RequestState E
  stored st j o k = record st { results = set st.results j (result_of o); remaining = pos k }

  -- Where callbacks are left, the outcome is stored and counted.
  complete_more :
      (j : ℕ) (o : Outcome E) (st : RequestState E) (os : List (Option (Outcome E))) (c : Counts)
      (k : ℕ)
      → Tracks st os
      → j < length st.results
      → pending os ≡ suc (suc k)
      → complete j o (st, some (admission c)) ≡ some (stored st j o (suc k), some (admission c))
  unfolding complete
  complete_more j o st os c k v hj e = ground (arith, add64_pred (suc k), pending-le-length os)

  -- The last callback releases the request and closes its channel, which is open.
  complete_last :
      (j : ℕ) (o : Outcome E) (st : RequestState E) (os : List (Option (Outcome E))) (c : Counts)
      → Tracks st os
      → Holds c st
      → j < length st.results
      → pending os ≡ 1
      → complete j o (st, some (admission c))
        ≡ some (
          record (stored st j o 0) { released = true; done = true },
          some (admission (after_release c st)),
        )
  unfolding complete close_done
  complete_last j o st os c v h hj e = ground (
    arith,
    add64_pred 0,
    release_state_exact (stored st j o 0) (length os) v.bytes c v.records_is v.bytes_is
        v.records_small v.bytes_small
        (record {
          records_range = h.records_range;
          bytes_range = h.bytes_range;
          records_held = h.records_held;
          bytes_held = h.bytes_held;
        }),
  )

  pub not_done :
      (st : RequestState E) (os : List (Option (Outcome E))) (j : ℕ) (o : Outcome E)
      → Tracks st os
      → get_elem? os j ≡ some none
      → st.done ≡ false
  not_done st os j o v e = ground (arith, v.done_is, pending-set os j o e)

  -- A pending callback runs without a panic, keeps the state in step with the outcomes, and gives
  -- the controller back what the request stops holding.
  pub complete-Tracks :
      (j : ℕ) (o : Outcome E) (st : RequestState E) (os : List (Option (Outcome E))) (c : Counts)
      → Tracks st os
      → Holds c st
      → get_elem? os j ≡ some none
      → (st' : RequestState E) × (d : Counts) × (complete j o (st, some (admission c))
          ≡ some (st', some (admission d)))
        × Tracks st' (set os j (some o))
        × Shift c st d st'
  complete-Tracks j o st os c v h e = by_left (pending (set os j (some o))) refl
    where
      left : pending os ≡ suc (pending (set os j (some o)))
      left = pending-set os j o e

      place : j < length st.results
      place = omega (arith, pending-lt os j e, Match-length os st.results v.matched)

      by_left :
          (k : ℕ)
          → pending (set os j (some o)) ≡ k
          → (st' : RequestState E) × (d : Counts) × (complete j o (st, some (admission c))
              ≡ some (st', some (admission d)))
            × Tracks st' (set os j (some o))
            × Shift c st d st'
      by_left zero ek = (
        record (stored st j o 0) { released = true; done = true },
        after_release c st,
        complete_last j o st os c v h place (left ∙ ap suc ek),
        record {
          matched = Match-set os st.results j o v.matched;
          remaining_is = ap pos (sym ek);
          records_is = v.records_is ∙ ap pos (sym (length-set os j (some o)));
          bytes = v.bytes;
          bytes_is = v.bytes_is;
          records_small = omega (arith, length-set os j (some o), v.records_small);
          bytes_small = v.bytes_small;
          done_is = rw ek refl;
          done_released = λ _. refl;
        },
        ground arith,
      )
      by_left (suc k) ek = (
        stored st j o (suc k),
        c,
        complete_more j o st os c k v place (left ∙ ap suc ek),
        record {
          matched = Match-set os st.results j o v.matched;
          remaining_is = ap pos (sym ek);
          records_is = v.records_is ∙ ap pos (sym (length-set os j (some o)));
          bytes = v.bytes;
          bytes_is = v.bytes_is;
          records_small = omega (arith, length-set os j (some o), v.records_small);
          bytes_small = v.bytes_small;
          done_is = ground (arith, v.done_is, ek, left);
          done_released = v.done_released;
        },
        ground arith,
      )
