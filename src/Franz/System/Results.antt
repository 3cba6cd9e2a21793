-- ===== src/Franz/System/Results.antt =====
-- What callers of the producer rely on, over every interleaving.
use kafka_rest_proxy_go.Common.{
  ℕ, ◌≤◌, ◌<◌, ◌≡◌, refl, subst, ◌∙◌, true, ◌⊎◌, inl, inr, Option, none, some, List, [], ◌∷◌, map,
  get_elem?, All, arith,
}
use kafka_rest_proxy_go.Common.Int.{ℤ, pos}
use kafka_rest_proxy_go.Limits.{Admission, new_admission}
use kafka_rest_proxy_go.Limits.Bounds.{Counts, admission}
use kafka_rest_proxy_go.Producer.{Result, ProduceError}
use kafka_rest_proxy_go.Franz.Requests.{
  batch_bound, RequestState, Outcome, results, failed, result_of, complete,
}
use kafka_rest_proxy_go.Franz.Requests.Callback.{pending, Match, complete-Tracks}
use kafka_rest_proxy_go.Franz.System.{
  Caller, waiting, gone, Request, Producer, new, replace, Step, deliver, Reach,
}
use kafka_rest_proxy_go.Franz.System.Held.{All-get_elem?, held}
use kafka_rest_proxy_go.Franz.System.Invariant.{
  Answered, IsValid, Inv, Inv-Holds, Reach-Inv, new-Inv, records_of, bytes_of,
}

module _ {E : Type 0} where
  Match-complete :
      (os : List (Option (Outcome E))) (rs : List (Result E))
      → Match os rs
      → pending os ≡ 0
      → (xs : List (Outcome E)) × (os ≡ map some xs) × (rs ≡ map result_of xs)
  Match-complete [] [] m h = ([], refl, refl)
  Match-complete (none ∷ os) (r ∷ rs) m h = absurd (omega arith)
  Match-complete (some o ∷ os) (r ∷ rs) (e, m) h =
      let (xs, eo, er) = Match-complete os rs m h in (o ∷ xs, cc, cc)
  Match-complete [] (_ ∷ _) m h = absurd m
  Match-complete (none ∷ _) [] m h = absurd m
  Match-complete (some _ ∷ _) [] m h = absurd m

  -- A request that has no callback left, or whose caller gave up, holds nothing.
  abbrev pub IsOver : Request E → Type 0
  IsOver q = (pending q.outcomes ≡ 0) ⊎ ((e : ProduceError E) × (q.caller ≡ gone (failed e)))

  released_of_IsOver : (q : Request E) → IsValid q → IsOver q → q.state.released ≡ true
  released_of_IsOver q v (inl e) = v.tracks.done_released (ground (arith, v.tracks.done_is))
  released_of_IsOver q v (inr (e, g)) = by_caller q.caller v.answered g
    where
      by_caller :
          (k : Caller E) → Answered k q.state → k ≡ gone (failed e) → q.state.released ≡ true
      by_caller waiting a g = cc
      by_caller (gone (results rs)) a g = cc
      by_caller (gone (failed e')) a g = a

  held_over :
      (amount : RequestState E → ℤ) (qs : List (Request E))
      → All IsValid qs
      → All IsOver qs
      → held amount qs ≡ 0
  unfolding held
  held_over amount [] v o = refl
  held_over amount (q ∷ qs) (v, vs) (o, os) =
      ground (arith, released_of_IsOver q v o, held_over amount qs vs os)

-- The producer of the theorems: New with both limits positive and at most 2^62.
module _ {E : Type 0} (max_records max_bytes : ℕ) (records_pos : 0 < max_records)
    (bytes_pos : 0 < max_bytes) (records_small : max_records ≤ batch_bound)
    (bytes_small : max_bytes ≤ batch_bound) where
  invariant :
      {p : Producer E}
      → Reach (new (pos max_records) (pos max_bytes)) p
      → Inv max_records max_bytes p
  invariant r =
      Reach-Inv max_records max_bytes r
        (new-Inv max_records max_bytes records_pos bytes_pos records_small bytes_small)

  -- At every moment the controller's counters are what the requests that have not released hold,
  -- in records and in bytes, and neither is above its limit.
  pub admission_conserved :
      {p : Producer E}
      → Reach (new (pos max_records) (pos max_bytes)) p
      → (c : Counts) × (p.admit ≡ some (admission c))
        × (c.limit_records ≡ max_records)
        × (c.limit_bytes ≡ max_bytes)
        × (c.records ≡ held records_of p.requests)
        × (c.bytes ≡ held bytes_of p.requests)
        × (c.records ≤ max_records)
        × (c.bytes ≤ max_bytes)
  admission_conserved r =
      let v = invariant r in
      (
        v.counts,
        v.admit_is,
        v.limit_records_is,
        v.limit_bytes_is,
        v.records_held,
        v.bytes_held,
        omega (arith, v.within, v.limit_records_is),
        omega (arith, v.within, v.limit_bytes_is),
      )

  -- Once every request is over, the controller is as `New` made it.
  pub admission_drained :
      {p : Producer E}
      → Reach (new (pos max_records) (pos max_bytes)) p
      → All IsOver p.requests
      → p.admit ≡ some (new_admission (pos max_records) (pos max_bytes))
  admission_drained {p} r o =
      let v = invariant r in
      ground (
        arith,
        v.admit_is,
        v.limit_records_is,
        v.limit_bytes_is,
        v.records_held,
        v.bytes_held,
        held_over records_of p.requests v.valid o,
        held_over bytes_of p.requests v.valid o,
      )

  -- A callback that has not run can always run: no index is out of range, and no channel is closed
  -- twice.
  pub callback_total :
      {p : Producer E} {q : Request E} (i j : ℕ) (o : Outcome E)
      → Reach (new (pos max_records) (pos max_bytes)) p
      → get_elem? p.requests i ≡ some q
      → get_elem? q.outcomes j ≡ some none
      → (after : RequestState E × Option Admission) × (complete j o (q.state, p.admit) ≡ some after)
  callback_total {p} {q} i j o r e ej =
      let v = invariant r in
      let w = All-get_elem? IsValid p.requests i v.valid e in
      let h = Inv-Holds max_records max_bytes p v i q e in
      let (st, d, ran, _, _) = complete-Tracks j o q.state q.outcomes v.counts w.tracks h ej in
      ((st, some (admission d)), cc (ran, v.admit_is))

  -- The results that a call returned are, in the order of its records, those of the outcomes that
  -- the client reported, one for each record.
  pub returned_results :
      {p : Producer E} {q : Request E} {rs : List (Result E)} (i : ℕ)
      → Reach (new (pos max_records) (pos max_bytes)) p
      → get_elem? p.requests i ≡ some q
      → q.caller ≡ gone (results rs)
      → (xs : List (Outcome E)) × (q.outcomes ≡ map some xs) × (rs ≡ map result_of xs)
  returned_results {p} {q} {rs} i r e g =
      let v = invariant r in
      let w = All-get_elem? IsValid p.requests i v.valid e in
      let (d, same) = by_caller w in
      let (xs, eo, er) =
        Match-complete q.outcomes q.state.results w.tracks.matched
          (ground (arith, w.tracks.done_is)) in
      (xs, eo, same ∙ er)
    where
      by_caller : IsValid q → (q.state.done ≡ true) × (rs ≡ q.state.results)
      by_caller w = subst (λ k. Answered k q.state) g w.answered

  -- A waiting call whose callbacks have all run can return, and what it returns are the results of
  -- the reported outcomes in order.
  pub deliverable :
      {p : Producer E} {q : Request E} (i : ℕ)
      → Reach (new (pos max_records) (pos max_bytes)) p
      → get_elem? p.requests i ≡ some q
      → q.caller ≡ waiting
      → pending q.outcomes ≡ 0
      → (xs : List (Outcome E)) × (q.outcomes ≡ map some xs)
        × Step p (replace p i q (q.state, p.admit) q.outcomes (gone (results (map result_of xs))))
  deliverable {p} {q} i r e k h =
      let v = invariant r in
      let w = All-get_elem? IsValid p.requests i v.valid e in
      let (xs, eo, er) = Match-complete q.outcomes q.state.results w.tracks.matched h in
      (
        xs,
        eo,
        subst (λ rs. Step p (replace p i q (q.state, p.admit) q.outcomes (gone (results rs)))) er
            (deliver i e k (ground (arith, w.tracks.done_is))),
      )
