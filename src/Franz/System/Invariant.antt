-- ===== src/Franz/System/Invariant.antt =====
-- The controller counts exactly what the requests in flight hold, and stays within its limits,
-- through every interleaving of requests, callbacks, cancellations and close.
use kafka_rest_proxy_go.Common.{
  ℕ, ◌≤◌, ◌<◌, ◌≡◌, refl, sym, subst, ◌∙◌, true, false, Option, none, some, List, ◌∷◌, length,
  get_elem?, set, All, arith,
}
use kafka_rest_proxy_go.Common.Int.{ℤ, pos}
use kafka_rest_proxy_go.Limits.{Admission}
use kafka_rest_proxy_go.Limits.Bounds.{more-IsWithin, InRange, Counts, admission, more, IsWithin}
use kafka_rest_proxy_go.Producer.{Record, ProduceError}
use kafka_rest_proxy_go.Franz.{KgoRecord}
use kafka_rest_proxy_go.Franz.Requests.{
  batch_bound, batch_payload, RequestState, Outcome, results, failed, waits, new_request_state,
  release_state, complete, produce,
}
use kafka_rest_proxy_go.Franz.Requests.Start.{waits_inv}
use kafka_rest_proxy_go.Franz.Requests.Callback.{
  fresh-Tracks, Tracks, Holds, Shift, held_by, after_release, release_state_exact,
  release_state-Shift, not_done, complete-Tracks,
}
use kafka_rest_proxy_go.Franz.System.{
  Caller, waiting, gone, Request, Producer, new, fresh, replace, Step, begin, callback, deliver,
  give_up, close, Reach, here, next,
}
use kafka_rest_proxy_go.Franz.System.Held.{All-get_elem?, All-set, held, held_by-le-held, held-set}

module _ {E : Type 0} where
  -- A call that returned results saw its channel closed and the results as they are; one that gave
  -- up has released.
  abbrev pub Answered : Caller E → RequestState E → Type 0
  Answered waiting st = Unit
  Answered (gone (results rs)) st = (st.done ≡ true) × (rs ≡ st.results)
  Answered (gone (failed e)) st = st.released ≡ true

  pub record IsValid (q : Request E) : Type 0 where
    pub tracks : Tracks q.state q.outcomes
    pub answered : Answered q.caller q.state

  abbrev pub records_of : RequestState E → ℤ
  records_of st = st.records

  abbrev pub bytes_of : RequestState E → ℤ
  bytes_of st = st.bytes

module _ {E : Type 0} (max_records max_bytes : ℕ) where
  pub record Inv (p : Producer E) : Type 0 where
    pub counts : Counts
    pub admit_is : p.admit ≡ some (admission counts)
    pub within : IsWithin counts
    pub limit_records_is : counts.limit_records ≡ max_records
    pub limit_bytes_is : counts.limit_bytes ≡ max_bytes
    pub records_room : counts.limit_records ≤ batch_bound
    pub bytes_room : counts.limit_bytes ≤ batch_bound
    pub records_held : counts.records ≡ held records_of p.requests
    pub bytes_held : counts.bytes ≡ held bytes_of p.requests
    pub valid : All IsValid p.requests

  pub Inv-Holds :
      (p : Producer E) (v : Inv p) (i : ℕ) (q : Request E)
      → get_elem? p.requests i ≡ some q
      → Holds v.counts q.state
  Inv-Holds p v i q e = record {
    records_range = omega (arith, v.within, v.records_room);
    bytes_range = omega (arith, v.within, v.bytes_room);
    records_held = omega (arith, v.records_held, held_by-le-held records_of p.requests i {q = q} e);
    bytes_held = omega (arith, v.bytes_held, held_by-le-held bytes_of p.requests i {q = q} e);
  }

  -- An update of one request that moves the controller with what the request holds.
  replace-Inv :
      (p : Producer E) (v : Inv p) (i : ℕ) (q : Request E) (st : RequestState E) (d : Counts)
      (outcomes : List (Option (Outcome E))) (caller : Caller E)
      → get_elem? p.requests i ≡ some q
      → Shift v.counts q.state d st
      → IsValid (record { state = st; outcomes = outcomes; caller = caller })
      → Inv (replace p i q (st, some (admission d)) outcomes caller)
  replace-Inv p v i q st d outcomes caller e s w =
      let q' : Request E = record { state = st; outcomes = outcomes; caller = caller } in
      record {
        counts = d;
        admit_is = refl;
        within = omega (arith, v.within, s);
        limit_records_is = s.limit_records_kept ∙ v.limit_records_is;
        limit_bytes_is = s.limit_bytes_kept ∙ v.limit_bytes_is;
        records_room = omega (arith, s.limit_records_kept, v.records_room);
        bytes_room = omega (arith, s.limit_bytes_kept, v.bytes_room);
        records_held =
            omega (arith, s.records_moved, v.records_held, held-set records_of p.requests i q q' e);
        bytes_held =
            omega (arith, s.bytes_moved, v.bytes_held, held-set bytes_of p.requests i q q' e);
        valid = All-set IsValid p.requests i v.valid w;
      }

  Answered-kept :
      (k : Caller E) (st st' : RequestState E)
      → Answered k st
      → st.done ≡ false
      → (st.released ≡ true → st'.released ≡ true)
      → Answered k st'
  Answered-kept waiting st st' a d r = tt
  Answered-kept (gone (results rs)) st st' a d r = absurd (let t : true ≡ false = sym a.0 ∙ d in cc)
  Answered-kept (gone (failed e)) st st' a d r = r a

  callback-Inv :
      (p : Producer E) (v : Inv p) (i j : ℕ) (o : Outcome E) (q : Request E)
      (after : RequestState E × Option Admission)
      → get_elem? p.requests i ≡ some q
      → get_elem? q.outcomes j ≡ some none
      → complete j o (q.state, p.admit) ≡ some after
      → Inv (replace p i q after (set q.outcomes j (some o)) q.caller)
  callback-Inv p v i j o q after e ej run =
      let w = All-get_elem? IsValid p.requests i v.valid e in
      let (st, d, ran, tracks, shift) =
        complete-Tracks j o q.state q.outcomes v.counts w.tracks (Inv-Holds p v i q e) ej in
      let same : (st, some (admission d)) ≡ after = cc (ran, v.admit_is) in
      subst (λ a. Inv (replace p i q a (set q.outcomes j (some o)) q.caller)) same
        (replace-Inv p v i q st d (set q.outcomes j (some o)) q.caller e shift (record {
          tracks = tracks;
          answered =
              Answered-kept q.caller q.state st w.answered
                (not_done q.state q.outcomes j o w.tracks ej) shift.released_kept;
        }))

  deliver-Inv :
      (p : Producer E) (v : Inv p) (i : ℕ) (q : Request E)
      → get_elem? p.requests i ≡ some q
      → q.state.done ≡ true
      → Inv (replace p i q (q.state, p.admit) q.outcomes (gone (results q.state.results)))
  deliver-Inv p v i q e d =
      let w = All-get_elem? IsValid p.requests i v.valid e in
      rw (v.admit_is) (
        replace-Inv p v i q q.state v.counts q.outcomes _ e unmoved
          (record { tracks = w.tracks; answered = (d, refl) }))
    where
      unmoved : Shift v.counts q.state v.counts q.state
      unmoved = ground arith

  give_up-Inv :
      (p : Producer E) (v : Inv p) (i : ℕ) (e : ProduceError E) (q : Request E)
      → get_elem? p.requests i ≡ some q
      → Inv (replace p i q (release_state (q.state, p.admit)) q.outcomes (gone (failed e)))
  give_up-Inv p v i err q e =
      let w = All-get_elem? IsValid p.requests i v.valid e in
      let t = w.tracks in
      let h = Inv-Holds p v i q e in
      rw
        (
          v.admit_is,
          release_state_exact q.state (length q.outcomes) t.bytes v.counts t.records_is t.bytes_is
              t.records_small t.bytes_small h,
        )
        (replace-Inv p v i q (record q.state { released = true }) (after_release v.counts q.state)
          q.outcomes (gone (failed err)) e (release_state-Shift q.state v.counts h)
          (record {
            tracks = record {
              matched = t.matched;
              remaining_is = t.remaining_is;
              records_is = t.records_is;
              bytes = t.bytes;
              bytes_is = t.bytes_is;
              records_small = t.records_small;
              bytes_small = t.bytes_small;
              done_is = t.done_is;
              done_released = λ _. refl;
            };
            answered = refl;
          }))

  begin-Inv :
      (p : Producer E) (v : Inv p) (rs : List Record) (st : RequestState E)
      (admit : Option Admission) (sent : List KgoRecord)
      → length rs < batch_bound
      → batch_payload rs < batch_bound
      → produce p.close_flag p.admit rs ≡ waits st admit sent
      → Inv (record p { admit = admit; requests = fresh st (length rs) ∷ p.requests })
  unfolding held new_request_state
  begin-Inv p v rs st admit sent hr hb e =
      let n : ℕ = length rs in
      let b : ℕ = batch_payload rs in
      let c = v.counts in
      let range : InRange c n b = omega (arith, v.within, v.records_room, v.bytes_room) in
      let started : produce p.close_flag (some (admission c)) rs ≡ waits st admit sent =
        rw (← v.admit_is) e in
      let (st_is, admit_is, fit, some_records) = waits_inv p.close_flag c rs range started in
      let holds : (held_by records_of st ≡ n) × (held_by bytes_of st ≡ b) =
        rw (st_is, new_request_state) (refl, refl) in
      record {
        counts = more c n b;
        admit_is = admit_is;
        within = more-IsWithin c n b v.within fit;
        limit_records_is = v.limit_records_is;
        limit_bytes_is = v.limit_bytes_is;
        records_room = v.records_room;
        bytes_room = v.bytes_room;
        records_held = omega (arith, v.records_held, holds.0);
        bytes_held = omega (arith, v.bytes_held, holds.1);
        valid = (
          subst (λ t. IsValid (fresh t n)) (sym st_is)
              (record { tracks = fresh-Tracks n b some_records hr hb; answered = tt }),
          v.valid,
        );
      }

  Step-Inv : {p s : Producer E} → Step p s → Inv p → Inv s
  Step-Inv {p} (begin rs {st} {admit} {sent} hr hb e) v = begin-Inv p v rs st admit sent hr hb e
  Step-Inv {p} (callback i j o {q} {after} e ej run) v = callback-Inv p v i j o q after e ej run
  Step-Inv {p} (deliver i {q} e _ d) v = deliver-Inv p v i q e d
  Step-Inv {p} (give_up i err {q} e _ _) v = give_up-Inv p v i err q e
  Step-Inv {p} close v = record {
    counts = v.counts;
    admit_is = v.admit_is;
    within = v.within;
    limit_records_is = v.limit_records_is;
    limit_bytes_is = v.limit_bytes_is;
    records_room = v.records_room;
    bytes_room = v.bytes_room;
    records_held = v.records_held;
    bytes_held = v.bytes_held;
    valid = v.valid;
  }

  pub Reach-Inv : {p s : Producer E} → Reach p s → Inv p → Inv s
  Reach-Inv here v = v
  Reach-Inv (next r st) v = Step-Inv st (Reach-Inv r v)

  pub new-Inv :
      0 < max_records
      → 0 < max_bytes
      → max_records ≤ batch_bound
      → max_bytes ≤ batch_bound
      → Inv (new {E = E} (pos max_records) (pos max_bytes))
  unfolding held
  new-Inv hr hb kr kb = record {
    counts = record {
      limit_records = max_records;
      limit_bytes = max_bytes;
      records = 0;
      bytes = 0;
    };
    admit_is = refl;
    within = omega arith;
    limit_records_is = refl;
    limit_bytes_is = refl;
    records_room = kr;
    bytes_room = kb;
    records_held = refl;
    bytes_held = refl;
    valid = tt;
  }
