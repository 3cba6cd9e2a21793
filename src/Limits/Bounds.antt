-- ===== src/Limits/Bounds.antt =====
-- The counters of the admission controller stay between zero and their limits, an admission is
-- undone by its release, and what happens where a sum leaves int64.
use kafka_rest_proxy_go.Common.{
  ℕ, ◌+◌, ◌-◌, ◌≤◌, ◌<◌, ◌≡◌, refl, ◌∙◌, inl, inr, Bool, true, false, ◌&&◌, ◌||◌, Option, some,
  List, [], ◌∷◌, All, arith, Bool-cases, leb, ◌==◌, if◌then◌else◌,
}
use kafka_rest_proxy_go.Common.Int.{
  add64, ℤ, pos_part, pos, negsuc, int64_bound, uint64_bound, add64_pos, add64_wraps, sub64_pos,
  sub64_neg,
}
use kafka_rest_proxy_go.Limits.{
  Admission, try_acquire, lowered, release, Call, acquires, releases, step, run,
}

-- The state of a controller that `used` and `limit` describe, as plain numbers: a limit of 0 means
-- that there is none.
pub record Counts : Type 0 where
  pub limit_records : ℕ
  pub limit_bytes : ℕ
  pub records : ℕ
  pub bytes : ℕ

abbrev pub admission : Counts → Admission
admission c = record {
  max_records = pos c.limit_records;
  max_bytes = pos c.limit_bytes;
  used_records = pos c.records;
  used_bytes = pos c.bytes;
}

-- Room for `n` more, under a limit or without one.
abbrev pub fits : ℕ → ℕ → ℕ → Bool
fits limit used n = limit == 0 || leb (used + n) limit

abbrev pub InRange : Counts → ℕ → ℕ → Type 0
InRange c r b =
    (c.limit_records < int64_bound)
    × (c.limit_bytes < int64_bound)
    × (c.records + r < int64_bound)
    × (c.bytes + b < int64_bound)

abbrev pub more : Counts → ℕ → ℕ → Counts
more c r b = record c { records = c.records + r; bytes = c.bytes + b }

-- An admission of amounts that are not negative.
pub try_acquire_counts :
    (c : Counts) (r b : ℕ)
    → InRange c r b
    → try_acquire (some (admission c)) (pos r) (pos b) ≡ (
        if fits c.limit_records c.records r && fits c.limit_bytes c.bytes b
        then (some (admission (more c r b)), true)
        else (some (admission c), false))
unfolding try_acquire
try_acquire_counts c r b h = ground (arith, add64_pos c.records r, add64_pos c.bytes b)

abbrev is_negative : ℤ → Bool
is_negative (pos n) = false
is_negative (negsuc n) = true

-- While no sum leaves int64, TryAcquire refuses a negative amount of records or bytes, and otherwise
-- succeeds exactly when both counters have room; it then adds the two amounts to the counters, and a
-- refusal leaves the controller as it was.
pub try_acquire_exact :
    (c : Counts) (r b : ℤ)
    → InRange c (pos_part r) (pos_part b)
    → try_acquire (some (admission c)) r b ≡ (
        if is_negative r || is_negative b
        then (some (admission c), false)
        else if fits c.limit_records c.records (pos_part r)
            && fits c.limit_bytes c.bytes (pos_part b)
        then (some (admission (more c (pos_part r) (pos_part b))), true)
        else (some (admission c), false))
unfolding try_acquire
try_acquire_exact c (pos r) (pos b) h = try_acquire_counts c r b h
try_acquire_exact c (pos r) (negsuc b) h = ground arith
try_acquire_exact c (negsuc r) b h = ground arith

lowered_exact :
    (used n : ℕ)
    → used < int64_bound
    → n < int64_bound
    → lowered (pos used) (pos n) ≡ pos (used - n)
lowered_exact used n h k = ground (arith, sub64_pos used n, sub64_neg used n)

abbrev pub less : Counts → ℕ → ℕ → Counts
less c r b = record c { records = c.records - r; bytes = c.bytes - b }

-- Release takes the two amounts off the counters, and stops at zero.
pub release_exact :
    (c : Counts) (r b : ℕ)
    → c.records < int64_bound
    → c.bytes < int64_bound
    → r < int64_bound
    → b < int64_bound
    → release (some (admission c)) (pos r) (pos b) ≡ some (admission (less c r b))
unfolding release
release_exact c r b h k hr hb = cc (lowered_exact c.records r h hr, lowered_exact c.bytes b k hb)

-- An admission adds the two amounts.
pub admitted_more :
    (c : Counts) (r b : ℕ)
    → InRange c r b
    → (try_acquire (some (admission c)) (pos r) (pos b)).1 ≡ true
    → (try_acquire (some (admission c)) (pos r) (pos b)).0 ≡ some (admission (more c r b))
admitted_more c r b h admitted = ground (arith, try_acquire_counts c r b h)

pub refused_same :
    (c : Counts) (r b : ℕ)
    → InRange c r b
    → (try_acquire (some (admission c)) (pos r) (pos b)).1 ≡ false
    → (try_acquire (some (admission c)) (pos r) (pos b)).0 ≡ some (admission c)
refused_same c r b h refused = ground (arith, try_acquire_counts c r b h)

pub admitted_fits :
    (c : Counts) (r b : ℕ)
    → InRange c r b
    → (try_acquire (some (admission c)) (pos r) (pos b)).1 ≡ true
    → (fits c.limit_records c.records r && fits c.limit_bytes c.bytes b) ≡ true
admitted_fits c r b h admitted = ground (arith, try_acquire_counts c r b h)

-- What TryAcquire admits is what Release gives back: the controller is as before, and admits again
-- whatever it admitted before.
pub release-try_acquire :
    (c : Counts) (r b : ℕ)
    → InRange c r b
    → (try_acquire (some (admission c)) (pos r) (pos b)).1 ≡ true
    → release (try_acquire (some (admission c)) (pos r) (pos b)).0 (pos r) (pos b)
      ≡ some (admission c)
release-try_acquire c r b h admitted = rw (admitted_more c r b h admitted) (
    rw (release_exact (more c r b) r b (omega arith) (omega arith) (omega arith) (omega arith))
      (ground arith))

-- A counter behind an addition, wrapped, and its test: one that leaves int64 always passes.
abbrev pub wrapped : ℕ → ℕ → ℤ
wrapped used n =
    if leb int64_bound (used + n) then negsuc (uint64_bound - 1 - (used + n)) else pos (used + n)

abbrev pub passes : ℕ → ℕ → ℕ → Bool
passes limit used n = leb int64_bound (used + n) || fits limit used n

wrapped_exact :
    (used n : ℕ) → used < int64_bound → n < int64_bound → add64 (pos used) (pos n) ≡ wrapped used n
wrapped_exact used n h k = ground (arith, add64_pos used n, add64_wraps used n)

-- For all amounts and counters of int64 that are not negative, a sum of records or of bytes that leaves
-- int64 passes its test whatever the limit, and the counter it leaves is negative; TryAcquire admits exactly
-- when each sum leaves int64 or has room.
pub try_acquire_overflow :
    (c : Counts) (r b : ℕ)
    → c.records < int64_bound
    → c.bytes < int64_bound
    → r < int64_bound
    → b < int64_bound
    → try_acquire (some (admission c)) (pos r) (pos b) ≡ (
        if passes c.limit_records c.records r && passes c.limit_bytes c.bytes b
        then (
          some (record (admission c) {
            used_records = wrapped c.records r;
            used_bytes = wrapped c.bytes b;
          }),
          true,
        )
        else (some (admission c), false))
unfolding try_acquire
try_acquire_overflow c r b hc hb hr h =
    rw (wrapped_exact c.records r hc hr, wrapped_exact c.bytes b hb h) (ground arith)

-- A history of calls whose amounts are not negative and small enough for no sum to leave int64.
abbrev pub IsSmall : ℕ → ℕ → Call → Type 0
IsSmall r b (acquires x y) = (m : ℕ) × (n : ℕ) × (x ≡ pos m) × (y ≡ pos n) × (m < r) × (n < b)
IsSmall r b (releases x y) = (m : ℕ) × (n : ℕ) × (x ≡ pos m) × (y ≡ pos n) × (m < r) × (n < b)

-- Both counters within their limits, which are set.
pub record IsWithin (c : Counts) : Type 0 where
  pub records_limited : 0 < c.limit_records
  pub bytes_limited : 0 < c.limit_bytes
  pub records_within : c.records ≤ c.limit_records
  pub bytes_within : c.bytes ≤ c.limit_bytes

pub more-IsWithin :
    (c : Counts) (r b : ℕ)
    → IsWithin c
    → (fits c.limit_records c.records r && fits c.limit_bytes c.bytes b) ≡ true
    → IsWithin (more c r b)
more-IsWithin c r b v h = ground arith

-- What a history keeps of the controller: its limits, and both counters within them.
abbrev pub Keeps : Counts → Option Admission → Type 0
Keeps c s =
    (d : Counts) × (s ≡ some (admission d))
    × IsWithin d
    × (d.limit_records ≡ c.limit_records)
    × (d.limit_bytes ≡ c.limit_bytes)

abbrev pub IsRoomy : ℕ → ℕ → Counts → Type 0
IsRoomy r b c = (c.limit_records + r ≤ int64_bound) × (c.limit_bytes + b ≤ int64_bound)

step-Keeps :
    (r b : ℕ) (c : Counts) (k : Call)
    → IsWithin c
    → IsRoomy r b c
    → IsSmall r b k
    → Keeps c (step (some (admission c)) k)
unfolding step
step-Keeps r b c (acquires x y) v w (m, n, ex, ey, hm, hn) =
    rw (ex, ey)
      (elim (Bool-cases (try_acquire (some (admission c)) (pos m) (pos n)).1) [
        | inl yes_ ↦ (
          more c m n,
          admitted_more c m n (omega arith) yes_,
          more-IsWithin c m n v (admitted_fits c m n (omega arith) yes_),
          refl,
          refl,
        )
        | inr no_ ↦ (c, refused_same c m n (omega arith) no_, v, refl, refl)
      ])
step-Keeps r b c (releases x y) v w (m, n, ex, ey, hm, hn) =
    rw (ex, ey)
      (
        less c m n,
        release_exact c m n (omega arith) (omega arith) (omega arith) (omega arith),
        ground arith,
        refl,
        refl,
      )

-- A controller whose two limits are set and whose counters are within them stays so through every
-- history of calls with amounts that are not negative, below `r` and `b`, where a limit and such an
-- amount together do not leave int64.
pub run-Keeps :
    (r b : ℕ) (c : Counts) (cs : List Call)
    → IsWithin c
    → IsRoomy r b c
    → All (IsSmall r b) cs
    → Keeps c (run (some (admission c)) cs)
unfolding run
run-Keeps r b c [] v w h = (c, refl, v, refl, refl)
run-Keeps r b c (k ∷ cs) v w (h, hs) =
    let (d, e, vd, er, eb) = step-Keeps r b c k v w h in
    let (d', e', v', er', eb') = run-Keeps r b d cs vd (omega arith) hs in
    (d', rw e e', v', er' ∙ er, eb' ∙ eb)
