-- ===== src/RateLimit.antt =====
-- internal/ratelimit/ratelimit.go: the token bucket. float64 and time.Time are parameters: `Float64`
-- has the operations that the source uses, and `IsIeee` the facts of IEEE arithmetic that the
-- proofs rely on. The clock's reading is an argument of each call, and the mutex makes a call one
-- step. A nil limiter is `none`.
pub mod Tokens
mod Tests
use kafka_rest_proxy_go.Common.{
  ◌≡◌, Bool, true, false, ◌||◌, Option, none, some, List, [], ◌∷◌, if◌then◌else◌, not,
}
use kafka_rest_proxy_go.Common.Int.{ℤ, pos, ltb_ℤ, ◌≤ℤ◌}

-- `lt` and `le` are the comparisons of the language, false where an operand is NaN; `of_int` is the
-- conversion from int64; `seconds now last` is `now.Sub(last).Seconds()`.
pub record Float64 : Type 1 where
  pub Float : Type 0
  pub Time : Type 0
  pub zero : Float
  pub lt : Float → Float → Bool
  pub le : Float → Float → Bool
  pub add : Float → Float → Float
  pub sub : Float → Float → Float
  pub mul : Float → Float → Float
  pub of_int : ℤ → Float
  pub seconds : Time → Time → Float

-- What holds of float64 with infinities and NaN: a sum of a number that is not negative and a
-- product of positive numbers is such a number; two such numbers are comparable; a difference of
-- finite ones lies between zero and the first; conversion from int64 keeps the order.
pub record IsIeee (f : Float64) : Type 0 where
  pub refill_nonneg :
      (t e r : f.Float)
      → f.le f.zero t ≡ true
      → f.lt f.zero e ≡ true
      → f.lt f.zero r ≡ true
      → f.le f.zero (f.add t (f.mul e r)) ≡ true
  pub le_of_not_lt :
      (x y : f.Float)
      → f.le f.zero x ≡ true
      → f.le f.zero y ≡ true
      → f.lt y x ≡ false
      → f.le x y ≡ true
  pub lt_of_le_of_lt : (x y z : f.Float) → f.le x y ≡ true → f.lt y z ≡ true → f.lt x z ≡ true
  pub spend_nonneg :
      (t : f.Float) (b n : ℤ)
      → f.le t (f.of_int b) ≡ true
      → ltb_ℤ (pos 0) n ≡ true
      → f.lt t (f.of_int n) ≡ false
      → f.le f.zero (f.sub t (f.of_int n)) ≡ true
  pub spend_le :
      (t : f.Float) (b n : ℤ)
      → f.le f.zero t ≡ true
      → f.le t (f.of_int b) ≡ true
      → ltb_ℤ (pos 0) n ≡ true
      → f.le (f.sub t (f.of_int n)) (f.of_int b) ≡ true
  pub of_int_nonneg : (b : ℤ) → ltb_ℤ (pos 0) b ≡ true → f.le f.zero (f.of_int b) ≡ true
  pub of_int_refl : (b : ℤ) → f.le (f.of_int b) (f.of_int b) ≡ true

module _ (f : Float64) where
  open f use {Float, Time, zero, lt, le, add, sub, mul, of_int, seconds}

  pub record Limiter : Type 0 where
    pub rate : Float
    pub burst : Float
    pub tokens : Float
    pub last : Time

  unfoldable pub new : Float → ℤ → Time → Option Limiter
  new rate_per_second burst now =
      if le rate_per_second zero
      then none
      else let b : ℤ = if ltb_ℤ (pos 0) burst then burst else pos 1 in
        some (record { rate = rate_per_second; burst = of_int b; tokens = of_int b; last = now })

  -- The tokens at time `now`: those left plus what came in since, up to the burst.
  unfoldable pub refill : Limiter → Time → Limiter
  refill l now =
      if lt zero (seconds now l.last)
      then (let tokens = add l.tokens (mul (seconds now l.last) l.rate) in
          record l { tokens = if lt l.burst tokens then l.burst else tokens; last = now })
      else l

  unfoldable pub spend : Limiter → ℤ → Limiter × Bool
  spend l cost =
      if lt l.tokens (of_int cost)
      then (l, false)
      else (record l { tokens = sub l.tokens (of_int cost) }, true)

  keep : Limiter × Bool → Option Limiter × Bool
  keep (l, b) = (some l, b)

  unfoldable pub allow : Option Limiter → ℤ → Time → Option Limiter × Bool
  unfolding refill spend keep
  allow none cost now = (none, true)
  allow (some l) cost now =
      if ltb_ℤ (pos 0) cost then keep (spend (refill l now) cost) else (some l, true)

  -- A history of calls, each with its cost and the clock's reading, and the results in order.
  unfoldable pub run : Option Limiter → List (ℤ × Time) → Option Limiter × List Bool
  unfolding allow
  run l [] = (l, [])
  run l ((cost, now) ∷ cs) =
      let (l', admitted) = allow l cost now in let (l'', rest) = run l' cs in (l'', admitted ∷ rest)
