-- ===== src/RateLimit/Tokens.antt =====
-- The bucket never holds more than its burst nor less than nothing, whatever the clock does.
use kafka_rest_proxy_go.Common.{
  ◌≡◌, refl, true, inl, inr, Option, none, some, List, [], ◌∷◌, arith, Bool-cases,
}
use kafka_rest_proxy_go.Common.Int.{ℤ, pos, ltb_ℤ}
use kafka_rest_proxy_go.RateLimit.{Float64, IsIeee, Limiter, new, refill, spend, allow, run}

module _ (f : Float64) where
  pub record IsSound (l : Limiter f) : Type 0 where
    pub size : ℤ
    pub burst_is : l.burst ≡ f.of_int size
    pub size_pos : ltb_ℤ (pos 0) size ≡ true
    pub rate_pos : f.lt f.zero l.rate ≡ true
    pub tokens_nonneg : f.le f.zero l.tokens ≡ true
    pub tokens_le : f.le l.tokens l.burst ≡ true

  abbrev pub Sound : Option (Limiter f) → Type 0
  Sound none = Unit
  Sound (some l) = IsSound l

module _ (f : Float64) (ieee : IsIeee f) where
  burst_nonneg : (l : Limiter f) → IsSound f l → f.le f.zero l.burst ≡ true
  burst_nonneg l s = rw (s.burst_is) (ieee.of_int_nonneg s.size s.size_pos)

  burst_refl : (l : Limiter f) → IsSound f l → f.le l.burst l.burst ≡ true
  burst_refl l s = rw (s.burst_is) (ieee.of_int_refl s.size)

  refill-IsSound : (l : Limiter f) (now : f.Time) → IsSound f l → IsSound f (refill f l now)
  unfolding refill
  refill-IsSound l now s = elim (Bool-cases (f.lt f.zero (f.seconds now l.last))) [
    | inr still ↦ rw still s
    | inl moved ↦ rw moved (
        let sum = f.add l.tokens (f.mul (f.seconds now l.last) l.rate) in
        let pos_sum =
          ieee.refill_nonneg l.tokens (f.seconds now l.last) l.rate s.tokens_nonneg moved
            s.rate_pos in
        elim (Bool-cases (f.lt l.burst sum)) [
          | inl full ↦ rw full (record {
            size = s.size;
            burst_is = s.burst_is;
            size_pos = s.size_pos;
            rate_pos = s.rate_pos;
            tokens_nonneg = burst_nonneg l s;
            tokens_le = burst_refl l s;
          })
          | inr room ↦ rw room (record {
            size = s.size;
            burst_is = s.burst_is;
            size_pos = s.size_pos;
            rate_pos = s.rate_pos;
            tokens_nonneg = pos_sum;
            tokens_le = ieee.le_of_not_lt sum l.burst pos_sum (burst_nonneg l s) room;
          })
        ])
  ]

  spend-IsSound :
      (l : Limiter f) (cost : ℤ)
      → ltb_ℤ (pos 0) cost ≡ true
      → IsSound f l
      → IsSound f (spend f l cost).0
  unfolding spend
  spend-IsSound l cost h s = elim (Bool-cases (f.lt l.tokens (f.of_int cost))) [
    | inl short ↦ rw short s
    | inr enough ↦ rw enough (record {
      size = s.size;
      burst_is = s.burst_is;
      size_pos = s.size_pos;
      rate_pos = s.rate_pos;
      tokens_nonneg = ieee.spend_nonneg l.tokens s.size cost (within s) h enough;
      tokens_le = rw s.burst_is (ieee.spend_le l.tokens s.size cost s.tokens_nonneg (within s) h);
    })
  ]
    where
      within : (s : IsSound f l) → f.le l.tokens (f.of_int s.size) ≡ true
      within s = rw (s.burst_is) at s.tokens_le

  allow-Sound :
      (l : Option (Limiter f)) (cost : ℤ) (now : f.Time)
      → Sound f l
      → Sound f (allow f l cost now).0
  unfolding allow
  allow-Sound none cost now s = tt
  allow-Sound (some l) cost now s = elim (Bool-cases (ltb_ℤ (pos 0) cost)) [
    | inl h ↦ rw h (spend-IsSound (refill f l now) cost h (refill-IsSound l now s))
    | inr h ↦ rw h s
  ]

  run_from-Sound :
      (l : Option (Limiter f)) (cs : List (ℤ × f.Time)) → Sound f l → Sound f (run f l cs).0
  unfolding run
  run_from-Sound l [] s = s
  run_from-Sound l ((cost, now) ∷ cs) s =
      run_from-Sound (allow f l cost now).0 cs (allow-Sound l cost now s)

  full-IsSound :
      (rate : f.Float) (now : f.Time) (b : ℤ)
      → f.lt f.zero rate ≡ true
      → ltb_ℤ (pos 0) b ≡ true
      → IsSound f (record { rate = rate; burst = f.of_int b; tokens = f.of_int b; last = now })
  full-IsSound rate now b h k = record {
    size = b;
    burst_is = refl;
    size_pos = k;
    rate_pos = h;
    tokens_nonneg = ieee.of_int_nonneg b k;
    tokens_le = ieee.of_int_refl b;
  }

  new-Sound :
      (rate : f.Float) (burst : ℤ) (now : f.Time)
      → f.lt f.zero rate ≡ true
      → Sound f (new f rate burst now)
  unfolding new
  new-Sound rate burst now h = elim (Bool-cases (f.le rate f.zero)) [
    | inl no_rate ↦ rw no_rate tt
    | inr _ ↦ ground (arith, full-IsSound rate now burst h, full-IsSound rate now (pos 1) h)
  ]

  -- A limiter made with a positive rate holds, after every history of calls at whatever times,
  -- no fewer than zero tokens and no more than its burst.
  pub run-new-Sound :
      (rate : f.Float) (burst : ℤ) (start : f.Time) (cs : List (ℤ × f.Time))
      → f.lt f.zero rate ≡ true
      → Sound f (run f (new f rate burst start) cs).0
  run-new-Sound rate burst start cs h = run_from-Sound _ cs (new-Sound rate burst start h)
