-- ===== src/RateLimit/Tests.antt =====
-- Tests and instances for the token bucket, with whole tokens in place of float64.
use kafka_rest_proxy_go.Common.{
  ℕ, ◌+◌, ◌-◌, ◌*◌, ◌≡◌, refl, true, false, none, List, [], ◌∷◌, arith, ltb, leb,
}
use kafka_rest_proxy_go.Common.Int.{ℤ, pos, pos_part}
use kafka_rest_proxy_go.RateLimit.{Float64, IsIeee, Limiter, new, run}
use kafka_rest_proxy_go.RateLimit.Tokens.{IsSound, Sound, run-new-Sound}

abbrev whole : Float64
whole = record {
  Float = ℕ;
  Time = ℕ;
  zero = 0;
  lt = ltb;
  le = leb;
  add = ◌+◌;
  sub = ◌-◌;
  mul = ◌*◌;
  of_int = pos_part;
  seconds = ◌-◌;
}

whole-IsIeee : IsIeee whole
whole-IsIeee = record {
  refill_nonneg = λ t e r h k l. ground arith;
  le_of_not_lt = λ x y h k l. ground arith;
  lt_of_le_of_lt = λ x y z h k. ground arith;
  spend_nonneg = λ t b n h k l. ground arith;
  spend_le = λ t b n h k l. ground arith;
  of_int_nonneg = λ b h. ground arith;
  of_int_refl = λ b. ground arith;
}

-- Five tokens a second and at most ten: the call at time 1 is refused, and time 2 refills.
abbrev calls : List (ℤ × ℕ)
calls = (pos 8, 0) ∷ (pos 8, 1) ∷ (pos 0, 1) ∷ (pos 6, 2) ∷ (pos 11, 9) ∷ []

bucket : (run whole (new whole 5 (pos 10) 0) calls).1 ≡ true ∷ false ∷ true ∷ true ∷ false ∷ []
unfolding run new
bucket = refl

no_rate : new whole 0 (pos 10) 0 ≡ none
unfolding new
no_rate = refl

run-new-Sound_example : Sound whole (run whole (new whole 5 (pos 10) 0) calls).0
run-new-Sound_example = run-new-Sound whole whole-IsIeee 5 (pos 10) 0 calls refl

abbrev filled : Limiter whole
filled = record { rate = 5; burst = 10; tokens = 3; last = 0 }

filled-IsSound : IsSound whole filled
filled-IsSound = record {
  size = pos 10;
  burst_is = refl;
  size_pos = refl;
  rate_pos = refl;
  tokens_nonneg = refl;
  tokens_le = refl;
}
