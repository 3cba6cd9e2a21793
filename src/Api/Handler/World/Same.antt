-- ===== src/Api/Handler/World/Same.antt =====
-- What leaves the producer of a world alone.
use kafka_rest_proxy_go.Common.{◌∙◌, inl, inr, ◌≡◌, refl, ◌∙◌, inl, inr, Bool-cases}
use kafka_rest_proxy_go.Api.Handler.{Time, ℤ, Env, Handler}
use kafka_rest_proxy_go.Api.Handler.World.{
  allow_request_rate, allow_byte_rate, allow_request_rate, allow_byte_rate, allow_request_rate,
  World, Event, observe,
}

module _ {env : Env} where
  -- Two worlds in which the producer is the same.
  pub record SameProducer (w v : World env) : Type 0 where
    pub same_state : v.producer ≡ w.producer
    pub same_log : v.produced ≡ w.produced

  pub same_refl : (w : World env) → SameProducer w w
  same_refl w = record { same_state = refl; same_log = refl }

  pub same_trans : (u v w : World env) → SameProducer u v → SameProducer v w → SameProducer u w
  same_trans u v w h k = record {
    same_state = k.same_state ∙ h.same_state;
    same_log = k.same_log ∙ h.same_log;
  }

  pub same-observe :
      (h : Handler env) (e : Event) (w : World env) → SameProducer w (observe env h e w)
  unfolding observe
  same-observe h e w = elim (Bool-cases h.has_metrics) [
    | inl on ↦ rw on (record { same_state = refl; same_log = refl })
    | inr off ↦ rw off (record { same_state = refl; same_log = refl })
  ]

  pub same-allow_byte_rate :
      (cost : ℤ) (now : Time env) (w : World env)
      → SameProducer w (allow_byte_rate env cost now w).0
  unfolding allow_byte_rate
  same-allow_byte_rate cost now w = record { same_state = refl; same_log = refl }

  pub same-allow_request_rate :
      (cost : ℤ) (now : Time env) (w : World env)
      → SameProducer w (allow_request_rate env cost now w).0
  unfolding allow_request_rate
  same-allow_request_rate cost now w = record { same_state = refl; same_log = refl }
