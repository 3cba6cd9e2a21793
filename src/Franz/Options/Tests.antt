-- ===== src/Franz/Options/Tests.antt =====
-- Tests and instances for the settings of the client.
use kafka_rest_proxy_go.Common.{◌≡◌, refl, some}
use kafka_rest_proxy_go.Common.Try.{ok}
use kafka_rest_proxy_go.Go.Strings.{bytes}
use kafka_rest_proxy_go.Franz.Options.{
  all_isr_acks, leader_ack, no_ack, scram_sha_256, required_acks, sasl_mechanism,
}

acks :
    (required_acks (bytes " ALL ") ≡ all_isr_acks)
    × (required_acks (bytes "leader") ≡ leader_ack)
    × (required_acks (bytes "no-ack") ≡ no_ack)
unfolding required_acks
acks = (refl, refl, refl)

mechanism :
    sasl_mechanism
      (record { mechanism = bytes "scram-sha-256"; username = bytes "u"; password = bytes "p" })
    ≡ ok (some (scram_sha_256 (bytes "u") (bytes "p")))
unfolding sasl_mechanism
mechanism = refl
