-- ===== src/Api/Access/Tests.antt =====
-- Tests and instances for topics and tokens.
use kafka_rest_proxy_go.Common.{◌≡◌, ◌↔◌, refl, true, false, not, ◌||◌, ◌&&◌, List, [], ◌∷◌}
use kafka_rest_proxy_go.Producer.{Bytes}
use kafka_rest_proxy_go.Go.Strings.{bytes, has_prefix, trim_space}
use kafka_rest_proxy_go.Api.Access.{
  allowed_of, topic_allowed, tokens_of, authorize, served, missing_bearer_token,
  invalid_bearer_token,
}
use kafka_rest_proxy_go.Api.Access.Topics.{some_rule, some_permits, topic_allowed_exact}
use kafka_rest_proxy_go.Api.Access.Tokens.{
  all_blank, is_health, grants, bearer, authorize_served_iff,
}

abbrev entries : List Bytes
entries = bytes " orders " ∷ bytes "app-*" ∷ bytes "*" ∷ bytes "" ∷ []

named : topic_allowed (allowed_of entries) (bytes "orders") ≡ true
unfolding topic_allowed allowed_of
named = refl

prefixed : topic_allowed (allowed_of entries) (bytes "app-1") ≡ true
unfolding topic_allowed allowed_of
prefixed = refl

refused : topic_allowed (allowed_of entries) (bytes "order") ≡ false
unfolding topic_allowed allowed_of
refused = refl

-- A star alone is no rule, so that everything is allowed.
star : topic_allowed (allowed_of (bytes "*" ∷ [])) (bytes "order") ≡ true
unfolding topic_allowed allowed_of
star = refl

topic_allowed_exact_example :
    topic_allowed (allowed_of entries) (bytes "app-1")
    ≡ (not (some_rule entries) || some_permits entries (bytes "app-1"))
topic_allowed_exact_example = topic_allowed_exact entries (bytes "app-1")

abbrev tokens : List Bytes
tokens = bytes " s3cret" ∷ bytes " " ∷ []

accepted : authorize (tokens_of tokens) (bytes "/topics/t") (bytes "Bearer  s3cret ") ≡ served
unfolding authorize tokens_of
accepted = refl

wrong :
    authorize (tokens_of tokens) (bytes "/topics/t") (bytes "Bearer secret") ≡ invalid_bearer_token
unfolding authorize tokens_of
wrong = refl

blank :
    authorize (tokens_of tokens) (bytes "/topics/t") (bytes "Basic s3cret") ≡ missing_bearer_token
unfolding authorize tokens_of
blank = refl

authorize_served_iff_example :
    (authorize (tokens_of tokens) (bytes "/topics/t") (bytes "Bearer s3cret") ≡ served) ↔ (
      (all_blank tokens
        || (is_health (bytes "/topics/t")
            || (has_prefix (trim_space (bytes "Bearer s3cret")) (bytes "Bearer ")
                && grants tokens (bearer (bytes "Bearer s3cret")))))
      ≡ true)
authorize_served_iff_example =
    authorize_served_iff tokens (bytes "/topics/t") (bytes "Bearer s3cret")
