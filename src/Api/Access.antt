-- ===== src/Api/Access.antt =====
-- Who may produce, and to what: the topics and bearer tokens that NewHandlerWithSchema of
-- internal/api/handler.go reads from its configuration, topicAllowed and authMiddleware. A set is
-- the list of what was put in it.
pub mod Topics
pub mod Tokens
mod Tests
use kafka_rest_proxy_go.Common.{
  ℕ, Bool, true, false, ◌&&◌, ◌||◌, List, [], ◌∷◌, ◌++◌, if◌then◌else◌,
}
use kafka_rest_proxy_go.Producer.{Bytes}
use kafka_rest_proxy_go.Go.Strings.{
  bytes, eq_bytes, has_prefix, has_suffix, trim_prefix, trim_suffix, trim_space,
}

pub record AllowedTopics : Type 0 where
  pub allowed_topics : List Bytes
  pub allowed_topic_prefixes : List Bytes

-- A prefix is kept if it is not empty.
abbrev pub with_prefix : AllowedTopics → Bytes → AllowedTopics
with_prefix a [] = a
with_prefix a (c ∷ prefix) = record a {
  allowed_topic_prefixes = a.allowed_topic_prefixes ++ (c ∷ prefix) ∷ [];
}

-- One round of the loop, on the trimmed entry.
pub add_entry : AllowedTopics → Bytes → AllowedTopics
unfolding has_suffix trim_suffix
add_entry a [] = a
add_entry a (c ∷ topic) =
    if has_suffix (c ∷ topic) (bytes "*")
    then with_prefix a (trim_suffix (c ∷ topic) (bytes "*"))
    else record a { allowed_topics = a.allowed_topics ++ (c ∷ topic) ∷ [] }

unfoldable pub add_entries : AllowedTopics → List Bytes → AllowedTopics
unfolding add_entry trim_space
add_entries a [] = a
add_entries a (topic ∷ topics) = add_entries (add_entry a (trim_space topic)) topics

unfoldable pub allowed_of : List Bytes → AllowedTopics
unfolding add_entries
allowed_of topics = add_entries (record { allowed_topics = []; allowed_topic_prefixes = [] }) topics

abbrev pub is_empty {ℓ} : {A : Type ℓ} → List A → Bool
is_empty [] = true
is_empty (x ∷ xs) = false

-- Membership of a set.
unfoldable pub contains : List Bytes → Bytes → Bool
unfolding eq_bytes
contains [] topic = false
contains (t ∷ ts) topic = eq_bytes t topic || contains ts topic

unfoldable pub has_some_prefix : Bytes → List Bytes → Bool
unfolding has_prefix
has_some_prefix topic [] = false
has_some_prefix topic (p ∷ ps) =
    let rest = has_some_prefix topic ps in if has_prefix topic p then true else rest

unfoldable pub topic_allowed : AllowedTopics → Bytes → Bool
unfolding contains has_some_prefix
topic_allowed a topic =
    if is_empty a.allowed_topics && is_empty a.allowed_topic_prefixes
    then true
    else if contains a.allowed_topics topic
    then true
    else has_some_prefix topic a.allowed_topic_prefixes

abbrev with_token : List Bytes → Bytes → List Bytes
with_token tokens [] = tokens
with_token tokens (c ∷ token) = (c ∷ token) ∷ tokens

-- The tokens of the configuration that are not blank.
unfoldable pub tokens_of : List Bytes → List Bytes
unfolding trim_space
tokens_of [] = []
tokens_of (token ∷ tokens) = with_token (tokens_of tokens) (trim_space token)

-- What becomes of a request: it is served, or refused with 401.
pub data Access : Type 0 where
  served missing_bearer_token invalid_bearer_token : Access

-- authMiddleware, for the path of a request and its Authorization header.
unfoldable pub authorize : List Bytes → Bytes → Bytes → Access
unfolding eq_bytes trim_space has_prefix trim_prefix contains
authorize tokens path header =
    if is_empty tokens
    then served
    else if eq_bytes path (bytes "/healthz") || eq_bytes path (bytes "/readyz")
    then served
    else if has_prefix (trim_space header) (bytes "Bearer ")
    then (if contains tokens (trim_space (trim_prefix (trim_space header) (bytes "Bearer ")))
        then served
        else invalid_bearer_token)
    else missing_bearer_token
