-- ===== src/Api/Access/Topics.antt =====
-- Which topics are allowed, stated on the entries of the configuration.
use kafka_rest_proxy_go.Common.{
  ◌≡◌, refl, Bool, true, false, not, ◌&&◌, ◌||◌, List, [], ◌∷◌, ◌++◌, if◌then◌else◌, arith, inl,
  inr, Bool-cases,
}
use kafka_rest_proxy_go.Producer.{Bytes}
use kafka_rest_proxy_go.Go.Strings.{
  bytes, eq_bytes, has_prefix, has_suffix, trim_suffix, trim_space,
}
use kafka_rest_proxy_go.Api.Access.{
  with_prefix, AllowedTopics, add_entry, add_entries, allowed_of, is_empty, contains,
  has_some_prefix, topic_allowed,
}

-- What an entry allows: nothing, one topic, or all with a prefix.
pub data Rule : Type 0 where
  nothing : Rule
  only starting : Bytes → Rule

abbrev starting_with : Bytes → Rule
starting_with [] = nothing
starting_with (c ∷ prefix) = starting (c ∷ prefix)

unfoldable pub rule_of : Bytes → Rule
unfolding has_suffix trim_suffix
rule_of [] = nothing
rule_of (c ∷ entry) =
    if has_suffix (c ∷ entry) (bytes "*")
    then starting_with (trim_suffix (c ∷ entry) (bytes "*"))
    else only (c ∷ entry)

unfoldable pub permits : Rule → Bytes → Bool
unfolding eq_bytes has_prefix
permits nothing topic = false
permits (only t) topic = eq_bytes t topic
permits (starting prefix) topic = has_prefix topic prefix

abbrev pub is_rule : Rule → Bool
is_rule nothing = false
is_rule (only t) = true
is_rule (starting prefix) = true

-- Whether some entry permits the topic, and whether some entry is a rule at all.
unfoldable pub some_permits : List Bytes → Bytes → Bool
unfolding permits rule_of trim_space
some_permits [] topic = false
some_permits (e ∷ entries) topic =
    permits (rule_of (trim_space e)) topic || some_permits entries topic

unfoldable pub some_rule : List Bytes → Bool
unfolding rule_of trim_space
some_rule [] = false
some_rule (e ∷ entries) = is_rule (rule_of (trim_space e)) || some_rule entries

abbrev listed : AllowedTopics → Bytes → Bool
listed a topic = contains a.allowed_topics topic || has_some_prefix topic a.allowed_topic_prefixes

abbrev none_listed : AllowedTopics → Bool
none_listed a = is_empty a.allowed_topics && is_empty a.allowed_topic_prefixes

contains-append :
    (ts : List Bytes) (t topic : Bytes)
    → contains (ts ++ t ∷ []) topic ≡ (contains ts topic || eq_bytes t topic)
unfolding contains
contains-append [] t topic = ground arith
contains-append (s ∷ ts) t topic = ground (arith, contains-append ts t topic)

has_some_prefix-append :
    (ps : List Bytes) (p topic : Bytes)
    → has_some_prefix topic (ps ++ p ∷ []) ≡ (has_some_prefix topic ps || has_prefix topic p)
unfolding has_some_prefix
has_some_prefix-append [] p topic = ground arith
has_some_prefix-append (q ∷ ps) p topic = ground (arith, has_some_prefix-append ps p topic)

is_empty-append : {A : Type 0} (xs : List A) (x : A) → is_empty (xs ++ x ∷ []) ≡ false
is_empty-append [] x = refl
is_empty-append (y ∷ xs) x = refl

with_prefix-adds :
    (a : AllowedTopics) (prefix topic : Bytes)
    → listed (with_prefix a prefix) topic ≡ (listed a topic || permits (starting_with prefix) topic)
unfolding permits
with_prefix-adds a [] topic = ground arith
with_prefix-adds a (c ∷ prefix) topic =
    ground (arith, has_some_prefix-append a.allowed_topic_prefixes (c ∷ prefix) topic)

add_entry-adds :
    (a : AllowedTopics) (entry topic : Bytes)
    → listed (add_entry a entry) topic ≡ (listed a topic || permits (rule_of entry) topic)
unfolding permits rule_of add_entry
add_entry-adds a [] topic = ground arith
add_entry-adds a (c ∷ entry) topic = elim (Bool-cases (has_suffix (c ∷ entry) (bytes "*"))) [
  | inl star ↦
      let h = with_prefix-adds a (trim_suffix (c ∷ entry) (bytes "*")) topic in
      ground (arith, star, h)
  | inr plain ↦ rw plain (ground (arith, contains-append a.allowed_topics (c ∷ entry) topic))
]

with_prefix-none :
    (a : AllowedTopics) (prefix : Bytes)
    → none_listed (with_prefix a prefix) ≡ (none_listed a && not (is_rule (starting_with prefix)))
with_prefix-none a [] = ground arith
with_prefix-none a (c ∷ prefix) =
    ground (arith, is_empty-append a.allowed_topic_prefixes (c ∷ prefix))

add_entry-none :
    (a : AllowedTopics) (entry : Bytes)
    → none_listed (add_entry a entry) ≡ (none_listed a && not (is_rule (rule_of entry)))
unfolding rule_of add_entry
add_entry-none a [] = ground arith
add_entry-none a (c ∷ entry) = elim (Bool-cases (has_suffix (c ∷ entry) (bytes "*"))) [
  | inl star ↦
      let h = with_prefix-none a (trim_suffix (c ∷ entry) (bytes "*")) in ground (arith, star, h)
  | inr plain ↦ rw plain (ground (arith, is_empty-append a.allowed_topics (c ∷ entry)))
]

add_entries-adds :
    (a : AllowedTopics) (entries : List Bytes) (topic : Bytes)
    → listed (add_entries a entries) topic ≡ (listed a topic || some_permits entries topic)
unfolding some_permits add_entries
add_entries-adds a [] topic = ground arith
add_entries-adds a (e ∷ entries) topic = ground (
  arith,
  add_entries-adds (add_entry a (trim_space e)) entries topic,
  add_entry-adds a (trim_space e) topic,
)

add_entries-none :
    (a : AllowedTopics) (entries : List Bytes)
    → none_listed (add_entries a entries) ≡ (none_listed a && not (some_rule entries))
unfolding some_rule add_entries
add_entries-none a [] = ground arith
add_entries-none a (e ∷ entries) =
    ground (
      arith,
      add_entries-none (add_entry a (trim_space e)) entries,
      add_entry-none a (trim_space e),
    )

-- A topic is allowed exactly when no entry of the configuration is a rule, or some entry permits it: an
-- entry, trimmed, that ends in a star and is longer permits the topics with that prefix, a star alone
-- and a blank entry are no rules, and any other entry permits the topic of its name.
pub topic_allowed_exact :
    (entries : List Bytes) (topic : Bytes)
    → topic_allowed (allowed_of entries) topic
      ≡ (not (some_rule entries) || some_permits entries topic)
unfolding topic_allowed allowed_of contains has_some_prefix
topic_allowed_exact entries topic =
    let empty : AllowedTopics = record { allowed_topics = []; allowed_topic_prefixes = [] } in
    ground (arith, add_entries-adds empty entries topic, add_entries-none empty entries)
