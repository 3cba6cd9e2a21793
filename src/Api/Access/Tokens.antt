-- ===== src/Api/Access/Tokens.antt =====
-- Which requests authMiddleware serves, stated on the entries of the configuration.
use kafka_rest_proxy_go.Common.{
  ◌≡◌, ◌↔◌, refl, Bool, true, false, not, ◌&&◌, ◌||◌, List, [], ◌∷◌, arith,
}
use kafka_rest_proxy_go.Producer.{Bytes}
use kafka_rest_proxy_go.Go.Strings.{bytes, eq_bytes, has_prefix, trim_prefix, trim_space}
use kafka_rest_proxy_go.Api.Access.{is_empty, contains, with_token, tokens_of, served, authorize}

-- Whether every entry is blank, and whether some entry that is not blank is the token.
unfoldable pub all_blank : List Bytes → Bool
unfolding trim_space
all_blank [] = true
all_blank (t ∷ ts) = is_empty (trim_space t) && all_blank ts

unfoldable pub grants : List Bytes → Bytes → Bool
unfolding trim_space eq_bytes
grants [] given = false
grants (t ∷ ts) given =
    (not (is_empty (trim_space t)) && eq_bytes (trim_space t) given) || grants ts given

abbrev pub is_health : Bytes → Bool
is_health path = eq_bytes path (bytes "/healthz") || eq_bytes path (bytes "/readyz")

unfoldable pub bearer : Bytes → Bytes
unfolding trim_space trim_prefix
bearer header = trim_space (trim_prefix (trim_space header) (bytes "Bearer "))

with_token-empty :
    (tokens : List Bytes) (t : Bytes)
    → is_empty (with_token tokens t) ≡ (is_empty t && is_empty tokens)
with_token-empty tokens [] = refl
with_token-empty tokens (c ∷ t) = refl

with_token-grants :
    (tokens : List Bytes) (t given : Bytes)
    → contains (with_token tokens t) given
      ≡ ((not (is_empty t) && eq_bytes t given) || contains tokens given)
unfolding contains
with_token-grants tokens [] given = refl
with_token-grants tokens (c ∷ t) given = refl

tokens_of-empty : (entries : List Bytes) → is_empty (tokens_of entries) ≡ all_blank entries
unfolding tokens_of all_blank
tokens_of-empty [] = refl
tokens_of-empty (t ∷ ts) =
    ground (arith, with_token-empty (tokens_of ts) (trim_space t), tokens_of-empty ts)

tokens_of-grants :
    (entries : List Bytes) (given : Bytes)
    → contains (tokens_of entries) given ≡ grants entries given
unfolding tokens_of grants contains
tokens_of-grants [] given = refl
tokens_of-grants (t ∷ ts) given =
    ground (arith, with_token-grants (tokens_of ts) (trim_space t) given, tokens_of-grants ts given)

-- A request is served exactly when every configured token is blank, or it asks for the health or
-- readiness of the proxy, or its Authorization header is that of a bearer whose token is, trimmed,
-- one of the configured tokens that are not blank.
pub authorize_served_iff :
    (entries : List Bytes) (path header : Bytes)
    → (authorize (tokens_of entries) path header ≡ served) ↔ (
        (all_blank entries
          || (is_health path
              || (has_prefix (trim_space header) (bytes "Bearer ")
                  && grants entries (bearer header))))
        ≡ true)
unfolding authorize bearer
authorize_served_iff entries path header =
    let given : Bytes = trim_space (trim_prefix (trim_space header) (bytes "Bearer ")) in
    ground (arith, tokens_of-empty entries, tokens_of-grants entries given)
