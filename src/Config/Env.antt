-- ===== src/Config/Env.antt =====
-- The readers of internal/config/config.go: a variable of the environment, or its default.
use kafka_rest_proxy_go.Common.{
  ℕ, ◌+◌, ◌*◌, ◌-◌, ◌%◌, Bool, true, false, ◌||◌, Option, none, some, List, [], ◌∷◌, if◌then◌else◌,
  ltb,
}
use kafka_rest_proxy_go.Common.Int.{ℤ, pos, negsuc, int64_bound, wrap64}
use kafka_rest_proxy_go.Producer.{Bytes}
use kafka_rest_proxy_go.Go.Strings.{bytes, eq_bytes, trim_space, to_lower}
use kafka_rest_proxy_go.Go.Strings.Split.{split}
use kafka_rest_proxy_go.Go.Number.{parse_int}

abbrev pub Environment : Type 0
Environment = Bytes → Bytes

abbrev pub or_default {ℓ} : {A : Type ℓ} → A → Option A → A
or_default def none = def
or_default def (some a) = a

-- A default for an empty text, and otherwise for one that does not parse.
abbrev pub parsed_or {ℓ} : {A : Type ℓ} → (Bytes → Option A) → A → Bytes → A
parsed_or parse def [] = def
parsed_or parse def (c ∷ s) = or_default def (parse (c ∷ s))

abbrev pub text_or : Bytes → Bytes → Bytes
text_or def [] = def
text_or def (c ∷ s) = c ∷ s

unfoldable pub env_string : Environment → Bytes → Bytes → Bytes
unfolding trim_space
env_string getenv name def = text_or def (trim_space (getenv name))

-- The parts of a list, without the empty ones. The code writes them over the parts that it has read.
abbrev pub keep_part : Bytes → List Bytes → List Bytes
keep_part [] parts = parts
keep_part (c ∷ s) parts = (c ∷ s) ∷ parts

unfoldable pub trimmed_parts : List Bytes → List Bytes
unfolding trim_space
trimmed_parts [] = []
trimmed_parts (p ∷ ps) = keep_part (trim_space p) (trimmed_parts ps)

unfoldable pub clean_csv : Bytes → List Bytes
unfolding trim_space split trimmed_parts eq_bytes
clean_csv v = if eq_bytes (trim_space v) [] then [] else trimmed_parts (split b',' v)

unfoldable pub env_csv : Environment → Bytes → List Bytes
unfolding clean_csv
env_csv getenv name = clean_csv (getenv name)

abbrev pub list_or : List Bytes → List Bytes → List Bytes
list_or def [] = def
list_or def (p ∷ ps) = p ∷ ps

unfoldable pub env_csv_default : Environment → Bytes → List Bytes → List Bytes
unfolding clean_csv
env_csv_default getenv name def = list_or def (clean_csv (getenv name))

abbrev is_one_of : List Bytes → Bytes → Bool
is_one_of [] s = false
is_one_of (x ∷ xs) s = eq_bytes s x || is_one_of xs s

unfoldable pub parse_bool : Bytes → Option Bool
unfolding to_lower eq_bytes
parse_bool v =
    let s = to_lower v in
    if is_one_of (bytes "1" ∷ bytes "true" ∷ bytes "yes" ∷ bytes "y" ∷ bytes "on" ∷ []) s
    then some true
    else if is_one_of (bytes "0" ∷ bytes "false" ∷ bytes "no" ∷ bytes "n" ∷ bytes "off" ∷ []) s
    then some false
    else none

unfoldable pub env_bool : Environment → Bytes → Bool → Bool
unfolding trim_space parse_bool
env_bool getenv name def = parsed_or parse_bool def (trim_space (getenv name))

-- An int is an int64.
unfoldable pub env_int : Environment → Bytes → ℤ → ℤ
unfolding trim_space parse_int
env_int getenv name def = parsed_or (parse_int int64_bound) def (trim_space (getenv name))

unfoldable pub env_int64 : Environment → Bytes → ℤ → ℤ
unfolding trim_space parse_int
env_int64 getenv name def = parsed_or (parse_int int64_bound) def (trim_space (getenv name))

-- A number of milliseconds, as a duration.
abbrev pub of_milliseconds : ℤ → ℤ
of_milliseconds (pos n) = wrap64 (pos (n * 1000000))
of_milliseconds (negsuc n) = wrap64 (negsuc (n * 1000000 + 999999))

-- int32(n).
abbrev pub residue32 : ℤ → ℕ
residue32 (pos n) = n % 4294967296
residue32 (negsuc n) = 4294967295 - n % 4294967296

unfoldable pub int32_of : ℤ → ℤ
int32_of z = let r = residue32 z in if ltb r 2147483648 then pos r else negsuc (4294967295 - r)

module _ {Float : Type 0} (parse_float : Bytes → Option Float) where
  unfoldable pub env_float : Environment → Bytes → Float → Float
  unfolding trim_space
  env_float getenv name def = parsed_or parse_float def (trim_space (getenv name))

module _ (parse_duration : Bytes → Option ℤ) where
  -- A duration, or else a number of milliseconds.
  abbrev pub duration_or_ms : Option ℤ → Option ℤ → Option ℤ
  duration_or_ms (some d) ms = some d
  duration_or_ms none none = none
  duration_or_ms none (some ms) = some (of_milliseconds ms)

  unfoldable pub env_duration : Environment → Bytes → ℤ → ℤ
  unfolding trim_space parse_int wrap64
  env_duration getenv name def =
      parsed_or (λ v. duration_or_ms (parse_duration v) (parse_int int64_bound v)) def
        (trim_space (getenv name))
