-- ===== src/Go/Url.antt =====
-- net/url: PathUnescape and PathEscape of a path segment, and the path in String of a URL.
pub mod Escape
use kafka_rest_proxy_go.Common.{
  ℕ, ◌+◌, ◌-◌, ◌*◌, ◌/◌, ◌%◌, Bool, true, false, not, ◌&&◌, ◌||◌, Option, none, some, List, [], ◌∷◌,
  ◌==◌, leb, if◌then◌else◌,
}

-- The value of a hexadecimal digit.
unfoldable pub unhex : ℕ → Option ℕ
unhex c =
    if leb b'0' c && leb c b'9'
    then some (c - 48)
    else if leb b'a' c && leb c b'f'
    then some (c - 87)
    else if leb b'A' c && leb c b'F'
    then some (c - 55)
    else none

abbrev pub cons? {ℓ} : {A : Type ℓ} → Option A → Option (List A) → Option (List A)
cons? none r = none
cons? (some a) none = none
cons? (some a) (some s) = some (a ∷ s)

abbrev byte_of : Option ℕ → Option ℕ → Option ℕ
byte_of none l = none
byte_of (some h) none = none
byte_of (some h) (some l) = some (h * 16 + l)

-- PathUnescape: a percent sign begins two hexadecimal digits, or the text is refused.
unfoldable pub path_unescape : List ℕ → Option (List ℕ)
unfolding unhex
path_unescape [] = some []
path_unescape (c ∷ []) = if c == b'%' then none else some (c ∷ [])
path_unescape (c ∷ a ∷ []) = if c == b'%' then none else cons? (some c) (path_unescape (a ∷ []))
path_unescape (c ∷ a ∷ b ∷ s) =
    let coded = cons? (byte_of (unhex a) (unhex b)) (path_unescape s) in
    let plain = cons? (some c) (path_unescape (a ∷ b ∷ s)) in if c == b'%' then coded else plain

abbrev pub is_alnum : ℕ → Bool
is_alnum c =
    (leb b'0' c && leb c b'9') || ((leb b'a' c && leb c b'z') || (leb b'A' c && leb c b'Z'))

-- The bytes that stand for themselves in a path segment: letters, digits and `-_.~$&+:=@`.
unfoldable pub is_plain : ℕ → Bool
is_plain c =
    is_alnum c
    || (c == b'-'
        || (c == b'_'
            || (c == b'.'
                || (c == b'~'
                    || (c == b'$'
                        || (c == b'&'
                            || (c == b'+' || (c == b':' || (c == b'=' || c == b'@')))))))))

unfoldable pub hex_digit : ℕ → ℕ
hex_digit n = if leb n 9 then n + 48 else n + 55

-- PathEscape.
unfoldable pub path_escape : List ℕ → List ℕ
unfolding is_plain hex_digit
path_escape [] = []
path_escape (c ∷ s) =
    let rest = path_escape s in
    if is_plain c then c ∷ rest else b'%' ∷ hex_digit (c / 16) ∷ hex_digit (c % 16) ∷ rest

-- The bytes that stand for themselves in a whole path: also `,`, `/` and `;`.
unfoldable pub is_path_plain : ℕ → Bool
unfolding is_plain
is_path_plain c = is_plain c || (c == b',' || (c == b'/' || c == b';'))

-- The path that String writes for a URL whose decoded path is given.
unfoldable pub escape_path : List ℕ → List ℕ
unfolding is_path_plain hex_digit
escape_path [] = []
escape_path (c ∷ s) =
    let rest = escape_path s in
    if is_path_plain c then c ∷ rest else b'%' ∷ hex_digit (c / 16) ∷ hex_digit (c % 16) ∷ rest
