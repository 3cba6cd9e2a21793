-- ===== src/Go/Strings.antt =====
-- Package strings (and bytes), on byte lists.
pub mod Split
use Prim.Native.Char.{code}
use Prim.Native.String.{String}
use kafka_rest_proxy_go.Common.{
  ℕ, zero, suc, ◌+◌, ◌-◌, ◌≡◌, refl, ap, ◌↔◌, Bool, true, false, ◌&&◌, ◌||◌, Option, none, some,
  List, [], ◌∷◌, reverse, length, ◌==◌, ltb, leb, if◌then◌else◌, arith,
}

-- The bytes of a text literal, which is ASCII everywhere in the source.
abbrev pub bytes : String → List ℕ
bytes String.[] = []
bytes (String.◌∷◌ c s) = code c ∷ bytes s

unfoldable pub eq_bytes : List ℕ → List ℕ → Bool
eq_bytes [] [] = true
eq_bytes (a ∷ s) (b ∷ t) = a == b && eq_bytes s t
eq_bytes [] (_ ∷ _) = false
eq_bytes (_ ∷ _) [] = false

-- HasPrefix(s, prefix).
unfoldable pub has_prefix : List ℕ → List ℕ → Bool
has_prefix s [] = true
has_prefix [] (p ∷ prefix) = false
has_prefix (c ∷ s) (p ∷ prefix) = c == p && has_prefix s prefix

abbrev pub drop : ℕ → List ℕ → List ℕ
drop zero s = s
drop (suc n) [] = []
drop (suc n) (c ∷ s) = drop n s

-- TrimPrefix(s, prefix).
unfoldable pub trim_prefix : List ℕ → List ℕ → List ℕ
unfolding has_prefix
trim_prefix s prefix = if has_prefix s prefix then drop (length prefix) s else s

-- HasSuffix(s, suffix).
unfoldable pub has_suffix : List ℕ → List ℕ → Bool
unfolding has_prefix
has_suffix s suffix = has_prefix (reverse s) (reverse suffix)

-- TrimSuffix(s, suffix).
unfoldable pub trim_suffix : List ℕ → List ℕ → List ℕ
unfolding has_suffix
trim_suffix s suffix = if has_suffix s suffix then reverse (drop (length suffix) (reverse s)) else s

-- Contains(s, sub).
unfoldable pub contains : List ℕ → List ℕ → Bool
unfolding has_prefix
contains [] sub = has_prefix [] sub
contains (c ∷ s) sub = has_prefix (c ∷ s) sub || contains s sub

-- The encodings of the white space of unicode.IsSpace.
abbrev space_encodings : List (List ℕ)
space_encodings =
    (9 ∷ [])
    ∷ (10 ∷ [])
    ∷ (11 ∷ [])
    ∷ (12 ∷ [])
    ∷ (13 ∷ [])
    ∷ (32 ∷ [])
    ∷ (0xc2 ∷ 0x85 ∷ [])
    ∷ (0xc2 ∷ 0xa0 ∷ [])
    ∷ (0xe1 ∷ 0x9a ∷ 0x80 ∷ [])
    ∷ (0xe2 ∷ 0x80 ∷ 0x80 ∷ [])
    ∷ (0xe2 ∷ 0x80 ∷ 0x81 ∷ [])
    ∷ (0xe2 ∷ 0x80 ∷ 0x82 ∷ [])
    ∷ (0xe2 ∷ 0x80 ∷ 0x83 ∷ [])
    ∷ (0xe2 ∷ 0x80 ∷ 0x84 ∷ [])
    ∷ (0xe2 ∷ 0x80 ∷ 0x85 ∷ [])
    ∷ (0xe2 ∷ 0x80 ∷ 0x86 ∷ [])
    ∷ (0xe2 ∷ 0x80 ∷ 0x87 ∷ [])
    ∷ (0xe2 ∷ 0x80 ∷ 0x88 ∷ [])
    ∷ (0xe2 ∷ 0x80 ∷ 0x89 ∷ [])
    ∷ (0xe2 ∷ 0x80 ∷ 0x8a ∷ [])
    ∷ (0xe2 ∷ 0x80 ∷ 0xa8 ∷ [])
    ∷ (0xe2 ∷ 0x80 ∷ 0xa9 ∷ [])
    ∷ (0xe2 ∷ 0x80 ∷ 0xaf ∷ [])
    ∷ (0xe2 ∷ 0x81 ∷ 0x9f ∷ [])
    ∷ (0xe3 ∷ 0x80 ∷ 0x80 ∷ [])
    ∷ []

-- The length of the first encoding that the text begins with, 0 if none does.
width_of : List (List ℕ) → List ℕ → ℕ
unfolding has_prefix
width_of [] s = 0
width_of (e ∷ es) s = if has_prefix s e then length e else width_of es s

abbrev reversed : List (List ℕ) → List (List ℕ)
reversed [] = []
reversed (e ∷ es) = reverse e ∷ reversed es

-- Drops white space from the front; the number counts the bytes of a rune still to be dropped.
trim_front : List (List ℕ) → ℕ → List ℕ → List ℕ
unfolding width_of
trim_front es k [] = []
trim_front es (suc k) (c ∷ s) = trim_front es k s
trim_front es zero (c ∷ s) =
    let w = width_of es (c ∷ s) in
    let rest = trim_front es (w - 1) s in if w == 0 then c ∷ s else rest

-- TrimSpace(s).
unfoldable pub trim_space : List ℕ → List ℕ
unfolding trim_front
trim_space s =
    reverse (trim_front (reversed space_encodings) 0 (reverse (trim_front space_encodings 0 s)))

abbrev lower_byte : ℕ → ℕ
lower_byte c = if leb b'A' c && leb c b'Z' then c + 32 else c

abbrev upper_byte : ℕ → ℕ
upper_byte c = if leb b'a' c && leb c b'z' then c - 32 else c

-- One rune that maps into ASCII, by its encoding.
abbrev Special : Type 0
Special = List ℕ × ℕ

-- The special rune that the text begins with: the length of its encoding, and its image.
special_at : List Special → List ℕ → ℕ × ℕ
unfolding has_prefix
special_at [] s = (0, 0)
special_at ((e, c) ∷ es) s = if has_prefix s e then (length e, c) else special_at es s

map_case : (ℕ → ℕ) → List Special → ℕ → List ℕ → List ℕ
unfolding special_at
map_case f es k [] = []
map_case f es (suc k) (c ∷ s) = map_case f es k s
map_case f es zero (c ∷ s) =
    let (w, image) = special_at es (c ∷ s) in
    (if w == 0 then f c else image) ∷ map_case f es (w - 1) s

-- ToLower and ToUpper, for comparison with ASCII text: a rune whose image is not ASCII stays.
-- ToLower: U+0130 and U+212A (the Kelvin sign) have the lower cases i and k.
unfoldable pub to_lower : List ℕ → List ℕ
unfolding map_case
to_lower = map_case lower_byte ((0xc4 ∷ 0xb0 ∷ [], b'i') ∷ (0xe2 ∷ 0x84 ∷ 0xaa ∷ [], b'k') ∷ []) 0

-- ToUpper: U+0131 and U+017F have the upper cases I and S.
unfoldable pub to_upper : List ℕ → List ℕ
unfolding map_case
to_upper = map_case upper_byte ((0xc4 ∷ 0xb1 ∷ [], b'I') ∷ (0xc5 ∷ 0xbf ∷ [], b'S') ∷ []) 0

pub eq_bytes_iff : (s t : List ℕ) → (eq_bytes s t ≡ true) ↔ (s ≡ t)
unfolding eq_bytes
eq_bytes_iff [] [] = (λ _. refl, λ _. refl)
eq_bytes_iff (a ∷ s) (b ∷ t) = ground (arith, eq_bytes_iff s t)
eq_bytes_iff [] (_ ∷ _) = ((λ e. cc), λ e. cc)
eq_bytes_iff (_ ∷ _) [] = ((λ e. cc), λ e. cc)

pub eq_bytes_refl : (s : List ℕ) → eq_bytes s s ≡ true
eq_bytes_refl s = (eq_bytes_iff s s).1 refl
