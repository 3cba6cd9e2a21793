-- ===== src/Go/Number.antt =====
-- strconv: ParseInt in base 10, Itoa and AppendInt.
pub mod Digits
use kafka_rest_proxy_go.Common.{
  ℕ, zero, suc, ◌+◌, ◌-◌, ◌*◌, ◌/◌, ◌%◌, Bool, true, false, ◌&&◌, Option, none, some, List, [], ◌∷◌,
  ◌++◌, ◌==◌, ltb, leb, if◌then◌else◌,
}
use kafka_rest_proxy_go.Common.Int.{ℤ, pos, negsuc}

abbrev pub is_digit : ℕ → Bool
is_digit c = leb b'0' c && leb c b'9'

unfoldable pub parse_digits : ℕ → List ℕ → Option ℕ
parse_digits acc [] = some acc
parse_digits acc (c ∷ s) =
    let rest = parse_digits (acc * 10 + (c - 48)) s in if is_digit c then rest else none

-- A signed value within `[-bound, bound)`.
abbrev ranged : ℕ → Bool → Option ℕ → Option ℤ
ranged bound minus none = none
ranged bound true (some n) =
    if n == 0 then some (pos 0) else if leb n bound then some (negsuc (n - 1)) else none
ranged bound false (some n) = if ltb n bound then some (pos n) else none

-- Digits, of which there is at least one.
abbrev some_digits : List ℕ → Option ℕ
some_digits [] = none
some_digits (c ∷ s) = parse_digits 0 (c ∷ s)

-- ParseInt(s, 10, bits), with `bound` for 2^(bits - 1).
unfoldable pub parse_int : ℕ → List ℕ → Option ℤ
unfolding parse_digits
parse_int bound [] = none
parse_int bound (c ∷ s) =
    if c == b'+'
    then ranged bound false (some_digits s)
    else if c == b'-'
    then ranged bound true (some_digits s)
    else ranged bound false (some_digits (c ∷ s))

-- The digits of `n` before `acc`; the fuel is more than the number of digits.
digits_from : ℕ → ℕ → List ℕ → List ℕ
digits_from zero n acc = acc
digits_from (suc f) n acc =
    let more = digits_from f (n / 10) ((n % 10 + 48) ∷ acc) in
    if n / 10 == 0 then (n % 10 + 48) ∷ acc else more

unfoldable pub digits : ℕ → List ℕ
unfolding digits_from
digits n = digits_from (suc n) n []

-- Itoa(i).
unfoldable pub itoa : ℤ → List ℕ
unfolding digits
itoa (pos n) = digits n
itoa (negsuc n) = b'-' ∷ digits (suc n)

-- AppendInt(dst, i, 10).
unfoldable pub append_int : List ℕ → ℤ → List ℕ
unfolding itoa
append_int dst n = dst ++ itoa n
