-- ===== src/Go/Number/Digits.antt =====
-- Printed numbers are read back.
use kafka_rest_proxy_go.Common.{
  none, Option, true, Bool, ℕ, zero, suc, ◌+◌, ◌-◌, ◌*◌, ◌/◌, ◌%◌, ◌<◌, ◌≤◌, ◌≡◌, ◌∙◌, inl, inr,
  false, some, List, [], ◌∷◌, All, ◌==◌, arith, Bool-cases,
}
use kafka_rest_proxy_go.Common.Int.{pos}
use kafka_rest_proxy_go.Go.Number.{
  some_digits, parse_digits, ranged, parse_int, digits_from, digits,
}

parse_digits_step :
    (n : ℕ) (acc : List ℕ) → parse_digits (n / 10) ((n % 10 + 48) ∷ acc) ≡ parse_digits n acc
unfolding parse_digits
parse_digits_step n acc =
    let e : n / 10 * 10 + (n % 10 + 48 - 48) ≡ n = omega arith in rw e (ground arith)

parse_digits_one :
    (n : ℕ) (acc : List ℕ) → n < 10 → parse_digits 0 ((n % 10 + 48) ∷ acc) ≡ parse_digits n acc
unfolding parse_digits
parse_digits_one n acc h =
    let e : 0 * 10 + (n % 10 + 48 - 48) ≡ n = omega arith in rw e (ground arith)

parse_digits-digits_from :
    (f n : ℕ) (acc : List ℕ) → n < f → parse_digits 0 (digits_from f n acc) ≡ parse_digits n acc
unfolding digits_from parse_digits
parse_digits-digits_from zero n acc h = absurd (omega arith)
parse_digits-digits_from (suc f) n acc h = elim (Bool-cases (n / 10 == 0)) [
  | inl last ↦ rw last (parse_digits_one n acc (ground arith))
  | inr more ↦ rw more (
      parse_digits-digits_from f (n / 10) ((n % 10 + 48) ∷ acc) (ground arith)
      ∙ parse_digits_step n acc)
]

-- A text that begins with a digit, and holds digits only.
abbrev pub IsDigit : ℕ → Type 0
IsDigit c = (48 ≤ c) × (c ≤ 57)

abbrev pub IsDecimal : List ℕ → Type 0
IsDecimal [] = ⊥
IsDecimal (c ∷ s) = IsDigit c × All IsDigit s

digits_from-IsDecimal :
    (f n : ℕ) (acc : List ℕ) → n < f → All IsDigit acc → IsDecimal (digits_from f n acc)
unfolding digits_from
digits_from-IsDecimal zero n acc h d = absurd (omega arith)
digits_from-IsDecimal (suc f) n acc h d = elim (Bool-cases (n / 10 == 0)) [
  | inl last ↦ rw last (omega arith, d)
  | inr more ↦
      rw more
        (digits_from-IsDecimal f (n / 10) ((n % 10 + 48) ∷ acc) (ground arith) (omega arith, d))
]

pub digits-IsDecimal : (n : ℕ) → IsDecimal (digits n)
unfolding digits
digits-IsDecimal n = digits_from-IsDecimal (suc n) n [] (omega arith) tt

parse_int_decimal :
    (bound : ℕ) (s : List ℕ)
    → IsDecimal s
    → parse_int bound s ≡ ranged bound false (parse_digits 0 s)
unfolding parse_int
parse_int_decimal bound [] d = absurd d
parse_int_decimal bound (c ∷ s) d = ground arith

digits_parsed : (n : ℕ) → parse_digits 0 (digits n) ≡ some n
unfolding digits parse_digits
digits_parsed n = parse_digits-digits_from (suc n) n [] (omega arith)

-- What is printed of a number in range is read back.
pub parse_int-digits : (bound n : ℕ) → n < bound → parse_int bound (digits n) ≡ some (pos n)
parse_int-digits bound n h =
    parse_int_decimal bound (digits n) (digits-IsDecimal n) ∙ (rw (parsed) (ground arith))
  where
    parsed : parse_digits 0 (digits n) ≡ some n
    parsed = digits_parsed n

-- What is read lies in range.
ranged_lt :
    (bound n : ℕ) (minus : Bool) (o : Option ℕ)
    → 0 < bound
    → ranged bound minus o ≡ some (pos n)
    → n < bound
ranged_lt bound n minus none h e = cc
ranged_lt bound n true (some m) h e = ground arith
ranged_lt bound n false (some m) h e = ground arith

pub parse_int_lt :
    (bound n : ℕ) (s : List ℕ) → 0 < bound → parse_int bound s ≡ some (pos n) → n < bound
unfolding parse_int
parse_int_lt bound n [] h e = cc
parse_int_lt bound n (c ∷ s) h e = ground (
  arith,
  ranged_lt bound n false (some_digits s),
  ranged_lt bound n true (some_digits s),
  ranged_lt bound n false (some_digits (c ∷ s)),
)
