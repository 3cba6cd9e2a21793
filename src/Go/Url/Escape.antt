-- ===== src/Go/Url/Escape.antt =====
-- PathUnescape undoes PathEscape, and an escaped segment holds no slash.
use kafka_rest_proxy_go.Common.{
  ℕ, ◌/◌, ◌%◌, ◌<◌, ◌≡◌, ◌≢◌, refl, subst, ap, ◌∙◌, inl, inr, true, some, List, [], ◌∷◌, All, arith,
  Bool-cases,
}
use kafka_rest_proxy_go.Go.Strings.Split.{Lacks}
use kafka_rest_proxy_go.Go.Url.{
  unhex, cons?, byte_of, path_unescape, is_plain, hex_digit, path_escape,
}

abbrev pub IsText : List ℕ → Type 0
IsText = All (λ c. c < 256)

unhex-hex_digit : (n : ℕ) → n < 16 → unhex (hex_digit n) ≡ some n
unfolding unhex hex_digit
unhex-hex_digit n h = ground arith

is_plain-ne : (c : ℕ) → is_plain c ≡ true → (c ≢ b'%') × (c ≢ b'/')
unfolding is_plain
is_plain-ne c h = (
  (λ e. let x : is_plain b'%' ≡ true = subst (λ n. is_plain n ≡ true) e h in cc),
  λ e. let x : is_plain b'/' ≡ true = subst (λ n. is_plain n ≡ true) e h in cc,
)

path_unescape_plain :
    (c : ℕ) (s : List ℕ) → c ≢ b'%' → path_unescape (c ∷ s) ≡ cons? (some c) (path_unescape s)
unfolding path_unescape
path_unescape_plain c [] h = ground arith
path_unescape_plain c (a ∷ []) h = ground arith
path_unescape_plain c (a ∷ b ∷ s) h = ground arith

path_unescape_coded :
    (a b : ℕ) (s : List ℕ)
    → path_unescape (b'%' ∷ a ∷ b ∷ s) ≡ cons? (byte_of (unhex a) (unhex b)) (path_unescape s)
unfolding path_unescape
path_unescape_coded a b s = refl

pub path_unescape-path_escape : (s : List ℕ) → IsText s → path_unescape (path_escape s) ≡ some s
unfolding path_escape path_unescape
path_unescape-path_escape [] h = refl
path_unescape-path_escape (c ∷ s) (h, hs) =
    let ih = path_unescape-path_escape s hs in
    elim (Bool-cases (is_plain c)) [
      | inl plain ↦
          rw plain
            (path_unescape_plain c (path_escape s) (is_plain-ne c plain).0 ∙ ap (cons? (some c)) ih)
      | inr coded ↦ rw coded (
          path_unescape_coded (hex_digit (c / 16)) (hex_digit (c % 16)) (path_escape s)
          ∙ rw (ih, unhex-hex_digit (c / 16) (omega arith), unhex-hex_digit (c % 16) (omega arith))
              (ground arith))
    ]

hex_digit-ne : (n : ℕ) → n < 16 → hex_digit n ≢ b'/'
unfolding hex_digit
hex_digit-ne n h = ground arith

pub path_escape-Lacks : (s : List ℕ) → IsText s → Lacks b'/' (path_escape s)
unfolding path_escape
path_escape-Lacks [] h = tt
path_escape-Lacks (c ∷ s) (h, hs) =
    let ih = path_escape-Lacks s hs in
    elim (Bool-cases (is_plain c)) [
      | inl plain ↦ rw plain ((is_plain-ne c plain).1, ih)
      | inr coded ↦ rw coded (
        (λ e. absurd (omega (arith, e))),
        (hex_digit-ne (c / 16) (omega arith), (hex_digit-ne (c % 16) (omega arith), ih)),
      )
    ]
