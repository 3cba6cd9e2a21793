-- ===== src/Go/Strings/Split.antt =====
-- strings.Split at a separator of one byte.
use kafka_rest_proxy_go.Common.{
  ℕ, ◌≡◌, ◌≢◌, ap, List, [], ◌∷◌, ◌++◌, All, ◌==◌, if◌then◌else◌, arith, append_assoc, append-nil,
  sym,
}

-- The parts of a text, where `cur` is what stands of the current part.
split_from : ℕ → List ℕ → List ℕ → List (List ℕ)
split_from sep cur [] = cur ∷ []
split_from sep cur (c ∷ s) =
    let ended = cur ∷ split_from sep [] s in
    let longer = split_from sep (cur ++ c ∷ []) s in if c == sep then ended else longer

-- Split(s, sep).
unfoldable pub split : ℕ → List ℕ → List (List ℕ)
unfolding split_from
split sep s = split_from sep [] s

-- A part holds no separator.
abbrev pub Lacks : ℕ → List ℕ → Type 0
Lacks sep = All (λ c. c ≢ sep)

split_from_part :
    (sep : ℕ) (cur part rest : List ℕ)
    → Lacks sep part
    → split_from sep cur (part ++ sep ∷ rest) ≡ (cur ++ part) ∷ split_from sep [] rest
unfolding split_from
split_from_part sep cur [] rest h = ground (arith, append-nil cur)
split_from_part sep cur (c ∷ part) rest (h, hs) =
    ground (arith, split_from_part sep (cur ++ c ∷ []) part rest hs, append_assoc cur (c ∷ []) part)

split_from_last :
    (sep : ℕ) (cur part : List ℕ) → Lacks sep part → split_from sep cur part ≡ (cur ++ part) ∷ []
unfolding split_from
split_from_last sep cur [] h = ap (λ t. t ∷ []) (sym (append-nil cur))
split_from_last sep cur (c ∷ part) (h, hs) =
    ground (arith, split_from_last sep (cur ++ c ∷ []) part hs, append_assoc cur (c ∷ []) part)

-- Splitting takes parts that were joined by the separator apart again.
pub split_part :
    (sep : ℕ) (part rest : List ℕ)
    → Lacks sep part
    → split sep (part ++ sep ∷ rest) ≡ part ∷ split sep rest
unfolding split
split_part sep part rest h = split_from_part sep [] part rest h

pub split_last : (sep : ℕ) (part : List ℕ) → Lacks sep part → split sep part ≡ part ∷ []
unfolding split
split_last sep part h = split_from_last sep [] part h
