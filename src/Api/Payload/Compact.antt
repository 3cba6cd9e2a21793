-- ===== src/Api/Payload/Compact.antt =====
-- jsonRawIsCompact tells exactly the texts that compaction leaves alone.
use kafka_rest_proxy_go.Common.{
  sym, subst, ℕ, ◌≤◌, ◌≡◌, refl, ap, ◌↔◌, inl, inr, true, some, List, [], ◌∷◌, length, arith,
  Bool-cases,
}
use kafka_rest_proxy_go.Producer.{Bytes}
use kafka_rest_proxy_go.Go.Strings.{trim_space}
use kafka_rest_proxy_go.Common.Try.{ok}
use kafka_rest_proxy_go.Api.Payload.{
  Codec, is_space, Mode, outside, in_string, escaped, advance, scan, json_raw_is_compact,
  strip_from, strip, decode_trimmed, decode_json_value,
}

strip_from-le : (m : Mode) (raw : List ℕ) → length (strip_from m raw) ≤ length raw
unfolding strip_from
strip_from-le outside [] = omega arith
strip_from-le in_string [] = omega arith
strip_from-le escaped [] = omega arith
strip_from-le outside (b ∷ raw) = ground (arith, strip_from-le (advance outside b) raw)
strip_from-le in_string (b ∷ raw) = ground (arith, strip_from-le (advance in_string b) raw)
strip_from-le escaped (b ∷ raw) = ground (arith, strip_from-le (advance escaped b) raw)

scan-strip_from : (m : Mode) (raw : List ℕ) → scan m raw ≡ true → strip_from m raw ≡ raw
unfolding scan strip_from
scan-strip_from outside [] h = refl
scan-strip_from in_string [] h = refl
scan-strip_from escaped [] h = refl
scan-strip_from in_string (b ∷ raw) h =
    ap (λ t. b ∷ t) (scan-strip_from (advance in_string b) raw h)
scan-strip_from escaped (b ∷ raw) h = ap (λ t. b ∷ t) (scan-strip_from (advance escaped b) raw h)
scan-strip_from outside (b ∷ raw) h = ground (arith, scan-strip_from (advance outside b) raw)

strip_from-scan : (m : Mode) (raw : List ℕ) → strip_from m raw ≡ raw → scan m raw ≡ true
unfolding scan strip_from
strip_from-scan outside [] h = refl
strip_from-scan in_string [] h = refl
strip_from-scan escaped [] h = refl
strip_from-scan in_string (b ∷ raw) h = strip_from-scan (advance in_string b) raw (cc)
strip_from-scan escaped (b ∷ raw) h = strip_from-scan (advance escaped b) raw (cc)
strip_from-scan outside (b ∷ raw) h = elim (Bool-cases (is_space b)) [
  | inl space ↦
      let shorter : strip_from (advance outside b) raw ≡ b ∷ raw = rw space at h in
      absurd (omega (arith, ap length shorter, strip_from-le (advance outside b) raw))
  | inr solid ↦
      let same : b ∷ strip_from (advance outside b) raw ≡ b ∷ raw = rw solid at h in
      rw solid (strip_from-scan (advance outside b) raw (cc))
]

-- A text is compact exactly when dropping the white space outside its strings leaves it as it is.
pub json_raw_is_compact_iff : (raw : List ℕ) → (json_raw_is_compact raw ≡ true) ↔ (strip raw ≡ raw)
unfolding json_raw_is_compact strip
json_raw_is_compact_iff raw = (scan-strip_from outside raw, strip_from-scan outside raw)

advance_space : (b : ℕ) → is_space b ≡ true → advance outside b ≡ outside
advance_space b h = ground arith

scan-strip : (m : Mode) (raw : List ℕ) → scan m (strip_from m raw) ≡ true
unfolding scan strip_from
scan-strip outside [] = refl
scan-strip in_string [] = refl
scan-strip escaped [] = refl
scan-strip in_string (b ∷ raw) = scan-strip (advance in_string b) raw
scan-strip escaped (b ∷ raw) = scan-strip (advance escaped b) raw
scan-strip outside (b ∷ raw) =
    let ih = scan-strip (advance outside b) raw in
    elim (Bool-cases (is_space b)) [
      | inl space ↦ rw space (
          subst (λ m. scan m (strip_from (advance outside b) raw) ≡ true) (advance_space b space)
            ih)
      | inr solid ↦ rw solid (rw solid ih)
    ]

decode_trimmed_exact :
    (codec : Codec) (raw : Bytes)
    → codec.json_valid raw ≡ true
    → decode_trimmed codec raw ≡ ok (some (strip raw))
unfolding decode_trimmed
decode_trimmed_exact codec raw h = elim (Bool-cases (json_raw_is_compact raw)) [
  | inl compact ↦ rw compact (ap (λ t. ok (some t)) (sym ((json_raw_is_compact_iff raw).0 compact)))
  | inr loose ↦ rw (loose, h)
]

strip_compact : (raw : Bytes) → json_raw_is_compact (strip raw) ≡ true
unfolding json_raw_is_compact strip
strip_compact raw = scan-strip outside raw

-- Decoding a valid JSON value gives it trimmed and without the white space outside strings, whether
-- or not the scan finds it compact, and what is stored is compact.
pub decode_json_value_exact :
    (codec : Codec) (raw : Bytes)
    → codec.json_valid (trim_space raw) ≡ true
    → (decode_json_value codec raw ≡ ok (some (strip (trim_space raw))))
      × (json_raw_is_compact (strip (trim_space raw)) ≡ true)
unfolding decode_json_value
decode_json_value_exact codec raw h =
    (decode_trimmed_exact codec (trim_space raw) h, strip_compact (trim_space raw))
