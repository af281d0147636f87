-- ===== src/Indexer/Unescape.antt =====
-- `QueryUnescape` undoes `QueryEscape`.
use ki_db.Base.{
  ℕ, ◌+◌, ◌*◌, ◌/◌, ◌%◌, ◌<◌, ◌≡◌, refl, ◌∙◌, inl, inr, arith, [], ◌∷◌, ◌++◌, some, Bytes, false,
  All, Bool-cases, ◌==◌,
}
use ki_db.Keycodec.Keys.{upper_digit, is_unreserved, escape_byte, query_escape}
use ki_db.Keycodec.Escape.{IsByte}
use ki_db.Indexer.{Reading, hex_value, put_byte, unescape_from, query_unescape}

hex_value-upper_digit : (d : ℕ) → d < 16 → hex_value (upper_digit d) ≡ some d
hex_value-upper_digit d h = ground arith

split_byte : (c : ℕ) → IsByte c → (c / 16 < 16) × (c % 16 < 16) × (c / 16 * 16 + c % 16 ≡ c)
split_byte c h = (grind arith, grind arith, grind arith)

unescape-half :
    (d e : ℕ) (rest : Bytes)
    → e < 16
    → unescape_from (Reading.half d) (upper_digit e ∷ rest)
      ≡ put_byte (d * 16 + e) (unescape_from Reading.plain rest)
unfolding unescape_from
unescape-half d e rest he = rw (hex_value-upper_digit e he, unescape_from) refl

unescape-digits :
    (d e : ℕ) (rest : Bytes)
    → d < 16
    → e < 16
    → unescape_from Reading.percent (upper_digit d ∷ upper_digit e ∷ rest)
      ≡ put_byte (d * 16 + e) (unescape_from Reading.plain rest)
unfolding unescape_from
unescape-digits d e rest hd he =
    rw (hex_value-upper_digit d hd, unescape_from) (unescape-half d e rest he)

unescape-escape_byte :
    (c : ℕ) (rest : Bytes)
    → IsByte c
    → unescape_from Reading.plain (escape_byte c ++ rest)
      ≡ put_byte c (unescape_from Reading.plain rest)
unfolding unescape_from escape_byte
unescape-escape_byte c rest h = elim (Bool-cases (is_unreserved c)) [
  | inl free ↦
      let not_percent : (c == b'%') ≡ false = ground (arith, free) in
      let not_plus : (c == b'+') ≡ false = ground (arith, free) in
      rw free (rw (not_percent, not_plus) refl)
  | inr e ↦ elim (Bool-cases (c == b' ')) [
    | inl space ↦ let same : c ≡ b' ' = ground (arith, space) in rw (e, space) (rw same refl)
    | inr f ↦
        let (high, low, back) = split_byte c h in
        rw (e, f) (unescape-digits (c / 16) (c % 16) rest high low ∙ rw back refl)
  ]
]

pub unescape-query_escape : (v : Bytes) → All IsByte v → query_unescape (query_escape v) ≡ some v
unfolding query_unescape query_escape
unescape-query_escape [] h = unfold unescape_from in refl
unescape-query_escape (c ∷ cs) h =
    unescape-escape_byte c (query_escape cs) h.0 ∙ rw (unescape-query_escape cs h.1) refl
