-- ===== src/Meta/Names.antt =====
-- Names that pass the check hold none of the bytes that structure a key.
use ki_db.Base.{
  ℕ, ◌<◌, ◌≤◌, ◌≡◌, inl, inr, refl, sym, [], ◌∷◌, arith, Bytes, true, false, ◌||◌, All, Free,
  Bool-cases, ltb, ◌==◌, length, pos, ◌^◌,
}
use ki_db.Meta.{is_ident_char, all_ident_chars, validate_ident}
use ki_db.Keycodec.Keys.{eq_bucket_key, range_bucket_key, escape_value}
use ki_db.Keycodec.Parse.{parse_eq_bucket_key, parse_range_bucket_key, parsed}
use ki_db.Keycodec.RoundTrip.{parse-eq_bucket_key, parse-range_bucket_key}
use ki_db.Keycodec.Escape.{IsByte}

chars-Free : (c : ℕ) (s : Bytes) → is_ident_char c ≡ false → all_ident_chars s ≡ true → Free c s
unfolding all_ident_chars
chars-Free c [] other h = tt
chars-Free c (x ∷ xs) other h = elim (Bool-cases (is_ident_char x)) [
  | inl e ↦ (
    (λ p. let same : is_ident_char c ≡ true = rw (sym p) e in absurd (ground (arith, other, same))),
    chars-Free c xs other (rw e at h),
  )
  | inr e ↦ absurd (ground (arith, (rw e at h)))
]

-- A name that `ValidateIdent` accepts is from 1 to 64 bytes long and holds no byte outside its
-- alphabet.
pub validate_ident-Free :
    (name : Bytes) (c : ℕ)
    → validate_ident name ≡ true
    → is_ident_char c ≡ false
    → (0 < length name) × (length name ≤ 64) × Free c name
unfolding validate_ident
validate_ident-Free name c h other =
    elim (Bool-cases ((length name == 0) || ltb 64 (length name))) [
      | inl e ↦ absurd (ground (arith, (rw e at h)))
      | inr e ↦ (ground (arith, e), ground (arith, e), chars-Free c name other (rw e at h))
    ]

ident-Free :
    (name : Bytes) (c : ℕ) → validate_ident name ≡ true → is_ident_char c ≡ false → Free c name
ident-Free name c h other = (validate_ident-Free name c h other).2

-- For table and index names that `ValidateIdent` accepts and a number below 2 ^ 63, the keys of
-- equality and of range buckets read back, whatever the value is, a text of bytes.
pub validate_ident-reads_back :
    (xxhash : Bytes → ℕ) (table idx value : Bytes) (n : ℕ)
    → validate_ident table ≡ true
    → validate_ident idx ≡ true
    → n < 2 ^ 63
    → All IsByte value
    → (parse_eq_bucket_key (eq_bucket_key xxhash table idx value (pos n))
        ≡ parsed (table, idx, escape_value xxhash value, n))
      × (parse_range_bucket_key (range_bucket_key table idx (pos n)) ≡ parsed (table, idx, n))
unfolding is_ident_char
validate_ident-reads_back xxhash table idx value n ht hi hn bytes = (
  parse-eq_bucket_key xxhash table idx value n hn bytes (ident-Free table b':' ht refl)
      (ident-Free idx b'=' hi refl) (ident-Free idx b'{' hi refl) (ident-Free idx b'}' hi refl),
  parse-range_bucket_key table idx n hn (ident-Free table b':' ht refl)
      (ident-Free idx b'{' hi refl) (ident-Free idx b'}' hi refl),
)
