-- ===== src/Keycodec/Escape.antt =====
-- keycodec/keycodec.go, `EscapeValue`: what an escaped value can hold, and escaping twice.
use ki_db.Base.{
  ℕ, suc, ◌+◌, ◌/◌, ◌%◌, ◌<◌, ◌≤◌, ◌≡◌, ◌≢◌, ◌⊎◌, inl, inr, refl, ap, [], ◌∷◌, ◌++◌, append_assoc,
  arith, false, ◌||◌, Bool-cases, Bytes, codes, length, length-append, All, All-append, All-imp,
  IsHexDigit, format_uint-IsHexDigit, ltb, ◌==◌,
}
use ki_db.Keycodec.Keys.{
  escape_byte, query_escape, has_structural, escape_value, is_unreserved, unique_key, upper_digit,
}

-- No byte of a hash tag's or a key's structure.
abbrev pub IsPlain : ℕ → Type 0
IsPlain c = (c ≢ b':') × (c ≢ b'{') × (c ≢ b'}') × (c ≢ b'#') × (c ≢ b'=')

abbrev pub IsByte : ℕ → Type 0
IsByte c = c < 256

escape_byte-IsPlain : (c : ℕ) → IsByte c → All IsPlain (escape_byte c)
unfolding escape_byte
escape_byte-IsPlain c h = ground arith

query_escape-IsPlain : (v : Bytes) → All IsByte v → All IsPlain (query_escape v)
unfolding query_escape
query_escape-IsPlain [] h = tt
query_escape-IsPlain (c ∷ cs) h =
    All-append IsPlain (escape_byte c) (query_escape cs) (escape_byte-IsPlain c h.0)
      (query_escape-IsPlain cs h.1)

hex-IsPlain : (c : ℕ) → IsHexDigit c → IsPlain c
hex-IsPlain c h = ground arith

-- The escaped form of any value, digest or not, holds none of `:`, `{`, `}`, `#`, `=`.
pub escape_value-IsPlain :
    (xxhash : Bytes → ℕ) (v : Bytes) → All IsByte v → All IsPlain (escape_value xxhash v)
unfolding escape_value
escape_value-IsPlain xxhash v h = elim (Bool-cases (ltb 128 (length v) || has_structural v)) [
  | inl e ↦ rw e (
    omega arith,
    (
      omega arith,
      All-imp hex-IsPlain _ (format_uint-IsHexDigit 16 (xxhash v) (omega arith) (omega arith)),
    ),
  )
  | inr e ↦ rw e (query_escape-IsPlain v h)
]

-- Some byte of the value is written in another way by `url.QueryEscape`.
abbrev pub HasReserved : Bytes → Type 0
HasReserved [] = ⊥
HasReserved (c ∷ cs) = (is_unreserved c ≡ false) ⊎ HasReserved cs

length-escape_byte : (c : ℕ) → 1 ≤ length (escape_byte c)
unfolding escape_byte
length-escape_byte c = ground arith

length-query_escape : (v : Bytes) → length v ≤ length (query_escape v)
unfolding query_escape
length-query_escape [] = omega arith
length-query_escape (c ∷ cs) = omega (
  arith,
  length-append (escape_byte c) (query_escape cs),
  length-escape_byte c,
  length-query_escape cs,
)

-- What escaping writes for a reserved byte grows when it is escaped again.
escape_byte_grows :
    (c : ℕ)
    → is_unreserved c ≡ false
    → length (escape_byte c) < length (query_escape (escape_byte c))
unfolding escape_byte query_escape
escape_byte_grows c h = elim (Bool-cases (c == b' ')) [
  | inl e ↦ rw (h, e) (omega arith)
  | inr e ↦ rw (h, e) (grown (upper_digit (c / 16)) (upper_digit (c % 16)))
]
  where
    grown : (x y : ℕ) → 4 ≤ suc (suc (suc (length (escape_byte x ++ (escape_byte y ++ [])))))
    grown x y =
        omega (arith, length-append (escape_byte x) (escape_byte y ++ []), length-escape_byte x)

query_escape-append : (v w : Bytes) → query_escape (v ++ w) ≡ query_escape v ++ query_escape w
unfolding query_escape
query_escape-append [] w = refl
query_escape-append (c ∷ cs) w = simp (query_escape-append cs w, append_assoc)

-- The lengths of a value escaped once and twice, by its first byte.
escaped_cons :
    (c : ℕ) (cs : Bytes)
    → (length (query_escape (c ∷ cs)) ≡ length (escape_byte c) + length (query_escape cs))
      × (length (query_escape (query_escape (c ∷ cs)))
          ≡ length (query_escape (escape_byte c)) + length (query_escape (query_escape cs)))
escaped_cons c cs =
    let once : query_escape (c ∷ cs) ≡ escape_byte c ++ query_escape cs =
      unfold query_escape in refl in
    (
      rw once (length-append (escape_byte c) (query_escape cs)),
      rw (once, query_escape-append) (length-append (query_escape (escape_byte c)) _),
    )

query_escape_grows :
    (v : Bytes) → HasReserved v → length (query_escape v) < length (query_escape (query_escape v))
query_escape_grows [] h = elim h [ ]
query_escape_grows (c ∷ cs) (inl e) =
    omega (arith, escaped_cons c cs, escape_byte_grows c e, length-query_escape (query_escape cs))
query_escape_grows (c ∷ cs) (inr h) =
    omega (arith, escaped_cons c cs, length-query_escape (escape_byte c), query_escape_grows cs h)

has_structural-IsPlain : (v : Bytes) → All IsPlain v → has_structural v ≡ false
unfolding has_structural
has_structural-IsPlain [] h = refl
has_structural-IsPlain (c ∷ cs) h = ground (arith, has_structural-IsPlain cs h.1)

escape_value-short :
    (xxhash : Bytes → ℕ) (v : Bytes)
    → length v ≤ 128
    → has_structural v ≡ false
    → escape_value xxhash v ≡ query_escape v
unfolding escape_value
escape_value-short xxhash v fits plain = ground arith

length-unique_key :
    (xxhash : Bytes → ℕ) (table idx w : Bytes)
    → length (unique_key xxhash table idx w)
      ≡ 4 + length table + length idx + length (escape_value xxhash w)
unfolding unique_key
length-unique_key xxhash table idx w = omega (
  arith,
  length-append table (codes ":" ++ (idx ++ (codes "=" ++ escape_value xxhash w))),
  length-append idx (codes "=" ++ escape_value xxhash w),
)

-- Escaping is not idempotent: for a value that `url.QueryEscape` changes, that has none of `:`,
-- `{`, `}`, `#`, and whose escaped form is at most 128 bytes long, the reservation key built from
-- the escaped value is not the one built from the value.
pub unique_key-escaped_twice :
    (xxhash : Bytes → ℕ) (table idx v : Bytes)
    → All IsByte v
    → has_structural v ≡ false
    → HasReserved v
    → length (query_escape v) ≤ 128
    → unique_key xxhash table idx (escape_value xxhash v) ≢ unique_key xxhash table idx v
unique_key-escaped_twice xxhash table idx v bytes plain reserved fits e =
    let once = escape_value-short xxhash v (omega (arith, length-query_escape v)) plain in
    let escaped_plain = has_structural-IsPlain _ (query_escape-IsPlain v bytes) in
    let twice = escape_value-short xxhash (query_escape v) fits escaped_plain in
    let same = rw once at e in
    omega (
      arith,
      ap length same,
      length-unique_key xxhash table idx (query_escape v),
      length-unique_key xxhash table idx v,
      ap length once,
      ap length twice,
      query_escape_grows v reserved,
    )
