-- ===== src/Rowcodec/RoundTrip.antt =====
-- The readers of members invert the writers.
use ki_db.Base.{
  ℕ, suc, ◌+◌, ◌%◌, ◌^◌, ◌<◌, ◌≡◌, ◌≢◌, refl, List, [], ◌∷◌, ◌++◌, some, Bytes, true, false,
  format_uint, length, arith, All, All-imp, index_byte-first, zero, ◌/◌, ◌*◌, ◌≤◌, format_onto,
  digit, last_index_byte-last, parse_uint-format, format_uint-IsHexDigit, take-append_length,
  drop-append_suc-length, Free, not,
}
use ki_db.Rowcodec.Member.{
  Msgp, separator, plain_member, texts, encode_member, read_texts, plain_pk, covering_pk, member_pk,
  member_covers, plain_ver, covering_ver, member_ver, is_empty, first_text, second_ver, lex_item,
  lex_member,
}

-- What msgp documents: what was appended is read back, for sizes of 32 bits.
pub record ReadsBack (m : Msgp) : Type 0 where
  pub header_back :
      (n : ℕ) (rest : Bytes) → n < 2 ^ 32 → m.read_header (m.header n ++ rest) ≡ some (n, rest)
  pub text_back :
      (s rest : Bytes) → length s < 2 ^ 32 → m.read_text (m.text s ++ rest) ≡ some (s, rest)

abbrev pub IsShort : Bytes → Type 0
IsShort s = length s < 2 ^ 32

digits-Free : (ver : ℕ) → Free separator (format_uint ver 10)
digits-Free ver =
    All-imp (λ c h. ground (arith, h)) (format_uint ver 10)
      (format_uint-IsHexDigit 10 ver (omega arith) (omega arith))

plain-pk :
    (m : Msgp) (x : ℕ) (pk : Bytes) (ver : ℕ)
    → ver < 2 ^ 64
    → member_pk m (plain_member (x ∷ pk) ver) false ≡ x ∷ pk
unfolding member_pk plain_pk plain_member
plain-pk m x pk ver h = ground (
  arith,
  last_index_byte-last separator (x ∷ pk) (format_uint ver 10) (digits-Free ver),
  drop-append_suc-length (x ∷ pk) separator (format_uint ver 10),
  parse_uint-format ver h,
  take-append_length (x ∷ pk) (separator ∷ format_uint ver 10),
)

plain-ver :
    (m : Msgp) (x : ℕ) (pk : Bytes) (ver : ℕ)
    → ver < 2 ^ 64
    → member_ver m (plain_member (x ∷ pk) ver) false ≡ some ver
unfolding member_ver plain_ver plain_member
plain-ver m x pk ver h = ground (
  arith,
  last_index_byte-last separator (x ∷ pk) (format_uint ver 10) (digits-Free ver),
  drop-append_suc-length (x ∷ pk) separator (format_uint ver 10),
  parse_uint-format ver h,
)

-- A number below 2^(k + 1) has at most k + 1 digits.
digits_few :
    (k fuel n : ℕ) (tail : Bytes)
    → n < 2 ^ suc k
    → length (format_onto 10 fuel n tail) ≤ suc k + length tail
unfolding format_onto
digits_few k zero n tail h = ground arith
digits_few zero (suc fuel) n tail h = ground arith
digits_few (suc k) (suc fuel) n tail h =
    let double : 2 ^ suc (suc k) ≡ 2 * 2 ^ suc k = grind arith in
    ground (arith, double, digits_few k fuel (n / 10) (digit (n % 10) ∷ tail))

format_uint-IsShort : (ver : ℕ) → ver < 2 ^ 64 → IsShort (format_uint ver 10)
unfolding format_uint
format_uint-IsShort ver h = omega (arith, digits_few 63 ver ver [] h)

module _ (m : Msgp) (r : ReadsBack m) where
  read_texts-two :
      (a b : Bytes) (vs : List Bytes)
      → IsShort a
      → IsShort b
      → read_texts m 2 (texts m (a ∷ b ∷ vs)) ≡ some (a ∷ b ∷ [], texts m vs)
  unfolding read_texts texts
  read_texts-two a b vs ha hb =
      rw (r.text_back a (m.text b ++ texts m vs) ha, read_texts)
        (rw (r.text_back b (texts m vs) hb, read_texts) refl)

  read_texts-texts :
      (vs : List Bytes) → All IsShort vs → read_texts m (length vs) (texts m vs) ≡ some (vs, [])
  unfolding read_texts texts
  read_texts-texts [] h = refl
  read_texts-texts (v ∷ vs) h = rw (r.text_back v (texts m vs) h.0, read_texts-texts vs h.1)

  -- What the readers of a covering member begin with.
  header-encode_member :
      (pk : Bytes) (ver : ℕ) (c : Bytes) (cs : List Bytes)
      → 2 + length (c ∷ cs) < 2 ^ 32
      → m.read_header (encode_member m pk ver (c ∷ cs))
        ≡ some (2 + length (c ∷ cs), texts m (pk ∷ format_uint ver 10 ∷ c ∷ cs))
  unfolding encode_member texts
  header-encode_member pk ver c cs h =
      let small : (2 + length (c ∷ cs)) % 2 ^ 32 ≡ 2 + length (c ∷ cs) = grind arith in
      rw small (r.header_back (2 + length (c ∷ cs)) (texts m (pk ∷ format_uint ver 10 ∷ c ∷ cs)) h)

  covering-reads :
      (x : ℕ) (pk : Bytes) (ver : ℕ) (c : Bytes) (cs : List Bytes)
      → ver < 2 ^ 64
      → 2 + length (c ∷ cs) < 2 ^ 32
      → All IsShort ((x ∷ pk) ∷ format_uint ver 10 ∷ c ∷ cs)
      → (member_pk m (encode_member m (x ∷ pk) ver (c ∷ cs)) true ≡ x ∷ pk)
        × (member_ver m (encode_member m (x ∷ pk) ver (c ∷ cs)) true ≡ some ver)
        × (member_covers m (encode_member m (x ∷ pk) ver (c ∷ cs)) true ≡ c ∷ cs)
  unfolding member_pk covering_pk member_ver covering_ver member_covers first_text second_ver
  covering-reads x pk ver c cs hv hn hs =
      let start = header-encode_member (x ∷ pk) ver c cs hn in
      let all = read_texts-texts ((x ∷ pk) ∷ format_uint ver 10 ∷ c ∷ cs) hs in
      let back = parse_uint-format ver hv in
      let two = read_texts-two (x ∷ pk) (format_uint ver 10) (c ∷ cs) hs.0 hs.1.0 in
      (ground (arith, start, all), ground (arith, start, two, back), ground (arith, start, all))

  -- Where msgp reads back what it wrote, `MemberPK`, `MemberVer` and `MemberCovers`, told whether
  -- the member has covered columns, invert `EncodeMember` for every primary key that is not
  -- empty, uint64 version and list of columns, all of sizes of 32 bits.
  pub reads-encode_member :
      (pk : Bytes) (ver : ℕ) (covers : List Bytes)
      → pk ≢ []
      → ver < 2 ^ 64
      → 2 + length covers < 2 ^ 32
      → All IsShort (pk ∷ covers)
      → (member_pk m (encode_member m pk ver covers) (not (is_empty covers)) ≡ pk)
        × (member_ver m (encode_member m pk ver covers) (not (is_empty covers)) ≡ some ver)
        × (member_covers m (encode_member m pk ver covers) (not (is_empty covers)) ≡ covers)
  unfolding encode_member member_covers
  reads-encode_member [] ver covers np hv hn hs = elim (np refl) [ ]
  reads-encode_member (x ∷ pk) ver [] np hv hn hs =
      (plain-pk m x pk ver hv, plain-ver m x pk ver hv, refl)
  reads-encode_member (x ∷ pk) ver (c ∷ cs) np hv hn hs =
      covering-reads x pk ver c cs hv hn (hs.0, (format_uint-IsShort ver hv, hs.1))

-- A reading by prefix takes value and primary key from a dictionary member, if neither is empty
-- and the value holds no zero byte, at every uint64 version.
pub lex_item-lex_member :
    (m : Msgp) (value pk : Bytes) (ver : ℕ)
    → value ≢ []
    → Free 0 value
    → pk ≢ []
    → ver < 2 ^ 64
    → lex_item m (lex_member value pk ver) ≡ some (value, pk)
unfolding lex_item lex_member plain_member
lex_item-lex_member m [] pk ver nv fv np hv = elim (nv refl) [ ]
lex_item-lex_member m (v ∷ vs) [] ver nv fv np hv = elim (np refl) [ ]
lex_item-lex_member m (v ∷ vs) (x ∷ pk) ver nv fv np hv = ground (
  arith,
  index_byte-first 0 (v ∷ vs) (plain_member (x ∷ pk) ver) fv,
  take-append_length (v ∷ vs) (0 ∷ plain_member (x ∷ pk) ver),
  drop-append_suc-length (v ∷ vs) 0 (plain_member (x ∷ pk) ver),
  plain-pk m x pk ver hv,
)
