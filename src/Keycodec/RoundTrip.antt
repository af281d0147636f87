-- ===== src/Keycodec/RoundTrip.antt =====
-- keycodec/keycodec.go: what the readers of bucket keys give on the keys that keycodec builds.
use ki_db.Base.{
  ℕ, zero, suc, ◌+◌, ◌-◌, ◌^◌, ◌<◌, ◌≡◌, refl, ap, ◌∙◌, [], ◌∷◌, ◌++◌, append_assoc, arith, some,
  Bytes, codes, Free, Free-append, pos, index_byte, index_byte-first, index_of-first,
  index_of-absent, contains-byte_absent, has_prefix, has_prefix-append, atoi-format, itoa,
  format_uint, format_uint-IsHexDigit, length, length-append, take, drop, take-append_length,
  drop-append_length, drop-append_suc-length, All, All-imp,
}
use ki_db.Keycodec.Keys.{eq_bucket_key_esc, eq_bucket_key, range_bucket_key, escape_value}
use ki_db.Keycodec.Escape.{IsByte, escape_value-IsPlain}
use ki_db.Keycodec.Parse.{parsed, parse_sub, parse_range_bucket_key, parse_eq_bucket_key}
use ki_db.Keycodec.Parse.{
  parse_range_tag, parse_range_rest, parse_eq_tag, parse_eq_at, parse_eq_rest,
}

digits-Free : (n : ℕ) → Free b'}' (format_uint n 10)
digits-Free n =
    All-imp (λ c h. ground arith) _ (format_uint-IsHexDigit 10 n (omega arith) (omega arith))

parse_sub-digits :
    (prefix : Bytes) (n : ℕ) → n < 2 ^ 63 → parse_sub prefix (prefix ++ format_uint n 10) ≡ some n
unfolding parse_sub
parse_sub-digits prefix n h = ground (
  arith,
  has_prefix-append prefix (format_uint n 10),
  drop-append_length prefix (format_uint n 10),
  atoi-format n h,
)

-- The text between the braces, as the readers cut it out.
module _ (pre tag : Bytes) (before : Free b'}' pre) (inside : Free b'}' tag) where
  tag_end :
      index_byte b'}' (pre ++ (b'{' ∷ (tag ++ codes "}"))) ≡ some (length pre + (1 + length tag))
  tag_end =
      let free = Free-append b'}' pre (b'{' ∷ tag) before (omega arith, inside) in
      let same : (pre ++ (b'{' ∷ tag)) ++ codes "}" ≡ pre ++ (b'{' ∷ (tag ++ codes "}")) =
        simp append_assoc in
      rw (same, length-append pre (b'{' ∷ tag)) at
        (index_byte-first b'}' (pre ++ (b'{' ∷ tag)) [] free)
      ∙ ap some (omega arith)

  tag_slice :
      take
        (length pre + (1 + length tag) - (length pre + 1))
        (drop (length pre + 1) (pre ++ (b'{' ∷ (tag ++ codes "}"))))
      ≡ tag
  tag_slice =
      let start : length pre + 1 ≡ suc (length pre) = omega arith in
      let size : length pre + (1 + length tag) - (length pre + 1) ≡ length tag = omega arith in
      rw (
        size,
        start,
        drop-append_suc-length pre b'{' (tag ++ codes "}"),
        take-append_length tag (codes "}"),
      )

parse_range_tag_lem :
    (table idx pre : Bytes) (n : ℕ)
    → n < 2 ^ 63
    → Free b'}' pre
    → parse_range_tag table idx
        (pre ++ (b'{' ∷ (b'r' ∷ (format_uint n 10 ++ codes "}"))))
        (length pre)
      ≡ parsed (table, idx, n)
unfolding parse_range_tag
parse_range_tag_lem table idx pre n h hp =
    let tag = b'r' ∷ format_uint n 10 in
    let inside : Free b'}' tag = (omega arith, digits-Free n) in
    ground (
      arith,
      tag_end pre tag hp inside,
      tag_slice pre tag hp inside,
      parse_sub-digits (codes "r") n h,
    )

parse_range_rest_lem :
    (table idx : Bytes) (n : ℕ)
    → n < 2 ^ 63
    → Free b'{' idx
    → Free b'}' idx
    → parse_range_rest table (idx ++ (codes ":{r" ++ (format_uint n 10 ++ codes "}")))
      ≡ parsed (table, idx, n)
unfolding parse_range_rest
parse_range_rest_lem table idx n h no_open no_close =
    let pre = idx ++ codes ":" in
    let back = b'r' ∷ (format_uint n 10 ++ codes "}") in
    let rest = idx ++ (b':' ∷ (b'{' ∷ back)) in
    let same : pre ++ (b'{' ∷ back) ≡ rest = simp append_assoc in
    let tag =
      rw same at
        (index_byte-first b'{' pre back (Free-append b'{' idx (codes ":") no_open (omega arith))) in
    let size : length pre ≡ suc (length idx) = omega (arith, length-append idx (codes ":")) in
    let tag_at : index_byte b'{' rest ≡ some (suc (length idx)) = rw size at tag in
    let found =
      rw (same, size) at
        (parse_range_tag_lem table idx pre n h
          (Free-append b'}' idx (codes ":") no_close (omega arith))) in
    ground (arith, tag_at, take-append_length idx (b':' ∷ (b'{' ∷ back)), found)

pub table_split :
    (table rest : Bytes)
    → Free b':' table
    → (index_byte b':' (table ++ (b':' ∷ rest)) ≡ some (length table))
      × (take (length table) (table ++ (b':' ∷ rest)) ≡ table)
      × (drop (length table + 1) (table ++ (b':' ∷ rest)) ≡ rest)
table_split table rest h =
    let start : length table + 1 ≡ suc (length table) = omega arith in
    (
      index_byte-first b':' table rest h,
      take-append_length table (b':' ∷ rest),
      rw start (drop-append_suc-length table b':' rest),
    )

-- Reading back a range bucket's key gives the table, the index and the number, for a table name
-- without `:`, an index without braces and a number below 2 ^ 63.
pub parse-range_bucket_key :
    (table idx : Bytes) (n : ℕ)
    → n < 2 ^ 63
    → Free b':' table
    → Free b'{' idx
    → Free b'}' idx
    → parse_range_bucket_key (range_bucket_key table idx (pos n)) ≡ parsed (table, idx, n)
unfolding parse_range_bucket_key range_bucket_key itoa has_prefix
parse-range_bucket_key table idx n h ht no_open no_close =
    let rest = idx ++ (codes ":{r" ++ (format_uint n 10 ++ codes "}")) in
    let (at, before, behind) = table_split table rest ht in
    ground (arith, at, before, behind, parse_range_rest_lem table idx n h no_open no_close)

-- The tag of sub-bucket `n`; bucket 0 has the bare value.
eq_tag : Bytes → ℕ → Bytes
eq_tag enc zero = enc
eq_tag enc (suc n) = enc ++ (codes "#b" ++ format_uint (suc n) 10)

eq_tag-Free : (enc : Bytes) (n : ℕ) → Free b'}' enc → Free b'}' (eq_tag enc n)
unfolding eq_tag
eq_tag-Free enc zero h = h
eq_tag-Free enc (suc n) h =
    Free-append b'}' enc _ h (omega arith, (omega arith, digits-Free (suc n)))

parse_eq_tag_lem :
    (table idx enc : Bytes) (n : ℕ)
    → n < 2 ^ 63
    → Free b'#' enc
    → parse_eq_tag table idx (eq_tag enc n) ≡ parsed (table, idx, enc, n)
unfolding parse_eq_tag eq_tag
parse_eq_tag_lem table idx enc zero h plain =
    ground (arith, index_of-absent b'#' (codes "b") enc plain, contains-byte_absent b'#' enc plain)
parse_eq_tag_lem table idx enc (suc n) h plain =
    let digits = format_uint (suc n) 10 in
    let skip : drop (length enc + 2) (enc ++ (codes "#b" ++ digits)) ≡ digits =
      drop_two enc digits in
    ground (
      arith,
      index_of-first b'#' (codes "b") enc digits plain,
      skip,
      take-append_length enc (codes "#b" ++ digits),
      parse_sub-digits [] (suc n) h,
    )
  where
    drop_two : (xs ys : Bytes) → drop (length xs + 2) (xs ++ (codes "#b" ++ ys)) ≡ ys
    drop_two [] ys = refl
    drop_two (x ∷ xs) ys =
        let e : suc (length xs) + 2 ≡ suc (length xs + 2) = omega arith in rw e (drop_two xs ys)

parse_eq_rest_lem :
    (table idx enc : Bytes) (n : ℕ)
    → n < 2 ^ 63
    → Free b'=' idx
    → Free b'{' idx
    → Free b'}' idx
    → Free b'#' enc
    → Free b'}' enc
    → parse_eq_rest table (idx ++ (b'=' ∷ (b'{' ∷ (eq_tag enc n ++ codes "}"))))
      ≡ parsed (table, idx, enc, n)
unfolding parse_eq_rest parse_eq_at
parse_eq_rest_lem table idx enc n h no_eq no_open no_close no_hash closed =
    let pre = idx ++ codes "=" in
    let tag = eq_tag enc n in
    let inside = eq_tag-Free enc n closed in
    let before = Free-append b'}' idx (codes "=") no_close (omega arith) in
    let same : pre ++ (b'{' ∷ (tag ++ codes "}")) ≡ idx ++ (b'=' ∷ (b'{' ∷ (tag ++ codes "}"))) =
      simp append_assoc in
    let size : length pre ≡ length idx + 1 = omega (arith, length-append idx (codes "=")) in
    let opened =
      rw (same, size) at
        (index_byte-first b'{' pre (tag ++ codes "}")
          (Free-append b'{' idx (codes "=") no_open (omega arith))) in
    let stop = rw (same, size) at (tag_end pre tag before inside) in
    let slice = rw (same, size) at (tag_slice pre tag before inside) in
    ground (
      arith,
      index_byte-first b'=' idx (b'{' ∷ (tag ++ codes "}")) no_eq,
      take-append_length idx (b'=' ∷ (b'{' ∷ (tag ++ codes "}"))),
      opened,
      stop,
      slice,
      parse_eq_tag_lem table idx enc n h no_hash,
    )

-- Reading back an equality bucket's key gives the table, the index, the escaped value and the
-- number, for a table name without `:`, an index without `=` and braces, an escaped value without
-- `#` and `}`, and a number below 2 ^ 63.
pub parse-eq_bucket_key_esc :
    (table idx enc : Bytes) (n : ℕ)
    → n < 2 ^ 63
    → Free b':' table
    → Free b'=' idx
    → Free b'{' idx
    → Free b'}' idx
    → Free b'#' enc
    → Free b'}' enc
    → parse_eq_bucket_key (eq_bucket_key_esc table idx enc (pos n)) ≡ parsed (table, idx, enc, n)
unfolding parse_eq_bucket_key has_prefix
parse-eq_bucket_key_esc table idx enc n h ht no_eq no_open no_close no_hash closed =
    let rest = idx ++ (b'=' ∷ (b'{' ∷ (eq_tag enc n ++ codes "}"))) in
    let (at, before, behind) = table_split table rest ht in
    let key = built table idx enc n in
    rw key (
      ground (
        arith,
        at,
        before,
        behind,
        parse_eq_rest_lem table idx enc n h no_eq no_open no_close no_hash closed,
      ))
  where
    built :
        (table idx enc : Bytes) (n : ℕ)
        → eq_bucket_key_esc table idx enc (pos n)
          ≡ codes "i:" ++ (table ++ (b':' ∷ (idx ++ (b'=' ∷ (b'{' ∷ (eq_tag enc n ++ codes "}"))))))
    built table idx enc zero = unfold eq_bucket_key_esc eq_tag in refl
    built table idx enc (suc n) = unfold eq_bucket_key_esc eq_tag in simp append_assoc

-- The equality bucket's key of any value, a text of bytes, reads back to the table, the index, the
-- value's escaped form and the number, for a table name without `:`, an index without `=` and
-- braces and a number below 2 ^ 63.
pub parse-eq_bucket_key :
    (xxhash : Bytes → ℕ) (table idx value : Bytes) (n : ℕ)
    → n < 2 ^ 63
    → All IsByte value
    → Free b':' table
    → Free b'=' idx
    → Free b'{' idx
    → Free b'}' idx
    → parse_eq_bucket_key (eq_bucket_key xxhash table idx value (pos n))
      ≡ parsed (table, idx, escape_value xxhash value, n)
unfolding eq_bucket_key
parse-eq_bucket_key xxhash table idx value n h bytes ht no_eq no_open no_close =
    let plain = escape_value-IsPlain xxhash value bytes in
    parse-eq_bucket_key_esc table idx (escape_value xxhash value) n h ht no_eq no_open no_close
      (All-imp (λ c p. p.3) _ plain) (All-imp (λ c p. p.2) _ plain)
