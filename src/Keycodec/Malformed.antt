-- ===== src/Keycodec/Malformed.antt =====
-- keycodec/keycodec.go: the readers of bucket keys on malformed keys.
use ki_db.Base.{
  suc, ◌+◌, ◌≡◌, arith, append_assoc, ◌∷◌, ◌++◌, Bytes, codes, Free, Free-append, index_byte,
  index_byte-first, has_prefix, length, length-append,
}
use ki_db.Keycodec.Parse.{
  panic, parse_range_bucket_key, parse_eq_bucket_key, parse_range_rest, parse_range_tag,
  parse_eq_rest, parse_eq_at,
}
use ki_db.Keycodec.RoundTrip.{table_split}

range_rest_panics :
    (table idx rest : Bytes)
    → Free b'{' idx
    → Free b'}' idx
    → parse_range_rest table (idx ++ (b'}' ∷ (b'{' ∷ rest))) ≡ panic
unfolding parse_range_rest parse_range_tag
range_rest_panics table idx rest no_open no_close =
    let pre = idx ++ codes "}" in
    let same : pre ++ (b'{' ∷ rest) ≡ idx ++ (b'}' ∷ (b'{' ∷ rest)) = simp append_assoc in
    let size : length pre ≡ suc (length idx) = omega (arith, length-append idx (codes "}")) in
    let free = Free-append b'{' idx (codes "}") no_open (omega arith) in
    let opened = rw (same, size) at (index_byte-first b'{' pre rest free) in
    ground (arith, opened, index_byte-first b'}' idx (b'{' ∷ rest) no_close)

eq_rest_panics :
    (table idx rest : Bytes)
    → Free b'{' idx
    → Free b'}' idx
    → Free b'=' idx
    → parse_eq_rest table (idx ++ (codes "}={" ++ rest)) ≡ panic
unfolding parse_eq_rest parse_eq_at
eq_rest_panics table idx rest no_open no_close no_eq =
    let pre = idx ++ codes "}=" in
    let eq_pre = idx ++ codes "}" in
    let same : pre ++ (b'{' ∷ rest) ≡ idx ++ (codes "}={" ++ rest) = simp append_assoc in
    let eq_same : eq_pre ++ (b'=' ∷ (b'{' ∷ rest)) ≡ idx ++ (codes "}={" ++ rest) =
      simp append_assoc in
    let size : length pre ≡ length idx + 2 = omega (arith, length-append idx (codes "}=")) in
    let eq_size : length eq_pre ≡ length idx + 1 = omega (arith, length-append idx (codes "}")) in
    let opened =
      rw (same, size) at
        (index_byte-first b'{' pre rest
          (Free-append b'{' idx (codes "}=") no_open (omega arith, (omega arith, tt)))) in
    let eq_found =
      rw (eq_same, eq_size) at
        (index_byte-first b'=' eq_pre (b'{' ∷ rest)
          (Free-append b'=' idx (codes "}") no_eq (omega arith))) in
    ground (arith, opened, eq_found, index_byte-first b'}' idx (codes "={" ++ rest) no_close)

-- On these malformed keys the readers panic, where they reject others: the range reader on a tag
-- with no index in front of it, and both on a closing brace in front of the tag. For a table name
-- without `:` and an index without `{`, `}` and `=`.
pub parse_panics :
    (table idx rest : Bytes)
    → Free b':' table
    → Free b'{' idx
    → Free b'}' idx
    → Free b'=' idx
    → (parse_range_bucket_key (codes "i:" ++ (table ++ (b':' ∷ (b'{' ∷ rest)))) ≡ panic)
      × (parse_range_bucket_key (codes "i:" ++ (table ++ (b':' ∷ (idx ++ (b'}' ∷ (b'{' ∷ rest))))))
          ≡ panic)
      × (parse_eq_bucket_key (codes "i:" ++ (table ++ (b':' ∷ (idx ++ (codes "}={" ++ rest)))))
          ≡ panic)
unfolding parse_range_bucket_key parse_eq_bucket_key has_prefix
parse_panics table idx rest ht no_open no_close no_eq =
    let (at1, before1, behind1) = table_split table (b'{' ∷ rest) ht in
    let (at2, before2, behind2) = table_split table (idx ++ (b'}' ∷ (b'{' ∷ rest))) ht in
    let (at3, before3, behind3) = table_split table (idx ++ (codes "}={" ++ rest)) ht in
    let first : parse_range_rest table (b'{' ∷ rest) ≡ panic =
      unfold parse_range_rest index_byte in ground arith in
    (
      ground (arith, at1, before1, behind1, first),
      ground (arith, at2, before2, behind2, range_rest_panics table idx rest no_open no_close),
      ground (arith, at3, before3, behind3, eq_rest_panics table idx rest no_open no_close no_eq),
    )
