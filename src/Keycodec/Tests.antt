-- ===== src/Keycodec/Tests.antt =====
-- Keys of keycodec/keycodec_test.go, and the theorems at concrete inputs.
use ki_db.Base.{
  ℕ, zero, suc, ◌+◌, ◌-◌, ◌*◌, ◌%◌, ◌<◌, ◌≡◌, ◌≢◌, inr, inl, refl, ◌∙◌, [], arith, Option, none,
  some, Bytes, codes, pos, drop, index_byte, index_of, has_prefix, append-nil, length, contains,
  format_uint, itoa, format_onto, parse_digits, parse_upto, atoi, parse_digits-format,
}
use ki_db.Keycodec.Slot.{
  candidate, slot, slot_tag, Table, num_slots, hashtag, hashtag_in, zero_pad, pad_five, init,
}
use ki_db.Keycodec.Slot.Tags.{hashtag-candidate}
use ki_db.Keycodec.Slot.Fill.{IsComplete, Covers, init-IsComplete}
use ki_db.Keycodec.Keys.{
  row_key, receipt_key, async_log_key, exp_key, exp_shard_key, exp_key_n, eq_bucket_key,
  eq_bucket_key_esc, range_bucket_key, lex_bucket_key, replica_key, stride, escape_value,
  query_escape, escape_byte, has_structural, unique_key,
}
use ki_db.Keycodec.Escape.{unique_key-escaped_twice}
use ki_db.Keycodec.Parse.{
  parsed, rejected, panic, parse_range_bucket_key, parse_eq_bucket_key, parse_range_rest,
  parse_range_tag, parse_eq_rest, parse_eq_at, parse_eq_tag, parse_sub,
}
use ki_db.Keycodec.Colocation.{receipt_key-colocated, receipt_key-split, async_log_key-colocated}
use ki_db.Keycodec.Replica.{slot-replica_key, replica_key-apart}
use ki_db.Keycodec.RoundTrip.{parse-range_bucket_key, parse-eq_bucket_key}
use ki_db.Keycodec.Malformed.{parse_panics}

-- A stand-in for the checksum: the number in a candidate's tag.
abbrev number_of : Option ℕ → ℕ
number_of none = 0
number_of (some n) = n

toy_crc16 : Bytes → ℕ
toy_crc16 s = number_of (parse_digits 0 (drop 2 s))

abbrev toy_xxhash : Bytes → ℕ
toy_xxhash s = 9

zero_pad-parse : (k : ℕ) (s : Bytes) → parse_digits 0 (zero_pad k s) ≡ parse_digits 0 s
unfolding zero_pad parse_digits
zero_pad-parse zero s = refl
zero_pad-parse (suc k) s = zero_pad-parse k s

toy-candidate : (n : ℕ) → n < num_slots → slot toy_crc16 (candidate n) ≡ n
unfolding slot toy_crc16 pad_five
toy-candidate n h =
    let tag = rw append-nil at (hashtag-candidate [] n [] tt) in
    let read =
      zero_pad-parse (5 - length (format_uint n 10)) (format_uint n 10) ∙ parse_digits-format n in
    rw (tag, read, number_of) (omega arith)

toy_table : Table
toy_table s = candidate s

toy_table-IsComplete : IsComplete toy_crc16 toy_table
unfolding toy_table
toy_table-IsComplete s h = (s, refl, toy-candidate s h)

toy-Covers : Covers toy_crc16 num_slots
toy-Covers s h = (s, h, toy-candidate s h)

abbrev bucket : Bytes
bucket = codes "i:users:idx_city={s:00007}"

-- TestEqBucketForm, TestRangeLexBucketForm, TestRowColocation
key_forms :
    (eq_bucket_key toy_xxhash (codes "users") (codes "idx_city") (codes "shanghai") (pos 3)
      ≡ codes "i:users:idx_city={shanghai#b3}")
    × (range_bucket_key (codes "users") (codes "idx_age") (pos 5) ≡ codes "i:users:idx_age:{r5}")
    × (lex_bucket_key (codes "users") (codes "idx_city") (pos 2) ≡ codes "i:users:idx_city:{l2}")
    × (exp_key_n (codes "users") (pos 1) (pos 4) ≡ codes "exp:users#1")
    × (exp_key_n (codes "users") (pos 0) (pos 1) ≡ codes "exp:users")
    × (escape_value toy_xxhash (codes "a b/c") ≡ codes "a+b%2Fc")
    × (escape_value toy_xxhash (codes "has:colon") ≡ codes "~x9")
unfolding eq_bucket_key eq_bucket_key_esc escape_value query_escape has_structural range_bucket_key
    lex_bucket_key exp_key_n exp_key exp_shard_key itoa format_uint format_onto escape_byte
key_forms = (refl, refl, refl, refl, refl, refl, refl)

-- TestHashtag
hashtag_cases :
    (hashtag (codes "foo{bar}zap") ≡ codes "bar")
    × (hashtag (codes "foo{}{bar}") ≡ codes "foo{}{bar}")
    × (hashtag (codes "foo{bar") ≡ codes "foo{bar")
unfolding hashtag hashtag_in index_byte
hashtag_cases = (refl, refl, refl)

-- TestBucketKeyParseRoundTrip, the malformed forms
parse_refuses :
    (parse_eq_bucket_key (codes "i:users:idx_city={hot#b-1}") ≡ rejected)
    × (parse_eq_bucket_key (codes "i:users:idx_city={hot#x3}") ≡ rejected)
    × (parse_range_bucket_key (codes "i:users:idx_age:{x1}") ≡ rejected)
    × (parse_range_bucket_key (codes "i:users:idx_age:{r-1}") ≡ rejected)
unfolding parse_eq_bucket_key parse_range_bucket_key parse_range_rest parse_range_tag parse_eq_rest
    parse_eq_at parse_eq_tag parse_sub index_byte index_of has_prefix contains atoi parse_upto
    parse_digits
parse_refuses = (refl, refl, refl, refl)

init-IsComplete_example :
    (t : Table) × (init toy_crc16 (suc num_slots) ≡ some t) × IsComplete toy_crc16 t
init-IsComplete_example = init-IsComplete toy_crc16 num_slots toy-Covers

receipt_key-colocated_example :
    slot toy_crc16 (receipt_key (codes "users") (codes "42"))
    ≡ slot toy_crc16 (row_key (codes "users") (codes "42"))
receipt_key-colocated_example =
    receipt_key-colocated toy_crc16 (codes "users") b'4' (codes "2") (omega arith) (omega arith)

receipt_key-split_example :
    (hashtag (row_key (codes "users") (codes "}1")) ≡ row_key (codes "users") (codes "}1"))
    × (hashtag (receipt_key (codes "users") (codes "}1"))
        ≡ receipt_key (codes "users") (codes "}1"))
    × (row_key (codes "users") (codes "}1") ≢ receipt_key (codes "users") (codes "}1"))
receipt_key-split_example = receipt_key-split (codes "users") (codes "1") (omega arith)

async_log_key-colocated_example :
    slot toy_crc16 (
      async_log_key toy_table (codes "users") (codes "idx") (slot toy_crc16 (codes "d:users:{42}")))
    ≡ slot toy_crc16 (codes "d:users:{42}")
async_log_key-colocated_example =
    async_log_key-colocated toy_crc16 toy_table toy_table-IsComplete (codes "users") (codes "idx")
      (codes "d:users:{42}") (omega arith) (omega arith)

slot-replica_key_example :
    slot toy_crc16 (codes "i:u:a={s:03647}")
    ≡ (slot toy_crc16 (codes "i:u:a={s:00007}") + 2 * stride) % num_slots
unfolding replica_key slot_tag toy_table candidate pad_five format_uint format_onto index_byte slot
    toy_crc16 parse_digits hashtag hashtag_in
slot-replica_key_example =
    slot-replica_key toy_crc16 toy_table toy_table-IsComplete (codes "i:u:a={s:00007}")
      (codes "i:u:a={s:03647}") 2 refl

replica_key-apart_example :
    (slot toy_crc16 (codes "i:u:a={s:03647}") ≢ slot toy_crc16 (codes "i:u:a={s:01827}"))
    × (slot toy_crc16 (codes "i:u:a={s:03647}") ≢ slot toy_crc16 (codes "i:u:a={s:00007}"))
unfolding replica_key slot_tag toy_table candidate pad_five format_uint format_onto index_byte slot
    toy_crc16 parse_digits hashtag hashtag_in
replica_key-apart_example =
    replica_key-apart toy_crc16 toy_table toy_table-IsComplete (codes "i:u:a={s:00007}")
      (codes "i:u:a={s:03647}") (codes "i:u:a={s:01827}") 2 1 refl refl (omega arith) (omega arith)
      (omega arith) (omega arith) (omega arith)

parse-range_bucket_key_example :
    parse_range_bucket_key (range_bucket_key (codes "users") (codes "idx_age") (pos 17))
    ≡ parsed (codes "users", codes "idx_age", 17)
parse-range_bucket_key_example =
    parse-range_bucket_key (codes "users") (codes "idx_age") 17 (omega arith) (omega arith)
      (omega arith) (omega arith)

parse-eq_bucket_key_example :
    parse_eq_bucket_key (
      eq_bucket_key toy_xxhash
        (codes "users")
        (codes "idx_city")
        (codes "has:colon{and}brace")
        (pos 2))
    ≡ parsed
        (codes "users", codes "idx_city", escape_value toy_xxhash (codes "has:colon{and}brace"), 2)
parse-eq_bucket_key_example =
    parse-eq_bucket_key toy_xxhash (codes "users") (codes "idx_city") (codes "has:colon{and}brace")
      2 (omega arith) (omega arith) (omega arith) (omega arith) (omega arith) (omega arith)

parse_panics_example :
    (parse_range_bucket_key (codes "i:users:{r0}") ≡ panic)
    × (parse_range_bucket_key (codes "i:users:a}{r0}") ≡ panic)
    × (parse_eq_bucket_key (codes "i:users:a}={r0}") ≡ panic)
parse_panics_example =
    parse_panics (codes "users") (codes "a") (codes "r0}") (omega arith) (omega arith) (omega arith)
      (omega arith)

unique_key-escaped_twice_example :
    unique_key toy_xxhash (codes "users") (codes "city") (escape_value toy_xxhash (codes "a b"))
    ≢ unique_key toy_xxhash (codes "users") (codes "city") (codes "a b")
unfolding has_structural query_escape escape_byte
unique_key-escaped_twice_example =
    unique_key-escaped_twice toy_xxhash (codes "users") (codes "city") (codes "a b") (omega arith)
      refl (inr (inl refl)) (omega arith)
