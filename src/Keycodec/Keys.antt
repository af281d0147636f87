-- ===== src/Keycodec/Keys.antt =====
-- keycodec/keycodec.go: the keys. A number that Go prints by `%d` is an integer.
-- xxhash (github.com/cespare/xxhash) and the checksum are parameters.
use ki_db.Base.{
  ℕ, zero, suc, ◌+◌, ◌-◌, ◌*◌, ◌/◌, ◌%◌, ◌^◌, [], ◌∷◌, ◌++◌, Option, none, some, Bytes, codes, Bool,
  true, false, ◌&&◌, ◌||◌, ℤ, pos, negsuc, index_byte, itoa, format_uint, length, take, drop, ltb,
  leb, ◌==◌, if◌then◌else◌, has_prefix,
}
use ki_db.Keycodec.Slot.{Table, num_slots, slot, slot_tag}

unfoldable pub row_key : Bytes → Bytes → Bytes
row_key table pk = codes "d:" ++ (table ++ (codes ":{" ++ (pk ++ codes "}")))

unfoldable pub receipt_key : Bytes → Bytes → Bytes
receipt_key table pk = codes "rcpt:" ++ (table ++ (codes ":{" ++ (pk ++ codes "}")))

unfoldable pub exp_key : Bytes → Bytes
exp_key table = codes "exp:" ++ table

unfoldable pub exp_shard_key : Bytes → ℤ → Bytes
unfolding exp_key
exp_shard_key table shard = exp_key table ++ (codes "#" ++ itoa shard)

-- `shards <= 1`
abbrev pub at_most_one : ℤ → Bool
at_most_one (pos n) = leb n 1
at_most_one (negsuc _) = true

unfoldable pub exp_key_n : Bytes → ℤ → ℤ → Bytes
unfolding exp_key exp_shard_key
exp_key_n table shard shards =
    if at_most_one shards then exp_key table else exp_shard_key table shard

-- `int(h) % shards` for a hash `h` from 0 on; a count of at most one never divides.
abbrev pub sub_for : ℕ → ℤ → ℕ
sub_for hash (pos n) = if leb n 1 then 0 else hash % n
sub_for hash (negsuc _) = 0

unfoldable pub exp_shard_for : (Bytes → ℕ) → Bytes → ℤ → ℕ
exp_shard_for crc16 pk shards = sub_for (crc16 pk) shards

unfoldable pub eq_sub_for : (Bytes → ℕ) → Bytes → ℤ → ℕ
eq_sub_for xxhash pk k = sub_for (xxhash pk) k

-- `url.QueryEscape`
abbrev pub upper_digit : ℕ → ℕ
upper_digit d = if ltb d 10 then b'0' + d else b'A' + (d - 10)

abbrev pub is_unreserved : ℕ → Bool
is_unreserved c =
    (leb b'a' c && leb c b'z')
    || ((leb b'A' c && leb c b'Z')
        || ((leb b'0' c && leb c b'9')
            || ((c == b'-') || ((c == b'_') || ((c == b'.') || (c == b'~'))))))

unfoldable pub escape_byte : ℕ → Bytes
escape_byte c =
    if is_unreserved c
    then c ∷ []
    else if c == b' '
    then b'+' ∷ []
    else b'%' ∷ upper_digit (c / 16) ∷ upper_digit (c % 16) ∷ []

unfoldable pub query_escape : Bytes → Bytes
unfolding escape_byte
query_escape [] = []
query_escape (c ∷ cs) = escape_byte c ++ query_escape cs

-- `strings.ContainsAny(v, ":{}#")`
abbrev pub is_structural : ℕ → Bool
is_structural c = (c == b':') || ((c == b'{') || ((c == b'}') || (c == b'#')))

unfoldable pub has_structural : Bytes → Bool
has_structural [] = false
has_structural (c ∷ cs) = is_structural c || has_structural cs

unfoldable pub escape_value : (Bytes → ℕ) → Bytes → Bytes
unfolding has_structural query_escape
escape_value xxhash v =
    if ltb 128 (length v) || has_structural v
    then codes "~x" ++ format_uint (xxhash v) 16
    else query_escape v

unfoldable pub has_digest_prefix : Bytes → Bool
has_digest_prefix escaped = has_prefix escaped (codes "~x")

unfoldable pub eq_bucket_key_esc : Bytes → Bytes → Bytes → ℤ → Bytes
eq_bucket_key_esc table idx enc_val (negsuc _) =
    codes "i:" ++ (table ++ (codes ":" ++ (idx ++ (codes "={" ++ (enc_val ++ codes "}")))))
eq_bucket_key_esc table idx enc_val (pos zero) =
    codes "i:" ++ (table ++ (codes ":" ++ (idx ++ (codes "={" ++ (enc_val ++ codes "}")))))
eq_bucket_key_esc table idx enc_val (pos (suc n)) =
    codes "i:"
    ++ (table
        ++ (codes ":"
            ++ (idx
                ++ (codes "={"
                    ++ (enc_val ++ (codes "#b" ++ (format_uint (suc n) 10 ++ codes "}")))))))

unfoldable pub eq_bucket_key : (Bytes → ℕ) → Bytes → Bytes → Bytes → ℤ → Bytes
unfolding eq_bucket_key_esc escape_value
eq_bucket_key xxhash table idx value n = eq_bucket_key_esc table idx (escape_value xxhash value) n

unfoldable pub range_bucket_key : Bytes → Bytes → ℤ → Bytes
range_bucket_key table idx n =
    codes "i:" ++ (table ++ (codes ":" ++ (idx ++ (codes ":{r" ++ (itoa n ++ codes "}")))))

unfoldable pub lex_bucket_key : Bytes → Bytes → ℤ → Bytes
lex_bucket_key table idx n =
    codes "i:" ++ (table ++ (codes ":" ++ (idx ++ (codes ":{l" ++ (itoa n ++ codes "}")))))

unfoldable pub unique_key : (Bytes → ℕ) → Bytes → Bytes → Bytes → Bytes
unfolding escape_value
unique_key xxhash table idx enc_val =
    codes "u:" ++ (table ++ (codes ":" ++ (idx ++ (codes "=" ++ escape_value xxhash enc_val))))

unfoldable pub async_log_key : Table → Bytes → Bytes → ℕ → Bytes
unfolding slot_tag
async_log_key stag_table table idx s =
    codes "log:idx:" ++ (table ++ (codes ":" ++ (idx ++ (codes ":" ++ slot_tag stag_table s))))

unfoldable pub bucket_map_key : Bytes → Bytes → Bytes
bucket_map_key table idx = codes "bm:" ++ (table ++ (codes ":" ++ idx))

unfoldable pub bucket_map_hot_key : Bytes → Bytes → Bytes
bucket_map_hot_key table idx = codes "bmh:" ++ (table ++ (codes ":" ++ idx))

unfoldable pub seq_key : Bytes → Bytes
seq_key table = codes "seq:" ++ table

unfoldable pub sweep_lock_key : Bytes → ℤ → ℤ → Bytes
sweep_lock_key table shard shards =
    if at_most_one shards
    then codes "lk:sweep:{" ++ (table ++ codes "}")
    else codes "lk:sweep:{" ++ (table ++ (codes "#" ++ (itoa shard ++ codes "}")))

-- `16384 / 9`
abbrev pub stride : ℕ
stride = 1820

-- The slot of the `k`th replica, in uint16 arithmetic.
abbrev pub replica_slot : ℕ → ℕ → ℕ
replica_slot source k = (source + k * stride % 2 ^ 16) % 2 ^ 16 % num_slots

-- `none` is the panic on a key without a hash tag.
unfoldable pub replica_key : (Bytes → ℕ) → Table → Bytes → ℕ → Option Bytes
unfolding slot slot_tag
replica_key crc16 stag_table bucket k = elim (index_byte b'{' bucket) [
  | none ↦ none
  | some i ↦ elim (index_byte b'}' (drop i bucket)) [
    | none ↦ none
    | some zero ↦ none
    | some (suc j) ↦ some (
        take i bucket
        ++ (slot_tag stag_table (replica_slot (slot crc16 bucket) k)
            ++ drop (i + suc j + 1) bucket))
  ]
]
