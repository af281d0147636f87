-- ===== src/Keycodec/Parse.antt =====
-- keycodec/keycodec.go: the readers of bucket keys.
use ki_db.Base.{
  ℕ, zero, suc, ◌+◌, ◌-◌, [], Option, none, some, Bytes, codes, pos, negsuc, index_byte, index_of,
  contains, atoi, length, take, drop, ltb, ◌==◌, if◌then◌else◌, has_prefix,
}

-- A reader's end: its values with `ok = true`, `ok = false`, or a run-time panic.
pub data Parsed {ℓ} (A : Type ℓ) : Type ℓ where
  parsed : A → Parsed A
  rejected panic : Parsed A

-- `parseSub`
unfoldable pub parse_sub : Bytes → Bytes → Option ℕ
parse_sub prefix tag_content =
    if has_prefix tag_content prefix
    then elim (atoi (drop (length prefix) tag_content)) [
      | some (pos n) ↦ some n
      | some (negsuc _) ↦ none
      | none ↦ none
    ]
    else none

-- What follows the table: `rest[tagPos+1:end]` panics where the end stands before the tag.
unfoldable pub parse_range_tag : Bytes → Bytes → Bytes → ℕ → Parsed (Bytes × Bytes × ℕ)
parse_range_tag table idx rest tag_pos = elim (index_byte b'}' rest) [
  | none ↦ rejected
  | some stop ↦
      if ltb stop (tag_pos + 1)
      then panic
      else elim (parse_sub (codes "r") (take (stop - (tag_pos + 1)) (drop (tag_pos + 1) rest))) [
        | none ↦ rejected
        | some n ↦ parsed (table, idx, n)
      ]
]

-- `rest[:tagPos-1]` panics where the tag comes first.
unfoldable pub parse_range_rest : Bytes → Bytes → Parsed (Bytes × Bytes × ℕ)
parse_range_rest table rest = elim (index_byte b'{' rest) [
  | none ↦ rejected
  | some zero ↦ panic
  | some (suc p) ↦ parse_range_tag table (take p rest) rest (suc p)
]

unfoldable pub parse_range_bucket_key : Bytes → Parsed (Bytes × Bytes × ℕ)
parse_range_bucket_key key =
    if has_prefix key (codes "i:")
    then elim (index_byte b':' (drop 2 key)) [
      | none ↦ rejected
      | some colon ↦ parse_range_rest (take colon (drop 2 key)) (drop (colon + 1) (drop 2 key))
    ]
    else rejected

-- The tag of an equality bucket is the value, or the value and `#b` and the number.
unfoldable pub parse_eq_tag : Bytes → Bytes → Bytes → Parsed (Bytes × Bytes × Bytes × ℕ)
parse_eq_tag table idx tag = elim (index_of (codes "#b") tag) [
  | some h ↦ elim (parse_sub [] (drop (h + 2) tag)) [
    | none ↦ rejected
    | some n ↦ parsed (table, idx, take h tag, n)
  ]
  | none ↦ if contains tag (codes "#") then rejected else parsed (table, idx, tag, 0)
]

unfoldable pub parse_eq_at : Bytes → Bytes → ℕ → ℕ → Parsed (Bytes × Bytes × Bytes × ℕ)
parse_eq_at table rest eq_pos tag_pos = elim (index_byte b'}' rest) [
  | none ↦ rejected
  | some stop ↦
      if ltb stop (tag_pos + 1)
      then panic
      else parse_eq_tag table (take eq_pos rest)
          (take (stop - (tag_pos + 1)) (drop (tag_pos + 1) rest))
]

unfoldable pub parse_eq_rest : Bytes → Bytes → Parsed (Bytes × Bytes × Bytes × ℕ)
parse_eq_rest table rest = elim (index_byte b'=' rest) [
  | none ↦ rejected
  | some eq_pos ↦ elim (index_byte b'{' rest) [
    | none ↦ rejected
    | some tag_pos ↦
        if tag_pos == eq_pos + 1 then parse_eq_at table rest eq_pos tag_pos else rejected
  ]
]

unfoldable pub parse_eq_bucket_key : Bytes → Parsed (Bytes × Bytes × Bytes × ℕ)
parse_eq_bucket_key key =
    if has_prefix key (codes "i:")
    then elim (index_byte b':' (drop 2 key)) [
      | none ↦ rejected
      | some colon ↦ parse_eq_rest (take colon (drop 2 key)) (drop (colon + 1) (drop 2 key))
    ]
    else rejected
