-- ===== src/Meta.antt =====
-- meta/types.go: the table definitions that the write path reads, and the checks of names.
pub mod Names
use ki_db.Base.{
  ℕ, List, [], ◌∷◌, Bytes, Bool, true, false, ◌&&◌, ◌||◌, codes, length, ltb, leb, ◌==◌, has_prefix,
  if◌then◌else◌,
}

pub data ColumnType : Type 0 where
  int_type float_type string_type bytes_type timestamp_type json_type : ColumnType

unfoldable pub range_indexable : ColumnType → Bool
range_indexable ColumnType.int_type = true
range_indexable ColumnType.float_type = true
range_indexable ColumnType.timestamp_type = true
range_indexable ColumnType.string_type = false
range_indexable ColumnType.bytes_type = false
range_indexable ColumnType.json_type = false

pub data IndexKind : Type 0 where
  eq range unique : IndexKind

-- `IndexDef`, with the one column that an index has.
pub record IndexDef : Type 0 where
  pub id : Bytes
  pub column : Bytes
  pub kind : IndexKind
  pub covering : List Bytes
  pub is_async : Bool
  pub prefix_copy : Bool

-- `EffectiveExpShards`
abbrev pub effective_exp_shards : ℕ
effective_exp_shards = 1

-- `ValidateReserved` accepts the name.
unfoldable pub validate_reserved : Bytes → Bool
validate_reserved name = if has_prefix name (codes "_") then false else true

-- The characters of `ValidateIdent`; a rune outside ASCII has no byte among them.
unfoldable pub is_ident_char : ℕ → Bool
is_ident_char c =
    (c == b'_')
    || ((leb b'a' c && leb c b'z') || ((leb b'A' c && leb c b'Z') || (leb b'0' c && leb c b'9')))

unfoldable pub all_ident_chars : Bytes → Bool
all_ident_chars [] = true
all_ident_chars (c ∷ cs) = if is_ident_char c then all_ident_chars cs else false

-- `ValidateIdent` accepts the name.
unfoldable pub validate_ident : Bytes → Bool
unfolding all_ident_chars
validate_ident name =
    if (length name == 0) || ltb 64 (length name) then false else all_ident_chars name
