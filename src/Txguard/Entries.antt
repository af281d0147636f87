-- ===== src/Txguard/Entries.antt =====
-- txguard/txguard.go: what `buildIndexOps` reads of a row and of the routing table, and its entries.
-- A row's fields are a function; a field without a value is missing.
use ki_db.Base.{
  ℕ, List, [], ◌∷◌, ◌++◌, map, Option, none, some, Bytes, codes, Bool, true, false, not, ltb,
  same_text, parse_uint, if◌then◌else◌, Score,
}
use ki_db.Meta.{IndexDef}
use ki_db.Keycodec.Keys.{query_escape}
use ki_db.Rowcodec.Member.{Msgp, plain_member, encode_member}
use ki_db.Bucketmap.{
  Doc, write_targets_eq, read_buckets_eq, write_targets_range, read_buckets_range,
}

abbrev pub Fields : Type 0
Fields = Bytes → Option Bytes

-- `fields[f]`: the empty text for a missing field.
abbrev pub text_of : Option Bytes → Bytes
text_of none = []
text_of (some v) = v

-- `hadOld && (!hasNew || oldVal != newVal)`
unfoldable pub leaves : Option Bytes → Option Bytes → Bool
leaves none new = false
leaves (some o) none = true
leaves (some o) (some n) = not (same_text o n)

-- `hasNew && (!hadOld || oldVal != newVal)`
unfoldable pub enters : Option Bytes → Option Bytes → Bool
enters old none = false
enters none (some n) = true
enters (some o) (some n) = not (same_text o n)

pub record Undo : Type 0 where
  pub bucket : Bytes
  pub member : Bytes

pub record AsyncDesc : Type 0 where
  pub log_key : Bytes
  pub redo_member : Bytes
  pub old_iv : ℕ

unfoldable pub iv_field : Bytes → Bytes
iv_field id = codes "_iv:" ++ id

-- The version at which an index's member was made; the row's version where it is not noted.
unfoldable pub iv_of : Fields → Bytes → ℕ → ℕ
unfolding iv_field
iv_of old_row id old_ver = elim (parse_uint (text_of (old_row (iv_field id)))) [
  | none ↦ old_ver
  | some v ↦ if ltb 0 v then v else old_ver
]

unfoldable pub eq_read_set : Option Doc → Bytes → List ℕ
eq_read_set none enc_val = 0 ∷ []
eq_read_set (some d) enc_val = read_buckets_eq d enc_val

-- `none` is the panic of the routing.
unfoldable pub eq_write_set : (Bytes → ℕ) → Option Doc → Bytes → Bytes → Option (List ℕ)
eq_write_set xxhash none enc_val pk = some (0 ∷ [])
eq_write_set xxhash (some d) enc_val pk = write_targets_eq xxhash d enc_val pk

unfoldable pub range_read_set : (s : Score) → Option Doc → s.Float → List ℕ
range_read_set s none score = 0 ∷ []
range_read_set s (some d) score = read_buckets_range s d score score

unfoldable pub range_write_set : (s : Score) → Option Doc → s.Float → Option (List ℕ)
range_write_set s none score = some (0 ∷ [])
range_write_set s (some d) score = write_targets_range s d score

unfoldable pub covering_member : Msgp → Bytes → ℕ → IndexDef → Fields → Bytes
covering_member m pk ver idx fields = elim idx.covering [
  | [] ↦ plain_member pk ver
  | ◌∷◌ c cs ↦ encode_member m pk ver (map (λ name. text_of (fields name)) (c ∷ cs))
]

-- `escLogField`
unfoldable pub esc_log_field : Bytes → Bytes
unfolding query_escape
esc_log_field v = query_escape v
