-- ===== src/Bucketmap/Store.antt =====
-- bucketmap/bucketmap.go, `Store`: the cached copies of the table and of the registry of split
-- values, and the compare-and-set of script/lua/bucket_state_cas.lua. The decoders of msgp are
-- parameters. Each reading of the clock and each reply of the server is an argument, in the
-- order of the code; a reply `none` is an error.
pub mod Staleness
use ki_db.Base.{
  ℕ, suc, ◌+◌, ◌-◌, ◌*◌, ◌^◌, List, [], ◌∷◌, ◌++◌, Option, none, some, Bytes, codes, Bool, true,
  false, ◌&&◌, ◌||◌, is_digit, drop, length, ltb, leb, ◌==◌, same_text, set_key, if◌then◌else◌,
  has_prefix,
}
use ki_db.Bucketmap.{Doc, EqEntry, Ranges, default_doc}

-- The value that `strconv.ParseUint(s, 10, 64)` returns, whatever its error is: the greatest
-- uint64 where the digits run over, and 0 on any other error.
uint_value : ℕ → Bytes → ℕ
uint_value acc [] = acc
uint_value acc (c ∷ cs) =
    let next = acc * 10 + (c - b'0') in
    let rest = uint_value next cs in
    if is_digit c then (if ltb (2 ^ 64 - 1) next then 2 ^ 64 - 1 else rest) else 0

-- utils/reply.go, `ParseUint64`
unfoldable pub parse_uint64 : Bytes → ℕ
unfolding uint_value
parse_uint64 s = uint_value 0 s

-- `fields[f]`: a missing field is the empty text.
field : Bytes → List (Bytes × Bytes) → Bytes
field f [] = []
field f ((g, v) ∷ rest) = if same_text g f then v else field f rest

module _ (decode_entry : Bytes → Option EqEntry) (decode_ranges : Bytes → Option Ranges) where
  -- One field of the reply: an entry `e:{value}`, the list `r` of ranges, or another.
  apply_field : Bytes → Bytes → Doc → Doc
  apply_field f v d =
      if ltb 2 (length f) && has_prefix f (codes "e:")
      then elim (decode_entry v) [ none ↦ d | some e ↦ record d { eq = set_key d.eq (drop 2 f) e } ]
      else if same_text f (codes "r")
      then elim (decode_ranges v) [ none ↦ d | some rs ↦ record d { ranges = rs } ]
      else d

  apply_fields : List (Bytes × Bytes) → Doc → Doc
  unfolding apply_field
  apply_fields [] d = d
  apply_fields ((f, v) ∷ rest) d = apply_fields rest (apply_field f v d)

  -- What `Load` makes of the reply to HGETALL.
  unfoldable pub decode_doc : List (Bytes × Bytes) → Doc
  unfolding apply_fields field default_doc
  decode_doc [] = default_doc
  decode_doc (f ∷ fs) =
      let next = parse_uint64 (field (codes "next") (f ∷ fs)) in
      apply_fields (f ∷ fs) (record default_doc {
        version = parse_uint64 (field (codes "version") (f ∷ fs));
        next = if next == 0 then 1 else next;
      })

pub record Store : Type 0 where
  pub cache : Bytes → Option Doc
  pub since : ℕ
  pub ttl : ℕ
  pub reg_cache : Bytes → Option (List Bytes)

-- `New`, at a reading of the clock; the source's `ttl` is one second.
unfoldable pub new_store : ℕ → ℕ → Store
new_store ttl now = record { cache = λ _. none; since = now; ttl = ttl; reg_cache = λ _. none }

-- `time.Since(s.since) < s.ttl`
abbrev pub is_fresh : Store → ℕ → Bool
is_fresh s now = ltb (now - s.since) s.ttl

-- The end of `Load`: an expired cache is emptied, of its tables alone.
keep_doc : Store → Bytes → Doc → ℕ → Store
keep_doc s k d now =
    let base : Store = if is_fresh s now then s else record s { cache = λ _. none; since = now } in
    record base { cache = set_key base.cache k d }

-- `Load`: the key, the clock at the look-up, the table that the server returns, and the clock at
-- the store. The result is the table or an error.
unfoldable pub load : Store → Bytes → ℕ → Option Doc → ℕ → Store × Option Doc
unfolding keep_doc
load s k now reply later =
    let fetched : Store × Option Doc = elim reply [
      | none ↦ (s, none)
      | some d ↦ (keep_doc s k d later, some d)
    ] in
    if is_fresh s now then elim (s.cache k) [ some d ↦ (s, some d) | none ↦ fetched ] else fetched

-- The end of `Registry`: an expired cache is emptied, of both its parts.
keep_registry : Store → Bytes → List Bytes → ℕ → Store
keep_registry s k r now =
    let base : Store =
      if is_fresh s now
      then s
      else record s { cache = λ _. none; reg_cache = λ _. none; since = now } in
    record base { reg_cache = set_key base.reg_cache k r }

-- `Registry`
unfoldable pub registry : Store → Bytes → ℕ → Option (List Bytes) → ℕ → Store × Option (List Bytes)
unfolding keep_registry
registry s k now reply later =
    let fetched : Store × Option (List Bytes) = elim reply [
      | none ↦ (s, none)
      | some r ↦ (keep_registry s k r later, some r)
    ] in
    if is_fresh s now
    then elim (s.reg_cache k) [ some r ↦ (s, some r) | none ↦ fetched ]
    else fetched

-- `Invalidate`
unfoldable pub invalidate : Store → ℕ → Store
invalidate s now = record s { cache = λ _. none; reg_cache = λ _. none; since = now }

-- `LoadFresh`, with the clock at its `Invalidate` first.
unfoldable pub load_fresh : Store → ℕ → Bytes → ℕ → Option Doc → ℕ → Store × Option Doc
unfolding load invalidate
load_fresh s cleared k now reply later = load (invalidate s cleared) k now reply later

-- A change of one field of the stored table.
pub data Change : Type 0 where
  set_next : ℕ → Change
  set_entry : Bytes → EqEntry → Change
  set_ranges : Ranges → Change

unfoldable pub apply_change : Change → Doc → Doc
apply_change (set_next n) d = record d { next = n }
apply_change (set_entry k e) d = record d { eq = set_key d.eq k e }
apply_change (set_ranges rs) d = record d { ranges = rs }

-- bucket_state_cas.lua on the stored table: the new version, or none where the version differs.
unfoldable pub cas : Doc → ℕ → Change → Doc × Option ℕ
unfolding apply_change
cas d expect change =
    if d.version == expect
    then (record (apply_change change d) { version = d.version + 1 }, some (d.version + 1))
    else (d, none)
