-- ===== src/Keycodec/Colocation.antt =====
-- keycodec/keycodec.go: which keys share a slot, and where the replicas of a hot bucket go.
use ki_db.Base.{
  ℕ, ◌%◌, ◌≡◌, ◌≢◌, refl, sym, ap, ◌∙◌, [], ◌∷◌, ◌++◌, append_assoc, append-nil, arith, Bytes,
  codes, Free, Free-append, index_byte, index_byte-found,
}
use ki_db.Keycodec.Slot.{hashtag, hashtag_in, slot, slot_tag, Table, num_slots}
use ki_db.Keycodec.Slot.Tags.{hashtag-behind, hashtag-candidate}
use ki_db.Keycodec.Slot.Fill.{IsComplete, slot-lt}
use ki_db.Keycodec.Keys.{row_key, receipt_key, async_log_key}

-- The tag does not depend on the whole key where a closing brace follows a first byte.
hashtag_in_same :
    (k1 k2 : Bytes) (c : ℕ) (cs suf : Bytes)
    → c ≢ b'}'
    → hashtag_in k1 (c ∷ (cs ++ (b'}' ∷ suf))) ≡ hashtag_in k2 (c ∷ (cs ++ (b'}' ∷ suf)))
unfolding hashtag_in index_byte
hashtag_in_same k1 k2 c cs suf h = let (j, e) = index_byte-found b'}' cs suf in ground (arith, e)

-- A key of the shape `{kind}{table}:{` + pk + `}` is hashed by what follows its brace.
table_key-hashtag :
    (kind table pk : Bytes)
    → Free b'{' kind
    → Free b'{' table
    → hashtag (kind ++ (table ++ (codes ":{" ++ (pk ++ codes "}"))))
      ≡ hashtag_in (kind ++ (table ++ (codes ":{" ++ (pk ++ codes "}")))) (pk ++ codes "}")
table_key-hashtag kind table pk hk ht =
    let pre : Free b'{' (kind ++ (table ++ codes ":")) =
      Free-append b'{' kind _ hk (Free-append b'{' table _ ht (omega arith)) in
    let same : (kind ++ (table ++ codes ":")) ++ (b'{' ∷ (pk ++ codes "}"))
        ≡ kind ++ (table ++ (codes ":{" ++ (pk ++ codes "}"))) =
      simp append_assoc in
    rw same at (hashtag-behind (kind ++ (table ++ codes ":")) (pk ++ codes "}") pre)

-- A row and its expiry receipt share a slot, for a table name without `{` and a primary key
-- that is not empty and does not begin with `}`.
pub receipt_key-colocated :
    (crc16 : Bytes → ℕ) (table : Bytes) (c : ℕ) (cs : Bytes)
    → Free b'{' table
    → c ≢ b'}'
    → slot crc16 (receipt_key table (c ∷ cs)) ≡ slot crc16 (row_key table (c ∷ cs))
unfolding row_key receipt_key slot
receipt_key-colocated crc16 table c cs plain h =
    let receipt = table_key-hashtag (codes "rcpt:") table (c ∷ cs) (omega arith) plain in
    let row = table_key-hashtag (codes "d:") table (c ∷ cs) (omega arith) plain in
    let same = hashtag_in_same (receipt_key table (c ∷ cs)) (row_key table (c ∷ cs)) c cs [] h in
    ap (λ tag. crc16 tag % num_slots) (receipt ∙ same ∙ sym row)

-- With a primary key that begins with `}`, the row and its receipt are each hashed as a whole,
-- and as different texts: for every table name without `{`.
pub receipt_key-split :
    (table cs : Bytes)
    → Free b'{' table
    → (hashtag (row_key table (b'}' ∷ cs)) ≡ row_key table (b'}' ∷ cs))
      × (hashtag (receipt_key table (b'}' ∷ cs)) ≡ receipt_key table (b'}' ∷ cs))
      × (row_key table (b'}' ∷ cs) ≢ receipt_key table (b'}' ∷ cs))
unfolding row_key receipt_key
receipt_key-split table cs plain = (
  table_key-hashtag (codes "d:") table (b'}' ∷ cs) (omega arith) plain ∙ whole _,
  table_key-hashtag (codes "rcpt:") table (b'}' ∷ cs) (omega arith) plain ∙ whole _,
  λ e. ground arith,
)
  where
    whole : (key : Bytes) → hashtag_in key (b'}' ∷ (cs ++ codes "}")) ≡ key
    whole key = unfold hashtag_in index_byte in refl

module _ (crc16 : Bytes → ℕ) (t : Table) (complete : IsComplete crc16 t) where
  -- A key that ends in the tag of a slot lies in that slot, whatever stands around the tag.
  pub slot-tag :
      (pre suf : Bytes) (s : ℕ)
      → Free b'{' pre
      → slot crc16 (pre ++ (slot_tag t s ++ suf)) ≡ s % num_slots
  unfolding slot slot_tag
  slot-tag pre suf s h =
      let (m, e, right) = complete (s % num_slots) (omega arith) in
      let alone = rw append-nil at (hashtag-candidate [] m [] tt) in
      rw (e, hashtag-candidate pre m suf h, ← alone) right

  -- With a table that holds a tag for every slot, the log of an asynchronous index shares the slot
  -- of the row it speaks of, for table and index names without `{`.
  pub async_log_key-colocated :
      (table idx row : Bytes)
      → Free b'{' table
      → Free b'{' idx
      → slot crc16 (async_log_key t table idx (slot crc16 row)) ≡ slot crc16 row
  unfolding async_log_key
  async_log_key-colocated table idx row ht hi =
      let s = slot crc16 row in
      let pre = codes "log:idx:" ++ (table ++ (codes ":" ++ (idx ++ codes ":"))) in
      let free : Free b'{' pre = Free-append b'{' (codes "log:idx:") _ (omega arith) (
        Free-append b'{' table _ ht (
          Free-append b'{' (codes ":") _ (omega arith)
            (Free-append b'{' idx _ hi (omega arith)))) in
      let same : pre ++ (slot_tag t s ++ []) ≡ async_log_key t table idx s =
        simp (append_assoc, append-nil) in
      rw same at (slot-tag pre [] s free) ∙ omega (arith, slot-lt crc16 row)
