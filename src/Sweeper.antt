-- ===== src/Sweeper.antt =====
-- sweeper/sweeper.go and script/lua/sweep_batch.lua: expired rows are found dead in their slot, and
-- their receipts name what is removed; txguard.go's `mergeReceiptUndo` reads receipts as well.
pub mod Hashes
pub mod Lines
pub mod Merging
pub mod Batch
pub mod Swept
mod Tests
use ki_db.Base.{
  ℕ, zero, suc, ◌+◌, List, [], ◌∷◌, ◌++◌, map, Option, none, some, ◌>>=◌, Bytes, codes, Bool, true,
  false, ◌&&◌, ◌||◌, ℤ, pos, negsuc, length, take, drop, get_elem?, index_byte, has_prefix, itoa,
  same_text, same_int, if◌then◌else◌,
}
use ki_db.Keycodec.Keys.{row_key, receipt_key, exp_key_n, exp_shard_for}
use ki_db.Txguard.Entries.{Undo}
use ki_db.Txguard.Write.{Pairs, Command}
use ki_db.Txguard.Write.Script.{Lua, Call, next, rounds, number}

-- `strings.SplitN(v, "\x1f", 2)` where it has two parts.
unfoldable pub split_line : Bytes → Option Undo
split_line v = elim (index_byte 31 v) [
  | none ↦ none
  | some i ↦ some (record { bucket = take i v; member = drop (suc i) v })
]

abbrev pub add_line : Option Undo → List Undo → List Undo
add_line none us = us
add_line (some u) us = u ∷ us

-- The index entries of a receipt.
unfoldable pub receipt_undos : Pairs → List Undo
unfolding split_line
receipt_undos [] = []
receipt_undos ((f, v) ∷ rest) =
    if has_prefix f (codes "idx:")
    then add_line (split_line v) (receipt_undos rest)
    else receipt_undos rest

-- The reservations of a receipt.
unfoldable pub receipt_reservations : Pairs → List Bytes
receipt_reservations [] = []
receipt_reservations ((f, v) ∷ rest) =
    if has_prefix f (codes "idx:")
    then receipt_reservations rest
    else if has_prefix f (codes "__uniq:")
    then v ∷ receipt_reservations rest
    else receipt_reservations rest

abbrev pub is_known : Bytes → List Undo → Bool
is_known v [] = false
is_known v (u ∷ us) = same_text (u.bucket ++ (31 ∷ u.member)) v || is_known v us

-- `mergeReceiptUndo`: the receipt's entries that are not yet among the removals.
unfoldable pub new_lines : List Undo → Pairs → List Undo
unfolding split_line
new_lines known [] = []
new_lines known ((f, v) ∷ rest) =
    if has_prefix f (codes "idx:")
    then (if is_known v known
        then new_lines known rest
        else add_line (split_line v) (new_lines known rest))
    else new_lines known rest

unfoldable pub merge_receipt_undo : List Undo → Pairs → List Undo
unfolding new_lines
merge_receipt_undo undos rcpt = undos ++ new_lines undos rcpt

-- The pipeline of a row that the script found dead.
unfoldable pub sweep_commands : (Bytes → ℕ) → Bytes → ℤ → Bytes → Pairs → List Command
unfolding receipt_undos
sweep_commands crc16 table shards pk rcpt =
    map (λ u. Command.zrem u.bucket u.member) (receipt_undos rcpt)
    ++ (Command.zrem (exp_key_n table (pos (exp_shard_for crc16 pk shards)) shards) pk ∷ [])

-- The keys and arguments of sweep_batch.lua for rows of one slot.
unfoldable pub batch_keys : Bytes → List Bytes → List Bytes
batch_keys table pks = map (λ pk. row_key table pk) pks ++ map (λ pk. receipt_key table pk) pks

unfoldable pub entry_args : ℕ → List Bytes → List Bytes
entry_args j [] = []
entry_args j (pk ∷ pks) = pk ∷ (itoa (pos (suc j)) ∷ (itoa (pos (suc j)) ∷ entry_args (suc j) pks))

unfoldable pub batch_argv : List Bytes → List Bytes
unfolding entry_args
batch_argv pks = itoa (pos (length pks)) ∷ entry_args 0 pks

-- `KEYS[i]`
abbrev pub key_at : List Bytes → ℤ → Option Bytes
key_at keys (pos zero) = none
key_at keys (pos (suc i)) = get_elem? keys i
key_at keys (negsuc _) = none

-- `KEYS[n + i]`, for a count from 0 on.
abbrev pub key_behind : List Bytes → ℕ → ℤ → Option Bytes
key_behind keys n (pos i) = key_at keys (pos (n + i))
key_behind keys n (negsuc _) = none

module _ (lua : Lua) (pttl : Bytes → ℤ) where
  -- The loop of sweep_batch.lua: the receipts deleted and the primary keys returned, by the reply
  -- of PTTL for each row.
  unfoldable pub sweep_entries : ℕ → List Bytes → ℕ → List Bytes → Option (List Call × List Bytes)
  unfolding number
  sweep_entries n keys zero args = some ([], [])
  sweep_entries n keys (suc left) args = do
    (pk, args1) ← next args
    (row_idx, args2) ← number lua args1
    (rcpt_idx, args3) ← number lua args2
    row ← key_at keys row_idx
    rest ← sweep_entries n keys left args3
    let dead = (do rcpt ← key_behind keys n rcpt_idx; some (Call.del rcpt ∷ rest.0, pk ∷ rest.1))
    if same_int (pttl row) (negsuc 1) then dead else some rest

  unfoldable pub sweep_batch : List Bytes → List Bytes → Option (List Call × List Bytes)
  unfolding number sweep_entries
  sweep_batch keys args = do
    (n, args1) ← number lua args
    sweep_entries (rounds n) keys (rounds n) args1
