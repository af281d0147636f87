-- ===== src/Txguard/Write.antt =====
-- txguard/txguard.go, `writeAttempt` and `DeleteRow`: the arguments of the script write_row.lua, the
-- reading of its answer, and the index commands that follow it. Maps are lists in the order in
-- which the source happens to run through them.
pub mod Script
pub mod Protocol
pub mod Numbers
use ki_db.Base.{
  ℕ, zero, suc, ◌+◌, ◌-◌, ◌/◌, ◌^◌, List, [], ◌∷◌, ◌++◌, map, Option, none, some, Bytes, codes,
  Bool, true, false, ◌||◌, not, ℤ, pos, negsuc, length, has_prefix, itoa, format_uint, parse_uint,
  same_text, ltb, at_least, same_int, if◌then◌else◌, ◌+ℤ◌, Score,
}
use ki_db.Keycodec.Keys.{exp_key_n, exp_shard_for}
use ki_db.Txguard.Entries.{Fields, text_of, AsyncDesc, Undo}
use ki_db.Txguard.Ops.{Redo, Ops}

-- `req.Fields`, and the row as `HGETALL` lists it.
abbrev pub Pairs : Type 0
Pairs = List (Bytes × Bytes)

unfoldable pub value_of : Pairs → Fields
value_of [] f = none
value_of ((g, v) ∷ rest) f = if same_text f g then some v else value_of rest f

-- `oldVerOf`
unfoldable pub old_ver_of : Pairs → ℕ
unfolding value_of
old_ver_of row = elim (parse_uint (text_of (value_of row (codes "_ver")))) [ none ↦ 0 | some v ↦ v ]

abbrev pub is_present : Option Bytes → Bool
is_present none = false
is_present (some _) = true

-- The fields of the old row that the new one lacks.
unfoldable pub dropped : Pairs → Pairs → List Bytes
unfolding value_of
dropped [] fields = []
dropped ((f, v) ∷ rest) fields =
    if has_prefix f (codes "_") || is_present (value_of fields f)
    then dropped rest fields
    else f ∷ dropped rest fields

-- `ttlms`, of a time to live in nanoseconds.
unfoldable pub ttl_ms : Bool → ℤ → ℤ
ttl_ms true ttl = negsuc 1
ttl_ms false (pos n) = pos (n / 1000000)
ttl_ms false (negsuc _) = pos 1

-- The conversion of a uint64 to int64.
unfoldable pub to_int64 : ℕ → ℤ
to_int64 v = if ltb v (2 ^ 63) then pos v else negsuc (2 ^ 64 - 1 - v)

unfoldable pub log_key_from : ℕ → Bytes → List Bytes → Bytes
log_key_from i key [] = codes "1"
log_key_from i key (k ∷ ks) =
    if same_text k key then format_uint (i + 1) 10 else log_key_from (suc i) key ks

-- `logKeyIdx`
unfoldable pub log_key_idx : Bytes → List Bytes → Bytes
unfolding log_key_from
log_key_idx key keys = log_key_from 0 key keys

abbrev pub log_keys : List AsyncDesc → List Bytes
log_keys asyncs = map (λ a. a.log_key) asyncs

unfoldable pub async_args : List Bytes → List AsyncDesc → List Bytes
unfolding log_key_idx
async_args keys [] = []
async_args keys (a ∷ rest) =
    log_key_idx a.log_key keys ∷ (a.redo_member ∷ (format_uint a.old_iv 10 ∷ async_args keys rest))

abbrev pub pair_args : Pairs → List Bytes
pair_args [] = []
pair_args ((a, b) ∷ rest) = a ∷ (b ∷ pair_args rest)

abbrev pub receipt_args : List Undo → List Bytes
receipt_args [] = []
receipt_args (r ∷ rest) = r.bucket ∷ (r.member ∷ receipt_args rest)

-- What one call of the script is made of.
pub record Write : Type 0 where
  pub pk : Bytes
  pub ttlms : ℤ
  pub observed : ℤ
  pub log_cap : ℤ
  pub grace_ms : ℤ
  pub asyncs : List AsyncDesc
  pub receipts : List Undo
  pub fields : Pairs
  pub iv_updates : Pairs
  pub drops : List Bytes
  pub uniqs : Pairs

abbrev pub count : {A : Type 0} → List A → Bytes
count xs = itoa (pos (length xs))

abbrev pub head_args : Bytes → Write → List Bytes → List Bytes
head_args op w rest =
    op
    ∷ w.pk
    ∷ itoa w.ttlms
    ∷ itoa w.observed
    ∷ itoa w.log_cap
    ∷ itoa w.grace_ms
    ∷ count w.asyncs
    ∷ rest

-- The arguments of a write and, with the time to live 0, of a deletion.
unfoldable pub write_argv : Write → List Bytes
unfolding async_args
write_argv w = head_args (codes "W") w (
    async_args (log_keys w.asyncs) w.asyncs
    ++ (count w.receipts
        ∷ (receipt_args w.receipts
            ++ (itoa (pos (length w.fields + length w.iv_updates))
                ∷ (pair_args w.fields
                    ++ (pair_args w.iv_updates
                        ++ (count w.drops ∷ (w.drops ++ (count w.uniqs ∷ pair_args w.uniqs)))))))))

unfoldable pub delete_argv : Write → List Bytes
unfolding async_args
delete_argv w = head_args (codes "D") w (async_args (log_keys w.asyncs) w.asyncs)

abbrev pub script_keys : Bytes → Bytes → Write → List Bytes
script_keys rowkey rcptkey w = rowkey ∷ (rcptkey ∷ log_keys w.asyncs)

pub data Command : Type 0 where
  zrem : Bytes → Bytes → Command
  -- The score is a number, a count of seconds or the text +inf.
  zadd : Bytes → Bytes → Bytes → Command

module _ (s : Score) (crc16 : Bytes → ℕ) where
  -- The entry in the register of expiries; `now` is in seconds, `known` a row that existed.
  unfoldable pub exp_commands : Bytes → ℤ → Bytes → ℤ → Bool → ℕ → List Command
  exp_commands table shards pk (pos (suc ms)) known now =
      Command.zadd (exp_key_n table (pos (exp_shard_for crc16 pk shards)) shards)
        (itoa (pos (now + suc ms / 1000))) pk
      ∷ []
  exp_commands table shards pk (pos zero) known now =
      Command.zadd (exp_key_n table (pos (exp_shard_for crc16 pk shards)) shards) (codes "+inf") pk
      ∷ []
  exp_commands table shards pk (negsuc n) known now =
      if same_int (negsuc n) (negsuc 1)
      then (if known
          then []
          else Command.zadd (exp_key_n table (pos (exp_shard_for crc16 pk shards)) shards)
              (codes "+inf") pk
            ∷ [])
      else []

  -- The pipeline behind a write that the script accepted.
  unfoldable pub index_commands : Ops s → List Command → List Command
  index_commands ops exp =
      map (λ u. Command.zrem u.bucket u.member) ops.undos
      ++ (map (λ x. Command.zadd x.bucket (s.format x.score) x.member) ops.redos ++ exp)
