-- ===== src/Txguard/Write/Script.antt =====
-- script/lua/write_row.lua: the calls that the script makes and its answer, from its keys, its
-- arguments and the server's replies. `none` is an error of the script, as on a missing argument.
use ki_db.Base.{
  ℕ, zero, suc, List, [], ◌∷◌, ◌++◌, map, Option, none, some, ◌>>=◌, Bytes, codes, Bool, true,
  false, ◌&&◌, not, ℤ, pos, negsuc, ◌+ℤ◌, get_elem?, same_text, at_least, same_int, if◌then◌else◌,
}
use ki_db.Txguard.Write.{Pairs}

-- The functions of Lua that the script uses.
pub record Lua : Type 0 where
  pub tonumber : Bytes → Option ℤ
  pub tostring : ℤ → Bytes

pub data Call : Type 0 where
  hset : Bytes → Bytes → Bytes → Call
  hdel : Bytes → List Bytes → Call
  hincrby : Bytes → Bytes → ℕ → Call
  rpush : Bytes → Bytes → Call
  pexpire : Bytes → ℤ → Call
  persist del : Bytes → Call

-- The server's replies: HGETALL of the row, LLEN of a log, HINCRBY, and PTTL behind the writes.
pub record Replies : Type 0 where
  pub old : Pairs
  pub llen : Bytes → ℕ
  pub new_ver : ℤ
  pub pttl : ℤ

-- The calls that write, and the script's answer.
abbrev pub Outcome : Type 0
Outcome = List Call × List Bytes

pub record AsyncArg : Type 0 where
  pub log_key : ℤ
  pub redo_member : Bytes
  pub old_iv : Bytes

-- `ARGV[p]` with `p = p + 1`
abbrev pub next : List Bytes → Option (Bytes × List Bytes)
next [] = none
next (x ∷ rest) = some (x, rest)

-- The number of rounds of `for i = 1, n`.
abbrev pub rounds : ℤ → ℕ
rounds (pos n) = n
rounds (negsuc _) = 0

unfoldable pub read_pairs : ℕ → List Bytes → Option (Pairs × List Bytes)
read_pairs zero args = some ([], args)
read_pairs (suc n) args = do
  (a, args1) ← next args
  (b, args2) ← next args1
  (rest, left) ← read_pairs n args2
  some ((a, b) ∷ rest, left)

unfoldable pub read_names : ℕ → List Bytes → Option (List Bytes × List Bytes)
read_names zero args = some ([], args)
read_names (suc n) args = do
  (a, args1) ← next args
  (rest, left) ← read_names n args1
  some (a ∷ rest, left)

-- `KEYS[2 + i]`
unfoldable pub log_key_at : List Bytes → ℤ → Option Bytes
log_key_at keys (pos n) = get_elem? keys (suc n)
log_key_at keys (negsuc zero) = get_elem? keys 0
log_key_at keys (negsuc (suc n)) = none

-- `oldVer ~= expectOld`; `nil` differs from each number.
unfoldable pub is_other : Option ℤ → ℤ → Bool
is_other none expect = true
is_other (some n) expect = not (same_int n expect)

module _ (lua : Lua) where
  unfoldable pub number : List Bytes → Option (ℤ × List Bytes)
  number args = do (x, rest) ← next args; n ← lua.tonumber x; some (n, rest)

  unfoldable pub read_asyncs : ℕ → List Bytes → Option (List AsyncArg × List Bytes)
  unfolding number
  read_asyncs zero args = some ([], args)
  read_asyncs (suc n) args = do
    (k, args1) ← number args
    (r, args2) ← next args1
    (v, args3) ← next args2
    (rest, left) ← read_asyncs n args3
    some (record { log_key = k; redo_member = r; old_iv = v } ∷ rest, left)

  -- The version in the old row: 0 without one, `none` for `nil` where it is no number.
  unfoldable pub old_version : Pairs → Option ℤ
  old_version [] = some (pos 0)
  old_version ((f, v) ∷ rest) =
      if same_text f (codes "_ver") then lua.tonumber v else old_version rest

  -- `tostring(oldVer)`
  unfoldable pub version_text : Option ℤ → Bytes
  version_text none = codes "nil"
  version_text (some n) = lua.tostring n

  module _ (keys : List Bytes) (rs : Replies) where
    -- Whether a log has no room left.
    unfoldable pub is_full : ℤ → List AsyncArg → Option Bool
    unfolding log_key_at
    is_full cap [] = some false
    is_full cap (d ∷ rest) = do
      k ← log_key_at keys d.log_key
      if at_least (pos (rs.llen k)) cap then some true else is_full cap rest

    -- The entries of the logs, with the text of a version at the end.
    unfoldable pub log_calls : Bytes → List AsyncArg → Option (List Call)
    unfolding log_key_at
    log_calls ver [] = some []
    log_calls ver (d ∷ rest) = do
      k ← log_key_at keys d.log_key
      calls ← log_calls ver rest
      some (Call.rpush k (d.redo_member ++ (31 ∷ (d.old_iv ++ (31 ∷ ver)))) ∷ calls)

  -- The lines of the receipt, numbered from `i` on.
  unfoldable pub receipt_calls : Bytes → ℕ → Pairs → List Call
  receipt_calls rcptkey i [] = []
  receipt_calls rcptkey i ((bucket, member) ∷ rest) =
      Call.hset rcptkey (codes "idx:" ++ lua.tostring (pos i)) (bucket ++ (31 ∷ member))
      ∷ receipt_calls rcptkey (suc i) rest

  abbrev pub uniq_calls : Bytes → Pairs → List Call
  uniq_calls rcptkey us = map (λ u. Call.hset rcptkey (codes "__uniq:" ++ u.0) u.1) us

  -- The old receipt goes, the new one comes.
  abbrev pub rebuild_calls : Bytes → Pairs → Pairs → List Call
  rebuild_calls rcptkey lines us =
      Call.del rcptkey ∷ (receipt_calls rcptkey 1 lines ++ uniq_calls rcptkey us)

  -- The receipt and the expiries, by the time to live.
  unfoldable pub expiry_calls : Bytes → Bytes → Pairs → ℤ → ℤ → ℤ → List Bytes → Option (List Call)
  unfolding number read_pairs receipt_calls
  expiry_calls rowkey rcptkey lines ttl grace pttl args =
      let reserved : Option Pairs = (do
        (u, args1) ← number args
        (us, _) ← read_pairs (rounds u) args1
        some us) in
      if same_int ttl (negsuc 1)
      then (do
        us ← reserved
        some (
            rebuild_calls rcptkey lines us
            ++ (if at_least pttl (pos 1) then Call.pexpire rcptkey (pttl +ℤ grace) ∷ [] else [])))
      else if at_least ttl (pos 1)
      then (do
        us ← reserved
        some (
            Call.pexpire rowkey ttl
            ∷ (rebuild_calls rcptkey lines us ++ (Call.pexpire rcptkey (ttl +ℤ grace) ∷ []))))
      else some (Call.persist rowkey ∷ (Call.del rcptkey ∷ []))

  abbrev pub hset_calls : Bytes → Pairs → List Call
  hset_calls rowkey fields = map (λ f. Call.hset rowkey f.0 f.1) fields

  abbrev pub hdel_calls : Bytes → List Bytes → List Call
  hdel_calls rowkey [] = []
  hdel_calls rowkey (f ∷ fs) = Call.hdel rowkey (f ∷ fs) ∷ []

  -- The branch of a write.
  unfoldable pub write_branch :
      List Bytes
      → Replies
      → Bytes
      → Bytes
      → ℤ
      → ℤ
      → Bytes
      → List AsyncArg
      → List Bytes
      → Option Outcome
  unfolding number read_pairs read_names log_calls expiry_calls
  write_branch keys rs rowkey rcptkey ttl grace old_text asyncs args = do
    (r, args1) ← number args
    (lines, args2) ← read_pairs (rounds r) args1
    (f, args3) ← number args2
    (fields, args4) ← read_pairs (rounds f) args3
    (d, args5) ← number args4
    (drops, args6) ← read_names (rounds d) args5
    logs ← log_calls keys rs (lua.tostring rs.new_ver) asyncs
    expiry ← expiry_calls rowkey rcptkey lines ttl grace rs.pttl args6
    some (
      hset_calls rowkey fields
          ++ (hdel_calls rowkey drops ++ (Call.hincrby rowkey (codes "_ver") 1 ∷ (logs ++ expiry))),
      codes "ok" ∷ (old_text ∷ (lua.tostring rs.new_ver ∷ [])),
    )

  -- The branch of a deletion.
  unfoldable pub delete_branch :
      List Bytes → Replies → Bytes → Bytes → Bytes → List AsyncArg → Option Outcome
  unfolding log_calls
  delete_branch keys rs rowkey rcptkey old_text asyncs = elim rs.old [
    | [] ↦ some ([], codes "ok" ∷ (codes "0" ∷ []))
    | ◌∷◌ _ _ ↦ (do
      logs ← log_calls keys rs old_text asyncs
      some (logs ++ (Call.del rowkey ∷ (Call.del rcptkey ∷ [])), codes "ok" ∷ (codes "1" ∷ [])))
  ]

  -- The part behind the check of the logs.
  unfoldable pub run_branch :
      List Bytes
      → Replies
      → Bytes
      → Bytes
      → Bytes
      → ℤ
      → ℤ
      → Bytes
      → List AsyncArg
      → List Bytes
      → Bool
      → Option Outcome
  unfolding write_branch delete_branch
  run_branch keys rs rowkey rcptkey op ttl grace old_text asyncs args true =
      some ([], codes "log_full" ∷ (old_text ∷ []))
  run_branch keys rs rowkey rcptkey op ttl grace old_text asyncs args false =
      if same_text op (codes "D")
      then delete_branch keys rs rowkey rcptkey old_text asyncs
      else write_branch keys rs rowkey rcptkey ttl grace old_text asyncs args

  -- The part behind the check of the version.
  unfoldable pub run_checked :
      List Bytes
      → Replies
      → Bytes
      → Bytes
      → Bytes
      → ℤ
      → ℤ
      → ℤ
      → Bytes
      → ℤ
      → List Bytes
      → Option Outcome
  unfolding read_asyncs is_full run_branch
  run_checked keys rs rowkey rcptkey op ttl cap grace old_text a args = do
    (asyncs, rest) ← read_asyncs (rounds a) args
    full ← is_full keys rs cap asyncs
    run_branch keys rs rowkey rcptkey op ttl grace old_text asyncs rest full

  unfoldable pub write_row : List Bytes → List Bytes → Replies → Option Outcome
  unfolding number old_version version_text is_other run_checked
  write_row keys argv rs = do
    rowkey ← get_elem? keys 0
    rcptkey ← get_elem? keys 1
    (op, args1) ← next argv
    (pk, args2) ← next args1
    (ttl, args3) ← number args2
    (expect, args4) ← number args3
    (cap, args5) ← number args4
    (grace, args6) ← number args5
    (a, args7) ← number args6
    let old_ver = old_version rs.old
    let old_text = version_text old_ver
    let run = run_checked keys rs rowkey rcptkey op ttl cap grace old_text a args7
    if at_least expect (pos 0) && is_other old_ver expect
        then some ([], codes "stale" ∷ (old_text ∷ []))
        else run
