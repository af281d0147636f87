-- ===== src/Txguard/Write/Protocol.antt =====
-- The script reads the arguments that the guard wrote: txguard/txguard.go against
-- script/lua/write_row.lua.
pub mod Reading
pub mod Commit
use ki_db.Base.{
  ℕ, ◌+◌, ◌^◌, ◌<◌, ◌≡◌, List, [], ◌∷◌, ◌++◌, map, Option, none, some, Bytes, codes, Bool, true,
  false, ◌&&◌, ◌||◌, not, ℤ, pos, negsuc, ◌+ℤ◌, itoa, format_uint, at_least, same_int,
  if◌then◌else◌,
}
use ki_db.Txguard.Entries.{AsyncDesc, Undo}
use ki_db.Txguard.Write.{Pairs, Write}
use ki_db.Txguard.Write.Script.{Lua, Call, Replies, Outcome, rebuild_calls, hset_calls, hdel_calls}

-- The numbers that a double holds exactly.
abbrev pub IsSmall : ℤ → Type 0
IsSmall (pos n) = n < 2 ^ 53
IsSmall (negsuc n) = n < 2 ^ 53

-- What Lua documents of `tonumber` on whole numbers in decimal.
pub record ReadsNumbers (lua : Lua) : Type 0 where
  pub tonumber_itoa : (z : ℤ) → IsSmall z → lua.tonumber (itoa z) ≡ some z

abbrev pub lines : List Undo → Pairs
lines rs = map (λ r. (r.bucket, r.member)) rs

module _ (lua : Lua) (rs : Replies) where
  -- Whether the log of an asynchronous index has no room left.
  unfoldable pub has_full : ℤ → List AsyncDesc → Bool
  has_full cap [] = false
  has_full cap (a ∷ rest) =
      if at_least (pos (rs.llen a.log_key)) cap then true else has_full cap rest

  unfoldable pub entries : ℤ → List AsyncDesc → List Call
  entries ver [] = []
  entries ver (a ∷ rest) =
      Call.rpush a.log_key
        (a.redo_member ++ (31 ∷ (format_uint a.old_iv 10 ++ (31 ∷ lua.tostring ver))))
      ∷ entries ver rest

  module _ (rowkey rcptkey : Bytes) (w : Write) where
    -- The receipt and the expiries that a write's time to live asks for.
    unfoldable pub expiry : List Call
    expiry =
        if same_int w.ttlms (negsuc 1)
        then rebuild_calls lua rcptkey (lines w.receipts) w.uniqs
          ++ (if at_least rs.pttl (pos 1)
              then Call.pexpire rcptkey (rs.pttl +ℤ w.grace_ms) ∷ []
              else [])
        else if at_least w.ttlms (pos 1)
        then Call.pexpire rowkey w.ttlms
          ∷ (rebuild_calls lua rcptkey (lines w.receipts) w.uniqs
              ++ (Call.pexpire rcptkey (w.ttlms +ℤ w.grace_ms) ∷ []))
        else Call.persist rowkey ∷ (Call.del rcptkey ∷ [])

    -- What a write does where the server's old row has the version `old_ver`.
    unfoldable pub commit : ℤ → Outcome
    unfolding has_full entries expiry
    commit old_ver =
        if at_least w.observed (pos 0) && not (same_int old_ver w.observed)
        then ([], codes "stale" ∷ (lua.tostring old_ver ∷ []))
        else if has_full w.log_cap w.asyncs
        then ([], codes "log_full" ∷ (lua.tostring old_ver ∷ []))
        else (
          hset_calls lua rowkey (w.fields ++ w.iv_updates)
              ++ (hdel_calls lua rowkey w.drops
                  ++ (Call.hincrby rowkey (codes "_ver") 1
                      ∷ (entries rs.new_ver w.asyncs ++ expiry))),
          codes "ok" ∷ (lua.tostring old_ver ∷ (lua.tostring rs.new_ver ∷ [])),
        )
