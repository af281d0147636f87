-- ===== src/Txguard/Write/Protocol/Commit.antt =====
-- The script on the guard's arguments does what the write asks for.
use ki_db.Base.{
  ◌+◌, ◌^◌, ◌<◌, ◌≡◌, refl, inl, inr, List, [], ◌∷◌, ◌++◌, some, Bytes, codes, ◌&&◌, not, ℤ, pos,
  negsuc, length, append-nil, In, All, All-imp, itoa, Bool-cases, at_least, same_int,
}
use ki_db.Txguard.Entries.{AsyncDesc}
use ki_db.Txguard.Write.{
  Write, log_keys, async_args, receipt_args, pair_args, count, write_argv, script_keys,
}
use ki_db.Txguard.Write.Script.{
  hset_calls, hdel_calls, Lua, Call, Replies, AsyncArg, read_pairs, old_version, version_text,
  is_other, expiry_calls, write_branch, run_branch, run_checked, write_row,
}
use ki_db.Txguard.Write.Protocol.{IsSmall, ReadsNumbers, lines, has_full, entries, expiry, commit}
use ki_db.Txguard.Write.Protocol.Reading.{
  read_pairs-pair_args, read_pairs-both, read_pairs-receipt_args, read_names-names, Matches,
  number-itoa, read_asyncs-async_args, is_full-has_full, log_calls-entries,
}

-- Each number of the arguments is one that a double holds exactly.
abbrev pub HasSmallNumbers : Write → Type 0
HasSmallNumbers w =
    IsSmall w.ttlms
    × IsSmall w.observed
    × IsSmall w.log_cap
    × IsSmall w.grace_ms
    × (length w.asyncs < 2 ^ 53)
    × (length w.receipts < 2 ^ 53)
    × (length w.fields + length w.iv_updates < 2 ^ 53)
    × (length w.drops < 2 ^ 53)
    × (length w.uniqs < 2 ^ 53)

keys_In : (asyncs : List AsyncDesc) → All (λ a. In a.log_key (log_keys asyncs)) asyncs
keys_In [] = tt
keys_In (a ∷ rest) = (inl refl, All-imp (λ b h. inr h) rest (keys_In rest))

keys-length : (asyncs : List AsyncDesc) → length (log_keys asyncs) ≡ length asyncs
keys-length [] = refl
keys-length (a ∷ rest) = rw (keys-length rest) refl

module _ (lua : Lua) (reads : ReadsNumbers lua) (rs : Replies) (rowkey rcptkey : Bytes)
    (w : Write) where
  expiry_calls-expiry :
      length w.uniqs < 2 ^ 53
      → expiry_calls lua rowkey rcptkey
          (lines w.receipts)
          w.ttlms
          w.grace_ms
          rs.pttl
          (count w.uniqs ∷ pair_args w.uniqs)
        ≡ some (expiry lua rs rowkey rcptkey w)
  unfolding expiry_calls expiry
  expiry_calls-expiry few =
      let us : read_pairs (length w.uniqs) (pair_args w.uniqs) ≡ some (w.uniqs, []) =
        rw (append-nil (pair_args w.uniqs)) at (read_pairs-pair_args w.uniqs []) in
      elim (Bool-cases (same_int w.ttlms (negsuc 1))) [
        | inl keep ↦
            rw keep (
              rw (number-itoa lua reads (pos (length w.uniqs)) (pair_args w.uniqs) few)
                (rw us refl))
        | inr e ↦ elim (Bool-cases (at_least w.ttlms (pos 1))) [
          | inl some_time ↦
              rw (e, some_time)
                (rw (number-itoa lua reads (pos (length w.uniqs)) (pair_args w.uniqs) few)
                  (rw us refl))
          | inr no_time ↦ rw (e, no_time) refl
        ]
      ]

  -- The arguments behind those of the logs.
  abbrev tail_args : List Bytes
  tail_args =
      count w.receipts
      ∷ (receipt_args w.receipts
          ++ (itoa (pos (length w.fields + length w.iv_updates))
              ∷ (pair_args w.fields
                  ++ (pair_args w.iv_updates
                      ++ (count w.drops ∷ (w.drops ++ (count w.uniqs ∷ pair_args w.uniqs)))))))

  write_branch-commit :
      (old_ver : ℤ) (ds : List AsyncArg)
      → HasSmallNumbers w
      → Matches rowkey rcptkey (log_keys w.asyncs) w.asyncs ds
      → write_branch lua
          (script_keys rowkey rcptkey w)
          rs
          rowkey
          rcptkey
          w.ttlms
          w.grace_ms
          (lua.tostring old_ver)
          ds
          tail_args
        ≡ some (
          hset_calls lua rowkey (w.fields ++ w.iv_updates)
              ++ (hdel_calls lua rowkey w.drops
                  ++ (Call.hincrby rowkey (codes "_ver") 1
                      ∷ (entries lua rs rs.new_ver w.asyncs ++ expiry lua rs rowkey rcptkey w))),
          codes "ok" ∷ (lua.tostring old_ver ∷ (lua.tostring rs.new_ver ∷ [])),
        )
  unfolding write_branch
  write_branch-commit old_ver ds small match =
      let left = count w.uniqs ∷ pair_args w.uniqs in
      let drop_args = count w.drops ∷ (w.drops ++ left) in
      let field_args = pair_args w.fields ++ (pair_args w.iv_updates ++ drop_args) in
      let logs =
        log_calls-entries lua reads rowkey rcptkey (log_keys w.asyncs) rs rs.new_ver w.asyncs ds
          match in
      rw
        (number-itoa lua reads (pos (length w.receipts))
          (receipt_args w.receipts
            ++ (itoa (pos (length w.fields + length w.iv_updates)) ∷ field_args))
          small.5)
        (rw
          (read_pairs-receipt_args w.receipts
            (itoa (pos (length w.fields + length w.iv_updates)) ∷ field_args))
          (rw
            (number-itoa lua reads (pos (length w.fields + length w.iv_updates)) field_args small.6)
            (rw (read_pairs-both w.fields w.iv_updates drop_args) (
              rw (number-itoa lua reads (pos (length w.drops)) (w.drops ++ left) small.7) (
                rw (read_names-names w.drops left)
                  (rw logs (rw (expiry_calls-expiry small.8) refl)))))))

  -- Where Lua reads decimal numbers, each number of the write is below 2^53 and the old row's version
  -- is readable: the script, run on the keys and the arguments that the guard writes for a write,
  -- makes the calls and gives the answer that the write asks for: `stale` without a call on
  -- another version than the one observed, `log_full` without a call where a log is full, and
  -- otherwise the fields, the dropped fields, the new version, an entry in each log, and the receipt
  -- and expiries by the time to live.
  pub write_row-write_argv :
      (old_ver : ℤ)
      → HasSmallNumbers w
      → old_version lua rs.old ≡ some old_ver
      → write_row lua (script_keys rowkey rcptkey w) (write_argv w) rs
        ≡ some (commit lua rs rowkey rcptkey w old_ver)
  unfolding write_row version_text is_other write_argv commit run_checked run_branch
  write_row-write_argv old_ver small old =
      let keys = log_keys w.asyncs in
      let a_args = async_args keys w.asyncs ++ tail_args in
      let few : length keys < 2 ^ 53 = rw (keys-length w.asyncs) small.4 in
      let (ds, read, match) =
        read_asyncs-async_args lua reads rowkey rcptkey keys w.asyncs tail_args (keys_In w.asyncs)
          few in
      let full = is_full-has_full lua reads rowkey rcptkey keys rs w.log_cap w.asyncs ds match in
      rw
        (number-itoa lua reads w.ttlms
          (itoa w.observed ∷ itoa w.log_cap ∷ itoa w.grace_ms ∷ count w.asyncs ∷ a_args) small.0)
        (rw
          (number-itoa lua reads w.observed
            (itoa w.log_cap ∷ itoa w.grace_ms ∷ count w.asyncs ∷ a_args) small.1)
          (rw (number-itoa lua reads w.log_cap (itoa w.grace_ms ∷ count w.asyncs ∷ a_args) small.2)
            (rw (number-itoa lua reads w.grace_ms (count w.asyncs ∷ a_args) small.3) (
              rw (number-itoa lua reads (pos (length w.asyncs)) a_args small.4) (
                rw old
                  (elim (Bool-cases
                    (at_least w.observed (pos 0) && not (same_int old_ver w.observed))) [
                      | inl e ↦ rw e refl
                      | inr e ↦ rw e (elim (Bool-cases (has_full lua rs w.log_cap w.asyncs)) [
                        | inl f ↦ rw (read, run_checked) (rw (full, run_checked) (rw f refl))
                        | inr f ↦
                            rw (read, run_checked)
                              (rw (full, run_checked)
                                (rw f (write_branch-commit old_ver ds small match)))
                      ])
                    ]))))))
